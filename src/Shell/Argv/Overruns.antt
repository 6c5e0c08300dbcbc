-- ===== src/Shell/Argv/Overruns.antt =====
-- Two lines on which MakeArgv leaves its arrays.
use ncftp.Base.{ℕ, zero, suc, ◌+◌, ◌≤◌, ◌≡◌, refl, sym, ap, ◌∙◌, false, List, [], ◌∷◌, ◌++◌, arith}
use ncftp.Base.Bytes.{Bytes}
use ncftp.Shell.Argv.{Arg, Params, done, skip, start_acc, begin, scan_from, parse_args, make_argv}
use ncftp.Shell.Argv.Pieces.{
  Piece, take_pieces, size, pieces_bytes, ArePieces, scan-prefix, scan-pieces, scan_backslash,
  scan_empty,
}
use ncftp.Shell.Argv.Lines.{Begins, word_arg, parse_args-word, scan-word}

abbrev pub empty_arg : Arg
empty_arg = record { text = []; no_glob = false }

-- A space and `""`, then the end of the line.
abbrev pub empty_word : Bytes → Bytes
empty_word r = 32 ∷ 34 ∷ 34 ∷ 0 ∷ r

parse_args-empty :
    (p : Params) (k : ℕ) (a : Arg) (used : ℕ) (r : Bytes)
    → parse_args p (suc (suc k)) (a ∷ []) used (empty_word r)
      ≡ done (a ∷ empty_arg ∷ []) (0 ∷ r) (used + 1)
unfolding parse_args skip begin
parse_args-empty p k a used r =
    let s = scan_empty p (start_acc used) 0 r refl in
    let b : begin p (a ∷ []) used (34 ∷ 34 ∷ 0 ∷ r) ≡ scan_from (start_acc used) (34 ∷ 34 ∷ 0 ∷ r) =
      ground arith in
    rw (b, parse_args, s)

-- A first word that fills `dbuf` up to `dlim` and then `""`: MakeArgv succeeds and has written
-- `lim + 2` bytes to an array of `lim + 1`.
pub make_argv_overflow :
    (p : Params) (w : List Piece) (k : ℕ) (r : Bytes)
    → Begins w
    → ArePieces w
    → size w ≡ p.lim
    → p.cargcmax ≡ suc (suc (suc k))
    → make_argv p (32 ∷ (pieces_bytes w ++ empty_word r))
      ≡ done (word_arg w ∷ empty_arg ∷ []) (0 ∷ r) (p.lim + 2)
unfolding make_argv
make_argv_overflow p w k r b ok fill room =
    ap (λ n. parse_args p n [] 0 (32 ∷ (pieces_bytes w ++ empty_word r))) room
    ∙ parse_args-word p (suc (suc k)) [] 0 w (empty_word r) (empty_word r) b ok
        (scan-word p (start_acc 0) w (empty_word r) 32 (34 ∷ 34 ∷ 0 ∷ r) ok (omega arith) refl refl)
    ∙ parse_args-empty p k (word_arg w) (0 + (size w + 1)) r
    ∙ ap (done (word_arg w ∷ empty_arg ∷ []) (0 ∷ r)) (omega arith)

-- A space before the next word is skipped.
parse_args-space :
    (p : Params) (k : ℕ) (args : List Arg) (used : ℕ) (s : Bytes)
    → parse_args p k args used (32 ∷ s) ≡ parse_args p k args used s
unfolding parse_args skip
parse_args-space p zero args used s = refl
parse_args-space p (suc k) args used s = refl

after_word :
    (p : Params) (k : ℕ) (w : List Piece) (stale : Bytes)
    → Begins w
    → ArePieces w
    → size w ≤ p.lim
    → parse_args p k [] 0 (32 ∷ (pieces_bytes w ++ 92 ∷ 0 ∷ stale))
      ≡ parse_args p k [] 0 (32 ∷ (pieces_bytes w ++ 32 ∷ stale))
unfolding parse_args
after_word p zero w stale b ok room = refl
after_word p (suc k) w stale b ok room =
    let acc = start_acc 0 in
    parse_args-word p k [] 0 w (92 ∷ 0 ∷ stale) stale b ok (
      scan-prefix p w acc (92 ∷ 0 ∷ stale) ok (omega arith)
      ∙ scan_backslash p (take_pieces acc w) stale)
    ∙ sym (parse_args-space p k (word_arg w ∷ []) (0 + (size w + 1)) stale)
    ∙ sym (
        parse_args-word p k [] 0 w (32 ∷ stale) (32 ∷ stale) b ok
          (scan-pieces p w acc 32 stale ok (omega arith) refl))

-- A word behind a space and a backslash before the line's NUL: MakeArgv goes on behind the NUL,
-- as if a space stood there in place of the backslash and the NUL.
pub make_argv_backslash :
    (p : Params) (w : List Piece) (stale : Bytes)
    → Begins w
    → ArePieces w
    → size w ≤ p.lim
    → make_argv p (32 ∷ (pieces_bytes w ++ 92 ∷ 0 ∷ stale))
      ≡ make_argv p (32 ∷ (pieces_bytes w ++ 32 ∷ stale))
unfolding make_argv
make_argv_backslash p w stale b ok room = after_word p p.cargcmax w stale b ok room
