-- ===== src/Shell/Argv/Lines.antt =====
-- Command lines: MakeArgv reads back the arguments of a line that is written by the rules of
-- Pieces, whatever stands behind the line's end.
use mathlib.Core.List.{append_assoc, append-nil}
use mathlib.Core.Bool.{or_assoc}
use mathlib.Core.Path.{ap₂, subst}
use ncftp.Base.{
  ℕ, zero, suc, ◌+◌, ◌≤◌, ◌<◌, ◌≡◌, refl, sym, ap, ◌∙◌, ◌⊎◌, inl, inr, Bool, true, false, ◌||◌,
  List, [], ◌∷◌, ◌++◌, map, arith, ◌==◌, length, if◌then◌else◌,
}
use ncftp.Base.Bytes.{Bytes}
use ncftp.Shell.Argv.{
  Arg, Params, done, Acc, push_quoted, is_glob, ends_arg, plain, ended, scan, stop, start, skip,
  start_acc, begin, scan_from, arg_of, parse_args, make_argv,
}
use ncftp.Shell.Argv.Pieces.{
  Piece, raw, esc, lit, pushes, take_piece, take_pieces, piece_text, size, pieces_bytes, ArePieces,
  scan-pieces, used-take_piece,
}

abbrev pub any_glob : Bytes → Bool
any_glob [] = false
any_glob (c ∷ t) = is_glob c || any_glob t

abbrev pub word_text : List Piece → Bytes
word_text [] = []
word_text (x ∷ xs) = piece_text x ++ word_text xs

-- Only a character between quotes marks its argument.
abbrev pub piece_glob : Piece → Bool
piece_glob (raw c) = false
piece_glob (esc c) = false
piece_glob (lit q t) = any_glob t

abbrev pub word_glob : List Piece → Bool
word_glob [] = false
word_glob (x ∷ xs) = piece_glob x || word_glob xs

-- What an argument's pieces stand for.
abbrev pub word_arg : List Piece → Arg
word_arg w = record { text = word_text w; no_glob = word_glob w }

-- An argument begins with a piece, and not with a `!` or a `~` of its own.
abbrev pub Begins : List Piece → Type 0
Begins [] = ⊥
Begins (raw c ∷ xs) = ((c == b'!') ≡ false) × ((c == b'~') ≡ false)
Begins (x ∷ xs) = Unit

abbrev pub AreWords : List (List Piece) → Type 0
AreWords [] = Unit
AreWords (w ∷ ws) = (Begins w × ArePieces w) × AreWords ws

-- The words, each behind a space.
abbrev pub words_bytes : List (List Piece) → Bytes
words_bytes [] = []
words_bytes (w ∷ ws) = 32 ∷ (pieces_bytes w ++ words_bytes ws)

-- The bytes of `dbuf` that the words take with their NULs.
abbrev pub total : List (List Piece) → ℕ
total [] = 0
total (w ∷ ws) = size w + 1 + total ws

text-pushes : (acc : Acc) (t : Bytes) → (pushes acc t).text ≡ acc.text ++ t
text-pushes acc [] = sym (append-nil acc.text)
text-pushes acc (c ∷ t) = text-pushes (push_quoted acc c) t ∙ append_assoc acc.text (c ∷ []) t

no_glob-pushes : (acc : Acc) (t : Bytes) → (pushes acc t).no_glob ≡ (acc.no_glob || any_glob t)
no_glob-pushes acc [] = ground arith
no_glob-pushes acc (c ∷ t) =
    no_glob-pushes (push_quoted acc c) t ∙ or_assoc acc.no_glob (is_glob c) (any_glob t)

text-take_piece : (acc : Acc) (x : Piece) → (take_piece acc x).text ≡ acc.text ++ piece_text x
text-take_piece acc (raw c) = refl
text-take_piece acc (esc c) = refl
text-take_piece acc (lit q t) = text-pushes acc t

no_glob-take_piece :
    (acc : Acc) (x : Piece) → (take_piece acc x).no_glob ≡ (acc.no_glob || piece_glob x)
no_glob-take_piece acc (raw c) = ground arith
no_glob-take_piece acc (esc c) = ground arith
no_glob-take_piece acc (lit q t) = no_glob-pushes acc t

text-take_pieces : (acc : Acc) (w : List Piece) → (take_pieces acc w).text ≡ acc.text ++ word_text w
text-take_pieces acc [] = sym (append-nil acc.text)
text-take_pieces acc (x ∷ xs) =
    text-take_pieces (take_piece acc x) xs
    ∙ ap (λ t. t ++ word_text xs) (text-take_piece acc x)
    ∙ append_assoc acc.text (piece_text x) (word_text xs)

no_glob-take_pieces :
    (acc : Acc) (w : List Piece) → (take_pieces acc w).no_glob ≡ (acc.no_glob || word_glob w)
no_glob-take_pieces acc [] = ground arith
no_glob-take_pieces acc (x ∷ xs) =
    no_glob-take_pieces (take_piece acc x) xs
    ∙ ap (λ b. b || word_glob xs) (no_glob-take_piece acc x)
    ∙ or_assoc acc.no_glob (piece_glob x) (word_glob xs)

pub used-take_pieces : (acc : Acc) (w : List Piece) → (take_pieces acc w).used ≡ acc.used + size w
used-take_pieces acc [] = omega arith
used-take_pieces acc (x ∷ xs) =
    omega (arith, used-take_pieces (take_piece acc x) xs, used-take_piece acc x)

pub arg_of-take_pieces :
    (used : ℕ) (w : List Piece) → arg_of (take_pieces (start_acc used) w) ≡ word_arg w
arg_of-take_pieces used w =
    ap₂ (λ t g. record { text = t; no_glob = g }) (text-take_pieces (start_acc used) w)
      (no_glob-take_pieces (start_acc used) w)

-- Where `scp` is left by the end of the line: at a NUL, and behind a semicolon.
abbrev pub left : ℕ → Bytes → Bytes
left e r = if e == 0 then e ∷ r else r

abbrev pub EndsLine : ℕ → Type 0
EndsLine e = (e ≡ 0) ⊎ (e ≡ b';')

pub skip-word :
    (w : List Piece) (r : Bytes)
    → Begins w
    → ArePieces w
    → skip (32 ∷ (pieces_bytes w ++ r)) ≡ start (pieces_bytes w ++ r)
unfolding skip
skip-word [] r b ok = elim b [ ]
skip-word (raw c ∷ xs) r b ok = ground arith
skip-word (esc c ∷ xs) r b ok = refl
skip-word (lit q t ∷ xs) r b ok = ground arith

skip-end : (e : ℕ) (r : Bytes) → EndsLine e → skip (e ∷ r) ≡ stop (left e r)
unfolding skip
skip-end e r (inl h) = rw h
skip-end e r (inr h) = rw h

pub begin-word :
    (p : Params) (args : List Arg) (used : ℕ) (w : List Piece) (r : Bytes)
    → Begins w
    → ArePieces w
    → begin p args used (pieces_bytes w ++ r) ≡ scan_from (start_acc used) (pieces_bytes w ++ r)
unfolding begin
begin-word p args used [] r b ok = elim b [ ]
begin-word p [] used (raw c ∷ xs) r b ok = rw (b.0)
begin-word p (a ∷ args) used (raw c ∷ xs) r b ok = ground (arith, b.1)
begin-word p [] used (esc c ∷ xs) r b ok = refl
begin-word p (a ∷ args) used (esc c ∷ xs) r b ok = ground arith
begin-word p [] used (lit q t ∷ xs) r b ok = ground arith
begin-word p (a ∷ args) used (lit q t ∷ xs) r b ok = ground arith

tail_ends :
    (ws : List (List Piece)) (e : ℕ) (r : Bytes)
    → EndsLine e
    → (x : ℕ) × (s : Bytes) × (words_bytes ws ++ e ∷ r ≡ x ∷ s) × (ends_arg x ≡ true)
tail_ends [] e r (inl h) = (e, r, refl, rw h)
tail_ends [] e r (inr h) = (e, r, refl, rw h)
tail_ends (w ∷ ws) e r h = (32, (pieces_bytes w ++ words_bytes ws) ++ e ∷ r, refl, refl)

pub scan-word :
    (p : Params) (acc : Acc) (w : List Piece) (tail : Bytes) (x : ℕ) (s : Bytes)
    → ArePieces w
    → acc.used + size w ≤ p.lim
    → tail ≡ x ∷ s
    → ends_arg x ≡ true
    → scan p plain acc (pieces_bytes w ++ tail) ≡ ended (take_pieces acc w) tail
scan-word p acc w tail x s ok room e end =
    subst (λ l. scan p plain acc (pieces_bytes w ++ l) ≡ ended (take_pieces acc w) l) (sym e)
      (scan-pieces p w acc x s ok room end)

pub parse_args-word :
    (p : Params) (k : ℕ) (args : List Arg) (used : ℕ) (w : List Piece) (tail r : Bytes)
    → Begins w
    → ArePieces w
    → scan p plain (start_acc used) (pieces_bytes w ++ tail)
      ≡ ended (take_pieces (start_acc used) w) r
    → parse_args p (suc k) args used (32 ∷ (pieces_bytes w ++ tail))
      ≡ parse_args p k (args ++ word_arg w ∷ []) (used + (size w + 1)) r
unfolding parse_args
parse_args-word p k args used w tail r b ok e =
    rw (skip-word w tail b ok, parse_args, begin-word p args used w tail b ok, e)
      (ap₂ (λ a u. parse_args p k (args ++ a ∷ []) u r) (arg_of-take_pieces used w)
        (omega (arith, used-take_pieces (start_acc used) w)))

parse_args-words :
    (p : Params) (k : ℕ) (args : List Arg) (used : ℕ) (ws : List (List Piece)) (e : ℕ) (r : Bytes)
    → AreWords ws
    → length ws < k
    → used + total ws ≤ p.lim + 1
    → EndsLine e
    → parse_args p k args used (words_bytes ws ++ e ∷ r)
      ≡ done (args ++ map word_arg ws) (left e r) (used + total ws)
unfolding parse_args
parse_args-words p zero args used ws e r ok fuel room end = absurd (omega arith)
parse_args-words p (suc k) args used [] e r ok fuel room end =
    rw (skip-end e r end, parse_args, append-nil args) (ap (done args (left e r)) (omega arith))
parse_args-words p (suc k) args used (w ∷ ws) e r ok fuel room end =
    let (x, s, eq, ends) = tail_ends ws e r end in
    let tail = words_bytes ws ++ e ∷ r in
    ap (λ l. parse_args p (suc k) args used (32 ∷ l))
      (append_assoc (pieces_bytes w) (words_bytes ws) (e ∷ r))
    ∙ parse_args-word p k args used w tail tail ok.0.0 ok.0.1
        (scan-word p (start_acc used) w tail x s ok.0.1 (omega arith) eq ends)
    ∙ parse_args-words p k (args ++ word_arg w ∷ []) (used + (size w + 1)) ws e r ok.1 (omega arith)
        (omega arith) end
    ∙ ap₂ (λ a u. done a (left e r) u) (append_assoc args (word_arg w ∷ []) (map word_arg ws))
        (omega arith)

-- MakeArgv of a line of words, each behind a space and written as characters of their own,
-- characters behind a backslash and quoted texts, that ends in a NUL or a semicolon: if there are
-- fewer words than `cargcmax` and they fit in `dbuf` with a NUL each, the arguments are what the
-- words stand for, with a mark where a quoted character is special in a pattern. The line is
-- left at the NUL or behind the semicolon, and nothing behind is read.
pub make_argv-words :
    (p : Params) (ws : List (List Piece)) (e : ℕ) (r : Bytes)
    → AreWords ws
    → length ws < p.cargcmax
    → total ws ≤ p.lim + 1
    → EndsLine e
    → make_argv p (words_bytes ws ++ e ∷ r) ≡ done (map word_arg ws) (left e r) (total ws)
unfolding make_argv
make_argv-words p ws e r ok fuel room end =
    parse_args-words p p.cargcmax [] 0 ws e r ok fuel (omega arith) end
    ∙ ap (done (map word_arg ws) (left e r)) (omega arith)
