-- ===== src/Shell/Argv/Pieces.antt =====
-- The syntax of arguments: MakeArgv reads back every line that is written by these rules.
use mathlib.Core.List.{append_assoc}
use ncftp.Base.{
  ℕ, suc, ◌+◌, ◌≤◌, ◌≡◌, refl, ap, ◌∙◌, ◌⊎◌, inl, inr, true, false, ◌||◌, List, [], ◌∷◌, ◌++◌,
  arith, leb, ◌==◌, length,
}
use ncftp.Base.Bytes.{Bytes}
use ncftp.Shell.Argv.{
  Params, Acc, push, push_quoted, Mode, plain, escaped, quoted, ends_arg, go, stop_at, step, ended,
  scan,
}

-- A character of its own, a character behind a backslash, or a text between quotes `q`.
pub data Piece : Type 0 where
  raw esc : ℕ → Piece
  lit : ℕ → Bytes → Piece

abbrev pub piece_bytes : Piece → Bytes
piece_bytes (raw c) = c ∷ []
piece_bytes (esc c) = 92 ∷ c ∷ []
piece_bytes (lit q t) = q ∷ (t ++ q ∷ [])

abbrev pub IsText : ℕ → Bytes → Type 0
IsText q [] = Unit
IsText q (c ∷ t) = ((c == 0) ≡ false) × ((c == q) ≡ false) × IsText q t

abbrev pub IsPiece : Piece → Type 0
IsPiece (raw c) = (ends_arg c ≡ false) × ((c == 39 || c == 34) ≡ false) × ((c == 92) ≡ false)
IsPiece (esc c) = (c == 0) ≡ false
IsPiece (lit q t) = ((q ≡ 39) ⊎ (q ≡ 34)) × IsText q t

abbrev pub pushes : Acc → Bytes → Acc
pushes acc [] = acc
pushes acc (c ∷ t) = pushes (push_quoted acc c) t

abbrev pub take_piece : Acc → Piece → Acc
take_piece acc (raw c) = push acc c
take_piece acc (esc c) = push acc c
take_piece acc (lit q t) = pushes acc t

abbrev pub take_pieces : Acc → List Piece → Acc
take_pieces acc [] = acc
take_pieces acc (x ∷ xs) = take_pieces (take_piece acc x) xs

-- The characters that a piece stands for.
abbrev pub piece_text : Piece → Bytes
piece_text (raw c) = c ∷ []
piece_text (esc c) = c ∷ []
piece_text (lit q t) = t

abbrev pub size : List Piece → ℕ
size [] = 0
size (x ∷ xs) = length (piece_text x) + size xs

abbrev pub pieces_bytes : List Piece → Bytes
pieces_bytes [] = []
pieces_bytes (x ∷ xs) = piece_bytes x ++ pieces_bytes xs

abbrev pub ArePieces : List Piece → Type 0
ArePieces [] = Unit
ArePieces (x ∷ xs) = IsPiece x × ArePieces xs

used-pushes : (acc : Acc) (t : Bytes) → (pushes acc t).used ≡ acc.used + length t
used-pushes acc [] = omega arith
used-pushes acc (c ∷ t) = omega (arith, used-pushes (push_quoted acc c) t)

pub used-take_piece :
    (acc : Acc) (x : Piece) → (take_piece acc x).used ≡ acc.used + length (piece_text x)
used-take_piece acc (raw c) = refl
used-take_piece acc (esc c) = refl
used-take_piece acc (lit q t) = used-pushes acc t

quote-ne_nul : (q : ℕ) → (q ≡ 39) ⊎ (q ≡ 34) → (q == 0) ≡ false
quote-ne_nul q (inl e) = rw e
quote-ne_nul q (inr e) = rw e

module _ (p : Params) where
  scan-go :
      (mode : Mode) (acc : Acc) (c : ℕ) (s : Bytes) (mode' : Mode) (acc' : Acc)
      → step p mode acc c ≡ go mode' acc'
      → scan p mode acc (c ∷ s) ≡ scan p mode' acc' s
  unfolding scan
  scan-go mode acc c s mode' acc' e = rw (e, scan)

  scan-stop :
      (acc acc' : Acc) (c : ℕ) (s : Bytes)
      → step p plain acc c ≡ stop_at acc'
      → scan p plain acc (c ∷ s) ≡ ended acc' (c ∷ s)
  unfolding scan
  scan-stop acc acc' c s e = rw (e, scan)

  not_full : (acc : Acc) (n : ℕ) → acc.used + suc n ≤ p.lim → leb p.lim acc.used ≡ false
  not_full acc n room = ground arith

  scan-lit :
      (q : ℕ) (t : Bytes) (acc : Acc) (r : Bytes)
      → (q == 0) ≡ false
      → IsText q t
      → acc.used + length t ≤ p.lim
      → scan p (quoted q) acc (t ++ q ∷ r) ≡ scan p plain (pushes acc t) r
  unfolding step
  scan-lit q [] acc r ne ok room = scan-go (quoted q) acc q r plain acc (rw ne (ground arith))
  scan-lit q (c ∷ t) acc r ne ok room =
      scan-go (quoted q) acc c (t ++ q ∷ r) (quoted q) (push_quoted acc c)
        (rw (ok.0, ok.1, not_full acc (length t) room))
      ∙ scan-lit q t (push_quoted acc c) r ne ok.2 (omega arith)

  open_quote :
      (q : ℕ) (acc : Acc) (r : Bytes)
      → (q ≡ 39) ⊎ (q ≡ 34)
      → scan p plain acc (q ∷ r) ≡ scan p (quoted q) acc r
  unfolding step
  open_quote q acc r (inl e) = scan-go plain acc q r (quoted q) acc (rw e)
  open_quote q acc r (inr e) = scan-go plain acc q r (quoted q) acc (rw e)

  scan-piece :
      (x : Piece) (acc : Acc) (r : Bytes)
      → IsPiece x
      → acc.used + length (piece_text x) ≤ p.lim
      → scan p plain acc (piece_bytes x ++ r) ≡ scan p plain (take_piece acc x) r
  unfolding step
  scan-piece (raw c) acc r ok room =
      scan-go plain acc c r plain (push acc c) (rw (ok.0, ok.1, ok.2, not_full acc 0 room))
  scan-piece (esc c) acc r ok room =
      scan-go plain acc 92 (c ∷ r) escaped acc refl
      ∙ scan-go escaped acc c r plain (push acc c) (rw (ok, not_full acc 0 room))
  scan-piece (lit q t) acc r ok room =
      open_quote q acc ((t ++ q ∷ []) ++ r) ok.0
      ∙ ap (scan p (quoted q) acc) (append_assoc t (q ∷ []) r)
      ∙ scan-lit q t acc r (quote-ne_nul q ok.0) ok.1 room

  pub scan-prefix :
      (xs : List Piece) (acc : Acc) (r : Bytes)
      → ArePieces xs
      → acc.used + size xs ≤ p.lim
      → scan p plain acc (pieces_bytes xs ++ r) ≡ scan p plain (take_pieces acc xs) r
  scan-prefix [] acc r ok room = refl
  scan-prefix (x ∷ xs) acc r ok room =
      ap (scan p plain acc) (append_assoc (piece_bytes x) (pieces_bytes xs) r)
      ∙ scan-piece x acc (pieces_bytes xs ++ r) ok.0 (omega arith)
      ∙ scan-prefix xs (take_piece acc x) r ok.1 (omega (arith, used-take_piece acc x))

  pub scan-pieces :
      (xs : List Piece) (acc : Acc) (e : ℕ) (r : Bytes)
      → ArePieces xs
      → acc.used + size xs ≤ p.lim
      → ends_arg e ≡ true
      → scan p plain acc (pieces_bytes xs ++ e ∷ r) ≡ ended (take_pieces acc xs) (e ∷ r)
  unfolding step
  scan-pieces xs acc e r ok room end =
      scan-prefix xs acc (e ∷ r) ok room
      ∙ scan-stop (take_pieces acc xs) (take_pieces acc xs) e r (rw end)

  -- A backslash before the line's NUL: the argument ends, and `scp` stands behind the NUL.
  pub scan_backslash : (acc : Acc) (r : Bytes) → scan p plain acc (92 ∷ 0 ∷ r) ≡ ended acc r
  unfolding scan step
  scan_backslash acc r = refl

  -- Two quotes with nothing between write nothing.
  pub scan_empty :
      (acc : Acc) (e : ℕ) (r : Bytes)
      → ends_arg e ≡ true
      → scan p plain acc (34 ∷ 34 ∷ e ∷ r) ≡ ended acc (e ∷ r)
  unfolding step
  scan_empty acc e r end =
      scan-go plain acc 34 (34 ∷ e ∷ r) (quoted 34) acc refl
      ∙ scan-go (quoted 34) acc 34 (e ∷ r) plain acc refl
      ∙ scan-stop acc acc e r (rw end)
