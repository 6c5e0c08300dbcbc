-- ===== src/Path/Endless.antt =====
-- CompressPath with DOS compatibility does not end on a path that fills the buffer before two dots.
use ncftp.Base.{
  ℕ, zero, suc, ◌+◌, ◌-◌, ◌≤◌, ◌≡◌, refl, ap, ◌∙◌, Bool, true, false, ◌&&◌, Option, none, some, [],
  ◌∷◌, ◌++◌, arith, ltb, ◌==◌, length, length-append,
}
use ncftp.Base.Bytes.{Bytes, is_alpha}
use ncftp.Path.{
  is_slash, char_at, put, move, skip_more_dots, squeeze, second_pass, endless, compress_from,
  dos_start, unix_start, compress_path,
}

-- Neither a dot, nor a slash, nor a NUL.
abbrev pub IsPlainChar : ℕ → Type 0
IsPlainChar c = ((c == b'.') ≡ false) × (is_slash c ≡ false) × ((c == 0) ≡ false)

abbrev pub ArePlainChars : Bytes → Type 0
ArePlainChars [] = Unit
ArePlainChars (c ∷ x) = IsPlainChar c × ArePlainChars x

module _ (lim slash : ℕ) where
  -- No dot is skipped in front of another character.
  more_dots :
      (c : ℕ) (t : Bytes)
      → IsPlainChar c
      → skip_more_dots (b'.' ∷ b'.' ∷ c ∷ t) ≡ b'.' ∷ b'.' ∷ c ∷ t
  more_dots c t (no_dot, no_slash, _) = rw (no_dot, no_slash) refl

  move_full : (s out : Bytes) → ltb (length out) lim ≡ false → move lim (out, s) ≡ (out, s)
  move_full [] out full = refl
  move_full (c ∷ s) out full = rw full refl

  moves_full :
      (s out : Bytes) → ltb (length out) lim ≡ false → move lim (move lim (out, s)) ≡ (out, s)
  moves_full s out full = ap (move lim) (move_full s out full) ∙ move_full s out full

  never_begins : (first : Bool) (s out : Bytes) → squeeze true zero lim slash first s out ≡ none
  unfolding squeeze
  never_begins first s out = refl

  -- What a round goes on with at two dots, from what the two moves leave.
  abbrev after_dots : ℕ → Bool → ℕ → Bytes × Bytes → Option Bytes
  after_dots k first n (out, s) =
      squeeze true k lim slash (first && length (skip_more_dots s) == n) (skip_more_dots s) out

  at_dots :
      (k : ℕ) (first : Bool) (s out : Bytes)
      → squeeze true (suc k) lim slash first (b'.' ∷ b'.' ∷ s) out
        ≡ after_dots k first (suc (suc (length s))) (move lim (move lim (out, b'.' ∷ b'.' ∷ s)))
  unfolding squeeze
  at_dots k true s out = refl
  at_dots k false s out = refl

  -- At two dots in front of another character, with `d` at `lim`, a round changes nothing.
  stuck :
      (k : ℕ) (first : Bool) (c : ℕ) (t out : Bytes)
      → IsPlainChar c
      → ltb (length out) lim ≡ false
      → squeeze true k lim slash first (b'.' ∷ b'.' ∷ c ∷ t) out ≡ none
  stuck zero first c t out plain full = never_begins first _ out
  stuck (suc k) first c t out plain full =
      at_dots k first (c ∷ t) out
      ∙ ap (after_dots k first (suc (suc (length (c ∷ t)))))
          (moves_full (b'.' ∷ b'.' ∷ c ∷ t) out full)
      ∙ ap (λ s. squeeze true k lim slash (first && length s == suc (suc (length (c ∷ t)))) s out)
          (more_dots c t plain)
      ∙ stuck k _ c t out plain full

  squeeze_char :
      (k : ℕ) (first : Bool) (c : ℕ) (s out : Bytes)
      → IsPlainChar c
      → squeeze true (suc k) lim slash first (c ∷ s) out
        ≡ squeeze true k lim slash false s (put lim out c)
  unfolding squeeze
  squeeze_char k first c s out (no_dot, no_slash, _) = rw (no_dot, no_slash) refl

  put-full : (c n : ℕ) (out : Bytes) → lim ≤ length out + suc n → lim ≤ length (put lim out c) + n
  put-full c n out h = ground (arith, length-append out (c ∷ []))

  no_room : (out : Bytes) → lim ≤ length out + 0 → ltb (length out) lim ≡ false
  no_room out h = ground arith

  never_ends :
      (k : ℕ) (first : Bool) (x : Bytes) (c : ℕ) (t out : Bytes)
      → ArePlainChars x
      → IsPlainChar c
      → lim ≤ length out + length x
      → squeeze true k lim slash first (x ++ (b'.' ∷ b'.' ∷ c ∷ t)) out ≡ none
  never_ends k first [] c t out xs plain full = stuck k first c t out plain (no_room out full)
  never_ends zero first (a ∷ x) c t out xs plain full = never_begins first _ out
  never_ends (suc k) first (a ∷ x) c t out xs plain full =
      squeeze_char k first a (x ++ (b'.' ∷ b'.' ∷ c ∷ t)) out xs.0
      ∙ never_ends k false x c t (put lim out a) xs.1 plain (put-full a (length x) out full)

no_drive_start :
    (dsize a : ℕ) (s : Bytes)
    → is_slash a ≡ false
    → (is_alpha a && char_at s 0 == b':') ≡ false
    → dos_start dsize (a ∷ s) ≡ some (unix_start (a ∷ s))
no_drive_start dsize a s no_slash no_drive =
    let no_unc : (a == 92) ≡ false = ground (arith, no_slash) in rw (no_unc, no_drive) refl

compress_path-relative :
    (dsize a : ℕ) (s : Bytes)
    → IsPlainChar a
    → (is_alpha a && char_at s 0 == b':') ≡ false
    → 4 ≤ dsize
    → squeeze true (length (a ∷ s) + 1) (dsize - 1 - 0) b'/' true (a ∷ s) [] ≡ none
    → compress_path true dsize (a ∷ s) ≡ endless
unfolding compress_path
compress_path-relative dsize a s (no_dot, no_slash, no_nul) no_drive large e =
    let some_room : (dsize == 0) ≡ false = ground (arith, large) in
    let enough : ltb dsize 4 ≡ false = ground (arith, large) in
    rw (some_room, no_nul, enough)
      (ap (compress_from true dsize) (no_drive_start dsize a s no_slash no_drive)
        ∙ ap (second_pass [] b'/' a) e)

-- With DOS compatibility CompressPath never ends on a relative path without a drive that has filled
-- the buffer when it comes to two dots in front of another character.
pub compress_path_endless :
    (dsize a : ℕ) (x : Bytes) (c : ℕ) (t : Bytes)
    → IsPlainChar a
    → ArePlainChars x
    → IsPlainChar c
    → (is_alpha a && char_at x 0 == b':') ≡ false
    → 4 ≤ dsize
    → dsize ≤ length x + 2
    → compress_path true dsize (a ∷ (x ++ (b'.' ∷ b'.' ∷ c ∷ t))) ≡ endless
compress_path_endless dsize a [] c t plain xs plain' no_drive large full = absurd (omega arith)
compress_path_endless dsize a (b ∷ x) c t plain xs plain' no_drive large full =
    compress_path-relative dsize a _ plain no_drive large (
      never_ends (dsize - 1 - 0) b'/' _ true (a ∷ b ∷ x) c t [] (plain, xs) plain'
        (omega (arith, full)))
