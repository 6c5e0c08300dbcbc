-- ===== src/Bookmark/Tokens.antt =====
-- ParseHostLine's tokens against BmEscapeTok.
use mathlib.Core.List.{append_assoc, append-nil}
use ncftp.Base.{
  ℕ, ◌+◌, ◌-◌, ◌*◌, ◌/◌, ◌%◌, ◌<◌, ◌≤◌, ◌≡◌, refl, sym, ap, ◌∙◌, inl, inr, Bool, false, not, ◌||◌,
  some, [], ◌∷◌, ◌++◌, arith, ltb, lt→ltb, ◌==◌, if◌then◌else◌, Bool-cases, length, length-append,
}
use ncftp.Base.Bytes.{Bytes}
use ncftp.Bookmark.{
  hex_char_to_nibble, put_token, next_token, is_print, hex_digit, hex_escape, escape_char,
  escape_from, bm_escape_tok, put_nibbles,
}

-- Special between commas: a backslash, a comma or a dollar sign.
abbrev pub is_special : ℕ → Bool
is_special c = c == 92 || c == b',' || c == b'$'

-- What a character is written as, if there is room.
abbrev pub escape : ℕ → Bytes
escape c = if is_special c then 92 ∷ c ∷ [] else if not (is_print c) then hex_escape c else c ∷ []

abbrev pub escape_all : Bytes → Bytes
escape_all [] = []
escape_all (c ∷ s) = escape c ++ escape_all s

-- Characters of seven bits.
abbrev pub AreAscii : Bytes → Type 0
AreAscii [] = Unit
AreAscii (c ∷ s) = (c < 128) × AreAscii s

abbrev pub ArePlain : Bytes → Type 0
ArePlain [] = Unit
ArePlain (c ∷ s) = (is_special c ≡ false) × ArePlain s

put-room : (out : Bytes) (c : ℕ) → length out < 127 → put_token out c ≡ out ++ (c ∷ [])
put-room out c h = rw (lt→ltb (length out) 127 h) refl

next-plain :
    (out : Bytes) (c : ℕ) (t : Bytes)
    → is_special c ≡ false
    → next_token out (c ∷ t) ≡ next_token (put_token out c) t
unfolding next_token
next-plain out c [] e = let no : (c == b',') ≡ false = ground (arith, e) in rw no refl
next-plain out c (d ∷ []) e =
    let no : (c == b',') ≡ false = ground (arith, e) in
    let no' : (c == 92) ≡ false = ground (arith, e) in rw (no', no) refl
next-plain out c (d ∷ e' ∷ t) e =
    let no : (c == b',') ≡ false = ground (arith, e) in
    let no' : (c == 92) ≡ false = ground (arith, e) in
    let no'' : (c == b'$') ≡ false = ground (arith, e) in rw (no', no, no'') refl

next-backslash :
    (out : Bytes) (c : ℕ) (t : Bytes) → next_token out (92 ∷ c ∷ t) ≡ next_token (put_token out c) t
unfolding next_token
next-backslash out c [] = refl
next-backslash out c (d ∷ t) = refl

pub next-comma : (out t : Bytes) → next_token out (b',' ∷ t) ≡ (out, t)
unfolding next_token
next-comma out [] = refl
next-comma out (d ∷ []) = refl
next-comma out (d ∷ e ∷ t) = refl

next-hex :
    (out : Bytes) (a b : ℕ) (t : Bytes)
    → next_token out (b'$' ∷ a ∷ b ∷ t)
      ≡ next_token (put_nibbles out (hex_char_to_nibble a) (hex_char_to_nibble b)) t
unfolding next_token
next-hex out a b t = refl

pub next-end : (out : Bytes) → next_token out [] ≡ (out, [])
unfolding next_token
next-end out = refl

nibble-digit : (n : ℕ) → n < 16 → hex_char_to_nibble (hex_digit n) ≡ some n
nibble-digit n h = ground arith

next-hex_escape :
    (out : Bytes) (c : ℕ) (t : Bytes)
    → c < 128
    → next_token out (hex_escape c ++ t) ≡ next_token (put_token out c) t
next-hex_escape out c t h =
    let small = lt→ltb c 128 h in
    let value : c / 16 * 16 + c % 16 ≡ c = omega arith in
    rw small (
      next-hex out (hex_digit (c / 16)) (hex_digit (c % 16)) t
      ∙ ap (λ m. next_token (put_nibbles out m (hex_char_to_nibble (hex_digit (c % 16)))) t)
          (nibble-digit (c / 16) (omega arith))
      ∙ ap (λ m. next_token (put_nibbles out (some (c / 16)) m) t)
          (nibble-digit (c % 16) (omega arith))
      ∙ ap (λ v. next_token (put_token out v) t) value)

next-escape :
    (out : Bytes) (c : ℕ) (t : Bytes)
    → c < 128
    → next_token out (escape c ++ t) ≡ next_token (put_token out c) t
next-escape out c t h = elim (Bool-cases (is_special c)) [
  | inl e ↦ rw e (next-backslash out c t)
  | inr e ↦ elim (Bool-cases (not (is_print c))) [
    | inl e' ↦ rw (e, e') (next-hex_escape out c t h)
    | inr e' ↦ rw (e, e') (next-plain out c t e)
  ]
]

pub next-escape_all :
    (out s t : Bytes)
    → AreAscii s
    → length out + length s ≤ 127
    → next_token out (escape_all s ++ t) ≡ next_token (out ++ s) t
next-escape_all out [] t are room = ap (λ z. next_token z t) (sym (append-nil out))
next-escape_all out (c ∷ s) t are room =
    ap (next_token out) (append_assoc (escape c) (escape_all s) t)
    ∙ next-escape out c (escape_all s ++ t) are.0
    ∙ ap (λ z. next_token z (escape_all s ++ t)) (put-room out c (omega arith))
    ∙ next-escape_all (out ++ (c ∷ [])) s t are.1 (omega (arith, length-append out (c ∷ [])))
    ∙ ap (λ z. next_token z t) (append_assoc out (c ∷ []) s)

pub next-plain_all :
    (out s t : Bytes)
    → ArePlain s
    → length out + length s ≤ 127
    → next_token out (s ++ t) ≡ next_token (out ++ s) t
next-plain_all out [] t are room = ap (λ z. next_token z t) (sym (append-nil out))
next-plain_all out (c ∷ s) t are room =
    next-plain out c (s ++ t) are.0
    ∙ ap (λ z. next_token z (s ++ t)) (put-room out c (omega arith))
    ∙ next-plain_all (out ++ (c ∷ [])) s t are.1 (omega (arith, length-append out (c ∷ [])))
    ∙ ap (λ z. next_token z t) (append_assoc out (c ∷ []) s)

pub length-hex_escape : (c : ℕ) → length (hex_escape c) ≡ 3
length-hex_escape c = ground arith

escape_char-room :
    (room : ℕ) (out : Bytes) (c : ℕ)
    → length out + length (escape c) ≤ room
    → escape_char room out c ≡ out ++ escape c
escape_char-room room out c h = elim (Bool-cases (is_special c)) [
  | inl e ↦
      let two : length (escape c) ≡ 2 = rw e refl in
      let fits = lt→ltb (length out + 1) room (omega (arith, two, h)) in rw (e, fits) refl
  | inr e ↦ elim (Bool-cases (not (is_print c))) [
    | inl e' ↦
        let three : length (escape c) ≡ 3 = rw (e, e') (length-hex_escape c) in
        let fits = lt→ltb (length out + 2) room (omega (arith, three, h)) in rw (e, e', fits) refl
    | inr e' ↦
        let one : length (escape c) ≡ 1 = rw (e, e') refl in
        let fits = lt→ltb (length out) room (omega (arith, one, h)) in rw (e, e', fits) refl
  ]
]

escape_from-room :
    (room : ℕ) (out s : Bytes)
    → length out + length (escape_all s) ≤ room
    → escape_from room out s ≡ out ++ escape_all s
escape_from-room room out [] h = sym (append-nil out)
escape_from-room room out (c ∷ s) h =
    let len = length-append (escape c) (escape_all s) in
    ap (λ z. escape_from room z s) (escape_char-room room out c (omega (arith, len)))
    ∙ escape_from-room room (out ++ escape c) s (omega (arith, len, length-append out (escape c)))
    ∙ append_assoc out (escape c) (escape_all s)

-- BmEscapeTok with room for all of it.
pub bm_escape_tok-room :
    (dsize : ℕ) (s : Bytes) → length (escape_all s) < dsize → bm_escape_tok dsize s ≡ escape_all s
unfolding bm_escape_tok
bm_escape_tok-room dsize s h = escape_from-room (dsize - 1) [] s (omega arith)

pub escaped-nothing : bm_escape_tok 256 [] ≡ []
unfolding bm_escape_tok
escaped-nothing = refl

escape-some : (c : ℕ) → (x : ℕ) × (w : Bytes) × (escape c ≡ x ∷ w)
escape-some c = elim (Bool-cases (is_special c)) [
  | inl e ↦ rw e (92, c ∷ [], refl)
  | inr e ↦ elim (Bool-cases (not (is_print c))) [
    | inl e' ↦ elim (Bool-cases (ltb c 128)) [
      | inl e'' ↦ rw (e, e', e'') (b'$', _, refl)
      | inr e'' ↦ rw (e, e', e'') (b'$', _, refl)
    ]
    | inr e' ↦ rw (e, e') (c, [], refl)
  ]
]

pub escaped-some :
    (c : ℕ) (s : Bytes)
    → length (escape_all (c ∷ s)) ≤ 255
    → (x : ℕ) × (w : Bytes) × (bm_escape_tok 256 (c ∷ s) ≡ x ∷ w)
escaped-some c s fits =
    let (x, w, e) = escape-some c in
    (
      x,
      w ++ escape_all s,
      bm_escape_tok-room 256 (c ∷ s) (omega (arith, fits)) ∙ ap (λ z. z ++ escape_all s) e,
    )
