-- ===== src/Bookmark/Bounds.antt =====
-- The buffers of BmEscapeTok and of ParseHostLine's tokens.
use ncftp.Base.{
  ℕ, ◌+◌, ◌-◌, ◌<◌, ◌≤◌, ◌≡◌, refl, inl, inr, Bool, true, false, not, Option, none, some, [], ◌∷◌,
  ◌++◌, arith, ltb, ltb→lt, ◌==◌, if◌then◌else◌, Bool-cases, length, length-append,
}
use ncftp.Base.Bytes.{Bytes}
use ncftp.Bookmark.{
  hex_char_to_nibble, put_token, put_nibbles, next_token, is_print, hex_escape, escape_char,
  escape_from, bm_escape_tok,
}
use ncftp.Bookmark.Tokens.{is_special, length-hex_escape}

-- A write of `n` characters under a test for the room of the last.
written_fits :
    (b : Bool) (room : ℕ) (out s : Bytes)
    → length out ≤ room
    → (b ≡ true → length out + length s ≤ room)
    → length (if b then out ++ s else out) ≤ room
written_fits true room out s h k = omega (arith, length-append out s, k refl)
written_fits false room out s h k = h

escape_char-fits :
    (room : ℕ) (out : Bytes) (c : ℕ) → length out ≤ room → length (escape_char room out c) ≤ room
escape_char-fits room out c h = elim (Bool-cases (is_special c)) [
  | inl e ↦ rw e (
      written_fits (ltb (length out + 1) room) room out (92 ∷ c ∷ []) h
        (λ t. omega (arith, ltb→lt (length out + 1) room t)))
  | inr e ↦ elim (Bool-cases (not (is_print c))) [
    | inl e' ↦
        rw (e, e')
          (written_fits (ltb (length out + 2) room) room out (hex_escape c) h
            (λ t. omega (arith, length-hex_escape c, ltb→lt (length out + 2) room t)))
    | inr e' ↦
        rw (e, e')
          (written_fits (ltb (length out) room) room out (c ∷ []) h
            (λ t. omega (arith, ltb→lt (length out) room t)))
  ]
]

escape_from-fits :
    (room : ℕ) (out s : Bytes) → length out ≤ room → length (escape_from room out s) ≤ room
escape_from-fits room out [] h = h
escape_from-fits room out (c ∷ s) h =
    escape_from-fits room (escape_char room out c) s (escape_char-fits room out c h)

put_token-fits : (out : Bytes) (c : ℕ) → length out ≤ 127 → length (put_token out c) ≤ 127
put_token-fits out c h =
    written_fits (ltb (length out) 127) 127 out (c ∷ []) h
      (λ t. omega (arith, ltb→lt (length out) 127 t))

put_nibbles-fits :
    (out : Bytes) (m n : Option ℕ) → length out ≤ 127 → length (put_nibbles out m n) ≤ 127
put_nibbles-fits out none n h = h
put_nibbles-fits out (some m) none h = h
put_nibbles-fits out (some m) (some n) h = put_token-fits out _ h

-- Of several ways on, each of which fits.
either_fits :
    (b : Bool) (p q : Bytes × Bytes)
    → length p.0 ≤ 127
    → length q.0 ≤ 127
    → length (if b then p else q).0 ≤ 127
either_fits true p q h k = h
either_fits false p q h k = k

next_token-fits : (out s : Bytes) → length out ≤ 127 → length (next_token out s).0 ≤ 127
unfolding next_token
next_token-fits out [] h = h
next_token-fits out (c ∷ []) h = either_fits (c == b',') _ _ h (put_token-fits out c h)
next_token-fits out (c ∷ d ∷ []) h =
    either_fits (c == 92) _ _ (next_token-fits (put_token out d) [] (put_token-fits out d h)) (
      either_fits (c == b',') _ _ h
        (next_token-fits (put_token out c) (d ∷ []) (put_token-fits out c h)))
next_token-fits out (c ∷ d ∷ e ∷ s) h =
    either_fits (c == 92) _ _ (next_token-fits (put_token out d) (e ∷ s) (put_token-fits out d h)) (
      either_fits (c == b',') _ _ h (
        either_fits (c == b'$') _ _
          (next_token-fits _ s
            (put_nibbles-fits out (hex_char_to_nibble d) (hex_char_to_nibble e) h))
          (next_token-fits (put_token out c) (d ∷ e ∷ s) (put_token-fits out c h))))

-- What BmEscapeTok leaves in a buffer of at least one byte has room for its NUL, and so has each token
-- of any line in ParseHostLine's buffer.
pub bookmark_buffers :
    (dsize : ℕ) (src line : Bytes)
    → 0 < dsize
    → (length (bm_escape_tok dsize src) < dsize) × (length (next_token [] line).0 < 128)
unfolding bm_escape_tok
bookmark_buffers dsize src line some_room = (
  omega (arith, escape_from-fits (dsize - 1) [] src (omega arith)),
  omega (arith, next_token-fits [] line (omega arith)),
)
