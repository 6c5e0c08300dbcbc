-- ===== src/Url/Token.antt =====
-- URLCopyToken against the text that a token encodes.
use mathlib.Core.List.{append_assoc, append-nil}
use ncftp.Base.{
  ℕ, suc, ◌+◌, ◌-◌, ◌<◌, ◌≤◌, ◌≡◌, refl, sym, ap, ◌∙◌, true, false, some, List, [], ◌∷◌, ◌++◌,
  arith, ltb, lt→ltb, ◌==◌, length, length-append,
}
use ncftp.Base.Bytes.{Bytes, c_str}
use ncftp.Url.{Scanner, is_banned, token_loop, url_copy_token, copy}

-- A character of a token: itself, or `%` and two digits for a code.
pub data Sign : Type 0 where
  plain : ℕ → Sign
  escaped : ℕ → ℕ → ℕ → Sign

abbrev pub sign_bytes : Sign → Bytes
sign_bytes (plain c) = c ∷ []
sign_bytes (escaped a b v) = b'%' ∷ a ∷ b ∷ []

abbrev pub sign_value : Sign → ℕ
sign_value (plain c) = c
sign_value (escaped a b v) = v

-- A plain character is neither a NUL nor a `%`, and sscanf() reads the two digits as the code, which
-- is one that a token may hold.
abbrev pub IsSign : Scanner → Sign → Type 0
IsSign s (plain c) = ((c == 0) ≡ false) × ((c == b'%') ≡ false)
IsSign s (escaped a b v) =
    (s.scan (c_str (a ∷ b ∷ [])) ≡ some v) × (is_banned v ≡ false) × (s.byte v ≡ v)

abbrev pub AreSigns : Scanner → List Sign → Type 0
AreSigns s [] = Unit
AreSigns s (x ∷ xs) = IsSign s x × AreSigns s xs

abbrev pub encode : List Sign → Bytes
encode [] = []
encode (x ∷ xs) = sign_bytes x ++ encode xs

abbrev pub values : List Sign → Bytes
values [] = []
values (x ∷ xs) = sign_value x ∷ values xs

plain_step :
    (s : Scanner) (dsize n c : ℕ) (mem out : Bytes)
    → (c == 0) ≡ false
    → (c == b'%') ≡ false
    → token_loop s dsize (suc n) (c ∷ mem) out ≡ token_loop s dsize n mem (out ++ (c ∷ []))
unfolding token_loop
plain_step s dsize n c [] out e e' = rw (e, e') refl
plain_step s dsize n c (d ∷ []) out e e' = rw (e, e') refl
plain_step s dsize n c (d ∷ d' ∷ mem) out e e' = rw (e, e') refl

escaped_step :
    (s : Scanner) (dsize n a b v : ℕ) (mem out : Bytes)
    → IsSign s (escaped a b v)
    → ltb (length out) (dsize - 1) ≡ true
    → token_loop s dsize (suc (suc (suc n))) (b'%' ∷ a ∷ b ∷ mem) out
      ≡ token_loop s dsize n mem (out ++ (v ∷ []))
unfolding token_loop
escaped_step s dsize n a b v mem out (scanned, allowed, byte) room =
    let count : suc (suc n) - 2 ≡ n = omega arith in rw (scanned, allowed, room, byte, count) refl

token_loop-encode :
    (s : Scanner) (dsize : ℕ) (xs : List Sign) (mem out : Bytes)
    → AreSigns s xs
    → length out + length xs < dsize
    → token_loop s dsize (length (encode xs)) (encode xs ++ mem) out ≡ some (out ++ values xs)
unfolding token_loop
token_loop-encode s dsize [] mem out signs room = ap some (sym (append-nil out))
token_loop-encode s dsize (plain c ∷ xs) mem out (sign, signs) room =
    plain_step s dsize (length (encode xs)) c (encode xs ++ mem) out sign.0 sign.1
    ∙ token_loop-encode s dsize xs mem (out ++ (c ∷ [])) signs
        (omega (arith, length-append out (c ∷ [])))
    ∙ ap some (append_assoc out (c ∷ []) (values xs))
token_loop-encode s dsize (escaped a b v ∷ xs) mem out (sign, signs) room =
    escaped_step s dsize (length (encode xs)) a b v (encode xs ++ mem) out sign
      (lt→ltb (length out) (dsize - 1) (omega arith))
    ∙ token_loop-encode s dsize xs mem (out ++ (v ∷ [])) signs
        (omega (arith, length-append out (v ∷ [])))
    ∙ ap some (append_assoc out (v ∷ []) (values xs))

-- URLCopyToken gives back the characters that a token encodes, plain or as `%` and digits that
-- sscanf() reads, whatever stands behind the token, if they and a NUL fit in the buffer.
pub url_copy_token-encode :
    (s : Scanner) (dsize : ℕ) (xs : List Sign) (mem : Bytes)
    → AreSigns s xs
    → length xs < dsize
    → url_copy_token s dsize (encode xs ++ mem) (length (encode xs)) ≡ some (values xs)
unfolding url_copy_token
url_copy_token-encode s dsize xs mem signs room =
    token_loop-encode s dsize xs mem [] signs (omega arith)

-- No NUL and no `%`.
abbrev pub IsPlain : Bytes → Type 0
IsPlain [] = Unit
IsPlain (c ∷ s) = (((c == 0) ≡ false) × ((c == b'%') ≡ false)) × IsPlain s

token_loop-plain :
    (s : Scanner) (dsize : ℕ) (src mem out : Bytes)
    → IsPlain src
    → token_loop s dsize (length src) (src ++ mem) out ≡ some (out ++ src)
unfolding token_loop
token_loop-plain s dsize [] mem out is = ap some (sym (append-nil out))
token_loop-plain s dsize (c ∷ src) mem out is =
    plain_step s dsize (length src) c (src ++ mem) out (is.0.0) (is.0.1)
    ∙ token_loop-plain s dsize src mem (out ++ (c ∷ [])) is.1
    ∙ ap some (append_assoc out (c ∷ []) src)

-- URLCopyToken of a plain token that is as long as the buffer or longer stores all of it, and the NUL
-- at an index that is not in the buffer.
pub url_copy_token_overflow :
    (s : Scanner) (dsize : ℕ) (src mem : Bytes)
    → IsPlain src
    → dsize ≤ length src
    → url_copy_token s dsize (src ++ mem) (length src) ≡ some src
unfolding url_copy_token
url_copy_token_overflow s dsize src mem is long = token_loop-plain s dsize src mem [] is

pub copy-plain :
    (s : Scanner) (dsize : ℕ) (src behind : Bytes)
    → IsPlain src
    → copy s dsize src behind ≡ some src
unfolding copy url_copy_token
copy-plain s dsize src behind is = token_loop-plain s dsize src behind [] is
