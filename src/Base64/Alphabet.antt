-- ===== src/Base64/Alphabet.antt =====
-- The characters that ToBase64 writes, and how many.
use ncftp.Base.{
  ℕ, ◌+◌, ◌*◌, ◌/◌, ◌%◌, ◌<◌, ◌≤◌, ◌≡◌, refl, true, false, [], ◌∷◌, ◌++◌, arith, length,
  length-append,
}
use ncftp.Base.Bytes.{Bytes}
use ncftp.Base64.{digit, group, groups, to_base64}
use ncftp.Base64.Bits.{mask_six, is_alphabet, alphabet}
use ncftp.Base64.RoundTrip.{AreBytes, group_lem}

abbrev pub AreAlphabet : Bytes → Type 0
AreAlphabet [] = Unit
AreAlphabet (c ∷ s) = (is_alphabet c ≡ true) × AreAlphabet s

is_alphabet-digit : (n : ℕ) → n < 64 → is_alphabet (digit n) ≡ true
is_alphabet-digit n h = rw (mask_six n h) (alphabet n h)

AreAlphabet-append : (s t : Bytes) → AreAlphabet s → AreAlphabet t → AreAlphabet (s ++ t)
AreAlphabet-append [] t h k = k
AreAlphabet-append (c ∷ s) t h k = (h.0, AreAlphabet-append s t h.1 k)

group-AreAlphabet : (a b c : ℕ) → a < 256 → b < 256 → c < 256 → AreAlphabet (group a b c)
group-AreAlphabet a b c h k l = rw (group_lem a b c h k l) (
  is_alphabet-digit (a / 4) (omega arith),
  (
    is_alphabet-digit (a % 4 * 16 + b / 16) (omega arith),
    (
      is_alphabet-digit (b % 16 * 4 + c / 64) (omega arith),
      (is_alphabet-digit (c % 64) (omega arith), tt),
    ),
  ),
)

groups-AreAlphabet : (s : Bytes) → AreBytes s → AreAlphabet (groups s)
unfolding groups
groups-AreAlphabet [] are = tt
groups-AreAlphabet (a ∷ []) are = group-AreAlphabet a 0 0 are.0 (omega arith) (omega arith)
groups-AreAlphabet (a ∷ b ∷ []) are = group-AreAlphabet a b 0 are.0 (are.1.0) (omega arith)
groups-AreAlphabet (a ∷ b ∷ c ∷ s) are =
    AreAlphabet-append (group a b c) (groups s)
      (group-AreAlphabet a b c are.0 (are.1.0) (are.1.1.0)) (groups-AreAlphabet s (are.1.1.1))

pub to_base64-AreAlphabet : (s : Bytes) → AreBytes s → AreAlphabet (to_base64 s false)
unfolding to_base64
to_base64-AreAlphabet s are = AreAlphabet-append (groups s) [] (groups-AreAlphabet s are) tt

length-group : (a b c : ℕ) → length (group a b c) ≡ 4
unfolding group
length-group a b c = refl

length-groups : (s : Bytes) → length (groups s) * 3 ≤ length s * 4 + 8
unfolding groups
length-groups [] = omega arith
length-groups (a ∷ []) = omega (arith, length-group a 0 0)
length-groups (a ∷ b ∷ []) = omega (arith, length-group a b 0)
length-groups (a ∷ b ∷ c ∷ s) =
    omega (arith, length-group a b c, length-append (group a b c) (groups s), length-groups s)

pub length-to_base64 : (s : Bytes) → length (to_base64 s false) * 3 ≤ length s * 4 + 8
unfolding to_base64
length-to_base64 s = omega (arith, length-append (groups s) [], length-groups s)
