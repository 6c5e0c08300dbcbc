-- ===== src/Base64/RoundTrip.antt =====
-- FromBase64 undoes ToBase64.
use Prim.Native.Nat.{bit_and, bit_or}
use mathlib.Core.List.{append_assoc, append-nil}
use ncftp.Base.{
  ℕ, ◌+◌, ◌*◌, ◌/◌, ◌%◌, ◌<◌, ◌≡◌, refl, sym, ap, ◌∙◌, true, false, [], ◌∷◌, ◌++◌, arith,
}
use ncftp.Base.Bytes.{Bytes, c_str, HasNoNul, c_str-append}
use ncftp.Base64.{digit, group, groups, to_base64, char_value, ungroup, ungroups, from_base64}
use ncftp.Base64.Bits.{
  mask_six, low_two, high_four, low_four, high_two, low_six, join_two, join_four, join_six, decoded,
}

abbrev pub AreBytes : Bytes → Type 0
AreBytes [] = Unit
AreBytes (c ∷ s) = (c < 256) × AreBytes s

-- The NULs that fill up the last group.
abbrev pub padding : Bytes → Bytes
padding [] = []
padding (a ∷ []) = 0 ∷ 0 ∷ []
padding (a ∷ b ∷ []) = 0 ∷ []
padding (a ∷ b ∷ c ∷ s) = padding s

char_value-digit : (n : ℕ) → n < 64 → char_value (digit n) ≡ n
char_value-digit n h = rw (mask_six n h) (decoded n h)

-- The six bits that the second and the third character of a group stand for.
second_bits :
    (c0 c1 : ℕ)
    → c0 < 256
    → c1 < 256
    → bit_or (bit_and (c0 * 16) 0x30) (bit_and (c1 / 16) 0x0f) ≡ c0 % 4 * 16 + c1 / 16
second_bits c0 c1 h k =
    rw (low_two c0 h, high_four c1 k) (join_four (c0 % 4) (c1 / 16) (omega arith) (omega arith))

third_bits :
    (c1 c2 : ℕ)
    → c1 < 256
    → c2 < 256
    → bit_or (bit_and (c1 * 4) 0x3c) (bit_and (c2 / 64) 0x03) ≡ c1 % 16 * 4 + c2 / 64
third_bits c1 c2 h k =
    rw (low_four c1 h, high_two c2 k) (join_two (c1 % 16) (c2 / 64) (omega arith) (omega arith))

-- The characters of a group, by the numbers that they stand for.
pub group_lem :
    (a b c : ℕ)
    → a < 256
    → b < 256
    → c < 256
    → group a b c
      ≡ digit (a / 4)
        ∷ digit (a % 4 * 16 + b / 16)
        ∷ digit (b % 16 * 4 + c / 64)
        ∷ digit (c % 64)
        ∷ []
unfolding group
group_lem a b c h k l = rw (second_bits a b h k, third_bits b c k l, low_six c l) refl

ungroup_lem :
    (d0 d1 d2 d3 : ℕ)
    → d0 < 64
    → d1 < 64
    → d2 < 64
    → d3 < 64
    → ungroup (digit d0) (digit d1) (digit d2) (digit d3)
      ≡ ((d0 * 4 + d1 / 16) % 256) ∷ ((d1 * 16 + d2 / 4) % 256) ∷ ((d2 * 64 + d3) % 256) ∷ []
unfolding ungroup
ungroup_lem d0 d1 d2 d3 h k l m =
    rw
      (
        char_value-digit d0 h,
        char_value-digit d1 k,
        char_value-digit d2 l,
        char_value-digit d3 m,
        join_two d0 (d1 / 16) h (omega arith),
        join_four d1 (d2 / 4) k (omega arith),
        join_six d2 d3 l m,
      )
      refl

three : (a b c a' b' c' : ℕ) → a ≡ a' → b ≡ b' → c ≡ c' → a ∷ b ∷ c ∷ [] ≡ a' ∷ b' ∷ c' ∷ []
three a b c a' b' c' e f g = rw (e, f, g) refl

ungroups-group :
    (a b c : ℕ) (s : Bytes)
    → a < 256
    → b < 256
    → c < 256
    → ungroups (group a b c ++ s) ≡ (a ∷ b ∷ c ∷ []) ++ ungroups s
unfolding ungroups
ungroups-group a b c s h k l =
    rw
      (
        group_lem a b c h k l,
        ungroup_lem (a / 4) (a % 4 * 16 + b / 16) (b % 16 * 4 + c / 64) (c % 64) (omega arith)
            (omega arith) (omega arith) (omega arith),
      )
      (ap (λ z. z ++ ungroups s) (three _ _ _ a b c (omega arith) (omega arith) (omega arith)))

ungroups-groups : (s : Bytes) → AreBytes s → ungroups (groups s) ≡ s ++ padding s
unfolding groups ungroups
ungroups-groups [] are = refl
ungroups-groups (a ∷ []) are =
    ap ungroups (sym (append-nil (group a 0 0)))
    ∙ ungroups-group a 0 0 [] are.0 (omega arith) (omega arith)
ungroups-groups (a ∷ b ∷ []) are =
    ap ungroups (sym (append-nil (group a b 0)))
    ∙ ungroups-group a b 0 [] are.0 (are.1.0) (omega arith)
ungroups-groups (a ∷ b ∷ c ∷ s) are =
    ungroups-group a b c (groups s) are.0 (are.1.0) (are.1.1.0)
    ∙ ap (λ z. a ∷ b ∷ c ∷ z) (ungroups-groups s (are.1.1.1))

padding_nul : (s : Bytes) → (t : Bytes) × (padding s ++ (0 ∷ []) ≡ 0 ∷ t)
padding_nul [] = ([], refl)
padding_nul (a ∷ []) = (0 ∷ 0 ∷ [], refl)
padding_nul (a ∷ b ∷ []) = (0 ∷ [], refl)
padding_nul (a ∷ b ∷ c ∷ s) = padding_nul s

-- FromBase64 of what ToBase64 makes of a string of bytes gives the string back, with NULs up to a
-- multiple of three; as a C string, if the string holds no NUL, it is the string.
pub from_base64-to_base64 :
    (s : Bytes)
    → AreBytes s
    → HasNoNul s
    → (from_base64 (to_base64 s false) false ≡ s ++ padding s)
      × (c_str (from_base64 (to_base64 s false) true) ≡ s)
unfolding from_base64 to_base64
from_base64-to_base64 s are no_nul =
    let back : ungroups (groups s ++ []) ≡ s ++ padding s =
      ap ungroups (append-nil (groups s)) ∙ ungroups-groups s are in
    let (t, e) = padding_nul s in
    (
      append-nil (ungroups (groups s ++ [])) ∙ back,
      ap c_str (
            ap (λ z. z ++ (0 ∷ [])) back ∙ append_assoc s (padding s) (0 ∷ []) ∙ ap (λ z. s ++ z) e)
          ∙ c_str-append s t no_nul,
    )
