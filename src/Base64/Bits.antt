-- ===== src/Base64/Bits.antt =====
-- The bit operations of the codec as arithmetic: each is a table, checked by evaluation.
use Prim.Native.Nat.{bit_and, bit_or}
use ncftp.Base.Bytes.{is_alnum}
use ncftp.Base.{
  ◌||◌, Bool-cases, inl, inr, ℕ, zero, suc, ◌+◌, ◌*◌, ◌/◌, ◌%◌, ◌<◌, ◌≡◌, refl, Bool, true, false,
  arith, ◌==◌, if◌then◌else◌, get_or,
}
use ncftp.Base64.{b64_encode_table, b64_decode_table}

module _ (f g : ℕ → ℕ) where
  agree_below : ℕ → Bool
  agree_below zero = true
  agree_below (suc n) = let rest = agree_below n in if f n == g n then rest else false

  agree_below→eq : (n : ℕ) → agree_below n ≡ true → (i : ℕ) → i < n → f i ≡ g i
  unfolding agree_below
  agree_below→eq zero e i h = absurd (omega arith)
  agree_below→eq (suc n) e i h = ground (arith, agree_below→eq n (ground arith) i)

pub mask_six : (n : ℕ) → n < 64 → bit_and n 0x3f ≡ n
unfolding agree_below
mask_six = agree_below→eq _ _ 64 refl

pub low_two : (c : ℕ) → c < 256 → bit_and (c * 16) 0x30 ≡ c % 4 * 16
unfolding agree_below
low_two = agree_below→eq _ _ 256 refl

pub high_four : (c : ℕ) → c < 256 → bit_and (c / 16) 0x0f ≡ c / 16
unfolding agree_below
high_four = agree_below→eq _ _ 256 refl

pub low_four : (c : ℕ) → c < 256 → bit_and (c * 4) 0x3c ≡ c % 16 * 4
unfolding agree_below
low_four = agree_below→eq _ _ 256 refl

pub high_two : (c : ℕ) → c < 256 → bit_and (c / 64) 0x03 ≡ c / 64
unfolding agree_below
high_two = agree_below→eq _ _ 256 refl

pub low_six : (c : ℕ) → c < 256 → bit_and c 0x3f ≡ c % 64
unfolding agree_below
low_six = agree_below→eq _ _ 256 refl

or_four : (n : ℕ) → n < 1024 → bit_or (n / 4 * 4) (n % 4) ≡ n
unfolding agree_below
or_four = agree_below→eq _ _ 1024 refl

or_sixteen : (n : ℕ) → n < 1024 → bit_or (n / 16 * 16) (n % 16) ≡ n
unfolding agree_below
or_sixteen = agree_below→eq _ _ 1024 refl

or_sixty_four : (n : ℕ) → n < 4096 → bit_or (n / 64 * 64) (n % 64) ≡ n
unfolding agree_below
or_sixty_four = agree_below→eq _ _ 4096 refl

-- Or of a number and one below its lowest bit.
pub join_two : (a b : ℕ) → a < 64 → b < 4 → bit_or (a * 4) b ≡ a * 4 + b
join_two a b h k =
    let q : (a * 4 + b) / 4 ≡ a = omega arith in
    let r : (a * 4 + b) % 4 ≡ b = omega arith in rw (q, r) at (or_four (a * 4 + b) (omega arith))

pub join_four : (a b : ℕ) → a < 64 → b < 16 → bit_or (a * 16) b ≡ a * 16 + b
join_four a b h k =
    let q : (a * 16 + b) / 16 ≡ a = omega arith in
    let r : (a * 16 + b) % 16 ≡ b = omega arith in
    rw (q, r) at (or_sixteen (a * 16 + b) (omega arith))

pub join_six : (a b : ℕ) → a < 64 → b < 64 → bit_or (a * 64) b ≡ a * 64 + b
join_six a b h k =
    let q : (a * 64 + b) / 64 ≡ a = omega arith in
    let r : (a * 64 + b) % 64 ≡ b = omega arith in
    rw (q, r) at (or_sixty_four (a * 64 + b) (omega arith))

pub decoded : (n : ℕ) → n < 64 → get_or b64_decode_table (get_or b64_encode_table n 0) 0 ≡ n
unfolding agree_below
decoded = agree_below→eq _ _ 64 refl

abbrev pub is_alphabet : ℕ → Bool
is_alphabet c = is_alnum c || c == b'+' || c == b'/'

abbrev flag : Bool → ℕ
flag b = if b then 1 else 0

alphabet_table : (n : ℕ) → n < 64 → flag (is_alphabet (get_or b64_encode_table n 0)) ≡ flag true
unfolding agree_below
alphabet_table = agree_below→eq _ _ 64 refl

pub alphabet : (n : ℕ) → n < 64 → is_alphabet (get_or b64_encode_table n 0) ≡ true
alphabet n h = elim (Bool-cases (is_alphabet (get_or b64_encode_table n 0))) [
  | inl e ↦ e
  | inr e ↦
      (let one : flag false ≡ flag true = rw e at (alphabet_table n h) in
        absurd (omega (arith, one)))
]
