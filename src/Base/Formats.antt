-- ===== src/Base/Formats.antt =====
-- The numbers of the C library's formats: `%u` and `%d` as printf writes them, atoi and `%lx`. An
-- `int` is 32 bits wide and a `long` is 64.
use Prim.Native.Nat.{ℕ, zero, suc, ◌+◌, ◌-◌, ◌*◌, ◌/◌, ◌%◌, ◌^◌, ◌≤◌, ◌<◌}
use mathlib.Core.Path.{◌≡◌, refl, ap, ◌∙◌}
use mathlib.Core.Logic.{inl, inr}
use mathlib.Core.Bool.{Bool, true, false, not, ◌&&◌, ◌||◌}
use mathlib.Core.Option.{Option, none, some}
use mathlib.Core.List.{[], ◌∷◌, ◌++◌}
use native.Mathlib.Omega.{arith}
use ncftp.Base.Tests.{ltb, leb, lt→ltb, ◌==◌, if◌then◌else◌, Bool-cases}
use ncftp.Base.Bytes.{Bytes, is_digit, is_space, digits_value}
use ncftp.Base.Lists.{length, length-append}
use ncftp.Base.Int.{ℤ, pos, negsuc}

-- The digits of a number below `10 ^ k`.
unfoldable pub print_digits : ℕ → ℕ → Bytes
print_digits zero n = []
print_digits (suc k) n =
    let front = print_digits k (n / 10) in
    if ltb n 10 then (b'0' + n) ∷ [] else front ++ ((b'0' + n % 10) ∷ [])

-- `%u` and `%lu`.
abbrev pub print_nat : ℕ → Bytes
print_nat n = print_digits (n + 1) n

-- `%d`.
abbrev pub print_int : ℤ → Bytes
print_int (pos n) = print_nat n
print_int (negsuc n) = b'-' ∷ print_nat (n + 1)

abbrev pub skip_spaces : Bytes → Bytes
skip_spaces [] = []
skip_spaces (c ∷ s) = let rest = skip_spaces s in if is_space c then rest else c ∷ s

abbrev pub negated : ℕ → ℤ
negated zero = pos 0
negated (suc n) = negsuc n

-- A number's sign, `+` or `-`, and what stands behind it.
abbrev pub sign : Bytes → Bool × Bytes
sign [] = (false, [])
sign (c ∷ s) = if c == b'-' then (true, s) else if c == b'+' then (false, s) else (false, c ∷ s)

abbrev pub signed : Bool → ℕ → ℤ
signed true n = negated n
signed false n = pos n

-- atoi, whose result is undefined if it is no `int`.
unfoldable pub scan_int : Bytes → ℤ
scan_int s = let (minus, digits) = sign (skip_spaces s) in signed minus (digits_value 0 digits)

abbrev pub hex_value : ℕ → Option ℕ
hex_value c =
    if is_digit c
    then some (c - b'0')
    else if leb b'a' c && leb c b'f'
    then some (c - b'a' + 10)
    else if leb b'A' c && leb c b'F'
    then some (c - b'A' + 10)
    else none

abbrev digit_below : ℕ → Option ℕ → Option ℕ
digit_below base none = none
digit_below base (some d) = if ltb d base then some d else none

-- The digits of a base at the start of a string, behind a value so far.
abbrev pub digits_in : ℕ → Option ℕ → Bytes → Option ℕ
digits_in base acc [] = acc
digits_in base acc (c ∷ s) = elim (digit_below base (hex_value c)) [
  | none ↦ acc
  | some d ↦ elim acc [
    | none ↦ digits_in base (some d) s
    | some n ↦ digits_in base (some (n * base + d)) s
  ]
]

abbrev pub hex_digits : Option ℕ → Bytes → Option ℕ
hex_digits = digits_in 16

-- `0x` in front of the digits.
abbrev hex_prefix : Bytes → Bytes
hex_prefix [] = []
hex_prefix (c ∷ []) = c ∷ []
hex_prefix (c ∷ d ∷ s) = if c == b'0' && (d == b'x' || d == b'X') then b'0' ∷ s else c ∷ d ∷ s

-- The `long` with the bits of an `unsigned long`.
abbrev to_long : ℕ → ℤ
to_long n = if ltb n (2 ^ 63) then pos n else negsuc (2 ^ 64 - 1 - n)

-- A number too large is the largest one.
abbrev unsigned_long : Bool → ℕ → ℤ
unsigned_long minus n =
    if ltb n (2 ^ 64)
    then to_long (if minus then (2 ^ 64 - n) % 2 ^ 64 else n)
    else to_long (2 ^ 64 - 1)

abbrev scanned_long : Bool → Option ℕ → Option ℤ
scanned_long minus none = none
scanned_long minus (some n) = some (unsigned_long minus n)

-- `sscanf(s, "%lx", &n)`; `none` leaves `n` as it was.
unfoldable pub scan_hex : Bytes → Option ℤ
scan_hex s =
    let (minus, digits) = sign (skip_spaces s) in
    scanned_long minus (hex_digits none (hex_prefix digits))

abbrev signed_number : Bool → Option ℕ → Option ℤ
signed_number minus none = none
signed_number minus (some n) = some (signed minus n)

-- sscanf with `%lld` and `%o`, whose results are undefined if they do not fit; `none` leaves the variable
-- as it was.
unfoldable pub scan_decimal : Bytes → Option ℤ
scan_decimal s =
    let (minus, digits) = sign (skip_spaces s) in signed_number minus (digits_in 10 none digits)

unfoldable pub scan_octal : Bytes → Option ℤ
scan_octal s =
    let (minus, digits) = sign (skip_spaces s) in signed_number minus (digits_in 8 none digits)

abbrev based : Bytes → Option ℕ
based [] = none
based (c ∷ s) = if not (c == b'0') then digits_in 10 none (c ∷ s) else elim s [
  | [] ↦ some 0
  | d ∷ t ↦ if d == b'x' || d == b'X' then digits_in 16 (some 0) t else digits_in 8 none (c ∷ d ∷ t)
]

-- sscanf with `%i`: hexadecimal behind `0x`, octal behind `0`, otherwise decimal.
unfoldable pub scan_integer : Bytes → Option ℤ
scan_integer s = let (minus, digits) = sign (skip_spaces s) in signed_number minus (based digits)

-- Nothing but digits.
abbrev pub AreDigits : Bytes → Type 0
AreDigits [] = Unit
AreDigits (c ∷ s) = (is_digit c ≡ true) × AreDigits s

AreDigits-append : (s t : Bytes) → AreDigits s → AreDigits t → AreDigits (s ++ t)
AreDigits-append [] t h k = k
AreDigits-append (c ∷ s) t h k = (h.0, AreDigits-append s t h.1 k)

is_digit-print : (n : ℕ) → n < 10 → is_digit (b'0' + n) ≡ true
is_digit-print n h = ground arith

pub print_digits-AreDigits : (k n : ℕ) → AreDigits (print_digits k n)
unfolding print_digits
print_digits-AreDigits zero n = tt
print_digits-AreDigits (suc k) n = elim (Bool-cases (ltb n 10)) [
  | inl e ↦ rw e (is_digit-print n (ground (arith, e)), tt)
  | inr e ↦ rw e (
      AreDigits-append (print_digits k (n / 10)) _ (print_digits-AreDigits k (n / 10))
        (is_digit-print (n % 10) (omega arith), tt))
]

digits_value-append :
    (acc : ℕ) (s : Bytes) (d : ℕ)
    → AreDigits s
    → d < 10
    → digits_value acc (s ++ ((b'0' + d) ∷ [])) ≡ digits_value acc s * 10 + d
digits_value-append acc [] d h lt = rw (is_digit-print d lt) (omega arith)
digits_value-append acc (c ∷ s) d h lt =
    rw (h.0) (digits_value-append (acc * 10 + (c - b'0')) s d h.1 lt)

digits_value-print : (k n : ℕ) → n < k → digits_value 0 (print_digits k n) ≡ n
unfolding print_digits
digits_value-print zero n h = absurd (omega arith)
digits_value-print (suc k) n h = elim (Bool-cases (ltb n 10)) [
  | inl e ↦ rw (e, is_digit-print n (ground (arith, e))) (omega arith)
  | inr e ↦ rw e (
      digits_value-append 0 (print_digits k (n / 10)) (n % 10) (print_digits-AreDigits k (n / 10))
        (omega arith)
      ∙ ap (λ v. v * 10 + n % 10) (digits_value-print k (n / 10) (ground (arith, e)))
      ∙ omega arith)
]

scan_digits : (s : Bytes) → AreDigits s → scan_int s ≡ pos (digits_value 0 s)
unfolding scan_int
scan_digits [] h = refl
scan_digits (c ∷ s) h =
    let no_space : is_space c ≡ false = ground (arith, h.0) in
    let no_minus : (c == b'-') ≡ false = ground (arith, h.0) in
    let no_plus : (c == b'+') ≡ false = ground (arith, h.0) in rw (no_space, no_minus, no_plus) refl

-- atoi reads what `%d` writes.
pub scan_int-print_int : (i : ℤ) → scan_int (print_int i) ≡ i
unfolding scan_int
scan_int-print_int (pos n) =
    scan_digits (print_nat n) (print_digits-AreDigits (n + 1) n)
    ∙ ap pos (digits_value-print (n + 1) n (omega arith))
scan_int-print_int (negsuc n) =
    ap negated (digits_value-print (n + 1 + 1) (n + 1) (omega arith))
    ∙ (let e : n + 1 ≡ suc n = omega arith in ap negated e)

abbrev pub pow10 : ℕ → ℕ
pow10 zero = 1
pow10 (suc j) = 10 * pow10 j

pub length-print_digits : (j k n : ℕ) → n < pow10 j → length (print_digits k n) ≤ j + 1
unfolding print_digits
length-print_digits j zero n h = omega arith
length-print_digits zero (suc k) n h =
    let small : ltb n 10 ≡ true = lt→ltb n 10 (omega arith) in rw small (omega arith)
length-print_digits (suc j) (suc k) n h = elim (Bool-cases (ltb n 10)) [
  | inl e ↦ rw e (omega arith)
  | inr e ↦ rw e (
      omega (
        arith,
        length-append (print_digits k (n / 10)) ((b'0' + n % 10) ∷ []),
        length-print_digits j k (n / 10) (omega arith),
      ))
]

print_digits-some : (k n : ℕ) → 0 < k → 0 < length (print_digits k n)
unfolding print_digits
print_digits-some zero n h = absurd (omega arith)
print_digits-some (suc k) n h = elim (Bool-cases (ltb n 10)) [
  | inl e ↦ rw e (omega arith)
  | inr e ↦ rw e (omega (arith, length-append (print_digits k (n / 10)) ((b'0' + n % 10) ∷ [])))
]

pub print_nat-some : (n : ℕ) → 0 < length (print_nat n)
print_nat-some n = print_digits-some (n + 1) n (omega arith)
