-- ===== src/Base/Bytes.antt =====
-- C strings: lists of bytes, the character classes of the "C" locale, and a string that stands
-- in a buffer, which is the list of all the buffer's bytes.
use Prim.Native.Char.{code}
use Prim.Native.String.{String}
use Prim.Native.Nat.{ℕ, zero, suc, ◌+◌, ◌-◌, ◌*◌}
use mathlib.Core.Path.{◌≡◌, refl}
use mathlib.Core.Bool.{Bool, true, false, ◌&&◌, ◌||◌}
use mathlib.Core.List.{List, [], ◌∷◌, ◌++◌}
use ncftp.Base.Tests.{leb, ◌==◌, if◌then◌else◌}
use ncftp.Base.Lists.{length, take, drop}

abbrev pub Bytes : Type 0
Bytes = List ℕ

-- The code points of an ASCII literal.
abbrev pub codes : String → Bytes
codes String.[] = []
codes (String.◌∷◌ c s) = code c ∷ codes s

abbrev pub is_digit : ℕ → Bool
is_digit c = leb b'0' c && leb c b'9'

abbrev pub is_upper : ℕ → Bool
is_upper c = leb b'A' c && leb c b'Z'

abbrev pub is_lower : ℕ → Bool
is_lower c = leb b'a' c && leb c b'z'

abbrev pub is_alpha : ℕ → Bool
is_alpha c = is_upper c || is_lower c

abbrev pub is_alnum : ℕ → Bool
is_alnum c = is_alpha c || is_digit c

-- Space, \t \n \v \f \r.
abbrev pub is_space : ℕ → Bool
is_space c = c == 32 || (leb 9 c && leb c 13)

-- The string at the start of a buffer: the bytes before the first NUL.
abbrev pub c_str : Bytes → Bytes
c_str [] = []
c_str (c ∷ cs) = let rest = c_str cs in if c == 0 then [] else c ∷ rest

-- No byte is NUL.
abbrev pub HasNoNul : Bytes → Type 0
HasNoNul [] = Unit
HasNoNul (c ∷ cs) = ((c == 0) ≡ false) × HasNoNul cs

-- A string and its NUL written at the start of a buffer.
abbrev pub overlay : Bytes → Bytes → Bytes
overlay s buf = s ++ 0 ∷ drop (length s + 1) buf

-- strncmp(s, t, n) == 0, on two strings in buffers.
abbrev pub strn_eq : ℕ → Bytes → Bytes → Bool
strn_eq zero s t = true
strn_eq (suc n) [] [] = true
strn_eq (suc n) [] (d ∷ t) = d == 0
strn_eq (suc n) (c ∷ s) [] = c == 0
strn_eq (suc n) (c ∷ s) (d ∷ t) =
    let rest = strn_eq n s t in if c == d then (if c == 0 then true else rest) else false

-- The value of the digits at the start of a string, behind a value so far.
abbrev pub digits_value : ℕ → Bytes → ℕ
digits_value acc [] = acc
digits_value acc (c ∷ cs) =
    let rest = digits_value (acc * 10 + (c - b'0')) cs in if is_digit c then rest else acc

-- atoi on a string that does not begin with a space or a sign.
abbrev pub atoi : Bytes → ℕ
atoi = digits_value 0

-- Strncat to a string in a buffer of `size` bytes.
abbrev pub strncat : ℕ → Bytes → Bytes → Bytes
strncat size dst s = dst ++ take (size - 1 - length dst) s

pub c_str-append : (s t : Bytes) → HasNoNul s → c_str (s ++ 0 ∷ t) ≡ s
c_str-append [] t h = refl
c_str-append (c ∷ s) t h = rw (h.0, c_str-append s t h.1)
