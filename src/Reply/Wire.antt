-- ===== src/Reply/Wire.antt =====
-- Replies as RFC 959 puts them on the wire, and what a buffer holds after such a line is read.
use mathlib.Core.List.{append_assoc}
use ncftp.Base.{
  ℕ, zero, suc, ◌+◌, ◌-◌, ◌*◌, ◌≡◌, refl, ap, true, false, List, [], ◌∷◌, ◌++◌, map, arith, length,
  length-append, set, get_or, drop,
}
use ncftp.Base.Bytes.{Bytes, is_digit, HasNoNul, strn_eq}
use ncftp.Reply.{Input, got, chop, ends_line}

pub get_or-append : (s r : Bytes) (x d : ℕ) → get_or (s ++ x ∷ r) (length s) d ≡ x
get_or-append [] r x d = refl
get_or-append (c ∷ s) r x d = get_or-append s r x d

pub set-append : (s r : Bytes) (x v : ℕ) → set (s ++ x ∷ r) (length s) v ≡ s ++ v ∷ r
set-append [] r x v = refl
set-append (c ∷ s) r x v = ap (◌∷◌ c) (set-append s r x v)

newline_at : (s : Bytes) → length (s ++ 10 ∷ []) - 1 ≡ length s
newline_at s = omega (arith, length-append s (10 ∷ []))

-- The bytes of the buffer behind a line of `s` and its two NULs.
abbrev pub behind : Bytes → Bytes → Bytes
behind s buf = drop (length (s ++ 10 ∷ []) + 1) buf

pub ends_line-newline : (s buf : Bytes) → ends_line (s ++ 10 ∷ []) buf ≡ true
ends_line-newline s buf = rw (
  newline_at s,
  append_assoc s (10 ∷ []) (0 ∷ behind s buf),
  get_or-append s (0 ∷ behind s buf) 10 0,
)

pub chop-newline : (s buf : Bytes) → chop (s ++ 10 ∷ []) buf ≡ s ++ 0 ∷ 0 ∷ behind s buf
chop-newline s buf =
    rw (ends_line-newline s buf, newline_at s, append_assoc s (10 ∷ []) (0 ∷ behind s buf))
      (set-append s (0 ∷ behind s buf) 10 0)

-- A comparison of at most `n` bytes stops at the NUL.
pub strn_eq-append : (n : ℕ) (s m t : Bytes) → strn_eq n s (m ++ 0 ∷ t) ≡ strn_eq n s m
strn_eq-append zero s m t = refl
strn_eq-append (suc n) [] [] t = refl
strn_eq-append (suc n) [] (d ∷ m) t = refl
strn_eq-append (suc n) (c ∷ s) [] t = ground arith
strn_eq-append (suc n) (c ∷ s) (d ∷ m) t = rw (strn_eq-append n s m t)

-- The three digits of a code.
pub record Code : Type 0 where
  pub hundreds : ℕ
  pub tens : ℕ
  pub units : ℕ

abbrev pub IsDigit : ℕ → Type 0
IsDigit c = is_digit c ≡ true

pub record IsCode (k : Code) : Type 0 where
  pub hundreds_ok : IsDigit k.hundreds
  pub tens_ok : IsDigit k.tens
  pub units_ok : IsDigit k.units

abbrev pub code_bytes : Code → Bytes
code_bytes k = k.hundreds ∷ k.tens ∷ k.units ∷ []

abbrev pub value : Code → ℕ
value k = (k.hundreds - b'0') * 100 + (k.tens - b'0') * 10 + (k.units - b'0')

-- A line with the code and `sep` before its text.
abbrev pub coded : Code → ℕ → Bytes → Input
coded k sep text = got k.hundreds (k.tens ∷ k.units ∷ sep ∷ text ++ 10 ∷ [])

-- A line with no code of its own.
abbrev pub plain : Bytes → Input
plain [] = got 10 []
plain (c ∷ cs) = got c (cs ++ 10 ∷ [])

-- A line between the first and the last one of a long reply: any text, or one behind the code
-- and a dash.
pub data Middle : Type 0 where
  bare dashed : Bytes → Middle

abbrev pub text_of : Middle → Bytes
text_of (bare s) = s
text_of (dashed s) = s

abbrev pub render_middle : Code → Middle → Input
render_middle k (bare s) = plain s
render_middle k (dashed s) = coded k b'-' s

-- The text has no NUL, and if it stands alone it does not look like a line with the code.
abbrev pub FitsMiddle : Code → Middle → Type 0
FitsMiddle k (bare s) = HasNoNul s × (strn_eq 3 (code_bytes k) s ≡ false)
FitsMiddle k (dashed s) = HasNoNul s

abbrev pub FitAll : Code → List Middle → Type 0
FitAll k [] = Unit
FitAll k (m ∷ ms) = FitsMiddle k m × FitAll k ms

-- A reply of one line, or of a first line, others and a last one.
pub data Reply : Type 0 where
  short : Bytes → Reply
  long : Bytes → List Middle → Bytes → Reply

abbrev pub render : Code → Reply → List Input
render k (short t) = coded k 32 t ∷ []
render k (long t ms last) = coded k b'-' t ∷ (map (render_middle k) ms ++ coded k 32 last ∷ [])

abbrev pub texts : Reply → List Bytes
texts (short t) = t ∷ []
texts (long t ms last) = t ∷ (map text_of ms ++ last ∷ [])

abbrev pub Fits : Code → Reply → Type 0
Fits k (short t) = HasNoNul t
Fits k (long t ms last) = HasNoNul t × FitAll k ms × HasNoNul last
