-- ===== src/Ls/Sizes.antt =====
-- The size and the name in a line that DOS writes, as UnDosLine reads them.
use ncftp.Base.{
  ℕ, zero, suc, ◌<◌, ◌^◌, ◌≡◌, refl, ap, sym, ◌∙◌, Bool, true, false, List, [], ◌∷◌, ◌++◌, arith,
  ltb, ◌==◌, if◌then◌else◌, length, replicate,
}
use mathlib.Core.List.{append_assoc, append-nil}
use ncftp.Base.Bytes.{Bytes, codes, is_digit, is_space, digits_value}
use ncftp.Base.Formats.{skip_spaces}
use ncftp.Base.Int.{ℤ, pos}
use ncftp.Base.Formats
use ncftp.Ls.{overrun, entry, ReadsNumbers}
use ncftp.Ls.Dos.{DosParams, file_name, name_entry, read_name, size_of, read_size, find_size}

abbrev pub IsDigit : ℕ → Type 0
IsDigit c = is_digit c ≡ true

abbrev pub spaces : ℕ → Bytes
spaces n = replicate n 32

-- The digits of a size behind the first one, each with or without a comma in front of it.
abbrev pub Digits : Type 0
Digits = List (Bool × ℕ)

abbrev pub AreDigits : Digits → Type 0
AreDigits [] = Unit
AreDigits ((b, d) ∷ ds) = IsDigit d × AreDigits ds

abbrev pub with_commas : Digits → Bytes
with_commas [] = []
with_commas ((true, d) ∷ ds) = b',' ∷ d ∷ with_commas ds
with_commas ((false, d) ∷ ds) = d ∷ with_commas ds

abbrev pub plain_digits : Digits → Bytes
plain_digits [] = []
plain_digits ((b, d) ∷ ds) = d ∷ plain_digits ds

skip_spaces-spaces :
    (n c : ℕ) (file : Bytes) → is_space c ≡ false → skip_spaces (spaces n ++ (c ∷ file)) ≡ c ∷ file
skip_spaces-spaces zero c file e = rw e refl
skip_spaces-spaces (suc n) c file e = rw (skip_spaces-spaces n c file e) refl

digit-not_comma : (d : ℕ) → IsDigit d → (d == b',') ≡ false
digit-not_comma d h = ground (arith, h)

read_size-digit :
    (p : DosParams) (ftype : ℕ) (time : ℤ) (acc : Bytes) (d : ℕ) (s : Bytes)
    → IsDigit d
    → read_size p ftype time acc (d ∷ s) ≡ read_size p ftype time (acc ++ (d ∷ [])) s
unfolding read_size
read_size-digit p ftype time acc d [] h = refl
read_size-digit p ftype time acc d (e ∷ s) h = rw (digit-not_comma d h, h) refl

read_size-comma :
    (p : DosParams) (ftype : ℕ) (time : ℤ) (acc : Bytes) (d : ℕ) (s : Bytes)
    → IsDigit d
    → read_size p ftype time acc (b',' ∷ d ∷ s) ≡ read_size p ftype time (acc ++ (d ∷ [])) s
unfolding read_size
read_size-comma p ftype time acc d s h = rw h refl

read_size-written :
    (p : DosParams) (ftype : ℕ) (time : ℤ) (acc : Bytes) (ds : Digits) (c : ℕ) (s : Bytes)
    → AreDigits ds
    → read_size p ftype time acc (with_commas ds ++ (32 ∷ c ∷ s))
      ≡ read_name p ftype (size_of p ftype (acc ++ plain_digits ds)) time (c ∷ s)
unfolding read_size
read_size-written p ftype time acc [] c s are =
    ap (λ ds. read_name p ftype (size_of p ftype ds) time (c ∷ s)) (sym (append-nil acc))
read_size-written p ftype time acc ((true, d) ∷ ds) c s are =
    read_size-comma p ftype time acc d (with_commas ds ++ (32 ∷ c ∷ s)) are.0
    ∙ read_size-written p ftype time (acc ++ (d ∷ [])) ds c s are.1
    ∙ ap (λ x. read_name p ftype (size_of p ftype x) time (c ∷ s))
        (append_assoc acc (d ∷ []) (plain_digits ds))
read_size-written p ftype time acc ((false, d) ∷ ds) c s are =
    read_size-digit p ftype time acc d (with_commas ds ++ (32 ∷ c ∷ s)) are.0
    ∙ read_size-written p ftype time (acc ++ (d ∷ [])) ds c s are.1
    ∙ ap (λ x. read_name p ftype (size_of p ftype x) time (c ∷ s))
        (append_assoc acc (d ∷ []) (plain_digits ds))

pub find_size-spaces :
    (p : DosParams) (time : ℤ) (n : ℕ) (s : Bytes)
    → find_size p time (spaces n ++ s) ≡ find_size p time s
unfolding find_size
find_size-spaces p time zero s = refl
find_size-spaces p time (suc n) s = find_size-spaces p time n s

pub find_size-letter :
    (p : DosParams) (time : ℤ) (s : Bytes) → find_size p time (b'M' ∷ s) ≡ find_size p time s
unfolding find_size
find_size-letter p time s = refl

digit-not_less : (d : ℕ) → IsDigit d → (d == b'<') ≡ false
digit-not_less d h = ground (arith, h)

find_size-digit :
    (p : DosParams) (time : ℤ) (d : ℕ) (s : Bytes)
    → IsDigit d
    → find_size p time (d ∷ s) ≡ read_size p b'-' time [] (d ∷ s)
unfolding find_size
find_size-digit p time d s h = rw (digit-not_less d h, h) refl

roomy : (n : ℕ) → ltb (suc (suc (suc (suc (suc n))))) 5 ≡ false
roomy n = ground arith

find_size-dir :
    (p : DosParams) (time : ℤ) (s : Bytes)
    → find_size p time (codes "<DIR>" ++ s) ≡ read_size p b'd' time [] s
unfolding find_size
find_size-dir p time s =
    ap (λ b. if b then overrun else read_size p b'd' time [] s) (roomy (length s))

-- What stands in the place of the size, and what it means.
pub data Body : Type 0 where
  dir : Body
  file : ℕ → Digits → Body

abbrev pub body_text : Body → Bytes
body_text dir = codes "<DIR>"
body_text (file d ds) = d ∷ with_commas ds

abbrev pub IsBody : Body → Type 0
IsBody dir = Unit
IsBody (file d ds) = IsDigit d × AreDigits ds

abbrev pub type_of : Body → ℕ
type_of dir = b'd'
type_of (file d ds) = b'-'

abbrev pub size_in : Body → ℤ
size_in dir = pos 0
size_in (file d ds) = pos (digits_value 0 (d ∷ plain_digits ds))

-- The size fits 64 bits with a sign.
abbrev pub IsSmall : Body → Type 0
IsSmall dir = Unit
IsSmall (file d ds) = digits_value 0 (d ∷ plain_digits ds) < 2 ^ 63

plain-AreDigits : (ds : Digits) → AreDigits ds → Formats.AreDigits (plain_digits ds)
plain-AreDigits [] are = tt
plain-AreDigits ((b, d) ∷ ds) are = (are.0, plain-AreDigits ds are.1)

read_name-written :
    (p : DosParams) (ftype : ℕ) (size time : ℤ) (n c : ℕ) (name : Bytes)
    → is_space c ≡ false
    → read_name p ftype size time (spaces n ++ (c ∷ name))
      ≡ entry (record { fname = file_name p (c ∷ name); ftype = ftype; fsize = size; ftime = time })
read_name-written p ftype size time n c name e =
    ap (name_entry p ftype size time) (skip_spaces-spaces n c name e)

read_size-name :
    (p : DosParams) (ftype : ℕ) (time : ℤ) (acc : Bytes) (ds : Digits) (n c : ℕ) (name : Bytes)
    → AreDigits ds
    → read_size p ftype time acc (with_commas ds ++ (32 ∷ (spaces n ++ (c ∷ name))))
      ≡ read_name p ftype (size_of p ftype (acc ++ plain_digits ds)) time (spaces n ++ (c ∷ name))
read_size-name p ftype time acc ds zero c name are =
    read_size-written p ftype time acc ds c name are
read_size-name p ftype time acc ds (suc n) c name are =
    read_size-written p ftype time acc ds 32 (spaces n ++ (c ∷ name)) are

pub find_size-written :
    (p : DosParams) (time : ℤ) (body : Body) (n c : ℕ) (name : Bytes)
    → IsBody body
    → ReadsNumbers p.scan_lld
    → IsSmall body
    → is_space c ≡ false
    → find_size p time (body_text body ++ (32 ∷ (spaces n ++ (c ∷ name))))
      ≡ entry (record {
        fname = file_name p (c ∷ name);
        ftype = type_of body;
        fsize = size_in body;
        ftime = time;
      })
find_size-written p time dir n c name is reads small e =
    find_size-dir p time (32 ∷ (spaces n ++ (c ∷ name)))
    ∙ read_size-name p b'd' time [] [] n c name tt
    ∙ read_name-written p b'd' (pos 0) time n c name e
find_size-written p time (file d ds) n c name is reads small e =
    find_size-digit p time d (with_commas ds ++ (32 ∷ (spaces n ++ (c ∷ name)))) is.0
    ∙ read_size-name p b'-' time [] ((false, d) ∷ ds) n c name is
    ∙ ap (λ size. read_name p b'-' size time (spaces n ++ (c ∷ name)))
        (reads (d ∷ plain_digits ds) (is.0, plain-AreDigits ds is.1) (ground arith) small)
    ∙ read_name-written p b'-' (size_in (file d ds)) time n c name e
