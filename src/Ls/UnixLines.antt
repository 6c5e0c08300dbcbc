-- ===== src/Ls/UnixLines.antt =====
-- UnLslRLine of the lines that `ls -l` writes.
use ncftp.Base.{
  ℕ, zero, suc, ◌+◌, ◌≡◌, refl, ap, ◌∙◌, inl, inr, Bool-cases, false, none, [], ◌∷◌, ◌++◌, arith,
  if◌then◌else◌, length,
}
use ncftp.Base.Bytes.{Bytes, is_digit, is_space}
use ncftp.Base.Formats.{skip_spaces}
use ncftp.Ls.Unix.{date_at, LsParams, size_text, skip_digits, on_date, find_date}
use ncftp.Ls.Sizes.{IsDigit, spaces}

abbrev pub AreDigits : Bytes → Type 0
AreDigits [] = Unit
AreDigits (d ∷ ds) = IsDigit d × AreDigits ds

-- Bytes put in front of the way back, one after another.
abbrev pub rev_onto : Bytes → Bytes → Bytes
rev_onto [] back = back
rev_onto (c ∷ s) back = rev_onto s (c ∷ back)

-- No date starts in the first part of a line.
abbrev pub HasNoDate : Bytes → Bytes → Type 0
HasNoDate [] rest = Unit
HasNoDate (c ∷ s) rest = (date_at ((c ∷ s) ++ rest) ≡ none) × HasNoDate s rest

find_date-skips :
    (p : LsParams) (type : ℕ) (back s rest : Bytes)
    → HasNoDate s rest
    → find_date p type back (s ++ rest) ≡ find_date p type (rev_onto s back) rest
unfolding find_date
find_date-skips p type back [] rest h = refl
find_date-skips p type back (c ∷ s) rest h =
    ap (on_date p type (c ∷ back) ((c ∷ s) ++ rest) (find_date p type (c ∷ back) (s ++ rest))) h.0
    ∙ find_date-skips p type (c ∷ back) s rest h.1

size_text-rev_onto :
    (acc ds back : Bytes)
    → AreDigits ds
    → size_text acc (rev_onto ds back) ≡ size_text (ds ++ acc) back
size_text-rev_onto acc [] back h = refl
size_text-rev_onto acc (d ∷ ds) back h =
    size_text-rev_onto acc ds (d ∷ back) h.1
    ∙ ap (λ b. if b then size_text (d ∷ (ds ++ acc)) back else ds ++ acc) h.0

skip_digits-rev_onto :
    (ds back : Bytes) → AreDigits ds → skip_digits (rev_onto ds back) ≡ skip_digits back
skip_digits-rev_onto [] back h = refl
skip_digits-rev_onto (d ∷ ds) back h =
    skip_digits-rev_onto ds (d ∷ back) h.1 ∙ ap (λ b. if b then skip_digits back else d ∷ back) h.0

skip_spaces-rev_onto :
    (n : ℕ) (back : Bytes) → skip_spaces (rev_onto (spaces n) back) ≡ skip_spaces back
skip_spaces-rev_onto zero back = refl
skip_spaces-rev_onto (suc n) back = skip_spaces-rev_onto n (32 ∷ back)

size_text-spaces :
    (acc : Bytes) (n : ℕ) (back : Bytes) → size_text acc (rev_onto (spaces (suc n)) back) ≡ acc
size_text-spaces acc zero back = refl
size_text-spaces acc (suc n) back = size_text-spaces acc n (32 ∷ back)

skip_digits-spaces :
    (n : ℕ) (back : Bytes)
    → skip_digits (rev_onto (spaces (suc n)) back) ≡ rev_onto (spaces (suc n)) back
skip_digits-spaces zero back = refl
skip_digits-spaces (suc n) back = skip_digits-spaces n (32 ∷ back)

rev_onto-last :
    (s : Bytes) (x : ℕ) (back : Bytes) → rev_onto (s ++ (x ∷ [])) back ≡ x ∷ rev_onto s back
rev_onto-last [] x back = refl
rev_onto-last (c ∷ s) x back = rev_onto-last s x (c ∷ back)

pub length-rev_onto : (s back : Bytes) → length (rev_onto s back) ≡ length s + length back
length-rev_onto [] back = omega arith
length-rev_onto (c ∷ s) back = omega (arith, length-rev_onto s (c ∷ back))

pub digit-not_space : (d : ℕ) → IsDigit d → is_space d ≡ false
digit-not_space d h = ground (arith, h)

-- A byte in front of a digit starts no date.
date_at-digit : (d e : ℕ) (s : Bytes) → IsDigit e → date_at (d ∷ e ∷ s) ≡ none
unfolding date_at
date_at-digit d e s h = elim (Bool-cases (is_digit d)) [
  | inl x ↦ rw (x, digit-not_space e h) refl
  | inr x ↦ rw x refl
]

date_at-space : (s : Bytes) → date_at (32 ∷ s) ≡ none
unfolding date_at
date_at-space s = refl

spaces-HasNoDate : (n : ℕ) (rest : Bytes) → HasNoDate (spaces n) rest
spaces-HasNoDate zero rest = tt
spaces-HasNoDate (suc n) rest = (date_at-space (spaces n ++ rest), spaces-HasNoDate n rest)

digits-HasNoDate :
    (ds : Bytes) (d : ℕ) (rest : Bytes) → AreDigits ds → IsDigit d → HasNoDate ds (d ∷ rest)
digits-HasNoDate [] d rest h hd = tt
digits-HasNoDate (a ∷ []) d rest h hd = (date_at-digit a d rest hd, tt)
digits-HasNoDate (a ∷ b ∷ ds) d rest h hd =
    (date_at-digit a b (ds ++ (d ∷ rest)) h.1.0, digits-HasNoDate (b ∷ ds) d rest h.1 hd)

-- The scan up to the last digit of the size.
pub find_date-size :
    (p : LsParams) (type : ℕ) (plug : Bytes) (n : ℕ) (ds : Bytes) (d : ℕ) (s : Bytes)
    → AreDigits ds
    → IsDigit d
    → HasNoDate plug (spaces n ++ (ds ++ (d ∷ s)))
    → find_date p type [] (plug ++ (spaces n ++ (ds ++ (d ∷ s))))
      ≡ find_date p type (rev_onto ds (rev_onto (spaces n) (rev_onto plug []))) (d ∷ s)
find_date-size p type plug n ds d s are is quiet =
    find_date-skips p type [] plug (spaces n ++ (ds ++ (d ∷ s))) quiet
    ∙ find_date-skips p type (rev_onto plug []) (spaces n) (ds ++ (d ∷ s))
        (spaces-HasNoDate n (ds ++ (d ∷ s)))
    ∙ find_date-skips p type (rev_onto (spaces n) (rev_onto plug [])) ds (d ∷ s)
        (digits-HasNoDate ds d s are is)

-- What is found on the way back.
pub way_back-size :
    (plug : Bytes) (n : ℕ) (ds : Bytes) (d : ℕ)
    → AreDigits ds
    → IsDigit d
    → size_text [] (d ∷ rev_onto ds (rev_onto (spaces (suc n)) (rev_onto plug []))) ≡ ds ++ (d ∷ [])
way_back-size plug n ds d are is =
    let back = rev_onto (spaces (suc n)) (rev_onto plug []) in
    ap (λ b. if b then size_text (d ∷ []) (rev_onto ds back) else []) is
    ∙ size_text-rev_onto (d ∷ []) ds back are
    ∙ size_text-spaces (ds ++ (d ∷ [])) n (rev_onto plug [])

last-stays : (x : ℕ) (back : Bytes) → is_space x ≡ false → skip_spaces (x ∷ back) ≡ x ∷ back
last-stays x back h = rw h refl

pub way_back-plug :
    (front : Bytes) (x n : ℕ) (ds : Bytes) (d : ℕ)
    → AreDigits ds
    → IsDigit d
    → is_space x ≡ false
    → skip_spaces (
        skip_digits (d ∷ rev_onto ds (rev_onto (spaces (suc n)) (rev_onto (front ++ (x ∷ [])) []))))
      ≡ x ∷ rev_onto front []
way_back-plug front x n ds d are is hs =
    let plug = rev_onto (front ++ (x ∷ [])) [] in
    let back = rev_onto (spaces (suc n)) plug in
    ap (λ b. skip_spaces (if b then skip_digits (rev_onto ds back) else d ∷ rev_onto ds back)) is
    ∙ ap skip_spaces (skip_digits-rev_onto ds back are ∙ skip_digits-spaces n plug)
    ∙ skip_spaces-rev_onto (suc n) plug
    ∙ ap skip_spaces (rev_onto-last front x [])
    ∙ last-stays x (rev_onto front []) hs
