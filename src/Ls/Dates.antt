-- ===== src/Ls/Dates.antt =====
-- The month, the day and the time of day in a line of `ls -l`, as UnLslRLine reads them.
use ncftp.Base.{ℕ, ◌-◌, ◌≡◌, refl, ap, ◌∙◌, true, some, [], ◌∷◌, arith, if◌then◌else◌, get_or, take}
use ncftp.Base.Bytes.{Bytes, codes, is_upper, is_lower, digits_value}
use ncftp.Base.Formats.{scan_int, sign, signed}
use ncftp.Base.Int.{pos}
use ncftp.Ls.{month_number}
use ncftp.Ls.Sizes.{IsDigit}
use ncftp.Ls.Times.{two, scan_int-two, digit-not_sign}
use ncftp.Ls.Unix.{Dated, time_form, date_at}
use ncftp.Ls.UnixLines.{digit-not_space}

pub data Month : Type 0 where
  jan feb mar apr may jun jul aug sep oct nov dec : Month

abbrev pub letters : Month → Bytes
letters jan = codes "Jan"
letters feb = codes "Feb"
letters mar = codes "Mar"
letters apr = codes "Apr"
letters may = codes "May"
letters jun = codes "Jun"
letters jul = codes "Jul"
letters aug = codes "Aug"
letters sep = codes "Sep"
letters oct = codes "Oct"
letters nov = codes "Nov"
letters dec = codes "Dec"

abbrev pub letter : Month → ℕ → ℕ
letter m i = get_or (letters m) i 0

abbrev pub from_january : Month → ℕ
from_january jan = 0
from_january feb = 1
from_january mar = 2
from_january apr = 3
from_january may = 4
from_january jun = 5
from_january jul = 6
from_january aug = 7
from_january sep = 8
from_january oct = 9
from_january nov = 10
from_january dec = 11

-- A day of one digit, behind a space, or of two.
pub data Day : Type 0 where
  one : ℕ → Day
  both : ℕ → ℕ → Day

abbrev pub day_text : Day → Bytes → Bytes
day_text (one d) s = 32 ∷ d ∷ s
day_text (both d1 d2) s = d1 ∷ d2 ∷ s

abbrev pub IsDay : Day → Type 0
IsDay (one d) = IsDigit d
IsDay (both d1 d2) = IsDigit d1 × IsDigit d2

abbrev pub day_value : Day → ℕ
day_value (one d) = d - b'0'
day_value (both d1 d2) = two d1 d2

-- ` Mon DD HH:MM `, and the rest of a line.
abbrev pub date_text : Month → Day → ℕ → ℕ → ℕ → ℕ → Bytes → Bytes
date_text m day h1 h2 i1 i2 s =
    32
    ∷ letter m 0
    ∷ letter m 1
    ∷ letter m 2
    ∷ 32
    ∷ (day_text day (32 ∷ h1 ∷ h2 ∷ b':' ∷ i1 ∷ i2 ∷ 32 ∷ s))

month_number-letters :
    (m : Month) → month_number (letter m 0 ∷ letter m 1 ∷ letter m 2 ∷ []) ≡ from_january m
unfolding month_number
month_number-letters jan = refl
month_number-letters feb = refl
month_number-letters mar = refl
month_number-letters apr = refl
month_number-letters may = refl
month_number-letters jun = refl
month_number-letters jul = refl
month_number-letters aug = refl
month_number-letters sep = refl
month_number-letters oct = refl
month_number-letters nov = refl
month_number-letters dec = refl

letters-upper : (m : Month) → is_upper (letter m 0) ≡ true
letters-upper jan = refl
letters-upper feb = refl
letters-upper mar = refl
letters-upper apr = refl
letters-upper may = refl
letters-upper jun = refl
letters-upper jul = refl
letters-upper aug = refl
letters-upper sep = refl
letters-upper oct = refl
letters-upper nov = refl
letters-upper dec = refl

letters-lower : (m : Month) → is_lower (letter m 1) ≡ true
letters-lower jan = refl
letters-lower feb = refl
letters-lower mar = refl
letters-lower apr = refl
letters-lower may = refl
letters-lower jun = refl
letters-lower jul = refl
letters-lower aug = refl
letters-lower sep = refl
letters-lower oct = refl
letters-lower nov = refl
letters-lower dec = refl

-- What such a date says.
abbrev pub said : Month → Day → ℕ → ℕ → ℕ → ℕ → Dated
said m day h1 h2 i1 i2 = record {
  mon = pos (from_january m);
  day = pos (day_value day);
  hr = pos (two h1 h2);
  min = pos (two i1 i2);
  sec = pos 0;
  year = pos 0;
  filestart = 15;
}

scan_int-one : (d : ℕ) → IsDigit d → scan_int (32 ∷ d ∷ []) ≡ pos (d - b'0')
unfolding scan_int
scan_int-one d h =
    ap (λ t. let (minus, digits) = sign t in signed minus (digits_value 0 digits))
      (ap (λ x. if x then [] else d ∷ []) (digit-not_space d h))
    ∙ rw ((digit-not_sign d h).0, (digit-not_sign d h).1, h) (ap pos (omega arith))

scan_int-day : (day : Day) → IsDay day → scan_int (take 2 (day_text day [])) ≡ pos (day_value day)
scan_int-day (one d) is = scan_int-one d is
scan_int-day (both d1 d2) is = scan_int-two d1 d2 is.0 is.1

-- By the month's and the day's form, the date is found.
pub date_at-form :
    (d : ℕ) (m : Month) (day : Day) (h1 h2 i1 i2 : ℕ) (s : Bytes)
    → IsDigit d
    → IsDay day
    → IsDigit h1
    → IsDigit h2
    → IsDigit i1
    → IsDigit i2
    → date_at (d ∷ date_text m day h1 h2 i1 i2 s)
      ≡ some (time_form (d ∷ date_text m day h1 h2 i1 i2 s))
unfolding date_at
date_at-form d m (one x) h1 h2 i1 i2 s is day a b c e =
    rw (is, letters-upper m, letters-lower m, day, digit-not_space h1 a, a, b, c, e) refl
date_at-form d m (both x y) h1 h2 i1 i2 s is day a b c e =
    rw
      (
        is,
        letters-upper m,
        letters-lower m,
        digit-not_space x day.0,
        day.0,
        day.1,
        digit-not_space h1 a,
        a,
        b,
        c,
        e,
      )
      refl

pub time_form-said :
    (d : ℕ) (m : Month) (day : Day) (h1 h2 i1 i2 : ℕ) (s : Bytes)
    → IsDay day
    → IsDigit h1
    → IsDigit h2
    → IsDigit i1
    → IsDigit i2
    → time_form (d ∷ date_text m day h1 h2 i1 i2 s) ≡ said m day h1 h2 i1 i2
time_form-said d m (one x) h1 h2 i1 i2 s is a b c e =
    rw (month_number-letters m, scan_int-one x is, scan_int-two h1 h2 a b, scan_int-two i1 i2 c e)
      refl
time_form-said d m (both x y) h1 h2 i1 i2 s is a b c e =
    rw
      (
        month_number-letters m,
        scan_int-two x y is.0 is.1,
        scan_int-two h1 h2 a b,
        scan_int-two i1 i2 c e,
      )
      refl
