-- ===== src/Ls/Times.antt =====
-- The date and the time of day in a line that DOS writes, as UnDosLine reads them.
use ncftp.Base.{
  ℕ, zero, suc, ◌+◌, ◌-◌, ◌*◌, ◌%◌, ◌||◌, ◌<◌, ◌≤◌, ◌≡◌, ap, ◌∙◌, false, [], ◌∷◌, ◌++◌, arith, ltb,
  ◌==◌, if◌then◌else◌, length,
}
use ncftp.Base.Bytes.{Bytes, is_space, digits_value}
use ncftp.Base.Formats.{skip_spaces, scan_int, sign, signed}
use ncftp.Base.Int.{ℤ, pos}
use ncftp.Ls.{overrun}
use ncftp.Ls.Dos.{DosParams, find_size, made_time, find_time, dos_time, hour_of, year_2, year_4}
use ncftp.Ls.Sizes.{IsDigit, spaces}

-- A number of two digits.
abbrev pub two : ℕ → ℕ → ℕ
two a b = (a - b'0') * 10 + (b - b'0')

pub digits_value-two : (a b : ℕ) → IsDigit a → IsDigit b → digits_value 0 (a ∷ b ∷ []) ≡ two a b
digits_value-two a b ha hb = rw (ha, hb) (omega arith)

digit-not_blank : (d : ℕ) → IsDigit d → is_space d ≡ false
digit-not_blank d h = ground (arith, h)

pub digit-not_sign : (d : ℕ) → IsDigit d → ((d == b'-') ≡ false) × ((d == b'+') ≡ false)
digit-not_sign d h = (ground (arith, h), ground (arith, h))

pub scan_int-two : (a b : ℕ) → IsDigit a → IsDigit b → scan_int (a ∷ b ∷ []) ≡ pos (two a b)
unfolding scan_int
scan_int-two a b ha hb =
    ap (λ t. let (minus, digits) = sign t in signed minus (digits_value 0 digits))
      (ap (λ x. if x then skip_spaces (b ∷ []) else a ∷ b ∷ []) (digit-not_blank a ha))
    ∙ rw ((digit-not_sign a ha).0, (digit-not_sign a ha).1) (ap pos (digits_value-two a b ha hb))

-- The time of a line's month, day and year, and its hour and minute.
abbrev pub stamp_time : DosParams → ℕ → ℕ → ℕ → ℕ → ℕ → ℕ → ℤ
stamp_time p mon mday year hour minute letter = made_time (
    p.clock.mktime (record {
      year = pos year;
      mon = pos (mon - 1);
      mday = pos mday;
      hour = pos (hour_of letter hour);
      minute = pos minute;
      second = pos 0;
    }))

-- `HH:MMP`.
abbrev pub time_text : ℕ → ℕ → ℕ → ℕ → ℕ → Bytes → Bytes
time_text h1 h2 i1 i2 letter s = h1 ∷ h2 ∷ b':' ∷ i1 ∷ i2 ∷ letter ∷ s

roomy_6 : (n : ℕ) → ltb (suc (suc (suc (suc (suc (suc n)))))) 6 ≡ false
roomy_6 n = ground arith

pub find_time-written :
    (p : DosParams) (mon mday year n h1 h2 i1 i2 letter : ℕ) (s : Bytes)
    → IsDigit h1
    → IsDigit h2
    → IsDigit i1
    → IsDigit i2
    → find_time p mon mday year (spaces n ++ time_text h1 h2 i1 i2 letter s)
      ≡ find_size p (stamp_time p mon mday year (two h1 h2) (two i1 i2) letter) s
unfolding find_time
find_time-written p mon mday year (suc n) h1 h2 i1 i2 letter s a b c d =
    find_time-written p mon mday year n h1 h2 i1 i2 letter s a b c d
find_time-written p mon mday year zero h1 h2 i1 i2 letter s a b c d =
    ap
      (λ x.
        if x
        then (if ltb (length (time_text h1 h2 i1 i2 letter s)) 6
            then overrun
            else find_size p (dos_time p mon mday year (time_text h1 h2 i1 i2 letter s)) s)
        else find_time p mon mday year (h2 ∷ b':' ∷ i1 ∷ i2 ∷ letter ∷ s))
      a
    ∙ ap
        (λ x.
          if x
          then overrun
          else find_size p (dos_time p mon mday year (time_text h1 h2 i1 i2 letter s)) s)
        (roomy_6 (length s))
    ∙ ap
        (λ h.
          find_size p
            (made_time (
              p.clock.mktime (record {
                year = pos year;
                mon = pos (mon - 1);
                mday = pos mday;
                hour = pos (hour_of letter h);
                minute = scan_int (i1 ∷ i2 ∷ []);
                second = pos 0;
              })))
            s)
        (digits_value-two h1 h2 a b)
    ∙ ap
        (λ m.
          find_size p
            (made_time (
              p.clock.mktime (record {
                year = pos year;
                mon = pos (mon - 1);
                mday = pos mday;
                hour = pos (hour_of letter (two h1 h2));
                minute = m;
                second = pos 0;
              })))
            s)
        (scan_int-two i1 i2 c d)

-- The year of a line: two digits, or four.
pub data Year : Type 0 where
  short : ℕ → ℕ → Year
  full : ℕ → ℕ → ℕ → ℕ → Year

abbrev pub year_text : Year → Bytes
year_text (short y1 y2) = y1 ∷ y2 ∷ []
year_text (full y1 y2 y3 y4) = y1 ∷ y2 ∷ y3 ∷ y4 ∷ []

abbrev pub IsYear : Year → Type 0
IsYear (short y1 y2) = IsDigit y1 × IsDigit y2
IsYear (full y1 y2 y3 y4) = IsDigit y1 × IsDigit y2 × IsDigit y3 × IsDigit y4

-- Years since 1900.
abbrev pub year_in : Year → ℕ
year_in (short y1 y2) = year_2 (two y1 y2)
year_in (full y1 y2 y3 y4) = year_4 (two y1 y2 * 100 + two y3 y4)

-- The hour of the day, by the letter of AM or PM, and the year since 1900, from 1998 to 2097 if it has two
-- digits.
abbrev pub clock_hour : ℕ → ℕ → ℕ
clock_hour letter h =
    if letter == b'P' || letter == b'p'
    then h % 12 + 12
    else if letter == b'A' || letter == b'a'
    then h % 12
    else h

abbrev pub written_year : Year → ℕ
written_year (short y1 y2) = (two y1 y2 + 2) % 100 + 98
written_year (full y1 y2 y3 y4) = two y1 y2 * 100 + two y3 y4 - 1900

pub hour_of-clock_hour : (letter h : ℕ) → h ≤ 12 → hour_of letter h ≡ clock_hour letter h
hour_of-clock_hour letter h le = ground (arith, le)

-- A year of four digits is behind 1900.
abbrev pub IsModern : Year → Type 0
IsModern (short y1 y2) = Unit
IsModern (full y1 y2 y3 y4) = 1900 < two y1 y2 * 100 + two y3 y4

two-below : (a b : ℕ) → IsDigit a → IsDigit b → two a b < 100
two-below a b ha hb = ground (arith, ha, hb)

year_2-short : (n : ℕ) → n < 100 → year_2 n ≡ (n + 2) % 100 + 98
year_2-short n lt = ground (arith, lt)

year_4-full : (n : ℕ) → 1900 < n → year_4 n ≡ n - 1900
year_4-full n lt = ground (arith, lt)

pub year_in-written_year :
    (year : Year) → IsYear year → IsModern year → year_in year ≡ written_year year
year_in-written_year (short y1 y2) is modern = year_2-short (two y1 y2) (two-below y1 y2 is.0 is.1)
year_in-written_year (full y1 y2 y3 y4) is modern = year_4-full (two y1 y2 * 100 + two y3 y4) modern
