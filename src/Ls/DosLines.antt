-- ===== src/Ls/DosLines.antt =====
-- UnDosLine of the lines that DOS writes.
use ncftp.Base.{
  ℕ, suc, ◌+◌, ◌-◌, ◌*◌, ◌≤◌, ◌≡◌, refl, ap, ◌∙◌, true, false, not, ◌&&◌, [], ◌∷◌, ◌++◌, arith, ltb,
  if◌then◌else◌, length,
}
use ncftp.Base.Bytes.{Bytes, is_digit, is_space, digits_value}
use ncftp.Base.Int.{ℤ, pos}
use ncftp.Ls.{refused, overrun, entry}
use ncftp.Ls.{ReadsNumbers}
use ncftp.Ls.Dos.{
  DosParams, starts_dated, file_name, made_time, find_time, after_year, year_2, year_4, un_dos_line,
}
use ncftp.Ls.Sizes.{
  IsDigit, spaces, Body, body_text, IsBody, IsSmall, type_of, size_in, find_size-spaces,
  find_size-letter, find_size-written,
}
use ncftp.Ls.Times.{
  two, digits_value-two, stamp_time, time_text, find_time-written, Year, short, full, year_text,
  IsYear, year_in, clock_hour, written_year, hour_of-clock_hour, IsModern, year_in-written_year,
}

-- `MM-DD-YY`, a space, and the rest of a line.
abbrev pub dated : ℕ → ℕ → ℕ → ℕ → Year → Bytes → Bytes
dated m1 m2 d1 d2 year s = m1 ∷ m2 ∷ b'-' ∷ d1 ∷ d2 ∷ b'-' ∷ (year_text year ++ (32 ∷ s))

roomy_9 : (n : ℕ) → ltb (suc (suc (suc (suc (suc (suc (suc (suc (suc n))))))))) 9 ≡ false
roomy_9 n = ground arith

roomy_11 :
    (n : ℕ) → ltb (suc (suc (suc (suc (suc (suc (suc (suc (suc (suc (suc n))))))))))) 11 ≡ false
roomy_11 n = ground arith

digits_value-four :
    (a b c d : ℕ)
    → IsDigit a
    → IsDigit b
    → IsDigit c
    → IsDigit d
    → digits_value 0 (a ∷ b ∷ c ∷ d ∷ []) ≡ two a b * 100 + two c d
digits_value-four a b c d ha hb hc hd = rw (ha, hb, hc, hd) (omega arith)

after_year-dated :
    (p : DosParams) (m1 m2 d1 d2 : ℕ) (line s : Bytes) (y y' : ℕ)
    → IsDigit m1
    → IsDigit m2
    → IsDigit d1
    → IsDigit d2
    → y ≡ y'
    → find_time p (digits_value 0 (m1 ∷ m2 ∷ [])) (digits_value 0 (d1 ∷ d2 ∷ [])) y s
      ≡ find_time p (two m1 m2) (two d1 d2) y' s
after_year-dated p m1 m2 d1 d2 line s y y' a b c d e =
    ap (λ n. find_time p n (digits_value 0 (d1 ∷ d2 ∷ [])) y s) (digits_value-two m1 m2 a b)
    ∙ ap (λ n. find_time p (two m1 m2) n y s) (digits_value-two d1 d2 c d)
    ∙ ap (λ n. find_time p (two m1 m2) (two d1 d2) n s) e

un_dos_line-dated :
    (p : DosParams) (m1 m2 d1 d2 : ℕ) (year : Year) (s : Bytes)
    → IsDigit m1
    → IsDigit m2
    → IsDigit d1
    → IsDigit d2
    → IsYear year
    → un_dos_line p (dated m1 m2 d1 d2 year s)
      ≡ find_time p (two m1 m2) (two d1 d2) (year_in year) s
unfolding un_dos_line
un_dos_line-dated p m1 m2 d1 d2 (short y1 y2) s a b c d is =
    let month = digits_value 0 (m1 ∷ m2 ∷ []) in
    let day = digits_value 0 (d1 ∷ d2 ∷ []) in
    let y = year_2 (digits_value 0 (y1 ∷ y2 ∷ [])) in
    let line = dated m1 m2 d1 d2 (short y1 y2) s in
    let starts : starts_dated line ≡ true = rw (a, b, c, d, is.0, is.1) refl in
    ap (λ x. if not x then refused else after_year p 9 y line) starts
    ∙ ap (λ x. if x then overrun else find_time p month day y s) (roomy_9 (length s))
    ∙ after_year-dated p m1 m2 d1 d2 line s y (year_2 (two y1 y2)) a b c d
        (ap year_2 (digits_value-two y1 y2 is.0 is.1))
un_dos_line-dated p m1 m2 d1 d2 (full y1 y2 y3 y4) s a b c d is =
    let month = digits_value 0 (m1 ∷ m2 ∷ []) in
    let day = digits_value 0 (d1 ∷ d2 ∷ []) in
    let y = year_4 (digits_value 0 (y1 ∷ y2 ∷ y3 ∷ y4 ∷ [])) in
    let short_year = after_year p 9 (year_2 (digits_value 0 (y1 ∷ y2 ∷ []))) in
    let line = dated m1 m2 d1 d2 (full y1 y2 y3 y4) s in
    let starts : starts_dated line ≡ true = rw (a, b, c, d, is.0, is.1) refl in
    ap
      (λ x.
        if not x
        then refused
        else if is_digit y3 && is_digit y4
        then after_year p 11 y line
        else short_year line)
      starts
    ∙ ap (λ x. if x && is_digit y4 then after_year p 11 y line else short_year line) is.2
    ∙ ap (λ x. if x then after_year p 11 y line else short_year line) is.3
    ∙ ap (λ x. if x then overrun else find_time p month day y s) (roomy_11 (length s))
    ∙ after_year-dated p m1 m2 d1 d2 line s y (year_in (full y1 y2 y3 y4)) a b c d
        (ap year_4 (digits_value-four y1 y2 y3 y4 is.0 is.1 is.2 is.3))

-- The digits of a line's month, day, hour and minute, its year, and the letter of AM or PM.
pub record Stamp : Type 0 where
  pub m1 : ℕ
  pub m2 : ℕ
  pub d1 : ℕ
  pub d2 : ℕ
  pub year : Year
  pub h1 : ℕ
  pub h2 : ℕ
  pub i1 : ℕ
  pub i2 : ℕ
  pub letter : ℕ

pub record IsStamp (t : Stamp) : Type 0 where
  pub month_ok : IsDigit t.m1 × IsDigit t.m2
  pub day_ok : IsDigit t.d1 × IsDigit t.d2
  pub year_ok : IsYear t.year
  pub hour_ok : IsDigit t.h1 × IsDigit t.h2
  pub minute_ok : IsDigit t.i1 × IsDigit t.i2

-- `MM-DD-YY`, spaces, `HH:MMPM`, spaces, the size or the mark of a directory, spaces and the name.
abbrev pub dos_line : Stamp → ℕ → ℕ → Body → ℕ → Bytes → Bytes
dos_line t gap1 gap2 body gap3 name = dated t.m1 t.m2 t.d1 t.d2 t.year (
    spaces gap1
    ++ time_text t.h1 t.h2 t.i1 t.i2 t.letter
        (b'M' ∷ (spaces gap2 ++ (body_text body ++ (32 ∷ (spaces gap3 ++ name))))))

-- The time that mktime makes of what a line says.
abbrev pub written_time : DosParams → Stamp → ℤ
written_time p t = made_time (
    p.clock.mktime (record {
      year = pos (written_year t.year);
      mon = pos (two t.m1 t.m2 - 1);
      mday = pos (two t.d1 t.d2);
      hour = pos (clock_hour t.letter (two t.h1 t.h2));
      minute = pos (two t.i1 t.i2);
      second = pos 0;
    }))

stamp_time-written_time :
    (p : DosParams) (t : Stamp)
    → IsYear t.year
    → IsModern t.year
    → two t.h1 t.h2 ≤ 12
    → stamp_time p
        (two t.m1 t.m2)
        (two t.d1 t.d2)
        (year_in t.year)
        (two t.h1 t.h2)
        (two t.i1 t.i2)
        t.letter
      ≡ written_time p t
stamp_time-written_time p t is modern le =
    ap
      (λ y. stamp_time p (two t.m1 t.m2) (two t.d1 t.d2) y (two t.h1 t.h2) (two t.i1 t.i2) t.letter)
      (year_in-written_year t.year is modern)
    ∙ ap
        (λ h. made_time (
          p.clock.mktime (record {
            year = pos (written_year t.year);
            mon = pos (two t.m1 t.m2 - 1);
            mday = pos (two t.d1 t.d2);
            hour = pos h;
            minute = pos (two t.i1 t.i2);
            second = pos 0;
          })))
        (hour_of-clock_hour t.letter (two t.h1 t.h2) le)

-- UnDosLine of a line as DOS writes it, with a year of two digits or of four, a size with commas or
-- without them or the mark of a directory, and any number of spaces, a name that does not start with a
-- blank, when the hour is at most 12, a year of four digits is behind 1900, the size is less than
-- 2 ^ 63 and sscanf reads such numbers: it gives the name, the type,
-- the size without its commas, and the time that mktime makes of the date and the time of day.
pub un_dos_line-written :
    (p : DosParams) (t : Stamp) (gap1 gap2 gap3 : ℕ) (body : Body) (c : ℕ) (name : Bytes)
    → IsStamp t
    → IsModern t.year
    → two t.h1 t.h2 ≤ 12
    → IsBody body
    → ReadsNumbers p.scan_lld
    → IsSmall body
    → is_space c ≡ false
    → un_dos_line p (dos_line t gap1 gap2 body gap3 (c ∷ name))
      ≡ entry (record {
        fname = file_name p (c ∷ name);
        ftype = type_of body;
        fsize = size_in body;
        ftime = written_time p t;
      })
un_dos_line-written p t gap1 gap2 gap3 body c name is_stamp modern hour is_body reads small e =
    let rest = body_text body ++ (32 ∷ (spaces gap3 ++ (c ∷ name))) in
    let mon = two t.m1 t.m2 in
    let day = two t.d1 t.d2 in
    let time = stamp_time p mon day (year_in t.year) (two t.h1 t.h2) (two t.i1 t.i2) t.letter in
    un_dos_line-dated p t.m1 t.m2 t.d1 t.d2 t.year
      (spaces gap1 ++ time_text t.h1 t.h2 t.i1 t.i2 t.letter (b'M' ∷ (spaces gap2 ++ rest)))
      is_stamp.month_ok.0 is_stamp.month_ok.1 is_stamp.day_ok.0 is_stamp.day_ok.1 is_stamp.year_ok
    ∙ find_time-written p mon day (year_in t.year) gap1 t.h1 t.h2 t.i1 t.i2 t.letter
        (b'M' ∷ (spaces gap2 ++ rest)) is_stamp.hour_ok.0 is_stamp.hour_ok.1 is_stamp.minute_ok.0
        is_stamp.minute_ok.1
    ∙ find_size-letter p time (spaces gap2 ++ rest)
    ∙ find_size-spaces p time gap2 rest
    ∙ find_size-written p time body gap3 c name is_body reads small e
    ∙ ap
        (λ x. entry (record {
          fname = file_name p (c ∷ name);
          ftype = type_of body;
          fsize = size_in body;
          ftime = x;
        }))
        (stamp_time-written_time p t is_stamp.year_ok modern hour)
