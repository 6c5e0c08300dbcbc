-- ===== src/Ls/Unix.antt =====
-- UnLslRLine of libncftp/unls.c: a line of a listing as `ls -l` writes it. Behind its NUL the array of the
-- line is taken to hold NULs, as STRNCPY pads it.
use ncftp.Base.{
  ℕ, zero, suc, ◌-◌, Bool, true, false, not, ◌&&◌, ◌||◌, Option, none, some, [], ◌∷◌, ltb, ◌==◌,
  if◌then◌else◌, length, get_or, take, drop,
}
use ncftp.Base.Bytes.{Bytes, codes, is_digit, is_space, is_upper, is_lower, strn_eq, strncat}
use ncftp.Base.Formats.{skip_spaces, scan_int}
use ncftp.Base.Int.{ℤ, pos, negsuc, ◌+ℤ◌}
use ncftp.Facts.Time.{Clock, Tm}
use ncftp.Ls.{month_number}
use ncftp.Ls.Dos.{digit_at, made_time}

abbrev pub space_at : Bytes → ℕ → Bool
space_at s i = is_space (get_or s i 0)

abbrev pub char_is : Bytes → ℕ → ℕ → Bool
char_is s i c = get_or s i 0 == c

-- A digit, and ` Mon DD ` behind it.
abbrev pub is_month_form : Bytes → Bool
is_month_form s =
    digit_at s 0
    && space_at s 1
    && is_upper (get_or s 2 0)
    && is_lower (get_or s 3 0)
    && space_at s 5
    && (digit_at s 6 && digit_at s 7
        || digit_at s 6 && space_at s 7
        || space_at s 6 && digit_at s 7)
    && space_at s 8

-- `YYYY`, between spaces of which there may be one or two in front.
abbrev pub is_year_form : Bytes → Bool
is_year_form s =
    (space_at s 9 || digit_at s 9)
    && digit_at s 10
    && digit_at s 11
    && digit_at s 12
    && (digit_at s 13 || space_at s 13)

-- `HH:MM`.
abbrev pub is_time_form : Bytes → Bool
is_time_form s = digit_at s 10 && char_is s 11 b':' && digit_at s 12 && digit_at s 13

-- A digit, and ` YYYY-mm-dd HH:MM ` or ` YYYY-mm-dd HH:MM:SS ` behind it.
abbrev pub is_iso_form : Bytes → Bool
is_iso_form s =
    digit_at s 0
    && space_at s 1
    && digit_at s 2
    && digit_at s 3
    && digit_at s 4
    && digit_at s 5
    && char_is s 6 b'-'
    && digit_at s 7
    && digit_at s 8
    && char_is s 9 b'-'
    && digit_at s 10
    && digit_at s 11
    && space_at s 12
    && digit_at s 13
    && digit_at s 14
    && char_is s 15 b':'
    && digit_at s 16
    && digit_at s 17
    && (space_at s 18 || digit_at s 19 && digit_at s 20 && space_at s 21 && char_is s 18 b':')

-- What a date says, with year 0 if it does not say the year, and where the name starts.
pub record Dated : Type 0 where
  pub mon : ℤ
  pub day : ℤ
  pub hr : ℤ
  pub min : ℤ
  pub sec : ℤ
  pub year : ℤ
  pub filestart : ℕ

-- atoi of the `n` bytes from `i` on.
abbrev pub int_at : Bytes → ℕ → ℕ → ℤ
int_at s i n = scan_int (take n (drop i s))

abbrev pub name_start : Bytes → ℕ
name_start s = if not (space_at s 14) && space_at s 13 then 14 else 15

abbrev pub year_start : Bytes → ℕ
year_start s = if space_at s 9 then 10 else 9

abbrev pub year_form : Bytes → Dated
year_form s = record {
  mon = pos (month_number (take 3 (drop 2 s)));
  day = int_at s 6 2;
  hr = pos 23;
  min = pos 59;
  sec = pos 59;
  year = int_at s (year_start s) (name_start s - 1 - year_start s);
  filestart = name_start s;
}

abbrev pub time_form : Bytes → Dated
time_form s = record {
  mon = pos (month_number (take 3 (drop 2 s)));
  day = int_at s 6 2;
  hr = int_at s 9 2;
  min = int_at s 12 2;
  sec = pos 0;
  year = pos 0;
  filestart = 15;
}

abbrev pub iso_form : Bytes → Dated
iso_form s = record {
  mon = int_at s 7 2 +ℤ negsuc 0;
  day = int_at s 10 2;
  hr = int_at s 13 2;
  min = int_at s 16 2;
  sec = if space_at s 18 then pos 0 else int_at s 19 2;
  year = int_at s 2 4;
  filestart = if space_at s 18 then 19 else 22;
}

-- The date that the size's last digit is followed by.
unfoldable pub date_at : Bytes → Option Dated
date_at s =
    if is_month_form s
    then (if is_year_form s
        then some (year_form s)
        else if is_time_form s
        then some (time_form s)
        else none)
    else if is_iso_form s
    then some (iso_form s)
    else none

-- The caller's arrays and directory, the time, and what sscanf with `%lld` leaves in the size for a text
-- of digits.
pub record LsParams : Type 0 where
  pub scan_lld : Bytes → ℤ
  pub clock : Clock
  pub now : ℤ
  pub thisyear : ℤ
  pub curdir : Bytes
  pub fnamesize : ℕ
  pub linktosize : ℕ

-- What a line says: its file's name, link, type, size and time, and where the part in front of the size
-- ends.
pub record LsEntry : Type 0 where
  pub fname : Bytes
  pub linkto : Bytes
  pub ftype : ℕ
  pub fsize : ℤ
  pub ftime : ℤ
  pub plugend : ℕ

-- -1, an access in front of the line, or 0 with an entry.
pub data LsRead : Type 0 where
  no_entry underrun : LsRead
  listed : LsEntry → LsRead

abbrev pub later : ℤ → ℤ → Bool
later (pos a) (pos b) = ltb b a
later (pos a) (negsuc b) = true
later (negsuc a) (pos b) = false
later (negsuc a) (negsuc b) = ltb a b

abbrev pub tm_of : Dated → ℤ → Tm
tm_of d year = record {
  year = year +ℤ negsuc 1899;
  mon = d.mon;
  mday = d.day;
  hour = d.hr;
  minute = d.min;
  second = d.sec;
}

-- This year, or last year if that is more than two days ahead.
abbrev pub guessed : LsParams → Option (ℤ × Tm) → ℤ
guessed p none = negsuc 0
guessed p (some (t, tm)) =
    if later t (p.now +ℤ pos 172800)
    then made_time (p.clock.mktime (record tm { year = tm.year +ℤ negsuc 0 }))
    else t

abbrev pub is_zero : ℤ → Bool
is_zero (pos zero) = true
is_zero (pos (suc n)) = false
is_zero (negsuc n) = false

abbrev pub ls_time : LsParams → Dated → ℤ
ls_time p d =
    if is_zero d.year
    then guessed p (p.clock.mktime (tm_of d p.thisyear))
    else made_time (p.clock.mktime (tm_of d d.year))

-- The name, and what stands behind an arrow.
abbrev pub split_arrow : Bytes → Bytes × Bytes
split_arrow [] = ([], [])
split_arrow (c ∷ s) =
    let rest = split_arrow s in
    if strn_eq 4 (c ∷ s) (codes " -> ") then ([], drop 4 (c ∷ s)) else (c ∷ rest.0, rest.1)

abbrev pub ls_name : LsParams → Bytes → Bytes
ls_name p file =
    if length p.curdir == 0
    then take (p.fnamesize - 1) file
    else strncat p.fnamesize (take (p.fnamesize - 1) p.curdir) file

-- The way back from a digit: the digits, and what stands in front of them and of the spaces there.
abbrev pub size_text : Bytes → Bytes → Bytes
size_text acc [] = acc
size_text acc (c ∷ back) = let more = size_text (c ∷ acc) back in if is_digit c then more else acc

abbrev pub skip_digits : Bytes → Bytes
skip_digits [] = []
skip_digits (c ∷ back) = let more = skip_digits back in if is_digit c then more else c ∷ back

-- The types that are listed.
abbrev pub with_type : ℕ → LsEntry → LsRead
with_type c e =
    if c == b'd' || c == b'l'
    then listed (record e { ftype = c })
    else if c == b'b' || c == b'c' || c == b's'
    then no_entry
    else listed (record e { ftype = b'-' })

abbrev pub ls_entry : LsParams → ℕ → Bytes → Bytes → Dated → Bytes → LsRead
ls_entry p type back s d [] = underrun
ls_entry p type back s d (x ∷ plug) =
    let file = split_arrow (drop d.filestart s) in
    with_type type (record {
      fname = ls_name p file.0;
      linkto = take (p.linktosize - 1) file.1;
      ftype = 0;
      fsize = p.scan_lld (size_text [] back);
      ftime = ls_time p d;
      plugend = length (x ∷ plug);
    })

-- The scan for a date: `back` is the line in front of `s`, the latest byte first.
abbrev pub on_date : LsParams → ℕ → Bytes → Bytes → LsRead → Option Dated → LsRead
on_date p type back s more none = more
on_date p type back s more (some d) = ls_entry p type back s d (skip_spaces (skip_digits back))

unfoldable pub find_date : LsParams → ℕ → Bytes → Bytes → LsRead
find_date p type back [] = no_entry
find_date p type back (c ∷ s) =
    on_date p type (c ∷ back) (c ∷ s) (find_date p type (c ∷ back) s) (date_at (c ∷ s))

-- UnLslRLine.
unfoldable pub un_lslr_line : LsParams → Bytes → LsRead
un_lslr_line p line = find_date p (get_or line 0 0) [] line
