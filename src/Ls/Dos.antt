-- ===== src/Ls/Dos.antt =====
-- UnDosLine of libncftp/unls.c: a line of a listing as DOS writes it. The line is the list of its bytes;
-- an access behind its NUL is the outcome `overrun`.
use ncftp.Base.{
  ℕ, ◌+◌, ◌-◌, Bool, not, ◌&&◌, ◌||◌, Option, none, some, [], ◌∷◌, ◌++◌, ltb, leb, ◌==◌,
  if◌then◌else◌, length, get_or, take, drop,
}
use ncftp.Base.Bytes.{Bytes, is_digit, digits_value, strncat}
use ncftp.Base.Formats.{skip_spaces, scan_int}
use ncftp.Base.Int.{ℤ, pos, negsuc}
use ncftp.Facts.Time.{Clock, Tm}
use ncftp.Ls.{LineRead, refused, overrun, entry}

-- ispunct in the "C" locale.
abbrev pub is_punct : ℕ → Bool
is_punct c =
    leb 33 c && leb c 47 || leb 58 c && leb c 64 || leb 91 c && leb c 96 || leb 123 c && leb c 126

abbrev pub digit_at : Bytes → ℕ → Bool
digit_at s i = is_digit (get_or s i 0)

-- `NN?NN?NN`.
abbrev pub starts_dated : Bytes → Bool
starts_dated s =
    digit_at s 0
    && digit_at s 1
    && is_punct (get_or s 2 0)
    && digit_at s 3
    && digit_at s 4
    && is_punct (get_or s 5 0)
    && digit_at s 6
    && digit_at s 7

abbrev pub number_at : Bytes → ℕ → ℕ → ℕ
number_at s i n = digits_value 0 (take n (drop i s))

-- Years since 1900, of four digits or of two.
abbrev pub year_4 : ℕ → ℕ
year_4 y = if ltb 1900 y then y - 1900 else y

abbrev pub year_2 : ℕ → ℕ
year_2 y = if ltb y 98 then y + 100 else y

-- The hour from 0 on, by the letter behind the minutes.
abbrev pub hour_of : ℕ → ℕ → ℕ
hour_of letter h =
    if (letter == b'P' || letter == b'p') && ltb h 12
    then h + 12
    else if (letter == b'A' || letter == b'a') && h == 12
    then h - 12
    else h

-- The caller's array, the directory that goes in front of the names, the clock, and what sscanf with
-- `%lld` leaves in the size for a text of digits.
pub record DosParams : Type 0 where
  pub clock : Clock
  pub scan_lld : Bytes → ℤ
  pub curdir : Bytes
  pub fnamesize : ℕ

abbrev pub file_name : DosParams → Bytes → Bytes
file_name p file =
    if length p.curdir == 0
    then take (p.fnamesize - 1) file
    else strncat p.fnamesize (take (p.fnamesize - 1) p.curdir) file

abbrev pub name_entry : DosParams → ℕ → ℤ → ℤ → Bytes → LineRead
name_entry p ftype size time [] = refused
name_entry p ftype size time (c ∷ file) =
    entry (record { fname = file_name p (c ∷ file); ftype = ftype; fsize = size; ftime = time })

-- The name, behind spaces.
abbrev pub read_name : DosParams → ℕ → ℤ → ℤ → Bytes → LineRead
read_name p ftype size time s = name_entry p ftype size time (skip_spaces s)

-- The size, by what sscanf makes of its digits.
abbrev pub size_of : DosParams → ℕ → Bytes → ℤ
size_of p ftype digits = if ftype == b'd' then pos 0 else p.scan_lld digits

-- The digits of the size, with the commas in front of digits taken out, up to another character, which
-- is dropped.
unfoldable pub read_size : DosParams → ℕ → ℤ → Bytes → Bytes → LineRead
read_size p ftype time digits [] = refused
read_size p ftype time digits (c ∷ []) = refused
read_size p ftype time digits (c ∷ d ∷ s) =
    let more = read_size p ftype time (digits ++ (c ∷ [])) (d ∷ s) in
    let next = read_size p ftype time (digits ++ (d ∷ [])) s in
    let size = size_of p ftype digits in
    if c == b','
    then (if is_digit d then next else read_name p ftype size time s)
    else if is_digit c
    then more
    else read_name p ftype size time (d ∷ s)

abbrev pub skip_type : DosParams → ℕ → ℤ → Bytes → LineRead
skip_type p n time s = if ltb (length s) n then overrun else read_size p b'd' time [] (drop n s)

-- `<DIR>`, `<JUNCTION>` or a size.
unfoldable pub find_size : DosParams → ℤ → Bytes → LineRead
find_size p time [] = refused
find_size p time (c ∷ s) =
    let more = find_size p time s in
    if c == b'<' && get_or s 0 0 == b'D'
    then skip_type p 5 time (c ∷ s)
    else if c == b'<' && get_or s 0 0 == b'J'
    then skip_type p 10 time (c ∷ s)
    else if is_digit c
    then read_size p b'-' time [] (c ∷ s)
    else more

abbrev pub made_time : Option (ℤ × Tm) → ℤ
made_time none = negsuc 0
made_time (some (t, tm)) = t

abbrev pub dos_time : DosParams → ℕ → ℕ → ℕ → Bytes → ℤ
dos_time p mon mday year s = made_time (
    p.clock.mktime (record {
      year = pos year;
      mon = pos (mon - 1);
      mday = pos mday;
      hour = pos (hour_of (get_or s 5 0) (digits_value 0 (take 2 s)));
      minute = scan_int (take 2 (drop 3 s));
      second = pos 0;
    }))

-- The time of day starts at the first digit and has six characters.
unfoldable pub find_time : DosParams → ℕ → ℕ → ℕ → Bytes → LineRead
find_time p mon mday year [] = refused
find_time p mon mday year (c ∷ s) =
    let more = find_time p mon mday year s in
    let here = find_size p (dos_time p mon mday year (c ∷ s)) (drop 6 (c ∷ s)) in
    if is_digit c then (if ltb (length (c ∷ s)) 6 then overrun else here) else more

abbrev pub after_year : DosParams → ℕ → ℕ → Bytes → LineRead
after_year p n year line =
    if ltb (length line) n
    then overrun
    else find_time p (number_at line 0 2) (number_at line 3 2) year (drop n line)

-- UnDosLine, with a type that is not -1 to begin with: the test behind mktime is of that.
unfoldable pub un_dos_line : DosParams → Bytes → LineRead
un_dos_line p line =
    if not (starts_dated line)
    then refused
    else if digit_at line 8 && digit_at line 9
    then after_year p 11 (year_4 (number_at line 6 4)) line
    else after_year p 9 (year_2 (number_at line 6 2)) line
