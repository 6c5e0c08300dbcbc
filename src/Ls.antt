-- ===== src/Ls.antt =====
-- Lines of a directory listing, libncftp/unls.c: LsMonthNameToNum; the children are about UnDosLine and UnLslRLine.
pub mod Dos
pub mod Unix
pub mod UnixLines
pub mod Dates
pub mod UnixRead
pub mod Sizes
pub mod Times
pub mod DosLines
mod Tests
use ncftp.Base.{
  ℕ, ◌<◌, ◌^◌, ◌≡◌, length, suc, ◌+◌, Bool, true, false, List, [], ◌∷◌, ◌==◌, if◌then◌else◌, get_or,
}
use ncftp.Base.Bytes.{Bytes, digits_value}
use ncftp.Base.Formats.{AreDigits}
use ncftp.Base.Int.{ℤ, pos}

-- What a line says of a file: its name, its type, its size and its time.
pub record Entry : Type 0 where
  pub fname : Bytes
  pub ftype : ℕ
  pub fsize : ℤ
  pub ftime : ℤ

-- What comes of a line: -1, an access behind its NUL, or 0 with an entry.
pub data LineRead : Type 0 where
  refused overrun : LineRead
  entry : Entry → LineRead

-- sscanf with `%lld` reads digits whose number fits a `long long`. It is the C library's, and a
-- parameter, as a function of the digits.
abbrev pub ReadsNumbers : (Bytes → ℤ) → Type 0
ReadsNumbers scan_lld =
    (digits : Bytes)
    → AreDigits digits
    → (length digits == 0) ≡ false
    → digits_value 0 digits < 2 ^ 63
    → scan_lld digits ≡ pos (digits_value 0 digits)

-- LsMonthNameToNum of the first three bytes of a name, with a NUL in place of those that are not there.
unfoldable pub month_number : Bytes → ℕ
month_number s =
    let c = get_or s 0 0 in
    let second = get_or s 1 0 in
    let third = get_or s 2 0 in
    if c == b'A'
    then (if second == b'u' then 7 else 3)
    else if c == b'D'
    then 11
    else if c == b'F'
    then 1
    else if c == b'M'
    then (if third == b'r' then 2 else 4)
    else if c == b'N'
    then 10
    else if c == b'O'
    then 9
    else if c == b'S'
    then 8
    else if second == b'u'
    then (if third == b'l' then 6 else 5)
    else 0
