-- ===== src/Ls/UnixRead.antt =====
-- UnLslRLine of a whole line, with a month, a day and a time of day.
use ncftp.Base.{ℕ, suc, ◌≡◌, false, [], ◌∷◌, ◌++◌}
use ncftp.Base.Bytes.{Bytes, codes, strn_eq}
use ncftp.Base.Int.{ℤ, pos, negsuc, ◌+ℤ◌}
use ncftp.Base.Formats
use ncftp.Ls.Sizes.{spaces}
use ncftp.Ls.Unix.{LsParams, guessed}
use ncftp.Ls.Dates.{Month, from_january, Day, day_value}

-- The types that are listed.
pub data Kind : Type 0 where
  plain directory link : Kind

abbrev pub kind_letter : Kind → ℕ
kind_letter plain = b'-'
kind_letter directory = b'd'
kind_letter link = b'l'

-- Nowhere a space, an arrow and a space.
abbrev pub HasNoArrow : Bytes → Type 0
HasNoArrow [] = Unit
HasNoArrow (c ∷ s) = (strn_eq 4 (c ∷ s) (codes " -> ") ≡ false) × HasNoArrow s

-- The time that is meant, of this year or of the last one.
abbrev pub meant : LsParams → Month → Day → ℕ → ℕ → ℤ
meant p m day hour minute = guessed p (
    p.clock.mktime (record {
      year = p.thisyear +ℤ negsuc 1899;
      mon = pos (from_january m);
      mday = pos (day_value day);
      hour = pos hour;
      minute = pos minute;
      second = pos 0;
    }))

-- A line: the letter of its type, what stands up to the last byte in front of the spaces, and that byte,
-- spaces, the digits of the size, the date and the name.
abbrev pub ls_line : Kind → Bytes → ℕ → ℕ → Bytes → ℕ → Bytes → Bytes
ls_line k front x n ds d rest =
    ((kind_letter k ∷ front) ++ (x ∷ [])) ++ (spaces (suc n) ++ (ds ++ (d ∷ rest)))
