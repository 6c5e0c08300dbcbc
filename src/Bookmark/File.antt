-- ===== src/Bookmark/File.antt =====
-- The bookmark file of ncftp/bookmark.c as the bytes that it holds, and FGets of libncftp/u_slash.c.
use ncftp.Base.{
  ℕ, zero, suc, ◌-◌, Bool, false, Option, none, some, List, [], ◌∷◌, leb, ◌==◌, if◌then◌else◌,
  length,
}
use ncftp.Base.Bytes.{Bytes, c_str, is_space, is_digit, digits_value}
use ncftp.Base.Int.{ℤ, pos, negsuc}
use ncftp.Base.Formats.{skip_spaces, sign, negated}

-- The characters up to a newline, which is one of them, but not more than `n`.
unfoldable pub split_line : ℕ → Bytes → Bytes × Bytes
split_line zero s = ([], s)
split_line (suc n) [] = ([], [])
split_line (suc n) (c ∷ s) =
    let (line, rest) = split_line n s in if c == 10 then (c ∷ [], s) else (c ∷ line, rest)

-- Without `c` at the end.
abbrev pub without_last : ℕ → Bytes → Bytes
without_last c [] = []
without_last c (d ∷ []) = if d == c then [] else d ∷ []
without_last c (d ∷ e ∷ s) = d ∷ without_last c (e ∷ s)

-- FGets with a buffer of `size` bytes: the line, and what is left of the file. The byte in front of the
-- buffer, which an empty line has it look at, is no carriage return.
abbrev pub f_gets : ℕ → Bytes → Option (Bytes × Bytes)
f_gets size [] = none
f_gets size (c ∷ s) =
    let (line, rest) = split_line (size - 2) (c ∷ s) in
    some (without_last 13 (without_last 10 (c_str line)), rest)

-- `while (FGets(line, size, fp) != NULL)`: all the lines, with a round for each byte.
unfoldable pub lines_from : ℕ → ℕ → Bytes → List Bytes
lines_from zero size s = []
lines_from (suc k) size [] = []
lines_from (suc k) size (c ∷ s) =
    let (line, rest) = split_line (size - 2) (c ∷ s) in
    without_last 13 (without_last 10 (c_str line)) ∷ lines_from k size rest

abbrev pub file_lines : ℕ → Bytes → List Bytes
file_lines size s = lines_from (length s) size s

-- `%*s`: `none` if there is no word.
abbrev pub drop_word : Bytes → Bytes
drop_word [] = []
drop_word (c ∷ s) = let rest = drop_word s in if is_space c then c ∷ s else rest

abbrev pub skip_words : ℕ → Bytes → Bytes
skip_words zero s = s
skip_words (suc n) s = skip_words n (drop_word (skip_spaces s))

abbrev pub starts_digit : Bytes → Bool
starts_digit [] = false
starts_digit (c ∷ s) = is_digit c

-- `sscanf(line, "%*s %*s %*s %d", &version)`, with -1 if that finds no number.
abbrev pub file_version : Bytes → ℤ
file_version line =
    let (minus, digits) = sign (skip_spaces (skip_words 3 line)) in
    if starts_digit digits
    then (if minus then negated (digits_value 0 digits) else pos (digits_value 0 digits))
    else negsuc 0

-- At least kBookmarkMinVersion.
abbrev pub is_readable : ℤ → Bool
is_readable (pos n) = leb 3 n
is_readable (negsuc n) = false

abbrev pub behind_version : Option (Bytes × Bytes) → Option Bytes
behind_version none = none
behind_version (some (line, rest)) = some rest

-- OpenBookmarkFile of a file that is there: what stands behind its two lines of header, or NULL.
abbrev pub behind_header : Option (Bytes × Bytes) → Option Bytes
behind_header none = none
behind_header (some (line, rest)) =
    if is_readable (file_version line) then behind_version (f_gets 256 rest) else none

abbrev pub open_bookmark_file : Option Bytes → Option Bytes
open_bookmark_file none = none
open_bookmark_file (some file) = behind_header (f_gets 256 file)
