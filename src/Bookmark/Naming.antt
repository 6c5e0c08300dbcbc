-- ===== src/Bookmark/Naming.antt =====
-- DefaultBookmarkName of ncftp/bookmark.c.
use ncftp.Base.{
  ℕ, Bool, true, ◌&&◌, ◌||◌, Option, none, some, [], ◌∷◌, ◌-◌, ◌==◌, if◌then◌else◌, take,
}
use ncftp.Base.Bytes.{Bytes, codes, is_digit}
use ncftp.Base.Letters.{istrneq}

abbrev pub drop_dots : Bytes → Bytes
drop_dots [] = []
drop_dots (c ∷ s) = let rest = drop_dots s in if c == b'.' then rest else c ∷ s

-- The characters in front of a dot, and what stands behind it.
abbrev pub split_dot : Bytes → Bytes × Bytes
split_dot [] = ([], [])
split_dot (c ∷ s) =
    let (word, rest) = split_dot s in if c == b'.' then ([], s) else (c ∷ word, rest)

-- `strtok(s, ".")`: the next word and what is left for another call.
abbrev pub next_word : Bytes → Option (Bytes × Bytes)
next_word s = elim (drop_dots s) [ [] ↦ none | c ∷ t ↦ some (split_dot (c ∷ t)) ]

abbrev pub word_or_nothing : Option (Bytes × Bytes) → Bytes
word_or_nothing none = []
word_or_nothing (some (word, rest)) = word

abbrev pub significant : Bytes → Option (Bytes × Bytes) → Bytes
significant str none = str
significant str (some (word, rest)) =
    if istrneq 3 word (codes "ftp") || istrneq 3 word (codes "www")
    then word_or_nothing (next_word rest)
    else word

abbrev pub are_digits : Bytes → Bool
are_digits [] = true
are_digits (c ∷ s) = is_digit c && are_digits s

-- DefaultBookmarkName, to a buffer of `siz` bytes; a word of digits is part of an address.
unfoldable pub default_bookmark_name : ℕ → Bytes → Bytes
default_bookmark_name siz src =
    let token = significant (take 127 src) (next_word (take 127 src)) in
    take (siz - 1) (if are_digits token then [] else token)
