-- ===== src/Bookmark/Best.antt =====
-- GetBookmark finds the best match, where what matches is told without the program's own test.
use ncftp.Base.{
  ℕ, ◌≡◌, refl, sym, ap, ◌∙◌, inl, inr, Bool, true, false, not, ◌&&◌, ◌||◌, Option, none, some,
  List, [], ◌∷◌, ◌==◌, if◌then◌else◌, Bool-cases, length, take, drop,
}
use ncftp.Base.Bytes.{Bytes, codes}
use ncftp.Base.Int.{ℤ}
use ncftp.Base.Letters.{to_lower, istreq, istrneq, strchr}
use ncftp.Bookmark.{Bookmark}
use ncftp.Bookmark.File.{open_bookmark_file}
use ncftp.Bookmark.Lookup.{
  Match, by_bm_name, by_bm_abbr, by_host_name, by_host_abbr, no_match, match_host, match_bookmark,
  ends_search, get_bookmark,
}
use ncftp.Bookmark.Searching.{
  is_abbr, is_host, is_host_abbr, first_exact, last_match, choose, best_matched, file_entries,
  get_bookmark-matched,
}

-- A text starts with another one, but for the case of letters.
abbrev pub starts : Bytes → Bytes → Bool
starts [] s = true
starts (c ∷ start) [] = false
starts (c ∷ start) (d ∷ s) = to_lower d == to_lower c && starts start s

-- What stands behind the first dot.
abbrev pub domain : Bytes → Option Bytes
domain [] = none
domain (c ∷ s) = let later = domain s in if c == b'.' then some s else later

-- What an abbreviation of a host abbreviates: its name, but its domain if it is called ftp or www.
abbrev pub host_text : Bytes → Bytes → Bytes
host_text host behind =
    if starts (codes "ftp") host || starts (codes "www") host then behind else host

-- The four ways in which a bookmark may match, whatever else it does: its name is the abbreviation, as
-- far as 15 characters go; its name starts with it; its host's name is it; its host's name has a dot
-- and starts with it, or its domain does.
abbrev pub has_name : Bytes → Bookmark → Bool
has_name abbr b = istreq b.bookmark_name (take 15 abbr)

abbrev pub has_start : Bytes → Bookmark → Bool
has_start abbr b = starts abbr b.bookmark_name

abbrev pub has_host : Bytes → Bookmark → Bool
has_host abbr b = istreq b.name abbr

abbrev pub host_starts : Bytes → Bytes → Option Bytes → Bool
host_starts abbr host none = false
host_starts abbr host (some behind) = starts abbr (host_text host behind)

abbrev pub has_host_start : Bytes → Bookmark → Bool
has_host_start abbr b = host_starts abbr b.name (domain b.name)

-- The last bookmark that passes a test.
abbrev pub last_with : (Bookmark → Bool) → Option Bookmark → List Bookmark → Option Bookmark
last_with test acc [] = acc
last_with test acc (b ∷ bs) = last_with test (if test b then some b else acc) bs

abbrev pub first_with : (Bookmark → Bool) → List Bookmark → Option Bookmark
first_with test [] = none
first_with test (b ∷ bs) = let rest = first_with test bs in if test b then some b else rest

-- The best match: the first of the very name; and, unless only that is wanted, the last whose name
-- starts with the abbreviation, the last of the others with that host's name, and the last of the
-- others with an abbreviation of it.
abbrev pub best : ℕ → Bytes → List Bookmark → Option Bookmark
best mode abbr bs =
    choose mode (first_with (has_name abbr) bs)
      (last_with (λ b. not (has_name abbr b) && has_start abbr b) none bs)
      (last_with (λ b. not (has_name abbr b || has_start abbr b) && has_host abbr b) none bs)
      (last_with
        (λ b. not (has_name abbr b || has_start abbr b || has_host abbr b) && has_host_start abbr b)
        none bs)

istrneq-starts : (start s : Bytes) → istrneq (length start) s start ≡ starts start s
istrneq-starts [] [] = refl
istrneq-starts [] (d ∷ s) = refl
istrneq-starts (c ∷ start) [] = refl
istrneq-starts (c ∷ start) (d ∷ s) =
    ap (λ b. to_lower d == to_lower c && b) (istrneq-starts start s)

abbrev behind_first : Option Bytes → Option Bytes
behind_first none = none
behind_first (some dot) = some (drop 1 dot)

domain-strchr : (s : Bytes) → domain s ≡ behind_first (strchr b'.' s)
domain-strchr [] = refl
domain-strchr (c ∷ s) = elim (Bool-cases (c == b'.')) [
  | inl e ↦ rw e refl
  | inr e ↦ rw e (domain-strchr s)
]

-- The test of a host by its first dot.
abbrev host_match : Bool → Match
host_match b = if b then by_host_abbr else no_match

match_host-starts :
    (abbr : Bytes) (b : Bookmark) (dot : Option Bytes)
    → match_host abbr b dot ≡ host_match (host_starts abbr b.name (behind_first dot))
match_host-starts abbr b none = refl
match_host-starts abbr b (some dot) =
    ap
      (λ f. host_match (
        istrneq (length abbr) (if f || istrneq 3 b.name (codes "www") then drop 1 dot else b.name)
          abbr))
      (istrneq-starts (codes "ftp") b.name)
    ∙ ap
        (λ w. host_match (
          istrneq (length abbr) (if starts (codes "ftp") b.name || w then drop 1 dot else b.name)
            abbr))
        (istrneq-starts (codes "www") b.name)
    ∙ ap host_match (istrneq-starts abbr (host_text b.name (drop 1 dot)))

-- The kinds of match, by the four tests.
abbrev by_tests : Bool → Bool → Bool → Match → Match
by_tests name start host rest =
    if name then by_bm_name else if start then by_bm_abbr else if host then by_host_name else rest

match_bookmark-tests :
    (abbr : Bytes) (b : Bookmark)
    → match_bookmark abbr b
      ≡ by_tests
          (has_name abbr b)
          (has_start abbr b)
          (has_host abbr b)
          (host_match (has_host_start abbr b))
match_bookmark-tests abbr b =
    ap
      (λ s. by_tests (has_name abbr b) s (has_host abbr b) (match_host abbr b (strchr b'.' b.name)))
      (istrneq-starts abbr b.bookmark_name)
    ∙ ap (by_tests (has_name abbr b) (has_start abbr b) (has_host abbr b)) (
        match_host-starts abbr b (strchr b'.' b.name)
        ∙ ap (λ d. host_match (host_starts abbr b.name d)) (sym (domain-strchr b.name)))

-- The tests of a kind of match, from the four tests.
kinds :
    (n s h d : Bool)
    → (ends_search (by_tests n s h (host_match d)) ≡ n)
      × (is_abbr (by_tests n s h (host_match d)) ≡ (not n && s))
      × (is_host (by_tests n s h (host_match d)) ≡ (not (n || s) && h))
      × (is_host_abbr (by_tests n s h (host_match d)) ≡ (not (n || s || h) && d))
kinds true s h d = (refl, refl, refl, refl)
kinds false true h d = (refl, refl, refl, refl)
kinds false false true d = (refl, refl, refl, refl)
kinds false false false true = (refl, refl, refl, refl)
kinds false false false false = (refl, refl, refl, refl)

first_exact-with :
    (abbr : Bytes) (test : Bookmark → Bool) (bs : List Bookmark)
    → ((b : Bookmark) → ends_search (match_bookmark abbr b) ≡ test b)
    → first_exact abbr bs ≡ first_with test bs
first_exact-with abbr test [] same = refl
first_exact-with abbr test (b ∷ bs) same =
    ap (λ t. if t then some b else first_exact abbr bs) (same b)
    ∙ ap (λ o. if test b then some b else o) (first_exact-with abbr test bs same)

last_match-with :
    (kind : Match → Bool) (abbr : Bytes) (test : Bookmark → Bool) (acc : Option Bookmark)
    (bs : List Bookmark)
    → ((b : Bookmark) → kind (match_bookmark abbr b) ≡ test b)
    → last_match kind abbr acc bs ≡ last_with test acc bs
last_match-with kind abbr test acc [] same = refl
last_match-with kind abbr test acc (b ∷ bs) same =
    ap (λ t. last_match kind abbr (if t then some b else acc) bs) (same b)
    ∙ last_match-with kind abbr test (if test b then some b else acc) bs same

-- The program's test tells the same bookmarks apart.
best_matched-best :
    (mode : ℕ) (abbr : Bytes) (bs : List Bookmark) → best_matched mode abbr bs ≡ best mode abbr bs
best_matched-best mode abbr bs =
    let all = λ (b : Bookmark).
      kinds (has_name abbr b) (has_start abbr b) (has_host abbr b) (has_host_start abbr b) in
    rw
      (
        first_exact-with abbr _ bs (λ b. ap ends_search (match_bookmark-tests abbr b) ∙ (all b).0),
        last_match-with is_abbr abbr _ none bs
            (λ b. ap is_abbr (match_bookmark-tests abbr b) ∙ (all b).1),
        last_match-with is_host abbr _ none bs
            (λ b. ap is_host (match_bookmark-tests abbr b) ∙ (all b).2),
        last_match-with is_host_abbr abbr _ none bs
            (λ b. ap is_host_abbr (match_bookmark-tests abbr b) ∙ (all b).3),
      )
      refl

-- GetBookmark is the best match of the file's bookmarks, unless the abbreviation is empty and more than
-- the very name would do: the first whose name is the abbreviation; and if the mode allows, for want of
-- such a one, the last whose name starts with it, or else the last whose host has that name, or else
-- the last whose host's name has a dot and starts with it, or whose domain does if the host is called
-- ftp or www. The case of letters does not count.
pub get_bookmark-best :
    (junk : ℤ) (mode : ℕ) (file : Option Bytes) (abbr : Bytes) (old : Bookmark)
    → (mode == 0 || not (length abbr == 0)) ≡ true
    → get_bookmark junk mode file abbr old
      ≡ best mode abbr (file_entries junk (open_bookmark_file file))
get_bookmark-best junk mode file abbr old wanted =
    get_bookmark-matched junk mode file abbr old wanted
    ∙ best_matched-best mode abbr (file_entries junk (open_bookmark_file file))
