-- ===== src/Bookmark/Searching.antt =====
-- GetBookmark's loop, by the kinds of match that it tells apart.
use ncftp.Base.{
  ℕ, ◌≡◌, refl, ap, ◌∙◌, inl, inr, Bool, true, false, not, ◌||◌, Option, none, some, List, [], ◌∷◌,
  arith, ◌==◌, if◌then◌else◌, Bool-cases, length,
}
use ncftp.Base.Bytes.{Bytes}
use ncftp.Base.Int.{ℤ}
use ncftp.Bookmark.{Bookmark, parse_host_line}
use ncftp.Bookmark.File.{file_lines, open_bookmark_file}
use ncftp.Bookmark.Lookup.{
  Match, by_bm_name, by_bm_abbr, by_host_name, by_host_abbr, no_match, match_bookmark, Search,
  search_start, is_negative, note_match, ends_search, search, search_result, get_from, get_bookmark,
}

-- The bookmarks of a file's lines; a line of fewer than six fields is none.
abbrev pub entry : Bool → Bookmark → List Bookmark → List Bookmark
entry negative b bs = if negative then bs else b ∷ bs

abbrev pub entries : ℤ → List Bytes → List Bookmark
entries junk [] = []
entries junk (line ∷ lines) =
    let (result, b) = parse_host_line junk line in entry (is_negative result) b (entries junk lines)

abbrev pub is_abbr : Match → Bool
is_abbr by_bm_name = false
is_abbr by_bm_abbr = true
is_abbr by_host_name = false
is_abbr by_host_abbr = false
is_abbr no_match = false

abbrev pub is_host : Match → Bool
is_host by_bm_name = false
is_host by_bm_abbr = false
is_host by_host_name = true
is_host by_host_abbr = false
is_host no_match = false

abbrev pub is_host_abbr : Match → Bool
is_host_abbr by_bm_name = false
is_host_abbr by_bm_abbr = false
is_host_abbr by_host_name = false
is_host_abbr by_host_abbr = true
is_host_abbr no_match = false

-- The first bookmark whose name is the abbreviation.
abbrev pub first_exact : Bytes → List Bookmark → Option Bookmark
first_exact abbr [] = none
first_exact abbr (b ∷ bs) =
    let rest = first_exact abbr bs in if ends_search (match_bookmark abbr b) then some b else rest

-- The last bookmark that matches in a way, or what was found before.
abbrev pub last_match : (Match → Bool) → Bytes → Option Bookmark → List Bookmark → Option Bookmark
last_match kind abbr acc [] = acc
last_match kind abbr acc (b ∷ bs) =
    last_match kind abbr (if kind (match_bookmark abbr b) then some b else acc) bs

abbrev pub first_some : Option Bookmark → Option Bookmark → Option Bookmark
first_some none y = y
first_some (some x) y = some x

abbrev pub choose :
    ℕ → Option Bookmark → Option Bookmark → Option Bookmark → Option Bookmark → Option Bookmark
choose mode (some b) x y z = some b
choose mode none x y z = if mode == 0 then none else first_some x (first_some y z)

-- The match that counts, by its kind.
abbrev pub best_matched : ℕ → Bytes → List Bookmark → Option Bookmark
best_matched mode abbr bs =
    choose mode (first_exact abbr bs) (last_match is_abbr abbr none bs)
      (last_match is_host abbr none bs) (last_match is_host_abbr abbr none bs)

pub matched-exact :
    (mode : ℕ) (abbr : Bytes) (bs : List Bookmark) (b : Bookmark)
    → first_exact abbr bs ≡ some b
    → best_matched mode abbr bs ≡ some b
matched-exact mode abbr bs b e = rw e refl

abbrev held : ℕ → Bookmark → Option Bookmark
held flag b = if flag == 0 then none else some b

module _ (junk : ℤ) (mode : ℕ) (abbr : Bytes)
    (wanted : (mode == 0 || not (length abbr == 0)) ≡ true) where
  -- The best of what is to come and of what has been found.
  abbrev best_from : Search → List Bookmark → Option Bookmark
  best_from st bs =
      choose mode (first_exact abbr bs)
        (last_match is_abbr abbr (held st.bm_abbr_flag st.bm_abbr) bs)
        (last_match is_host abbr (held st.host_name_flag st.host_name) bs)
        (last_match is_host_abbr abbr (held st.host_abbr_flag st.host_abbr) bs)

  -- Nothing but abbreviations has been found.
  abbrev IsOpen : Search → Type 0
  IsOpen st = (st.exact_match ≡ false) × (st.bm_name_flag ≡ 0)

  at_end : (st : Search) → IsOpen st → search_result mode st ≡ best_from st []
  at_end st (e, e') = rw (e, e') (ground arith)

  advance : Bool → Match → Bookmark → List Bytes → Search → Search
  advance negative m b lines st =
      if negative
      then search junk abbr lines (record st { bm = b })
      else if ends_search m
      then note_match abbr b st m
      else search junk abbr lines (note_match abbr b st m)

  search-nil : (st : Search) → search junk abbr [] st ≡ st
  unfolding search
  search-nil st = refl

  search-cons :
      (line : Bytes) (lines : List Bytes) (st : Search)
      → search junk abbr (line ∷ lines) st ≡ (
          let (result, b) = parse_host_line junk line in
          advance (is_negative result) (match_bookmark abbr b) b lines st)
  unfolding search advance
  search-cons line lines st = refl

  choose-closed :
      (o x x' y y' z z' : Option Bookmark)
      → (mode == 0) ≡ true
      → choose mode o x y z ≡ choose mode o x' y' z'
  choose-closed none x x' y y' z z' e = rw e refl
  choose-closed (some b) x x' y y' z z' e = refl

  -- A bookmark that was just found counts, unless only the very name does.
  found :
      (k : Option Bookmark → Option Bookmark) (b : Bookmark)
      → ((mode == 0) ≡ true → (x y : Option Bookmark) → k x ≡ k y)
      → k (held (length abbr) b) ≡ k (some b)
  found k b closed = elim (Bool-cases (mode == 0)) [
    | inl e ↦ closed e _ _
    | inr e ↦
        let some_char : (length abbr == 0) ≡ false = ground (arith, e, wanted) in
        ap (λ z. k (if z then none else some b)) some_char
  ]

  -- The best with one more bookmark in front, by how it matches.
  abbrev best_with : Bool → Match → Bookmark → Search → List Bookmark → Option Bookmark
  best_with true m b st bs = best_from st bs
  best_with false m b st bs =
      choose mode (if ends_search m then some b else first_exact abbr bs)
        (last_match is_abbr abbr (if is_abbr m then some b else held st.bm_abbr_flag st.bm_abbr) bs)
        (last_match is_host abbr (if is_host m then some b else held st.host_name_flag st.host_name)
          bs)
        (last_match is_host_abbr abbr
          (if is_host_abbr m then some b else held st.host_abbr_flag st.host_abbr) bs)

  best_with-entry :
      (negative : Bool) (b : Bookmark) (st : Search) (bs : List Bookmark)
      → best_with negative (match_bookmark abbr b) b st bs ≡ best_from st (entry negative b bs)
  best_with-entry true b st bs = refl
  best_with-entry false b st bs = refl

  exact_result :
      (b : Bookmark) (st : Search) → search_result mode (note_match abbr b st by_bm_name) ≡ some b
  exact_result b st = ground (arith, wanted)

  module _ (b : Bookmark) (lines : List Bytes) (bs : List Bookmark) where
    advance-best :
        (negative : Bool) (m : Match) (st : Search)
        → ((st' : Search)
            → IsOpen st'
            → search_result mode (search junk abbr lines st') ≡ best_from st' bs)
        → IsOpen st
        → search_result mode (advance negative m b lines st) ≡ best_with negative m b st bs
    unfolding advance
    advance-best true m st more fresh = more (record st { bm = b }) fresh
    advance-best false by_bm_name st more fresh = exact_result b st
    advance-best false by_bm_abbr st more fresh =
        more (note_match abbr b st by_bm_abbr) fresh
        ∙ found
            (λ h.
              choose mode (first_exact abbr bs) (last_match is_abbr abbr h bs)
                (last_match is_host abbr (held st.host_name_flag st.host_name) bs)
                (last_match is_host_abbr abbr (held st.host_abbr_flag st.host_abbr) bs))
            b (λ e x y. choose-closed (first_exact abbr bs) _ _ _ _ _ _ e)
    advance-best false by_host_name st more fresh =
        more (note_match abbr b st by_host_name) fresh
        ∙ found
            (λ h.
              choose mode (first_exact abbr bs)
                (last_match is_abbr abbr (held st.bm_abbr_flag st.bm_abbr) bs)
                (last_match is_host abbr h bs)
                (last_match is_host_abbr abbr (held st.host_abbr_flag st.host_abbr) bs))
            b (λ e x y. choose-closed (first_exact abbr bs) _ _ _ _ _ _ e)
    advance-best false by_host_abbr st more fresh =
        more (note_match abbr b st by_host_abbr) fresh
        ∙ found
            (λ h.
              choose mode (first_exact abbr bs)
                (last_match is_abbr abbr (held st.bm_abbr_flag st.bm_abbr) bs)
                (last_match is_host abbr (held st.host_name_flag st.host_name) bs)
                (last_match is_host_abbr abbr h bs))
            b (λ e x y. choose-closed (first_exact abbr bs) _ _ _ _ _ _ e)
    advance-best false no_match st more fresh = more (record st { bm = b }) fresh

  search-best :
      (lines : List Bytes) (st : Search)
      → IsOpen st
      → search_result mode (search junk abbr lines st) ≡ best_from st (entries junk lines)
  search-best [] st fresh = ap (search_result mode) (search-nil st) ∙ at_end st fresh
  search-best (line ∷ lines) st fresh =
      let (result, b) = parse_host_line junk line in
      ap (search_result mode) (search-cons line lines st)
      ∙ advance-best b lines (entries junk lines) (is_negative result) (match_bookmark abbr b) st
          (search-best lines) fresh
      ∙ best_with-entry (is_negative result) b st (entries junk lines)

-- The bookmarks of a file behind its header; a file without one has none.
abbrev pub file_entries : ℤ → Option Bytes → List Bookmark
file_entries junk none = []
file_entries junk (some rest) = entries junk (file_lines 512 rest)

nothing_best : (mode : ℕ) (abbr : Bytes) → none ≡ best_matched mode abbr []
nothing_best mode abbr = ground arith

get-best :
    (junk : ℤ) (mode : ℕ) (abbr : Bytes) (old : Bookmark)
    → (mode == 0 || not (length abbr == 0)) ≡ true
    → (rest : Option Bytes)
    → get_from junk mode abbr old rest ≡ best_matched mode abbr (file_entries junk rest)
get-best junk mode abbr old wanted none = nothing_best mode abbr
get-best junk mode abbr old wanted (some rest) =
    search-best junk mode abbr wanted (file_lines 512 rest) (search_start old) (refl, refl)

pub get_bookmark-matched :
    (junk : ℤ) (mode : ℕ) (file : Option Bytes) (abbr : Bytes) (old : Bookmark)
    → (mode == 0 || not (length abbr == 0)) ≡ true
    → get_bookmark junk mode file abbr old
      ≡ best_matched mode abbr (file_entries junk (open_bookmark_file file))
unfolding get_bookmark
get_bookmark-matched junk mode file abbr old wanted =
    get-best junk mode abbr old wanted (open_bookmark_file file)
