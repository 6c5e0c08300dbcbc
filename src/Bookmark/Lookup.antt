-- ===== src/Bookmark/Lookup.antt =====
-- GetBookmark of ncftp/bookmark.c.
use ncftp.Base.{
  ℕ, Bool, true, false, not, ◌||◌, Option, none, some, List, [], ◌∷◌, ◌==◌, if◌then◌else◌, length,
  take, drop,
}
use ncftp.Base.Bytes.{Bytes, codes}
use ncftp.Base.Letters.{istreq, istrneq, strchr}
use ncftp.Base.Int.{ℤ, pos, negsuc}
use ncftp.Bookmark.{Bookmark, set_bookmark_defaults, parse_host_line}
use ncftp.Bookmark.File.{file_lines, open_bookmark_file}

-- How a bookmark matches an abbreviation.
pub data Match : Type 0 where
  by_bm_name by_bm_abbr by_host_name by_host_abbr no_match : Match

abbrev pub match_host : Bytes → Bookmark → Option Bytes → Match
match_host abbr bm none = no_match
match_host abbr bm (some dot) =
    let host =
      if istrneq 3 bm.name (codes "ftp") || istrneq 3 bm.name (codes "www")
      then drop 1 dot
      else bm.name in
    if istrneq (length abbr) host abbr then by_host_abbr else no_match

abbrev pub match_bookmark : Bytes → Bookmark → Match
match_bookmark abbr bm =
    if istreq bm.bookmark_name (take 15 abbr)
    then by_bm_name
    else if istrneq (length abbr) bm.bookmark_name abbr
    then by_bm_abbr
    else if istreq bm.name abbr
    then by_host_name
    else match_host abbr bm (strchr b'.' bm.name)

-- GetBookmark's variables. A flag is the length of the abbreviation once it is set.
pub record Search : Type 0 where
  pub exact_match : Bool
  pub bm : Bookmark
  pub bm_name_flag : ℕ
  pub bm_abbr : Bookmark
  pub bm_abbr_flag : ℕ
  pub host_name : Bookmark
  pub host_name_flag : ℕ
  pub host_abbr : Bookmark
  pub host_abbr_flag : ℕ

-- A bookmark of zeros.
abbrev pub zeros : Bookmark
zeros = record set_bookmark_defaults {
  xfer_type = 0;
  has_size = pos 0;
  has_mdtm = pos 0;
  has_pasv = pos 0;
  is_unix = pos 0;
  xfer_mode = 0;
  has_utime = pos 0;
}

-- `bm` is what the caller's bookmark holds.
abbrev pub search_start : Bookmark → Search
search_start b = record {
  exact_match = false;
  bm = b;
  bm_name_flag = 0;
  bm_abbr = zeros;
  bm_abbr_flag = 0;
  host_name = zeros;
  host_name_flag = 0;
  host_abbr = zeros;
  host_abbr_flag = 0;
}

abbrev pub is_negative : ℤ → Bool
is_negative (pos n) = false
is_negative (negsuc n) = true

-- What GetBookmark does on a match; the loop ends with `by_bm_name`.
abbrev pub note_match : Bytes → Bookmark → Search → Match → Search
note_match abbr b st by_bm_name = record st {
  bm = b;
  bm_name_flag = length abbr;
  exact_match = true;
}
note_match abbr b st by_bm_abbr = record st { bm = b; bm_abbr = b; bm_abbr_flag = length abbr }
note_match abbr b st by_host_name = record st {
  bm = b;
  host_name = b;
  host_name_flag = length abbr;
}
note_match abbr b st by_host_abbr = record st {
  bm = b;
  host_abbr = b;
  host_abbr_flag = length abbr;
}
note_match abbr b st no_match = record st { bm = b }

abbrev pub ends_search : Match → Bool
ends_search by_bm_name = true
ends_search by_bm_abbr = false
ends_search by_host_name = false
ends_search by_host_abbr = false
ends_search no_match = false

-- GetBookmark's loop.
unfoldable pub search : ℤ → Bytes → List Bytes → Search → Search
search junk abbr [] st = st
search junk abbr (line ∷ lines) st =
    let (result, b) = parse_host_line junk line in
    let m = match_bookmark abbr b in
    let st' = note_match abbr b st m in
    let skipped = search junk abbr lines (record st { bm = b }) in
    let next = search junk abbr lines st' in
    if is_negative result then skipped else if ends_search m then st' else next

-- The best match, if any; `mode` is gBookmarkMatchMode.
abbrev pub search_result : ℕ → Search → Option Bookmark
search_result mode st =
    if mode == 0
    then (if st.exact_match then some st.bm else none)
    else if not (st.bm_name_flag == 0)
    then some st.bm
    else if not (st.bm_abbr_flag == 0)
    then some st.bm_abbr
    else if not (st.host_name_flag == 0)
    then some st.host_name
    else if not (st.host_abbr_flag == 0)
    then some st.host_abbr
    else none

abbrev pub get_from : ℤ → ℕ → Bytes → Bookmark → Option Bytes → Option Bookmark
get_from junk mode abbr old none = none
get_from junk mode abbr old (some rest) =
    search_result mode (search junk abbr (file_lines 512 rest) (search_start old))

-- GetBookmark: `none` is -1; `old` is what the caller's bookmark holds before.
unfoldable pub get_bookmark : ℤ → ℕ → Option Bytes → Bytes → Bookmark → Option Bookmark
get_bookmark junk mode file abbr old = get_from junk mode abbr old (open_bookmark_file file)
