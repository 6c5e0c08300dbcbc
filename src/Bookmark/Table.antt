-- ===== src/Bookmark/Table.antt =====
-- The table of bookmarks in memory: LoadBookmarkTable, with GetNextBookmark and OpenBookmarkFile's
-- count, and SaveBookmarkTable of ncftp/bookmark.c.
use ncftp.Base.{
  ℕ, zero, suc, ◌+◌, Bool, true, false, Option, none, some, List, [], ◌∷◌, ◌++◌, ltb, ◌==◌,
  if◌then◌else◌, length,
}
use ncftp.Base.Bytes.{Bytes, codes}
use ncftp.Base.Formats.{print_nat}
use ncftp.Base.Letters.{istrcmp}
use ncftp.Base.Int.{ℤ, pos, negsuc}
use ncftp.Bookmark.{Bookmark, parse_host_line, write_bm_line}
use ncftp.Bookmark.File.{file_lines, open_bookmark_file}
use ncftp.Bookmark.Lookup.{is_negative}
use ncftp.Bookmark.Saving.{all_ended}

-- GetNextBookmark: the next bookmark of the lines that are left, and what is left then; `none` is -1.
unfoldable pub get_next_bookmark : ℤ → List Bytes → Option (Bookmark × List Bytes)
get_next_bookmark junk [] = none
get_next_bookmark junk (line ∷ lines) =
    let (result, b) = parse_host_line junk line in
    let next = get_next_bookmark junk lines in if is_negative result then next else some (b, lines)

-- OpenBookmarkFile's count, with a round for each line and one for the end.
unfoldable pub count_bookmarks : ℕ → ℤ → List Bytes → ℕ
count_bookmarks zero junk lines = 0
count_bookmarks (suc k) junk lines = elim (get_next_bookmark junk lines) [
  | none ↦ 0
  | some (b, rest) ↦ suc (count_bookmarks k junk rest)
]

-- LoadBookmarkTable's loop over `nb` places.
unfoldable pub fill_table : ℕ → ℤ → List Bytes → List Bookmark
fill_table zero junk lines = []
fill_table (suc nb) junk lines = elim (get_next_bookmark junk lines) [
  | none ↦ []
  | some (b, rest) ↦ b ∷ fill_table nb junk rest
]

-- BookmarkSortProc.
abbrev pub bookmark_sort_proc : Bookmark → Bookmark → ℤ
bookmark_sort_proc a b = istrcmp a.bookmark_name b.bookmark_name

-- qsort is the C library's, and a parameter: it sorts by a comparison.
abbrev pub Qsort : Type 0
Qsort = (Bookmark → Bookmark → ℤ) → List Bookmark → List Bookmark

-- SortBookmarks, which leaves a table of one alone.
abbrev pub sort_bookmarks : Qsort → List Bookmark → List Bookmark
sort_bookmarks qsort bms = if ltb (length bms) 2 then bms else qsort bookmark_sort_proc bms

abbrev pub counted_lines : Option Bytes → List Bytes
counted_lines none = []
counted_lines (some rest) = file_lines 512 rest

-- LoadBookmarkTable: `room` says whether there is memory for the table; `none` is -1.
unfoldable pub load_bookmark_table : Qsort → ℤ → Bool → Option Bytes → Option (List Bookmark)
load_bookmark_table qsort junk room file =
    let lines = counted_lines (open_bookmark_file file) in
    if room
    then some (
        sort_bookmarks qsort
          (fill_table (count_bookmarks (length lines + 1) junk lines) junk lines))
    else none

abbrev pub is_live : Bookmark → Bool
is_live b = elim b.deleted [ pos n ↦ n == 0 | negsuc n ↦ false ]

abbrev pub live : List Bookmark → List Bookmark
live [] = []
live (b ∷ bms) = let rest = live bms in if is_live b then b ∷ rest else rest

-- The header that OpenTmpBookmarkFile writes for `nb` bookmarks.
abbrev pub counted_header : ℕ → Bytes
counted_header nb =
    codes "NcFTP bookmark-file version: 8\n"
    ++ (codes "Number of bookmarks: "
        ++ ((if nb == 0 then codes "??" else print_nat nb) ++ (10 ∷ [])))

abbrev pub written_lines : List Bookmark → List Bytes
written_lines [] = []
written_lines (b ∷ bms) = write_bm_line true b ∷ written_lines bms

-- SaveBookmarkTable, when every write goes well: the new file, from the old one.
unfoldable pub save_bookmark_table : List Bookmark → Option Bytes → Option Bytes
save_bookmark_table [] file = file
save_bookmark_table (b ∷ bms) file =
    let bms' = live (b ∷ bms) in
    some (counted_header (length bms') ++ all_ended (written_lines bms'))
