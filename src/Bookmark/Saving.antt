-- ===== src/Bookmark/Saving.antt =====
-- PutBookmark of ncftp/bookmark.c.
use ncftp.Base.{
  ◌+◌, Bool, false, ◌||◌, Option, none, some, List, [], ◌∷◌, ◌++◌, if◌then◌else◌, length,
}
use ncftp.Base.Bytes.{Bytes, codes, strn_eq}
use ncftp.Bookmark.{Bookmark, write_bm_line}
use ncftp.Bookmark.File.{file_lines, open_bookmark_file}

-- A line as it is written.
abbrev pub ended : Bytes → Bytes
ended line = line ++ (10 ∷ [])

abbrev pub all_ended : List Bytes → Bytes
all_ended [] = []
all_ended (line ∷ lines) = ended line ++ all_ended lines

-- Whether PutBookmark replaces a line.
abbrev pub is_entry : Bookmark → Bytes → Bool
is_entry b line = strn_eq (length b.bookmark_name + 1) line (b.bookmark_name ++ (b',' ∷ []))

abbrev pub put_line : Bool → Bookmark → Bytes → Bytes
put_line save b line = if is_entry b line then write_bm_line save b else line

abbrev pub replaced : Bookmark → List Bytes → Bool
replaced b [] = false
replaced b (line ∷ lines) = is_entry b line || replaced b lines

abbrev pub put_lines : Bool → Bookmark → List Bytes → List Bytes
put_lines save b [] = []
put_lines save b (line ∷ lines) = put_line save b line ∷ put_lines save b lines

abbrev pub file_header : Bytes
file_header = codes "NcFTP bookmark-file version: 8\nNumber of bookmarks: ??\n"

abbrev pub lines_of : Option Bytes → List Bytes
lines_of none = []
lines_of (some rest) = file_lines 256 rest

abbrev pub put_all : Bool → Bookmark → List Bytes → List Bytes
put_all save b lines =
    put_lines save b lines ++ (if replaced b lines then [] else write_bm_line save b ∷ [])

-- PutBookmark, when every write goes well: the new bookmark file.
unfoldable pub put_bookmark : Bool → Bookmark → Option Bytes → Bytes
put_bookmark save b file =
    file_header ++ all_ended (put_all save b (lines_of (open_bookmark_file file)))
