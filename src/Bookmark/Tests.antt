-- ===== src/Bookmark/Tests.antt =====
-- Bookmarks at concrete fields and files.
use ncftp.Base.{List, ℕ, ◌<◌, ◌≡◌, refl, inr, true, some, [], ◌∷◌, ◌++◌, arith}
use ncftp.Base.Bytes.{Bytes, codes}
use ncftp.Base.Int.{pos}
use ncftp.Base.Formats.{print_digits, scan_hex}
use ncftp.Base64.{to_base64, groups, group}
use ncftp.Bookmark.{
  Bookmark, set_bookmark_defaults, bm_escape_tok, next_token, parse_cases, parse_host_line,
  write_bm_line,
}
use ncftp.Bookmark.Best.{get_bookmark-best, best}
use ncftp.Bookmark.Searching.{file_entries}
use ncftp.Bookmark.File.{open_bookmark_file, split_line, lines_from}
use ncftp.Bookmark.Lines.{are_in_line-AreInLine, IsLine}
use mathlib.Core.List.{Perm}
use ncftp.Bookmark.Insertion.{insertion_sort, insertion_sort-IsQsort}
use ncftp.Bookmark.Sorting.{ByName, Ordered}
use ncftp.Bookmark.Table.{load_bookmark_table, save_bookmark_table}
use ncftp.Bookmark.LoadSave.{load_bookmark_table-save_bookmark_table}
use ncftp.Bookmark.Lookup.{get_bookmark}
use ncftp.Bookmark.Naming.{default_bookmark_name}
use ncftp.Bookmark.PutGet.{get_bookmark-put_bookmark, IsOther}
use ncftp.Bookmark.RoundTrip.{parse_host_line-write_bm_line}
use ncftp.Bookmark.Saving.{put_bookmark, file_header}
use ncftp.Bookmark.Stored.{IsWritable, read_back}
use ncftp.Bookmark.Texts.{IsText}

abbrev saved : Bookmark
saved = record set_bookmark_defaults {
  bookmark_name = codes "nc";
  name = codes "h";
  user = codes "u,";
  pass = codes "pw";
  port = 21;
  last_call = pos 10;
}

-- A comma is escaped, the password is encoded, and the time 10 is read as 16.
line : write_bm_line true saved ≡ codes "nc,h,u\\,,*encoded*cHcA,,,I,21,10,-1,-1,-1,1,,,,,,,S,-1,"
unfolding write_bm_line bm_escape_tok to_base64 groups group print_digits
line = refl

time : scan_hex (codes "10") ≡ some (pos 16)
unfolding scan_hex
time = refl

-- A byte of eight bits is written as 255.
eight_bits : bm_escape_tok 256 (233 ∷ b'a' ∷ []) ≡ codes "$ffa"
unfolding bm_escape_tok
eight_bits = refl

nothing : (size : ℕ) → 0 < size → IsText size []
nothing size h = record {
  ascii = tt;
  no_nul = tt;
  fits_field = h;
  fits_token = omega arith;
  fits_escaped = omega arith;
}

saved-IsWritable : IsWritable saved
saved-IsWritable = record {
  bookmark_name = record {
    plain = (refl, (refl, tt));
    no_nul = (refl, (refl, tt));
    fits_field = omega arith;
    fits_token = omega arith;
  };
  name = record {
    ascii = (omega arith, tt);
    no_nul = (refl, tt);
    fits_field = omega arith;
    fits_token = omega arith;
    fits_escaped = omega arith;
  };
  user = record {
    ascii = (omega arith, (omega arith, tt));
    no_nul = (refl, (refl, tt));
    fits_field = omega arith;
    fits_token = omega arith;
    fits_escaped = omega arith;
  };
  pass = ((omega arith, (omega arith, tt)), (refl, (refl, tt)), omega arith);
  acct = nothing 64 (omega arith);
  dir = nothing 160 (omega arith);
  ldir = nothing 160 (omega arith);
  xfer_type = (refl, refl);
  port = omega arith;
  last_call = omega arith;
  has_size = omega arith;
  has_mdtm = omega arith;
  has_pasv = omega arith;
  is_unix = omega arith;
  last_ip = record { plain = tt; no_nul = tt; fits_field = omega arith; fits_token = omega arith };
  comment = nothing 128 (omega arith);
  xfer_mode = (refl, refl);
  has_utime = omega arith;
}

parse_host_line-write_bm_line_example :
    parse_host_line (pos 0) (write_bm_line true saved) ≡ (pos 7, read_back true (pos 0) saved)
parse_host_line-write_bm_line_example =
    parse_host_line-write_bm_line true (pos 0) saved saved-IsWritable

abbrev other_line : Bytes
other_line = codes "ftpd,ftp.b.org,,,,"

abbrev other_file : Bytes
other_file = file_header ++ (other_line ++ (10 ∷ []))

get_bookmark-best_example :
    get_bookmark (pos 0) 1 (some other_file) (codes "B.o") set_bookmark_defaults
    ≡ best 1 (codes "B.o") (file_entries (pos 0) (open_bookmark_file (some other_file)))
get_bookmark-best_example =
    get_bookmark-best (pos 0) 1 (some other_file) (codes "B.o") set_bookmark_defaults refl

saved-IsLine : IsLine 512 (write_bm_line true saved)
unfolding write_bm_line bm_escape_tok to_base64 groups group print_digits
saved-IsLine = (are_in_line-AreInLine (write_bm_line true saved) refl, omega arith)

abbrev second : Bookmark
second = record saved { bookmark_name = codes "NZ" }

second-IsWritable : IsWritable second
second-IsWritable = record {
  bookmark_name = record {
    plain = (refl, (refl, tt));
    no_nul = (refl, (refl, tt));
    fits_field = omega arith;
    fits_token = omega arith;
  };
  name = saved-IsWritable.name;
  user = saved-IsWritable.user;
  pass = saved-IsWritable.pass;
  acct = saved-IsWritable.acct;
  dir = saved-IsWritable.dir;
  ldir = saved-IsWritable.ldir;
  xfer_type = saved-IsWritable.xfer_type;
  port = saved-IsWritable.port;
  last_call = saved-IsWritable.last_call;
  has_size = saved-IsWritable.has_size;
  has_mdtm = saved-IsWritable.has_mdtm;
  has_pasv = saved-IsWritable.has_pasv;
  is_unix = saved-IsWritable.is_unix;
  last_ip = saved-IsWritable.last_ip;
  comment = saved-IsWritable.comment;
  xfer_mode = saved-IsWritable.xfer_mode;
  has_utime = saved-IsWritable.has_utime;
}

second-IsLine : IsLine 512 (write_bm_line true second)
unfolding write_bm_line bm_escape_tok to_base64 groups group print_digits
second-IsLine = (are_in_line-AreInLine (write_bm_line true second) refl, omega arith)

other_line-IsLine : IsLine 256 other_line
other_line-IsLine = (are_in_line-AreInLine other_line refl, omega arith)

other_line-IsOther : IsOther (pos 0) saved other_line
unfolding parse_host_line parse_cases next_token
other_line-IsOther = inr (inr refl)

get_bookmark-put_bookmark_example :
    get_bookmark
      (pos 0)
      1
      (some (put_bookmark true saved (some other_file)))
      (codes "nc")
      set_bookmark_defaults
    ≡ some (read_back true (pos 0) saved)
unfolding split_line lines_from
get_bookmark-put_bookmark_example =
    get_bookmark-put_bookmark true (pos 0) 1 saved set_bookmark_defaults (some other_file)
      saved-IsWritable refl saved-IsLine (other_line-IsLine, tt) (other_line-IsOther, tt)

abbrev table : List Bookmark
table = second ∷ saved ∷ record saved { deleted = pos 1 } ∷ []

load_bookmark_table-save_bookmark_table_example :
    (loaded : List Bookmark) × (load_bookmark_table insertion_sort
        (pos 0)
        true
        (save_bookmark_table table (some other_file))
      ≡ some loaded)
    × Perm loaded (read_back true (pos 0) second ∷ read_back true (pos 0) saved ∷ [])
    × Ordered ByName loaded
load_bookmark_table-save_bookmark_table_example =
    load_bookmark_table-save_bookmark_table insertion_sort (pos 0) second
      (saved ∷ record saved { deleted = pos 1 } ∷ []) (some other_file) insertion_sort-IsQsort
      ((second-IsWritable, second-IsLine), ((saved-IsWritable, saved-IsLine), tt)) (omega arith)

significant_word : default_bookmark_name 16 (codes "ftp.unl.edu") ≡ codes "unl"
unfolding default_bookmark_name
significant_word = refl

address_part : default_bookmark_name 16 (codes "10.0.0.1") ≡ []
unfolding default_bookmark_name
address_part = refl
