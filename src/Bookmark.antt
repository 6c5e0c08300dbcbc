-- ===== src/Bookmark.antt =====
-- ncftp/bookmark.c: the lines of the bookmark file. The strings are C strings, lists of their
-- characters in front of the NUL, and a `char` is the number of its byte.
pub mod Tokens
pub mod Fields
pub mod Texts
pub mod Stored
pub mod RoundTrip
pub mod File
pub mod Lookup
pub mod Saving
pub mod Searching
pub mod Best
pub mod Sorting
mod Insertion
pub mod Lines
pub mod PutGet
pub mod Bounds
pub mod ToUrl
pub mod Naming
pub mod Table
pub mod Loading
pub mod LoadSave
mod Tests
use ncftp.Base.{
  ℕ, zero, suc, ◌+◌, ◌-◌, ◌*◌, ◌/◌, ◌%◌, Bool, true, false, not, ◌&&◌, ◌||◌, Option, none, some,
  List, [], ◌∷◌, ◌++◌, ltb, leb, ◌==◌, if◌then◌else◌, length, get_or, take, drop,
}
use ncftp.Base.Bytes.{Bytes, codes, c_str, strn_eq, is_digit}
use ncftp.Base.Int.{ℤ, pos, negsuc}
use ncftp.Base.Formats.{print_nat, print_int, scan_int, scan_hex}
use ncftp.Base64.{to_base64, from_base64}

pub record Bookmark : Type 0 where
  pub bookmark_name : Bytes
  pub name : Bytes
  pub user : Bytes
  pub pass : Bytes
  pub acct : Bytes
  pub dir : Bytes
  pub ldir : Bytes
  pub xfer_type : ℕ
  pub port : ℕ
  pub last_call : ℤ
  pub has_size : ℤ
  pub has_mdtm : ℤ
  pub has_pasv : ℤ
  pub is_unix : ℤ
  pub last_ip : Bytes
  pub comment : Bytes
  pub xfer_mode : ℕ
  pub has_utime : ℤ
  pub deleted : ℤ

-- kCommandAvailabilityUnknown.
abbrev pub unknown : ℤ
unknown = negsuc 0

-- SetBookmarkDefaults. The port is zero here.
abbrev pub set_bookmark_defaults : Bookmark
set_bookmark_defaults = record {
  bookmark_name = [];
  name = [];
  user = [];
  pass = [];
  acct = [];
  dir = [];
  ldir = [];
  xfer_type = b'I';
  port = 0;
  last_call = pos 0;
  has_size = unknown;
  has_mdtm = unknown;
  has_pasv = unknown;
  is_unix = pos 1;
  last_ip = [];
  comment = [];
  xfer_mode = b'S';
  has_utime = unknown;
  deleted = pos 0;
}

-- HexCharToNibble, where `none` is -1.
abbrev pub hex_char_to_nibble : ℕ → Option ℕ
hex_char_to_nibble c =
    if is_digit c
    then some (c - b'0')
    else if leb b'a' c && leb c b'f'
    then some (c - b'a' + 10)
    else if leb b'A' c && leb c b'F'
    then some (c - b'A' + 10)
    else none

-- `sizeof(token)`.
abbrev pub token_size : ℕ
token_size = 128

-- `if (d < tokenend) *d++ = c`.
abbrev pub put_token : Bytes → ℕ → Bytes
put_token tok c = if ltb (length tok) (token_size - 1) then tok ++ (c ∷ []) else tok

abbrev pub put_nibbles : Bytes → Option ℕ → Option ℕ → Bytes
put_nibbles tok none n = tok
put_nibbles tok (some n) none = tok
put_nibbles tok (some m) (some n) = put_token tok (m * 16 + n)

-- ParseHostLine's loop for one token: what it comes to, and what stands behind its comma.
unfoldable pub next_token : Bytes → Bytes → Bytes × Bytes
next_token tok [] = (tok, [])
next_token tok (c ∷ []) = if c == b',' then (tok, []) else (put_token tok c, [])
next_token tok (c ∷ d ∷ []) =
    let escaped = next_token (put_token tok d) [] in
    let plain = next_token (put_token tok c) (d ∷ []) in
    if c == 92 then escaped else if c == b',' then (tok, d ∷ []) else plain
next_token tok (c ∷ d ∷ e ∷ s) =
    let escaped = next_token (put_token tok d) (e ∷ s) in
    let hex = next_token (put_nibbles tok (hex_char_to_nibble d) (hex_char_to_nibble e)) s in
    let plain = next_token (put_token tok c) (d ∷ e ∷ s) in
    if c == 92
    then escaped
    else if c == b','
    then (tok, d ∷ e ∷ s)
    else if c == b'$'
    then hex
    else plain

-- STRNCPY to a field of `size` bytes.
abbrev pub strncpy : Bytes → ℕ → Bytes
strncpy s size = take (size - 1) (c_str s)

-- `(unsigned int) n`, in 32 bits.
abbrev pub to_unsigned : ℤ → ℕ
to_unsigned (pos n) = n
to_unsigned (negsuc n) = 4294967295 - n

-- `(unsigned long) n`, in 64 bits.
abbrev pub to_unsigned_long : ℤ → ℕ
to_unsigned_long (pos n) = n
to_unsigned_long (negsuc n) = 18446744073709551615 - n

abbrev pub or_else : Option ℤ → ℤ → ℤ
or_else none d = d
or_else (some i) d = i

-- Most of the time, there is no port.
abbrev pub stored_port : Bytes → ℕ
stored_port t = if get_or t 0 0 == 0 then 21 else to_unsigned (scan_int (c_str t))

-- A case of ParseHostLine's switch: what it does to the bookmark, and the result from here on, if the
-- case changes that.
pub record Case : Type 0 where
  pub store : Bytes → Bookmark → Bookmark
  pub reached : Option ℤ

-- The cases 1 to 6.
abbrev pub address_cases : List Case
address_cases =
    record { store = λ t bm. record bm { bookmark_name = strncpy t 16 }; reached = none }
    ∷ record { store = λ t bm. record bm { name = strncpy t 64 }; reached = none }
    ∷ record { store = λ t bm. record bm { user = strncpy t 64 }; reached = none }
    ∷ record { store = λ t bm. record bm { pass = strncpy t 64 }; reached = none }
    ∷ record { store = λ t bm. record bm { acct = strncpy t 64 }; reached = none }
    ∷ record { store = λ t bm. record bm { dir = strncpy t 160 }; reached = some (pos 0) }
    ∷ []

-- The cases 7 to 13. `junk` is what the variable that sscanf is to fill holds before.
abbrev pub access_cases : ℤ → List Case
access_cases junk =
    record {
      store = λ t bm. record bm {
        xfer_type = if get_or t 0 0 == 0 then bm.xfer_type else get_or t 0 0;
      };
      reached = none;
    }
    ∷ record { store = λ t bm. record bm { port = stored_port t }; reached = none }
    ∷ record {
      store = λ t bm. record bm { last_call = or_else (scan_hex (c_str t)) junk };
      reached = none;
    }
    ∷ record { store = λ t bm. record bm { has_size = scan_int (c_str t) }; reached = none }
    ∷ record { store = λ t bm. record bm { has_mdtm = scan_int (c_str t) }; reached = none }
    ∷ record { store = λ t bm. record bm { has_pasv = scan_int (c_str t) }; reached = none }
    ∷ record { store = λ t bm. record bm { is_unix = scan_int (c_str t) }; reached = some (pos 3) }
    ∷ []

-- The cases 14 to 22.
abbrev pub later_cases : List Case
later_cases =
    record { store = λ t bm. record bm { last_ip = strncpy t 32 }; reached = none }
    ∷ record { store = λ t bm. record bm { comment = strncpy t 128 }; reached = none }
    ∷ record { store = λ t bm. bm; reached = none }
    ∷ record { store = λ t bm. bm; reached = none }
    ∷ record { store = λ t bm. bm; reached = none }
    ∷ record { store = λ t bm. bm; reached = none }
    ∷ record { store = λ t bm. record bm { xfer_mode = get_or t 0 0 }; reached = some (pos 7) }
    ∷ record { store = λ t bm. record bm { has_utime = scan_int (c_str t) }; reached = none }
    ∷ record { store = λ t bm. record bm { ldir = strncpy t 160 }; reached = some (pos 8) }
    ∷ []

-- ParseHostLine's loop, from a case and a result on. Behind the last case a line that goes on is one of
-- a later version.
unfoldable pub parse_cases : List Case → Bytes → Bookmark → ℤ → ℤ × Bookmark
parse_cases cs [] bm result = (result, bm)
parse_cases [] (x ∷ s) bm result = (pos 99, bm)
parse_cases (c ∷ cs) (x ∷ s) bm result =
    let (tok, rest) = next_token [] (x ∷ s) in
    parse_cases cs rest (c.store tok bm) (or_else c.reached result)

-- kPasswordMagic.
abbrev pub password_magic : Bytes
password_magic = codes "*encoded*"

abbrev pub decode_password : Bookmark → Bookmark
decode_password bm =
    if strn_eq 9 bm.pass password_magic
    then record bm { pass = strncpy (from_base64 (drop 9 bm.pass) true) 64 }
    else bm

-- ParseHostLine.
unfoldable pub parse_host_line : ℤ → Bytes → ℤ × Bookmark
parse_host_line junk line =
    let (result, bm) =
      parse_cases (address_cases ++ (access_cases junk ++ later_cases)) line set_bookmark_defaults
        (negsuc 0) in
    (result, decode_password bm)

-- isprint in the "C" locale.
abbrev pub is_print : ℕ → Bool
is_print c = leb 32 c && leb c 126

abbrev pub hex_digit : ℕ → ℕ
hex_digit n = if ltb n 10 then b'0' + n else b'a' + (n - 10)

-- The three characters that `sprintf(dst, "$%02x", c)` leaves in front of the next one. The `int` of a
-- byte from 128 on is negative and has eight digits, the first of which are `f`.
abbrev pub hex_escape : ℕ → Bytes
hex_escape c =
    if ltb c 128
    then b'$' ∷ hex_digit (c / 16) ∷ hex_digit (c % 16) ∷ []
    else b'$' ∷ b'f' ∷ b'f' ∷ []

-- One character more on what is written of `room` bytes, which are `dlim - dst0`.
abbrev pub escape_char : ℕ → Bytes → ℕ → Bytes
escape_char room out c =
    if c == 92 || c == b',' || c == b'$'
    then (if ltb (length out + 1) room then out ++ (92 ∷ c ∷ []) else out)
    else if not (is_print c)
    then (if ltb (length out + 2) room then out ++ hex_escape c else out)
    else if ltb (length out) room
    then out ++ (c ∷ [])
    else out

abbrev pub escape_from : ℕ → Bytes → Bytes → Bytes
escape_from room out [] = out
escape_from room out (c ∷ s) = escape_from room (escape_char room out c) s

-- BmEscapeTok with a buffer of `dsize` bytes.
unfoldable pub bm_escape_tok : ℕ → Bytes → Bytes
bm_escape_tok dsize src = escape_from (dsize - 1) [] src

-- WriteBmLine's buffer `tok` has 256 bytes.
abbrev pub escaped : Bytes → Bytes
escaped s = bm_escape_tok 256 s

abbrev pub written_password : Bool → Bytes → Bytes
written_password save [] = []
written_password save (c ∷ s) = if save then password_magic ++ to_base64 (c ∷ s) false else []

-- What the calls of fprintf write behind each comma.
abbrev pub bm_tokens : Bool → Bookmark → List Bytes
bm_tokens save bm =
    bm.bookmark_name
    ∷ escaped bm.name
    ∷ escaped bm.user
    ∷ written_password save bm.pass
    ∷ escaped bm.acct
    ∷ escaped bm.dir
    ∷ (bm.xfer_type ∷ [])
    ∷ print_nat bm.port
    ∷ print_nat (to_unsigned_long bm.last_call)
    ∷ print_int bm.has_size
    ∷ print_int bm.has_mdtm
    ∷ print_int bm.has_pasv
    ∷ print_int bm.is_unix
    ∷ bm.last_ip
    ∷ escaped bm.comment
    ∷ []
    ∷ []
    ∷ []
    ∷ []
    ∷ (bm.xfer_mode ∷ [])
    ∷ print_int bm.has_utime
    ∷ escaped bm.ldir
    ∷ []

-- The tokens with a comma in front of each but the first.
abbrev pub commas : List Bytes → Bytes
commas [] = []
commas (t ∷ []) = t
commas (t ∷ u ∷ ts) = t ++ (b',' ∷ commas (u ∷ ts))

-- WriteBmLine, when every write goes well, without the newline.
unfoldable pub write_bm_line : Bool → Bookmark → Bytes
write_bm_line save bm = commas (bm_tokens save bm)
