-- ===== src/Facts/Entries.antt =====
-- UnMlsD of libncftp/unls.c: the entries of a machine-readable listing.
use ncftp.Base.{
  ℕ, ◌+◌, ◌-◌, ◌/◌, ◌%◌, Bool, false, ◌&&◌, ◌||◌, Option, none, some, List, [], ◌∷◌, ◌++◌, ltb,
  ◌==◌, if◌then◌else◌, length, take, replicate,
}
use ncftp.Base.Bytes.{Bytes, codes, strncat}
use ncftp.Base.Int.{ℤ, pos, negsuc}
use ncftp.Facts.{MlstItem, ParsedItem, bad, unlisted, item, un_mls_t}
use ncftp.Facts.Nodes.{contains_dot_dot}
use ncftp.Facts.Time.{Clock}
use ncftp.FileInfo.{FileInfo}

abbrev pub grants : ℕ → Bytes → Bool
grants c [] = false
grants c (d ∷ s) = d == c || grants c s

-- `rwx[n]`.
abbrev pub rwx : ℕ → Bytes
rwx n =
    (if n / 4 % 2 == 1 then b'r' else b'-')
    ∷ (if n / 2 % 2 == 1 then b'w' else b'-')
    ∷ (if n % 2 == 1 then b'x' else b'-')
    ∷ []

abbrev pub bit_if : Bool → ℕ → ℕ
bit_if b n = if b then n else 0

-- The permissions that the `perm` fact grants.
abbrev pub perm_bits : ℕ → Bytes → ℕ
perm_bits ftype perm =
    if ftype == b'd'
    then bit_if (grants b'e' perm) 1 + bit_if (grants b'c' perm) 2 + bit_if (grants b'l' perm) 4
    else bit_if (grants b'w' perm) 2 + bit_if (grants b'r' perm) 4

abbrev pub permissions : MlstItem → Bytes
permissions it = elim it.mode [
  | pos n ↦ rwx (n / 64 % 8) ++ (rwx (n / 8 % 8) ++ rwx (n % 8))
  | negsuc n ↦
      if length it.perm == 0 then [] else rwx 0 ++ (rwx 0 ++ rwx (perm_bits it.ftype it.perm))
]

-- `%-8.8s`.
abbrev pub eight : Bytes → Bytes
eight s = take 8 s ++ replicate (8 - length s) b' '

abbrev pub owners : Bytes → Bytes → Bytes
owners owner group =
    if length owner == 0
    then []
    else if length group == 0
    then codes "   " ++ owner
    else take 30 (codes "   " ++ (eight owner ++ (b' ' ∷ group)))

-- `plug`, an array of 64 bytes.
abbrev pub plug_of : MlstItem → Bytes
plug_of it = strncat 64 (it.ftype ∷ permissions it) (owners it.owner it.group)

abbrev pub link_of : Bytes → Option Bytes
link_of [] = none
link_of (c ∷ s) = some (c ∷ s)

-- The node that is added for an item; StrDup is taken to succeed.
abbrev pub entry_of : MlstItem → FileInfo
entry_of it = record {
  relname = some it.fname;
  rname = none;
  rlinkto = link_of it.linkto;
  lname = none;
  plug = some (plug_of it);
  kind = it.ftype;
  mdtm = it.ftime;
  size = it.fsize;
  relname_len = length it.fname;
  mode = it.mode;
}

-- UnMlsD's counts, and the nodes that it has added, in their order.
pub record Listed : Type 0 where
  pub entries : List FileInfo
  pub lines_read : ℕ
  pub lines_converted : ℕ
  pub lines_ignored : ℕ
  pub max_file_len : ℕ
  pub max_plug_len : ℕ

abbrev pub nothing_listed : Listed
nothing_listed = record {
  entries = [];
  lines_read = 0;
  lines_converted = 0;
  lines_ignored = 0;
  max_file_len = 0;
  max_plug_len = 0;
}

abbrev pub larger : ℕ → ℕ → ℕ
larger m n = if ltb m n then n else m

abbrev pub add_entry : Listed → MlstItem → Listed
add_entry l it = record l {
  entries = l.entries ++ (entry_of it ∷ []);
  lines_converted = l.lines_converted + 1;
  max_file_len = larger l.max_file_len (length it.fname);
  max_plug_len = larger l.max_plug_len (length (plug_of it));
}

abbrev pub ignore_line : Listed → Listed
ignore_line l = record l { lines_ignored = l.lines_ignored + 1 }

abbrev pub add_parsed : Listed → ParsedItem → Listed
add_parsed l bad = l
add_parsed l unlisted = ignore_line l
add_parsed l (item it) = if contains_dot_dot it.fname then ignore_line l else add_entry l it

unfoldable pub mls_loop : Clock → Listed → List Bytes → Listed
mls_loop clock l [] = l
mls_loop clock l (line ∷ lines) =
    mls_loop clock (add_parsed (record l { lines_read = l.lines_read + 1 }) (un_mls_t clock line))
      lines

abbrev pub mls_result : Listed → ℤ
mls_result l =
    if l.lines_read == 0
    then pos 0
    else if l.lines_converted == 0 && ltb 0 l.lines_ignored
    then pos 0
    else if ltb 0 l.lines_converted
    then pos l.lines_converted
    else negsuc 0

-- UnMlsD: what it returns, and its list.
unfoldable pub un_mls_d : Clock → List Bytes → ℤ × Listed
un_mls_d clock lines = let l = mls_loop clock nothing_listed lines in (mls_result l, l)
