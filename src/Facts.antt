-- ===== src/Facts.antt =====
-- UnMlsT and UnMlsD of libncftp/unls.c: machine-readable listings.
pub mod Time
pub mod Nodes
pub mod Entries
pub mod Safe
pub mod Parsing
mod Tests
use ncftp.Base.{
  ℕ, zero, suc, ◌+◌, ◌-◌, ◌/◌, ◌%◌, Bool, true, false, not, ◌&&◌, ◌||◌, Option, none, some, List,
  [], ◌∷◌, ◌++◌, ltb, ◌==◌, if◌then◌else◌, length, get_or, take, drop,
}
use ncftp.Base.Bytes.{Bytes, codes}
use ncftp.Base.Formats.{skip_spaces, scan_int, scan_decimal, scan_octal, scan_integer}
use ncftp.Base.Int.{ℤ, pos, negsuc}
use ncftp.Base.Letters.{istreq, istrneq}
use ncftp.Facts.Time.{Clock, time_unknown, un_mdtm_date}

-- MLstItem.
pub record MlstItem : Type 0 where
  pub fname : Bytes
  pub linkto : Bytes
  pub ftype : ℕ
  pub fsize : ℤ
  pub ftime : ℤ
  pub mode : ℤ
  pub uid : ℤ
  pub gid : ℤ
  pub perm : Bytes
  pub owner : Bytes
  pub group : Bytes

abbrev pub start_item : MlstItem
start_item = record {
  fname = [];
  linkto = [];
  ftype = b'-';
  fsize = negsuc 0;
  ftime = time_unknown;
  mode = negsuc 0;
  uid = pos 0;
  gid = pos 0;
  perm = [];
  owner = [];
  group = [];
}

-- What UnMlsT returns: 0 with the item, -1, or -2 for a directory that is not listed.
pub data ParsedItem : Type 0 where
  bad unlisted : ParsedItem
  item : MlstItem → ParsedItem

abbrev pub more_name : ℕ → Option (Bytes × Bytes) → Option (Bytes × Bytes)
more_name c none = none
more_name c (some (f, rest)) = some (c ∷ f, rest)

-- A fact's name, up to `=`, and what stands behind that.
unfoldable pub fact_name : Bytes → Option (Bytes × Bytes)
fact_name [] = none
fact_name (c ∷ s) =
    let more = more_name c (fact_name s) in
    if c == b' ' then none else if c == b'=' then some ([], s) else more

abbrev pub more_value : ℕ → Option (Bytes × Bool × Bytes) → Option (Bytes × Bool × Bytes)
more_value c none = none
more_value c (some (v, ends, rest)) = some (c ∷ v, ends, rest)

-- A fact's value, whether it is the last one, and what stands behind it.
unfoldable pub fact_value : Bytes → Option (Bytes × Bool × Bytes)
fact_value [] = none
fact_value (c ∷ s) =
    let more = more_value c (fact_value s) in
    if c == b' '
    then some ([], true, s)
    else if c == b';'
    then (if get_or s 0 0 == b' ' then some ([], true, drop 1 s) else some ([], false, s))
    else more

abbrev pub number_or : Option ℤ → ℤ → ℤ
number_or none d = d
number_or (some i) d = i

-- `mode &= 00777`, unless it is -1.
abbrev pub masked : ℤ → ℤ
masked (pos n) = pos (n % 512)
masked (negsuc zero) = negsuc 0
masked (negsuc (suc n)) = pos (511 - suc n % 512)

abbrev pub type_fact : Bytes → MlstItem → ParsedItem
type_fact val it =
    if istreq val (codes "file")
    then item (record it { ftype = b'-' })
    else if istreq val (codes "dir")
    then item (record it { ftype = b'd' })
    else if istreq val (codes "cdir")
    then unlisted
    else if istreq val (codes "pdir")
    then unlisted
    else bad

-- STRNCPY to an array of 16 bytes.
abbrev pub short_copy : Bytes → Bytes
short_copy val = take 15 val

abbrev pub mode_fact : Bytes → ℤ → ℤ
mode_fact val old =
    masked (number_or (if get_or val 0 0 == b'0' then scan_octal val else scan_integer val) old)

-- One fact; `OS.` in front of its name is passed over.
unfoldable pub apply_fact : Clock → Bytes → Bytes → MlstItem → ParsedItem
apply_fact clock name val it =
    let fact = if istrneq 3 name (codes "OS.") then drop 3 name else name in
    if istreq fact (codes "type")
    then type_fact val it
    else if istreq fact (codes "UNIX.mode")
    then item (record it { mode = mode_fact val it.mode })
    else if istreq fact (codes "perm")
    then item (record it { perm = short_copy val })
    else if istreq fact (codes "size")
    then item (record it { fsize = number_or (scan_decimal val) it.fsize })
    else if istreq fact (codes "modify")
    then item (record it { ftime = un_mdtm_date clock val })
    else if istreq fact (codes "UNIX.owner")
    then item (record it { owner = short_copy val })
    else if istreq fact (codes "UNIX.group")
    then item (record it { group = short_copy val })
    else if istreq fact (codes "UNIX.uid")
    then item (record it { uid = scan_int val })
    else if istreq fact (codes "UNIX.gid")
    then item (record it { gid = scan_int val })
    else item it

-- Behind the facts.
abbrev pub name_item : Bytes → MlstItem → ParsedItem
name_item cp it = if ltb 511 (length cp) then bad else item (record it { fname = cp })

-- The loop over the facts, with a round for each character and one for the end.
abbrev pub after_fact : (MlstItem → ParsedItem) → ParsedItem → ParsedItem
after_fact more bad = bad
after_fact more unlisted = unlisted
after_fact more (item it) = more it

abbrev pub on_value :
    (Bytes → MlstItem → ParsedItem)
    → Clock
    → MlstItem
    → Bytes
    → Option (Bytes × Bool × Bytes)
    → ParsedItem
on_value more clock it fact none = bad
on_value more clock it fact (some (val, ends, rest)) =
    after_fact (if ends then name_item rest else more rest) (apply_fact clock fact val it)

abbrev pub on_name :
    (Bytes → MlstItem → ParsedItem) → Clock → MlstItem → Option (Bytes × Bytes) → ParsedItem
on_name more clock it none = bad
on_name more clock it (some (fact, rest)) = on_value more clock it fact (fact_value rest)

unfoldable pub facts_loop : ℕ → Clock → Bytes → MlstItem → ParsedItem
facts_loop zero clock cp it = bad
facts_loop (suc k) clock [] it = name_item [] it
facts_loop (suc k) clock (c ∷ cp) it = on_name (facts_loop k clock) clock it (fact_name (c ∷ cp))

-- UnMlsT.
unfoldable pub un_mls_t : Clock → Bytes → ParsedItem
un_mls_t clock line0 =
    if ltb 1023 (length line0)
    then bad
    else facts_loop (length line0 + 1) clock (skip_spaces line0) start_item
