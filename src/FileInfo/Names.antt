-- ===== src/FileInfo/Names.antt =====
-- ComputeRNames and ComputeLNames of libncftp/linelist.c, as they are built for Unix, where
-- TVFSPathToLocalPath and LocalPathToTVFSPath are empty; with Dynscat of Strn/Dynscat.c.
use ncftp.Base.{
  ℕ, zero, suc, ◌+◌, Bool, true, false, not, Option, none, some, [], ◌∷◌, ◌++◌, ◌==◌, if◌then◌else◌,
}
use ncftp.Base.Bytes.{Bytes}
use ncftp.Base.Int.{ℤ, pos, negsuc, pos_part}
use ncftp.Links.{Ptr, null, cell, fault, out_of_fuel, pure, ◌>>=◌, ◌>>◌, load, fill}
use ncftp.LineList.{Line}
use ncftp.FileInfo.{FileInfo, FileInfoList, Cmd}

-- What stands behind the last `d` of a string: strrchr(s, d) + 1.
abbrev pub behind_last : ℕ → Bytes → Option Bytes
behind_last d [] = none
behind_last d (c ∷ s) = elim (behind_last d s) [
  | some t ↦ some t
  | none ↦ if c == d then some s else none
]

-- Behind the last `/`, or if there is none behind the last `\`.
unfoldable pub behind_slash : Bytes → Option Bytes
behind_slash s = elim (behind_last b'/' s) [ some t ↦ some t | none ↦ behind_last 92 s ]

abbrev pub base_name : Bytes → Bytes
base_name s = elim (behind_slash s) [ some t ↦ t | none ↦ s ]

-- `(dir[0] != '\0') && strcmp(dir, ".")`.
unfoldable pub is_dir : Bytes → Bool
is_dir [] = false
is_dir (c ∷ []) = not (c == b'.')
is_dir (c ∷ d ∷ s) = true

abbrev pub or_dot : Line → Bytes
or_dot none = b'.' ∷ []
or_dot (some s) = s

-- Dynscat of one more string to `*dst`, if there is room.
unfoldable pub dynscat : Bool → Line → Bytes → Line
dynscat room none s = if room then some s else none
dynscat room (some t) s = if room then some (t ++ s) else none

-- A string of a node that is read must be there.
pub data Named : Type 0 where
  set_to : FileInfo → Named
  no_memory : FileInfo → Named
  null_read : Named

-- Assigning `rname`, where `buf` is the result of Dynscat.
abbrev pub put_rname : FileInfo → Line → Named
put_rname fi none = no_memory fi
put_rname fi (some buf) = set_to (record fi { rname = some buf })

-- The part under `pflag`: the last directory's name goes behind `lname`.
abbrev pub put_parent : Bool → Bool → Bytes → FileInfo → Line → Named
put_parent room pflag dstdir fi none = no_memory fi
put_parent room pflag dstdir fi (some buf) =
    if pflag
    then elim (behind_slash dstdir) [
      | none ↦ put_rname fi (some buf)
      | some parent ↦ elim (dynscat room fi.lname parent) [
        | none ↦ no_memory fi
        | some s ↦ put_rname (record fi { lname = some s }) (some buf)
      ]
    ]
    else put_rname fi (some buf)

-- One round of ComputeRNames, on a node whose `relname` is given. `room` answers the requests of
-- the round in their order.
abbrev pub rname_from : (ℕ → Bool) → Bytes → Bool → Bool → FileInfo → Line → Named
rname_from room dstdir pflag nochop fi none = null_read
rname_from room dstdir pflag nochop fi (some relname) =
    let name = if nochop then relname else base_name relname in
    if is_dir dstdir
    then put_parent (room 1) pflag dstdir fi (dynscat (room 0) none (dstdir ++ (b'/' ∷ name)))
    else put_rname fi (dynscat (room 0) none name)

unfoldable pub rname_step : (ℕ → Bool) → Bytes → Bool → Bool → FileInfo → Named
rname_step room dstdir pflag nochop fi = rname_from room dstdir pflag nochop fi fi.relname

abbrev pub put_lname : FileInfo → Line → Named
put_lname fi none = no_memory fi
put_lname fi (some buf) = set_to (record fi { lname = some buf })

abbrev pub cat_result : Line → Option Line
cat_result none = none
cat_result (some t) = some (some t)

-- One string more, unless memory has run out before.
abbrev pub then_cat : Bool → Option Line → Bytes → Option Line
then_cat room none s = none
then_cat room (some buf) s = cat_result (dynscat room buf s)

abbrev pub flatten : Option Line → Line
flatten none = none
flatten (some buf) = buf

-- `srcdir` less its leading directories.
abbrev pub last_dir : Line → Line
last_dir none = none
last_dir (some s) = some (base_name s)

-- The directory in front of a name that is not chopped: the node's own, or the source's.
abbrev pub own_dir : Line → Line → Line
own_dir (some s) srcdir = some s
own_dir none srcdir = srcdir

abbrev pub cat_dir : Bool → Option Line → Line → Option Line
cat_dir room buf none = buf
cat_dir room buf (some s) = then_cat room buf (s ++ b'/' ∷ [])

-- `buf` of a name that is not chopped.
abbrev pub whole_lname : (ℕ → Bool) → Line → Bytes → Line → Bytes → Option Line
whole_lname room srcdir dstdir lname relname =
    let buf =
      if is_dir dstdir then then_cat (room 0) (some none) (dstdir ++ b'/' ∷ []) else some none in
    then_cat (room 2) (cat_dir (room 1) buf (own_dir lname srcdir)) relname

-- One round of ComputeLNames, on a node whose `relname` is given.
abbrev pub lname_from : (ℕ → Bool) → Line → Bytes → Bool → FileInfo → Line → Named
lname_from room srcdir dstdir nochop fi none = null_read
lname_from room srcdir dstdir nochop fi (some relname) =
    if nochop
    then put_lname fi (flatten (whole_lname room srcdir dstdir fi.lname relname))
    else put_lname fi (
        dynscat (room 0) none
          (if is_dir dstdir then dstdir ++ (b'/' ∷ base_name relname) else base_name relname))

unfoldable pub lname_step : (ℕ → Bool) → Line → Bytes → Bool → FileInfo → Named
lname_step room srcdir dstdir nochop fi = lname_from room srcdir dstdir nochop fi fi.relname

-- The loop over the nodes that both share: `step` is the n-th round.
unfoldable pub name_loop : ℕ → (ℕ → FileInfo → Named) → ℕ → Ptr → Cmd ℤ
name_loop zero step n lp = λ _. out_of_fuel
name_loop (suc k) step n lp = if lp == null then pure (pos 0) else (do
  c ← load lp
  elim (step n c.item) [
    | set_to fi ↦ (do fill lp (cell c.prev c.next fi); name_loop k step (n + 1) c.next)
    | no_memory fi ↦ (do fill lp (cell c.prev c.next fi); pure (negsuc 0))
    | null_read ↦ (λ _. fault)
  ])

-- `room n` answers the requests of the n-th round.
unfoldable pub compute_rnames : (ℕ → ℕ → Bool) → FileInfoList → Line → Bool → Bool → Cmd ℤ
compute_rnames room dst dstdir pflag nochop =
    name_loop (pos_part dst.links.count + 1) (λ n. rname_step (room n) (or_dot dstdir) pflag nochop)
      0 dst.links.first

unfoldable pub compute_lnames : (ℕ → ℕ → Bool) → FileInfoList → Line → Line → Bool → Cmd ℤ
compute_lnames room dst srcdir dstdir nochop =
    name_loop (pos_part dst.links.count + 1)
      (λ n. lname_step (room n) (last_dir srcdir) (or_dot dstdir) nochop) 0 dst.links.first
