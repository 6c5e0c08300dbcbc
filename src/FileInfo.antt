-- ===== src/FileInfo.antt =====
-- The file-information lists of libncftp/linelist.c: an FTPFileInfoList and its nodes. The
-- children model its vector, its sorting and the names of its files.
pub mod Order
pub mod Vector
pub mod Names
pub mod Adding
pub mod Concat
pub mod FromLines
pub mod Vectorizing
pub mod Relinking
pub mod Reversing
pub mod Sorting
pub mod Renaming
pub mod Naming
mod Tests
use ncftp.Base.{ℕ, zero, suc, ◌+◌, ◌-◌, Bool, Option, none, some, List, ◌==◌, if◌then◌else◌}
use ncftp.Base.Int.{ℤ, pos, negsuc, pos_part}
use ncftp.Links.{
  Ptr, null, Cell, cell, Header, Run, ok, fault, out_of_fuel, empty, and_then, pure, ◌>>=◌, ◌>>◌,
  load, link_last, unlink, dispose,
}
use ncftp.LineList.{Line, Lines, str_dup}

-- FTPFileInfo, less its links.
pub record FileInfo : Type 0 where
  pub relname : Line
  pub rname : Line
  pub rlinkto : Line
  pub lname : Line
  pub plug : Line
  pub kind : ℕ
  pub mdtm : ℤ
  pub size : ℤ
  pub relname_len : ℕ
  pub mode : ℤ

abbrev pub Infos : Type 0
Infos = Ptr → Option (Cell FileInfo)

abbrev pub Cmd : Type 0 → Type 0
Cmd R = Infos → Run FileInfo R

-- FTPFileInfoList: `links` are `first`, `last` and `nFileInfos`.
pub record FileInfoList : Type 0 where
  pub links : Header
  pub vec : Option (List Ptr)
  pub max_file_len : ℕ
  pub max_plug_len : ℕ
  pub sort_key : ℕ
  pub sort_order : ℕ

abbrev pub init_file_info_list : FileInfoList
init_file_info_list = record {
  links = empty;
  vec = none;
  max_file_len = 0;
  max_plug_len = 0;
  sort_key = 0;
  sort_order = 0;
}

-- The strings of a node are part of it, and go with it; so does the vector with its list.
pub dispose_file_info_list : FileInfoList → Cmd FileInfoList
dispose_file_info_list list = do _ ← dispose list.links; pure init_file_info_list

-- InitFileInfo. kSizeUnknown and kModTimeUnknown are -1.
abbrev pub init_file_info : FileInfo
init_file_info = record {
  relname = none;
  rname = none;
  rlinkto = none;
  lname = none;
  plug = none;
  kind = b'-';
  mdtm = negsuc 0;
  size = negsuc 0;
  relname_len = 0;
  mode = pos 0;
}

-- RemoveFileInfo returns `killMe->next`, beside the list.
pub remove_file_info : FileInfoList → Ptr → Cmd (Ptr × FileInfoList)
remove_file_info list kill_me = do
  (next, links) ← unlink list.links kill_me
  pure (next, record list { links = links })

-- AddFileInfo: `lp` is what `malloc` returns for the node.
pub add_file_info : Ptr → FileInfoList → FileInfo → Cmd (Ptr × FileInfoList)
add_file_info lp list src =
    if lp == null
    then pure (null, list)
    else (do links ← link_last list.links lp src; pure (lp, record list { links = links }))

-- What the allocator answers while a list grows by its n-th node: the node, and whether there is
-- room for a string, which is told by its place among the strings.
pub record Allocator : Type 0 where
  pub node : ℕ → Infos → Ptr
  pub room : ℕ → ℕ → Bool

-- The copy of a node that ConcatFileInfoList makes.
abbrev pub dup_file_info : (ℕ → Bool) → FileInfo → FileInfo
dup_file_info room fi = record fi {
  relname = str_dup (room 0) fi.relname;
  lname = str_dup (room 1) fi.lname;
  rname = str_dup (room 2) fi.rname;
  rlinkto = str_dup (room 3) fi.rlinkto;
  plug = str_dup (room 4) fi.plug;
}

pub concat_loop : ℕ → Allocator → ℕ → FileInfoList → Ptr → Cmd (ℤ × FileInfoList)
concat_loop zero alloc n dst lp = λ _. out_of_fuel
concat_loop (suc k) alloc n dst lp = if lp == null then pure (pos 0, dst) else (do
  c ← load lp
  (λ h. add_file_info (alloc.node n h) dst (dup_file_info (alloc.room n) c.item) h)
      >>= λ (added, dst').
          if added == null then pure (negsuc 0, dst') else concat_loop k alloc (n + 1) dst' c.next)

-- ConcatFileInfoList returns 0 or -1, beside `dst`.
pub concat_file_info_list : Allocator → FileInfoList → FileInfoList → Cmd (ℤ × FileInfoList)
concat_file_info_list alloc dst src =
    concat_loop (pos_part src.links.count + 1) alloc 0 dst src.links.first

-- The node that ConcatFileToFileInfoList makes of a name.
abbrev pub named : Bool → Line → FileInfo
named room rfile = record init_file_info { relname = str_dup room rfile }

-- ConcatFileToFileInfoList, as the n-th node of a list.
pub concat_file : Allocator → ℕ → FileInfoList → Line → Cmd (ℤ × FileInfoList)
concat_file alloc n dst rfile h =
    and_then (add_file_info (alloc.node n h) dst (named (alloc.room n 0) rfile) h)
      λ (added, dst') g. ok (if added == null then negsuc 0 else pos 0, dst') g

-- A loop over the lines of a list, which stand in a heap of their own.
pub lines_loop : ℕ → Allocator → ℕ → Lines → FileInfoList → Ptr → Cmd (ℤ × FileInfoList)
lines_loop zero alloc n lines dst lp = λ _. out_of_fuel
lines_loop (suc k) alloc n lines dst lp =
    let next = lines_loop k alloc (n + 1) lines in
    if lp == null then pure (pos 0, dst) else elim (lines lp) [
      | none ↦ λ _. fault
      | some c ↦ concat_file alloc n dst c.item >>= λ (result, dst'). elim result [
        | pos _ ↦ next dst' c.next
        | negsuc _ ↦ pure (negsuc 0, dst')
      ]
    ]

pub line_list_to_file_info_list : Allocator → Lines → Header → Cmd (ℤ × FileInfoList)
line_list_to_file_info_list alloc lines src =
    lines_loop (pos_part src.count + 1) alloc 0 lines init_file_info_list src.first

pub line_to_file_info_list : Allocator → Line → Cmd (ℤ × FileInfoList)
line_to_file_info_list alloc line = concat_file alloc 0 init_file_info_list line
