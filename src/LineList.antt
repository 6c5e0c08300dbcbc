-- ===== src/LineList.antt =====
-- The FTPLineList of libncftp/linelist.c: a doubly linked list of lines, each a copy of a C string
-- (`none` is a NULL pointer). The string that a node owns is kept with the node.
pub mod Adding
pub mod Copying
mod Tests
use ncftp.Base.{◌≡◌, ◌≢◌, ℕ, zero, suc, ◌+◌, Bool, Option, none, some, ◌==◌, if◌then◌else◌}
use ncftp.Base.Bytes.{Bytes}
use ncftp.Base.Int.{ℤ, pos, negsuc, pos_part}
use ncftp.Links.{
  Ptr, null, Cell, cell, Header, Run, out_of_fuel, empty, pure, ◌>>=◌, ◌>>◌, load, fill, free,
  link_last, unlink, dispose,
}

abbrev pub Line : Type 0
Line = Option Bytes

-- The heap of lines, and commands on it.
abbrev pub Lines : Type 0
Lines = Ptr → Option (Cell Line)

abbrev pub Cmd : Type 0 → Type 0
Cmd R = Lines → Run Line R

-- StrDup: `room` says whether its `malloc` succeeds.
unfoldable pub str_dup : Bool → Line → Line
str_dup room none = none
str_dup room (some s) = if room then some s else none

abbrev pub init_line_list : Header
init_line_list = empty

pub dispose_line_list : Header → Cmd Header
dispose_line_list = dispose

-- RemoveLine returns `killMe->next`, beside the list.
pub remove_line : Header → Ptr → Cmd (Ptr × Header)
remove_line = unlink

-- AddLine: `lp` is what `malloc` returns for the node. The new node's fields are written before
-- they are read.
pub add_line : Ptr → Bool → Header → Line → Cmd (Ptr × Header)
unfolding str_dup
add_line lp room list buf1 = if lp == null then pure (null, list) else (do
  fill lp (cell null null none)
  elim (str_dup room buf1) [
    | none ↦ (do free lp; pure (null, list))
    | some buf ↦ (do list' ← link_last list lp (some buf); pure (lp, list'))
  ])

-- What the allocator answers to the two requests of the n-th AddLine of a copy.
pub record Allocator : Type 0 where
  pub node : ℕ → Lines → Ptr
  pub room : ℕ → Bool

-- `malloc` returns NULL or the address of a block that is not in use.
abbrev pub ReturnsFresh : Allocator → Type 0
ReturnsFresh alloc = (n : ℕ) (h : Lines) → alloc.node n h ≢ null → h (alloc.node n h) ≡ none

-- The n-th AddLine of a copy.
abbrev pub add_next : Allocator → ℕ → Header → Line → Cmd (Ptr × Header)
add_next alloc n dst line h = add_line (alloc.node n h) (alloc.room n) dst line h

abbrev pub give_up : Header → Cmd (ℤ × Header)
give_up dst = do dst' ← dispose_line_list dst; pure (negsuc 0, dst')

-- The loop of CopyLineList, with `n` lines added so far.
pub copy_loop : ℕ → Allocator → ℕ → Header → Ptr → Cmd (ℤ × Header)
copy_loop zero alloc n dst lp = λ _. out_of_fuel
copy_loop (suc k) alloc n dst lp = if lp == null then pure (pos 0, dst) else (do
  c ← load lp
  elim c.item [
    | none ↦ copy_loop k alloc n dst c.next
    | some s ↦ add_next alloc n dst (some s) >>= λ (added, dst').
        if added == null then give_up dst' else copy_loop k alloc (n + 1) dst' c.next
  ])

-- CopyLineList initialises `dst`, and returns 0 or -1 beside it.
pub copy_line_list : Allocator → Header → Cmd (ℤ × Header)
unfolding copy_loop
copy_line_list alloc src = copy_loop (pos_part src.count + 1) alloc 0 init_line_list src.first
