-- ===== src/FileInfo/Order.antt =====
-- SortFileInfoList of libncftp/linelist.c and the seven orders that it hands to qsort(). qsort() and
-- strcoll() are the C library's, and parameters.
use ncftp.Base.{
  ℕ, zero, suc, ◌+◌, ◌-◌, ◌/◌, Bool, true, false, ◌&&◌, ◌||◌, Option, none, some, List, [], ◌∷◌,
  ◌++◌, ltb, ◌==◌, if◌then◌else◌, get_elem?, set, take, drop,
}
use ncftp.Base.Bytes.{Bytes}
use ncftp.Base.Int.{ℤ, pos, negsuc, pos_part}
use ncftp.Links.{Ptr, null, ok, fault}
use ncftp.LineList.{Line}
use ncftp.FileInfo.{FileInfo, FileInfoList, Infos, Cmd}

-- What a comparison tells qsort(); `none` is a NULL pointer that was read.
abbrev pub Cmp : Type 0
Cmp = FileInfo → FileInfo → Option ℤ

-- `strcoll` compares in the order of the locale. `qsort` sorts by a comparison that may read a
-- NULL pointer.
pub record Libc : Type 0 where
  pub strcoll : Bytes → Bytes → ℤ
  pub qsort : (Ptr → Ptr → Option ℤ) → List Ptr → Option (List Ptr)

abbrev pub ltz : ℤ → ℤ → Bool
ltz (pos m) (pos n) = ltb m n
ltz (pos m) (negsuc n) = false
ltz (negsuc m) (pos n) = true
ltz (negsuc m) (negsuc n) = ltb n m

abbrev pub eqz : ℤ → ℤ → Bool
eqz (pos m) (pos n) = m == n
eqz (pos m) (negsuc n) = false
eqz (negsuc m) (pos n) = false
eqz (negsuc m) (negsuc n) = m == n

-- -1 if `a` is less, 0 if they are equal, 1 otherwise.
abbrev pub compare_int : ℤ → ℤ → ℤ
compare_int a b = if eqz a b then pos 0 else if ltz a b then negsuc 0 else pos 1

unfoldable pub time_cmp : Cmp
time_cmp a b = some (compare_int b.mdtm a.mdtm)

unfoldable pub reverse_time_cmp : Cmp
reverse_time_cmp a b = some (compare_int a.mdtm b.mdtm)

unfoldable pub size_cmp : Cmp
size_cmp a b = some (compare_int b.size a.size)

unfoldable pub reverse_size_cmp : Cmp
reverse_size_cmp a b = some (compare_int a.size b.size)

-- The directories in a name.
abbrev pub depth : Bytes → ℕ
depth [] = 0
depth (c ∷ s) = let rest = depth s in if c == b'/' || c == 92 then suc rest else rest

module _ (libc : Libc) where
  abbrev pub collate : Line → Line → Option ℤ
  collate none t = none
  collate (some s) none = none
  collate (some s) (some t) = some (libc.strcoll s t)

  unfoldable pub name_cmp : Cmp
  name_cmp a b = collate a.relname b.relname

  unfoldable pub reverse_name_cmp : Cmp
  reverse_name_cmp a b = collate b.relname a.relname

  abbrev pub breadth_first : Line → Line → Option ℤ
  breadth_first none t = none
  breadth_first (some s) none = none
  breadth_first (some s) (some t) = some (
      if ltb (depth s) (depth t)
      then negsuc 0
      else if ltb (depth t) (depth s)
      then pos 1
      else libc.strcoll s t)

  unfoldable pub breadth_first_cmp : Cmp
  breadth_first_cmp a b = breadth_first a.relname b.relname

  -- The order that a key and a direction name.
  unfoldable pub order_of : ℕ → ℕ → Option Cmp
  order_of key order =
      if key == b'n' && order == b'a'
      then some name_cmp
      else if key == b'n' && order == b'd'
      then some reverse_name_cmp
      else if key == b't' && order == b'a'
      then some time_cmp
      else if key == b't' && order == b'd'
      then some reverse_time_cmp
      else if key == b's' && order == b'a'
      then some size_cmp
      else if key == b's' && order == b'd'
      then some reverse_size_cmp
      else if key == b'b'
      then some breadth_first_cmp
      else none

-- `**fipa` and `**fipb`, compared.
abbrev pub item_at : Infos → Ptr → Option FileInfo
item_at h p = if p == null then none else elim (h p) [ none ↦ none | some c ↦ some c.item ]

abbrev pub compare_items : Cmp → Option FileInfo → Option FileInfo → Option ℤ
compare_items cmp none b = none
compare_items cmp (some a) none = none
compare_items cmp (some a) (some b) = cmp a b

abbrev pub cmp_at : Infos → Cmp → Ptr → Ptr → Option ℤ
cmp_at h cmp p q = compare_items cmp (item_at h p) (item_at h q)

-- `fiv[i]` and `fiv[j]` exchanged.
unfoldable pub swap : List Ptr → ℕ → ℕ → Option (List Ptr)
swap fiv i j = elim (get_elem? fiv i) [
  | none ↦ none
  | some fip ↦ elim (get_elem? fiv j) [ none ↦ none | some p ↦ some (set (set fiv i p) j fip) ]
]

-- `for (i = 0; i < n2; i++)`, with `k` rounds to go.
unfoldable pub reverse_loop : ℕ → ℕ → ℕ → List Ptr → Option (List Ptr)
reverse_loop zero n i fiv = some fiv
reverse_loop (suc k) n i fiv = elim (swap fiv i (n - i - 1)) [
  | none ↦ none
  | some fiv' ↦ reverse_loop k n (i + 1) fiv'
]

-- The vector after a sort, or `none` where it read a NULL pointer or out of bounds.
unfoldable pub sorted_vec : Libc → ℕ → ℕ → FileInfoList → List Ptr → Infos → Option (List Ptr)
sorted_vec libc key order list fiv h =
    let n = pos_part list.links.count in
    if list.sort_key == key
    then (if list.sort_order == order then some fiv else reverse_loop (n / 2) n 0 fiv)
    else elim (order_of libc key order) [
      | none ↦ some fiv
      | some cmp ↦ elim (libc.qsort (cmp_at h cmp) (take n fiv)) [
        | none ↦ none
        | some ps ↦ some (ps ++ drop n fiv)
      ]
    ]

-- The key and the order that the list then has.
unfoldable pub recorded : Libc → ℕ → ℕ → FileInfoList → FileInfoList
recorded libc key order list =
    if list.sort_key == key
    then record list { sort_order = order }
    else elim (order_of libc key order) [
      | none ↦ list
      | some _ ↦ record list { sort_key = key; sort_order = order }
    ]

abbrev pub with_vec : Option (List Ptr) → FileInfoList → Cmd FileInfoList
with_vec none list h = fault
with_vec (some fiv) list h = ok (record list { vec = some fiv }) h

-- SortFileInfoList of a list with the vector that is given.
abbrev pub sort_vec : Libc → FileInfoList → ℕ → ℕ → Option (List Ptr) → Cmd FileInfoList
sort_vec libc list key order none h = ok list h
sort_vec libc list key order (some fiv) h =
    with_vec (sorted_vec libc key order list fiv h) (recorded libc key order list) h

unfoldable pub sort_file_info_list : Libc → FileInfoList → ℕ → ℕ → Cmd FileInfoList
sort_file_info_list libc list key order h = sort_vec libc list key order list.vec h
