-- ===== src/FileInfo/Tests.antt =====
-- Two lists of files, and the theorems about file-information lists at them.
use mathlib.Core.List.Pairwise
use mathlib.Core.List.{not-mem-nil, mem-singleton}
use ncftp.Base.{ℕ, ◌≡◌, refl, ◌+◌, true, false, none, some, List, [], ◌∷◌, arith}
use ncftp.Base.Bytes.{Bytes, codes}
use ncftp.Base.Int.{pos}
use ncftp.Links.{Ptr, null, cell, Header, ok, write}
use ncftp.Links.Chain.{IsList, SameOutside}
use ncftp.LineList.{Line, Lines}
use ncftp.FileInfo.{FileInfo, FileInfoList, Infos, init_file_info, init_file_info_list, Allocator}
use ncftp.FileInfo.Order.{Libc, order_of, cmp_at, size_cmp, sort_file_info_list}
use ncftp.FileInfo.Names.{behind_slash, compute_rnames, compute_lnames}
use ncftp.FileInfo.Renaming.{renamed}
use ncftp.FileInfo.Sorting.{
  by_size, ascending, descending, cmp_of, in_order, Sorted, sort_file_info_list-Sorted,
}
use ncftp.FileInfo.Naming.{
  plenty, with_rname, with_lname, compute_rnames-renamed, compute_lnames-renamed,
}

abbrev file : Bytes → ℕ → FileInfo
file name size = record init_file_info { relname = some name; size = pos size }

abbrev big : FileInfo
big = file (codes "pub/big") 900

abbrev small : FileInfo
small = file (codes "small") 7

abbrev extra : FileInfo
extra = file (codes "extra") 50

abbrev heap : Infos
heap =
    write (write (write (λ _. none) 10 (some (cell 0 20 big))) 20 (some (cell 10 0 small))) 30
      (some (cell 0 0 extra))

abbrev nodes : List (Ptr × FileInfo)
nodes = (10, big) ∷ (20, small) ∷ []

abbrev files : FileInfoList
files = record init_file_info_list { links = record { first = 10; last = 20; count = pos 2 } }

abbrev others : FileInfoList
others = record init_file_info_list { links = record { first = 30; last = 30; count = pos 1 } }

nodes-IsList : IsList heap files.links nodes
unfolding write
nodes-IsList = record {
  chain = (omega arith, refl, (omega arith, refl, tt));
  distinct = (refl, (refl, tt));
  first_is = refl;
  last_is = refl;
  count_is = refl;
}

-- Blocks from address 50 up, one for each request, while they are free.
abbrev bump : Allocator
bump = record {
  node = λ n h. elim (h (n + 50)) [ none ↦ n + 50 | some _ ↦ null ];
  room = λ n k. true;
}

abbrev lines : Lines
lines =
    write (write (λ _. none) 60 (some (cell 0 70 (some (codes "a"))))) 70
      (some (cell 60 0 (some (codes "b"))))

abbrev line_nodes : List (Ptr × Line)
line_nodes = (60, some (codes "a")) ∷ (70, some (codes "b")) ∷ []

abbrev line_header : Header
line_header = record { first = 60; last = 70; count = pos 2 }

lines-IsList : IsList lines line_header line_nodes
unfolding write
lines-IsList = record {
  chain = (omega arith, refl, (omega arith, refl, tt));
  distinct = (refl, (refl, tt));
  first_is = refl;
  last_is = refl;
  count_is = refl;
}

-- The nodes in the order of their sizes.
abbrev by_growing : List (Ptr × FileInfo)
by_growing = (20, small) ∷ (10, big) ∷ []

abbrev turned : FileInfoList
turned = record files { vec = some (20 ∷ 10 ∷ null ∷ []) }

-- Every two strings are equal to this locale.
abbrev libc : Libc
libc = record { strcoll = λ s t. pos 0; qsort = λ cmp ps. some ps }

abbrev by_falling : FileInfoList
by_falling = record files { vec = some (10 ∷ 20 ∷ null ∷ []); sort_key = b's'; sort_order = b'a' }

small_behind : (q : Ptr) → q ≡ 20 → in_order (cmp_at heap size_cmp 10 q) ≡ true
unfolding write size_cmp
small_behind q e = rw e refl

by_falling-Sorted : Sorted heap (cmp_of libc by_size ascending) (10 ∷ 20 ∷ [])
unfolding write size_cmp
by_falling-Sorted =
    Pairwise.cons (λ q m. small_behind q ((mem-singleton hlevel).0 m))
      (Pairwise.cons (λ q m. absurd (not-mem-nil m)) Pairwise.nil)

sort_file_info_list-Sorted_example :
    (sort_file_info_list libc by_falling b's' b'd' heap
      ≡ ok (record by_falling { vec = some (20 ∷ 10 ∷ null ∷ []); sort_order = b'd' }) heap)
    × (order_of libc b's' b'd' ≡ some (cmp_of libc by_size descending))
    × Sorted heap (cmp_of libc by_size descending) (20 ∷ 10 ∷ [])
sort_file_info_list-Sorted_example =
    sort_file_info_list-Sorted libc heap by_falling (10 ∷ 20 ∷ []) by_size ascending refl refl refl
      refl by_falling-Sorted

compute_rnames-renamed_example :
    (g : Infos) × (compute_rnames plenty files (some (codes "up/in")) true false heap
      ≡ ok (pos 0) g)
    × IsList g files.links (renamed (with_rname (codes "up/in") true false) nodes)
    × SameOutside nodes heap g
compute_rnames-renamed_example =
    compute_rnames-renamed heap files nodes (some (codes "up/in")) true false nodes-IsList
      ((codes "pub/big", refl), ((codes "small", refl), tt))

compute_lnames-renamed_example :
    (g : Infos) × (compute_lnames plenty files (some (codes "a/src")) none true heap ≡ ok (pos 0) g)
    × IsList g files.links (renamed (with_lname (some (codes "src")) (codes ".") true) nodes)
    × SameOutside nodes heap g
unfolding behind_slash
compute_lnames-renamed_example =
    compute_lnames-renamed heap files nodes (some (codes "a/src")) none true nodes-IsList
      ((codes "pub/big", refl), ((codes "small", refl), tt))
