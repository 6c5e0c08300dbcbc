-- ===== src/FileInfo/Sorting.antt =====
-- SortFileInfoList called again in the other direction.
use mathlib.Core.List.{reverse, Pairwise, Pairwise-reverse}
use mathlib.Core.List.Pairwise
use mathlib.Core.Bool.{Bool-set}
use ncftp.Base.{
  ℕ, ◌≡◌, refl, sym, ap, ◌∙◌, Bool, true, false, Option, none, some, List, [], ◌∷◌, ◌++◌, ◌==◌,
  length,
}
use ncftp.Base.Int.{ℤ, pos, negsuc}
use ncftp.Links.{Ptr, null, ok}
use ncftp.FileInfo.{FileInfo, FileInfoList, Infos}
use ncftp.FileInfo.Order.{
  Cmp, Libc, time_cmp, reverse_time_cmp, size_cmp, reverse_size_cmp, name_cmp, reverse_name_cmp,
  order_of, item_at, compare_items, cmp_at, sorted_vec, recorded, sort_vec, with_vec,
  sort_file_info_list,
}
use ncftp.FileInfo.Reversing.{reverse_loop_lem}

-- The keys that a direction goes with, and the directions.
pub data Key : Type 0 where
  by_name by_time by_size : Key

pub data Direction : Type 0 where
  ascending descending : Direction

abbrev pub key_code : Key → ℕ
key_code by_name = b'n'
key_code by_time = b't'
key_code by_size = b's'

abbrev pub code_of : Direction → ℕ
code_of ascending = b'a'
code_of descending = b'd'

abbrev pub other : Direction → Direction
other ascending = descending
other descending = ascending

abbrev pub cmp_of : Libc → Key → Direction → Cmp
cmp_of libc by_name ascending = name_cmp libc
cmp_of libc by_name descending = reverse_name_cmp libc
cmp_of libc by_time ascending = time_cmp
cmp_of libc by_time descending = reverse_time_cmp
cmp_of libc by_size ascending = size_cmp
cmp_of libc by_size descending = reverse_size_cmp

-- The comparison does not put the first behind the second.
abbrev pub in_order : Option ℤ → Bool
in_order none = false
in_order (some (pos n)) = n == 0
in_order (some (negsuc n)) = true

-- Every node stands in front of those that the comparison puts behind it.
abbrev pub Sorted : Infos → Cmp → List Ptr → Type 0
Sorted h cmp ps = Pairwise (λ p q. in_order (cmp_at h cmp p q) ≡ true) ps

order_of_lem :
    (libc : Libc) (key : Key) (dir : Direction)
    → order_of libc (key_code key) (code_of dir) ≡ some (cmp_of libc key dir)
unfolding order_of
order_of_lem libc by_name ascending = refl
order_of_lem libc by_name descending = refl
order_of_lem libc by_time ascending = refl
order_of_lem libc by_time descending = refl
order_of_lem libc by_size ascending = refl
order_of_lem libc by_size descending = refl

cmp_of-other :
    (libc : Libc) (key : Key) (dir : Direction) (a b : FileInfo)
    → cmp_of libc key (other dir) a b ≡ cmp_of libc key dir b a
unfolding time_cmp reverse_time_cmp size_cmp reverse_size_cmp name_cmp reverse_name_cmp
cmp_of-other libc by_name ascending a b = refl
cmp_of-other libc by_name descending a b = refl
cmp_of-other libc by_time ascending a b = refl
cmp_of-other libc by_time descending a b = refl
cmp_of-other libc by_size ascending a b = refl
cmp_of-other libc by_size descending a b = refl

directions_differ : (dir : Direction) → (code_of dir == code_of (other dir)) ≡ false
directions_differ ascending = refl
directions_differ descending = refl

same_key : (key : Key) → (key_code key == key_code key) ≡ true
same_key by_name = refl
same_key by_time = refl
same_key by_size = refl

module _ (libc : Libc) (h : Infos) (l : FileInfoList) (ps : List Ptr) (key order : ℕ) where
  sorted_vec_turned :
      (l.sort_key == key) ≡ true
      → (l.sort_order == order) ≡ false
      → l.links.count ≡ pos (length ps)
      → sorted_vec libc key order l (ps ++ null ∷ []) h ≡ some (reverse ps ++ null ∷ [])
  unfolding sorted_vec
  sorted_vec_turned k d count = rw (k, d, count) (reverse_loop_lem (length ps) ps (null ∷ []) refl)

  recorded_turned :
      (l.sort_key == key) ≡ true → recorded libc key order l ≡ record l { sort_order = order }
  unfolding recorded
  recorded_turned k = rw k

sort_ok :
    (libc : Libc) (h : Infos) (l : FileInfoList) (key order : ℕ) (fiv fiv' : List Ptr)
    → l.vec ≡ some fiv
    → sorted_vec libc key order l fiv h ≡ some fiv'
    → sort_file_info_list libc l key order h
      ≡ ok (record (recorded libc key order l) { vec = some fiv' }) h
unfolding sort_file_info_list
sort_ok libc h l key order fiv fiv' v e =
    ap (λ z. sort_vec libc l key order z h) v ∙ ap (λ z. with_vec z (recorded libc key order l) h) e

cmp_at-other :
    (libc : Libc) (h : Infos) (key : Key) (dir : Direction) (p q : Ptr)
    → cmp_at h (cmp_of libc key dir) p q ≡ cmp_at h (cmp_of libc key (other dir)) q p
cmp_at-other libc h key dir p q = flip (item_at h p) (item_at h q)
  where
    flip :
        (a b : Option FileInfo)
        → compare_items (cmp_of libc key dir) a b ≡ compare_items (cmp_of libc key (other dir)) b a
    flip none none = refl
    flip none (some b) = refl
    flip (some a) none = refl
    flip (some a) (some b) = sym (cmp_of-other libc key dir b a)

reverse-Sorted :
    (libc : Libc) (h : Infos) (ps : List Ptr) (key : Key) (dir : Direction)
    → Sorted h (cmp_of libc key dir) ps
    → Sorted h (cmp_of libc key (other dir)) (reverse ps)
reverse-Sorted libc h ps key dir sorted =
    let R : Ptr → Ptr → Type 0 =
      λ p q. in_order (cmp_at h (cmp_of libc key (other dir)) p q) ≡ true in
    (Pairwise-reverse {R = R} (λ p q. Bool-set _ true) {l = ps}).1 (
      Pairwise.imp {R = λ p q. in_order (cmp_at h (cmp_of libc key dir) p q) ≡ true}
        {S = λ p q. R q p} (λ p q e. ap in_order (sym (cmp_at-other libc h key dir p q)) ∙ e)
        {l = ps} sorted)

-- SortFileInfoList of a vector that is sorted by a key already, in the other direction: it turns the
-- nodes of the vector round, which sorts them in that direction, keeps the NULL behind them, records
-- the direction, and changes no node.
pub sort_file_info_list-Sorted :
    (libc : Libc) (h : Infos) (l : FileInfoList) (ps : List Ptr) (key : Key) (dir : Direction)
    → l.sort_key ≡ key_code key
    → l.sort_order ≡ code_of dir
    → l.vec ≡ some (ps ++ null ∷ [])
    → l.links.count ≡ pos (length ps)
    → Sorted h (cmp_of libc key dir) ps
    → (sort_file_info_list libc l (key_code key) (code_of (other dir)) h
        ≡ ok
            (record l { vec = some (reverse ps ++ null ∷ []); sort_order = code_of (other dir) })
            h)
      × (order_of libc (key_code key) (code_of (other dir)) ≡ some (cmp_of libc key (other dir)))
      × Sorted h (cmp_of libc key (other dir)) (reverse ps)
sort_file_info_list-Sorted libc h l ps key dir k d v count sorted =
    let k' : (l.sort_key == key_code key) ≡ true = ap (λ z. z == key_code key) k ∙ same_key key in
    let d' : (l.sort_order == code_of (other dir)) ≡ false =
      ap (λ z. z == code_of (other dir)) d ∙ directions_differ dir in
    let turned = sorted_vec_turned libc h l ps (key_code key) (code_of (other dir)) k' d' count in
    (
      sort_ok libc h l (key_code key) (code_of (other dir)) _ _ v turned
          ∙ ap (λ z. with_vec (some (reverse ps ++ null ∷ [])) z h)
              (recorded_turned libc h l ps (key_code key) (code_of (other dir)) k'),
      order_of_lem libc key (other dir),
      reverse-Sorted libc h ps key dir sorted,
    )
