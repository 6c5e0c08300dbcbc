-- ===== src/Bookmark/Insertion.antt =====
-- Insertion sort, a sort as qsort promises to be.
use mathlib.Core.List.{Perm}
use mathlib.Core.List.Perm
use ncftp.Base.{inl, inr, List, [], ◌∷◌, if◌then◌else◌, Bool-cases}
use ncftp.Base.Int.{ℤ}
use ncftp.Bookmark.{Bookmark}
use ncftp.Bookmark.Sorting.{is_positive, NotAfter, AllBehind, Ordered, IsOrder, IsQsort}

module _ (cmp : Bookmark → Bookmark → ℤ) where
  abbrev insert_in : Bookmark → List Bookmark → List Bookmark
  insert_in a [] = a ∷ []
  insert_in a (b ∷ bs) =
      let rest = insert_in a bs in if is_positive (cmp a b) then b ∷ rest else a ∷ b ∷ bs

  abbrev pub insertion_sort : List Bookmark → List Bookmark
  insertion_sort [] = []
  insertion_sort (b ∷ bs) = insert_in b (insertion_sort bs)

  insert_in-perm : (a : Bookmark) (bs : List Bookmark) → Perm (insert_in a bs) (a ∷ bs)
  insert_in-perm a [] = Perm.refl (a ∷ [])
  insert_in-perm a (b ∷ bs) = elim (Bool-cases (is_positive (cmp a b))) [
    | inl e ↦ rw e (Perm.trans (Perm.cons b (insert_in-perm a bs)) (Perm.swap a b bs))
    | inr e ↦ rw e (Perm.refl (a ∷ b ∷ bs))
  ]

  sort-perm : (bs : List Bookmark) → Perm (insertion_sort bs) bs
  sort-perm [] = Perm.refl []
  sort-perm (b ∷ bs) =
      Perm.trans (insert_in-perm b (insertion_sort bs)) (Perm.cons b (sort-perm bs))

  behind_insert :
      (x a : Bookmark) (bs : List Bookmark)
      → NotAfter cmp x a
      → AllBehind (NotAfter cmp) x bs
      → AllBehind (NotAfter cmp) x (insert_in a bs)
  behind_insert x a [] h k = (h, tt)
  behind_insert x a (b ∷ bs) h k = elim (Bool-cases (is_positive (cmp a b))) [
    | inl e ↦ rw e (k.0, behind_insert x a bs h k.1)
    | inr e ↦ rw e (h, k)
  ]

  behind_both :
      (a b : Bookmark) (bs : List Bookmark)
      → IsOrder cmp
      → NotAfter cmp a b
      → AllBehind (NotAfter cmp) b bs
      → AllBehind (NotAfter cmp) a bs
  behind_both a b [] is h k = tt
  behind_both a b (c ∷ bs) is h k = (is.transitive a b c h k.0, behind_both a b bs is h k.1)

  insert_in-Ordered :
      (a : Bookmark) (bs : List Bookmark)
      → IsOrder cmp
      → Ordered (NotAfter cmp) bs
      → Ordered (NotAfter cmp) (insert_in a bs)
  insert_in-Ordered a [] is h = (tt, tt)
  insert_in-Ordered a (b ∷ bs) is h = elim (Bool-cases (is_positive (cmp a b))) [
    | inl e ↦ rw e (behind_insert b a bs (is.opposite a b e) h.0, insert_in-Ordered a bs is h.1)
    | inr e ↦ rw e ((e, behind_both a b bs is e h.0), h)
  ]

  sort-Ordered : (bs : List Bookmark) → IsOrder cmp → Ordered (NotAfter cmp) (insertion_sort bs)
  sort-Ordered [] is = tt
  sort-Ordered (b ∷ bs) is = insert_in-Ordered b (insertion_sort bs) is (sort-Ordered bs is)

pub insertion_sort-IsQsort : IsQsort insertion_sort
insertion_sort-IsQsort = record { permutes = λ cmp bms is. sort-perm cmp bms; sorts = sort-Ordered }
