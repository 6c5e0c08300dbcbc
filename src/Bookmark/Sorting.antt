-- ===== src/Bookmark/Sorting.antt =====
-- SortBookmarks puts the bookmarks in the order of their names, by what qsort promises.
use mathlib.Core.List.{Perm}
use mathlib.Core.List.Perm
use ncftp.Base.{
  ◌<◌, ◌≡◌, refl, sym, ◌∙◌, ◌⊎◌, inl, inr, Bool, true, false, List, [], ◌∷◌, arith, ltb, ◌==◌,
  Bool-cases, length,
}
use ncftp.Base.Bytes.{Bytes}
use ncftp.Base.Letters.{to_lower, istrcmp}
use ncftp.Base.Int.{ℤ, pos, negsuc}
use ncftp.Bookmark.{Bookmark}
use ncftp.Bookmark.Table.{Qsort, bookmark_sort_proc, sort_bookmarks}

abbrev pub is_positive : ℤ → Bool
is_positive (pos n) = ltb 0 n
is_positive (negsuc n) = false

-- One bookmark does not go behind another one.
abbrev pub NotAfter : (Bookmark → Bookmark → ℤ) → Bookmark → Bookmark → Type 0
NotAfter cmp a b = is_positive (cmp a b) ≡ false

abbrev pub AllBehind : (Bookmark → Bookmark → Type 0) → Bookmark → List Bookmark → Type 0
AllBehind r a [] = Unit
AllBehind r a (b ∷ bs) = r a b × AllBehind r a bs

-- Each bookmark stands so to all that follow it.
abbrev pub Ordered : (Bookmark → Bookmark → Type 0) → List Bookmark → Type 0
Ordered r [] = Unit
Ordered r (b ∷ bs) = AllBehind r b bs × Ordered r bs

-- A comparison that qsort may be called with.
pub record IsOrder (cmp : Bookmark → Bookmark → ℤ) : Type 0 where
  pub opposite : (a b : Bookmark) → is_positive (cmp a b) ≡ true → NotAfter cmp b a
  pub transitive : (a b c : Bookmark) → NotAfter cmp a b → NotAfter cmp b c → NotAfter cmp a c

-- What qsort promises of such a comparison.
pub record IsQsort (qsort : Qsort) : Type 0 where
  pub permutes :
      (cmp : Bookmark → Bookmark → ℤ) (bms : List Bookmark) → IsOrder cmp → Perm (qsort cmp bms) bms
  pub sorts :
      (cmp : Bookmark → Bookmark → ℤ) (bms : List Bookmark)
      → IsOrder cmp
      → Ordered (NotAfter cmp) (qsort cmp bms)

-- A string does not go behind another one in a dictionary that knows no capitals.
abbrev pub Below : Bytes → Bytes → Type 0
Below [] t = Unit
Below (c ∷ s) [] = false ≡ true
Below (c ∷ s) (d ∷ t) = (to_lower c < to_lower d) ⊎ ((to_lower c ≡ to_lower d) × Below s t)

abbrev pub ByName : Bookmark → Bookmark → Type 0
ByName a b = Below a.bookmark_name b.bookmark_name

istrcmp-Below : (s t : Bytes) → is_positive (istrcmp s t) ≡ false → Below s t
istrcmp-Below [] t h = tt
istrcmp-Below (c ∷ s) [] h = sym h
istrcmp-Below (c ∷ s) (d ∷ t) h = elim (Bool-cases (to_lower c == to_lower d)) [
  | inl e ↦ inr (ground (arith, e), istrcmp-Below s t (rw e at h))
  | inr e ↦ elim (Bool-cases (ltb (to_lower c) (to_lower d))) [
    | inl f ↦ inl (ground (arith, f))
    | inr f ↦ absurd (let x : true ≡ false = rw (e, f) at h in cc)
  ]
]

Below-istrcmp : (s t : Bytes) → Below s t → is_positive (istrcmp s t) ≡ false
Below-istrcmp [] [] h = refl
Below-istrcmp [] (d ∷ t) h = refl
Below-istrcmp (c ∷ s) [] h = sym h
Below-istrcmp (c ∷ s) (d ∷ t) (inl less) =
    let e : (to_lower c == to_lower d) ≡ false = ground (arith, less) in
    let f : ltb (to_lower c) (to_lower d) ≡ true = ground (arith, less) in rw (e, f) refl
Below-istrcmp (c ∷ s) (d ∷ t) (inr (same, h)) =
    let e : (to_lower c == to_lower d) ≡ true = ground (arith, same) in rw e (Below-istrcmp s t h)

Below-trans : (s t u : Bytes) → Below s t → Below t u → Below s u
Below-trans [] t u h k = tt
Below-trans (c ∷ s) [] u h k = absurd (cc h)
Below-trans (c ∷ s) (d ∷ t) [] h k = k
Below-trans (c ∷ s) (d ∷ t) (e ∷ u) (inl h) (inl k) = inl (omega (arith, h, k))
Below-trans (c ∷ s) (d ∷ t) (e ∷ u) (inl h) (inr k) = inl (omega (arith, h, k.0))
Below-trans (c ∷ s) (d ∷ t) (e ∷ u) (inr h) (inl k) = inl (omega (arith, h.0, k))
Below-trans (c ∷ s) (d ∷ t) (e ∷ u) (inr h) (inr k) = inr (h.0 ∙ k.0, Below-trans s t u h.1 k.1)

istrcmp-opposite :
    (s t : Bytes) → is_positive (istrcmp s t) ≡ true → is_positive (istrcmp t s) ≡ false
istrcmp-opposite [] [] h = refl
istrcmp-opposite [] (d ∷ t) h = sym h
istrcmp-opposite (c ∷ s) [] h = refl
istrcmp-opposite (c ∷ s) (d ∷ t) h = elim (Bool-cases (to_lower c == to_lower d)) [
  | inl e ↦
      let e' : (to_lower d == to_lower c) ≡ true = ground (arith, e) in
      rw e' (istrcmp-opposite s t (rw e at h))
  | inr e ↦
      let e' : (to_lower d == to_lower c) ≡ false = ground (arith, e) in
      elim (Bool-cases (ltb (to_lower c) (to_lower d))) [
        | inl f ↦ absurd (let x : false ≡ true = rw (e, f) at h in cc)
        | inr f ↦
            let f' : ltb (to_lower d) (to_lower c) ≡ true = ground (arith, e, f) in rw (e', f') refl
      ]
]

bookmark_sort_proc-IsOrder : IsOrder bookmark_sort_proc
bookmark_sort_proc-IsOrder = record {
  opposite = λ a b. istrcmp-opposite a.bookmark_name b.bookmark_name;
  transitive = λ a b c h k. Below-istrcmp a.bookmark_name c.bookmark_name (
      Below-trans a.bookmark_name b.bookmark_name c.bookmark_name
        (istrcmp-Below a.bookmark_name b.bookmark_name h)
        (istrcmp-Below b.bookmark_name c.bookmark_name k));
}

AllBehind-ByName :
    (a : Bookmark) (bs : List Bookmark)
    → AllBehind (NotAfter bookmark_sort_proc) a bs
    → AllBehind ByName a bs
AllBehind-ByName a [] h = tt
AllBehind-ByName a (b ∷ bs) h =
    (istrcmp-Below a.bookmark_name b.bookmark_name h.0, AllBehind-ByName a bs h.1)

Ordered-ByName : (bs : List Bookmark) → Ordered (NotAfter bookmark_sort_proc) bs → Ordered ByName bs
Ordered-ByName [] h = tt
Ordered-ByName (b ∷ bs) h = (AllBehind-ByName b bs h.0, Ordered-ByName bs h.1)

few-Ordered : (bms : List Bookmark) → ltb (length bms) 2 ≡ true → Ordered ByName bms
few-Ordered [] h = tt
few-Ordered (b ∷ []) h = (tt, tt)
few-Ordered (b ∷ c ∷ bms) h = absurd (ground (arith, h))

pub sort_bookmarks-Ordered :
    (qsort : Qsort) (bms : List Bookmark)
    → IsQsort qsort
    → Perm (sort_bookmarks qsort bms) bms × Ordered ByName (sort_bookmarks qsort bms)
sort_bookmarks-Ordered qsort bms is = elim (Bool-cases (ltb (length bms) 2)) [
  | inl e ↦ rw e (Perm.refl bms, few-Ordered bms e)
  | inr e ↦ rw e (
    is.permutes bookmark_sort_proc bms bookmark_sort_proc-IsOrder,
    Ordered-ByName (qsort bookmark_sort_proc bms)
        (is.sorts bookmark_sort_proc bms bookmark_sort_proc-IsOrder),
  )
]
