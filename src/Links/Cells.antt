-- ===== src/Links/Cells.antt =====
-- Reading and writing one node, and the last node of a list.
use ncftp.Base.{
  ◌≡◌, refl, ap, ◌≢◌, ◌⊎◌, inl, inr, false, Option, none, some, List, [], ◌∷◌, ◌++◌, arith, ◌==◌,
}
use ncftp.Links.{Ptr, null, Cell, ok, write, load, set_prev, set_next, free}

module _ {A : Type 0} where
  pub snoc_cases :
      (xs : List (Ptr × A))
      → (xs ≡ []) ⊎ ((ys : List (Ptr × A)) × (q : Ptr) × (w : A) × (xs ≡ ys ++ (q, w) ∷ []))
  snoc_cases [] = inl refl
  snoc_cases ((p, v) ∷ xs) = elim (snoc_cases xs) [
    | inl e ↦ inr ([], p, v, ap (◌∷◌ (p, v)) e)
    | inr (ys, q, w, e) ↦ inr ((p, v) ∷ ys, q, w, ap (◌∷◌ (p, v)) e)
  ]

  pub load-ok :
      (h : Ptr → Option (Cell A)) (p : Ptr) (c : Cell A)
      → p ≢ null
      → h p ≡ some c
      → load p h ≡ ok c h
  unfolding load
  load-ok h p c n e = ground arith

  pub set_next-ok :
      (h : Ptr → Option (Cell A)) (p q : Ptr) (c : Cell A)
      → p ≢ null
      → h p ≡ some c
      → set_next p q h ≡ ok tt (write h p (some (record c { next = q })))
  unfolding set_next
  set_next-ok h p q c n e = rw (load-ok h p c n e)

  pub set_prev-ok :
      (h : Ptr → Option (Cell A)) (p q : Ptr) (c : Cell A)
      → p ≢ null
      → h p ≡ some c
      → set_prev p q h ≡ ok tt (write h p (some (record c { prev = q })))
  unfolding set_prev
  set_prev-ok h p q c n e = rw (load-ok h p c n e)

  pub free-ok :
      (h : Ptr → Option (Cell A)) (p : Ptr) (c : Cell A)
      → p ≢ null
      → h p ≡ some c
      → free p h ≡ ok tt (write h p none)
  unfolding free
  free-ok h p c n e = rw (load-ok h p c n e)

  pub write_self : (h : Ptr → Option (Cell A)) (p : Ptr) (c : Option (Cell A)) → write h p c p ≡ c
  unfolding write
  write_self h p c = ground arith

  pub write-other :
      (h : Ptr → Option (Cell A)) (p q : Ptr) (c : Option (Cell A))
      → (q == p) ≡ false
      → write h p c q ≡ h q
  unfolding write
  write-other h p q c e = ground arith
