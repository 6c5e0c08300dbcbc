-- ===== src/Links/Chain.antt =====
-- What a doubly linked list on the heap stands for: the addresses and the items of its nodes.
use mathlib.Core.Bool.{or_assoc}
use ncftp.Base.{
  ◌≡◌, refl, ◌≢◌, ◌⊎◌, inl, inr, Bool, true, false, ◌||◌, Option, none, some, List, [], ◌∷◌, ◌++◌,
  arith, ◌==◌, length,
}
use ncftp.Base.Int.{pos}
use ncftp.Links.{Ptr, null, Cell, cell, Header, write}

-- The address of the first node, or `after` if there is none; and of the last, or `before`.
module _ {A : Type 0} where
  abbrev pub head_or : Ptr → List (Ptr × A) → Ptr
  head_or after [] = after
  head_or after ((p, _) ∷ xs) = p

  abbrev pub last_or : Ptr → List (Ptr × A) → Ptr
  last_or before [] = before
  last_or before ((p, _) ∷ xs) = last_or p xs

  abbrev pub has : Ptr → List (Ptr × A) → Bool
  has q [] = false
  has q ((p, _) ∷ xs) = (q == p) || has q xs

  -- The nodes of `xs` stand in the heap, linked both ways, between `before` and `after`.
  abbrev pub Chain : (Ptr → Option (Cell A)) → Ptr → List (Ptr × A) → Ptr → Type 0
  Chain h before [] after = Unit
  Chain h before ((p, a) ∷ xs) after =
      (p ≢ null) × (h p ≡ some (cell before (head_or after xs) a)) × Chain h p xs after

  abbrev pub Distinct : List (Ptr × A) → Type 0
  Distinct [] = Unit
  Distinct ((p, _) ∷ xs) = (has p xs ≡ false) × Distinct xs

  -- The header `l` on the heap `h` is a list of the nodes `xs`.
  pub record IsList (h : Ptr → Option (Cell A)) (l : Header) (xs : List (Ptr × A)) : Type 0 where
    pub chain : Chain h null xs null
    pub distinct : Distinct xs
    pub first_is : l.first ≡ head_or null xs
    pub last_is : l.last ≡ last_or null xs
    pub count_is : l.count ≡ pos (length xs)

  -- The two heaps agree outside the nodes of `xs`.
  abbrev pub SameOutside :
      List (Ptr × A) → (Ptr → Option (Cell A)) → (Ptr → Option (Cell A)) → Type 0
  SameOutside xs h g = (q : Ptr) → has q xs ≡ false → g q ≡ h q

  pub has-append : (q : Ptr) (xs ys : List (Ptr × A)) → has q (xs ++ ys) ≡ (has q xs || has q ys)
  has-append q [] ys = refl
  has-append q (x ∷ xs) ys = rw (has-append q xs ys, or_assoc)

  pub head_or-append :
      (a : Ptr) (xs ys : List (Ptr × A)) → head_or a (xs ++ ys) ≡ head_or (head_or a ys) xs
  head_or-append a [] ys = refl
  head_or-append a (x ∷ xs) ys = refl

  pub last_or-append :
      (b : Ptr) (xs ys : List (Ptr × A)) → last_or b (xs ++ ys) ≡ last_or (last_or b xs) ys
  last_or-append b [] ys = refl
  last_or-append b ((p, _) ∷ xs) ys = last_or-append p xs ys

  -- A chain survives any change that spares its own nodes.
  pub Chain-frame :
      (h g : Ptr → Option (Cell A)) (b a : Ptr) (xs : List (Ptr × A))
      → Chain h b xs a
      → ((q : Ptr) → has q xs ≡ true → g q ≡ h q)
      → Chain g b xs a
  Chain-frame h g b a [] c same = tt
  Chain-frame h g b a ((p, _) ∷ xs) c same =
      (c.0, ground (arith, same p), Chain-frame h g p a xs c.2 λ q i. same q (ground arith))

  pub Chain-write :
      (h : Ptr → Option (Cell A)) (b a : Ptr) (xs : List (Ptr × A)) (p : Ptr) (c : Option (Cell A))
      → Chain h b xs a
      → has p xs ≡ false
      → Chain (write h p c) b xs a
  unfolding write
  Chain-write h b a xs p c ch out = Chain-frame h (write h p c) b a xs ch λ q i. ground arith

  pub Chain-append :
      (h : Ptr → Option (Cell A)) (b a : Ptr) (xs ys : List (Ptr × A))
      → Chain h b xs (head_or a ys)
      → Chain h (last_or b xs) ys a
      → Chain h b (xs ++ ys) a
  Chain-append h b a [] ys c d = d
  Chain-append h b a ((p, v) ∷ xs) ys c d =
      (c.0, rw (head_or-append a xs ys) (c.1), Chain-append h p a xs ys c.2 d)

  pub Chain-split :
      (h : Ptr → Option (Cell A)) (b a : Ptr) (xs ys : List (Ptr × A))
      → Chain h b (xs ++ ys) a
      → Chain h b xs (head_or a ys) × Chain h (last_or b xs) ys a
  Chain-split h b a [] ys c = (tt, c)
  Chain-split h b a ((p, v) ∷ xs) ys c =
      let (l, r) = Chain-split h p a xs ys c.2 in ((c.0, rw (← head_or-append a xs ys) (c.1), l), r)

  pub last_or-ne_null :
      (h : Ptr → Option (Cell A)) (b a : Ptr) (xs : List (Ptr × A))
      → Chain h b xs a
      → b ≢ null
      → last_or b xs ≢ null
  last_or-ne_null h b a [] c n = n
  last_or-ne_null h b a ((p, v) ∷ xs) c n = last_or-ne_null h p a xs c.2 c.0

  pub has-last_or :
      (b : Ptr) (xs : List (Ptr × A)) → (last_or b xs ≡ b) ⊎ (has (last_or b xs) xs ≡ true)
  has-last_or b [] = inl refl
  has-last_or b ((p, v) ∷ xs) = inr (ground (arith, has-last_or p xs))

  -- No node of a chain stands at an address that is free.
  pub not-has_of_free :
      (h : Ptr → Option (Cell A)) (b a q : Ptr) (xs : List (Ptr × A))
      → Chain h b xs a
      → h q ≡ none
      → has q xs ≡ false
  not-has_of_free h b a q [] c e = refl
  not-has_of_free h b a q ((p, v) ∷ xs) c e = ground (arith, not-has_of_free h p a q xs c.2)

  pub Distinct-split :
      (xs : List (Ptr × A)) (p : Ptr) (v : A) (ys : List (Ptr × A))
      → Distinct (xs ++ (p, v) ∷ ys)
      → Distinct (xs ++ ys) × (has p xs ≡ false) × (has p ys ≡ false)
  Distinct-split [] p v ys d = (d.1, refl, d.0)
  Distinct-split ((q, w) ∷ xs) p v ys d =
      let (e, l, r) = Distinct-split xs p v ys d.1 in
      let apart = has-append q xs ((p, v) ∷ ys) in
      ((ground (arith, apart, has-append q xs ys), e), ground (arith, apart), r)

  pub Distinct-concat :
      (xs : List (Ptr × A)) (p : Ptr) (v : A)
      → Distinct xs
      → has p xs ≡ false
      → Distinct (xs ++ (p, v) ∷ [])
  Distinct-concat [] p v d out = (refl, tt)
  Distinct-concat ((q, w) ∷ xs) p v d out =
      (ground (arith, has-append q xs ((p, v) ∷ [])), Distinct-concat xs p v d.1 (ground arith))

  -- A null link where the list has none: an empty list, by its header.
  pub head_or-null :
      (h : Ptr → Option (Cell A)) (b a : Ptr) (p : Ptr) (v : A) (xs : List (Ptr × A))
      → Chain h b ((p, v) ∷ xs) a
      → (p == null) ≡ false
  head_or-null h b a p v xs c = ground (arith, c.0)

  pub Distinct-append :
      (xs ys : List (Ptr × A))
      → Distinct (xs ++ ys)
      → Distinct xs × Distinct ys × ((q : Ptr) → has q xs ≡ true → has q ys ≡ false)
  Distinct-append [] ys d = (tt, d, λ q i. cc)
  Distinct-append ((p, v) ∷ xs) ys d =
      let (a, b, c) = Distinct-append xs ys d.1 in
      let out = has-append p xs ys in ((ground (arith, out), a), b, λ q i. ground (arith, out, c q))
