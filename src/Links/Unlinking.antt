-- ===== src/Links/Unlinking.antt =====
-- Taking a node out of a list.
use mathlib.Core.Path.{subst}
use ncftp.Base.{
  ◌≡◌, refl, sym, ap, ◌∙◌, inl, inr, false, Option, none, some, List, [], ◌∷◌, ◌++◌, arith, ◌==◌,
  length, length-append, if◌then◌else◌,
}
use ncftp.Base.Int.{pos, decr}
use ncftp.Links.{
  Ptr, null, Cell, cell, Header, Run, ok, write, set_prev, set_next, when_node, unlink,
}
use ncftp.Links.Cells.{
  snoc_cases, load-ok, set_next-ok, set_prev-ok, free-ok, write_self, write-other,
}
use ncftp.Links.Chain.{
  head_or, last_or, has, Chain, Distinct, IsList, SameOutside, has-append, last_or-append,
  has-last_or, Distinct-append, Chain-frame, Chain-write, Chain-append, Chain-split, Distinct-split,
  head_or-null,
}

module _ {A : Type 0} where
  -- The neighbours of a node that is taken out are linked to each other.
  abbrev Relinked :
      (Ptr → Option (Cell A))
      → Ptr
      → List (Ptr × A)
      → Ptr
      → ((Ptr → Option (Cell A)) → Run A (Unit {0}))
      → Type 0
  Relinked h b xs a act =
      (g : Ptr → Option (Cell A)) × (act h ≡ ok tt g) × Chain g b xs a × SameOutside xs h g

  relink_after :
      (h : Ptr → Option (Cell A)) (p b : Ptr) (ys : List (Ptr × A))
      → Chain h p ys null
      → Distinct ys
      → Relinked h b ys null (when_node (head_or null ys) (set_prev (head_or null ys) b))
  unfolding when_node
  relink_after h p b [] c d = (h, refl, tt, λ r o. refl)
  relink_after h p b ((q, w) ∷ ys) c d = (
    write h q (some (cell b (head_or null ys) w)),
    rw (head_or-null h p null q w ys c, set_prev-ok h q b _ c.0 (c.1)),
    (c.0, write_self h q _, Chain-write h q null ys q _ c.2 d.0),
    λ r o. write-other h q r _ (ground arith),
  )

  relink_before-snoc :
      (h : Ptr → Option (Cell A)) (p n : Ptr) (ys : List (Ptr × A)) (q : Ptr) (w : A)
      → Chain h null (ys ++ (q, w) ∷ []) p
      → Distinct (ys ++ (q, w) ∷ [])
      → Relinked h null (ys ++ (q, w) ∷ []) n (when_node q (set_next q n))
  unfolding when_node
  relink_before-snoc h p n ys q w ch di =
      let (c, d) = Chain-split h null p ys ((q, w) ∷ []) ch in
      let (e, out_q, _) = Distinct-split ys q w [] di in
      let g = write h q (some (cell (last_or null ys) n w)) in
      let ne : (q == null) ≡ false = ground (arith, d.0) in
      (
        g,
        rw (ne, set_next-ok h q n _ d.0 (d.1)),
        Chain-append g null n ys ((q, w) ∷ []) (Chain-write h null q ys q _ c out_q)
            (d.0, write_self h q _, tt),
        λ r o. write-other h q r _ (ground (arith, has-append r ys ((q, w) ∷ []))),
      )

  relink_before :
      (h : Ptr → Option (Cell A)) (p n : Ptr) (xs : List (Ptr × A))
      → Chain h null xs p
      → Distinct xs
      → Relinked h null xs n (when_node (last_or null xs) (set_next (last_or null xs) n))
  unfolding when_node
  relink_before h p n xs c d = elim (snoc_cases xs) [
    | inl e ↦
        subst
          (λ zs. Relinked h null zs n (when_node (last_or null zs) (set_next (last_or null zs) n)))
          (sym e) (h, refl, tt, λ r o. refl)
    | inr (ys, q, w, e) ↦
        subst
          (λ zs.
            Chain h null zs p
            → Distinct zs
            → Relinked h null zs n (when_node (last_or null zs) (set_next (last_or null zs) n)))
          (sym e)
          (λ c' d'.
            rw (last_or-append null ys ((q, w) ∷ [])) (relink_before-snoc h p n ys q w c' d'))
          c d
  ]

  first_of_unlinked :
      (p : Ptr) (v : A) (xs ys : List (Ptr × A))
      → has p xs ≡ false
      → (if head_or null (xs ++ (p, v) ∷ ys) == p
          then head_or null ys
          else head_or null (xs ++ (p, v) ∷ ys))
        ≡ head_or null (xs ++ ys)
  first_of_unlinked p v [] ys out = ground arith
  first_of_unlinked p v ((q, w) ∷ xs) ys out = ground arith

  last_of_unlinked :
      (p : Ptr) (v : A) (xs ys : List (Ptr × A))
      → has p ys ≡ false
      → (if last_or null (xs ++ (p, v) ∷ ys) == p
          then last_or null xs
          else last_or null (xs ++ (p, v) ∷ ys))
        ≡ last_or null (xs ++ ys)
  last_of_unlinked p v xs [] out =
      rw (last_or-append null xs ((p, v) ∷ []), last_or-append null xs []) (ground arith)
  last_of_unlinked p v xs ((q, w) ∷ ys) out =
      rw (last_or-append null xs ((p, v) ∷ (q, w) ∷ ys), last_or-append null xs ((q, w) ∷ ys))
        (ground (arith, has-last_or q ys))

  count_of_unlinked :
      (p : Ptr) (v : A) (xs ys : List (Ptr × A))
      → decr (pos (length (xs ++ (p, v) ∷ ys))) ≡ pos (length (xs ++ ys))
  count_of_unlinked p v [] ys = refl
  count_of_unlinked p v (x ∷ xs) ys =
      ap pos (omega (arith, length-append xs ys, length-append xs ((p, v) ∷ ys)))

  unlinked_outside :
      (h g₁ g₂ : Ptr → Option (Cell A)) (p : Ptr) (v : A) (xs ys : List (Ptr × A))
      → SameOutside ys h g₁
      → SameOutside xs g₁ g₂
      → SameOutside (xs ++ (p, v) ∷ ys) h (write g₂ p none)
  unfolding write
  unlinked_outside h g₁ g₂ p v xs ys s₁ s₂ r o =
      ground (arith, has-append r xs ((p, v) ∷ ys), s₁ r, s₂ r)

  -- The node `p` taken out from between `xs` and `ys`, and freed.
  abbrev pub Unlinked :
      (Ptr → Option (Cell A)) → Header → List (Ptr × A) → Ptr → A → List (Ptr × A) → Type 0
  Unlinked h l xs p v ys =
      (l' : Header) × (g : Ptr → Option (Cell A)) × (unlink l p h ≡ ok (head_or null ys, l') g)
      × IsList g l' (xs ++ ys)
      × (g p ≡ none)
      × SameOutside (xs ++ (p, v) ∷ ys) h g

  pub unlink_lem :
      (h : Ptr → Option (Cell A)) (l : Header) (xs : List (Ptr × A)) (p : Ptr) (v : A)
      (ys : List (Ptr × A))
      → IsList h l (xs ++ (p, v) ∷ ys)
      → Unlinked h l xs p v ys
  unfolding unlink
  unlink_lem h l xs p v ys is =
      let (c, d) = Chain-split h null null xs ((p, v) ∷ ys) is.chain in
      let (e, out_x, out_y) = Distinct-split xs p v ys is.distinct in
      let (ex, ey, apart) = Distinct-append xs ys e in
      let (g₁, run₁, chain_y, same₁) = relink_after h p (last_or null xs) ys d.2 ey in
      let chain_x = Chain-frame h g₁ null p xs c (λ q i. same₁ q (apart q i)) in
      let (g₂, run₂, chain_x', same₂) = relink_before g₁ p (head_or null ys) xs chain_x ex in
      let chain_y' =
        Chain-frame g₁ g₂ (last_or null xs) null ys chain_y
          (λ q i. same₂ q (ground (arith, apart q))) in
      let at_p : g₂ p ≡ some (cell (last_or null xs) (head_or null ys) v) =
        same₂ p out_x ∙ same₁ p out_y ∙ d.1 in
      let g = write g₂ p none in
      (
        record {
          first = if l.first == p then head_or null ys else l.first;
          last = if l.last == p then last_or null xs else l.last;
          count = decr l.count;
        },
        g,
        rw (load-ok h p _ d.0 (d.1), run₁, run₂, free-ok g₂ p _ d.0 at_p),
        record {
          chain =
              Chain-append g null null xs ys
                (Chain-write g₂ null (head_or null ys) xs p none chain_x' out_x)
                (Chain-write g₂ (last_or null xs) null ys p none chain_y' out_y);
          distinct = e;
          first_is = rw is.first_is (first_of_unlinked p v xs ys out_x);
          last_is = rw is.last_is (last_of_unlinked p v xs ys out_y);
          count_is = rw is.count_is (count_of_unlinked p v xs ys);
        },
        write_self g₂ p none,
        λ r o. unlinked_outside h g₁ g₂ p v xs ys same₁ same₂ r o,
      )
