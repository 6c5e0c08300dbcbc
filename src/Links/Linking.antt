-- ===== src/Links/Linking.antt =====
-- Linking a node in at the end of a list, taking one out, and freeing them all.
use mathlib.Core.List.{append_assoc}
use mathlib.Core.Path.{subst}
use ncftp.Base.{
  ◌≡◌, refl, sym, ap, ◌∙◌, ◌≢◌, inl, inr, false, Option, some, List, [], ◌∷◌, ◌++◌, arith, ◌==◌,
  length-append,
}
use ncftp.Base.Int.{pos, incr}
use ncftp.Links.{Ptr, null, Cell, cell, Header, ok, write, link_last}
use ncftp.Links.Cells.{snoc_cases, set_next-ok, write_self, write-other}
use ncftp.Links.Chain.{
  head_or, last_or, has, Chain, IsList, SameOutside, has-append, head_or-append, last_or-append,
  Chain-write, Chain-append, Chain-split, Distinct-split, Distinct-concat,
}

module _ {A : Type 0} where
  -- A node put behind the nodes of `xs`.
  abbrev pub Appended : (Ptr → Option (Cell A)) → Header → List (Ptr × A) → Ptr → A → Type 0
  Appended h l xs p a =
      (l' : Header) × (g : Ptr → Option (Cell A)) × (link_last l p a h ≡ ok l' g)
      × IsList g l' (xs ++ (p, a) ∷ [])
      × SameOutside (xs ++ (p, a) ∷ []) h g

  link_last-nil :
      (h : Ptr → Option (Cell A)) (l : Header) (p : Ptr) (a : A)
      → IsList h l []
      → p ≢ null
      → Appended h l [] p a
  unfolding link_last write
  link_last-nil h l p a is n = (
    record { first = p; last = p; count = pos 1 },
    write h p (some (cell null null a)),
    rw is.first_is,
    record {
      chain = (n, ground arith, tt);
      distinct = (refl, tt);
      first_is = refl;
      last_is = refl;
      count_is = refl;
    },
    ground arith,
  )

  first-ne_null :
      (h : Ptr → Option (Cell A)) (ys : List (Ptr × A)) (q : Ptr) (w : A)
      → Chain h null (ys ++ (q, w) ∷ []) null
      → (head_or null (ys ++ (q, w) ∷ []) == null) ≡ false
  first-ne_null h [] q w c = ground (arith, c.0)
  first-ne_null h ((p, v) ∷ ys) q w c = ground (arith, c.0)

  head_or-snoc :
      (a b : Ptr) (ys : List (Ptr × A)) (q : Ptr) (w : A)
      → head_or a (ys ++ (q, w) ∷ []) ≡ head_or b (ys ++ (q, w) ∷ [])
  head_or-snoc a b [] q w = refl
  head_or-snoc a b (y ∷ ys) q w = refl

  same_outside :
      (h : Ptr → Option (Cell A)) (ys : List (Ptr × A)) (q : Ptr) (w : A) (p : Ptr) (a : A)
      (c d : Option (Cell A))
      → SameOutside ((ys ++ (q, w) ∷ []) ++ (p, a) ∷ []) h (write (write h p c) q d)
  unfolding write
  same_outside h ys q w p a c d r o =
      ground (arith, has-append r (ys ++ (q, w) ∷ []) ((p, a) ∷ []), has-append r ys ((q, w) ∷ []))

  link_last-snoc :
      (h : Ptr → Option (Cell A)) (l : Header) (ys : List (Ptr × A)) (q : Ptr) (w : A) (p : Ptr)
      (a : A)
      → IsList h l (ys ++ (q, w) ∷ [])
      → p ≢ null
      → has p (ys ++ (q, w) ∷ []) ≡ false
      → Appended h l (ys ++ (q, w) ∷ []) p a
  unfolding link_last
  link_last-snoc h l ys q w p a is n out =
      let (c, d) = Chain-split h null null ys ((q, w) ∷ []) is.chain in
      let (e, out_q, _) = Distinct-split ys q w [] is.distinct in
      let apart = has-append p ys ((q, w) ∷ []) in
      let out_p : has p ys ≡ false = ground (arith, apart) in
      let ne : (p == q) ≡ false = ground (arith, apart) in
      let ne' : (q == p) ≡ false = ground (arith, ne) in
      let g₁ = write h p (some (cell q null a)) in
      let g = write g₁ q (some (cell (last_or null ys) p w)) in
      let last : l.last ≡ q = is.last_is ∙ last_or-append null ys ((q, w) ∷ []) in
      let at_q : g₁ q ≡ some (cell (last_or null ys) null w) = write-other h p q _ ne' ∙ d.1 in
      let front : Chain g null ys q =
        Chain-write g₁ null q ys q _ (Chain-write h null q ys p _ c out_p) out_q in
      let linked : Chain g null (ys ++ (q, w) ∷ (p, a) ∷ []) null =
        Chain-append g null null ys ((q, w) ∷ (p, a) ∷ []) front
          (d.0, write_self g₁ q _, (n, write-other g₁ q p _ ne ∙ write_self h p _, tt)) in
      (
        record l { last = p; count = incr l.count },
        g,
        rw (is.first_is, first-ne_null h ys q w is.chain, last, set_next-ok g₁ q p _ d.0 at_q),
        record {
          chain = rw (append_assoc ys ((q, w) ∷ []) ((p, a) ∷ [])) linked;
          distinct = Distinct-concat (ys ++ (q, w) ∷ []) p a is.distinct out;
          first_is =
              is.first_is
              ∙ head_or-snoc null p ys q w
              ∙ sym (head_or-append null (ys ++ (q, w) ∷ []) ((p, a) ∷ []));
          last_is = sym (last_or-append null (ys ++ (q, w) ∷ []) ((p, a) ∷ []));
          count_is =
              rw (is.count_is)
                (ap pos (omega (arith, length-append (ys ++ (q, w) ∷ []) ((p, a) ∷ []))));
        },
        λ r o.
            same_outside h ys q w p a (some (cell q null a)) (some (cell (last_or null ys) p w)) r
              o,
      )

  -- A new node goes behind the others, whatever the list.
  pub link_last-append :
      (h : Ptr → Option (Cell A)) (l : Header) (xs : List (Ptr × A)) (p : Ptr) (a : A)
      → IsList h l xs
      → p ≢ null
      → has p xs ≡ false
      → Appended h l xs p a
  link_last-append h l xs p a is n out = elim (snoc_cases xs) [
    | inl e ↦
        subst (λ zs. IsList h l zs → has p zs ≡ false → Appended h l zs p a) (sym e)
          (λ i o. link_last-nil h l p a i n) is out
    | inr (ys, q, w, e) ↦
        subst (λ zs. IsList h l zs → has p zs ≡ false → Appended h l zs p a) (sym e)
          (λ i o. link_last-snoc h l ys q w p a i n o) is out
  ]
