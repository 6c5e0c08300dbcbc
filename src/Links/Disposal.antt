-- ===== src/Links/Disposal.antt =====
-- Freeing every node of a list.
use ncftp.Base.{
  ◌+◌, ◌<◌, ℕ, zero, suc, ◌≡◌, refl, Option, none, List, [], ◌∷◌, arith, length, if◌then◌else◌,
}
use ncftp.Links.{Ptr, null, Cell, Header, ok, empty, write, free_loop, dispose}
use ncftp.Links.Cells.{load-ok, free-ok}
use ncftp.Links.Chain.{has, Chain, Distinct, IsList, head_or-null, head_or, Chain-write}

module _ {A : Type 0} where
  -- `g` is `h` less the nodes of `xs`.
  abbrev pub Without : List (Ptr × A) → (Ptr → Option (Cell A)) → (Ptr → Option (Cell A)) → Type 0
  Without xs h g = (q : Ptr) → g q ≡ (if has q xs then none else h q)

  Without-step :
      (h : Ptr → Option (Cell A)) (p : Ptr) (v : A) (xs : List (Ptr × A))
      (g : Ptr → Option (Cell A))
      → Without xs (write h p none) g
      → Without ((p, v) ∷ xs) h g
  unfolding write
  Without-step h p v xs g gone q = ground (arith, gone q)

  free_loop-Without :
      (k : ℕ) (h : Ptr → Option (Cell A)) (b : Ptr) (xs : List (Ptr × A))
      → Chain h b xs null
      → Distinct xs
      → length xs < k
      → (g : Ptr → Option (Cell A)) × (free_loop k (head_or null xs) h ≡ ok tt g) × Without xs h g
  unfolding free_loop
  free_loop-Without zero h b xs c d fuel = absurd (omega arith)
  free_loop-Without (suc k) h b [] c d fuel = (h, refl, λ q. refl)
  free_loop-Without (suc k) h b ((p, v) ∷ xs) c d fuel =
      let (g, run, gone) =
        free_loop-Without k (write h p none) p xs (Chain-write h p null xs p none c.2 d.0) d.1
          (omega arith) in
      (
        g,
        rw (head_or-null h b null p v xs c, load-ok h p _ c.0 (c.1), free-ok h p _ c.0 (c.1)) run,
        λ q. Without-step h p v xs g gone q,
      )

  pub dispose-Without :
      (h : Ptr → Option (Cell A)) (l : Header) (xs : List (Ptr × A))
      → IsList h l xs
      → (g : Ptr → Option (Cell A)) × (dispose l h ≡ ok empty g) × Without xs h g
  unfolding dispose
  dispose-Without h l xs is =
      let (g, run, gone) =
        free_loop-Without (length xs + 1) h null xs is.chain is.distinct (omega arith) in
      (g, rw (is.count_is, is.first_is, run), gone)
