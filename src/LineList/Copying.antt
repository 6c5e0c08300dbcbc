-- ===== src/LineList/Copying.antt =====
-- CopyLineList: all of the lines, or none and no memory kept.
use ncftp.Base.{
  ℕ, ◌≡◌, ◌∙◌, ◌⊎◌, inl, inr, Bool, true, false, none, some, List, [], ◌∷◌, ◌++◌, arith, ◌==◌,
  Bool-cases,
}
use ncftp.Base.Bytes.{Bytes}
use ncftp.Base.Int.{ℤ, pos, negsuc}
use ncftp.Links.{Ptr, null, Header, Run, ok, empty}
use ncftp.Links.Chain.{has, Chain, IsList, SameOutside, has-append}
use ncftp.LineList.{Line, Lines, str_dup, Allocator, ReturnsFresh, add_line}
use ncftp.LineList.Adding.{add_line-append, add_line-failed}

-- The lines of a list that are not NULL pointers.
abbrev pub present : List (Ptr × Line) → List Line
present [] = []
present ((_, none) ∷ xs) = present xs
present ((_, some s) ∷ xs) = some s ∷ present xs

abbrev pub items : List (Ptr × Line) → List Line
items [] = []
items ((_, s) ∷ xs) = s ∷ items xs

-- `h` is `h₀` with the new nodes `zs`, at addresses that were free.
abbrev pub Grown : Lines → Lines → List (Ptr × Line) → Type 0
Grown h₀ h zs = (q : Ptr) → (has q zs ≡ true → h₀ q ≡ none) × (has q zs ≡ false → h q ≡ h₀ q)

-- Some request of the copy was refused.
abbrev pub Refused : Allocator → Type 0
Refused alloc = (n : ℕ) × (h : Lines) × ((alloc.node n h ≡ null) ⊎ (alloc.room n ≡ false))

-- Either a list of new nodes behind `zs` holds the lines that are present in `xs`, or the
-- result is -1 with an empty list, some request was refused, and the heap is `h₀` again.
abbrev pub Copied :
    Allocator → Lines → List (Ptr × Line) → List (Ptr × Line) → Run Line (ℤ × Header) → Type 0
Copied alloc h₀ zs xs run =
    ((dst : Header) × (g : Lines) × (ys : List (Ptr × Line)) × (run ≡ ok (pos 0, dst) g)
      × IsList g dst (zs ++ ys)
      × (items ys ≡ present xs)
      × Grown h₀ g (zs ++ ys))
    ⊎ ((g : Lines) × (run ≡ ok (negsuc 0, empty) g) × ((q : Ptr) → g q ≡ h₀ q) × Refused alloc)

str_dup_refused : (room : Bool) (s : Bytes) → room ≡ false → str_dup room (some s) ≡ none
unfolding str_dup
str_dup_refused room s e = rw e

Grown-append :
    (h₀ h g : Lines) (zs : List (Ptr × Line)) (p : Ptr) (s : Line)
    → Grown h₀ h zs
    → h p ≡ none
    → SameOutside (zs ++ (p, s) ∷ []) h g
    → Grown h₀ g (zs ++ (p, s) ∷ [])
Grown-append h₀ h g zs p s grown unused same q =
    let out = has-append q zs ((p, s) ∷ []) in
    (λ i. ground (arith, out, grown q), λ o. same q o ∙ ground (arith, out, grown q))

module _ (alloc : Allocator) (fresh : ReturnsFresh alloc) (h₀ : Lines) where
  step :
      (n : ℕ) (h : Lines) (dst : Header) (zs : List (Ptr × Line)) (s : Bytes)
      → IsList h dst zs
      → Grown h₀ h zs
      → ((p : Ptr) × (dst' : Header) × (g : Lines) × (add_line
              (alloc.node n h)
              (alloc.room n)
              dst
              (some s)
              h
            ≡ ok (p, dst') g)
          × ((p == null) ≡ false)
          × IsList g dst' (zs ++ (p, some s) ∷ [])
          × Grown h₀ g (zs ++ (p, some s) ∷ []))
        ⊎ ((g : Lines) × (add_line (alloc.node n h) (alloc.room n) dst (some s) h
              ≡ ok (null, dst) g)
            × ((q : Ptr) → g q ≡ h q)
            × Refused alloc)
  step n h dst zs s is grown =
      let lp = alloc.node n h in
      elim (Bool-cases (lp == null)) [
        | inl e ↦
            let none_left : lp ≡ null = ground (arith, e) in
            let (g, run, same) = add_line-failed h dst lp (alloc.room n) (some s) (inl none_left) in
            inr (g, run, same, (n, h, inl none_left))
        | inr e ↦
            let unused : h lp ≡ none = fresh n h (ground (arith, e)) in
            elim (Bool-cases (alloc.room n)) [
              | inl room ↦
                  let (dst', g, run, is', same) =
                    add_line-append h dst zs lp s is (ground (arith, e)) unused in
                  inl (
                    lp,
                    dst',
                    g,
                    rw room run,
                    e,
                    is',
                    Grown-append h₀ h g zs lp (some s) grown unused same,
                  )
              | inr room ↦
                  let (g, run, same) =
                    add_line-failed h dst lp (alloc.room n) (some s)
                      (inr (unused, str_dup_refused (alloc.room n) s room)) in
                  inr (g, run, same, (n, h, inr room))
            ]
      ]
