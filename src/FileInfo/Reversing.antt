-- ===== src/FileInfo/Reversing.antt =====
-- The loop of SortFileInfoList that turns a vector round: it is the reversal of its first `n` entries.
use mathlib.Core.List.{append_assoc, reverse, reverse-append, reverse-cons}
use ncftp.Base.{
  ℕ, zero, suc, ◌+◌, ◌-◌, ◌/◌, ◌≤◌, ◌≡◌, refl, sym, ap, ◌∙◌, ◌⊎◌, inl, inr, some, List, [], ◌∷◌,
  ◌++◌, arith, length, get_elem?, set, length-append, get_elem?-append, set-append,
}
use ncftp.Links.{Ptr}
use ncftp.FileInfo.Order.{swap, reverse_loop}

swap_ok :
    (fiv : List Ptr) (i j : ℕ) (a b : Ptr)
    → get_elem? fiv i ≡ some a
    → get_elem? fiv j ≡ some b
    → swap fiv i j ≡ some (set (set fiv i b) j a)
unfolding swap
swap_ok fiv i j a b e e' = rw (e, e', swap)

-- `front`, `x`, `mid`, `y`, `back`.
abbrev around : List Ptr → Ptr → List Ptr → Ptr → List Ptr → List Ptr
around front x mid y back = front ++ (x ∷ (mid ++ (y ∷ back)))

swapped :
    (front mid back : List Ptr) (x y : Ptr) (i j : ℕ)
    → i ≡ length front
    → j ≡ length front + suc (length mid)
    → swap (around front x mid y back) i j ≡ some (around front y mid x back)
swapped front mid back x y i j e e' =
    swap_ok (around front x mid y back) i j x y
      (get_elem?-append front (x ∷ (mid ++ (y ∷ back))) i 0 (omega (arith, e)))
      (get_elem?-append front (x ∷ (mid ++ (y ∷ back))) j (suc (length mid)) e'
        ∙ get_elem?-append mid (y ∷ back) (length mid) 0 (omega arith))
    ∙ ap some (
        ap (λ z. set z j x) (set-append front (x ∷ (mid ++ (y ∷ back))) i 0 y (omega (arith, e)))
        ∙ set-append front (y ∷ (mid ++ (y ∷ back))) j (suc (length mid)) x e'
        ∙ ap (λ z. front ++ (y ∷ z)) (set-append mid (y ∷ back) (length mid) 0 x (omega arith)))

ends : (xs : List Ptr) → (xs ≡ []) ⊎ ((mid : List Ptr) × (y : Ptr) × (xs ≡ mid ++ (y ∷ [])))
ends [] = inl refl
ends (y ∷ ys) = elim (ends ys) [
  | inl e ↦ inr ([], y, ap (◌∷◌ y) e)
  | inr (mid, z, e) ↦ inr (y ∷ mid, z, ap (◌∷◌ y) e)
]

reverse_ends :
    (x y : Ptr) (mid : List Ptr) → reverse (x ∷ (mid ++ (y ∷ []))) ≡ y ∷ (reverse mid ++ (x ∷ []))
reverse_ends x y mid =
    reverse-cons x (mid ++ (y ∷ [])) ∙ ap (λ z. z ++ (x ∷ [])) (reverse-append mid (y ∷ []))

reverse_loop_mid :
    (k n i : ℕ) (front mid back : List Ptr)
    → i ≡ length front
    → n ≡ i + i + length mid
    → k + k ≤ length mid
    → length mid ≤ k + k + 1
    → reverse_loop k n i (front ++ (mid ++ back)) ≡ some (front ++ (reverse mid ++ back))
unfolding reverse_loop
reverse_loop_mid zero n i front [] back e e' low high = refl
reverse_loop_mid zero n i front (x ∷ []) back e e' low high = refl
reverse_loop_mid zero n i front (x ∷ y ∷ mid) back e e' low high = absurd (omega arith)
reverse_loop_mid (suc k) n i front [] back e e' low high = absurd (omega arith)
reverse_loop_mid (suc k) n i front (x ∷ xs) back e e' low high = elim (ends xs) [
  | inl s ↦ absurd (omega (arith, ap length s))
  | inr (mid, y, s) ↦
      let len = ap length s ∙ length-append mid (y ∷ []) in
      let swap_ends : swap (front ++ (x ∷ (xs ++ back))) i (n - i - 1)
          ≡ some (around front y mid x back) =
        ap (λ z. swap (front ++ (x ∷ z)) i (n - i - 1))
          (ap (λ z. z ++ back) s ∙ append_assoc mid (y ∷ []) back)
        ∙ swapped front mid back x y i (n - i - 1) e (omega (arith, e, e', len)) in
      let rest =
        reverse_loop_mid k n (i + 1) (front ++ (y ∷ [])) mid (x ∷ back)
          (omega (arith, e, length-append front (y ∷ []))) (omega (arith, e', len))
          (omega (arith, len)) (omega (arith, len)) in
      let turned : reverse (x ∷ xs) ++ back ≡ y ∷ (reverse mid ++ (x ∷ back)) =
        ap (λ z. z ++ back) (ap (λ z. reverse (x ∷ z)) s ∙ reverse_ends x y mid)
        ∙ ap (◌∷◌ y) (append_assoc (reverse mid) (x ∷ []) back) in
      rw (swap_ends, reverse_loop)
        (ap (reverse_loop k n (i + 1)) (sym (append_assoc front (y ∷ []) (mid ++ (x ∷ back))))
          ∙ rest
          ∙ ap some (
              append_assoc front (y ∷ []) (reverse mid ++ (x ∷ back))
              ∙ ap (λ z. front ++ z) (sym turned)))
]

-- `for (i = 0; i < n / 2; i++)` turns the first `n` entries round and leaves the others.
pub reverse_loop_lem :
    (n : ℕ) (ps back : List Ptr)
    → n ≡ length ps
    → reverse_loop (n / 2) n 0 (ps ++ back) ≡ some (reverse ps ++ back)
reverse_loop_lem n ps back e =
    reverse_loop_mid (n / 2) n 0 [] ps back refl (omega (arith, e)) (omega (arith, e))
      (omega (arith, e))
