-- ===== src/Path/Parents.antt =====
-- The second pass of CompressPath over a path that is written out: it takes out one `..` in each round.
use mathlib.Core.List.{append_assoc, append-nil}
use mathlib.Core.Path.{subst}
use ncftp.Base.{
  ℕ, suc, ◌≡◌, refl, sym, ap, ◌∙◌, ◌⊎◌, inl, inr, Bool, true, false, Option, none, some, List, [],
  ◌∷◌, ◌++◌, arith, ◌==◌, Bool-cases, length, take, drop, length-append,
}
use ncftp.Base.Bytes.{Bytes}
use ncftp.Path.{
  is_slash, char_at, Round, done, again, Dots, dots_at, dots_slash, dots_end, no_dots, trailing,
  removed, is_parent, scan_round,
}
use ncftp.Path.Climbing.{is_dotdot, behind_node, drop_one}

-- No slash, no backslash and no NUL.
abbrev pub Clean : Bytes → Type 0
Clean [] = Unit
Clean (c ∷ x) = (is_slash c ≡ false) × ((c == 0) ≡ false) × Clean x

abbrev pub is_nil : Bytes → Bool
is_nil [] = true
is_nil (c ∷ x) = false

abbrev pub is_dot : Bytes → Bool
is_dot [] = false
is_dot (c ∷ []) = c == b'.'
is_dot (c ∷ d ∷ x) = false

-- A name or `..`.
pub record IsNode (x : Bytes) : Type 0 where
  pub clean : Clean x
  pub not_nil : is_nil x ≡ false
  pub not_dot : is_dot x ≡ false

abbrev pub AreNodes : List Bytes → Type 0
AreNodes [] = Unit
AreNodes (x ∷ xs) = IsNode x × AreNodes xs

abbrev pub join : List Bytes → Bytes
join [] = []
join (x ∷ []) = x
join (x ∷ y ∷ xs) = x ++ (b'/' ∷ join (y ∷ xs))

-- A path written out: at the root, or relative; the relative path of no node is a dot.
abbrev pub render : Bool → List Bytes → Bytes
render true xs = b'/' ∷ join xs
render false [] = b'.' ∷ []
render false (x ∷ xs) = join (x ∷ xs)

module _ (slash root : ℕ) where
  read_node :
      (front node x s : Bytes)
      → Clean x
      → scan_round slash root front node (x ++ s) ≡ scan_round slash root front (node ++ x) s
  unfolding scan_round
  read_node front node [] s clean =
      ap (λ z. scan_round slash root front z s) (sym (append-nil node))
  read_node front node (c ∷ x) s clean = rw (clean.0) (
      read_node front (node ++ (c ∷ [])) x s clean.2
      ∙ ap (λ z. scan_round slash root front z s) (append_assoc node (c ∷ []) x))

  read_last : (front x : Bytes) → Clean x → scan_round slash root front [] x ≡ done (front ++ x)
  unfolding scan_round
  read_last front x clean =
      ap (scan_round slash root front []) (sym (append-nil x)) ∙ read_node front [] x [] clean

dots_of :
    (y : Bytes) (s : Bytes)
    → IsNode y
    → is_dotdot y ≡ false
    → (char_at s 0 == b'.') ≡ false
    → dots_at (y ++ s) ≡ no_dots
dots_of [] s n e f = absurd (cc (n.not_nil))
dots_of (a ∷ []) s n e f = ground (arith, f)
dots_of (a ∷ b ∷ []) s n e f = ground (arith, e)
dots_of (a ∷ b ∷ c ∷ y) s n e f = ground (arith, n.clean.2.2.0, n.clean.2.2.1)

is_parent-node : (x : Bytes) → IsNode x → is_parent (x ++ (b'/' ∷ [])) ≡ is_dotdot x
is_parent-node [] n = absurd (cc (n.not_nil))
is_parent-node (a ∷ []) n = ground arith
is_parent-node (a ∷ b ∷ []) n = ground arith
is_parent-node (a ∷ b ∷ c ∷ x) n = ground (arith, n.clean.2.2.0)

-- What is in front of nodes: `join` with no node before the rest.
pub dots_join :
    (y : Bytes) (xs : List Bytes)
    → IsNode y
    → is_dotdot y ≡ false
    → dots_at (join (y ∷ xs)) ≡ no_dots
dots_join y [] n e = ap dots_at (sym (append-nil y)) ∙ dots_of y [] n e refl
dots_join y (x ∷ xs) n e = dots_of y (b'/' ∷ join (x ∷ xs)) n e refl

pub dotdot-eq : (y : Bytes) → is_dotdot y ≡ true → y ≡ b'.' ∷ b'.' ∷ []
dotdot-eq [] e = absurd (cc e)
dotdot-eq (a ∷ []) e = absurd (cc e)
dotdot-eq (a ∷ b ∷ []) e =
    let p : a ≡ b'.' = ground (arith, e) in let q : b ≡ b'.' = ground (arith, e) in rw (p, q) refl
dotdot-eq (a ∷ b ∷ c ∷ y) e = absurd (cc e)

take-all : (w : Bytes) (c : ℕ) → take (length w) (w ++ (c ∷ [])) ≡ w
take-all [] c = refl
take-all (a ∷ w) c = ap (◌∷◌ a) (take-all w c)

trailing-node :
    (slash root : ℕ) (w : Bytes) → is_nil w ≡ false → trailing slash root (w ++ (b'/' ∷ [])) ≡ w
trailing-node slash root [] e = absurd (cc e)
trailing-node slash root (a ∷ []) e = refl
trailing-node slash root (a ∷ b ∷ w) e =
    let n : length (w ++ (b'/' ∷ [])) ≡ suc (length w) =
      omega (arith, length-append w (b'/' ∷ [])) in
    rw n (ap (λ z. a ∷ b ∷ z) (take-all w b'/'))

drop_kept :
    (x y : Bytes) (xs : List Bytes)
    → (is_dotdot x ≡ true) ⊎ (is_dotdot y ≡ false)
    → drop_one (x ∷ y ∷ xs) ≡ behind_node x (drop_one (y ∷ xs))
drop_kept x y xs (inl e) = rw e refl
drop_kept x y xs (inr e') = elim (Bool-cases (is_dotdot x)) [
  | inl e ↦ rw e refl
  | inr e ↦ rw (e, e') refl
]

drop_taken :
    (x y : Bytes) (xs : List Bytes)
    → is_dotdot x ≡ false
    → is_dotdot y ≡ true
    → drop_one (x ∷ y ∷ xs) ≡ some xs
drop_taken x y xs e e' = rw (e, e') refl

module _ (root : ℕ) where
  -- What stands in front, and then the nodes.
  abbrev pub glue : Bytes → List Bytes → Bytes
  glue front [] = trailing b'/' root front
  glue front (x ∷ xs) = front ++ join (x ∷ xs)

  abbrev pub outcome : Bytes → List Bytes → Option (List Bytes) → Round
  outcome front xs none = done (front ++ join xs)
  outcome front xs (some ys) = again (glue front ys)

  join-cons :
      (front x y : Bytes) (xs : List Bytes)
      → (front ++ (x ++ (b'/' ∷ []))) ++ join (y ∷ xs) ≡ front ++ join (x ∷ y ∷ xs)
  join-cons front x y xs =
      append_assoc front (x ++ (b'/' ∷ [])) (join (y ∷ xs))
      ∙ ap (λ z. front ++ z) (append_assoc x (b'/' ∷ []) (join (y ∷ xs)))

  is_nil-append : (a b : Bytes) → is_nil b ≡ false → is_nil (a ++ b) ≡ false
  is_nil-append [] b e = e
  is_nil-append (c ∷ a) b e = refl

  outcome-node :
      (front x y : Bytes) (xs : List Bytes) (o : Option (List Bytes))
      → IsNode x
      → outcome (front ++ (x ++ (b'/' ∷ []))) (y ∷ xs) o
        ≡ outcome front (x ∷ y ∷ xs) (behind_node x o)
  outcome-node front x y xs none n = ap done (join-cons front x y xs)
  outcome-node front x y xs (some []) n = ap again (
      ap (trailing b'/' root) (sym (append_assoc front x (b'/' ∷ [])))
      ∙ trailing-node b'/' root (front ++ x) (is_nil-append front x n.not_nil))
  outcome-node front x y xs (some (z ∷ zs)) n = ap again (join-cons front x z zs)

  removed_node :
      (front x s : Bytes) → IsNode x → removed front (x ++ (b'/' ∷ [])) s ≡ front ++ drop 3 s
  removed_node [] [] s n = absurd (cc (n.not_nil))
  removed_node [] (c ∷ x) s n = rw (n.clean.0) refl
  removed_node (c ∷ front) x s n = refl

  -- Behind a slash, where the node before it is known.
  abbrev pub Behind : Bytes → Bytes → Bytes → Type 0
  Behind front x s =
      (is_parent (x ++ (b'/' ∷ [])) ≡ true
        → scan_round b'/' root front x (b'/' ∷ s)
          ≡ scan_round b'/' root (front ++ (x ++ (b'/' ∷ []))) [] s)
      × (is_parent (x ++ (b'/' ∷ [])) ≡ false
          → (d : Dots) → dots_at s ≡ d
          → scan_round b'/' root front x (b'/' ∷ s) ≡ (elim d as (λ _. Round) [
            | dots_slash ↦ again (removed front (x ++ (b'/' ∷ [])) s)
            | dots_end ↦ again (trailing b'/' root front)
            | no_dots ↦ scan_round b'/' root (front ++ (x ++ (b'/' ∷ []))) [] s
          ]))

  pub behind : (front x s : Bytes) → Behind front x s
  unfolding scan_round
  behind front x s = (λ e. rw e refl, λ e d f. rw (e, f) refl)

  scan-dotdot :
      (front x : Bytes) (xs : List Bytes)
      → IsNode x
      → is_parent (x ++ (b'/' ∷ [])) ≡ false
      → scan_round b'/' root front x (b'/' ∷ join ((b'.' ∷ b'.' ∷ []) ∷ xs)) ≡ again (glue front xs)
  scan-dotdot front x [] n e = (behind front x (b'.' ∷ b'.' ∷ [])).1 e dots_end refl
  scan-dotdot front x (y ∷ xs) n e =
      let s = b'.' ∷ b'.' ∷ b'/' ∷ join (y ∷ xs) in
      (behind front x s).1 e dots_slash refl ∙ ap again (removed_node front x s n)

  pub start_done : (front : Bytes) → scan_round b'/' root front [] [] ≡ done (front ++ [])
  unfolding scan_round
  start_done front = refl

  -- A round over nodes, of which the ones in `front` are read already.
  pub scan_join :
      (front : Bytes) (xs : List Bytes)
      → AreNodes xs
      → scan_round b'/' root front [] (join xs) ≡ outcome front xs (drop_one xs)
  scan_join front [] nodes = start_done front
  scan_join front (x ∷ []) nodes = read_last b'/' root front x nodes.0.clean
  scan_join front (x ∷ y ∷ xs) nodes =
      let s = join (y ∷ xs) in
      let n = nodes.0 in
      let front' = front ++ (x ++ (b'/' ∷ [])) in
      let parent = is_parent-node x n in
      let next =
        scan_join front' (y ∷ xs) nodes.1 ∙ outcome-node front x y xs (drop_one (y ∷ xs)) n in
      read_node b'/' root front [] x (b'/' ∷ s) n.clean ∙ elim (Bool-cases (is_dotdot x)) [
        | inl e ↦
            (behind front x s).0 (parent ∙ e)
            ∙ next
            ∙ ap (outcome front (x ∷ y ∷ xs)) (sym (drop_kept x y xs (inl e)))
        | inr e ↦ elim (Bool-cases (is_dotdot y)) [
          | inl e' ↦
              subst
                (λ z. scan_round b'/' root front x (b'/' ∷ join (z ∷ xs)) ≡ again (glue front xs))
                (sym (dotdot-eq y e')) (scan-dotdot front x xs n (parent ∙ e))
              ∙ ap (outcome front (x ∷ y ∷ xs)) (sym (drop_taken x y xs e e'))
          | inr e' ↦
              (behind front x s).1 (parent ∙ e) no_dots (dots_join y xs (nodes.1.0) e')
              ∙ next
              ∙ ap (outcome front (x ∷ y ∷ xs)) (sym (drop_kept x y xs (inr e')))
        ]
      ]
