-- ===== src/Path/Climbing.antt =====
-- What a path means: the nodes that are left when each `..` takes back the node before it. Taking out
-- one `..` at a time, the leftmost first, comes to the same.
use mathlib.Core.List.{reverse, reverse_aux, reverse-reverse}
use mathlib.Core.Path.{subst}
use ncftp.Base.{
  ◌<◌, ◌≡◌, refl, sym, ap, ◌∙◌, inl, inr, ◌⊎◌, Bool, true, false, not, ◌&&◌, ◌||◌, Option, none,
  some, List, [], ◌∷◌, arith, ◌==◌, if◌then◌else◌, Bool-cases, length,
}
use ncftp.Base.Bytes.{Bytes}

abbrev pub is_dotdot : Bytes → Bool
is_dotdot [] = false
is_dotdot (a ∷ []) = false
is_dotdot (a ∷ b ∷ []) = a == b'.' && b == b'.'
is_dotdot (a ∷ b ∷ c ∷ x) = false

-- One node more on a stack of nodes. At the root `..` stays at the root; in a relative path a `..`
-- with no name before it is kept.
abbrev pub climb : Bool → List Bytes → Bytes → List Bytes
climb rooted [] x = if is_dotdot x && rooted then [] else x ∷ []
climb rooted (top ∷ st) x =
    if is_dotdot x then (if is_dotdot top then x ∷ top ∷ st else st) else x ∷ top ∷ st

abbrev pub climb_all : Bool → List Bytes → List Bytes → List Bytes
climb_all rooted st [] = st
climb_all rooted st (x ∷ xs) = climb_all rooted (climb rooted st x) xs

abbrev pub simplify : Bool → List Bytes → List Bytes
simplify rooted xs = reverse (climb_all rooted [] xs)

abbrev pub behind_node : Bytes → Option (List Bytes) → Option (List Bytes)
behind_node x none = none
behind_node x (some xs) = some (x ∷ xs)

-- The nodes without the leftmost name that has a `..` behind it, and without that `..`.
abbrev pub drop_one : List Bytes → Option (List Bytes)
drop_one [] = none
drop_one (x ∷ []) = none
drop_one (x ∷ y ∷ xs) =
    let rest = behind_node x (drop_one (y ∷ xs)) in
    if is_dotdot x then rest else if is_dotdot y then some xs else rest

abbrev pub drop_first : Bool → List Bytes → Option (List Bytes)
drop_first rooted [] = none
drop_first rooted (x ∷ xs) = if is_dotdot x && rooted then some xs else drop_one (x ∷ xs)

climb_name :
    (rooted : Bool) (st : List Bytes) (x : Bytes) → is_dotdot x ≡ false → climb rooted st x ≡ x ∷ st
climb_name rooted [] x e = rw e refl
climb_name rooted (top ∷ st) x e = rw e refl

climb_back :
    (rooted : Bool) (st : List Bytes) (x y : Bytes)
    → is_dotdot x ≡ false
    → is_dotdot y ≡ true
    → climb rooted (climb rooted st x) y ≡ st
climb_back rooted st x y e e' = rw (climb_name rooted st x e, e', e) refl

pub some-inj : (xs ys : List Bytes) → some xs ≡ some ys → xs ≡ ys
some-inj xs ys e = cc e

pub behind_node-inv :
    (x : Bytes) (o : Option (List Bytes)) (ys : List Bytes)
    → behind_node x o ≡ some ys
    → (zs : List Bytes) × (o ≡ some zs) × (ys ≡ x ∷ zs)
behind_node-inv x none ys e = absurd (cc e)
behind_node-inv x (some zs) ys e = (zs, refl, sym (some-inj (x ∷ zs) ys e))

behind_node-none : (x : Bytes) (o : Option (List Bytes)) → behind_node x o ≡ none → o ≡ none
behind_node-none x none e = refl
behind_node-none x (some zs) e = absurd (cc e)

-- The two ways of a first node: it stays, or the `..` behind it takes it back.
pub drop_one-cases :
    (x y : Bytes) (xs : List Bytes)
    → ((drop_one (x ∷ y ∷ xs) ≡ behind_node x (drop_one (y ∷ xs)))
        × ((is_dotdot x || not (is_dotdot y)) ≡ true))
      ⊎ ((drop_one (x ∷ y ∷ xs) ≡ some xs) × (is_dotdot x ≡ false) × (is_dotdot y ≡ true))
drop_one-cases x y xs = elim (Bool-cases (is_dotdot x)) [
  | inl e ↦ inl (rw e refl, rw e refl)
  | inr e ↦ elim (Bool-cases (is_dotdot y)) [
    | inl e' ↦ inr (rw (e, e') refl, e, e')
    | inr e' ↦ inl (rw (e, e') refl, rw (e, e') refl)
  ]
]

pub climb_all-drop_one :
    (rooted : Bool) (st xs ys : List Bytes)
    → drop_one xs ≡ some ys
    → (climb_all rooted st xs ≡ climb_all rooted st ys) × (length ys < length xs)
climb_all-drop_one rooted st [] ys e = absurd (cc e)
climb_all-drop_one rooted st (x ∷ []) ys e = absurd (cc e)
climb_all-drop_one rooted st (x ∷ y ∷ xs) ys e = elim (drop_one-cases x y xs) [
  | inl (d, _) ↦
      let (zs, d', e') = behind_node-inv x (drop_one (y ∷ xs)) ys (sym d ∙ e) in
      let (same, less) = climb_all-drop_one rooted (climb rooted st x) (y ∷ xs) zs d' in
      (
        same ∙ ap (climb_all rooted st) (sym e'),
        subst (λ z. length z < length (x ∷ y ∷ xs)) (sym e') (omega (arith, less)),
      )
  | inr (d, x_name, y_dots) ↦
      let e' = some-inj xs ys (sym d ∙ e) in
      (
        ap (λ z. climb_all rooted z xs) (climb_back rooted st x y x_name y_dots)
            ∙ ap (climb_all rooted st) e',
        subst (λ z. length z < length (x ∷ y ∷ xs)) e' (omega arith),
      )
]

climb_next :
    (rooted : Bool) (st : List Bytes) (x y : Bytes)
    → (is_dotdot x || not (is_dotdot y)) ≡ true
    → climb rooted (x ∷ st) y ≡ y ∷ x ∷ st
climb_next rooted st x y e = ground (arith, e)

-- Where no name has a `..` behind it, every node is kept.
irreducible :
    (rooted : Bool) (st : List Bytes) (x : Bytes) (xs : List Bytes)
    → drop_one (x ∷ xs) ≡ none
    → climb rooted st x ≡ x ∷ st
    → climb_all rooted st (x ∷ xs) ≡ reverse_aux (x ∷ xs) st
irreducible rooted st x [] e kept = kept
irreducible rooted st x (y ∷ xs) e kept = elim (drop_one-cases x y xs) [
  | inl (d, apart) ↦
      ap (λ z. climb_all rooted z (y ∷ xs)) kept
      ∙ irreducible rooted (x ∷ st) y xs (behind_node-none x (drop_one (y ∷ xs)) (sym d ∙ e))
          (climb_next rooted st x y apart)
  | inr (d, _, _) ↦ absurd (cc (d, e))
]

gone_at_root : (rooted : Bool) (x : Bytes) → (is_dotdot x && rooted) ≡ true → climb rooted [] x ≡ []
gone_at_root rooted x e = rw e refl

module _ (rooted : Bool) (x : Bytes) (xs : List Bytes) where
  pub drop_at_root : (is_dotdot x && rooted) ≡ true → drop_first rooted (x ∷ xs) ≡ some xs
  drop_at_root e = rw e refl

  pub drop_elsewhere :
      (is_dotdot x && rooted) ≡ false → drop_first rooted (x ∷ xs) ≡ drop_one (x ∷ xs)
  drop_elsewhere e = rw e refl

kept_first :
    (rooted : Bool) (x : Bytes) → (is_dotdot x && rooted) ≡ false → climb rooted [] x ≡ x ∷ []
kept_first rooted x e = rw e refl

-- Nothing is left to take out of a path that is simple.
pub simplify-irreducible :
    (rooted : Bool) (xs : List Bytes) → drop_first rooted xs ≡ none → simplify rooted xs ≡ xs
simplify-irreducible rooted [] e = refl
simplify-irreducible rooted (x ∷ xs) e = elim (Bool-cases (is_dotdot x && rooted)) [
  | inl r ↦ absurd (cc (drop_at_root rooted x xs r, e))
  | inr r ↦
      ap reverse (
        irreducible rooted [] x xs (sym (drop_elsewhere rooted x xs r) ∙ e) (kept_first rooted x r))
      ∙ reverse-reverse (x ∷ xs)
]

-- Taking one `..` out changes nothing of what the path means.
pub simplify-drop_first :
    (rooted : Bool) (xs ys : List Bytes)
    → drop_first rooted xs ≡ some ys
    → (simplify rooted xs ≡ simplify rooted ys) × (length ys < length xs)
simplify-drop_first rooted [] ys e = absurd (cc e)
simplify-drop_first rooted (x ∷ xs) ys e = elim (Bool-cases (is_dotdot x && rooted)) [
  | inl r ↦
      let e' = some-inj xs ys (sym (drop_at_root rooted x xs r) ∙ e) in
      (
        ap (λ z. reverse (climb_all rooted z xs)) (gone_at_root rooted x r)
            ∙ ap (simplify rooted) e',
        subst (λ z. length z < length (x ∷ xs)) e' (omega arith),
      )
  | inr r ↦
      let (same, less) =
        climb_all-drop_one rooted [] (x ∷ xs) ys (sym (drop_elsewhere rooted x xs r) ∙ e) in
      (ap reverse same, less)
]
