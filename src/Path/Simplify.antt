-- ===== src/Path/Simplify.antt =====
-- The second pass of CompressPath takes a path to the path that it means.
use mathlib.Core.Path.{subst}
use ncftp.Base.{
  ℕ, zero, suc, ◌<◌, ◌≡◌, refl, sym, ap, ◌∙◌, inl, inr, Bool, true, false, ◌&&◌, Option, none, some,
  List, [], ◌∷◌, arith, Bool-cases, Option-cases, length,
}
use ncftp.Base.Bytes.{Bytes}
use ncftp.Path.{
  is_slash, Round, done, again, dots_slash, dots_end, no_dots, scan_round, next_round,
  remove_parents,
}
use ncftp.Path.Climbing.{
  is_dotdot, drop_one, drop_first, simplify, simplify-irreducible, simplify-drop_first,
  drop_at_root, drop_elsewhere, drop_one-cases, behind_node-inv, some-inj,
}
use ncftp.Path.Parents.{
  AreNodes, join, render, scan_join, behind, start_done, dots_join, dotdot-eq, outcome,
}

-- A round over a whole path, by what it takes out.
abbrev taken : Bool → List Bytes → Option (List Bytes) → Round
taken rooted xs none = done (render rooted xs)
taken rooted xs (some ys) = again (render rooted ys)

and-false : (b : Bool) → (b && false) ≡ false
and-false true = refl
and-false false = refl

module _ (root : ℕ) where
  outcome-relative :
      (x : Bytes) (xs : List Bytes) (o : Option (List Bytes))
      → is_slash root ≡ false
      → outcome root [] (x ∷ xs) o ≡ taken false (x ∷ xs) o
  outcome-relative x xs none e = refl
  outcome-relative x xs (some []) e = rw e refl
  outcome-relative x xs (some (y ∷ ys)) e = refl

  outcome-rooted :
      (xs : List Bytes) (o : Option (List Bytes)) → outcome root (b'/' ∷ []) xs o ≡ taken true xs o
  outcome-rooted xs none = refl
  outcome-rooted xs (some []) = refl
  outcome-rooted xs (some (y ∷ ys)) = refl

  round_dot : scan_round b'/' root [] [] (b'.' ∷ []) ≡ done (b'.' ∷ [])
  unfolding scan_round
  round_dot = refl

  round_relative :
      (xs : List Bytes)
      → AreNodes xs
      → is_slash root ≡ false
      → scan_round b'/' root [] [] (render false xs) ≡ taken false xs (drop_first false xs)
  round_relative [] nodes e = round_dot
  round_relative (x ∷ xs) nodes e =
      scan_join root [] (x ∷ xs) nodes
      ∙ outcome-relative x xs (drop_one (x ∷ xs)) e
      ∙ ap (taken false (x ∷ xs)) (sym (drop_elsewhere false x xs (and-false (is_dotdot x))))

  root_dotdot :
      (xs : List Bytes)
      → is_slash root ≡ true
      → scan_round b'/' root [] [] (b'/' ∷ join ((b'.' ∷ b'.' ∷ []) ∷ xs)) ≡ again (render true xs)
  root_dotdot [] e = (behind root [] [] (b'.' ∷ b'.' ∷ [])).1 refl dots_end refl ∙ rw e refl
  root_dotdot (y ∷ xs) e =
      (behind root [] [] (b'.' ∷ b'.' ∷ b'/' ∷ join (y ∷ xs))).1 refl dots_slash refl

  round_rooted :
      (xs : List Bytes)
      → AreNodes xs
      → is_slash root ≡ true
      → scan_round b'/' root [] [] (render true xs) ≡ taken true xs (drop_first true xs)
  round_rooted [] nodes e = (behind root [] [] []).1 refl no_dots refl ∙ start_done root (b'/' ∷ [])
  round_rooted (x ∷ xs) nodes e = elim (Bool-cases (is_dotdot x)) [
    | inl d ↦
        subst (λ z. scan_round b'/' root [] [] (b'/' ∷ join (z ∷ xs)) ≡ again (render true xs))
          (sym (dotdot-eq x d)) (root_dotdot xs e)
        ∙ ap (taken true (x ∷ xs)) (sym (drop_at_root true x xs (rw d refl)))
    | inr d ↦
        (behind root [] [] (join (x ∷ xs))).1 refl no_dots (dots_join x xs nodes.0 d)
        ∙ scan_join root (b'/' ∷ []) (x ∷ xs) nodes
        ∙ outcome-rooted (x ∷ xs) (drop_one (x ∷ xs))
        ∙ ap (taken true (x ∷ xs)) (sym (drop_elsewhere true x xs (rw d refl)))
  ]

  round_render :
      (rooted : Bool) (xs : List Bytes)
      → AreNodes xs
      → is_slash root ≡ rooted
      → scan_round b'/' root [] [] (render rooted xs) ≡ taken rooted xs (drop_first rooted xs)
  round_render true xs nodes e = round_rooted xs nodes e
  round_render false xs nodes e = round_relative xs nodes e

drop_one-AreNodes : (xs ys : List Bytes) → drop_one xs ≡ some ys → AreNodes xs → AreNodes ys
drop_one-AreNodes [] ys e nodes = absurd (cc e)
drop_one-AreNodes (x ∷ []) ys e nodes = absurd (cc e)
drop_one-AreNodes (x ∷ y ∷ xs) ys e nodes = elim (drop_one-cases x y xs) [
  | inl (d, _) ↦
      let (zs, d', e') = behind_node-inv x (drop_one (y ∷ xs)) ys (sym d ∙ e) in
      subst AreNodes (sym e') (nodes.0, drop_one-AreNodes (y ∷ xs) zs d' nodes.1)
  | inr (d, _, _) ↦ subst AreNodes (some-inj xs ys (sym d ∙ e)) (nodes.1.1)
]

drop_first-AreNodes :
    (rooted : Bool) (xs ys : List Bytes)
    → drop_first rooted xs ≡ some ys
    → AreNodes xs
    → AreNodes ys
drop_first-AreNodes rooted [] ys e nodes = absurd (cc e)
drop_first-AreNodes rooted (x ∷ xs) ys e nodes = elim (Bool-cases (is_dotdot x && rooted)) [
  | inl r ↦ subst AreNodes (some-inj xs ys (sym (drop_at_root rooted x xs r) ∙ e)) nodes.1
  | inr r ↦ drop_one-AreNodes (x ∷ xs) ys (sym (drop_elsewhere rooted x xs r) ∙ e) nodes
]

-- The second pass on a path of nodes.
pub remove_parents-simplify :
    (k root : ℕ) (rooted : Bool) (xs : List Bytes)
    → length xs < k
    → AreNodes xs
    → is_slash root ≡ rooted
    → remove_parents k b'/' root (render rooted xs) ≡ some (render rooted (simplify rooted xs))
unfolding remove_parents
remove_parents-simplify zero root rooted xs h nodes e = absurd (omega arith)
remove_parents-simplify (suc k) root rooted xs h nodes e =
    let more = remove_parents k b'/' root in
    let round = ap (next_round more) (round_render root rooted xs nodes e) in
    elim (Option-cases (drop_first rooted xs)) [
      | inl n ↦
          round
          ∙ ap (λ o. next_round more (taken rooted xs o)) n
          ∙ ap (λ z. some (render rooted z)) (sym (simplify-irreducible rooted xs n))
      | inr (ys, s) ↦
          let (same, less) = simplify-drop_first rooted xs ys s in
          round
          ∙ ap (λ o. next_round more (taken rooted xs o)) s
          ∙ remove_parents-simplify k root rooted ys (omega (arith, less))
              (drop_first-AreNodes rooted xs ys s nodes) e
          ∙ ap (λ z. some (render rooted z)) (sym same)
    ]
