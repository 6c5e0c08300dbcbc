-- ===== src/Facts/Nodes.antt =====
-- PathContainsIntermediateDotDotSubDir of libncftp/rglob.c: whether a node of a path climbs.
use ncftp.Base.{
  ◌≡◌, refl, inl, inr, Bool, true, false, ◌&&◌, ◌||◌, List, [], ◌∷◌, arith, ◌==◌, if◌then◌else◌,
  Bool-cases, drop,
}
use ncftp.Base.Bytes.{Bytes}
use ncftp.Path.{is_slash, char_at, ends_node, skip_dots}

-- Two dots or more, up to a slash or the end.
abbrev pub starts_dots : Bytes → Bool
starts_dots s = char_at s 0 == b'.' && (char_at s 1 == b'.' && ends_node (skip_dots (drop 2 s)))

abbrev pub later_dots : Bytes → Bool
later_dots [] = false
later_dots (c ∷ s) = let rest = later_dots s in if is_slash c && starts_dots s then true else rest

-- PathContainsIntermediateDotDotSubDir.
unfoldable pub contains_dot_dot : Bytes → Bool
contains_dot_dot s = if starts_dots s then true else later_dots s

-- The nodes of a path, between slashes and backslashes; the first one, and the others.
abbrev pub first_node : Bytes → Bytes
first_node [] = []
first_node (c ∷ s) = let rest = first_node s in if is_slash c then [] else c ∷ rest

abbrev pub other_nodes : Bytes → List Bytes
other_nodes [] = []
other_nodes (c ∷ s) = let rest = other_nodes s in if is_slash c then first_node s ∷ rest else rest

abbrev pub nodes : Bytes → List Bytes
nodes s = first_node s ∷ other_nodes s

abbrev pub are_dots : Bytes → Bool
are_dots [] = true
are_dots (c ∷ s) = c == b'.' && are_dots s

-- `..`, which Windows also writes with more dots.
abbrev pub climbs : Bytes → Bool
climbs [] = false
climbs (a ∷ []) = false
climbs (a ∷ b ∷ s) = a == b'.' && (b == b'.' && are_dots s)

abbrev pub any_climbs : List Bytes → Bool
any_climbs [] = false
any_climbs (x ∷ xs) = climbs x || any_climbs xs

dots_of_node : (s : Bytes) → ends_node (skip_dots s) ≡ are_dots (first_node s)
dots_of_node [] = refl
dots_of_node (c ∷ s) = elim (Bool-cases (c == b'.')) [
  | inl e ↦
      let no_slash : is_slash c ≡ false = ground (arith, e) in rw (e, no_slash, e) (dots_of_node s)
  | inr e ↦ elim (Bool-cases (is_slash c)) [
    | inl e' ↦ rw (e, e') refl
    | inr e' ↦ rw (e, e', e) refl
  ]
]

starts-climbs : (s : Bytes) → starts_dots s ≡ climbs (first_node s)
starts-climbs [] = refl
starts-climbs (a ∷ []) = ground arith
starts-climbs (a ∷ b ∷ s) = ground (arith, dots_of_node s)

later-climbs : (s : Bytes) → later_dots s ≡ any_climbs (other_nodes s)
later-climbs [] = refl
later-climbs (c ∷ s) = ground (arith, starts-climbs s, later-climbs s)

-- PathContainsIntermediateDotDotSubDir is 1 exactly if some node of the path, between slashes or
-- backslashes, is nothing but dots, two at least.
pub contains_dot_dot-climbs : (s : Bytes) → contains_dot_dot s ≡ any_climbs (nodes s)
unfolding contains_dot_dot
contains_dot_dot-climbs s = ground (arith, starts-climbs s, later-climbs s)
