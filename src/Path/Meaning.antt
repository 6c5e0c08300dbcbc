-- ===== src/Path/Meaning.antt =====
-- CompressPath against the meaning of a path, and PathCat as a change of directory.
use ncftp.Base.{
  ℕ, ◌+◌, ◌-◌, ◌<◌, ◌≤◌, ◌≡◌, refl, Bool, true, false, not, ◌||◌, Option, none, some, List, [], ◌∷◌,
  ◌++◌, arith, ◌==◌, length, length-append,
}
use ncftp.Base.Bytes.{Bytes}
use ncftp.Path.{is_slash, char_at, compress_path, path}
use ncftp.Path.Ends.{compress_path-unix}
use ncftp.Path.Climbing.{simplify}
use ncftp.Path.Parents.{is_nil, IsNode, AreNodes, join, render}
use ncftp.Path.Simplify.{remove_parents-simplify}
use ncftp.Path.Squeezing.{Junk, ending, names, AreSpelled, is_none, source, at_root, squeeze-source}

AreNodes-names : (xs : List (Bytes × List Junk)) → AreSpelled xs → AreNodes (names xs)
AreNodes-names [] are = tt
AreNodes-names ((x, js) ∷ xs) are = (are.0, AreNodes-names xs are.1)

node_length : (x : Bytes) → is_nil x ≡ false → 0 < length x
node_length [] e = absurd (cc e)
node_length (c ∷ x) e = omega arith

length-join : (xs : List Bytes) → AreNodes xs → length xs ≤ length (join xs)
length-join [] nodes = omega arith
length-join (x ∷ []) nodes = omega (arith, node_length x nodes.0.not_nil)
length-join (x ∷ y ∷ xs) nodes =
    omega (arith, length-append x (b'/' ∷ join (y ∷ xs)), length-join (y ∷ xs) nodes.1)

length-render :
    (rooted : Bool) (xs : List Bytes) → AreNodes xs → length xs ≤ length (render rooted xs)
length-render true xs nodes = omega (arith, length-join xs nodes)
length-render false [] nodes = omega arith
length-render false (x ∷ xs) nodes = length-join (x ∷ xs) nodes

-- The first character of a path.
abbrev FirstChar : Bool → Bytes → Type 0
FirstChar rooted src = (is_slash (char_at src 0) ≡ rooted) × ((char_at src 0 == 0) ≡ false)

first_of_node : (x t : Bytes) → IsNode x → FirstChar false (x ++ t)
first_of_node [] t n = absurd (cc (n.not_nil))
first_of_node (c ∷ x) t n = (n.clean.0, n.clean.1)

first_of_source :
    (front trail : Option (List Junk)) (xs : List (Bytes × List Junk))
    → AreSpelled xs
    → (at_root front || not (is_none xs)) ≡ true
    → FirstChar (at_root front) (source front trail xs)
first_of_source (some js) trail xs are e = (refl, refl)
first_of_source none trail [] are e = absurd (cc e)
first_of_source none trail ((x, js) ∷ []) are e = first_of_node x (ending trail) are.0
first_of_source none trail ((x, js) ∷ y ∷ xs) are e = first_of_node x _ are.0

-- CompressPath, without DOS compatibility and with a buffer for the whole of a path of at least 4
-- bytes, writes the path that is meant. The path does not start with `./` or end in `/.` and has no
-- backslash. However slashes and `.` nodes are repeated behind a slash, it
-- leaves the nodes that are left when each `..` takes back the name before it, and a `..` at the root
-- stays there; a relative path of no node is a dot.
pub compress_path-simplify :
    (dsize : ℕ) (front trail : Option (List Junk)) (xs : List (Bytes × List Junk))
    → AreSpelled xs
    → (at_root front || not (is_none xs)) ≡ true
    → length (source front trail xs) < dsize
    → 4 ≤ dsize
    → compress_path false dsize (source front trail xs)
      ≡ path (render (at_root front) (simplify (at_root front) (names xs)))
compress_path-simplify dsize front trail xs are e fits large =
    let src = source front trail xs in
    let (slash, no_nul) = first_of_source front trail xs are e in
    let nodes = AreNodes-names xs are in
    let rooted = at_root front in
    compress_path-unix dsize src (render rooted (names xs)) _ (ground (arith, large))
      (ground (arith, large, no_nul))
      (squeeze-source (dsize - 1 - 0) (length src + 1) front trail xs are e (omega (arith, fits))
        (omega arith))
      (remove_parents-simplify (length (render rooted (names xs)) + 1) (char_at src 0) rooted
        (names xs) (omega (arith, length-render rooted (names xs) nodes)) nodes slash)
