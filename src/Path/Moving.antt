-- ===== src/Path/Moving.antt =====
-- PathCat as a change of directory: what is meant by `cwd` and behind it by `src`.
use mathlib.Core.List.{append_assoc}
use ncftp.Base.{
  ℕ, ◌+◌, ◌-◌, ◌<◌, ◌≤◌, ◌≡◌, refl, sym, ap, ◌∙◌, Bool, true, false, not, ◌||◌, Option, none, some,
  List, [], ◌∷◌, ◌++◌, arith, ◌==◌, length, length-append, take-all,
}
use ncftp.Base.Bytes.{Bytes}
use ncftp.Path.{char_at, path, compress_path}
use ncftp.Path.Cat.{strnpcpy, joined, path_cat}
use ncftp.Path.Climbing.{simplify}
use ncftp.Path.Parents.{AreNodes, join, render}
use ncftp.Path.Squeezing.{Junk, a_slash, spelled, names, AreSpelled, is_none, source, at_root}
use ncftp.Path.Meaning.{compress_path-simplify}

-- The nodes of a directory's path, with one slash behind each.
abbrev bare : List Bytes → List (Bytes × List Junk)
bare [] = []
bare (c ∷ cs) = (c, []) ∷ bare cs

-- The slashes at the front of the joined path: two of them if the directory is the root.
abbrev front_of : Bool → List Bytes → Option (List Junk)
front_of false cs = none
front_of true [] = some (a_slash ∷ [])
front_of true (c ∷ cs) = some []

names-append :
    (cs : List Bytes) (ys : List (Bytes × List Junk)) → names (bare cs ++ ys) ≡ cs ++ names ys
names-append [] ys = refl
names-append (c ∷ cs) ys = ap (◌∷◌ c) (names-append cs ys)

bare-AreSpelled :
    (cs : List Bytes) (ys : List (Bytes × List Junk))
    → AreNodes cs
    → AreSpelled ys
    → AreSpelled (bare cs ++ ys)
bare-AreSpelled [] ys nodes are = are
bare-AreSpelled (c ∷ cs) ys nodes are = (nodes.0, bare-AreSpelled cs ys nodes.1 are)

module _ (trail : Option (List Junk)) (y : Bytes × List Junk) (ys : List (Bytes × List Junk)) where
  join-spelled :
      (c : Bytes) (cs : List Bytes)
      → join (c ∷ cs) ++ (b'/' ∷ spelled trail (y ∷ ys)) ≡ spelled trail (bare (c ∷ cs) ++ (y ∷ ys))
  join-spelled c [] = refl
  join-spelled c (d ∷ cs) =
      append_assoc c (b'/' ∷ join (d ∷ cs)) (b'/' ∷ spelled trail (y ∷ ys))
      ∙ ap (λ z. c ++ (b'/' ∷ z)) (join-spelled d cs)

  render-source :
      (rooted : Bool) (cs : List Bytes)
      → (rooted || not (is_none (bare cs))) ≡ true
      → render rooted cs ++ (b'/' ∷ spelled trail (y ∷ ys))
        ≡ source (front_of rooted cs) trail (bare cs ++ (y ∷ ys))
  render-source false [] e = absurd (cc e)
  render-source true [] e = refl
  render-source false (c ∷ cs) e = join-spelled c cs
  render-source true (c ∷ cs) e = ap (◌∷◌ b'/') (join-spelled c cs)

at_root-front : (rooted : Bool) (cs : List Bytes) → at_root (front_of rooted cs) ≡ rooted
at_root-front false cs = refl
at_root-front true [] = refl
at_root-front true (c ∷ cs) = refl

some_node :
    (rooted : Bool) (cs : List Bytes) (y : Bytes × List Junk) (ys : List (Bytes × List Junk))
    → (at_root (front_of rooted cs) || not (is_none (bare cs ++ (y ∷ ys)))) ≡ true
some_node false [] y ys = refl
some_node false (c ∷ cs) y ys = refl
some_node true [] y ys = refl
some_node true (c ∷ cs) y ys = refl

joined-whole :
    (size : ℕ) (cwd src : Bytes)
    → length cwd + 1 + length src < size
    → joined size b'/' cwd src ≡ cwd ++ (b'/' ∷ src)
joined-whole size cwd src h =
    let all : strnpcpy cwd (size - 1) ≡ cwd = take-all (size - 1 - 1) cwd (omega (arith, h)) in
    rw all
      (ap (λ z. cwd ++ (b'/' ∷ z)) (take-all (size - (length cwd + 1) - 1) src (omega (arith, h))))

first_no_slash :
    (trail : Option (List Junk)) (y : Bytes × List Junk) (ys : List (Bytes × List Junk))
    → AreSpelled (y ∷ ys)
    → (char_at (spelled trail (y ∷ ys)) 0 == b'/') ≡ false
first_no_slash trail ([], js) ys are = absurd (cc (are.0.not_nil))
first_no_slash trail (c ∷ x, js) [] are = ground (arith, are.0.clean.0)
first_no_slash trail (c ∷ x, js) (z ∷ ys) are = ground (arith, are.0.clean.0)

path_cat-relative :
    (old : Bytes) (dsize : ℕ) (cwd src : Bytes)
    → (char_at src 0 == b'/') ≡ false
    → (char_at src 0 == b'~') ≡ false
    → path_cat false old dsize cwd src ≡ compress_path false dsize (joined 512 b'/' cwd src)
unfolding path_cat
path_cat-relative old dsize cwd src e e' = rw (e, e') refl

-- For a directory that is the root or has a node, and a relative path of at least one node that does
-- not start with `~` or `./`, does not end in `/.` and has no backslash, but may repeat slashes and `.`
-- nodes behind a slash, PathCat without DOS compatibility writes the directory
-- that comes of going through the nodes of `src` from there, if `dst` has at least 4 bytes and `dst`
-- and the 512 bytes of its own have room for both, a slash and a NUL.
pub path_cat-simplify :
    (old : Bytes) (dsize : ℕ) (rooted : Bool) (cs : List Bytes) (trail : Option (List Junk))
    (y : Bytes × List Junk) (ys : List (Bytes × List Junk))
    → AreNodes cs
    → AreSpelled (y ∷ ys)
    → (rooted || not (is_none (bare cs))) ≡ true
    → (char_at (spelled trail (y ∷ ys)) 0 == b'~') ≡ false
    → length (render rooted cs) + 1 + length (spelled trail (y ∷ ys)) < dsize
    → length (render rooted cs) + 1 + length (spelled trail (y ∷ ys)) < 512
    → 4 ≤ dsize
    → path_cat false old dsize (render rooted cs) (spelled trail (y ∷ ys))
      ≡ path (render rooted (simplify rooted (cs ++ names (y ∷ ys))))
path_cat-simplify old dsize rooted cs trail y ys nodes are from no_home fits fits' large =
    let cwd = render rooted cs in
    let src = spelled trail (y ∷ ys) in
    let front = front_of rooted cs in
    let whole = render-source trail y ys rooted cs from in
    let len = ap length (sym whole) ∙ length-append cwd (b'/' ∷ src) in
    path_cat-relative old dsize cwd src (first_no_slash trail y ys are) no_home
    ∙ ap (compress_path false dsize) (joined-whole 512 cwd src fits' ∙ whole)
    ∙ compress_path-simplify dsize front trail (bare cs ++ (y ∷ ys))
        (bare-AreSpelled cs (y ∷ ys) nodes are) (some_node rooted cs y ys)
        (omega (arith, len, fits)) large
    ∙ ap (λ ns. path (render (at_root front) (simplify (at_root front) ns)))
        (names-append cs (y ∷ ys))
    ∙ ap (λ r. path (render r (simplify r (cs ++ names (y ∷ ys))))) (at_root-front rooted cs)
