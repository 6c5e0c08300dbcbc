-- ===== src/Path/Tests.antt =====
-- CompressPath and PathCat at concrete paths.
use ncftp.Base.{◌<◌, ◌≡◌, refl, none, some, List, [], ◌∷◌, true, false, arith, length}
use ncftp.Base.Bytes.{Bytes, codes}
use ncftp.Path.{path, endless, compress_path, squeeze, skip_slashes, scan_round, remove_parents}
use ncftp.Path.Cat.{path_cat}
use ncftp.Path.Ends.{compress_path-Ends}
use ncftp.Path.Endless.{compress_path_endless}
use ncftp.Path.Meaning.{compress_path-simplify}
use ncftp.Path.Moving.{path_cat-simplify}
use ncftp.Path.Parents.{IsNode}
use ncftp.Path.Squeezing.{Junk, a_slash, dot_slash}

compressed : compress_path false 64 (codes "/a//b/./../c") ≡ path (codes "/a/c")
unfolding compress_path squeeze skip_slashes scan_round remove_parents
compressed = refl

kept : compress_path false 64 (codes "../../a") ≡ path (codes "../../a")
unfolding compress_path squeeze skip_slashes scan_round remove_parents
kept = refl

-- Slashes and a dot at the front of a relative path become the root.
to_root : compress_path false 64 (codes ".//x") ≡ path (codes "/x")
unfolding compress_path squeeze skip_slashes scan_round remove_parents
to_root = refl

abbrev ab : Bytes
ab = codes "ab"

abbrev up : Bytes
up = codes ".."

ab-IsNode : IsNode ab
ab-IsNode = record { clean = (refl, refl, (refl, refl, tt)); not_nil = refl; not_dot = refl }

up-IsNode : IsNode up
up-IsNode = record { clean = (refl, refl, (refl, refl, tt)); not_nil = refl; not_dot = refl }

abbrev climbing : List (Bytes × List Junk)
climbing = (ab, []) ∷ (up, a_slash ∷ []) ∷ (ab, []) ∷ []

compress_path-Ends_example :
    (w : Bytes) × (compress_path false 6 (codes "/long/path") ≡ path w) × (length w < 6)
compress_path-Ends_example = compress_path-Ends 6 (codes "/long/path") (omega arith)

compress_path-simplify_example : compress_path false 64 (codes "/./ab/..//ab/") ≡ path (codes "/ab")
compress_path-simplify_example =
    compress_path-simplify 64 (some (dot_slash ∷ [])) (some []) climbing
      (ab-IsNode, (up-IsNode, (ab-IsNode, tt))) refl (omega arith) (omega arith)

path_cat-simplify_example : path_cat false [] 64 (codes "/ab") (codes "../ab") ≡ path (codes "/ab")
path_cat-simplify_example =
    path_cat-simplify [] 64 true (ab ∷ []) none (up, []) ((ab, []) ∷ []) (ab-IsNode, tt)
      (up-IsNode, (ab-IsNode, tt)) refl refl (omega arith) (omega arith) (omega arith)

compress_path_endless_example : compress_path true 4 (codes "abc..d") ≡ endless
compress_path_endless_example =
    compress_path_endless 4 97 (codes "bc") 100 [] (refl, refl, refl)
      ((refl, refl, refl), ((refl, refl, refl), tt)) (refl, refl, refl) refl (omega arith)
      (omega arith)
