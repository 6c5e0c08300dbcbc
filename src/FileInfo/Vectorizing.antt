-- ===== src/FileInfo/Vectorizing.antt =====
-- VectorizeFileInfoList against the list of nodes.
use mathlib.Core.List.{append_assoc}
use ncftp.Base.{
  ℕ, zero, suc, ◌+◌, ◌<◌, ◌≡◌, refl, ltb, lt→ltb, true, some, List, [], ◌∷◌, ◌++◌, arith, length,
  replicate, length-append, set-append,
}
use ncftp.Links.{Ptr, null, ok}
use ncftp.Links.Cells.{load-ok}
use ncftp.Links.Chain.{head_or, head_or-null, Chain, IsList}
use ncftp.FileInfo.{FileInfo, FileInfoList, Infos}
use ncftp.FileInfo.Vector.{fill_loop, vectorize}

abbrev pub addresses : List (Ptr × FileInfo) → List Ptr
addresses [] = []
addresses ((p, _) ∷ xs) = p ∷ addresses xs

-- A vector of the nodes, with the NULL behind them.
abbrev pub vec_of : List (Ptr × FileInfo) → List Ptr
vec_of xs = addresses xs ++ null ∷ []

fill_loop_lem :
    (h : Infos) (k i : ℕ) (ps : List Ptr) (b : Ptr) (xs : List (Ptr × FileInfo))
    → Chain h b xs null
    → i ≡ length ps
    → length xs < k
    → fill_loop k i (ps ++ null ∷ replicate (length xs) null) (head_or null xs) h
      ≡ ok (ps ++ vec_of xs) h
unfolding fill_loop
fill_loop_lem h zero i ps b xs c e fuel = absurd (omega arith)
fill_loop_lem h (suc k) i ps b [] c e fuel = refl
fill_loop_lem h (suc k) i ps b ((p, v) ∷ xs) c e fuel =
    let nulls : List Ptr = null ∷ replicate (length xs) null in
    let filled = set-append ps (null ∷ nulls) i 0 p (omega (arith, e)) in
    let inside : ltb i (length (ps ++ null ∷ nulls)) ≡ true =
      lt→ltb i _ (omega (arith, e, length-append ps (null ∷ nulls))) in
    let tail =
      fill_loop_lem h k (i + 1) (ps ++ p ∷ []) p xs c.2
        (omega (arith, e, length-append ps (p ∷ []))) (omega arith) in
    rw
      (
        head_or-null h b null p v xs c,
        inside,
        load-ok h p _ c.0 (c.1),
        filled,
        ← append_assoc ps (p ∷ []) nulls,
        ← append_assoc ps (p ∷ []) (vec_of xs),
      )
      tail

replicate_next : (n : ℕ) → replicate (n + 1) null ≡ null ∷ replicate n null
replicate_next n = let e : n + 1 ≡ suc n = omega arith in rw e refl

-- VectorizeFileInfoList, if there is memory, gives the list the vector of the addresses of its
-- nodes, in their order and with a NULL behind them, and changes nothing else.
pub vectorize_lem :
    (h : Infos) (l : FileInfoList) (xs : List (Ptr × FileInfo))
    → IsList h l.links xs
    → vectorize true l h ≡ ok (record l { vec = some (vec_of xs) }) h
unfolding vectorize
vectorize_lem h l xs is = rw (
  is.count_is,
  is.first_is,
  replicate_next (length xs),
  fill_loop_lem h (length xs + 1) 0 [] null xs is.chain refl (omega arith),
)
