-- ===== src/FileInfo/Relinking.antt =====
-- UnvectorizeFileInfoList, which links the nodes in the order of the vector.
use mathlib.Core.List.{append_assoc}
use mathlib.Core.Path.{subst}
use ncftp.Base.{
  ℕ, zero, suc, ◌+◌, ◌-◌, ◌≡◌, refl, sym, ap, ◌∙◌, ◌≢◌, false, Option, none, some, List, [], ◌∷◌,
  ◌++◌, arith, length, get_elem?, length-append, get_elem?-append,
}
use ncftp.Base.Int.{pos, pos_part}
use ncftp.Links.{Ptr, null, Cell, cell, Header, ok, write, set_prev, set_next}
use ncftp.Links.Cells.{set_next-ok, set_prev-ok, write_self, write-other}
use ncftp.Links.Chain.{has, head_or, last_or, Chain, Distinct, IsList, SameOutside}
use ncftp.FileInfo.{FileInfo, FileInfoList, Infos}
use ncftp.FileInfo.Vector.{at, relink_at, relink_loop, unvectorize}
use ncftp.FileInfo.Vectorizing.{vec_of}

-- Each of the nodes stands in the heap, with its item, however it is linked.
abbrev pub Live : Infos → List (Ptr × FileInfo) → Type 0
Live h [] = Unit
Live h ((p, v) ∷ xs) =
    (p ≢ null) × ((c : Cell FileInfo) × (h p ≡ some c) × (c.item ≡ v)) × Live h xs

Live-write :
    (h : Infos) (xs : List (Ptr × FileInfo)) (p : Ptr) (c : Option (Cell FileInfo))
    → Live h xs
    → has p xs ≡ false
    → Live (write h p c) xs
Live-write h [] p c live out = tt
Live-write h ((q, v) ∷ xs) p c live out =
    let (d, at_q, item) = live.1 in
    (
      live.0,
      (d, write-other h p q c (ground arith) ∙ at_q, item),
      Live-write h xs p c live.2 (ground arith),
    )

-- The node at `fiv[i]`, once both of its links are written.
relinked : Infos → Ptr → Cell FileInfo → Ptr → Ptr → Infos
relinked h p c a n = write (write h p (some (record c { prev = a }))) p (some (cell a n c.item))

at_ok :
    (h : Infos) (fiv : List Ptr) (i : ℕ) (p : Ptr) → get_elem? fiv i ≡ some p → at fiv i h ≡ ok p h
unfolding at
at_ok h fiv i p e = rw (e, at)

links_set :
    (h : Infos) (p : Ptr) (c : Cell FileInfo) (a n : Ptr) (fiv : List Ptr) (i : ℕ)
    → p ≢ null
    → h p ≡ some c
    → get_elem? fiv i ≡ some p
    → get_elem? fiv (i - 1) ≡ some a
    → get_elem? fiv (i + 1) ≡ some n
    → relink_at fiv i h ≡ ok tt (relinked h p c a n)
unfolding relinked
links_set h p c a n fiv i ne at_p e e' e'' =
    let g = write h p (some (record c { prev = a })) in
    rw (
      at_ok h fiv i p e,
      at_ok h fiv (i - 1) a e',
      set_prev-ok h p a c ne at_p,
      at_ok g fiv (i + 1) n e'',
      set_next-ok g p n _ ne (write_self h p _),
    )

-- The first node, whose links are written before the loop.
first_set :
    (h : Infos) (p : Ptr) (c : Cell FileInfo) (n : Ptr)
    → p ≢ null
    → h p ≡ some c
    → (set_prev p null h ≡ ok tt (write h p (some (record c { prev = null }))))
      × (set_next p n (write h p (some (record c { prev = null }))) ≡ ok tt (relinked h p c null n))
unfolding relinked
first_set h p c n ne at_p =
    (set_prev-ok h p null c ne at_p, set_next-ok _ p n _ ne (write_self h p _))

vec_of-first : (ys : List (Ptr × FileInfo)) → get_elem? (vec_of ys) 0 ≡ some (head_or null ys)
vec_of-first [] = refl
vec_of-first (y ∷ ys) = refl

vec_of-last :
    (p : Ptr) (v : FileInfo) (ys : List (Ptr × FileInfo))
    → get_elem? (vec_of ((p, v) ∷ ys)) (length ys) ≡ some (last_or p ys)
vec_of-last p v [] = refl
vec_of-last p v ((q, w) ∷ ys) = vec_of-last q w ys

-- The nodes `ys`, linked behind `a` and with a NULL behind them.
abbrev Relinked : Infos → Infos → Ptr → List (Ptr × FileInfo) → Type 0
Relinked h g a ys = Chain g a ys null × SameOutside ys h g

relinked-Live :
    (h : Infos) (p : Ptr) (c : Cell FileInfo) (a n : Ptr) (ys : List (Ptr × FileInfo))
    → Live h ys
    → has p ys ≡ false
    → Live (relinked h p c a n) ys
unfolding relinked
relinked-Live h p c a n ys live out =
    let g = write h p (some (record c { prev = a })) in
    Live-write g ys p (some (cell a n c.item)) (Live-write h ys p _ live out) out

relinked_next :
    (h g : Infos) (p : Ptr) (c : Cell FileInfo) (v : FileInfo) (a : Ptr)
    (ys : List (Ptr × FileInfo))
    → p ≢ null
    → c.item ≡ v
    → has p ys ≡ false
    → Relinked (relinked h p c a (head_or null ys)) g p ys
    → Relinked h g a ((p, v) ∷ ys)
unfolding relinked
relinked_next h g p c v a ys ne item out (chain, same) =
    let h' = write h p (some (record c { prev = a })) in
    let n = head_or null ys in
    (
      (ne, same p out ∙ write_self h' p _ ∙ ap (λ w. some (cell a n w)) item, chain),
      λ q o.
          same q (ground arith)
          ∙ write-other h' p q _ (ground arith)
          ∙ write-other h p q _ (ground arith),
    )

relink_loop_lem :
    (m i : ℕ) (h : Infos) (ps : List Ptr) (a : Ptr) (ys : List (Ptr × FileInfo))
    → i ≡ length ps + 1
    → m ≡ length ys
    → Live h ys
    → Distinct ys
    → (g : Infos) × (relink_loop m i (ps ++ a ∷ vec_of ys) h ≡ ok tt g) × Relinked h g a ys
unfolding relink_loop
relink_loop_lem zero i h ps a [] e e' live d = (h, refl, (tt, λ q o. refl))
relink_loop_lem zero i h ps a (y ∷ ys) e e' live d = absurd (omega (arith, e'))
relink_loop_lem (suc m) i h ps a [] e e' live d = absurd (omega (arith, e'))
relink_loop_lem (suc m) i h ps a ((p, v) ∷ ys) e e' live d =
    let (c, at_p, item) = live.1 in
    let fiv = ps ++ a ∷ p ∷ vec_of ys in
    let n = head_or null ys in
    let set : relink_at fiv i h ≡ ok tt (relinked h p c a n) =
      links_set h p c a n fiv i live.0 at_p (get_elem?-append ps (a ∷ p ∷ vec_of ys) i 1 e)
        (get_elem?-append ps (a ∷ p ∷ vec_of ys) (i - 1) 0 (omega (arith, e)))
        (get_elem?-append ps (a ∷ p ∷ vec_of ys) (i + 1) 2 (omega (arith, e)) ∙ vec_of-first ys) in
    let (g, run, done) =
      relink_loop_lem m (i + 1) (relinked h p c a n) (ps ++ a ∷ []) p ys
        (omega (arith, e, length-append ps (a ∷ []))) (omega (arith, e'))
        (relinked-Live h p c a n ys live.2 d.0) d.1 in
    let run' : relink_loop m (i + 1) fiv (relinked h p c a n) ≡ ok tt g =
      subst (λ z. relink_loop m (i + 1) z (relinked h p c a n) ≡ ok tt g)
        (append_assoc ps (a ∷ []) (p ∷ vec_of ys)) run in
    (g, rw (set, run'), relinked_next h g p c v a ys live.0 item d.0 done)

-- UnvectorizeFileInfoList of a vector that holds the nodes of the list in any order `ys` links them
-- in that order, both ways, frees the vector, and changes no other node.
pub unvectorize_lem :
    (h : Infos) (l : FileInfoList) (xs ys : List (Ptr × FileInfo))
    → IsList h l.links xs
    → l.vec ≡ some (vec_of ys)
    → length ys ≡ length xs
    → Live h ys
    → Distinct ys
    → (links : Header) × (g : Infos) × (unvectorize l h
        ≡ ok (record l { links = links; vec = none }) g)
      × IsList g links ys
      × SameOutside ys h g
unfolding unvectorize
unvectorize_lem h l [] [] is e len live d =
    let none_left : pos_part l.links.count ≡ 0 = ap pos_part is.count_is in
    (
      record l.links { first = null },
      h,
      rw (e, at_ok h (vec_of []) 0 null refl, none_left),
      record {
        chain = tt;
        distinct = tt;
        first_is = refl;
        last_is = is.last_is;
        count_is = is.count_is;
      },
      λ q o. refl,
    )
unvectorize_lem h l (x ∷ xs) [] is e len live d = absurd (omega (arith, len))
unvectorize_lem h l xs ((p, v) ∷ ys) is e len live d =
    let (c, at_p, item) = live.1 in
    let n = head_or null ys in
    let sets = first_set h p c n live.0 at_p in
    let some_left : pos_part l.links.count ≡ suc (length ys) = ap pos_part is.count_is ∙ sym len in
    let (g, run, done) =
      relink_loop_lem (length ys) 1 (relinked h p c null n) [] p ys refl refl
        (relinked-Live h p c null n ys live.2 d.0) d.1 in
    let (chain, same) = relinked_next h g p c v null ys live.0 item d.0 done in
    let h' = write h p (some (record c { prev = null })) in
    (
      record l.links { first = p; last = last_or p ys },
      g,
      rw (
        e,
        at_ok h (vec_of ((p, v) ∷ ys)) 0 p refl,
        some_left,
        at_ok h (vec_of ((p, v) ∷ ys)) (length ys) _ (vec_of-last p v ys),
        sets.0,
        at_ok h' (vec_of ((p, v) ∷ ys)) 1 n (vec_of-first ys),
        sets.1,
        run,
      ),
      record {
        chain = chain;
        distinct = d;
        first_is = refl;
        last_is = refl;
        count_is = is.count_is ∙ ap pos (sym len);
      },
      same,
    )
