-- ===== src/FileInfo/Concat.antt =====
-- ConcatFileInfoList and LineListToFileInfoList: the nodes that a list grows by.
use mathlib.Core.List.{append_assoc, append-nil}
use ncftp.Base.{
  ℕ, ◌+◌, ◌≡◌, refl, ap, ◌∙◌, ◌≢◌, ◌⊎◌, Bool, true, false, none, List, [], ◌∷◌, ◌++◌, arith,
}
use ncftp.Base.Int.{ℤ, pos, negsuc}
use ncftp.Links.{Ptr, null, Header, Run, ok}
use ncftp.Links.Chain.{has, Chain, IsList, SameOutside, has-append}
use ncftp.FileInfo.{FileInfo, FileInfoList, Infos, Allocator}
use ncftp.LineList.{Line}

-- `malloc` returns NULL or the address of a block that is not in use.
abbrev pub ReturnsFresh : Allocator → Type 0
ReturnsFresh alloc = (n : ℕ) (h : Infos) → alloc.node n h ≢ null → h (alloc.node n h) ≡ none

abbrev pub Refused : Allocator → Type 0
Refused alloc = (n : ℕ) × (h : Infos) × (alloc.node n h ≡ null)

abbrev pub infos : List (Ptr × FileInfo) → List FileInfo
infos [] = []
infos ((_, fi) ∷ xs) = fi ∷ infos xs

module _ {A : Type 0} where
  -- The items made from those of `xs`, the first as the n-th node.
  abbrev pub made : (ℕ → A → FileInfo) → ℕ → List (Ptr × A) → List FileInfo
  made f n [] = []
  made f n ((_, a) ∷ xs) = f n a ∷ made f (n + 1) xs

  -- `dst` has grown from `zs` by what `f` makes of a front part of `xs`: of all of it, with the
  -- result 0, or else of the part before a node that was refused, with -1. No node but those of the
  -- list has changed.
  abbrev pub Grown :
      Allocator
      → (ℕ → A → FileInfo)
      → ℕ
      → FileInfoList
      → Infos
      → List (Ptr × FileInfo)
      → List (Ptr × A)
      → Run FileInfo (ℤ × FileInfoList)
      → Type 0
  Grown alloc f n dst h zs xs run =
      (r : ℤ) × (links : Header) × (g : Infos) × (ys : List (Ptr × FileInfo)) × (front : List
        (Ptr × A))
      × (rest : List (Ptr × A)) × (run ≡ ok (r, record dst { links = links }) g)
      × IsList g links (zs ++ ys)
      × (xs ≡ front ++ rest)
      × (infos ys ≡ made f n front)
      × ((q : Ptr) → has q (zs ++ ys) ≡ false → g q ≡ h q)
      × (((r ≡ pos 0) × (rest ≡ [])) ⊎ ((r ≡ negsuc 0) × Refused alloc))

-- The copy of a string, or NULL where there was no memory for it.
abbrev pub kept : Bool → Line → Line
kept true s = s
kept false s = none

-- The copy of an item, when the memory for its strings is as `room` says: everything but those strings
-- for which there was none.
abbrev pub copy_of : (ℕ → Bool) → FileInfo → FileInfo
copy_of room fi = record fi {
  relname = kept (room 0) fi.relname;
  lname = kept (room 1) fi.lname;
  rname = kept (room 2) fi.rname;
  rlinkto = kept (room 3) fi.rlinkto;
  plug = kept (room 4) fi.plug;
}

module _ {A : Type 0} where
  -- The list after one node more, and then the others.
  pub grow_more :
      (alloc : Allocator) (f : ℕ → A → FileInfo) (n : ℕ) (dst : FileInfoList) (links : Header)
      (h g : Infos) (zs : List (Ptr × FileInfo)) (lp p : Ptr) (a : A) (xs : List (Ptr × A))
      (run : Run FileInfo (ℤ × FileInfoList))
      → SameOutside (zs ++ (lp, f n a) ∷ []) h g
      → Grown alloc f (n + 1) (record dst { links = links }) g (zs ++ (lp, f n a) ∷ []) xs run
      → Grown alloc f n dst h zs ((p, a) ∷ xs) run
  grow_more alloc f n dst links h g zs lp p a xs run same
        (r, links', g', ys, front, rest, e, is, split, items, same', how) =
      let one : List (Ptr × FileInfo) = (lp, f n a) ∷ [] in
      (
        r,
        links',
        g',
        (lp, f n a) ∷ ys,
        (p, a) ∷ front,
        rest,
        e,
        rw (← append_assoc zs one ys) is,
        ap (◌∷◌ (p, a)) split,
        ap (◌∷◌ (f n a)) items,
        λ q o.
            let o' : has q ((zs ++ one) ++ ys) ≡ false = rw (append_assoc zs one ys) o in
            same' q o' ∙ same q (ground (arith, has-append q (zs ++ one) ys)),
        how,
      )

  pub not_grown :
      (alloc : Allocator) (f : ℕ → A → FileInfo) (n : ℕ) (dst : FileInfoList) (h : Infos)
      (zs : List (Ptr × FileInfo)) (xs : List (Ptr × A)) (r : ℤ)
      → IsList h dst.links zs
      → ((r ≡ pos 0) × (xs ≡ [])) ⊎ ((r ≡ negsuc 0) × Refused alloc)
      → Grown alloc f n dst h zs xs (ok (r, dst) h)
  not_grown alloc f n dst h zs xs r is how =
      (r, dst.links, h, [], [], xs, refl, rw (append-nil zs) is, refl, refl, λ q o. refl, how)
