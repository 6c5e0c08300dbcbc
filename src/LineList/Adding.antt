-- ===== src/LineList/Adding.antt =====
-- AddLine, RemoveLine and DisposeLineListContents against the list of lines.
use ncftp.Base.{
  ◌≡◌, refl, ◌≢◌, ◌⊎◌, inl, inr, Bool, true, false, Option, none, some, List, [], ◌∷◌, ◌++◌, arith,
  ◌==◌, Bool-cases,
}
use ncftp.Base.Bytes.{Bytes}
use ncftp.Links.{Ptr, null, Cell, cell, Header, ok, empty, write}
use ncftp.Links.Cells.{free-ok, write_self}
use ncftp.Links.Chain.{has, head_or, IsList, SameOutside, has-append, Chain-write, not-has_of_free}
use ncftp.Links.Linking.{link_last-append}
use ncftp.Links.Unlinking.{unlink_lem}
use ncftp.Links.Disposal.{Without, dispose-Without}
use ncftp.LineList.{Line, Lines, str_dup, add_line, remove_line, dispose_line_list}

IsList-write :
    (h : Lines) (l : Header) (xs : List (Ptr × Line)) (p : Ptr) (c : Option (Cell Line))
    → IsList h l xs
    → has p xs ≡ false
    → IsList (write h p c) l xs
IsList-write h l xs p c is out = record {
  chain = Chain-write h null null xs p c is.chain out;
  distinct = is.distinct;
  first_is = is.first_is;
  last_is = is.last_is;
  count_is = is.count_is;
}

added_outside :
    (h g : Lines) (xs : List (Ptr × Line)) (lp : Ptr) (s : Line) (c : Option (Cell Line))
    → SameOutside (xs ++ (lp, s) ∷ []) (write h lp c) g
    → SameOutside (xs ++ (lp, s) ∷ []) h g
unfolding write
added_outside h g xs lp s c same q o = ground (arith, same q, has-append q xs ((lp, s) ∷ []))

freed_again :
    (h : Lines) (lp : Ptr) (c : Option (Cell Line)) (q : Ptr)
    → h lp ≡ none
    → write (write h lp c) lp none q ≡ h q
unfolding write
freed_again h lp c q e = ground arith

-- When both allocations succeed, AddLine puts a copy of the line in a new node behind the others,
-- returns that node, and changes no node outside the new list.
pub add_line-append :
    (h : Lines) (l : Header) (xs : List (Ptr × Line)) (lp : Ptr) (s : Bytes)
    → IsList h l xs
    → lp ≢ null
    → h lp ≡ none
    → (l' : Header) × (g : Lines) × (add_line lp true l (some s) h ≡ ok (lp, l') g)
      × IsList g l' (xs ++ (lp, some s) ∷ [])
      × SameOutside (xs ++ (lp, some s) ∷ []) h g
unfolding add_line
add_line-append h l xs lp s is n unused =
    let out = not-has_of_free h null null lp xs is.chain unused in
    let h₁ = write h lp (some (cell null null none)) in
    let (l', g, run, is', same) =
      link_last-append h₁ l xs lp (some s) (IsList-write h l xs lp _ is out) n out in
    let ne : (lp == null) ≡ false = ground (arith, n) in
    (l', g, rw (ne, run), is', λ q o. added_outside h g xs lp (some s) _ same q o)

-- When an allocation fails, or the line is NULL, AddLine returns NULL and leaves the list and
-- every node as they were: the node that it had allocated is freed again.
pub add_line-failed :
    (h : Lines) (l : Header) (lp : Ptr) (room : Bool) (buf : Line)
    → (lp ≡ null) ⊎ ((h lp ≡ none) × (str_dup room buf ≡ none))
    → (g : Lines) × (add_line lp room l buf h ≡ ok (null, l) g) × ((q : Ptr) → g q ≡ h q)
unfolding add_line
add_line-failed h l lp room buf (inl e) = (h, rw e, λ q. refl)
add_line-failed h l lp room buf (inr (unused, no_room)) = elim (Bool-cases (lp == null)) [
  | inl e ↦ (h, rw e, λ q. refl)
  | inr e ↦
      let h₁ = write h lp (some (cell null null none)) in
      (
        write h₁ lp none,
        rw (e, no_room, free-ok h₁ lp _ (ground (arith, e)) (write_self h lp _)),
        λ q. freed_again h lp _ q unused,
      )
]

-- RemoveLine takes out the node that it is given, frees it, returns the one behind it, and leaves
-- the other nodes in their order.
pub remove_line_lem :
    (h : Lines) (l : Header) (xs : List (Ptr × Line)) (p : Ptr) (v : Line) (ys : List (Ptr × Line))
    → IsList h l (xs ++ (p, v) ∷ ys)
    → (l' : Header) × (g : Lines) × (remove_line l p h ≡ ok (head_or null ys, l') g)
      × IsList g l' (xs ++ ys)
      × (g p ≡ none)
      × SameOutside (xs ++ (p, v) ∷ ys) h g
unfolding remove_line
remove_line_lem h l xs p v ys is = unlink_lem h l xs p v ys is

-- DisposeLineListContents frees exactly the nodes of the list, each once, and empties it.
pub dispose_line_list_lem :
    (h : Lines) (l : Header) (xs : List (Ptr × Line))
    → IsList h l xs
    → (g : Lines) × (dispose_line_list l h ≡ ok empty g) × Without xs h g
unfolding dispose_line_list
dispose_line_list_lem h l xs is = dispose-Without h l xs is
