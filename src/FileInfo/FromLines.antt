-- ===== src/FileInfo/FromLines.antt =====
-- LineListToFileInfoList: the nodes that it makes of a list of lines.
use ncftp.Base.{
  ℕ, zero, suc, ◌+◌, ◌<◌, ◌≡◌, refl, inl, inr, true, false, none, List, [], ◌∷◌, arith, ◌==◌,
  Bool-cases, length,
}
use ncftp.Base.Int.{pos, negsuc}
use ncftp.Links.{Ptr, null, Header, ok}
use ncftp.Links.Chain.{head_or, head_or-null, Chain, IsList}
use ncftp.LineList.{Line, Lines}
use ncftp.FileInfo.{
  FileInfo, FileInfoList, Infos, Allocator, init_file_info_list, add_file_info, named, concat_file,
  lines_loop, line_list_to_file_info_list,
}
use ncftp.FileInfo.Adding.{add_file_info-append, add_file_info_refused}
use ncftp.FileInfo.Concat.{ReturnsFresh, Grown, grow_more, not_grown}

module _ (alloc : Allocator) (fresh : ReturnsFresh alloc) (lines : Lines) where
  concat_file_ok :
      (n : ℕ) (h g : Infos) (dst : FileInfoList) (s : Line) (links : Header)
      → add_file_info (alloc.node n h) dst (named (alloc.room n 0) s) h
        ≡ ok (alloc.node n h, record dst { links = links }) g
      → (alloc.node n h == null) ≡ false
      → concat_file alloc n dst s h ≡ ok (pos 0, record dst { links = links }) g
  unfolding concat_file
  concat_file_ok n h g dst s links run e = rw (run, e)

  concat_file_refused :
      (n : ℕ) (h : Infos) (dst : FileInfoList) (s : Line)
      → (alloc.node n h == null) ≡ true
      → concat_file alloc n dst s h ≡ ok (negsuc 0, dst) h
  unfolding concat_file
  concat_file_refused n h dst s e =
      rw (add_file_info_refused h dst (alloc.node n h) (named (alloc.room n 0) s) e)

  lines_loop-Grown :
      (k n : ℕ) (h : Infos) (dst : FileInfoList) (zs : List (Ptr × FileInfo)) (b : Ptr)
      (xs : List (Ptr × Line))
      → IsList h dst.links zs
      → Chain lines b xs null
      → length xs < k
      → Grown alloc
          (λ n s. named (alloc.room n 0) s)
          n
          dst
          h
          zs
          xs
          (lines_loop k alloc n lines dst (head_or null xs) h)
  unfolding lines_loop
  lines_loop-Grown zero n h dst zs b xs is c fuel = absurd (omega arith)
  lines_loop-Grown (suc k) n h dst zs b [] is c fuel =
      not_grown alloc _ n dst h zs [] (pos 0) is (inl (refl, refl))
  lines_loop-Grown (suc k) n h dst zs b ((p, s) ∷ xs) is c fuel =
      rw (head_or-null lines b null p s xs c, c.1)
        (elim (Bool-cases (alloc.node n h == null)) [
          | inl e ↦ rw (concat_file_refused n h dst s e) (
              not_grown alloc _ n dst h zs ((p, s) ∷ xs) (negsuc 0) is
                (inr (refl, (n, h, ground (arith, e)))))
          | inr e ↦
              let lp = alloc.node n h in
              let unused : h lp ≡ none = fresh n h (ground (arith, e)) in
              let (links, g, run, is', same) =
                add_file_info-append h dst zs lp (named (alloc.room n 0) s) is (ground (arith, e))
                  unused in
              rw (concat_file_ok n h g dst s links run e) (
                grow_more alloc _ n dst links h g zs lp p s xs _ same (
                  lines_loop-Grown k (n + 1) g (record dst { links = links }) _ p xs is' c.2
                    (omega arith)))
        ])

-- LineListToFileInfoList makes a list of one node for each line, in their order, with the line as
-- its name, and returns 0; or it returns -1 after a node that the allocator refused, with the nodes
-- of the lines before it. It changes no other node.
pub line_list_to_file_info_list-Grown :
    (alloc : Allocator) (h : Infos) (lines : Lines) (src : Header) (xs : List (Ptr × Line))
    → ReturnsFresh alloc
    → IsList lines src xs
    → Grown alloc
        (λ n s. named (alloc.room n 0) s)
        0
        init_file_info_list
        h
        []
        xs
        (line_list_to_file_info_list alloc lines src h)
unfolding line_list_to_file_info_list
line_list_to_file_info_list-Grown alloc h lines src xs fresh is =
    rw (is.count_is, is.first_is)
      (lines_loop-Grown alloc fresh lines (length xs + 1) 0 h init_file_info_list [] null xs
        (record { chain = tt; distinct = tt; first_is = refl; last_is = refl; count_is = refl })
        is.chain (omega arith))
