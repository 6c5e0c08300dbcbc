-- ===== src/FileInfo/Renaming.antt =====
-- The loop that ComputeRNames and ComputeLNames share: every node of the list gets a new item.
use ncftp.Base.{ℕ, zero, suc, ◌+◌, ◌<◌, ◌≡◌, refl, sym, ap, ◌∙◌, some, List, [], ◌∷◌, arith, length}
use ncftp.Base.Bytes.{Bytes}
use ncftp.Base.Int.{pos, pos_part}
use ncftp.Links.{Ptr, null, cell, ok, write}
use ncftp.Links.Cells.{load-ok, write_self, write-other}
use ncftp.Links.Chain.{
  has, head_or, head_or-null, last_or, Chain, Chain-write, Distinct, IsList, SameOutside,
}
use ncftp.FileInfo.{FileInfo, FileInfoList, Infos}
use ncftp.FileInfo.Names.{Named, set_to, name_loop}

-- The same nodes with other items.
abbrev pub renamed : (FileInfo → FileInfo) → List (Ptr × FileInfo) → List (Ptr × FileInfo)
renamed f [] = []
renamed f ((p, v) ∷ xs) = (p, f v) ∷ renamed f xs

abbrev pub HaveNames : List (Ptr × FileInfo) → Type 0
HaveNames [] = Unit
HaveNames ((_, v) ∷ xs) = ((s : Bytes) × (v.relname ≡ some s)) × HaveNames xs

module _ (f : FileInfo → FileInfo) where
  head_or-renamed : (a : Ptr) (xs : List (Ptr × FileInfo)) → head_or a (renamed f xs) ≡ head_or a xs
  head_or-renamed a [] = refl
  head_or-renamed a (x ∷ xs) = refl

  last_or-renamed : (a : Ptr) (xs : List (Ptr × FileInfo)) → last_or a (renamed f xs) ≡ last_or a xs
  last_or-renamed a [] = refl
  last_or-renamed a ((p, _) ∷ xs) = last_or-renamed p xs

  length-renamed : (xs : List (Ptr × FileInfo)) → length (renamed f xs) ≡ length xs
  length-renamed [] = refl
  length-renamed (x ∷ xs) = ap suc (length-renamed xs)

  has-renamed : (q : Ptr) (xs : List (Ptr × FileInfo)) → has q (renamed f xs) ≡ has q xs
  has-renamed q [] = refl
  has-renamed q (x ∷ xs) = rw (has-renamed q xs)

  Distinct-renamed : (xs : List (Ptr × FileInfo)) → Distinct xs → Distinct (renamed f xs)
  Distinct-renamed [] d = tt
  Distinct-renamed ((p, _) ∷ xs) d = (has-renamed p xs ∙ d.0, Distinct-renamed xs d.1)

  module _ (step : ℕ → FileInfo → Named)
      (works : (n : ℕ) (v : FileInfo) (s : Bytes)
        → v.relname ≡ some s
        → step n v ≡ set_to (f v)) where
    name_loop_lem :
        (k n : ℕ) (h : Infos) (b : Ptr) (xs : List (Ptr × FileInfo))
        → Chain h b xs null
        → Distinct xs
        → HaveNames xs
        → length xs < k
        → (g : Infos) × (name_loop k step n (head_or null xs) h ≡ ok (pos 0) g)
          × Chain g b (renamed f xs) null
          × SameOutside xs h g
    unfolding name_loop
    name_loop_lem zero n h b xs c d names fuel = absurd (omega arith)
    name_loop_lem (suc k) n h b [] c d names fuel = (h, refl, tt, λ q o. refl)
    name_loop_lem (suc k) n h b ((p, v) ∷ xs) c d names fuel =
        let (s, named) = names.0 in
        let h' = write h p (some (cell b (head_or null xs) (f v))) in
        let (g, run, chain, same) =
          name_loop_lem k (n + 1) h' p xs (Chain-write h p null xs p _ c.2 d.0) d.1 names.1
            (omega arith) in
        (
          g,
          rw (head_or-null h b null p v xs c, load-ok h p _ c.0 (c.1), works n v s named) run,
          (
            c.0,
            same p d.0
                ∙ write_self h p _
                ∙ ap (λ z. some (cell b z (f v))) (sym (head_or-renamed null xs)),
            chain,
          ),
          λ q o. same q (ground arith) ∙ write-other h p q _ (ground arith),
        )

    pub loop_on_list :
        (h : Infos) (l : FileInfoList) (xs : List (Ptr × FileInfo))
        → IsList h l.links xs
        → HaveNames xs
        → (g : Infos) × (name_loop (pos_part l.links.count + 1) step 0 l.links.first h
            ≡ ok (pos 0) g)
          × IsList g l.links (renamed f xs)
          × SameOutside xs h g
    loop_on_list h l xs is names =
        let (g, run, chain, same) =
          name_loop_lem (length xs + 1) 0 h null xs is.chain is.distinct names (omega arith) in
        (
          g,
          rw (is.count_is, is.first_is) run,
          record {
            chain = chain;
            distinct = Distinct-renamed xs is.distinct;
            first_is = is.first_is ∙ sym (head_or-renamed null xs);
            last_is = is.last_is ∙ sym (last_or-renamed null xs);
            count_is = is.count_is ∙ ap pos (sym (length-renamed xs));
          },
          same,
        )
