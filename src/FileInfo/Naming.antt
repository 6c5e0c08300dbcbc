-- ===== src/FileInfo/Naming.antt =====
-- ComputeRNames and ComputeLNames against the names that they are to give, when memory suffices.
use mathlib.Core.List.{append_assoc, append-nil}
use ncftp.Base.{
  ℕ, ◌≡◌, refl, sym, ap, ◌∙◌, inl, inr, Bool, true, false, none, some, List, [], ◌∷◌, ◌++◌,
  if◌then◌else◌, Bool-cases, Option-cases,
}
use ncftp.Base.Bytes.{Bytes}
use ncftp.Base.Int.{pos}
use ncftp.Links.{Ptr, ok}
use ncftp.Links.Chain.{IsList, SameOutside}
use ncftp.LineList.{Line}
use ncftp.FileInfo.{FileInfo, FileInfoList, Infos}
use ncftp.FileInfo.Names.{put_lname, rname_from, lname_from, then_cat, cat_dir, flatten}
use ncftp.FileInfo.Names.{
  set_to, behind_slash, base_name, is_dir, or_dot, dynscat, put_parent, rname_step, own_dir,
  last_dir, lname_step, compute_rnames, compute_lnames,
}
use ncftp.FileInfo.Renaming.{renamed, HaveNames, loop_on_list}

abbrev pub name_of : Line → Bytes
name_of none = []
name_of (some s) = s

-- The directory in front of a name.
abbrev pub in_dir : Bytes → Bytes
in_dir dir = if is_dir dir then dir ++ b'/' ∷ [] else []

-- The name that a node gets on the remote host, and the local directory that it remembers.
abbrev pub give_rname : Bytes → Bool → Bool → FileInfo → Bytes → FileInfo
give_rname dir pflag nochop fi s = record fi {
  rname = some (in_dir dir ++ (if nochop then s else base_name s));
  lname =
      if is_dir dir
      then (if pflag
          then elim (behind_slash dir) [
            | none ↦ fi.lname
            | some parent ↦ some (name_of fi.lname ++ parent)
          ]
          else fi.lname)
      else fi.lname;
}

abbrev pub with_rname : Bytes → Bool → Bool → FileInfo → FileInfo
with_rname dir pflag nochop fi = give_rname dir pflag nochop fi (name_of fi.relname)

abbrev pub own_prefix : Line → Bytes
own_prefix none = []
own_prefix (some s) = s ++ b'/' ∷ []

-- The name that a node gets on the local host.
abbrev pub give_lname : Line → Bytes → Bool → FileInfo → Bytes → FileInfo
give_lname srcdir dir nochop fi s = record fi {
  lname = some (
      if nochop
      then (in_dir dir ++ own_prefix (own_dir fi.lname srcdir)) ++ s
      else in_dir dir ++ base_name s);
}

abbrev pub with_lname : Line → Bytes → Bool → FileInfo → FileInfo
with_lname srcdir dir nochop fi = give_lname srcdir dir nochop fi (name_of fi.relname)

-- Every request for memory is granted.
abbrev pub plenty : ℕ → ℕ → Bool
plenty n k = true

dynscat_plenty : (l : Line) (s : Bytes) → dynscat true l s ≡ some (name_of l ++ s)
unfolding dynscat
dynscat_plenty none s = refl
dynscat_plenty (some t) s = refl

put_parent_plenty :
    (dir buf : Bytes) (pflag : Bool) (v : FileInfo)
    → put_parent true pflag dir v (some buf)
      ≡ set_to (record v {
        rname = some buf;
        lname =
            if pflag
            then elim (behind_slash dir) [
              | none ↦ v.lname
              | some parent ↦ some (name_of v.lname ++ parent)
            ]
            else v.lname;
      })
put_parent_plenty dir buf false v = refl
put_parent_plenty dir buf true v = elim (Option-cases (behind_slash dir)) [
  | inl e ↦ rw e refl
  | inr (parent, e) ↦ rw (e, dynscat_plenty v.lname parent) refl
]

rname_from_lem :
    (dir : Bytes) (pflag nochop : Bool) (n : ℕ) (v : FileInfo) (s : Bytes)
    → rname_from (plenty n) dir pflag nochop v (some s) ≡ set_to (give_rname dir pflag nochop v s)
rname_from_lem dir pflag nochop n v s =
    let name = if nochop then s else base_name s in
    elim (Bool-cases (is_dir dir)) [
      | inl e ↦
          rw (e, dynscat_plenty none (dir ++ (b'/' ∷ name)), append_assoc dir (b'/' ∷ []) name)
            (put_parent_plenty dir _ pflag v)
      | inr e ↦ rw (e, dynscat_plenty none name) refl
    ]

rname_step_lem :
    (dir : Bytes) (pflag nochop : Bool) (n : ℕ) (v : FileInfo) (s : Bytes)
    → v.relname ≡ some s
    → rname_step (plenty n) dir pflag nochop v ≡ set_to (with_rname dir pflag nochop v)
unfolding rname_step
rname_step_lem dir pflag nochop n v s e =
    ap (rname_from (plenty n) dir pflag nochop v) e
    ∙ rname_from_lem dir pflag nochop n v s
    ∙ ap (λ z. set_to (give_rname dir pflag nochop v (name_of z))) (sym e)

whole_lname_lem :
    (dir : Bytes) (n : ℕ) (own : Line) (s : Bytes)
    → flatten (
        then_cat true
          (cat_dir true
            (if is_dir dir then then_cat true (some none) (dir ++ b'/' ∷ []) else some none)
            own)
          s)
      ≡ some ((in_dir dir ++ own_prefix own) ++ s)
whole_lname_lem dir n none s = elim (Bool-cases (is_dir dir)) [
  | inl e ↦
      rw
        (
          e,
          dynscat_plenty none (dir ++ (b'/' ∷ [])),
          dynscat_plenty (some (dir ++ (b'/' ∷ []))) s,
          append-nil (dir ++ (b'/' ∷ [])),
        )
        refl
  | inr e ↦ rw (e, dynscat_plenty none s) refl
]
whole_lname_lem dir n (some t) s = elim (Bool-cases (is_dir dir)) [
  | inl e ↦
      let d = dir ++ (b'/' ∷ []) in
      rw
        (
          e,
          dynscat_plenty none d,
          dynscat_plenty (some d) (t ++ (b'/' ∷ [])),
          dynscat_plenty (some (d ++ (t ++ (b'/' ∷ [])))) s,
        )
        refl
  | inr e ↦
      rw (e, dynscat_plenty none (t ++ (b'/' ∷ [])), dynscat_plenty (some (t ++ (b'/' ∷ []))) s)
        refl
]

lname_from_lem :
    (srcdir : Line) (dir : Bytes) (nochop : Bool) (n : ℕ) (v : FileInfo) (s : Bytes)
    → lname_from (plenty n) srcdir dir nochop v (some s) ≡ set_to (give_lname srcdir dir nochop v s)
lname_from_lem srcdir dir true n v s =
    ap (put_lname v) (whole_lname_lem dir n (own_dir v.lname srcdir) s)
lname_from_lem srcdir dir false n v s = elim (Bool-cases (is_dir dir)) [
  | inl e ↦
      rw
        (
          e,
          dynscat_plenty none (dir ++ (b'/' ∷ base_name s)),
          append_assoc dir (b'/' ∷ []) (base_name s),
        )
        refl
  | inr e ↦ rw (e, dynscat_plenty none (base_name s)) refl
]

lname_step_lem :
    (srcdir : Line) (dir : Bytes) (nochop : Bool) (n : ℕ) (v : FileInfo) (s : Bytes)
    → v.relname ≡ some s
    → lname_step (plenty n) srcdir dir nochop v ≡ set_to (with_lname srcdir dir nochop v)
unfolding lname_step
lname_step_lem srcdir dir nochop n v s e =
    ap (lname_from (plenty n) srcdir dir nochop v) e
    ∙ lname_from_lem srcdir dir nochop n v s
    ∙ ap (λ z. set_to (give_lname srcdir dir nochop v (name_of z))) (sym e)

-- ComputeRNames, when memory suffices, on a list whose nodes all have a `relname`: it returns 0,
-- every node gets as `rname` the directory `dstdir`, unless that is "" or "." or NULL, a `/` and its
-- `relname`, of which only what is behind the last slash if `nochop` is not set; if `pflag` is set
-- the last part of `dstdir` goes behind its `lname`; and nothing else changes.
pub compute_rnames-renamed :
    (h : Infos) (l : FileInfoList) (xs : List (Ptr × FileInfo)) (dstdir : Line)
    (pflag nochop : Bool)
    → IsList h l.links xs
    → HaveNames xs
    → (g : Infos) × (compute_rnames plenty l dstdir pflag nochop h ≡ ok (pos 0) g)
      × IsList g l.links (renamed (with_rname (or_dot dstdir) pflag nochop) xs)
      × SameOutside xs h g
unfolding compute_rnames
compute_rnames-renamed h l xs dstdir pflag nochop is names =
    loop_on_list (with_rname (or_dot dstdir) pflag nochop)
      (λ n. rname_step (plenty n) (or_dot dstdir) pflag nochop)
      (rname_step_lem (or_dot dstdir) pflag nochop) h l xs is names

-- ComputeLNames, when memory suffices, on a list whose nodes all have a `relname`: it returns 0,
-- every node gets as `lname` the directory `dstdir`, unless that is "" or "." or NULL, a `/` and what is
-- behind the last slash of its `relname`, or if `nochop` is set its old `lname`, or else the last part
-- of `srcdir`, a `/` and its whole `relname`; and nothing else changes.
pub compute_lnames-renamed :
    (h : Infos) (l : FileInfoList) (xs : List (Ptr × FileInfo)) (srcdir dstdir : Line)
    (nochop : Bool)
    → IsList h l.links xs
    → HaveNames xs
    → (g : Infos) × (compute_lnames plenty l srcdir dstdir nochop h ≡ ok (pos 0) g)
      × IsList g l.links (renamed (with_lname (last_dir srcdir) (or_dot dstdir) nochop) xs)
      × SameOutside xs h g
unfolding compute_lnames
compute_lnames-renamed h l xs srcdir dstdir nochop is names =
    loop_on_list (with_lname (last_dir srcdir) (or_dot dstdir) nochop)
      (λ n. lname_step (plenty n) (last_dir srcdir) (or_dot dstdir) nochop)
      (lname_step_lem (last_dir srcdir) (or_dot dstdir) nochop) h l xs is names
