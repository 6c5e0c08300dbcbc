-- ===== src/Remote/Walking.antt =====
-- FTPChdir3 node by node, on a server with a tree of directories.
use mathlib.Core.Path.{subst}
use ncftp.Base.{
  ℕ, ◌≡◌, refl, ap, sym, ◌∙◌, Bool, true, false, not, ◌||◌, none, List, [], ◌∷◌, ◌++◌,
  if◌then◌else◌,
}
use ncftp.Base.Bytes.{Bytes, codes}
use ncftp.Reply.{Err, no_err, cwd_failed}
use ncftp.Command.{kind}
use ncftp.Remote.{Session, Op, ◌>>=◌, pure, command, is_no_err, refuse}
use ncftp.Remote.Dirs.{
  Found, failed_with, ftp_chdir, chdir_result, go_to, go_if_made, or_make, note_failure, enter_node,
  or_before, go_through, enter_nodes,
}
use ncftp.Remote.Serving.{
  InStep, Ends, line_of, class_of, bind-Ends, pure-Ends, refuse-Ends, command-Ends,
}
use ncftp.Remote.Tree.{
  Tree, entered, with_dir, same_dir_refl, answer_if, tree_answer, tree_answer-IsReliable,
  tree_answer-enter, tree_answer-make, IsNode, AreNodes, command-IsShort,
}

-- A step down, and the way along a path: a directory that is missing is made, or ends it.
abbrev pub step_if : Bool → Bool → Bytes → Tree → Err × Tree
step_if there mkd x t =
    if there
    then (no_err, entered x t)
    else if mkd
    then (no_err, entered x (with_dir x t))
    else (cwd_failed, t)

abbrev pub step_down : Bool → Bytes → Tree → Err × Tree
step_down mkd x t = step_if (t.has (x ∷ t.cwd)) mkd x t

abbrev pub walk : Bool → List Bytes → Tree → Err × Tree
walk mkd [] t = (no_err, t)
walk mkd (x ∷ xs) t =
    let here = step_down mkd x t in
    let rest = walk mkd xs here.1 in if is_no_err here.0 then rest else here

chdir_result-Ends :
    (b : Bool) (x : Bytes) (t : Tree) (s : Session Tree)
    → InStep tree_answer s
    → s.server ≡ (answer_if b x t).2
    → Ends tree_answer
        (chdir_result (kind (class_of (answer_if b x t).0)) s)
        (step_if b false x t).0
        (step_if b false x t).1
chdir_result-Ends true x t s in_step at = pure-Ends tree_answer no_err s (entered x t) in_step at
chdir_result-Ends false x t s in_step at = refuse-Ends tree_answer cwd_failed s t in_step at

-- FTPChdir to a name that can be sent.
ftp_chdir-name :
    (x : Bytes) (s : Session Tree)
    → IsNode x
    → ftp_chdir x s ≡ (command (codes "CWD " ++ x) >>= chdir_result) s
unfolding ftp_chdir
ftp_chdir-name x s is = rw (is.nonempty, is.no_dot_dot) refl

ftp_chdir-Ends :
    (x : Bytes) (t : Tree) (s : Session Tree)
    → IsNode x
    → InStep tree_answer s
    → s.server ≡ t
    → Ends tree_answer (ftp_chdir x s) (step_down false x t).0 (step_down false x t).1
ftp_chdir-Ends x t s is in_step at =
    let line = line_of (codes "CWD " ++ x) in
    let sent =
      command-Ends tree_answer (codes "CWD " ++ x) s t tree_answer-IsReliable in_step at
        (command-IsShort b'C' b'W' b'D' b' ' x is) in
    subst (λ y. Ends tree_answer y (step_down false x t).0 (step_down false x t).1)
      (sym (ftp_chdir-name x s is))
      (bind-Ends tree_answer (command (codes "CWD " ++ x)) chdir_result s
        (kind (class_of (tree_answer line t).0)) (tree_answer line t).2 (step_down false x t).0
        (step_down false x t).1 sent
        (λ s' in_step' at'.
          subst
            (λ a.
              Ends tree_answer (chdir_result (kind (class_of a.0)) s') (step_down false x t).0
                (step_down false x t).1)
            (sym (tree_answer-enter x t))
            (chdir_result-Ends (t.has (x ∷ t.cwd)) x t s' in_step'
              (at' ∙ ap (λ a. a.2) (tree_answer-enter x t)))))

go_to-Ends :
    (size : ℕ) (x : Bytes) (t : Tree) (s : Session Tree)
    → IsNode x
    → InStep tree_answer s
    → s.server ≡ t
    → Ends tree_answer
        (go_to false size x s)
        (failed_with (step_down false x t).0)
        (step_down false x t).1
go_to-Ends size x t s is in_step at =
    let e = (step_down false x t).0 in
    let t' = (step_down false x t).1 in
    bind-Ends tree_answer (ftp_chdir x) (λ e'. pure (failed_with e')) s e t' (failed_with e) t'
      (ftp_chdir-Ends x t s is in_step at)
      (λ s' in_step' at'. pure-Ends tree_answer (failed_with e) s' t' in_step' at')

step_down-with_dir :
    (x : Bytes) (t : Tree) → step_down false x (with_dir x t) ≡ (no_err, entered x (with_dir x t))
step_down-with_dir x t =
    ap (λ b. step_if (b || t.has (x ∷ t.cwd)) false x (with_dir x t)) (same_dir_refl (x ∷ t.cwd))

-- MKD, and the second attempt.
make-Ends :
    (size : ℕ) (x : Bytes) (t : Tree) (s : Session Tree)
    → IsNode x
    → InStep tree_answer s
    → s.server ≡ t
    → Ends tree_answer
        ((command (codes "MKD " ++ x) >>= go_if_made false size x (failed_with cwd_failed)) s)
        (failed_with no_err)
        (entered x (with_dir x t))
make-Ends size x t s is in_step at =
    let line = line_of (codes "MKD " ++ x) in
    let next = go_if_made false size x (failed_with cwd_failed) in
    bind-Ends tree_answer (command (codes "MKD " ++ x)) next s
      (kind (class_of (tree_answer line t).0)) (tree_answer line t).2 (failed_with no_err)
      (entered x (with_dir x t))
      (command-Ends tree_answer (codes "MKD " ++ x) s t tree_answer-IsReliable in_step at
        (command-IsShort b'M' b'K' b'D' b' ' x is))
      (λ s' in_step' at'.
        subst
          (λ a.
            Ends tree_answer (next (kind (class_of a.0)) s') (failed_with no_err)
              (entered x (with_dir x t)))
          (sym (tree_answer-make x t))
          (subst (λ r. Ends tree_answer (go_to false size x s') (failed_with r.0) r.1)
            (step_down-with_dir x t)
            (go_to-Ends size x (with_dir x t) s' is in_step'
              (at' ∙ ap (λ a. a.2) (tree_answer-make x t)))))

note_failure-Ends :
    (t : Tree) (s : Session Tree)
    → InStep tree_answer s
    → s.server ≡ t
    → Ends tree_answer (note_failure (failed_with cwd_failed) s) (failed_with cwd_failed) t
note_failure-Ends t s in_step at =
    bind-Ends tree_answer (refuse cwd_failed) (λ e. pure (e, none)) s cwd_failed t
      (failed_with cwd_failed) t (refuse-Ends tree_answer cwd_failed s t in_step at)
      (λ s' in_step' at'. pure-Ends tree_answer (failed_with cwd_failed) s' t in_step' at')

or_make-Ends :
    (there mkd : Bool) (size : ℕ) (x : Bytes) (t : Tree) (s : Session Tree)
    → IsNode x
    → InStep tree_answer s
    → s.server ≡ (step_if there false x t).1
    → Ends tree_answer
        (or_make mkd false size x (failed_with (step_if there false x t).0) s)
        (failed_with (step_if there mkd x t).0)
        (step_if there mkd x t).1
or_make-Ends true mkd size x t s is in_step at =
    pure-Ends tree_answer (failed_with no_err) s (entered x t) in_step at
or_make-Ends false false size x t s is in_step at = note_failure-Ends t s in_step at
or_make-Ends false true size x t s is in_step at =
    subst
      (λ b.
        Ends tree_answer
          ((if not b
              then (command (codes "MKD " ++ x)
                  >>= go_if_made false size x (failed_with cwd_failed))
              else note_failure (failed_with cwd_failed))
            s)
          (failed_with no_err) (entered x (with_dir x t)))
      (sym is.nonempty) (make-Ends size x t s is in_step at)

enter_node-name :
    (mkd last : Bool) (size : ℕ) (x : Bytes) (s : Session Tree)
    → IsNode x
    → enter_node mkd false size last x s ≡ (go_to false size x >>= or_make mkd false size x) s
unfolding enter_node
enter_node-name mkd true size x s is = rw (is.no_dot, is.nonempty) refl
enter_node-name mkd false size x s is = rw (is.no_dot, is.nonempty) refl

enter_node-Ends :
    (mkd last : Bool) (size : ℕ) (x : Bytes) (t : Tree) (s : Session Tree)
    → IsNode x
    → InStep tree_answer s
    → s.server ≡ t
    → Ends tree_answer
        (enter_node mkd false size last x s)
        (failed_with (step_down mkd x t).0)
        (step_down mkd x t).1
enter_node-Ends mkd last size x t s is in_step at =
    subst (λ y. Ends tree_answer y (failed_with (step_down mkd x t).0) (step_down mkd x t).1)
      (sym (enter_node-name mkd last size x s is))
      (bind-Ends tree_answer (go_to false size x) (or_make mkd false size x) s
        (failed_with (step_down false x t).0) (step_down false x t).1
        (failed_with (step_down mkd x t).0) (step_down mkd x t).1
        (go_to-Ends size x t s is in_step at)
        (λ s' in_step' at'. or_make-Ends (t.has (x ∷ t.cwd)) mkd size x t s' is in_step' at'))

-- Behind a node, the others, unless it failed.
next-Ends :
    (goes : Bool) (here rest : Err × Tree) (more : Op Tree Found) (s : Session Tree)
    → InStep tree_answer s
    → s.server ≡ here.1
    → ((s' : Session Tree)
        → InStep tree_answer s'
        → s'.server ≡ here.1
        → Ends tree_answer (more s') (failed_with rest.0) rest.1)
    → Ends tree_answer
        ((if goes
            then (more >>= λ found. pure (or_before none found))
            else pure (failed_with here.0))
          s)
        (failed_with (if goes then rest else here).0)
        (if goes then rest else here).1
next-Ends true here rest more s in_step at ends =
    bind-Ends tree_answer more (λ found. pure (or_before none found)) s (failed_with rest.0) rest.1
      (failed_with rest.0) rest.1 (ends s in_step at)
      (λ s' in_step' at'. pure-Ends tree_answer (failed_with rest.0) s' rest.1 in_step' at')
next-Ends false here rest more s in_step at ends =
    pure-Ends tree_answer (failed_with here.0) s here.1 in_step at

one-step :
    (there mkd : Bool) (x : Bytes) (t : Tree)
    → step_if there mkd x t ≡ (
        if is_no_err (step_if there mkd x t).0
        then (no_err, (step_if there mkd x t).1)
        else step_if there mkd x t)
one-step true mkd x t = refl
one-step false true x t = refl
one-step false false x t = refl

pub enter_nodes-Ends :
    (mkd : Bool) (size : ℕ) (x : Bytes) (xs : List Bytes) (t : Tree) (s : Session Tree)
    → AreNodes (x ∷ xs)
    → InStep tree_answer s
    → s.server ≡ t
    → Ends tree_answer
        (enter_nodes mkd false size (x ∷ xs) s)
        (failed_with (walk mkd (x ∷ xs) t).0)
        (walk mkd (x ∷ xs) t).1
unfolding enter_nodes
enter_nodes-Ends mkd size x [] t s are in_step at =
    subst (λ r. Ends tree_answer (enter_node mkd false size true x s) (failed_with r.0) r.1)
      (one-step (t.has (x ∷ t.cwd)) mkd x t) (enter_node-Ends mkd true size x t s are.0 in_step at)
enter_nodes-Ends mkd size x (y ∷ ys) t s are in_step at =
    let here = step_down mkd x t in
    let rest = walk mkd (y ∷ ys) here.1 in
    let more = enter_nodes mkd false size (y ∷ ys) in
    bind-Ends tree_answer (enter_node mkd false size false x) (go_through more) s
      (failed_with here.0) here.1 (failed_with (if is_no_err here.0 then rest else here).0)
      (if is_no_err here.0 then rest else here).1
      (enter_node-Ends mkd false size x t s are.0 in_step at)
      (λ s' in_step' at'.
        next-Ends (is_no_err here.0) here rest more s' in_step' at'
          (λ s'' in_step'' at''. enter_nodes-Ends mkd size y ys here.1 s'' are.1 in_step'' at''))
