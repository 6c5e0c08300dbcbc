-- ===== src/Remote/Arriving.antt =====
-- FTPChdir3 of a whole path, on a server with a tree of directories.
use mathlib.Core.Path.{subst}
use ncftp.Base.{
  ℕ, ◌-◌, ◌<◌, ◌≤◌, ◌≡◌, refl, ap, sym, ◌∙◌, Bool, true, false, none, List, [], ◌∷◌, ◌++◌, arith,
  ◌==◌, leb, if◌then◌else◌, length, length-append, take-all,
}
use ncftp.Base.Bytes.{Bytes}
use ncftp.Reply.{no_err}
use ncftp.Remote.{Session, is_no_err}
use ncftp.Remote.Dirs.{failed_with, is_one_dot, dirs_of, enter_nodes, chdir_one_at_a_time}
use ncftp.Remote.Serving.{InStep, Ends}
use ncftp.Remote.Tree.{Dir, Tree, tree_answer, HasNoSlash, IsNode, AreNodes}
use ncftp.Remote.Walking.{step_if, step_down, walk, enter_nodes-Ends}

-- A path of names.
abbrev pub path_of : Bytes → List Bytes → Bytes
path_of x [] = x
path_of x (y ∷ ys) = x ++ (b'/' ∷ path_of y ys)

dirs_of-last : (x : Bytes) → HasNoSlash x → dirs_of x ≡ x ∷ []
dirs_of-last [] h = refl
dirs_of-last (c ∷ x) h = rw (h.0, dirs_of-last x h.1) refl

dirs_of-append : (x s : Bytes) → HasNoSlash x → dirs_of (x ++ (b'/' ∷ s)) ≡ x ∷ dirs_of s
dirs_of-append [] s h = refl
dirs_of-append (c ∷ x) s h = rw (h.0, dirs_of-append x s h.1) refl

dirs_of-path_of :
    (x : Bytes) (xs : List Bytes) → AreNodes (x ∷ xs) → dirs_of (path_of x xs) ≡ x ∷ xs
dirs_of-path_of x [] are = dirs_of-last x are.0.no_slash
dirs_of-path_of x (y ∷ ys) are =
    dirs_of-append x (path_of y ys) are.0.no_slash ∙ ap (◌∷◌ x) (dirs_of-path_of y ys are.1)

length-node : (x : Bytes) → IsNode x → 1 ≤ length x
length-node x is = ground (arith, is.nonempty)

length-path_of : (x : Bytes) (xs : List Bytes) → AreNodes (x ∷ xs) → 1 ≤ length (path_of x xs)
length-path_of x [] are = length-node x are.0
length-path_of x (y ∷ ys) are =
    omega (arith, length-append x (b'/' ∷ path_of y ys), length-node x are.0)

path_of-not_dot :
    (x : Bytes) (xs : List Bytes) → AreNodes (x ∷ xs) → is_one_dot (path_of x xs) ≡ false
path_of-not_dot x [] are = are.0.no_dot
path_of-not_dot x (y ∷ ys) are =
    ground
      (arith, length-append x (b'/' ∷ path_of y ys), length-node x are.0, length-path_of y ys are.1)

path-enter_nodes :
    (mkd : Bool) (size buf_size : ℕ) (x : Bytes) (xs : List Bytes) (s : Session Tree)
    → AreNodes (x ∷ xs)
    → length (path_of x xs) < buf_size
    → chdir_one_at_a_time mkd false size buf_size (path_of x xs) s
      ≡ enter_nodes mkd false size (x ∷ xs) s
unfolding chdir_one_at_a_time
path-enter_nodes mkd size buf_size x xs s are fits =
    let long : (length (path_of x xs) == 0) ≡ false = ground (arith, length-path_of x xs are) in
    let roomy : leb buf_size 1 ≡ false = ground (arith, length-path_of x xs are) in
    rw
      (
        long,
        roomy,
        path_of-not_dot x xs are,
        take-all (buf_size - 1) (path_of x xs) (omega (arith, fits)),
        dirs_of-path_of x xs are,
      )
      refl

-- FTPChdir3, one directory at a time and without a look at the new one, of a relative path of names that
-- fits its buffer, on a server that has a tree of directories and always answers: it goes down the path
-- in the tree, makes a directory that is missing if that is asked for, or else stops in front of it with
-- kErrCWDFailed, and leaves the connection read to the end.
pub chdir_one_at_a_time-walk :
    (mkd : Bool) (size buf_size : ℕ) (x : Bytes) (xs : List Bytes) (s : Session Tree)
    → AreNodes (x ∷ xs)
    → length (path_of x xs) < buf_size
    → InStep tree_answer s
    → Ends tree_answer
        (chdir_one_at_a_time mkd false size buf_size (path_of x xs) s)
        (failed_with (walk mkd (x ∷ xs) s.server).0)
        (walk mkd (x ∷ xs) s.server).1
chdir_one_at_a_time-walk mkd size buf_size x xs s are fits in_step =
    subst
      (λ y.
        Ends tree_answer y (failed_with (walk mkd (x ∷ xs) s.server).0)
          (walk mkd (x ∷ xs) s.server).1)
      (sym (path-enter_nodes mkd size buf_size x xs s are fits))
      (enter_nodes-Ends mkd size x xs s.server s are in_step refl)

-- The directory at the end of a path.
abbrev pub down : List Bytes → Dir → Dir
down [] d = d
down (x ∷ xs) d = down xs (x ∷ d)

step_if-arrives :
    (there : Bool) (x : Bytes) (t : Tree)
    → ((step_if there true x t).0 ≡ no_err) × ((step_if there true x t).1.cwd ≡ x ∷ t.cwd)
step_if-arrives true x t = (refl, refl)
step_if-arrives false x t = (refl, refl)

walk-arrives :
    (xs : List Bytes) (t : Tree)
    → ((walk true xs t).0 ≡ no_err) × ((walk true xs t).1.cwd ≡ down xs t.cwd)
walk-arrives [] t = (refl, refl)
walk-arrives (x ∷ xs) t =
    let here = step_down true x t in
    let ok = step_if-arrives (t.has (x ∷ t.cwd)) x t in
    let rest = walk-arrives xs here.1 in
    let goes : (if is_no_err here.0 then walk true xs here.1 else here) ≡ walk true xs here.1 =
      ap (λ e. if is_no_err e then walk true xs here.1 else here) ok.0 in
    (ap (λ r. r.0) goes ∙ rest.0, ap (λ r. r.1.cwd) goes ∙ rest.1 ∙ ap (down xs) ok.1)

-- FTPChdir3 with kChdirAndMkdir, one directory at a time and without a look at the new one, of a relative
-- path of names that fits its buffer, on a server that has a tree of directories and always answers,
-- always succeeds, and leaves the server in the directory at the end of the path, whatever directories
-- are there to begin with.
pub chdir_one_at_a_time-arrives :
    (size buf_size : ℕ) (x : Bytes) (xs : List Bytes) (s : Session Tree)
    → AreNodes (x ∷ xs)
    → length (path_of x xs) < buf_size
    → InStep tree_answer s
    → ((chdir_one_at_a_time true false size buf_size (path_of x xs) s).0 ≡ (no_err, none))
      × ((chdir_one_at_a_time true false size buf_size (path_of x xs) s).1.server.cwd
          ≡ down (x ∷ xs) s.server.cwd)
chdir_one_at_a_time-arrives size buf_size x xs s are fits in_step =
    let ends = chdir_one_at_a_time-walk true size buf_size x xs s are fits in_step in
    let arrives = walk-arrives (x ∷ xs) s.server in
    (ends.result ∙ ap failed_with arrives.0, ap (λ t. t.cwd) ends.state ∙ arrives.1)
