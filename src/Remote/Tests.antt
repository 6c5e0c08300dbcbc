-- ===== src/Remote/Tests.antt =====
-- Operations on concrete servers.
use ncftp.Base.{ℕ, ◌+◌, ◌≡◌, ◌≢◌, refl, inl, Bool, true, false, none, some, [], ◌∷◌, arith, get_or}
use ncftp.Base.Bytes.{Bytes, codes, strn_eq}
use ncftp.Base.Int.{negsuc}
use ncftp.Reply.{no_err, cwd_failed, Conn}
use ncftp.Reply.Wire.{Code, IsCode, value, Reply, short, render, Fits}
use ncftp.Command.{all_written, World}
use ncftp.Remote.{Session, unknown}
use ncftp.Remote.Dirs.{failed_with, ftp_get_cwd, ftp_chdir_and_get_cwd, chdir_one_at_a_time}
use ncftp.Remote.Files.{ftp_set_transfer_type}
use ncftp.Remote.Serving.{Answering, IsReliable, InStep, Ends, IsShort}
use ncftp.Remote.Tree.{Tree, code_of, same_dir, tree_answer, IsNode}
use ncftp.Remote.Arriving.{chdir_one_at_a_time-walk, chdir_one_at_a_time-arrives}
use ncftp.Remote.Pwd.{in_quotes, ftp_get_cwd-in_quotes, ftp_chdir_and_get_cwd-asks}
use ncftp.Remote.Types.{
  TypeServer, InType, Typed, ftp_set_transfer_type-Typed, requests, requests-InType,
}

abbrev cip : Conn
cip = record {
  err_no = no_err;
  ctrl_open = true;
  data_open = false;
  connected = true;
  logged_in = true;
  data_timed_out = false;
  last_str = [];
  last_num = negsuc 0;
  last_lines = [];
  user = codes "anonymous";
  firewall_in_use = false;
  has_response_proc = false;
  sent = [];
  log = [];
}

abbrev good_world : World
good_world = record { room = true; writes = all_written; ready = λ n. true; buf = [] }

abbrev session : {D : Type 0} → Answering D → D → Session D
session rep d = record {
  conn = cip;
  cur_type = 0;
  has_size = unknown;
  has_mdtm = unknown;
  has_mdtm_set = unknown;
  unread = [];
  turn = 0;
  worlds = λ n. good_world;
  server = d;
  serve = λ line d'. (render (rep line d').0 (rep line d').1, (rep line d').2);
}

session-InStep : {D : Type 0} (rep : Answering D) (d : D) → InStep rep (session rep d)
session-InStep rep d = record {
  up = refl;
  idle = refl;
  drained = refl;
  room = λ n. refl;
  writes = λ n. refl;
  serves = λ line d'. refl;
}

-- A server with the one directory `a` below the root.
abbrev one_dir : Tree
one_dir = record { cwd = []; has = λ p. same_dir p (codes "a" ∷ []) }

abbrev tree_session : Session Tree
tree_session = session tree_answer one_dir

a-IsNode : IsNode (codes "a")
a-IsNode = record {
  nonempty = refl;
  no_dot = refl;
  no_dot_dot = refl;
  no_slash = (refl, tt);
  no_lf = refl;
  no_cr = refl;
  fits = omega arith;
}

b-IsNode : IsNode (codes "b")
b-IsNode = record {
  nonempty = refl;
  no_dot = refl;
  no_dot_dot = refl;
  no_slash = (refl, tt);
  no_lf = refl;
  no_cr = refl;
  fits = omega arith;
}

chdir_one_at_a_time-walk_example :
    Ends tree_answer
      (chdir_one_at_a_time false false 100 100 (codes "a/b") tree_session)
      (failed_with cwd_failed)
      (record { cwd = codes "a" ∷ []; has = λ p. same_dir p (codes "a" ∷ []) })
chdir_one_at_a_time-walk_example =
    chdir_one_at_a_time-walk false 100 100 (codes "a") (codes "b" ∷ []) tree_session
      (a-IsNode, (b-IsNode, tt)) (omega arith) (session-InStep tree_answer one_dir)

chdir_one_at_a_time-arrives_example :
    ((chdir_one_at_a_time true false 100 100 (codes "a/b") tree_session).0 ≡ (no_err, none))
    × ((chdir_one_at_a_time true false 100 100 (codes "a/b") tree_session).1.server.cwd
        ≡ codes "b" ∷ codes "a" ∷ [])
chdir_one_at_a_time-arrives_example =
    chdir_one_at_a_time-arrives 100 100 (codes "a") (codes "b" ∷ []) tree_session
      (a-IsNode, (b-IsNode, tt)) (omega arith) (session-InStep tree_answer one_dir)

-- A server that is in one directory, and names it when it is asked; it counts its answers.
abbrev home_if : Bool → ℕ → Code × Reply × ℕ
home_if true n = (code_of 2 5 7, short (in_quotes (codes "/") []), n + 1)
home_if false n = (code_of 2 5 0, short [], n + 1)

abbrev home_answer : Answering ℕ
home_answer line n = home_if (strn_eq 3 line (codes "PWD")) n

home-IsCode : (b : Bool) (n : ℕ) → IsCode (home_if b n).0
home-IsCode true n = record { hundreds_ok = refl; tens_ok = refl; units_ok = refl }
home-IsCode false n = record { hundreds_ok = refl; tens_ok = refl; units_ok = refl }

home-Fits : (b : Bool) (n : ℕ) → Fits (home_if b n).0 (home_if b n).1
home-Fits true n = (refl, (refl, (refl, tt)))
home-Fits false n = tt

home_not_421 : (b : Bool) (n : ℕ) → value (home_if b n).0 ≢ 421
home_not_421 true n e = absurd (omega (arith, e))
home_not_421 false n e = absurd (omega (arith, e))

home_answer-IsReliable : IsReliable home_answer
home_answer-IsReliable = record {
  code_ok = λ line n. home-IsCode (strn_eq 3 line (codes "PWD")) n;
  reply_ok = λ line n. home-Fits (strn_eq 3 line (codes "PWD")) n;
  not_421 = λ line n. home_not_421 (strn_eq 3 line (codes "PWD")) n;
}

ftp_get_cwd-in_quotes_example :
    Ends home_answer (ftp_get_cwd 100 (session home_answer 0)) (no_err, some (codes "/")) 1
ftp_get_cwd-in_quotes_example =
    ftp_get_cwd-in_quotes home_answer 100 (codes "/") [] (session home_answer 0)
      home_answer-IsReliable (session-InStep home_answer 0) refl tt
      (record { class_said = refl; others = []; said = refl })

cwd-IsShort : IsShort (codes "CWD a")
cwd-IsShort = (record { no_lf = refl; no_cr = refl; long_enough = omega arith }, omega arith)

ftp_chdir_and_get_cwd-asks_example :
    Ends home_answer
      (ftp_chdir_and_get_cwd (codes "a") 100 (session home_answer 0))
      (no_err, some (codes "/"))
      2
ftp_chdir_and_get_cwd-asks_example =
    ftp_chdir_and_get_cwd-asks home_answer 100 (codes "a") [] (codes "/") [] (session home_answer 0)
      home_answer-IsReliable (session-InStep home_answer 0) refl refl cwd-IsShort tt refl
      (record { class_said = refl; others = []; said = refl })
      (record { class_said = refl; others = []; said = refl })

-- A server that takes on every type.
abbrev type_if : Bool → Bytes → ℕ → Code × Reply × ℕ
type_if true line t = (code_of 2 0 0, short [], get_or line 5 0)
type_if false line t = (code_of 5 0 2, short [], t)

abbrev type_answer : Answering ℕ
type_answer line t = type_if (strn_eq 5 line (codes "TYPE ")) line t

type-IsCode : (b : Bool) (line : Bytes) (t : ℕ) → IsCode (type_if b line t).0
type-IsCode true line t = record { hundreds_ok = refl; tens_ok = refl; units_ok = refl }
type-IsCode false line t = record { hundreds_ok = refl; tens_ok = refl; units_ok = refl }

type-Fits : (b : Bool) (line : Bytes) (t : ℕ) → Fits (type_if b line t).0 (type_if b line t).1
type-Fits true line t = tt
type-Fits false line t = tt

type_not_421 : (b : Bool) (line : Bytes) (t : ℕ) → value (type_if b line t).0 ≢ 421
type_not_421 true line t e = absurd (omega (arith, e))
type_not_421 false line t e = absurd (omega (arith, e))

type_answer-IsReliable : IsReliable type_answer
type_answer-IsReliable = record {
  code_ok = λ line t. type-IsCode (strn_eq 5 line (codes "TYPE ")) line t;
  reply_ok = λ line t. type-Fits (strn_eq 5 line (codes "TYPE ")) line t;
  not_421 = λ line t. type_not_421 (strn_eq 5 line (codes "TYPE ")) line t;
}

type_answer-TypeServer : TypeServer type_answer
type_answer-TypeServer = record {
  type_of = λ t. t;
  accepted = λ t d e. refl;
  refused = λ t d e. absurd (cc e);
}

start-InType : InType type_answer type_answer-TypeServer (session type_answer 0)
start-InType = record { in_step = session-InStep type_answer 0; agrees = inl refl }

ftp_set_transfer_type-Typed_example :
    Typed type_answer type_answer-TypeServer b'i'
      (session type_answer 0)
      (ftp_set_transfer_type b'i' (session type_answer 0))
ftp_set_transfer_type-Typed_example =
    ftp_set_transfer_type-Typed type_answer type_answer-TypeServer b'i' (session type_answer 0)
      type_answer-IsReliable refl start-InType

requests-InType_example :
    InType type_answer type_answer-TypeServer (
      requests type_answer type_answer-TypeServer (b'a' ∷ b'I' ∷ b'x' ∷ []) (session type_answer 0))
requests-InType_example =
    requests-InType type_answer type_answer-TypeServer (b'a' ∷ b'I' ∷ b'x' ∷ [])
      (session type_answer 0) type_answer-IsReliable (refl, (refl, (refl, tt))) start-InType
