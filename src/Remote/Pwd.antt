-- ===== src/Remote/Pwd.antt =====
-- FTPGetCWD and FTPChdirAndGetCWD on the replies that servers give.
use mathlib.Core.Path.{subst}
use ncftp.Base.{
  ℕ, ◌-◌, ◌≡◌, refl, ap, sym, ◌∙◌, false, none, some, List, [], ◌∷◌, ◌++◌, arith, ◌==◌,
  if◌then◌else◌, length, take, get_or,
}
use ncftp.Base.Bytes.{Bytes, codes}
use ncftp.Reply.{no_err, invalid_dir_param, Response}
use ncftp.Reply.Wire.{texts}
use ncftp.Command.{init_response, kind}
use ncftp.Remote.{Session, ◌>>=◌, consult, release, with_response}
use ncftp.Remote.Dirs.{
  Found, failed_with, first_of, reply_line, before_last, cwd_between, cwd_in, quoted_part,
  cd_command, pwd_result, ftp_get_cwd, cwd_refused, quoted_first, cwd_or_ask, cwd_result,
  ftp_chdir_and_get_cwd,
}
use ncftp.Remote.Serving.{
  Answering, IsReliable, InStep, Ends, IsShort, line_of, class_of, bind-Ends,
}
use ncftp.Remote.Consulting.{reply_to, consult-Ends, release-Ends, with_response-Ends}

abbrev pub HasNoQuote : Bytes → Type 0
HasNoQuote [] = Unit
HasNoQuote (c ∷ s) = ((c == b'"') ≡ false) × HasNoQuote s

-- A directory in quotes, with any text without quotes behind it.
abbrev pub in_quotes : Bytes → Bytes → Bytes
in_quotes dir comment = b'"' ∷ (dir ++ (b'"' ∷ comment))

before_last-none : (s : Bytes) → HasNoQuote s → before_last b'"' s ≡ none
before_last-none [] h = refl
before_last-none (c ∷ s) h = rw (h.0, before_last-none s h.1) refl

before_last-quote :
    (s comment : Bytes) → HasNoQuote comment → before_last b'"' (s ++ (b'"' ∷ comment)) ≡ some s
before_last-quote [] comment h = rw (before_last-none comment h) refl
before_last-quote (c ∷ s) comment h = rw (before_last-quote s comment h) refl

cwd_in-in_quotes :
    (size : ℕ) (dir comment : Bytes)
    → HasNoQuote comment
    → cwd_in size (in_quotes dir comment) ≡ some (take (size - 1) dir)
cwd_in-in_quotes size dir comment h =
    ap (cwd_between size (in_quotes dir comment)) (before_last-quote (b'"' ∷ dir) comment h)

quoted_first-in_quotes :
    (size : ℕ) (dir comment : Bytes)
    → HasNoQuote comment
    → quoted_first size (in_quotes dir comment) ≡ some (take (size - 1) dir)
quoted_first-in_quotes size dir comment h =
    ap (quoted_part size) (before_last-quote (b'"' ∷ dir) comment h)

quoted_first-plain :
    (size : ℕ) (line : Bytes) → (get_or line 0 0 == b'"') ≡ false → quoted_first size line ≡ none
quoted_first-plain size [] h = refl
quoted_first-plain size (c ∷ s) h = rw h refl

pwd-IsShort : IsShort (codes "PWD")
pwd-IsShort = (record { no_lf = refl; no_cr = refl; long_enough = omega arith }, omega arith)

module _ {D : Type 0} (rep : Answering D) where
  -- The server answers a command with a class and a first line.
  pub record Says (cmd : Bytes) (d : D) (class : ℕ) (line : Bytes) : Type 0 where
    pub class_said : class_of (rep (line_of cmd) d).0 ≡ class
    pub others : List Bytes
    pub said : texts (rep (line_of cmd) d).1 ≡ line ∷ others

  said-first :
      (cmd : Bytes) (d : D) (class : ℕ) (line : Bytes)
      → Says cmd d class line
      → reply_line (reply_to rep cmd d).1 ≡ line
  said-first cmd d class line says = ap first_of says.said

  get_cwd-Ends :
      (size : ℕ) (dir comment : Bytes) (s : Session D) (d0 : D)
      → IsReliable rep
      → InStep rep s
      → s.server ≡ d0
      → (size == 0) ≡ false
      → HasNoQuote comment
      → Says (codes "PWD") d0 2 (in_quotes dir comment)
      → Ends rep
          (ftp_get_cwd size s)
          (no_err, some (take (size - 1) dir))
          (rep (line_of (codes "PWD")) d0).2
  unfolding ftp_get_cwd
  get_cwd-Ends size dir comment s d0 ok in_step at room no_quote says =
      let pwd = codes "PWD" in
      let found : Found = (no_err, some (take (size - 1) dir)) in
      let d = (rep (line_of pwd) d0).2 in
      let rp = (reply_to rep pwd d0).1 in
      let written : cwd_in size (reply_line rp) ≡ some (take (size - 1) dir) =
        ap (cwd_in size) (said-first pwd d0 2 (in_quotes dir comment) says)
        ∙ cwd_in-in_quotes size dir comment no_quote in
      subst
        (λ b.
          Ends rep
            ((if b
                then cwd_refused invalid_dir_param
                else with_response failed_with (λ rp0. consult rp0 pwd >>= pwd_result size))
              s)
            found d)
        (sym room)
        (with_response-Ends rep failed_with (λ rp0. consult rp0 pwd >>= pwd_result size) s found d
          in_step
          (bind-Ends rep (consult init_response pwd) (pwd_result size) s (reply_to rep pwd d0) d
            found d (consult-Ends rep pwd s d0 ok in_step at pwd-IsShort)
            (λ s' in_step' at'.
              subst (λ n. Ends rep (pwd_result size (kind n, rp) s') found d) (sym says.class_said)
                (subst (λ w. Ends rep (release rp (no_err, w) s') found d) (sym written)
                  (release-Ends rep rp found s' d in_step' at')))))

  -- FTPGetCWD with an array of at least one byte, when the server answers PWD with a reply of the second
  -- class that names a directory in quotes: it succeeds and writes the directory, cut to the array's size, whatever
  -- quotes are in it.
  pub ftp_get_cwd-in_quotes :
      (size : ℕ) (dir comment : Bytes) (s : Session D)
      → IsReliable rep
      → InStep rep s
      → (size == 0) ≡ false
      → HasNoQuote comment
      → Says (codes "PWD") s.server 2 (in_quotes dir comment)
      → Ends rep
          (ftp_get_cwd size s)
          (no_err, some (take (size - 1) dir))
          (rep (line_of (codes "PWD")) s.server).2
  ftp_get_cwd-in_quotes size dir comment s ok in_step room no_quote says =
      get_cwd-Ends size dir comment s s.server ok in_step refl room no_quote says

  -- FTPChdirAndGetCWD of a directory whose name is not empty and whose command fits, when the server
  -- answers the command with a reply of the second class whose first line is `line`, and `more` is how
  -- the operation goes on from there.
  chdir-Ends :
      (size : ℕ) (dir line : Bytes) (found : Found) (d : D) (s : Session D)
      → IsReliable rep
      → InStep rep s
      → (length dir == 0) ≡ false
      → IsShort (cd_command dir)
      → Says (cd_command dir) s.server 2 line
      → ((s' : Session D) (rp : Response)
          → InStep rep s'
          → s'.server ≡ (rep (line_of (cd_command dir)) s.server).2
          → Ends rep (cwd_or_ask size rp (quoted_first size line) s') found d)
      → Ends rep (ftp_chdir_and_get_cwd dir size s) found d
  unfolding ftp_chdir_and_get_cwd
  chdir-Ends size dir line found d s ok in_step has_name short says more =
      let cmd = cd_command dir in
      let rp = (reply_to rep cmd s.server).1 in
      subst
        (λ b.
          Ends rep
            ((if b
                then ftp_get_cwd size
                else with_response failed_with (λ rp0. consult rp0 cmd >>= cwd_result size))
              s)
            found d)
        (sym has_name)
        (with_response-Ends rep failed_with (λ rp0. consult rp0 cmd >>= cwd_result size) s found d
          in_step
          (bind-Ends rep (consult init_response cmd) (cwd_result size) s (reply_to rep cmd s.server)
            (rep (line_of cmd) s.server).2 found d
            (consult-Ends rep cmd s s.server ok in_step refl short)
            (λ s' in_step' at'.
              subst (λ n. Ends rep (cwd_result size (kind n, rp) s') found d) (sym says.class_said)
                (subst (λ l. Ends rep (cwd_or_ask size rp (quoted_first size l) s') found d)
                  (sym (said-first cmd s.server 2 line says)) (more s' rp in_step' at')))))

  -- When the reply to the command starts with the new directory in quotes, that is written, and no other
  -- command is sent.
  pub ftp_chdir_and_get_cwd-in_quotes :
      (size : ℕ) (dir cwd comment : Bytes) (s : Session D)
      → IsReliable rep
      → InStep rep s
      → (length dir == 0) ≡ false
      → IsShort (cd_command dir)
      → HasNoQuote comment
      → Says (cd_command dir) s.server 2 (in_quotes cwd comment)
      → Ends rep
          (ftp_chdir_and_get_cwd dir size s)
          (no_err, some (take (size - 1) cwd))
          (rep (line_of (cd_command dir)) s.server).2
  ftp_chdir_and_get_cwd-in_quotes size dir cwd comment s ok in_step has_name short no_quote says =
      let found : Found = (no_err, some (take (size - 1) cwd)) in
      let d = (rep (line_of (cd_command dir)) s.server).2 in
      chdir-Ends size dir (in_quotes cwd comment) found d s ok in_step has_name short says
        (λ s' rp in_step' at'.
          subst (λ q. Ends rep (cwd_or_ask size rp q s') found d)
            (sym (quoted_first-in_quotes size cwd comment no_quote))
            (release-Ends rep rp found s' d in_step' at'))

  -- FTPChdirAndGetCWD of a directory whose name is not empty and whose command fits, with an array of at
  -- least one byte: when the server answers the command with a reply of the second class that does not
  -- start with a quote, and then PWD with one that names a directory in quotes, that
  -- directory is written.
  pub ftp_chdir_and_get_cwd-asks :
      (size : ℕ) (dir line cwd comment : Bytes) (s : Session D)
      → IsReliable rep
      → InStep rep s
      → (length dir == 0) ≡ false
      → (size == 0) ≡ false
      → IsShort (cd_command dir)
      → HasNoQuote comment
      → (get_or line 0 0 == b'"') ≡ false
      → Says (cd_command dir) s.server 2 line
      → Says (codes "PWD") (rep (line_of (cd_command dir)) s.server).2 2 (in_quotes cwd comment)
      → Ends rep
          (ftp_chdir_and_get_cwd dir size s)
          (no_err, some (take (size - 1) cwd))
          (rep (line_of (codes "PWD")) (rep (line_of (cd_command dir)) s.server).2).2
  ftp_chdir_and_get_cwd-asks size dir line cwd comment s ok in_step has_name room short no_quote
        no_dir says then_says =
      let found : Found = (no_err, some (take (size - 1) cwd)) in
      let d1 = (rep (line_of (cd_command dir)) s.server).2 in
      let d2 = (rep (line_of (codes "PWD")) d1).2 in
      chdir-Ends size dir line found d2 s ok in_step has_name short says (λ s' rp in_step' at'.
        subst (λ q. Ends rep (cwd_or_ask size rp q s') found d2)
          (sym (quoted_first-plain size line no_dir))
          (bind-Ends rep (release rp no_err) (λ e. ftp_get_cwd size) s' no_err d1 found d2
            (release-Ends rep rp no_err s' d1 in_step' at')
            (λ s'' in_step'' at''.
              get_cwd-Ends size cwd comment s'' d1 ok in_step'' at'' room no_quote then_says)))
