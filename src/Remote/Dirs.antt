-- ===== src/Remote/Dirs.antt =====
-- Directories on the server: FTPChdir of libncftp/c_chdir.c, FTPGetCWD and FTPChdirAndGetCWD of
-- libncftp/c_getcwd.c, and the part of FTPChdir3 of libncftp/c_chdir3.c that goes through a path one node
-- at a time.
use ncftp.Base.{
  ℕ, ◌-◌, Bool, true, false, not, ◌&&◌, ◌||◌, Option, none, some, List, [], ◌∷◌, ◌++◌, ltb, leb,
  ◌==◌, if◌then◌else◌, length, take,
}
use ncftp.Base.Bytes.{Bytes, codes, strn_eq}
use ncftp.Base.Letters.{strchr}
use ncftp.Reply.{Err, no_err, bad_parameter, invalid_dir_param, pwd_failed, cwd_failed, Response}
use ncftp.Command.{Answer, kind, fail}
use ncftp.Remote.{Op, is_no_err, ◌>>=◌, pure, refuse, command, consult, release, with_response}

-- What is returned, and what is written to `newCwd`, if something is.
abbrev pub Found : Type 0
Found = Err × Option Bytes

abbrev pub failed_with : Err → Found
failed_with e = (e, none)

abbrev pub is_one_dot : Bytes → Bool
is_one_dot s = length s == 1 && strn_eq 1 s (codes ".")

abbrev pub is_dot_dot : Bytes → Bool
is_dot_dot s = length s == 2 && strn_eq 2 s (codes "..")

abbrev pub cd_command : Bytes → Bytes
cd_command dir = if is_dot_dot dir then codes "CDUP" else codes "CWD " ++ dir

-- `rp->msg.first->line`.
abbrev pub first_of : List Bytes → Bytes
first_of [] = []
first_of (l ∷ ls) = l

abbrev pub reply_line : Response → Bytes
reply_line rp = first_of rp.msg

-- strrchr and strchr: the string in front of the character.
abbrev pub more_before : ℕ → Bool → Option Bytes → Option Bytes
more_before d here none = if here then some [] else none
more_before d here (some t) = some (d ∷ t)

abbrev pub before_last : ℕ → Bytes → Option Bytes
before_last c [] = none
before_last c (d ∷ s) = let rest = before_last c s in more_before d (d == c) rest

abbrev pub before_first : ℕ → Bytes → Option Bytes
before_first c [] = none
before_first c (d ∷ s) =
    let rest = before_first c s in if d == c then some [] else more_before d false rest

-- Strncpy to an array of `size` bytes.
abbrev pub copied : ℕ → Bytes → Option Bytes
copied size s = some (take (size - 1) s)

-- The text between the first quote and the last one, if they are two.
abbrev pub quoted_part : ℕ → Option Bytes → Option Bytes
quoted_part size none = none
quoted_part size (some []) = none
quoted_part size (some (q ∷ s)) = copied size s

abbrev pub first_word : ℕ → Option Bytes → Option Bytes
first_word size none = none
first_word size (some s) = copied size s

-- With or without a last quote.
abbrev pub cwd_between : ℕ → Bytes → Option Bytes → Option Bytes
cwd_between size line none = first_word size (before_first b' ' line)
cwd_between size line (some front) = quoted_part size (strchr b'"' front)

abbrev pub cwd_in : ℕ → Bytes → Option Bytes
cwd_in size line = cwd_between size line (before_last b'"' line)

-- The directory that a reply names at its start.
abbrev pub quoted_first : ℕ → Bytes → Option Bytes
quoted_first size [] = none
quoted_first size (c ∷ s) = if c == b'"' then quoted_part size (before_last b'"' (c ∷ s)) else none

abbrev pub is_kind_2 : Answer → Bool
is_kind_2 (fail e) = false
is_kind_2 (kind n) = n == 2

abbrev pub or_before : Option Bytes → Found → Found
or_before cwd (e, none) = (e, cwd)
or_before cwd (e, some cwd') = (e, some cwd')

-- The nodes of a path, between slashes.
abbrev pub add_to_first : ℕ → List Bytes → List Bytes
add_to_first c [] = (c ∷ []) ∷ []
add_to_first c (d ∷ ds) = (c ∷ d) ∷ ds

abbrev pub dirs_of : Bytes → List Bytes
dirs_of [] = [] ∷ []
dirs_of (c ∷ s) = let rest = dirs_of s in if c == b'/' then [] ∷ rest else add_to_first c rest

module _ {D : Type 0} where
  abbrev pub cwd_refused : Err → Op D Found
  cwd_refused e = do e' ← refuse e; pure (failed_with e')

  abbrev pub chdir_result : Answer → Op D Err
  chdir_result (fail e) = pure e
  chdir_result (kind n) = if n == 2 then pure no_err else refuse cwd_failed

  -- FTPChdir of a directory that is not NULL.
  unfoldable pub ftp_chdir : Bytes → Op D Err
  ftp_chdir dir =
      if length dir == 0 then pure no_err else do a ← command (cd_command dir); chdir_result a

  abbrev pub pwd_result : ℕ → Answer × Response → Op D Found
  pwd_result size (fail e, rp) = release rp (failed_with e)
  pwd_result size (kind n, rp) =
      if n == 2
      then release rp (no_err, cwd_in size (reply_line rp))
      else if ltb 0 n
      then (do found ← cwd_refused pwd_failed; release rp found)
      else release rp (failed_with no_err)

  -- FTPGetCWD with an array that is not NULL.
  unfoldable pub ftp_get_cwd : ℕ → Op D Found
  ftp_get_cwd size =
      if size == 0
      then cwd_refused invalid_dir_param
      else with_response failed_with (λ rp0. do x ← consult rp0 (codes "PWD"); pwd_result size x)

  abbrev pub cwd_or_ask : ℕ → Response → Option Bytes → Op D Found
  cwd_or_ask size rp (some cwd) = release rp (no_err, some cwd)
  cwd_or_ask size rp none = do e ← release rp no_err; ftp_get_cwd size

  abbrev pub cwd_result : ℕ → Answer × Response → Op D Found
  cwd_result size (fail e, rp) = release rp (failed_with e)
  cwd_result size (kind n, rp) =
      if n == 2
      then cwd_or_ask size rp (quoted_first size (reply_line rp))
      else if ltb 0 n
      then (do found ← cwd_refused cwd_failed; release rp found)
      else release rp (failed_with no_err)

  -- FTPChdirAndGetCWD of names that are not NULL.
  unfoldable pub ftp_chdir_and_get_cwd : Bytes → ℕ → Op D Found
  ftp_chdir_and_get_cwd dir size =
      if length dir == 0
      then ftp_get_cwd size
      else with_response failed_with (λ rp0. do x ← consult rp0 (cd_command dir); cwd_result size x)

  -- With or without a look at the new directory.
  abbrev pub go_to : Bool → ℕ → Bytes → Op D Found
  go_to look size dir =
      if look then ftp_chdir_and_get_cwd dir size else do e ← ftp_chdir dir; pure (failed_with e)

  abbrev pub note_failure : Found → Op D Found
  note_failure (e, cwd) = do e' ← refuse e; pure (e', cwd)

  abbrev pub go_if_made : Bool → ℕ → Bytes → Found → Answer → Op D Found
  go_if_made pwd size dir found a = if is_kind_2 a then go_to pwd size dir else note_failure found

  -- A node that cannot be entered is made, if that is asked for.
  abbrev pub or_make : Bool → Bool → ℕ → Bytes → Found → Op D Found
  or_make mkd pwd size dir found =
      if is_no_err found.0
      then pure found
      else if mkd && not (length dir == 0)
      then (command (codes "MKD " ++ dir) >>= go_if_made pwd size dir found)
      else note_failure found

  -- One round of the loop of FTPChdir3; an empty node in front of a slash is the root.
  unfoldable pub enter_node : Bool → Bool → ℕ → Bool → Bytes → Op D Found
  enter_node mkd pwd size last dir = do
    found ←
        (if is_one_dot dir
          then (if last && pwd then ftp_get_cwd size else pure (failed_with no_err))
          else go_to (last && pwd) size (if length dir == 0 then codes "/" else dir))
    or_make mkd pwd size dir found

  -- The loop goes on while a round returns 0.
  abbrev pub go_through : Op D Found → Found → Op D Found
  go_through more found =
      if is_no_err found.0 then (more >>= λ found'. pure (or_before found.1 found')) else pure found

  unfoldable pub enter_nodes : Bool → Bool → ℕ → List Bytes → Op D Found
  enter_nodes mkd pwd size [] = pure (failed_with no_err)
  enter_nodes mkd pwd size (dir ∷ []) = enter_node mkd pwd size true dir
  enter_nodes mkd pwd size (dir ∷ dir' ∷ dirs) =
      enter_node mkd pwd size false dir >>= go_through (enter_nodes mkd pwd size (dir' ∷ dirs))

  -- FTPChdir3 with kChdirOneSubdirAtATime and without kChdirFullPath, with a `buf` of `buf_size` bytes.
  unfoldable pub chdir_one_at_a_time : Bool → Bool → ℕ → ℕ → Bytes → Op D Found
  chdir_one_at_a_time mkd pwd size buf_size dir =
      if leb buf_size 1
      then pure (failed_with bad_parameter)
      else if length dir == 0 || is_one_dot dir
      then (if pwd then ftp_get_cwd size else pure (failed_with no_err))
      else enter_nodes mkd pwd size (dirs_of (take (buf_size - 1) dir))
