-- ===== src/Remote.antt =====
-- Operations on the server's files: libncftp/c_chdir.c, c_getcwd.c, c_chdir3.c, c_type.c, c_size.c,
-- c_modtime.c, c_rename.c and c_umask.c, over the exchanges of Command. The server is a state and a
-- function that answers a line that it is sent.
pub mod Dirs
pub mod Types
mod Tests
pub mod Pwd
pub mod Consulting
pub mod Arriving
pub mod Walking
pub mod Tree
pub mod Serving
pub mod Files
use ncftp.Base.{
  ℕ, zero, suc, ◌+◌, ◌-◌, Bool, true, false, not, ◌&&◌, ◌||◌, Option, none, some, List, [], ◌∷◌,
  ◌++◌, ltb, ◌==◌, if◌then◌else◌, length, get_or, take, drop,
}
use ncftp.Base.Bytes.{Bytes, codes, strn_eq}
use ncftp.Base.Formats.{scan_decimal}
use ncftp.Base.Int.{ℤ, pos, negsuc}
use ncftp.Reply.{
  Err, no_err, malloc_failed, bad_parameter, bad_transfer_type, invalid_dir_param, pwd_failed,
  cwd_failed, umask_failed, size_failed, mdtm_failed, type_failed, size_not_available,
  mdtm_not_available, rename_failed, malloc_note, note, Conn, Response, Input, Outcome,
}
use ncftp.Command.{
  send_command, done_with_response, init_response, Answer, kind, fail, World, Exchanged, ftp_cmd,
  r_cmd,
}

-- kCommandAvailabilityUnknown, kCommandAvailable and kCommandNotAvailable.
pub data Availability : Type 0 where
  unknown available not_available : Availability

-- The fields of an FTPConnectionInfo that this part uses, the bytes that the server has sent and that are
-- not read, the world's doings by the number of the exchange, and the server.
pub record Session (D : Type 0) : Type 0 where
  pub conn : Conn
  pub cur_type : ℕ
  pub has_size : Availability
  pub has_mdtm : Availability
  pub has_mdtm_set : Availability
  pub unread : List Input
  pub turn : ℕ
  pub worlds : ℕ → World
  pub server : D
  pub serve : Bytes → D → List Input × D

abbrev pub Op : Type 0 → Type 0 → Type 0
Op D A = Session D → A × Session D

abbrev pub is_no_err : Err → Bool
is_no_err e = elim e [ no_err ↦ true | _ ↦ false ]

module _ {D : Type 0} where
  infixl 10 ◌>>=◌
  abbrev pub ◌>>=◌ : {A B : Type 0} → Op D A → (A → Op D B) → Op D B
  (op >>= f) s = f (op s).0 (op s).1

  abbrev pub pure : {A : Type 0} → A → Op D A
  pure a s = (a, s)

  -- `cip->errNo = e; return e`.
  abbrev pub refuse : Err → Op D Err
  refuse e s = (e, record s { conn = record s.conn { err_no = e } })

  -- The server answers the latest line that it was sent; of a line that was written in part it gets the
  -- part, and may answer nothing.
  abbrev pub answers : Session D → Bool → List Bytes → List Input × D
  answers s false lines = ([], s.server)
  answers s true [] = ([], s.server)
  answers s true (line ∷ lines) = s.serve line s.server

  abbrev pub finish_command : Session D → List Input × D → Exchanged → Answer × Session D
  finish_command s coming x = (
    x.answered,
    record s { conn = x.conn; unread = x.unread; turn = s.turn + 1; server = coming.1 },
  )

  -- FTPCmd of a formatted command.
  unfoldable pub command : Bytes → Op D Answer
  command cmd s =
      let w = s.worlds s.turn in
      let sending = send_command w.writes s.conn cmd in
      let coming = answers s (w.room && is_no_err sending.0) sending.1.sent in
      finish_command s coming (ftp_cmd w s.conn cmd (s.unread ++ coming.0))

  abbrev pub finish_consult :
      Session D → List Input × D → Answer × Outcome → (Answer × Response) × Session D
  finish_consult s coming x = (
    (x.0, x.1.resp),
    record s { conn = x.1.conn; unread = x.1.unread; turn = s.turn + 1; server = coming.1 },
  )

  -- RCmd, with the response that it fills.
  unfoldable pub consult : Response → Bytes → Op D (Answer × Response)
  consult rp cmd s =
      let w = s.worlds s.turn in
      let sending = send_command w.writes s.conn cmd in
      let coming = answers s (is_no_err sending.0) sending.1.sent in
      finish_consult s coming (r_cmd w s.conn rp cmd (s.unread ++ coming.0))

  -- DoneWithResponse.
  abbrev pub release : {A : Type 0} → Response → A → Op D A
  release rp a s = (a, record s { conn = done_with_response s.conn rp })

  -- InitResponse, and what is returned where it fails.
  abbrev pub with_response : {A : Type 0} → (Err → A) → (Response → Op D A) → Op D A
  with_response failed body s = if (s.worlds s.turn).room then body init_response s else (
    failed malloc_failed,
    record s { conn = note (record s.conn { err_no = malloc_failed }) malloc_note },
  )
