-- ===== src/Remote/Files.antt =====
-- Files on the server: FTPSetTransferType of libncftp/c_type.c, FTPFileSize of libncftp/c_size.c,
-- FTPFileModificationTime of libncftp/c_modtime.c, FTPRename of libncftp/c_rename.c and FTPUmask of
-- libncftp/c_umask.c.
use ncftp.Base.{
  ℕ, Bool, true, false, ◌||◌, Option, none, some, [], ◌∷◌, ◌++◌, ◌==◌, if◌then◌else◌, length,
}
use ncftp.Base.Bytes.{Bytes, codes, strn_eq}
use ncftp.Base.Formats.{scan_decimal}
use ncftp.Base.Int.{ℤ, negsuc}
use ncftp.Facts.{number_or}
use ncftp.Facts.Time.{Clock, un_mdtm_date}
use ncftp.Reply.{
  Err, no_err, bad_parameter, bad_transfer_type, umask_failed, size_failed, mdtm_failed,
  type_failed, size_not_available, mdtm_not_available, rename_failed, year_note, bad_type_note,
  note, Response,
}
use ncftp.Command.{Answer, kind, fail}
use ncftp.Remote.{
  Availability, available, not_available, Session, Op, is_no_err, ◌>>=◌, pure, refuse, command,
  consult, release, with_response,
}
use ncftp.Remote.Dirs.{reply_line, is_kind_2}

-- The types that FTPSetTransferType knows, by the letters that may stand for them.
abbrev pub type_of_letter : ℕ → Option ℕ
type_of_letter t =
    if t == b'A' || t == b'I' || t == b'E'
    then some t
    else if t == b'i' || t == b'b' || t == b'B'
    then some b'I'
    else if t == b'e'
    then some b'E'
    else if t == b'a'
    then some b'A'
    else none

-- FTP_UNIMPLEMENTED_CMD.
abbrev pub is_unimplemented : ℕ → Bool
is_unimplemented n = n == 500 || n == 502 || n == 504

abbrev pub is_absent : Availability → Bool
is_absent a = elim a [ not_available ↦ true | _ ↦ false ]

-- What is returned, with the size or the time.
abbrev pub Told : Type 0
Told = Err × ℤ

abbrev pub untold : Err → Told
untold e = (e, negsuc 0)

module _ {D : Type 0} where
  abbrev pub note_type : ℕ → Answer → Op D Err
  note_type t a s =
      if is_kind_2 a then (no_err, record s { cur_type = t }) else refuse type_failed s

  abbrev pub send_type : Option ℕ → ℕ → Op D Err
  send_type none t s = refuse bad_transfer_type (record s { conn = note s.conn (bad_type_note t) })
  send_type (some t') t s = (command (codes "TYPE " ++ (t' ∷ [])) >>= note_type t') s

  -- FTPSetTransferType.
  unfoldable pub ftp_set_transfer_type : ℕ → Op D Err
  ftp_set_transfer_type t s =
      if s.cur_type == t then (no_err, s) else send_type (type_of_letter t) t s

  abbrev pub refused_and_released : Response → Err → Op D Told
  refused_and_released rp e = do e' ← refuse e; release rp (untold e')

  abbrev pub size_result : Answer × Response → Op D Told
  size_result (fail e, rp) s = release rp (untold e) s
  size_result (kind n, rp) s =
      if n == 2
      then release rp (no_err, number_or (scan_decimal (reply_line rp)) (negsuc 0))
          (record s { has_size = available })
      else if is_unimplemented rp.code
      then refused_and_released rp size_not_available (record s { has_size = not_available })
      else refused_and_released rp size_failed s

  abbrev pub ask_size : Bytes → Op D Told
  ask_size file s =
      if is_absent s.has_size
      then (refuse size_not_available >>= λ e. pure (untold e)) s
      else with_response untold (λ rp0. consult rp0 (codes "SIZE " ++ file) >>= size_result) s

  -- FTPFileSize of a file that is not NULL.
  unfoldable pub ftp_file_size : Bytes → ℕ → Op D Told
  ftp_file_size file t = do
    e ← ftp_set_transfer_type t
    (if is_no_err e then ask_size file else pure (untold e))

  abbrev pub with_warning : Bytes → Session D → Session D
  with_warning line s =
      if strn_eq 4 line (codes "1910") then record s { conn = note s.conn year_note } else s

  abbrev pub time_result : Clock → Answer × Response → Op D Told
  time_result clock (fail e, rp) s = release rp (untold e) s
  time_result clock (kind n, rp) s =
      if n == 2
      then release rp (no_err, un_mdtm_date clock (reply_line rp))
          (record (with_warning (reply_line rp) s) { has_mdtm = available })
      else if is_unimplemented rp.code
      then refused_and_released rp mdtm_not_available
          (record s { has_mdtm = not_available; has_mdtm_set = not_available })
      else refused_and_released rp mdtm_failed s

  -- FTPFileModificationTime of a file that is not NULL.
  unfoldable pub ftp_file_modification_time : Clock → Bytes → Op D Told
  ftp_file_modification_time clock file s =
      if is_absent s.has_mdtm
      then (refuse mdtm_not_available >>= λ e. pure (untold e)) s
      else with_response untold (λ rp0. consult rp0 (codes "MDTM " ++ file) >>= time_result clock) s

  abbrev pub rename_result : Answer → Op D Err
  rename_result (fail e) = pure e
  rename_result (kind n) = if n == 2 then pure no_err else refuse rename_failed

  abbrev pub rename_to : Bytes → Answer → Op D Err
  rename_to newname (fail e) = pure e
  rename_to newname (kind n) =
      if n == 3
      then (command (codes "RNTO " ++ newname) >>= rename_result)
      else refuse rename_failed

  -- FTPRename of names that are not NULL; it tests the old name twice, and the new one never.
  unfoldable pub ftp_rename : Bytes → Bytes → Op D Err
  ftp_rename oldname newname =
      if length oldname == 0
      then pure bad_parameter
      else command (codes "RNFR " ++ oldname) >>= rename_to newname

  -- FTPUmask of a mask that is not NULL.
  unfoldable pub ftp_umask : Bytes → Op D Err
  ftp_umask umsk =
      if length umsk == 0
      then pure bad_parameter
      else command (codes "SITE UMASK " ++ umsk) >>= λ a.
          if is_kind_2 a then pure no_err else refuse umask_failed
