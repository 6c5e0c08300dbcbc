-- ===== src/Command.antt =====
-- Commands to the server: the other functions of libncftp/rcmd.c on simple commands. A C string is
-- the list of its bytes; `siz` is the size of the array that holds the command.
pub mod Sending
pub mod Exchange
mod Tests
use ncftp.Base.{
  ℕ, ◌+◌, ◌-◌, ◌*◌, ◌/◌, ◌%◌, Bool, true, false, not, ◌&&◌, ◌||◌, Option, none, some, List, [], ◌∷◌,
  ◌++◌, ltb, leb, ◌==◌, if◌then◌else◌, length, get_or, take,
}
use ncftp.Base.Bytes.{Bytes, codes, strn_eq}
use ncftp.Base.Int.{ℤ, pos, negsuc}
use ncftp.Reply.{
  Err, no_err, not_connected, bad_parameter, socket_write_failed, malloc_failed, malloc_note,
  write_failed_note, command_note, traced, shown, note, Conn, Response, Input, Outcome,
  get_response,
}

-- The command without its end of line, which may be LF or CR LF; `none` for an end of line with at
-- most one character before it.
pub strip_eol : Bytes → Option Bytes
strip_eol cmd =
    if get_or cmd (length cmd - 1) 0 == b'\n'
    then (if leb (length cmd) 2
        then none
        else if get_or cmd (length cmd - 2) 0 == b'\r'
        then some (take (length cmd - 2) cmd)
        else some (take (length cmd - 1) cmd))
    else some cmd

-- What is printed of a command: a password is masked, unless it is that of an anonymous user.
pub printed : Conn → Bytes → Bytes
printed cip cmd =
    if not (strn_eq 4 cmd (codes "PASS"))
      || (strn_eq 10 cip.user (codes "anonymous") && not cip.firewall_in_use)
    then cmd
    else codes "PASS xxxxxxxx"

-- What SWrite has done when it returns: it wrote everything, or so many bytes and then timed out or
-- failed, with their number for a result, or nothing, with a negative result.
pub data Written : Type 0 where
  all_written : Written
  part_written : ℕ → Written
  not_written : Written

-- The connection with the last result cleared, and with bytes written to it.
abbrev cleared : Conn → Conn
cleared cip = record cip { last_str = []; last_num = negsuc 0 }

abbrev sending : Conn → Bytes → Conn
sending cip bytes = record cip { sent = bytes ∷ cip.sent }

-- The write of a command and its CR LF, by what SWrite does. A result that is not negative is taken
-- for success.
pub write_command : Written → Conn → Bytes → Err × Conn
write_command all_written cip cmd = (no_err, sending (cleared cip) (cmd ++ 13 ∷ 10 ∷ []))
write_command (part_written n) cip cmd =
    (no_err, sending (cleared cip) (take n (cmd ++ 13 ∷ 10 ∷ [])))
write_command not_written cip cmd = (
  socket_write_failed,
  note (record (cleared cip) { err_no = socket_write_failed }) write_failed_note,
)

-- FTPSendCommandStr.
unfoldable pub send_command_str : Written → Conn → Bytes → ℕ → Err × Conn
unfolding strip_eol printed write_command
send_command_str writes cip command siz =
    if not cip.ctrl_open
    then (not_connected, record cip { err_no = not_connected })
    else if length command == 0
    then (bad_parameter, cip)
    else elim (strip_eol command) [
      | none ↦ (bad_parameter, cip)
      | some cmd ↦
          (let cip' = note cip (command_note (printed cip cmd)) in
            if leb siz (length cmd + 3)
            then (bad_parameter, cip')
            else write_command writes cip' cmd)
    ]

-- FTPSendCommand: the command that `vsnprintf` has made, in an array of 512 bytes.
abbrev pub longstring_size : ℕ
longstring_size = 512

unfoldable pub send_command : Written → Conn → Bytes → Err × Conn
send_command writes cip formatted =
    send_command_str writes cip (take (longstring_size - 2) formatted) longstring_size

-- InitResponse, when its `calloc` succeeds.
abbrev pub init_response : Response
init_response = record {
  msg = [];
  code_type = 0;
  code = 0;
  print_mode = 0;
  eof_okay = false;
  had_eof = false;
}

-- kResponseNoSave and kResponseNoProc are the same bit.
abbrev pub no_save_flag : ℕ
no_save_flag = 2

abbrev pub no_proc_flag : ℕ
no_proc_flag = 2

abbrev pub has_flag : ℕ → ℕ → Bool
has_flag mode flag = (mode / flag) % 2 == 1

-- The size of `lastFTPCmdResultStr`.
abbrev pub last_str_size : ℕ
last_str_size = 128

-- TraceResponse on a response that is not NULL.
pub trace_response : Conn → Response → Conn
trace_response cip rp = elim rp.msg [ [] ↦ cip | l ∷ ls ↦ note cip (traced rp.code rp.msg) ]

-- SaveLastResponse on a response that is not NULL.
pub save_last_response : Conn → Response → Conn
save_last_response cip rp = elim rp.msg [
  | [] ↦ record cip { last_str = []; last_num = pos rp.code; last_lines = [] }
  | l ∷ ls ↦ record cip {
    last_str = take (last_str_size - 1) l;
    last_num = pos rp.code;
    last_lines = rp.msg;
  }
]

-- DoneWithResponse on a response that is not NULL.
unfoldable pub done_with_response : Conn → Response → Conn
unfolding trace_response save_last_response
done_with_response cip rp =
    let cip' = trace_response cip rp in
    let cip'' =
      if cip'.has_response_proc && not (has_flag rp.print_mode no_proc_flag)
      then note cip' (shown rp.msg)
      else cip' in
    if has_flag rp.print_mode no_save_flag then cip'' else save_last_response cip'' rp

-- ReInitResponse leaves a zeroed response as well.
pub re_init_response : Conn → Response → Conn × Response
re_init_response cip rp = (done_with_response cip rp, init_response)

-- The class of a reply, or an error.
pub data Answer : Type 0 where
  kind : ℕ → Answer
  fail : Err → Answer

abbrev pub answer : Outcome → Answer
answer out = elim out.result [ no_err ↦ kind out.resp.code_type | _ ↦ fail out.result ]

-- What a command's exchange leaves: its answer, the connection and the unread input.
pub record Exchanged : Type 0 where
  pub answered : Answer
  pub conn : Conn
  pub unread : List Input

-- What the world does during an exchange: whether `calloc` succeeds, what SWrite does, the answers of
-- SWaitUntilReadyForReading, what the array in GetResponse holds.
pub record World : Type 0 where
  pub room : Bool
  pub writes : Written
  pub ready : ℕ → Bool
  pub buf : Bytes

-- The part of FTPCmd behind a command that was sent.
abbrev pub receive : World → Conn → List Input → Exchanged
receive w cip input =
    let out = get_response w.ready w.buf cip init_response input in
    record {
      answered = answer out;
      conn = done_with_response out.conn out.resp;
      unread = out.unread;
    }

abbrev answered_with : Err → Conn → List Input → Exchanged
answered_with e cip input = record { answered = fail e; conn = cip; unread = input }

-- FTPCmd behind FTPSendCommand.
exchange : World → List Input → Err → Conn → Exchanged
exchange w input no_err cip = receive w cip input
exchange w input other cip = answered_with other cip input

-- FTPCmd on a connection that is not NULL and has its magic number.
unfoldable pub ftp_cmd : World → Conn → Bytes → List Input → Exchanged
unfolding exchange
ftp_cmd w cip formatted input =
    let (e, cip') = send_command w.writes cip formatted in
    if w.room
    then exchange w input e cip'
    else answered_with malloc_failed (note (record cip { err_no = malloc_failed }) malloc_note)
        input

-- RCmd behind FTPSendCommand: the response stays with the caller.
unfoldable pub respond : World → Response → List Input → Err → Conn → Answer × Outcome
respond w rp input no_err cip =
    let out = get_response w.ready w.buf cip rp input in (answer out, out)
respond w rp input other cip =
    (fail other, record { result = other; conn = cip; resp = rp; unread = input })

-- RCmd on a connection that is not NULL and has its magic number.
unfoldable pub r_cmd : World → Conn → Response → Bytes → List Input → Answer × Outcome
unfolding respond
r_cmd w cip rp formatted input =
    let (e, cip') = send_command w.writes cip formatted in respond w rp input e cip'
