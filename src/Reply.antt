-- ===== src/Reply.antt =====
-- Replies of the server: GetResponse of libncftp/rcmd.c, with FTPShutdownHost, and the connection
-- state that they change. The list of lines of a reply is the abstract list of LineList.
pub mod Wire
pub mod LongReply
pub mod RoundTrip
pub mod Endings
pub mod Safety
mod Tests
use ncftp.Base.{
  ℕ, ◌+◌, ◌-◌, Bool, true, false, not, ◌&&◌, ◌||◌, List, [], ◌∷◌, ◌++◌, ltb, ◌==◌, if◌then◌else◌,
  length, set, get_or, drop,
}
use ncftp.Base.Bytes.{Bytes, is_digit, c_str, overlay, strn_eq, atoi}
use ncftp.Base.Int.{ℤ}

-- kNoErr and the codes of ncftp_errno.h that the modelled parts of the library return.
pub data Err : Type 0 where
  no_err control_timed_out remote_host_closed_connection invalid_reply_from_server : Err
  not_connected bad_parameter socket_write_failed malloc_failed : Err
  bad_transfer_type invalid_dir_param pwd_failed cwd_failed umask_failed size_failed : Err
  mdtm_failed type_failed size_not_available mdtm_not_available rename_failed : Err

-- What FTPLogError and PrintF are told.
pub data Note : Type 0 where
  timed_out_note closed_note read_failed_note blank_line_note write_failed_note malloc_note : Note
  year_note : Note
  bad_type_note : ℕ → Note
  too_long_note invalid_reply_note command_note : Bytes → Note
  traced : ℕ → List Bytes → Note
  shown : List Bytes → Note

-- The fields of an FTPConnectionInfo that this part reads or writes. `ctrl_open` says that the
-- control sockets are open, `data_open` that the data socket is; `sent` are the commands written
-- to the control socket and `log` what was reported, the latest first.
pub record Conn : Type 0 where
  pub err_no : Err
  pub ctrl_open : Bool
  pub data_open : Bool
  pub connected : Bool
  pub logged_in : Bool
  pub data_timed_out : Bool
  pub last_str : Bytes
  pub last_num : ℤ
  pub last_lines : List Bytes
  pub user : Bytes
  pub firewall_in_use : Bool
  pub has_response_proc : Bool
  pub sent : List Bytes
  pub log : List Note

pub record Response : Type 0 where
  pub msg : List Bytes
  pub code_type : ℕ
  pub code : ℕ
  pub print_mode : ℕ
  pub eof_okay : Bool
  pub had_eof : Bool

-- A result of SReadline: a positive count with the bytes read (the first and the others, which fit the
-- 512 bytes of `str` with their NUL), kTimeoutErr, 0, or another negative number. With `lost` too a
-- line was read, but an AddLine of it will not get memory.
pub data Input : Type 0 where
  got : ℕ → Bytes → Input
  lost : ℕ → Bytes → Input
  timed_out end_of_file failed : Input

-- What GetResponse returns and leaves: its code, the connection, the response, the unread input.
pub record Outcome : Type 0 where
  pub result : Err
  pub conn : Conn
  pub resp : Response
  pub unread : List Input

abbrev pub note : Conn → Note → Conn
note cip n = record cip { log = n ∷ cip.log }

-- FTPShutdownHost on a connection that is not NULL.
pub shut_down : Conn → Conn
shut_down cip = record cip {
  data_open = false;
  ctrl_open = false;
  connected = false;
  logged_in = false;
  last_lines = [];
}

abbrev give_up : Conn → Err → Response → List Input → Outcome
give_up cip e rp rest = record {
  result = e;
  conn = record cip { err_no = e };
  resp = rp;
  unread = rest;
}

-- The three ways in which a read of the control connection fails, the same in both loops.
unfoldable pub on_timeout : Conn → Response → List Input → Outcome
unfolding shut_down
on_timeout cip rp rest = give_up (shut_down (note cip timed_out_note)) control_timed_out rp rest

unfoldable pub on_eof : Conn → Response → List Input → Outcome
unfolding shut_down
on_eof cip rp rest =
    give_up (shut_down (if rp.eof_okay then cip else note cip closed_note))
      remote_host_closed_connection (record rp { had_eof = true }) rest

unfoldable pub on_failure : Conn → Response → List Input → Outcome
unfolding shut_down
on_failure cip rp rest =
    give_up (shut_down (note cip read_failed_note)) invalid_reply_from_server rp rest

-- `str` after a read of `s` with its newline, if it has one, overwritten by a NUL.
abbrev pub chop : Bytes → Bytes → Bytes
chop s buf =
    if get_or (overlay s buf) (length s - 1) 0 == b'\n'
    then set (overlay s buf) (length s - 1) 0
    else overlay s buf

-- The end of GetResponse, once the whole reply is read.
unfoldable pub finish : Conn → Response → List Input → Outcome
unfolding shut_down
finish cip rp rest =
    if rp.code == 421
    then give_up (shut_down (if rp.eof_okay then cip else note cip closed_note))
        remote_host_closed_connection rp rest
    else record { result = no_err; conn = cip; resp = rp; unread = rest }

-- AddLine, whose result is ignored: without memory the line is not added.
abbrev pub add_msg : Bool → Response → Bytes → Response
add_msg true rp line = record rp { msg = rp.msg ++ line ∷ [] }
add_msg false rp line = rp

-- Whether a line of a long reply bears its code, and whether it then is the last one.
abbrev pub bears : Bytes → Bytes → Bool
bears code str = strn_eq 3 code str

abbrev pub line_text : Bytes → Bytes → Bytes
line_text code str = if bears code str then c_str (drop 4 str) else c_str str

abbrev pub is_last : Bytes → Bytes → Bool
is_last code str =
    if bears code str then (if get_or str 3 0 == b'-' then false else true) else false

-- `while (continuation)`: `buf` is what `str` holds, `code` the characters of the reply's code.
unfoldable pub continue_loop : Bytes → Bytes → Conn → Response → List Input → Outcome
continue_loop code buf cip rp [] = on_eof cip rp []
continue_loop code buf cip rp (timed_out ∷ rest) = on_timeout cip rp rest
continue_loop code buf cip rp (end_of_file ∷ rest) = on_eof cip rp rest
continue_loop code buf cip rp (failed ∷ rest) = on_failure cip rp rest
continue_loop code buf cip rp (got c s ∷ rest) =
    let str = chop (c ∷ s) buf in
    let rp' = add_msg true rp (line_text code str) in
    let more = continue_loop code str cip rp' rest in
    if is_last code str then finish cip rp' rest else more
continue_loop code buf cip rp (lost c s ∷ rest) =
    let str = chop (c ∷ s) buf in
    let rp' = add_msg false rp (line_text code str) in
    let next = continue_loop code str cip rp' rest in
    if is_last code str then finish cip rp' rest else next

-- Behind the first line that is not blank; `str` is the buffer, and `kept` says whether there is memory
-- for the line.
unfoldable pub first_line : Bool → Bytes → Conn → Response → List Input → Outcome
first_line kept str cip rp rest =
    if is_digit (get_or str 0 0)
    then (let code = c_str (set str 3 0) in
        let rp' =
          add_msg kept (record rp { code_type = get_or str 0 0 - b'0'; code = atoi code })
            (c_str (drop 4 str)) in
        if get_or str 3 0 == b'-'
        then continue_loop code (set str 3 0) cip rp' rest
        else finish cip rp' rest)
    else give_up (note cip (invalid_reply_note (c_str str))) invalid_reply_from_server rp rest

abbrev pub ends_line : Bytes → Bytes → Bool
ends_line s buf = get_or (overlay s buf) (length s - 1) 0 == b'\n'

-- What the loop does with a read that succeeded and is not blank.
abbrev pub warn_long : Bytes → Bytes → Conn → Conn
warn_long s buf cip =
    if ends_line s buf then cip else note cip (too_long_note (c_str (overlay s buf)))

-- The answer of SWaitUntilReadyForReading that the loop asks for in round `n`, once the data
-- connection has timed out.
abbrev pub stalled : (ℕ → Bool) → ℕ → Conn → Bool
stalled ready n cip = cip.data_timed_out && not (ready n)

-- The loop that reads the first line that is not blank, in round `n`; `buf` is what `str` holds.
unfoldable pub read_loop : (ℕ → Bool) → ℕ → Bytes → Conn → Response → List Input → Outcome
read_loop ready n buf cip rp [] =
    if stalled ready n cip then on_timeout cip rp [] else on_eof cip rp []
read_loop ready n buf cip rp (timed_out ∷ rest) =
    on_timeout cip rp (if stalled ready n cip then timed_out ∷ rest else rest)
read_loop ready n buf cip rp (end_of_file ∷ rest) =
    if stalled ready n cip then on_timeout cip rp (end_of_file ∷ rest) else on_eof cip rp rest
read_loop ready n buf cip rp (failed ∷ rest) =
    if stalled ready n cip then on_timeout cip rp (failed ∷ rest) else on_failure cip rp rest
read_loop ready n buf cip rp (got c s ∷ rest) =
    let blank = read_loop ready (n + 1) (overlay (c ∷ s) buf) (note cip blank_line_note) rp rest in
    if stalled ready n cip
    then on_timeout cip rp (got c s ∷ rest)
    else if c == b'\n' || c == 0
    then blank
    else first_line true (chop (c ∷ s) buf) (warn_long (c ∷ s) buf cip) rp rest
read_loop ready n buf cip rp (lost c s ∷ rest) =
    let blank = read_loop ready (n + 1) (overlay (c ∷ s) buf) (note cip blank_line_note) rp rest in
    if stalled ready n cip
    then on_timeout cip rp (lost c s ∷ rest)
    else if c == b'\n' || c == 0
    then blank
    else first_line false (chop (c ∷ s) buf) (warn_long (c ∷ s) buf cip) rp rest

-- GetResponse. `buf` is what the array `str` holds when the function is entered.
unfoldable pub get_response : (ℕ → Bool) → Bytes → Conn → Response → List Input → Outcome
get_response ready buf cip rp input = read_loop ready 0 buf cip rp input
