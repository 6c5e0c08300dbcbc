-- ===== src/Command/Tests.antt =====
-- A command, its reply, and the theorems about rcmd.c at them.
use ncftp.Base.{◌≡◌, refl, true, false, [], ◌∷◌, ◌++◌, arith}
use ncftp.Base.Bytes.{Bytes, codes}
use ncftp.Base.Int.{pos}
use ncftp.Reply.{no_err, Conn}
use ncftp.Reply.Wire.{Code, IsCode, Reply, short, render}
use ncftp.Command.{all_written, kind, World, send_command_str, ftp_cmd}
use ncftp.Command.Sending.{IsCommand, lf, eol, sent_command, send_command_str-eol}
use ncftp.Command.Exchange.{Remembers, ftp_cmd-render}

abbrev conn : Conn
conn = record {
  err_no = no_err;
  ctrl_open = true;
  data_open = false;
  connected = true;
  logged_in = true;
  data_timed_out = false;
  last_str = [];
  last_num = pos 0;
  last_lines = [];
  user = codes "me";
  firewall_in_use = false;
  has_response_proc = true;
  sent = [];
  log = [];
}

abbrev world : World
world = record { room = true; writes = all_written; ready = λ n. true; buf = codes "old text" }

abbrev pwd : Bytes
pwd = codes "PWD"

pwd-IsCommand : IsCommand pwd
pwd-IsCommand = record { no_lf = refl; no_cr = refl; long_enough = omega arith }

abbrev code_257 : Code
code_257 = record { hundreds = b'2'; tens = b'5'; units = b'7' }

code_257-IsCode : IsCode code_257
code_257-IsCode = record { hundreds_ok = refl; tens_ok = refl; units_ok = refl }

abbrev reply : Reply
reply = short (codes "/home/me")

send_command_str-eol_example :
    send_command_str all_written conn (pwd ++ eol lf) 16 ≡ (no_err, sent_command conn pwd)
send_command_str-eol_example = send_command_str-eol conn pwd lf 16 pwd-IsCommand refl (omega arith)

ftp_cmd-render_example :
    ((ftp_cmd world conn pwd (render code_257 reply ++ [])).answered ≡ kind 2)
    × ((ftp_cmd world conn pwd (render code_257 reply ++ [])).conn.sent
        ≡ (pwd ++ 13 ∷ 10 ∷ []) ∷ [])
    × Remembers (ftp_cmd world conn pwd (render code_257 reply ++ [])).conn code_257 reply
    × ((ftp_cmd world conn pwd (render code_257 reply ++ [])).unread ≡ [])
ftp_cmd-render_example =
    ftp_cmd-render world conn pwd code_257 reply [] pwd-IsCommand (omega arith) refl refl refl refl
      code_257-IsCode (ground arith) (omega arith)
