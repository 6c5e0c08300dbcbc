-- ===== src/Command/Exchange.antt =====
-- FTPCmd and RCmd: a command, its reply, and what the connection remembers of it.
use mathlib.Core.List.{append-nil}
use ncftp.Base.{
  zero, suc, ℕ, ◌+◌, ◌-◌, ◌<◌, ◌≡◌, refl, sym, ◌≢◌, ap, ◌∙◌, true, false, List, [], ◌∷◌, ◌++◌,
  arith, length, take,
}
use ncftp.Base.Bytes.{Bytes}
use ncftp.Base.Int.{pos}
use ncftp.Reply.{no_err, Conn, Input, Response}
use ncftp.Reply.Wire.{Code, IsCode, value, Reply, short, long, render, texts, Fits}
use ncftp.Reply.RoundTrip.{received, get_response-render}
use ncftp.Command.{
  all_written, send_command, send_command_str, longstring_size, init_response, done_with_response,
  kind, World, receive, ftp_cmd,
}
use ncftp.Command.Sending.{IsCommand, bare, sent_command, send_command_str-eol}

-- The first line of a reply.
abbrev first_text : Reply → Bytes
first_text (short t) = t
first_text (long t ms last) = t

-- The connection keeps the code and all the lines of the reply, and 127 bytes of its first one.
abbrev pub Remembers : Conn → Code → Reply → Type 0
Remembers cip k r =
    (cip.last_num ≡ pos (value k))
    × (cip.last_lines ≡ texts r)
    × (cip.last_str ≡ take 127 (first_text r))

done-Remembers :
    (cip : Conn) (k : Code) (r : Reply)
    → Remembers (done_with_response cip (received init_response k r)) k r
unfolding done_with_response
done-Remembers cip k (short t) = ground arith
done-Remembers cip k (long t ms last) = ground arith

done-sent :
    (cip : Conn) (k : Code) (r : Reply)
    → (done_with_response cip (received init_response k r)).sent ≡ cip.sent
unfolding done_with_response
done-sent cip k (short t) = ground arith
done-sent cip k (long t ms last) = ground arith

take-all : (n : ℕ) (s : Bytes) → length s < n → take n s ≡ s
take-all zero s h = absurd (omega arith)
take-all (suc n) [] h = refl
take-all (suc n) (c ∷ s) h = ap (◌∷◌ c) (take-all n s (omega arith))

pub done-open :
    (cip : Conn) (rp : Response)
    → ((done_with_response cip rp).ctrl_open ≡ cip.ctrl_open)
      × ((done_with_response cip rp).data_timed_out ≡ cip.data_timed_out)
unfolding done_with_response
done-open cip rp = ground arith

pub send_command-ok :
    (cip : Conn) (cmd : Bytes)
    → IsCommand cmd
    → length cmd + 3 < longstring_size
    → cip.ctrl_open ≡ true
    → send_command all_written cip cmd ≡ (no_err, sent_command cip cmd)
unfolding send_command
send_command-ok cip cmd ok fits up =
    ap (λ s. send_command_str all_written cip s longstring_size)
      (take-all (longstring_size - 2) cmd (omega arith) ∙ sym (append-nil cmd))
    ∙ send_command_str-eol cip cmd bare longstring_size ok up fits

pub ftp_cmd-sent :
    (w : World) (cip cip' : Conn) (cmd : Bytes) (input : List Input)
    → w.room ≡ true
    → send_command w.writes cip cmd ≡ (no_err, cip')
    → ftp_cmd w cip cmd input ≡ receive w cip' input
unfolding ftp_cmd
ftp_cmd-sent w cip cip' cmd input room e = simp (room, e)

-- The reply that FTPCmd reads, once its command is sent.
pub receive-render :
    (w : World) (cip : Conn) (k : Code) (r : Reply) (rest : List Input)
    → IsCode k
    → Fits k r
    → value k ≢ 421
    → cip.data_timed_out ≡ false
    → receive w cip (render k r ++ rest) ≡ record {
      answered = kind (k.hundreds - b'0');
      conn = done_with_response cip (received init_response k r);
      unread = rest;
    }
receive-render w cip k r rest code_ok reply_ok ne idle =
    rw (get_response-render k r w.ready w.buf cip init_response rest code_ok reply_ok ne idle)

-- FTPCmd of a command whose memory and write succeed, the write with all the bytes, on an open connection whose data connection
-- has not timed out, when SReadline reads each line of the reply whole: it sends the command as one line, reads the whole reply of the server and
-- no more, returns the first digit of its code, and the connection remembers the reply.
pub ftp_cmd-render :
    (w : World) (cip : Conn) (cmd : Bytes) (k : Code) (r : Reply) (rest : List Input)
    → IsCommand cmd
    → length cmd + 3 < longstring_size
    → w.room ≡ true
    → w.writes ≡ all_written
    → cip.ctrl_open ≡ true
    → cip.data_timed_out ≡ false
    → IsCode k
    → Fits k r
    → value k ≢ 421
    → ((ftp_cmd w cip cmd (render k r ++ rest)).answered ≡ kind (k.hundreds - b'0'))
      × ((ftp_cmd w cip cmd (render k r ++ rest)).conn.sent ≡ (cmd ++ 13 ∷ 10 ∷ []) ∷ cip.sent)
      × Remembers (ftp_cmd w cip cmd (render k r ++ rest)).conn k r
      × ((ftp_cmd w cip cmd (render k r ++ rest)).unread ≡ rest)
ftp_cmd-render w cip cmd k r rest ok fits room writes up idle code_ok reply_ok ne =
    let cip' = sent_command cip cmd in
    let sends : send_command w.writes cip cmd ≡ (no_err, cip') =
      ap (λ b. send_command b cip cmd) writes ∙ send_command-ok cip cmd ok fits up in
    rw
      (ftp_cmd-sent w cip cip' cmd (render k r ++ rest) room sends
        ∙ receive-render w cip' k r rest code_ok reply_ok ne idle)
      (refl, done-sent cip' k r, done-Remembers cip' k r, refl)
