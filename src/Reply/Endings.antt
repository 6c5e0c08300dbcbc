-- ===== src/Reply/Endings.antt =====
-- The ways in which GetResponse may end.
use ncftp.Base.{◌≡◌, ◌≢◌, ◌⊎◌, ap, inl, inr, true, false, List, [], ◌∷◌, ◌++◌}
use ncftp.Reply.{
  Conn, Input, timed_out, end_of_file, failed, Outcome, no_err, invalid_reply_from_server,
  control_timed_out, remote_host_closed_connection, Err,
}

-- The connection but for what was reported.
abbrev pub quiet : Conn → Conn
quiet cip = record cip { log = [] }

-- Only `err_no` has changed.
abbrev pub marked : Conn → Err → Conn
marked cip e = record cip { err_no = e; log = [] }

-- Everything is closed, no reply is remembered, and `err_no` tells why; the rest is as before.
abbrev pub closed : Conn → Err → Conn
closed cip e = record cip {
  err_no = e;
  data_open = false;
  ctrl_open = false;
  connected = false;
  logged_in = false;
  last_lines = [];
  log = [];
}

-- The result of a read that the function met last, behind reads that were good.
abbrev pub Stopped : Input → List Input → List Input → Type 0
Stopped i input rest = (before : List Input) × (input ≡ before ++ i ∷ rest)

-- No error: the connection is as before, and the code is not 421.
abbrev pub Fine : Conn → Outcome → Type 0
Fine cip out = (out.result ≡ no_err) × (out.resp.code ≢ 421) × (quiet out.conn ≡ quiet cip)

-- Nothing came in time on the control connection, or none on it once the data connection had timed out.
abbrev pub TimedOut : Conn → List Input → Outcome → Type 0
TimedOut cip input out =
    (out.result ≡ control_timed_out)
    × (quiet out.conn ≡ closed cip control_timed_out)
    × (Stopped timed_out input out.unread ⊎ (cip.data_timed_out ≡ true))

-- The server closed the connection, or said with 421 that it does.
abbrev pub Closed : Conn → List Input → Outcome → Type 0
Closed cip input out =
    (out.result ≡ remote_host_closed_connection)
    × (quiet out.conn ≡ closed cip remote_host_closed_connection)
    × (((out.resp.had_eof ≡ true) × (Stopped end_of_file input out.unread ⊎ (out.unread ≡ [])))
        ⊎ (out.resp.code ≡ 421))

-- A read failed.
abbrev pub ReadFailed : Conn → List Input → Outcome → Type 0
ReadFailed cip input out =
    (out.result ≡ invalid_reply_from_server)
    × (quiet out.conn ≡ closed cip invalid_reply_from_server)
    × Stopped failed input out.unread

-- The reply does not begin with a digit.
abbrev pub NoReply : Conn → Outcome → Type 0
NoReply cip out =
    (out.result ≡ invalid_reply_from_server)
    × (quiet out.conn ≡ marked cip invalid_reply_from_server)

abbrev pub Settled : Conn → List Input → Outcome → Type 0
Settled cip input out =
    Fine cip out
    ⊎ (TimedOut cip input out
        ⊎ (Closed cip input out ⊎ (ReadFailed cip input out ⊎ NoReply cip out)))

-- A good read more in front.
further :
    (g i : Input) (input rest : List Input) → Stopped i input rest → Stopped i (g ∷ input) rest
further g i input rest (before, e) = (g ∷ before, ap (◌∷◌ g) e)

pub later :
    (g : Input) (cip : Conn) (input : List Input) (out : Outcome)
    → Settled cip input out
    → Settled cip (g ∷ input) out
later g cip input out (inl fine) = inl fine
later g cip input out (inr (inl (r, c, inl at))) =
    inr (inl (r, c, inl (further g timed_out input out.unread at)))
later g cip input out (inr (inl (r, c, inr h))) = inr (inl (r, c, inr h))
later g cip input out (inr (inr (inl (r, c, inl (eof, inl at))))) =
    inr (inr (inl (r, c, inl (eof, inl (further g end_of_file input out.unread at)))))
later g cip input out (inr (inr (inl (r, c, inl (eof, inr h))))) =
    inr (inr (inl (r, c, inl (eof, inr h))))
later g cip input out (inr (inr (inl (r, c, inr h)))) = inr (inr (inl (r, c, inr h)))
later g cip input out (inr (inr (inr (inl (r, c, at))))) =
    inr (inr (inr (inl (r, c, further g failed input out.unread at))))
later g cip input out (inr (inr (inr (inr h)))) = inr (inr (inr (inr h)))
