-- ===== src/Reply/Tests.antt =====
-- Replies of a server, and the theorems about GetResponse at them.
use ncftp.Base.{ℕ, ◌≡◌, refl, true, false, Bool, [], ◌∷◌, ◌++◌, arith}
use ncftp.Base.Bytes.{codes, c_str}
use ncftp.Base.Int.{pos}
use ncftp.Reply.{
  no_err, remote_host_closed_connection, Conn, Response, got, end_of_file, on_eof, finish,
  continue_loop, first_line, read_loop, get_response,
}
use ncftp.Reply.Wire.{Code, IsCode, Reply, short, long, bare, dashed, render, Fits}
use ncftp.Reply.RoundTrip.{received, get_response-render, get_response-render_421}
use ncftp.Reply.Safety.{get_response_stale}

abbrev conn : Conn
conn = record {
  err_no = no_err;
  ctrl_open = true;
  data_open = false;
  connected = true;
  logged_in = true;
  data_timed_out = false;
  last_str = [];
  last_num = pos 0;
  last_lines = [];
  user = codes "anonymous";
  firewall_in_use = false;
  has_response_proc = false;
  sent = [];
  log = [];
}

abbrev resp : Response
resp = record {
  msg = [];
  code_type = 0;
  code = 0;
  print_mode = 0;
  eof_okay = false;
  had_eof = false;
}

abbrev ready : ℕ → Bool
ready n = true

abbrev code_230 : Code
code_230 = record { hundreds = b'2'; tens = b'3'; units = b'0' }

abbrev code_421 : Code
code_421 = record { hundreds = b'4'; tens = b'2'; units = b'1' }

abbrev welcome : Reply
welcome =
    long (codes "Welcome") (bare (codes "23 users") ∷ bare [] ∷ dashed (codes "see README") ∷ [])
      (codes "Logged in")

code_230-IsCode : IsCode code_230
code_230-IsCode = record { hundreds_ok = refl; tens_ok = refl; units_ok = refl }

welcome-Fits : Fits code_230 welcome
welcome-Fits = ground arith

-- The reply, then the first line of another, in a buffer that is not clean.
get_response-render_example :
    get_response ready (codes "garbage") conn resp (render code_230 welcome ++ got b'2' [] ∷ [])
    ≡ record {
      result = no_err;
      conn = conn;
      resp = received resp code_230 welcome;
      unread = got b'2' [] ∷ [];
    }
get_response-render_example =
    get_response-render code_230 welcome ready (codes "garbage") conn resp (got b'2' [] ∷ [])
      code_230-IsCode welcome-Fits (omega arith) refl

get_response-render_421_example :
    let out = get_response ready [] conn resp (render code_421 (short (codes "Bye")) ++ []) in
    (out.result ≡ remote_host_closed_connection)
    × (out.resp ≡ received resp code_421 (short (codes "Bye")))
    × (out.unread ≡ [])
    × (out.conn.ctrl_open ≡ false)
    × (out.conn.connected ≡ false)
    × (out.conn.err_no ≡ remote_host_closed_connection)
get_response-render_421_example =
    get_response-render_421 code_421 (short (codes "Bye")) ready [] conn resp []
      (record { hundreds_ok = refl; tens_ok = refl; units_ok = refl }) (ground arith) refl refl

get_response_stale_example :
    (get_response ready (codes "220 secret") conn resp (got b'2' (10 ∷ []) ∷ [])).resp.msg
    ≡ [] ++ c_str (codes "secret") ∷ []
get_response_stale_example =
    get_response_stale b'2' b'2' b'2' b'0' 32 (codes "secret") ready conn resp [] refl refl refl

eof_in_reply :
    (get_response ready [] conn resp (got b'2' (codes "30-Hello\n") ∷ end_of_file ∷ [])).result
    ≡ remote_host_closed_connection
unfolding get_response read_loop first_line continue_loop finish on_eof
eof_in_reply = refl
