-- ===== src/Reply/RoundTrip.antt =====
-- GetResponse reads a reply off the wire: its code, its lines, and no line of what follows.
use mathlib.Core.List.{append_assoc}
use mathlib.Core.Path.{ap₂}
use ncftp.Base.{
  ℕ, ◌||◌, ◌-◌, ◌≡◌, ap, ◌∙◌, ◌≢◌, Bool, true, false, List, [], ◌∷◌, ◌++◌, map, arith, ◌==◌,
  if◌then◌else◌,
}
use ncftp.Base.Bytes.{Bytes, is_digit, c_str, HasNoNul, c_str-append, atoi}
use ncftp.Reply.{
  Conn, Response, Input, got, finish, continue_loop, first_line, read_loop, get_response, no_err,
  remote_host_closed_connection,
}
use ncftp.Reply.Wire.{
  chop-newline, ends_line-newline, behind, Code, IsCode, code_bytes, value, coded, text_of,
  render_middle, Reply, short, long, render, texts, Fits,
}
use ncftp.Reply.LongReply.{continue-all}

-- The response with the code and the lines of a reply.
abbrev pub received : Response → Code → Reply → Response
received rp k r = record rp {
  code_type = k.hundreds - b'0';
  code = value k;
  msg = rp.msg ++ texts r;
}

digit-ne_zero : (c : ℕ) → is_digit c ≡ true → (c == 0) ≡ false
digit-ne_zero c h = ground arith

code-c_str :
    (k : Code) (tail : Bytes)
    → IsCode k
    → c_str (k.hundreds ∷ k.tens ∷ k.units ∷ 0 ∷ tail) ≡ code_bytes k
code-c_str k tail ok = rw (
  digit-ne_zero k.hundreds ok.hundreds_ok,
  digit-ne_zero k.tens ok.tens_ok,
  digit-ne_zero k.units ok.units_ok,
)

atoi-code : (k : Code) → IsCode k → atoi (code_bytes k) ≡ value k
atoi-code k ok = rw (ok.hundreds_ok, ok.tens_ok, ok.units_ok) (omega arith)

first-coded :
    (k : Code) (sep : ℕ) (text tail : Bytes) (cip : Conn) (rp : Response) (rest : List Input)
    → IsCode k
    → HasNoNul text
    → first_line true (k.hundreds ∷ k.tens ∷ k.units ∷ sep ∷ text ++ 0 ∷ tail) cip rp rest ≡ (
        if sep == b'-'
        then continue_loop
            (code_bytes k)
            (k.hundreds ∷ k.tens ∷ k.units ∷ 0 ∷ text ++ 0 ∷ tail)
            cip
            (received rp k (short text))
            rest
        else finish cip (received rp k (short text)) rest)
unfolding first_line
first-coded k sep text tail cip rp rest ok no_nul = rw (
  ok.hundreds_ok,
  code-c_str k (text ++ 0 ∷ tail) ok,
  atoi-code k ok,
  c_str-append text tail no_nul,
)

digit-ne_newline : (c : ℕ) → is_digit c ≡ true → (c == b'\n' || c == 0) ≡ false
digit-ne_newline c h = ground arith

-- A first line that is not blank, with its newline.
read-line :
    (ready : ℕ → Bool) (buf : Bytes) (c : ℕ) (s : Bytes) (cip : Conn) (rp : Response)
    (rest : List Input)
    → cip.data_timed_out ≡ false
    → (c == b'\n' || c == 0) ≡ false
    → get_response ready buf cip rp (got c (s ++ 10 ∷ []) ∷ rest)
      ≡ first_line true ((c ∷ s) ++ 0 ∷ 0 ∷ behind (c ∷ s) buf) cip rp rest
unfolding get_response read_loop
read-line ready buf c s cip rp rest idle text =
    simp (idle, text)
      (ap₂ (λ b k. first_line true b k rp rest) (chop-newline (c ∷ s) buf)
        (rw (ends_line-newline (c ∷ s) buf)))

-- What GetResponse does with a reply on the wire, up to its last step.
read-render :
    (k : Code) (r : Reply) (ready : ℕ → Bool) (buf : Bytes) (cip : Conn) (rp : Response)
    (rest : List Input)
    → IsCode k
    → Fits k r
    → cip.data_timed_out ≡ false
    → get_response ready buf cip rp (render k r ++ rest) ≡ finish cip (received rp k r) rest
unfolding get_response
read-render k (short t) ready buf cip rp rest ok fits idle =
    read-line ready buf k.hundreds (k.tens ∷ k.units ∷ 32 ∷ t) cip rp rest idle
      (digit-ne_newline k.hundreds ok.hundreds_ok)
    ∙ first-coded k 32 t (0 ∷ behind (k.hundreds ∷ k.tens ∷ k.units ∷ 32 ∷ t) buf) cip rp rest ok
        fits
read-render k (long t ms last) ready buf cip rp rest ok (no_nul, fits, last_fits) idle =
    let tail = 0 ∷ behind (k.hundreds ∷ k.tens ∷ k.units ∷ b'-' ∷ t) buf in
    let more = (map (render_middle k) ms ++ coded k 32 last ∷ []) ++ rest in
    read-line ready buf k.hundreds (k.tens ∷ k.units ∷ b'-' ∷ t) cip rp more idle
      (digit-ne_newline k.hundreds ok.hundreds_ok)
    ∙ first-coded k b'-' t tail cip rp more ok no_nul
    ∙ continue-all k ms last (k.hundreds ∷ k.tens ∷ k.units ∷ 0 ∷ t ++ 0 ∷ tail) cip
        (received rp k (short t)) rest ok fits last_fits
    ∙ ap
        (λ m.
          finish cip (record rp { code_type = k.hundreds - b'0'; code = value k; msg = m }) rest)
        (append_assoc rp.msg (t ∷ []) (map text_of ms ++ last ∷ []))

finish_other :
    (cip : Conn) (rp : Response) (rest : List Input)
    → rp.code ≢ 421
    → finish cip rp rest ≡ record { result = no_err; conn = cip; resp = rp; unread = rest }
unfolding finish
finish_other cip rp rest ne = ground arith

finish_421 :
    (cip : Conn) (rp : Response) (rest : List Input)
    → rp.code ≡ 421
    → ((finish cip rp rest).result ≡ remote_host_closed_connection)
      × ((finish cip rp rest).resp ≡ rp)
      × ((finish cip rp rest).unread ≡ rest)
      × ((finish cip rp rest).conn.ctrl_open ≡ false)
      × ((finish cip rp rest).conn.connected ≡ false)
      × ((finish cip rp rest).conn.err_no ≡ remote_host_closed_connection)
unfolding finish
finish_421 cip rp rest e = ground arith

-- GetResponse of a reply as RFC 959 writes it, each line of which SReadline reads whole and AddLine has
-- memory for, with a code other than 421, returns no error and
-- leaves the connection as it was. The response has the code, its first digit as the type, and
-- the text of every line in order; what follows the reply stays unread. The array `str` may hold
-- anything on entry, and the data connection has not timed out.
pub get_response-render :
    (k : Code) (r : Reply) (ready : ℕ → Bool) (buf : Bytes) (cip : Conn) (rp : Response)
    (rest : List Input)
    → IsCode k
    → Fits k r
    → value k ≢ 421
    → cip.data_timed_out ≡ false
    → get_response ready buf cip rp (render k r ++ rest)
      ≡ record { result = no_err; conn = cip; resp = received rp k r; unread = rest }
get_response-render k r ready buf cip rp rest ok fits ne idle =
    read-render k r ready buf cip rp rest ok fits idle ∙ finish_other cip (received rp k r) rest ne

-- A reply 421, each line of which SReadline reads whole and AddLine has memory for, is read in the same
-- way, but closes the connection and is an error.
pub get_response-render_421 :
    (k : Code) (r : Reply) (ready : ℕ → Bool) (buf : Bytes) (cip : Conn) (rp : Response)
    (rest : List Input)
    → IsCode k
    → Fits k r
    → value k ≡ 421
    → cip.data_timed_out ≡ false
    → let out = get_response ready buf cip rp (render k r ++ rest) in
      (out.result ≡ remote_host_closed_connection)
      × (out.resp ≡ received rp k r)
      × (out.unread ≡ rest)
      × (out.conn.ctrl_open ≡ false)
      × (out.conn.connected ≡ false)
      × (out.conn.err_no ≡ remote_host_closed_connection)
get_response-render_421 k r ready buf cip rp rest ok fits e idle =
    rw (read-render k r ready buf cip rp rest ok fits idle)
      (finish_421 cip (received rp k r) rest e)
