-- ===== src/Remote/Serving.antt =====
-- A server that always answers, as FTPCmd sees it.
use mathlib.Core.List.{append-nil}
use mathlib.Core.Path.{subst}
use ncftp.Base.{
  ℕ, ◌+◌, ◌-◌, ◌<◌, ◌≡◌, refl, ap, sym, ◌∙◌, ◌≢◌, Bool, true, false, ◌&&◌, List, [], ◌∷◌, ◌++◌,
  length,
}
use ncftp.Base.Bytes.{Bytes}
use ncftp.Reply.{no_err, Err, Conn, Input}
use ncftp.Reply.Wire.{Code, IsCode, value, Reply, render, Fits}
use ncftp.Reply.RoundTrip.{received}
use ncftp.Command.{
  all_written, send_command, longstring_size, init_response, done_with_response, kind, ftp_cmd,
}
use ncftp.Command.Sending.{IsCommand, sent_command}
use ncftp.Command.Exchange.{send_command-ok, ftp_cmd-sent, receive-render, done-open}
use ncftp.Remote.{Session, Op, ◌>>=◌, pure, refuse, is_no_err, answers, finish_command, command}

-- The code and the text of the answer to a line, and the server behind it.
abbrev pub Answering : Type 0 → Type 0
Answering D = Bytes → D → Code × Reply × D

-- Every answer can be sent, and none of them is 421.
pub record IsReliable {D : Type 0} (rep : Answering D) : Type 0 where
  pub code_ok : (line : Bytes) (d : D) → IsCode (rep line d).0
  pub reply_ok : (line : Bytes) (d : D) → Fits (rep line d).0 (rep line d).1
  pub not_421 : (line : Bytes) (d : D) → value (rep line d).0 ≢ 421

-- The connection is open and has been read to the end, memory does not fail, writes write everything, and the server
-- answers as it should.
pub record InStep {D : Type 0} (rep : Answering D) (s : Session D) : Type 0 where
  pub up : s.conn.ctrl_open ≡ true
  pub idle : s.conn.data_timed_out ≡ false
  pub drained : s.unread ≡ []
  pub room : (n : ℕ) → (s.worlds n).room ≡ true
  pub writes : (n : ℕ) → (s.worlds n).writes ≡ all_written
  pub serves :
      (line : Bytes) (d : D)
      → s.serve line d ≡ (render (rep line d).0 (rep line d).1, (rep line d).2)

-- A command that fits its array.
abbrev pub IsShort : Bytes → Type 0
IsShort cmd = IsCommand cmd × (length cmd + 3 < longstring_size)

abbrev pub line_of : Bytes → Bytes
line_of cmd = cmd ++ 13 ∷ 10 ∷ []

-- The first digit of the answer's code.
abbrev pub class_of : Code → ℕ
class_of k = k.hundreds - b'0'

module _ {D : Type 0} (rep : Answering D) where
  -- The session behind a command.
  abbrev pub after : Bytes → Session D → Session D
  after cmd s =
      let a = rep (line_of cmd) s.server in
      record s {
        conn = done_with_response (sent_command s.conn cmd) (received init_response a.0 a.1);
        unread = [];
        turn = s.turn + 1;
        server = a.2;
      }

  pub answers-sent :
      (s : Session D) (b : Bool) (sending : Err × Conn) (cmd : Bytes)
      → b ≡ true
      → sending ≡ (no_err, sent_command s.conn cmd)
      → answers s (b && is_no_err sending.0) sending.1.sent ≡ s.serve (line_of cmd) s.server
  answers-sent s b sending cmd eb es =
      ap (λ b'. answers s (b' && is_no_err sending.0) sending.1.sent) eb
      ∙ ap (λ x. answers s (is_no_err x.0) x.1.sent) es

  pub command-after :
      (cmd : Bytes) (s : Session D)
      → IsReliable rep
      → InStep rep s
      → IsShort cmd
      → command cmd s ≡ (kind (class_of (rep (line_of cmd) s.server).0), after cmd s)
  unfolding command
  command-after cmd s ok in_step short =
      let a = rep (line_of cmd) s.server in
      let w = s.worlds s.turn in
      let coming : List Input × D = (render a.0 a.1, a.2) in
      let sends : send_command w.writes s.conn cmd ≡ (no_err, sent_command s.conn cmd) =
        ap (λ b. send_command b s.conn cmd) (in_step.writes s.turn)
        ∙ send_command-ok s.conn cmd short.0 short.1 in_step.up in
      let comes =
        answers-sent s w.room (send_command w.writes s.conn cmd) cmd (in_step.room s.turn) sends
        ∙ in_step.serves (line_of cmd) s.server in
      ap (λ c. finish_command s c (ftp_cmd w s.conn cmd (s.unread ++ c.0))) comes
      ∙ ap (λ u. finish_command s coming (ftp_cmd w s.conn cmd (u ++ render a.0 a.1)))
          in_step.drained
      ∙ ap (λ i. finish_command s coming (ftp_cmd w s.conn cmd i))
          (sym (append-nil (render a.0 a.1)))
      ∙ ap (finish_command s coming) (
          ftp_cmd-sent w s.conn (sent_command s.conn cmd) cmd (render a.0 a.1 ++ [])
            (in_step.room s.turn) sends
          ∙ receive-render w (sent_command s.conn cmd) a.0 a.1 []
              (ok.code_ok (line_of cmd) s.server) (ok.reply_ok (line_of cmd) s.server)
              (ok.not_421 (line_of cmd) s.server) in_step.idle)

  pub after-InStep : (cmd : Bytes) (s : Session D) → InStep rep s → InStep rep (after cmd s)
  after-InStep cmd s in_step =
      let a = rep (line_of cmd) s.server in
      let stays = done-open (sent_command s.conn cmd) (received init_response a.0 a.1) in
      record {
        up = stays.0 ∙ in_step.up;
        idle = stays.1 ∙ in_step.idle;
        drained = refl;
        room = in_step.room;
        writes = in_step.writes;
        serves = in_step.serves;
      }

  -- An operation gives a result and leaves the server in a state, with the connection in step.
  pub record Ends {A : Type 0} (x : A × Session D) (a : A) (d : D) : Type 0 where
    pub result : x.0 ≡ a
    pub state : x.1.server ≡ d
    pub in_step : InStep rep x.1

  pub bind-Ends :
      {A B : Type 0} (op : Op D A) (f : A → Op D B) (s : Session D) (a : A) (d : D) (b : B) (d' : D)
      → Ends (op s) a d
      → ((s' : Session D) → InStep rep s' → s'.server ≡ d → Ends (f a s') b d')
      → Ends ((op >>= f) s) b d'
  bind-Ends op f s a d b d' ends more =
      subst (λ a'. Ends (f a' (op s).1) b d') (sym ends.result)
        (more (op s).1 ends.in_step ends.state)

  pub pure-Ends :
      {A : Type 0} (a : A) (s : Session D) (d : D)
      → InStep rep s
      → s.server ≡ d
      → Ends (pure a s) a d
  pure-Ends a s d in_step at = record { result = refl; state = at; in_step = in_step }

  pub refuse-Ends :
      (e : Err) (s : Session D) (d : D) → InStep rep s → s.server ≡ d → Ends (refuse e s) e d
  refuse-Ends e s d in_step at = record {
    result = refl;
    state = at;
    in_step = record {
      up = in_step.up;
      idle = in_step.idle;
      drained = in_step.drained;
      room = in_step.room;
      writes = in_step.writes;
      serves = in_step.serves;
    };
  }

  -- A command is answered by the server.
  pub command-Ends :
      (cmd : Bytes) (s : Session D) (d : D)
      → IsReliable rep
      → InStep rep s
      → s.server ≡ d
      → IsShort cmd
      → Ends (command cmd s) (kind (class_of (rep (line_of cmd) d).0)) (rep (line_of cmd) d).2
  command-Ends cmd s d ok in_step at short =
      let e = command-after cmd s ok in_step short in
      record {
        result = ap (λ x. x.0) e ∙ ap (λ d'. kind (class_of (rep (line_of cmd) d').0)) at;
        state = ap (λ x. x.1.server) e ∙ ap (λ d'. (rep (line_of cmd) d').2) at;
        in_step = subst (λ x. InStep rep x.1) (sym e) (after-InStep cmd s in_step);
      }
