-- ===== src/Remote/Consulting.antt =====
-- A server that always answers, as RCmd sees it.
use mathlib.Core.List.{append-nil}
use mathlib.Core.Path.{subst}
use ncftp.Base.{◌+◌, ◌≡◌, ◌≢◌, refl, ap, sym, ◌∙◌, true, false, List, [], ◌++◌, if◌then◌else◌}
use ncftp.Base.Bytes.{Bytes}
use ncftp.Reply.{no_err, malloc_failed, malloc_note, note, Err, Conn, Response, Input, Outcome}
use ncftp.Reply.Wire.{Code, IsCode, value, Reply, render, Fits}
use ncftp.Reply.RoundTrip.{received, get_response-render}
use ncftp.Command.{send_command, init_response, Answer, answer, kind, World, respond, r_cmd}
use ncftp.Command.Sending.{sent_command}
use ncftp.Command.Exchange.{send_command-ok, done-open}
use ncftp.Remote.{Session, Op, finish_consult, consult, release, with_response}
use ncftp.Remote.Serving.{
  Answering, IsReliable, InStep, IsShort, line_of, class_of, answers-sent, Ends,
}

outcome : Conn → Code → Reply → Outcome
outcome cip k r = record {
  result = no_err;
  conn = cip;
  resp = received init_response k r;
  unread = [];
}

r_cmd-render :
    (w : World) (cip : Conn) (cmd : Bytes) (k : Code) (r : Reply)
    → IsCode k
    → Fits k r
    → value k ≢ 421
    → cip.data_timed_out ≡ false
    → send_command w.writes cip cmd ≡ (no_err, sent_command cip cmd)
    → r_cmd w cip init_response cmd (render k r)
      ≡ (kind (class_of k), outcome (sent_command cip cmd) k r)
unfolding r_cmd respond outcome
r_cmd-render w cip cmd k r code_ok reply_ok ne idle sends =
    let cip' = sent_command cip cmd in
    ap (λ x. respond w init_response (render k r) x.0 x.1) sends
    ∙ ap (λ i. respond w init_response i no_err cip') (sym (append-nil (render k r)))
    ∙ ap (λ out. (answer out, out))
        (get_response-render k r w.ready w.buf cip' init_response [] code_ok reply_ok ne idle)

module _ {D : Type 0} (rep : Answering D) where
  -- The session behind RCmd.
  abbrev after : Bytes → Session D → Session D
  after cmd s = record s {
    conn = sent_command s.conn cmd;
    unread = [];
    turn = s.turn + 1;
    server = (rep (line_of cmd) s.server).2;
  }

  -- What RCmd gives: the class of the answer, and the response.
  abbrev pub reply_to : Bytes → D → Answer × Response
  reply_to cmd d =
      let a = rep (line_of cmd) d in (kind (class_of a.0), received init_response a.0 a.1)

  consult-after :
      (cmd : Bytes) (s : Session D)
      → IsReliable rep
      → InStep rep s
      → IsShort cmd
      → consult init_response cmd s ≡ (reply_to cmd s.server, after cmd s)
  unfolding consult outcome
  consult-after cmd s ok in_step short =
      let a = rep (line_of cmd) s.server in
      let w = s.worlds s.turn in
      let coming : List Input × D = (render a.0 a.1, a.2) in
      let sends : send_command w.writes s.conn cmd ≡ (no_err, sent_command s.conn cmd) =
        ap (λ b. send_command b s.conn cmd) (in_step.writes s.turn)
        ∙ send_command-ok s.conn cmd short.0 short.1 in_step.up in
      let comes =
        answers-sent rep s true (send_command w.writes s.conn cmd) cmd refl sends
        ∙ in_step.serves (line_of cmd) s.server in
      ap (λ c. finish_consult s c (r_cmd w s.conn init_response cmd (s.unread ++ c.0))) comes
      ∙ ap (λ u. finish_consult s coming (r_cmd w s.conn init_response cmd (u ++ render a.0 a.1)))
          in_step.drained
      ∙ ap (finish_consult s coming) (
          r_cmd-render w s.conn cmd a.0 a.1 (ok.code_ok (line_of cmd) s.server)
            (ok.reply_ok (line_of cmd) s.server) (ok.not_421 (line_of cmd) s.server) in_step.idle
            sends)

  after-InStep : (cmd : Bytes) (s : Session D) → InStep rep s → InStep rep (after cmd s)
  after-InStep cmd s in_step = record {
    up = in_step.up;
    idle = in_step.idle;
    drained = refl;
    room = in_step.room;
    writes = in_step.writes;
    serves = in_step.serves;
  }

  pub consult-Ends :
      (cmd : Bytes) (s : Session D) (d : D)
      → IsReliable rep
      → InStep rep s
      → s.server ≡ d
      → IsShort cmd
      → Ends rep (consult init_response cmd s) (reply_to cmd d) (rep (line_of cmd) d).2
  consult-Ends cmd s d ok in_step at short =
      let e = consult-after cmd s ok in_step short in
      record {
        result = ap (λ x. x.0) e ∙ ap (reply_to cmd) at;
        state = ap (λ x. x.1.server) e ∙ ap (λ d'. (rep (line_of cmd) d').2) at;
        in_step = subst (λ x. InStep rep x.1) (sym e) (after-InStep cmd s in_step);
      }

  pub release-Ends :
      {A : Type 0} (rp : Response) (a : A) (s : Session D) (d : D)
      → InStep rep s
      → s.server ≡ d
      → Ends rep (release rp a s) a d
  release-Ends rp a s d in_step at = record {
    result = refl;
    state = at;
    in_step = record {
      up = (done-open s.conn rp).0 ∙ in_step.up;
      idle = (done-open s.conn rp).1 ∙ in_step.idle;
      drained = in_step.drained;
      room = in_step.room;
      writes = in_step.writes;
      serves = in_step.serves;
    };
  }

  -- An operation that asks for a response has one.
  pub with_response-Ends :
      {A : Type 0} (failed : Err → A) (body : Response → Op D A) (s : Session D) (a : A) (d : D)
      → InStep rep s
      → Ends rep (body init_response s) a d
      → Ends rep (with_response failed body s) a d
  with_response-Ends failed body s a d in_step ends =
      subst
        (λ b.
          Ends rep
            (if b then body init_response s else (
              failed malloc_failed,
              record s { conn = note (record s.conn { err_no = malloc_failed }) malloc_note },
            ))
            a d)
        (sym (in_step.room s.turn)) ends
