-- ===== src/Command/Sending.antt =====
-- What FTPSendCommandStr puts on the control connection.
use mathlib.Core.List.{append_assoc, append-nil}
use ncftp.Base.Int.{negsuc}
use ncftp.Base.{
  zero, ℕ, suc, ◌+◌, ◌-◌, ◌≤◌, ◌<◌, ◌≡◌, refl, sym, ap, ◌∙◌, ◌≢◌, ◌⊎◌, true, false, some, [], ◌∷◌,
  ◌++◌, arith, leb, ◌==◌, length, length-append, get_or, take,
}
use ncftp.Base.Bytes.{Bytes}
use ncftp.Reply.{Err}
use ncftp.Reply.{no_err, Conn, command_note}
use ncftp.Reply.Wire.{get_or-append}
use ncftp.Command.{Written, all_written, part_written, strip_eol, printed, send_command_str}

pub take-append : (s r : Bytes) → take (length s) (s ++ r) ≡ s
take-append [] r = refl
take-append (c ∷ s) r = ap (◌∷◌ c) (take-append s r)

-- A command that does not end in LF or CR, of two characters at least.
pub record IsCommand (cmd : Bytes) : Type 0 where
  pub no_lf : (get_or cmd (length cmd - 1) 0 == 10) ≡ false
  pub no_cr : (get_or cmd (length cmd - 1) 0 == 13) ≡ false
  pub long_enough : 2 ≤ length cmd

-- The three ways in which a command may end.
pub data Ending : Type 0 where
  bare lf cr_lf : Ending

abbrev pub eol : Ending → Bytes
eol bare = []
eol lf = 10 ∷ []
eol cr_lf = 13 ∷ 10 ∷ []

get_or-append_left : (s r : Bytes) (i d : ℕ) → i < length s → get_or (s ++ r) i d ≡ get_or s i d
get_or-append_left [] r i d h = absurd (omega arith)
get_or-append_left (c ∷ s) r zero d h = refl
get_or-append_left (c ∷ s) r (suc i) d h = get_or-append_left s r i d (omega arith)

strip_lf :
    (cmd : Bytes) (n : ℕ)
    → IsCommand cmd
    → length (cmd ++ 10 ∷ []) ≡ n
    → n ≡ length cmd + 1
    → strip_eol (cmd ++ 10 ∷ []) ≡ some cmd
unfolding strip_eol
strip_lf cmd n ok e e' =
    let one : n - 1 ≡ length cmd = omega arith in
    let two : n - 2 ≡ length cmd - 1 = omega arith in
    let long : leb n 2 ≡ false = ground (arith, ok.long_enough) in
    let inside : length cmd - 1 < length cmd = omega (arith, ok.long_enough) in
    rw (
      e,
      one,
      two,
      long,
      get_or-append cmd [] 10 0,
      get_or-append_left cmd (10 ∷ []) (length cmd - 1) 0 inside,
      ok.no_cr,
      take-append cmd (10 ∷ []),
    )

strip_cr_lf :
    (cmd : Bytes) (n : ℕ)
    → IsCommand cmd
    → length (cmd ++ 13 ∷ 10 ∷ []) ≡ n
    → n ≡ length cmd + 2
    → strip_eol (cmd ++ 13 ∷ 10 ∷ []) ≡ some cmd
unfolding strip_eol
strip_cr_lf cmd n ok e e' =
    let one : n - 1 ≡ length (cmd ++ 13 ∷ []) = omega (arith, length-append cmd (13 ∷ [])) in
    let two : n - 2 ≡ length cmd = omega arith in
    let long : leb n 2 ≡ false = ground (arith, ok.long_enough) in
    let lf =
      ap (λ l. get_or l (length (cmd ++ 13 ∷ [])) 0) (sym (append_assoc cmd (13 ∷ []) (10 ∷ [])))
      ∙ get_or-append (cmd ++ 13 ∷ []) [] 10 0 in
    rw (e, one, two, long, lf, get_or-append cmd (10 ∷ []) 13 0, take-append cmd (13 ∷ 10 ∷ []))

strip_eol-eol : (cmd : Bytes) (e : Ending) → IsCommand cmd → strip_eol (cmd ++ eol e) ≡ some cmd
unfolding strip_eol
strip_eol-eol cmd bare ok = rw (append-nil cmd, ok.no_lf)
strip_eol-eol cmd lf ok =
    strip_lf cmd (length (cmd ++ 10 ∷ [])) ok refl (omega (arith, length-append cmd (10 ∷ [])))
strip_eol-eol cmd cr_lf ok =
    strip_cr_lf cmd (length (cmd ++ 13 ∷ 10 ∷ [])) ok refl
      (omega (arith, length-append cmd (13 ∷ 10 ∷ [])))

-- The connection behind a command that was sent.
abbrev pub sent_command : Conn → Bytes → Conn
sent_command cip cmd = record cip {
  last_str = [];
  last_num = negsuc 0;
  sent = (cmd ++ 13 ∷ 10 ∷ []) ∷ cip.sent;
  log = command_note (printed cip cmd) ∷ cip.log;
}

nonempty : (cmd r : Bytes) → 2 ≤ length cmd → (length (cmd ++ r) == 0) ≡ false
nonempty cmd r h = ground (arith, length-append cmd r)

-- A command of two characters at least, that does not end in LF or CR, may be given with nothing behind
-- it, with LF or with CR LF: on an open connection, with room for three more bytes in its array, and
-- when SWrite writes everything, the same line goes out, with one CR LF, and the last result is cleared.
pub send_command_str-eol :
    (cip : Conn) (cmd : Bytes) (e : Ending) (siz : ℕ)
    → IsCommand cmd
    → cip.ctrl_open ≡ true
    → length cmd + 3 < siz
    → send_command_str all_written cip (cmd ++ eol e) siz ≡ (no_err, sent_command cip cmd)
unfolding send_command_str
send_command_str-eol cip cmd e siz ok up room =
    let fits : leb siz (length cmd + 3) ≡ false = ground (arith, room) in
    simp (up, nonempty cmd (eol e) ok.long_enough, strip_eol-eol cmd e ok, fits)

-- What went out of a line: all of it, or a part, as SWrite did.
abbrev pub WentOut : Written → Bytes → Conn → Conn → Type 0
WentOut writes line cip cip' =
    ((writes ≡ all_written) × (cip'.sent ≡ line ∷ cip.sent))
    ⊎ ((n : ℕ) × (writes ≡ part_written n) × (cip'.sent ≡ take n line ∷ cip.sent))

-- Either a command went out, and it is the given one without its ending, or nothing did.
abbrev pub Sent : Written → Conn → Bytes → ℕ → Err × Conn → Type 0
Sent writes cip command siz (e, cip') =
    ((e ≡ no_err)
      × (cmd : Bytes) × (end : Ending) × (command ≡ cmd ++ eol end)
      × WentOut writes (cmd ++ 13 ∷ 10 ∷ []) cip cip'
      × (length cmd + 3 < siz))
    ⊎ ((e ≢ no_err) × (cip'.sent ≡ cip.sent))
