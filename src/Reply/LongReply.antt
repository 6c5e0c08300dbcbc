-- ===== src/Reply/LongReply.antt =====
-- The loop over the lines of a long reply, line by line.
use mathlib.Core.List.{append_assoc}
use ncftp.Base.{ℕ, ◌≡◌, ap, ◌∙◌, true, false, List, [], ◌∷◌, ◌++◌, map, arith, ◌==◌, if◌then◌else◌}
use ncftp.Base.Bytes.{Bytes, HasNoNul, c_str-append, strn_eq}
use ncftp.Reply.{Conn, Response, Input, chop, add_msg, is_last, line_text, finish, continue_loop}
use ncftp.Reply.Wire.{
  chop-newline, strn_eq-append, behind, Code, IsCode, code_bytes, coded, Middle, bare, dashed,
  text_of, render_middle, FitsMiddle, FitAll,
}

abbrev pub add_msgs : Response → List Bytes → Response
add_msgs rp ls = record rp { msg = rp.msg ++ ls }

-- A line with the code: its text, and whether it is the last one.
line_text-coded :
    (k : Code) (sep : ℕ) (text buf : Bytes)
    → IsCode k
    → HasNoNul text
    → line_text (code_bytes k) (k.hundreds ∷ k.tens ∷ k.units ∷ sep ∷ text ++ 0 ∷ buf) ≡ text
line_text-coded k sep text buf ok no_nul = rw (c_str-append text buf no_nul) (ground arith)

is_last-coded :
    (k : Code) (sep : ℕ) (tail : Bytes)
    → IsCode k
    → is_last (code_bytes k) (k.hundreds ∷ k.tens ∷ k.units ∷ sep ∷ tail)
      ≡ (if sep == b'-' then false else true)
is_last-coded k sep tail ok = ground arith

pub chop-coded :
    (k : Code) (sep : ℕ) (text buf : Bytes)
    → chop (k.hundreds ∷ k.tens ∷ k.units ∷ sep ∷ text ++ 10 ∷ []) buf
      ≡ k.hundreds ∷ k.tens ∷ k.units ∷ sep ∷ text
        ++ 0 ∷ 0 ∷ behind (k.hundreds ∷ k.tens ∷ k.units ∷ sep ∷ text) buf
chop-coded k sep text buf = chop-newline (k.hundreds ∷ k.tens ∷ k.units ∷ sep ∷ text) buf

-- The last line of a long reply.
continue-last :
    (k : Code) (text buf : Bytes) (cip : Conn) (rp : Response) (rest : List Input)
    → IsCode k
    → HasNoNul text
    → continue_loop (code_bytes k) buf cip rp (coded k 32 text ∷ rest)
      ≡ finish cip (add_msg true rp text) rest
unfolding continue_loop
continue-last k text buf cip rp rest ok no_nul = rw (
  chop-coded k 32 text buf,
  is_last-coded k 32 (text ++ 0 ∷ 0 ∷ behind (k.hundreds ∷ k.tens ∷ k.units ∷ 32 ∷ text) buf) ok,
  line_text-coded k 32 text (0 ∷ behind (k.hundreds ∷ k.tens ∷ k.units ∷ 32 ∷ text) buf) ok no_nul,
)

-- A line that does not bear the code is taken whole.
line_text-bare :
    (k : Code) (s tail : Bytes)
    → HasNoNul s
    → strn_eq 3 (code_bytes k) s ≡ false
    → (line_text (code_bytes k) (s ++ 0 ∷ tail) ≡ s)
      × (is_last (code_bytes k) (s ++ 0 ∷ tail) ≡ false)
line_text-bare k s tail no_nul apart =
    let e = strn_eq-append 3 (code_bytes k) s tail ∙ apart in
    (rw e (c_str-append s tail no_nul), rw e)

-- A line of a long reply before the last one adds its text and is followed by another read.
abbrev Continues : Code → Bytes → Conn → Response → Middle → List Input → Type 0
Continues k buf cip rp m rest =
    (buf' : Bytes) × (continue_loop (code_bytes k) buf cip rp (render_middle k m ∷ rest)
      ≡ continue_loop (code_bytes k) buf' cip (add_msg true rp (text_of m)) rest)

continue-bare :
    (k : Code) (s buf : Bytes) (cip : Conn) (rp : Response) (rest : List Input)
    → FitsMiddle k (bare s)
    → Continues k buf cip rp (bare s) rest
unfolding continue_loop
continue-bare k [] buf cip rp rest (no_nul, apart) =
    let (e, e') = line_text-bare k [] (0 ∷ behind [] buf) no_nul apart in
    (0 ∷ 0 ∷ behind [] buf, rw (chop-newline [] buf, e', e))
continue-bare k (c ∷ s) buf cip rp rest (no_nul, apart) =
    let (e, e') = line_text-bare k (c ∷ s) (0 ∷ behind (c ∷ s) buf) no_nul apart in
    ((c ∷ s) ++ 0 ∷ 0 ∷ behind (c ∷ s) buf, rw (chop-newline (c ∷ s) buf, e', e))

continue-dashed :
    (k : Code) (s buf : Bytes) (cip : Conn) (rp : Response) (rest : List Input)
    → IsCode k
    → HasNoNul s
    → Continues k buf cip rp (dashed s) rest
unfolding continue_loop
continue-dashed k s buf cip rp rest ok no_nul =
    let tail = 0 ∷ behind (k.hundreds ∷ k.tens ∷ k.units ∷ b'-' ∷ s) buf in
    (
      k.hundreds ∷ k.tens ∷ k.units ∷ b'-' ∷ s ++ 0 ∷ tail,
      rw (
        chop-coded k b'-' s buf,
        is_last-coded k b'-' (s ++ 0 ∷ tail) ok,
        line_text-coded k b'-' s tail ok no_nul,
      ),
    )

continue-middle :
    (k : Code) (m : Middle) (buf : Bytes) (cip : Conn) (rp : Response) (rest : List Input)
    → IsCode k
    → FitsMiddle k m
    → Continues k buf cip rp m rest
continue-middle k (bare s) buf cip rp rest ok fits = continue-bare k s buf cip rp rest fits
continue-middle k (dashed s) buf cip rp rest ok fits = continue-dashed k s buf cip rp rest ok fits

add_msgs-cons :
    (rp : Response) (l : Bytes) (ls : List Bytes)
    → add_msgs (add_msg true rp l) ls ≡ add_msgs rp (l ∷ ls)
add_msgs-cons rp l ls = ap (λ m. record rp { msg = m }) (append_assoc rp.msg (l ∷ []) ls)

-- All lines behind the first.
pub continue-all :
    (k : Code) (ms : List Middle) (last buf : Bytes) (cip : Conn) (rp : Response)
    (rest : List Input)
    → IsCode k
    → FitAll k ms
    → HasNoNul last
    → continue_loop
        (code_bytes k)
        buf
        cip
        rp
        ((map (render_middle k) ms ++ coded k 32 last ∷ []) ++ rest)
      ≡ finish cip (add_msgs rp (map text_of ms ++ last ∷ [])) rest
continue-all k [] last buf cip rp rest ok fits no_nul =
    continue-last k last buf cip rp rest ok no_nul
continue-all k (m ∷ ms) last buf cip rp rest ok fits no_nul =
    let (buf', e) =
      continue-middle k m buf cip rp ((map (render_middle k) ms ++ coded k 32 last ∷ []) ++ rest) ok
        fits.0 in
    e
    ∙ continue-all k ms last buf' cip (add_msg true rp (text_of m)) rest ok fits.1 no_nul
    ∙ ap (λ r. finish cip r rest) (add_msgs-cons rp (text_of m) (map text_of ms ++ last ∷ []))
