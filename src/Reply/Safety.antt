-- ===== src/Reply/Safety.antt =====
-- What GetResponse guarantees whatever the server sends.
use ncftp.Base.{ℕ, ◌≡◌, Bool, true, false, List, [], ◌∷◌, ◌++◌, arith, ◌==◌}
use ncftp.Base.Bytes.{Bytes, is_digit, c_str}
use ncftp.Reply.{Conn, Response, Input, got, finish, first_line, read_loop, get_response}

-- A reply of one digit and a newline: the text that GetResponse keeps is what `str` held behind
-- its fourth byte before the call, if the byte there was no dash.
pub get_response_stale :
    (d b₀ b₁ b₂ b₃ : ℕ) (stale : Bytes) (ready : ℕ → Bool) (cip : Conn) (rp : Response)
    (rest : List Input)
    → is_digit d ≡ true
    → (b₃ == b'-') ≡ false
    → cip.data_timed_out ≡ false
    → (get_response ready (b₀ ∷ b₁ ∷ b₂ ∷ b₃ ∷ stale) cip rp (got d (10 ∷ []) ∷ rest)).resp.msg
      ≡ rp.msg ++ c_str stale ∷ []
unfolding get_response read_loop first_line finish
get_response_stale d b₀ b₁ b₂ b₃ stale ready cip rp rest digit ne idle = ground arith
