-- ===== src/Facts/Parsing.antt =====
-- UnMlsT of a line of facts.
use ncftp.Base.{
  ℕ, zero, suc, ◌+◌, ◌<◌, ◌≤◌, ◌≡◌, refl, ap, ◌∙◌, true, false, some, List, [], ◌∷◌, ◌++◌, arith,
  ltb, ◌==◌, if◌then◌else◌, length, get_or, length-append,
}
use ncftp.Base.Bytes.{Bytes, is_space}
use ncftp.Base.Formats.{skip_spaces}
use ncftp.Facts.{
  MlstItem, ParsedItem, bad, unlisted, item, start_item, fact_name, fact_value, apply_fact,
  name_item, after_fact, on_value, on_name, facts_loop, un_mls_t,
}
use ncftp.Facts.Time.{Clock}

-- No space and no `=`, and no space or `;`.
abbrev pub IsName : Bytes → Type 0
IsName [] = Unit
IsName (c ∷ s) = ((c == b' ') ≡ false) × ((c == b'=') ≡ false) × IsName s

abbrev pub IsValue : Bytes → Type 0
IsValue [] = Unit
IsValue (c ∷ s) = ((c == b' ') ≡ false) × ((c == b';') ≡ false) × IsValue s

abbrev pub Facts : Type 0
Facts = List (Bytes × Bytes)

abbrev pub AreFacts : Facts → Type 0
AreFacts [] = Unit
AreFacts ((f, v) ∷ fs) = (IsName f × IsValue v) × AreFacts fs

-- The facts, each with a semicolon behind it, then a space and the file's name.
abbrev pub written : Facts → Bytes → Bytes
written [] name = b' ' ∷ name
written ((f, v) ∷ fs) name = f ++ (b'=' ∷ (v ++ (b';' ∷ written fs name)))

-- The facts one after another, then the name.
abbrev pub applied : Clock → Facts → Bytes → MlstItem → ParsedItem
applied clock [] name it = name_item name it
applied clock ((f, v) ∷ fs) name it = after_fact (applied clock fs name) (apply_fact clock f v it)

fact_name-written : (f rest : Bytes) → IsName f → fact_name (f ++ (b'=' ∷ rest)) ≡ some (f, rest)
unfolding fact_name
fact_name-written [] rest is = refl
fact_name-written (c ∷ f) rest is = rw (is.0, is.1, fact_name-written f rest is.2) refl

fact_value-more :
    (v rest : Bytes)
    → IsValue v
    → (get_or rest 0 0 == b' ') ≡ false
    → fact_value (v ++ (b';' ∷ rest)) ≡ some (v, false, rest)
unfolding fact_value
fact_value-more [] rest is e = rw e refl
fact_value-more (c ∷ v) rest is e = rw (is.0, is.1, fact_value-more v rest is.2 e) refl

fact_value-last :
    (v name : Bytes) → IsValue v → fact_value (v ++ (b';' ∷ b' ' ∷ name)) ≡ some (v, true, name)
unfolding fact_value
fact_value-last [] name is = refl
fact_value-last (c ∷ v) name is = rw (is.0, is.1, fact_value-last v name is.2) refl

after_fact-cong :
    (g h : MlstItem → ParsedItem)
    → ((it : MlstItem) → g it ≡ h it)
    → (p : ParsedItem) → after_fact g p ≡ after_fact h p
after_fact-cong g h e bad = refl
after_fact-cong g h e unlisted = refl
after_fact-cong g h e (item it) = e it

facts_loop-suc :
    (k : ℕ) (clock : Clock) (f rest : Bytes) (it : MlstItem)
    → facts_loop (suc k) clock (f ++ (b'=' ∷ rest)) it
      ≡ on_name (facts_loop k clock) clock it (fact_name (f ++ (b'=' ∷ rest)))
unfolding facts_loop
facts_loop-suc k clock [] rest it = refl
facts_loop-suc k clock (c ∷ f) rest it = refl

-- One round of the loop.
facts_loop-round :
    (k : ℕ) (clock : Clock) (f rest : Bytes) (it : MlstItem)
    → IsName f
    → facts_loop (suc k) clock (f ++ (b'=' ∷ rest)) it
      ≡ on_value (facts_loop k clock) clock it f (fact_value rest)
facts_loop-round k clock f rest it is =
    facts_loop-suc k clock f rest it
    ∙ ap (on_name (facts_loop k clock) clock it) (fact_name-written f rest is)

written-starts :
    (f v name : Bytes) (fs : Facts)
    → IsName f
    → (get_or (written ((f, v) ∷ fs) name) 0 0 == b' ') ≡ false
written-starts [] v name fs is = refl
written-starts (c ∷ f) v name fs is = is.0

facts_loop-written :
    (k : ℕ) (clock : Clock) (f v : Bytes) (fs : Facts) (name : Bytes) (it : MlstItem)
    → AreFacts ((f, v) ∷ fs)
    → length fs < k
    → facts_loop k clock (written ((f, v) ∷ fs) name) it ≡ applied clock ((f, v) ∷ fs) name it
facts_loop-written zero clock f v fs name it are lt = absurd (omega (arith, lt))
facts_loop-written (suc k) clock f v [] name it are lt =
    facts_loop-round k clock f (v ++ (b';' ∷ b' ' ∷ name)) it are.0.0
    ∙ ap (on_value (facts_loop k clock) clock it f) (fact_value-last v name are.0.1)
facts_loop-written (suc k) clock f v ((f', v') ∷ fs) name it are lt =
    facts_loop-round k clock f (v ++ (b';' ∷ written ((f', v') ∷ fs) name)) it are.0.0
    ∙ ap (on_value (facts_loop k clock) clock it f) (
        fact_value-more v (written ((f', v') ∷ fs) name) are.0.1
          (written-starts f' v' name fs are.1.0.0))
    ∙ after_fact-cong (facts_loop k clock (written ((f', v') ∷ fs) name))
        (applied clock ((f', v') ∷ fs) name)
        (λ it'. facts_loop-written k clock f' v' fs name it' are.1 (omega (arith, lt)))
        (apply_fact clock f v it)

length-written : (fs : Facts) (name : Bytes) → length fs ≤ length (written fs name)
length-written [] name = omega arith
length-written ((f, v) ∷ fs) name = omega (
  arith,
  length-written fs name,
  length-append f (b'=' ∷ (v ++ (b';' ∷ written fs name))),
  length-append v (b';' ∷ written fs name),
)

skip_spaces-written :
    (f rest : Bytes)
    → is_space (get_or (f ++ (b'=' ∷ rest)) 0 0) ≡ false
    → skip_spaces (f ++ (b'=' ∷ rest)) ≡ f ++ (b'=' ∷ rest)
skip_spaces-written [] rest e = refl
skip_spaces-written (c ∷ f) rest e = rw e refl

fits : (n : ℕ) → n ≤ 1023 → ltb 1023 n ≡ false
fits n le = ground (arith, le)

-- A line of at most 1,023 bytes that holds facts, at least one, each a name with no space and no `=`, an
-- `=`, a value with no space and no semicolon, and a semicolon, then a space and a file name, and that
-- does not start with a blank: un_mls_t applies the facts to the empty item one after another, in the
-- order of the line, up to one that is refused, and gives the item the whole rest of the line as its
-- name.
pub un_mls_t-written :
    (clock : Clock) (f v : Bytes) (fs : Facts) (name : Bytes)
    → AreFacts ((f, v) ∷ fs)
    → is_space (get_or (written ((f, v) ∷ fs) name) 0 0) ≡ false
    → length (written ((f, v) ∷ fs) name) ≤ 1023
    → un_mls_t clock (written ((f, v) ∷ fs) name) ≡ applied clock ((f, v) ∷ fs) name start_item
unfolding un_mls_t
un_mls_t-written clock f v fs name are e le =
    let line = written ((f, v) ∷ fs) name in
    ap (λ b. if b then bad else facts_loop (length line + 1) clock (skip_spaces line) start_item)
      (fits (length line) le)
    ∙ ap (λ cp. facts_loop (length line + 1) clock cp start_item)
        (skip_spaces-written f (v ++ (b';' ∷ written fs name)) e)
    ∙ facts_loop-written (length line + 1) clock f v fs name start_item are
        (omega (arith, length-written ((f, v) ∷ fs) name))
