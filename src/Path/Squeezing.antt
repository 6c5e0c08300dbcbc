-- ===== src/Path/Squeezing.antt =====
-- The first pass of CompressPath: however a path is spelled, with repeated slashes and `.` nodes, it
-- leaves the nodes with one slash between them.
use mathlib.Core.List.{append_assoc, append-nil}
use mathlib.Core.Path.{subst}
use ncftp.Base.{
  ℕ, zero, suc, ◌+◌, ◌-◌, ◌<◌, ◌≤◌, ◌≡◌, refl, sym, ap, ◌∙◌, Bool, true, false, not, ◌&&◌, ◌||◌,
  Option, none, some, List, [], ◌∷◌, ◌++◌, arith, ltb, lt→ltb, ◌==◌, length, get_or, take,
  length-append,
}
use ncftp.Base.Bytes.{Bytes}
use ncftp.Path.{is_slash, put, ends_node, skip_slashes, squeeze}
use ncftp.Path.Ends.{squeeze_slash, squeeze_plain}
use ncftp.Path.Parents.{Clean, is_nil, IsNode, join, render}

-- What may stand behind a slash and mean nothing: more slashes, and nodes that are a dot.
pub data Junk : Type 0 where
  a_slash dot_slash : Junk

abbrev pub junk : List Junk → Bytes
junk [] = []
junk (a_slash ∷ js) = b'/' ∷ junk js
junk (dot_slash ∷ js) = b'.' ∷ b'/' ∷ junk js

-- A slash at the end of the path, with its junk.
abbrev pub ending : Option (List Junk) → Bytes
ending none = []
ending (some js) = b'/' ∷ junk js

-- The nodes of a path, each with the junk behind the slash that follows it.
abbrev pub spelled : Option (List Junk) → List (Bytes × List Junk) → Bytes
spelled trail [] = []
spelled trail ((x, js) ∷ []) = x ++ ending trail
spelled trail ((x, js) ∷ y ∷ xs) = x ++ (b'/' ∷ (junk js ++ spelled trail (y ∷ xs)))

abbrev pub names : List (Bytes × List Junk) → List Bytes
names [] = []
names ((x, js) ∷ xs) = x ∷ names xs

abbrev pub AreSpelled : List (Bytes × List Junk) → Type 0
AreSpelled [] = Unit
AreSpelled ((x, js) ∷ xs) = IsNode x × AreSpelled xs

skip_slash : (u : Bytes) → skip_slashes (b'/' ∷ u) ≡ skip_slashes u
unfolding skip_slashes
skip_slash [] = refl
skip_slash (c ∷ u) = refl

skip_dot : (u : Bytes) → skip_slashes (b'.' ∷ b'/' ∷ u) ≡ skip_slashes u
unfolding skip_slashes
skip_dot u = refl

skip_junk : (js : List Junk) (t : Bytes) → skip_slashes t ≡ t → skip_slashes (junk js ++ t) ≡ t
skip_junk [] t e = e
skip_junk (a_slash ∷ js) t e = skip_slash (junk js ++ t) ∙ skip_junk js t e
skip_junk (dot_slash ∷ js) t e = skip_dot (junk js ++ t) ∙ skip_junk js t e

skip_node : (x t : Bytes) → IsNode x → skip_slashes (x ++ t) ≡ x ++ t
unfolding skip_slashes
skip_node [] t n = absurd (cc (n.not_nil))
skip_node (a ∷ []) [] n = rw (n.clean.0, n.not_dot) refl
skip_node (a ∷ []) (d ∷ t) n = rw (n.clean.0, n.not_dot) refl
skip_node (a ∷ b ∷ x) t n = ground (arith, n.clean.0, n.clean.2.0)

skip_nothing : skip_slashes [] ≡ []
unfolding skip_slashes
skip_nothing = refl

skip_spelled :
    (trail : Option (List Junk)) (xs : List (Bytes × List Junk))
    → AreSpelled xs
    → skip_slashes (spelled trail xs) ≡ spelled trail xs
skip_spelled trail [] are = skip_nothing
skip_spelled trail ((x, js) ∷ []) are = skip_node x (ending trail) are.0
skip_spelled trail ((x, js) ∷ y ∷ xs) are = skip_node x _ are.0

put-room : (lim c : ℕ) (out : Bytes) → length out < lim → put lim out c ≡ out ++ (c ∷ [])
put-room lim c out h = rw (lt→ltb (length out) lim h) refl

last_char : (v : Bytes) (c : ℕ) → get_or (v ++ (c ∷ [])) (length v) 0 ≡ c
last_char [] c = refl
last_char (a ∷ v) c = last_char v c

take_front : (v : Bytes) (c : ℕ) → take (length v) (v ++ (c ∷ [])) ≡ v
take_front [] c = refl
take_front (a ∷ v) c = ap (◌∷◌ a) (take_front v c)

last_of :
    (x : Bytes)
    → Clean x
    → is_nil x ≡ false
    → (y : Bytes) × (c : ℕ) × (x ≡ y ++ (c ∷ [])) × (is_slash c ≡ false)
last_of [] clean e = absurd (cc e)
last_of (a ∷ []) clean e = ([], a, refl, clean.0)
last_of (a ∷ b ∷ x) clean e =
    let (y, c, e', plain) = last_of (b ∷ x) clean.2 refl in (a ∷ y, c, ap (◌∷◌ a) e', plain)

is_nil-behind : (v x : Bytes) → is_nil x ≡ false → is_nil (v ++ x) ≡ false
is_nil-behind [] x e = e
is_nil-behind (c ∷ v) x e = refl

module _ (lim : ℕ) where
  -- The first pass yields `w`, with any number of rounds that is enough.
  abbrev Yields : Bool → Bytes → Bytes → Bytes → Type 0
  Yields first s out w = (k : ℕ) → length s < k → squeeze false k lim b'/' first s out ≡ some w

  finish_slash :
      (first : Bool) (w : Bytes) → is_nil w ≡ false → Yields first [] (w ++ (b'/' ∷ [])) w
  unfolding squeeze
  finish_slash first w e zero h = absurd (omega arith)
  finish_slash first [] e (suc k) h = absurd (cc e)
  finish_slash first (a ∷ w) e (suc k) h =
      let n : length (w ++ (b'/' ∷ [])) ≡ suc (length w) =
        omega (arith, length-append w (b'/' ∷ [])) in
      let long : ltb 1 (suc (suc (length w))) ≡ true = lt→ltb 1 _ (omega arith) in
      let less : suc (suc (length w)) - 1 ≡ suc (length w) = omega arith in
      rw (n, long, less, last_char w b'/') (ap (λ z. some (a ∷ z)) (take_front w b'/'))

  finish_plain :
      (first : Bool) (v : Bytes) (c : ℕ)
      → is_slash c ≡ false
      → Yields first [] (v ++ (c ∷ [])) (v ++ (c ∷ []))
  unfolding squeeze
  finish_plain first v c e zero h = absurd (omega arith)
  finish_plain first v c e (suc k) h =
      let less : length (v ++ (c ∷ [])) - 1 ≡ length v = omega (arith, length-append v (c ∷ [])) in
      rw (less, last_char v c, e) (ground arith)

  -- The characters of a name, behind its first.
  through :
      (x t out w : Bytes)
      → Clean x
      → length out + length x ≤ lim
      → Yields false t (out ++ x) w
      → Yields false (x ++ t) out w
  through [] t out w clean room next k h =
      subst (λ z. squeeze false k lim b'/' false t z ≡ some w) (append-nil out) (next k h)
  through (c ∷ x) t out w clean room next zero h = absurd (omega arith)
  through (c ∷ x) t out w clean room next (suc k) h =
      squeeze_plain k lim b'/' false c (x ++ t) out clean.0 (ground arith)
      ∙ ap (squeeze false k lim b'/' false (x ++ t)) (put-room lim c out (omega arith))
      ∙ through x t (out ++ (c ∷ [])) w clean.2 (omega (arith, length-append out (c ∷ [])))
          (λ k' h'.
            subst (λ z. squeeze false k' lim b'/' false t z ≡ some w)
              (sym (append_assoc out (c ∷ []) x)) (next k' h'))
          k (omega arith)

  no_dot_node :
      (first : Bool) (c : ℕ) (x t : Bytes)
      → IsNode (c ∷ x)
      → ((c == b'.') && (first && ends_node (x ++ t))) ≡ false
  no_dot_node first c [] t n = rw (n.not_dot) refl
  no_dot_node first c (d ∷ x) t n = ground (arith, n.clean.2.0)

  through_node :
      (first : Bool) (x t out w : Bytes)
      → IsNode x
      → length out + length x ≤ lim
      → Yields false t (out ++ x) w
      → Yields first (x ++ t) out w
  through_node first [] t out w n room next k h = absurd (cc (n.not_nil))
  through_node first (c ∷ x) t out w n room next zero h = absurd (omega arith)
  through_node first (c ∷ x) t out w n room next (suc k) h =
      squeeze_plain k lim b'/' first c (x ++ t) out (n.clean.0) (no_dot_node first c x t n)
      ∙ ap (squeeze false k lim b'/' false (x ++ t)) (put-room lim c out (omega arith))
      ∙ through x t (out ++ (c ∷ [])) w (n.clean.2) (omega (arith, length-append out (c ∷ [])))
          (λ k' h'.
            subst (λ z. squeeze false k' lim b'/' false t z ≡ some w)
              (sym (append_assoc out (c ∷ []) x)) (next k' h'))
          k (omega arith)

  after_slash :
      (first : Bool) (u s out w : Bytes)
      → skip_slashes u ≡ s
      → length s ≤ length u
      → length out < lim
      → Yields true s (out ++ (b'/' ∷ [])) w
      → Yields first (b'/' ∷ u) out w
  after_slash first u s out w skipped le room next zero h = absurd (omega arith)
  after_slash first u s out w skipped le room next (suc k) h =
      squeeze_slash k lim b'/' first b'/' u out refl
      ∙ ap (λ z. squeeze false k lim b'/' true z (put lim out b'/')) skipped
      ∙ ap (squeeze false k lim b'/' true s) (put-room lim b'/' out room)
      ∙ next k (omega (arith, le))

  at_end :
      (trail : Option (List Junk)) (v : Bytes) (x : Bytes)
      → IsNode x
      → length (v ++ x) + length (ending trail) ≤ lim
      → Yields false (ending trail) (v ++ x) (v ++ x)
  at_end none v x n room =
      let (y, c, e, plain) = last_of x n.clean n.not_nil in
      subst (λ z. Yields false [] z z) (append_assoc v y (c ∷ []) ∙ ap (λ z. v ++ z) (sym e))
        (finish_plain false (v ++ y) c plain)
  at_end (some js) v x n room =
      after_slash false (junk js) [] (v ++ x) (v ++ x)
        (ap skip_slashes (sym (append-nil (junk js))) ∙ skip_junk js [] skip_nothing) (omega arith)
        (omega arith) (finish_slash true (v ++ x) (is_nil-behind v x n.not_nil))

  squeeze_spelled :
      (first : Bool) (trail : Option (List Junk)) (p : Bytes × List Junk)
      (xs : List (Bytes × List Junk)) (out : Bytes)
      → AreSpelled (p ∷ xs)
      → length out + length (spelled trail (p ∷ xs)) ≤ lim
      → Yields first (spelled trail (p ∷ xs)) out (out ++ join (names (p ∷ xs)))
  squeeze_spelled first trail (x, js) [] out are room =
      let len = length-append x (ending trail) in
      through_node first x (ending trail) out (out ++ x) are.0 (omega (arith, len, room))
        (at_end trail out x are.0 (omega (arith, len, room, length-append out x)))
  squeeze_spelled first trail (x, js) ((y, ks) ∷ xs) out are room =
      let more = spelled trail ((y, ks) ∷ xs) in
      let len = length-append x (b'/' ∷ (junk js ++ more)) in
      let len' = length-append (junk js) more in
      let out' = (out ++ x) ++ (b'/' ∷ []) in
      let len'' : length out' ≡ length out + length x + 1 =
        omega (arith, length-append (out ++ x) (b'/' ∷ []), length-append out x) in
      let whole : out' ++ join (names ((y, ks) ∷ xs))
          ≡ out ++ join (names ((x, js) ∷ (y, ks) ∷ xs)) =
        append_assoc (out ++ x) (b'/' ∷ []) _ ∙ append_assoc out x _ in
      through_node first x (b'/' ∷ (junk js ++ more)) out _ are.0 (omega (arith, len, room)) (
        after_slash false (junk js ++ more) more (out ++ x) _
          (skip_junk js more (skip_spelled trail ((y, ks) ∷ xs) are.1)) (omega (arith, len'))
          (omega (arith, len, room, length-append out x))
          (subst (λ z. Yields true more out' z) whole
            (squeeze_spelled true trail (y, ks) xs out' are.1
              (omega (arith, len, len', len'', room)))))

just_root : (lim : ℕ) → Yields lim true [] (b'/' ∷ []) (b'/' ∷ [])
unfolding squeeze
just_root lim zero h = absurd (omega arith)
just_root lim (suc k) h = refl

abbrev pub is_none : List (Bytes × List Junk) → Bool
is_none [] = true
is_none (x ∷ xs) = false

-- A whole path: the slashes at its front, if it is at the root, and its nodes.
abbrev pub source : Option (List Junk) → Option (List Junk) → List (Bytes × List Junk) → Bytes
source none trail xs = spelled trail xs
source (some js) trail xs = b'/' ∷ (junk js ++ spelled trail xs)

abbrev pub at_root : Option (List Junk) → Bool
at_root none = false
at_root (some js) = true

-- The first pass over a path that has a node or is at the root.
pub squeeze-source :
    (lim k : ℕ) (front trail : Option (List Junk)) (xs : List (Bytes × List Junk))
    → AreSpelled xs
    → (at_root front || not (is_none xs)) ≡ true
    → length (source front trail xs) ≤ lim
    → length (source front trail xs) < k
    → squeeze false k lim b'/' true (source front trail xs) []
      ≡ some (render (at_root front) (names xs))
squeeze-source lim k none trail [] are some_node room h = absurd (cc some_node)
squeeze-source lim k none trail (x ∷ xs) are some_node room h =
    squeeze_spelled lim true trail x xs [] are (omega (arith, room)) k h
squeeze-source lim k (some js) trail [] are some_node room h =
    let len = length-append (junk js) [] in
    after_slash lim true (junk js ++ []) [] [] (b'/' ∷ []) (skip_junk js [] skip_nothing)
      (omega arith) (omega (arith, room)) (just_root lim) k h
squeeze-source lim k (some js) trail (x ∷ xs) are some_node room h =
    let more = spelled trail (x ∷ xs) in
    let len = length-append (junk js) more in
    after_slash lim true (junk js ++ more) more [] _
      (skip_junk js more (skip_spelled trail (x ∷ xs) are)) (omega (arith, len))
      (omega (arith, room))
      (squeeze_spelled lim true trail x xs (b'/' ∷ []) are (omega (arith, len, room))) k h
