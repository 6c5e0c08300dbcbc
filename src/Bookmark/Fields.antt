-- ===== src/Bookmark/Fields.antt =====
-- ParseHostLine's loop over a line of tokens with commas between them.
use mathlib.Core.List.{append-nil}
use ncftp.Base.{ℕ, ◌≤◌, arith, length, sym, ◌≡◌, refl, ap, ◌∙◌, List, [], ◌∷◌, ◌++◌}
use ncftp.Base.Bytes.{Bytes}
use ncftp.Base.Int.{ℤ}
use ncftp.Bookmark.{Bookmark, Case, next_token, or_else, parse_cases, commas}
use ncftp.Bookmark.Tokens.{next-comma, next-end}

-- A text that is read as a token, in front of a comma or of the line's end.
abbrev pub Reads : Bytes → Bytes → Type 0
Reads w t = (rest : Bytes) → next_token [] (w ++ rest) ≡ next_token t rest

abbrev pub Texts : Type 0
Texts = List (Bytes × Bytes)

abbrev pub written : Texts → List Bytes
written [] = []
written ((w, t) ∷ ts) = w ∷ written ts

abbrev pub AreRead : Texts → Type 0
AreRead [] = Unit
AreRead ((w, t) ∷ ts) = Reads w t × AreRead ts

-- The cases done to the tokens one by one, as long as the line goes on.
abbrev pub stored : List Case → Texts → Bookmark → ℤ → ℤ × Bookmark
stored cs [] bm result = (result, bm)
stored [] (x ∷ ts) bm result = (result, bm)
stored (c ∷ cs) (([], t) ∷ []) bm result = (result, bm)
stored (c ∷ cs) ((x ∷ w, t) ∷ []) bm result = (or_else c.reached result, c.store t bm)
stored (c ∷ cs) ((w, t) ∷ u ∷ ts) bm result =
    stored cs (u ∷ ts) (c.store t bm) (or_else c.reached result)

abbrev after : List Case → Case → Bookmark → ℤ → Bytes × Bytes → ℤ × Bookmark
after cs c bm result (t, rest) = parse_cases cs rest (c.store t bm) (or_else c.reached result)

parse-cons :
    (c : Case) (cs : List Case) (x : ℕ) (s : Bytes) (bm : Bookmark) (result : ℤ)
    → parse_cases (c ∷ cs) (x ∷ s) bm result ≡ after cs c bm result (next_token [] (x ∷ s))
unfolding parse_cases
parse-cons c cs x s bm result = refl

parse-comma :
    (c : Case) (cs : List Case) (w t s : Bytes) (bm : Bookmark) (result : ℤ)
    → Reads w t
    → parse_cases (c ∷ cs) (w ++ (b',' ∷ s)) bm result
      ≡ parse_cases cs s (c.store t bm) (or_else c.reached result)
parse-comma c cs [] t s bm result reads =
    parse-cons c cs b',' s bm result ∙ ap (after cs c bm result) (reads (b',' ∷ s) ∙ next-comma t s)
parse-comma c cs (x ∷ w) t s bm result reads =
    parse-cons c cs x (w ++ (b',' ∷ s)) bm result
    ∙ ap (after cs c bm result) (reads (b',' ∷ s) ∙ next-comma t s)

parse-end :
    (cs : List Case) (bm : Bookmark) (result : ℤ) → parse_cases cs [] bm result ≡ (result, bm)
unfolding parse_cases
parse-end [] bm result = refl
parse-end (c ∷ cs) bm result = refl

-- Reading a line of at most as many tokens as there are cases.
pub parse-commas :
    (cs : List Case) (ts : Texts) (bm : Bookmark) (result : ℤ)
    → AreRead ts
    → length ts ≤ length cs
    → parse_cases cs (commas (written ts)) bm result ≡ stored cs ts bm result
parse-commas cs [] bm result are le = parse-end cs bm result
parse-commas [] (x ∷ ts) bm result are le = absurd (omega arith)
parse-commas (c ∷ cs) (([], t) ∷ []) bm result are le = parse-end (c ∷ cs) bm result
parse-commas (c ∷ cs) ((x ∷ w, t) ∷ []) bm result are le =
    parse-cons c cs x w bm result
    ∙ ap (λ z. after cs c bm result (next_token [] z)) (sym (append-nil (x ∷ w)))
    ∙ ap (after cs c bm result) (are.0 [] ∙ next-end t)
    ∙ parse-end cs _ _
parse-commas (c ∷ cs) ((w, t) ∷ u ∷ ts) bm result are le =
    parse-comma c cs w t (commas (written (u ∷ ts))) bm result are.0
    ∙ parse-commas cs (u ∷ ts) _ _ are.1 (omega (arith, le))
