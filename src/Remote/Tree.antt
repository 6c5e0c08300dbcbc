-- ===== src/Remote/Tree.antt =====
-- A server with a tree of directories, and what it means to go down a path in it.
use ncftp.Base.{
  ℕ, suc, ◌+◌, ◌-◌, ◌<◌, ◌≡◌, ◌≢◌, refl, ap, ◌∙◌, Bool, true, false, ◌&&◌, ◌||◌, List, [], ◌∷◌,
  ◌++◌, arith, ◌==◌, if◌then◌else◌, length, length-append, take, drop, get_or,
}
use ncftp.Base.Bytes.{Bytes, codes, strn_eq}
use ncftp.Reply.Wire.{Code, IsCode, IsDigit, value, Reply, short, Fits}
use ncftp.Command.Sending.{take-append}
use ncftp.Remote.Dirs.{is_one_dot, is_dot_dot}
use ncftp.Remote.Serving.{Answering, IsReliable, IsShort, line_of}

-- A directory, by the names on the way up from it.
abbrev pub Dir : Type 0
Dir = List Bytes

pub record Tree : Type 0 where
  pub cwd : Dir
  pub has : Dir → Bool

abbrev pub same_name : Bytes → Bytes → Bool
same_name [] [] = true
same_name [] (d ∷ t) = false
same_name (c ∷ s) [] = false
same_name (c ∷ s) (d ∷ t) = c == d && same_name s t

abbrev pub same_dir : Dir → Dir → Bool
same_dir [] [] = true
same_dir [] (y ∷ q) = false
same_dir (x ∷ p) [] = false
same_dir (x ∷ p) (y ∷ q) = same_name x y && same_dir p q

same_name_refl : (s : Bytes) → same_name s s ≡ true
same_name_refl [] = refl
same_name_refl (c ∷ s) = ground (arith, same_name_refl s)

pub same_dir_refl : (p : Dir) → same_dir p p ≡ true
same_dir_refl [] = refl
same_dir_refl (x ∷ p) = ground (arith, same_name_refl x, same_dir_refl p)

abbrev pub entered : Bytes → Tree → Tree
entered x t = record t { cwd = x ∷ t.cwd }

abbrev pub with_dir : Bytes → Tree → Tree
with_dir x t = record t { has = λ p. same_dir p (x ∷ t.cwd) || t.has p }

abbrev pub code_of : ℕ → ℕ → ℕ → Code
code_of a b c = record { hundreds = b'0' + a; tens = b'0' + b; units = b'0' + c }

abbrev pub answer_if : Bool → Bytes → Tree → Code × Reply × Tree
answer_if b x t = if b then (code_of 2 5 0, short [], entered x t) else (code_of 5 5 0, short [], t)

abbrev pub enter_answer : Bytes → Tree → Code × Reply × Tree
enter_answer x t = answer_if (t.has (x ∷ t.cwd)) x t

-- The name in a line with a command of three letters.
abbrev pub name_in : Bytes → Bytes
name_in line = take (length line - 6) (drop 4 line)

-- A server that knows CWD and MKD.
abbrev pub tree_answer : Answering Tree
tree_answer line t =
    if strn_eq 4 line (codes "CWD ")
    then enter_answer (name_in line) t
    else if strn_eq 4 line (codes "MKD ")
    then (code_of 2 5 7, short [], with_dir (name_in line) t)
    else (code_of 5 0 2, short [], t)

-- An answer that can be sent.
IsGood : Code × Reply × Tree → Type 0
IsGood x = IsCode x.0 × Fits x.0 x.1 × (value x.0 ≢ 421)

if-IsGood :
    (b : Bool) (x y : Code × Reply × Tree) → IsGood x → IsGood y → IsGood (if b then x else y)
if-IsGood true x y gx gy = gx
if-IsGood false x y gx gy = gy

good :
    (a b c : ℕ) (t : Tree)
    → IsCode (code_of a b c)
    → (value (code_of a b c) ≢ 421)
    → IsGood (code_of a b c, short [], t)
unfolding IsGood
good a b c t is ne = (is, tt, ne)

digits_ok :
    (a b c : ℕ)
    → IsDigit (b'0' + a)
    → IsDigit (b'0' + b)
    → IsDigit (b'0' + c)
    → IsCode (code_of a b c)
digits_ok a b c ha hb hc = record { hundreds_ok = ha; tens_ok = hb; units_ok = hc }

tree_answer-IsGood : (line : Bytes) (t : Tree) → IsGood (tree_answer line t)
tree_answer-IsGood line t =
    if-IsGood (strn_eq 4 line (codes "CWD ")) (enter_answer (name_in line) t) _
      (if-IsGood (t.has (name_in line ∷ t.cwd)) _ _
        (good 2 5 0 (entered (name_in line) t) (digits_ok 2 5 0 refl refl refl)
          (λ e. absurd (omega (arith, e))))
        (good 5 5 0 t (digits_ok 5 5 0 refl refl refl) (λ e. absurd (omega (arith, e)))))
      (if-IsGood (strn_eq 4 line (codes "MKD ")) _ _
        (good 2 5 7 (with_dir (name_in line) t) (digits_ok 2 5 7 refl refl refl)
          (λ e. absurd (omega (arith, e))))
        (good 5 0 2 t (digits_ok 5 0 2 refl refl refl) (λ e. absurd (omega (arith, e)))))

pub tree_answer-IsReliable : IsReliable tree_answer
unfolding IsGood
tree_answer-IsReliable = record {
  code_ok = λ line t. (tree_answer-IsGood line t).0;
  reply_ok = λ line t. (tree_answer-IsGood line t).1;
  not_421 = λ line t. (tree_answer-IsGood line t).2;
}

name_in-line : (a b c d : ℕ) (x : Bytes) → name_in (line_of (a ∷ b ∷ c ∷ d ∷ x)) ≡ x
name_in-line a b c d x =
    ap (λ n. take n (x ++ 13 ∷ 10 ∷ [])) (omega (arith, length-append x (13 ∷ 10 ∷ [])))
    ∙ take-append x (13 ∷ 10 ∷ [])

pub tree_answer-enter :
    (x : Bytes) (t : Tree) → tree_answer (line_of (codes "CWD " ++ x)) t ≡ enter_answer x t
tree_answer-enter x t = ap (λ y. enter_answer y t) (name_in-line b'C' b'W' b'D' b' ' x)

pub tree_answer-make :
    (x : Bytes) (t : Tree)
    → tree_answer (line_of (codes "MKD " ++ x)) t ≡ (code_of 2 5 7, short [], with_dir x t)
tree_answer-make x t =
    ap (λ y. (code_of 2 5 7, short [], with_dir y t)) (name_in-line b'M' b'K' b'D' b' ' x)

abbrev pub HasNoSlash : Bytes → Type 0
HasNoSlash [] = Unit
HasNoSlash (c ∷ s) = ((c == b'/') ≡ false) × HasNoSlash s

-- The name of a directory that can be sent in a command.
pub record IsNode (x : Bytes) : Type 0 where
  pub nonempty : (length x == 0) ≡ false
  pub no_dot : is_one_dot x ≡ false
  pub no_dot_dot : is_dot_dot x ≡ false
  pub no_slash : HasNoSlash x
  pub no_lf : (get_or x (length x - 1) 0 == 10) ≡ false
  pub no_cr : (get_or x (length x - 1) 0 == 13) ≡ false
  pub fits : length x < 500

abbrev pub AreNodes : List Bytes → Type 0
AreNodes [] = Unit
AreNodes (x ∷ xs) = IsNode x × AreNodes xs

last_index : (n : ℕ) → suc (suc (suc (suc (suc n)))) - 1 ≡ suc (suc (suc (suc (suc n - 1))))
last_index n = omega arith

end_of :
    (a b c d : ℕ) (x : Bytes)
    → (length x == 0) ≡ false
    → get_or (a ∷ b ∷ c ∷ d ∷ x) (length (a ∷ b ∷ c ∷ d ∷ x) - 1) 0 ≡ get_or x (length x - 1) 0
end_of a b c d [] ne = absurd (cc ne)
end_of a b c d (e ∷ x) ne = ap (λ n. get_or (a ∷ b ∷ c ∷ d ∷ e ∷ x) n 0) (last_index (length x))

-- A command of three letters with such a name.
pub command-IsShort : (a b c d : ℕ) (x : Bytes) → IsNode x → IsShort (a ∷ b ∷ c ∷ d ∷ x)
command-IsShort a b c d x is = (
  record {
    no_lf = ap (λ e. e == 10) (end_of a b c d x is.nonempty) ∙ is.no_lf;
    no_cr = ap (λ e. e == 13) (end_of a b c d x is.nonempty) ∙ is.no_cr;
    long_enough = omega arith;
  },
  omega (arith, is.fits),
)
