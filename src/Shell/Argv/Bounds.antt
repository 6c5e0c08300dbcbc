-- ===== src/Shell/Argv/Bounds.antt =====
-- How much of `dbuf` and of `cargv` MakeArgv uses.
use mathlib.Core.Path.{subst}
use ncftp.Base.{
  ℕ, zero, suc, ◌+◌, ◌≤◌, ◌<◌, ◌≡◌, refl, sym, ◌∙◌, ◌⊎◌, inl, inr, Bool, Bool-cases, Option-cases,
  true, false, not, ◌&&◌, ◌||◌, none, some, List, [], ◌∷◌, ◌++◌, arith, leb, ◌==◌, length,
  length-append, if◌then◌else◌,
}
use ncftp.Base.Bytes.{Bytes, is_space}
use ncftp.Shell.Argv.{
  Arg, Params, Parsed, done, peek, behind, Acc, Mode, plain, escaped, quoted, Step, go, stop_at,
  stop_behind, no_quote, no_room, step, Scan, ended, bad_quote, full, off, scan, expand, push, Skip,
  stop, start, skipped_off, skip, start_acc, Begin, bang, no_space, scan_from, begin_first,
  begin_other, begin, arg_of, bang_arg, parse_args, make_argv,
}

-- Either every byte so far was checked against `lim`, or nothing was added.
abbrev Kept : Params → Acc → Acc → Type 0
Kept p acc acc' = (acc'.used ≤ p.lim) ⊎ ((acc'.used ≡ acc.used) × (acc'.text ≡ acc.text))

Kept-trans : (p : Params) (a b c : Acc) → Kept p a b → Kept p b c → Kept p a c
Kept-trans p a b c h (inl k) = inl k
Kept-trans p a b c (inl h) (inr k) = inl (omega (arith, k.0))
Kept-trans p a b c (inr h) (inr k) = inr (k.0 ∙ h.0, k.1 ∙ h.1)

abbrev StepKept : Params → Acc → Step → Type 0
StepKept p acc (go m acc') = Kept p acc acc'
StepKept p acc (stop_at acc') = Kept p acc acc'
StepKept p acc (stop_behind acc') = Kept p acc acc'
StepKept p acc no_quote = Unit
StepKept p acc no_room = Unit

step-Kept : (p : Params) (m : Mode) (acc : Acc) (c : ℕ) → StepKept p acc (step p m acc c)
unfolding step
step-Kept p plain acc c = ground arith
step-Kept p escaped acc c = ground arith
step-Kept p (quoted q) acc c = ground arith

abbrev ScanKept : Params → Acc → Scan → Type 0
ScanKept p acc (ended acc' r) = Kept p acc acc'
ScanKept p acc _ = Unit

ScanKept-trans :
    (p : Params) (a b : Acc) (sc : Scan) → Kept p a b → ScanKept p b sc → ScanKept p a sc
ScanKept-trans p a b (ended c r) h k = Kept-trans p a b c h k
ScanKept-trans p a b bad_quote h k = tt
ScanKept-trans p a b full h k = tt
ScanKept-trans p a b off h k = tt

-- The rest of a scan behind one step.
after_step : Params → ℕ → Bytes → Step → Scan
after_step p c s (go m acc) = scan p m acc s
after_step p c s (stop_at acc) = ended acc (c ∷ s)
after_step p c s (stop_behind acc) = ended acc s
after_step p c s no_quote = bad_quote
after_step p c s no_room = full

after_step-Kept :
    (p : Params) (acc : Acc) (c : ℕ) (s : Bytes) (st : Step)
    → StepKept p acc st
    → ((m : Mode) (a : Acc) → ScanKept p a (scan p m a s))
    → ScanKept p acc (after_step p c s st)
unfolding after_step
after_step-Kept p acc c s (go m a) k ih = ScanKept-trans p acc a (scan p m a s) k (ih m a)
after_step-Kept p acc c s (stop_at a) k ih = k
after_step-Kept p acc c s (stop_behind a) k ih = k
after_step-Kept p acc c s no_quote k ih = tt
after_step-Kept p acc c s no_room k ih = tt

scan-after_step :
    (p : Params) (m : Mode) (acc : Acc) (c : ℕ) (s : Bytes)
    → scan p m acc (c ∷ s) ≡ after_step p c s (step p m acc c)
unfolding scan after_step
scan-after_step p m acc c s = go_on (step p m acc c)
  where
    go_on :
        (st : Step)
        → ◌≡◌ {A = Scan}
            (elim st [
              | go mode' acc' ↦ scan p mode' acc' s
              | stop_at acc' ↦ ended acc' (c ∷ s)
              | stop_behind acc' ↦ ended acc' s
              | no_quote ↦ bad_quote
              | no_room ↦ full
            ])
            (after_step p c s st)
    go_on (go m a) = refl
    go_on (stop_at a) = refl
    go_on (stop_behind a) = refl
    go_on no_quote = refl
    go_on no_room = refl

scan-Kept : (p : Params) (m : Mode) (acc : Acc) (s : Bytes) → ScanKept p acc (scan p m acc s)
unfolding scan
scan-Kept p m acc [] = tt
scan-Kept p m acc (c ∷ s) =
    subst (ScanKept p acc) (sym (scan-after_step p m acc c s)) (
      after_step-Kept p acc c s (step p m acc c) (step-Kept p m acc c) (λ m' a. scan-Kept p m' a s))

expand-Kept :
    (p : Params) (acc acc' : Acc) (s : Bytes) → expand p acc s ≡ some acc' → Kept p acc acc'
unfolding expand
expand-Kept p acc acc' [] e = ground arith
expand-Kept p acc acc' (c ∷ s) e = elim (Bool-cases (leb p.lim acc.used)) [
  | inl f ↦ (let x : none ≡ some acc' = rw f at e in cc)
  | inr f ↦
      Kept-trans p acc (push acc c) acc' (inl (ground (arith, f)))
        (expand-Kept p (push acc c) acc' s (rw f at e))
]

abbrev BeginKept : Params → ℕ → Begin → Type 0
BeginKept p used (scan_from acc r) = Kept p (start_acc used) acc
BeginKept p used (bang r) = used + 2 ≤ p.lim
BeginKept p used no_space = Unit

begin_first-Kept : (p : Params) (used : ℕ) (s : Bytes) → BeginKept p used (begin_first p used s)
unfolding begin_first
begin_first-Kept p used s = ground arith

begin_other-Kept :
    (p : Params) (name : Bytes) (used : ℕ) (s : Bytes)
    → BeginKept p used (begin_other p name used s)
unfolding begin_other
begin_other-Kept p name used s =
    let d = peek (behind s) in
    let test = not p.from_readln && peek s == b'~' && (d == 0 || d == b'/' || is_space d) in
    elim (Bool-cases test) [
      | inr e ↦ rw e (inr (refl, refl))
      | inl e ↦ elim (Option-cases (p.tilde name)) [
        | inl n ↦ rw (e, n) (inr (refl, refl))
        | inr (dir, n) ↦ elim (Option-cases (expand p (start_acc used) dir)) [
          | inl x ↦ rw (e, n, x) tt
          | inr (acc, x) ↦ rw (e, n, x) (expand-Kept p (start_acc used) acc dir x)
        ]
      ]
    ]

begin-Kept :
    (p : Params) (args : List Arg) (used : ℕ) (s : Bytes) → BeginKept p used (begin p args used s)
unfolding begin
begin-Kept p [] used s = begin_first-Kept p used s
begin-Kept p (a ∷ args) used s = begin_other-Kept p a.text used s

abbrev pub is_nil : Bytes → Bool
is_nil [] = true
is_nil (c ∷ s) = false

-- The empty arguments.
abbrev pub empties : List Arg → ℕ
empties [] = 0
empties (a ∷ args) = (if is_nil a.text then 1 else 0) + empties args

empties-concat :
    (args : List Arg) (a : Arg)
    → empties (args ++ a ∷ []) ≡ empties args + (if is_nil a.text then 1 else 0)
empties-concat [] a = omega arith
empties-concat (b ∷ args) a = omega (arith, empties-concat args a)

-- The bytes written, and the arguments.
abbrev pub Fits : Params → Parsed → Type 0
Fits p (done args r used) = (used ≤ p.lim + 1 + empties args) × (length args < p.cargcmax)
Fits p _ = Unit

next_used :
    (p : Params) (args : List Arg) (used : ℕ) (acc : Acc)
    → used ≤ p.lim + 1 + empties args
    → Kept p (start_acc used) acc
    → acc.used + 1 ≤ p.lim + 1 + empties (args ++ arg_of acc ∷ [])
next_used p args used acc h (inl k) = omega (arith, empties-concat args (arg_of acc))
next_used p args used acc h (inr (k, e)) =
    let n : is_nil acc.text ≡ true = rw e in
    let m : ◌≡◌ {A = ℕ} (if is_nil acc.text then 1 else 0) 1 = rw n in
    omega (arith, empties-concat args (arg_of acc))

-- The claim for the arguments that are still to come.
abbrev Rest : Params → ℕ → Type 0
Rest p k =
    (args : List Arg) (used : ℕ) (s : Bytes)
    → used ≤ p.lim + 1 + empties args
    → length args + k ≡ p.cargcmax
    → Fits p (parse_args p k args used s)

module _ (p : Params) (k : ℕ) (ih : Rest p k) (args : List Arg) (used : ℕ) (s : Bytes)
    (h : used ≤ p.lim + 1 + empties args) (n : length args + suc k ≡ p.cargcmax) where
  after_scan-Fits :
      (r r' : Bytes) (acc : Acc) (sc : Scan)
      → skip s ≡ start r
      → begin p args used r ≡ scan_from acc r'
      → scan p plain acc r' ≡ sc
      → Kept p (start_acc used) acc
      → ScanKept p acc sc
      → Fits p (parse_args p (suc k) args used s)
  unfolding parse_args
  after_scan-Fits r r' acc (ended acc' r'') e b c kept more =
      rw (e, parse_args, b, c)
        (ih (args ++ arg_of acc' ∷ []) (acc'.used + 1) r''
          (next_used p args used acc' h (Kept-trans p (start_acc used) acc acc' kept more))
          (omega (arith, length-append args (arg_of acc' ∷ []))))
  after_scan-Fits r r' acc bad_quote e b c kept more = rw (e, parse_args, b, c) tt
  after_scan-Fits r r' acc full e b c kept more = rw (e, parse_args, b, c) tt
  after_scan-Fits r r' acc off e b c kept more = rw (e, parse_args, b, c) tt

  after_begin-Fits :
      (r : Bytes) (bg : Begin)
      → skip s ≡ start r
      → begin p args used r ≡ bg
      → BeginKept p used bg
      → Fits p (parse_args p (suc k) args used s)
  unfolding parse_args
  after_begin-Fits r (scan_from acc r') e b kept =
      after_scan-Fits r r' acc (scan p plain acc r') e b refl kept (scan-Kept p plain acc r')
  after_begin-Fits r (bang r') e b kept =
      rw (e, parse_args, b)
        (ih (args ++ bang_arg ∷ []) (used + 2) r' (omega (arith, empties-concat args bang_arg))
          (omega (arith, length-append args (bang_arg ∷ []))))
  after_begin-Fits r no_space e b kept = rw (e, parse_args, b) tt

  after_skip-Fits : (sk : Skip) → skip s ≡ sk → Fits p (parse_args p (suc k) args used s)
  unfolding parse_args
  after_skip-Fits skipped_off e = rw (e, parse_args) tt
  after_skip-Fits (stop r) e = rw (e, parse_args) (h, omega arith)
  after_skip-Fits (start r) e =
      after_begin-Fits r (begin p args used r) e refl (begin-Kept p args used r)

parse_args-Fits : (p : Params) (k : ℕ) → Rest p k
unfolding parse_args
parse_args-Fits p zero args used s h n = tt
parse_args-Fits p (suc k) args used s h n =
    after_skip-Fits p k (parse_args-Fits p k) args used s h n (skip s) refl

-- Whatever the line, if MakeArgv succeeds there are fewer arguments than `cargcmax`, so `cargv`
-- has room for the NULL behind them; and it has written no more bytes than `dbuf` has, `lim + 1`,
-- and one more for each empty argument.
pub make_argv-Fits : (p : Params) (line : Bytes) → Fits p (make_argv p line)
unfolding make_argv
make_argv-Fits p line = parse_args-Fits p p.cargcmax [] 0 line (omega arith) (omega arith)
