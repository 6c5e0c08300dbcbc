-- ===== src/Shell/Argv.antt =====
-- MakeArgv of ncftp/shell.c: a command line cut into arguments. The line is the list of all bytes
-- of its array, so what stands behind the terminating NUL is there too, and a read behind the
-- array's end is an outcome of its own. The loops inside an argument are modes of one scanner.
-- `dbuf` is not a list of bytes: `used` counts the bytes written to it, and `lim` is `dlim - dbuf`.
pub mod Pieces
pub mod Lines
pub mod Bounds
pub mod Overruns
mod Tests
use ncftp.Base.{
  ℕ, zero, suc, ◌+◌, Bool, true, false, not, ◌&&◌, ◌||◌, Option, none, some, List, [], ◌∷◌, ◌++◌,
  leb, ◌==◌, if◌then◌else◌,
}
use ncftp.Base.Bytes.{Bytes, is_space}

-- An element of `cargv`, and its element of `noglobargv`.
pub record Arg : Type 0 where
  pub text : Bytes
  pub no_glob : Bool

-- `tilde` is the directory that `~` stands for in an argument of the command that is named, if
-- GetCommandByName finds the command and its arguments are names of files.
pub record Params : Type 0 where
  pub lim : ℕ
  pub cargcmax : ℕ
  pub readline_hacks : Bool
  pub from_readln : Bool
  pub tilde : Bytes → Option Bytes

-- `done`: the arguments, the line from `scp` on, the bytes of `dbuf` written. The others but
-- `ran_off` return -1.
pub data Parsed : Type 0 where
  done : List Arg → Bytes → ℕ → Parsed
  unbalanced too_long too_many ran_off : Parsed

-- The argument that is being read.
pub record Acc : Type 0 where
  pub text : Bytes
  pub no_glob : Bool
  pub used : ℕ

-- kGlobChars.
abbrev pub is_glob : ℕ → Bool
is_glob c = c == b'[' || c == b'*' || c == b'?'

abbrev pub push : Acc → ℕ → Acc
push acc c = record acc { text = acc.text ++ c ∷ []; used = acc.used + 1 }

-- A quoted character that is special in a pattern marks its argument.
abbrev pub push_quoted : Acc → ℕ → Acc
push_quoted acc c = record (push acc c) { no_glob = acc.no_glob || is_glob c }

pub data Mode : Type 0 where
  plain escaped : Mode
  quoted : ℕ → Mode

-- What one character does: it is used up and the scan goes on, it ends the argument and is used up
-- or not, or it is an error.
pub data Step : Type 0 where
  go : Mode → Acc → Step
  stop_at stop_behind : Acc → Step
  no_quote no_room : Step

abbrev pub ends_arg : ℕ → Bool
ends_arg c = c == 0 || is_space c || c == b';' || c == b'\n'

abbrev pub add : Params → Mode → Acc → Acc → Step
add p mode old new = if leb p.lim old.used then no_room else go mode new

unfoldable pub step : Params → Mode → Acc → ℕ → Step
step p plain acc c =
    if ends_arg c
    then stop_at acc
    else if c == 39 || c == 34
    then go (quoted c) acc
    else if c == 92
    then go escaped acc
    else add p plain acc (push acc c)
step p (quoted q) acc c =
    if c == 0
    then (if p.readline_hacks then go plain acc else no_quote)
    else if c == q
    then go plain acc
    else add p (quoted q) acc (push_quoted acc c)
step p escaped acc c = if c == 0 then stop_behind acc else add p plain acc (push acc c)

pub data Scan : Type 0 where
  ended : Acc → Bytes → Scan
  bad_quote full off : Scan

-- `for ( ; ; )` over the characters of an argument.
unfoldable pub scan : Params → Mode → Acc → Bytes → Scan
scan p mode acc [] = off
scan p mode acc (c ∷ s) = elim (step p mode acc c) [
  | go mode' acc' ↦ scan p mode' acc' s
  | stop_at acc' ↦ ended acc' (c ∷ s)
  | stop_behind acc' ↦ ended acc' s
  | no_quote ↦ bad_quote
  | no_room ↦ full
]

pub data Skip : Type 0 where
  stop start : Bytes → Skip
  skipped_off : Skip

-- "Eat preceding junk."
unfoldable pub skip : Bytes → Skip
skip [] = skipped_off
skip (c ∷ s) =
    let rest = skip s in
    if c == 0
    then stop (c ∷ s)
    else if is_space c
    then rest
    else if c == b';' || c == b'\n'
    then stop s
    else start (c ∷ s)

abbrev pub peek : Bytes → ℕ
peek [] = 0
peek (c ∷ s) = c

-- The directory of a `~` put into the argument.
unfoldable pub expand : Params → Acc → Bytes → Option Acc
expand p acc [] = some acc
expand p acc (c ∷ s) =
    let rest = expand p (push acc c) s in if leb p.lim acc.used then none else rest

abbrev pub start_acc : ℕ → Acc
start_acc used = record { text = []; no_glob = false; used = used }

abbrev pub behind : Bytes → Bytes
behind [] = []
behind (c ∷ s) = s

-- How an argument begins: by a scan of the line from `scp` on, or as a `!` that stands for itself.
pub data Begin : Type 0 where
  scan_from : Acc → Bytes → Begin
  bang : Bytes → Begin
  no_space : Begin

-- "Special hack so that "!cmd" is always split": the first argument. Of `!!` the second `!` is
-- overwritten by a NUL.
unfoldable pub begin_first : Params → ℕ → Bytes → Begin
begin_first p used s =
    let d = peek (behind s) in
    if peek s == b'!'
    then (if d == b'!'
        then scan_from (start_acc used) (b'!' ∷ 0 ∷ behind (behind s))
        else if d == 0 || is_space d
        then scan_from (start_acc used) s
        else if leb p.lim used || leb p.lim (used + 1)
        then no_space
        else bang (behind s))
    else scan_from (start_acc used) s

-- "Tilde expansion": an argument behind the first, which has the text `name`.
unfoldable pub begin_other : Params → Bytes → ℕ → Bytes → Begin
begin_other p name used s =
    let d = peek (behind s) in
    if not p.from_readln && peek s == b'~' && (d == 0 || d == b'/' || is_space d)
    then elim (p.tilde name) [
      | none ↦ scan_from (start_acc used) (behind s)
      | some dir ↦ elim (expand p (start_acc used) dir) [
        | none ↦ no_space
        | some acc ↦ scan_from acc (behind s)
      ]
    ]
    else scan_from (start_acc used) s

unfoldable pub begin : Params → List Arg → ℕ → Bytes → Begin
unfolding begin_first begin_other
begin p [] used s = begin_first p used s
begin p (a ∷ args) used s = begin_other p a.text used s

abbrev pub arg_of : Acc → Arg
arg_of acc = record { text = acc.text; no_glob = acc.no_glob }

abbrev pub bang_arg : Arg
bang_arg = record { text = b'!' ∷ []; no_glob = false }

-- `for (*cargc = 0; *cargc < cargcmax; )`, with `k` arguments left to `cargcmax`.
unfoldable pub parse_args : Params → ℕ → List Arg → ℕ → Bytes → Parsed
parse_args p zero args used s = too_many
parse_args p (suc k) args used s = elim (skip s) [
  | skipped_off ↦ ran_off
  | stop r ↦ done args r used
  | start r ↦ elim (begin p args used r) [
    | no_space ↦ too_long
    | bang r' ↦ parse_args p k (args ++ bang_arg ∷ []) (used + 2) r'
    | scan_from acc r' ↦ elim (scan p plain acc r') [
      | ended acc' r'' ↦ parse_args p k (args ++ arg_of acc' ∷ []) (acc'.used + 1) r''
      | bad_quote ↦ unbalanced
      | full ↦ too_long
      | off ↦ ran_off
    ]
  ]
]

-- MakeArgv on the array that holds `line`.
unfoldable pub make_argv : Params → Bytes → Parsed
make_argv p line = parse_args p p.cargcmax [] 0 line
