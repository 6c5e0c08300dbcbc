-- ===== src/Shell/Argv/Tests.antt =====
-- Command lines, and the theorems about MakeArgv at them.
use ncftp.Base.{ℕ, ◌≡◌, refl, inr, false, some, List, [], ◌∷◌, ◌++◌, map, arith}
use ncftp.Base.Bytes.{Bytes, codes}
use ncftp.Shell.Argv.{
  Arg, Params, done, unbalanced, skip, step, scan, begin, expand, parse_args, make_argv,
}
use ncftp.Shell.Argv.Pieces.{Piece, raw, esc, lit, pieces_bytes}
use ncftp.Shell.Argv.Lines.{words_bytes, word_arg, make_argv-words}
use ncftp.Shell.Argv.Bounds.{Fits, make_argv-Fits}
use ncftp.Shell.Argv.Overruns.{empty_arg, empty_word, make_argv_overflow}

abbrev params : ℕ → Params
params lim = record {
  lim = lim;
  cargcmax = 64;
  readline_hacks = false;
  from_readln = false;
  tilde = λ name. some (codes "/home/me");
}

abbrev arg : Bytes → Arg
arg s = record { text = s; no_glob = false }

run :
    make_argv (params 99) (codes "get ~/x 'a b' ; ls" ++ 0 ∷ [])
    ≡ done
        (arg (codes "get") ∷ arg (codes "/home/me/x") ∷ arg (codes "a b") ∷ [])
        (codes " ls" ++ 0 ∷ [])
        19
unfolding make_argv parse_args skip begin scan step expand
run = refl

shell_escape :
    make_argv (params 99) (codes "!ls -l" ++ 0 ∷ [])
    ≡ done (arg (codes "!") ∷ arg (codes "ls") ∷ arg (codes "-l") ∷ []) (0 ∷ []) 8
unfolding make_argv parse_args skip begin scan step
shell_escape = refl

-- A newline does not end a command: it is skipped as a space.
newline :
    make_argv (params 99) (codes "ls\ncd" ++ 0 ∷ [])
    ≡ done (arg (codes "ls") ∷ arg (codes "cd") ∷ []) (0 ∷ []) 6
unfolding make_argv parse_args skip begin scan step
newline = refl

open_quote : make_argv (params 99) (codes "ls 'x" ++ 0 ∷ []) ≡ unbalanced
unfolding make_argv parse_args skip begin scan step
open_quote = refl

abbrev words : List (List Piece)
words = (raw b'l' ∷ raw b's' ∷ []) ∷ (esc 32 ∷ lit 39 (codes "a*") ∷ []) ∷ []

make_argv-words_example :
    make_argv (params 99) (words_bytes words ++ b';' ∷ codes "pwd")
    ≡ done (map word_arg words) (codes "pwd") 7
make_argv-words_example =
    make_argv-words (params 99) words b';' (codes "pwd") (ground arith) (omega arith) (omega arith)
      (inr refl)

make_argv-Fits_example : Fits (params 9) (make_argv (params 9) (codes "ls -l" ++ 0 ∷ []))
make_argv-Fits_example = make_argv-Fits (params 9) (codes "ls -l" ++ 0 ∷ [])

abbrev word : List Piece
word = raw b'l' ∷ raw b's' ∷ []

make_argv_overflow_example :
    make_argv (params 2) (32 ∷ (pieces_bytes word ++ empty_word []))
    ≡ done (word_arg word ∷ empty_arg ∷ []) (0 ∷ []) 4
make_argv_overflow_example =
    make_argv_overflow (params 2) word 61 [] (refl, refl) (ground arith) refl refl
