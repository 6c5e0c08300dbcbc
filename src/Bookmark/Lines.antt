-- ===== src/Bookmark/Lines.antt =====
-- Lines that are written come back from FGets.
use mathlib.Core.List.{append_assoc}
use ncftp.Base.{
  ℕ, zero, suc, ◌+◌, ◌-◌, ◌<◌, ◌≤◌, ◌≡◌, refl, ap, ◌∙◌, Bool, true, false, not, ◌&&◌, ◌||◌, some,
  List, [], ◌∷◌, ◌++◌, arith, ◌==◌, length, length-append,
}
use ncftp.Base.Bytes.{Bytes, c_str, HasNoNul}
use ncftp.Bookmark.File.{split_line, without_last, lines_from, file_lines, open_bookmark_file}
use ncftp.Bookmark.Saving.{ended, all_ended, file_header}
use ncftp.Bookmark.Texts.{c_str_self}

-- No newline, no carriage return and no NUL.
abbrev pub AreInLine : Bytes → Type 0
AreInLine [] = Unit
AreInLine (c ∷ s) = ((c == 10) ≡ false) × ((c == 13) ≡ false) × ((c == 0) ≡ false) × AreInLine s

abbrev pub are_in_line : Bytes → Bool
are_in_line [] = true
are_in_line (c ∷ s) = not (c == 10 || c == 13 || c == 0) && are_in_line s

pub are_in_line-AreInLine : (s : Bytes) → are_in_line s ≡ true → AreInLine s
are_in_line-AreInLine [] e = tt
are_in_line-AreInLine (c ∷ s) e = (
  ground (arith, e),
  ground (arith, e),
  ground (arith, e),
  are_in_line-AreInLine s (ground (arith, e)),
)

-- A line for FGets with a buffer of `size` bytes.
abbrev pub IsLine : ℕ → Bytes → Type 0
IsLine size s = AreInLine s × (length s + 3 ≤ size)

abbrev pub AreLines : ℕ → List Bytes → Type 0
AreLines size [] = Unit
AreLines size (line ∷ lines) = IsLine size line × AreLines size lines

pub split_ended :
    (n : ℕ) (line rest : Bytes)
    → AreInLine line
    → length line < n
    → split_line n (line ++ (10 ∷ rest)) ≡ (ended line, rest)
unfolding split_line
split_ended zero line rest is h = absurd (omega arith)
split_ended (suc n) [] rest is h = refl
split_ended (suc n) (c ∷ line) rest is h =
    rw (is.0, split_ended n line rest is.3 (omega arith)) refl

ended-HasNoNul : (line : Bytes) → AreInLine line → HasNoNul (ended line)
ended-HasNoNul [] is = (refl, tt)
ended-HasNoNul (c ∷ line) is = (is.2, ended-HasNoNul line is.3)

without_last-ended : (line : Bytes) → without_last 10 (ended line) ≡ line
without_last-ended [] = refl
without_last-ended (c ∷ []) = refl
without_last-ended (c ∷ d ∷ line) = ap (◌∷◌ c) (without_last-ended (d ∷ line))

without_last-nothing : (line : Bytes) → AreInLine line → without_last 13 line ≡ line
without_last-nothing [] is = refl
without_last-nothing (c ∷ []) is = rw (is.1) refl
without_last-nothing (c ∷ d ∷ line) is = ap (◌∷◌ c) (without_last-nothing (d ∷ line) is.3)

chopped :
    (line : Bytes) → AreInLine line → without_last 13 (without_last 10 (c_str (ended line))) ≡ line
chopped line is =
    ap (λ z. without_last 13 (without_last 10 z)) (c_str_self (ended line) (ended-HasNoNul line is))
    ∙ ap (without_last 13) (without_last-ended line)
    ∙ without_last-nothing line is

abbrev next_lines : ℕ → ℕ → Bytes × Bytes → List Bytes
next_lines k size (line, rest) =
    without_last 13 (without_last 10 (c_str line)) ∷ lines_from k size rest

lines_from-cons :
    (k size c : ℕ) (s : Bytes)
    → lines_from (suc k) size (c ∷ s) ≡ next_lines k size (split_line (size - 2) (c ∷ s))
unfolding lines_from
lines_from-cons k size c s = refl

lines_from-ended :
    (k size : ℕ) (line rest : Bytes)
    → lines_from (suc k) size (line ++ (10 ∷ rest))
      ≡ next_lines k size (split_line (size - 2) (line ++ (10 ∷ rest)))
lines_from-ended k size [] rest = lines_from-cons k size 10 rest
lines_from-ended k size (c ∷ line) rest = lines_from-cons k size c (line ++ (10 ∷ rest))

lines_from-nil : (k size : ℕ) → lines_from k size [] ≡ []
unfolding lines_from
lines_from-nil zero size = refl
lines_from-nil (suc k) size = refl

lines_from-all_ended :
    (k size : ℕ) (lines : List Bytes)
    → AreLines size lines
    → length (all_ended lines) ≤ k
    → lines_from k size (all_ended lines) ≡ lines
lines_from-all_ended k size [] are h = lines_from-nil k size
lines_from-all_ended zero size (line ∷ lines) are h =
    absurd
      (omega (arith, length-append (ended line) (all_ended lines), length-append line (10 ∷ [])))
lines_from-all_ended (suc k) size (line ∷ lines) are h =
    let len = length-append (ended line) (all_ended lines) in
    let len' = length-append line (10 ∷ []) in
    ap (lines_from (suc k) size) (append_assoc line (10 ∷ []) (all_ended lines))
    ∙ lines_from-ended k size line (all_ended lines)
    ∙ ap (next_lines k size)
        (split_ended (size - 2) line (all_ended lines) are.0.0 (omega (arith, are.0.1)))
    ∙ ap (λ z. z ∷ lines_from k size (all_ended lines)) (chopped line are.0.0)
    ∙ ap (◌∷◌ line) (lines_from-all_ended k size lines are.1 (omega (arith, h, len, len')))

pub file_lines-all_ended :
    (size : ℕ) (lines : List Bytes)
    → AreLines size lines
    → file_lines size (all_ended lines) ≡ lines
file_lines-all_ended size lines are =
    lines_from-all_ended (length (all_ended lines)) size lines are (omega arith)

-- OpenBookmarkFile gets past the header that OpenTmpBookmarkFile writes.
pub open-file_header : (s : Bytes) → open_bookmark_file (some (file_header ++ s)) ≡ some s
unfolding split_line
open-file_header s = refl
