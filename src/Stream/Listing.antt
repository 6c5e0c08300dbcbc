-- ===== src/Stream/Listing.antt =====
-- A listing that comes in pieces: its lines.
use mathlib.Core.List.{append_assoc, append-nil}
use mathlib.Core.Path.{subst}
use ncftp.Base.{
  ℕ, zero, suc, ◌+◌, ◌-◌, ◌<◌, ◌≡◌, refl, sym, ap, ◌∙◌, Bool, true, false, List, [], ◌∷◌, ◌++◌,
  arith, ◌==◌, if◌then◌else◌, length,
}
use ncftp.Base.Bytes.{Bytes, c_str}
use ncftp.Stream.{
  Read, ended, stopped, hungry, scan_bytes, Got, buffer_gets, is_over, keeps, keep_line, list_lines,
}
use ncftp.Stream.Chunks.{pieces, all_bytes, Agrees, buffer_gets-Agrees}

-- No carriage return, no newline and no NUL.
abbrev pub AreInLine : Bytes → Type 0
AreInLine [] = Unit
AreInLine (c ∷ s) = ((c == 13) ≡ false) × ((c == 10) ≡ false) × ((c == 0) ≡ false) × AreInLine s

-- A line, and whether a carriage return stands in front of its newline.
abbrev pub ListingLines : Type 0
ListingLines = List (Bytes × Bool)

abbrev pub line_end : Bool → Bytes
line_end true = 13 ∷ 10 ∷ []
line_end false = 10 ∷ []

abbrev pub text : ListingLines → Bytes
text [] = []
text ((l, cr) ∷ ls) = l ++ (line_end cr ++ text ls)

abbrev pub AreLines : ℕ → ListingLines → Type 0
AreLines bufsize [] = Unit
AreLines bufsize ((l, cr) ∷ ls) = (AreInLine l × (length l + 1 < bufsize)) × AreLines bufsize ls

-- The lines that the caller keeps.
abbrev pub kept : Bool → ListingLines → List Bytes
kept blank_lines [] = []
kept blank_lines ((l, cr) ∷ ls) =
    if keeps blank_lines l then l ∷ kept blank_lines ls else kept blank_lines ls

scan_bytes-end :
    (room : ℕ) (line : Bytes) (cr : Bool) (rest : Bytes)
    → scan_bytes (suc room) line (line_end cr ++ rest) ≡ stopped line rest
unfolding scan_bytes
scan_bytes-end room line true rest = refl
scan_bytes-end room line false rest = refl

scan_line :
    (room : ℕ) (line l : Bytes) (cr : Bool) (rest : Bytes)
    → AreInLine l
    → length l < room
    → scan_bytes room line (l ++ (line_end cr ++ rest)) ≡ stopped (line ++ l) rest
unfolding scan_bytes
scan_line zero line l cr rest is h = absurd (omega arith)
scan_line (suc room) line [] cr rest is h =
    scan_bytes-end room line cr rest ∙ ap (λ z. stopped z rest) (sym (append-nil line))
scan_line (suc room) line (c ∷ l) cr rest is h =
    rw (is.0, is.1)
      (scan_line room (line ++ (c ∷ [])) l cr rest is.3 (omega arith)
        ∙ ap (λ z. stopped z rest) (append_assoc line (c ∷ []) l))

scan_nothing :
    (bufsize : ℕ) → 1 < bufsize → (room : ℕ) × (scan_bytes (bufsize - 1) [] [] ≡ hungry room [])
unfolding scan_bytes
scan_nothing zero h = absurd (omega arith)
scan_nothing (suc zero) h = absurd (omega arith)
scan_nothing (suc (suc n)) h =
    let one : suc (suc n) - 1 ≡ suc n = omega arith in (n, ap (λ m. scan_bytes m [] []) one)

c_str_self : (s : Bytes) → AreInLine s → c_str s ≡ s
c_str_self [] is = refl
c_str_self (c ∷ s) is = rw (is.2) (ap (◌∷◌ c) (c_str_self s is.3))

module _ (blank_lines : Bool) (bufsize : ℕ) (large : 1 < bufsize) where
  abbrev after_get : ℕ → Got → List Bytes
  after_get k g =
      if is_over g
      then []
      else keep_line blank_lines g.line (list_lines k blank_lines bufsize g.pending g.reads)

  list-suc :
      (k : ℕ) (pending : Bytes) (rs : List Read)
      → list_lines (suc k) blank_lines bufsize pending rs
        ≡ after_get k (buffer_gets bufsize pending rs)
  unfolding list_lines
  list-suc k pending rs = refl

  keep_kept :
      (l : Bytes) (cr : Bool) (ls : ListingLines)
      → AreInLine l
      → keep_line blank_lines l (kept blank_lines ls) ≡ kept blank_lines ((l, cr) ∷ ls)
  keep_kept l cr ls is =
      ap (λ z. if keeps blank_lines l then z ∷ kept blank_lines ls else kept blank_lines ls)
        (c_str_self l is)

  list_from :
      (k : ℕ) (ls : ListingLines) (pending : Bytes) (ps : List (ℕ × Bytes))
      → AreLines bufsize ls
      → length ls < k
      → pending ++ all_bytes ps ≡ text ls
      → list_lines k blank_lines bufsize pending (pieces ps ++ (ended ∷ [])) ≡ kept blank_lines ls
  list_from zero ls pending ps are h e = absurd (omega arith)
  list_from (suc k) [] pending ps are h e =
      let (room, nothing) = scan_nothing bufsize large in
      let run : Agrees ps (buffer_gets bufsize pending (pieces ps ++ (ended ∷ [])))
          (hungry room []) =
        subst (Agrees ps (buffer_gets bufsize pending (pieces ps ++ (ended ∷ []))))
          (ap (scan_bytes (bufsize - 1) []) e ∙ nothing) (buffer_gets-Agrees bufsize pending ps) in
      list-suc k pending _ ∙ ap (after_get k) run
  list_from (suc k) ((l, cr) ∷ ls) pending ps are h e =
      let (ps', pending', run, left) =
        subst (Agrees ps (buffer_gets bufsize pending (pieces ps ++ (ended ∷ []))))
          (ap (scan_bytes (bufsize - 1) []) e
            ∙ scan_line (bufsize - 1) [] l cr (text ls) are.0.0 (omega (arith, are.0.1)))
          (buffer_gets-Agrees bufsize pending ps) in
      list-suc k pending _
      ∙ ap (after_get k) run
      ∙ ap (keep_line blank_lines l) (list_from k ls pending' ps' are.1 (omega arith) left)
      ∙ keep_kept l cr ls are.0.0

-- However a listing is cut into reads, none of them empty, the loop of FTPListToMemory2 adds its lines,
-- less `.` and `..`, and blank ones unless they are asked for: lines that end with a newline or with a
-- carriage return and a newline, hold none of the two nor a NUL, and are shorter than the buffer by two
-- at least. A round for each line and one more are enough.
pub list_lines-text :
    (blank_lines : Bool) (bufsize k : ℕ) (ls : ListingLines) (ps : List (ℕ × Bytes))
    → 1 < bufsize
    → AreLines bufsize ls
    → length ls < k
    → all_bytes ps ≡ text ls
    → list_lines k blank_lines bufsize [] (pieces ps ++ (ended ∷ [])) ≡ kept blank_lines ls
list_lines-text blank_lines bufsize k ls ps large are enough e =
    list_from blank_lines bufsize large k ls [] ps are enough e
