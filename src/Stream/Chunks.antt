-- ===== src/Stream/Chunks.antt =====
-- How the bytes of a data connection come in pieces makes no difference to BufferGets.
use mathlib.Core.Path.{subst}
use ncftp.Base.{ℕ, zero, suc, ◌-◌, ◌≡◌, refl, sym, inl, inr, List, [], ◌∷◌, ◌++◌, ◌==◌, Bool-cases}
use ncftp.Base.Bytes.{Bytes}
use ncftp.Stream.{
  Read, got, ended, Scanned, stopped, hungry, scan_bytes, whole, at_eof, Got, got_line, fill_line,
  buffer_gets,
}

-- The reads that bring pieces, none of them empty.
abbrev pub pieces : List (ℕ × Bytes) → List Read
pieces [] = []
pieces ((c, s) ∷ ps) = got c s ∷ pieces ps

abbrev pub all_bytes : List (ℕ × Bytes) → Bytes
all_bytes [] = []
all_bytes ((c, s) ∷ ps) = c ∷ (s ++ all_bytes ps)

-- Going on with more bytes.
abbrev resume : Bytes → Scanned → Scanned
resume t (stopped line s) = stopped line (s ++ t)
resume t (hungry room line) = scan_bytes (suc room) line t

scan_bytes-append :
    (room : ℕ) (line s t : Bytes)
    → scan_bytes room line (s ++ t) ≡ resume t (scan_bytes room line s)
unfolding scan_bytes
scan_bytes-append zero line s t = refl
scan_bytes-append (suc room) line [] t = refl
scan_bytes-append (suc room) line (c ∷ s) t = elim (Bool-cases (c == 13)) [
  | inl e ↦ rw e (scan_bytes-append (suc room) line s t)
  | inr e ↦ elim (Bool-cases (c == 10)) [
    | inl e' ↦ rw (e, e') refl
    | inr e' ↦ rw (e, e') (scan_bytes-append room (line ++ (c ∷ [])) s t)
  ]
]

-- What BufferGets comes to on pieces and the end of the stream, by what it comes to on all the bytes at
-- once: the same line, and the same bytes left.
abbrev pub Agrees : List (ℕ × Bytes) → Got → Scanned → Type 0
Agrees ps g (stopped line rest) =
    (ps' : List (ℕ × Bytes)) × (pending : Bytes) × (g
      ≡ got_line whole line pending (pieces ps' ++ (ended ∷ [])))
    × (pending ++ all_bytes ps' ≡ rest)
Agrees ps g (hungry room line) = g ≡ got_line at_eof line [] []

resume-nothing : (room : ℕ) (line : Bytes) → resume [] (hungry room line) ≡ hungry room line
unfolding scan_bytes
resume-nothing room line = refl

fill_line-Agrees :
    (ps : List (ℕ × Bytes)) (sc : Scanned)
    → Agrees ps (fill_line (pieces ps ++ (ended ∷ [])) sc) (resume (all_bytes ps) sc)
unfolding fill_line
fill_line-Agrees ps (stopped line s) = (ps, s, refl, refl)
fill_line-Agrees [] (hungry room line) =
    subst (Agrees [] (got_line at_eof line [] [])) (sym (resume-nothing room line)) refl
fill_line-Agrees ((c, s) ∷ ps) (hungry room line) =
    subst (Agrees ps (fill_line (pieces ps ++ (ended ∷ [])) (scan_bytes (suc room) line (c ∷ s))))
      (sym (scan_bytes-append (suc room) line (c ∷ s) (all_bytes ps)))
      (fill_line-Agrees ps (scan_bytes (suc room) line (c ∷ s)))

-- BufferGets on bytes that are pending and pieces that come, against the line of all of them.
pub buffer_gets-Agrees :
    (bufsize : ℕ) (pending : Bytes) (ps : List (ℕ × Bytes))
    → Agrees ps
        (buffer_gets bufsize pending (pieces ps ++ (ended ∷ [])))
        (scan_bytes (bufsize - 1) [] (pending ++ all_bytes ps))
buffer_gets-Agrees bufsize pending ps =
    subst (Agrees ps (buffer_gets bufsize pending (pieces ps ++ (ended ∷ []))))
      (sym (scan_bytes-append (bufsize - 1) [] pending (all_bytes ps)))
      (fill_line-Agrees ps (scan_bytes (bufsize - 1) [] pending))
