-- ===== src/Facts/Safe.antt =====
-- What UnMlsD lists: nothing that climbs out of the directory.
use mathlib.Core.List.{append_assoc, append-nil}
use ncftp.Base.{
  ℕ, suc, ◌+◌, ◌≡◌, refl, sym, ◌∙◌, Bool, true, false, List, [], ◌∷◌, ◌++◌, arith, ltb, ◌==◌,
  if◌then◌else◌, length, ◌&&◌,
}
use ncftp.Base.Bytes.{Bytes}
use ncftp.Base.Int.{ℤ, pos, negsuc}
use ncftp.Facts.{MlstItem, ParsedItem, bad, unlisted, item, un_mls_t}
use ncftp.Facts.Entries.{
  entry_of, ignore_line, add_entry, Listed, nothing_listed, add_parsed, mls_loop, un_mls_d,
}
use ncftp.Facts.Nodes.{contains_dot_dot, nodes, any_climbs, contains_dot_dot-climbs}
use ncftp.Facts.Time.{Clock}
use ncftp.FileInfo.{FileInfo}

-- The items of the lines that UnMlsT reads and of which no node climbs, and how many lines are read but
-- not listed.
abbrev pub take_safe : ParsedItem → List MlstItem → List MlstItem
take_safe bad its = its
take_safe unlisted its = its
take_safe (item it) its = if any_climbs (nodes it.fname) then its else it ∷ its

abbrev pub safe_items : Clock → List Bytes → List MlstItem
safe_items clock [] = []
safe_items clock (line ∷ lines) = take_safe (un_mls_t clock line) (safe_items clock lines)

abbrev pub count_left_out : ParsedItem → ℕ → ℕ
count_left_out bad n = n
count_left_out unlisted n = n + 1
count_left_out (item it) n = if any_climbs (nodes it.fname) then n + 1 else n

abbrev pub left_out : Clock → List Bytes → ℕ
left_out clock [] = 0
left_out clock (line ∷ lines) = count_left_out (un_mls_t clock line) (left_out clock lines)

abbrev pub entries_of : List MlstItem → List FileInfo
entries_of [] = []
entries_of (it ∷ its) = entry_of it ∷ entries_of its

-- The entries and the counts of a loop that starts with some.
abbrev Counts : Listed → Listed → ℕ → List MlstItem → ℕ → Type 0
Counts l l' read its ignored =
    (l'.entries ≡ l.entries ++ entries_of its)
    × (l'.lines_read ≡ l.lines_read + read)
    × (l'.lines_converted ≡ l.lines_converted + length its)
    × (l'.lines_ignored ≡ l.lines_ignored + ignored)

module _ (l l' : Listed) (read : ℕ) (its : List MlstItem) (ignored : ℕ) where
  item_step :
      (it : MlstItem) (c a : Bool)
      → c ≡ a
      → Counts
          (if c
            then ignore_line (record l { lines_read = l.lines_read + 1 })
            else add_entry (record l { lines_read = l.lines_read + 1 }) it)
          l'
          read
          its
          ignored
      → Counts l l' (suc read) (if a then its else it ∷ its) (if a then ignored + 1 else ignored)
  item_step it true true e h = (h.0, omega (arith, h.1), h.2, omega (arith, h.3))
  item_step it false false e h = (
    h.0 ∙ append_assoc l.entries (entry_of it ∷ []) (entries_of its),
    omega (arith, h.1),
    omega (arith, h.2),
    h.3,
  )
  item_step it true false e h = absurd (cc e)
  item_step it false true e h = absurd (cc e)

  line_step :
      (p : ParsedItem)
      → Counts (add_parsed (record l { lines_read = l.lines_read + 1 }) p) l' read its ignored
      → Counts l l' (suc read) (take_safe p its) (count_left_out p ignored)
  line_step bad h = (h.0, omega (arith, h.1), h.2, h.3)
  line_step unlisted h = (h.0, omega (arith, h.1), h.2, omega (arith, h.3))
  line_step (item it) h =
      item_step it (contains_dot_dot it.fname) (any_climbs (nodes it.fname))
        (contains_dot_dot-climbs it.fname) h

mls_loop-Counts :
    (clock : Clock) (l : Listed) (lines : List Bytes)
    → Counts l
        (mls_loop clock l lines)
        (length lines)
        (safe_items clock lines)
        (left_out clock lines)
unfolding mls_loop
mls_loop-Counts clock l [] = (sym (append-nil l.entries), omega arith, omega arith, omega arith)
mls_loop-Counts clock l (line ∷ lines) =
    line_step l
      (mls_loop clock
        (add_parsed (record l { lines_read = l.lines_read + 1 }) (un_mls_t clock line)) lines)
      (length lines) (safe_items clock lines) (left_out clock lines) (un_mls_t clock line)
      (mls_loop-Counts clock
        (add_parsed (record l { lines_read = l.lines_read + 1 }) (un_mls_t clock line)) lines)

-- 0 if there is no line, or lines that are left out and none that is listed; -1 if no line can be read.
abbrev pub listing_result : ℕ → ℕ → ℕ → ℤ
listing_result lines listed ignored =
    if lines == 0
    then pos 0
    else if listed == 0 && ltb 0 ignored
    then pos 0
    else if ltb 0 listed
    then pos listed
    else negsuc 0

-- UnMlsD lists exactly the items of the lines that UnMlsT reads and whose names have no node of two dots
-- or more, in their order, and returns how many there are, or 0 or -1 if there are none.
pub un_mls_d-safe :
    (clock : Clock) (lines : List Bytes)
    → ((un_mls_d clock lines).1.entries ≡ entries_of (safe_items clock lines))
      × ((un_mls_d clock lines).0
          ≡ listing_result (length lines) (length (safe_items clock lines)) (left_out clock lines))
unfolding un_mls_d
un_mls_d-safe clock lines =
    let (es, read, converted, ignored) = mls_loop-Counts clock nothing_listed lines in
    let read' : (mls_loop clock nothing_listed lines).lines_read ≡ length lines =
      omega (arith, read) in
    let converted' : (mls_loop clock nothing_listed lines).lines_converted
        ≡ length (safe_items clock lines) =
      omega (arith, converted) in
    let ignored' : (mls_loop clock nothing_listed lines).lines_ignored ≡ left_out clock lines =
      omega (arith, ignored) in
    (es, rw (read', converted', ignored') refl)
