-- ===== src/Bookmark/LoadSave.antt =====
-- LoadBookmarkTable after SaveBookmarkTable.
use mathlib.Core.List.{append_assoc}
use ncftp.Base.{
  ℕ, ◌+◌, ◌<◌, ◌≤◌, ◌^◌, ◌≡◌, refl, sym, ap, ◌∙◌, inl, inr, true, false, Option, some, List, [],
  ◌∷◌, ◌++◌, arith, ◌==◌, if◌then◌else◌, Bool-cases, length, length-append,
}
use ncftp.Base.Bytes.{Bytes, codes}
use ncftp.Base.Formats.{print_nat, AreDigits, print_digits-AreDigits, length-print_digits}
use ncftp.Base.Int.{ℤ}
use ncftp.Bookmark.{Bookmark, write_bm_line}
use ncftp.Bookmark.Searching.{entry, entries}
use ncftp.Bookmark.File.{f_gets, behind_version, split_line, open_bookmark_file}
use ncftp.Bookmark.Lines.{
  are_in_line-AreInLine, AreInLine, IsLine, AreLines, file_lines-all_ended, split_ended,
}
use ncftp.Bookmark.Lookup.{is_negative}
use ncftp.Bookmark.RoundTrip.{fields_read, parse_host_line-write_bm_line}
use ncftp.Bookmark.Saving.{all_ended}
use ncftp.Bookmark.Stored.{IsWritable, read_back}
use ncftp.Bookmark.Sorting.{ByName, Ordered, IsQsort, sort_bookmarks-Ordered}
use mathlib.Core.List.{Perm}
use ncftp.Bookmark.Table.{
  Qsort, sort_bookmarks, load_bookmark_table, live, counted_header, written_lines,
  save_bookmark_table, counted_lines,
}
use ncftp.Bookmark.Loading.{load-entries}

-- What is saved of a table: the bookmarks that are not deleted, as they are read back.
abbrev pub saved_entries : ℤ → List Bookmark → List Bookmark
saved_entries junk [] = []
saved_entries junk (b ∷ bms) = read_back true junk b ∷ saved_entries junk bms

-- Bookmarks whose lines come back.
abbrev pub AreWritable : List Bookmark → Type 0
AreWritable [] = Unit
AreWritable (b ∷ bms) = (IsWritable b × IsLine 512 (write_bm_line true b)) × AreWritable bms

written-AreLines : (bms : List Bookmark) → AreWritable bms → AreLines 512 (written_lines bms)
written-AreLines [] are = tt
written-AreLines (b ∷ bms) are = (are.0.1, written-AreLines bms are.1)

not_negative : (s : Bytes) → is_negative (fields_read s) ≡ false
not_negative [] = refl
not_negative (c ∷ s) = refl

entries-written :
    (junk : ℤ) (bms : List Bookmark)
    → AreWritable bms
    → entries junk (written_lines bms) ≡ saved_entries junk bms
entries-written junk [] are = refl
entries-written junk (b ∷ bms) are =
    ap (λ p. entry (is_negative p.0) p.1 (entries junk (written_lines bms)))
      (parse_host_line-write_bm_line true junk b are.0.0)
    ∙ ap (λ n. entry n (read_back true junk b) (entries junk (written_lines bms)))
        (not_negative b.ldir)
    ∙ ap (◌∷◌ (read_back true junk b)) (entries-written junk bms are.1)

open-first :
    (c : ℕ) (s : Bytes)
    → open_bookmark_file (some (codes "NcFTP bookmark-file version: 8\n" ++ (c ∷ s)))
      ≡ behind_version (f_gets 256 (c ∷ s))
unfolding split_line
open-first c s = refl

AreInLine-append : (s t : Bytes) → AreInLine s → AreInLine t → AreInLine (s ++ t)
AreInLine-append [] t h k = k
AreInLine-append (c ∷ s) t h k = (h.0, h.1, h.2, AreInLine-append s t h.3 k)

AreDigits-AreInLine : (s : Bytes) → AreDigits s → AreInLine s
AreDigits-AreInLine [] h = tt
AreDigits-AreInLine (c ∷ s) h =
    (ground (arith, h.0), ground (arith, h.0), ground (arith, h.0), AreDigits-AreInLine s h.1)

abbrev number : ℕ → Bytes
number nb = if nb == 0 then codes "??" else print_nat nb

number-Fits : (nb : ℕ) → nb < 2 ^ 64 → AreInLine (number nb) × (length (number nb) ≤ 21)
number-Fits nb h = elim (Bool-cases (nb == 0)) [
  | inl e ↦ rw e (are_in_line-AreInLine (codes "??") refl, omega arith)
  | inr e ↦ rw e (
    AreDigits-AreInLine (print_nat nb) (print_digits-AreDigits (nb + 1) nb),
    length-print_digits 20 (nb + 1) nb (omega arith),
  )
]

open-second :
    (t s : Bytes)
    → AreInLine t
    → length t ≤ 21
    → behind_version (f_gets 256 (codes "Number of bookmarks: " ++ (t ++ (10 ∷ s)))) ≡ some s
open-second t s is short =
    let text = codes "Number of bookmarks: " in
    ap (λ z. some (split_line 254 z).1) (sym (append_assoc text t (10 ∷ s)))
    ∙ ap (λ z. some z.1)
        (split_ended 254 (text ++ t) s
          (AreInLine-append text t (are_in_line-AreInLine text refl) is)
          (omega (arith, short, length-append text t)))

open-counted :
    (nb : ℕ) (s : Bytes) → nb < 2 ^ 64 → open_bookmark_file (some (counted_header nb ++ s)) ≡ some s
open-counted nb s h =
    let (is, short) = number-Fits nb h in
    let text = codes "Number of bookmarks: " in
    ap (λ z. open_bookmark_file (some (codes "NcFTP bookmark-file version: 8\n" ++ (text ++ z))))
      (append_assoc (number nb) (10 ∷ []) s)
    ∙ open-first b'N' _
    ∙ open-second (number nb) s is short

-- LoadBookmarkTable, given memory and a qsort that sorts, of the file that SaveBookmarkTable writes for a
-- table that is not empty has the bookmarks that were not deleted, as they are read back from their
-- lines, each as often as it was, in the order of their names without regard to capitals. Each of them
-- has a line that comes back and fits a buffer of 512 bytes, and there are fewer than 2 ^ 64.
pub load_bookmark_table-save_bookmark_table :
    (qsort : Qsort) (junk : ℤ) (b : Bookmark) (bms : List Bookmark) (file : Option Bytes)
    → IsQsort qsort
    → AreWritable (live (b ∷ bms))
    → length (live (b ∷ bms)) < 2 ^ 64
    → (table : List Bookmark) × (load_bookmark_table qsort junk true
          (save_bookmark_table (b ∷ bms) file)
        ≡ some table)
      × Perm table (saved_entries junk (live (b ∷ bms)))
      × Ordered ByName table
unfolding save_bookmark_table
load_bookmark_table-save_bookmark_table qsort junk b bms file is are few =
    let bms' = live (b ∷ bms) in
    let lines = written_lines bms' in
    let read_again = saved_entries junk bms' in
    let (permuted, ordered) = sort_bookmarks-Ordered qsort read_again is in
    (
      sort_bookmarks qsort read_again,
      load-entries junk qsort (some (counted_header (length bms') ++ all_ended lines))
          ∙ ap (λ o. some (sort_bookmarks qsort (entries junk (counted_lines o))))
              (open-counted (length bms') (all_ended lines) few)
          ∙ ap (λ ls. some (sort_bookmarks qsort (entries junk ls)))
              (file_lines-all_ended 512 lines (written-AreLines bms' are))
          ∙ ap (λ es. some (sort_bookmarks qsort es)) (entries-written junk bms' are),
      permuted,
      ordered,
    )
