-- ===== src/Bookmark/Loading.antt =====
-- LoadBookmarkTable loads all the bookmarks of a file.
use mathlib.Core.Path.{subst}
use ncftp.Base.{
  ℕ, zero, suc, ◌+◌, ◌<◌, ◌≡◌, refl, sym, ap, ◌∙◌, Bool, true, false, Option, none, some, List, [],
  ◌∷◌, arith, if◌then◌else◌, length,
}
use ncftp.Base.Bytes.{Bytes}
use ncftp.Base.Int.{ℤ}
use ncftp.Bookmark.{Bookmark, parse_host_line}
use ncftp.Bookmark.Searching.{entry, entries}
use ncftp.Bookmark.File.{open_bookmark_file}
use ncftp.Bookmark.Lookup.{is_negative}
use ncftp.Bookmark.Table.{
  Qsort, get_next_bookmark, count_bookmarks, fill_table, sort_bookmarks, load_bookmark_table,
  counted_lines,
}

-- The next bookmark is the first of the entries.
module _ (junk : ℤ) where
  abbrev IsNext : List Bytes → Option (Bookmark × List Bytes) → Type 0
  IsNext lines none = entries junk lines ≡ []
  IsNext lines (some (b, rest)) =
      (entries junk lines ≡ b ∷ entries junk rest) × (length rest < length lines)

  abbrev next_of : Bool → Bookmark → List Bytes → Option (Bookmark × List Bytes)
  next_of negative b lines = if negative then get_next_bookmark junk lines else some (b, lines)

  next-cons :
      (line : Bytes) (lines : List Bytes)
      → get_next_bookmark junk (line ∷ lines)
        ≡ (let (result, b) = parse_host_line junk line in next_of (is_negative result) b lines)
  unfolding get_next_bookmark
  next-cons line lines = refl

  next-nil : get_next_bookmark junk [] ≡ none
  unfolding get_next_bookmark
  next-nil = refl

  skip_line :
      (line : Bytes) (lines : List Bytes) (o : Option (Bookmark × List Bytes))
      → entries junk (line ∷ lines) ≡ entries junk lines
      → IsNext lines o
      → IsNext (line ∷ lines) o
  skip_line line lines none e h = e ∙ h
  skip_line line lines (some (b, rest)) e h = (e ∙ h.0, omega (arith, h.1))

  line-IsNext :
      (negative : Bool) (b : Bookmark) (line : Bytes) (lines : List Bytes)
      → entries junk (line ∷ lines) ≡ entry negative b (entries junk lines)
      → IsNext lines (get_next_bookmark junk lines)
      → IsNext (line ∷ lines) (next_of negative b lines)
  line-IsNext true b line lines e h = skip_line line lines (get_next_bookmark junk lines) e h
  line-IsNext false b line lines e h = (e, omega arith)

  get_next_bookmark-IsNext : (lines : List Bytes) → IsNext lines (get_next_bookmark junk lines)
  get_next_bookmark-IsNext [] = subst (IsNext []) (sym next-nil) refl
  get_next_bookmark-IsNext (line ∷ lines) =
      let (result, b) = parse_host_line junk line in
      subst (IsNext (line ∷ lines)) (sym (next-cons line lines))
        (line-IsNext (is_negative result) b line lines refl (get_next_bookmark-IsNext lines))

  abbrev count_next : ℕ → Option (Bookmark × List Bytes) → ℕ
  count_next k none = 0
  count_next k (some (b, rest)) = suc (count_bookmarks k junk rest)

  count-suc :
      (k : ℕ) (lines : List Bytes)
      → count_bookmarks (suc k) junk lines ≡ count_next k (get_next_bookmark junk lines)
  unfolding count_bookmarks
  count-suc k lines = refl

  count_after :
      (k : ℕ) (lines : List Bytes)
      → length lines < suc k
      → ((rest : List Bytes)
          → length rest < k
          → count_bookmarks k junk rest ≡ length (entries junk rest))
      → (o : Option (Bookmark × List Bytes)) → IsNext lines o
      → count_next k o ≡ length (entries junk lines)
  count_after k lines h more none e = sym (ap length e)
  count_after k lines h more (some (b, rest)) (e, shorter) =
      ap suc (more rest (omega (arith, h, shorter))) ∙ sym (ap length e)

  count-entries :
      (k : ℕ) (lines : List Bytes)
      → length lines < k
      → count_bookmarks k junk lines ≡ length (entries junk lines)
  count-entries zero lines h = absurd (omega arith)
  count-entries (suc k) lines h =
      count-suc k lines
      ∙ count_after k lines h (count-entries k) (get_next_bookmark junk lines)
          (get_next_bookmark-IsNext lines)

  abbrev fill_next : ℕ → Option (Bookmark × List Bytes) → List Bookmark
  fill_next nb none = []
  fill_next nb (some (b, rest)) = b ∷ fill_table nb junk rest

  fill-suc :
      (nb : ℕ) (lines : List Bytes)
      → fill_table (suc nb) junk lines ≡ fill_next nb (get_next_bookmark junk lines)
  unfolding fill_table
  fill-suc nb lines = refl

  fill-zero : (lines : List Bytes) → fill_table zero junk lines ≡ []
  unfolding fill_table
  fill-zero lines = refl

  no_entries : (bms : List Bookmark) → length bms ≡ 0 → bms ≡ []
  no_entries [] e = refl
  no_entries (b ∷ bms) e = absurd (omega (arith, e))

  fill_after :
      (nb : ℕ) (lines : List Bytes)
      → length (entries junk lines) ≡ suc nb
      → ((rest : List Bytes)
          → length (entries junk rest) ≡ nb
          → fill_table nb junk rest ≡ entries junk rest)
      → (o : Option (Bookmark × List Bytes)) → IsNext lines o
      → fill_next nb o ≡ entries junk lines
  fill_after nb lines e more none e' = absurd (omega (arith, sym e ∙ ap length e'))
  fill_after nb lines e more (some (b, rest)) (e', shorter) =
      ap (◌∷◌ b) (more rest (omega (arith, sym (ap length e') ∙ e))) ∙ sym e'

  fill-entries :
      (nb : ℕ) (lines : List Bytes)
      → length (entries junk lines) ≡ nb
      → fill_table nb junk lines ≡ entries junk lines
  fill-entries zero lines e = fill-zero lines ∙ sym (no_entries (entries junk lines) e)
  fill-entries (suc nb) lines e =
      fill-suc nb lines
      ∙ fill_after nb lines e (fill-entries nb) (get_next_bookmark junk lines)
          (get_next_bookmark-IsNext lines)

  -- LoadBookmarkTable, given memory, sorts all the bookmarks of the file.
  pub load-entries :
      (qsort : Qsort) (file : Option Bytes)
      → load_bookmark_table qsort junk true file
        ≡ some (sort_bookmarks qsort (entries junk (counted_lines (open_bookmark_file file))))
  unfolding load_bookmark_table
  load-entries qsort file =
      let lines = counted_lines (open_bookmark_file file) in
      ap (λ bms. some (sort_bookmarks qsort bms))
        (fill-entries (count_bookmarks (length lines + 1) junk lines) lines
          (sym (count-entries (length lines + 1) lines (omega arith))))
