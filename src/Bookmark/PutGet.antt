-- ===== src/Bookmark/PutGet.antt =====
-- GetBookmark after PutBookmark.
use ncftp.Base.{
  ℕ, ◌≡◌, refl, sym, ap, ◌∙◌, ◌⊎◌, inl, inr, Bool, true, false, not, ◌||◌, Option, none, some, List,
  [], ◌∷◌, ◌++◌, arith, ◌==◌, Bool-cases, length, take, take-all,
}
use ncftp.Base.Bytes.{Bytes}
use ncftp.Base.Int.{ℤ}
use ncftp.Bookmark.{Bookmark, parse_host_line, write_bm_line}
use ncftp.Bookmark.Searching.{
  entries, first_exact, best_matched, matched-exact, file_entries, get_bookmark-matched, entry,
}
use ncftp.Bookmark.File.{open_bookmark_file}
use ncftp.Bookmark.Lines.{IsLine, AreLines, file_lines-all_ended, open-file_header}
use ncftp.Bookmark.Lookup.{match_host, match_bookmark, ends_search, is_negative, get_bookmark}
use ncftp.Base.Letters.{istreq, istrneq, strchr, to_lower}
use ncftp.Bookmark.RoundTrip.{fields_read, parse_host_line-write_bm_line}
use ncftp.Bookmark.Stored.{IsWritable, read_back}
use ncftp.Bookmark.Saving.{
  all_ended, is_entry, put_line, put_lines, replaced, file_header, put_all, put_bookmark, lines_of,
}

-- A line that PutBookmark replaces, or that is no bookmark, or one of another name.
abbrev pub IsOther : ℤ → Bookmark → Bytes → Type 0
IsOther junk b line =
    (is_entry b line ≡ true)
    ⊎ ((is_negative (parse_host_line junk line).0 ≡ true)
        ⊎ (istreq (parse_host_line junk line).1.bookmark_name (take 15 b.bookmark_name) ≡ false))

abbrev pub AreOthers : ℤ → Bookmark → List Bytes → Type 0
AreOthers junk b [] = Unit
AreOthers junk b (line ∷ lines) = IsOther junk b line × AreOthers junk b lines

istreq_self : (s : Bytes) → istreq s s ≡ true
istreq_self [] = refl
istreq_self (c ∷ s) =
    let same : (to_lower c == to_lower c) ≡ true = ground arith in rw (same, istreq_self s) refl

AreLines-append :
    (size : ℕ) (xs ys : List Bytes) → AreLines size xs → AreLines size ys → AreLines size (xs ++ ys)
AreLines-append size [] ys h k = k
AreLines-append size (x ∷ xs) ys h k = (h.0, AreLines-append size xs ys h.1 k)

module _ (save : Bool) (junk : ℤ) (b : Bookmark) where
  put_line-IsLine :
      (line : Bytes)
      → IsLine 512 (write_bm_line save b)
      → IsLine 256 line
      → IsLine 512 (put_line save b line)
  put_line-IsLine line is is' = elim (Bool-cases (is_entry b line)) [
    | inl e ↦ rw e is
    | inr e ↦ rw e (is'.0, omega (arith, is'.1))
  ]

  put_lines-AreLines :
      (lines : List Bytes)
      → IsLine 512 (write_bm_line save b)
      → AreLines 256 lines
      → AreLines 512 (put_lines save b lines)
  put_lines-AreLines [] is are = tt
  put_lines-AreLines (line ∷ lines) is are =
      (put_line-IsLine line is are.0, put_lines-AreLines lines is are.1)

  put_all-AreLines :
      (lines : List Bytes)
      → IsLine 512 (write_bm_line save b)
      → AreLines 256 lines
      → AreLines 512 (put_all save b lines)
  put_all-AreLines lines is are =
      AreLines-append 512 (put_lines save b lines) _ (put_lines-AreLines lines is are)
        (elim (Bool-cases (replaced b lines)) [ inl e ↦ rw e tt | inr e ↦ rw e (is, tt) ])

  ends_host :
      (bm : Bookmark) (o : Option Bytes) → ends_search (match_host b.bookmark_name bm o) ≡ false
  ends_host bm none = refl
  ends_host bm (some dot) = ground arith

  other_match :
      (bm : Bookmark)
      → istreq bm.bookmark_name (take 15 b.bookmark_name) ≡ false
      → ends_search (match_bookmark b.bookmark_name bm) ≡ false
  other_match bm e =
      let host = ends_host bm (strchr b'.' bm.name) in
      elim (Bool-cases (istrneq (length b.bookmark_name) bm.bookmark_name b.bookmark_name)) [
        | inl e' ↦ rw (e, e') refl
        | inr e' ↦ elim (Bool-cases (istreq bm.name b.bookmark_name)) [
          | inl e'' ↦ rw (e, e', e'') refl
          | inr e'' ↦ rw (e, e', e'') host
        ]
      ]

  exact_skip :
      (negative : Bool) (bm : Bookmark) (bs : List Bookmark)
      → (negative ≡ true) ⊎ (istreq bm.bookmark_name (take 15 b.bookmark_name) ≡ false)
      → first_exact b.bookmark_name (entry negative bm bs) ≡ first_exact b.bookmark_name bs
  exact_skip true bm bs h = refl
  exact_skip false bm bs (inl e) = absurd (cc e)
  exact_skip false bm bs (inr e) = rw (other_match bm e) refl

  not_own :
      (line : Bytes)
      → IsOther junk b line
      → is_entry b line ≡ false
      → (is_negative (parse_host_line junk line).0 ≡ true)
        ⊎ (istreq (parse_host_line junk line).1.bookmark_name (take 15 b.bookmark_name) ≡ false)
  not_own line (inl e) e' = absurd (cc (sym e ∙ e'))
  not_own line (inr h) e' = h

  module _ (is : IsWritable b) where
    own_match : ends_search (match_bookmark b.bookmark_name (read_back save junk b)) ≡ true
    own_match =
        let all = take-all 15 b.bookmark_name (omega (arith, is.bookmark_name.fits_field)) in
        rw (all, istreq_self b.bookmark_name) refl

    not_negative : (s : Bytes) → is_negative (fields_read s) ≡ false
    not_negative [] = refl
    not_negative (c ∷ s) = refl

    exact_own :
        (rest : List Bytes)
        → first_exact b.bookmark_name (entries junk (write_bm_line save b ∷ rest))
          ≡ some (read_back save junk b)
    exact_own rest =
        ap (λ p. first_exact b.bookmark_name (entry (is_negative p.0) p.1 (entries junk rest)))
          (parse_host_line-write_bm_line save junk b is)
        ∙ rw (not_negative b.ldir, own_match) refl

    exact_put :
        (lines : List Bytes)
        → AreOthers junk b lines
        → first_exact b.bookmark_name (entries junk (put_all save b lines))
          ≡ some (read_back save junk b)
    exact_put [] are = exact_own []
    exact_put (line ∷ lines) are = elim (Bool-cases (is_entry b line)) [
      | inl e ↦ rw e (exact_own (put_lines save b lines ++ []))
      | inr e ↦ rw e (
          exact_skip (is_negative (parse_host_line junk line).0) (parse_host_line junk line).1
            (entries junk (put_all save b lines)) (not_own line are.0 e)
          ∙ exact_put lines are.1)
    ]

module _ (save : Bool) (junk : ℤ) (mode : ℕ) (b : Bookmark) (old : Bookmark) where
  get-put_all :
      (lines : List Bytes)
      → IsWritable b
      → (mode == 0 || not (length b.bookmark_name == 0)) ≡ true
      → IsLine 512 (write_bm_line save b)
      → AreLines 256 lines
      → AreOthers junk b lines
      → get_bookmark junk mode
          (some (file_header ++ all_ended (put_all save b lines)))
          b.bookmark_name
          old
        ≡ some (read_back save junk b)
  get-put_all lines is wanted fits are others =
      let file = all_ended (put_all save b lines) in
      get_bookmark-matched junk mode (some (file_header ++ file)) b.bookmark_name old wanted
      ∙ ap (λ o. best_matched mode b.bookmark_name (file_entries junk o)) (open-file_header file)
      ∙ ap (λ ls. best_matched mode b.bookmark_name (entries junk ls))
          (file_lines-all_ended 512 (put_all save b lines)
            (put_all-AreLines save junk b lines fits are))
      ∙ matched-exact mode b.bookmark_name (entries junk (put_all save b lines))
          (read_back save junk b) (exact_put save junk b is lines others)

-- Whatever bookmark file there is before, after PutBookmark a bookmark whose fields come back is found
-- under its name, as it is read back from its line, in either mode; a name that is empty is found only
-- by the mode for exact names. Such a bookmark has a name and a last address without comma, backslash or
-- dollar sign, other texts of seven bits, no NUL in any, and texts that fit their fields and tokens. The lines in the file have no newline, carriage return or NUL and at
-- most 253 characters, the bookmark's own line has none of them and at most 509; and each line in the
-- file is replaced, is no bookmark, or has a name that differs by more than the case of letters.
pub get_bookmark-put_bookmark :
    (save : Bool) (junk : ℤ) (mode : ℕ) (b old : Bookmark) (file : Option Bytes)
    → IsWritable b
    → (mode == 0 || not (length b.bookmark_name == 0)) ≡ true
    → IsLine 512 (write_bm_line save b)
    → AreLines 256 (lines_of (open_bookmark_file file))
    → AreOthers junk b (lines_of (open_bookmark_file file))
    → get_bookmark junk mode (some (put_bookmark save b file)) b.bookmark_name old
      ≡ some (read_back save junk b)
unfolding put_bookmark
get_bookmark-put_bookmark save junk mode b old file is wanted fits are others =
    get-put_all save junk mode b old (lines_of (open_bookmark_file file)) is wanted fits are others
