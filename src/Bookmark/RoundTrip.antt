-- ===== src/Bookmark/RoundTrip.antt =====
-- ParseHostLine of a line that WriteBmLine writes.
use mathlib.Core.Path.{subst}
use ncftp.Base.{◌≡◌, refl, sym, ap, ◌∙◌, Bool, [], ◌∷◌, arith}
use ncftp.Base.Bytes.{Bytes}
use ncftp.Base.Int.{ℤ, pos, negsuc}
use ncftp.Bookmark.{
  Bookmark, strncpy, escaped, to_unsigned_long, commas, write_bm_line, parse_host_line,
  decode_password, set_bookmark_defaults,
}
use ncftp.Bookmark.Fields.{Reads, written, AreRead, stored, parse-commas}
use ncftp.Bookmark.Tokens.{escaped-nothing, escaped-some}
use ncftp.Bookmark.Texts.{
  IsText, IsText-Reads, IsWord-Reads, IsChar-IsWord, print_nat-IsWord, print_int-IsWord,
}
use ncftp.Bookmark.Stored.{
  IsWritable, read_back, texts, raw, cases, stored_all, stored_but_last, nothing-IsWord,
  password-IsWord, decode_back, raw_back,
}

texts-AreRead :
    (save : Bool) (bm : Bookmark) (last : Bytes)
    → IsWritable bm
    → Reads last bm.ldir
    → AreRead (texts save bm last)
texts-AreRead save bm last is reads =
    let (are, no_nul, short) = is.pass in
    (
      IsWord-Reads 16 bm.bookmark_name is.bookmark_name,
      (
        IsText-Reads 64 bm.name is.name,
        (
          IsText-Reads 64 bm.user is.user,
          (
            IsWord-Reads 64 _ (password-IsWord bm.pass are short save),
            (
              IsText-Reads 64 bm.acct is.acct,
              (
                IsText-Reads 160 bm.dir is.dir,
                (
                  IsWord-Reads 2 _ (IsChar-IsWord bm.xfer_type is.xfer_type),
                  (
                    IsWord-Reads 32 _ (print_nat-IsWord bm.port (omega (arith, is.port))),
                    (
                      IsWord-Reads 32 _
                          (print_nat-IsWord (to_unsigned_long bm.last_call) is.last_call),
                      (
                        IsWord-Reads 64 _ (print_int-IsWord bm.has_size is.has_size),
                        (
                          IsWord-Reads 64 _ (print_int-IsWord bm.has_mdtm is.has_mdtm),
                          (
                            IsWord-Reads 64 _ (print_int-IsWord bm.has_pasv is.has_pasv),
                            (
                              IsWord-Reads 64 _ (print_int-IsWord bm.is_unix is.is_unix),
                              (
                                IsWord-Reads 32 _ is.last_ip,
                                (
                                  IsText-Reads 128 _ is.comment,
                                  (
                                    IsWord-Reads 64 [] nothing-IsWord,
                                    (
                                      IsWord-Reads 64 [] nothing-IsWord,
                                      (
                                        IsWord-Reads 64 [] nothing-IsWord,
                                        (
                                          IsWord-Reads 64 [] nothing-IsWord,
                                          (
                                            IsWord-Reads 2 _
                                                (IsChar-IsWord bm.xfer_mode is.xfer_mode),
                                            (
                                              IsWord-Reads 64 _
                                                  (print_int-IsWord bm.has_utime is.has_utime),
                                              (reads, tt),
                                            ),
                                          ),
                                        ),
                                      ),
                                    ),
                                  ),
                                ),
                              ),
                            ),
                          ),
                        ),
                      ),
                    ),
                  ),
                ),
              ),
            ),
          ),
        ),
      ),
    )

decoded : ℤ × Bookmark → ℤ × Bookmark
decoded (result, bm) = (result, decode_password bm)

parse-texts :
    (save : Bool) (junk : ℤ) (bm : Bookmark) (last : Bytes)
    → IsWritable bm
    → Reads last bm.ldir
    → parse_host_line junk (commas (written (texts save bm last)))
      ≡ decoded (stored (cases junk) (texts save bm last) set_bookmark_defaults (negsuc 0))
unfolding parse_host_line decoded
parse-texts save junk bm last is reads = ap decoded (
    parse-commas (cases junk) (texts save bm last) set_bookmark_defaults (negsuc 0)
      (texts-AreRead save bm last is reads) (omega arith))

-- The result says whether the line ends with the last field or, where that is empty, in front of it.
abbrev pub fields_read : Bytes → ℤ
fields_read [] = pos 7
fields_read (c ∷ s) = pos 8

module _ (save : Bool) (junk : ℤ) (bm : Bookmark) (is : IsWritable bm) where
  decoded_raw : decode_password (raw save junk bm (strncpy bm.ldir 160)) ≡ read_back save junk bm
  decoded_raw =
      let (are, no_nul, short) = is.pass in
      ap decode_password (raw_back save junk bm is)
      ∙ decode_back bm.pass save (read_back save junk bm) are no_nul short

  -- From how the last token is written.
  parse_written :
      (last : Bytes) (result : ℤ)
      → escaped bm.ldir ≡ last
      → stored (cases junk) (texts save bm last) set_bookmark_defaults (negsuc 0)
        ≡ (result, raw save junk bm (strncpy bm.ldir 160))
      → parse_host_line junk (write_bm_line save bm) ≡ (result, read_back save junk bm)
  unfolding write_bm_line decoded
  parse_written last result e run =
      parse-texts save junk bm (escaped bm.ldir) is (IsText-Reads 160 bm.ldir is.ldir)
      ∙ ap (λ z. decoded (stored (cases junk) (texts save bm z) set_bookmark_defaults (negsuc 0))) e
      ∙ ap decoded run
      ∙ ap (λ b. (result, b)) decoded_raw

  parse_ldir :
      (s : Bytes)
      → bm.ldir ≡ s
      → parse_host_line junk (write_bm_line save bm) ≡ (fields_read s, read_back save junk bm)
  parse_ldir [] e =
      parse_written [] (pos 7) (ap escaped e ∙ escaped-nothing)
        (stored_but_last save junk bm ∙ ap (λ l. (pos 7, raw save junk bm (strncpy l 160))) (sym e))
  parse_ldir (c ∷ s) e =
      let (x, w, e') = escaped-some c s (subst (λ z. IsText 160 z) e is.ldir).fits_escaped in
      parse_written (x ∷ w) (pos 8) (ap escaped e ∙ e') (stored_all save junk bm x w)

-- ParseHostLine of the line that WriteBmLine writes for a bookmark gives the bookmark back: its
-- password only if passwords are saved, not marked as deleted, and with the time of the last call read
-- as if its digits were hexadecimal. The result is 8, or 7 if there is no local directory. The
-- bookmark's name and the last address hold no comma, backslash or dollar sign, the characters of the
-- other texts are of seven bits, no text holds a NUL, and all fit their field, a token of 127
-- characters and, escaped, 255; the password has at most 39 bytes, the transfer's type and mode are
-- no NUL and need no escape, and the port is below 2 ^ 31.
pub parse_host_line-write_bm_line :
    (save : Bool) (junk : ℤ) (bm : Bookmark)
    → IsWritable bm
    → parse_host_line junk (write_bm_line save bm) ≡ (fields_read bm.ldir, read_back save junk bm)
parse_host_line-write_bm_line save junk bm is = parse_ldir save junk bm is bm.ldir refl
