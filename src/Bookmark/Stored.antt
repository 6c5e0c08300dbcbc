-- ===== src/Bookmark/Stored.antt =====
-- The fields of a bookmark as they are written and as they are stored when they have been read.
use ncftp.Base.{
  ℕ, ◌^◌, ◌<◌, ◌≤◌, ◌≡◌, refl, ap, ◌∙◌, Bool, true, false, List, [], ◌∷◌, ◌++◌, arith, ◌==◌,
  if◌then◌else◌, length, length-append, take, take-all,
}
use ncftp.Base.Bytes.{Bytes, HasNoNul, c_str}
use ncftp.Base.Formats.{
  print_nat, print_int, scan_int, scan_int-print_int, scan_hex, print_nat-some,
}
use ncftp.Base.Int.{ℤ, pos, negsuc}
use ncftp.Base64.{to_base64}
use ncftp.Base64.Alphabet.{to_base64-AreAlphabet, length-to_base64}
use ncftp.Base64.RoundTrip.{AreBytes, from_base64-to_base64}
use ncftp.Bookmark.{
  Bookmark, Case, strncpy, escaped, password_magic, written_password, to_unsigned, to_unsigned_long,
  stored_port, or_else, decode_password, address_cases, access_cases, later_cases,
  set_bookmark_defaults,
}
use ncftp.Bookmark.Fields.{Texts, stored}
use ncftp.Bookmark.Texts.{
  IsText, IsWord, IsChar, IsInt, print_nat-IsWord, print_int-IsWord, c_str_self, strncpy_self,
  AreAlphabet-plain,
}

-- A bookmark whose fields come back.
pub record IsWritable (bm : Bookmark) : Type 0 where
  pub bookmark_name : IsWord 16 bm.bookmark_name
  pub name : IsText 64 bm.name
  pub user : IsText 64 bm.user
  pub pass : AreBytes bm.pass × HasNoNul bm.pass × (length bm.pass ≤ 39)
  pub acct : IsText 64 bm.acct
  pub dir : IsText 160 bm.dir
  pub ldir : IsText 160 bm.ldir
  pub xfer_type : IsChar bm.xfer_type
  pub port : bm.port < 2147483648
  pub last_call : to_unsigned_long bm.last_call < 2 ^ 64
  pub has_size : IsInt bm.has_size
  pub has_mdtm : IsInt bm.has_mdtm
  pub has_pasv : IsInt bm.has_pasv
  pub is_unix : IsInt bm.is_unix
  pub last_ip : IsWord 32 bm.last_ip
  pub comment : IsText 128 bm.comment
  pub xfer_mode : IsChar bm.xfer_mode
  pub has_utime : IsInt bm.has_utime

-- The time of the last call, written in decimal and read in hexadecimal.
abbrev pub misread : ℤ → ℤ → ℤ
misread junk i = or_else (scan_hex (print_nat (to_unsigned_long i))) junk

-- What is left of a bookmark: the password if it is saved, the time misread, and no mark of deletion.
abbrev pub read_back : Bool → ℤ → Bookmark → Bookmark
read_back save junk bm = record bm {
  pass = if save then bm.pass else [];
  last_call = misread junk bm.last_call;
  deleted = pos 0;
}

-- The 22 tokens as they are written and as they are read, the last one written as `last`.
abbrev pub texts : Bool → Bookmark → Bytes → Texts
texts save bm last =
    (bm.bookmark_name, bm.bookmark_name)
    ∷ (escaped bm.name, bm.name)
    ∷ (escaped bm.user, bm.user)
    ∷ (written_password save bm.pass, written_password save bm.pass)
    ∷ (escaped bm.acct, bm.acct)
    ∷ (escaped bm.dir, bm.dir)
    ∷ (bm.xfer_type ∷ [], bm.xfer_type ∷ [])
    ∷ (print_nat bm.port, print_nat bm.port)
    ∷ (print_nat (to_unsigned_long bm.last_call), print_nat (to_unsigned_long bm.last_call))
    ∷ (print_int bm.has_size, print_int bm.has_size)
    ∷ (print_int bm.has_mdtm, print_int bm.has_mdtm)
    ∷ (print_int bm.has_pasv, print_int bm.has_pasv)
    ∷ (print_int bm.is_unix, print_int bm.is_unix)
    ∷ (bm.last_ip, bm.last_ip)
    ∷ (escaped bm.comment, bm.comment)
    ∷ ([], [])
    ∷ ([], [])
    ∷ ([], [])
    ∷ ([], [])
    ∷ (bm.xfer_mode ∷ [], bm.xfer_mode ∷ [])
    ∷ (print_int bm.has_utime, print_int bm.has_utime)
    ∷ (last, bm.ldir)
    ∷ []

-- What the cases leave, before the password is decoded.
abbrev pub raw : Bool → ℤ → Bookmark → Bytes → Bookmark
raw save junk bm last = record {
  bookmark_name = strncpy bm.bookmark_name 16;
  name = strncpy bm.name 64;
  user = strncpy bm.user 64;
  pass = strncpy (written_password save bm.pass) 64;
  acct = strncpy bm.acct 64;
  dir = strncpy bm.dir 160;
  ldir = last;
  xfer_type = if bm.xfer_type == 0 then b'I' else bm.xfer_type;
  port = stored_port (print_nat bm.port);
  last_call = or_else (scan_hex (c_str (print_nat (to_unsigned_long bm.last_call)))) junk;
  has_size = scan_int (c_str (print_int bm.has_size));
  has_mdtm = scan_int (c_str (print_int bm.has_mdtm));
  has_pasv = scan_int (c_str (print_int bm.has_pasv));
  is_unix = scan_int (c_str (print_int bm.is_unix));
  last_ip = strncpy bm.last_ip 32;
  comment = strncpy bm.comment 128;
  xfer_mode = bm.xfer_mode;
  has_utime = scan_int (c_str (print_int bm.has_utime));
  deleted = pos 0;
}

abbrev pub cases : ℤ → List Case
cases junk = address_cases ++ (access_cases junk ++ later_cases)

pub stored_all :
    (save : Bool) (junk : ℤ) (bm : Bookmark) (x : ℕ) (w : Bytes)
    → stored (cases junk) (texts save bm (x ∷ w)) set_bookmark_defaults (negsuc 0)
      ≡ (pos 8, raw save junk bm (strncpy bm.ldir 160))
stored_all save junk bm x w = refl

pub stored_but_last :
    (save : Bool) (junk : ℤ) (bm : Bookmark)
    → stored (cases junk) (texts save bm []) set_bookmark_defaults (negsuc 0)
      ≡ (pos 7, raw save junk bm [])
stored_but_last save junk bm = refl

pub int_back : (i : ℤ) → IsInt i → scan_int (c_str (print_int i)) ≡ i
int_back i is =
    ap scan_int (c_str_self (print_int i) (print_int-IsWord i is).no_nul) ∙ scan_int-print_int i

pub stored_port-some :
    (s : Bytes) → HasNoNul s → 0 < length s → stored_port s ≡ to_unsigned (scan_int (c_str s))
stored_port-some [] h some_char = absurd (omega arith)
stored_port-some (c ∷ s) h some_char = rw (h.0) refl

pub port_back : (n : ℕ) → n < 2147483648 → stored_port (print_nat n) ≡ n
port_back n h =
    stored_port-some (print_nat n) (print_nat-IsWord n (omega arith)).no_nul (print_nat-some n)
    ∙ ap to_unsigned (int_back (pos n) h)

pub char_back : (c : ℕ) → IsChar c → (if c == 0 then b'I' else c) ≡ c
char_back c (e, e') = rw e' refl

pub magic-IsWord :
    (p : Bytes) → AreBytes p → length p ≤ 39 → IsWord 64 (password_magic ++ to_base64 p false)
magic-IsWord p are short =
    let (is_plain, has_no_nul) =
      AreAlphabet-plain (to_base64 p false) (to_base64-AreAlphabet p are) in
    let fits : length (password_magic ++ to_base64 p false) < 64 =
      omega (arith, length-append password_magic (to_base64 p false), length-to_base64 p) in
    record {
      plain = (refl, (refl, (refl, (refl, (refl, (refl, (refl, (refl, (refl, is_plain)))))))));
      no_nul = (refl, (refl, (refl, (refl, (refl, (refl, (refl, (refl, (refl, has_no_nul)))))))));
      fits_field = fits;
      fits_token = omega (arith, fits);
    }

pub nothing-IsWord : IsWord 64 []
nothing-IsWord = record {
  plain = tt;
  no_nul = tt;
  fits_field = omega arith;
  fits_token = omega arith;
}

pub password-IsWord :
    (p : Bytes) → AreBytes p → length p ≤ 39 → (save : Bool) → IsWord 64 (written_password save p)
password-IsWord [] are short save = nothing-IsWord
password-IsWord (c ∷ p) are short true = magic-IsWord (c ∷ p) are short
password-IsWord (c ∷ p) are short false = nothing-IsWord

pub decode_back :
    (p : Bytes) (save : Bool) (bm : Bookmark)
    → AreBytes p
    → HasNoNul p
    → length p ≤ 39
    → decode_password (record bm { pass = written_password save p })
      ≡ record bm { pass = if save then p else [] }
decode_back [] true bm are no_nul short = refl
decode_back [] false bm are no_nul short = refl
decode_back (c ∷ p) false bm are no_nul short = refl
decode_back (c ∷ p) true bm are no_nul short =
    ap (λ z. record bm { pass = take 63 z }) (from_base64-to_base64 (c ∷ p) are no_nul).1
    ∙ ap (λ z. record bm { pass = z }) (take-all 63 (c ∷ p) (omega (arith, short)))

pub raw_back :
    (save : Bool) (junk : ℤ) (bm : Bookmark)
    → IsWritable bm
    → raw save junk bm (strncpy bm.ldir 160)
      ≡ record (read_back save junk bm) { pass = written_password save bm.pass }
raw_back save junk bm is =
    let (are, no_nul, short) = is.pass in
    let word = password-IsWord bm.pass are short save in
    rw
      (
        strncpy_self bm.bookmark_name 16 is.bookmark_name.no_nul is.bookmark_name.fits_field,
        strncpy_self bm.name 64 is.name.no_nul is.name.fits_field,
        strncpy_self bm.user 64 is.user.no_nul is.user.fits_field,
        strncpy_self (written_password save bm.pass) 64 word.no_nul word.fits_field,
        strncpy_self bm.acct 64 is.acct.no_nul is.acct.fits_field,
        strncpy_self bm.dir 160 is.dir.no_nul is.dir.fits_field,
        strncpy_self bm.ldir 160 is.ldir.no_nul is.ldir.fits_field,
        char_back bm.xfer_type is.xfer_type,
        port_back bm.port is.port,
        c_str_self (print_nat (to_unsigned_long bm.last_call))
            (print_nat-IsWord (to_unsigned_long bm.last_call) is.last_call).no_nul,
        int_back bm.has_size is.has_size,
        int_back bm.has_mdtm is.has_mdtm,
        int_back bm.has_pasv is.has_pasv,
        int_back bm.is_unix is.is_unix,
        strncpy_self bm.last_ip 32 is.last_ip.no_nul is.last_ip.fits_field,
        strncpy_self bm.comment 128 is.comment.no_nul is.comment.fits_field,
        int_back bm.has_utime is.has_utime,
      )
      refl
