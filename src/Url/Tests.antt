-- ===== src/Url/Tests.antt =====
-- A concrete sscanf(), and the theorems about URLs at it.
use ncftp.Base.{
  ◌+◌, ◌-◌, ◌*◌, ◌%◌, ◌≡◌, ℕ, refl, ◌&&◌, Option, true, false, none, some, [], ◌∷◌, ◌++◌, arith,
  leb, if◌then◌else◌,
}
use ncftp.Base.Bytes.{Bytes, codes, is_digit}
use ncftp.Bookmark.{Bookmark, set_bookmark_defaults}
use ncftp.Bookmark.ToUrl.{bookmark_to_url, decode_url-bookmark_to_url}
use ncftp.Url.{
  Scanner, Target, ascii, done, url_copy_token, tokens, split_at, split_last, until_slash, copy,
  token_loop,
}
use ncftp.Url.Decode.{
  start_target, decode_url, decode_rest, decode_login, decode_user, decode_host, decode_path,
  decode_names, dirs_loop,
}
use ncftp.Url.Token.{plain, escaped, url_copy_token-encode, url_copy_token_overflow}

-- The value of a digit, or 16.
abbrev nibble : ℕ → ℕ
nibble c = if is_digit c then c - b'0' else if leb b'A' c && leb c b'F' then c - 55 else 16

abbrev read_hex : Bytes → Option ℕ
read_hex (a ∷ b ∷ []) =
    if leb (nibble a) 15 && leb (nibble b) 15 then some (nibble a * 16 + nibble b) else none
read_hex _ = none

abbrev scanner : Scanner
scanner = record { scan = read_hex; byte = λ n. n % 256 }

url_copy_token-encode_example :
    url_copy_token scanner 8 (codes "a%20b" ++ codes "@rest") 5 ≡ some (codes "a b")
url_copy_token-encode_example =
    url_copy_token-encode scanner 8 (plain b'a' ∷ escaped b'2' b'0' 32 ∷ plain b'b' ∷ [])
      (codes "@rest") ((refl, refl), ((refl, refl, refl), ((refl, refl), tt))) (omega arith)

url_copy_token_overflow_example :
    url_copy_token scanner 4 (codes "longer" ++ codes "@") 6 ≡ some (codes "longer")
url_copy_token_overflow_example =
    url_copy_token_overflow scanner 4 (codes "longer") (codes "@")
      (
        (refl, refl),
        ((refl, refl), ((refl, refl), ((refl, refl), ((refl, refl), ((refl, refl), tt))))),
      )
      (omega arith)

abbrev target : Target
target = record {
  user = [];
  pass = [];
  host = [];
  port = 21;
  cdlist = [];
  fn = [];
  xtype = ascii;
  wantnlst = true;
}

-- Directories, a file with an escape, a port and a type.
full_url :
    decode_url scanner true 128 target (codes "<URL:ftp://host:2121/pub/x//a%20b;type=a>")
    ≡ done (record target {
      host = codes "host";
      port = 2121;
      cdlist = codes "pub" ∷ codes "x" ∷ [];
      fn = codes "a b";
      wantnlst = false;
    })
unfolding decode_url decode_rest decode_login decode_user decode_host decode_path decode_names
    dirs_loop tokens split_at split_last until_slash copy url_copy_token token_loop
full_url = refl

abbrev site : Bookmark
site = record set_bookmark_defaults {
  name = codes "ftp";
  user = codes "me";
  pass = codes "secret";
  port = 21;
}

decode_url-bookmark_to_url_example :
    decode_url scanner true 128 target (bookmark_to_url site 64)
    ≡ done (record (start_target target) {
      user = codes "me";
      pass = codes "PASSWORD";
      host = codes "ftp";
    })
decode_url-bookmark_to_url_example =
    decode_url-bookmark_to_url scanner true 128 target site 64 109 115 (codes "e") (codes "ecret")
      refl refl refl refl
      (record {
        plain = ((refl, refl), ((refl, refl), tt));
        no_slash = refl;
        no_at = refl;
        no_colon = refl;
      })
      (record {
        plain = ((refl, refl), ((refl, refl), ((refl, refl), tt)));
        no_slash = refl;
        no_at = refl;
        no_colon = refl;
      })
      (omega arith)
