-- ===== src/Bookmark/ToUrl.antt =====
-- BookmarkToURL of ncftp/bookmark.c, with Strncat of Strn, against FTPDecodeURL.
use mathlib.Core.List.{append_assoc, append-nil}
use ncftp.Base.{
  ℕ, ◌+◌, ◌-◌, ◌<◌, ◌≡◌, refl, sym, ap, ◌∙◌, Bool, List, [], ◌∷◌, ◌++◌, arith, ◌==◌, if◌then◌else◌,
  length, take-all, length-append,
}
use ncftp.Base.Bytes.{Bytes, codes, strncat}
use ncftp.Base.Formats.{print_nat}
use ncftp.Bookmark.{Bookmark}
use ncftp.Url.{Scanner, Target, done}
use ncftp.Url.Decode.{start_target, decode_url}
use ncftp.Url.Login.{IsPart, login, decode_url-login}

abbrev pub cat_all : ℕ → Bytes → List Bytes → Bytes
cat_all size dst [] = dst
cat_all size dst (s ∷ ss) = cat_all size (strncat size dst s) ss

abbrev pub user_pieces : Bytes → Bytes → List Bytes
user_pieces [] pass = []
user_pieces (c ∷ user) [] = (c ∷ user) ∷ codes "@" ∷ []
user_pieces (c ∷ user) (d ∷ pass) = (c ∷ user) ∷ codes ":" ∷ codes "PASSWORD" ∷ codes "@" ∷ []

abbrev pub port_pieces : ℕ → List Bytes
port_pieces port = if port == 21 then [] else (b':' ∷ print_nat port) ∷ []

abbrev pub dir_pieces : Bytes → List Bytes
dir_pieces [] = []
dir_pieces (c ∷ s) =
    if c == b'/' then codes "/%2F" ∷ s ∷ codes "/" ∷ [] else codes "/" ∷ (c ∷ s) ∷ codes "/" ∷ []

abbrev pub url_pieces : Bookmark → List Bytes
url_pieces bm =
    (codes "ftp://" ∷ user_pieces bm.user bm.pass)
    ++ (bm.name ∷ (port_pieces bm.port ++ dir_pieces bm.dir))

-- BookmarkToURL. The copy of the scheme is a Strncat to the empty string.
unfoldable pub bookmark_to_url : Bookmark → ℕ → Bytes
bookmark_to_url bm size = cat_all size [] (
    (codes "ftp://" ∷ user_pieces bm.user bm.pass)
    ++ (bm.name ∷ (port_pieces bm.port ++ dir_pieces bm.dir)))

abbrev concat : List Bytes → Bytes
concat [] = []
concat (s ∷ ss) = s ++ concat ss

cat_all-room :
    (size : ℕ) (dst : Bytes) (ss : List Bytes)
    → length dst + length (concat ss) < size
    → cat_all size dst ss ≡ dst ++ concat ss
cat_all-room size dst [] h = sym (append-nil dst)
cat_all-room size dst (s ∷ ss) h =
    let len = length-append s (concat ss) in
    ap (λ z. cat_all size (dst ++ z) ss)
      (take-all (size - 1 - length dst) s (omega (arith, h, len)))
    ∙ cat_all-room size (dst ++ s) ss (omega (arith, h, len, length-append dst s))
    ∙ append_assoc dst s (concat ss)

url_text :
    (c d : ℕ) (user pass : Bytes) (bm : Bookmark)
    → bm.user ≡ c ∷ user
    → bm.pass ≡ d ∷ pass
    → bm.port ≡ 21
    → bm.dir ≡ []
    → concat (url_pieces bm) ≡ codes "ftp://" ++ login (c ∷ user) (codes "PASSWORD") bm.name
url_text c d user pass bm e e' at21 no_dir =
    rw (e, e', at21, no_dir)
      (ap (λ z. codes "ftp://" ++ (c ∷ z))
        (ap (λ z. user ++ (codes ":PASSWORD@" ++ z)) (append-nil bm.name)
          ∙ sym (append_assoc user (codes ":PASSWORD") (b'@' ∷ bm.name))))

password_IsPart : IsPart (codes "PASSWORD")
password_IsPart = record {
  plain = (
    (refl, refl),
    (
      (refl, refl),
      (
        (refl, refl),
        ((refl, refl), ((refl, refl), ((refl, refl), ((refl, refl), ((refl, refl), tt))))),
      ),
    ),
  );
  no_slash = refl;
  no_at = refl;
  no_colon = refl;
}

-- FTPDecodeURL of the URL that BookmarkToURL makes of a bookmark with a user and a password, at port 21
-- and without a directory, gives back the user and the host, with `PASSWORD` for the password. Neither
-- the user nor the host holds a `%`, `:`, `@`, `/` or NUL, and the URL fits its buffer.
pub decode_url-bookmark_to_url :
    (s : Scanner) (can_list : Bool) (fnsize : ℕ) (t : Target) (bm : Bookmark) (size : ℕ) (c d : ℕ)
    (user pass : Bytes)
    → bm.user ≡ c ∷ user
    → bm.pass ≡ d ∷ pass
    → bm.port ≡ 21
    → bm.dir ≡ []
    → IsPart (c ∷ user)
    → IsPart bm.name
    → length user + length bm.name + 17 < size
    → decode_url s can_list fnsize t (bookmark_to_url bm size)
      ≡ done (record (start_target t) { user = c ∷ user; pass = codes "PASSWORD"; host = bm.name })
unfolding bookmark_to_url
decode_url-bookmark_to_url s can_list fnsize t bm size c d user pass e e' at21 no_dir u h fits =
    let whole = url_text c d user pass bm e e' at21 no_dir in
    ap (decode_url s can_list fnsize t) (
      cat_all-room size [] (url_pieces bm) (
        omega (
          arith,
          fits,
          ap length whole,
          length-append (c ∷ user) (codes ":PASSWORD"),
          length-append ((c ∷ user) ++ codes ":PASSWORD") (b'@' ∷ bm.name),
        ))
      ∙ whole)
    ∙ decode_url-login s can_list fnsize t (c ∷ user) (codes "PASSWORD") bm.name u password_IsPart h
