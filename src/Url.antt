-- ===== src/Url.antt =====
-- URLCopyToken and the string functions of libncftp/u_decodeurl.c, as built with strcasecmp, and strtokc of
-- Strn/strtokc.c as it is used there. sscanf() is a parameter.
pub mod Token
pub mod Decode
pub mod Login
mod Tests
use ncftp.Base.{
  ℕ, zero, suc, ◌+◌, ◌-◌, Bool, true, false, ◌&&◌, ◌||◌, Option, none, some, List, [], ◌∷◌, ◌++◌,
  ltb, ◌==◌, if◌then◌else◌, length, get_or, take, drop,
}
use ncftp.Base.Letters.{to_lower}
use ncftp.Base.Bytes.{Bytes, codes, is_upper, is_space, c_str, atoi}

-- The codes that must not come out of a token.
abbrev pub is_banned : ℕ → Bool
is_banned hc = hc == 0 || hc == 10 || hc == 13 || hc == 7 || hc == 8 || hc == 11 || hc == 12

-- `scan h` is what `sscanf(h, "%x", &hc)` stores in `hc`, if it stores a number, and `byte` the low
-- byte of it.
pub record Scanner : Type 0 where
  pub scan : Bytes → Option ℕ
  pub byte : ℕ → ℕ

-- The loop of URLCopyToken with `n` characters of the source to go. `mem` is the memory from `src` on
-- and `out` the bytes that are stored; `none` is a read behind that memory.
unfoldable pub token_loop : Scanner → ℕ → ℕ → Bytes → Bytes → Option Bytes
token_loop s dsize zero mem out = some out
token_loop s dsize (suc n) [] out = none
token_loop s dsize (suc n) (c ∷ []) out =
    if c == 0
    then some out
    else if c == b'%'
    then none
    else token_loop s dsize n [] (out ++ (c ∷ []))
token_loop s dsize (suc n) (c ∷ d ∷ []) out =
    let rest = token_loop s dsize n (d ∷ []) (out ++ (c ∷ [])) in
    if c == 0 then some out else if c == b'%' then none else rest
token_loop s dsize (suc n) (c ∷ d ∷ e ∷ mem) out =
    let rest = token_loop s dsize n (d ∷ e ∷ mem) (out ++ (c ∷ [])) in
    let same = token_loop s dsize (n - 2) mem out in
    if c == 0
    then some out
    else if c == b'%'
    then elim (s.scan (c_str (d ∷ e ∷ []))) [
      | none ↦ same
      | some hc ↦ if is_banned hc then some out else elim (ltb (length out) (dsize - 1)) [
        | true ↦ token_loop s dsize (n - 2) mem (out ++ (s.byte hc ∷ []))
        | false ↦ same
      ]
    ]
    else rest

-- URLCopyToken: the bytes stored in `dst` before the NUL that ends them.
unfoldable pub url_copy_token : Scanner → ℕ → Bytes → ℕ → Option Bytes
url_copy_token s dsize src howmuch = token_loop s dsize howmuch src []

-- strncasecmp(s, t, strlen(t)) == 0.
abbrev pub starts : Bytes → Bytes → Bool
starts s [] = true
starts [] (d ∷ t) = false
starts (c ∷ s) (d ∷ t) = (to_lower c == to_lower d) && starts s t

-- strcasecmp(s, t) == 0.
abbrev pub same_word : Bytes → Bytes → Bool
same_word s t = (length s == length t) && starts s t

-- strchr(s, d): what stands before `d` and behind it.
unfoldable pub split_at : ℕ → Bytes → Option (Bytes × Bytes)
split_at d [] = none
split_at d (c ∷ s) = elim (split_at d s) [
  | none ↦ if c == d then some ([], s) else none
  | some (a, b) ↦ if c == d then some ([], s) else some (c ∷ a, b)
]

-- strrchr(s, d) in the same way.
unfoldable pub split_last : ℕ → Bytes → Option (Bytes × Bytes)
split_last d [] = none
split_last d (c ∷ s) = elim (split_last d s) [
  | none ↦ if c == d then some ([], s) else none
  | some (a, b) ↦ some (c ∷ a, b)
]

-- The characters in front of the first `/`, and from it on.
unfoldable pub until_slash : Bytes → Bytes × Bytes
until_slash [] = ([], [])
until_slash (c ∷ s) =
    let rest = until_slash s in if c == b'/' then ([], c ∷ s) else (c ∷ rest.0, rest.1)

-- The tokens of a string between slashes, as successive calls of strtokc yield them, each with the
-- memory behind it. `tok` is the token that is being read and `behind` what stands behind the string.
unfoldable pub tokens : Bytes → Bytes → Bytes → List (Bytes × Bytes)
tokens behind [] [] = []
tokens behind (t ∷ tok) [] = (t ∷ tok, behind) ∷ []
tokens behind [] (c ∷ s) =
    let skipped = tokens behind [] s in
    let begun = tokens behind (c ∷ []) s in if c == b'/' then skipped else begun
tokens behind (t ∷ tok) (c ∷ s) =
    let ended = tokens behind [] s in
    let more = tokens behind ((t ∷ tok) ++ (c ∷ [])) s in
    if c == b'/' then (t ∷ tok, 0 ∷ (s ++ behind)) ∷ ended else more

-- What FTPDecodeURL writes: fields of `cip`, and its results. `binary` and `ascii` are kTypeBinary and
-- kTypeAscii.
pub data Transfer : Type 0 where
  binary ascii : Transfer

pub record Target : Type 0 where
  pub user : Bytes
  pub pass : Bytes
  pub host : Bytes
  pub port : ℕ
  pub cdlist : List Bytes
  pub fn : Bytes
  pub xtype : Transfer
  pub wantnlst : Bool

-- `done` is kNoErr, `malformed` kMalformedURL, `other_url` -1 and `overread` a read behind the URL.
pub data Decoded : Type 0 where
  done malformed other_url overread : Target → Decoded

-- The type at the end of a name: the name without it, and the transfer. `can_list` says that the
-- caller passed `wantnlst`.
abbrev pub take_type : Bool → Target → Bytes → Bytes → Option (Target × Bool)
take_type can_list t name semi =
    if same_word semi (codes ";type=i")
    then some (record t { xtype = binary }, true)
    else if same_word semi (codes ";type=a")
    then some (record t { xtype = ascii }, true)
    else if same_word semi (codes ";type=b")
    then some (record t { xtype = binary }, true)
    else if same_word semi (codes ";type=d")
    then (if can_list then some (record t { wantnlst = true; xtype = ascii }, true) else none)
    else some (t, false)

abbrev pub has_char : ℕ → Bytes → Bool
has_char d [] = false
has_char d (c ∷ s) = c == d || has_char d s

-- atoi, where a number that is not positive is 0.
abbrev pub positive : Bytes → ℕ
positive [] = 0
positive (c ∷ s) =
    let rest = positive s in
    if is_space c then rest else if c == b'+' then atoi s else if c == b'-' then 0 else atoi (c ∷ s)

-- The copy of a token of `src`, with `behind` in the memory behind it.
unfoldable pub copy : Scanner → ℕ → Bytes → Bytes → Option Bytes
copy s dsize src behind = url_copy_token s dsize (src ++ behind) (length src)
