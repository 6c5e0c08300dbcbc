-- ===== src/Url/Decode.antt =====
-- FTPDecodeURL of libncftp/u_decodeurl.c: the parts of a URL, from the last to the whole.
use ncftp.Base.{
  ℕ, ◌-◌, Bool, true, false, Option, none, some, List, [], ◌∷◌, ◌++◌, ◌==◌, if◌then◌else◌, length,
  get_or, take, drop,
}
use ncftp.Base.Bytes.{Bytes, codes}
use ncftp.Url.{
  Scanner, Target, binary, Decoded, done, malformed, other_url, overread, starts, split_at,
  split_last, until_slash, tokens, take_type, has_char, positive, copy,
}

abbrev pub finish_copy : Option Bytes → Target → (Bytes → Decoded) → Decoded
finish_copy none t k = overread t
finish_copy (some out) t k = k out

-- The loop over the directories.
unfoldable pub dirs_loop : Scanner → Target → List (Bytes × Bytes) → Decoded
dirs_loop s t [] = done t
dirs_loop s t ((tok, behind) ∷ toks) =
    finish_copy (copy s 128 tok behind) t
      λ subdir. dirs_loop s (record t { cdlist = t.cdlist ++ (subdir ∷ []) }) toks

-- The file and the directories: `dirs` stands in front of the last slash, `name` behind it and `rest`
-- behind that.
unfoldable pub decode_names : Scanner → ℕ → Target → Bytes → Bytes → Bytes → Decoded
decode_names s fnsize t dirs name rest =
    finish_copy (copy s fnsize name rest) t
      λ fn. dirs_loop s (record t { fn = fn }) (tokens (0 ∷ (name ++ rest)) [] dirs)

abbrev pub typed :
    Scanner → ℕ → Target → Bytes → Bytes → Bytes → Bytes → Option (Target × Bool) → Decoded
typed s fnsize t dirs name tag tail none = malformed t
typed s fnsize t dirs name tag tail (some (t', true)) =
    decode_names s fnsize t' dirs name (0 ∷ (tag ++ tail))
typed s fnsize t dirs name tag tail (some (t', false)) =
    decode_names s fnsize t' dirs (name ++ (b';' ∷ tag)) tail

-- The part from `hend` on; `tail` is the NUL of the URL and what is known behind it.
abbrev pub decode_split : Scanner → Bool → ℕ → Target → Bytes → Option (Bytes × Bytes) → Decoded
decode_split s can_list fnsize t tail none = done t
decode_split s can_list fnsize t tail (some (dirs, last)) = elim (split_at b';' last) [
  | none ↦ decode_names s fnsize t dirs last tail
  | some (name, tag) ↦ typed s fnsize t dirs name tag tail (take_type can_list t name (b';' ∷ tag))
]

unfoldable pub decode_path : Scanner → Bool → ℕ → Target → Bytes → Bytes → Decoded
decode_path s can_list fnsize t tail [] = done t
decode_path s can_list fnsize t tail (c ∷ []) = done t
decode_path s can_list fnsize t tail (c ∷ d ∷ path) =
    decode_split s can_list fnsize t tail (split_last b'/' (c ∷ d ∷ path))

-- What stands behind the host's part once its end is overwritten.
abbrev pub behind_host : Bytes → Bytes → Bytes
behind_host tail [] = tail
behind_host tail (c ∷ path) = 0 ∷ (path ++ tail)

-- The host, of which the parts around the first colon are given.
abbrev pub host_split :
    Scanner → Target → Bytes → Bytes → (Target → Decoded) → Option (Bytes × Bytes) → Decoded
host_split s t host behind k none =
    finish_copy (copy s 128 host behind) t λ out. k (record t { host = out })
host_split s t host behind k (some (name, port)) =
    if has_char b':' port
    then malformed t
    else finish_copy (copy s 128 name (b':' ∷ (port ++ behind))) t λ out.
      finish_copy (copy s 32 port behind) (record t { host = out })
        λ digits.
          k (record t {
            host = out;
            port = if positive digits == 0 then t.port else positive digits;
          })

unfoldable pub decode_host : Scanner → Target → Bytes → Bytes → (Target → Decoded) → Decoded
decode_host s t host behind k = host_split s t host behind k (split_at b':' host)

-- The part in front of the `@`, of which the parts around the first colon are given.
abbrev pub user_split :
    Scanner → Target → Bytes → Bytes → (Target → Decoded) → Option (Bytes × Bytes) → Decoded
user_split s t user behind k none =
    finish_copy (copy s 128 user behind) t λ out. k (record t { user = out })
user_split s t user behind k (some (name, pass)) =
    if has_char b':' pass
    then malformed t
    else finish_copy (copy s 128 name (b':' ∷ (pass ++ behind))) t λ out.
      finish_copy (copy s 256 pass behind) (record t { user = out })
        λ word. k (record t { user = out; pass = word })

unfoldable pub decode_user : Scanner → Target → Bytes → Bytes → (Target → Decoded) → Decoded
decode_user s t user behind k = user_split s t user behind k (split_at b':' user)

-- The part between the scheme and the path, of which the parts around the first `@` are given.
abbrev pub login_split :
    Scanner → Target → Bytes → Bytes → (Target → Decoded) → Option (Bytes × Bytes) → Decoded
login_split s t login behind k none = decode_host s t login behind k
login_split s t login behind k (some (user, host)) =
    if has_char b'@' host
    then malformed t
    else decode_user s t user (0 ∷ (host ++ behind)) λ t'. decode_host s t' host behind k

unfoldable pub decode_login : Scanner → Target → Bytes → Bytes → (Target → Decoded) → Decoded
decode_login s t login behind k = login_split s t login behind k (split_at b'@' login)

-- What FTPDecodeURL sets first.
abbrev pub start_target : Target → Target
start_target t = record t { cdlist = []; fn = []; xtype = binary; wantnlst = false }

unfoldable pub decode_rest : Scanner → Bool → ℕ → Target → Bytes → Bytes → Decoded
decode_rest s can_list fnsize t tail rest =
    let (login, path) = until_slash rest in
    decode_login s t login (behind_host tail path) λ t'. decode_path s can_list fnsize t' tail path

unfoldable pub decode_url : Scanner → Bool → ℕ → Target → Bytes → Decoded
decode_url s can_list fnsize t url =
    let t' = start_target t in
    if starts url (codes "<URL:ftp://")
    then (if get_or url (length url - 1) 0 == b'>'
        then decode_rest s can_list fnsize t' (0 ∷ 0 ∷ []) (drop 11 (take (length url - 1) url))
        else malformed t')
    else if starts url (codes "ftp://")
    then decode_rest s can_list fnsize t' (0 ∷ []) (drop 6 url)
    else other_url t'
