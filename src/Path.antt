-- ===== src/Path.antt =====
-- IsValidUNCPath and CompressPath of libncftp/u_pathcat.c. A string is the list of its characters
-- before the NUL. `dst` is written from `dstart` on, and what stands in front of that is kept apart.
pub mod Ends
pub mod Cat
pub mod Parents
pub mod Climbing
pub mod Squeezing
pub mod Simplify
pub mod Meaning
pub mod Endless
pub mod Moving
mod Tests
use ncftp.Base.{
  ℕ, zero, suc, ◌+◌, ◌-◌, Bool, true, false, not, ◌&&◌, ◌||◌, Option, none, some, List, [], ◌∷◌,
  ◌++◌, ltb, leb, ◌==◌, if◌then◌else◌, length, get_or, take, drop,
}
use ncftp.Base.Bytes.{Bytes, is_alpha, is_alnum}

abbrev pub is_slash : ℕ → Bool
is_slash c = c == b'/' || c == 92

-- `s[i]`, with the NUL behind the string.
abbrev pub char_at : Bytes → ℕ → ℕ
char_at s i = get_or s i 0

-- The host's name from a place on, `n` characters into the path: what stands behind its backslash.
unfoldable pub unc_host : ℕ → Bytes → Option (ℕ × Bytes)
unc_host n [] = none
unc_host n (c ∷ s) =
    let rest = unc_host (n + 1) s in
    if c == 92 then some (n + 1, s) else if is_alnum c || c == b'_' then rest else none

-- The share's name behind its first letter, with the character that ends it.
unfoldable pub unc_share : ℕ → Bytes → ℕ
unc_share n [] = n + 1
unc_share n (c ∷ s) =
    let rest = unc_share (n + 1) s in
    if c == 92 then n + 1 else if is_alnum c || c == b'_' then rest else 0

abbrev pub unc_rest : Option (ℕ × Bytes) → ℕ
unc_rest none = 0
unc_rest (some (n, [])) = 0
unc_rest (some (n, c ∷ s)) = if is_alpha c then unc_share (n + 1) s else 0

-- IsValidUNCPath: 0, or the length of `\\host\share` with the character behind it.
unfoldable pub is_valid_unc_path : Bytes → ℕ
is_valid_unc_path src =
    if char_at src 0 == 92 && char_at src 1 == 92 && is_alpha (char_at src 2)
    then unc_rest (unc_host 3 (drop 3 src))
    else 0

-- `if (d < lim) *d++ = c`, where `out` is what stands from `dstart` to `d`.
abbrev pub put : ℕ → Bytes → ℕ → Bytes
put lim out c = if ltb (length out) lim then out ++ (c ∷ []) else out

-- `isslash(s[0]) || (s[0] == '\0')`.
abbrev pub ends_node : Bytes → Bool
ends_node [] = true
ends_node (c ∷ s) = is_slash c

-- The loop behind a slash, which skips slashes and nodes that are a dot.
unfoldable pub skip_slashes : Bytes → Bytes
skip_slashes [] = []
skip_slashes (c ∷ []) = if is_slash c then [] else if c == b'.' then [] else c ∷ []
skip_slashes (c ∷ d ∷ s) =
    let behind = skip_slashes s in
    let next = skip_slashes (d ∷ s) in
    if is_slash c then next else if c == b'.' && is_slash d then behind else c ∷ d ∷ s

abbrev pub skip_dots : Bytes → Bytes
skip_dots [] = []
skip_dots (c ∷ s) = let rest = skip_dots s in if c == b'.' then rest else c ∷ s

-- `if (d < lim) *d++ = *s++`.
abbrev pub move : ℕ → Bytes × Bytes → Bytes × Bytes
move lim (out, []) = (out, [])
move lim (out, c ∷ s) = if ltb (length out) lim then (out ++ (c ∷ []), s) else (out, c ∷ s)

abbrev pub skip_more_dots : Bytes → Bytes
skip_more_dots s = if char_at s 0 == b'.' && ends_node (skip_dots s) then skip_dots s else s

-- The first pass, from `s` on. `first` says that `s` is at the start or behind a slash; `none` is a
-- round too many, which for a loop that does not move on means that it never ends.
unfoldable pub squeeze : Bool → ℕ → ℕ → ℕ → Bool → Bytes → Bytes → Option Bytes
squeeze dos zero lim slash first s out = none
squeeze dos (suc k) lim slash first [] out = some (
    if ltb 1 (length out) && is_slash (char_at out (length out - 1))
    then take (length out - 1) out
    else out)
squeeze dos (suc k) lim slash first (c ∷ s) out =
    let (out', s') = move lim (move lim (out, c ∷ s)) in
    let dots =
      squeeze dos k lim slash (first && length (skip_more_dots s') == suc (length s))
        (skip_more_dots s') out' in
    let slashes = squeeze dos k lim slash true (skip_slashes s) (put lim out slash) in
    let plain = squeeze dos k lim slash false s (put lim out c) in
    let skipped = squeeze dos k lim slash true (drop 1 s) out in
    if c == b'.'
    then (if first && ends_node s
        then skipped
        else if dos && char_at s 0 == b'.'
        then dots
        else plain)
    else if is_slash c
    then slashes
    else plain

-- What a round of the second pass comes to: the path is done, or it starts over with another.
pub data Round : Type 0 where
  done again : Bytes → Round

-- A `..` node behind the node that starts at `b`: it is followed by a slash, by the end, or is none.
pub data Dots : Type 0 where
  dots_slash dots_end no_dots : Dots

abbrev pub dots_at : Bytes → Dots
dots_at s =
    if char_at s 0 == b'.' && char_at s 1 == b'.'
    then (if is_slash (char_at s 2)
        then dots_slash
        else if char_at s 2 == 0
        then dots_end
        else no_dots)
    else no_dots

-- `/aaa/..` at the end: `front` stands before the node at `b`; `root` is `start[0]`.
abbrev pub trailing : ℕ → ℕ → Bytes → Bytes
trailing slash root [] = (if is_slash root then slash else b'.') ∷ []
trailing slash root (c ∷ []) = if is_slash c then c ∷ [] else []
trailing slash root (c ∷ d ∷ front) = take (suc (length front)) (c ∷ d ∷ front)

-- `/aaa/../`: the slash at the front stays.
abbrev pub removed : Bytes → Bytes → Bytes → Bytes
removed [] [] s = drop 3 s
removed [] (c ∷ node) s = if is_slash c then c ∷ drop 3 s else drop 3 s
removed (c ∷ front) node s = c ∷ (front ++ drop 3 s)

-- Whether a node is `..` with a slash.
abbrev pub is_parent : Bytes → Bool
is_parent node = char_at node 0 == b'.' && char_at node 1 == b'.' && is_slash (char_at node 2)

-- One round of the second pass over `front ++ node ++ s`, where `node` is what has been read from `b`
-- on. A round ends when a `..` is removed, and the next one starts at the front.
unfoldable pub scan_round : ℕ → ℕ → Bytes → Bytes → Bytes → Round
scan_round slash root front node [] = done (front ++ node)
scan_round slash root front node (c ∷ s) =
    let more = scan_round slash root front (node ++ (c ∷ [])) s in
    let next = scan_round slash root (front ++ (node ++ (c ∷ []))) [] s in
    if not (is_slash c)
    then more
    else if is_parent (node ++ (c ∷ []))
    then next
    else elim (dots_at s) [
      | dots_slash ↦ again (removed front (node ++ (c ∷ [])) s)
      | dots_end ↦ again (trailing slash root front)
      | no_dots ↦ next
    ]

abbrev pub next_round : (Bytes → Option Bytes) → Round → Option Bytes
next_round more (done w) = some w
next_round more (again w) = more w

unfoldable pub remove_parents : ℕ → ℕ → ℕ → Bytes → Option Bytes
remove_parents zero slash root w = none
remove_parents (suc k) slash root w =
    next_round (remove_parents k slash root) (scan_round slash root [] [] w)

-- What CompressPath leaves in `dst`.
pub data Compressed : Type 0 where
  left_alone endless : Compressed
  path : Bytes → Compressed

-- Where the first pass starts: what stands in front of `dstart` and behind it already, the slash, and
-- the source.
pub record Start : Type 0 where
  pub prefix : Bytes
  pub out : Bytes
  pub slash : ℕ
  pub source : Bytes

abbrev pub unix_start : Bytes → Start
unix_start src = record { prefix = []; out = []; slash = b'/'; source = src }

-- `none`: the path is too long for `dst`.
abbrev pub dos_start : ℕ → Bytes → Option Start
dos_start dsize src =
    if char_at src 0 == 92
    then (let n = is_valid_unc_path src in
        if n == 0
        then some (record (unix_start src) { slash = 92 })
        else if ltb dsize n
        then none
        else some
            (record { prefix = take (n - 1) src; out = []; slash = 92; source = drop (n - 1) src }))
    else if is_alpha (char_at src 0) && char_at src 1 == b':'
    then some (record {
      prefix = take 2 src;
      out = if is_slash (char_at src 2) then [] else 92 ∷ [];
      slash = if is_slash (char_at src 2) then char_at src 2 else 92;
      source = drop 2 src;
    })
    else some (unix_start src)

abbrev pub finished : Bytes → Option Bytes → Compressed
finished prefix none = endless
finished prefix (some w) = path (prefix ++ w)

abbrev pub second_pass : Bytes → ℕ → ℕ → Option Bytes → Compressed
second_pass prefix slash root none = endless
second_pass prefix slash root (some w) =
    finished prefix (remove_parents (length w + 1) slash root w)

abbrev pub compress_from : Bool → ℕ → Option Start → Compressed
compress_from dos dsize none = path []
compress_from dos dsize (some st) = second_pass st.prefix st.slash (char_at st.source 0) (
    squeeze dos (length st.source + 1) (dsize - 1 - length st.prefix) st.slash true st.source
      st.out)

-- CompressPath.
unfoldable pub compress_path : Bool → ℕ → Bytes → Compressed
compress_path dos dsize src =
    if dsize == 0
    then left_alone
    else if char_at src 0 == 0 || ltb dsize 4
    then path []
    else compress_from dos dsize (if dos then dos_start dsize src else some (unix_start src))
