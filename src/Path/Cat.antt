-- ===== src/Path/Cat.antt =====
-- PathCat and DPathCat of libncftp/u_pathcat.c, with Strnpcpy and Strnpcat of Strn as they are used
-- there.
use ncftp.Base.{
  ℕ, ◌+◌, ◌-◌, Bool, true, not, ◌&&◌, ◌||◌, Option, none, some, [], ◌∷◌, ◌++◌, ◌==◌, if◌then◌else◌,
  length, take,
}
use ncftp.Base.Bytes.{Bytes, is_alpha}
use ncftp.Path.{char_at, is_valid_unc_path, Compressed, left_alone, endless, path, compress_path}

-- Strnpcpy to a buffer of `n` bytes, and Strnpcat to a string of no characters in one.
abbrev pub strnpcpy : Bytes → ℕ → Bytes
strnpcpy src n = take (n - 1) src

abbrev pub is_drive : Bytes → Bool
is_drive s = is_alpha (char_at s 0) && char_at s 1 == b':'

-- What CompressPath leaves in `dst + 2`, behind the drive's letter and a colon.
abbrev pub behind_drive : ℕ → Compressed → Compressed
behind_drive c left_alone = left_alone
behind_drive c endless = endless
behind_drive c (path w) = path (c ∷ b':' ∷ w)

-- With DOS compatibility, and `dsize` at least 2: `none` if `src` is taken from `cwd` on after all.
unfoldable pub dos_cat : ℕ → Bytes → Bytes → Option Compressed
dos_cat dsize cwd src =
    let whole = some (compress_path true dsize src) in
    if is_drive cwd
    then (if is_drive src
        then whole
        else if not (is_valid_unc_path src == 0)
        then whole
        else if char_at src 0 == 92
        then some (behind_drive (char_at cwd 0) (compress_path true (dsize - 2) src))
        else none)
    else if not (is_valid_unc_path src == 0)
    then whole
    else if char_at src 0 == 92 || is_drive src
    then whole
    else none

-- The delimiter behind `cwd`; `old` is what `dst` holds before.
abbrev pub delimiter : Bool → Bytes → ℕ
delimiter dos old =
    if dos
    then (if char_at old 0 == 92
        then 92
        else if not (char_at old 1 == b':') || char_at old 2 == b'/'
        then b'/'
        else 92)
    else b'/'

-- `cwd`, the delimiter and `src` in `tmp`, of which `size` bytes are used for the whole and `size - 1`
-- for `cwd`.
abbrev pub joined : ℕ → ℕ → Bytes → Bytes → Bytes
joined size delim cwd src =
    let start = strnpcpy cwd (size - 1) in
    start ++ (delim ∷ strnpcpy src (size - (length start + 1)))

abbrev pub unless_dos : Option Compressed → Compressed → Compressed
unless_dos none c = c
unless_dos (some c) d = c

-- PathCat, whose `tmp` has 512 bytes.
unfoldable pub path_cat : Bool → Bytes → ℕ → Bytes → Bytes → Compressed
path_cat dos old dsize cwd src = unless_dos (if dos then dos_cat dsize cwd src else none) (
    if char_at src 0 == b'/' || char_at src 0 == b'~'
    then compress_path dos dsize src
    else compress_path dos dsize (joined 512 (delimiter dos old) cwd src))

-- DPathCat: `room` says which of its two requests for memory is granted. `none` is the result -1;
-- `dst` is as large as both and 12 bytes more, and zeroed.
unfoldable pub d_path_cat : Bool × Bool → Bool → Bytes → Bytes → Option Compressed
d_path_cat (room, room') dos cwd src =
    let dsize = length cwd + 1 + length src + 1 + 10 in
    if not room then none else elim (if dos then dos_cat dsize cwd src else none) [
      | some c ↦ some c
      | none ↦
          if char_at src 0 == b'/'
          then some (compress_path dos dsize src)
          else if not room'
          then none
          else some (compress_path dos dsize (joined dsize (delimiter dos []) cwd src))
    ]
