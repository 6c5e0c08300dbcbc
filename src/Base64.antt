-- ===== src/Base64.antt =====
-- ToBase64 and FromBase64 of ncftp/util.c, with which bookmarks keep passwords.
pub mod RoundTrip
pub mod Alphabet
mod Bits
mod Tests
use Prim.Native.Nat.{bit_and, bit_or}
use ncftp.Base.{
  ℕ, zero, suc, ◌+◌, ◌*◌, ◌/◌, ◌%◌, Bool, List, [], ◌∷◌, ◌++◌, if◌then◌else◌, get_or, replicate,
}
use ncftp.Base.Bytes.{Bytes, codes}

abbrev pub b64_encode_table : Bytes
b64_encode_table = codes "ABCDEFGHIJKLMNOPQRSTUVWXYZabcdefghijklmnopqrstuvwxyz0123456789+/"

-- What stands from a code on up to another.
abbrev range : ℕ → ℕ → Bytes
range zero c = []
range (suc n) c = c ∷ range n (c + 1)

-- 127 for a code that is no digit; `=` is 64.
abbrev pub b64_decode_table : Bytes
b64_decode_table =
    replicate 43 127
    ++ (62 ∷ 127 ∷ 127 ∷ 127 ∷ 63 ∷ range 10 52)
    ++ (127 ∷ 127 ∷ 127 ∷ 64 ∷ 127 ∷ 127 ∷ 127 ∷ range 26 0)
    ++ replicate 6 127
    ++ range 26 26
    ++ replicate 133 127

abbrev pub digit : ℕ → ℕ
digit ch = get_or b64_encode_table (bit_and ch 0x3f) 0

-- The four characters that three bytes become.
unfoldable pub group : ℕ → ℕ → ℕ → Bytes
group c0 c1 c2 =
    digit (c0 / 4)
    ∷ digit (bit_or (bit_and (c0 * 16) 0x30) (bit_and (c1 / 16) 0x0f))
    ∷ digit (bit_or (bit_and (c1 * 4) 0x3c) (bit_and (c2 / 64) 0x03))
    ∷ digit (bit_and c2 0x3f)
    ∷ []

unfoldable pub groups : Bytes → Bytes
groups [] = []
groups (c0 ∷ []) = group c0 0 0
groups (c0 ∷ c1 ∷ []) = group c0 c1 0
groups (c0 ∷ c1 ∷ c2 ∷ src) = group c0 c1 c2 ++ groups src

abbrev pub terminator : Bool → Bytes
terminator terminate = if terminate then 0 ∷ [] else []

-- What ToBase64 writes.
unfoldable pub to_base64 : Bytes → Bool → Bytes
to_base64 src terminate = groups src ++ terminator terminate

abbrev pub char_value : ℕ → ℕ
char_value c = get_or b64_decode_table c 0

-- The three bytes that four characters become; an `unsigned char` is taken modulo 256.
unfoldable pub ungroup : ℕ → ℕ → ℕ → ℕ → Bytes
ungroup c0 c1 c2 c3 =
    (bit_or (char_value c0 * 4) (char_value c1 / 16) % 256)
    ∷ (bit_or (char_value c1 * 16) (char_value c2 / 4) % 256)
    ∷ (bit_or (char_value c2 * 64) (char_value c3) % 256)
    ∷ []

unfoldable pub ungroups : Bytes → Bytes
ungroups [] = []
ungroups (c0 ∷ []) = ungroup c0 0 0 0
ungroups (c0 ∷ c1 ∷ []) = ungroup c0 c1 0 0
ungroups (c0 ∷ c1 ∷ c2 ∷ []) = ungroup c0 c1 c2 0
ungroups (c0 ∷ c1 ∷ c2 ∷ c3 ∷ src) = ungroup c0 c1 c2 c3 ++ ungroups src

-- What FromBase64 writes.
unfoldable pub from_base64 : Bytes → Bool → Bytes
from_base64 src terminate = ungroups src ++ terminator terminate
