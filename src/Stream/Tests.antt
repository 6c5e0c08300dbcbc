-- ===== src/Stream/Tests.antt =====
-- BufferGets at concrete pieces.
use ncftp.Base.{◌≡◌, refl, true, false, [], ◌∷◌, arith}
use ncftp.Base.Bytes.{codes}
use ncftp.Stream.{got, ended, whole, got_line, buffer_gets, scan_bytes, fill_line, list_lines}
use ncftp.Stream.Listing.{list_lines-text}

-- A line that just fits is followed by a blank one.
full_line : buffer_gets 3 (codes "ab\ncd\n") [] ≡ got_line whole (codes "ab") (codes "\ncd\n") []
unfolding scan_bytes fill_line
full_line = refl

list_lines-text_example :
    list_lines 4 false 8 []
      (got b'a' [] ∷ got 13 (codes "\n..\n") ∷ got b'b' [] ∷ got b'c' (codes "\n") ∷ ended ∷ [])
    ≡ codes "a" ∷ codes "bc" ∷ []
list_lines-text_example =
    list_lines-text false 8 4 ((codes "a", true) ∷ (codes "..", false) ∷ (codes "bc", false) ∷ [])
      ((b'a', []) ∷ (13, codes "\n..\n") ∷ (b'b', []) ∷ (b'c', codes "\n") ∷ []) (omega arith)
      (
        ((refl, refl, refl, tt), omega arith),
        (
          ((refl, refl, refl, (refl, refl, refl, tt)), omega arith),
          (((refl, refl, refl, (refl, refl, refl, tt)), omega arith), tt),
        ),
      )
      (omega arith) refl
