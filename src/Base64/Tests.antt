-- ===== src/Base64/Tests.antt =====
-- The codec at concrete strings.
use ncftp.Base.{◌≡◌, refl, ◌++◌, true, false, arith}
use ncftp.Base.Bytes.{codes, c_str}
use ncftp.Base64.{groups, group, to_base64, from_base64}
use ncftp.Base64.RoundTrip.{padding, from_base64-to_base64}

encoded : to_base64 (codes "secret!") false ≡ codes "c2VjcmV0IQAA"
unfolding to_base64 groups group
encoded = refl

from_base64-to_base64_example :
    (from_base64 (to_base64 (codes "word") false) false ≡ codes "word" ++ padding (codes "word"))
    × (c_str (from_base64 (to_base64 (codes "word") false) true) ≡ codes "word")
from_base64-to_base64_example =
    from_base64-to_base64 (codes "word")
      (omega arith, (omega arith, (omega arith, (omega arith, tt))))
      (refl, (refl, (refl, (refl, tt))))
