-- ===== src/Bookmark/Texts.antt =====
-- Each kind of field that WriteBmLine writes is a token that ParseHostLine reads back.
use ncftp.Base.{
  ℕ, ◌+◌, ◌-◌, ◌^◌, ◌<◌, ◌≤◌, ◌≡◌, refl, ap, ◌∙◌, false, [], ◌∷◌, ◌++◌, arith, ◌==◌, length, take,
  take-all,
}
use ncftp.Base.Bytes.{Bytes, HasNoNul, c_str}
use ncftp.Base.Formats.{
  AreDigits, print_nat, print_int, print_digits-AreDigits, length-print_digits,
}
use ncftp.Base.Int.{ℤ, pos, negsuc}
use ncftp.Base64.Alphabet.{AreAlphabet}
use ncftp.Bookmark.{strncpy, escaped, next_token}
use ncftp.Bookmark.Fields.{Reads}
use ncftp.Bookmark.Tokens.{
  is_special, escape_all, AreAscii, ArePlain, next-escape_all, next-plain_all, bm_escape_tok-room,
}

-- A text that BmEscapeTok has room for, for a field of `size` bytes and a token of 128.
pub record IsText (size : ℕ) (s : Bytes) : Type 0 where
  pub ascii : AreAscii s
  pub no_nul : HasNoNul s
  pub fits_field : length s < size
  pub fits_token : length s ≤ 127
  pub fits_escaped : length (escape_all s) ≤ 255

-- A text that is written as it is.
pub record IsWord (size : ℕ) (s : Bytes) : Type 0 where
  pub plain : ArePlain s
  pub no_nul : HasNoNul s
  pub fits_field : length s < size
  pub fits_token : length s ≤ 127

abbrev pub IsChar : ℕ → Type 0
IsChar c = (is_special c ≡ false) × ((c == 0) ≡ false)

-- An `int`.
abbrev pub IsInt : ℤ → Type 0
IsInt (pos n) = n < 2147483648
IsInt (negsuc n) = n < 2147483648

pub IsText-Reads : (size : ℕ) (s : Bytes) → IsText size s → Reads (escaped s) s
IsText-Reads size s is rest =
    let fits : length (escape_all s) < 256 = omega (arith, is.fits_escaped) in
    ap (λ w. next_token [] (w ++ rest)) (bm_escape_tok-room 256 s fits)
    ∙ next-escape_all [] s rest is.ascii (omega (arith, is.fits_token))

pub IsWord-Reads : (size : ℕ) (s : Bytes) → IsWord size s → Reads s s
IsWord-Reads size s is rest = next-plain_all [] s rest is.plain (omega (arith, is.fits_token))

pub IsChar-IsWord : (c : ℕ) → IsChar c → IsWord 2 (c ∷ [])
IsChar-IsWord c (e, e') = record {
  plain = (e, tt);
  no_nul = (e', tt);
  fits_field = omega arith;
  fits_token = omega arith;
}

AreDigits-plain : (s : Bytes) → AreDigits s → ArePlain s × HasNoNul s
AreDigits-plain [] h = (tt, tt)
AreDigits-plain (c ∷ s) h =
    let (plain, no_nul) = AreDigits-plain s h.1 in
    ((ground (arith, h.0), plain), (ground (arith, h.0), no_nul))

pub AreAlphabet-plain : (s : Bytes) → AreAlphabet s → ArePlain s × HasNoNul s
AreAlphabet-plain [] h = (tt, tt)
AreAlphabet-plain (c ∷ s) h =
    let (plain, no_nul) = AreAlphabet-plain s h.1 in
    ((ground (arith, h.0), plain), (ground (arith, h.0), no_nul))

pub print_nat-IsWord : (n : ℕ) → n < 2 ^ 64 → IsWord 32 (print_nat n)
print_nat-IsWord n h =
    let (is_plain, has_no_nul) = AreDigits-plain (print_nat n) (print_digits-AreDigits (n + 1) n) in
    let short = length-print_digits 20 (n + 1) n (omega arith) in
    record {
      plain = is_plain;
      no_nul = has_no_nul;
      fits_field = omega (arith, short);
      fits_token = omega (arith, short);
    }

pub print_int-IsWord : (i : ℤ) → IsInt i → IsWord 64 (print_int i)
print_int-IsWord (pos n) h =
    let is = print_nat-IsWord n (omega arith) in
    record {
      plain = is.plain;
      no_nul = is.no_nul;
      fits_field = omega (arith, is.fits_field);
      fits_token = is.fits_token;
    }
print_int-IsWord (negsuc n) h =
    let is = print_nat-IsWord (n + 1) (omega arith) in
    record {
      plain = (refl, is.plain);
      no_nul = (refl, is.no_nul);
      fits_field = omega (arith, is.fits_field);
      fits_token = omega (arith, is.fits_field);
    }

pub c_str_self : (s : Bytes) → HasNoNul s → c_str s ≡ s
c_str_self [] h = refl
c_str_self (c ∷ s) h = rw (h.0) (ap (◌∷◌ c) (c_str_self s h.1))

pub strncpy_self : (s : Bytes) (size : ℕ) → HasNoNul s → length s < size → strncpy s size ≡ s
strncpy_self s size h fits =
    ap (take (size - 1)) (c_str_self s h) ∙ take-all (size - 1) s (omega arith)
