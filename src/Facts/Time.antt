-- ===== src/Facts/Time.antt =====
-- UnMDTMDate of libncftp/u_unmdtm.c and GetUTCOffset2 of libncftp/u_getutc.c, over the C library's
-- mktime and gmtime.
use ncftp.Base.{
  ℕ, zero, suc, ◌-◌, Bool, true, false, Option, none, some, [], ◌∷◌, ◌==◌, if◌then◌else◌, length,
  get_or, take, drop,
}
use ncftp.Base.Bytes.{Bytes, codes, strn_eq, is_digit, digits_value}
use ncftp.Base.Formats.{skip_spaces, negated}
use ncftp.Base.Int.{ℤ, pos, negsuc, negate, ◌+ℤ◌}

-- The fields of a `struct tm` that are set; a time that is to be found in daylight saving or not.
pub record Tm : Type 0 where
  pub year : ℤ
  pub mon : ℤ
  pub mday : ℤ
  pub hour : ℤ
  pub minute : ℤ
  pub second : ℤ

-- The C library's clock: `mktime` with the fields that it brings into their ranges, and `gmtime`.
pub record Clock : Type 0 where
  pub mktime : Tm → Option (ℤ × Tm)
  pub gmtime : ℤ → Tm

-- kModTimeUnknown.
abbrev pub time_unknown : ℤ
time_unknown = negsuc 0

abbrev pub local_to_utc : Clock → ℤ → Option (ℤ × Tm) → ℤ
local_to_utc clock local_t none = pos 0
local_to_utc clock local_t (some (utc_t, tm)) = local_t +ℤ negate utc_t

abbrev pub offset_at : Clock → Option (ℤ × Tm) → ℤ
offset_at clock none = pos 0
offset_at clock (some (local_t, tm)) =
    local_to_utc clock local_t (clock.mktime (record (clock.gmtime local_t) { second = pos 0 }))

-- GetUTCOffset2, with the month from 0 on.
unfoldable pub get_utc_offset : Clock → Tm → ℤ
get_utc_offset clock tm = offset_at clock (clock.mktime (record tm { second = pos 0 }))

abbrev pub leading_digits : ℕ → Bytes → Bytes
leading_digits zero s = []
leading_digits (suc n) [] = []
leading_digits (suc n) (c ∷ s) =
    let rest = leading_digits n s in if is_digit c then c ∷ rest else []

abbrev pub digits_field : Bool → ℕ → Bytes → Option (ℤ × Bytes)
digits_field minus n s =
    let ds = leading_digits n s in
    if length ds == 0
    then none
    else some
        (if minus then negated (digits_value 0 ds) else pos (digits_value 0 ds), drop (length ds) s)

-- A field of `sscanf` of at most `n` characters, a sign among them.
abbrev pub scan_field : ℕ → Bytes → Option (ℤ × Bytes)
scan_field n s = elim (skip_spaces s) [
  | [] ↦ none
  | c ∷ t ↦
      if c == b'-'
      then digits_field true (n - 1) t
      else if c == b'+'
      then digits_field false (n - 1) t
      else digits_field false n (c ∷ t)
]

-- A conversion that fails ends the scan.
infixl 10 ◌>>=◌
abbrev ◌>>=◌ : {A B : Type 0} → Option A → (A → Option B) → Option B
none >>= f = none
some a >>= f = f a

-- `sscanf(dstr, "%04d%02d%02d%02d%02d%02d", …) == 6`.
abbrev pub scan_date : Bytes → Option Tm
scan_date s0 = do
  (y, s1) ← scan_field 4 s0
  (mo, s2) ← scan_field 2 s1
  (d, s3) ← scan_field 2 s2
  (h, s4) ← scan_field 2 s3
  (mi, s5) ← scan_field 2 s4
  (se, s6) ← scan_field 2 s5
  some (record { year = y; mon = mo; mday = d; hour = h; minute = mi; second = se })

-- A server that has printed the year 2000 as 19100.
abbrev pub fix_year : Bytes → Bytes
fix_year dstr =
    if strn_eq 4 dstr (codes "1910")
    then b'2' ∷ b'0' ∷ get_or dstr 3 0 ∷ get_or dstr 4 0 ∷ take 58 (drop 5 dstr)
    else dstr

abbrev pub in_utc : Clock → Option (ℤ × Tm) → ℤ
in_utc clock none = time_unknown
in_utc clock (some (mt, tm)) = mt +ℤ get_utc_offset clock tm

abbrev pub date_time : Clock → Option Tm → ℤ
date_time clock none = time_unknown
date_time clock (some tm) =
    in_utc clock
      (clock.mktime (record tm { year = tm.year +ℤ negsuc 1899; mon = tm.mon +ℤ negsuc 0 }))

-- UnMDTMDate, where gmtime gives the time of now.
unfoldable pub un_mdtm_date : Clock → Bytes → ℤ
un_mdtm_date clock dstr = date_time clock (scan_date (fix_year dstr))
