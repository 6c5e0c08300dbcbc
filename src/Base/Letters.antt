-- ===== src/Base/Letters.antt =====
-- Strings compared without regard to the case of letters, and strchr.
use Prim.Native.Nat.{ℕ, zero, suc, ◌+◌}
use mathlib.Core.Bool.{Bool, true, false, ◌&&◌}
use mathlib.Core.Option.{Option, none, some}
use mathlib.Core.List.{[], ◌∷◌}
use ncftp.Base.Int.{ℤ, pos, negsuc}
use ncftp.Base.Tests.{◌==◌, ltb, if◌then◌else◌}
use ncftp.Base.Bytes.{Bytes, is_upper}

-- ISTREQ and ISTRNEQ: letters count the same in both cases.
abbrev pub to_lower : ℕ → ℕ
to_lower c = if is_upper c then c + 32 else c

abbrev pub istreq : Bytes → Bytes → Bool
istreq [] [] = true
istreq [] (d ∷ t) = false
istreq (c ∷ s) [] = false
istreq (c ∷ s) (d ∷ t) = to_lower c == to_lower d && istreq s t

abbrev pub istrneq : ℕ → Bytes → Bytes → Bool
istrneq zero s t = true
istrneq (suc n) [] [] = true
istrneq (suc n) [] (d ∷ t) = false
istrneq (suc n) (c ∷ s) [] = false
istrneq (suc n) (c ∷ s) (d ∷ t) = to_lower c == to_lower d && istrneq n s t

-- ISTRCMP: negative, zero or positive, by the first place in which the strings differ.
abbrev pub istrcmp : Bytes → Bytes → ℤ
istrcmp [] [] = pos 0
istrcmp [] (d ∷ t) = negsuc 0
istrcmp (c ∷ s) [] = pos 1
istrcmp (c ∷ s) (d ∷ t) =
    let rest = istrcmp s t in
    if to_lower c == to_lower d
    then rest
    else if ltb (to_lower c) (to_lower d)
    then negsuc 0
    else pos 1

-- strchr: the rest of the string from a character on.
abbrev pub strchr : ℕ → Bytes → Option Bytes
strchr c [] = none
strchr c (d ∷ s) = let rest = strchr c s in if d == c then some (d ∷ s) else rest
