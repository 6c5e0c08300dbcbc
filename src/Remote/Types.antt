-- ===== src/Remote/Types.antt =====
-- FTPSetTransferType keeps in step with the type that the server uses.
use mathlib.Core.Path.{subst}
use ncftp.Base.{
  ℕ, ◌≡◌, ◌⊎◌, refl, sym, ◌∙◌, inl, inr, Bool, true, false, ◌||◌, Option, none, some, List, [], ◌∷◌,
  ◌++◌, arith, ◌==◌, if◌then◌else◌,
}
use ncftp.Base.Bytes.{Bytes, codes}
use ncftp.Reply.{Err, no_err, type_failed, bad_transfer_type, Note, note, bad_type_note}
use ncftp.Remote.{Session, refuse}
use ncftp.Remote.Files.{type_of_letter, note_type, send_type, ftp_set_transfer_type}
use ncftp.Remote.Serving.{
  Answering, IsReliable, InStep, IsShort, line_of, class_of, after, command-after, after-InStep,
}

abbrev pub type_command : ℕ → Bytes
type_command t = codes "TYPE " ++ (t ∷ [])

-- What a server does with types: it takes one on when it answers its command with the second class, and
-- keeps the old one otherwise.
pub record TypeServer {D : Type 0} (rep : Answering D) : Type 0 where
  pub type_of : D → ℕ
  pub accepted :
      (t : ℕ) (d : D)
      → (class_of (rep (line_of (type_command t)) d).0 == 2) ≡ true
      → type_of (rep (line_of (type_command t)) d).2 ≡ t
  pub refused :
      (t : ℕ) (d : D)
      → (class_of (rep (line_of (type_command t)) d).0 == 2) ≡ false
      → type_of (rep (line_of (type_command t)) d).2 ≡ type_of d

-- ASCII, image or EBCDIC.
abbrev pub is_type : ℕ → Bool
is_type t = t == b'A' || t == b'I' || t == b'E'

-- A type by one of its letters: image has two of them, large or small.
abbrev pub Means : ℕ → ℕ → Type 0
Means t t' =
    ((t' ≡ b'A') × ((t ≡ b'A') ⊎ (t ≡ b'a')))
    ⊎ (((t' ≡ b'I') × ((t ≡ b'I') ⊎ ((t ≡ b'i') ⊎ ((t ≡ b'B') ⊎ (t ≡ b'b')))))
        ⊎ ((t' ≡ b'E') × ((t ≡ b'E') ⊎ (t ≡ b'e'))))

type_of_letter-Means : (t t' : ℕ) → type_of_letter t ≡ some t' → Means t t'
type_of_letter-Means t t' e = ground (arith, e)

type_of_letter-none : (t t' : ℕ) → type_of_letter t ≡ none → ¬ Means t t'
type_of_letter-none t t' e m = ground (arith, e, m)

module _ {D : Type 0} (rep : Answering D) (types : TypeServer rep) where
  -- The connection is in step, and its type is one of the three and the server's, unless it was never set.
  pub record InType (s : Session D) : Type 0 where
    pub in_step : InStep rep s
    pub agrees :
        (s.cur_type ≡ 0) ⊎ ((is_type s.cur_type ≡ true) × (types.type_of s.server ≡ s.cur_type))

  -- The server does not answer the command for the type that `t` means with the second class.
  abbrev pub Refused : ℕ → Session D → Type 0
  Refused t s =
      (t' : ℕ) × Means t t' × ((class_of (rep (line_of (type_command t')) s.server).0 == 2) ≡ false)

  type_of_letter-is_type : (t t' : ℕ) → type_of_letter t ≡ some t' → is_type t' ≡ true
  type_of_letter-is_type t t' e = ground (arith, e)

  type-IsShort : (t : ℕ) → is_type t ≡ true → IsShort (type_command t)
  type-IsShort t is = (
    record { no_lf = ground (arith, is); no_cr = ground (arith, is); long_enough = omega arith },
    omega arith,
  )

  retyped : (t : ℕ) (s : Session D) → InStep rep s → InStep rep (record s { cur_type = t })
  retyped t s i = record {
    up = i.up;
    idle = i.idle;
    drained = i.drained;
    room = i.room;
    writes = i.writes;
    serves = i.serves;
  }

  refuse-InStep : (e : Err) (s : Session D) → InStep rep s → InStep rep (refuse e s).1
  refuse-InStep e s i = record {
    up = i.up;
    idle = i.idle;
    drained = i.drained;
    room = i.room;
    writes = i.writes;
    serves = i.serves;
  }

  noted : (n : Note) (s : Session D) → InStep rep s → InStep rep (record s { conn = note s.conn n })
  noted n s i = record {
    up = i.up;
    idle = i.idle;
    drained = i.drained;
    room = i.room;
    writes = i.writes;
    serves = i.serves;
  }

  -- What is known when a request for `t` has been answered: the server took on the type that the letter
  -- means, or it refused that type, or the letter means none.
  abbrev pub Typed : ℕ → Session D → Err × Session D → Type 0
  Typed t s x =
      InType x.1
      × (((x.0 ≡ no_err) × Means t (types.type_of x.1.server))
          ⊎ (((x.0 ≡ type_failed) × Refused t s)
              ⊎ ((x.0 ≡ bad_transfer_type) × ((t' : ℕ) → ¬ Means t t'))))

  accepted-Typed :
      (t t' : ℕ) (s : Session D)
      → type_of_letter t ≡ some t'
      → InStep rep s
      → types.type_of s.server ≡ t'
      → (s₀ : Session D) → Typed t s₀ (no_err, record s { cur_type = t' })
  accepted-Typed t t' s letter i e s₀ = (
    record { in_step = retyped t' s i; agrees = inr (type_of_letter-is_type t t' letter, e) },
    inl (refl, subst (Means t) (sym e) (type_of_letter-Means t t' letter)),
  )

  refuse-InType : (e : Err) (s : Session D) → InType s → InType (refuse e s).1
  refuse-InType e s i = record { in_step = refuse-InStep e s i.in_step; agrees = i.agrees }

  -- A refused type leaves the server with the one that it had.
  still-agrees :
      (t' : ℕ) (s : Session D)
      → (class_of (rep (line_of (type_command t')) s.server).0 == 2) ≡ false
      → InType s
      → InType (after rep (type_command t') s)
  still-agrees t' s not_2 i = record {
    in_step = after-InStep rep (type_command t') s i.in_step;
    agrees = elim i.agrees [
      | inl z ↦ inl z
      | inr (is, e) ↦ inr (is, types.refused t' s.server not_2 ∙ e)
    ];
  }

  answered-Typed :
      (two : Bool) (t t' : ℕ) (s : Session D)
      → (class_of (rep (line_of (type_command t')) s.server).0 == 2) ≡ two
      → type_of_letter t ≡ some t'
      → InType s
      → Typed t s (
          if two
          then (no_err, record (after rep (type_command t') s) { cur_type = t' })
          else refuse type_failed (after rep (type_command t') s))
  answered-Typed true t t' s e letter i =
      accepted-Typed t t' (after rep (type_command t') s) letter
        (after-InStep rep (type_command t') s i.in_step) (types.accepted t' s.server e) s
  answered-Typed false t t' s e letter i = (
    refuse-InType type_failed (after rep (type_command t') s) (still-agrees t' s e i),
    inr (inl (refl, (t', type_of_letter-Means t t' letter, e))),
  )

  send_type-Typed :
      (letter : Option ℕ) (t : ℕ) (s : Session D)
      → IsReliable rep
      → type_of_letter t ≡ letter
      → InType s
      → Typed t s (send_type letter t s)
  send_type-Typed none t s ok e i = (
    refuse-InType bad_transfer_type (record s { conn = note s.conn (bad_type_note t) })
        (record { in_step = noted (bad_type_note t) s i.in_step; agrees = i.agrees }),
    inr (inr (refl, λ t'. type_of_letter-none t t' e)),
  )
  send_type-Typed (some t') t s ok e i =
      let class = class_of (rep (line_of (type_command t')) s.server).0 in
      subst (λ x. Typed t s (note_type t' x.0 x.1))
        (sym (
          command-after rep (type_command t') s ok i.in_step
            (type-IsShort t' (type_of_letter-is_type t t' e))))
        (answered-Typed (class == 2) t t' s refl e i)

  is_type-type_of_letter : (t : ℕ) → is_type t ≡ true → type_of_letter t ≡ some t
  is_type-type_of_letter t is = ground (arith, is)

  -- A request for the type that is set already.
  same-Typed :
      (t : ℕ) (s : Session D)
      → (t == 0) ≡ false
      → InType s
      → (s.cur_type == t) ≡ true
      → Typed t s (no_err, s)
  same-Typed t s set i e =
      let same : s.cur_type ≡ t = ground (arith, e) in
      elim i.agrees [
        | inl z ↦ absurd (ground (arith, set, same, z))
        | inr (is, agrees) ↦ (
          i,
          inl (
            refl,
            subst (Means t) (sym agrees) (
                type_of_letter-Means t s.cur_type (
                  subst (λ u. type_of_letter u ≡ some s.cur_type) same
                    (is_type-type_of_letter s.cur_type is))),
          ),
        )
      ]

  same_or_sent :
      (same : Bool) (t : ℕ) (s : Session D)
      → IsReliable rep
      → (t == 0) ≡ false
      → InType s
      → (s.cur_type == t) ≡ same
      → Typed t s (if same then (no_err, s) else send_type (type_of_letter t) t s)
  same_or_sent true t s ok set i e = same-Typed t s set i e
  same_or_sent false t s ok set i e = send_type-Typed (type_of_letter t) t s ok refl i

  -- FTPSetTransferType of a type, on a connection that is in step with a server that always answers: the
  -- connection is in step again, its type is that of the server, unless it was never set; and the server
  -- uses the type that was asked for, by one of the letters A, a, I, i, B, b, E and e, and there is no
  -- error, or it refused the command for that type and the error is kErrTYPEFailed, or the letter is none
  -- of these and the error is kErrBadTransferType.
  pub ftp_set_transfer_type-Typed :
      (t : ℕ) (s : Session D)
      → IsReliable rep
      → (t == 0) ≡ false
      → InType s
      → Typed t s (ftp_set_transfer_type t s)
  unfolding ftp_set_transfer_type
  ftp_set_transfer_type-Typed t s ok set i = same_or_sent (s.cur_type == t) t s ok set i refl

  abbrev pub AreSet : List ℕ → Type 0
  AreSet [] = Unit
  AreSet (t ∷ ts) = ((t == 0) ≡ false) × AreSet ts

  -- One request after another, whatever comes of them.
  abbrev pub requests : List ℕ → Session D → Session D
  requests [] s = s
  requests (t ∷ ts) s = requests ts (ftp_set_transfer_type t s).1

  -- After any requests for types, answered in any way by a server that always answers, the type that the
  -- connection remembers is one of the three that are known and that of the server, unless none was ever
  -- set.
  pub requests-InType :
      (ts : List ℕ) (s : Session D) → IsReliable rep → AreSet ts → InType s → InType (requests ts s)
  requests-InType [] s ok set i = i
  requests-InType (t ∷ ts) s ok set i =
      requests-InType ts (ftp_set_transfer_type t s).1 ok set.1
        (ftp_set_transfer_type-Typed t s ok set.0 i).0
