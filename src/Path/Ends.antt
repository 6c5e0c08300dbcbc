-- ===== src/Path/Ends.antt =====
-- CompressPath of a path that is no DOS path comes to an end, and its result fits.
use mathlib.Core.Path.{subst}
use ncftp.Base.{
  ℕ, zero, suc, ◌+◌, ◌-◌, ◌<◌, ◌≤◌, ◌≡◌, refl, ap, ◌∙◌, inl, inr, Bool, true, false, ◌&&◌, ◌||◌,
  ◌⊎◌, some, [], ◌∷◌, ◌++◌, arith, ltb, ◌==◌, Bool-cases, length, drop, length-append, length-take,
  length-drop,
}
use ncftp.Base.Bytes.{Bytes}
use ncftp.Path.{
  is_slash, char_at, put, ends_node, skip_slashes, squeeze, Round, done, again, Dots, dots_at,
  dots_slash, dots_end, no_dots, trailing, removed, is_parent, scan_round, remove_parents, path,
  second_pass, next_round, finished, compress_path,
}

module _ (k lim slash : ℕ) (first : Bool) (c : ℕ) (s out : Bytes) where
  pub squeeze_slash :
      is_slash c ≡ true
      → squeeze false (suc k) lim slash first (c ∷ s) out
        ≡ squeeze false k lim slash true (skip_slashes s) (put lim out slash)
  unfolding squeeze
  squeeze_slash e = let dot : (c == b'.') ≡ false = ground (arith, e) in rw (dot, e) refl

  pub squeeze_skip :
      (c == b'.') ≡ true
      → (first && ends_node s) ≡ true
      → squeeze false (suc k) lim slash first (c ∷ s) out
        ≡ squeeze false k lim slash true (drop 1 s) out
  unfolding squeeze
  squeeze_skip e e' = rw (e, e') refl

  pub squeeze_plain :
      is_slash c ≡ false
      → ((c == b'.') && (first && ends_node s)) ≡ false
      → squeeze false (suc k) lim slash first (c ∷ s) out
        ≡ squeeze false k lim slash false s (put lim out c)
  unfolding squeeze
  squeeze_plain e e' = ground (arith, e, e')

skip_slashes-le : (s : Bytes) → length (skip_slashes s) ≤ length s
unfolding skip_slashes
skip_slashes-le [] = omega arith
skip_slashes-le (c ∷ []) = ground arith
skip_slashes-le (c ∷ d ∷ s) = ground (arith, skip_slashes-le s, skip_slashes-le (d ∷ s))

length-put : (lim c : ℕ) (out : Bytes) → length out ≤ lim → length (put lim out c) ≤ lim
length-put lim c out h = ground (arith, length-append out (c ∷ []))

-- The first pass, with a round for each character and one for the NUL.
squeeze-Ends :
    (k lim slash : ℕ) (first : Bool) (s out : Bytes)
    → length s < k
    → length out ≤ lim
    → (w : Bytes) × (squeeze false k lim slash first s out ≡ some w) × (length w ≤ lim)
unfolding squeeze
squeeze-Ends zero lim slash first s out h fits = absurd (omega arith)
squeeze-Ends (suc k) lim slash first [] out h fits =
    (_, refl, ground (arith, length-take (length out - 1) out))
squeeze-Ends (suc k) lim slash first (c ∷ s) out h fits = elim (Bool-cases (is_slash c)) [
  | inl e ↦ rw (squeeze_slash k lim slash first c s out e) (
      squeeze-Ends k lim slash true (skip_slashes s) (put lim out slash)
        (omega (arith, skip_slashes-le s)) (length-put lim slash out fits))
  | inr e ↦ elim (Bool-cases ((c == b'.') && (first && ends_node s))) [
    | inl skip ↦
        rw (squeeze_skip k lim slash first c s out (ground (arith, skip)) (ground (arith, skip)))
          (squeeze-Ends k lim slash true (drop 1 s) out (omega (arith, length-drop 1 s)) fits)
    | inr plain ↦
        rw (squeeze_plain k lim slash first c s out e plain) (
          squeeze-Ends k lim slash false s (put lim out c) (omega arith)
            (length-put lim c out fits))
  ]
]

-- A round keeps the path or leaves a shorter one.
abbrev Shrinks : ℕ → Round → Type 0
Shrinks n (done w) = length w ≤ n
Shrinks n (again w) = length w < n

dots_slash-length : (s : Bytes) → dots_at s ≡ dots_slash → 3 ≤ length s
dots_slash-length [] e = absurd (cc e)
dots_slash-length (a ∷ []) e = ground (arith, e)
dots_slash-length (a ∷ b ∷ []) e = ground (arith, e)
dots_slash-length (a ∷ b ∷ c ∷ s) e = omega arith

dots_end-length : (s : Bytes) → dots_at s ≡ dots_end → 2 ≤ length s
dots_end-length [] e = absurd (cc e)
dots_end-length (a ∷ []) e = ground (arith, e)
dots_end-length (a ∷ b ∷ s) e = omega arith

removed-shorter :
    (front node s : Bytes)
    → 3 ≤ length s
    → length (removed front node s) < length front + length node + length s
removed-shorter [] [] s h = omega (arith, length-drop 3 s)
removed-shorter [] (c ∷ node) s h = ground (arith, length-drop 3 s)
removed-shorter (c ∷ front) node s h =
    omega (arith, length-append front (drop 3 s), length-drop 3 s)

trailing-shorter :
    (slash root n : ℕ) (front : Bytes)
    → 2 ≤ n
    → length (trailing slash root front) < length front + n
trailing-shorter slash root n [] h = omega arith
trailing-shorter slash root n (c ∷ []) h = ground arith
trailing-shorter slash root n (c ∷ d ∷ front) h =
    omega (arith, length-take (suc (length front)) (c ∷ d ∷ front))

Dots-cases : (d : Dots) → (d ≡ dots_slash) ⊎ ((d ≡ dots_end) ⊎ (d ≡ no_dots))
Dots-cases dots_slash = inl refl
Dots-cases dots_end = inr (inl refl)
Dots-cases no_dots = inr (inr refl)

scan_round-Shrinks :
    (slash root n : ℕ) (front node s : Bytes)
    → length front + length node + length s ≤ n
    → Shrinks n (scan_round slash root front node s)
unfolding scan_round
scan_round-Shrinks slash root n front node [] h = omega (arith, length-append front node)
scan_round-Shrinks slash root n front node (c ∷ s) h =
    let node' = node ++ (c ∷ []) in
    let len = length-append node (c ∷ []) in
    let next =
      scan_round-Shrinks slash root n (front ++ node') [] s
        (omega (arith, len, length-append front node')) in
    elim (Bool-cases (is_slash c)) [
      | inr e ↦ rw e (scan_round-Shrinks slash root n front node' s (omega (arith, len)))
      | inl e ↦ elim (Bool-cases (is_parent node')) [
        | inl p ↦ rw (e, p) next
        | inr p ↦ elim (Dots-cases (dots_at s)) [
          | inl d ↦
              rw (e, p, d)
                (omega (arith, len, removed-shorter front node' s (dots_slash-length s d)))
          | inr (inl d) ↦
              rw (e, p, d)
                (omega (
                  arith,
                  len,
                  trailing-shorter slash root (length node' + length s) front
                      (omega (arith, len, dots_end-length s d)),
                ))
          | inr (inr d) ↦ rw (e, p, d) next
        ]
      ]
    ]

Round-cases : (r : Round) → ((w : Bytes) × (r ≡ done w)) ⊎ ((w : Bytes) × (r ≡ again w))
Round-cases (done w) = inl (w, refl)
Round-cases (again w) = inr (w, refl)

-- The second pass, with a round for each character of the path and one more.
remove_parents-Ends :
    (k slash root : ℕ) (w : Bytes)
    → length w < k
    → (w' : Bytes) × (remove_parents k slash root w ≡ some w') × (length w' ≤ length w)
unfolding remove_parents
remove_parents-Ends zero slash root w h = absurd (omega arith)
remove_parents-Ends (suc k) slash root w h =
    let shrinks = scan_round-Shrinks slash root (length w) [] [] w (omega arith) in
    let more = remove_parents k slash root in
    elim (Round-cases (scan_round slash root [] [] w)) [
      | inl (w', e) ↦ (w', ap (next_round more) e, subst (Shrinks (length w)) e shrinks)
      | inr (w', e) ↦
          let less : length w' < length w = subst (Shrinks (length w)) e shrinks in
          let (w'', run, le) = remove_parents-Ends k slash root w' (omega (arith, less)) in
          (w'', ap (next_round more) e ∙ run, omega (arith, le, less))
    ]

pub compress_path-unix :
    (dsize : ℕ) (src w w' : Bytes)
    → (dsize == 0) ≡ false
    → (char_at src 0 == 0 || ltb dsize 4) ≡ false
    → squeeze false (length src + 1) (dsize - 1 - 0) b'/' true src [] ≡ some w
    → remove_parents (length w + 1) b'/' (char_at src 0) w ≡ some w'
    → compress_path false dsize src ≡ path w'
unfolding compress_path
compress_path-unix dsize src w w' some_room proper run run' =
    rw (some_room, proper) (ap (second_pass [] b'/' (char_at src 0)) run ∙ ap (finished []) run')

compress_path-nothing :
    (dsize : ℕ) (src : Bytes)
    → (dsize == 0) ≡ false
    → (char_at src 0 == 0 || ltb dsize 4) ≡ true
    → compress_path false dsize src ≡ path []
unfolding compress_path
compress_path-nothing dsize src e e' = rw (e, e') refl

-- CompressPath without DOS compatibility ends for every path and every buffer of a byte or more, and
-- the path that it leaves fits in the buffer with its NUL.
pub compress_path-Ends :
    (dsize : ℕ) (src : Bytes)
    → 0 < dsize
    → (w : Bytes) × (compress_path false dsize src ≡ path w) × (length w < dsize)
compress_path-Ends dsize src pos =
    let some_room : (dsize == 0) ≡ false = ground arith in
    let (w, run, fits) =
      squeeze-Ends (length src + 1) (dsize - 1 - 0) b'/' true src [] (omega arith) (omega arith) in
    let (w', run', le) = remove_parents-Ends (length w + 1) b'/' (char_at src 0) w (omega arith) in
    elim (Bool-cases (char_at src 0 == 0 || ltb dsize 4)) [
      | inl e ↦ ([], compress_path-nothing dsize src some_room e, pos)
      | inr e ↦
          (w', compress_path-unix dsize src w w' some_room e run run', omega (arith, fits, le))
    ]
