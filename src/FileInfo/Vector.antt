-- ===== src/FileInfo/Vector.antt =====
-- VectorizeFileInfoList and UnvectorizeFileInfoList of libncftp/linelist.c: the vector of the
-- addresses of a list's nodes, and the list linked again in the order of the vector.
use ncftp.Base.{
  ℕ, zero, suc, ◌+◌, ◌-◌, Bool, none, some, List, ltb, ◌==◌, if◌then◌else◌, length, get_elem?, set,
  replicate,
}
use ncftp.Base.Int.{pos_part}
use ncftp.Links.{Ptr, null, fault, out_of_fuel, pure, ◌>>=◌, ◌>>◌, load, set_prev, set_next}
use ncftp.FileInfo.{FileInfoList, Cmd}

-- `fiv[i]`, which must be inside the vector.
unfoldable pub at : List Ptr → ℕ → Cmd Ptr
at fiv i = elim (get_elem? fiv i) [ none ↦ λ _. fault | some p ↦ pure p ]

-- The loop of VectorizeFileInfoList from its i-th round on.
unfoldable pub fill_loop : ℕ → ℕ → List Ptr → Ptr → Cmd (List Ptr)
fill_loop zero i fiv fip = λ _. out_of_fuel
fill_loop (suc k) i fiv fip =
    if fip == null
    then pure fiv
    else if ltb i (length fiv)
    then (do c ← load fip; fill_loop k (i + 1) (set fiv i fip) c.next)
    else (λ _. fault)

-- `room` says whether `calloc` succeeds.
unfoldable pub vectorize : Bool → FileInfoList → Cmd FileInfoList
vectorize room list =
    if room
    then (do
      fiv ←
          fill_loop (pos_part list.links.count + 1) 0
            (replicate (pos_part list.links.count + 1) null) list.links.first
      pure (record list { vec = some fiv }))
    else pure list

-- The links of `fiv[i]`, for `i` of 1 and more.
abbrev pub relink_at : List Ptr → ℕ → Cmd Unit
relink_at fiv i = do
  fip ← at fiv i
  before ← at fiv (i - 1)
  set_prev fip before
  behind ← at fiv (i + 1)
  set_next fip behind

-- `for (i = 1; i < n; i++)`, with `k` rounds to go.
unfoldable pub relink_loop : ℕ → ℕ → List Ptr → Cmd Unit
relink_loop zero i fiv = pure tt
relink_loop (suc k) i fiv = do relink_at fiv i; relink_loop k (i + 1) fiv

unfoldable pub unvectorize : FileInfoList → Cmd FileInfoList
unvectorize list = elim list.vec [
  | none ↦ pure list
  | some fiv ↦ at fiv 0 >>= λ first. elim (pos_part list.links.count) [
    | zero ↦ pure (record list { links = record list.links { first = first }; vec = none })
    | suc m ↦ (do
      last ← at fiv m
      set_prev first null
      second ← at fiv 1
      set_next first second
      relink_loop m 1 fiv
      pure (record list { links = record list.links { first = first; last = last }; vec = none }))
  ]
]
