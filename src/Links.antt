-- ===== src/Links.antt =====
-- The doubly linked lists of libncftp/linelist.c: an FTPLineList and an FTPFileInfoList link
-- their nodes by `prev` and `next` in the same way. Nodes live at addresses of a heap; the
-- program's own pointer writes are commands on it. The items that the nodes carry are of any type.
pub mod Chain
pub mod Cells
pub mod Linking
pub mod Unlinking
pub mod Disposal
use ncftp.Base.{ℕ, zero, suc, ◌+◌, Option, none, some, ◌==◌, if◌then◌else◌}
use ncftp.Base.Int.{ℤ, pos, incr, decr, pos_part}

abbrev pub Ptr : Type 0
Ptr = ℕ

abbrev pub null : Ptr
null = 0

pub record Cell (A : Type 0) : Type 0 where
  pub prev : Ptr
  pub next : Ptr
  pub item : A

-- `first`, `last` and `nLines` or `nFileInfos` of a list.
pub record Header : Type 0 where
  pub first : Ptr
  pub last : Ptr
  pub count : ℤ

-- A dereference of an address that holds no node is a fault; a loop that is given too few rounds
-- for a malformed list runs out of fuel.
pub data Run (A R : Type 0) : Type 0 where
  ok : R → (Ptr → Option (Cell A)) → Run A R
  fault : Run A R
  out_of_fuel : Run A R

abbrev pub empty : Header
empty = record { first = null; last = null; count = pos 0 }

module _ {A : Type 0} where
  abbrev pub cell : Ptr → Ptr → A → Cell A
  cell p n a = record { prev = p; next = n; item = a }

  abbrev pub pure : {R : Type 0} → R → (Ptr → Option (Cell A)) → Run A R
  pure = ok

  abbrev pub and_then : {R S : Type 0} → Run A R → (R → (Ptr → Option (Cell A)) → Run A S) → Run A S
  and_then (ok r h) k = k r h
  and_then fault k = fault
  and_then out_of_fuel k = out_of_fuel

  infixl 5 ◌>>=◌ ◌>>◌
  abbrev pub ◌>>=◌ :
      {R S : Type 0}
      → ((Ptr → Option (Cell A)) → Run A R)
      → (R → (Ptr → Option (Cell A)) → Run A S)
      → (Ptr → Option (Cell A))
      → Run A S
  ◌>>=◌ m k h = and_then (m h) k

  abbrev pub ◌>>◌ :
      {S : Type 0}
      → ((Ptr → Option (Cell A)) → Run A (Unit {0}))
      → ((Ptr → Option (Cell A)) → Run A S)
      → (Ptr → Option (Cell A))
      → Run A S
  m >> k = m >>= λ _. k

  unfoldable pub write : (Ptr → Option (Cell A)) → Ptr → Option (Cell A) → Ptr → Option (Cell A)
  write h p c q = if q == p then c else h q

  unfoldable pub load : Ptr → (Ptr → Option (Cell A)) → Run A (Cell A)
  load p h = if p == null then fault else elim (h p) [ none ↦ fault | some c ↦ ok c h ]

  -- All three fields of a node that `malloc` has just returned.
  abbrev pub fill : Ptr → Cell A → (Ptr → Option (Cell A)) → Run A (Unit {0})
  fill p c h = ok tt (write h p (some c))

  unfoldable pub set_prev : Ptr → Ptr → (Ptr → Option (Cell A)) → Run A (Unit {0})
  unfolding load
  set_prev p q = do c ← load p; fill p (record c { prev = q })

  unfoldable pub set_next : Ptr → Ptr → (Ptr → Option (Cell A)) → Run A (Unit {0})
  unfolding load
  set_next p q = do c ← load p; fill p (record c { next = q })

  unfoldable pub free : Ptr → (Ptr → Option (Cell A)) → Run A (Unit {0})
  unfolding load
  free p = load p >>= λ _ h. ok tt (write h p none)

  -- The new node `lp` behind the last one: the part that AddLine and AddFileInfo share.
  unfoldable pub link_last : Header → Ptr → A → (Ptr → Option (Cell A)) → Run A Header
  link_last list lp a =
      if list.first == null
      then (do fill lp (cell null null a); pure (record { first = lp; last = lp; count = pos 1 }))
      else (do
        fill lp (cell list.last null a)
        set_next list.last lp
        pure (record list { last = lp; count = incr list.count }))

  when_node :
      Ptr
      → ((Ptr → Option (Cell A)) → Run A (Unit {0}))
      → (Ptr → Option (Cell A))
      → Run A (Unit {0})
  when_node p act = if p == null then pure tt else act

  -- The part that RemoveLine and RemoveFileInfo share. Returns `killMe->next` and the list.
  unfoldable pub unlink : Header → Ptr → (Ptr → Option (Cell A)) → Run A (Ptr × Header)
  unfolding when_node
  unlink list kill_me = do
    c ← load kill_me
    when_node c.next (set_prev c.next c.prev)
    when_node c.prev (set_next c.prev c.next)
    free kill_me
    pure (
      c.next,
      record {
        first = if list.first == kill_me then c.next else list.first;
        last = if list.last == kill_me then c.prev else list.last;
        count = decr list.count;
      },
    )

  free_loop : ℕ → Ptr → (Ptr → Option (Cell A)) → Run A (Unit {0})
  free_loop zero lp = λ _. out_of_fuel
  free_loop (suc k) lp = if lp == null then pure tt else do c ← load lp; free lp; free_loop k c.next

  -- The part that the two Dispose functions share, with one round for each counted node.
  unfoldable pub dispose : Header → (Ptr → Option (Cell A)) → Run A Header
  unfolding free_loop
  dispose list = do free_loop (pos_part list.count + 1) list.first; pure empty
