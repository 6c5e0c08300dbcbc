-- ===== src/LineList/Tests.antt =====
-- A list of three lines, one of them NULL, and the theorems about linelist.c at it.
use ncftp.Base.{◌≡◌, refl, ◌+◌, true, none, some, List, [], ◌∷◌, arith}
use ncftp.Base.Bytes.{codes}
use ncftp.Base.Int.{pos}
use ncftp.Links.{Ptr, null, cell, Header, ok, write}
use ncftp.Links.Chain.{IsList, SameOutside}
use ncftp.LineList.{Line, Lines, remove_line, Allocator}
use ncftp.LineList.Adding.{remove_line_lem}

abbrev nodes : List (Ptr × Line)
nodes = (10, some (codes "one")) ∷ (20, none) ∷ (30, some (codes "two")) ∷ []

abbrev heap : Lines
heap =
    write
      (write (write (λ _. none) 10 (some (cell 0 20 (some (codes "one"))))) 20
        (some (cell 10 30 none)))
      30 (some (cell 20 0 (some (codes "two"))))

abbrev header : Header
header = record { first = 10; last = 30; count = pos 3 }

nodes-IsList : IsList heap header nodes
unfolding write
nodes-IsList = record {
  chain = (omega arith, refl, (omega arith, refl, (omega arith, refl, tt)));
  distinct = (refl, (refl, (refl, tt)));
  first_is = refl;
  last_is = refl;
  count_is = refl;
}

remove_line_lem_example :
    (l' : Header) × (g : Lines) × (remove_line header 20 heap ≡ ok (30, l') g)
    × IsList g l' ((10, some (codes "one")) ∷ (30, some (codes "two")) ∷ [])
    × (g 20 ≡ none)
    × SameOutside nodes heap g
remove_line_lem_example =
    remove_line_lem heap header ((10, some (codes "one")) ∷ []) 20 none
      ((30, some (codes "two")) ∷ []) nodes-IsList

-- Blocks from address 50 up, one for each request, while they are free.
abbrev bump : Allocator
bump = record {
  node = λ n h. elim (h (n + 50)) [ none ↦ n + 50 | some _ ↦ null ];
  room = λ n. true;
}
