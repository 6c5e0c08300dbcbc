-- ===== src/Facts/Tests.antt =====
-- UnMlsT and UnMlsD at concrete lines.
use ncftp.Base.{◌≡◌, ◌+◌, refl, true, false, some, List, [], ◌∷◌, ◌++◌, length, arith}
use ncftp.Base.Bytes.{Bytes, codes}
use ncftp.Base.Int.{pos}
use ncftp.Facts.{item, start_item, un_mls_t, fact_name, fact_value}
use ncftp.Facts.Entries.{un_mls_d}
use ncftp.Facts.Nodes.{contains_dot_dot, contains_dot_dot-climbs}
use ncftp.Facts.Parsing.{un_mls_t-written}
use ncftp.Facts.Safe.{entries_of, un_mls_d-safe}
use ncftp.Facts.Time.{Clock}

-- A clock that counts the seconds alone.
abbrev even_clock : Clock
even_clock = record {
  mktime = λ tm. some (tm.second, tm);
  gmtime = λ t. record {
    year = pos 70;
    mon = pos 0;
    mday = pos 1;
    hour = pos 0;
    minute = pos 0;
    second = t;
  };
}

un_mls_t-written_example :
    un_mls_t even_clock (codes "Type=file;Size=12; a b")
    ≡ item (record start_item { fname = codes "a b"; fsize = pos 12 })
unfolding ncftp.Facts.apply_fact ncftp.Base.Formats.scan_decimal
un_mls_t-written_example =
    un_mls_t-written even_clock (codes "Type") (codes "file") ((codes "Size", codes "12") ∷ [])
      (codes "a b")
      ((
        (
          (refl, refl, (refl, refl, (refl, refl, (refl, refl, tt)))),
          (refl, refl, (refl, refl, (refl, refl, (refl, refl, tt)))),
        ),
        (
          (
            (refl, refl, (refl, refl, (refl, refl, (refl, refl, tt)))),
            (refl, refl, (refl, refl, tt)),
          ),
          tt,
        ),
      ))
      refl (omega arith)

contains_dot_dot-climbs_example : contains_dot_dot (codes "a/../b") ≡ true
contains_dot_dot-climbs_example = contains_dot_dot-climbs (codes "a/../b")

abbrev two_lines : List Bytes
two_lines = codes "Type=file; ../x" ∷ codes "Type=file; a" ∷ []

un_mls_d-safe_example :
    ((un_mls_d even_clock two_lines).1.entries
      ≡ entries_of (record start_item { fname = codes "a" } ∷ []))
    × ((un_mls_d even_clock two_lines).0 ≡ pos 1)
unfolding un_mls_t ncftp.Facts.facts_loop fact_name fact_value ncftp.Facts.apply_fact
un_mls_d-safe_example = un_mls_d-safe even_clock two_lines
