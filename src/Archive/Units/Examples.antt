-- ===== src/Archive/Units/Examples.antt =====
-- A box with two units.
use sec_pro_gis.Base.{ℕ, true, Option, none, some, List, [], ◌∷◌, map, ◌≡◌, refl, arith}
use sec_pro_gis.Table.{empty_table, append}
use sec_pro_gis.Table.Order.{text}
use sec_pro_gis.Query.{Client, Session, exec_query_table, configured, no_port, append_rows}
use sec_pro_gis.Combo.Box.{Box, fresh_box}
use sec_pro_gis.Combo.Box.Entries.{IsSame}
use sec_pro_gis.Archive.Guards.Examples.{settings}
use sec_pro_gis.Archive.Units.{add_org_comb_menu}
use sec_pro_gis.Archive.Units.Names.{name_of, add_org_comb_menu-name_of}

abbrev two_units : Client
two_units = record {
  State = ℕ;
  init = λ s. (s, true);
  connect = λ s c. (s, true);
  query = λ s sql. (s, true);
  stored = λ s. true;
  to_ansi = λ str. str;
  rand = λ seed i. i;
  fetched =
      λ s. (some (49 ∷ []) ∷ some (98 ∷ []) ∷ []) ∷ (some (50 ∷ []) ∷ some (97 ∷ []) ∷ []) ∷ [];
}

abbrev session : Session two_units
session = record { server = 0; handles = 0 }

abbrev nowhere : List ℕ → List ℕ → Option ℕ
nowhere str text = none

abbrev in_front : List (List ℕ) → List ℕ → ℕ
in_front shown str = 0

abbrev filled : Box
filled = (add_org_comb_menu nowhere in_front two_units settings session empty_table fresh_box).0

add_org_comb_menu-name_of_example :
    (filled.entries ≡ map name_of (two_units.fetched 0)) × IsSame filled
unfolding exec_query_table configured no_port append_rows append text
add_org_comb_menu-name_of_example =
    add_org_comb_menu-name_of nowhere in_front two_units settings session refl refl (omega arith)
