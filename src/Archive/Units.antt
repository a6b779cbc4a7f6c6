-- ===== src/Archive/Units.antt =====
-- `AddOrgCombMenu` of ArchiveDlg.cpp: the names of the units in the combo box.
pub mod Names
mod Examples
use sec_pro_gis.Base.{
  ℕ, zero, suc, ◌+◌, Bool, Option, none, some, List, [], ◌∷◌, if◌then◌else◌, ℤ, pos,
}
use sec_pro_gis.Table.{Table}
use sec_pro_gis.Text.{cell_str, or_empty, no_server}
use sec_pro_gis.Query.{Config, Client, Session, configured, exec_query_table}
use sec_pro_gis.Combo.Box.{Box, add_string}

-- select * from org;
abbrev pub units_query : List ℕ
units_query =
    115 ∷ 101 ∷ 108 ∷ 101 ∷ 99 ∷ 116 ∷ 32 ∷ 42 ∷ 32 ∷ 102 ∷ 114 ∷ 111 ∷ 109 ∷ 32 ∷ 111 ∷ 114 ∷ 103
    ∷ 59 ∷ []

module _ (find : List ℕ → List ℕ → Option ℕ) (place : List (List ℕ) → List ℕ → ℕ) where
  -- The loop over the rows. A null pointer gives an empty `CString`.
  pub add_units : Table → ℕ → ℕ → Box → Box
  add_units t zero i box = box
  add_units t (suc left) i box =
      add_units t left (i + 1) (add_string find place box (or_empty (cell_str t (pos i) (pos 1))))

  -- `AddOrgCombMenu`, with the member `TableOrg` and the box.
  pub add_org_comb_menu :
      (client : Client) → Config → Session client → Table → Box → Box × Table × Session client
  add_org_comb_menu client c s table_org box =
      let (code, s', t) = exec_query_table client c s (some units_query) table_org in
      let filled = add_units t t.size 0 box in
      if configured c then (if no_server code then box else filled, t, s') else (box, table_org, s)
