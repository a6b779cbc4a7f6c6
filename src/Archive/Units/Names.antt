-- ===== src/Archive/Units/Names.antt =====
-- The combo box has the names that the server sent.
use sec_pro_gis.Base.{
  ℕ, zero, suc, ◌+◌, ◌≤◌, ◌<◌, true, Option, none, some, List, [], ◌∷◌, ◌++◌, map, append_assoc,
  append-nil, length, get_or, drop, drop_all, drop-get_or, get_or-All, All, pos,
}
use sec_pro_gis.Base.{◌≡◌, refl, sym, ap, ap₂, ◌∙◌, arith}
use sec_pro_gis.Table.{Table, empty_table}
use sec_pro_gis.Table.Order.{append_all, text, size-append_all}
use sec_pro_gis.Text.{no_server, or_empty, cell_str}
use sec_pro_gis.Text.Cells.{cell_str-append_all}
use sec_pro_gis.Query.{Config, Client, Session, configured, exec_query_table}
use sec_pro_gis.Query.Handles.{exec_query_table-append_all}
use sec_pro_gis.Combo.Box.{Box, fresh_box, add_string, Reach, here, next, added}
use sec_pro_gis.Combo.Box.Entries.{count, IsSame, Reach-IsSame}
use sec_pro_gis.Archive.Units.{units_query, add_units, add_org_comb_menu}

-- A row of `org` has a name in its second column.
abbrev pub IsUnit : List (Option (List ℕ)) → Type 0
IsUnit row = (2 ≤ length row) × All (λ c. 0 < c) (text (get_or row 1 none))

abbrev pub name_of : List (Option (List ℕ)) → List ℕ
name_of row = text (get_or row 1 none)

module _ (find : List ℕ → List ℕ → Option ℕ) (place : List (List ℕ) → List ℕ → ℕ) where
  then-Reach : {b c d : Box} → Reach find place b c → Reach find place c d → Reach find place b d
  then-Reach r here = r
  then-Reach r (next q step) = next (then-Reach r q) step

  add_units-Reach :
      (t : Table) (left i : ℕ) (box : Box)
      → Reach find place box (add_units find place t left i box)
  unfolding add_units
  add_units-Reach t zero i box = here
  add_units-Reach t (suc left) i box =
      let name = or_empty (cell_str t (pos i) (pos 1)) in
      then-Reach (next here (added box name))
        (add_units-Reach t left (i + 1) (add_string find place box name))

  add_units-entries :
      (rows : List (List (Option (List ℕ))))
      → All IsUnit rows
      → (left i : ℕ) (box : Box) → i + left ≡ length rows
      → (add_units find place (append_all empty_table rows) left i box).entries
        ≡ box.entries ++ map name_of (drop i rows)
  unfolding add_units add_string
  add_units-entries rows whole zero i box h =
      sym (append-nil box.entries)
      ∙ ap (λ l. box.entries ++ map name_of l) (sym (drop_all i rows (omega arith)))
  add_units-entries rows whole (suc left) i box h =
      let row = get_or rows i [] in
      let good = get_or-All IsUnit rows i [] whole (omega arith) in
      let name = or_empty (cell_str (append_all empty_table rows) (pos i) (pos 1)) in
      let is_name : name ≡ name_of row =
        cell_str-append_all rows i 1 (omega arith) (omega (arith, good.0)) good.1 in
      add_units-entries rows whole left (i + 1) (add_string find place box name) (omega arith)
      ∙ append_assoc box.entries (name ∷ []) (map name_of (drop (i + 1) rows))
      ∙ ap₂ (λ (n : List ℕ) (l : List (List (Option (List ℕ)))). box.entries ++ (n ∷ map name_of l))
          is_name (ap (λ (k : ℕ). drop k rows) {x = i + 1} {y = suc i} (omega arith))
      ∙ ap (λ l. box.entries ++ map name_of l) (sym (drop-get_or rows i [] (omega arith)))

  -- When the settings are complete, the query returns 0, and each row of the answer has a string in its second
  -- column, `AddOrgCombMenu` leaves in a fresh box the names of the units, in the order in which the server
  -- sent them, and the list box under it shows the same names.
  pub add_org_comb_menu-name_of :
      (client : Client) (c : Config) (s : Session client)
      → configured c ≡ true
      → let asked = exec_query_table client c s (some units_query) empty_table in
        asked.0 ≡ pos 0
        → let rows = client.fetched asked.1.server in
          All IsUnit rows
          → let box' = (add_org_comb_menu find place client c s empty_table fresh_box).0 in
            (box'.entries ≡ map name_of rows) × IsSame box'
  unfolding add_org_comb_menu no_server fresh_box count
  add_org_comb_menu-name_of client c s ready ok whole =
      let asked = exec_query_table client c s (some units_query) empty_table in
      let rows = client.fetched asked.1.server in
      let is_rows = exec_query_table-append_all client c s (some units_query) empty_table ok in
      let t = append_all empty_table rows in
      rw ready (
        rw ok (
          rw is_rows (
            add_units-entries rows whole t.size 0 fresh_box (omega (arith, size-append_all rows)),
            Reach-IsSame find place {b = fresh_box} {c = add_units find place t t.size 0 fresh_box}
                (λ p. refl) (add_units-Reach t t.size 0 fresh_box),
          )))
