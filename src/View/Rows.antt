-- ===== src/View/Rows.antt =====
-- The lines of the list are the rows of the answer, in the order in which the server sent them.
use sec_pro_gis.Base.{
  ℕ, zero, suc, ◌+◌, ◌≤◌, ◌<◌, true, Option, none, some, List, [], ◌∷◌, map, length, length-append,
  get_or, drop, drop_all, drop-get_or, get_or-All, All, ℤ, pos,
}
use sec_pro_gis.Base.{◌≡◌, refl, sym, ap, ap₂, ◌∙◌, arith}
use sec_pro_gis.Table.{Table, empty_table}
use sec_pro_gis.Table.Order.{append_all, text, size-append_all}
use sec_pro_gis.Text.{ttoi, no_server}
use sec_pro_gis.Text.Cells.{cell_str-append_all}
use sec_pro_gis.Query.{Config, Client, Session, configured, exec_query_table}
use sec_pro_gis.Query.Handles.{exec_query_table-append_all}
use sec_pro_gis.Km.Restore.{print_int}
use sec_pro_gis.Km.Store.Bounds.{IsShort, length-print_int}
use sec_pro_gis.Km.Store.Accepted.{sprintf-some}
use sec_pro_gis.View.{Line, listed, view_query, column, line_at, add_lines, list_rows, add_enc_list}

-- A row of the answer: it has the six columns, and its strings end at their first zero.
abbrev pub IsRow : List (Option (List ℕ)) → Type 0
IsRow row = (6 ≤ length row) × All (λ cell. All (λ c. 0 < c) (text cell)) row

All-get_or :
    (row : List (Option (List ℕ))) (j : ℕ)
    → All (λ cell. All (λ c. 0 < c) (text cell)) row
    → All (λ c. 0 < c) (text (get_or row j none))
unfolding text
All-get_or [] j h = h
All-get_or (x ∷ row) zero h = h.0
All-get_or (x ∷ row) (suc j) h = All-get_or row j h.1

module _ (second_to_date second_to_clock : ℤ → List ℕ) (manager : List ℕ) where
  -- The line for a row.
  pub line_of : List (Option (List ℕ)) → Line
  line_of row = record {
    manager = manager;
    org_name = text (get_or row 5 none);
    file_name = text (get_or row 3 none);
    deadline = second_to_date (ttoi (text (get_or row 1 none)));
    plain_md5 = text (get_or row 0 none);
    enc_time = second_to_clock (ttoi (text (get_or row 2 none)));
    remark = text (get_or row 4 none);
  }

  module _ (rows : List (List (Option (List ℕ)))) (whole : All IsRow rows) where
    get_or-IsRow : (i : ℕ) → i < length rows → IsRow (get_or rows i [])
    get_or-IsRow i h = get_or-All IsRow rows i [] whole h

    column-text :
        (i j : ℕ)
        → i < length rows
        → j < 6
        → column (append_all empty_table rows) i j ≡ text (get_or (get_or rows i []) j none)
    unfolding column
    column-text i j hi hj =
        let row = get_or-IsRow i hi in
        cell_str-append_all rows i j hi (omega (arith, row.0))
          (All-get_or (get_or rows i []) j row.1)

    line_at-line_of :
        (i : ℕ)
        → i < length rows
        → line_at second_to_date second_to_clock manager (append_all empty_table rows) i
          ≡ line_of (get_or rows i [])
    unfolding line_at line_of
    line_at-line_of i h = rw (column-text i 0 h (omega arith)) (
        rw (column-text i 1 h (omega arith)) (
          rw (column-text i 2 h (omega arith)) (
            rw (column-text i 3 h (omega arith))
              (rw (column-text i 4 h (omega arith)) (rw (column-text i 5 h (omega arith)) refl)))))

    add_lines-line_of :
        (left i : ℕ)
        → i + left ≡ length rows
        → add_lines second_to_date second_to_clock manager (append_all empty_table rows) left i
          ≡ map line_of (drop i rows)
    unfolding add_lines
    add_lines-line_of zero i h = sym (ap (map line_of) (drop_all i rows (omega arith)))
    add_lines-line_of (suc left) i h =
        ap₂ ◌∷◌ (line_at-line_of i (omega arith)) (add_lines-line_of left (i + 1) (omega arith))
        ∙ ap (λ (k : ℕ). line_of (get_or rows i []) ∷ map line_of (drop k rows)) {x = i + 1}
            {y = suc i} (omega arith)
        ∙ sym (ap (map line_of) (drop-get_or rows i [] (omega arith)))

    all_lines :
        let t = append_all empty_table rows in
        add_lines second_to_date second_to_clock manager t t.size 0 ≡ map line_of rows
    all_lines =
        let size = size-append_all rows in
        add_lines-line_of (append_all empty_table rows).size 0 (omega (arith, size))

length-view_query : (id : List ℕ) → length (view_query id) ≡ 196 + length id
length-view_query id = simp length-append (omega arith)

module _ (second_to_date second_to_clock : ℤ → List ℕ) (client : Client) where
  -- When the settings are complete, the number of the administrator has at most ten digits, the query
  -- returns 0, and the rows of the answer have six columns of strings, `AddEncList` shows these rows, each in
  -- its columns, in the order in which the server sent them.
  pub add_enc_list-line_of :
      (c : Config) (s : Session client) (manager : List ℕ) (admin_id : ℤ)
      → configured c ≡ true
      → IsShort admin_id
      → let asked =
          exec_query_table client c s (some (view_query (print_int admin_id))) empty_table in
        asked.0 ≡ pos 0
        → let rows = client.fetched asked.1.server in
          All IsRow rows
          → (add_enc_list second_to_date second_to_clock client c s manager admin_id).0
            ≡ listed (map (line_of second_to_date second_to_clock manager) rows)
  unfolding add_enc_list list_rows no_server
  add_enc_list-line_of c s manager admin_id ready short ok whole =
      let sql = view_query (print_int admin_id) in
      let asked = exec_query_table client c s (some sql) empty_table in
      let rows = client.fetched asked.1.server in
      rw ready (
        rw
          (sprintf-some 400 sql (
            omega (arith, length-view_query (print_int admin_id), length-print_int admin_id short)))
          (rw ok (
            ap listed (
              ap (λ (t : Table). add_lines second_to_date second_to_clock manager t t.size 0)
                (exec_query_table-append_all client c s (some sql) empty_table ok)
              ∙ all_lines second_to_date second_to_clock manager rows whole))))
