-- ===== src/View.antt =====
-- ViewDlg.cpp: the list of the sealed files. How the system writes a time as a date and as a clock is
-- a parameter.
pub mod Rows
mod Examples
use sec_pro_gis.Base.{
  ℕ, zero, suc, ◌+◌, Bool, Option, none, some, List, [], ◌∷◌, ◌++◌, if◌then◌else◌,
}
use sec_pro_gis.Base.{ℤ, pos}
use sec_pro_gis.Table.{Table, empty_table}
use sec_pro_gis.Text.{cell_str, or_empty, ttoi, sprintf, no_server}
use sec_pro_gis.Query.{Config, Client, Session, configured, exec_query_table}
use sec_pro_gis.Km.Restore.{print_int}

-- A line of the list, by its columns.
pub record Line : Type 0 where
  pub manager : List ℕ
  pub org_name : List ℕ
  pub file_name : List ℕ
  pub deadline : List ℕ
  pub plain_md5 : List ℕ
  pub enc_time : List ℕ
  pub remark : List ℕ

-- What `AddEncList` shows.
pub data Shown : Type 0 where
  no_settings : Shown
  no_connection : Shown
  listed : List Line → Shown
  -- `sprintf_s` ends the program.
  stopped : Shown

-- select ... where service.admin = '...' order by service.enc_tm desc;
abbrev pub view_query : List ℕ → List ℕ
view_query adm_id =
    (115 ∷ 101 ∷ 108 ∷ 101 ∷ 99 ∷ 116 ∷ 32 ∷ 115 ∷ 101 ∷ 114 ∷ 118 ∷ 105 ∷ 99 ∷ 101 ∷ 46 ∷ 109 ∷ 100
      ∷ 53 ∷ 95 ∷ 112 ∷ 44 ∷ 32 ∷ 115 ∷ 101 ∷ 114 ∷ 118 ∷ 105 ∷ 99 ∷ 101 ∷ 46 ∷ 101 ∷ 120 ∷ 112
      ∷ 105 ∷ 114 ∷ 101 ∷ 44 ∷ 32 ∷ 115 ∷ 101 ∷ 114 ∷ 118 ∷ 105 ∷ 99 ∷ 101 ∷ 46 ∷ 101 ∷ 110 ∷ 99
      ∷ 95 ∷ 116 ∷ 109 ∷ 44 ∷ 32 ∷ 115 ∷ 101 ∷ 114 ∷ 118 ∷ 105 ∷ 99 ∷ 101 ∷ 46 ∷ 102 ∷ 110 ∷ 97
      ∷ 109 ∷ 101 ∷ 44 ∷ 32 ∷ 115 ∷ 101 ∷ 114 ∷ 118 ∷ 105 ∷ 99 ∷ 101 ∷ 46 ∷ 114 ∷ 109 ∷ 114 ∷ 107
      ∷ 44 ∷ 32 ∷ 111 ∷ 114 ∷ 103 ∷ 46 ∷ 110 ∷ 97 ∷ 109 ∷ 101 ∷ 32 ∷ 102 ∷ 114 ∷ 111 ∷ 109 ∷ 32
      ∷ 115 ∷ 101 ∷ 114 ∷ 118 ∷ 105 ∷ 99 ∷ 101 ∷ 32 ∷ 105 ∷ 110 ∷ 110 ∷ 101 ∷ 114 ∷ 32 ∷ 106 ∷ 111
      ∷ 105 ∷ 110 ∷ 32 ∷ 111 ∷ 114 ∷ 103 ∷ 32 ∷ 111 ∷ 110 ∷ 32 ∷ 115 ∷ 101 ∷ 114 ∷ 118 ∷ 105 ∷ 99
      ∷ 101 ∷ 46 ∷ 111 ∷ 114 ∷ 103 ∷ 61 ∷ 111 ∷ 114 ∷ 103 ∷ 46 ∷ 105 ∷ 100 ∷ 32 ∷ 119 ∷ 104 ∷ 101
      ∷ 114 ∷ 101 ∷ 32 ∷ 115 ∷ 101 ∷ 114 ∷ 118 ∷ 105 ∷ 99 ∷ 101 ∷ 46 ∷ 97 ∷ 100 ∷ 109 ∷ 105 ∷ 110
      ∷ 32 ∷ 61 ∷ 32 ∷ 39 ∷ [])
    ++ (adm_id
        ++ (39 ∷ 32 ∷ 111 ∷ 114 ∷ 100 ∷ 101 ∷ 114 ∷ 32 ∷ 98 ∷ 121 ∷ 32 ∷ 115 ∷ 101 ∷ 114 ∷ 118 ∷ 105
            ∷ 99 ∷ 101 ∷ 46 ∷ 101 ∷ 110 ∷ 99 ∷ 95 ∷ 116 ∷ 109 ∷ 32 ∷ 100 ∷ 101 ∷ 115 ∷ 99 ∷ 59
            ∷ []))

-- `table[i][j].get_cont()` in a `CString`, which a null pointer leaves empty. The answer has the six
-- columns that the statement names.
pub column : Table → ℕ → ℕ → List ℕ
column t i j = or_empty (cell_str t (pos i) (pos j))

module _ (second_to_date second_to_clock : ℤ → List ℕ) where
  -- The body of the loop: the line for a row.
  pub line_at : List ℕ → Table → ℕ → Line
  line_at manager t i = record {
    manager = manager;
    org_name = column t i 5;
    file_name = column t i 3;
    deadline = second_to_date (ttoi (column t i 1));
    plain_md5 = column t i 0;
    enc_time = second_to_clock (ttoi (column t i 2));
    remark = column t i 4;
  }

  -- The loop over the rows: the items `i` and on of the list.
  pub add_lines : List ℕ → Table → ℕ → ℕ → List Line
  add_lines manager t zero i = []
  add_lines manager t (suc left) i = line_at manager t i ∷ add_lines manager t left (i + 1)

  module _ (client : Client) where
    -- The query, and what is made of its answer.
    pub list_rows : Config → Session client → List ℕ → Option (List ℕ) → Shown × Session client
    list_rows c s manager none = (stopped, s)
    list_rows c s manager (some sql) =
        let (code, s', t) = exec_query_table client c s (some sql) empty_table in
        let rows = listed (add_lines manager t t.size 0) in
        (if no_server code then no_connection else rows, s')

    -- `AddEncList`, into an empty list, for the name and the number of the administrator.
    pub add_enc_list : Config → Session client → List ℕ → ℤ → Shown × Session client
    add_enc_list c s manager admin_id =
        let asked = list_rows c s manager (sprintf 400 (view_query (print_int admin_id))) in
        if configured c then asked else (no_settings, s)
