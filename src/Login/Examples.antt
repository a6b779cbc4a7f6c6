-- ===== src/Login/Examples.antt =====
-- A server with one administrator, and a toy digest.
use sec_pro_gis.Base.{ℕ, true, some, List, [], ◌∷◌, ◌≡◌, refl, pos, wrap}
use sec_pro_gis.Hex.{sprint_hex, hex_digit}
use sec_pro_gis.Word.{empty, read_in, read_bytes, allocate}
use sec_pro_gis.Table.{
  empty_table, append, row_at, cell_at, row_read_in, read_row, read_cell, empty_row,
}
use sec_pro_gis.Text.{cell_str, c_str, before_zero, same, ttoi, read_digits, sprintf, no_server}
use sec_pro_gis.Query.{Config, Client, Session, exec_query_table, configured, no_port, append_rows}
use sec_pro_gis.Login.{logged_in, check_admin, ask, judge, compare_cells, admit}
use sec_pro_gis.Query.{initial_config, set_conf, strcpy}
use sec_pro_gis.Paths.{get_conf_txt_path}
use sec_pro_gis.Login.Settings.{
  setting, ip_key, user_key, password_key, dbname_key, link_data_base, check_linked, log_in,
  settings_of,
}
use sec_pro_gis.Login.Settings.Whole.{IsValue, AdmitsWith, log_in-Admits}

abbrev pub five : List ℕ → List ℕ
five password = 5 ∷ []

-- The row "7", "a", "05".
abbrev pub one_admin : Client
one_admin = record {
  State = ℕ;
  init = λ s. (s, true);
  connect = λ s c. (s, true);
  query = λ s sql. (s, true);
  stored = λ s. true;
  to_ansi = λ str. str;
  rand = λ seed i. i;
  fetched = λ s. (some (55 ∷ []) ∷ some (97 ∷ []) ∷ some (48 ∷ 53 ∷ []) ∷ []) ∷ [];
}

abbrev settings : Config
settings = record {
  db_usr = 117 ∷ [];
  db_pwd = 112 ∷ [];
  db_ip = 49 ∷ [];
  db_port = pos 3306;
  db = 100 ∷ [];
}

abbrev pub session : Session one_admin
session = record { server = 0; handles = 0 }

let_in : (check_admin one_admin five settings session (97 ∷ []) (1 ∷ [])).0 ≡ logged_in (pos 7)
unfolding check_admin ask judge compare_cells admit sprint_hex hex_digit empty read_in read_bytes
    allocate empty_table append row_at cell_at row_read_in read_row read_cell empty_row cell_str
    c_str before_zero same ttoi read_digits sprintf no_server exec_query_table configured no_port
    append_rows wrap
let_in = refl

-- A settings file with the value "1" for each key, and what is left in the buffer.
abbrev pub one_value : List ℕ → List ℕ → List ℕ
one_value path key = 49 ∷ 0 ∷ 7 ∷ []

-- C:\a
abbrev pub exe : List ℕ
exe = 67 ∷ 58 ∷ 92 ∷ 97 ∷ []

pub linked_in :
    (log_in one_value one_admin five initial_config session exe (97 ∷ []) (1 ∷ [])).0
    ≡ logged_in (pos 7)
unfolding log_in check_linked link_data_base setting set_conf strcpy check_admin ask judge
    compare_cells admit sprint_hex hex_digit empty read_in read_bytes allocate empty_table append
    row_at cell_at row_read_in read_row read_cell empty_row cell_str c_str before_zero same ttoi
    read_digits sprintf no_server exec_query_table configured no_port append_rows wrap
    initial_config
linked_in = refl

log_in-Admits_example :
    let path = get_conf_txt_path exe in
    ((log_in one_value one_admin five initial_config session exe (97 ∷ []) (1 ∷ [])).2
      ≡ settings_of one_value path)
    × IsValue (setting one_value path ip_key)
    × IsValue (setting one_value path user_key)
    × IsValue (setting one_value path password_key)
    × IsValue (setting one_value path dbname_key)
    × AdmitsWith one_value one_admin five
        (settings_of one_value path)
        session
        (97 ∷ [])
        (1 ∷ [])
        (pos 7)
log_in-Admits_example =
    log_in-Admits one_value one_admin five initial_config session exe (97 ∷ []) (1 ∷ []) (pos 7)
      linked_in
