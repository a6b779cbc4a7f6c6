-- ===== src/Archive/Guards/Examples.antt =====
-- A run of `JudgeBeforeEncrypt`.
use sec_pro_gis.Base.{
  ℕ, ◌+◌, ◌<◌, ◌≢◌, negsuc, length, false, true, false, some, List, [], ◌∷◌, ◌≡◌, refl, ℤ, pos,
  wrap,
}
use sec_pro_gis.Word.{empty, read_in, read_bytes, allocate}
use sec_pro_gis.Table.{
  empty_table, append, row_at, cell_at, row_read_in, read_row, read_cell, empty_row,
}
use sec_pro_gis.Text.{cell_str, c_str, before_zero, ttoi, read_digits, sprintf, no_server, or_empty}
use sec_pro_gis.Query.{Config, Client, Session, exec_query_table, configured, no_port, append_rows}
use sec_pro_gis.Archive.Guards.{
  Form, judge_before_encrypt, judge_org, read_org, check_dates, find_org, search_org, is_empty,
  no_date, leb_ℤ,
}
use sec_pro_gis.Archive.Guards.Passed.{IsKnown, judge_before_encrypt-yes}

-- A server that knows one unit, and a form that is filled in.
abbrev pub one_unit : Client
one_unit = record {
  State = ℕ;
  init = λ s. (s, true);
  connect = λ s c. (s, true);
  query = λ s sql. (s, true);
  stored = λ s. true;
  to_ansi = λ str. str;
  rand = λ seed i. i + seed;
  fetched = λ s. (some (55 ∷ []) ∷ some (97 ∷ []) ∷ []) ∷ [];
}

abbrev pub settings : Config
settings = record {
  db_usr = 117 ∷ [];
  db_pwd = 112 ∷ [];
  db_ip = 49 ∷ [];
  db_port = pos 3306;
  db = 100 ∷ [];
}

abbrev pub session : Session one_unit
session = record { server = 0; handles = 0 }

abbrev pub form_of : List (List ℕ) → List (List ℕ) → ℤ → Form
form_of plain_paths cipher_paths org_id = record {
  plain_paths = plain_paths;
  cipher_paths = cipher_paths;
  org_name = 97 ∷ [];
  org_box = 97 ∷ [];
  org_id = org_id;
  m_date = pos 9;
  current_date = pos 8;
}

pub form_passes :
    (plain_path : List ℕ) (plain_paths : List (List ℕ)) (cipher_path : List ℕ)
    (cipher_paths : List (List ℕ)) (org_id : ℤ)
    → (judge_before_encrypt one_unit settings session
        (form_of (plain_path ∷ plain_paths) (cipher_path ∷ cipher_paths) org_id)).0
      ≡ some true
unfolding judge_before_encrypt judge_org read_org check_dates find_org search_org is_empty no_date
    leb_ℤ empty read_in read_bytes allocate empty_table append row_at cell_at row_read_in read_row
    read_cell empty_row cell_str c_str before_zero ttoi read_digits sprintf no_server wrap
    exec_query_table configured no_port append_rows or_empty
form_passes plain_path plain_paths cipher_path cipher_paths org_id = refl

pub form_judged :
    (plain_path : List ℕ) (plain_paths : List (List ℕ)) (cipher_path : List ℕ)
    (cipher_paths : List (List ℕ)) (org_id : ℤ)
    → (judge_before_encrypt one_unit settings session
        (form_of (plain_path ∷ plain_paths) (cipher_path ∷ cipher_paths) org_id)).1
      ≡ form_of (plain_path ∷ plain_paths) (cipher_path ∷ cipher_paths) (pos 7)
unfolding judge_before_encrypt judge_org read_org check_dates find_org search_org is_empty no_date
    leb_ℤ empty read_in read_bytes allocate empty_table append row_at cell_at row_read_in read_row
    read_cell empty_row cell_str c_str before_zero ttoi read_digits sprintf no_server wrap
    exec_query_table configured no_port append_rows or_empty
form_judged plain_path plain_paths cipher_path cipher_paths org_id = refl

abbrev form : Form
form = form_of ((97 ∷ []) ∷ []) ((98 ∷ []) ∷ []) (pos 0)

judge_before_encrypt-yes_example :
    (id : ℤ) × IsKnown one_unit settings session form.org_box id
    × ((judge_before_encrypt one_unit settings session form).1
        ≡ record form { org_name = form.org_box; org_id = id })
    × (0 < length form.plain_paths)
    × (0 < length form.org_box)
    × (form.m_date ≢ negsuc 0)
    × (leb_ℤ form.m_date form.current_date ≡ false)
    × (0 < length form.cipher_paths)
judge_before_encrypt-yes_example =
    judge_before_encrypt-yes one_unit settings session form
      (form_passes (97 ∷ []) [] (98 ∷ []) [] (pos 0))
