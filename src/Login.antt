-- ===== src/Login.antt =====
-- LoginDlg.cpp: the check of an administrator's name and password. The MySQL client and MD5 are
-- parameters; what is typed comes as bytes.
pub mod Sound
pub mod Settings
pub mod Examples
use sec_pro_gis.Base.{
  ℕ, Bool, false, Option, none, some, List, [], ◌∷◌, ◌++◌, length, ltb, ◌==◌, if◌then◌else◌,
}
use sec_pro_gis.Base.{ℤ, pos, negsuc}
use sec_pro_gis.Hex.{sprint_hex}
use sec_pro_gis.Table.{Table, empty_table}
use sec_pro_gis.Text.{cell_str, same, ttoi, sprintf, no_server}
use sec_pro_gis.Query.{Config, Client, Session, configured, exec_query_table}

-- What `CheckAdmin` shows or does.
pub data Outcome : Type 0 where
  no_settings : Outcome
  no_connection : Outcome
  refused : Outcome
  -- The window closes, with this `admid`.
  logged_in : ℤ → Outcome
  -- `sprintf_s` ends the program, or a null pointer is read.
  stopped : Outcome

-- select * from admin where acc = '...';
abbrev pub admin_query : List ℕ → List ℕ
admin_query name =
    (115 ∷ 101 ∷ 108 ∷ 101 ∷ 99 ∷ 116 ∷ 32 ∷ 42 ∷ 32 ∷ 102 ∷ 114 ∷ 111 ∷ 109 ∷ 32 ∷ 97 ∷ 100 ∷ 109
      ∷ 105 ∷ 110 ∷ 32 ∷ 119 ∷ 104 ∷ 101 ∷ 114 ∷ 101 ∷ 32 ∷ 97 ∷ 99 ∷ 99 ∷ 32 ∷ 61 ∷ 32 ∷ 39 ∷ [])
    ++ (name ++ (39 ∷ 59 ∷ []))

-- `admid`, from the first cell.
pub admit : Option (List ℕ) → Outcome
admit none = stopped
admit (some id) = logged_in (ttoi id)

-- The two comparisons, on the cells of the first row.
pub compare_cells : List ℕ → List ℕ → Option (List ℕ) → Option (List ℕ) → Outcome → Outcome
compare_cells name digest none pas found = stopped
compare_cells name digest (some acc) none found = if same acc name then stopped else refused
compare_cells name digest (some acc) (some pas) found =
    if same acc name then if same pas digest then found else refused else refused

-- The branches after the query.
pub judge : List ℕ → List ℕ → Table → Outcome
judge name digest t =
    let found =
      compare_cells name digest (cell_str t (pos 0) (pos 1)) (cell_str t (pos 0) (pos 2))
        (admit (cell_str t (pos 0) (pos 0))) in
    if t.size == 0 then refused else found

module _ (client : Client) (md5 : List ℕ → List ℕ) where
  -- The query, and what is made of its answer.
  pub ask : Config → Session client → List ℕ → List ℕ → Option (List ℕ) → Outcome × Session client
  ask c s name digest none = (stopped, s)
  ask c s name digest (some sql) =
      let (code, s', t) = exec_query_table client c s (some sql) empty_table in
      (if no_server code then no_connection else judge name digest t, s')

  -- `CheckAdmin`, after the settings are read.
  pub check_admin : Config → Session client → List ℕ → List ℕ → Outcome × Session client
  check_admin c s name password =
      let asked = ask c s name (sprint_hex (md5 password)) (sprintf 100 (admin_query name)) in
      if configured c then asked else (no_settings, s)
