-- ===== src/Archive/Guards.antt =====
-- The guards of ArchiveDlg.cpp: `JudgeBeforeEncrypt`, the choice of the unit, and of the date.
pub mod Passed
pub mod Examples
use sec_pro_gis.Base.{
  ℕ, zero, suc, Bool, true, false, Option, none, some, List, [], ◌∷◌, ◌++◌, leb, ltb, ◌==◌,
  if◌then◌else◌,
}
use sec_pro_gis.Base.{ℤ, pos, negsuc}
use sec_pro_gis.Table.{Table, empty_table}
use sec_pro_gis.Text.{cell_str, ttoi, sprintf, no_server, or_empty}
use sec_pro_gis.Query.{Config, Client, Session, exec_query_table}

-- The members of `CArchiveDlg` that the guards read and set.
pub record Form : Type 0 where
  pub plain_paths : List (List ℕ)
  pub cipher_paths : List (List ℕ)
  -- `OrgName`, and the text in `ChoseOrg_box`.
  pub org_name : List ℕ
  pub org_box : List ℕ
  pub org_id : ℤ
  pub m_date : ℤ
  pub current_date : ℤ

-- `a <= b`
unfoldable pub leb_ℤ : ℤ → ℤ → Bool
leb_ℤ (pos a) (pos b) = leb a b
leb_ℤ (pos a) (negsuc b) = false
leb_ℤ (negsuc a) (pos b) = true
leb_ℤ (negsuc a) (negsuc b) = leb b a

-- `m_date_64t == -1`
unfoldable pub no_date : ℤ → Bool
no_date (pos n) = false
no_date (negsuc n) = n == 0

-- `IsEmpty`
unfoldable pub is_empty {ℓ} : {A : Type ℓ} → List A → Bool
is_empty [] = true
is_empty (x ∷ xs) = false

-- `OnDtnDatetimechangeDatetimepicker1`: the date that was picked, and the time.
unfoldable pub change_date : Form → ℤ → ℤ → Form
change_date form picked now = record form { m_date = picked; current_date = now }

-- select * from org where name = '...';
abbrev pub org_query : List ℕ → List ℕ
org_query name =
    (115 ∷ 101 ∷ 108 ∷ 101 ∷ 99 ∷ 116 ∷ 32 ∷ 42 ∷ 32 ∷ 102 ∷ 114 ∷ 111 ∷ 109 ∷ 32 ∷ 111 ∷ 114 ∷ 103
      ∷ 32 ∷ 119 ∷ 104 ∷ 101 ∷ 114 ∷ 101 ∷ 32 ∷ 110 ∷ 97 ∷ 109 ∷ 101 ∷ 32 ∷ 61 ∷ 32 ∷ 39 ∷ [])
    ++ (name ++ (39 ∷ 59 ∷ []))

-- What the search for the unit comes to.
pub data Lookup : Type 0 where
  unreachable : Lookup
  unknown : Lookup
  known : ℤ → Lookup
  -- `sprintf_s` ends the program.
  stopped : Lookup

-- The branches after the query. A null pointer gives an empty `CString`.
pub read_org : ℤ → Table → Lookup
read_org code t =
    if no_server code
    then unreachable
    else if ltb 0 t.size
    then known (ttoi (or_empty (cell_str t (pos 0) (pos 0))))
    else unknown

-- The conditions after the search.
pub check_dates : Form → Bool
check_dates form =
    if no_date form.m_date
    then false
    else if leb_ℤ form.m_date form.current_date
    then false
    else if is_empty form.cipher_paths
    then false
    else true

-- The answer, and the form with the unit's number.
unfoldable pub judge_org : Form → Lookup → Option Bool × Form
judge_org form unreachable = (some false, form)
judge_org form unknown = (some false, form)
judge_org form (known id) =
    let form' = record form { org_id = id } in (some (check_dates form'), form')
judge_org form stopped = (none, form)

module _ (client : Client) where
  pub search_org : Config → Session client → Option (List ℕ) → Lookup × Session client
  search_org c s none = (stopped, s)
  search_org c s (some sql) =
      let (code, s', t) = exec_query_table client c s (some sql) empty_table in
      (read_org code t, s')

  pub find_org : Config → Session client → List ℕ → Lookup × Session client
  find_org c s name = search_org c s (sprintf 100 (org_query (client.to_ansi name)))

  -- `OnCbnSelchangeCombo1`: the unit that was chosen.
  unfoldable pub choose_org : Config → Session client → Form → List ℕ → Form × Session client
  choose_org c s form name =
      let (found, s') = find_org c s name in
      ((judge_org (record form { org_name = name; org_box = name }) found).1, s')

  -- `JudgeBeforeEncrypt`: `none` when the program ends.
  unfoldable pub judge_before_encrypt :
      Config → Session client → Form → Option Bool × Form × Session client
  judge_before_encrypt c s form =
      let read = record form { org_name = form.org_box } in
      let (found, s') = find_org c s form.org_box in
      let (answer, form') = judge_org read found in
      if is_empty form.plain_paths
      then (some false, form, s)
      else if is_empty form.org_box
      then (some false, read, s)
      else (answer, form', s')
