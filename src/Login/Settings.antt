-- ===== src/Login/Settings.antt =====
-- LoginDlg.cpp: `LinkDataBase`, which reads the settings file, and `CheckAdmin` from it on. `profile`
-- stands for `GetPrivateProfileString` and the conversion of its buffer: the bytes for a key of the
-- section DBConfigure of a file.
pub mod Whole
use sec_pro_gis.Base.{
  ◌>>=◌, ℕ, zero, suc, ◌<◌, Bool, Option, none, some, List, [], ◌∷◌, length, ℤ, pos, some_inj,
  some_ne_none,
}
use sec_pro_gis.Base.{◌≡◌, refl, sym, ap, ◌∙◌, subst, arith}
use sec_pro_gis.Hex.{sprint_hex}
use sec_pro_gis.Table.{empty_table}
use sec_pro_gis.Text.{before_zero}
use sec_pro_gis.Paths.{get_conf_txt_path}
use sec_pro_gis.Query.{Config, Client, Session, set_conf, configured, exec_query_table}
use sec_pro_gis.Query.Settings.{Fits, set_conf-some, configured-filled}
use sec_pro_gis.Login.{Outcome, logged_in, stopped, check_admin, admin_query}

-- ip, user, password, dbname
abbrev pub ip_key : List ℕ
ip_key = 105 ∷ 112 ∷ []

abbrev pub user_key : List ℕ
user_key = 117 ∷ 115 ∷ 101 ∷ 114 ∷ []

abbrev pub password_key : List ℕ
password_key = 112 ∷ 97 ∷ 115 ∷ 115 ∷ 119 ∷ 111 ∷ 114 ∷ 100 ∷ []

abbrev pub dbname_key : List ℕ
dbname_key = 100 ∷ 98 ∷ 110 ∷ 97 ∷ 109 ∷ 101 ∷ []

module _ (profile : List ℕ → List ℕ → List ℕ) where
  -- A setting as a C string. The `CString` keeps the length of its buffer, so that what is converted
  -- goes on behind the zero that ends the value.
  unfoldable pub setting : List ℕ → List ℕ → List ℕ
  setting conf_path key = before_zero (profile conf_path key)

  -- `LinkDataBase`: the static members of `MY_QUERY`; `none` when `strcpy_s` ends the program.
  unfoldable pub link_data_base : Config → List ℕ → Option Config
  link_data_base c conf_path =
      set_conf c (some (setting conf_path ip_key)) (pos 3306) (some (setting conf_path user_key))
        (some (setting conf_path password_key)) (some (setting conf_path dbname_key))
      >>= λ r. some r.1

  -- The settings that the file holds.
  pub settings_of : List ℕ → Config
  settings_of conf_path = record {
    db_usr = setting conf_path user_key;
    db_pwd = setting conf_path password_key;
    db_ip = setting conf_path ip_key;
    db_port = pos 3306;
    db = setting conf_path dbname_key;
  }

  module _ (client : Client) (md5 : List ℕ → List ℕ) where
    -- `CheckAdmin` after `LinkDataBase`.
    unfoldable pub check_linked :
        Config
        → Session client
        → List ℕ
        → List ℕ
        → Option Config
        → Outcome × Session client × Config
    check_linked c s name password none = (stopped, s, c)
    check_linked c s name password (some c') =
        let (out, s') = check_admin client md5 c' s name password in (out, s', c')

    -- `CheckAdmin` of the program at this path.
    unfoldable pub log_in :
        Config → Session client → List ℕ → List ℕ → List ℕ → Outcome × Session client × Config
    log_in c s exe_path name password =
        check_linked c s name password (link_data_base c (get_conf_txt_path exe_path))
