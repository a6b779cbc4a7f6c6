-- ===== src/Login/Settings/Whole.antt =====
-- Who is let in by `CheckAdmin`, from the settings file on.
use sec_pro_gis.Base.{ℕ, ◌<◌, true, Option, none, some, List, length, ℤ, pos, >>=-some, some_inj}
use sec_pro_gis.Base.{◌≡◌, refl, sym, ap, ◌∙◌, subst}
use sec_pro_gis.Hex.{sprint_hex}
use sec_pro_gis.Table.{empty_table}
use sec_pro_gis.Paths.{get_conf_txt_path}
use sec_pro_gis.Query.{Config, Client, Session, set_conf, configured, exec_query_table}
use sec_pro_gis.Query.Settings.{Fits, set_conf-some, configured-filled}
use sec_pro_gis.Login.{logged_in, admin_query}
use sec_pro_gis.Login.Settings.{
  setting, ip_key, user_key, password_key, dbname_key, link_data_base, check_linked, log_in,
  settings_of,
}
use sec_pro_gis.Login.Sound.{Admits, check_admin-Admits, stopped_ne_logged_in}

-- A value that `LinkDataBase` can take and `configured` accepts.
abbrev pub IsValue : List ℕ → Type 0
IsValue s = (0 < length s) × Fits s

module _ (profile : List ℕ → List ℕ → List ℕ) (client : Client) (md5 : List ℕ → List ℕ) where
  -- What stands behind a login with these settings.
  abbrev pub AdmitsWith : Config → Session client → List ℕ → List ℕ → ℤ → Type 0
  AdmitsWith c s name password id =
      Admits name (sprint_hex (md5 password)) id
        (exec_query_table client c s (some (admin_query name)) empty_table).2

  check_linked-Admits :
      (c : Config) (s : Session client) (name password : List ℕ) (id : ℤ) (o : Option Config)
      → (check_linked profile client md5 c s name password o).0 ≡ logged_in id
      → (c' : Config) × (o ≡ some c')
        × ((check_linked profile client md5 c s name password o).2 ≡ c')
        × (configured c' ≡ true)
        × AdmitsWith c' s name password id
  unfolding check_linked
  check_linked-Admits c s name password id none h = absurd (stopped_ne_logged_in id h)
  check_linked-Admits c s name password id (some c') h =
      let passed = check_admin-Admits client md5 c' s name password id h in
      (c', refl, refl, passed.0, passed.1)

  link_data_base-settings_of :
      (c c' : Config) (path : List ℕ)
      → link_data_base profile c path ≡ some c'
      → (c' ≡ settings_of profile path)
        × Fits (setting profile path user_key)
        × Fits (setting profile path password_key)
        × Fits (setting profile path ip_key)
        × Fits (setting profile path dbname_key)
  unfolding link_data_base settings_of
  link_data_base-settings_of c c' path h =
      let at : List ℕ → List ℕ = setting profile path in
      let ran =
        >>=-some
          (set_conf c (some (at ip_key)) (pos 3306) (some (at user_key)) (some (at password_key))
            (some (at dbname_key)))
          (λ r. some r.1) h in
      let left =
        set_conf-some c (at ip_key) (at user_key) (at password_key) (at dbname_key) (pos 3306) ran.0
          ran.1 in
      (sym (some_inj ran.2) ∙ left.0, left.1, left.2, left.3, left.4)

  -- `CheckAdmin` of a program lets somebody in only if the file conf.txt beside the program has values
  -- of 1 to 19 bytes for the four keys, and the server that they name answers with a first row that has
  -- exactly the name and, in hexadecimal, the MD5 digest of the password; the number is read from that row,
  -- and the settings that it leaves are those of the file, with port 3306.
  pub log_in-Admits :
      (c : Config) (s : Session client) (exe_path name password : List ℕ) (id : ℤ)
      → (log_in profile client md5 c s exe_path name password).0 ≡ logged_in id
      → let path = get_conf_txt_path exe_path in
        ((log_in profile client md5 c s exe_path name password).2 ≡ settings_of profile path)
        × IsValue (setting profile path ip_key)
        × IsValue (setting profile path user_key)
        × IsValue (setting profile path password_key)
        × IsValue (setting profile path dbname_key)
        × AdmitsWith (settings_of profile path) s name password id
  unfolding log_in settings_of
  log_in-Admits c s exe_path name password id h =
      let path = get_conf_txt_path exe_path in
      let let_in = check_linked-Admits c s name password id (link_data_base profile c path) h in
      let read = link_data_base-settings_of c let_in.0 path let_in.1 in
      let full =
        configured-filled (settings_of profile path) (ap configured (sym read.0) ∙ let_in.3) in
      (
        let_in.2 ∙ read.0,
        (full.2, read.3),
        (full.0, read.1),
        (full.1, read.2),
        (full.3, read.4),
        subst (λ (k : Config). AdmitsWith k s name password id) read.0 let_in.4,
      )
