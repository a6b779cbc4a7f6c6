-- ===== src/Trial/Start/Admitted.antt =====
-- Who gets to the main window.
use sec_pro_gis.Base.{
  ℕ, suc, ◌+◌, ◌≤◌, Bool, true, false, some, List, [], ◌∷◌, get_elem?, if◌then◌else◌, Bool-cases, ℤ,
  pos, ◌⊎◌,
}
use sec_pro_gis.Base.{◌≡◌, refl, sym, ap, ◌∙◌, arith, inl, inr}
use sec_pro_gis.Paths.{get_conf_txt_path}
use sec_pro_gis.Query.{Config, Client, Session}
use sec_pro_gis.Login.{Outcome, no_settings, no_connection, refused, logged_in, stopped}
use sec_pro_gis.Login.Settings.{log_in, settings_of}
use sec_pro_gis.Login.Settings.Whole.{AdmitsWith, log_in-Admits}
use sec_pro_gis.Trial.{trial, begins, endtime, trial-begins}
use sec_pro_gis.Trial.Start.{
  Attempt, Started, not_started, main_window, crashed, after_attempt, log_in_loop, init_instance,
}

module _ (profile : List ℕ → List ℕ → List ℕ) (client : Client) (md5 : List ℕ → List ℕ) where
  -- The attempt that a main window comes from.
  abbrev pub IsAdmitted : List ℕ → List Attempt → ℤ → List ℕ → Type 0
  IsAdmitted exe_path attempts id name =
      (i : ℕ) × (a : Attempt) × (s : Session client) × (get_elem? attempts i ≡ some a)
      × (a.name ≡ name)
      × AdmitsWith profile client md5 (settings_of profile (get_conf_txt_path exe_path)) s a.name
          a.password id

  admin_of : Started profile client md5 → ℤ × List ℕ
  admin_of not_started = (pos 0, [])
  admin_of (main_window id name c s) = (id, name)
  admin_of crashed = (pos 0, [])

  opens : Started profile client md5 → Bool
  opens not_started = false
  opens (main_window id name c s) = true
  opens crashed = false

  -- A main window comes from this attempt or from a later one.
  after_attempt-main_window :
      (tried name : List ℕ) (c c' : Config) (s s' : Session client)
      (again : Started profile client md5) (out : Outcome) (id : ℤ)
      → after_attempt profile client md5 tried c s again out ≡ main_window id name c' s'
      → ((out ≡ logged_in id) × (tried ≡ name)) ⊎ (again ≡ main_window id name c' s')
  unfolding after_attempt opens admin_of
  after_attempt-main_window tried name c c' s s' again no_settings id h = inr h
  after_attempt-main_window tried name c c' s s' again no_connection id h = inr h
  after_attempt-main_window tried name c c' s s' again refused id h = inr h
  after_attempt-main_window tried name c c' s s' again (logged_in out) id h =
      inl (ap (λ r. logged_in (admin_of r).0) h, ap (λ r. (admin_of r).1) h)
  after_attempt-main_window tried name c c' s s' again stopped id h =
      absurd (ground (arith, ap opens h))

  log_in_loop-IsAdmitted :
      (c c' : Config) (s s' : Session client) (exe_path name : List ℕ) (id : ℤ)
      (attempts : List Attempt)
      → log_in_loop profile client md5 c s exe_path attempts ≡ main_window id name c' s'
      → IsAdmitted exe_path attempts id name
  unfolding log_in_loop opens
  log_in_loop-IsAdmitted c c' s s' exe_path name id [] h = absurd (ground (arith, ap opens h))
  log_in_loop-IsAdmitted c c' s s' exe_path name id (a ∷ attempts) h =
      let r = log_in profile client md5 c s exe_path a.name a.password in
      elim (after_attempt-main_window a.name name r.2 c' r.1 s'
        (log_in_loop profile client md5 r.2 r.1 exe_path attempts) r.0 id h) [
          | inl (out, same) ↦ (
            0,
            a,
            s,
            refl,
            same,
            (log_in-Admits profile client md5 c s exe_path a.name a.password id out).5,
          )
          | inr later ↦
              let (i, b, t, there, same, admits) =
                log_in_loop-IsAdmitted r.2 c' r.1 s' exe_path name id attempts later in
              (suc i, b, t, there, same, admits)
        ]

  -- When the login window can be created, `InitInstance` gets to the main window only with a whole day
  -- or more left of the trial period, and for the name and the number of an attempt whose password the
  -- server that the settings file names has confirmed.
  pub init_instance-IsAdmitted :
      (now : ℕ) (admid : ℤ) (c c' : Config) (s s' : Session client) (exe_path name : List ℕ)
      (id : ℤ) (attempts : List Attempt)
      → init_instance profile client md5 now true admid c s exe_path attempts
        ≡ main_window id name c' s'
      → (now + 86400 ≤ endtime) × IsAdmitted exe_path attempts id name
  unfolding init_instance opens
  init_instance-IsAdmitted now admid c c' s s' exe_path name id attempts h =
      let logged = log_in_loop profile client md5 c s exe_path attempts in
      let begun : Bool → Started profile client md5 = λ b. if b then logged else not_started in
      elim (Bool-cases (begins (trial now))) [
        | inl e ↦ (
          (trial-begins now).0 e,
          log_in_loop-IsAdmitted c c' s s' exe_path name id attempts (sym (ap begun e) ∙ h),
        )
        | inr e ↦ absurd (ground (arith, ap opens (sym (ap begun e) ∙ h)))
      ]
