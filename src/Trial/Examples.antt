-- ===== src/Trial/Examples.antt =====
-- Starts of the program in 2018.
use sec_pro_gis.Base.{◌+◌, ◌≤◌, true, List, [], ◌∷◌, pos, ◌≡◌, refl}
use sec_pro_gis.Query.{Config, Session, initial_config}
use sec_pro_gis.Login.Settings.{log_in}
use sec_pro_gis.Login.Examples.{five, one_admin, one_value, exe, session, linked_in}
use sec_pro_gis.Trial.{trial, begins, by_days, days, endtime}
use sec_pro_gis.Trial.Start.{Attempt, main_window, log_in_loop, after_attempt, init_instance}
use sec_pro_gis.Trial.Start.Admitted.{IsAdmitted, init_instance-IsAdmitted}

abbrev attempts : List Attempt
attempts = record { name = 97 ∷ []; password = 1 ∷ [] } ∷ []

-- The connection settings and the connection after the login.
abbrev linked : Config
linked = (log_in one_value one_admin five initial_config session exe (97 ∷ []) (1 ∷ [])).2

abbrev used : Session one_admin
used = (log_in one_value one_admin five initial_config session exe (97 ∷ []) (1 ∷ [])).1

started :
    init_instance one_value one_admin five 1526350000 true
      (pos 0)
      initial_config
      session
      exe
      attempts
    ≡ main_window (pos 7) (97 ∷ []) linked used
unfolding init_instance log_in_loop after_attempt trial by_days days begins
started = rw linked_in refl

init_instance-IsAdmitted_example :
    (1526350000 + 86400 ≤ endtime)
    × IsAdmitted one_value one_admin five exe attempts (pos 7) (97 ∷ [])
init_instance-IsAdmitted_example =
    init_instance-IsAdmitted one_value one_admin five 1526350000 (pos 0) initial_config linked
      session used exe (97 ∷ []) (pos 7) attempts started
