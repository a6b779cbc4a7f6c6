-- ===== src/Trial/Start.antt =====
-- Archive.cpp: `InitInstance`, from the trial period through the login to the main window. What the user
-- types is a list of attempts, after which the login window is cancelled.
pub mod Admitted
use sec_pro_gis.Base.{ℕ, Bool, Option, none, some, List, [], ◌∷◌, if◌then◌else◌, ℤ}
use sec_pro_gis.Query.{Config, Client, Session}
use sec_pro_gis.Login.{Outcome, no_settings, no_connection, refused, logged_in, stopped}
use sec_pro_gis.Login.Settings.{log_in}
use sec_pro_gis.Trial.{trial, begins}

-- A name and a password.
pub record Attempt : Type 0 where
  pub name : List ℕ
  pub password : List ℕ

module _ (profile : List ℕ → List ℕ → List ℕ) (client : Client) (md5 : List ℕ → List ℕ) where
  -- How the program begins, if it does.
  pub data Started : Type 0 where
    not_started : Started
    -- The main window, with `AdminID`, `AdminName`, and the connection.
    main_window : ℤ → List ℕ → Config → Session client → Started
    -- The program ends in `CheckAdmin`.
    crashed : Started

  -- After an attempt: the window closes, stays open for the next one, or the program has ended.
  unfoldable pub after_attempt : List ℕ → Config → Session client → Started → Outcome → Started
  after_attempt name c s again no_settings = again
  after_attempt name c s again no_connection = again
  after_attempt name c s again refused = again
  after_attempt name c s again (logged_in id) = main_window id name c s
  after_attempt name c s again stopped = crashed

  -- `DoModal` of the login window.
  unfoldable pub log_in_loop : Config → Session client → List ℕ → List Attempt → Started
  log_in_loop c s exe_path [] = not_started
  log_in_loop c s exe_path (a ∷ attempts) =
      let (out, s', c') = log_in profile client md5 c s exe_path a.name a.password in
      after_attempt a.name c' s' (log_in_loop c' s' exe_path attempts) out

  -- `InitInstance` at a time. A login window that cannot be created answers -1, which is not `IDCANCEL`:
  -- the main window opens with the number that is in memory, and no name.
  unfoldable pub init_instance :
      ℕ → Bool → ℤ → Config → Session client → List ℕ → List Attempt → Started
  init_instance now created admid c s exe_path attempts =
      let logged = log_in_loop c s exe_path attempts in
      if begins (trial now)
      then if created then logged else main_window admid [] c s
      else not_started
