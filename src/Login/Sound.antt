-- ===== src/Login/Sound.antt =====
-- Who is let in by `CheckAdmin`.
use sec_pro_gis.Base.{ℕ, Bool, true, false, Option, none, some, List, ◌==◌, if◌then◌else◌}
use sec_pro_gis.Base.{◌≡◌, ◌≢◌, refl, sym, ap, ◌∙◌, subst, arith, ℤ, pos, Bool-cases, inl, inr}
use sec_pro_gis.Hex.{sprint_hex}
use sec_pro_gis.Table.{Table, empty_table}
use sec_pro_gis.Text.{cell_str, same, same-eq, ttoi, sprintf, sprintf-eq, no_server}
use sec_pro_gis.Query.{Config, Client, Session, configured, exec_query_table}
use sec_pro_gis.Login.{
  Outcome, no_settings, no_connection, refused, logged_in, stopped, judge, compare_cells, admit,
  ask, check_admin, admin_query,
}

-- Not the outcome of a login.
is_login : Outcome → Bool
is_login no_settings = false
is_login no_connection = false
is_login refused = false
is_login (logged_in id) = true
is_login stopped = false

pub stopped_ne_logged_in : (id : ℤ) → stopped ≢ logged_in id
unfolding is_login
stopped_ne_logged_in id h = ground (arith, ap is_login h)

if-logged_in :
    (b : Bool) (found : Outcome) (id : ℤ)
    → (if b then found else refused) ≡ logged_in id
    → (b ≡ true) × (found ≡ logged_in id)
unfolding is_login
if-logged_in true found id h = (refl, h)
if-logged_in false found id h = absurd (ground (arith, ap is_login h))

compare_cells-logged_in :
    (name digest : List ℕ) (acc pas : Option (List ℕ)) (found : Outcome) (id : ℤ)
    → compare_cells name digest acc pas found ≡ logged_in id
    → (acc ≡ some name) × (pas ≡ some digest) × (found ≡ logged_in id)
unfolding compare_cells is_login
compare_cells-logged_in name digest none pas found id h = absurd (ground (arith, ap is_login h))
compare_cells-logged_in name digest (some acc) none found id h = elim (Bool-cases (same acc name)) [
  | inl e ↦ absurd (ground (arith, ap is_login h))
  | inr e ↦ absurd (ground (arith, ap is_login h))
]
compare_cells-logged_in name digest (some acc) (some pas) found id h =
    let first = if-logged_in (same acc name) (if same pas digest then found else refused) id h in
    let second = if-logged_in (same pas digest) found id first.1 in
    (ap some (same-eq acc name first.0), ap some (same-eq pas digest second.0), second.1)

admit-logged_in :
    (cell : Option (List ℕ)) (id : ℤ)
    → admit cell ≡ logged_in id
    → (text : List ℕ) × (cell ≡ some text) × (logged_in (ttoi text) ≡ logged_in id)
unfolding admit is_login
admit-logged_in none id h = absurd (ground (arith, ap is_login h))
admit-logged_in (some text) id h = (text, refl, h)

-- What the table must hold for a login with this number.
abbrev pub Admits : List ℕ → List ℕ → ℤ → Table → Type 0
Admits name digest id t =
    (text : List ℕ) × (cell_str t (pos 0) (pos 0) ≡ some text)
    × (cell_str t (pos 0) (pos 1) ≡ some name)
    × (cell_str t (pos 0) (pos 2) ≡ some digest)
    × (logged_in (ttoi text) ≡ logged_in id)

judge-Admits :
    (name digest : List ℕ) (t : Table) (id : ℤ)
    → judge name digest t ≡ logged_in id
    → Admits name digest id t
unfolding judge is_login
judge-Admits name digest t id h = elim (Bool-cases (t.size == 0)) [
  | inl e ↦ absurd (ground (arith, ap is_login h))
  | inr e ↦
      let found = admit (cell_str t (pos 0) (pos 0)) in
      let cells =
        compare_cells-logged_in name digest (cell_str t (pos 0) (pos 1))
          (cell_str t (pos 0) (pos 2)) found id
          (sym (
              ap
                (λ (b : Bool).
                  if b
                  then refused
                  else compare_cells name digest (cell_str t (pos 0) (pos 1))
                      (cell_str t (pos 0) (pos 2)) found)
                e)
            ∙ h) in
      let number = admit-logged_in (cell_str t (pos 0) (pos 0)) id cells.2 in
      (number.0, number.1, cells.0, cells.1, number.2)
]

module _ (client : Client) (md5 : List ℕ → List ℕ) where
  ask-Admits :
      (c : Config) (s : Session client) (name digest : List ℕ) (sql : Option (List ℕ)) (id : ℤ)
      → (ask client md5 c s name digest sql).0 ≡ logged_in id
      → (text : List ℕ) × (sql ≡ some text)
        × Admits name digest id (exec_query_table client c s (some text) empty_table).2
  unfolding ask is_login
  ask-Admits c s name digest none id h = absurd (ground (arith, ap is_login h))
  ask-Admits c s name digest (some text) id h =
      let answer = exec_query_table client c s (some text) empty_table in
      elim (Bool-cases (no_server answer.0)) [
        | inl e ↦ absurd (
            ground (
              arith,
              ap is_login (
                  sym (ap (λ (b : Bool). if b then no_connection else judge name digest answer.2) e)
                  ∙ h),
            ))
        | inr e ↦ (
          text,
          refl,
          judge-Admits name digest answer.2 id (
              sym (ap (λ (b : Bool). if b then no_connection else judge name digest answer.2) e)
              ∙ h),
        )
      ]

  -- `CheckAdmin` lets nobody in unless the settings are complete and the first row of the answer to
  -- its query has exactly this name and, in hexadecimal, the MD5 digest of this password; the number
  -- of the administrator is read from that row.
  pub check_admin-Admits :
      (c : Config) (s : Session client) (name password : List ℕ) (id : ℤ)
      → (check_admin client md5 c s name password).0 ≡ logged_in id
      → (configured c ≡ true)
        × Admits name
            (sprint_hex (md5 password))
            id
            (exec_query_table client c s (some (admin_query name)) empty_table).2
  unfolding check_admin is_login
  check_admin-Admits c s name password id h =
      let digest = sprint_hex (md5 password) in
      let asked = ask client md5 c s name digest (sprintf 100 (admin_query name)) in
      let result : Bool → Outcome = λ b. (if b then asked else (no_settings, s)).0 in
      elim (Bool-cases (configured c)) [
        | inl e ↦
            let found =
              ask-Admits c s name digest (sprintf 100 (admin_query name)) id
                (sym (ap result e) ∙ h) in
            (
              e,
              subst
                  (λ (sql : List ℕ).
                    Admits name digest id (exec_query_table client c s (some sql) empty_table).2)
                  (sym (sprintf-eq 100 (admin_query name) found.0 found.1)) found.2,
            )
        | inr e ↦ absurd (ground (arith, ap is_login (sym (ap result e) ∙ h)))
      ]
