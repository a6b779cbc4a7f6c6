-- ===== src/Query/Settings.antt =====
-- What `set_conf` and `configured` ask of the connection settings.
use sec_pro_gis.Base.{
  ℕ, ◌<◌, Bool, true, none, some, List, length, ltb, ltb→lt, if◌then◌else◌, Bool-cases, some_inj,
  some_ne_none, >>=-some, ℤ,
}
use sec_pro_gis.Base.{◌≡◌, sym, ap, ◌∙◌, arith, inl, inr}
use sec_pro_gis.Query.{Config, strcpy, set_conf, configured}

-- A string that `strcpy_s` can copy.
abbrev pub Fits : List ℕ → Type 0
Fits s = length s < 20

strcpy-some : (s t : List ℕ) → strcpy s ≡ some t → (t ≡ s) × Fits s
unfolding strcpy
strcpy-some s t h = elim (Bool-cases (ltb (length s) 20)) [
  | inl e ↦ (
    sym (some_inj (sym (ap (λ (b : Bool). if b then some s else none) e) ∙ h)),
    ltb→lt (length s) 20 e,
  )
  | inr e ↦ some_ne_none (sym (ap (λ (b : Bool). if b then some s else none) e) ∙ h)
]

-- The members that `set_conf` leaves, when no string is too long.
pub set_conf-some :
    (c : Config) (ip usr pwd db : List ℕ) (port : ℤ) (r : ℤ × Config)
    → set_conf c (some ip) port (some usr) (some pwd) (some db) ≡ some r
    → (r.1 ≡ record { db_usr = usr; db_pwd = pwd; db_ip = ip; db_port = port; db = db })
      × Fits usr
      × Fits pwd
      × Fits ip
      × Fits db
unfolding set_conf
set_conf-some c ip usr pwd db port r h =
    let one = >>=-some (strcpy usr) _ h in
    let two = >>=-some (strcpy pwd) _ one.2 in
    let three = >>=-some (strcpy ip) _ two.2 in
    let four = >>=-some (strcpy db) _ three.2 in
    let usr' = strcpy-some usr one.0 one.1 in
    let pwd' = strcpy-some pwd two.0 two.1 in
    let ip' = strcpy-some ip three.0 three.1 in
    let db' = strcpy-some db four.0 four.1 in
    (
      sym (ap (λ (q : ℤ × Config). q.1) (some_inj four.2)) ∙ (λ i. record {
        db_usr = usr'.0 i;
        db_pwd = pwd'.0 i;
        db_ip = ip'.0 i;
        db_port = port;
        db = db'.0 i;
      }),
      usr'.1,
      pwd'.1,
      ip'.1,
      db'.1,
    )

-- Settings that are complete have no empty string.
pub configured-filled :
    (c : Config)
    → configured c ≡ true
    → (0 < length c.db_usr) × (0 < length c.db_pwd) × (0 < length c.db_ip) × (0 < length c.db)
unfolding configured
configured-filled c h = ground (arith, h)
