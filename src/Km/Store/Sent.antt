-- ===== src/Km/Store/Sent.antt =====
-- What has reached the server when `store` returns 0.
use sec_pro_gis.Base.{ℕ, Bool, true, Option, none, some, List, if◌then◌else◌, ℤ, pos, negsuc}
use sec_pro_gis.Base.{◌≡◌, ◌≢◌, refl, sym, ap, ◌∙◌, subst, arith, inl, inr, Bool-cases, ==_iff}
use sec_pro_gis.Word.{Word, filled, assign}
use sec_pro_gis.Table.{empty_table}
use sec_pro_gis.Text.{sprintf, sprintf-eq, c_str, or_empty}
use sec_pro_gis.Query.{Config, Client, Session, exec_query, exec_query_table}
use sec_pro_gis.Km.{Serv, is_zero}
use sec_pro_gis.Km.Store.{
  known_query, printed, store_query, storable, run_store, find_and_store, store, store_code,
  store_as,
}

is_zero-eq : (z : ℤ) → is_zero z ≡ true → z ≡ pos 0
unfolding is_zero
is_zero-eq (pos n) h = ap pos ((==_iff n 0).0 h)
is_zero-eq (negsuc n) h = absurd (ground (arith, h))

code_zero : (z : ℤ) → some (if is_zero z then pos 0 else negsuc 1) ≡ some (pos 0) → z ≡ pos 0
code_zero z h = elim (Bool-cases (is_zero z)) [
  | inl e ↦ is_zero-eq z e
  | inr e ↦ absurd (ground (arith, h, e))
]

module _ (client : Client) where
  -- From one session to another, the rows of the file are asked for with `sql`, and the server runs
  -- the statement that stores this service.
  abbrev SentAfter : Config → List ℕ → ℤ → Serv → List ℕ → Session client → Session client → Type 0
  SentAfter c sk_table admin s sql session session' =
      let asked = exec_query_table client c session (some sql) empty_table in
      let ran =
        exec_query client c asked.1 (some (store_query sk_table (printed s admin) asked.2.size)) in
      (ran.0 ≡ pos 0) × (session' ≡ ran.1)

  -- The two statements of `store` for this service, one after the other, the second with success.
  abbrev pub Sent : Config → List ℕ → ℤ → Serv → Session client → Session client → Type 0
  Sent c sk_table admin s session session' =
      SentAfter c sk_table admin s (known_query sk_table (or_empty (c_str s.md5_cipher))) session
        session'

  run_store-zero :
      (c : Config) (session : Session client) (o : Option (List ℕ))
      → (run_store client c session o).0 ≡ some (pos 0)
      → (sql : List ℕ) × (o ≡ some sql)
        × ((exec_query client c session (some sql)).0 ≡ pos 0)
        × ((run_store client c session o).1 ≡ (exec_query client c session (some sql)).1)
  unfolding run_store
  run_store-zero c session none h = absurd (ground (arith, h))
  run_store-zero c session (some sql) h = (sql, refl, code_zero _ h, refl)

  find_and_store-Sent :
      (c : Config) (session : Session client) (sk_table : List ℕ) (admin : ℤ) (s : Serv)
      (o : Option (List ℕ))
      → (find_and_store client c session sk_table admin s o).0 ≡ some (pos 0)
      → (sql : List ℕ) × (o ≡ some sql)
        × SentAfter c sk_table admin s sql session
            (find_and_store client c session sk_table admin s o).1
  unfolding find_and_store
  find_and_store-Sent c session sk_table admin s none h = absurd (ground (arith, h))
  find_and_store-Sent c session sk_table admin s (some sql) h =
      let asked = exec_query_table client c session (some sql) empty_table in
      let text = store_query sk_table (printed s admin) asked.2.size in
      let ran = run_store-zero c asked.1 (sprintf 300 text) h in
      let same = sprintf-eq 300 text ran.0 ran.1 in
      (
        sql,
        refl,
        (
          ap (λ (q : List ℕ). (exec_query client c asked.1 (some q)).0) same ∙ ran.2,
          ran.3 ∙ ap (λ (q : List ℕ). (exec_query client c asked.1 (some q)).1) (sym same),
        ),
      )

  pub store-Sent :
      (c : Config) (session : Session client) (sk_table : List ℕ) (admin : ℤ) (s : Serv)
      → (store client c session sk_table admin s).0 ≡ some (pos 0)
      → (storable s sk_table ≡ true)
        × Sent c sk_table admin s session (store client c session sk_table admin s).1
  unfolding store
  store-Sent c session sk_table admin s h =
      let sql = known_query sk_table (or_empty (c_str s.md5_cipher)) in
      let run = find_and_store client c session sk_table admin s (sprintf 200 sql) in
      let answer : Bool → Option ℤ × Session client =
        λ b. if b then run else (some (negsuc 0), session) in
      elim (Bool-cases (storable s sk_table)) [
        | inl e ↦
            let sent =
              find_and_store-Sent c session sk_table admin s (sprintf 200 sql)
                (sym (ap (λ (b : Bool). (answer b).0) e) ∙ h) in
            (
              e,
              subst (λ (t : Session client). SentAfter c sk_table admin s sql session t)
                  (sym (ap (λ (b : Bool). (answer b).1) e))
                  (subst (λ (q : List ℕ). SentAfter c sk_table admin s q session run.1)
                    (sym (sprintf-eq 200 sql sent.0 sent.1)) sent.2),
            )
        | inr e ↦ absurd (ground (arith, sym (ap (λ (b : Bool). (answer b).0) e) ∙ h))
      ]

  store_code-zero :
      (o : Option ℤ) (code : ℤ)
      → store_code client o ≡ some code
      → code ≢ negsuc 0
      → o ≡ some (pos 0)
  unfolding store_code
  store_code-zero none code h ne = absurd (ground (arith, h))
  store_code-zero (some z) code h ne = elim (Bool-cases (is_zero z)) [
    | inl e ↦ ap some (is_zero-eq z e)
    | inr e ↦ absurd (ne (ground (arith, h, e)))
  ]

  -- `store(md5_c, enctm)` gives -1 unless the statement for the service with this digest and time was
  -- run.
  pub store_as-Sent :
      (c : Config) (session : Session client) (sk_table : List ℕ) (admin : ℤ) (s : Serv)
      (md5_c : Word) (enctm code : ℤ)
      → (store_as client c session sk_table admin s md5_c enctm).0 ≡ some code
      → code ≢ negsuc 0
      → Sent c sk_table admin
          (record s { md5_cipher = assign s.md5_cipher md5_c; enc_t = enctm })
          session
          (store_as client c session sk_table admin s md5_c enctm).2
  unfolding store_as
  store_as-Sent c session sk_table admin s md5_c enctm code h ne =
      let s' = record s { md5_cipher = assign s.md5_cipher md5_c; enc_t = enctm } in
      let run = store client c session sk_table admin s' in
      let answer : Bool → Option ℤ × Serv × Session client =
        λ b. if b then (store_code client run.0, s', run.1) else (some (negsuc 0), s, session) in
      elim (Bool-cases (filled md5_c)) [
        | inl e ↦
            subst (λ (t : Session client). Sent c sk_table admin s' session t)
              (sym (ap (λ (b : Bool). (answer b).2) e))
              (store-Sent c session sk_table admin s'
                (store_code-zero run.0 code (sym (ap (λ (b : Bool). (answer b).0) e) ∙ h) ne)).1
        | inr e ↦ absurd (ne (ground (arith, sym (ap (λ (b : Bool). (answer b).0) e) ∙ h)))
      ]
