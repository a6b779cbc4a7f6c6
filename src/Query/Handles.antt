-- ===== src/Query/Handles.antt =====
-- What the two functions of INTmysql.cpp leave open, and what they return.
use sec_pro_gis.Base.{
  if_both, ℕ, Bool, ◌&&◌, true, false, not, Option, none, some, List, [], ◌∷◌, length,
  if◌then◌else◌,
}
use sec_pro_gis.Base.{
  ◌≡◌, ◌≢◌, refl, sym, ap, subst, some_inj, some_ne_none, Bool-cases, arith, ℤ, pos, negsuc, ◌⊎◌,
  inl, inr,
}
use sec_pro_gis.Table.{Table, append}
use sec_pro_gis.Table.Order.{append_all}
use sec_pro_gis.Query.{
  set_names_quoted, Config, Client, Session, exec_query, exec_query_table, append_rows, configured,
  begins_fetch, asked, run_query_table,
}

append_rows-append_all :
    (t : Table) (rows : List (List (Option (List ℕ))))
    → append_rows t rows ≡ (true, append_all t rows)
unfolding append_rows append_all append
append_rows-append_all t [] = refl
append_rows-append_all t (row ∷ rows) =
    append_rows-append_all (append t (some row) (pos (length row))).0 rows

abbrev pub IsSuccess : ℤ → Type 0
IsSuccess code = code ≡ pos 0

is_pos : ℤ → Bool
is_pos (pos n) = true
is_pos (negsuc n) = false

fails : (n : ℕ) → negsuc n ≢ pos 0
unfolding is_pos
fails n e = ground (arith, ap is_pos e)

stops_only : (a b : Bool) → (a && not b) ≡ true → (a ≡ true) × (b ≡ false)
stops_only a b h = ground (arith, h)

goes_on : (a b : Bool) → (a && not b) ≡ false → a ≡ true → b ≡ false → ⊥
goes_on a b h p q = absurd (ground (arith, h, p, q))

module _ (client : Client) where
  -- `exec_query_mysql` without a table closes every handle that it opens, whichever call fails.
  pub exec_query-handles :
      (c : Config) (s : Session client) (sql_str : Option (List ℕ))
      → (exec_query client c s sql_str).1.handles ≡ s.handles
  unfolding exec_query
  exec_query-handles c s none = refl
  exec_query-handles c s (some sql_str) = ground arith

  -- What `exec_query_mysql` with a table promises of its result.
  abbrev pub Promises : Session client → Table → ℤ × Session client × Table → Type 0
  Promises s t (code, s', t') =
      ((code ≡ pos 0) × (s'.handles ≡ s.handles) × (t' ≡ append_all t (client.fetched s'.server)))
      ⊎ ((code ≢ pos 0) × (t' ≡ t))

  pub exec_query_table-Promises :
      (c : Config) (s : Session client) (sql_str : Option (List ℕ)) (t : Table)
      → Promises s t (exec_query_table client c s sql_str t)
  unfolding exec_query_table
  exec_query_table-Promises c s none t = inr (fails 0, refl)
  exec_query_table-Promises c s (some sql_str) t =
      let s1 = client.init s.server in
      let s2 = client.connect s1.0 c in
      let s3 = client.query s2.0 set_names_quoted in
      let s4 = client.query s3.0 sql_str in
      let both = if_both (Promises s t) in
      rw (append_rows-append_all t (client.fetched s4.0)) (
        both (not (configured c)) _ _ (inr (fails 0, refl)) (
          both (not s1.1) _ _ (inr (fails 1, refl)) (
            both (not s2.1) _ _ (inr (fails 2, refl)) (
              both (not s3.1) _ _ (inr (fails 3, refl))
                (both (not s4.1) _ _ (inr (fails 3, refl)) (inl (refl, omega arith, refl)))))))

  -- After a query that returned 0 the table has the rows of the answer.
  pub exec_query_table-append_all :
      (c : Config) (s : Session client) (sql_str : Option (List ℕ)) (t : Table)
      → let r = exec_query_table client c s sql_str t in
        r.0 ≡ pos 0 → r.2 ≡ append_all t (client.fetched r.1.server)
  exec_query_table-append_all c s sql_str t h = elim (exec_query_table-Promises c s sql_str t) [
    | inl (code, closed, rows) ↦ rows
    | inr (code, same) ↦ absurd (code h)
  ]

  -- Whether the statement runs and `mysql_store_result` then gives a null pointer.
  abbrev pub NoResult : Config → Session client → Option (List ℕ) → Type 0
  NoResult c s sql_str =
      (sql : List ℕ) × (sql_str ≡ some sql)
      × (begins_fetch client c s sql ≡ true)
      × (client.stored (asked client c s sql) ≡ false)

  -- `exec_query_mysql` with a table stops the program exactly when the settings are complete, every
  -- call works, the statement included, and `mysql_store_result` gives a null pointer. Else it either
  -- returns 0, with every row of the answer appended in order and every handle closed, or returns
  -- another number and leaves the table as it was.
  pub run_query_table-Promises :
      (c : Config) (s : Session client) (sql_str : Option (List ℕ)) (t : Table)
      → ((run_query_table client c s sql_str t ≡ none) × NoResult c s sql_str)
        ⊎ ((r : ℤ × Session client × Table) × (run_query_table client c s sql_str t ≡ some r)
            × (¬ NoResult c s sql_str)
            × Promises s t r)
  unfolding run_query_table
  run_query_table-Promises c s none t = inr (
    exec_query_table client c s none t,
    refl,
    λ no_result. some_ne_none no_result.1,
    exec_query_table-Promises c s none t,
  )
  run_query_table-Promises c s (some sql_str) t =
      let begins = begins_fetch client c s sql_str in
      let stored = client.stored (asked client c s sql_str) in
      let ran = exec_query_table client c s (some sql_str) t in
      let answer : Bool → Option (ℤ × Session client × Table) = λ b. if b then none else some ran in
      elim (Bool-cases (begins && not stored)) [
        | inl e ↦
            let both = stops_only begins stored e in
            inl (ap answer e, (sql_str, refl, both.0, both.1))
        | inr e ↦ inr (
          ran,
          ap answer e,
          λ no_result.
              let same = some_inj no_result.1 in
              goes_on begins stored e
                (subst (λ (q : List ℕ). begins_fetch client c s q ≡ true) (sym same) no_result.2)
                (subst (λ (q : List ℕ). client.stored (asked client c s q) ≡ false) (sym same)
                  no_result.3),
          exec_query_table-Promises c s (some sql_str) t,
        )
      ]
