-- ===== src/Km/Store/Accepted.antt =====
-- `store` with a server that runs every statement.
use sec_pro_gis.Base.{
  ℕ, ◌≤◌, ◌<◌, Bool, true, none, some, List, length, ltb, lt→ltb, ltb→lt, if◌then◌else◌, ℤ, pos,
}
use sec_pro_gis.Base.{◌≡◌, refl, ap, arith, Bool-cases, inl, inr}
use sec_pro_gis.Word.{Word, filled, assign}
use sec_pro_gis.Table.{empty_table}
use sec_pro_gis.Text.{sprintf, c_str, or_empty}
use sec_pro_gis.Query.{Config, Client, Session, exec_query, exec_query_table}
use sec_pro_gis.Km.{Serv, is_zero}
use sec_pro_gis.Km.Store.{
  known_query, printed, store_query, storable, run_store, find_and_store, store, store_code,
  store_as,
}

pub sprintf-some : (size : ℕ) (s : List ℕ) → length s < size → sprintf size s ≡ some s
unfolding sprintf
sprintf-some size s h = ap (λ (b : Bool). if b then some s else none) (lt→ltb (length s) size h)

pub sprintf-none : (size : ℕ) (s : List ℕ) → size ≤ length s → sprintf size s ≡ none
unfolding sprintf
sprintf-none size s h = elim (Bool-cases (ltb (length s) size)) [
  | inl e ↦ absurd (omega (arith, ltb→lt (length s) size e))
  | inr e ↦ ap (λ (b : Bool). if b then some s else none) e
]

module _ (client : Client) (c : Config) where
  -- The server runs every statement.
  abbrev pub IsWilling : Type 0
  IsWilling =
      (session : Session client) (sql : List ℕ) → (exec_query client c session (some sql)).0 ≡ pos 0

  -- The statements of `store` fit their buffers.
  abbrev pub StoreFits : List ℕ → ℤ → Serv → Type 0
  StoreFits sk_table admin s =
      (length (known_query sk_table (or_empty (c_str s.md5_cipher))) < 200)
      × ((size : ℕ) → length (store_query sk_table (printed s admin) size) < 300)

  pub store-accepted :
      (session : Session client) (sk_table : List ℕ) (admin : ℤ) (s : Serv)
      → IsWilling
      → StoreFits sk_table admin s
      → storable s sk_table ≡ true
      → (store client c session sk_table admin s).0 ≡ some (pos 0)
  unfolding store find_and_store run_store is_zero
  store-accepted session sk_table admin s willing fits ok =
      let sql = known_query sk_table (or_empty (c_str s.md5_cipher)) in
      let asked = exec_query_table client c session (some sql) empty_table in
      let text = store_query sk_table (printed s admin) asked.2.size in
      rw ok (
        rw (sprintf-some 200 sql fits.0)
          (rw (sprintf-some 300 text (fits.1 asked.2.size)) (rw (willing asked.1 text) refl)))

  -- So it is for `store(md5_c, enctm)`.
  pub store_as-accepted :
      (session : Session client) (sk_table : List ℕ) (admin : ℤ) (s : Serv) (md5_c : Word)
      (enctm : ℤ)
      → IsWilling
      → filled md5_c ≡ true
      → let s' = record s { md5_cipher = assign s.md5_cipher md5_c; enc_t = enctm } in
        StoreFits sk_table admin s'
        → storable s' sk_table ≡ true
        → (store_as client c session sk_table admin s md5_c enctm).0 ≡ some (pos 0)
  unfolding store_as store_code is_zero
  store_as-accepted session sk_table admin s md5_c enctm willing full fits ok =
      let s' = record s { md5_cipher = assign s.md5_cipher md5_c; enc_t = enctm } in
      rw full (ap (store_code client) (store-accepted session sk_table admin s' willing fits ok))
