-- ===== src/Km/Store.antt =====
-- `store` of KM.cpp: the statement that keeps the key of a file.
pub mod Raw
pub mod Sent
pub mod Accepted
pub mod Bounds
use sec_pro_gis.Base.{
  ℕ, zero, suc, ◌+◌, ◌*◌, ◌/◌, ◌%◌, Bool, Option, none, some, List, [], ◌∷◌, ◌++◌,
}
use sec_pro_gis.Base.{length, ltb, ◌&&◌, not, ◌==◌, if◌then◌else◌, ℤ, pos, negsuc}
use sec_pro_gis.Word.{Word, filled, assign}
use sec_pro_gis.Table.{Table, empty_table}
use sec_pro_gis.Text.{c_str, or_empty, sprintf}
use sec_pro_gis.Query.{Config, Client, Session, exec_query, exec_query_table}
use sec_pro_gis.Km.{Serv, is_zero}
use sec_pro_gis.Km.Restore.{print_int}

-- select * from ... where md5_c = '...';
abbrev pub known_query : List ℕ → List ℕ → List ℕ
known_query sk_table md5_c =
    (115 ∷ 101 ∷ 108 ∷ 101 ∷ 99 ∷ 116 ∷ 32 ∷ 42 ∷ 32 ∷ 102 ∷ 114 ∷ 111 ∷ 109 ∷ 32 ∷ [])
    ++ (sk_table
        ++ ((32 ∷ 119 ∷ 104 ∷ 101 ∷ 114 ∷ 101 ∷ 32 ∷ 109 ∷ 100 ∷ 53 ∷ 95 ∷ 99 ∷ 32 ∷ 61 ∷ 32 ∷ 39
              ∷ [])
            ++ (md5_c ++ (39 ∷ 59 ∷ []))))

-- The numbers and strings that `store` prints: `skey` is the key itself, not its hexadecimal text.
pub record Printed : Type 0 where
  pub org : List ℕ
  pub md5_p : List ℕ
  pub md5_c : List ℕ
  pub skey_s : List ℕ
  pub expire : List ℕ
  pub adm : List ℕ
  pub enc_tm : List ℕ

unfoldable pub printed : Serv → ℤ → Printed
printed s admin = record {
  org = print_int s.organization;
  md5_p = or_empty (c_str s.md5_plaint);
  md5_c = or_empty (c_str s.md5_cipher);
  skey_s = or_empty (c_str s.skey);
  expire = print_int s.expire_t;
  adm = print_int admin;
  enc_tm = print_int s.enc_t;
}

-- insert into ... (...) values ('...',...);
abbrev pub insert_query : List ℕ → Printed → List ℕ
insert_query sk_table p =
    (105 ∷ 110 ∷ 115 ∷ 101 ∷ 114 ∷ 116 ∷ 32 ∷ 105 ∷ 110 ∷ 116 ∷ 111 ∷ 32 ∷ [])
    ++ (sk_table
        ++ ((32 ∷ 40 ∷ 111 ∷ 114 ∷ 103 ∷ 44 ∷ 32 ∷ 109 ∷ 100 ∷ 53 ∷ 95 ∷ 112 ∷ 44 ∷ 32 ∷ 109 ∷ 100
              ∷ 53 ∷ 95 ∷ 99 ∷ 44 ∷ 32 ∷ 115 ∷ 107 ∷ 101 ∷ 121 ∷ 44 ∷ 32 ∷ 101 ∷ 120 ∷ 112 ∷ 105
              ∷ 114 ∷ 101 ∷ 44 ∷ 32 ∷ 97 ∷ 100 ∷ 109 ∷ 105 ∷ 110 ∷ 44 ∷ 32 ∷ 101 ∷ 110 ∷ 99 ∷ 95
              ∷ 116 ∷ 109 ∷ 41 ∷ 32 ∷ 118 ∷ 97 ∷ 108 ∷ 117 ∷ 101 ∷ 115 ∷ 32 ∷ 40 ∷ 39 ∷ [])
            ++ (p.org
                ++ ((39 ∷ 44 ∷ 39 ∷ [])
                    ++ (p.md5_p
                        ++ ((39 ∷ 44 ∷ 39 ∷ [])
                            ++ (p.md5_c
                                ++ ((39 ∷ 44 ∷ 39 ∷ [])
                                    ++ (p.skey_s
                                        ++ ((39 ∷ 44 ∷ 39 ∷ [])
                                            ++ (p.expire
                                                ++ ((39 ∷ 44 ∷ 39 ∷ [])
                                                    ++ (p.adm
                                                        ++ ((39 ∷ 44 ∷ 39 ∷ [])
                                                            ++ (p.enc_tm
                                                            ++ (39 ∷ 41 ∷ 59 ∷ []))))))))))))))))

-- update ... set org = '...', ... where md5_c = '...';
abbrev pub update_query : List ℕ → Printed → List ℕ
update_query sk_table p =
    (117 ∷ 112 ∷ 100 ∷ 97 ∷ 116 ∷ 101 ∷ 32 ∷ [])
    ++ (sk_table
        ++ ((32 ∷ 115 ∷ 101 ∷ 116 ∷ 32 ∷ 111 ∷ 114 ∷ 103 ∷ 32 ∷ 61 ∷ 32 ∷ 39 ∷ [])
            ++ (p.org
                ++ ((39 ∷ 44 ∷ 32 ∷ 109 ∷ 100 ∷ 53 ∷ 95 ∷ 112 ∷ 32 ∷ 61 ∷ 32 ∷ 39 ∷ [])
                    ++ (p.md5_p
                        ++ ((39 ∷ 44 ∷ 32 ∷ 115 ∷ 107 ∷ 101 ∷ 121 ∷ 32 ∷ 61 ∷ 32 ∷ 39 ∷ [])
                            ++ (p.skey_s
                                ++ ((39 ∷ 44 ∷ 32 ∷ 101 ∷ 120 ∷ 112 ∷ 105 ∷ 114 ∷ 101 ∷ 32 ∷ 61 ∷ 32
                                      ∷ 39 ∷ [])
                                    ++ (p.expire
                                        ++ ((39 ∷ 44 ∷ 32 ∷ 97 ∷ 100 ∷ 109 ∷ 105 ∷ 110 ∷ 32 ∷ 61
                                              ∷ 32 ∷ 39 ∷ [])
                                            ++ (p.adm
                                                ++ ((39 ∷ 44 ∷ 32 ∷ 101 ∷ 110 ∷ 99 ∷ 95 ∷ 116 ∷ 109
                                                      ∷ 32 ∷ 61 ∷ 32 ∷ 39 ∷ [])
                                                    ++ (p.enc_tm
                                                        ++ ((39 ∷ 32 ∷ 119 ∷ 104 ∷ 101 ∷ 114 ∷ 101
                                                            ∷ 32 ∷ 109 ∷ 100 ∷ 53 ∷ 95 ∷ 99 ∷ 32
                                                            ∷ 61 ∷ 32 ∷ 39 ∷ [])
                                                            ++ (p.md5_c
                                                            ++ (39 ∷ 59 ∷ []))))))))))))))))

-- The statement that `store` sends, when the table has `size` rows for the file.
pub store_query : List ℕ → Printed → ℕ → List ℕ
store_query sk_table p size =
    if ltb size 1 then insert_query sk_table p else update_query sk_table p

-- The five guards of `store`, in their order.
unfoldable pub storable : Serv → List ℕ → Bool
storable s sk_table =
    filled s.md5_plaint
    && filled s.md5_cipher
    && filled s.skey
    && not (is_zero s.expire_t)
    && not (length sk_table == 0)

module _ (client : Client) where
  -- The second query of `store`.
  pub run_store : Config → Session client → Option (List ℕ) → Option ℤ × Session client
  run_store c session none = (none, session)
  run_store c session (some sql) =
      let (code, session') = exec_query client c session (some sql) in
      (some (if is_zero code then pos 0 else negsuc 1), session')

  -- The first query of `store`, whose result is not used, and the rest.
  pub find_and_store :
      Config → Session client → List ℕ → ℤ → Serv → Option (List ℕ) → Option ℤ × Session client
  find_and_store c session sk_table admin s none = (none, session)
  find_and_store c session sk_table admin s (some sql) =
      let (code, session', t) = exec_query_table client c session (some sql) empty_table in
      run_store c session' (sprintf 300 (store_query sk_table (printed s admin) t.size))

  -- `store()`, with the static members of `KM_SERV`: `none` when `sprintf_s` ends the program.
  pub store : Config → Session client → List ℕ → ℤ → Serv → Option ℤ × Session client
  store c session sk_table admin s =
      let sql = known_query sk_table (or_empty (c_str s.md5_cipher)) in
      let run = find_and_store c session sk_table admin s (sprintf 200 sql) in
      if storable s sk_table then run else (some (negsuc 0), session)

  -- The branches of `store(md5_c, enctm)` after `store()`.
  store_code : Option ℤ → Option ℤ
  store_code none = none
  store_code (some code) = some (if is_zero code then pos 0 else negsuc 0)

  -- `store(md5_c, enctm)`: the members are set before the other `store` may fail.
  pub store_as :
      Config → Session client → List ℕ → ℤ → Serv → Word → ℤ → Option ℤ × Serv × Session client
  store_as c session sk_table admin s md5_c enctm =
      let s' = record s { md5_cipher = assign s.md5_cipher md5_c; enc_t = enctm } in
      let (ret, session') = store c session sk_table admin s' in
      if filled md5_c then (store_code ret, s', session') else (some (negsuc 0), s, session)

-- `KM_SERV::set_conf`: the result, and the static members after it. `none` when `strcpy_s` ends the program.
unfoldable pub set_service_conf : Option (List ℕ) → ℤ → Option (ℤ × Option (List ℕ × ℤ))
set_service_conf none adm = some (negsuc 0, none)
set_service_conf (some sk_tab) adm =
    if ltb (length sk_tab) 20 then some (pos 0, some (sk_tab, adm)) else none
