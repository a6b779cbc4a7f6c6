-- ===== src/Query/Examples.antt =====
-- A client whose server knows one table, and refuses statements shorter than the two `set names`.
use sec_pro_gis.Base.{ℕ, true, some, List, [], ◌∷◌, ◌≡◌, ◌⊎◌, length, leb, none, ℤ}
use sec_pro_gis.Base.{pos}
use sec_pro_gis.Table.{Table, empty_table}
use sec_pro_gis.Query.{Config, Client, Session, exec_query, run_query_table}
use sec_pro_gis.Query.Handles.{exec_query-handles, run_query_table-Promises, NoResult, Promises}

abbrev one_table : Client
one_table = record {
  State = ℕ;
  init = λ s. (s, true);
  connect = λ s c. (s, true);
  query = λ s sql. (s, leb 14 (length sql));
  stored = λ s. true;
  to_ansi = λ str. str;
  rand = λ seed i. i;
  fetched = λ s. (some (49 ∷ []) ∷ []) ∷ [];
}

abbrev settings : Config
settings = record {
  db_usr = 117 ∷ [];
  db_pwd = 112 ∷ [];
  db_ip = 49 ∷ [];
  db_port = pos 3306;
  db = 100 ∷ [];
}

abbrev start : Session one_table
start = record { server = 0; handles = 0 }

abbrev sql : List ℕ
sql = 120 ∷ []

exec_query-handles_example :
    (exec_query one_table settings start (some sql)).1.handles ≡ start.handles
exec_query-handles_example = exec_query-handles one_table settings start (some sql)

run_query_table-Promises_example :
    ((run_query_table one_table settings start (some sql) empty_table ≡ none)
      × NoResult one_table settings start (some sql))
    ⊎ ((r : ℤ × Session one_table × Table) × (run_query_table one_table settings start
            (some sql)
            empty_table
          ≡ some r)
        × (¬ NoResult one_table settings start (some sql))
        × Promises one_table start empty_table r)
run_query_table-Promises_example =
    run_query_table-Promises one_table settings start (some sql) empty_table
