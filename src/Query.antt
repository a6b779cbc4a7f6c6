-- ===== src/Query.antt =====
-- INTmysql.cpp: the connection settings, and the two functions that run a statement. The libraries of
-- the program's machine, the MySQL client first, are the parameter `Client`; a null pointer is `none`,
-- a string its bytes.
pub mod Handles
pub mod Settings
mod Examples
use sec_pro_gis.Base.{
  ◌>>=◌, ℕ, zero, suc, ◌+◌, ◌-◌, Bool, true, false, not, ◌&&◌, Option, none, some, List, [], ◌∷◌,
  length,
}
use sec_pro_gis.Base.{ltb, leb, ◌==◌, if◌then◌else◌, ℤ, pos, negsuc}
use sec_pro_gis.Table.{Table, append}

-- The static members of `MY_QUERY`.
pub record Config : Type 0 where
  pub db_usr : List ℕ
  pub db_pwd : List ℕ
  pub db_ip : List ℕ
  pub db_port : ℤ
  pub db : List ℕ

-- The members as they are initialised.
unfoldable pub initial_config : Config
initial_config = record { db_usr = []; db_pwd = []; db_ip = []; db_port = negsuc 0; db = [] }

-- `strcpy_s` into 20 characters: the program ends when the string and its zero do not fit.
unfoldable pub strcpy : List ℕ → Option (List ℕ)
strcpy s = if ltb (length s) 20 then some s else none

-- `set_conf`: the result and the members; `none` when `strcpy_s` ends the program.
unfoldable pub set_conf :
    Config
    → Option (List ℕ)
    → ℤ
    → Option (List ℕ)
    → Option (List ℕ)
    → Option (List ℕ)
    → Option (ℤ × Config)
set_conf c (some ip) port (some usr) (some pwd) (some db) = do
  db_usr ← strcpy usr
  db_pwd ← strcpy pwd
  db_ip ← strcpy ip
  db' ← strcpy db
  some (pos 1, record { db_usr = db_usr; db_pwd = db_pwd; db_ip = db_ip; db_port = port; db = db' })
set_conf c ip port usr pwd db = some (negsuc 0, c)

-- `DB_PORT == -1`
unfoldable pub no_port : ℤ → Bool
no_port (pos n) = false
no_port (negsuc n) = n == 0

-- `configured`
unfoldable pub configured : Config → Bool
configured c =
    not (length c.db_ip == 0)
    && not (no_port c.db_port)
    && not (length c.db_usr == 0)
    && not (length c.db_pwd == 0)
    && not (length c.db == 0)

-- The client library with the server behind it, where each call says whether it worked, and what else
-- the machine's libraries give: its code page and its random numbers.
pub record Client : Type 1 where
  pub State : Type 0
  -- `mysql_init`
  pub init : State → State × Bool
  -- `mysql_real_connect`
  pub connect : State → Config → State × Bool
  -- `mysql_real_query`
  pub query : State → List ℕ → State × Bool
  -- Whether `mysql_store_result` returns a result, and the rows that `mysql_fetch_row` takes from it.
  pub stored : State → Bool
  pub fetched : State → List (List (Option (List ℕ)))
  -- `WideCharToMultiByte` with `CP_ACP`: the bytes of a string.
  pub to_ansi : List ℕ → List ℕ
  -- What `rand` returns in turn after `srand` with a seed.
  pub rand : ℕ → ℕ → ℕ

-- set names gbk;
abbrev pub set_names : List ℕ
set_names = 115 ∷ 101 ∷ 116 ∷ 32 ∷ 110 ∷ 97 ∷ 109 ∷ 101 ∷ 115 ∷ 32 ∷ 103 ∷ 98 ∷ 107 ∷ 59 ∷ []

-- set names 'GBK';
abbrev pub set_names_quoted : List ℕ
set_names_quoted =
    115 ∷ 101 ∷ 116 ∷ 32 ∷ 110 ∷ 97 ∷ 109 ∷ 101 ∷ 115 ∷ 32 ∷ 39 ∷ 71 ∷ 66 ∷ 75 ∷ 39 ∷ 59 ∷ []

-- The loop over the rows: the table, and whether every `append` returned 0.
unfoldable pub append_rows : Table → List (List (Option (List ℕ))) → Bool × Table
append_rows t [] = (true, t)
append_rows t (row ∷ rows) =
    let (t', ret) = append t (some row) (pos (length row)) in
    let rest = append_rows t' rows in if ret == 0 then rest else (false, t')

module _ (client : Client) where
  -- The state of the server, and the connection handles that are not closed.
  pub record Session : Type 0 where
    pub server : client.State
    pub handles : ℕ

  -- `mysql_close`
  abbrev pub close : client.State → ℕ → Session
  close server n = record { server = server; handles = n - 1 }

  -- `exec_query_mysql(sql_str)`
  unfoldable pub exec_query : Config → Session → Option (List ℕ) → ℤ × Session
  exec_query c s none = (negsuc 0, s)
  exec_query c s (some sql_str) =
      let (s1, con) = client.init s.server in
      let n = s.handles + 1 in
      let (s2, connected) = client.connect s1 c in
      let (s3, named) = client.query s2 set_names in
      let (s4, done) = client.query s3 sql_str in
      if not (configured c)
      then (negsuc 0, s)
      else if not con
      then (negsuc 1, record { server = s1; handles = s.handles })
      else if not connected
      then (negsuc 2, close s2 n)
      else if not named
      then (negsuc 3, close s3 n)
      else if not done
      then (negsuc 3, close s4 n)
      else (pos 0, close s4 n)

  -- `exec_query_mysql(sql_str, ret_table)`, when `mysql_store_result` does not return a null pointer.
  unfoldable pub exec_query_table : Config → Session → Option (List ℕ) → Table → ℤ × Session × Table
  exec_query_table c s none t = (negsuc 0, s, t)
  exec_query_table c s (some sql_str) t =
      let (s1, con) = client.init s.server in
      let n = s.handles + 1 in
      let (s2, connected) = client.connect s1 c in
      let (s3, named) = client.query s2 set_names_quoted in
      let (s4, done) = client.query s3 sql_str in
      let (whole, t') = append_rows t (client.fetched s4) in
      if not (configured c)
      then (negsuc 0, s, t)
      else if not con
      then (negsuc 1, record { server = s1; handles = s.handles }, t)
      else if not connected
      then (negsuc 2, close s2 n, t)
      else if not named
      then (negsuc 3, close s3 n, t)
      else if not done
      then (negsuc 3, record { server = s4; handles = n }, t)
      else if not whole
      then (negsuc 4, close s4 n, t')
      else (pos 0, close s4 n, t')

  -- Whether the loop over the rows begins: the statement has run.
  pub begins_fetch : Config → Session → List ℕ → Bool
  begins_fetch c s sql_str =
      let (s1, con) = client.init s.server in
      let (s2, connected) = client.connect s1 c in
      let (s3, named) = client.query s2 set_names_quoted in
      let (s4, done) = client.query s3 sql_str in configured c && con && connected && named && done

  -- The state in which `mysql_store_result` is called.
  pub asked : Config → Session → List ℕ → client.State
  asked c s sql_str =
      let s2 = (client.connect (client.init s.server).0 c).0 in
      (client.query (client.query s2 set_names_quoted).0 sql_str).0

  -- `exec_query_mysql(sql_str, ret_table)`, which does not look at the result before `mysql_fetch_row`:
  -- with a null pointer the program stops.
  pub run_query_table : Config → Session → Option (List ℕ) → Table → Option (ℤ × Session × Table)
  run_query_table c s none t = some (exec_query_table c s none t)
  run_query_table c s (some sql_str) t =
      if begins_fetch c s sql_str && not (client.stored (asked c s sql_str))
      then none
      else some (exec_query_table c s (some sql_str) t)
