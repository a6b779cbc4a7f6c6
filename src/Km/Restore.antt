-- ===== src/Km/Restore.antt =====
-- `restore` of KM.cpp: the key of a file that the database holds.
pub mod Key
pub mod Whole
use sec_pro_gis.Base.{
  ℕ, zero, suc, ◌+◌, ◌*◌, ◌/◌, ◌%◌, Bool, Option, none, some, List, [], ◌∷◌, ◌++◌,
}
use sec_pro_gis.Base.{length, take, replicate, ltb, ◌==◌, if◌then◌else◌, ℤ, pos, negsuc}
use sec_pro_gis.Hex.{parse_hex}
use sec_pro_gis.Word.{Word, empty, filled, none_long, read_in, get_cont_max}
use sec_pro_gis.Table.{Row, Table, cell_at, row_at, empty_table, empty_row}
use sec_pro_gis.Text.{c_str, or_empty, before_zero, ttoi, sprintf}
use sec_pro_gis.Query.{Config, Client, Session, exec_query_table}
use sec_pro_gis.Km.{Serv, is_zero}

-- `%d`: the decimal digits of a number. The fuel is above their number.
unfoldable pub print_digits : ℕ → ℕ → List ℕ
print_digits zero n = []
print_digits (suc fuel) n =
    let front = print_digits fuel (n / 10) in
    if ltb n 10 then (48 + n) ∷ [] else front ++ ((48 + n % 10) ∷ [])

unfoldable pub print_int : ℤ → List ℕ
print_int (pos n) = print_digits (suc n) n
print_int (negsuc n) = 45 ∷ print_digits (suc (suc n)) (suc n)

-- select * from ... where md5_c = '...' and org = '...';
abbrev pub service_query : List ℕ → List ℕ → ℤ → List ℕ
service_query sk_table md5_c org =
    (115 ∷ 101 ∷ 108 ∷ 101 ∷ 99 ∷ 116 ∷ 32 ∷ 42 ∷ 32 ∷ 102 ∷ 114 ∷ 111 ∷ 109 ∷ 32 ∷ [])
    ++ (sk_table
        ++ ((32 ∷ 119 ∷ 104 ∷ 101 ∷ 114 ∷ 101 ∷ 32 ∷ 109 ∷ 100 ∷ 53 ∷ 95 ∷ 99 ∷ 32 ∷ 61 ∷ 32 ∷ 39
              ∷ [])
            ++ (md5_c
                ++ ((39 ∷ 32 ∷ 97 ∷ 110 ∷ 100 ∷ 32 ∷ 111 ∷ 114 ∷ 103 ∷ 32 ∷ 61 ∷ 32 ∷ 39 ∷ [])
                    ++ (print_int org ++ (39 ∷ 59 ∷ []))))))

unfoldable pub or_word : Option Word → Word
or_word none = empty
or_word (some w) = w

-- `table[0][j]`, of a row that is long enough.
unfoldable pub word_at : Row → ℕ → Word
word_at row j = or_word (cell_at row (pos j))

-- `skey_uc`, from the word of the hexadecimal key.
unfoldable pub key_bytes : Word → List ℕ
key_bytes w = parse_hex (take (w.len / 2 * 2) (or_empty w.content))

-- The assignments of `restore`, from the words of the row and the bytes of the key.
-- `tmpexp` has 16 bytes; an expiry that fills them is read up to its last byte.
unfoldable pub restore_members : Serv → Word → List ℕ → ℕ → Word → ℤ × Serv
restore_members s plaint skey_uc key_len expire =
    let (md5_plaint, plaint_ret) = read_in s.md5_plaint plaint.content (pos plaint.len) in
    let (skey, skey_ret) = read_in s.skey (some skey_uc) (pos key_len) in
    let (expire_ret, tmpexp) = get_cont_max expire (some (replicate 16 0)) 16 in
    if none_long plaint_ret
    then (negsuc 3, record s { md5_plaint = md5_plaint })
    else if none_long skey_ret
    then (negsuc 3, record s { md5_plaint = md5_plaint; skey = skey })
    else if is_zero expire_ret
    then (
      pos 0,
      record s {
        md5_plaint = md5_plaint;
        skey = skey;
        expire_t = ttoi (before_zero (or_empty tmpexp));
      },
    )
    else (negsuc 3, record s { md5_plaint = md5_plaint; skey = skey })

-- The first row: the result, and the members after it.
unfoldable pub restore_row : Serv → Row → ℤ × Serv
restore_row s row =
    let hex = word_at row 3 in
    if ltb row.size 5
    then (negsuc 2, s)
    else restore_members s (word_at row 1) (key_bytes hex) (hex.len / 2) (word_at row 4)

unfoldable pub first_row : Serv → Option Row → ℤ × Serv
first_row s none = (negsuc 2, s)
first_row s (some row) = restore_row s row

-- The branches after the query.
pub restore_table : Serv → ℤ → Table → ℤ × Serv
restore_table s code t =
    let found = first_row s (row_at t (pos 0)) in
    if is_zero code then if t.size == 0 then (negsuc 2, s) else found else (negsuc 2, s)

module _ (client : Client) where
  pub run_restore :
      Config → Session client → Serv → Option (List ℕ) → Option (ℤ × Serv) × Session client
  run_restore c session s none = (none, session)
  run_restore c session s (some sql) =
      let (code, session', t) = exec_query_table client c session (some sql) empty_table in
      (some (restore_table s code t), session')

  -- `restore`, with the table name of `KM_SERV`: `none` when `sprintf_s` ends the program.
  pub restore : Config → Session client → List ℕ → Serv → Option (ℤ × Serv) × Session client
  restore c session sk_table s =
      let sql = service_query sk_table (or_empty (c_str s.md5_cipher)) s.organization in
      let run = run_restore c session s (sprintf 200 sql) in
      if filled s.md5_cipher
      then if length sk_table == 0 then (some (negsuc 1, s), session) else run
      else (some (negsuc 1, s), session)
