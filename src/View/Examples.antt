-- ===== src/View/Examples.antt =====
-- A list of two files.
use sec_pro_gis.Base.{ℕ, ◌+◌, true, none, some, List, [], ◌∷◌, map, ℤ, pos, ◌≡◌, refl, arith}
use sec_pro_gis.Table.{append}
use sec_pro_gis.Table.Order.{text}
use sec_pro_gis.Query.{Config, Client, Session, exec_query_table, configured, no_port, append_rows}
use sec_pro_gis.Km.Store.Bounds.{IsShort}
use sec_pro_gis.View.{listed, add_enc_list}
use sec_pro_gis.View.Rows.{line_of, add_enc_list-line_of}

-- A server with two files; the second one has no remark.
abbrev two_files : Client
two_files = record {
  State = ℕ;
  init = λ s. (s, true);
  connect = λ s c. (s, true);
  query = λ s sql. (s, true);
  stored = λ s. true;
  to_ansi = λ str. str;
  rand = λ seed i. i;
  fetched = λ s.
      (some (97 ∷ [])
        ∷ some (57 ∷ [])
        ∷ some (53 ∷ [])
        ∷ some (102 ∷ [])
        ∷ some (114 ∷ [])
        ∷ some (111 ∷ [])
        ∷ [])
      ∷ (some (98 ∷ [])
          ∷ some (56 ∷ [])
          ∷ some (52 ∷ [])
          ∷ some (103 ∷ [])
          ∷ none
          ∷ some (111 ∷ [])
          ∷ [])
      ∷ [];
}

abbrev settings : Config
settings = record {
  db_usr = 117 ∷ [];
  db_pwd = 112 ∷ [];
  db_ip = 49 ∷ [];
  db_port = pos 3306;
  db = 100 ∷ [];
}

abbrev session : Session two_files
session = record { server = 0; handles = 0 }

abbrev as_text : ℤ → List ℕ
as_text (pos n) = (48 + n) ∷ []
as_text z = []

add_enc_list-line_of_example :
    (add_enc_list as_text as_text two_files settings session (109 ∷ []) (pos 1)).0
    ≡ listed (map (line_of as_text as_text (109 ∷ [])) (two_files.fetched 0))
unfolding IsShort exec_query_table configured no_port append_rows append text
add_enc_list-line_of_example =
    add_enc_list-line_of as_text as_text two_files settings session (109 ∷ []) (pos 1) refl
      (omega arith) refl (omega arith)
