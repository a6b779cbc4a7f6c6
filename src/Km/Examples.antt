-- ===== src/Km/Examples.antt =====
-- A service that expires at 100.
use sec_pro_gis.Base.{true, refl, ℕ, some, List, [], ◌++◌, ◌≡◌, arith, length, drop, replicate, All}
use sec_pro_gis.Base.{pos}
use sec_pro_gis.Word.{empty}
use sec_pro_gis.Base.{Option, none, ◌∷◌}
use sec_pro_gis.Hex.{sprint_hex}
use sec_pro_gis.Word.Value.{word_of}
use sec_pro_gis.Table.Order.{text}
use sec_pro_gis.Base.{◌≢◌, ◌/◌}
use sec_pro_gis.Base.{◌+◌, ◌^◌, ◌<◌}
use sec_pro_gis.Km.Store.Bounds.{IsShort, service-StoreFits}
use sec_pro_gis.Km.Store.Accepted.{StoreFits}
use sec_pro_gis.Query.{Config, Client, Session}
use sec_pro_gis.Km.Store.{printed}
use sec_pro_gis.Km.Store.Raw.{restore_row-printed}
use sec_pro_gis.Km.Restore.{restore_row}
use sec_pro_gis.Km.Restore.Key.{row_of}
use sec_pro_gis.Km.{Serv, gen_key, get_skey}
use sec_pro_gis.Km.Keys.{IsAlnum, gen_key-get_skey}

abbrev service : Serv
service = record {
  organization = pos 1;
  md5_plaint = empty;
  md5_cipher = empty;
  skey = empty;
  expire_t = pos 100;
  enc_t = pos 0;
}

abbrev count_up : ℕ → ℕ → ℕ
count_up seed i = seed + i

gen_key-get_skey_example :
    (key : List ℕ) × (length key ≡ 16)
    × All IsAlnum key
    × (get_skey (gen_key service 16 count_up 7).0 50 (some (replicate 20 0))
        ≡ (pos 0, some (key ++ drop 16 (replicate 20 0))))
    × (length (key ++ drop 16 (replicate 20 0)) ≡ length {A = ℕ} (replicate 20 0))
gen_key-get_skey_example =
    gen_key-get_skey service 16 count_up 7 50 100 (replicate 20 0) (omega arith) (omega arith) refl
      (ground arith) (omega arith)

abbrev key : List ℕ
key = 10 ∷ 200 ∷ 65 ∷ []

abbrev stored_row : List (Option (List ℕ))
stored_row =
    some (49 ∷ []) ∷ some (97 ∷ 98 ∷ []) ∷ none ∷ some (sprint_hex key) ∷ some (57 ∷ 57 ∷ []) ∷ []

abbrev one_key : Client
one_key = record {
  State = ℕ;
  init = λ s. (s + 1, true);
  connect = λ s c. (s, true);
  query = λ s sql. (s, true);
  stored = λ s. true;
  to_ansi = λ str. str;
  rand = λ seed i. i;
  fetched = λ s. stored_row ∷ [];
}

abbrev settings : Config
settings = record {
  db_usr = 117 ∷ [];
  db_pwd = 112 ∷ [];
  db_ip = 49 ∷ [];
  db_port = pos 3306;
  db = 100 ∷ [];
}

abbrev session : Session one_key
session = record { server = 0; handles = 0 }

abbrev asking : Serv
asking = record service { md5_cipher = word_of (99 ∷ []) }

abbrev holder : Serv
holder = record service { skey = word_of key }

abbrev printed_row : List (Option (List ℕ))
printed_row =
    some (49 ∷ [])
    ∷ some (97 ∷ 98 ∷ [])
    ∷ none
    ∷ some (printed holder (pos 1)).skey_s
    ∷ some (57 ∷ 57 ∷ [])
    ∷ []

restore_row-printed_example :
    let r = restore_row service (row_of printed_row) in
    (r.0 ≡ pos 0) × (r.1.skey.len ≡ 3 / 2) × (r.1.skey ≢ holder.skey)
unfolding text
restore_row-printed_example =
    restore_row-printed holder service (pos 1) key printed_row refl (omega arith) (ground arith)
      (omega arith) (omega arith) refl (omega arith)

short : (n : ℕ) → n < 10 ^ 10 → IsShort (pos n)
unfolding IsShort
short n h = h

service-StoreFits_example : StoreFits one_key settings (replicate 7 115) (pos 1) (record {
  organization = pos 3;
  md5_plaint = word_of (replicate 64 97);
  md5_cipher = word_of (replicate 64 98);
  skey = word_of (replicate 16 65);
  expire_t = pos 9999999999;
  enc_t = pos 1500000000;
})
service-StoreFits_example =
    service-StoreFits one_key settings (replicate 7 115) (pos 1) (pos 3) (pos 9999999999)
      (pos 1500000000) (replicate 64 97) (replicate 64 98) (replicate 16 65) (omega arith)
      (omega arith) (omega arith) (omega arith) (short 3 (omega arith))
      (short 9999999999 (omega arith)) (short 1 (omega arith)) (short 1500000000 (omega arith))
