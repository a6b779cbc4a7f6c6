-- ===== src/Km/Store/Bounds.antt =====
-- How long the statements of `store` become.
use sec_pro_gis.Base.{
  ℕ, zero, suc, ◌+◌, ◌/◌, ◌%◌, ◌^◌, ◌≤◌, ◌<◌, List, [], ◌∷◌, ◌++◌, length, length-append, replicate,
  ltb, lt→ltb, ℤ, pos, negsuc,
}
use sec_pro_gis.Base.{◌≡◌, arith, Bool-cases, inl, inr}
use native.Mathlib.Nat.{pow-suc}
use sec_pro_gis.Word.{empty}
use sec_pro_gis.Word.Value.{word_of}
use sec_pro_gis.Text.{c_str, or_empty, before_zero}
use sec_pro_gis.Query.{Client, Config}
use sec_pro_gis.Km.{Serv}
use sec_pro_gis.Km.Restore.{print_digits, print_int}
use sec_pro_gis.Km.Store.{Printed, printed, known_query, insert_query, update_query, store_query}
use sec_pro_gis.Km.Store.Accepted.{StoreFits}

-- A number of ten digits at most.
unfoldable pub IsShort : ℤ → Type 0
IsShort (pos n) = n < 10 ^ 10
IsShort (negsuc n) = n + 1 < 10 ^ 10

length-print_digits : (k fuel n : ℕ) → n < 10 ^ suc k → length (print_digits fuel n) ≤ suc k
unfolding print_digits
length-print_digits k zero n h = omega arith
length-print_digits zero (suc fuel) n h = rw (lt→ltb n 10 (omega (arith, h))) (omega arith)
length-print_digits (suc k) (suc fuel) n h =
    let more = pow-suc 10 (suc k) in
    let front = print_digits fuel (n / 10) in
    let rest = length-print_digits k fuel (n / 10) (omega (arith, h, more)) in
    elim (Bool-cases (ltb n 10)) [
      | inl e ↦ rw e (omega arith)
      | inr e ↦ rw e (omega (arith, rest, length-append front ((48 + n % 10) ∷ [])))
    ]

pub length-print_int : (z : ℤ) → IsShort z → length (print_int z) ≤ 11
unfolding print_int IsShort
length-print_int (pos n) h = omega (arith, length-print_digits 9 (suc n) n h)
length-print_int (negsuc n) h =
    omega (arith, length-print_digits 9 (suc (suc n)) (suc n) (omega (arith, h)))

length-before_zero : (b : List ℕ) → length (before_zero (b ++ replicate 3 0)) ≤ length b
unfolding before_zero
length-before_zero [] = omega arith
length-before_zero (zero ∷ b) = omega arith
length-before_zero (suc c ∷ b) = omega (arith, length-before_zero b)

pub length-c_str : (b : List ℕ) → length (or_empty (c_str (word_of b))) ≤ length b
unfolding c_str or_empty word_of empty
length-c_str [] = omega arith
length-c_str (x ∷ b) = length-before_zero (x ∷ b)

-- The characters that a statement takes from the service.
abbrev taken : List ℕ → Printed → ℕ
taken sk_table p =
    length sk_table
    + length p.org
    + length p.md5_p
    + length p.md5_c
    + length p.skey_s
    + length p.expire
    + length p.adm
    + length p.enc_tm

length-insert_query :
    (sk_table : List ℕ) (p : Printed) → length (insert_query sk_table p) ≤ 99 + taken sk_table p
length-insert_query sk_table p = simp length-append (omega arith)

length-update_query :
    (sk_table : List ℕ) (p : Printed) → length (update_query sk_table p) ≤ 99 + taken sk_table p
length-update_query sk_table p = simp length-append (omega arith)

length-store_query :
    (sk_table : List ℕ) (p : Printed) (size : ℕ)
    → length (store_query sk_table p size) ≤ 99 + taken sk_table p
unfolding store_query
length-store_query sk_table p size = elim (Bool-cases (ltb size 1)) [
  | inl e ↦ rw e (length-insert_query sk_table p)
  | inr e ↦ rw e (length-update_query sk_table p)
]

length-known_query :
    (sk_table md5_c : List ℕ)
    → length (known_query sk_table md5_c) ≡ 32 + length sk_table + length md5_c
length-known_query sk_table md5_c = simp length-append (omega arith)

-- The statements of `store` fit their buffers when the digests have at most 64 digits, the key at most
-- 16 characters, the numbers at most ten digits, and the name of the table at most 12 characters.
pub service-StoreFits :
    (client : Client) (c : Config) (sk_table : List ℕ) (admin org expire enc : ℤ)
    (md5_p md5_c key : List ℕ)
    → length sk_table ≤ 12
    → length md5_p ≤ 64
    → length md5_c ≤ 64
    → length key ≤ 16
    → IsShort org
    → IsShort expire
    → IsShort admin
    → IsShort enc
    → StoreFits client c sk_table admin (record {
      organization = org;
      md5_plaint = word_of md5_p;
      md5_cipher = word_of md5_c;
      skey = word_of key;
      expire_t = expire;
      enc_t = enc;
    })
unfolding printed
service-StoreFits client c sk_table admin org expire enc md5_p md5_c key ht hp hc hk ho he ha hn =
    let s : Serv = record {
      organization = org;
      md5_plaint = word_of md5_p;
      md5_cipher = word_of md5_c;
      skey = word_of key;
      expire_t = expire;
      enc_t = enc;
    } in
    let cipher = length-c_str md5_c in
    (
      omega (arith, length-known_query sk_table (or_empty (c_str (word_of md5_c))), cipher),
      λ size. omega (
        arith,
        length-store_query sk_table (printed s admin) size,
        length-c_str md5_p,
        cipher,
        length-c_str key,
        length-print_int org ho,
        length-print_int expire he,
        length-print_int admin ha,
        length-print_int enc hn,
      ),
    )
