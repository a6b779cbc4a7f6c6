-- ===== src/Sm4/Examples.antt =====
-- The test vector that the head of sm4.cpp lists, and runs of the theorems of Sm4.
use sec_pro_gis.Base.{
  arith, IsBytes, take, drop, some, ◌++◌, ◌-◌, ◌*◌, ℕ, List, [], ◌∷◌, ◌≡◌, refl, replicate,
}
use sec_pro_gis.Sm4.{
  Context, one_round, setkey_enc, setkey_dec, sm4_encrypt, round_loop, setkey, setkey_loop,
  initial_k, calci_rk, f,
}
use sec_pro_gis.Sm4.Tables.{ck}
use sec_pro_gis.Sm4.Keys.{setkey_dec-setkey_enc}
use sec_pro_gis.Sm4.Round.{backwards, steps}
use sec_pro_gis.Sm4.Round.Block.{load, store, one_round-steps}
use sec_pro_gis.Sm4.Modes.{crypt_ecb_16, crypt_cbc}
use sec_pro_gis.Sm4.Modes.Ecb.{ecb_16, crypt_ecb_16-blocks, crypt_ecb_16_undo}
use sec_pro_gis.Sm4.Modes.Cbc.{crypt_cbc_undo}
use sec_pro_gis.Endian.{at}
use sec_pro_gis.Endian.{put_ulong_be, get_ulong_be}

abbrev vector_key : List ℕ
vector_key =
    0x01 ∷ 0x23 ∷ 0x45 ∷ 0x67 ∷ 0x89 ∷ 0xab ∷ 0xcd ∷ 0xef ∷ 0xfe ∷ 0xdc ∷ 0xba ∷ 0x98 ∷ 0x76 ∷ 0x54
    ∷ 0x32 ∷ 0x10 ∷ []

abbrev vector_cipher : List ℕ
vector_cipher =
    0x68 ∷ 0x1e ∷ 0xdf ∷ 0x34 ∷ 0xd2 ∷ 0x06 ∷ 0x96 ∷ 0x5e ∷ 0x86 ∷ 0xb3 ∷ 0xe9 ∷ 0x4f ∷ 0x53 ∷ 0x6e
    ∷ 0x42 ∷ 0x46 ∷ []

abbrev fresh : Context
fresh = record { mode = 0; sk = replicate 32 0 }

test_vector : one_round (setkey_enc fresh vector_key).sk vector_key (replicate 16 0) ≡ vector_cipher
unfolding one_round round_loop setkey_enc setkey setkey_loop initial_k calci_rk f ck put_ulong_be
    get_ulong_be
test_vector = refl

abbrev used : Context
used = record { mode = 1; sk = replicate 32 7 }

-- Twenty bytes: a block and a tail.
abbrev some_text : List ℕ
some_text = replicate 20 65

some_text-IsBytes : IsBytes some_text
some_text-IsBytes = ground arith

vector_key-IsBytes : IsBytes vector_key
vector_key-IsBytes = ground arith

setkey_dec-setkey_enc_example :
    at (setkey_dec used vector_key).sk 3 ≡ at (setkey_enc fresh vector_key).sk (31 - 3)
setkey_dec-setkey_enc_example =
    setkey_dec-setkey_enc fresh used vector_key 3 refl refl (omega arith)

one_round-steps_example :
    one_round (replicate 32 7) vector_key (replicate 16 0)
    ≡ store (backwards (steps (replicate 32 7) 32 0 (load vector_key)))
one_round-steps_example = one_round-steps (replicate 32 7) vector_key (replicate 16 0) refl

crypt_ecb_16-blocks_example :
    crypt_ecb_16 used sm4_encrypt 18 some_text (replicate 24 0)
    ≡ some (ecb_16 (replicate 32 7) (take 18 some_text) ++ drop 18 (replicate 24 0))
crypt_ecb_16-blocks_example =
    crypt_ecb_16-blocks used sm4_encrypt 18 some_text (replicate 24 0) (omega arith) (omega arith)

crypt_ecb_16_undo_example :
    (cipher : List ℕ) × (crypt_ecb_16
        (setkey_enc fresh vector_key)
        sm4_encrypt
        20
        some_text
        (replicate 20 0)
      ≡ some cipher)
    × (crypt_ecb_16 (setkey_dec used vector_key) 0 20 cipher (replicate 22 1)
        ≡ some (take 20 some_text ++ drop 20 (replicate 22 1)))
crypt_ecb_16_undo_example =
    crypt_ecb_16_undo fresh used vector_key sm4_encrypt 0 20 some_text (replicate 20 0)
      (replicate 22 1) refl refl some_text-IsBytes (omega arith) (omega arith) (omega arith)

crypt_cbc_undo_example :
    (iv' : List ℕ) × (cipher : List ℕ) × (crypt_cbc
        (setkey_enc fresh vector_key)
        sm4_encrypt
        (1 * 16)
        vector_key
        some_text
        (replicate 16 0)
      ≡ some (iv', cipher))
    × (crypt_cbc (setkey_dec used vector_key) 0 (1 * 16) vector_key cipher (replicate 18 1)
        ≡ some (iv', take (1 * 16) some_text ++ drop (1 * 16) (replicate 18 1)))
crypt_cbc_undo_example =
    crypt_cbc_undo fresh used vector_key 0 1 vector_key some_text (replicate 16 0) (replicate 18 1)
      refl refl (ground arith) some_text-IsBytes (refl, vector_key-IsBytes) (omega arith)
      (omega arith) (omega arith)
