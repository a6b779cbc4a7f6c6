-- ===== src/Sm3/Examples.antt =====
-- The digest of "abc" in the standard, and other runs of sm3.cpp.
use sec_pro_gis.Base.{ℕ, List, [], ◌∷◌, ◌≡◌, refl, replicate}
use sec_pro_gis.Base.{arith, some, true, ◌++◌, if◌then◌else◌}
use sec_pro_gis.Sm3.{sm3_file, opened}
use sec_pro_gis.Sm3.Stream.{Absorbed, starts-Absorbed, update-Absorbed}
use sec_pro_gis.Sm3.Digest.{hash, sm3-hash, joined, sm3_file-hash}
use sec_pro_gis.Sm3.Hmac.{hmac, hmac_hash, hmac-hash}
use sec_pro_gis.Endian.{be_bytes}
use sec_pro_gis.Sm3.{Context, sm3, finish, update, starts, drain, process, block_loop, store_rest}
use sec_pro_gis.Sm3.{count, padn, msglen, digest}
use sec_pro_gis.Sm3.Compress.{compress}

abbrev scratch : Context
scratch = record {
  total0 = 7;
  total1 = 1;
  state = [];
  buffer = replicate 64 9;
  ipad = replicate 64 0;
  opad = replicate 64 0;
}

digest_of_abc :
    sm3 scratch (0x61 ∷ 0x62 ∷ 0x63 ∷ [])
    ≡ 0x66 ∷ 0xc7 ∷ 0xf0 ∷ 0xf4 ∷ 0x62 ∷ 0xee ∷ 0xed ∷ 0xd9 ∷ 0xd1 ∷ 0xf2 ∷ 0xd4 ∷ 0x6b ∷ 0xdc
      ∷ 0x10 ∷ 0xe4 ∷ 0xe2 ∷ 0x41 ∷ 0x67 ∷ 0xc4 ∷ 0x87 ∷ 0x5c ∷ 0xf2 ∷ 0xf7 ∷ 0xa2 ∷ 0x29 ∷ 0x7d
      ∷ 0xa0 ∷ 0x2b ∷ 0x8f ∷ 0x4b ∷ 0xa8 ∷ 0xe0 ∷ []
unfolding sm3 finish update starts drain process block_loop store_rest count padn msglen digest
    compress be_bytes
digest_of_abc = refl

abbrev abc : List ℕ
abc = 0x61 ∷ 0x62 ∷ 0x63 ∷ []

update-Absorbed_example : Absorbed ([] ++ abc) (update (starts scratch) abc)
update-Absorbed_example =
    update-Absorbed [] abc (starts scratch) (starts-Absorbed scratch refl) (omega arith)

sm3-hash_example : sm3 scratch abc ≡ hash abc
sm3-hash_example = sm3-hash scratch abc refl (omega arith)

sm3_file-hash_example :
    sm3_file scratch (opened (abc ∷ abc ∷ []) true)
    ≡ (if true then 2 else 0, some (hash (joined (abc ∷ abc ∷ []))))
sm3_file-hash_example =
    sm3_file-hash scratch (abc ∷ abc ∷ []) true refl (omega arith, (omega arith, tt))

hmac-hash_example : hmac scratch scratch abc abc ≡ hmac_hash abc abc
hmac-hash_example =
    hmac-hash scratch scratch abc abc refl refl (omega arith) (omega arith) (ground arith)
