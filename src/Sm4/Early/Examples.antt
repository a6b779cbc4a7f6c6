-- ===== src/Sm4/Early/Examples.antt =====
-- Runs of encrypt.cpp.
use sec_pro_gis.Base.{replicate, get_or, ◌≡◌, arith}
use sec_pro_gis.Sm4.{Context}
use sec_pro_gis.Sm4.Modes.{crypt_ecb_16}
use sec_pro_gis.Sm4.Early.{setkey_early, ecb_early}
use sec_pro_gis.Sm4.Early.Same.{setkey_early_last, ecb_early-crypt_ecb_16}

abbrev used : Context
used = record { mode = 1; sk = replicate 32 7 }

setkey_early_last_example :
    get_or (setkey_early (replicate 32 7) (replicate 16 1)) 30 0 ≡ get_or (replicate 32 7) 30 0
setkey_early_last_example = setkey_early_last (replicate 32 7) (replicate 16 1) 30 (omega arith)

ecb_early-crypt_ecb_16_example :
    ecb_early used.sk 20 (replicate 20 65) (replicate 21 0)
    ≡ crypt_ecb_16 used 1 20 (replicate 20 65) (replicate 21 0)
ecb_early-crypt_ecb_16_example =
    ecb_early-crypt_ecb_16 used 1 20 (replicate 20 65) (replicate 21 0) (omega arith) (omega arith)
