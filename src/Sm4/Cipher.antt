-- ===== src/Sm4/Cipher.antt =====
-- One block of SM4 with the two schedules of a key.
use sec_pro_gis.Base.{ℕ, List, ◌≡◌, length}
use sec_pro_gis.Sm4.{Context, one_round, setkey_enc, setkey_dec}
use sec_pro_gis.Sm4.Keys.{setkey_dec-Reversed}
use sec_pro_gis.Sm4.Round.Block.{IsBlock, one_round_undo}

-- `sm4_one_round` with the schedule of `sm4_setkey_dec` gives back every block of 16 bytes that was
-- enciphered with the schedule of `sm4_setkey_enc` for the same key, whatever the contexts held.
pub one_round-setkey_undo :
    (ctx ctx' : Context) (key block output output' : List ℕ)
    → length ctx.sk ≡ 32
    → length ctx'.sk ≡ 32
    → IsBlock block
    → length output ≡ 16
    → length output' ≡ 16
    → one_round (setkey_dec ctx' key).sk (one_round (setkey_enc ctx key).sk block output) output'
      ≡ block
one_round-setkey_undo ctx ctx' key block output output' h h' b ho ho' =
    one_round_undo (setkey_enc ctx key).sk (setkey_dec ctx' key).sk block output output'
      (setkey_dec-Reversed ctx ctx' key h h') b ho ho'
