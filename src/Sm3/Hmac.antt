-- ===== src/Sm3/Hmac.antt =====
-- The HMAC of sm3.cpp. `stack` is what the local context of the inner call of `sm3` held.
use sec_pro_gis.Base.{ℕ, zero, suc, ◌-◌, ◌*◌, ◌^◌, ◌≤◌, ◌<◌, List, [], ◌∷◌, ◌++◌, map, bit_xor, u8}
use sec_pro_gis.Base.{
  length, replicate, length-append, length-replicate, IsBytes, ltb, leb, ◌==◌, take, drop, ◌/◌,
  if◌then◌else◌, Bool, true, false, not, ◌&&◌, bit_and,
}
use sec_pro_gis.Base.{◌≡◌, refl, sym, ap, ap₂, ◌∙◌, arith}
use sec_pro_gis.Bits.Xor.{bit_xor_comm, bit_xor-zero_left, bit_xor-lt}
use sec_pro_gis.Sm3.Absorb.{absorb, block_loop-absorb}
use sec_pro_gis.Sm3.Stream.{Absorbed, starts-Absorbed, update-Absorbed}
use sec_pro_gis.Sm3.Digest.{hash, sm3-hash, finish-hash, finish-Absorbed, length-hash, hash-IsBytes}
use sec_pro_gis.Sm3.{
  Context, write_at, starts, process, store_rest, drain, count, update, finish, sm3,
}

-- The loop that mixes the key into a pad: `pad[i] ^ key[i]`.
xor_key : List ℕ → List ℕ → List ℕ
xor_key [] ks = []
xor_key (p ∷ ps) [] = p ∷ ps
xor_key (p ∷ ps) (k ∷ ks) = u8 (bit_xor p k) ∷ xor_key ps ks

-- `sm3_hmac_starts`
pub hmac_starts : Context → Context → List ℕ → Context
hmac_starts stack ctx key =
    let key' = if ltb 64 (length key) then sm3 stack key else key in
    let inner = xor_key (replicate 64 0x36) key' in
    let outer = xor_key (replicate 64 0x5c) key' in
    update (starts (record ctx { ipad = inner; opad = outer })) inner

-- `sm3_hmac_update`
pub hmac_update : Context → List ℕ → Context
hmac_update ctx input = update ctx input

-- `sm3_hmac_finish`
pub hmac_finish : Context → Context × List ℕ
hmac_finish ctx =
    let (ctx', tmpbuf) = finish ctx in finish (update (update (starts ctx') ctx'.opad) tmpbuf)

-- `sm3_hmac`
pub hmac : Context → Context → List ℕ → List ℕ → List ℕ
hmac stack ctx key input = (hmac_finish (hmac_update (hmac_starts stack ctx key) input)).1

-- The standard: the key, hashed if it is longer than a block, filled up with zeros.
pub block_key : List ℕ → List ℕ
block_key key = if ltb 64 (length key) then hash key else key

pub pad_key : ℕ → List ℕ → List ℕ
pad_key byte key =
    map (λ k. bit_xor k byte) (block_key key ++ replicate (64 - length (block_key key)) 0)

pub hmac_hash : List ℕ → List ℕ → List ℕ
hmac_hash key text = hash (pad_key 0x5c key ++ hash (pad_key 0x36 key ++ text))

-- The pads of a context pass through every call.
store_rest_opad :
    (left : ℕ) (ctx : Context) (rest : List ℕ) → (store_rest left (ctx, rest)).opad ≡ ctx.opad
unfolding store_rest
store_rest_opad left ctx rest = ground arith

drain_opad : (ctx : Context) (input : List ℕ) (left : ℕ) → (drain ctx input left).opad ≡ ctx.opad
unfolding drain
drain_opad ctx input left =
    rw (block_loop-absorb (length input) (length input / 64) ctx input (omega arith) refl) (
      store_rest_opad left (record ctx { state = absorb ctx.state (length input / 64) input })
        (drop (length input / 64 * 64) input))

if_opad :
    (b : Bool) (x y : Context) (o : List ℕ)
    → x.opad ≡ o
    → y.opad ≡ o
    → (if b then x else y).opad ≡ o
if_opad true x y o h k = h
if_opad false x y o h k = k

update_opad : (ctx : Context) (input : List ℕ) → (update ctx input).opad ≡ ctx.opad
unfolding update process count
update_opad ctx input =
    let left = bit_and ctx.total0 0x3f in
    let counted = count ctx (length input) in
    let full = write_at counted.buffer left (take (64 - left) input) in
    if_opad (length input == 0) ctx _ ctx.opad refl (
      if_opad (not (left == 0) && leb (64 - left) (length input)) _ _ ctx.opad
        (drain_opad (process (record counted { buffer = full }) full) (drop (64 - left) input) 0)
        (drain_opad counted input left))

finish_opad : (ctx : Context) → (finish ctx).0.opad ≡ ctx.opad
unfolding finish
finish_opad ctx = update_opad _ _ ∙ update_opad ctx _

map-zeros : (n byte : ℕ) → replicate n byte ≡ map (λ k. bit_xor k byte) (replicate n 0)
map-zeros zero byte = refl
map-zeros (suc n) byte = ap₂ ◌∷◌ (sym (bit_xor-zero_left byte)) (map-zeros n byte)

xor_key_none : (ps : List ℕ) → xor_key ps [] ≡ ps
unfolding xor_key
xor_key_none [] = refl
xor_key_none (p ∷ ps) = refl

u8_id : (x : ℕ) → x < 256 → u8 x ≡ x
u8_id x h = omega arith

xor_key-map :
    (n byte : ℕ) (ks : List ℕ)
    → byte < 256
    → length ks ≤ n
    → IsBytes ks
    → xor_key (replicate n byte) ks ≡ map (λ k. bit_xor k byte) (ks ++ replicate (n - length ks) 0)
unfolding xor_key
xor_key-map n byte [] b h k =
    xor_key_none (replicate n byte)
    ∙ map-zeros n byte
    ∙ ap (λ (t : ℕ). map (λ k. bit_xor k byte) (replicate t 0)) {x = n} {y = n - 0} (omega arith)
xor_key-map zero byte (x ∷ ks) b h k = absurd (omega arith)
xor_key-map (suc n) byte (x ∷ ks) b h k =
    ap₂ ◌∷◌ (u8_id (bit_xor byte x) (bit_xor-lt 8 byte x b k.0) ∙ bit_xor_comm byte x) (
      xor_key-map n byte ks b (omega arith) k.1
      ∙ ap (λ (t : ℕ). map (λ k. bit_xor k byte) (ks ++ replicate t 0)) {x = n - length ks}
          {y = suc n - suc (length ks)} (omega arith))

block_key-IsBytes : (key : List ℕ) → IsBytes key → IsBytes (block_key key)
unfolding block_key
block_key-IsBytes key h = if_bytes (ltb 64 (length key))
  where
    if_bytes : (b : Bool) → IsBytes (if b then hash key else key)
    if_bytes true = hash-IsBytes key
    if_bytes false = h

length-block_key : (key : List ℕ) → length (block_key key) ≤ 64
unfolding block_key
length-block_key key = ground (arith, length-hash key)

-- The two pads of `sm3_hmac_starts` are those of the standard.
xor_key-pad_key :
    (byte : ℕ) (key : List ℕ)
    → byte < 256
    → IsBytes key
    → xor_key (replicate 64 byte) (block_key key) ≡ pad_key byte key
unfolding pad_key
xor_key-pad_key byte key lt bytes =
    xor_key-map 64 byte (block_key key) lt (length-block_key key) (block_key-IsBytes key bytes)

-- `sm3_starts` and the first update, on a context that holds the two pads.
prepare : Context → List ℕ → List ℕ → Context
prepare ctx inner outer = update (starts (record ctx { ipad = inner; opad = outer })) inner

hmac_starts-prepare :
    (stack ctx : Context) (key : List ℕ)
    → length stack.buffer ≡ 64
    → length key < 2 ^ 31
    → IsBytes key
    → hmac_starts stack ctx key ≡ prepare ctx (pad_key 0x36 key) (pad_key 0x5c key)
unfolding hmac_starts prepare
hmac_starts-prepare stack ctx key hs len bytes =
    let hashed : (if ltb 64 (length key) then sm3 stack key else key) ≡ block_key key =
      unfold block_key in
      ap (λ (t : List ℕ). if ltb 64 (length key) then t else key) (sm3-hash stack key hs len) in
    ap₂ (prepare ctx)
      (ap (xor_key (replicate 64 0x36)) hashed ∙ xor_key-pad_key 0x36 key (omega arith) bytes)
      (ap (xor_key (replicate 64 0x5c)) hashed ∙ xor_key-pad_key 0x5c key (omega arith) bytes)

length-map : (f : ℕ → ℕ) (xs : List ℕ) → length (map f xs) ≡ length xs
length-map f [] = refl
length-map f (x ∷ xs) = ap suc (length-map f xs)

length-pad_key : (byte : ℕ) (key : List ℕ) → length (pad_key byte key) ≡ 64
unfolding pad_key
length-pad_key byte key =
    let zeros = replicate (64 - length (block_key key)) 0 in
    length-map (λ k. bit_xor k byte) (block_key key ++ zeros)
    ∙ length-append (block_key key) zeros
    ∙ omega (arith, length-replicate {A = ℕ} (64 - length (block_key key)) 0, length-block_key key)

prepare-Absorbed :
    (ctx : Context) (inner outer : List ℕ)
    → length ctx.buffer ≡ 64
    → length inner < 2 ^ 32
    → Absorbed inner (prepare ctx inner outer)
unfolding prepare
prepare-Absorbed ctx inner outer h lt =
    let keyed = record ctx { ipad = inner; opad = outer } in
    update-Absorbed [] inner (starts keyed) (starts-Absorbed keyed h) lt

prepare_opad : (ctx : Context) (inner outer : List ℕ) → (prepare ctx inner outer).opad ≡ outer
unfolding prepare starts
prepare_opad ctx inner outer = update_opad _ inner

-- The outer hash, from a context that stands for the inner message.
hmac_finish-hash :
    (m outer : List ℕ) (ctx : Context)
    → Absorbed m ctx
    → ctx.opad ≡ outer
    → length outer ≡ 64
    → (hmac_finish ctx).1 ≡ hash (outer ++ hash m)
unfolding hmac_finish
hmac_finish-hash m outer ctx h is_outer size =
    let after = (finish ctx).0 in
    let fresh = starts-Absorbed after (finish-Absorbed m ctx h).holds.buffer_length in
    let pad : after.opad ≡ outer = finish_opad ctx ∙ is_outer in
    let once = update-Absorbed [] after.opad (starts after) fresh (omega (arith, ap length pad)) in
    let inner = finish-hash m ctx h in
    let twice =
      update-Absorbed after.opad (finish ctx).1 (update (starts after) after.opad) once
        (omega (arith, ap length inner, length-hash m)) in
    finish-hash (after.opad ++ (finish ctx).1)
      (update (update (starts after) after.opad) (finish ctx).1) twice
    ∙ ap₂ (λ (x y : List ℕ). hash (x ++ y)) pad inner

-- `sm3_hmac` computes the HMAC of the standard over SM3, for keys and texts of every length that an
-- `int` can state, whatever the two contexts held.
pub hmac-hash :
    (stack ctx : Context) (key input : List ℕ)
    → length stack.buffer ≡ 64
    → length ctx.buffer ≡ 64
    → length key < 2 ^ 31
    → length input < 2 ^ 31
    → IsBytes key
    → hmac stack ctx key input ≡ hmac_hash key input
unfolding hmac hmac_update hmac_hash
hmac-hash stack ctx key input hs hc lk li bytes =
    let inner = pad_key 0x36 key in
    let outer = pad_key 0x5c key in
    let ready = prepare ctx inner outer in
    let short : length inner < 2 ^ 32 = omega (arith, length-pad_key 0x36 key) in
    ap (λ (t : Context). (hmac_finish (update t input)).1)
      (hmac_starts-prepare stack ctx key hs lk bytes)
    ∙ hmac_finish-hash (inner ++ input) outer (update ready input)
        (update-Absorbed inner input ready (prepare-Absorbed ctx inner outer hc short)
          (omega arith))
        (update_opad ready input ∙ prepare_opad ctx inner outer) (length-pad_key 0x5c key)
