-- ===== src/Sm3.antt =====
-- sm3.cpp: the SM3 hash with its streaming interface, and HMAC. A call's `input` and `ilen` are one
-- list of bytes; the buffers of a context are lists of 64 bytes.
pub mod Compress
pub mod Absorb
pub mod Stream
pub mod Digest
pub mod Hmac
mod Examples
use mathlib.Core.Bool.{not}
use sec_pro_gis.Base.{ℕ, zero, suc, ◌+◌, ◌-◌, ◌*◌, Bool, ◌&&◌, Option, none, some, List, [], ◌∷◌}
use sec_pro_gis.Base.{◌++◌, bit_and, bit_or, bit_xor, u8, u32, ◌<<◌, ◌>>◌, length, take, drop, set}
use sec_pro_gis.Base.{replicate, ltb, leb, ◌==◌, if◌then◌else◌}
use sec_pro_gis.Endian.{at, be_bytes}
use Compress.{compress}

-- `sm3_context`
pub record Context : Type 0 where
  pub total0 : ℕ
  pub total1 : ℕ
  pub state : List ℕ
  pub buffer : List ℕ
  pub ipad : List ℕ
  pub opad : List ℕ

abbrev pub initial_state : List ℕ
initial_state =
    0x7380166f ∷ 0x4914b2b9 ∷ 0x172442d7 ∷ 0xda8a0600 ∷ 0xa96f30bc ∷ 0x163138aa ∷ 0xe38dee4d
    ∷ 0xb0fb0e4e ∷ []

-- `sm3_starts`
pub starts : Context → Context
starts ctx = record ctx { total0 = 0; total1 = 0; state = initial_state }

-- `sm3_process`
pub process : Context → List ℕ → Context
process ctx block = record ctx { state = compress ctx.state block }

-- `memcpy(buffer + i, bytes, ...)`, within the buffer.
abbrev pub write_at : List ℕ → ℕ → List ℕ → List ℕ
write_at buffer i bytes = take i buffer ++ (bytes ++ drop (i + length bytes) buffer)

-- The `while` loop of `sm3_update`: the context after it, and the input that is left. The fuel is
-- the number of rounds that are left at most.
pub block_loop : ℕ → Context → List ℕ → Context × List ℕ
block_loop zero ctx input = (ctx, input)
block_loop (suc fuel) ctx input =
    let rest = block_loop fuel (process ctx (take 64 input)) (drop 64 input) in
    if leb 64 (length input) then rest else (ctx, input)

-- The rest of `sm3_update` from the loop on.
pub store_rest : ℕ → Context × List ℕ → Context
store_rest left (ctx, rest) =
    if length rest == 0 then ctx else record ctx { buffer = write_at ctx.buffer left rest }

pub drain : Context → List ℕ → ℕ → Context
drain ctx input left = store_rest left (block_loop (length input) ctx input)

-- The byte counter: `total[0] += ilen` with its carry.
pub count : Context → ℕ → Context
count ctx ilen =
    let low = u32 (ctx.total0 + ilen) in
    record ctx {
      total0 = low;
      total1 = if ltb low (u32 ilen) then u32 (ctx.total1 + 1) else ctx.total1;
    }

-- `sm3_update`
pub update : Context → List ℕ → Context
update ctx input =
    let ilen = length input in
    let left = bit_and ctx.total0 0x3f in
    let fill = 64 - left in
    let counted = count ctx ilen in
    let full = write_at counted.buffer left (take fill input) in
    if ilen == 0
    then ctx
    else if not (left == 0) && leb fill ilen
    then drain (process (record counted { buffer = full }) full) (drop fill input) 0
    else drain counted input left

-- `sm3_padding`
abbrev pub padding : List ℕ
padding = 0x80 ∷ replicate 63 0

-- `padn` for a message of `last` bytes past its last whole block.
pub padn : ℕ → ℕ
padn last = if ltb last 56 then 56 - last else 120 - last

-- `msglen`: the length in bits, in eight bytes.
pub msglen : Context → List ℕ
msglen ctx =
    be_bytes (bit_or (ctx.total0 >> 29) (u32 (ctx.total1 << 3))) ++ be_bytes (u32 (ctx.total0 << 3))

-- The eight stores of the state into `output`.
pub digest : List ℕ → List ℕ
digest [] = []
digest (x ∷ xs) = be_bytes x ++ digest xs

-- `sm3_finish`: the context after it, and the digest.
pub finish : Context → Context × List ℕ
finish ctx =
    let last = bit_and ctx.total0 0x3f in
    let ctx' = update (update ctx (take (padn last) padding)) (msglen ctx) in
    (ctx', digest ctx'.state)

-- `sm3`, on whatever the stack held.
pub sm3 : Context → List ℕ → List ℕ
sm3 ctx input = (finish (update (starts ctx) input)).1

-- The loop of `sm3_file` over the pieces that `fread` returns until it returns 0.
pub update_all : Context → List (List ℕ) → Context
update_all ctx [] = ctx
update_all ctx (piece ∷ pieces) = update_all (update ctx piece) pieces

-- What the file functions do: `fopen` fails, or `fread` returns the pieces and `ferror` the flag.
pub data File : Type 0 where
  missing : File
  opened : List (List ℕ) → Bool → File

-- `sm3_file`: the return code, and the digest if `output` is written.
pub sm3_file : Context → File → ℕ × Option (List ℕ)
sm3_file ctx missing = (1, none)
sm3_file ctx (opened pieces failed) =
    let output = (finish (update_all (starts ctx) pieces)).1 in
    (if failed then 2 else 0, some output)
