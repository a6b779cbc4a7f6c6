-- ===== src/Sm4/Keys.antt =====
-- The key schedules: `sm4_setkey` overwrites all of its target, and the decryption schedule is
-- the encryption schedule backwards.
use sec_pro_gis.Base.{
  replicate, ℕ, zero, suc, ◌+◌, ◌-◌, ◌≤◌, ◌<◌, List, ◌≡◌, ◌≢◌, ◌⊎◌, refl, sym, ap,
}
use sec_pro_gis.Base.{◌∙◌, arith, set, length, length-set, get_or-set_self, get_or-set_ne, min}
use sec_pro_gis.Base.{get_or_ext}
use native.Mathlib.Decide.{ℕ_discrete}
use sec_pro_gis.Endian.{at}
use sec_pro_gis.Sm4.Tables.{ck}
use sec_pro_gis.Sm4.{
  ◌⊕◌, calci_rk, initial_k, Context, setkey, setkey_loop, setkey_enc, setkey_dec, swap_keys,
  swap_loop,
}
use sec_pro_gis.Sm4.Round.{Reversed}

-- The two arrays agree below `i`.
abbrev Agree : ℕ → List ℕ → List ℕ → Type 0
Agree i sk sk' = (j : ℕ) → j < i → at sk j ≡ at sk' j

Agree-set :
    (i v : ℕ) (sk sk' : List ℕ)
    → i < length sk
    → i < length sk'
    → Agree i sk sk'
    → Agree (i + 1) (set sk i v) (set sk' i v)
Agree-set i v sk sk' h h' agree j p = ground (
  arith,
  agree j,
  get_or-set_self sk i v 0,
  get_or-set_self sk' i v 0,
  get_or-set_ne sk i j v 0,
  get_or-set_ne sk' i j v 0,
)

setkey_loop-Agree :
    (n i : ℕ) (k sk sk' : List ℕ)
    → i + n ≤ length sk
    → length sk ≡ length sk'
    → Agree i sk sk'
    → Agree (i + n) (setkey_loop n i k sk) (setkey_loop n i k sk')
unfolding setkey_loop
setkey_loop-Agree zero i k sk sk' h e agree j p = agree j (omega arith)
setkey_loop-Agree (suc n) i k sk sk' h e agree j p =
    let v = at k i ⊕ calci_rk (at k (i + 1) ⊕ at k (i + 2) ⊕ at k (i + 3) ⊕ at ck i) in
    setkey_loop-Agree n (i + 1) (set k (i + 4) v) (set sk i v) (set sk' i v)
      (rw (length-set sk i v) (omega arith)) (length-set sk i v ∙ e ∙ sym (length-set sk' i v))
      (Agree-set i v sk sk' (omega arith) (omega arith) agree) j (omega arith)

length-setkey_loop : (n i : ℕ) (k sk : List ℕ) → length (setkey_loop n i k sk) ≡ length sk
unfolding setkey_loop
length-setkey_loop zero i k sk = refl
length-setkey_loop (suc n) i k sk =
    let v = at k i ⊕ calci_rk (at k (i + 1) ⊕ at k (i + 2) ⊕ at k (i + 3) ⊕ at ck i) in
    length-setkey_loop n (i + 1) (set k (i + 4) v) (set sk i v) ∙ length-set sk i v

pub length-setkey : (sk key : List ℕ) → length (setkey sk key) ≡ length sk
unfolding setkey
length-setkey sk key = length-setkey_loop 32 0 (initial_k key) sk

-- `sm4_setkey` writes all 32 round keys: two arrays of this size have the same keys after it, whatever
-- they held before.
pub setkey_fresh :
    (sk sk' key : List ℕ) → length sk ≡ 32 → length sk' ≡ 32 → setkey sk key ≡ setkey sk' key
unfolding setkey
setkey_fresh sk sk' key h h' =
    let k = initial_k key in
    let same_length =
      length-setkey_loop 32 0 k sk ∙ h ∙ sym h' ∙ sym (length-setkey_loop 32 0 k sk') in
    get_or_ext 0 (setkey_loop 32 0 k sk) (setkey_loop 32 0 k sk') same_length λ j p.
      setkey_loop-Agree 32 0 k sk sk' (omega arith) (h ∙ sym h') (λ m q. absurd (omega arith)) j
        (omega (arith, length-setkey_loop 32 0 k sk))

-- The schedule of a key, whatever the context held before.
pub schedule : List ℕ → List ℕ
schedule key = setkey (replicate 32 0) key

pub setkey_enc-schedule :
    (ctx : Context) (key : List ℕ) → length ctx.sk ≡ 32 → (setkey_enc ctx key).sk ≡ schedule key
unfolding setkey_enc schedule
setkey_enc-schedule ctx key h = setkey_fresh ctx.sk (replicate 32 0) key h refl

pub length-setkey_enc :
    (ctx : Context) (key : List ℕ) → length ctx.sk ≡ 32 → length (setkey_enc ctx key).sk ≡ 32
unfolding setkey_enc
length-setkey_enc ctx key h = length-setkey ctx.sk key ∙ h

-- Which exchange of the loop moves entry `j`.
abbrev turn : ℕ → ℕ
turn j = min j (31 - j)

swap_keys-turn :
    (sk : List ℕ) (i j : ℕ)
    → length sk ≡ 32
    → i < 16
    → j < 32
    → turn j ≡ i
    → at (swap_keys sk i) j ≡ at sk (31 - j)
unfolding swap_keys
swap_keys-turn sk i j len hi hj e = ground (
  arith,
  get_or-set_self (set sk i (at sk (31 - i))) (31 - i) (at sk i) 0,
  get_or-set_ne (set sk i (at sk (31 - i))) (31 - i) j (at sk i) 0,
  get_or-set_self sk i (at sk (31 - i)) 0,
  length-set sk i (at sk (31 - i)),
)

swap_keys_other :
    (sk : List ℕ) (i j : ℕ) → i < 16 → j < 32 → turn j ≢ i → at (swap_keys sk i) j ≡ at sk j
unfolding swap_keys
swap_keys_other sk i j hi hj ne =
    get_or-set_ne (set sk i (at sk (31 - i))) (31 - i) j (at sk i) 0 (omega arith)
    ∙ get_or-set_ne sk i j (at sk (31 - i)) 0 (omega arith)

length-swap_keys : (sk : List ℕ) (i : ℕ) → length (swap_keys sk i) ≡ length sk
unfolding swap_keys
length-swap_keys sk i =
    length-set (set sk i (at sk (31 - i))) (31 - i) (at sk i) ∙ length-set sk i (at sk (31 - i))

swap_loop_other :
    (n i : ℕ) (sk : List ℕ) (j : ℕ)
    → i + n ≤ 16
    → j < 32
    → (turn j < i) ⊎ (i + n ≤ turn j)
    → at (swap_loop n i sk) j ≡ at sk j
unfolding swap_loop
swap_loop_other zero i sk j h hj out = refl
swap_loop_other (suc n) i sk j h hj out =
    swap_loop_other n (i + 1) (swap_keys sk i) j (omega arith) hj (omega arith)
    ∙ swap_keys_other sk i j (omega arith) hj (omega arith)

swap_loop-turn :
    (n i : ℕ) (sk : List ℕ) (j : ℕ)
    → length sk ≡ 32
    → i + n ≤ 16
    → j < 32
    → i ≤ turn j
    → turn j < i + n
    → at (swap_loop n i sk) j ≡ at sk (31 - j)
unfolding swap_loop
swap_loop-turn zero i sk j len h hj lo hi = absurd (omega arith)
swap_loop-turn (suc n) i sk j len h hj lo hi = elim (ℕ_discrete (turn j) i) [
  | yes e ↦
      swap_loop_other n (i + 1) (swap_keys sk i) j (omega arith) hj (omega arith)
      ∙ swap_keys-turn sk i j len (omega arith) hj e
  | no ne ↦
      swap_loop-turn n (i + 1) (swap_keys sk i) j (length-swap_keys sk i ∙ len) (omega arith) hj
        (omega arith) (omega arith)
      ∙ swap_keys_other sk i (31 - j) (omega arith) (omega arith) (omega arith)
]

-- Whatever the two contexts held, `sm4_setkey_dec` leaves the round keys of `sm4_setkey_enc` in the
-- opposite order.
pub setkey_dec-Reversed :
    (ctx ctx' : Context) (key : List ℕ)
    → length ctx.sk ≡ 32
    → length ctx'.sk ≡ 32
    → Reversed (setkey_enc ctx key).sk (setkey_dec ctx' key).sk 32 0 0
unfolding setkey_enc setkey_dec
setkey_dec-Reversed ctx ctx' key h h' m p =
    ap (at (swap_loop 16 0 (setkey ctx'.sk key))) {x = 0 + m} {y = m} (omega arith)
    ∙ swap_loop-turn 16 0 (setkey ctx'.sk key) m (length-setkey ctx'.sk key ∙ h') (omega arith) p
        (omega arith) (omega arith)
    ∙ ap (λ (t : List ℕ). at t (31 - m)) (setkey_fresh ctx'.sk ctx.sk key h' h)

-- `sm4_setkey_dec` leaves the round keys of `sm4_setkey_enc` in the opposite order, whatever the two
-- contexts held.
pub setkey_dec-setkey_enc :
    (ctx ctx' : Context) (key : List ℕ) (j : ℕ)
    → length ctx.sk ≡ 32
    → length ctx'.sk ≡ 32
    → j < 32
    → at (setkey_dec ctx' key).sk j ≡ at (setkey_enc ctx key).sk (31 - j)
setkey_dec-setkey_enc ctx ctx' key j h h' lt =
    ap (at (setkey_dec ctx' key).sk) {x = j} {y = 0 + j} (omega arith)
    ∙ setkey_dec-Reversed ctx ctx' key h h' j lt
    ∙ ap (at (setkey_enc ctx key).sk) (omega arith)
