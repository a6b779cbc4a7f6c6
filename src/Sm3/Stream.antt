-- ===== src/Sm3/Stream.antt =====
-- `sm3_update` appends its input to the message that a context stands for.
use sec_pro_gis.Base.{ℕ, suc, ◌+◌, ◌-◌, ◌*◌, ◌/◌, ◌%◌, ◌^◌, ◌≤◌, ◌<◌, List, [], ◌∷◌, ◌++◌}
use sec_pro_gis.Base.{
  append_assoc, append-nil, length, take, drop, ◌≡◌, refl, sym, ap, ap₂, ◌∙◌, arith,
}
use sec_pro_gis.Base.{length-append, length-take, length-drop, take_all, drop_all, take-append-drop}
use sec_pro_gis.Base.{
  ◌≢◌, ◌⊎◌, inl, inr, bit_and, u32, lt→ltb, le→ltb, if◌then◌else◌, not, ◌&&◌, leb, ◌==◌, subst₂,
}
use native.Mathlib.Decide.{ℕ_discrete, dec_lt, dec_le}
use sec_pro_gis.Bits.Fields.{bit_and-mask}
use sec_pro_gis.Sm3.Compress.{compress}
use sec_pro_gis.Sm3.Absorb.{
  absorb, absorb-zero, absorb-suc, absorb-append, absorb-append_le, Holds, drain-Holds,
  block_loop-absorb,
}
use sec_pro_gis.Sm3.{
  Context, initial_state, starts, process, write_at, store_rest, drain, count, update,
}

-- `ctx` stands for the message `m`: its state and buffer, and the byte counter modulo 2 ^ 64.
pub record Absorbed (m : List ℕ) (ctx : Context) : Type 0 where
  pub holds : Holds initial_state m ctx
  pub low : ctx.total0 ≡ length m % 2 ^ 32
  pub high : ctx.total1 ≡ length m / 2 ^ 32 % 2 ^ 32

-- A started context stands for the empty message.
pub starts-Absorbed : (ctx : Context) → length ctx.buffer ≡ 64 → Absorbed [] (starts ctx)
unfolding starts
starts-Absorbed ctx h = record {
  holds = record {
    state_is = sym (absorb-zero initial_state []);
    buffer_length = h;
    buffer_is = refl;
  };
  low = refl;
  high = refl;
}

store_rest_totals :
    (left : ℕ) (ctx : Context) (rest : List ℕ)
    → ((store_rest left (ctx, rest)).total0 ≡ ctx.total0)
      × ((store_rest left (ctx, rest)).total1 ≡ ctx.total1)
unfolding store_rest
store_rest_totals left ctx rest = ground arith

drain_totals :
    (ctx : Context) (input : List ℕ) (left : ℕ)
    → ((drain ctx input left).total0 ≡ ctx.total0) × ((drain ctx input left).total1 ≡ ctx.total1)
unfolding drain
drain_totals ctx input left =
    rw (block_loop-absorb (length input) (length input / 64) ctx input (omega arith) refl) (
      store_rest_totals left (record ctx { state = absorb ctx.state (length input / 64) input })
        (drop (length input / 64 * 64) input))

-- The counter counts, through the carry.
count_totals :
    (m : List ℕ) (n : ℕ) (ctx : Context)
    → Absorbed m ctx
    → n < 2 ^ 32
    → ((count ctx n).total0 ≡ (length m + n) % 2 ^ 32)
      × ((count ctx n).total1 ≡ (length m + n) / 2 ^ 32 % 2 ^ 32)
unfolding count
count_totals m n ctx h lt =
    let sum : u32 (ctx.total0 + n) ≡ (length m + n) % 2 ^ 32 = omega (arith, h.low) in
    let small : u32 n ≡ n = omega arith in
    (
      sum,
      elim (dec_lt ((length m + n) % 2 ^ 32) n) [
        | yes wraps ↦
            rw (sum, small, lt→ltb ((length m + n) % 2 ^ 32) n wraps) (omega (arith, h.high))
        | no fits ↦
            rw (sum, small, le→ltb ((length m + n) % 2 ^ 32) n (omega arith))
              (omega (arith, h.high))
      ],
    )

pub left-eq :
    (m : List ℕ) (ctx : Context) → Absorbed m ctx → bit_and ctx.total0 0x3f ≡ length m % 64
left-eq m ctx h = bit_and-mask 6 ctx.total0 ∙ omega (arith, h.low)

count-Holds : (s m : List ℕ) (n : ℕ) (ctx : Context) → Holds s m ctx → Holds s m (count ctx n)
unfolding count
count-Holds s m n ctx h = record {
  state_is = h.state_is;
  buffer_length = h.buffer_length;
  buffer_is = h.buffer_is;
}

absorb_one : (s m : List ℕ) → absorb s 1 m ≡ compress s (take 64 m)
absorb_one s m = absorb-suc s 0 m ∙ absorb-zero (compress s (take 64 m)) (drop 64 m)

-- A buffer that the input fills is compressed as the next block of the message.
fill-Holds :
    (s m piece : List ℕ) (ctx : Context)
    → Holds s m ctx
    → length m % 64 + length piece ≡ 64
    → length m % 64 ≢ 0
    → let full = write_at ctx.buffer (length m % 64) piece in
      Holds s (m ++ piece) (process (record ctx { buffer = full }) full)
unfolding process
fill-Holds s m piece ctx h e ne =
    let q = length m / 64 in
    let front = take (q * 64) m in
    let block = drop (q * 64) m ++ piece in
    let past : drop (length m % 64 + length piece) ctx.buffer ≡ [] =
      drop_all (length m % 64 + length piece) ctx.buffer (omega (arith, h.buffer_length)) in
    let full : write_at ctx.buffer (length m % 64) piece ≡ block =
      ap₂ ◌++◌ h.buffer_is (ap (λ (t : List ℕ). piece ++ t) past ∙ append-nil piece) in
    let size : length block ≡ 64 =
      length-append (drop (q * 64) m) piece ∙ omega (arith, length-drop (q * 64) m) in
    let whole : length (m ++ piece) ≡ suc q * 64 = length-append m piece ∙ omega arith in
    let split : front ++ block ≡ m ++ piece =
      sym (append_assoc front (drop (q * 64) m) piece)
      ∙ ap (λ (t : List ℕ). t ++ piece) (take-append-drop (q * 64) m) in
    let before : absorb s q front ≡ absorb s q m =
      sym (absorb-append_le s q front (drop (q * 64) m) (omega (arith, length-take (q * 64) m)))
      ∙ ap (absorb s q) (take-append-drop (q * 64) m) in
    let state : compress ctx.state block ≡ absorb s (length (m ++ piece) / 64) (m ++ piece) =
      ap (λ (t : List ℕ). compress t block) (h.state_is ∙ sym before)
      ∙ ap (compress (absorb s q front)) (sym (take_all 64 block (omega arith)))
      ∙ sym (absorb_one (absorb s q front) block)
      ∙ sym (absorb-append s q 1 front block (length-take (q * 64) m ∙ omega arith))
      ∙ ap₂ (absorb s) {x = q + 1} {y = length (m ++ piece) / 64} (omega (arith, whole)) split in
    rw full (record {
      state_is = state;
      buffer_length = size;
      buffer_is =
          ap (λ (t : ℕ). take t block) {x = length (m ++ piece) % 64} {y = 0} (omega (arith, whole))
          ∙ sym (drop_all (length (m ++ piece) / 64 * 64) (m ++ piece) (omega (arith, whole)));
    })

-- The three ways of `sm3_update`, over the buffered length `r`.
choose_fill :
    {A : Type 0} (ilen r : ℕ) (same filled kept : A)
    → 0 < ilen
    → r ≢ 0
    → 64 - r ≤ ilen
    → (if ilen == 0 then same else if not (r == 0) && leb (64 - r) ilen then filled else kept)
      ≡ filled
choose_fill ilen r same filled kept pos ne le = ground arith

choose_keep :
    {A : Type 0} (ilen r : ℕ) (same filled kept : A)
    → 0 < ilen
    → (r ≡ 0) ⊎ (ilen < 64 - r)
    → (if ilen == 0 then same else if not (r == 0) && leb (64 - r) ilen then filled else kept)
      ≡ kept
choose_keep ilen r same filled kept pos (inl e) = ground arith
choose_keep ilen r same filled kept pos (inr small) = ground arith

-- `sm3_update` past its first test, when `r` bytes are buffered.
abbrev filling : Context → List ℕ → ℕ → Context
filling ctx input r =
    let full = write_at ctx.buffer r (take (64 - r) input) in
    drain (process (record ctx { buffer = full }) full) (drop (64 - r) input) 0

-- `sm3_update`, when `r` bytes are buffered.
abbrev ways : Context → List ℕ → ℕ → Context
ways ctx input r =
    let counted = count ctx (length input) in
    if length input == 0
    then ctx
    else if not (r == 0) && leb (64 - r) (length input)
    then filling counted input r
    else drain counted input r

update_fill :
    (m input : List ℕ) (ctx : Context)
    → Absorbed m ctx
    → 0 < length input
    → length m % 64 ≢ 0
    → 64 - length m % 64 ≤ length input
    → update ctx input ≡ filling (count ctx (length input)) input (length m % 64)
unfolding update
update_fill m input ctx h pos ne le =
    ap (ways ctx input) (left-eq m ctx h)
    ∙ choose_fill (length input) (length m % 64) ctx
        (filling (count ctx (length input)) input (length m % 64))
        (drain (count ctx (length input)) input (length m % 64)) pos ne le

update_keep :
    (m input : List ℕ) (ctx : Context)
    → Absorbed m ctx
    → 0 < length input
    → (length m % 64 ≡ 0) ⊎ (length input < 64 - length m % 64)
    → update ctx input ≡ drain (count ctx (length input)) input (length m % 64)
unfolding update
update_keep m input ctx h pos room =
    ap (ways ctx input) (left-eq m ctx h)
    ∙ choose_keep (length input) (length m % 64) ctx
        (filling (count ctx (length input)) input (length m % 64))
        (drain (count ctx (length input)) input (length m % 64)) pos room

filling-Holds :
    (s m input : List ℕ) (ctx : Context)
    → Holds s m ctx
    → length m % 64 ≢ 0
    → 64 - length m % 64 ≤ length input
    → Holds s (m ++ input) (filling ctx input (length m % 64))
filling-Holds s m input ctx h ne le =
    let r = length m % 64 in
    let piece = take (64 - r) input in
    let rest = drop (64 - r) input in
    let size : r + length piece ≡ 64 = omega (arith, length-take (64 - r) input) in
    let even : length (m ++ piece) % 64 ≡ 0 = omega (arith, length-append m piece) in
    let full = write_at ctx.buffer r piece in
    let next = process (record ctx { buffer = full }) full in
    let done : Holds s ((m ++ piece) ++ rest) (drain next rest (length (m ++ piece) % 64)) =
      drain-Holds s (m ++ piece) rest next (fill-Holds s m piece ctx h size ne) (inl even) in
    let joined : (m ++ piece) ++ rest ≡ m ++ input =
      append_assoc m piece rest ∙ ap (λ (t : List ℕ). m ++ t) (take-append-drop (64 - r) input) in
    subst₂ (λ (t : List ℕ) (k : ℕ). Holds s t (drain next rest k)) joined even done

filling_totals :
    (ctx : Context) (input : List ℕ) (r : ℕ)
    → ((filling ctx input r).total0 ≡ ctx.total0) × ((filling ctx input r).total1 ≡ ctx.total1)
unfolding process
filling_totals ctx input r =
    let full = write_at ctx.buffer r (take (64 - r) input) in
    drain_totals (process (record ctx { buffer = full }) full) (drop (64 - r) input) 0

room :
    (m input : List ℕ)
    → ((length m % 64 ≢ 0) × (64 - length m % 64 ≤ length input))
      ⊎ ((length m % 64 ≡ 0) ⊎ (length input < 64 - length m % 64))
room m input = elim (ℕ_discrete (length m % 64) 0) [
  | yes e ↦ inr (inl e)
  | no ne ↦ elim (dec_le (64 - length m % 64) (length input)) [
    | yes le ↦ inl (ne, le)
    | no gt ↦ inr (inr (omega arith))
  ]
]

-- A call of `sm3_update` appends its input to the message, whatever the lengths: the buffer may be
-- empty, filled by the input, or left partly full.
pub update-Absorbed :
    (m input : List ℕ) (ctx : Context)
    → Absorbed m ctx
    → length input < 2 ^ 32
    → Absorbed (m ++ input) (update ctx input)
update-Absorbed m [] ctx h lt = rw (append-nil m) (unfold update in h)
update-Absorbed m (x ∷ xs) ctx h lt =
    let input = x ∷ xs in
    let counted = count ctx (length input) in
    let totals = count_totals m (length input) ctx h lt in
    let holds = count-Holds initial_state m (length input) ctx h.holds in
    let sum : length m + length input ≡ length (m ++ input) = sym (length-append m input) in
    elim (room m input) [
      | inl fills ↦
          let after = filling_totals counted input (length m % 64) in
          rw (update_fill m input ctx h (omega arith) fills.0 fills.1) (record {
            holds = filling-Holds initial_state m input counted holds fills.0 fills.1;
            low = after.0 ∙ totals.0 ∙ ap (λ (t : ℕ). t % 2 ^ 32) sum;
            high = after.1 ∙ totals.1 ∙ ap (λ (t : ℕ). t / 2 ^ 32 % 2 ^ 32) sum;
          })
      | inr keeps ↦
          let after = drain_totals counted input (length m % 64) in
          rw (update_keep m input ctx h (omega arith) keeps) (record {
            holds = drain-Holds initial_state m input counted holds (omega arith);
            low = after.0 ∙ totals.0 ∙ ap (λ (t : ℕ). t % 2 ^ 32) sum;
            high = after.1 ∙ totals.1 ∙ ap (λ (t : ℕ). t / 2 ^ 32 % 2 ^ 32) sum;
          })
    ]
