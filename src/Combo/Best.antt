-- ===== src/Combo/Best.antt =====
-- The choice of `AutoSelect` is the leftmost match, and the first of those.
use sec_pro_gis.Base.{
  ℕ, zero, suc, ◌+◌, ◌≤◌, ◌<◌, Bool, true, false, Option, none, some, List, [], ◌∷◌,
}
use sec_pro_gis.Base.{length, get_or, ltb, ltb→lt, Bool-cases}
use sec_pro_gis.Base.{◌≡◌, refl, sym, ap, ◌∙◌, arith, ◌⊎◌, inl, inr}
use native.Mathlib.Decide.{dec_lt}
use sec_pro_gis.Combo.{Choice, start, take_better, best_loop, auto_select}

or_zero : Option ℕ → ℕ
or_zero none = 0
or_zero (some n) = n

not_below : (a b : ℕ) → ltb a b ≡ false → b ≤ a
not_below a b h = ground arith

is_none : Option ℕ → Bool
is_none none = true
is_none (some n) = false

-- The entry is taken when it is better.
take_better-cases :
    (o : Option ℕ) (index : ℕ) (c : Choice)
    → ((from : ℕ) × (o ≡ some from)
        × (from < c.best_from)
        × (take_better o index c ≡ record { best_index = some index; best_from = from }))
      ⊎ ((take_better o index c ≡ c) × ((q : ℕ) → o ≡ some q → c.best_from ≤ q))
unfolding take_better or_zero is_none
take_better-cases none index c = inr (refl, λ q e. absurd (ground (arith, ap is_none e)))
take_better-cases (some from) index c = elim (Bool-cases (ltb from c.best_from)) [
  | inl e ↦ inl (from, refl, ltb→lt from c.best_from e, rw e refl)
  | inr e ↦
      inr (rw e refl, λ q same. omega (arith, not_below from c.best_from e, ap (or_zero) same))
]

module _ (find : List ℕ → List ℕ → Option ℕ) (text : List ℕ) where
  -- The choice after the loop is the one before, or a better entry.
  best_loop-found :
      (entries : List (List ℕ)) (index : ℕ) (c : Choice)
      → let c' = best_loop find text entries index c in
        (c' ≡ c)
        ⊎ ((j : ℕ) × (j < length entries)
            × (c'.best_index ≡ some (index + j))
            × (find (get_or entries j []) text ≡ some c'.best_from)
            × (c'.best_from < c.best_from))
  unfolding best_loop
  best_loop-found [] index c = inl refl
  best_loop-found (str ∷ entries) index c =
      let c1 = take_better (find str text) index c in
      let c' = best_loop find text entries (index + 1) c1 in
      let later = best_loop-found entries (index + 1) c1 in
      let here : ℕ → Type 0 = λ j.
        (j < suc (length entries))
        × (c'.best_index ≡ some (index + j))
        × (find (get_or (str ∷ entries) j []) text ≡ some c'.best_from)
        × (c'.best_from < c.best_from) in
      elim (take_better-cases (find str text) index c) [
        | inl (from, e, lt, taken) ↦ elim later [
          | inl same ↦
              let is_from = ap Choice.best_from (same ∙ taken) in
              inr (
                0,
                omega arith,
                ap Choice.best_index (same ∙ taken) ∙ ap some (omega arith),
                e ∙ ap some (sym is_from),
                omega (arith, is_from),
              )
          | inr (j, in_list, is_index, match, better) ↦ inr (
            suc j,
            omega arith,
            is_index ∙ ap some (omega arith),
            match,
            omega (arith, ap Choice.best_from taken),
          )
        ]
        | inr (passed, least) ↦ elim later [
          | inl same ↦ inl (same ∙ passed)
          | inr (j, in_list, is_index, match, better) ↦ inr (
            suc j,
            omega arith,
            is_index ∙ ap some (omega arith),
            match,
            omega (arith, ap Choice.best_from passed),
          )
        ]
      ]

  -- What a choice `c'` is to a match at `q` in the entry `index + j`, when the loop began with `c`.
  abbrev Beats : Choice → Choice → ℕ → ℕ → Type 0
  Beats c c' at q =
      (c'.best_from < q)
      ⊎ (((c'.best_from ≡ q) × ((k : ℕ) × (c'.best_index ≡ some k) × (k ≤ at)))
          ⊎ ((c' ≡ c) × (c.best_from ≤ q)))

  best_loop-Beats :
      (entries : List (List ℕ)) (index : ℕ) (c : Choice) (j q : ℕ)
      → j < length entries
      → find (get_or entries j []) text ≡ some q
      → Beats c (best_loop find text entries index c) (index + j) q
  unfolding best_loop or_zero
  best_loop-Beats [] index c j q h e = absurd (omega arith)
  best_loop-Beats (str ∷ entries) index c zero q h e =
      let c1 = take_better (find str text) index c in
      elim (take_better-cases (find str text) index c) [
        | inl (from, is, lt, taken) ↦
            let same_place : from ≡ q = ap or_zero (sym is ∙ e) in
            elim (best_loop-found entries (index + 1) c1) [
              | inl same ↦ inr (
                  inl (
                    ap Choice.best_from (same ∙ taken) ∙ same_place,
                    (index, ap Choice.best_index (same ∙ taken), omega arith),
                  ))
              | inr (i, in_list, is_index, match, better) ↦
                  inl (omega (arith, ap Choice.best_from taken, same_place))
            ]
        | inr (passed, least) ↦ elim (best_loop-found entries (index + 1) c1) [
          | inl same ↦ inr (inr (same ∙ passed, least q e))
          | inr (i, in_list, is_index, match, better) ↦
              inl (omega (arith, ap Choice.best_from passed, least q e))
        ]
      ]
  best_loop-Beats (str ∷ entries) index c (suc j) q h e =
      let c1 = take_better (find str text) index c in
      elim (best_loop-Beats entries (index + 1) c1 j q (omega arith) e) [
        | inl less ↦ inl less
        | inr (inl (tie, (k, is_index, le))) ↦ inr (inl (tie, (k, is_index, omega arith)))
        | inr (inr (same, le)) ↦ elim (take_better-cases (find str text) index c) [
          | inl (from, is, lt, taken) ↦
              let first : (best_loop find text entries (index + 1) c1).best_from ≡ from =
                ap Choice.best_from (same ∙ taken) in
              elim (dec_lt from q) [
                | yes less ↦ inl (omega (arith, first))
                | no tie ↦ inr (
                    inl (
                      omega (arith, first, ap Choice.best_from taken),
                      (index, ap Choice.best_index (same ∙ taken), omega arith),
                    ))
              ]
          | inr (passed, least) ↦
              inr (inr (same ∙ passed, omega (arith, ap Choice.best_from passed)))
        ]
      ]

module _ (find : List ℕ → List ℕ → Option ℕ) where
  -- An entry that `AutoSelect` selects is in the list and has the text, whether others have it or not,
  -- and no entry has it further left: one that has it at the same place does not come before.
  pub auto_select-leftmost :
      (text : List ℕ) (entries : List (List ℕ)) (k : ℕ)
      → auto_select find text entries ≡ some k
      → (p : ℕ) × (k < length entries)
        × (find (get_or entries k []) text ≡ some p)
        × ((j q : ℕ)
            → j < length entries
            → find (get_or entries j []) text ≡ some q
            → (p < q) ⊎ ((p ≡ q) × (k ≤ j)))
  unfolding auto_select start is_none or_zero
  auto_select-leftmost [] entries k h = absurd (ground (arith, ap is_none h))
  auto_select-leftmost (x ∷ text) entries k h =
      let c' = best_loop find (x ∷ text) entries 0 start in
      elim (best_loop-found find (x ∷ text) entries 0 start) [
        | inl same ↦ absurd (ground (arith, ap is_none (sym (ap Choice.best_index same) ∙ h)))
        | inr (i, in_list, is_index, match, better) ↦
            let this : i ≡ k = omega (arith, ap or_zero (sym is_index ∙ h)) in
            (
              c'.best_from,
              omega (arith, in_list, this),
              ap (λ (t : ℕ). find (get_or entries t []) (x ∷ text)) (sym this) ∙ match,
              λ j q lt e. elim (best_loop-Beats find (x ∷ text) entries 0 start j q lt e) [
                | inl less ↦ inl less
                | inr (inl (tie, (m, at_m, le))) ↦
                    inr (tie, omega (arith, ap or_zero (sym at_m ∙ h)))
                | inr (inr (same, le)) ↦
                    absurd (ground (arith, ap is_none (sym (ap Choice.best_index same) ∙ h)))
              ],
            )
      ]
