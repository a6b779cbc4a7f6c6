-- ===== src/Combo/Examples.antt =====
-- A list of three entries, with a search for the first character.
use sec_pro_gis.Base.{
  ℕ, suc, ◌≤◌, ◌<◌, Option, none, some, List, [], ◌∷◌, ◌≡◌, ◌⊎◌, refl, get_or, length, ◌==◌,
  if◌then◌else◌,
}
use mathlib.Core.Option
use sec_pro_gis.Base.{true, ◌&&◌}
use sec_pro_gis.Combo.Box.{Box, fresh_box, add_string, on_change, Reach, here, next, added}
use sec_pro_gis.Combo.Box.Entries.{IsSame, count, matches, Reach-IsSame, on_change-matches}
use sec_pro_gis.Combo.{auto_select, best_loop, take_better, start}
use sec_pro_gis.Combo.Best.{auto_select-leftmost}

-- Where the first character of the text stands.
find_first : List ℕ → List ℕ → Option ℕ
find_first [] text = none
find_first (c ∷ str) [] = some 0
find_first (c ∷ str) (x ∷ text) =
    let rest = Option.map suc (find_first str (x ∷ text)) in if c == x then some 0 else rest

abbrev entries : List (List ℕ)
entries = (98 ∷ 99 ∷ []) ∷ (97 ∷ 97 ∷ 99 ∷ []) ∷ (99 ∷ []) ∷ []

selected : auto_select find_first (99 ∷ []) entries ≡ some 2
unfolding auto_select best_loop take_better start find_first
selected = refl

auto_select-leftmost_example :
    (p : ℕ) × (2 < length entries)
    × (find_first (get_or entries 2 []) (99 ∷ []) ≡ some p)
    × ((j q : ℕ)
        → j < length entries
        → find_first (get_or entries j []) (99 ∷ []) ≡ some q
        → (p < q) ⊎ ((p ≡ q) × (2 ≤ j)))
auto_select-leftmost_example = auto_select-leftmost find_first (99 ∷ []) entries 2 selected

-- A list box that puts each new entry first.
in_front : List (List ℕ) → List ℕ → ℕ
in_front shown str = 0

abbrev first_box : Box
first_box = add_string find_first in_front fresh_box (97 ∷ [])

abbrev second_box : Box
second_box = add_string find_first in_front first_box (98 ∷ [])

fresh_IsSame : IsSame fresh_box
unfolding fresh_box count
fresh_IsSame p = refl

second_reached : Reach find_first in_front fresh_box second_box
second_reached = next (next here (added fresh_box (97 ∷ []))) (added first_box (98 ∷ []))

Reach-IsSame_example : IsSame second_box
Reach-IsSame_example =
    Reach-IsSame find_first in_front {b = fresh_box} {c = second_box} fresh_IsSame second_reached

-- A box that hides what does not match.
abbrev hiding : Box
hiding = record { entries = entries; shown = []; flag = true }

on_change-matches_example :
    count (λ str. true) (on_change find_first in_front hiding (99 ∷ [])).0.shown ≡ (
      if count (matches find_first in_front (99 ∷ [])) entries == 0
      then count (λ str. true) entries
      else count (λ str. true && matches find_first in_front (99 ∷ []) str) entries)
on_change-matches_example = on_change-matches find_first in_front hiding 99 [] (λ str. true) refl
