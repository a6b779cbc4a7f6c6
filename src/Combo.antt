-- ===== src/Combo.antt =====
-- AutoCombox1.cpp: which entry of the list the box selects for what is typed. `find` stands for
-- `CString::Find`: the place of the first occurrence, or `none` for -1.
pub mod Best
pub mod Box
mod Examples
use sec_pro_gis.Base.{
  ℕ, zero, suc, ◌+◌, ◌-◌, ◌^◌, Bool, true, false, ◌&&◌, Option, none, some, List, [], ◌∷◌, ◌++◌,
}
use sec_pro_gis.Base.{length, u8, ltb, ◌==◌, if◌then◌else◌}

-- `INT_MAX`
abbrev pub int_max : ℕ
int_max = 2 ^ 31 - 1

-- `nBestIndex`, `none` for -1, and `nBestFrom`.
pub record Choice : Type 0 where
  pub best_index : Option ℕ
  pub best_from : ℕ

pub start : Choice
start = record { best_index = none; best_from = int_max }

-- The test of the loop: a match that begins further left is taken.
pub take_better : Option ℕ → ℕ → Choice → Choice
take_better none index c = c
take_better (some from) index c =
    if ltb from c.best_from then record { best_index = some index; best_from = from } else c

-- An array with an element put before the index, or behind its end.
pub insert_at {ℓ} : {A : Type ℓ} → ℕ → A → List A → List A
insert_at zero x xs = x ∷ xs
insert_at (suc i) x [] = x ∷ []
insert_at (suc i) x (y ∷ ys) = y ∷ insert_at i x ys

module _ (find : List ℕ → List ℕ → Option ℕ) where
  -- The loop of `AutoSelect` over the entries, from an index on.
  pub best_loop : List ℕ → List (List ℕ) → ℕ → Choice → Choice
  best_loop text [] index c = c
  best_loop text (str ∷ entries) index c =
      best_loop text entries (index + 1) (take_better (find str text) index c)

  -- `AutoSelect`: the entry that is selected in the end, `none` for no entry.
  pub auto_select : List ℕ → List (List ℕ) → Option ℕ
  auto_select [] entries = start.best_index
  auto_select (x ∷ text) entries = (best_loop (x ∷ text) entries 0 start).best_index

  -- An entry begins with the character that the text begins with, cut to a `char`, and has the text in
  -- it. `GetAt`
  -- of an empty entry, which the class does not allow, is taken for no match.
  pub fits_text : List ℕ → List ℕ → Option ℕ
  fits_text text [] = none
  fits_text [] (c ∷ str) = none
  fits_text (x ∷ text) (c ∷ str) = if u8 c == u8 x then find (c ∷ str) (x ∷ text) else none

  -- Where the list box puts an entry that is added: a box that sorts decides it.
  module _ (place : List (List ℕ) → List ℕ → ℕ) where
    -- `CComboBox::AddString` for each entry.
    pub add_all : List (List ℕ) → List (List ℕ) → List (List ℕ)
    add_all [] shown = shown
    add_all (str ∷ entries) shown = add_all entries (insert_at (place shown str) str shown)

    -- `CComboBox::AddString`, if the entry matches.
    pub keep : Option ℕ → List ℕ → List (List ℕ) → List (List ℕ)
    keep none str shown = shown
    keep (some from) str shown = insert_at (place shown str) str shown

    -- The loop of `AutoMatchAndSel`: the entries that are shown, and the choice, by the index that
    -- `AddString` returned.
    pub match_loop : List ℕ → List (List ℕ) → List (List ℕ) → Choice → List (List ℕ) × Choice
    match_loop text [] shown c = (shown, c)
    match_loop text (str ∷ entries) shown c =
        let from = fits_text text str in
        match_loop text entries (keep from str shown) (take_better from (place shown str) c)

    -- `AutoMatchAndSel`: the entries shown, all of them if none matches, and the one selected.
    pub auto_match : List ℕ → List (List ℕ) → List (List ℕ) × Option ℕ
    auto_match [] entries = (add_all entries [], start.best_index)
    auto_match (x ∷ text) entries =
        let (shown, c) = match_loop (x ∷ text) entries [] start in
        (if length shown == 0 then add_all entries shown else shown, c.best_index)
