-- ===== src/Combo/Box.antt =====
-- AutoCombox1.cpp: the list operations of the box, and the messages of its edit field. `place` stands
-- for the order of the list box under it.
pub mod Entries
use sec_pro_gis.Base.{
  ◌>>=◌, ℕ, zero, suc, ◌+◌, ◌-◌, ◌≤◌, ◌≡◌, Bool, true, false, Option, none, some, List, [], ◌∷◌,
  ◌++◌, replicate, length, ltb, leb, if◌then◌else◌,
}
use sec_pro_gis.Combo.{insert_at, auto_select, auto_match}

-- `m_strArr`, what the list box under it shows, and bit 0 of `m_nFlag`.
pub record Box : Type 0 where
  pub entries : List (List ℕ)
  pub shown : List (List ℕ)
  pub flag : Bool

-- `CAutoCombox1()`, with an empty list box.
unfoldable pub fresh_box : Box
fresh_box = record { entries = []; shown = []; flag = false }

-- `RemoveAt` and `CB_DELETESTRING`: an array without the element at the index.
pub remove_at {ℓ} : {A : Type ℓ} → ℕ → List A → List A
remove_at i [] = []
remove_at zero (x ∷ xs) = xs
remove_at (suc i) (x ∷ xs) = x ∷ remove_at i xs

-- `ResetContent`
pub reset_content : Box → Box
reset_content b = record b { entries = []; shown = [] }

-- `InsertString`. Past the end `InsertAt` fills the array with empty strings, and the list box refuses.
pub insert_string : Box → ℕ → List ℕ → Box
insert_string b index str =
    let n = length b.entries in
    record b {
      entries =
          if leb index n
          then insert_at index str b.entries
          else b.entries ++ (replicate (index - n) [] ++ (str ∷ []));
      shown = if leb index (length b.shown) then insert_at index str b.shown else b.shown;
    }

-- `DeleteString`. `RemoveAt` throws past the end.
pub delete_string : Box → ℕ → Option Box
delete_string b index =
    let b' = record b { entries = remove_at index b.entries; shown = remove_at index b.shown } in
    if ltb index (length b.entries) then some b' else none

module _ (find : List ℕ → List ℕ → Option ℕ) (place : List (List ℕ) → List ℕ → ℕ) where
  -- `AddString`
  unfoldable pub add_string : Box → List ℕ → Box
  add_string b str = record b {
    entries = b.entries ++ (str ∷ []);
    shown = insert_at (place b.shown str) str b.shown;
  }

  -- `OnCommand` for a change of the text in the edit field, with the entry that it selects.
  pub on_change : Box → List ℕ → Box × Option ℕ
  on_change b text =
      let (shown, best) = auto_match find place text b.entries in
      if b.flag then (record b { shown = shown }, best) else (b, auto_select find text b.shown)

  -- One operation on the box. `InsertString` has an index in the array; `DeleteString`, which nothing
  -- calls, is not among them.
  pub data Step : Box → Box → Type 0 where
    added : (b : Box) (str : List ℕ) → Step b (add_string b str)
    inserted :
        (b : Box) (index : ℕ) (str : List ℕ)
        → index ≤ length b.entries
        → Step b (insert_string b index str)
    cleared : (b : Box) → Step b (reset_content b)
    typed : (b : Box) (text : List ℕ) → b.flag ≡ false → Step b (on_change b text).0

  pub data Reach (b : Box) : Box → Type 0 where
    here : Reach b b
    next : {c d : Box} → Reach b c → Step c d → Reach b d
