-- ===== src/Paths/Split.antt =====
-- What the loops over paths find.
use sec_pro_gis.Base.{
  ℕ, zero, suc, some, ◌+◌, ◌-◌, ◌≤◌, ◌<◌, Bool, false, List, [], ◌∷◌, ◌++◌, length, take, drop,
  get_or, ◌==◌, if◌then◌else◌, All,
}
use sec_pro_gis.Base.{◌≡◌, sym, ap, ◌∙◌, arith, if_both, length-append, take-append, append_assoc}
use sec_pro_gis.Base.{drop-append_at}
use sec_pro_gis.Paths.{backslash, FileParts, scan, dir_loop, get_plain_dir}

-- No backslash.
abbrev pub Plain : List ℕ → Type 0
Plain = All (λ c. (c == backslash) ≡ false)

get_or-past : (a b : List ℕ) (j : ℕ) → get_or (a ++ b) (length a + j) 0 ≡ get_or b j 0
get_or-past [] b j = ap (λ (t : ℕ). get_or b t 0) {x = 0 + j} {y = j} (omega arith)
get_or-past (x ∷ a) b j =
    ap (λ (t : ℕ). get_or (x ∷ (a ++ b)) t 0) {x = suc (length a) + j} {y = suc (length a + j)}
      (omega arith)
    ∙ get_or-past a b j

get_or-Plain : (b : List ℕ) (j : ℕ) → j < length b → Plain b → (get_or b j 0 == backslash) ≡ false
get_or-Plain [] j h p = absurd (omega arith)
get_or-Plain (c ∷ b) zero h p = p.0
get_or-Plain (c ∷ b) (suc j) h p = get_or-Plain b j (omega arith) p.1

module _ (x : ℕ) (dir base : List ℕ) (plain : Plain base) where
  abbrev pub path : List ℕ
  path = (x ∷ dir) ++ (backslash ∷ base)

  at_dir : get_or path (suc (length dir)) 0 ≡ backslash
  at_dir =
      ap (λ (t : ℕ). get_or path t 0) {x = suc (length dir)} {y = length (x ∷ dir) + 0}
        (omega arith)
      ∙ get_or-past (x ∷ dir) (backslash ∷ base) 0

  in_base :
      (j : ℕ) → j < length base → (get_or path (suc (length dir + suc j)) 0 == backslash) ≡ false
  in_base j h =
      ap (λ (t : ℕ). get_or path t 0 == backslash) {x = suc (length dir + suc j)}
        {y = length (x ∷ dir) + suc j} (omega arith)
      ∙ ap (λ (t : ℕ). t == backslash) (get_or-past (x ∷ dir) (backslash ∷ base) (suc j))
      ∙ get_or-Plain base j h plain

  dir_loop-dir : (j : ℕ) → j ≤ length base → dir_loop (suc (length dir + j)) path ≡ some (x ∷ dir)
  unfolding dir_loop
  dir_loop-dir zero h =
      ap (λ (t : ℕ). dir_loop (suc t) path) {x = length dir + 0} {y = length dir} (omega arith)
      ∙ ap
          (λ (c : ℕ).
            if c == backslash
            then some (take (suc (length dir)) path)
            else dir_loop (length dir) path)
          at_dir
      ∙ ap some (take-append (x ∷ dir) (backslash ∷ base))
  dir_loop-dir (suc j) h =
      let i = length dir + suc j in
      ap (λ (b : Bool). if b then some (take (suc i) path) else dir_loop i path)
        (in_base j (omega arith))
      ∙ ap (λ (t : ℕ). dir_loop t path) {x = i} {y = suc (length dir + j)} (omega arith)
      ∙ dir_loop-dir j (omega arith)

  past_dir : drop (suc (length dir) + 1) path ≡ base
  past_dir =
      ap (drop (suc (length dir) + 1)) (sym (append_assoc (x ∷ dir) (backslash ∷ []) base))
      ∙ drop-append_at (suc (length dir) + 1) ((x ∷ dir) ++ (backslash ∷ [])) base
          (length-append (x ∷ dir) (backslash ∷ []))

  scan-base :
      (j : ℕ) (parts : FileParts)
      → j ≤ length base
      → (scan (suc (length dir + j)) path parts).name ≡ base
  unfolding scan
  scan-base zero parts h =
      let i = length dir in
      let right = drop (suc i + 1) path in
      let choose : ℕ → FileParts = λ c.
        if c == 46
        then scan i path (record parts { ext = right })
        else if c == backslash
        then record parts { name = right }
        else scan i path parts in
      ap (λ (t : ℕ). (scan (suc t) path parts).name) {x = length dir + 0} {y = length dir}
        (omega arith)
      ∙ ap (λ (c : ℕ). (choose c).name) at_dir
      ∙ past_dir
  scan-base (suc j) parts h =
      let i = length dir + suc j in
      let right = drop (suc i + 1) path in
      let dotted : FileParts = record parts { ext = right } in
      let named : FileParts = record parts { name = right } in
      let same_index : i ≡ suc (length dir + j) = omega arith in
      if_both (λ (r : FileParts). r.name ≡ base) (get_or path (suc i) 0 == 46) (scan i path dotted)
        (if get_or path (suc i) 0 == backslash then named else scan i path parts)
        (ap (λ (t : ℕ). (scan t path dotted).name) same_index ∙ scan-base j dotted (omega arith))
        (ap (λ (b : Bool). (if b then named else scan i path parts).name) (in_base j (omega arith))
          ∙ ap (λ (t : ℕ). (scan t path parts).name) same_index
          ∙ scan-base j parts (omega arith))

  length-path : length path - 1 ≡ suc (length dir + length base)
  length-path = omega (arith, length-append dir (backslash ∷ base))

  -- The loop of `OnReadFile` takes as the name of a file what stands behind the last backslash of its
  -- path, if that is not the first character, whatever the file before left.
  pub scan-name : (parts : FileParts) → (scan (length path - 1) path parts).name ≡ base
  scan-name parts =
      ap (λ (t : ℕ). (scan t path parts).name) length-path
      ∙ scan-base (length base) parts (omega arith)

  -- `GetPlainDir` gives what stands before the last backslash of a path, if that is not the first
  -- character.
  pub get_plain_dir-dir : get_plain_dir path ≡ some (x ∷ dir)
  unfolding get_plain_dir
  get_plain_dir-dir =
      ap (λ (t : ℕ). dir_loop t path) length-path ∙ dir_loop-dir (length base) (omega arith)
