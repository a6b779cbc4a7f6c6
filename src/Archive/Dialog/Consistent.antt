-- ===== src/Archive/Dialog/Consistent.antt =====
-- What holds of the arrays of the main window between two messages.
use sec_pro_gis.Base.{◌>>=◌, ℕ, zero, suc, ◌+◌, ◌<◌, Bool, Option, none, some, List, [], ◌∷◌, map}
use sec_pro_gis.Base.{length, get_elem?, ◌==◌, ==_iff, if◌then◌else◌, ℤ}
use sec_pro_gis.Base.{
  ◌≡◌, ◌⊎◌, inl, inr, refl, sym, ap, ◌∙◌, subst, arith, Bool-cases, some_inj, if_both, >>=-some,
}
use sec_pro_gis.Query.{Config, Client, Session}
use sec_pro_gis.Paths.{FileParts, read_files, get_plain_dir}
use sec_pro_gis.Archive.Guards.Passed.{not_empty}
use sec_pro_gis.Archive.Guards.{
  Form, Lookup, unreachable, unknown, known, stopped, is_empty, change_date, judge_org, find_org,
  choose_org, judge_before_encrypt,
}
use sec_pro_gis.Archive.Dialog.{
  Dialog, opened, picked_paths, on_read_file, save_loop, save_one, cipher_paths_for, on_save_path,
  Step, Reach, read_file, pick_date, edit_org, pick_org, save_path, encrypt, here, next,
}

-- The names and extensions go with the paths; `SelFileNum` counts them, once there are any; and the
-- paths of the sealed files are none, or as many.
pub record IsConsistent (d : Dialog) : Type 0 where
  pub named : length d.names ≡ length d.form.plain_paths
  pub extended : length d.exts ≡ length d.form.plain_paths
  pub counted : (length d.form.plain_paths ≡ 0) ⊎ (d.sel_file_num ≡ length d.form.plain_paths)
  pub placed :
      (length d.form.cipher_paths ≡ 0) ⊎ (length d.form.cipher_paths ≡ length d.form.plain_paths)

pub opened-IsConsistent : (sel : ℕ) (org current : ℤ) → IsConsistent (opened sel org current)
unfolding opened
opened-IsConsistent sel org current = record {
  named = refl;
  extended = refl;
  counted = inl refl;
  placed = inl refl;
}

length-map {ℓ κ} :
    {A : Type ℓ} {B : Type κ} (f : A → B) (xs : List A) → length (map f xs) ≡ length xs
length-map f [] = refl
length-map f (x ∷ xs) = ap suc (length-map f xs)

length-read_files :
    (paths : List (List ℕ)) (parts : FileParts) → length (read_files paths parts) ≡ length paths
unfolding read_files
length-read_files [] parts = refl
length-read_files (path ∷ paths) parts = ap suc (length-read_files paths _)

on_read_file-IsConsistent :
    (d : Dialog) (picked : Option (List (List ℕ))) (text : List ℕ)
    → IsConsistent (on_read_file d picked text)
unfolding on_read_file
on_read_file-IsConsistent d picked text =
    let parts = read_files (picked_paths picked) (record { name = []; ext = [] }) in
    let size = length-read_files (picked_paths picked) (record { name = []; ext = [] }) in
    record {
      named = length-map FileParts.name parts ∙ size;
      extended = length-map FileParts.ext parts ∙ size;
      counted = inr refl;
      placed = inl refl;
    }

-- A change of the form that leaves the two arrays of paths.
SamePaths : Form → Form → Type 0
SamePaths form form' =
    (form'.plain_paths ≡ form.plain_paths) × (form'.cipher_paths ≡ form.cipher_paths)

form-IsConsistent :
    (d : Dialog) (form : Form)
    → SamePaths d.form form
    → IsConsistent d
    → IsConsistent (record d { form = form })
unfolding SamePaths
form-IsConsistent d form same v =
    let plain = ap (λ (l : List (List ℕ)). length l) same.0 in
    let cipher = ap (λ (l : List (List ℕ)). length l) same.1 in
    record {
      named = v.named ∙ sym plain;
      extended = v.extended ∙ sym plain;
      counted = ground arith;
      placed = ground arith;
    }

judge_org-SamePaths : (form : Form) (found : Lookup) → SamePaths form (judge_org form found).1
unfolding judge_org SamePaths
judge_org-SamePaths form unreachable = (refl, refl)
judge_org-SamePaths form unknown = (refl, refl)
judge_org-SamePaths form (known id) = (refl, refl)
judge_org-SamePaths form stopped = (refl, refl)

judge_before_encrypt-SamePaths :
    (client : Client) (c : Config) (s : Session client) (form : Form)
    → SamePaths form (judge_before_encrypt client c s form).1
unfolding judge_before_encrypt SamePaths
judge_before_encrypt-SamePaths client c s form =
    let read : Form = record form { org_name = form.org_box } in
    let found = find_org client c s form.org_box in
    let judged = judge_org read found.0 in
    let keeps : Option Bool × Form × Session client → Type 0 = λ r. SamePaths form r.1 in
    let both = if_both keeps in
    both (is_empty form.plain_paths) _ _ (refl, refl)
      (both (is_empty form.org_box) _ _ (refl, refl) (judge_org-SamePaths read found.0))

length-save_loop :
    (dir : List ℕ) (names : List (List ℕ)) (left findex : ℕ) (paths : List (List ℕ))
    → save_loop dir names left findex ≡ some paths
    → length paths ≡ left
unfolding save_loop
length-save_loop dir names zero findex paths h =
    ap (λ (l : List (List ℕ)). length l) (sym (some_inj h))
length-save_loop dir names (suc left) findex paths h =
    let named = >>=-some (get_elem? names findex) _ h in
    let more = >>=-some (save_loop dir names left (findex + 1)) _ named.2 in
    ap (λ (l : List (List ℕ)). length l) (sym (some_inj more.2))
    ∙ ap suc (length-save_loop dir names left (findex + 1) more.0 more.1)

length-save_one :
    (saved : Option (List ℕ)) (n : ℕ)
    → n ≡ 1
    → (length (save_one saved) ≡ 0) ⊎ (length (save_one saved) ≡ n)
unfolding save_one
length-save_one none n h = inl refl
length-save_one (some path) n h = inr (sym h)

-- The new paths are none, or as many as `SelFileNum` counts.
length-cipher_paths_for :
    (d : Dialog) (saved : Option (List ℕ)) (dir : List ℕ) (paths : List (List ℕ))
    → cipher_paths_for d saved dir ≡ some paths
    → (length paths ≡ 0) ⊎ (length paths ≡ d.sel_file_num)
unfolding cipher_paths_for save_one
length-cipher_paths_for d saved dir paths h =
    let one = get_elem? d.names 0 >>= λ name. get_elem? d.exts 0 >>= λ ext. some (save_one saved) in
    let several = get_elem? d.form.plain_paths 0 >>= λ path.
    get_plain_dir path >>= λ plain_dir. save_loop dir d.names d.sel_file_num 0 in
    let answer : Bool → Option (List (List ℕ)) = λ b. if b then one else several in
    elim (Bool-cases (d.sel_file_num == 1)) [
      | inl e ↦
          let named = >>=-some (get_elem? d.names 0) _ (sym (ap answer e) ∙ h) in
          let extended = >>=-some (get_elem? d.exts 0) _ named.2 in
          subst (λ (l : List (List ℕ)). (length l ≡ 0) ⊎ (length l ≡ d.sel_file_num))
            (some_inj extended.2)
            (length-save_one saved d.sel_file_num ((==_iff d.sel_file_num 1).0 e))
      | inr e ↦
          let path = >>=-some (get_elem? d.form.plain_paths 0) _ (sym (ap answer e) ∙ h) in
          let plain_dir = >>=-some (get_plain_dir path.0) _ path.2 in
          inr (length-save_loop dir d.names d.sel_file_num 0 paths plain_dir.2)
    ]

placed_of : (m s p : ℕ) → (m ≡ 0) ⊎ (m ≡ s) → (p ≡ 0) ⊎ (s ≡ p) → 0 < p → (m ≡ 0) ⊎ (m ≡ p)
placed_of m s p (inl a) k h = inl a
placed_of m s p (inr a) (inl b) h = absurd (omega arith)
placed_of m s p (inr a) (inr b) h = inr (a ∙ b)

on_save_path-IsConsistent :
    (d d' : Dialog) (saved : Option (List ℕ)) (dir : List ℕ)
    → on_save_path d saved dir ≡ some d'
    → IsConsistent d
    → IsConsistent d'
unfolding on_save_path
on_save_path-IsConsistent d d' saved dir h v =
    let chosen = cipher_paths_for d saved dir in
    let saved_in : List (List ℕ) → Dialog =
      λ paths. record d { form = record d.form { cipher_paths = paths } } in
    let answer : Bool → Option Dialog =
      λ b. if b then some d else (chosen >>= λ p. some (saved_in p)) in
    elim (Bool-cases (is_empty d.form.plain_paths)) [
      | inl e ↦ subst IsConsistent (some_inj (sym (ap answer e) ∙ h)) v
      | inr e ↦
          let made = >>=-some chosen (λ p. some (saved_in p)) (sym (ap answer e) ∙ h) in
          let size = length-cipher_paths_for d saved dir made.0 made.1 in
          let some_paths = not_empty d.form.plain_paths e in
          subst IsConsistent (some_inj made.2) (record {
            named = v.named;
            extended = v.extended;
            counted = v.counted;
            placed =
                placed_of (length made.0) d.sel_file_num (length d.form.plain_paths) size v.counted
                  some_paths;
          })
    ]

Step-IsConsistent :
    {client : Client} {c : Config} {d d' : Dialog}
    → Step client c d d'
    → IsConsistent d
    → IsConsistent d'
unfolding change_date choose_org SamePaths
Step-IsConsistent (read_file d picked text) v = on_read_file-IsConsistent d picked text
Step-IsConsistent (pick_date d picked now) v =
    form-IsConsistent d (change_date d.form picked now) (refl, refl) v
Step-IsConsistent (edit_org d text) v =
    form-IsConsistent d (record d.form { org_box = text }) (refl, refl) v
Step-IsConsistent {client} {c} (pick_org d s name) v =
    form-IsConsistent d (choose_org client c s d.form name).0
      (judge_org-SamePaths (record d.form { org_name = name; org_box = name })
        (find_org client c s name).0)
      v
Step-IsConsistent (save_path d d' saved dir h) v = on_save_path-IsConsistent d d' saved dir h v
Step-IsConsistent {client} {c} (encrypt d s now) v =
    form-IsConsistent d (record (judge_before_encrypt client c s d.form).1 { current_date = now })
      (judge_before_encrypt-SamePaths client c s d.form) v

-- Whatever the window handles, its arrays keep together.
pub Reach-IsConsistent :
    {client : Client} {c : Config} {d d' : Dialog}
    → IsConsistent d
    → Reach client c d d'
    → IsConsistent d'
Reach-IsConsistent v here = v
Reach-IsConsistent v (next r step) = Step-IsConsistent step (Reach-IsConsistent v r)
