-- ===== src/Archive/Dialog/Examples.antt =====
-- A window after some messages, and `OnEncryptFile` from it.
use sec_pro_gis.Base.{
  ℕ, zero, suc, ◌+◌, ◌^◌, ◌<◌, true, false, none, some, List, [], ◌∷◌, length, replicate, ◌++◌,
  if◌then◌else◌, pos, negsuc, ◌≡◌, refl, sym, subst, arith,
}
use sec_pro_gis.Sm3.Digest.{hash}
use sec_pro_gis.Paths.{read_files, scan, get_plain_dir, dir_loop}
use sec_pro_gis.Text.{same}
use sec_pro_gis.Query.{exec_query, configured, no_port}
use sec_pro_gis.Km.Store.{store_as}
use sec_pro_gis.Km.Store.Accepted.{IsWilling}
use sec_pro_gis.Km.Store.Bounds.{IsShort}
use sec_pro_gis.Archive.Examples.{disk_files, stack, fresh}
use sec_pro_gis.Archive.Guards.Examples.{
  one_unit, settings, session, form_of, form_passes, form_judged,
}
use sec_pro_gis.Archive.Guards.{Form, judge_before_encrypt, change_date, is_empty}
use sec_pro_gis.Archive.Batch.{Env, Order, finished, seal_one, encrypt_at, hex_word, State}
use sec_pro_gis.Archive.Batch.Round.{set_up, service_of}
use sec_pro_gis.Archive.Batch.One.{IsSound, StandsAt, body_of, sealed_state}
use sec_pro_gis.Archive.Batch.Finish.{ShortNumbers, encrypt_at-none}
use sec_pro_gis.Archive.Batch.Rounds.{Progress}
use sec_pro_gis.Archive.Dialog.{
  mark, save_loop, Dialog, opened, picked_paths, on_read_file, cipher_paths_for, on_save_path,
  order_of, chosen_of, on_encrypt_file, Reach, here, next, read_file, pick_date, save_path,
}
use sec_pro_gis.Archive.Dialog.Indexed.{IsIndexed, Reach-IsIndexed}
use sec_pro_gis.Archive.Dialog.Whole.{item_of, on_encrypt_file-Progress, on_encrypt_file-finished}

-- C:\a and C:\d
abbrev plain : List ℕ
plain = 67 ∷ 58 ∷ 92 ∷ 97 ∷ []

abbrev other : List ℕ
other = 67 ∷ 58 ∷ 92 ∷ 100 ∷ []

abbrev plains : List (List ℕ)
plains = plain ∷ other ∷ []

-- E:
abbrev dir : List ℕ
dir = 69 ∷ 58 ∷ []

abbrev cipher : List ℕ
cipher = dir ++ ((92 ∷ []) ++ (mark ++ (97 ∷ [])))

abbrev other_cipher : List ℕ
other_cipher = dir ++ ((92 ∷ []) ++ (mark ++ (100 ∷ [])))

abbrev start : Dialog
start = opened 7 (pos 3) (pos 4)

abbrev chosen : Dialog
chosen = on_read_file start (some plains) (97 ∷ [])

abbrev dated : Dialog
dated = record chosen { form = change_date chosen.form (pos 9) (pos 8) }

abbrev window : Dialog
window = record {
  form = form_of plains (cipher ∷ other_cipher ∷ []) (pos 3);
  names = (97 ∷ []) ∷ (100 ∷ []) ∷ [];
  exts = [] ∷ [] ∷ [];
  sel_file_num = 2;
}

window_placed : on_save_path dated none dir ≡ some window
unfolding on_save_path on_read_file opened picked_paths read_files scan save_loop get_plain_dir
    dir_loop cipher_paths_for is_empty change_date
window_placed = refl

window_reached : Reach one_unit settings start window
window_reached =
    next
      (next (next here (read_file start (some plains) (97 ∷ [])))
        (pick_date chosen (pos 9) (pos 8)))
      (save_path dated window none dir window_placed)

Reach-IsIndexed_example : IsIndexed window
Reach-IsIndexed_example =
    Reach-IsIndexed one_unit settings session 7 (pos 3) (pos 4) window window_reached
      (form_passes plain (other ∷ []) cipher (other_cipher ∷ []) (pos 3))

-- A round's environment, a disk with the file, and the members before the first round.
abbrev around : ℕ → Env
around i = record {
  plain_stack = stack;
  cipher_stack = stack;
  ctx = fresh;
  seed_time = 1500000000 + i;
  key_time = 8;
  end_time = pos 8;
  old_enc_t = pos 0;
  remark = 114 ∷ [];
  writable = true;
}

abbrev text : ℕ → List ℕ
text i = replicate (20 + i) 65

abbrev before : State same disk_files one_unit
before = record {
  folder = λ path.
      if same path plain then some (text 0) else if same path other then some (text 1) else none;
  session = session;
  conf = record { sk_table = []; admin = negsuc 0 };
  content_key = replicate 16 0;
  current_date = pos 0;
}

one_unit_IsWilling : IsWilling one_unit settings
unfolding exec_query configured no_port
one_unit_IsWilling s sql = refl

below_two {ℓ} : (P : ℕ → Type ℓ) → P 0 → P 1 → (i : ℕ) → i < 2 → P i
below_two P a b zero h = a
below_two P a b (suc zero) h = b
below_two P a b (suc (suc i)) h = absurd (omega arith)

ready :
    (i : ℕ) → i < 2 → (0 < length (text i)) × (length (text i) + 44 < 2 ^ 31) × IsSound 9 (around i)
ready =
    below_two
      (λ (i : ℕ). (0 < length (text i)) × (length (text i) + 44 < 2 ^ 31) × IsSound 9 (around i))
      (omega arith, omega arith, (refl, refl, refl, omega arith, refl))
      (omega arith, omega arith, (refl, refl, refl, omega arith, refl))

apart :
    (i j : ℕ)
    → i < 2
    → j < 2
    → same (item_of window text i).cipher_path (item_of window text j).plain_path ≡ false
unfolding same
apart i j h k =
    below_two
      (λ (i : ℕ).
        same (item_of window text i).cipher_path (item_of window text j).plain_path ≡ false)
      (below_two (λ (j : ℕ). same cipher (item_of window text j).plain_path ≡ false) refl refl j k)
      (below_two (λ (j : ℕ). same other_cipher (item_of window text j).plain_path ≡ false) refl refl
        j k)
      i h

distinct :
    (i j : ℕ)
    → i < j
    → j < 2
    → same (item_of window text j).cipher_path (item_of window text i).cipher_path ≡ false
unfolding same
distinct zero zero h k = absurd (omega arith)
distinct zero (suc zero) h k = refl
distinct zero (suc (suc j)) h k = absurd (omega arith)
distinct (suc i) j h k = absurd (omega (arith, h, k))

itself :
    (i : ℕ)
    → i < 2
    → same (item_of window text i).cipher_path (item_of window text i).cipher_path ≡ true
unfolding same
itself =
    below_two
      (λ (i : ℕ).
        same (item_of window text i).cipher_path (item_of window text i).cipher_path ≡ true)
      refl refl

abbrev judged : Form
judged = (judge_before_encrypt one_unit settings before.session window.form).1

-- The members as the loop begins.
abbrev begun : State same disk_files one_unit
begun = record before {
  session = (judge_before_encrypt one_unit settings before.session window.form).2;
  current_date = judged.current_date;
}

there : (i : ℕ) → i < 2 → before.folder (item_of window text i).plain_path ≡ some (text i)
unfolding same
there =
    below_two (λ (i : ℕ). before.folder (item_of window text i).plain_path ≡ some (text i)) refl
      refl

short_numbers :
    (i : ℕ)
    → i < 2
    → ShortNumbers same disk_files one_unit
        (order_of settings (pos 1) judged)
        (set_up before.conf (pos 1))
        (around i)
unfolding set_up IsShort
short_numbers i h =
    subst
      (λ (f : Form).
        ShortNumbers same disk_files one_unit (order_of settings (pos 1) f)
          (set_up before.conf (pos 1)) (around i))
      (sym (form_judged plain (other ∷ []) cipher (other_cipher ∷ []) (pos 3)))
      (omega arith, omega arith, omega arith, omega arith, omega arith)

fits :
    (i : ℕ)
    → i < 2
    → length (one_unit.to_ansi (item_of window text i).name)
        + length (one_unit.to_ansi (around i).remark)
      < 178
fits =
    below_two
      (λ (i : ℕ).
        length (one_unit.to_ansi (item_of window text i).name)
          + length (one_unit.to_ansi (around i).remark)
        < 178)
      (omega arith) (omega arith)

on_encrypt_file-finished_example :
    (st' : State same disk_files one_unit) × ((on_encrypt_file same disk_files one_unit settings
        (pos 1)
        around
        window
        before).1
      ≡ some (some finished, st'))
    × Progress same disk_files one_unit
        (order_of settings (pos 1) judged)
        around
        (item_of window text)
        9
        2
        0
        begun
        (finished, st')
on_encrypt_file-finished_example =
    on_encrypt_file-finished same disk_files one_unit settings (pos 1) around 7 (pos 3) (pos 4)
      window text 8 9 window_reached refl refl ready apart distinct itself before there refl
      (form_passes plain (other ∷ []) cipher (other_cipher ∷ []) (pos 3)) one_unit_IsWilling
      short_numbers fits

window_finishes :
    (st' : State same disk_files one_unit) × ((on_encrypt_file same disk_files one_unit settings
        (pos 1)
        around
        window
        before).1
      ≡ some (some finished, st'))
    × Progress same disk_files one_unit
        (order_of settings (pos 1) judged)
        around
        (item_of window text)
        9
        2
        0
        begun
        (finished, st')
window_finishes =
    on_encrypt_file-finished same disk_files one_unit settings (pos 1) around 7 (pos 3) (pos 4)
      window text 8 9 window_reached refl refl ready apart distinct itself before there refl
      (form_passes plain (other ∷ []) cipher (other_cipher ∷ []) (pos 3)) one_unit_IsWilling
      short_numbers fits

on_encrypt_file-Progress_example :
    Progress same disk_files one_unit
      (order_of settings (pos 1) judged)
      around
      (item_of window text)
      9
      2
      0
      begun
      (finished, window_finishes.0)
on_encrypt_file-Progress_example =
    on_encrypt_file-Progress same disk_files one_unit settings (pos 1) around 7 (pos 3) (pos 4)
      window text 8 9 window_reached refl refl ready apart distinct itself before there refl
      finished window_finishes.0 window_finishes.1

-- A round whose remark is too long.
abbrev wordy : Env
wordy = record (around 0) { remark = replicate 177 114 }

abbrev settled : Order
settled = order_of settings (pos 1) window.form

wordy_short :
    ShortNumbers same disk_files one_unit settled (set_up before.conf settled.admin_id) wordy
unfolding IsShort set_up
wordy_short = (omega arith, omega arith, omega arith, omega arith, omega arith)

wordy_stands : StandsAt (chosen_of window) 0 (item_of window text 0)
wordy_stands = (refl, refl, refl, omega arith, omega arith)

-- What the round leaves before it turns to the database.
abbrev sealed : State same disk_files one_unit
sealed = sealed_state same disk_files one_unit settled wordy before (item_of window text 0) 9

encrypt_at-none_example :
    (seal_one same disk_files one_unit settled wordy before plain cipher
      ≡ some (
        service_of one_unit settled wordy (text 0),
        hash (body_of one_unit wordy (item_of window text 0)),
        sealed,
      ))
    × ((store_as one_unit settings before.session sealed.conf.sk_table sealed.conf.admin
          (service_of one_unit settled wordy (text 0))
          (hex_word (hash (body_of one_unit wordy (item_of window text 0))))
          wordy.end_time).0
        ≡ some (pos 0))
    × (encrypt_at same disk_files one_unit settled wordy (chosen_of window) before 0 ≡ none)
encrypt_at-none_example =
    encrypt_at-none same disk_files one_unit settled wordy (chosen_of window) before 0
      (item_of window text 0) 9 wordy_stands (refl, refl, refl, omega arith, refl)
      (there 0 (omega arith)) (apart 0 0 (omega arith) (omega arith)) refl refl
      (λ h. omega (arith, h)) one_unit_IsWilling wordy_short (omega arith)
