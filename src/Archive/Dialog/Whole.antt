-- ===== src/Archive/Dialog/Whole.antt =====
-- `OnEncryptFile` from a window that has handled any messages.
use sec_pro_gis.Base.{
  ℕ, zero, suc, ◌+◌, ◌^◌, ◌<◌, Bool, true, false, Option, none, some, List, [], ◌∷◌,
}
use sec_pro_gis.Base.{length, get_elem?, get_or, leb, ℤ, pos}
use sec_pro_gis.Base.{◌≡◌, ◌≢◌, refl, sym, ap, ◌∙◌, subst, arith, some_inj, some_ne_none, >>=-some}
use sec_pro_gis.Query.{Config, Client}
use sec_pro_gis.Archive.Files.{Files}
use sec_pro_gis.Archive.Guards.{Form, leb_ℤ, judge_before_encrypt}
use sec_pro_gis.Archive.Guards.Passed.{judge_before_encrypt-yes}
use sec_pro_gis.Km.Store.Accepted.{IsWilling}
use sec_pro_gis.Archive.Batch.{Env, Outcome, finished, State, encrypt_rounds}
use sec_pro_gis.Archive.Batch.Round.{set_up, set_up-named}
use sec_pro_gis.Archive.Batch.Finish.{ShortNumbers, encrypt_rounds-finished}
use sec_pro_gis.Archive.Batch.One.{Item, IsSound, StandsAt}
use sec_pro_gis.Archive.Batch.Rounds.{Progress, encrypt_rounds-Progress}
use sec_pro_gis.Archive.Dialog.{
  Dialog, opened, Reach, chosen_of, order_of, after_judge, on_encrypt_file,
}
use sec_pro_gis.Archive.Dialog.Indexed.{Reach-IsIndexed}

-- The chosen file at an index, with its text.
abbrev pub item_of : Dialog → (ℕ → List ℕ) → ℕ → Item
item_of d content i = record {
  plain_path = get_or d.form.plain_paths i [];
  cipher_path = get_or d.form.cipher_paths i [];
  name = get_or d.names i [];
  content = content i;
}

get_elem?-get_or : (l : List (List ℕ)) (i : ℕ) → i < length l → get_elem? l i ≡ some (get_or l i [])
get_elem?-get_or [] i h = absurd (omega arith)
get_elem?-get_or (x ∷ l) zero h = refl
get_elem?-get_or (x ∷ l) (suc i) h = get_elem?-get_or l i (omega arith)

later : (m : ℤ) (now e : ℕ) → m ≡ pos e → leb_ℤ m (pos now) ≡ false → e ≢ 0
unfolding leb_ℤ
later m now e h k zero_e =
    no_later now (subst (λ (t : ℤ). leb_ℤ t (pos now) ≡ false) (h ∙ ap pos zero_e) k)
  where
    no_later : (now : ℕ) → leb 0 now ≡ false → ⊥
    no_later now h = ground (arith, h)

module _ (same_path : List ℕ → List ℕ → Bool) (files : Files) (client : Client) where
  after_judge-yes :
      (c : Config) (admin_id : ℤ) (env : ℕ → Env) (d : Dialog) (answer : Option Bool)
      (st : State same_path files client) (out : Outcome) (st' : State same_path files client)
      → after_judge same_path files client c admin_id env d answer st ≡ some (some out, st')
      → (answer ≡ some true)
        × (encrypt_rounds same_path files client
              (order_of c admin_id d.form)
              env
              (chosen_of d)
              d.sel_file_num
              0
              st
            ≡ some (out, st'))
  unfolding after_judge
  after_judge-yes c admin_id env d none st out st' h = some_ne_none h
  after_judge-yes c admin_id env d (some false) st out st' h =
      absurd (
        ground
          (arith, ap (λ (r : Option Outcome × State same_path files client). r.0) (some_inj h)))
  after_judge-yes c admin_id env d (some true) st out st' h =
      let ran =
        >>=-some
          (encrypt_rounds same_path files client (order_of c admin_id d.form) env (chosen_of d)
            d.sel_file_num 0 st)
          (λ r. some (some r.0, r.1)) h in
      let same = some_inj ran.2 in
      (
        refl,
        ran.1
            ∙ ap some (
                pair ran.0
                  (some_inj (ap (λ (r : Option Outcome × State same_path files client). r.0) same))
                  (ap (λ (r : Option Outcome × State same_path files client). r.1) same)),
      )
    where
      pair : (r : Outcome × State same_path files client) → r.0 ≡ out → r.1 ≡ st' → r ≡ (out, st')
      pair r a b = λ i. (a i, b i)

-- A window that its messages have led to, whose chosen paths are pairwise different, with texts that
-- can be sealed and a date that is not past when a key is made.
module _ (same_path : List ℕ → List ℕ → Bool) (files : Files) (client : Client) (c : Config)
    (admin_id : ℤ) (env : ℕ → Env) (sel : ℕ) (org current : ℤ) (d : Dialog) (content : ℕ → List ℕ)
    (now e : ℕ) (reach : Reach client c (opened sel org current) d)
    (is_now : d.form.current_date ≡ pos now) (date : d.form.m_date ≡ pos e)
    (ready : (i : ℕ)
      → i < d.sel_file_num
      → (0 < length (content i)) × (length (content i) + 44 < 2 ^ 31) × IsSound e (env i))
    (apart : (i j : ℕ)
      → i < d.sel_file_num
      → j < d.sel_file_num
      → same_path (item_of d content i).cipher_path (item_of d content j).plain_path ≡ false)
    (distinct : (i j : ℕ)
      → i < j
      → j < d.sel_file_num
      → same_path (item_of d content j).cipher_path (item_of d content i).cipher_path ≡ false)
    (itself : (i : ℕ)
      → i < d.sel_file_num
      → same_path (item_of d content i).cipher_path (item_of d content i).cipher_path ≡ true)
    (st : State same_path files client)
    (there : (i : ℕ)
      → i < d.sel_file_num
      → st.folder (item_of d content i).plain_path ≡ some (content i))
    (size : length st.content_key ≡ 16) where
  -- What `JudgeBeforeEncrypt` leaves in the window.
  abbrev pub judged_form : Form
  judged_form = (judge_before_encrypt client c st.session d.form).1

  -- The state as the loop begins.
  abbrev begun : State same_path files client
  begun = record st {
    session = (judge_before_encrypt client c st.session d.form).2;
    current_date = judged_form.current_date;
  }

  module _ (went : (judge_before_encrypt client c st.session d.form).0 ≡ some true) where
    sealed_date : judged_form.m_date ≡ pos e
    sealed_date = ap Form.m_date (judge_before_encrypt-yes client c st.session d.form went).2 ∙ date

    not_past : e ≢ 0
    not_past = later d.form.m_date now e date (
        ap (λ (t : ℤ). leb_ℤ d.form.m_date t) (sym is_now)
        ∙ (judge_before_encrypt-yes client c st.session d.form went).6)

    stands :
        (i : ℕ)
        → i < d.sel_file_num
        → StandsAt (chosen_of (record d { form = judged_form })) i (item_of d content i)
    stands i lt =
        let passed = judge_before_encrypt-yes client c st.session d.form went in
        let indexed = Reach-IsIndexed client c st.session sel org current d reach went in
        (
          ap (λ (l : List (List ℕ)). get_elem? l i) (ap Form.plain_paths passed.2)
              ∙ get_elem?-get_or d.form.plain_paths i (omega (arith, indexed.1)),
          ap (λ (l : List (List ℕ)). get_elem? l i) (ap Form.cipher_paths passed.2)
              ∙ get_elem?-get_or d.form.cipher_paths i (omega (arith, indexed.2)),
          get_elem?-get_or d.names i (omega (arith, indexed.3)),
          (ready i lt).0,
          (ready i lt).1,
        )

  -- `OnEncryptFile`, from any window that its messages can lead to, when it gets past the guards to
  -- the loop and comes to its end. The paths are pairwise different, the texts can be sealed, the
  -- system lets the program create and write the files, and the date is not past when a key is made.
  -- Then the loop wrote a first part of the chosen files, each in its container under the key that its
  -- round made, and registered all of them, but for the last one if it ended early: one after the
  -- other, each from the session that the one before left, the server ran the statement that stores
  -- the key with the digests, and then, without the code -3, the one with the name and the remark. If
  -- the loop finished, these are all the chosen files. No other path has changed.
  pub on_encrypt_file-Progress :
      (out : Outcome) (st' : State same_path files client)
      → (on_encrypt_file same_path files client c admin_id env d st).1 ≡ some (some out, st')
      → Progress same_path files client
          (order_of c admin_id judged_form)
          env
          (item_of d content)
          e
          d.sel_file_num
          0
          begun
          (out, st')
  unfolding on_encrypt_file
  on_encrypt_file-Progress out st' h =
      let judged = judge_before_encrypt client c st.session d.form in
      let d' : Dialog = record d { form = judged.1 } in
      let went =
        after_judge-yes same_path files client c admin_id env d' judged.0 begun out st' h in
      encrypt_rounds-Progress same_path files client (order_of c admin_id judged.1) (chosen_of d')
        env (item_of d content) d.sel_file_num e (sealed_date went.0) (not_past went.0)
        (stands went.0) (λ i lt. (ready i lt).2) apart distinct itself d.sel_file_num 0 begun
        (out, st') (omega arith) (there, size) went.1

  -- From the same windows and files, when `JudgeBeforeEncrypt` says yes, the server runs every
  -- statement, the numbers in the statements have at most ten digits, the name of the table at most 12
  -- characters, and each file name and its remark together fewer than 178 bytes in the code page, then
  -- `OnEncryptFile` comes to the end of its loop, and all the chosen files are sealed and registered,
  -- one after the other.
  pub on_encrypt_file-finished :
      (judge_before_encrypt client c st.session d.form).0 ≡ some true
      → IsWilling client c
      → ((i : ℕ)
          → i < d.sel_file_num
          → ShortNumbers same_path files client
              (order_of c admin_id judged_form)
              (set_up st.conf admin_id)
              (env i))
      → ((i : ℕ)
          → i < d.sel_file_num
          → length (client.to_ansi (item_of d content i).name)
              + length (client.to_ansi (env i).remark)
            < 178)
      → (st' : State same_path files client) × ((on_encrypt_file same_path files client c admin_id
            env d st).1
          ≡ some (some finished, st'))
        × Progress same_path files client
            (order_of c admin_id judged_form)
            env
            (item_of d content)
            e
            d.sel_file_num
            0
            begun
            (finished, st')
  unfolding on_encrypt_file after_judge
  on_encrypt_file-finished went willing short fits =
      let judged = judge_before_encrypt client c st.session d.form in
      let d' : Dialog = record d { form = judged.1 } in
      let ended =
        encrypt_rounds-finished same_path files client (order_of c admin_id judged.1) (chosen_of d')
          env (item_of d content) d.sel_file_num e (sealed_date went) (not_past went) (stands went)
          (λ i lt. (ready i lt).2) apart distinct itself willing (set_up st.conf admin_id)
          (set_up-named st.conf admin_id) short fits d.sel_file_num 0 begun (omega arith)
          (there, size) refl in
      let run : (on_encrypt_file same_path files client c admin_id env d st).1
          ≡ some (some finished, ended.0) =
        rw went (rw ended.1 refl) in
      (ended.0, run, on_encrypt_file-Progress finished ended.0 run)
