-- ===== src/Archive/Batch/Rounds.antt =====
-- The rounds of `OnEncryptFile` over the chosen files.
use sec_pro_gis.Base.{◌⊎◌}
use sec_pro_gis.Base.{
  ◌>>=◌, ℕ, zero, suc, ◌+◌, ◌≤◌, ◌<◌, Bool, true, false, Option, some, List, if◌then◌else◌, pos,
}
use sec_pro_gis.Base.{
  ◌≡◌, ◌≢◌, refl, sym, ap, ◌∙◌, subst, arith, inl, inr, Bool-cases, Option-cases, some_inj,
  some_ne_none, length,
}
use sec_pro_gis.Query.{Client, Session}
use sec_pro_gis.Km.{seeded}
use sec_pro_gis.Km.Keys.{length-gen_chars}
use sec_pro_gis.Archive.Files.{Files}
use sec_pro_gis.Archive.Sealing.Container.{container}
use sec_pro_gis.Archive.Batch.{
  put, Env, Order, ServiceConf, Outcome, is_finished, State, Chosen, encrypt_at, encrypt_rounds,
}
use sec_pro_gis.Archive.Batch.Round.{set_up, set_up_idem, key_of}
use sec_pro_gis.Archive.Batch.One.{
  Item, IsSound, StandsAt, body_of, RegisteredItem, encrypt_at-Registered,
}

module _ (same_path : List ℕ → List ℕ → Bool) (files : Files) (client : Client) (order : Order)
    (env : ℕ → Env) (item : ℕ → Item) (e : ℕ) where
  abbrev pub IsSealed : State same_path files client → ℕ → Type 0
  IsSealed st j =
      st.folder (item j).cipher_path ≡ some (container e (body_of client (env j) (item j)))

  -- From the index `i` on, `written` files are sealed and `done` of them registered, one after the
  -- other, each from the session that the one before has left: all of them, but for the last one if
  -- the loop ends early.
  abbrev pub Progress :
      ℕ → ℕ → State same_path files client → Outcome × State same_path files client → Type 0
  Progress left i st r =
      (done : ℕ) × (written : ℕ) × (sessions : ℕ → Session client) × (done ≤ written)
      × (written ≤ left)
      × (sessions 0 ≡ st.session)
      × (((is_finished r.0 ≡ true) × (done ≡ left) × (sessions done ≡ r.1.session))
          ⊎ ((is_finished r.0 ≡ false) × (written ≡ suc done)))
      × ((k : ℕ) → k < written → IsSealed r.1 (i + k))
      × ((k : ℕ)
          → k < done
          → RegisteredItem same_path files client order (set_up st.conf order.admin_id)
              (env (i + k)) (item (i + k)) (sessions k) (sessions (suc k)))
      × ((path : List ℕ)
          → ((k : ℕ) → k < written → same_path (item (i + k)).cipher_path path ≡ false)
          → r.1.folder path ≡ st.folder path)

-- The session before the first of a row of sessions.
before : {A : Type 0} → A → (ℕ → A) → ℕ → A
before first later zero = first
before first later (suc k) = later k

-- The arrays, the environment of each round, and the items that they make.
module _ (same_path : List ℕ → List ℕ → Bool) (files : Files) (client : Client) (order : Order)
    (chosen : Chosen) (env : ℕ → Env) (item : ℕ → Item) (n e : ℕ) (date : order.m_date ≡ pos e)
    (ne : e ≢ 0) (stands : (i : ℕ) → i < n → StandsAt chosen i (item i))
    (sound : (i : ℕ) → i < n → IsSound e (env i))
    (apart : (i j : ℕ) → i < n → j < n → same_path (item i).cipher_path (item j).plain_path ≡ false)
    (distinct : (i j : ℕ)
      → i < j
      → j < n
      → same_path (item j).cipher_path (item i).cipher_path ≡ false)
    (itself : (i : ℕ) → i < n → same_path (item i).cipher_path (item i).cipher_path ≡ true) where
  abbrev IsSealedHere : State same_path files client → ℕ → Type 0
  IsSealedHere = IsSealed same_path files client order env item e

  abbrev ProgressHere :
      ℕ → ℕ → State same_path files client → Outcome × State same_path files client → Type 0
  ProgressHere = Progress same_path files client order env item e

  abbrev pub Present : State same_path files client → Type 0
  Present st =
      ((j : ℕ) → j < n → st.folder (item j).plain_path ≡ some (item j).content)
      × (length st.content_key ≡ 16)

  module _ (i : ℕ) (in_range : i < n) (st : State same_path files client)
      (r : Outcome × State same_path files client) (present : Present st)
      (ran : encrypt_at same_path files client order (env i) chosen st i ≡ some r) where
    pub one_round :
        (r.1.folder
          ≡ put same_path st.folder
              (item i).cipher_path
              (container e (body_of client (env i) (item i))))
        × (r.1.conf ≡ set_up st.conf order.admin_id)
        × (r.1.content_key ≡ key_of client (env i))
        × (is_finished r.0 ≡ true
            → RegisteredItem same_path files client order
                (set_up st.conf order.admin_id)
                (env i)
                (item i)
                st.session
                r.1.session)
    one_round =
        encrypt_at-Registered same_path files client order (env i) chosen st i (item i) e
          (stands i in_range) (sound i in_range) (present.0 i in_range)
          (apart i i in_range in_range) present.1 date ne r ran

    -- The round's effect on one path.
    at_path :
        (path : List ℕ)
        → r.1.folder path ≡ (
            if same_path (item i).cipher_path path
            then some (container e (body_of client (env i) (item i)))
            else st.folder path)
    at_path path = ap (λ (f : List ℕ → Option (List ℕ)). f path) one_round.0

    other_path :
        (path : List ℕ)
        → same_path (item i).cipher_path path ≡ false
        → r.1.folder path ≡ st.folder path
    other_path path h =
        at_path path
        ∙ ap
            (λ (b : Bool).
              if b then some (container e (body_of client (env i) (item i))) else st.folder path)
            h

    sealed_now : IsSealedHere r.1 i
    sealed_now =
        at_path (item i).cipher_path
        ∙ ap
            (λ (b : Bool).
              if b
              then some (container e (body_of client (env i) (item i)))
              else st.folder (item i).cipher_path)
            (itself i in_range)

    pub still-Present : Present r.1
    still-Present = (
      λ j h. other_path (item j).plain_path (apart i j in_range h) ∙ present.0 j h,
      ap (λ (t : List ℕ). length t) one_round.2
          ∙ length-gen_chars 16 0 (seeded client.rand (env i).seed_time),
    )

    stopped_here : (left : ℕ) → is_finished r.0 ≡ false → ProgressHere (suc left) i st r
    stopped_here left h = (
      0,
      1,
      λ k. st.session,
      omega arith,
      omega arith,
      refl,
      inr (h, refl),
      λ k lt. subst (IsSealedHere r.1) {x = i} {y = i + k} (omega arith) sealed_now,
      λ k lt. absurd (omega arith),
      λ path away. other_path path (
          subst (λ (j : ℕ). same_path (item j).cipher_path path ≡ false) {x = i + 0} {y = i}
            (omega arith) (away 0 (omega arith))),
    )

    went_on :
        (left : ℕ) (r' : Outcome × State same_path files client)
        → i + suc left ≤ n
        → is_finished r.0 ≡ true
        → ProgressHere left (i + 1) r.1 r'
        → ProgressHere (suc left) i st r'
    unfolding before
    went_on left r' le ok
          (done, written, sessions, dw, wl, first, ending, sealed, registered, untouched) =
        (
          suc done,
          suc written,
          before st.session sessions,
          omega arith,
          omega arith,
          refl,
          elim ending [
            | inl (all, full, last) ↦ inl (all, ap suc full, last)
            | inr (early, last) ↦ inr (early, ap suc last)
          ],
          sealed_in,
          registered_in,
          λ path away.
              untouched path (λ k lt.
                subst (λ (j : ℕ). same_path (item j).cipher_path path ≡ false) {x = i + suc k}
                  {y = i + 1 + k} (omega arith) (away (suc k) (omega arith)))
              ∙ other_path path (
                  subst (λ (j : ℕ). same_path (item j).cipher_path path ≡ false) {x = i + 0} {y = i}
                    (omega arith) (away 0 (omega arith))),
        )
      where
        conf_kept : set_up r.1.conf order.admin_id ≡ set_up st.conf order.admin_id
        conf_kept =
            ap (λ (c : ServiceConf). set_up c order.admin_id) one_round.1
            ∙ set_up_idem st.conf order.admin_id

        sealed_in : (k : ℕ) → k < suc written → IsSealedHere r'.1 (i + k)
        sealed_in zero lt = subst (IsSealedHere r'.1) {x = i} {y = i + 0} (omega arith) (
            untouched (item i).cipher_path
              (λ k in_rest. distinct i (i + 1 + k) (omega arith) (omega arith))
            ∙ sealed_now)
        sealed_in (suc k) lt =
            subst (IsSealedHere r'.1) {x = i + 1 + k} {y = i + suc k} (omega arith)
              (sealed k (omega arith))

        registered_in :
            (k : ℕ)
            → k < suc done
            → RegisteredItem same_path files client order
                (set_up st.conf order.admin_id)
                (env (i + k))
                (item (i + k))
                (before st.session sessions k)
                (sessions k)
        registered_in zero lt =
            subst
              (λ (j : ℕ).
                RegisteredItem same_path files client order (set_up st.conf order.admin_id) (env j)
                  (item j) st.session (sessions 0))
              {x = i} {y = i + 0} (omega arith)
              (subst
                (λ (t : Session client).
                  RegisteredItem same_path files client order (set_up st.conf order.admin_id)
                    (env i) (item i) st.session t)
                (sym first) (one_round.3 ok))
        registered_in (suc k) lt =
            subst
              (λ (j : ℕ).
                RegisteredItem same_path files client order (set_up st.conf order.admin_id) (env j)
                  (item j) (sessions k) (sessions (suc k)))
              {x = i + 1 + k} {y = i + suc k} (omega arith)
              (subst
                (λ (c : ServiceConf).
                  RegisteredItem same_path files client order c (env (i + 1 + k)) (item (i + 1 + k))
                    (sessions k) (sessions (suc k)))
                conf_kept (registered k (omega arith)))

  -- The loop of `OnEncryptFile` over chosen files whose paths are pairwise different, with texts that
  -- can be sealed and a date that is not past. When the loop comes to its end, the files that it has
  -- written are a first part of the chosen ones, each in its container; all of them are registered, one
  -- after the other, but for the last one if the loop ends early; if it finishes, these are all the
  -- files; and no other path on the disk has changed.
  pub encrypt_rounds-Progress :
      (left i : ℕ) (st : State same_path files client) (r : Outcome × State same_path files client)
      → i + left ≤ n
      → Present st
      → encrypt_rounds same_path files client order env chosen left i st ≡ some r
      → ProgressHere left i st r
  unfolding encrypt_rounds is_finished
  encrypt_rounds-Progress zero i st r le present h = subst (ProgressHere zero i st) (some_inj h) (
    0,
    0,
    λ k. st.session,
    omega arith,
    omega arith,
    refl,
    inl (refl, refl, refl),
    λ k lt. absurd (omega arith),
    λ k lt. absurd (omega arith),
    λ path away. refl,
  )
  encrypt_rounds-Progress (suc left) i st r le present h =
      let now = encrypt_at same_path files client order (env i) chosen st i in
      let go : Option (Outcome × State same_path files client)
          → Option (Outcome × State same_path files client) =
        λ o. o >>= λ r.
        if is_finished r.0
        then encrypt_rounds same_path files client order env chosen left (i + 1) r.1
        else some r in
      elim (Option-cases now) [
        | inl e ↦ some_ne_none (sym (ap go e) ∙ h)
        | inr (r1, e) ↦
            let rest : Bool → Option (Outcome × State same_path files client) = λ b.
              if b
              then encrypt_rounds same_path files client order env chosen left (i + 1) r1.1
              else some r1 in
            let from = sym (ap go e) ∙ h in
            elim (Bool-cases (is_finished r1.0)) [
              | inl ok ↦ went_on i (omega arith) st r1 present e left r le ok (
                  encrypt_rounds-Progress left (i + 1) r1.1 r (omega arith)
                    (still-Present i (omega arith) st r1 present e) (sym (ap rest ok) ∙ from))
              | inr no_h ↦
                  subst (ProgressHere (suc left) i st) (some_inj (sym (ap rest no_h) ∙ from))
                    (stopped_here i (omega arith) st r1 present e left no_h)
            ]
      ]
