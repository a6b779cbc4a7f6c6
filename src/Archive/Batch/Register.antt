-- ===== src/Archive/Batch/Register.antt =====
-- What the database part of a round changes, and what has reached the server when a round finishes.
use sec_pro_gis.Base.{ℕ, Bool, true, false, Option, none, some, List, if◌then◌else◌, ℤ, negsuc}
use sec_pro_gis.Base.{
  ◌≡◌, ◌≢◌, refl, sym, ap, ◌∙◌, subst, arith, inl, inr, Bool-cases, length, some_inj, some_ne_none,
}
use sec_pro_gis.Hex.{sprint_hex}
use sec_pro_gis.Word.{Word, assign}
use sec_pro_gis.Word.Value.{word_of, copy-word_of}
use sec_pro_gis.Text.{sprintf, sprintf-eq, no_server}
use sec_pro_gis.Query.{Client, Session, exec_query}
use sec_pro_gis.Km.{Serv}
use sec_pro_gis.Km.Store.{store_as}
use sec_pro_gis.Km.Store.Sent.{Sent, store_as-Sent}
use sec_pro_gis.Archive.Files.{Files}
use sec_pro_gis.Archive.Batch.{
  Env, Order, ServiceConf, Outcome, finished, not_stored, not_described, is_finished, is_failure,
  hex_word, describe_query, State, describe, after_store, register_one,
}
use sec_pro_gis.Archive.Batch.Round.{hex_word-word_of}

-- The service as `store` tells it to the server.
abbrev pub told : Env → List ℕ → Serv → Serv
told env cipher_md5 serv = record serv {
  md5_cipher = word_of (sprint_hex cipher_md5);
  enc_t = env.end_time;
}

not_failure : (code : ℤ) → is_failure code ≡ false → code ≢ negsuc 0
unfolding is_failure
not_failure code h e = absurd (ground (arith, sym (ap is_failure e) ∙ h))

module _ (same_path : List ℕ → List ℕ → Bool) (files : Files) (client : Client) where
  -- Nothing but the connection has changed.
  abbrev pub Kept : State same_path files client → State same_path files client → Type 0
  Kept st st' = (st'.folder ≡ st.folder) × (st'.conf ≡ st.conf) × (st'.content_key ≡ st.content_key)

  -- The statement that gives the file its name and remark, in the bytes of the code page.
  abbrev pub describe_text : Env → List ℕ → List ℕ → List ℕ
  describe_text env name cipher_md5 =
      describe_query (client.to_ansi name) (client.to_ansi env.remark) (sprint_hex cipher_md5)

  -- From one session to another, this statement did not fail with -3.
  abbrev pub Described : Order → Env → List ℕ → List ℕ → Session client → Session client → Type 0
  Described order env name cipher_md5 session session' =
      let ran = exec_query client order.config session (some (describe_text env name cipher_md5)) in
      (no_server ran.0 ≡ false) × (session' ≡ ran.1)

  describe-Kept :
      (order : Order) (st : State same_path files client) (o : Option (List ℕ))
      (r : Outcome × State same_path files client)
      → describe same_path files client order st o ≡ some r
      → Kept st r.1
        × (is_finished r.0 ≡ true
            → (sql : List ℕ) × (o ≡ some sql)
              × (no_server (exec_query client order.config st.session (some sql)).0 ≡ false)
              × (r.1.session ≡ (exec_query client order.config st.session (some sql)).1))
  unfolding describe is_finished
  describe-Kept order st none r h = some_ne_none h
  describe-Kept order st (some sql) r h =
      let ran = exec_query client order.config st.session (some sql) in
      let result : Bool → Outcome × State same_path files client =
        λ b. (if b then not_described else finished, record st { session = ran.1 }) in
      subst
        (λ (r : Outcome × State same_path files client).
          Kept st r.1
          × (is_finished r.0 ≡ true
              → (q : List ℕ) × (some sql ≡ some q)
                × (no_server (exec_query client order.config st.session (some q)).0 ≡ false)
                × (r.1.session ≡ (exec_query client order.config st.session (some q)).1)))
        (some_inj h)
        (
          (refl, refl, refl),
          λ done. (
            sql,
            refl,
            elim (Bool-cases (no_server ran.0)) [
              | inl e ↦
                  absurd
                    (ground (arith, sym (ap (λ (b : Bool). is_finished (result b).0) e) ∙ done))
              | inr e ↦ e
            ],
            refl,
          ),
        )

  after_store-Kept :
      (order : Order) (env : Env) (cipher_md5 name : List ℕ) (st : State same_path files client)
      (ret : Option ℤ) (r : Outcome × State same_path files client)
      → after_store same_path files client order env cipher_md5 name st ret ≡ some r
      → Kept st r.1
        × (is_finished r.0 ≡ true
            → ((code : ℤ) × (ret ≡ some code) × (code ≢ negsuc 0))
              × Described order env name cipher_md5 st.session r.1.session)
  unfolding after_store is_finished
  after_store-Kept order env cipher_md5 name st none r h = some_ne_none h
  after_store-Kept order env cipher_md5 name st (some code) r h =
      let text = describe_text env name cipher_md5 in
      let described = describe same_path files client order st (sprintf 300 text) in
      let answer : Bool → Option (Outcome × State same_path files client) =
        λ b. if b then some (not_stored, st) else described in
      elim (Bool-cases (is_failure code)) [
        | inl e ↦
            let same = some_inj (sym (ap answer e) ∙ h) in
            subst
              (λ (r : Outcome × State same_path files client).
                Kept st r.1
                × (is_finished r.0 ≡ true
                    → ((z : ℤ) × (some code ≡ some z) × (z ≢ negsuc 0))
                      × Described order env name cipher_md5 st.session r.1.session))
              same ((refl, refl, refl), λ done. absurd (ground (arith, done)))
        | inr e ↦
            let kept = describe-Kept order st (sprintf 300 text) r (sym (ap answer e) ∙ h) in
            (
              kept.0,
              λ done.
                  let ran = kept.1 done in
                  (
                    (code, refl, not_failure code e),
                    subst
                        (λ (q : List ℕ).
                          (no_server (exec_query client order.config st.session (some q)).0 ≡ false)
                          × (r.1.session ≡ (exec_query client order.config st.session (some q)).1))
                        (sym (sprintf-eq 300 text ran.0 ran.1)) (ran.2, ran.3),
                  ),
            )
      ]

  -- From one session to another, the server has run the statement that stores the key with the
  -- digests and the dates, and then, without the code -3, the one with the name and the remark.
  abbrev pub Registered :
      Order → ServiceConf → Env → List ℕ → Serv → List ℕ → Session client → Session client → Type 0
  Registered order conf env name serv cipher_md5 session session' =
      (between : Session client) × Sent client order.config conf.sk_table conf.admin
        (told env cipher_md5 serv) session between
      × Described order env name cipher_md5 between session'

  -- The database part of a round leaves the files, the settings and the key as they are. A round
  -- finishes only when its two statements have been sent, one after the other.
  pub register_one-Sent :
      (order : Order) (env : Env) (name : List ℕ) (serv : Serv) (cipher_md5 : List ℕ)
      (st : State same_path files client) (r : Outcome × State same_path files client)
      → length cipher_md5 ≡ 32
      → register_one same_path files client order env name serv cipher_md5 st ≡ some r
      → Kept st r.1
        × (is_finished r.0 ≡ true
            → Registered order st.conf env name serv cipher_md5 st.session r.1.session)
  unfolding register_one
  register_one-Sent order env name serv cipher_md5 st r size h =
      let word = hex_word cipher_md5 in
      let ran =
        store_as client order.config st.session st.conf.sk_table st.conf.admin serv word
          env.end_time in
      let st' : State same_path files client = record st {
        session = ran.2;
        current_date = env.end_time;
      } in
      let after = after_store-Kept order env cipher_md5 name st' ran.0 r h in
      (
        after.0,
        λ done.
            let sent = after.1 done in
            (
              ran.2,
              subst
                  (λ (w : Word).
                    Sent client order.config st.conf.sk_table st.conf.admin
                      (record serv { md5_cipher = w; enc_t = env.end_time }) st.session ran.2)
                  (ap (assign serv.md5_cipher) (hex_word-word_of cipher_md5 size)
                    ∙ (copy-word_of serv.md5_cipher (sprint_hex cipher_md5)).1)
                  (store_as-Sent client order.config st.session st.conf.sk_table st.conf.admin serv
                    word env.end_time sent.0.0 sent.0.1 sent.0.2),
              sent.1,
            ),
      )
