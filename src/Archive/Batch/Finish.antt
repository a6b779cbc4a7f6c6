-- ===== src/Archive/Batch/Finish.antt =====
-- The loop of `OnEncryptFile` with a server that runs every statement.
use sec_pro_gis.Base.{
  ◌>>=◌, ℕ, zero, suc, ◌+◌, ◌≤◌, ◌<◌, Bool, true, false, Option, none, some, List, [], ◌∷◌,
  if◌then◌else◌, ◌==◌, ℤ, pos,
}
use sec_pro_gis.Base.{◌≡◌, ◌≢◌, refl, sym, ap, ◌∙◌, subst, arith, length, length-append}
use sec_pro_gis.Sm3.Digest.{hash, length-hash}
use sec_pro_gis.Hex.{sprint_hex, length-sprint_hex}
use sec_pro_gis.Word.{Word, empty, filled, assign}
use sec_pro_gis.Word.Value.{word_of, filled-word_of, copy-word_of}
use sec_pro_gis.Text.{no_server}
use sec_pro_gis.Query.{Client, Session, exec_query}
use sec_pro_gis.Km.{Serv, is_zero, seeded}
use sec_pro_gis.Km.Keys.{length-gen_chars}
use sec_pro_gis.Km.Store.{storable, store_as}
use sec_pro_gis.Km.Store.Accepted.{
  sprintf-some, sprintf-none, IsWilling, StoreFits, store_as-accepted,
}
use sec_pro_gis.Km.Store.Bounds.{IsShort, service-StoreFits}
use sec_pro_gis.Archive.Files.{Files}
use sec_pro_gis.Archive.Batch.{
  Env, Order, ServiceConf, finished, is_finished, is_failure, hex_word, describe_query, State,
  Chosen, describe, after_store, seal_one, register_one, encrypt_at, encrypt_rounds,
}
use sec_pro_gis.Archive.Batch.Round.{
  set_up, set_up_idem, set_up-named, seal_one-container, key_of, service_of, hex_word-word_of,
}
use sec_pro_gis.Archive.Batch.Register.{told, describe_text}
use sec_pro_gis.Archive.Batch.One.{
  Item, IsSound, StandsAt, body_of, sealed_state, encrypt_at-register_one,
}
use sec_pro_gis.Archive.Batch.Rounds.{Present, one_round, still-Present}

filled_some : (b : List ℕ) → 0 < length b → filled (word_of b) ≡ true
filled_some [] h = absurd (omega arith)
filled_some (x ∷ b) h = filled-word_of x b

not_zero : (e : ℕ) → e ≢ 0 → (e == 0) ≡ false
not_zero e h = ground arith

filled-hash : (content : List ℕ) → filled (word_of (sprint_hex (hash content))) ≡ true
filled-hash content =
    filled_some (sprint_hex (hash content))
      (omega (arith, length-sprint_hex (hash content), length-hash content))

told-storable :
    (client : Client) (order : Order) (env : Env) (content body sk_table : List ℕ) (e : ℕ)
    → order.m_date ≡ pos e
    → e ≢ 0
    → length sk_table ≢ 0
    → storable (told env (hash body) (service_of client order env content)) sk_table ≡ true
unfolding storable is_zero
told-storable client order env content body sk_table e date ne named =
    let key =
      filled_some (key_of client env)
        (omega (arith, length-gen_chars 16 0 (seeded client.rand env.seed_time))) in
    let dated : is_zero order.m_date ≡ false = ap is_zero date ∙ not_zero e ne in
    rw (filled-hash content)
      (rw (filled-hash body) (rw key (rw dated (rw (not_zero (length sk_table) named) refl))))

length-describe_query :
    (fname remark md5_c : List ℕ)
    → length (describe_query fname remark md5_c) ≡ 58 + length fname + length remark + length md5_c
length-describe_query fname remark md5_c = simp length-append (omega arith)

length-describe_hash :
    (fname remark body : List ℕ)
    → length (describe_query fname remark (sprint_hex (hash body)))
      ≡ 122 + length fname + length remark
length-describe_hash fname remark body = omega (
  arith,
  length-describe_query fname remark (sprint_hex (hash body)),
  length-sprint_hex (hash body),
  length-hash body,
)

module _ (same_path : List ℕ → List ℕ → Bool) (files : Files) (client : Client)
    (order : Order) where
  -- The name of the table and the numbers in the statements of `store` are short.
  abbrev pub ShortNumbers : ServiceConf → Env → Type 0
  ShortNumbers conf env =
      (length conf.sk_table ≤ 12)
      × IsShort order.org_id
      × IsShort order.m_date
      × IsShort conf.admin
      × IsShort env.end_time

  module _ (env : Env) (item : Item) (e : ℕ) (st : State same_path files client)
      (willing : IsWilling client order.config) (short : ShortNumbers st.conf env)
      (date : order.m_date ≡ pos e) (ne : e ≢ 0) (named : length st.conf.sk_table ≢ 0) where
    -- The key is stored.
    abbrev stored_by : Option ℤ × Serv × Session client
    stored_by =
        store_as client order.config st.session st.conf.sk_table st.conf.admin
          (service_of client order env item.content) (hex_word (hash (body_of client env item)))
          env.end_time

    accepted : stored_by.0 ≡ some (pos 0)
    accepted =
        let conf = st.conf in
        let md5_c = hash (body_of client env item) in
        let serv = service_of client order env item.content in
        let hex = hex_word-word_of md5_c (length-hash (body_of client env item)) in
        let word : assign empty (hex_word md5_c) ≡ word_of (sprint_hex md5_c) =
          ap (assign empty) hex ∙ (copy-word_of empty (sprint_hex md5_c)).1 in
        let told_as : Word → Serv = λ w. record serv { md5_cipher = w; enc_t = env.end_time } in
        let fits =
          service-StoreFits client order.config conf.sk_table conf.admin order.org_id order.m_date
            env.end_time (sprint_hex (hash item.content)) (sprint_hex md5_c) (key_of client env)
            short.0 (omega (arith, length-sprint_hex (hash item.content), length-hash item.content))
            (omega (arith, length-sprint_hex md5_c, length-hash (body_of client env item)))
            (omega (arith, length-gen_chars 16 0 (seeded client.rand env.seed_time))) short.1
            short.2 short.3 short.4 in
        store_as-accepted client order.config st.session conf.sk_table conf.admin serv
          (hex_word md5_c) env.end_time willing
          (ap filled hex ∙ filled-hash (body_of client env item))
          (subst (λ (w : Word). StoreFits client order.config conf.sk_table conf.admin (told_as w))
            (sym word) fits)
          (subst (λ (w : Word). storable (told_as w) conf.sk_table ≡ true) (sym word)
            (told-storable client order env item.content (body_of client env item) conf.sk_table e
              date ne named))

    -- The round comes to its end when the name and the remark have together fewer than 178 bytes.
    register_one-finished :
        length (client.to_ansi item.name) + length (client.to_ansi env.remark) < 178
        → (st' : State same_path files client) × (register_one same_path files client order env
              item.name
              (service_of client order env item.content)
              (hash (body_of client env item))
              st
            ≡ some (finished, st'))
    unfolding register_one after_store describe is_failure no_server
    register_one-finished fits =
        let text =
          describe_text same_path files client env item.name (hash (body_of client env item)) in
        let printed = sprintf-some 300 text (
          omega (
            arith,
            fits,
            length-describe_hash (client.to_ansi item.name) (client.to_ansi env.remark)
                (body_of client env item),
          )) in
        let ran = exec_query client order.config stored_by.2 (some text) in
        (
          record st { session = ran.1; current_date = env.end_time },
          rw accepted (rw printed (rw (willing stored_by.2 text) refl)),
        )

    -- With more bytes the program ends.
    register_one-none :
        178 ≤ length (client.to_ansi item.name) + length (client.to_ansi env.remark)
        → register_one same_path files client order env item.name
            (service_of client order env item.content)
            (hash (body_of client env item))
            st
          ≡ none
    unfolding register_one after_store describe is_failure
    register_one-none long =
        let text =
          describe_text same_path files client env item.name (hash (body_of client env item)) in
        rw accepted (
          rw
            (sprintf-none 300 text (
              omega (
                arith,
                long,
                length-describe_hash (client.to_ansi item.name) (client.to_ansi env.remark)
                    (body_of client env item),
              )))
            refl)

module _ (same_path : List ℕ → List ℕ → Bool) (files : Files) (client : Client) (order : Order)
    (env : Env) (chosen : Chosen) (st : State same_path files client) (i : ℕ) (item : Item) (e : ℕ)
    (stands : StandsAt chosen i item) (sound : IsSound e env)
    (there : st.folder item.plain_path ≡ some item.content)
    (apart : same_path item.cipher_path item.plain_path ≡ false) (size : length st.content_key ≡ 16)
    (date : order.m_date ≡ pos e) (ne : e ≢ 0) (willing : IsWilling client order.config)
    (short : ShortNumbers same_path files client order (set_up st.conf order.admin_id) env) where
  -- What a round has done when it turns to the database.
  abbrev sealed_here : State same_path files client
  sealed_here = sealed_state same_path files client order env st item e

  -- A round for a file that can be sealed, with a server that runs every statement and short numbers.
  -- When the file name and the remark have together 178 bytes or more, it seals the file, `store`
  -- returns 0, and then the program ends.
  pub encrypt_at-none :
      178 ≤ length (client.to_ansi item.name) + length (client.to_ansi env.remark)
      → (seal_one same_path files client order env st item.plain_path item.cipher_path
          ≡ some (
            service_of client order env item.content,
            hash (body_of client env item),
            sealed_here,
          ))
        × ((store_as client order.config st.session sealed_here.conf.sk_table sealed_here.conf.admin
              (service_of client order env item.content)
              (hex_word (hash (body_of client env item)))
              env.end_time).0
            ≡ some (pos 0))
        × (encrypt_at same_path files client order env chosen st i ≡ none)
  encrypt_at-none long =
      let named = set_up-named st.conf order.admin_id in
      (
        seal_one-container same_path files client order env st item.plain_path item.cipher_path
            item.content e there apart stands.3 stands.4 sound.0 sound.1 sound.2 size date ne
            sound.3 sound.4,
        accepted same_path files client order env item e sealed_here willing short date ne named,
        encrypt_at-register_one same_path files client order env chosen st i item e stands sound
              there apart size date ne
            ∙ register_one-none same_path files client order env item e sealed_here willing short
                date ne named long,
      )

module _ (same_path : List ℕ → List ℕ → Bool) (files : Files) (client : Client) (order : Order)
    (chosen : Chosen) (env : ℕ → Env) (item : ℕ → Item) (n e : ℕ) (date : order.m_date ≡ pos e)
    (ne : e ≢ 0) (stands : (i : ℕ) → i < n → StandsAt chosen i (item i))
    (sound : (i : ℕ) → i < n → IsSound e (env i))
    (apart : (i j : ℕ) → i < n → j < n → same_path (item i).cipher_path (item j).plain_path ≡ false)
    (distinct : (i j : ℕ)
      → i < j
      → j < n
      → same_path (item j).cipher_path (item i).cipher_path ≡ false)
    (itself : (i : ℕ) → i < n → same_path (item i).cipher_path (item i).cipher_path ≡ true)
    (willing : IsWilling client order.config) (conf : ServiceConf)
    (named : length conf.sk_table ≢ 0)
    (short : (i : ℕ) → i < n → ShortNumbers same_path files client order conf (env i))
    (fits : (i : ℕ)
      → i < n
      → length (client.to_ansi (item i).name) + length (client.to_ansi (env i).remark) < 178) where
  abbrev PresentHere : State same_path files client → Type 0
  PresentHere =
      Present same_path files client order chosen env item n e date ne stands sound apart distinct
        itself

  encrypt_at-finished :
      (i : ℕ) (st : State same_path files client)
      → i < n
      → PresentHere st
      → set_up st.conf order.admin_id ≡ conf
      → (st' : State same_path files client) × (encrypt_at same_path files client order
            (env i)
            chosen
            st
            i
          ≡ some (finished, st'))
  encrypt_at-finished i st lt present same =
      let ended =
        register_one-finished same_path files client order (env i) (item i) e
          (sealed_state same_path files client order (env i) st (item i) e) willing
          (subst (λ (c : ServiceConf). ShortNumbers same_path files client order c (env i))
            (sym same) (short i lt))
          date ne (subst (λ (c : ServiceConf). length c.sk_table ≢ 0) (sym same) named)
          (fits i lt) in
      (
        ended.0,
        encrypt_at-register_one same_path files client order (env i) chosen st i (item i) e
              (stands i lt) (sound i lt) (present.0 i lt) (apart i i lt lt) present.1 date ne
            ∙ ended.1,
      )

  -- The loop comes to its end.
  pub encrypt_rounds-finished :
      (left i : ℕ) (st : State same_path files client)
      → i + left ≤ n
      → PresentHere st
      → set_up st.conf order.admin_id ≡ conf
      → (st' : State same_path files client) × (encrypt_rounds same_path files client order env
            chosen left i st
          ≡ some (finished, st'))
  unfolding encrypt_rounds is_finished
  encrypt_rounds-finished zero i st le present same = (st, refl)
  encrypt_rounds-finished (suc left) i st le present same =
      let now = encrypt_at-finished i st (omega arith) present same in
      let kept =
        one_round same_path files client order chosen env item n e date ne stands sound apart
          distinct itself i (omega arith) st (finished, now.0) present now.1 in
      let rest =
        encrypt_rounds-finished left (i + 1) now.0 (omega arith)
          (still-Present same_path files client order chosen env item n e date ne stands sound apart
            distinct itself i (omega arith) st (finished, now.0) present now.1)
          (ap (λ (c : ServiceConf). set_up c order.admin_id) kept.1
            ∙ set_up_idem st.conf order.admin_id
            ∙ same) in
      (
        rest.0,
        ap
              (λ o. o >>= λ r.
                if is_finished r.0
                then encrypt_rounds same_path files client order env chosen left (i + 1) r.1
                else some r)
              now.1
            ∙ rest.1,
      )
