-- ===== src/Archive/Batch/Round.antt =====
-- What one round of `OnEncryptFile` leaves on the disk, and which service it hands to the database.
use sec_pro_gis.Base.{ℕ, ◌+◌, ◌^◌, ◌≤◌, ◌<◌, Bool, true, false, Option, some, List, ◌++◌}
use sec_pro_gis.Base.{
  length, length-append, replicate, drop_all, take-append_at, append-nil, ◌==◌, if◌then◌else◌, ℤ,
  pos,
}
use sec_pro_gis.Base.{◌≡◌, ◌≢◌, inl, inr, Bool-cases, refl, sym, ap, ◌∙◌, subst, arith}
use sec_pro_gis.Sm4.Keys.{schedule}
use sec_pro_gis.Sm4.Modes.Ecb.{ecb_16}
use sec_pro_gis.Sm3.Digest.{hash, length-hash}
use sec_pro_gis.Hex.{sprint_hex, length-sprint_hex}
use sec_pro_gis.Word.{Word, empty, from_segment, assign}
use sec_pro_gis.Word.Value.{word_of, read_in-word_of, copy-word_of}
use sec_pro_gis.Text.{or_empty}
use sec_pro_gis.Query.{Client}
use sec_pro_gis.Km.{Serv, serv_of_plain, gen_key, gen_chars, seeded}
use sec_pro_gis.Km.Keys.{get_skey_fresh, gen_key-word_of}
use sec_pro_gis.Km.Store.{set_service_conf}
use sec_pro_gis.Archive.Files.{Files}
use sec_pro_gis.Archive.Sealing.Container.{container, digest_plain-hash, seal_body-container}
use sec_pro_gis.Archive.Batch.{
  put, Env, Order, ServiceConf, hex_word, date_bits, conf_service, take_key, State, seal_one,
  service_name, set_members,
}

-- A digest in hexadecimal, as a word.
pub hex_word-word_of : (md5 : List ℕ) → length md5 ≡ 32 → hex_word md5 ≡ word_of (sprint_hex md5)
unfolding hex_word from_segment
hex_word-word_of md5 size =
    let hex = sprint_hex md5 in
    let long : length hex ≡ 64 = omega (arith, length-sprint_hex md5) in
    ap (λ (r : Word × ℕ). r.0)
      (read_in-word_of empty (hex ++ replicate 2 0) 64
        (omega (arith, length-append hex (replicate 2 0))))
    ∙ ap word_of (take-append_at 64 hex (replicate 2 0) long)

-- The settings of the service that the first round leaves.
unfoldable pub set_up : ServiceConf → ℤ → ServiceConf
set_up conf admin_id =
    if length conf.sk_table == 0 then record { sk_table = service_name; admin = admin_id } else conf

conf_service-set_up :
    (conf : ServiceConf) (admin_id : ℤ) → conf_service conf admin_id ≡ some (set_up conf admin_id)
unfolding conf_service set_up set_members set_service_conf
conf_service-set_up conf admin_id = ground arith

pub set_up_idem :
    (conf : ServiceConf) (admin_id : ℤ)
    → set_up (set_up conf admin_id) admin_id ≡ set_up conf admin_id
unfolding set_up
set_up_idem conf admin_id = ground arith

-- The first round has named the table.
pub set_up-named : (conf : ServiceConf) (admin_id : ℤ) → length (set_up conf admin_id).sk_table ≢ 0
unfolding set_up
set_up-named conf admin_id = elim (Bool-cases (length conf.sk_table == 0)) [
  | inl e ↦ named_now e
  | inr e ↦ named_before e
]
  where
    either : Bool → ServiceConf
    either b = if b then record { sk_table = service_name; admin = admin_id } else conf

    named_now :
        (length conf.sk_table == 0) ≡ true
        → length (either (length conf.sk_table == 0)).sk_table ≢ 0
    named_now e =
        subst (λ (b : Bool). length (either b).sk_table ≢ 0) (sym e)
          (λ h. absurd (omega (arith, h)))

    named_before :
        (length conf.sk_table == 0) ≡ false
        → length (either (length conf.sk_table == 0)).sk_table ≢ 0
    named_before e =
        subst (λ (b : Bool). length (either b).sk_table ≢ 0) (sym e)
          (λ h. absurd (ground (arith, e, h)))

-- The key of a round.
abbrev pub key_of : Client → Env → List ℕ
key_of client env = gen_chars 16 0 (seeded client.rand env.seed_time)

-- The service that a round hands over.
abbrev pub service_of : Client → Order → Env → List ℕ → Serv
service_of client order env content = record {
  organization = order.org_id;
  md5_plaint = word_of (sprint_hex (hash content));
  md5_cipher = empty;
  skey = word_of (key_of client env);
  expire_t = order.m_date;
  enc_t = env.old_enc_t;
}

take_key-key_of :
    (client : Client) (serv : Serv) (env : Env) (content_key : List ℕ) (e : ℕ)
    → length content_key ≡ 16
    → serv.expire_t ≡ pos e
    → e ≢ 0
    → env.key_time ≤ e
    → take_key client serv env content_key
      ≡ ((gen_key serv 16 client.rand env.seed_time).0, key_of client env)
unfolding take_key or_empty
take_key-key_of client serv env content_key e size h ne le =
    let serv' = (gen_key serv 16 client.rand env.seed_time).0 in
    ap (λ (r : ℤ × Option (List ℕ)). (serv', or_empty r.1))
      (get_skey_fresh serv 16 client.rand env.seed_time env.key_time e content_key (omega arith) h
        ne le)
    ∙ ap (λ (t : List ℕ). (serv', key_of client env ++ t)) (drop_all 16 content_key (omega arith))
    ∙ ap (λ (t : List ℕ). (serv', t)) (append-nil (key_of client env))

service-service_of :
    (client : Client) (order : Order) (env : Env) (content : List ℕ)
    → (gen_key
        (serv_of_plain order.org_id (hex_word (hash content)) order.m_date env.old_enc_t)
        16
        client.rand
        env.seed_time).0
      ≡ service_of client order env content
unfolding serv_of_plain
service-service_of client order env content =
    let word = hex_word (hash content) in
    gen_key-word_of (serv_of_plain order.org_id word order.m_date env.old_enc_t) 15 client.rand
      env.seed_time
    ∙ ap
        (λ (w : Word). record {
          organization = order.org_id;
          md5_plaint = w;
          md5_cipher = empty;
          skey = word_of (key_of client env);
          expire_t = order.m_date;
          enc_t = env.old_enc_t;
        })
        (ap (assign empty) (hex_word-word_of (hash content) (length-hash content))
          ∙ (copy-word_of empty (sprint_hex (hash content))).1)

expire-serv_of_plain :
    (order : Order) (env : Env) (content : List ℕ)
    → (serv_of_plain order.org_id (hex_word (hash content)) order.m_date env.old_enc_t).expire_t
      ≡ order.m_date
unfolding serv_of_plain
expire-serv_of_plain order env content = refl

module _ (same_path : List ℕ → List ℕ → Bool) (files : Files) (client : Client) where
  pub seal_one-container :
      (order : Order) (env : Env) (st : State same_path files client)
      (plain_path cipher_path content : List ℕ) (e : ℕ)
      → st.folder plain_path ≡ some content
      → same_path cipher_path plain_path ≡ false
      → 0 < length content
      → length content + 44 < 2 ^ 31
      → length env.plain_stack.buffer ≡ 64
      → length env.cipher_stack.buffer ≡ 64
      → length env.ctx.sk ≡ 32
      → length st.content_key ≡ 16
      → order.m_date ≡ pos e
      → e ≢ 0
      → env.key_time ≤ e
      → env.writable ≡ true
      → let body = ecb_16 (schedule (key_of client env)) content in
        seal_one same_path files client order env st plain_path cipher_path
        ≡ some (
          service_of client order env content,
          hash body,
          record {
            folder = put same_path st.folder cipher_path (container e body);
            session = st.session;
            conf = set_up st.conf order.admin_id;
            content_key = key_of client env;
            current_date = st.current_date;
          },
        )
  unfolding seal_one date_bits
  seal_one-container order env st plain_path cipher_path content e there apart some_text fits hp hc
        hk hkey date ne le can_write =
      let serv = serv_of_plain order.org_id (hex_word (hash content)) order.m_date env.old_enc_t in
      let sealed =
        seal_body-container files env.cipher_stack env.ctx (key_of client env) e content hc hk
          some_text fits in
      let taken =
        take_key-key_of client serv env st.content_key e hkey
          (expire-serv_of_plain order env content ∙ date) ne le in
      let bits : date_bits order.m_date ≡ e = ap date_bits date in
      rw there (
        rw (digest_plain-hash files env.plain_stack content hp (omega arith)) (
          rw (conf_service-set_up st.conf order.admin_id) (
            rw taken (
              rw (service-service_of client order env content) (
                rw bits (
                  rw sealed.1 (
                    rw (apart, can_write)
                      (ap
                        (λ (b : List ℕ). some (
                          service_of client order env content,
                          hash (ecb_16 (schedule (key_of client env)) content),
                          record {
                            folder = put same_path st.folder cipher_path b;
                            session = st.session;
                            conf = set_up st.conf order.admin_id;
                            content_key = key_of client env;
                            current_date = st.current_date;
                          },
                        ))
                        sealed.2))))))))
