-- ===== src/Archive/Batch/One.antt =====
-- One round of `OnEncryptFile` for a file that can be sealed.
use sec_pro_gis.Base.{ℕ, ◌+◌, ◌^◌, ◌≤◌, ◌<◌, Bool, true, false, some, List, pos}
use sec_pro_gis.Base.{◌≡◌, ◌≢◌, refl, sym, ◌∙◌, length, get_elem?}
use sec_pro_gis.Sm4.Keys.{schedule}
use sec_pro_gis.Sm4.Modes.Ecb.{ecb_16}
use sec_pro_gis.Sm3.Digest.{hash, length-hash}
use sec_pro_gis.Query.{Client, Session}
use sec_pro_gis.Archive.Files.{Files}
use sec_pro_gis.Archive.Sealing.Container.{container}
use sec_pro_gis.Archive.Batch.{
  put, Env, Order, ServiceConf, Outcome, is_finished, State, Chosen, register_one, encrypt_one,
  encrypt_at,
}
use sec_pro_gis.Archive.Batch.Round.{set_up, key_of, service_of, seal_one-container}
use sec_pro_gis.Archive.Batch.Register.{Registered, register_one-Sent}

-- One of the chosen files, and what a round for it begins with: memory of the right sizes, a time at
-- which the date is not past, and a system that lets it create and write the sealed file.
pub record Item : Type 0 where
  pub plain_path : List ℕ
  pub cipher_path : List ℕ
  pub name : List ℕ
  pub content : List ℕ

abbrev pub IsSound : ℕ → Env → Type 0
IsSound e env =
    (length env.plain_stack.buffer ≡ 64)
    × (length env.cipher_stack.buffer ≡ 64)
    × (length env.ctx.sk ≡ 32)
    × (env.key_time ≤ e)
    × (env.writable ≡ true)

-- The item stands at this index of the arrays, and its text can be sealed.
abbrev pub StandsAt : Chosen → ℕ → Item → Type 0
StandsAt chosen i item =
    (get_elem? chosen.plain_paths i ≡ some item.plain_path)
    × (get_elem? chosen.cipher_paths i ≡ some item.cipher_path)
    × (get_elem? chosen.names i ≡ some item.name)
    × (0 < length item.content)
    × (length item.content + 44 < 2 ^ 31)

-- The enciphered text, and the sealed file.
abbrev pub body_of : Client → Env → Item → List ℕ
body_of client env item = ecb_16 (schedule (key_of client env)) item.content

module _ (same_path : List ℕ → List ℕ → Bool) (files : Files) (client : Client)
    (order : Order) where
  -- From one session to another, the server has run the statement that stores the key of the item
  -- with its digests, and then, without the code -3, the one with its name and remark.
  abbrev pub RegisteredItem : ServiceConf → Env → Item → Session client → Session client → Type 0
  RegisteredItem conf env item session session' =
      Registered same_path files client order conf env item.name
        (service_of client order env item.content) (hash (body_of client env item)) session session'

  -- What a round has done when it turns to the database.
  abbrev pub sealed_state :
      Env → State same_path files client → Item → ℕ → State same_path files client
  sealed_state env st item e = record {
    folder = put same_path st.folder item.cipher_path (container e (body_of client env item));
    session = st.session;
    conf = set_up st.conf order.admin_id;
    content_key = key_of client env;
    current_date = st.current_date;
  }

  module _ (env : Env) (chosen : Chosen) (st : State same_path files client) (i : ℕ) (item : Item)
      (e : ℕ) (stands : StandsAt chosen i item) (sound : IsSound e env)
      (there : st.folder item.plain_path ≡ some item.content)
      (apart : same_path item.cipher_path item.plain_path ≡ false)
      (size : length st.content_key ≡ 16) (date : order.m_date ≡ pos e) (ne : e ≢ 0) where
    pub encrypt_at-register_one :
        encrypt_at same_path files client order env chosen st i
        ≡ register_one same_path files client order env item.name
            (service_of client order env item.content)
            (hash (body_of client env item))
            (sealed_state env st item e)
    unfolding encrypt_at encrypt_one
    encrypt_at-register_one =
        let sealed =
          seal_one-container same_path files client order env st item.plain_path item.cipher_path
            item.content e there apart stands.3 stands.4 sound.0 sound.1 sound.2 size date ne
            sound.3 sound.4 in
        rw stands.0 (rw stands.1 (rw stands.2 (rw sealed refl)))

    -- A round that comes to its end has sealed its file, and nothing else on the disk; if it
    -- finishes, the item is registered.
    pub encrypt_at-Registered :
        (r : Outcome × State same_path files client)
        → encrypt_at same_path files client order env chosen st i ≡ some r
        → (r.1.folder
            ≡ put same_path st.folder item.cipher_path (container e (body_of client env item)))
          × (r.1.conf ≡ set_up st.conf order.admin_id)
          × (r.1.content_key ≡ key_of client env)
          × (is_finished r.0 ≡ true
              → RegisteredItem (set_up st.conf order.admin_id) env item st.session r.1.session)
    encrypt_at-Registered r h =
        let sent =
          register_one-Sent same_path files client order env item.name
            (service_of client order env item.content) (hash (body_of client env item))
            (sealed_state env st item e) r (length-hash (body_of client env item))
            (sym encrypt_at-register_one ∙ h) in
        (sent.0.0, sent.0.1, sent.0.2, sent.1)
