-- ===== src/Archive/Batch.antt =====
-- `OnEncryptFile` of ArchiveDlg.cpp over the chosen files, with the database. `none` is a handler
-- that does not come to its end: a fault, an exception, or an `sprintf_s` whose buffer is too small.
pub mod Round
pub mod Register
pub mod One
pub mod Rounds
pub mod Finish
use sec_pro_gis.Base.{
  ◌>>=◌, ℕ, zero, suc, ◌+◌, ◌-◌, ◌^◌, Bool, true, false, Option, none, some, List, [], ◌∷◌, ◌++◌,
}
use sec_pro_gis.Base.{length, replicate, get_elem?, ◌==◌, if◌then◌else◌, ℤ, pos, negsuc}
use sec_pro_gis.Sm4
use sec_pro_gis.Sm3
use sec_pro_gis.Hex.{sprint_hex}
use sec_pro_gis.Word.{Word, from_segment}
use sec_pro_gis.Text.{sprintf, no_server, or_empty}
use sec_pro_gis.Query.{Config, Client, Session, exec_query}
use sec_pro_gis.Km.{Serv, serv_of_plain, gen_key, get_skey}
use sec_pro_gis.Km.Store.{store_as, set_service_conf}
use sec_pro_gis.Archive.Files.{Files}
use sec_pro_gis.Archive.Sealing.{digest_plain, seal_body}
use sec_pro_gis.Archive.Guards.{Form, judge_before_encrypt}

-- The files on the disk by their paths. Which paths mean one file is for the system to say.
abbrev pub Folder : Type 0
Folder = List ℕ → Option (List ℕ)

abbrev pub put : (List ℕ → List ℕ → Bool) → Folder → List ℕ → List ℕ → Folder
put same_path folder path bytes = λ q. if same_path path q then some bytes else folder q

-- What a round of the loop finds around it: memory that is not initialised, the times, the remark in
-- the window, and whether the system lets it create and write its file.
pub record Env : Type 0 where
  pub plain_stack : Sm3.Context
  pub cipher_stack : Sm3.Context
  pub ctx : Sm4.Context
  pub seed_time : ℕ
  pub key_time : ℕ
  pub end_time : ℤ
  pub old_enc_t : ℤ
  pub remark : List ℕ
  pub writable : Bool

-- The settings and the members that the loop reads.
pub record Order : Type 0 where
  pub config : Config
  pub admin_id : ℤ
  pub org_id : ℤ
  pub m_date : ℤ

-- The static members of `KM_SERV`.
pub record ServiceConf : Type 0 where
  pub sk_table : List ℕ
  pub admin : ℤ

-- `KM_WORD((char*)md5, 64)`, from a buffer of 66 characters.
pub hex_word : List ℕ → Word
hex_word md5 = from_segment (some (sprint_hex md5 ++ replicate 2 0)) (pos 64)

-- The date as it lies in memory.
pub date_bits : ℤ → ℕ
date_bits (pos n) = n
date_bits (negsuc n) = 2 ^ 64 - 1 - n

-- service
abbrev pub service_name : List ℕ
service_name = 115 ∷ 101 ∷ 114 ∷ 118 ∷ 105 ∷ 99 ∷ 101 ∷ []

set_members : ServiceConf → Option (List ℕ × ℤ) → ServiceConf
set_members conf none = conf
set_members conf (some members) = record { sk_table = members.0; admin = members.1 }

-- The table name and the administrator, set before the first file.
pub conf_service : ServiceConf → ℤ → Option ServiceConf
unfolding set_members
conf_service conf admin_id =
    let conf' =
      set_service_conf (some service_name) admin_id >>= λ r. some (set_members conf r.1) in
    if length conf.sk_table == 0 then conf' else some conf

-- `gen_key(16)` and `get_skey(ContentKey)`, whose result is not looked at.
pub take_key : Client → Serv → Env → List ℕ → Serv × List ℕ
take_key client serv env content_key =
    let serv' = (gen_key serv 16 client.rand env.seed_time).0 in
    (serv', or_empty (get_skey serv' env.key_time (some content_key)).1)

-- update service set fname = '...', rmrk = '...' where md5_c = '...';
abbrev pub describe_query : List ℕ → List ℕ → List ℕ → List ℕ
describe_query fname remark md5_c =
    (117 ∷ 112 ∷ 100 ∷ 97 ∷ 116 ∷ 101 ∷ 32 ∷ 115 ∷ 101 ∷ 114 ∷ 118 ∷ 105 ∷ 99 ∷ 101 ∷ 32 ∷ 115 ∷ 101
      ∷ 116 ∷ 32 ∷ 102 ∷ 110 ∷ 97 ∷ 109 ∷ 101 ∷ 32 ∷ 61 ∷ 32 ∷ 39 ∷ [])
    ++ (fname
        ++ ((39 ∷ 44 ∷ 32 ∷ 114 ∷ 109 ∷ 114 ∷ 107 ∷ 32 ∷ 61 ∷ 32 ∷ 39 ∷ [])
            ++ (remark
                ++ ((39 ∷ 32 ∷ 119 ∷ 104 ∷ 101 ∷ 114 ∷ 101 ∷ 32 ∷ 109 ∷ 100 ∷ 53 ∷ 95 ∷ 99 ∷ 32 ∷ 61
                      ∷ 32 ∷ 39 ∷ [])
                    ++ (md5_c ++ (39 ∷ 59 ∷ []))))))

-- How a round ends, if the program does not stop.
pub data Outcome : Type 0 where
  finished : Outcome
  not_stored : Outcome
  not_described : Outcome

pub is_finished : Outcome → Bool
is_finished finished = true
is_finished not_stored = false
is_finished not_described = false

-- `== -1`
pub is_failure : ℤ → Bool
is_failure (pos n) = false
is_failure (negsuc n) = n == 0

-- The chosen files.
pub record Chosen : Type 0 where
  pub plain_paths : List (List ℕ)
  pub cipher_paths : List (List ℕ)
  pub names : List (List ℕ)

module _ (same_path : List ℕ → List ℕ → Bool) (files : Files) (client : Client) where
  pub record State : Type 0 where
    pub folder : Folder
    pub session : Session client
    pub conf : ServiceConf
    pub content_key : List ℕ
    pub current_date : ℤ

  -- A round up to the sealed file: the service, the digest of the body, and the state. `CFile` throws
  -- when it cannot create or write the file, and it does not create one that the round has open.
  pub seal_one : Order → Env → State → List ℕ → List ℕ → Option (Serv × List ℕ × State)
  seal_one order env st plain_path cipher_path = do
    content ← st.folder plain_path
    plain_md5 ← digest_plain files env.plain_stack content
    conf ← conf_service st.conf order.admin_id
    let serv = serv_of_plain order.org_id (hex_word plain_md5) order.m_date env.old_enc_t
    let (serv', key) = take_key client serv env st.content_key
    signed ← seal_body files env.cipher_stack env.ctx key (date_bits order.m_date) content
    let bytes = (files.view signed.1).bytes
    let sealed : State = record {
      folder = put same_path st.folder cipher_path bytes;
      session = st.session;
      conf = conf;
      content_key = key;
      current_date = st.current_date;
    }
    let written = if env.writable then some (serv', signed.0, sealed) else none in
        if same_path cipher_path plain_path then none else written

  -- The statement that gives the file its name and remark.
  pub describe : Order → State → Option (List ℕ) → Option (Outcome × State)
  describe order st none = none
  describe order st (some sql) =
      let (code, session) = exec_query client order.config st.session (some sql) in
      some (if no_server code then not_described else finished, record st { session = session })

  -- After `store`: a round whose key is not stored ends there.
  pub after_store : Order → Env → List ℕ → List ℕ → State → Option ℤ → Option (Outcome × State)
  after_store order env cipher_md5 name st none = none
  after_store order env cipher_md5 name st (some code) =
      let text =
        describe_query (client.to_ansi name) (client.to_ansi env.remark) (sprint_hex cipher_md5) in
      let described = describe order st (sprintf 300 text) in
      if is_failure code then some (not_stored, st) else described

  -- A round from the sealed file to its end.
  pub register_one : Order → Env → List ℕ → Serv → List ℕ → State → Option (Outcome × State)
  register_one order env name serv cipher_md5 st =
      let (ret, serv', session) =
        store_as client order.config st.session st.conf.sk_table st.conf.admin serv
          (hex_word cipher_md5) env.end_time in
      after_store order env cipher_md5 name
        (record st { session = session; current_date = env.end_time }) ret

  -- One round: a file, its sealed form, and its row in the database.
  pub encrypt_one : Order → Env → State → List ℕ → List ℕ → List ℕ → Option (Outcome × State)
  encrypt_one order env st plain_path cipher_path name =
      seal_one order env st plain_path cipher_path >>= λ s. register_one order env name s.0 s.1 s.2

  -- A round at an index of the three arrays; an index out of range throws.
  pub encrypt_at : Order → Env → Chosen → State → ℕ → Option (Outcome × State)
  encrypt_at order env chosen st findex = do
    plain_path ← get_elem? chosen.plain_paths findex
    cipher_path ← get_elem? chosen.cipher_paths findex
    name ← get_elem? chosen.names findex
    encrypt_one order env st plain_path cipher_path name

  -- The loop of `OnEncryptFile`, from an index on: the first round that does not finish ends it.
  pub encrypt_rounds : Order → (ℕ → Env) → Chosen → ℕ → ℕ → State → Option (Outcome × State)
  encrypt_rounds order env chosen zero findex st = some (finished, st)
  encrypt_rounds order env chosen (suc left) findex st =
      encrypt_at order (env findex) chosen st findex >>= λ r.
      let rest = encrypt_rounds order env chosen left (findex + 1) r.1 in
      if is_finished r.0 then rest else some r
