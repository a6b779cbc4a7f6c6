-- ===== src/Archive/Sealing/Container.antt =====
-- The file that `OnEncryptFile` leaves: its header, its body and its digests.
use sec_pro_gis.Base.{
  ◌>>=◌, Bool, ℕ, suc, ◌+◌, ◌-◌, ◌%◌, ◌^◌, ◌≤◌, ◌<◌, Option, none, some, List, [], ◌∷◌,
}
use sec_pro_gis.Base.{◌++◌, append_assoc, length, take, drop, replicate, ltb, if◌then◌else◌}
use sec_pro_gis.Base.{◌≡◌, refl, sym, ap, ap₂, ◌∙◌, subst, arith, length-append}
use sec_pro_gis.Base.{length-replicate, take_all, take-append_at, drop-append_at, lt→ltb, le→ltb}
use sec_pro_gis.Sm4
use sec_pro_gis.Sm4.Keys.{schedule}
use sec_pro_gis.Sm4.Modes.Ecb.{ecb_16, length-ecb_16}
use sec_pro_gis.Sm3
use sec_pro_gis.Sm3.{sm3}
use sec_pro_gis.Sm3.Digest.{hash, sm3-hash, length-hash}
use sec_pro_gis.Archive.Files.{Files, Disk, overwrite}
use sec_pro_gis.Hex.{sprint_hex}
use sec_pro_gis.Archive.Sealing.{
  enc_block_size, le_bytes, if_enc_flag, as_int, Sealed, digest_plain, begin_cipher, encrypt_pieces,
  body_length, sign_cipher, seal_body, encrypt_file,
}
use sec_pro_gis.Archive.Sealing.Pieces.{
  Ends, Written, write-Written, Written-Ends, encrypt_loop-Written,
}

-- The flag and the date.
pub head : ℕ → List ℕ
head date = if_enc_flag ++ le_bytes 8 date

-- The layout of a sealed file: the flag, the date, the digest of the body, and the body.
pub container : ℕ → List ℕ → List ℕ
container date body = head date ++ (hash body ++ body)

pub length-head : (date : ℕ) → length (head date) ≡ 12
unfolding head if_enc_flag le_bytes
length-head date = refl

pub as_int-some : (n : ℕ) → n < 2 ^ 31 → as_int n ≡ some n
unfolding as_int
as_int-some n h = let same : n % 2 ^ 32 ≡ n = omega arith in rw same (rw (lt→ltb n (2 ^ 31) h) refl)

-- Past the 44 bytes of the header comes the body.
pub drop-container : (date : ℕ) (body : List ℕ) → drop 44 (container date body) ≡ body
unfolding container
drop-container date body =
    ap (drop 44) (sym (append_assoc (head date) (hash body) body))
    ∙ drop-append_at 44 (head date ++ hash body) body
        (length-append (head date) (hash body) ∙ omega (arith, length-head date, length-hash body))

pub length-container : (date : ℕ) (body : List ℕ) → length (container date body) ≡ 44 + length body
unfolding container
length-container date body =
    length-append (head date) (hash body ++ body)
    ∙ omega (arith, length-head date, length-hash body, length-append (hash body) body)

-- The first byte of the flag.
pub take-container : (date : ℕ) (body : List ℕ) → take 1 (container date body) ≡ 1 ∷ []
unfolding container head if_enc_flag le_bytes
take-container date body = refl

overwrite_room :
    (front room body new : List ℕ) (gap : ℕ)
    → length front ≡ 12
    → length room ≡ 32
    → length new ≡ 32
    → overwrite gap (record { bytes = (front ++ room) ++ body; position = 12 }) new
      ≡ front ++ (new ++ body)
overwrite_room front room body new gap hf hr hn =
    let whole = (front ++ room) ++ body in
    let fill = replicate (12 - length whole) gap in
    let first : take 12 (whole ++ fill) ≡ front =
      ap (λ (t : List ℕ). take 12 (t ++ fill)) (append_assoc front room body)
      ∙ ap (take 12) (append_assoc front (room ++ body) fill)
      ∙ take-append_at 12 front ((room ++ body) ++ fill) hf in
    let last : drop (12 + length new) whole ≡ body =
      ap (λ (t : ℕ). drop t whole) {x = 12 + length new} {y = 44} (omega arith)
      ∙ drop-append_at 44 (front ++ room) body (length-append front room ∙ omega arith) in
    ap₂ (λ (x y : List ℕ). x ++ (new ++ y)) first last

module _ (files : Files) where
  pub digest_plain-hash :
      (stack : Sm3.Context) (content : List ℕ)
      → length stack.buffer ≡ 64
      → length content < 2 ^ 31
      → digest_plain files stack content ≡ some (hash content)
  unfolding digest_plain
  digest_plain-hash stack content hs lt =
      let file = files.open_file content in
      let size : files.get_length file ≡ length content =
        files.get_length-eq file
        ∙ ap (λ (d : Disk). length d.bytes) (files.view-open_file content) in
      let all : (files.read file (length content)).0 ≡ content =
        files.read-eq file (length content)
        ∙ ap (λ (d : Disk). take (length content) (drop d.position d.bytes))
            (files.view-open_file content)
        ∙ take_all (length content) content (omega arith) in
      ap (λ (n : ℕ). as_int n >>= λ plain_len. some (sm3 stack (files.read file plain_len).0)) size
      ∙ ap (λ (o : Option ℕ). o >>= λ plain_len. some (sm3 stack (files.read file plain_len).0))
          (as_int-some (length content) lt)
      ∙ ap (λ (t : List ℕ). some (sm3 stack t)) all
      ∙ ap some (sm3-hash stack content hs lt)

  disk-Ends :
      (f : files.File) (b front : List ℕ) (p : ℕ)
      → files.view f ≡ record { bytes = b; position = p }
      → length b ≤ p
      → b ++ replicate (p - length b) files.gap ≡ front
      → Ends files f front
  disk-Ends f b front p h le is_front =
      subst
        (λ (d : Disk).
          (length d.bytes ≤ d.position)
          × (d.bytes ++ replicate (d.position - length d.bytes) files.gap ≡ front))
        (sym h) (le, is_front)

  pub begin_cipher-view :
      (date : ℕ)
      → files.view (begin_cipher files date)
        ≡ record { bytes = head date; position = length (head date) + 32 }
  unfolding begin_cipher head
  begin_cipher-view date =
      let flagged = files.write files.create if_enc_flag in
      let dated = files.write flagged (le_bytes 8 date) in
      let fresh = Written-Ends files files.create [] files.view-create in
      let once =
        write-Written files files.create [] if_enc_flag fresh
          (unfold if_enc_flag le_bytes in omega arith) in
      let twice =
        write-Written files flagged if_enc_flag (le_bytes 8 date)
          (Written-Ends files flagged if_enc_flag once) (unfold le_bytes in omega arith) in
      files.view-seek_current dated 32
      ∙ ap (λ (d : Disk). record { bytes = d.bytes; position = d.position + 32 }) twice

  begin_cipher-Ends :
      (date : ℕ) → Ends files (begin_cipher files date) (head date ++ replicate 32 files.gap)
  begin_cipher-Ends date =
      disk-Ends (begin_cipher files date) (head date) (head date ++ replicate 32 files.gap)
        (length (head date) + 32) (begin_cipher-view date) (omega arith)
        (ap (λ (t : ℕ). head date ++ replicate t files.gap)
          {x = length (head date) + 32 - length (head date)} {y = 32} (omega arith))

  encrypt_pieces-Written :
      (key : List ℕ) (ctx : Sm4.Context) (content front : List ℕ) (cipher : files.File)
      → 0 < length content
      → length ctx.sk ≡ 32
      → Ends files cipher front
      → (c : files.File) × (encrypt_pieces files key ctx content cipher ≡ some c)
        × Written files c (front ++ ecb_16 (schedule key) content)
  unfolding encrypt_pieces
  encrypt_pieces-Written key ctx content front cipher ne hs h =
      let buffer : List ℕ = replicate {A = ℕ} enc_block_size 0 in
      encrypt_loop-Written files (suc (length content)) key ctx buffer buffer front content
        (files.open_file content) cipher (omega arith) ne hs
        (length-replicate {A = ℕ} enc_block_size 0)
        (ap (λ (d : Disk). drop d.position d.bytes) (files.view-open_file content)) h

  body_length-some :
      (cipher : files.File) (m : ℕ)
      → files.get_length cipher ≡ m
      → 44 ≤ m
      → m < 2 ^ 31
      → body_length files cipher ≡ some (m - 44)
  unfolding body_length
  body_length-some cipher m size le lt =
      let shorten : ℕ → Option ℕ = λ len. if ltb len 44 then none else some (len - 44) in
      ap (λ (t : ℕ). as_int t >>= shorten) size
      ∙ ap (λ (o : Option ℕ). o >>= shorten) (as_int-some m lt)
      ∙ ap (λ (b : Bool). if b then none else some (m - 44)) (le→ltb m 44 le)

  sign_cipher_at :
      (stack : Sm3.Context) (cipher : files.File) (n : ℕ)
      → files.get_length cipher ≡ 44 + n
      → n + 44 < 2 ^ 31
      → sign_cipher files stack cipher ≡ (
          let (body, cipher') = files.read (files.seek_begin cipher 44) n in
          some (sm3 stack body, files.write (files.seek_begin cipher' 12) (sm3 stack body)))
  unfolding sign_cipher
  sign_cipher_at stack cipher n size lt =
      let signed : Option ℕ → Option (List ℕ × files.File) = λ o. o >>= λ cipher_len.
      let (body, cipher') = files.read (files.seek_begin cipher 44) cipher_len in
      some (sm3 stack body, files.write (files.seek_begin cipher' 12) (sm3 stack body)) in
      ap signed (
        body_length-some cipher (44 + n) size (omega arith) (omega arith)
        ∙ ap some {x = 44 + n - 44} {y = n} (omega arith))

  -- The digest lands between the head and the body.
  sign_cipher-hash :
      (stack : Sm3.Context) (front body : List ℕ) (room : List ℕ) (cipher : files.File)
      → length stack.buffer ≡ 64
      → length front ≡ 12
      → length room ≡ 32
      → length body + 44 < 2 ^ 31
      → Written files cipher ((front ++ room) ++ body)
      → (f : files.File) × (sign_cipher files stack cipher ≡ some (hash body, f))
        × ((files.view f).bytes ≡ front ++ (hash body ++ body))
  sign_cipher-hash stack front body room cipher hs hf hr lt h =
      let n = length body in
      let whole = (front ++ room) ++ body in
      let start = files.seek_begin cipher 44 in
      let rest = (files.read start n).1 in
      let back = files.seek_begin rest 12 in
      let header : length (front ++ room) ≡ 44 = length-append front room ∙ omega arith in
      let size : length whole ≡ 44 + n =
        length-append (front ++ room) body ∙ omega (arith, header) in
      let at_body : files.view start ≡ record { bytes = whole; position = 44 } =
        files.view-seek_begin cipher 44
        ∙ ap (λ (d : Disk). record { bytes = d.bytes; position = 44 }) h in
      let got : (files.read start n).0 ≡ body =
        files.read-eq start n
        ∙ ap (λ (d : Disk). take n (drop d.position d.bytes)) at_body
        ∙ ap (take n) (drop-append_at 44 (front ++ room) body header)
        ∙ take_all n body (omega arith) in
      let at_digest : files.view back ≡ record { bytes = whole; position = 12 } =
        files.view-seek_begin rest 12
        ∙ ap (λ (d : Disk). record { bytes = d.bytes; position = 12 })
            (files.view-read start n
              ∙ ap
                  (λ (d : Disk). record {
                    bytes = d.bytes;
                    position = d.position + length (files.read start n).0;
                  })
                  at_body) in
      (
        files.write back (hash body),
        sign_cipher_at stack cipher n
              (files.get_length-eq cipher ∙ ap (λ (d : Disk). length d.bytes) h ∙ size) lt
            ∙ ap (λ (t : List ℕ). some (sm3 stack t, files.write back (sm3 stack t))) got
            ∙ ap (λ (t : List ℕ). some (t, files.write back t))
                (sm3-hash stack body hs (omega arith)),
        ap Disk.bytes (files.view-write back (hash body) (omega (arith, length-hash body)))
            ∙ ap (λ (d : Disk). overwrite files.gap d (hash body)) at_digest
            ∙ overwrite_room front room body (hash body) files.gap hf hr (length-hash body),
      )

  -- The sealed file has the header, with the hash of the body in it, and the body.
  pub seal_body-container :
      (stack : Sm3.Context) (ctx : Sm4.Context) (key : List ℕ) (date : ℕ) (content : List ℕ)
      → length stack.buffer ≡ 64
      → length ctx.sk ≡ 32
      → 0 < length content
      → length content + 44 < 2 ^ 31
      → let body = ecb_16 (schedule key) content in
        (f : files.File) × (seal_body files stack ctx key date content ≡ some (hash body, f))
        × ((files.view f).bytes ≡ container date body)
  unfolding seal_body container
  seal_body-container stack ctx key date content hs hk ne lt =
      let body = ecb_16 (schedule key) content in
      let pieces =
        encrypt_pieces-Written key ctx content (head date ++ replicate 32 files.gap)
          (begin_cipher files date) ne hk (begin_cipher-Ends date) in
      let signed =
        sign_cipher-hash stack (head date) body (replicate 32 files.gap) pieces.0 hs
          (length-head date) (length-replicate {A = ℕ} 32 files.gap)
          (omega (arith, length-ecb_16 (schedule key) content)) pieces.2 in
      (
        signed.0,
        ap (λ (o : Option files.File). o >>= sign_cipher files stack) pieces.1 ∙ signed.1,
        signed.2,
      )

  -- `OnEncryptFile` succeeds on every file that is not empty and whose sealed form an `int` can
  -- measure, with any files that obey the laws, and whatever the contexts held. It leaves the flag,
  -- the date, the SM3 hash of the body, and as the body the whole text as `sm_crypt_ecb_16`
  -- enciphers it at once; for the database it has the hashes of the text and of the body.
  pub encrypt_file-container :
      (stack : Sm3.Context) (ctx : Sm4.Context) (key : List ℕ) (date : ℕ) (content : List ℕ)
      → length stack.buffer ≡ 64
      → length ctx.sk ≡ 32
      → 0 < length content
      → length content + 44 < 2 ^ 31
      → (s : Sealed files) × (encrypt_file files stack ctx key date content ≡ some s)
        × ((files.view s.file).bytes ≡ container date (ecb_16 (schedule key) content))
        × (s.md5_p ≡ sprint_hex (hash content))
        × (s.md5_c ≡ sprint_hex (hash (ecb_16 (schedule key) content)))
  unfolding encrypt_file
  encrypt_file-container stack ctx key date content hs hk ne lt =
      let body = ecb_16 (schedule key) content in
      let sealed = seal_body-container stack ctx key date content hs hk ne lt in
      let record_of : List ℕ → List ℕ × files.File → Option (Sealed files) =
        λ p t. some (record { file = t.1; md5_p = sprint_hex p; md5_c = sprint_hex t.0 }) in
      (
        record {
          file = sealed.0;
          md5_p = sprint_hex (hash content);
          md5_c = sprint_hex (hash body);
        },
        ap
              (λ (o : Option (List ℕ)).
                o >>= λ p. seal_body files stack ctx key date content >>= record_of p)
              (digest_plain-hash stack content hs (omega arith))
            ∙ ap (λ (o : Option (List ℕ × files.File)). o >>= record_of (hash content)) sealed.1,
        sealed.2,
        refl,
        refl,
      )
