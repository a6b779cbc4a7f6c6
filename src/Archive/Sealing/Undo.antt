-- ===== src/Archive/Sealing/Undo.antt =====
-- What a reader of a sealed file gets back, and the file that cannot be sealed.
use sec_pro_gis.Base.{◌>>=◌, ℕ, ◌+◌, ◌-◌, ◌^◌, ◌≤◌, ◌<◌, Option, none, some, List, [], ◌++◌}
use sec_pro_gis.Base.{length, drop, replicate, IsBytes, if◌then◌else◌, ltb}
use sec_pro_gis.Base.{◌≡◌, refl, sym, ap, ◌∙◌, arith, take_all}
use sec_pro_gis.Sm4
use sec_pro_gis.Sm4.{setkey_enc, setkey_dec}
use sec_pro_gis.Sm4.Keys.{schedule, setkey_enc-schedule, setkey_dec-Reversed}
use sec_pro_gis.Sm4.Modes.{crypt_ecb_16}
use sec_pro_gis.Sm4.Modes.Ecb.{ecb_16, ecb_16_undo, crypt_ecb_16-blocks, length-ecb_16}
use sec_pro_gis.Sm3
use sec_pro_gis.Sm3.{sm3}
use sec_pro_gis.Hex.{sprint_hex}
use sec_pro_gis.Sm3.Digest.{hash}
use sec_pro_gis.Archive.Files.{Files, Disk}
use sec_pro_gis.Archive.Sealing.{
  Sealed, digest_plain, begin_cipher, encrypt_pieces, body_length, sign_cipher, seal_body,
  encrypt_file, as_int, enc_block_size,
}
use sec_pro_gis.Archive.Sealing.Pieces.{encrypt_loop_end}
use sec_pro_gis.Archive.Sealing.Container.{
  length-head, drop-container, as_int-some, begin_cipher-view, digest_plain-hash,
  encrypt_file-container,
}

-- The body of a sealed file, deciphered whole.
body_undo :
    (ctx' : Sm4.Context) (key content output : List ℕ) (mode : ℕ)
    → length ctx'.sk ≡ 32
    → IsBytes content
    → length content ≤ length output
    → crypt_ecb_16
        (setkey_dec ctx' key)
        mode
        (length content)
        (ecb_16 (schedule key) content)
        output
      ≡ some (content ++ drop (length content) output)
body_undo ctx' key content output mode h bytes le =
    let fresh : Sm4.Context = record { mode = 0; sk = replicate 32 0 } in
    let sk = schedule key in
    let dec = (setkey_dec ctx' key).sk in
    let size = length-ecb_16 sk content in
    crypt_ecb_16-blocks (setkey_dec ctx' key) mode (length content) (ecb_16 sk content) output
      (omega (arith, size)) le
    ∙ ap (λ (t : List ℕ). some (ecb_16 dec t ++ drop (length content) output))
        (take_all (length content) (ecb_16 sk content) (omega (arith, size))
          ∙ ap (λ (t : List ℕ). ecb_16 t content) (sym (setkey_enc-schedule fresh key refl)))
    ∙ ap (λ (t : List ℕ). some (t ++ drop (length content) output))
        (ecb_16_undo (setkey_enc fresh key).sk dec (setkey_dec-Reversed fresh ctx' key refl h)
          content bytes)

module _ (files : Files) where
  -- A file that `OnEncryptFile` has sealed gives the text back: past the 44 bytes of the header,
  -- `sm_crypt_ecb_16` with the decryption schedule of the same key writes the text to the buffer.
  pub encrypt_file_undo :
      (stack : Sm3.Context) (ctx ctx' : Sm4.Context) (key : List ℕ) (date mode : ℕ)
      → (content output : List ℕ) → length stack.buffer ≡ 64
      → length ctx.sk ≡ 32
      → length ctx'.sk ≡ 32
      → 0 < length content
      → length content + 44 < 2 ^ 31
      → IsBytes content
      → length content ≤ length output
      → (s : Sealed files) × (encrypt_file files stack ctx key date content ≡ some s)
        × (crypt_ecb_16
              (setkey_dec ctx' key)
              mode
              (length content)
              (drop 44 (files.view s.file).bytes)
              output
            ≡ some (content ++ drop (length content) output))
  encrypt_file_undo stack ctx ctx' key date mode content output hs hk hk' ne lt bytes le =
      let sealed = encrypt_file-container files stack ctx key date content hs hk ne lt in
      (
        sealed.0,
        sealed.1,
        ap
              (λ (t : List ℕ).
                crypt_ecb_16 (setkey_dec ctx' key) mode (length content) (drop 44 t) output)
              sealed.2
            ∙ ap (λ (t : List ℕ). crypt_ecb_16 (setkey_dec ctx' key) mode (length content) t output)
                (drop-container date (ecb_16 (schedule key) content))
            ∙ body_undo ctx' key content output mode hk' bytes le,
      )

  encrypt_pieces-empty :
      (key : List ℕ) (ctx : Sm4.Context) (cipher : files.File)
      → encrypt_pieces files key ctx [] cipher ≡ some cipher
  unfolding encrypt_pieces
  encrypt_pieces-empty key ctx cipher =
      let buffer : List ℕ = replicate {A = ℕ} enc_block_size 0 in
      encrypt_loop_end files 1 key ctx buffer buffer (files.open_file []) cipher (omega arith)
        (ap (λ (d : Disk). drop d.position d.bytes) (files.view-open_file []))

  begin_cipher-12 : (date : ℕ) → files.get_length (begin_cipher files date) ≡ 12
  begin_cipher-12 date =
      files.get_length-eq (begin_cipher files date)
      ∙ ap (λ (d : Disk). length d.bytes) (begin_cipher-view files date)
      ∙ length-head date

  body_length-short : (date : ℕ) → body_length files (begin_cipher files date) ≡ none
  unfolding body_length
  body_length-short date =
      let shorten : ℕ → Option ℕ = λ len. if ltb len 44 then none else some (len - 44) in
      ap (λ (n : ℕ). as_int n >>= shorten) (begin_cipher-12 date)
      ∙ ap (λ (o : Option ℕ). o >>= shorten) (as_int-some 12 (omega arith))

  sign_cipher-short :
      (stack : Sm3.Context) (date : ℕ) → sign_cipher files stack (begin_cipher files date) ≡ none
  unfolding sign_cipher
  sign_cipher-short stack date =
      ap
        (λ (o : Option ℕ). o >>= λ cipher_len.
          let (body, cipher') =
            files.read (files.seek_begin (begin_cipher files date) 44) cipher_len in
          some (sm3 stack body, files.write (files.seek_begin cipher' 12) (sm3 stack body)))
        (body_length-short date)

  -- Sealing an empty file fails although the digest and the pieces come out: the file then has 12
  -- bytes, fewer than its header, and the array for the body would have a negative size. (The digest's
  -- buffer has its 64 bytes.)
  pub encrypt_file-empty :
      (stack : Sm3.Context) (ctx : Sm4.Context) (key : List ℕ) (date : ℕ)
      → length stack.buffer ≡ 64
      → (digest_plain files stack [] ≡ some (hash []))
        × ((f : files.File) × (encrypt_pieces files key ctx [] (begin_cipher files date) ≡ some f)
            × (files.get_length f ≡ 12)
            × (body_length files f ≡ none))
        × (encrypt_file files stack ctx key date [] ≡ none)
  unfolding encrypt_file seal_body
  encrypt_file-empty stack ctx key date hs =
      let record_of : List ℕ → List ℕ × files.File → Option (Sealed files) =
        λ p t. some (record { file = t.1; md5_p = sprint_hex p; md5_c = sprint_hex t.0 }) in
      let pieces = encrypt_pieces-empty key ctx (begin_cipher files date) in
      let digest = digest_plain-hash files stack [] hs (omega arith) in
      let fails : seal_body files stack ctx key date [] ≡ none =
        ap (λ (o : Option files.File). o >>= sign_cipher files stack) pieces
        ∙ sign_cipher-short stack date in
      (
        digest,
        (begin_cipher files date, pieces, begin_cipher-12 date, body_length-short date),
        ap
              (λ (o : Option (List ℕ)).
                o >>= λ p. seal_body files stack ctx key date [] >>= record_of p)
              digest
            ∙ ap (λ (o : Option (List ℕ × files.File)). o >>= record_of (hash [])) fails,
      )
