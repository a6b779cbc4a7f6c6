-- ===== src/Archive/Sealing.antt =====
-- `OnEncryptFile` of ArchiveDlg.cpp for one file, on the calls of `CFile`. `none` is an access outside
-- a buffer, or an array size that an `int` cannot hold. The key and the date come from the caller.
pub mod Pieces
pub mod Container
pub mod Undo
use sec_pro_gis.Base.{
  ◌>>=◌, ℕ, zero, suc, ◌+◌, ◌-◌, ◌*◌, ◌/◌, ◌%◌, ◌^◌, Option, none, some, List, [], ◌∷◌,
}
use sec_pro_gis.Base.{◌++◌, length, take, drop, replicate, ltb, if◌then◌else◌}
use sec_pro_gis.Sm4
use sec_pro_gis.Sm4.{setkey_enc, sm4_encrypt}
use sec_pro_gis.Sm4.Modes.{crypt_ecb_16}
use sec_pro_gis.Sm3
use sec_pro_gis.Sm3.{sm3, write_at}
use sec_pro_gis.Archive.Files.{Files}
use sec_pro_gis.Hex.{sprint_hex}

-- `EncBlockSize`
pub enc_block_size : ℕ
enc_block_size = 102400

-- The bytes of an integer in memory: least significant first.
pub le_bytes : ℕ → ℕ → List ℕ
le_bytes zero x = []
le_bytes (suc n) x = x % 256 ∷ le_bytes n (x / 256)

-- `IfEncFlag`, and the four bytes of it that are written.
pub if_enc_flag : List ℕ
if_enc_flag = le_bytes 4 1

-- A length as an `int`, which wraps around, and which an array can have when it is not negative.
pub as_int : ℕ → Option ℕ
as_int n = if ltb (n % 2 ^ 32) (2 ^ 31) then some (n % 2 ^ 32) else none

module _ (files : Files) where
  -- The file, and the two digests in hexadecimal.
  pub record Sealed : Type 0 where
    pub file : files.File
    pub md5_p : List ℕ
    pub md5_c : List ℕ

  -- The `while` loop that enciphers piece after piece. The fuel is the number of rounds at most.
  pub encrypt_loop :
      ℕ → List ℕ → Sm4.Context → List ℕ → List ℕ → files.File → files.File → Option files.File
  encrypt_loop zero key ctx receive output plain cipher = none
  encrypt_loop (suc fuel) key ctx receive output plain cipher =
      let (chunk, plain') = files.read plain enc_block_size in
      let size = length chunk in
      let receive' = write_at receive 0 chunk in
      let ctx' = setkey_enc ctx key in
      let rest = crypt_ecb_16 ctx' sm4_encrypt size receive' output >>= λ output'.
      encrypt_loop fuel key ctx' receive' output' plain' (files.write cipher (take size output')) in
      if ltb 0 size then rest else some cipher

  -- The digest of the whole plain file.
  pub digest_plain : Sm3.Context → List ℕ → Option (List ℕ)
  digest_plain stack content = do
    plain_len ← as_int (files.get_length (files.open_file content))
    some (sm3 stack (files.read (files.open_file content) plain_len).0)

  -- The flag and the date, and room for the digest.
  pub begin_cipher : ℕ → files.File
  begin_cipher date =
      let flagged = files.write files.create if_enc_flag in
      files.seek_current (files.write flagged (le_bytes 8 date)) 32

  -- The pieces, from fresh buffers.
  pub encrypt_pieces : List ℕ → Sm4.Context → List ℕ → files.File → Option files.File
  encrypt_pieces key ctx content cipher =
      let buffer = replicate enc_block_size 0 in
      encrypt_loop (suc (length content)) key ctx buffer buffer (files.open_file content) cipher

  -- The length of the body: a file shorter than its header gives a negative size.
  pub body_length : files.File → Option ℕ
  body_length cipher = do
    len ← as_int (files.get_length cipher)
    if ltb len 44 then none else some (len - 44)

  -- The digest of the body, written into the header.
  pub sign_cipher : Sm3.Context → files.File → Option (List ℕ × files.File)
  sign_cipher stack cipher = do
    cipher_len ← body_length cipher
    let (body, cipher') = files.read (files.seek_begin cipher 44) cipher_len in
        let cipher_md5 = sm3 stack body in
        some (cipher_md5, files.write (files.seek_begin cipher' 12) cipher_md5)

  -- The sealed file, and the digest of its body.
  pub seal_body : Sm3.Context → Sm4.Context → List ℕ → ℕ → List ℕ → Option (List ℕ × files.File)
  seal_body stack ctx key date content = do
    cipher ← encrypt_pieces key ctx content (begin_cipher date)
    sign_cipher stack cipher

  -- `OnEncryptFile`, from the opening of the plain file to the two digests for the database.
  pub encrypt_file : Sm3.Context → Sm4.Context → List ℕ → ℕ → List ℕ → Option Sealed
  encrypt_file stack ctx key date content = do
    plain_md5 ← digest_plain stack content
    signed ← seal_body stack ctx key date content
    some (record { file = signed.1; md5_p = sprint_hex plain_md5; md5_c = sprint_hex signed.0 })
