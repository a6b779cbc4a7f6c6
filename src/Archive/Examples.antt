-- ===== src/Archive/Examples.antt =====
-- Files in memory that obey the laws of `CFile`, and runs of ArchiveDlg.cpp on them.
use sec_pro_gis.Base.{ℕ, ◌+◌, none, some, List, [], ◌++◌, ◌≡◌, refl, arith}
use sec_pro_gis.Base.{length, take, drop, replicate, length-replicate, IsBytes}
use sec_pro_gis.Sm4
use sec_pro_gis.Sm4.{setkey_dec}
use sec_pro_gis.Sm4.Keys.{schedule}
use sec_pro_gis.Sm4.Modes.{crypt_ecb_16}
use sec_pro_gis.Sm4.Modes.Ecb.{ecb_16}
use sec_pro_gis.Sm3
use sec_pro_gis.Sm3.Digest.{hash}
use sec_pro_gis.Hex.{sprint_hex}
use sec_pro_gis.Archive.Files.{Files, Disk, overwrite}
use sec_pro_gis.Archive.Sealing.{
  Sealed, digest_plain, begin_cipher, encrypt_pieces, body_length, encrypt_file, encrypt_loop,
  enc_block_size,
}
use sec_pro_gis.Archive.Sealing.Pieces.{encrypt_loop-Written, Written}
use sec_pro_gis.Archive.Sealing.Container.{container, encrypt_file-container}
use sec_pro_gis.Archive.Sealing.Undo.{encrypt_file_undo, encrypt_file-empty}

abbrev pub disk_files : Files
disk_files = record {
  File = Disk;
  create = record { bytes = []; position = 0 };
  open_file = λ content. record { bytes = content; position = 0 };
  read = λ f n.
      let got = take n (drop f.position f.bytes) in
      (got, record { bytes = f.bytes; position = f.position + length got });
  write = λ f new. record { bytes = overwrite 0 f new; position = f.position + length new };
  seek_current = λ f n. record { bytes = f.bytes; position = f.position + n };
  seek_begin = λ f n. record { bytes = f.bytes; position = n };
  get_length = λ f. length f.bytes;
  view = λ f. f;
  gap = 0;
  view-create = refl;
  view-open_file = λ content. refl;
  read-eq = λ f n. refl;
  view-read = λ f n. refl;
  view-write = λ f new some_new. refl;
  view-seek_current = λ f n. refl;
  view-seek_begin = λ f n. refl;
  get_length-eq = λ f. refl;
}

abbrev pub stack : Sm3.Context
stack = record { total0 = 7; total1 = 1; state = []; buffer = replicate 64 9; ipad = []; opad = [] }

abbrev pub fresh : Sm4.Context
fresh = record { mode = 0; sk = replicate 32 0 }

abbrev used : Sm4.Context
used = record { mode = 1; sk = replicate 32 7 }

abbrev key : List ℕ
key = replicate 16 66

abbrev content : List ℕ
content = replicate 20 65

content-IsBytes : IsBytes content
content-IsBytes = ground arith

encrypt_file-container_example :
    (s : Sealed disk_files) × (encrypt_file disk_files stack fresh key 5 content ≡ some s)
    × ((disk_files.view s.file).bytes ≡ container 5 (ecb_16 (schedule key) content))
    × (s.md5_p ≡ sprint_hex (hash content))
    × (s.md5_c ≡ sprint_hex (hash (ecb_16 (schedule key) content)))
encrypt_file-container_example =
    encrypt_file-container disk_files stack fresh key 5 content refl refl (omega arith)
      (omega arith)

encrypt_file_undo_example :
    (s : Sealed disk_files) × (encrypt_file disk_files stack fresh key 5 content ≡ some s)
    × (crypt_ecb_16
          (setkey_dec used key)
          0
          (length content)
          (drop 44 (disk_files.view s.file).bytes)
          (replicate 21 0)
        ≡ some (content ++ drop (length content) (replicate 21 0)))
encrypt_file_undo_example =
    encrypt_file_undo disk_files stack fresh used key 5 0 content (replicate 21 0) refl refl refl
      (omega arith) (omega arith) content-IsBytes (omega arith)

encrypt_file-empty_example :
    (digest_plain disk_files stack [] ≡ some (hash []))
    × ((f : Disk) × (encrypt_pieces disk_files key fresh [] (begin_cipher disk_files 5) ≡ some f)
        × (length f.bytes ≡ 12)
        × (body_length disk_files f ≡ none))
    × (encrypt_file disk_files stack fresh key 5 [] ≡ none)
encrypt_file-empty_example = encrypt_file-empty disk_files stack fresh key 5 refl

encrypt_loop-Written_example :
    (c : Disk) × (encrypt_loop disk_files 21 key fresh
        (replicate enc_block_size 0)
        (replicate enc_block_size 0)
        (record { bytes = content; position = 0 })
        (record { bytes = []; position = 0 })
      ≡ some c)
    × Written disk_files c ([] ++ ecb_16 (schedule key) content)
encrypt_loop-Written_example =
    encrypt_loop-Written disk_files 21 key fresh (replicate enc_block_size 0)
      (replicate enc_block_size 0) [] content (record { bytes = content; position = 0 })
      (record { bytes = []; position = 0 }) (omega arith) (omega arith) refl
      (length-replicate enc_block_size 0) refl (omega arith, refl)
