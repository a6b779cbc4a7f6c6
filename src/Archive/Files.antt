-- ===== src/Archive/Files.antt =====
-- The class `CFile` that ArchiveDlg.cpp uses: its calls, and what its documentation says of them, as
-- laws on the bytes and the position of a file.
use sec_pro_gis.Base.{ℕ, ◌+◌, ◌-◌, ◌<◌, List, [], ◌++◌, ◌≡◌, length, take, drop, replicate}

pub record Disk : Type 0 where
  pub bytes : List ℕ
  pub position : ℕ

-- `bytes` at a position, over what is there. A gap past the end is filled with some byte.
abbrev pub overwrite : ℕ → Disk → List ℕ → List ℕ
overwrite gap d new =
    let front = take d.position (d.bytes ++ replicate (d.position - length d.bytes) gap) in
    front ++ (new ++ drop (d.position + length new) d.bytes)

pub record Files : Type 1 where
  pub File : Type 0
  -- With `modeCreate`.
  pub create : File
  -- A file that holds these bytes, opened.
  pub open_file : List ℕ → File
  pub read : File → ℕ → List ℕ × File
  pub write : File → List ℕ → File
  pub seek_current : File → ℕ → File
  pub seek_begin : File → ℕ → File
  pub get_length : File → ℕ
  -- The laws.
  pub view : File → Disk
  pub gap : ℕ
  pub view-create : view create ≡ record { bytes = []; position = 0 }
  pub view-open_file :
      (content : List ℕ) → view (open_file content) ≡ record { bytes = content; position = 0 }
  pub read-eq : (f : File) (n : ℕ) → (read f n).0 ≡ take n (drop (view f).position (view f).bytes)
  pub view-read :
      (f : File) (n : ℕ)
      → view (read f n).1
        ≡ record { bytes = (view f).bytes; position = (view f).position + length (read f n).0 }
  pub view-write :
      (f : File) (new : List ℕ)
      → 0 < length new
      → view (write f new)
        ≡ record { bytes = overwrite gap (view f) new; position = (view f).position + length new }
  pub view-seek_current :
      (f : File) (n : ℕ)
      → view (seek_current f n)
        ≡ record { bytes = (view f).bytes; position = (view f).position + n }
  pub view-seek_begin :
      (f : File) (n : ℕ) → view (seek_begin f n) ≡ record { bytes = (view f).bytes; position = n }
  pub get_length-eq : (f : File) → get_length f ≡ length (view f).bytes
