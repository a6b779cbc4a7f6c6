-- ===== src/Paths.antt =====
-- The paths that ArchiveDlg.cpp and LoginDlg.cpp take apart. A `CString` is the list of its
-- characters: 92 is the backslash, 46 the dot.
pub mod Split
mod Examples
use sec_pro_gis.Base.{
  ℕ, zero, suc, Option, none, some, ◌+◌, ◌-◌, List, [], ◌∷◌, ◌++◌, length, take, drop, get_or, ◌==◌,
  if◌then◌else◌,
}

abbrev pub backslash : ℕ
backslash = 92

-- `strName` and `strExt`.
pub record FileParts : Type 0 where
  pub name : List ℕ
  pub ext : List ℕ

-- The inner loop of `OnReadFile`, from an index down to 1.
unfoldable pub scan : ℕ → List ℕ → FileParts → FileParts
scan zero path parts = parts
scan (suc i) path parts =
    let c = get_or path (suc i) 0 in
    let right = drop (suc i + 1) path in
    let dotted = scan i path (record parts { ext = right }) in
    let rest = scan i path parts in
    if c == 46 then dotted else if c == backslash then record parts { name = right } else rest

-- The outer loop of `OnReadFile`: the names and extensions of the files, in order. What the parts
-- held for one file is there for the next.
unfoldable pub read_files : List (List ℕ) → FileParts → List FileParts
read_files [] parts = []
read_files (path ∷ paths) parts =
    let found = scan (length path - 1) path parts in found ∷ read_files paths found

-- The loop of `GetPlainDir`, from an index down to 1. Without a backslash the function ends without a
-- result.
unfoldable pub dir_loop : ℕ → List ℕ → Option (List ℕ)
dir_loop zero path = none
dir_loop (suc i) path =
    let rest = dir_loop i path in
    if get_or path (suc i) 0 == backslash then some (take (suc i) path) else rest

-- `GetPlainDir`
unfoldable pub get_plain_dir : List ℕ → Option (List ℕ)
get_plain_dir path = dir_loop (length path - 1) path

-- conf.txt
abbrev pub conf_txt : List ℕ
conf_txt = 99 ∷ 111 ∷ 110 ∷ 102 ∷ 46 ∷ 116 ∷ 120 ∷ 116 ∷ []

-- The loop of `GetConfTxtPath`: it deletes the last characters up to a backslash. The number is that
-- of the characters in front of the index.
pub cut_loop : ℕ → List ℕ → List ℕ
cut_loop zero path = path
cut_loop (suc i) path =
    let rest = cut_loop i (take i path ++ drop (suc i) path) in
    if get_or path i 0 == backslash then path else rest

-- `GetConfTxtPath`, for the path of the program. The index begins at the zero that ends the string.
pub get_conf_txt_path : List ℕ → List ℕ
get_conf_txt_path path = cut_loop (suc (length path)) path ++ conf_txt
