-- ===== src/Paths/Examples.antt =====
-- The path C:\a.b
use sec_pro_gis.Base.{ℕ, ◌-◌, some, List, [], ◌∷◌, ◌≡◌, refl, length}
use sec_pro_gis.Paths.{FileParts, scan, get_plain_dir}
use sec_pro_gis.Paths.Split.{Plain, path, scan-name, get_plain_dir-dir}

abbrev base : List ℕ
base = 97 ∷ 46 ∷ 98 ∷ []

base-Plain : Plain base
base-Plain = (refl, (refl, (refl, tt)))

abbrev before : FileParts
before = record { name = []; ext = 99 ∷ [] }

scan-name_example :
    (scan
      (length (path 67 (58 ∷ []) base base-Plain) - 1)
      (path 67 (58 ∷ []) base base-Plain)
      before).name
    ≡ base
scan-name_example = scan-name 67 (58 ∷ []) base base-Plain before

get_plain_dir-dir_example : get_plain_dir (path 67 (58 ∷ []) base base-Plain) ≡ some (67 ∷ 58 ∷ [])
get_plain_dir-dir_example = get_plain_dir-dir 67 (58 ∷ []) base base-Plain
