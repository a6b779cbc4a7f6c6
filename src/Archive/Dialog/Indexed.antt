-- ===== src/Archive/Dialog/Indexed.antt =====
-- The loop of `OnEncryptFile` stays in its arrays.
use sec_pro_gis.Base.{ℕ, ◌<◌, true, some}
use sec_pro_gis.Base.{length, ℤ}
use sec_pro_gis.Base.{◌≡◌, ◌⊎◌, arith}
use sec_pro_gis.Query.{Config, Client, Session}
use sec_pro_gis.Archive.Guards.{judge_before_encrypt}
use sec_pro_gis.Archive.Guards.Passed.{judge_before_encrypt-yes}
use sec_pro_gis.Archive.Dialog.{Dialog, opened, Reach}
use sec_pro_gis.Archive.Dialog.Consistent.{IsConsistent, opened-IsConsistent, Reach-IsConsistent}

-- The arrays that the loop indexes have the length that it counts to.
abbrev pub IsIndexed : Dialog → Type 0
IsIndexed d =
    (0 < d.sel_file_num)
    × (length d.form.plain_paths ≡ d.sel_file_num)
    × (length d.form.cipher_paths ≡ d.sel_file_num)
    × (length d.names ≡ d.sel_file_num)

sizes :
    (p m sel names : ℕ)
    → 0 < p
    → 0 < m
    → names ≡ p
    → (p ≡ 0) ⊎ (sel ≡ p)
    → (m ≡ 0) ⊎ (m ≡ p)
    → (0 < sel) × (p ≡ sel) × (m ≡ sel) × (names ≡ sel)
sizes p m sel names hp hm hn hs hc = ground arith

IsConsistent-IsIndexed :
    (client : Client) (c : Config) (s : Session client) (d : Dialog)
    → IsConsistent d
    → (judge_before_encrypt client c s d.form).0 ≡ some true
    → IsIndexed d
IsConsistent-IsIndexed client c s d v h =
    let passed = judge_before_encrypt-yes client c s d.form h in
    sizes (length d.form.plain_paths) (length d.form.cipher_paths) d.sel_file_num (length d.names)
      passed.3 passed.7 v.named v.counted v.placed

-- After any messages to the window that `OnInitDialog` opened, whatever was in memory: when
-- `JudgeBeforeEncrypt` says yes, `SelFileNum` counts the paths, the names and the paths of the sealed
-- files, and is not 0, so that the loop of `OnEncryptFile` stays in its arrays.
pub Reach-IsIndexed :
    (client : Client) (c : Config) (s : Session client) (sel : ℕ) (org current : ℤ) (d : Dialog)
    → Reach client c (opened sel org current) d
    → (judge_before_encrypt client c s d.form).0 ≡ some true
    → IsIndexed d
Reach-IsIndexed client c s sel org current d r h =
    IsConsistent-IsIndexed client c s d (Reach-IsConsistent (opened-IsConsistent sel org current) r)
      h
