-- ===== src/Archive/Dialog.antt =====
-- The handlers of the main window in ArchiveDlg.cpp, on the members that they share. What the user
-- picks in a file dialog is an argument, `none` for a dialog that is cancelled.
pub mod Consistent
pub mod Indexed
pub mod Whole
mod Examples
use sec_pro_gis.Base.{
  ◌>>=◌, ℕ, zero, suc, ◌+◌, Bool, true, false, Option, none, some, List, [], ◌∷◌, ◌++◌, map,
}
use sec_pro_gis.Base.{length, get_elem?, ◌==◌, if◌then◌else◌, ℤ, pos, negsuc, ◌≡◌}
use sec_pro_gis.Query.{Config, Client, Session}
use sec_pro_gis.Paths.{backslash, FileParts, read_files, get_plain_dir}
use sec_pro_gis.Archive.Files.{Files}
use sec_pro_gis.Archive.Guards.{Form, is_empty, change_date, choose_org, judge_before_encrypt}
use sec_pro_gis.Archive.Batch.{Env, Order, Outcome, Chosen, State, encrypt_rounds}

-- The members of `CArchiveDlg` about the chosen files, beside those that the guards read.
pub record Dialog : Type 0 where
  pub form : Form
  pub names : List (List ℕ)
  pub exts : List (List ℕ)
  pub sel_file_num : ℕ

-- The window as `OnInitDialog` opens it. Nothing sets `SelFileNum`, `OrgID` and the current date: the
-- arguments are what is in memory.
pub opened : ℕ → ℤ → ℤ → Dialog
opened sel_file_num org_id current_date = record {
  form = record {
    plain_paths = [];
    cipher_paths = [];
    org_name = [];
    org_box = [];
    org_id = org_id;
    m_date = negsuc 0;
    current_date = current_date;
  };
  names = [];
  exts = [];
  sel_file_num = sel_file_num;
}

picked_paths : Option (List (List ℕ)) → List (List ℕ)
picked_paths none = []
picked_paths (some paths) = paths

-- `OnReadFile`; `text` is what stands in the box of the units.
pub on_read_file : Dialog → Option (List (List ℕ)) → List ℕ → Dialog
unfolding picked_paths
on_read_file d picked text =
    let paths = picked_paths picked in
    let parts = read_files paths (record { name = []; ext = [] }) in
    record {
      form = record d.form {
        plain_paths = paths;
        cipher_paths = [];
        org_name = text;
        org_box = text;
      };
      names = map FileParts.name parts;
      exts = map FileParts.ext parts;
      sel_file_num = length paths;
    }

-- What stands before the name of a sealed file.
abbrev pub mark : List ℕ
mark = 40 ∷ 21152 ∷ 23494 ∷ 41 ∷ []

-- The loop of `OnBnClickedButtonsavepath` over the names; an index out of range throws.
pub save_loop : List ℕ → List (List ℕ) → ℕ → ℕ → Option (List (List ℕ))
save_loop dir names zero findex = some []
save_loop dir names (suc left) findex = do
  name ← get_elem? names findex
  rest ← save_loop dir names left (findex + 1)
  some ((dir ++ ((backslash ∷ []) ++ (mark ++ name))) ∷ rest)

-- `CipherPath_ary` after the dialog for one file.
pub save_one : Option (List ℕ) → List (List ℕ)
save_one none = []
save_one (some path) = path ∷ []

-- The branches of `OnBnClickedButtonsavepath` after its guard: the new `CipherPath_ary`. `GetPlainDir`
-- of a path without a directory ends without a result.
pub cipher_paths_for : Dialog → Option (List ℕ) → List ℕ → Option (List (List ℕ))
cipher_paths_for d saved dir =
    let one = get_elem? d.names 0 >>= λ name. get_elem? d.exts 0 >>= λ ext. some (save_one saved) in
    let several = get_elem? d.form.plain_paths 0 >>= λ path.
    get_plain_dir path >>= λ plain_dir. save_loop dir d.names d.sel_file_num 0 in
    if d.sel_file_num == 1 then one else several

-- `OnBnClickedButtonsavepath`, with the path for one file and the directory for several.
pub on_save_path : Dialog → Option (List ℕ) → List ℕ → Option Dialog
on_save_path d saved dir =
    let chosen = cipher_paths_for d saved dir >>= λ paths.
    some (record d { form = record d.form { cipher_paths = paths } }) in
    if is_empty d.form.plain_paths then some d else chosen

abbrev pub chosen_of : Dialog → Chosen
chosen_of d = record {
  plain_paths = d.form.plain_paths;
  cipher_paths = d.form.cipher_paths;
  names = d.names;
}

abbrev pub order_of : Config → ℤ → Form → Order
order_of c admin_id form = record {
  config = c;
  admin_id = admin_id;
  org_id = form.org_id;
  m_date = form.m_date;
}

module _ (same_path : List ℕ → List ℕ → Bool) (files : Files) (client : Client) where
  -- `OnEncryptFile` after `JudgeBeforeEncrypt`: how the loop ended, `none` if it did not begin.
  pub after_judge :
      Config
      → ℤ
      → (ℕ → Env)
      → Dialog
      → Option Bool
      → State same_path files client
      → Option (Option Outcome × State same_path files client)
  after_judge c admin_id env d none st = none
  after_judge c admin_id env d (some false) st = some (none, st)
  after_judge c admin_id env d (some true) st =
      encrypt_rounds same_path files client (order_of c admin_id d.form) env (chosen_of d)
        d.sel_file_num 0 st
      >>= λ r. some (some r.0, r.1)

  -- The window with the date that the loop has left.
  dated : Dialog → Option (Option Outcome × State same_path files client) → Dialog
  dated d none = d
  dated d (some r) = record d { form = record d.form { current_date = r.1.current_date } }

  -- `OnEncryptFile`. The first part is what the window holds afterwards.
  pub on_encrypt_file :
      Config
      → ℤ
      → (ℕ → Env)
      → Dialog
      → State same_path files client
      → Dialog × Option (Option Outcome × State same_path files client)
  on_encrypt_file c admin_id env d st =
      let (answer, form, session) = judge_before_encrypt client c st.session d.form in
      let d' : Dialog = record d { form = form } in
      let begun : State same_path files client = record st {
        session = session;
        current_date = form.current_date;
      } in
      let after = after_judge c admin_id env d' answer begun in (dated d' after, after)

module _ (client : Client) (c : Config) where
  -- One message that the window handles.
  pub data Step : Dialog → Dialog → Type 0 where
    read_file :
        (d : Dialog) (picked : Option (List (List ℕ))) (text : List ℕ)
        → Step d (on_read_file d picked text)
    pick_date :
        (d : Dialog) (picked now : ℤ) → Step d (record d { form = change_date d.form picked now })
    -- Another text stands in the box of the units.
    edit_org :
        (d : Dialog) (text : List ℕ) → Step d (record d { form = record d.form { org_box = text } })
    pick_org :
        (d : Dialog) (s : Session client) (name : List ℕ)
        → Step d (record d { form = (choose_org client c s d.form name).0 })
    save_path :
        (d d' : Dialog) (saved : Option (List ℕ)) (dir : List ℕ)
        → on_save_path d saved dir ≡ some d'
        → Step d d'
    -- `now` is the date that `OnEncryptFile` leaves.
    encrypt :
        (d : Dialog) (s : Session client) (now : ℤ)
        → Step d (record d {
          form = record (judge_before_encrypt client c s d.form).1 { current_date = now };
        })

  -- What the window can hold after any messages.
  pub data Reach (d : Dialog) : Dialog → Type 0 where
    here : Reach d d
    next : {t u : Dialog} → Reach d t → Step t u → Reach d u
