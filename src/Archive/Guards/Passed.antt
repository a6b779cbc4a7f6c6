-- ===== src/Archive/Guards/Passed.antt =====
-- What holds when `JudgeBeforeEncrypt` lets the encryption begin.
use sec_pro_gis.Base.{
  ℕ, ◌<◌, List, [], ◌∷◌, length, pos, negsuc, Bool, true, false, Option, none, some, if◌then◌else◌,
}
use sec_pro_gis.Base.{◌≡◌, ◌≢◌, refl, sym, ap, ◌∙◌, arith, ℤ}
use sec_pro_gis.Query.{Config, Client, Session, exec_query_table}
use sec_pro_gis.Table.{Table, empty_table}
use sec_pro_gis.Text.{cell_str, ttoi, sprintf, no_server, or_empty}
use sec_pro_gis.Archive.Guards.{
  Form, Lookup, unreachable, unknown, known, stopped, leb_ℤ, no_date, is_empty, check_dates,
  judge_org, find_org, search_org, read_org, org_query, judge_before_encrypt,
}

check_dates-true :
    (form : Form)
    → check_dates form ≡ true
    → (no_date form.m_date ≡ false)
      × (leb_ℤ form.m_date form.current_date ≡ false)
      × (is_empty form.cipher_paths ≡ false)
unfolding check_dates
check_dates-true form h = ground arith

is_yes : Option Bool → Bool
is_yes none = false
is_yes (some b) = b

judge_org-yes :
    (form : Form) (found : Lookup)
    → is_yes (judge_org form found).0 ≡ true
    → (id : ℤ) × (found ≡ known id)
      × ((judge_org form found).1 ≡ record form { org_id = id })
      × (check_dates form ≡ true)
unfolding judge_org is_yes check_dates
judge_org-yes form unreachable h = absurd (ground (arith, h))
judge_org-yes form unknown h = absurd (ground (arith, h))
judge_org-yes form (known id) h = (id, refl, refl, h)
judge_org-yes form stopped h = absurd (ground (arith, h))

-- What a choice between a refusal and an answer says when it is yes.
guard-yes :
    {A : Type 0} (says : A → Bool) (b : Bool) (refusal answer : A)
    → says refusal ≡ false
    → says (if b then refusal else answer) ≡ true
    → (b ≡ false) × (says answer ≡ true)
guard-yes says true refusal answer n h = absurd (ground (arith, n, h))
guard-yes says false refusal answer n h = (refl, h)

read_org-known :
    (code : ℤ) (t : Table) (id : ℤ)
    → read_org code t ≡ known id
    → (no_server code ≡ false) × (0 < t.size) × (id ≡ ttoi (or_empty (cell_str t (pos 0) (pos 0))))
unfolding read_org
read_org-known code t id h = ground (arith, h)

pub not_empty : {A : Type 0} (l : List A) → is_empty l ≡ false → 0 < length l
unfolding is_empty
not_empty [] h = absurd (ground (arith, h))
not_empty (x ∷ l) h = omega arith

module _ (client : Client) where
  -- The database has the unit: the statement fits its buffer, it is answered, and the number stands in
  -- the first column of the first row.
  abbrev pub IsKnown : Config → Session client → List ℕ → ℤ → Type 0
  IsKnown c s name id =
      (sql : List ℕ) × (sprintf 100 (org_query (client.to_ansi name)) ≡ some sql)
      × (no_server (exec_query_table client c s (some sql) empty_table).0 ≡ false)
      × (0 < (exec_query_table client c s (some sql) empty_table).2.size)
      × (id
          ≡ ttoi (
              or_empty
                (cell_str (exec_query_table client c s (some sql) empty_table).2 (pos 0) (pos 0))))

  search_org-known :
      (c : Config) (s : Session client) (o : Option (List ℕ)) (id : ℤ)
      → (search_org client c s o).0 ≡ known id
      → (sql : List ℕ) × (o ≡ some sql)
        × (read_org
              (exec_query_table client c s (some sql) empty_table).0
              (exec_query_table client c s (some sql) empty_table).2
            ≡ known id)
  unfolding search_org
  search_org-known c s none id h = absurd (ground (arith, h))
  search_org-known c s (some sql) id h = (sql, refl, h)

  find_org-IsKnown :
      (c : Config) (s : Session client) (name : List ℕ) (id : ℤ)
      → (find_org client c s name).0 ≡ known id
      → IsKnown c s name id
  unfolding find_org
  find_org-IsKnown c s name id h =
      let found = search_org-known c s (sprintf 100 (org_query (client.to_ansi name))) id h in
      let ran = exec_query_table client c s (some found.0) empty_table in
      let row = read_org-known ran.0 ran.2 id found.2 in (found.0, found.1, row.0, row.1, row.2)

  -- `JudgeBeforeEncrypt` says yes only when files are chosen, the unit in the box is not empty and the
  -- database answers with its number, a date is chosen that is later than the time of the choice, and
  -- there are paths for the sealed files. It has then set the name of the unit from the box and its
  -- number from the database, and nothing else.
  pub judge_before_encrypt-yes :
      (c : Config) (s : Session client) (form : Form)
      → (judge_before_encrypt client c s form).0 ≡ some true
      → (id : ℤ) × IsKnown c s form.org_box id
        × ((judge_before_encrypt client c s form).1
            ≡ record form { org_name = form.org_box; org_id = id })
        × (0 < length form.plain_paths)
        × (0 < length form.org_box)
        × (form.m_date ≢ negsuc 0)
        × (leb_ℤ form.m_date form.current_date ≡ false)
        × (0 < length form.cipher_paths)
  unfolding judge_before_encrypt is_yes no_date
  judge_before_encrypt-yes c s form h =
      let found = find_org client c s form.org_box in
      let read : Form = record form { org_name = form.org_box } in
      let judged = judge_org read found.0 in
      let refusal : Option Bool × Form × Session client = (some false, form, s) in
      let unnamed : Option Bool × Form × Session client = (some false, read, s) in
      let answer : Option Bool × Form × Session client = (judged.0, judged.1, found.1) in
      let says : Option Bool × Form × Session client → Bool = λ r. is_yes r.0 in
      let inner = if is_empty form.org_box then unnamed else answer in
      let files = guard-yes says (is_empty form.plain_paths) refusal inner refl (ap is_yes h) in
      let name = guard-yes says (is_empty form.org_box) unnamed answer refl files.1 in
      let org = judge_org-yes read found.0 name.1 in
      let dates = check_dates-true read org.3 in
      (
        org.0,
        find_org-IsKnown c s form.org_box org.0 org.1,
        ap (λ (b : Bool). (if b then refusal else inner).1) files.0
            ∙ ap (λ (b : Bool). (if b then unnamed else answer).1) name.0
            ∙ org.2,
        not_empty form.plain_paths files.0,
        not_empty form.org_box name.0,
        λ none_picked. absurd (ground (arith, sym (ap no_date none_picked) ∙ dates.0)),
        dates.1,
        not_empty form.cipher_paths dates.2,
      )
