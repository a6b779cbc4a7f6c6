-- ===== src/Combo/Box/Entries.antt =====
-- What the list box shows, as a multiset: how many of its entries have a property.
use sec_pro_gis.Base.{
  ℕ, zero, suc, ◌+◌, Bool, true, false, ◌&&◌, Option, none, some, List, [], ◌∷◌, ◌++◌, length,
  le→leb, ◌==◌, if◌then◌else◌, Bool-cases,
}
use sec_pro_gis.Base.{◌≡◌, refl, sym, ap, ◌∙◌, arith, inl, inr}
use sec_pro_gis.Combo.{
  insert_at, fits_text, keep, add_all, match_loop, auto_match, Choice, start, take_better,
}
use sec_pro_gis.Combo.Box.{
  Box, add_string, insert_string, reset_content, on_change, Step, added, inserted, cleared, typed,
  Reach, here, next,
}

unfoldable pub bit : Bool → ℕ
bit true = 1
bit false = 0

-- How many entries have the property.
unfoldable pub count : (List ℕ → Bool) → List (List ℕ) → ℕ
count p [] = 0
count p (x ∷ xs) = bit (p x) + count p xs

count-true : (xs : List (List ℕ)) → count (λ _. true) xs ≡ length xs
unfolding count bit
count-true [] = refl
count-true (x ∷ xs) = omega (arith, count-true xs)

count-insert_at :
    (p : List ℕ → Bool) (i : ℕ) (x : List ℕ) (xs : List (List ℕ))
    → count p (insert_at i x xs) ≡ bit (p x) + count p xs
unfolding count insert_at
count-insert_at p zero x xs = refl
count-insert_at p (suc i) x [] = refl
count-insert_at p (suc i) x (y ∷ ys) = omega (arith, count-insert_at p i x ys)

count-append :
    (p : List ℕ → Bool) (xs ys : List (List ℕ)) → count p (xs ++ ys) ≡ count p xs + count p ys
unfolding count
count-append p [] ys = omega arith
count-append p (x ∷ xs) ys = omega (arith, count-append p xs ys)

pub found : Option ℕ → Bool
found none = false
found (some from) = true

and-false : (b : Bool) → (b && false) ≡ false
and-false true = refl
and-false false = refl

and-true : (b : Bool) → (b && true) ≡ b
and-true true = refl
and-true false = refl

count_none : (p : List ℕ → Bool) (xs : List (List ℕ)) → length xs ≡ 0 → count p xs ≡ 0
unfolding count
count_none p [] h = refl
count_none p (x ∷ xs) h = absurd (omega arith)

is_zero_of : (n : ℕ) → (n == 0) ≡ true → n ≡ 0
is_zero_of n h = ground arith

-- The list box has the entries of `m_strArr`, in some order.
abbrev pub IsSame : Box → Type 0
IsSame b = (p : List ℕ → Bool) → count p b.shown ≡ count p b.entries

module _ (find : List ℕ → List ℕ → Option ℕ) (place : List (List ℕ) → List ℕ → ℕ) where
  Step-IsSame : {b c : Box} → Step find place b c → IsSame b → IsSame c
  unfolding add_string insert_string reset_content on_change count
  Step-IsSame (added b str) same = λ p. omega (
    arith,
    count-insert_at p (place b.shown str) str b.shown,
    count-append p b.entries (str ∷ []),
    same p,
  )
  Step-IsSame (inserted b index str le) same =
      let long : length b.shown ≡ length b.entries =
        sym (count-true b.shown) ∙ same (λ _. true) ∙ count-true b.entries in
      λ p. rw (le→leb index (length b.entries) le) (
        rw (le→leb index (length b.shown) (omega (arith, long))) (
          omega (
            arith,
            count-insert_at p index str b.shown,
            count-insert_at p index str b.entries,
            same p,
          )))
  Step-IsSame (cleared b) same = λ p. refl
  Step-IsSame (typed b text off) same = λ p. rw off (same p)

  -- After any `AddString`, `InsertString` into the array, `ResetContent`, and typing with bit 0 of the
  -- flag off, the list box shows the entries of `m_strArr`, whatever its own order is.
  pub Reach-IsSame : {b c : Box} → IsSame b → Reach find place b c → IsSame c
  Reach-IsSame same here = same
  Reach-IsSame same (next r step) = Step-IsSame step (Reach-IsSame same r)

  -- An entry matches the text.
  abbrev pub matches : List ℕ → List ℕ → Bool
  matches text str = found (fits_text find text str)

  count-add_all :
      (p : List ℕ → Bool) (entries shown : List (List ℕ))
      → count p (add_all find place entries shown) ≡ count p entries + count p shown
  unfolding add_all count
  count-add_all p [] shown = omega arith
  count-add_all p (str ∷ entries) shown = omega (
    arith,
    count-add_all p entries (insert_at (place shown str) str shown),
    count-insert_at p (place shown str) str shown,
  )

  count-keep :
      (p : List ℕ → Bool) (o : Option ℕ) (str : List ℕ) (shown : List (List ℕ))
      → count p (keep find place o str shown) ≡ bit (p str && found o) + count p shown
  unfolding keep found bit
  count-keep p none str shown = rw (and-false (p str)) (omega arith)
  count-keep p (some from) str shown =
      count-insert_at p (place shown str) str shown
      ∙ ap (λ (b : Bool). bit b + count p shown) (sym (and-true (p str)))

  count-match_loop :
      (p : List ℕ → Bool) (text : List ℕ) (entries shown : List (List ℕ)) (c : Choice)
      → count p (match_loop find place text entries shown c).0
        ≡ count (λ s. p s && matches text s) entries + count p shown
  unfolding match_loop count
  count-match_loop p text [] shown c = omega arith
  count-match_loop p text (str ∷ entries) shown c =
      let from = fits_text find text str in
      omega (
        arith,
        count-match_loop p text entries (keep find place from str shown)
            (take_better from (place shown str) c),
        count-keep p from str shown,
      )

  count_more : (n : ℕ) → n + count (λ _. true) [] ≡ n
  unfolding count
  count_more n = omega arith

  -- With bit 0 of the flag on, a text leaves the matching entries in the list box, or all of them when
  -- none matches.
  pub on_change-matches :
      (b : Box) (x : ℕ) (text : List ℕ) (p : List ℕ → Bool)
      → b.flag ≡ true
      → count p (on_change find place b (x ∷ text)).0.shown ≡ (
          if count (matches (x ∷ text)) b.entries == 0
          then count p b.entries
          else count (λ s. p s && matches (x ∷ text) s) b.entries)
  unfolding on_change auto_match
  on_change-matches b x text p on =
      let kept = (match_loop find place (x ∷ text) b.entries [] start).0 in
      let number : length kept ≡ count (matches (x ∷ text)) b.entries =
        sym (count-true kept)
        ∙ count-match_loop (λ _. true) (x ∷ text) b.entries [] start
        ∙ count_more (count (matches (x ∷ text)) b.entries) in
      elim (Bool-cases (count (matches (x ∷ text)) b.entries == 0)) [
        | inl e ↦ rw on (
            rw number (
              rw e (
                omega (
                  arith,
                  count-add_all p b.entries kept,
                  count_none p kept (number ∙ is_zero_of (count (matches (x ∷ text)) b.entries) e),
                ))))
        | inr e ↦ rw on (
            rw number (
              rw e (
                omega
                  (arith, count-match_loop p (x ∷ text) b.entries [] start, count_none p [] refl))))
      ]
