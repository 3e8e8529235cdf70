-- ===== src/Accounts/Portfolios/Pages/Walk.antt =====
-- Following the cursors reads every row once, in order.
use mathlib.Core.Path.{subst}
use payflow_x.Prelude.{
  lt→ltb, le→ltb, ℕ, zero, suc, ◌+◌, ◌≤◌, ◌<◌, ◌≡◌, ◌≢◌, refl, sym, ap, ◌∙◌, Bool, true, false,
  List, [], ◌∷◌, ◌++◌, Option, none, some, arith, ltb, ◌==◌, ==_refl, if◌then◌else◌, or_else,
  Bool-cases, inl, inr,
}
use payflow_x.Prelude.Lists.{length, All}
use payflow_x.Prelude.Slices.{
  take, drop, take_short, length-take_short, take_longer, take-drop, drop_shorter, append_assoc,
}
use payflow_x.Accounts.Portfolios.Pages.{last_id, rows_after, page_of, find_all, walk, continued}

positive_suc : (k : ℕ) → 0 < k → (n : ℕ) × (k ≡ suc n)
positive_suc zero h = absurd (omega (arith, h))
positive_suc (suc n) h = (n, refl)

differ : (i j : ℕ) → j ≢ i → (i == j) ≡ false
differ i j h = ground (arith, h)

module _ {A : Type 0} where
  -- No two rows have the same key.
  abbrev pub Distinct : List (ℕ × A) → Type 0
  Distinct [] = Unit
  Distinct (x ∷ xs) = All (λ y. y.0 ≢ x.0) xs × Distinct xs

  All_middle :
      (P : ℕ × A → Type 0) (pre : List (ℕ × A)) (x : ℕ × A) (xs : List (ℕ × A))
      → All P (pre ++ (x ∷ xs))
      → P x
  All_middle P [] x xs h = h.0
  All_middle P (p ∷ pre) x xs h = All_middle P pre x xs h.1

  rows_after_middle :
      (pre : List (ℕ × A)) (x : ℕ × A) (xs : List (ℕ × A))
      → Distinct (pre ++ (x ∷ xs))
      → rows_after x.0 (pre ++ (x ∷ xs)) ≡ xs
  rows_after_middle [] x xs h = ap (λ b. if b then xs else rows_after x.0 xs) (==_refl x.0)
  rows_after_middle (p ∷ pre) x xs (apart, h) =
      let other : x.0 ≢ p.0 = All_middle (λ y. y.0 ≢ p.0) pre x xs apart in
      ap (λ b. if b then pre ++ (x ∷ xs) else rows_after x.0 (pre ++ (x ∷ xs)))
        (differ p.0 x.0 other)
      ∙ rows_after_middle pre x xs h

  last_cons :
      (x : ℕ × A) (n : ℕ) (xs : List (ℕ × A))
      → n < length xs
      → last_id (x ∷ take (suc n) xs) ≡ last_id (take (suc n) xs)
  last_cons x n [] h = absurd (omega (arith, h))
  last_cons x n (y ∷ ys) h = refl

  -- A page that is not the last ends with a row after which the next page starts.
  page_end :
      (n : ℕ) (pre xs : List (ℕ × A))
      → Distinct (pre ++ xs)
      → n < length xs
      → (id : ℕ) × (last_id (take (suc n) xs) ≡ some id)
        × (rows_after id (pre ++ xs) ≡ drop (suc n) xs)
  page_end n pre [] h lt = absurd (omega (arith, lt))
  page_end zero pre (x ∷ xs) h lt = (x.0, refl, rows_after_middle pre x xs h)
  page_end (suc n) pre (x ∷ xs) h lt =
      let same : (pre ++ (x ∷ [])) ++ xs ≡ pre ++ (x ∷ xs) = append_assoc pre (x ∷ []) xs in
      let (id, last, rest) =
        page_end n (pre ++ (x ∷ [])) xs (subst Distinct (sym same) h) (omega (arith, lt)) in
      (id, last_cons x n xs (omega (arith, lt)) ∙ last, ap (rows_after id) (sym same) ∙ rest)

-- What the query promises: the first rows of the user in their order, or of those after the row
-- that the cursor names.
pub record IsQuery {S A : Type 0} (find_many : ℕ → Option ℕ → ℕ → S → List (ℕ × A))
    (ordered : ℕ → S → List (ℕ × A)) : Type 0 where
  pub from_start : (u n : ℕ) (s : S) → find_many u none n s ≡ take n (ordered u s)
  pub from_cursor :
      (u id n : ℕ) (s : S) → find_many u (some id) n s ≡ take n (rows_after id (ordered u s))

module _ {S A : Type 0} (find_many : ℕ → Option ℕ → ℕ → S → List (ℕ × A))
    (ordered : ℕ → S → List (ℕ × A)) (law : IsQuery find_many ordered) where
  last_page :
      (n : ℕ) (xs : List (ℕ × A))
      → length xs ≤ suc n
      → page_of (suc n) (take (suc n + 1) xs) ≡ record { items = xs; next_cursor = none }
  unfolding page_of
  last_page n xs h =
      ap (page_of (suc n)) (take_short (suc n + 1) xs (omega (arith, h)))
      ∙ ap
          (λ b.
            if b
            then record { items = take (suc n) xs; next_cursor = last_id (take (suc n) xs) }
            else record { items = xs; next_cursor = none })
          (le→ltb (suc n) (length xs) h)

  full_page :
      (n : ℕ) (xs : List (ℕ × A))
      → suc n < length xs
      → page_of (suc n) (take (suc n + 1) xs)
        ≡ record { items = take (suc n) xs; next_cursor = last_id (take (suc n) xs) }
  unfolding page_of
  full_page n xs h =
      let rows = take (suc n + 1) xs in
      let two_more : suc n + 1 ≡ suc (suc n) = omega arith in
      let many : ltb (suc n) (length rows) ≡ true =
        lt→ltb (suc n) (length rows)
          (omega (arith, length-take_short (suc n + 1) xs (omega (arith, h)))) in
      let same : take (suc n) rows ≡ take (suc n) xs =
        ap (λ k. take (suc n) (take k xs)) two_more ∙ take_longer (suc n) xs in
      ap
        (λ b.
          if b
          then record { items = take (suc n) rows; next_cursor = last_id (take (suc n) rows) }
          else record { items = rows; next_cursor = none })
        many
      ∙ ap (λ t. record { items = t; next_cursor = last_id t }) same

  -- The walk from a cursor reads the rows that are left.
  walk_rest :
      (fuel u : ℕ) (n : ℕ) (limit cursor : Option ℕ) (s : S) (pre xs : List (ℕ × A))
      → or_else limit 20 ≡ suc n
      → pre ++ xs ≡ ordered u s
      → Distinct (ordered u s)
      → ((k : ℕ) → find_many u cursor k s ≡ take k xs)
      → length xs < fuel
      → walk find_many fuel u limit cursor s ≡ (xs, true)
  unfolding walk find_all
  walk_rest zero u n limit cursor s pre xs size same apart query enough =
      absurd (omega (arith, enough))
  walk_rest (suc fuel) u n limit cursor s pre xs size same apart query enough =
      let more : ℕ → List (ℕ × A) × Bool = λ id. walk find_many fuel u limit (some id) s in
      let page : find_all find_many u limit cursor s ≡ page_of (suc n) (take (suc n + 1) xs) =
        ap (λ k. page_of k (find_many u cursor (k + 1) s)) size
        ∙ ap (page_of (suc n)) (query (suc n + 1)) in
      elim (Bool-cases (ltb (suc n) (length xs))) [
        | inr short ↦ ap (continued more) (page ∙ last_page n xs (ground (arith, short)))
        | inl long ↦
            let many : suc n < length xs = ground (arith, long) in
            let (id, last, rest) =
              page_end n pre xs (subst Distinct (sym same) apart) (omega (arith, many)) in
            let tail : walk find_many fuel u limit (some id) s ≡ (drop (suc n) xs, true) =
              walk_rest fuel u n limit (some id) s (pre ++ take (suc n) xs) (drop (suc n) xs) size
                (append_assoc pre (take (suc n) xs) (drop (suc n) xs)
                  ∙ ap (λ t. pre ++ t) (take-drop (suc n) xs)
                  ∙ same)
                apart
                (λ k.
                  law.from_cursor u id k s
                  ∙ ap (λ t. take k (rows_after id t)) (sym same)
                  ∙ ap (take k) rest)
                (omega (arith, drop_shorter n xs (omega (arith, many)), enough)) in
            ap (continued more) (page ∙ full_page n xs many)
            ∙ ap (λ o. continued more (record { items = take (suc n) xs; next_cursor = o })) last
            ∙ ap {B = List (ℕ × A) × Bool} (λ r. (take (suc n) xs ++ r.0, r.1)) tail
            ∙ ap {B = List (ℕ × A) × Bool} (λ t. (t, true)) (take-drop (suc n) xs)
      ]

  -- Where the query keeps its promises, the limit is not zero and no two portfolios of the user
  -- have the same key, a client that
  -- starts without a cursor and follows `nextCursor` gets to the last page after at most as many
  -- pages as there are portfolios, and one more, and has then read every portfolio of the user
  -- once, in the order of the query.
  pub walk_lem :
      (u : ℕ) (limit : Option ℕ) (s : S)
      → 0 < or_else limit 20
      → Distinct (ordered u s)
      → walk find_many (suc (length (ordered u s))) u limit none s ≡ (ordered u s, true)
  walk_lem u limit s positive apart =
      let (n, size) = positive_suc (or_else limit 20) positive in
      walk_rest (suc (length (ordered u s))) u n limit none s [] (ordered u s) size refl apart
        (λ k. law.from_start u k s) (omega arith)
