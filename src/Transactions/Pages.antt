-- ===== src/Transactions/Pages.antt =====
-- The numbered pages of a search together are what it matches.
use payflow_x.Prelude.{
  ℕ, zero, suc, ◌+◌, ◌-◌, ◌*◌, ◌≤◌, ◌<◌, ◌≡◌, refl, sym, ap, ◌∙◌, List, [], ◌++◌, arith,
}
use native.Mathlib.Nat.{div-add-mod, mod-lt}
use payflow_x.Prelude.Lists.{length}
use payflow_x.Prelude.Slices.{take, drop, take_add, take_short}
use payflow_x.Prelude.Result.{Result, ok}
use payflow_x.Http.{Error, Action, pure, bind_from, ◌>>=◌}
use payflow_x.Transactions.{Search, Where, where_of, Found, History, find_all, ceil_div}

-- What the queries promise: a slice and the count of one list.
pub record IsHistory {S A : Type 0} (h : History S A) (matching : Where → S → List A) : Type 0 where
  pub sliced :
      (w : Where) (skip n : ℕ) (s : S) → h.find_many w skip n s ≡ take n (drop skip (matching w s))
  pub counted : (w : Where) (s : S) → h.count w s ≡ length (matching w s)

enough_pages : (n l : ℕ) → 0 < l → n ≤ ceil_div n l * l
enough_pages n l h = grind (arith, div-add-mod (n + l - 1) l, mod-lt (n + l - 1) h)

no_times : (l : ℕ) → 0 ≡ 0 * l
no_times l = omega arith

less_one : (k : ℕ) → suc k - 1 ≡ k
less_one k = omega arith

one_more : (k l : ℕ) → k * l + l ≡ suc k * l
one_more k l = grind arith

module _ {S A : Type 0} (h : History S A) where
  -- A client that asks for the pages from the first to the `k`th.
  unfoldable pub read_pages : ℕ → Search → Action S (List A)
  read_pages zero search = pure []
  read_pages (suc k) search = do
    earlier ← read_pages k search
    page ← find_all h (record search { page = suc k })
    pure (earlier ++ page.items)

module _ {S A : Type 0} (h : History S A) (matching : Where → S → List A)
    (law : IsHistory h matching) where
  abbrev pub matches : Search → S → List A
  matches search s = matching (where_of search (h.wallet_ids search.user_id s)) s

  -- The answer to a search, of the rows of its page and their number on all pages.
  abbrev answer : Search → List A → ℕ → Found A
  answer search rows total = record {
    items = rows;
    meta = record {
      total = total;
      page = search.page;
      limit = search.limit;
      total_pages = ceil_div total search.limit;
    };
  }

  abbrev found_page : Search → S → Found A
  found_page search s =
      answer search (take search.limit (drop ((search.page - 1) * search.limit) (matches search s)))
        (length (matches search s))

  find_all_lem : (search : Search) (s : S) → find_all h search s ≡ (ok (found_page search s), s)
  unfolding find_all
  find_all_lem search s =
      let w = where_of search (h.wallet_ids search.user_id s) in
      let skip = (search.page - 1) * search.limit in
      ap {B = Result Error (Found A) × S} (λ rows. (ok (answer search rows (h.count w s)), s))
        (law.sliced w skip search.limit s)
      ∙ ap {B = Result Error (Found A) × S}
          (λ total. (ok (answer search (take search.limit (drop skip (matching w s))) total), s))
          (law.counted w s)

  read_pages_upto :
      (k : ℕ) (search : Search) (s : S)
      → read_pages h k search s ≡ (ok (take (k * search.limit) (matches search s)), s)
  unfolding read_pages
  read_pages_upto zero search s =
      ap {B = Result Error (List A) × S} (λ n. (ok (take n (matches search s)), s))
        (no_times search.limit)
  read_pages_upto (suc k) search s =
      let l = search.limit in
      let m = matches search s in
      bind_from (read_pages h k search)
        (λ earlier.
          find_all h (record search { page = suc k }) >>= λ page. pure (earlier ++ page.items))
        s (read_pages_upto k search s)
      ∙ bind_from (find_all h (record search { page = suc k }))
          (λ page. pure (take (k * l) m ++ page.items)) s
          (find_all_lem (record search { page = suc k }) s)
      ∙ ap {B = Result Error (List A) × S}
          (λ i. (ok (take (k * l) m ++ take l (drop (i * l) m)), s)) (less_one k)
      ∙ ap {B = Result Error (List A) × S} (λ t. (ok t, s)) (sym (take_add (k * l) l m))
      ∙ ap {B = Result Error (List A) × S} (λ n. (ok (take n m), s)) (one_more k l)

  -- Where the limit is not zero and the queries agree on one list of the transactions of the user's
  -- wallets that match the search, any page tells how many there are and how many pages hold them,
  -- and those pages, read one after another, are just that list.
  pub pages_lem :
      (search : Search) (s : S)
      → 0 < search.limit
      → (found : Found A) × (find_all h search s ≡ (ok found, s))
        × (found.meta.total ≡ length (matches search s))
        × (read_pages h found.meta.total_pages search s ≡ (ok (matches search s), s))
  pages_lem search s positive =
      let n = length (matches search s) in
      let pages = ceil_div n search.limit in
      (
        found_page search s,
        find_all_lem search s,
        refl,
        read_pages_upto pages search s
            ∙ ap {B = Result Error (List A) × S} (λ t. (ok t, s))
                (take_short (pages * search.limit) (matches search s)
                  (enough_pages n search.limit positive)),
      )
