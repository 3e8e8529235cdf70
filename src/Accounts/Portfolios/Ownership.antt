-- ===== src/Accounts/Portfolios/Ownership.antt =====
-- What a request on a portfolio may change, by whose portfolio it is.
use mathlib.Core.Path.{subst}
use payflow_x.Prelude.{
  ◌⊎◌, ℕ, ◌≡◌, ◌≢◌, refl, sym, ap, ◌∙◌, Bool, true, false, not, Bool-cases, inl, inr, some, none,
  ◌==◌, ==_iff,
}
use payflow_x.Prelude.Result.{Result, err}
use payflow_x.Http.{
  Action, Error, text, http, not_found, pure, throw_if, assert_found, bind_err, bind_leaves,
  assert_found_keeps, ◌>>=◌, ◌>>◌,
}
use payflow_x.Db.{Table, IsTable}
use payflow_x.Accounts.Owned.{own, own_spares, delete_spares, create_spares, SparesOthers}
use payflow_x.Accounts.Portfolios.{
  PortfolioPatch, NewAsset, renamed, asset_of, Portfolio, Asset, not_owner, owned, find_one, update,
  delete, add_asset, remove_asset, asset_portfolio,
}

-- A request on one portfolio.
pub data PortfolioRequest (F : Type 0) : Type 0 where
  update_request : PortfolioPatch → PortfolioRequest F
  delete_request : PortfolioRequest F
  add_request : NewAsset F → PortfolioRequest F
  remove_request : ℕ → PortfolioRequest F

module _ {S F : Type 0} (t : Table S Portfolio) (assets : Table S (Asset F))
    (fresh_id : S → ℕ) where
  abbrev pub serve_portfolio : PortfolioRequest F → ℕ → ℕ → Action S (Unit {0})
  serve_portfolio (update_request dto) u id = update t assets fresh_id u id dto >> pure tt
  serve_portfolio delete_request u id = delete t assets fresh_id u id
  serve_portfolio (add_request dto) u id = add_asset t assets fresh_id u id dto >> pure tt
  serve_portfolio (remove_request asset_id) u id = remove_asset t assets fresh_id u id asset_id

  own_keeps :
      (b : Bool) (row : Portfolio) (s : S) → ((throw_if (not b) not_owner >> pure row) s).1 ≡ s
  own_keeps true row s = refl
  own_keeps false row s = refl

  find_one_other :
      (u id : ℕ) (s : S) (row : Portfolio)
      → t.find_unique id s ≡ some row
      → row.user_id ≢ u
      → find_one t assets fresh_id u id s ≡ (err not_owner, s)
  unfolding find_one owned
  find_one_other u id s row found ne =
      ap (λ o. (assert_found o (text "Portfolio") >>= owned t assets fresh_id u) s) found
      ∙ elim (Bool-cases (row.user_id == u)) [
        | inl e ↦ absurd (ne ((==_iff row.user_id u).0 e))
        | inr e ↦
            ap {B = Result Error Portfolio × S} (λ b. (throw_if (not b) not_owner >> pure row) s) e
      ]

  find_one_missing :
      (u id : ℕ) (s : S)
      → t.find_unique id s ≡ none
      → find_one t assets fresh_id u id s ≡ (err (http not_found (text "Portfolio")), s)
  unfolding find_one
  find_one_missing u id s missing =
      ap (λ o. (assert_found o (text "Portfolio") >>= owned t assets fresh_id u) s) missing

  -- Each request asks `findOne` first, and throws what it throws.
  serve_throws :
      (request : PortfolioRequest F) (u id : ℕ) (s : S) {e : Error}
      → find_one t assets fresh_id u id s ≡ (err e, s)
      → serve_portfolio request u id s ≡ (err e, s)
  unfolding update delete add_asset remove_asset
  serve_throws (update_request dto) u id s h =
      bind_err (update t assets fresh_id u id dto) (λ _. pure tt) s
        (bind_err (find_one t assets fresh_id u id) (λ _. t.update id (renamed dto)) s h)
  serve_throws delete_request u id s h =
      bind_err (find_one t assets fresh_id u id) (λ _. t.delete id >> pure tt) s h
  serve_throws (add_request dto) u id s h =
      bind_err (add_asset t assets fresh_id u id dto) (λ _. pure tt) s
        (bind_err (find_one t assets fresh_id u id)
          (λ _. λ s'. assets.create (fresh_id s') (asset_of id dto) s') s h)
  serve_throws (remove_request asset_id) u id s h =
      bind_err (find_one t assets fresh_id u id)
        (λ _.
          own assets asset_portfolio id asset_id (text "Asset")
          >> (assets.delete asset_id >> pure tt))
        s h

  -- Why a request is refused: the portfolio is not there, or another user owns it.
  abbrev pub Refusal : ℕ → ℕ → S → Error → Type 0
  Refusal u id s e =
      ((t.find_unique id s ≡ none) × (e ≡ http not_found (text "Portfolio")))
      ⊎ ((row : Portfolio) × (t.find_unique id s ≡ some row) × (row.user_id ≢ u) × (e ≡ not_owner))

  -- A request on a portfolio that is not there throws that it is not found, one on a portfolio of
  -- another user that it is forbidden, and either leaves the whole state as it is.
  pub serve_portfolio_refused :
      (request : PortfolioRequest F) (u id : ℕ) (s : S) (e : Error)
      → Refusal u id s e
      → serve_portfolio request u id s ≡ (err e, s)
  serve_portfolio_refused request u id s e (inl (missing, same)) = serve_throws request u id s (
      find_one_missing u id s missing
      ∙ ap {B = Result Error Portfolio × S} (λ x. (err x, s)) (sym same))
  serve_portfolio_refused request u id s e (inr (row, found, ne, same)) =
      serve_throws request u id s (
        find_one_other u id s row found ne
        ∙ ap {B = Result Error Portfolio × S} (λ x. (err x, s)) (sym same))

  find_one_keeps : (u id : ℕ) (s : S) → (find_one t assets fresh_id u id s).1 ≡ s
  unfolding find_one owned
  find_one_keeps u id s =
      bind_leaves (λ s'. s' ≡ s) (assert_found (t.find_unique id s) (text "Portfolio"))
        (owned t assets fresh_id u) s (assert_found_keeps (t.find_unique id s) (text "Portfolio") s)
        λ row found.
          own_keeps (row.user_id == u) row _
          ∙ assert_found_keeps (t.find_unique id s) (text "Portfolio") s

  module _ (law : IsTable assets) where
    abbrev Spares : ℕ → S → S → Type 0
    Spares = SparesOthers assets asset_portfolio

    after_find_one :
        {A : Type 0} (u id : ℕ) (next : Action S A) (s : S)
        → Spares id s (next s).1
        → Spares id s ((find_one t assets fresh_id u id >> next) s).1
    after_find_one u id next s h =
        bind_leaves (Spares id s) (find_one t assets fresh_id u id) (λ _. next) s
          (subst (Spares id s) (sym (find_one_keeps u id s)) λ j. refl)
          λ row found. subst (λ s'. Spares id s (next s').1) (sym (find_one_keeps u id s)) h

    -- Adding an asset to a portfolio and removing one from it leave the assets of every other
    -- portfolio as they are, whichever asset the request names and whatever comes of it.
    pub assets-SparesOthers :
        (u id : ℕ) (dto : NewAsset F) (asset_id : ℕ) (s : S)
        → Spares id s (add_asset t assets fresh_id u id dto s).1
          × Spares id s (remove_asset t assets fresh_id u id asset_id s).1
    unfolding add_asset remove_asset
    assets-SparesOthers u id dto asset_id s = (
      after_find_one u id (λ s'. assets.create (fresh_id s') (asset_of id dto) s') s
          (create_spares assets asset_portfolio law id (fresh_id s) (asset_of id dto) s refl),
      after_find_one u id
          (own assets asset_portfolio id asset_id (text "Asset")
            >> (assets.delete asset_id >> pure tt))
          s
          (own_spares assets asset_portfolio law id asset_id (text "Asset")
            (λ _. assets.delete asset_id >> pure tt) s
            λ row found is_own.
              bind_leaves (Spares id s) (assets.delete asset_id) (λ _. pure tt) s
                (delete_spares assets asset_portfolio law id asset_id s row found is_own)
                λ _ _. delete_spares assets asset_portfolio law id asset_id s row found is_own),
    )
