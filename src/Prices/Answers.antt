-- ===== src/Prices/Answers.antt =====
-- Whatever the cache and the network do, every symbol gets an answer.
use mathlib.Core.Path.{subst}
use payflow_x.Prelude.{
  suc, ◌≡◌, refl, sym, ap, ◌∙◌, String, List, [], ◌∷◌, Option, none, some, inl, inr, Option-cases,
}
use payflow_x.Prelude.Lists.{length}
use payflow_x.Prelude.Result.{ok, Result-cases}
use payflow_x.Http.{
  Action, pure, catching, catching_ok, catching_err, bind_from, pair_ext, ◌>>=◌, ◌>>◌,
}
use payflow_x.Prices.{
  body, nonzero, quote, simple_price, finnhub, coin_gecko, Sources, Price, fetch_price,
  fetch_finnhub, fetch_coin_gecko, stored, fetched, get_price, get_prices,
}

-- An action that never throws.
abbrev pub Answers : {S A : Type 0} → Action S A → Type 0
Answers {S} {A} m = (s : S) → (a : A) × (s' : S) × (m s ≡ (ok a, s'))

catching-Answers : {S A : Type 0} (m : Action S A) (a : A) → Answers (catching m λ e. pure a)
catching-Answers m a s = elim (Result-cases (m s).0) [
  | inl (x, e) ↦ (x, (m s).1, catching_ok m (λ _. pure a) s (pair_ext (m s) e refl))
  | inr (x, e) ↦ (a, (m s).1, catching_err m (λ _. pure a) s (pair_ext (m s) e refl))
]

bind-Answers :
    {S A B : Type 0} (m : Action S A) (f : A → Action S B)
    → Answers m
    → ((a : A) → Answers (f a))
    → Answers (m >>= f)
bind-Answers m f h k s =
    let (a, s1, e) = h s in let (b, s2, e') = k a s1 in (b, s2, bind_from m f s e ∙ e')

module _ {F S : Type 0} (r : Sources F S) where
  unfoldable by_coin : Option String → String → Action S (Option (Price F))
  by_coin o symbol = elim o [
    | none ↦ fetch_finnhub r symbol
    | some coin ↦ fetch_coin_gecko r symbol coin
  ]

  fetch_price-Answers : (symbol : String) → Answers (fetch_price r symbol)
  unfolding by_coin fetch_price fetch_finnhub fetch_coin_gecko
  fetch_price-Answers symbol = elim (Option-cases (r.coin_of symbol)) [
    | inl e ↦
        subst (λ o. Answers (by_coin o symbol)) (sym e)
          (catching-Answers (r.fetch (quote symbol) >>= body r (nonzero r) symbol finnhub) none)
    | inr (coin, e) ↦
        subst (λ o. Answers (by_coin o symbol)) (sym e)
          (catching-Answers (r.fetch (simple_price coin) >>= body r (λ usd. usd) symbol coin_gecko)
            none)
  ]

  stored-Answers : (symbol : String) (o : Option (Price F)) → Answers (stored r symbol o)
  unfolding stored
  stored-Answers symbol none = λ s. (tt, s, refl)
  stored-Answers symbol (some price) = catching-Answers (r.set symbol price) tt

  fetched-Answers : (symbol : String) (o : Option (Price F)) → Answers (fetched r symbol o)
  unfolding fetched
  fetched-Answers symbol (some price) = λ s. (some price, s, refl)
  fetched-Answers symbol none =
      bind-Answers (fetch_price r symbol) (λ result. stored r symbol result >> pure result)
        (fetch_price-Answers symbol)
        λ result.
          bind-Answers (stored r symbol result) (λ _. pure result) (stored-Answers symbol result)
            λ _ s. (result, s, refl)

  -- However the cache, the network and the answers of the services fail, `getPrice` returns a price
  -- or null.
  pub get_price-Answers : (symbol : String) → Answers (get_price r symbol)
  unfolding get_price
  get_price-Answers symbol =
      bind-Answers (catching (r.get (r.upper symbol)) λ e. pure none) (fetched r (r.upper symbol))
        (catching-Answers (r.get (r.upper symbol)) none) (fetched-Answers (r.upper symbol))

  -- However the cache, the network and the answers of the services fail, `getPrices` returns, and
  -- has one answer for each symbol, as the valuation of a portfolio relies on.
  pub get_prices_lem :
      (symbols : List String) (s : S)
      → (prices : List (Option (Price F))) × (s' : S) × (get_prices r symbols s ≡ (ok prices, s'))
        × (length prices ≡ length symbols)
  unfolding get_prices
  get_prices_lem [] s = ([], s, refl, refl)
  get_prices_lem (symbol ∷ symbols) s =
      let (price, s1, e) = catching-Answers (get_price r symbol) none s in
      let (prices, s2, e', len) = get_prices_lem symbols s1 in
      (
        price ∷ prices,
        s2,
        bind_from (catching (get_price r symbol) λ e. pure none)
              (λ p. get_prices r symbols >>= λ ps. pure (p ∷ ps)) s e
            ∙ bind_from (get_prices r symbols) (λ ps. pure (price ∷ ps)) s1 e',
        ap suc len,
      )
