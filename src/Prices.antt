-- ===== src/Prices.antt =====
-- Market prices (src/modules/prices/prices.service.ts): a cache in front of two remote services.
-- The cache, the network, the clock and the table of coins are parameters; every action of theirs
-- may throw.
pub mod Answers
use payflow_x.Prelude.{ℕ, String, Bool, true, false, List, [], ◌∷◌, Option, none, some}
use payflow_x.Prelude.Result.{Result, ok, err}
use payflow_x.Http.{Error, Action, pure, catching, ◌>>=◌, ◌>>◌}

pub data Source : Type 0 where
  finnhub coin_gecko : Source

-- `PriceResult`, with numbers `F`; its currency is always USD.
pub record Price (F : Type 0) : Type 0 where
  pub symbol : String
  pub price : F
  pub source : Source
  pub timestamp : ℕ

-- The URLs that the service fetches, by what varies in them.
pub data Url : Type 0 where
  quote simple_price : String → Url

-- The body of an answer, as far as the service reads it: `data.c` of the one service, which is
-- absent, zero or a price, and `data[coinId]?.usd` of the other.
pub record Response (F S : Type 0) : Type 0 where
  pub is_ok : Bool
  pub json : Action S (Option F)

-- What the service calls. The code of the cached key is the symbol.
pub record Sources (F S : Type 0) : Type 0 where
  pub upper : String → String
  pub coin_of : String → Option String
  pub is_zero : F → Bool
  pub get : String → Action S (Option (Price F))
  pub set : String → Price F → Action S (Unit {0})
  pub fetch : Url → Action S (Response F S)
  pub now : Action S ℕ

module _ {F S : Type 0} (r : Sources F S) where
  -- `if (!data.c) return null`: absent or zero.
  unfoldable pub nonzero : Option F → Option F
  nonzero none = none
  nonzero (some c) = elim (r.is_zero c) [ true ↦ none | false ↦ some c ]

  -- The price of an answer, once its number is known.
  unfoldable pub priced : String → Source → Option F → Action S (Option (Price F))
  priced symbol source none = pure none
  priced symbol source (some c) = do
    timestamp ← r.now
    pure (some (record { symbol = symbol; price = c; source = source; timestamp = timestamp }))

  -- `if (!res.ok) return null`, and the body.
  unfoldable pub body :
      (Option F → Option F) → String → Source → Response F S → Action S (Option (Price F))
  unfolding priced
  body number symbol source response = elim response.is_ok [
    | false ↦ pure none
    | true ↦ response.json >>= λ c. priced symbol source (number c)
  ]

  -- The two fetches; whatever they throw is caught.
  unfoldable pub fetch_finnhub : String → Action S (Option (Price F))
  unfolding nonzero body
  fetch_finnhub symbol =
      catching (r.fetch (quote symbol) >>= body nonzero symbol finnhub) λ e. pure none

  unfoldable pub fetch_coin_gecko : String → String → Action S (Option (Price F))
  unfolding body
  fetch_coin_gecko symbol coin_id =
      catching (r.fetch (simple_price coin_id) >>= body (λ usd. usd) symbol coin_gecko)
        λ e. pure none

  unfoldable pub fetch_price : String → Action S (Option (Price F))
  unfolding fetch_finnhub fetch_coin_gecko
  fetch_price symbol = elim (r.coin_of symbol) [
    | none ↦ fetch_finnhub symbol
    | some coin_id ↦ fetch_coin_gecko symbol coin_id
  ]

  -- `if (result) { try { set } catch {} }`
  unfoldable pub stored : String → Option (Price F) → Action S (Unit {0})
  stored symbol none = pure tt
  stored symbol (some price) = catching (r.set symbol price) λ e. pure tt

  unfoldable pub fetched : String → Option (Price F) → Action S (Option (Price F))
  unfolding fetch_price stored
  fetched symbol (some price) = pure (some price)
  fetched symbol none = do result ← fetch_price symbol; stored symbol result; pure result

  -- `getPrice`
  unfoldable pub get_price : String → Action S (Option (Price F))
  unfolding fetched
  get_price symbol = do
    cached ← catching (r.get (r.upper symbol)) λ e. pure none
    fetched (r.upper symbol) cached

  -- `getPrices`, its calls one after another.
  unfoldable pub get_prices : List String → Action S (List (Option (Price F)))
  unfolding get_price
  get_prices [] = pure []
  get_prices (symbol ∷ symbols) = do
    price ← catching (get_price symbol) λ e. pure none
    prices ← get_prices symbols
    pure (price ∷ prices)
