-- ===== src/Wallet/Exchange/Outcome.antt =====
-- What an exchange comes to.
use payflow_x.Prelude.{arith, ◌≤◌, le→ltb, ℕ, ◌-◌, ◌≡◌, ◌≢◌, sym, ap, ◌∙◌, false, Option, some, ltb}
use payflow_x.Prelude.Int.{ℤ, magnitude}
use payflow_x.Prelude.Result.{err}
use payflow_x.Amount.{Currency, ceiling_units}
use payflow_x.Http.{Error, Action, pure, bind_from, bind_err, ◌>>=◌, ◌>>◌}
use payflow_x.Wallet.Persistence.{Client, WalletRow, increment, decrement}
use payflow_x.Wallet.Persistence.Statements.{some_injective, IsClient, IsSound, is_sound, changed}
use payflow_x.Wallet.Exchange.{
  Market, Exchange, Rate, Exchanged, exchange_rows, exchange_work, exchanged_of, conversion_of,
  legs, swap_legs,
}
use payflow_x.Wallet.Exchange.Legs.{
  WritesBoth, legs-WritesBoth, legs_overflow, debit_leg, credit_leg,
}

too_large : (u : ℤ) → ceiling_units ≤ magnitude u → is_sound u ≡ false
too_large u h = ground (arith, h)

module _ {S D : Type 0} (c : Client S D) (k : Market S D) where
  exchange_found :
      (max_age now : ℕ) (cmd : Exchange) (amount : D) (s : S) (source target : WalletRow D)
      (rate : Rate D)
      → c.find_unique cmd.user_id cmd.from_currency s ≡ some source
      → c.find_unique cmd.user_id cmd.to_currency s ≡ some target
      → k.find_rate cmd.from_currency cmd.to_currency s ≡ some rate
      → exchange_work c k max_age now cmd amount s
        ≡ exchange_rows c k max_age now cmd amount source target rate s
  unfolding exchange_work
  exchange_found max_age now cmd amount s source target rate e1 e2 e3 = rw (e1, e2, e3)

  -- The record of an exchange, and its answer.
  abbrev pub recorded : Exchange → WalletRow D → WalletRow D → Rate D → D → Action S (Exchanged D)
  recorded cmd source target rate amount =
      k.create_conversion (conversion_of c k cmd source target rate amount) >>= λ t.
      pure (exchanged_of c k cmd rate amount t)

  exchange_passed :
      (max_age now : ℕ) (cmd : Exchange) (amount : D) (s : S) (source target : WalletRow D)
      (rate : Rate D)
      → ltb max_age (now - rate.date) ≡ false
      → k.less_than source.balance amount ≡ false
      → exchange_rows c k max_age now cmd amount source target rate s
        ≡ (swap_legs c k (legs c k source target amount (k.times amount rate.rate))
              >> recorded cmd source target rate amount)
            s
  unfolding exchange_rows
  exchange_passed max_age now cmd amount s source target rate fresh enough = rw (fresh, enough)

  module _ (units : D → ℤ) (row_of : ℕ → S → Option (WalletRow D)) (law : IsClient c units row_of)
      (of_currency : (u : ℕ) (cur : Currency) (s : S) (row : WalletRow D)
        → c.find_unique u cur s ≡ some row
        → row.currency ≡ cur) where
    other_wallet :
        (cmd : Exchange) (s : S) (source target : WalletRow D)
        → c.find_unique cmd.user_id cmd.from_currency s ≡ some source
        → c.find_unique cmd.user_id cmd.to_currency s ≡ some target
        → cmd.from_currency ≢ cmd.to_currency
        → source.id ≢ target.id
    other_wallet cmd s source target e1 e2 ne same =
        let row = some_injective (
          sym (law.find_row cmd.user_id cmd.from_currency s source e1)
          ∙ ap (λ i. row_of i s) same
          ∙ law.find_row cmd.user_id cmd.to_currency s target e2) in
        ne (
          sym (of_currency cmd.user_id cmd.from_currency s source e1)
          ∙ ap (λ r. r.currency) row
          ∙ of_currency cmd.user_id cmd.to_currency s target e2)

    -- With both wallets and a rate that is fresh, a balance that is not below the amount, and two new
    -- balances that the column can store, neither negative nor at the ceiling or above, an exchange between different currencies takes the amount from the one wallet, puts the amount
    -- times the rate into the other, raises the version of each by one, leaves every other wallet
    -- alone, and goes on to record the conversion, whatever the order of the two writes.
    pub exchange-WritesBoth :
        (max_age now : ℕ) (cmd : Exchange) (amount : D) (s : S) (source target : WalletRow D)
        (rate : Rate D)
        → c.find_unique cmd.user_id cmd.from_currency s ≡ some source
        → c.find_unique cmd.user_id cmd.to_currency s ≡ some target
        → k.find_rate cmd.from_currency cmd.to_currency s ≡ some rate
        → cmd.from_currency ≢ cmd.to_currency
        → now - rate.date ≤ max_age
        → k.less_than source.balance amount ≡ false
        → IsSound (changed c units row_of (decrement amount) (units source.balance))
        → IsSound
            (changed c units row_of (increment (k.times amount rate.rate)) (units target.balance))
        → (s' : S) × WritesBoth c units row_of
            (debit_leg source amount)
            (credit_leg target (k.times amount rate.rate))
            s
            s'
          × (exchange_work c k max_age now cmd amount s ≡ recorded cmd source target rate amount s')
    exchange-WritesBoth max_age now cmd amount s source target rate e1 e2 e3 ne fresh enough less
          more =
        let received = k.times amount rate.rate in
        let (s', done, writes) =
          legs-WritesBoth c k units row_of law source target amount received s
            (law.find_row cmd.user_id cmd.from_currency s source e1)
            (law.find_row cmd.user_id cmd.to_currency s target e2)
            (other_wallet cmd s source target e1 e2 ne) less more in
        (
          s',
          writes,
          exchange_found max_age now cmd amount s source target rate e1 e2 e3
              ∙ exchange_passed max_age now cmd amount s source target rate
                  (le→ltb max_age (now - rate.date) fresh) enough
              ∙ bind_from (swap_legs c k (legs c k source target amount received))
                  (λ _. recorded cmd source target rate amount) s done,
        )

    -- With both wallets and a rate that is fresh, and a balance that is not below the amount and that
    -- can be stored less it, an exchange between different currencies whose converted amount takes
    -- the target wallet to the ceiling or above throws, whatever the order of the two writes, with the
    -- target wallet as it was.
    pub exchange_overflows :
        (max_age now : ℕ) (cmd : Exchange) (amount : D) (s : S) (source target : WalletRow D)
        (rate : Rate D)
        → c.find_unique cmd.user_id cmd.from_currency s ≡ some source
        → c.find_unique cmd.user_id cmd.to_currency s ≡ some target
        → k.find_rate cmd.from_currency cmd.to_currency s ≡ some rate
        → cmd.from_currency ≢ cmd.to_currency
        → now - rate.date ≤ max_age
        → k.less_than source.balance amount ≡ false
        → IsSound (changed c units row_of (decrement amount) (units source.balance))
        → ceiling_units
          ≤ magnitude
              (changed c units row_of (increment (k.times amount rate.rate)) (units target.balance))
        → (e : Error) × (s' : S) × (exchange_work c k max_age now cmd amount s ≡ (err e, s'))
          × (row_of target.id s' ≡ some target)
    exchange_overflows max_age now cmd amount s source target rate e1 e2 e3 ne fresh enough less
          over =
        let received = k.times amount rate.rate in
        let (e, s', failed, same) =
          legs_overflow c k units row_of law source target amount received s
            (law.find_row cmd.user_id cmd.from_currency s source e1)
            (law.find_row cmd.user_id cmd.to_currency s target e2)
            (other_wallet cmd s source target e1 e2 ne) less
            (too_large (changed c units row_of (increment received) (units target.balance)) over) in
        (
          e,
          s',
          exchange_found max_age now cmd amount s source target rate e1 e2 e3
              ∙ exchange_passed max_age now cmd amount s source target rate
                  (le→ltb max_age (now - rate.date) fresh) enough
              ∙ bind_err (swap_legs c k (legs c k source target amount received))
                  (λ _. recorded cmd source target rate amount) s failed,
          same,
        )
