-- ===== src/Investments/Statements.antt =====
-- What the orders rely on of the database.
use payflow_x.Prelude.{
  ℕ, ◌+◌, ◌^◌, ◌<◌, ◌≡◌, Bool, true, false, List, ◌∷◌, Option, none, some, ◌==◌, if◌then◌else◌,
}
use payflow_x.Prelude.Int.{ℤ, magnitude, ◌+ℤ◌, ◌-ℤ◌}
use payflow_x.Prelude.Result.{ok, err}
use payflow_x.Amount.{ceiling_units}
use payflow_x.Http.{Error}
use payflow_x.Wallet.Persistence.{Change, increment, decrement}
use payflow_x.Wallet.Persistence.Statements.{IsSound, is_sound}
use payflow_x.Investments.{Desk, UsdWallet, Position, Bought, Reduced, Order}

-- `units` counts a stored decimal and `moved` a number that a statement is given; `balance_of` is
-- the stored balance of a wallet, `orders` the recorded orders, the latest first, and `finite` says
-- that a number is one that the client takes.
module _ {S D F : Type 0} (desk : Desk S D F) (units : D → ℤ) (moved : F → ℤ)
    (balance_of : ℕ → S → Option D) (orders : S → List (Order F)) (finite : F → Bool) where
  abbrev pub settled : Change F → ℤ → ℤ
  settled (increment x) u = u +ℤ moved x
  settled (decrement x) u = u -ℤ moved x

  abbrev pub SameBalances : S → S → Type 0
  SameBalances s s' = (j : ℕ) → balance_of j s' ≡ balance_of j s

  abbrev pub SamePositions : S → S → Type 0
  SamePositions s s' = (u a : ℕ) → desk.find_position u a s' ≡ desk.find_position u a s

  abbrev pub SameOrders : S → S → Type 0
  SameOrders s s' = orders s' ≡ orders s

  -- One wallet has a new balance.
  abbrev pub Pays : ℕ → D → S → S → Type 0
  Pays i d s s' = (j : ℕ) → balance_of j s' ≡ (if i == j then some d else balance_of j s)

  -- The columns hold the data (prisma/schema.prisma): a DECIMAL(18,2) rounds its number to cents, a
  -- quantity is a DECIMAL(18,8), an amount a DECIMAL(20,8).
  abbrev pub FitsCents : F → Type 0
  FitsCents x = (finite x ≡ true) × (magnitude (moved x) + 500_000 < 10 ^ 24)

  abbrev pub FitsQuantity : F → ℤ → Type 0
  FitsQuantity x u = (finite x ≡ true) × (magnitude u < 10 ^ 18)

  abbrev pub FitsBought : Bought F → ℤ → Type 0
  FitsBought x u = FitsQuantity x.quantity u × FitsCents x.avg_buy_price × FitsCents x.current_value

  abbrev pub FitsReduced : Reduced F → Type 0
  FitsReduced x = FitsQuantity x.quantity (moved x.quantity) × FitsCents x.current_value

  abbrev pub FitsAmount : F → Type 0
  FitsAmount x = (finite x ≡ true) × (magnitude (moved x) < ceiling_units)

  abbrev pub amount_of : Change F → F
  amount_of (increment x) = x
  amount_of (decrement x) = x

  -- The promises: the USD wallet is a stored wallet; a write to a position, a record and a change of
  -- a balance succeed where their row is there, or for a new position is not, and their columns hold
  -- the data, and each touches its own table only, also where it throws. The writes to positions have
  -- the quantities of their data. A change that takes a balance below zero, which a constraint of
  -- the table forbids, or past its column throws.
  pub record IsDesk : Type 0 where
    pub stored_wallet :
        (u : ℕ) (s : S) (w : UsdWallet D)
        → desk.find_usd_wallet u s ≡ some w
        → balance_of w.id s ≡ some w.balance
    pub add_found :
        (u a : ℕ) (x : Bought F) (s : S) (p : Position D)
        → desk.find_position u a s ≡ some p
        → FitsBought x (units p.quantity +ℤ moved x.quantity)
        → (s' : S) × (p' : Position D) × (desk.add_to_position u a x s ≡ (ok p', s'))
          × (desk.find_position u a s' ≡ some p')
          × (units p'.quantity ≡ units p.quantity +ℤ moved x.quantity)
          × SameBalances s s'
          × SameOrders s s'
    pub create_new :
        (u a : ℕ) (x : Bought F) (s : S)
        → desk.find_position u a s ≡ none
        → FitsBought x (moved x.quantity)
        → (s' : S) × (p' : Position D) × (desk.create_position u a x s ≡ (ok p', s'))
          × (desk.find_position u a s' ≡ some p')
          × (units p'.quantity ≡ moved x.quantity)
          × SameBalances s s'
          × SameOrders s s'
    pub set_found :
        (u a : ℕ) (x : Reduced F) (s : S) (p : Position D)
        → desk.find_position u a s ≡ some p
        → FitsReduced x
        → (s' : S) × (p' : Position D) × (desk.set_position u a x s ≡ (ok p', s'))
          × (desk.find_position u a s' ≡ some p')
          × (units p'.quantity ≡ moved x.quantity)
          × SameBalances s s'
          × SameOrders s s'
    pub delete_found :
        (u a : ℕ) (s : S) (p : Position D)
        → desk.find_position u a s ≡ some p
        → (s' : S) × (desk.delete_position u a s ≡ (ok p, s'))
          × (desk.find_position u a s' ≡ none)
          × SameBalances s s'
          × SameOrders s s'
    pub record_order :
        (o : Order F) (s : S)
        → FitsAmount o.amount
        → (s' : S) × (desk.create_order o s ≡ (ok tt, s'))
          × SameBalances s s'
          × SamePositions s s'
          × (orders s' ≡ o ∷ orders s)
    pub change_balance :
        (i : ℕ) (change : Change F) (s : S) (d : D)
        → balance_of i s ≡ some d
        → finite (amount_of change) ≡ true
        → IsSound (settled change (units d))
        → (s' : S) × (d' : D) × (desk.update_balance i change s ≡ (ok tt, s'))
          × (units d' ≡ settled change (units d))
          × Pays i d' s s'
          × SamePositions s s'
          × SameOrders s s'
    pub change_unsound :
        (i : ℕ) (change : Change F) (s : S) (d : D)
        → balance_of i s ≡ some d
        → is_sound (settled change (units d)) ≡ false
        → (e : Error) × (desk.update_balance i change s ≡ (err e, s))
    pub add_keeps :
        (u a : ℕ) (x : Bought F) (s : S) → SameBalances s (desk.add_to_position u a x s).1
    pub create_keeps :
        (u a : ℕ) (x : Bought F) (s : S) → SameBalances s (desk.create_position u a x s).1
    pub order_keeps : (o : Order F) (s : S) → SameBalances s (desk.create_order o s).1
