-- ===== src/Investments/Buying.antt =====
-- What a purchase comes to, alone and beside another one.
use mathlib.Core.Path.{subst}
use payflow_x.Prelude.{
  arith, ℕ, ◌≡◌, sym, ap, ◌∙◌, false, Option, none, some, List, ◌∷◌, ◌==◌, ==_refl, if◌then◌else◌,
  Bool, false, Option-cases, inl, inr,
}
use payflow_x.Prelude.Int.{ℤ, pos, ◌+ℤ◌, ◌-ℤ◌}
use payflow_x.Prelude.Result.{ok}
use payflow_x.Http.{pure, bind_from, ◌>>◌}
use payflow_x.Floats.{Floats}
use payflow_x.Wallet.Persistence.{decrement}
use payflow_x.Wallet.Persistence.Statements.{IsSound}
use payflow_x.Investments.{
  Desk, Order, Buy, Quote, UsdWallet, Position, buy_reads, buy_writes, buy_work, place,
  bought_quantity, buy_order, added_to, first_bought,
}
use payflow_x.Investments.Statements.{
  IsDesk, SameBalances, SameOrders, Pays, FitsBought, FitsAmount,
}

zero_plus : (x : ℤ) → pos 0 +ℤ x ≡ x
unfolding ◌+ℤ◌
zero_plus x = ground arith

pub own_if : {A : Type 0} (i : ℕ) (x y : A) → (if i == i then x else y) ≡ x
own_if i x y = ap (λ b. if b then x else y) (==_refl i)

module _ {S D F : Type 0} (desk : Desk S D F) (f : Floats D F) (units : D → ℤ) (moved : F → ℤ)
    (balance_of : ℕ → S → Option D) (orders : S → List (Order F)) (finite : F → Bool)
    (law : IsDesk desk units moved balance_of orders finite) where
  -- The units of a position before an order; one that is not there has none.
  abbrev pub held_units : Option (Position D) → ℤ
  held_units none = pos 0
  held_units (some p) = units p.quantity

  pub buy_reads_found :
      (cmd : Buy F) (s : S) (asset : Quote D) (wallet : UsdWallet D)
      → desk.find_asset cmd.asset_id s ≡ some asset
      → desk.find_usd_wallet cmd.user_id s ≡ some wallet
      → f.less (f.number wallet.balance) cmd.amount ≡ false
      → buy_reads desk f cmd s ≡ (ok (asset, wallet), s)
  unfolding buy_reads
  buy_reads_found cmd s asset wallet e1 e2 enough = rw (e1, e2, enough)

  -- The writes of a purchase where the wallet is stored with some balance, which need not be the one
  -- that was read.
  abbrev pub Purchase : Buy F → Quote D × UsdWallet D → D → S → S → Position D → Type 0
  Purchase cmd rows d s s' p =
      (d' : D) × (units d' ≡ units d -ℤ moved cmd.amount)
      × Pays desk units moved balance_of orders finite rows.1.id d' s s'
      × (desk.find_position cmd.user_id cmd.asset_id s' ≡ some p)
      × (units p.quantity
          ≡ held_units (desk.find_position cmd.user_id cmd.asset_id s)
            +ℤ moved (bought_quantity desk f cmd rows.0))
      × (orders s' ≡ buy_order desk f cmd rows.0 rows.1 ∷ orders s)

  -- The columns hold the new position.
  abbrev pub FitsPlaced : Buy F → Quote D → Option (Position D) → Type 0
  FitsPlaced cmd asset none =
      FitsBought desk units moved balance_of orders finite
        (first_bought desk f (bought_quantity desk f cmd asset) (f.number asset.current_price))
        (moved (bought_quantity desk f cmd asset))
  FitsPlaced cmd asset (some old) =
      FitsBought desk units moved balance_of orders finite
        (added_to desk f old (bought_quantity desk f cmd asset) (f.number asset.current_price))
        (units old.quantity +ℤ moved (bought_quantity desk f cmd asset))

  -- The position is written, from what was found of it.
  abbrev Placed : Buy F → Quote D → S → Option (Position D) → Type 0
  Placed cmd asset s o =
      (s' : S) × (p : Position D) × (place desk f cmd asset o s ≡ (ok p, s'))
      × (desk.find_position cmd.user_id cmd.asset_id s' ≡ some p)
      × (units p.quantity ≡ held_units o +ℤ moved (bought_quantity desk f cmd asset))
      × SameBalances desk units moved balance_of orders finite s s'
      × SameOrders desk units moved balance_of orders finite s s'

  place-Placed :
      (cmd : Buy F) (asset : Quote D) (s : S)
      → FitsPlaced cmd asset (desk.find_position cmd.user_id cmd.asset_id s)
      → Placed cmd asset s (desk.find_position cmd.user_id cmd.asset_id s)
  unfolding place
  place-Placed cmd asset s fits =
      let q = bought_quantity desk f cmd asset in
      let price = f.number asset.current_price in
      elim (Option-cases (desk.find_position cmd.user_id cmd.asset_id s)) [
        | inl e ↦
            let (s', p, done, there, quantity, same, kept) =
              law.create_new cmd.user_id cmd.asset_id (first_bought desk f q price) s e
                (subst (FitsPlaced cmd asset) e fits) in
            subst (Placed cmd asset s) (sym e)
              (s', p, done, there, quantity ∙ sym (zero_plus (moved q)), same, kept)
        | inr (old, e) ↦
            let (s', p, done, there, quantity, same, kept) =
              law.add_found cmd.user_id cmd.asset_id (added_to desk f old q price) s old e
                (subst (FitsPlaced cmd asset) e fits) in
            subst (Placed cmd asset s) (sym e) (s', p, done, there, quantity, same, kept)
      ]

  pub buy_writes-Purchase :
      (cmd : Buy F) (rows : Quote D × UsdWallet D) (d : D) (s : S)
      → balance_of rows.1.id s ≡ some d
      → FitsPlaced cmd rows.0 (desk.find_position cmd.user_id cmd.asset_id s)
      → FitsAmount desk units moved balance_of orders finite cmd.amount
      → IsSound (units d -ℤ moved cmd.amount)
      → (s' : S) × (p : Position D) × (buy_writes desk f cmd rows s ≡ (ok p, s'))
        × Purchase cmd rows d s s' p
  unfolding buy_writes
  buy_writes-Purchase cmd rows d s at fits fits' sound =
      let (s1, p, placed, there, quantity, same1, kept1) = place-Placed cmd rows.0 s fits in
      let (s2, ordered, same2, keeps2, added) =
        law.record_order (buy_order desk f cmd rows.0 rows.1) s1 fits' in
      let (s3, d', paid, less, pays, keeps3, kept3) =
        law.change_balance rows.1.id (decrement cmd.amount) s2 d
          (same2 rows.1.id ∙ same1 rows.1.id ∙ at) fits'.0 sound in
      (
        s3,
        p,
        bind_from (place desk f cmd rows.0 (desk.find_position cmd.user_id cmd.asset_id s))
              (λ x.
                desk.create_order (buy_order desk f cmd rows.0 rows.1)
                >> (desk.update_balance rows.1.id (decrement cmd.amount) >> pure x))
              s placed
            ∙ bind_from (desk.create_order (buy_order desk f cmd rows.0 rows.1))
                (λ _. desk.update_balance rows.1.id (decrement cmd.amount) >> pure p) s1 ordered
            ∙ bind_from (desk.update_balance rows.1.id (decrement cmd.amount)) (λ _. pure p) s2
                paid,
        (
          d',
          less,
          λ j. pays j ∙ ap (λ o. if rows.1.id == j then some d' else o) (same2 j ∙ same1 j),
          keeps3 cmd.user_id cmd.asset_id ∙ keeps2 cmd.user_id cmd.asset_id ∙ there,
          quantity,
          kept3 ∙ added ∙ ap (λ os. buy_order desk f cmd rows.0 rows.1 ∷ os) kept1,
        ),
      )

  -- A purchase by a user with a USD wallet whose balance is not below the amount goes through, where
  -- the columns hold the amount, the new position and the new balance, which is not negative: it
  -- takes just the amount from that wallet and from no other, and the position of the user in the
  -- asset, which may be a new one, has grown by the quantity that the amount buys; one order is
  -- recorded, with that amount, quantity and price.
  pub buy_work-Purchase :
      (cmd : Buy F) (s : S) (asset : Quote D) (wallet : UsdWallet D)
      → desk.find_asset cmd.asset_id s ≡ some asset
      → desk.find_usd_wallet cmd.user_id s ≡ some wallet
      → f.less (f.number wallet.balance) cmd.amount ≡ false
      → FitsPlaced cmd asset (desk.find_position cmd.user_id cmd.asset_id s)
      → FitsAmount desk units moved balance_of orders finite cmd.amount
      → IsSound (units wallet.balance -ℤ moved cmd.amount)
      → (s' : S) × (p : Position D) × (buy_work desk f cmd s ≡ (ok p, s'))
        × Purchase cmd (asset, wallet) wallet.balance s s' p
  unfolding buy_work
  buy_work-Purchase cmd s asset wallet e1 e2 enough fits fits' sound =
      let (s', p, done, bought) =
        buy_writes-Purchase cmd (asset, wallet) wallet.balance s
          (law.stored_wallet cmd.user_id s wallet e2) fits fits' sound in
      (
        s',
        p,
        bind_from (buy_reads desk f cmd) (buy_writes desk f cmd) s
              (buy_reads_found cmd s asset wallet e1 e2 enough)
            ∙ done,
        bought,
      )
