-- ===== src/Investments/Selling.antt =====
-- What a sale comes to.
use mathlib.Core.Path.{subst}
use payflow_x.Prelude.{
  ℕ, ◌≡◌, sym, ap, ◌∙◌, Bool, true, false, Option, none, some, List, ◌∷◌, ◌==◌, if◌then◌else◌,
  Bool-cases, inl, inr,
}
use payflow_x.Prelude.Int.{ℤ, ◌+ℤ◌}
use payflow_x.Prelude.Result.{ok, err}
use payflow_x.Http.{Error, http, not_found, text, pure, bind_from, bind_err, ◌>>◌}
use payflow_x.Floats.{Floats}
use payflow_x.Wallet.Persistence.{increment}
use payflow_x.Wallet.Persistence.Statements.{IsSound}
use payflow_x.Investments.{
  Desk, Order, Quote, Reduced, Sell, UsdWallet, Position, sell_reads, sell_writes, sell_work,
  reduce, sell_order, proceeds_of, remaining_of, insufficient_quantity,
}
use payflow_x.Investments.Statements.{
  IsDesk, SameBalances, SameOrders, Pays, FitsReduced, FitsAmount,
}

module _ {S D F : Type 0} (desk : Desk S D F) (f : Floats D F) where
  sell_reads_found :
      (cmd : Sell F) (s : S) (position : Position D) (wallet : UsdWallet D)
      → desk.find_position cmd.user_id cmd.asset_id s ≡ some position
      → desk.find_usd_wallet cmd.user_id s ≡ some wallet
      → f.less (f.number position.quantity) cmd.quantity ≡ false
      → sell_reads desk f cmd s ≡ (ok (position, wallet), s)
  unfolding sell_reads
  sell_reads_found cmd s position wallet e1 e2 enough = rw (e1, e2, enough)

  -- A sale without a position in the asset, without a USD wallet, or of more than the position
  -- holds, and what it throws.
  pub data Refused (cmd : Sell F) (s : S) : Error → Type 0 where
    no_position :
        desk.find_position cmd.user_id cmd.asset_id s ≡ none
        → Refused cmd s (http not_found (text "Investment"))
    no_wallet :
        (position : Position D)
        → desk.find_position cmd.user_id cmd.asset_id s ≡ some position
        → desk.find_usd_wallet cmd.user_id s ≡ none
        → Refused cmd s (http not_found (text "USD wallet"))
    short :
        (position : Position D) (wallet : UsdWallet D)
        → desk.find_position cmd.user_id cmd.asset_id s ≡ some position
        → desk.find_usd_wallet cmd.user_id s ≡ some wallet
        → f.less (f.number position.quantity) cmd.quantity ≡ true
        → Refused cmd s insufficient_quantity

  reads-Refused :
      (cmd : Sell F) (s : S) {e : Error} → Refused cmd s e → sell_reads desk f cmd s ≡ (err e, s)
  unfolding sell_reads
  reads-Refused cmd s (no_position e1) = rw e1
  reads-Refused cmd s (no_wallet position e1 e2) = rw (e1, e2)
  reads-Refused cmd s (short position wallet e1 e2 less) = rw (e1, e2, less)

  -- A refused sale throws, and writes nothing.
  pub sell_work-Refused :
      (cmd : Sell F) (s : S) (e : Error) → Refused cmd s e → sell_work desk f cmd s ≡ (err e, s)
  unfolding sell_work
  sell_work-Refused cmd s e h =
      bind_err (sell_reads desk f cmd) (sell_writes desk f cmd) s (reads-Refused cmd s h)

module _ {S D F : Type 0} (desk : Desk S D F) (f : Floats D F) (units : D → ℤ) (moved : F → ℤ)
    (balance_of : ℕ → S → Option D) (orders : S → List (Order F)) (finite : F → Bool)
    (law : IsDesk desk units moved balance_of orders finite) where
  -- What is left of a position: the remaining quantity, or nothing where that is not positive.
  abbrev pub Remains : Bool → F → Option (Position D) → Type 0
  Remains true remaining o = (p : Position D) × (o ≡ some p) × (units p.quantity ≡ moved remaining)
  Remains false remaining o = o ≡ none

  -- The columns hold what is left of the position.
  abbrev pub FitsRemaining : Bool → Reduced F → Type 0
  FitsRemaining true x = FitsReduced desk units moved balance_of orders finite x
  FitsRemaining false x = Unit {0}

  -- The data of `investment.update`.
  abbrev pub reduced_to : Quote D → F → Reduced F
  reduced_to asset remaining = record {
    quantity = remaining;
    current_value = f.round2 (f.times remaining (f.number asset.current_price));
  }

  abbrev Reduces : Sell F → F → S → Bool → Type 0
  Reduces cmd remaining s b =
      (s' : S) × (p : Position D) × (reduce desk f cmd (desk.quote_of cmd.asset_id s) remaining s
        ≡ (ok p, s'))
      × Remains b remaining (desk.find_position cmd.user_id cmd.asset_id s')
      × SameBalances desk units moved balance_of orders finite s s'
      × SameOrders desk units moved balance_of orders finite s s'

  reduced :
      (cmd : Sell F) (s : S) (position : Position D) (remaining : F)
      → desk.find_position cmd.user_id cmd.asset_id s ≡ some position
      → FitsRemaining
          (f.is_positive remaining)
          (reduced_to (desk.quote_of cmd.asset_id s) remaining)
      → Reduces cmd remaining s (f.is_positive remaining)
  unfolding reduce
  reduced cmd s position remaining found fits = elim (Bool-cases (f.is_positive remaining)) [
    | inl e ↦
        let (s', p, done, there, quantity, same, kept) =
          law.set_found cmd.user_id cmd.asset_id
            (record {
              quantity = remaining;
              current_value =
                  f.round2
                    (f.times remaining (f.number (desk.quote_of cmd.asset_id s).current_price));
            })
            s position found
            (subst (λ b. FitsRemaining b (reduced_to (desk.quote_of cmd.asset_id s) remaining)) e
              fits) in
        subst (Reduces cmd remaining s) (sym e)
          (s', p, rw (e, reduce) done, (p, there, quantity), same, kept)
    | inr e ↦
        let (s', done, gone, same, kept) =
          law.delete_found cmd.user_id cmd.asset_id s position found in
        subst (Reduces cmd remaining s) (sym e)
          (s', position, rw (e, reduce) done, gone, same, kept)
  ]

  -- A sale by a user with a USD wallet, of no more than the position holds, goes through, where the
  -- columns hold the proceeds, what is left of the position and the new balance: it adds
  -- just the proceeds, the quantity at the current price, to that wallet and to no other, and
  -- leaves the remaining quantity in the position, which is deleted where nothing remains; one order
  -- is recorded, with that quantity and price and the proceeds.
  pub sell_work-Remains :
      (cmd : Sell F) (s : S) (position : Position D) (wallet : UsdWallet D)
      → desk.find_position cmd.user_id cmd.asset_id s ≡ some position
      → desk.find_usd_wallet cmd.user_id s ≡ some wallet
      → f.less (f.number position.quantity) cmd.quantity ≡ false
      → FitsRemaining
          (f.is_positive (remaining_of desk f cmd position))
          (reduced_to (desk.quote_of cmd.asset_id s) (remaining_of desk f cmd position))
      → FitsAmount desk units moved balance_of orders finite
          (proceeds_of desk f cmd (desk.quote_of cmd.asset_id s))
      → IsSound
          (units wallet.balance +ℤ moved (proceeds_of desk f cmd (desk.quote_of cmd.asset_id s)))
      → (s' : S) × (p : Position D) × (d : D) × (sell_work desk f cmd s
          ≡ (ok (p, proceeds_of desk f cmd (desk.quote_of cmd.asset_id s)), s'))
        × (units d
            ≡ units wallet.balance +ℤ moved (proceeds_of desk f cmd (desk.quote_of cmd.asset_id s)))
        × Pays desk units moved balance_of orders finite wallet.id d s s'
        × Remains
            (f.is_positive (remaining_of desk f cmd position))
            (remaining_of desk f cmd position)
            (desk.find_position cmd.user_id cmd.asset_id s')
        × (orders s' ≡ sell_order desk f cmd (desk.quote_of cmd.asset_id s) wallet ∷ orders s)
  unfolding sell_work sell_writes
  sell_work-Remains cmd s position wallet e1 e2 enough fits fits' sound =
      let asset = desk.quote_of cmd.asset_id s in
      let proceeds = proceeds_of desk f cmd asset in
      let remaining = remaining_of desk f cmd position in
      let (s1, p, done1, remains, same1, kept1) = reduced cmd s position remaining e1 fits in
      let (s2, done2, same2, keeps2, added) =
        law.record_order (sell_order desk f cmd asset wallet) s1 fits' in
      let (s3, d, done3, more, pays, keeps3, kept3) =
        law.change_balance wallet.id (increment proceeds) s2 wallet.balance
          (same2 wallet.id ∙ same1 wallet.id ∙ law.stored_wallet cmd.user_id s wallet e2) fits'.0
          sound in
      (
        s3,
        p,
        d,
        bind_from (sell_reads desk f cmd) (sell_writes desk f cmd) s
              (sell_reads_found desk f cmd s position wallet e1 e2 enough)
            ∙ bind_from (reduce desk f cmd asset remaining)
                (λ x.
                  desk.create_order (sell_order desk f cmd asset wallet)
                  >> (desk.update_balance wallet.id (increment proceeds) >> pure (x, proceeds)))
                s done1
            ∙ bind_from (desk.create_order (sell_order desk f cmd asset wallet))
                (λ _. desk.update_balance wallet.id (increment proceeds) >> pure (p, proceeds)) s1
                done2
            ∙ bind_from (desk.update_balance wallet.id (increment proceeds))
                (λ _. pure (p, proceeds)) s2 done3,
        more,
        λ j. pays j ∙ ap (λ o. if wallet.id == j then some d else o) (same2 j ∙ same1 j),
        subst (Remains (f.is_positive remaining) remaining)
            (sym (keeps3 cmd.user_id cmd.asset_id ∙ keeps2 cmd.user_id cmd.asset_id)) remains,
        kept3 ∙ added ∙ ap (λ os. sell_order desk f cmd asset wallet ∷ os) kept1,
      )
