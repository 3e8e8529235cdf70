-- ===== src/Investments/Racing.antt =====
-- Two purchases beside one another.
use mathlib.Core.Path.{subst}
use payflow_x.Prelude.{
  arith, ℕ, ◌≡◌, refl, sym, ap, ◌∙◌, Bool, true, false, Option, none, some, List, inl, inr,
}
use payflow_x.Prelude.Int.{ℤ, ◌+ℤ◌, ◌-ℤ◌, ltb_ℤ}
use payflow_x.Prelude.Result.{Result, ok, err, Result-cases}
use payflow_x.Http.{Error, Action, pure, bind_from, bind_err, pair_ext, ◌>>=◌, ◌>>◌}
use payflow_x.Floats.{Floats}
use payflow_x.Wallet.Persistence.{decrement}
use payflow_x.Wallet.Persistence.Statements.{IsSound, is_sound}
use payflow_x.Investments.{
  Desk, Order, Buy, Quote, UsdWallet, Position, buy_reads, buy_writes, place, buy_order,
}
use payflow_x.Investments.Statements.{IsDesk, FitsAmount}
use payflow_x.Investments.Buying.{FitsPlaced, buy_reads_found, buy_writes-Purchase, own_if}

both_exceed : (u a b : ℤ) → ltb_ℤ u (a +ℤ b) ≡ true → is_sound (u -ℤ a -ℤ b) ≡ false
unfolding ◌+ℤ◌ ◌-ℤ◌
both_exceed u a b h = ground (arith, h)

module _ {S D F : Type 0} (desk : Desk S D F) (f : Floats D F) (units : D → ℤ) (moved : F → ℤ)
    (balance_of : ℕ → S → Option D) (orders : S → List (Order F)) (finite : F → Bool)
    (law : IsDesk desk units moved balance_of orders finite) where
  place_keeps :
      (cmd : Buy F) (asset : Quote D) (o : Option (Position D)) (s : S) (j : ℕ)
      → balance_of j (place desk f cmd asset o s).1 ≡ balance_of j s
  unfolding place
  place_keeps cmd asset none s j = law.create_keeps cmd.user_id cmd.asset_id _ s j
  place_keeps cmd asset (some old) s j = law.add_keeps cmd.user_id cmd.asset_id _ s j

  -- What a purchase after its position is written, and after its order is recorded too.
  abbrev after_order : Buy F → Quote D × UsdWallet D → Position D → Unit {0} → Action S (Position D)
  after_order cmd rows p u = desk.update_balance rows.1.id (decrement cmd.amount) >> pure p

  abbrev after_place : Buy F → Quote D × UsdWallet D → Position D → Action S (Position D)
  after_place cmd rows p =
      desk.create_order (buy_order desk f cmd rows.0 rows.1) >>= after_order cmd rows p

  -- Throws, and the balance of the wallet is as it was.
  abbrev Fails : Buy F → Quote D × UsdWallet D → D → Result Error (Position D) × S → Type 0
  Fails cmd rows d r = (e : Error) × (r.0 ≡ err e) × (balance_of rows.1.id r.1 ≡ some d)

  order-Fails :
      (cmd : Buy F) (rows : Quote D × UsdWallet D) (p : Position D) (d : D) (s : S)
      → balance_of rows.1.id s ≡ some d
      → is_sound (units d -ℤ moved cmd.amount) ≡ false
      → Fails cmd rows d (after_place cmd rows p s)
  order-Fails cmd rows p d s at unsound =
      let m = desk.create_order (buy_order desk f cmd rows.0 rows.1) in
      let at' = law.order_keeps (buy_order desk f cmd rows.0 rows.1) s rows.1.id ∙ at in
      elim (Result-cases (m s).0) [
        | inr (e, failed) ↦
            subst (Fails cmd rows d)
              (sym (bind_err m (after_order cmd rows p) s (pair_ext (m s) failed refl)))
              (e, refl, at')
        | inl (u, done) ↦
            let (e, failed) =
              law.change_unsound rows.1.id (decrement cmd.amount) (m s).1 d at' unsound in
            subst (Fails cmd rows d)
              (sym (
                bind_from m (after_order cmd rows p) s (pair_ext (m s) done refl)
                ∙ bind_err (desk.update_balance rows.1.id (decrement cmd.amount)) (λ _. pure p)
                    (m s).1 failed))
              (e, refl, at')
      ]

  buy_writes-Fails :
      (cmd : Buy F) (rows : Quote D × UsdWallet D) (d : D) (s : S)
      → balance_of rows.1.id s ≡ some d
      → is_sound (units d -ℤ moved cmd.amount) ≡ false
      → Fails cmd rows d (buy_writes desk f cmd rows s)
  unfolding buy_writes
  buy_writes-Fails cmd rows d s at unsound =
      let o = desk.find_position cmd.user_id cmd.asset_id s in
      let m = place desk f cmd rows.0 o in
      let at' = place_keeps cmd rows.0 o s rows.1.id ∙ at in
      elim (Result-cases (m s).0) [
        | inr (e, failed) ↦
            subst (Fails cmd rows d)
              (sym (bind_err m (after_place cmd rows) s (pair_ext (m s) failed refl)))
              (e, refl, at')
        | inl (p, done) ↦
            subst (Fails cmd rows d)
              (sym (bind_from m (after_place cmd rows) s (pair_ext (m s) done refl)))
              (order-Fails cmd rows p d (m s).1 at' unsound)
      ]

  -- Two purchases of one user that both pass their test before either writes, as READ COMMITTED
  -- lets them, and whose amounts together exceed the balance: where the columns hold what the first
  -- one writes, it goes through and takes its amount, and the writes of the second, which has passed
  -- the test of the balance, throw and leave the balance as the first has left it.
  pub second_buy_fails :
      (cmd cmd' : Buy F) (s : S) (asset asset' : Quote D) (wallet : UsdWallet D)
      → desk.find_asset cmd.asset_id s ≡ some asset
      → desk.find_asset cmd'.asset_id s ≡ some asset'
      → desk.find_usd_wallet cmd.user_id s ≡ some wallet
      → cmd'.user_id ≡ cmd.user_id
      → f.less (f.number wallet.balance) cmd.amount ≡ false
      → f.less (f.number wallet.balance) cmd'.amount ≡ false
      → FitsPlaced desk f units moved balance_of orders finite law cmd asset
          (desk.find_position cmd.user_id cmd.asset_id s)
      → FitsAmount desk units moved balance_of orders finite cmd.amount
      → IsSound (units wallet.balance -ℤ moved cmd.amount)
      → ltb_ℤ (units wallet.balance) (moved cmd.amount +ℤ moved cmd'.amount) ≡ true
      → (s1 : S) × (p : Position D) × (d : D) × (e : Error) × (buy_reads desk f cmd s
          ≡ (ok (asset, wallet), s))
        × (buy_reads desk f cmd' s ≡ (ok (asset', wallet), s))
        × (buy_writes desk f cmd (asset, wallet) s ≡ (ok p, s1))
        × (balance_of wallet.id s1 ≡ some d)
        × (units d ≡ units wallet.balance -ℤ moved cmd.amount)
        × ((buy_writes desk f cmd' (asset', wallet) s1).0 ≡ err e)
        × (balance_of wallet.id (buy_writes desk f cmd' (asset', wallet) s1).1 ≡ some d)
  second_buy_fails cmd cmd' s asset asset' wallet e1 e1' e2 same enough enough' fits fits' sound
        exceeds =
      let (s1, p, done, (d, less, pays, there, quantity, recorded)) =
        buy_writes-Purchase desk f units moved balance_of orders finite law cmd (asset, wallet)
          wallet.balance s (law.stored_wallet cmd.user_id s wallet e2) fits fits' sound in
      let at : balance_of wallet.id s1 ≡ some d = pays wallet.id ∙ own_if wallet.id (some d) _ in
      let unsound : is_sound (units d -ℤ moved cmd'.amount) ≡ false =
        ap (λ u. is_sound (u -ℤ moved cmd'.amount)) less
        ∙ both_exceed (units wallet.balance) (moved cmd.amount) (moved cmd'.amount) exceeds in
      let (e, failed, kept) = buy_writes-Fails cmd' (asset', wallet) d s1 at unsound in
      (
        s1,
        p,
        d,
        e,
        buy_reads_found desk f units moved balance_of orders finite law cmd s asset wallet e1 e2
            enough,
        buy_reads_found desk f units moved balance_of orders finite law cmd' s asset' wallet e1'
            (ap (λ u. desk.find_usd_wallet u s) same ∙ e2) enough',
        done,
        at,
        less,
        failed,
        kept,
      )
