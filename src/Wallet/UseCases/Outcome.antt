-- ===== src/Wallet/UseCases/Outcome.antt =====
-- How a call of the wallet service ends, over any unit of work: the webhook goes out exactly when the
-- work has committed, and has no say in the result.
use payflow_x.Prelude.{ℕ, ◌≡◌, refl, ap, ◌⊎◌, Option, inl, inr, Option-cases}
use payflow_x.Prelude.Result.{Result, ok, err, Result-cases}
use payflow_x.Text.{Text}
use payflow_x.Amount.{Currency}
use payflow_x.Http.{Error, Action}
use payflow_x.Wallet.Ports.{BeneficiarySnapshot, TransactionRecord, UnitOfWork}
use payflow_x.Wallet.Boundary.{to_money}
use payflow_x.Wallet.UseCases.{
  EventType, WebhookEvent, App, finish, Command, deposit_money, withdraw_money, send_money, serve,
  execute_deposit, execute_withdraw, execute_send, deposit_work, withdraw_work, send_work,
}

module _ {S W : Type 0} (dispatch : WebhookEvent → Action W (Unit {0})) (u : UnitOfWork S)
    (find_active : ℕ → ℕ → Option BeneficiarySnapshot) where
  -- The call was refused before its unit of work began, or was handed over to one.
  data Ends (a : App S W) : Result Error TransactionRecord × App S W → Type 0 where
    refused : (e : Error) → Ends a (err e, a)
    worked :
        (work : Action S TransactionRecord) (type : EventType) (user_id : ℕ) (amount : Text)
        (c : Currency)
        → Ends a (finish dispatch type user_id amount c (u.run work a.store) a.hooks)

  serve-Ends : (c : Command) (a : App S W) → Ends a (serve dispatch u find_active c a)
  unfolding serve execute_deposit execute_withdraw execute_send
  serve-Ends (deposit_money cmd) a = elim (Result-cases (to_money cmd.amount cmd.currency)) [
    | inl (m, em) ↦ rw em (worked (deposit_work u.tx cmd m) _ _ _ _)
    | inr (x, em) ↦ rw em (refused x)
  ]
  serve-Ends (withdraw_money cmd) a = elim (Result-cases (to_money cmd.amount cmd.currency)) [
    | inl (m, em) ↦ rw em (worked (withdraw_work u.tx cmd m) _ _ _ _)
    | inr (x, em) ↦ rw em (refused x)
  ]
  serve-Ends (send_money cmd) a = elim (Option-cases (find_active cmd.user_id cmd.beneficiary_id)) [
    | inl missing ↦ rw missing (refused _)
    | inr (b, found) ↦ rw found (elim (Result-cases (to_money cmd.amount b.currency)) [
      | inl (m, em) ↦ rw em (worked (send_work u.tx cmd b m) _ _ _ _)
      | inr (x, em) ↦ rw em (refused x)
    ])
  ]

  -- What a call that throws leaves: the state as it was, or what its unit of work leaves when it
  -- throws that error.
  abbrev pub Failed : App S W → Error → App S W → Type 0
  Failed a e a' =
      (a'.hooks ≡ a.hooks)
      × ((a'.store ≡ a.store)
          ⊎ ((work : Action S TransactionRecord) × ((u.run work a.store).0 ≡ err e)
              × (a'.store ≡ (u.run work a.store).1)))

  finish_err :
      (type : EventType) (user_id : ℕ) (amount : Text) (c : Currency)
      (p : Result Error TransactionRecord × S) (w : W) {e : Error}
      → (finish dispatch type user_id amount c p w).0 ≡ err e
      → (p.0 ≡ err e)
        × ((finish dispatch type user_id amount c p w).1 ≡ record { store = p.1; hooks = w })
  unfolding finish
  finish_err type user_id amount c (ok t, s) w h = cc
  finish_err type user_id amount c (err x, s) w h = (h, refl)

  Ends-Failed :
      {a : App S W} {r : Result Error TransactionRecord × App S W} (e : Error)
      → Ends a r
      → r.0 ≡ err e
      → Failed a e r.1
  Ends-Failed e (refused x) h = (refl, inl refl)
  Ends-Failed {a} e (worked work type user_id amount c) h =
      let (he, ha) = finish_err type user_id amount c (u.run work a.store) a.hooks h in
      (ap (λ (b : App S W). b.hooks) ha, inr (work, he, ap (λ (b : App S W). b.store) ha))

  -- A call that throws sends no event, and leaves the store as it was or as the failed unit of work
  -- left it.
  pub serve-Failed :
      (c : Command) (a : App S W) (e : Error)
      → (serve dispatch u find_active c a).0 ≡ err e
      → Failed a e (serve dispatch u find_active c a).1
  serve-Failed c a e h = Ends-Failed e (serve-Ends c a) h

finish_same :
    {S W : Type 0} (d d' : WebhookEvent → Action W (Unit {0})) (type : EventType) (user_id : ℕ)
    (amount : Text) (c : Currency) (p : Result Error TransactionRecord × S) (w : W)
    → ((finish d type user_id amount c p w).0 ≡ (finish d' type user_id amount c p w).0)
      × ((finish d type user_id amount c p w).1.store
          ≡ (finish d' type user_id amount c p w).1.store)
unfolding finish
finish_same d d' type user_id amount c (ok t, s) w = (refl, refl)
finish_same d d' type user_id amount c (err e, s) w = (refl, refl)

-- Whatever the webhook service does with the event, and also if it throws, the caller gets the same
-- answer and the store is the same.
pub serve_any_dispatch :
    {S W : Type 0} (d d' : WebhookEvent → Action W (Unit {0})) (u : UnitOfWork S)
    (find_active : ℕ → ℕ → Option BeneficiarySnapshot) (c : Command) (a : App S W)
    → ((serve d u find_active c a).0 ≡ (serve d' u find_active c a).0)
      × ((serve d u find_active c a).1.store ≡ (serve d' u find_active c a).1.store)
unfolding serve execute_deposit execute_withdraw execute_send
serve_any_dispatch d d' u find_active (deposit_money cmd) a =
    elim (Result-cases (to_money cmd.amount cmd.currency)) [
      | inl (m, em) ↦
          rw em (finish_same d d' _ _ _ _ (u.run (deposit_work u.tx cmd m) a.store) a.hooks)
      | inr (x, em) ↦ rw em (refl, refl)
    ]
serve_any_dispatch d d' u find_active (withdraw_money cmd) a =
    elim (Result-cases (to_money cmd.amount cmd.currency)) [
      | inl (m, em) ↦
          rw em (finish_same d d' _ _ _ _ (u.run (withdraw_work u.tx cmd m) a.store) a.hooks)
      | inr (x, em) ↦ rw em (refl, refl)
    ]
serve_any_dispatch d d' u find_active (send_money cmd) a =
    elim (Option-cases (find_active cmd.user_id cmd.beneficiary_id)) [
      | inl missing ↦ rw missing (refl, refl)
      | inr (b, found) ↦ rw found (elim (Result-cases (to_money cmd.amount b.currency)) [
        | inl (m, em) ↦
            rw em (finish_same d d' _ _ _ _ (u.run (send_work u.tx cmd b m) a.store) a.hooks)
        | inr (x, em) ↦ rw em (refl, refl)
      ])
    ]

-- The store after a movement is the store that its unit of work left.
pub store-finish :
    {S W : Type 0} (d : WebhookEvent → Action W (Unit {0})) (type : EventType) (user_id : ℕ)
    (amount : Text) (c : Currency) (p : Result Error TransactionRecord × S) (w : W)
    → (finish d type user_id amount c p w).1.store ≡ p.1
unfolding finish
store-finish d type user_id amount c (ok t, s) w = refl
store-finish d type user_id amount c (err e, s) w = refl
