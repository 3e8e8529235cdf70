-- ===== src/Wallet/InMemory/Histories.antt =====
-- Every history of calls keeps the memory valid: distinct wallets, and balances in their own
-- currency, never negative and below the ceiling.
use payflow_x.Prelude.{
  ℕ, ◌≤◌, ◌≡◌, refl, true, false, Option, List, [], ◌∷◌, inl, inr, arith, Option-cases,
}
use payflow_x.Prelude.Result.{Result, ok, err, Result-cases}
use payflow_x.Prelude.Lists.{All}
use payflow_x.Prelude.Int.{is_negative}
use payflow_x.Text.{Text}
use payflow_x.Amount.{Currency}
use payflow_x.Money.{Money}
use payflow_x.Money.Precision.{matches_dto, of_dto_nonneg}
use payflow_x.Http.{Error, Action}
use payflow_x.Wallet.Ports.{BeneficiarySnapshot, TransactionRecord}
use payflow_x.Wallet.Boundary.{to_money}
use payflow_x.Wallet.UseCases.{
  Movement, Sending, WebhookEvent, App, Command, deposit_money, withdraw_money, send_money, serve,
  serve_all, execute_deposit, execute_withdraw, execute_send, deposit_work, withdraw_work,
  send_work, debit_wallet,
}
use payflow_x.Wallet.UseCases.Outcome.{store-finish}
use payflow_x.Wallet.InMemory.{
  Memory, run, in_memory, repositories, credit, debit, create, find_or_create_empty,
  find_by_user_and_currency,
}
use payflow_x.Wallet.InMemory.Contract.{IsValid, IsInjective}
use payflow_x.Wallet.InMemory.Deposits.{deposit-Settles}
use payflow_x.Wallet.InMemory.Debits.{withdraw-Debited, send-Debited}

-- The amount of a call has passed the validation of its request.
abbrev pub IsValidated : Command → Type 0
IsValidated (deposit_money cmd) = matches_dto cmd.amount ≡ true
IsValidated (withdraw_money cmd) = matches_dto cmd.amount ≡ true
IsValidated (send_money cmd) = matches_dto cmd.amount ≡ true

to_money_nonneg :
    (raw : Text) (c : Currency) {m : Money}
    → matches_dto raw ≡ true
    → to_money raw c ≡ ok m
    → is_negative m.ledger_units ≡ false
unfolding to_money
to_money_nonneg raw c {m} h e = of_dto_nonneg raw c {m = m} h (ground arith)

module _ (uuid : ℕ → ℕ) (now : ℕ) where
  drawn-deposit :
      (cmd : Movement) (m : Money) (s : Memory)
      → s.drawn ≤ (deposit_work (repositories uuid now) cmd m s).1.drawn
  unfolding deposit_work find_or_create_empty credit create
  drawn-deposit cmd m s = ground arith

  drawn-withdraw :
      (cmd : Movement) (m : Money) (s : Memory)
      → s.drawn ≤ (withdraw_work (repositories uuid now) cmd m s).1.drawn
  unfolding withdraw_work debit_wallet find_by_user_and_currency debit create
  drawn-withdraw cmd m s = ground arith

  drawn-send :
      (cmd : Sending) (b : BeneficiarySnapshot) (m : Money) (s : Memory)
      → s.drawn ≤ (send_work (repositories uuid now) cmd b m s).1.drawn
  unfolding send_work debit_wallet find_by_user_and_currency debit create
  drawn-send cmd b m s = ground arith

  -- A unit of work keeps the memory valid if its work does when it returns.
  restored-IsValid :
      (work : Action Memory TransactionRecord) (s : Memory)
      (r : Result Error TransactionRecord × Memory)
      → run work s ≡ r
      → IsValid uuid s
      → s.drawn ≤ (work s).1.drawn
      → ((t : TransactionRecord) (s' : Memory) → run work s ≡ (ok t, s') → IsValid uuid s')
      → IsValid uuid r.1
  unfolding run
  restored-IsValid work s (ok t, s') e h d k = k t s' e
  restored-IsValid work s (err x, s') e h d k =
      let w : s'.wallets ≡ s.wallets = ground arith in
      let le : s.drawn ≤ s'.drawn = ground arith in
      record {
        keyed = rw w h.keyed;
        fresh = λ n far. rw w (h.fresh n (omega arith));
        sane = rw w h.sane;
      }

  module _ {W : Type 0} (inj : IsInjective uuid) (dispatch : WebhookEvent → Action W (Unit {0}))
      (find_active : ℕ → ℕ → Option BeneficiarySnapshot) where
    -- A call whose amount was validated keeps the memory valid, whether it returns or throws.
    pub serve-IsValid :
        (c : Command) (a : App Memory W)
        → IsValidated c
        → IsValid uuid a.store
        → IsValid uuid (serve dispatch (in_memory uuid now) find_active c a).1.store
    unfolding serve execute_deposit execute_withdraw execute_send
    serve-IsValid (deposit_money cmd) a v h =
        elim (Result-cases (to_money cmd.amount cmd.currency)) [
          | inl (m, em) ↦
              let work = deposit_work (repositories uuid now) cmd m in
              rw (em, store-finish)
                (restored-IsValid work a.store (run work a.store) refl h
                  (drawn-deposit cmd m a.store)
                  (λ t s' e.
                    (deposit-Settles uuid now inj cmd m a.store s' h
                      (to_money_nonneg cmd.amount cmd.currency v em) e).2.valid))
          | inr (x, em) ↦ rw em h
        ]
    serve-IsValid (withdraw_money cmd) a v h =
        elim (Result-cases (to_money cmd.amount cmd.currency)) [
          | inl (m, em) ↦
              let work = withdraw_work (repositories uuid now) cmd m in
              rw (em, store-finish)
                (restored-IsValid work a.store (run work a.store) refl h
                  (drawn-withdraw cmd m a.store)
                  (λ t s' e. (withdraw-Debited uuid now inj cmd m a.store s' h e).0.settles.valid))
          | inr (x, em) ↦ rw em h
        ]
    serve-IsValid (send_money cmd) a v h =
        elim (Option-cases (find_active cmd.user_id cmd.beneficiary_id)) [
          | inl missing ↦ rw missing h
          | inr (b, found) ↦ rw found (elim (Result-cases (to_money cmd.amount b.currency)) [
            | inl (m, em) ↦
                let work = send_work (repositories uuid now) cmd b m in
                rw (em, store-finish)
                  (restored-IsValid work a.store (run work a.store) refl h
                    (drawn-send cmd b m a.store)
                    (λ t s' e. (send-Debited uuid now inj cmd b m a.store s' h e).0.settles.valid))
            | inr (x, em) ↦ rw em h
          ])
        ]

    -- From a valid memory, after any sequence of calls with validated amounts, some of which may
    -- throw, the memory is valid: no balance is negative, at the ceiling or in another currency, and
    -- no owner has two wallets in one currency.
    pub serve_all-IsValid :
        (cs : List Command) (a : App Memory W)
        → All IsValidated cs
        → IsValid uuid a.store
        → IsValid uuid (serve_all dispatch (in_memory uuid now) find_active cs a).store
    unfolding serve_all
    serve_all-IsValid [] a v h = h
    serve_all-IsValid (c ∷ cs) a v h =
        serve_all-IsValid cs (serve dispatch (in_memory uuid now) find_active c a).1 v.1
          (serve-IsValid c a v.0 h)
