-- ===== src/Wallet/InMemory/Failures.antt =====
-- What a use case that throws leaves behind, and that the webhook has no say in a movement
-- (the `catch` blocks of src/modules/wallet/application and of the in-memory unit of work).
use payflow_x.Prelude.{ℕ, ◌≡◌, ap, ◌⊎◌, Option, inl, inr, arith}
use payflow_x.Prelude.Result.{err}
use payflow_x.Http.{Error, Action}
use payflow_x.Wallet.Ports.{BeneficiarySnapshot, TransactionRecord}
use payflow_x.Wallet.UseCases.{WebhookEvent, App, Command, serve}
use payflow_x.Wallet.UseCases.Outcome.{serve-Failed}
use payflow_x.Wallet.InMemory.{Memory, run, in_memory}

-- Nothing that a client can see has changed.
pub record Unchanged {W : Type 0} (a a' : App Memory W) : Type 0 where
  pub wallets : a'.store.wallets ≡ a.store.wallets
  pub records : a'.store.records ≡ a.store.records
  pub hooks : a'.hooks ≡ a.hooks

run_err :
    (work : Action Memory TransactionRecord) (s : Memory) {e : Error}
    → (run work s).0 ≡ err e
    → ((run work s).1.wallets ≡ s.wallets) × ((run work s).1.records ≡ s.records)
unfolding run
run_err work s h = ground arith

failed :
    {W : Type 0} (a a' : App Memory W) (e : Error)
    → (a'.hooks ≡ a.hooks)
      × ((a'.store ≡ a.store)
          ⊎ ((work : Action Memory TransactionRecord) × ((run work a.store).0 ≡ err e)
              × (a'.store ≡ (run work a.store).1)))
    → Unchanged a a'
failed a a' e (hooks, inl same) = record {
  wallets = ap (λ (s : Memory). s.wallets) same;
  records = ap (λ (s : Memory). s.records) same;
  hooks = hooks;
}
failed a a' e (hooks, inr (work, threw, after)) =
    let (w, r) = run_err work a.store threw in
    record { wallets = rw after w; records = rw after r; hooks = hooks }

-- A call that throws, at whatever step, changes no wallet and no record, and sends no event.
pub serve-Unchanged :
    {W : Type 0} (dispatch : WebhookEvent → Action W (Unit {0})) (uuid : ℕ → ℕ) (now : ℕ)
    (find_active : ℕ → ℕ → Option BeneficiarySnapshot) (c : Command) (a : App Memory W) (e : Error)
    → (serve dispatch (in_memory uuid now) find_active c a).0 ≡ err e
    → Unchanged a (serve dispatch (in_memory uuid now) find_active c a).1
serve-Unchanged dispatch uuid now find_active c a e h =
    failed a (serve dispatch (in_memory uuid now) find_active c a).1 e
      (serve-Failed dispatch (in_memory uuid now) find_active c a e h)
