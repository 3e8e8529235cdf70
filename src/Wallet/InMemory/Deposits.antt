-- ===== src/Wallet/InMemory/Deposits.antt =====
-- Deposits (src/modules/wallet/application/deposit.service.ts) on the in-memory unit of work.
use payflow_x.Prelude.{ℕ, ◌≡◌, refl, ap, inl, inr, false, some, arith}
use payflow_x.Prelude.Result.{ok, Result-cases}
use payflow_x.Prelude.Int.{is_negative}
use payflow_x.Money.{Money, add}
use payflow_x.Wallet.Ports.{TransactionRecord, deposit}
use payflow_x.Wallet.UseCases.{Movement, deposit_work}
use payflow_x.Wallet.InMemory.{
  StoredWallet, Memory, get_wallet, wallet_of, to_snapshot, credit, find_or_create_empty, create,
  run, repositories,
}
use payflow_x.Wallet.InMemory.Contract.{
  IsValid, IsSane-get, view, IsInjective, opened, opened_memory, find_or_create_empty-eq,
  opened-Opens,
}
use payflow_x.Wallet.InMemory.Settling.{
  run_ok, settled, Records, held, Settles, held-wallet_of, settle, sum-IsSane,
}

module _ (uuid : ℕ → ℕ) (now : ℕ) where
  -- The work of a deposit on an opened wallet, when it returns.
  deposit_work_ok :
      (cmd : Movement) (m : Money) (s s' : Memory) (w : StoredWallet) (s1 : Memory)
      {t : TransactionRecord}
      → find_or_create_empty uuid now cmd.user_id cmd.currency s ≡ (ok (to_snapshot w), s1)
      → get_wallet w.id s1.wallets ≡ some w
      → deposit_work (repositories uuid now) cmd m s ≡ (ok t, s')
      → (b : Money) × (add w.balance m ≡ ok b) × (s' ≡ settled s1 w b t) × Records t deposit w.id m
  unfolding deposit_work credit create
  deposit_work_ok cmd m s s' w s1 e g h = elim (Result-cases (add w.balance m)) [
    | inl (b, eb) ↦ (b, eb, ground arith, ground arith)
    | inr (x, ex) ↦ absurd (ground arith)
  ]

  module _ (inj : IsInjective uuid) where
    -- A deposit that returns has added exactly the amount to the owner's balance, opening the wallet
    -- if there was none, and appended one record of it. No other balance has changed.
    pub deposit-Settles :
        (cmd : Movement) (m : Money) (s s' : Memory) {t : TransactionRecord}
        → IsValid uuid s
        → is_negative m.ledger_units ≡ false
        → run (deposit_work (repositories uuid now) cmd m) s ≡ (ok t, s')
        → (b : Money) × (add (held (view s cmd.user_id cmd.currency) cmd.currency).0 m ≡ ok b)
          × Settles uuid now s cmd.user_id cmd.currency b t s'
          × Records t deposit t.wallet_id m
    deposit-Settles cmd m s s' {t} h n e =
        let o = wallet_of cmd.user_id cmd.currency s.wallets in
        let w = opened uuid now o cmd.user_id cmd.currency s in
        let s1 = opened_memory uuid now o cmd.user_id cmd.currency s in
        let op = opened-Opens uuid now cmd.user_id cmd.currency s o inj h refl in
        let v = held-wallet_of uuid now cmd.user_id cmd.currency s o refl in
        let (b, eb, es, rec) =
          deposit_work_ok cmd m s s' w s1
            (find_or_create_empty-eq uuid now cmd.user_id cmd.currency s o refl) op.found
            (run_ok (deposit_work (repositories uuid now) cmd m) s s' e) in
        let sane =
          sum-IsSane uuid now w m b (IsSane-get w.id w s1.wallets op.valid.sane op.found) n eb in
        (
          b,
          rw (← (ap (λ (p : Money × ℕ). p.0) v)) eb,
          settle uuid now cmd.user_id cmd.currency s w s1 s' b t op v sane es,
          record {
            of_type = rec.of_type;
            of_wallet = refl;
            of_amount = rec.of_amount;
            of_currency = rec.of_currency;
            is_completed = rec.is_completed;
          },
        )
