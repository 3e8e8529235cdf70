-- ===== src/Wallet/InMemory/Debits.antt =====
-- Withdrawals and transfers (withdraw.service.ts and send.service.ts of
-- src/modules/wallet/application) on the in-memory unit of work.
use payflow_x.Prelude.{
  ℕ, ◌+◌, ◌≡◌, refl, ◌∙◌, ap, inl, inr, false, none, some, [], ◌∷◌, ◌++◌, arith, Option-cases,
}
use payflow_x.Prelude.Result.{Result, ok, Result-cases}
use payflow_x.Amount.{Currency}
use payflow_x.Money.{Money, subtract, is_less_than}
use payflow_x.Http.{Error, Action, ◌>>=◌, bind_ok}
use payflow_x.Wallet.Ports.{
  WalletSnapshot, TransactionRecord, NewTransaction, withdrawal, transfer, completed,
  BeneficiarySnapshot, withdrawn, sent_to,
}
use payflow_x.Wallet.UseCases.{
  Movement, Sending, withdraw_work, send_work, debit_wallet, or_default,
}
use payflow_x.Wallet.InMemory.{
  StoredWallet, Memory, get_wallet, set_wallet, wallet_of, debit, find_by_user_and_currency, create,
  record_of, run, repositories,
}
use payflow_x.Wallet.InMemory.Stored.{get_wallet-wallet_of}
use payflow_x.Wallet.InMemory.Contract.{IsValid, IsSane-get, view, moved, IsInjective, opened-Opens}
use payflow_x.Wallet.InMemory.Settling.{
  create_ok, run_ok, settled, Records, Settles, held-wallet_of, settle, difference-IsSane,
}

module _ (uuid : ℕ → ℕ) (now : ℕ) where
  -- A debit that returns found the wallet, held at least the amount, and wrote the difference.
  debit_wallet_ok :
      (u : ℕ) (c : Currency) (m : Money) (s s1 : Memory) (w : StoredWallet) {x : WalletSnapshot}
      → wallet_of u c s.wallets ≡ some w
      → get_wallet w.id s.wallets ≡ some w
      → debit_wallet (repositories uuid now) u c m s ≡ (ok x, s1)
      → (b : Money) × (subtract w.balance m ≡ ok b)
        × (is_less_than w.balance m ≡ ok false)
        × (s1 ≡ record s { wallets = set_wallet (moved w b) s.wallets })
        × (x.id ≡ w.id)
  unfolding debit_wallet debit find_by_user_and_currency
  debit_wallet_ok u c m s s1 w e g h = elim (Result-cases (subtract w.balance m)) [
    | inl (b, eb) ↦ (b, eb, ground arith, ground arith, ground arith)
    | inr (x, ex) ↦ absurd (ground arith)
  ]

  -- A user without the wallet cannot be debited.
  not-debit_wallet :
      (u : ℕ) (c : Currency) (m : Money) (s s1 : Memory) {x : WalletSnapshot}
      → wallet_of u c s.wallets ≡ none
      → debit_wallet (repositories uuid now) u c m s ≡ (ok x, s1)
      → ⊥
  unfolding debit_wallet find_by_user_and_currency
  not-debit_wallet u c m s s1 e h = ground arith

  -- What a debit and its record leave: the owner held `before`, at least the amount, and now holds
  -- the difference.
  pub record Debited (s : Memory) (u : ℕ) (c : Currency) (m : Money) (t : TransactionRecord)
      (s' : Memory) : Type 0 where
    pub before : Money
    pub version : ℕ
    pub after : Money
    pub holds : view s u c ≡ some (before, version)
    pub covered : is_less_than before m ≡ ok false
    pub subtracted : subtract before m ≡ ok after
    pub settles : Settles uuid now s u c after t s'

  module _ (inj : IsInjective uuid) where
    debited :
        (u : ℕ) (c : Currency) (m : Money) (s s1 s' : Memory) (w : StoredWallet)
        (t : TransactionRecord)
        → IsValid uuid s
        → wallet_of u c s.wallets ≡ some w
        → (b : Money) → subtract w.balance m ≡ ok b
        → is_less_than w.balance m ≡ ok false
        → s' ≡ settled s w b t
        → Debited s u c m t s'
    debited u c m s s1 s' w t h e b eb short es =
        let op = opened-Opens uuid now u c s (some w) inj h e in
        let sane =
          difference-IsSane uuid now w m b (IsSane-get w.id w s.wallets h.sane op.found) short eb in
        record {
          before = w.balance;
          version = w.version;
          after = b;
          holds = rw e;
          covered = short;
          subtracted = eb;
          settles =
              settle uuid now u c s w s s' b t op (held-wallet_of uuid now u c s (some w) e) sane
                es;
        }

    -- The work of a withdrawal or a transfer: a debit, and the record that `input` makes of its wallet.
    abbrev debit_and_record :
        ℕ → Currency → Money → (WalletSnapshot → NewTransaction) → Action Memory TransactionRecord
    debit_and_record u c m input =
        debit_wallet (repositories uuid now) u c m >>= λ x. create uuid now (input x)

    debit_and_record-Debited :
        (u : ℕ) (c : Currency) (m : Money) (input : WalletSnapshot → NewTransaction) (s s' : Memory)
        {t : TransactionRecord}
        → IsValid uuid s
        → run (debit_and_record u c m input) s ≡ (ok t, s')
        → Debited s u c m t s'
          × ((x : WalletSnapshot) × (s1 : Memory) × (t ≡ record_of uuid now (input x) s1))
    debit_and_record-Debited u c m input s s' {t} h e =
        let work = debit_and_record u c m input in
        let (x, ex, ec) =
          bind_ok (debit_wallet (repositories uuid now) u c m) (λ x. create uuid now (input x)) s
            (run_ok work s s' e) in
        let s1 = (debit_wallet (repositories uuid now) u c m s).1 in
        let (es, et) = create_ok uuid now (input x) s1 s' ec in
        let whole : debit_wallet (repositories uuid now) u c m s ≡ (ok x, s1) =
          ap (λ (r : Result Error WalletSnapshot). (r, s1)) ex in
        elim (Option-cases (wallet_of u c s.wallets)) [
          | inl missing ↦ absurd (not-debit_wallet u c m s s1 missing whole)
          | inr (w, found) ↦
              let g = get_wallet-wallet_of u c s.wallets h.keyed found in
              let (b, eb, short, es1, i) = debit_wallet_ok u c m s s1 w found g whole in
              (
                debited u c m s s1 s' w t h found b eb short (
                    es
                    ∙ ap
                        (λ (q : Memory). record q {
                          records = q.records ++ t ∷ [];
                          drawn = q.drawn + 1;
                        })
                        es1),
                (x, s1, et),
              )
        ]

    -- A withdrawal that returns found a wallet that held at least the amount, and has taken exactly
    -- the amount from it; nothing else has changed, and one record is appended.
    pub withdraw-Debited :
        (cmd : Movement) (m : Money) (s s' : Memory) {t : TransactionRecord}
        → IsValid uuid s
        → run (withdraw_work (repositories uuid now) cmd m) s ≡ (ok t, s')
        → Debited s cmd.user_id cmd.currency m t s' × Records t withdrawal t.wallet_id m
    unfolding withdraw_work
    withdraw-Debited cmd m s s' {t} h e =
        let (d, r) =
          debit_and_record-Debited cmd.user_id cmd.currency m
            (λ x. record {
              wallet_id = x.id;
              type = withdrawal;
              status = completed;
              amount = m;
              description = or_default cmd.description (withdrawn cmd.currency);
              metadata = none;
            })
            s s' h e in
        (
          d,
          rw r.2 (record {
            of_type = refl;
            of_wallet = refl;
            of_amount = refl;
            of_currency = refl;
            is_completed = refl;
          }),
        )

    -- From a valid memory, a transfer to a beneficiary that returns found the owner's wallet in the
    -- beneficiary's currency, which held at least the amount, and has taken exactly the amount from
    -- it; nothing else has changed, and one record is appended, which names the beneficiary.
    pub send-Debited :
        (cmd : Sending) (to : BeneficiarySnapshot) (m : Money) (s s' : Memory)
        {t : TransactionRecord}
        → IsValid uuid s
        → run (send_work (repositories uuid now) cmd to m) s ≡ (ok t, s')
        → Debited s cmd.user_id to.currency m t s'
          × Records t transfer t.wallet_id m
          × (t.metadata ≡ some to)
    unfolding send_work
    send-Debited cmd to m s s' {t} h e =
        let (d, r) =
          debit_and_record-Debited cmd.user_id to.currency m
            (λ x. record {
              wallet_id = x.id;
              type = transfer;
              status = completed;
              amount = m;
              description = sent_to to.alias;
              metadata = some to;
            })
            s s' h e in
        (
          d,
          rw r.2 (record {
            of_type = refl;
            of_wallet = refl;
            of_amount = refl;
            of_currency = refl;
            is_completed = refl;
          }),
          rw r.2 refl,
        )
