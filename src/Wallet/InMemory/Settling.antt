-- ===== src/Wallet/InMemory/Settling.antt =====
-- What a movement on one wallet leaves of the memory, whichever use case makes it.
use payflow_x.Prelude.{
  ℕ, ◌+◌, ◌≡◌, refl, ap, false, ◌&&◌, Option, none, some, [], ◌∷◌, ◌++◌, arith, ◌==◌, if◌then◌else◌,
}
use payflow_x.Prelude.Result.{ok}
use payflow_x.Prelude.Int.{ℤ, is_negative, ◌+ℤ◌, ◌-ℤ◌, ltb_ℤ}
use payflow_x.Amount.{Currency, same_currency}
use payflow_x.Money.{Money, zero_money, add, subtract, is_less_than, to_string, from_units}
use payflow_x.Money.Ceiling.{sum, difference, make, make-IsBelowCeiling}
use payflow_x.Http.{Action}
use payflow_x.Wallet.Ports.{TransactionRecord, NewTransaction, TransactionType, completed}
use payflow_x.Wallet.InMemory.{StoredWallet, Memory, set_wallet, wallet_of, create, record_of, run}
use payflow_x.Wallet.InMemory.Stored.{wallet_of-set, Fits-changed}
use payflow_x.Wallet.InMemory.Contract.{
  IsValid, IsSane, view, shown, moved, moved-IsValid, opened, Opens,
}

-- The sum and the difference keep the currency.
pub add_parts :
    (a b : Money) {m : Money}
    → add a b ≡ ok m
    → (m.currency ≡ a.currency) × (m.ledger_units ≡ a.ledger_units +ℤ b.ledger_units)
unfolding add from_units
add_parts a b h = ground arith

pub subtract_parts :
    (a b : Money) {m : Money}
    → subtract a b ≡ ok m
    → (m.currency ≡ a.currency) × (m.ledger_units ≡ a.ledger_units -ℤ b.ledger_units)
unfolding subtract from_units
subtract_parts a b h = ground arith

-- The parts of a store that `create` adds to.
pub create_ok :
    (uuid : ℕ → ℕ) (now : ℕ) (input : NewTransaction) (s s' : Memory) {t : TransactionRecord}
    → create uuid now input s ≡ (ok t, s')
    → (s' ≡ record s { records = s.records ++ t ∷ []; drawn = s.drawn + 1 })
      × (t ≡ record_of uuid now input s)
unfolding create
create_ok uuid now input s s' h = ground arith

pub run_ok :
    (work : Action Memory TransactionRecord) (s s' : Memory) {t : TransactionRecord}
    → run work s ≡ (ok t, s')
    → work s ≡ (ok t, s')
unfolding run
run_ok work s s' h = ground arith

+ℤ-nonneg : (a b : ℤ) → is_negative a ≡ false → is_negative b ≡ false → is_negative (a +ℤ b) ≡ false
unfolding ◌+ℤ◌
+ℤ-nonneg a b ha hb = ground arith

-ℤ-nonneg : (a b : ℤ) → is_negative a ≡ false → ltb_ℤ a b ≡ false → is_negative (a -ℤ b) ≡ false
unfolding ◌-ℤ◌
-ℤ-nonneg a b ha hb = ground arith

-- What is left of a memory when a wallet got a new balance and a record was added.
abbrev pub settled : Memory → StoredWallet → Money → TransactionRecord → Memory
settled s w b t = record s {
  wallets = set_wallet (moved w b) s.wallets;
  records = s.records ++ t ∷ [];
  drawn = s.drawn + 1;
}

-- The record that a use case answers with.
pub record Records (t : TransactionRecord) (type : TransactionType) (w : ℕ) (m : Money)
    : Type 0 where
  pub of_type : t.type ≡ type
  pub of_wallet : t.wallet_id ≡ w
  pub of_amount : t.amount ≡ to_string m
  pub of_currency : t.currency ≡ m.currency
  pub is_completed : t.status ≡ completed

-- The balance and version that an owner holds; a wallet that is opened starts at zero, version 1.
abbrev pub held : Option (Money × ℕ) → Currency → Money × ℕ
held none c = (zero_money c, 1)
held (some h) c = h

module _ (uuid : ℕ → ℕ) (now : ℕ) where
  -- The owner now has the balance `b` at the next version, every other owner has what it had, and
  -- the record is appended; the memory stays valid.
  pub record Settles (s : Memory) (u : ℕ) (c : Currency) (b : Money) (t : TransactionRecord)
      (s' : Memory) : Type 0 where
    pub balances :
        (u' : ℕ) (c' : Currency)
        → view s' u' c' ≡ (
            if u == u' && same_currency c c'
            then some (b, (held (view s u c) c).1 + 1)
            else view s u' c')
    pub appended : s'.records ≡ s.records ++ t ∷ []
    pub valid : IsValid uuid s'

  pub held-wallet_of :
      (u : ℕ) (c : Currency) (s : Memory) (o : Option StoredWallet)
      → wallet_of u c s.wallets ≡ o
      → ((opened uuid now o u c s).balance, (opened uuid now o u c s).version) ≡ held (view s u c) c
  held-wallet_of u c s none e = rw e
  held-wallet_of u c s (some w) e = rw e

  shown_settled :
      (u : ℕ) (c : Currency) (s : Memory) (w : StoredWallet) (s1 : Memory) (b : Money)
      → Opens uuid now u c s w s1
      → (w.balance, w.version) ≡ held (view s u c) c
      → (u' : ℕ) (c' : Currency)
      → shown (wallet_of u' c' (set_wallet (moved w b) s1.wallets)) ≡ (
          if u == u' && same_currency c c'
          then some (b, (held (view s u c) c).1 + 1)
          else view s u' c')
  shown_settled u c s w s1 b o v u' c' =
      let fits = Fits-changed (moved w b) w s1.wallets o.valid.keyed o.found refl refl in
      rw
        (
          wallet_of-set u' c' (moved w b) s1.wallets fits,
          o.others u' c',
          ← v,
          o.owner,
          o.in_currency,
        )
        (ground arith)

  pub settle :
      (u : ℕ) (c : Currency) (s : Memory) (w : StoredWallet) (s1 s' : Memory) (b : Money)
      (t : TransactionRecord)
      → Opens uuid now u c s w s1
      → (w.balance, w.version) ≡ held (view s u c) c
      → IsSane (moved w b)
      → s' ≡ settled s1 w b t
      → Settles s u c b t s'
  settle u c s w s1 s' b t o v sane e =
      let after = moved-IsValid uuid s1 w b o.valid o.found sane in
      rw e (record {
        balances = shown_settled u c s w s1 b o v;
        appended = ap (λ r. r ++ t ∷ []) o.records;
        valid = record {
          keyed = after.keyed;
          fresh = λ n le. after.fresh n (omega arith);
          sane = after.sane;
        };
      })

  pub sum-IsSane :
      (w : StoredWallet) (m b : Money)
      → IsSane w
      → is_negative m.ledger_units ≡ false
      → add w.balance m ≡ ok b
      → IsSane (moved w b)
  unfolding make
  sum-IsSane w m b h n e = ground (
    arith,
    add_parts w.balance m e,
    make-IsBelowCeiling (sum w.balance m) e,
    +ℤ-nonneg w.balance.ledger_units m.ledger_units,
  )

  pub difference-IsSane :
      (w : StoredWallet) (m b : Money)
      → IsSane w
      → is_less_than w.balance m ≡ ok false
      → subtract w.balance m ≡ ok b
      → IsSane (moved w b)
  unfolding is_less_than make
  difference-IsSane w m b h n e = ground (
    arith,
    subtract_parts w.balance m e,
    make-IsBelowCeiling (difference w.balance m) e,
    -ℤ-nonneg w.balance.ledger_units m.ledger_units,
  )
