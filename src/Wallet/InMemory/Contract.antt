-- ===== src/Wallet/InMemory/Contract.antt =====
-- What the in-memory repositories do to a valid memory, one lemma for each port operation.
use payflow_x.Prelude.{
  ℕ, ◌+◌, ◌≤◌, ◌≡◌, refl, inl, inr, Bool, true, false, Option, none, some, List, [], ◌∷◌, arith,
  if◌then◌else◌,
}
use payflow_x.Prelude.Result.{Result, ok, Result-cases}
use payflow_x.Prelude.Lists.{All}
use payflow_x.Prelude.Int.{is_negative}
use payflow_x.Amount.{Currency, MoneyError}
use payflow_x.Money.{Money, IsBelowCeiling}
use payflow_x.Wallet.InMemory.{
  StoredWallet, Memory, get_wallet, set_wallet, is_of, wallet_of, to_snapshot, swap, empty_wallet,
  find_or_create_empty,
}
use payflow_x.Wallet.InMemory.Stored.{
  IsKeyed, Fits, IsKeyed-set, Fits-changed, Fits-new, get_wallet-set, get_wallet-wallet_of,
  wallet_of-set, wallet_of-is_of, wallet_of_same, same_currency_eq,
}

-- A balance is in its wallet's currency, not negative and below the ceiling.
abbrev pub IsSane : StoredWallet → Type 0
IsSane w =
    (w.balance.currency ≡ w.currency)
    × (is_negative w.balance.ledger_units ≡ false)
    × IsBelowCeiling w.balance

module _ (random_uuid : ℕ → ℕ) where
  -- Ids and owners are keys, the ids that are still to be drawn are free, and balances are sane.
  pub record IsValid (s : Memory) : Type 0 where
    pub keyed : IsKeyed s.wallets
    pub fresh : (n : ℕ) → s.drawn ≤ n → get_wallet (random_uuid n) s.wallets ≡ none
    pub sane : All IsSane s.wallets

All-set :
    (v : StoredWallet) (ws : List StoredWallet)
    → IsSane v
    → All IsSane ws
    → All IsSane (set_wallet v ws)
All-set v [] h hs = (h, tt)
All-set v (w ∷ ws) h hs = ground (arith, All-set v ws h hs.1)

pub IsSane-get :
    (k : ℕ) (w : StoredWallet) (ws : List StoredWallet)
    → All IsSane ws
    → get_wallet k ws ≡ some w
    → IsSane w
IsSane-get k w [] h e = cc
IsSane-get k w (x ∷ ws) h e = ground (arith, IsSane-get k w ws h.1)

-- The balance and the version that a wallet shows to the use cases.
abbrev pub shown : Option StoredWallet → Option (Money × ℕ)
shown none = none
shown (some w) = some (w.balance, w.version)

abbrev pub view : Memory → ℕ → Currency → Option (Money × ℕ)
view s u c = shown (wallet_of u c s.wallets)

-- What `swap` writes.
abbrev pub moved : StoredWallet → Money → StoredWallet
moved w b = record w { balance = b; version = w.version + 1 }

-- A swap that reports success found the wallet at the expected version and wrote the new balance.
pub swap-true :
    (k v : ℕ) (op : Money → Result MoneyError Money) (s s' : Memory) (w : StoredWallet)
    → get_wallet k s.wallets ≡ some w
    → swap k v op s ≡ (ok true, s')
    → (b : Money) × (op w.balance ≡ ok b)
      × (w.version ≡ v)
      × (s' ≡ record s { wallets = set_wallet (moved w b) s.wallets })
unfolding swap
swap-true k v op s s' w e h = elim (Result-cases (op w.balance)) [
  | inl (b, eb) ↦ (b, eb, ground arith, ground arith)
  | inr (x, ex) ↦ absurd (ground arith)
]

-- A swap that reports failure wrote no wallet.
pub swap-false :
    (k v : ℕ) (op : Money → Result MoneyError Money) (s s' : Memory)
    → swap k v op s ≡ (ok false, s')
    → (s'.wallets ≡ s.wallets) × (s'.records ≡ s.records)
unfolding swap
swap-false k v op s s' h = ground arith

-- Writing a changed balance keeps the memory valid, if the balance is sane.
pub moved-IsValid :
    (uuid : ℕ → ℕ) (s : Memory) (w : StoredWallet) (b : Money)
    → IsValid uuid s
    → get_wallet w.id s.wallets ≡ some w
    → IsSane (moved w b)
    → IsValid uuid (record s { wallets = set_wallet (moved w b) s.wallets })
moved-IsValid uuid s w b h e sane = record {
  keyed =
      IsKeyed-set (moved w b) s.wallets (Fits-changed (moved w b) w s.wallets h.keyed e refl refl)
        h.keyed;
  fresh = λ n le. ground (arith, get_wallet-set (uuid n) (moved w b) s.wallets, h.fresh n le);
  sane = All-set (moved w b) s.wallets sane h.sane;
}

same_or_other :
    {o : Option StoredWallet} {w : StoredWallet} (b : Bool)
    → (b ≡ true → o ≡ some w)
    → o ≡ (if b then some w else o)
same_or_other true h = h refl
same_or_other false h = refl

-- `randomUUID` never draws the same id twice.
abbrev pub IsInjective : (ℕ → ℕ) → Type 0
IsInjective uuid = (i j : ℕ) → uuid i ≡ uuid j → i ≡ j

module _ (uuid : ℕ → ℕ) (now : ℕ) where
  -- The wallet that `findOrCreateEmpty` answers with, and the memory that it leaves.
  abbrev pub opened : Option StoredWallet → ℕ → Currency → Memory → StoredWallet
  opened none u c s = empty_wallet uuid now u c s
  opened (some w) u c s = w

  abbrev pub opened_memory : Option StoredWallet → ℕ → Currency → Memory → Memory
  opened_memory none u c s = record s {
    wallets = set_wallet (empty_wallet uuid now u c s) s.wallets;
    drawn = s.drawn + 1;
  }
  opened_memory (some w) u c s = s

  pub find_or_create_empty-eq :
      (u : ℕ) (c : Currency) (s : Memory) (o : Option StoredWallet)
      → wallet_of u c s.wallets ≡ o
      → find_or_create_empty uuid now u c s
        ≡ (ok (to_snapshot (opened o u c s)), opened_memory o u c s)
  unfolding find_or_create_empty
  find_or_create_empty-eq u c s none e = rw e
  find_or_create_empty-eq u c s (some w) e = rw e

  -- After it, the owner has the wallet, in a valid memory where nothing else has changed.
  pub record Opens (u : ℕ) (c : Currency) (s : Memory) (w : StoredWallet) (s1 : Memory)
      : Type 0 where
    pub valid : IsValid uuid s1
    pub found : get_wallet w.id s1.wallets ≡ some w
    pub owner : w.user_id ≡ u
    pub in_currency : w.currency ≡ c
    pub others :
        (u' : ℕ) (c' : Currency)
        → wallet_of u' c' s1.wallets ≡ (if is_of u' c' w then some w else wallet_of u' c' s.wallets)
    pub records : s1.records ≡ s.records

  created_fresh :
      (u : ℕ) (c : Currency) (s : Memory)
      → IsInjective uuid
      → IsValid uuid s
      → (n : ℕ) → s.drawn + 1 ≤ n
      → get_wallet (uuid n) (opened_memory none u c s).wallets ≡ none
  created_fresh u c s inj h n le = ground (
    arith,
    get_wallet-set (uuid n) (empty_wallet uuid now u c s) s.wallets,
    h.fresh n (omega arith),
    inj s.drawn n,
  )

  pub opened-Opens :
      (u : ℕ) (c : Currency) (s : Memory) (o : Option StoredWallet)
      → IsInjective uuid
      → IsValid uuid s
      → wallet_of u c s.wallets ≡ o
      → Opens u c s (opened o u c s) (opened_memory o u c s)
  opened-Opens u c s none inj h e =
      let v = empty_wallet uuid now u c s in
      let fits : Fits v s.wallets = Fits-new v s.wallets (h.fresh s.drawn (omega arith)) e in
      record {
        valid = record {
          keyed = IsKeyed-set v s.wallets fits h.keyed;
          fresh = created_fresh u c s inj h;
          sane = All-set v s.wallets (refl, refl, omega arith) h.sane;
        };
        found = ground (arith, get_wallet-set v.id v s.wallets);
        owner = refl;
        in_currency = refl;
        others = λ u' c'. wallet_of-set u' c' v s.wallets fits;
        records = refl;
      }
  opened-Opens u c s (some w) inj h e = record {
    valid = h;
    found = get_wallet-wallet_of u c s.wallets h.keyed e;
    owner = ground (arith, wallet_of-is_of u c s.wallets e);
    in_currency = same_currency_eq w.currency c (ground (arith, wallet_of-is_of u c s.wallets e));
    others = λ u' c'. same_or_other (is_of u' c' w) (wallet_of_same u u' c c' s.wallets e);
    records = refl;
  }
