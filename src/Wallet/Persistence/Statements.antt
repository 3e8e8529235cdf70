-- ===== src/Wallet/Persistence/Statements.antt =====
-- What the adapters rely on of the database, and what one statement of theirs does to the wallets.
use mathlib.Core.Path.{subst}
use payflow_x.Prelude.{
  ℕ, suc, ◌<◌, ◌≤◌, ◌≡◌, ◌≢◌, refl, sym, ap, ◌∙◌, ◌⊎◌, inl, inr, Bool, true, false, not, ◌&&◌, ltb,
  Option, none, some, arith, ◌==◌, ==_refl, ==_iff, if◌then◌else◌, Bool-cases,
}
use payflow_x.Prelude.Int.{ℤ, pos, ◌+ℤ◌, ◌-ℤ◌, magnitude, is_negative}
use payflow_x.Prelude.Result.{ok, err, Result-cases}
use payflow_x.Amount.{Currency, ceiling_units}
use payflow_x.Money.{Money, to_ledger_string, restore, IsBelowCeiling}
use payflow_x.Money.LedgerText.{restore-to_ledger_string}
use payflow_x.Http.{Error}
use payflow_x.Wallet.Ports.{WalletSnapshot}
use payflow_x.Wallet.Persistence.{
  Client, WalletRow, Change, increment, decrement, to_snapshot, snapshot_from, present, snapshot_of,
}

-- A wallet's balance: never negative, and below the ceiling. It is also what the database stores: the
-- column is a NUMERIC(20,8), and a constraint of it refuses what is negative (prisma/migrations).
abbrev pub IsSound : ℤ → Type 0
IsSound u = (is_negative u ≡ false) × (magnitude u < ceiling_units)

abbrev pub is_sound : ℤ → Bool
is_sound u = not (is_negative u) && ltb (magnitude u) ceiling_units

pub is_sound-IsSound : (u : ℤ) → IsSound u → is_sound u ≡ true
is_sound-IsSound u (h, h') = ground (arith, h, h')

if_yes : {A : Type 0} {b : Bool} (x y : A) → b ≡ true → (if b then x else y) ≡ x
if_yes x y h = ap (λ t. if t then x else y) h

if_no : {A : Type 0} {b : Bool} (x y : A) → b ≡ false → (if b then x else y) ≡ y
if_no x y h = ap (λ t. if t then x else y) h

pub none-ne-some : {A : Type 0} {x : A} → none ≢ some x
none-ne-some h = cc

pub some_injective : {A : Type 0} {x y : A} → some x ≡ some y → x ≡ y
some_injective h = cc

module _ {S D : Type 0} (c : Client S D) (units : D → ℤ)
    (row_of : ℕ → S → Option (WalletRow D)) where
  -- The units of a balance after a change.
  abbrev pub changed : Change D → ℤ → ℤ
  changed (increment d) u = u +ℤ units d
  changed (decrement d) u = u -ℤ units d

  -- The row that a change makes of a row.
  pub record IsChanged (change : Change D) (row row' : WalletRow D) : Type 0 where
    pub same_id : row'.id ≡ row.id
    pub same_currency : row'.currency ≡ row.currency
    pub next_version : row'.version ≡ suc row.version
    pub new_units : units row'.balance ≡ changed change (units row.balance)

  abbrev pub Puts : WalletRow D → S → S → Type 0
  Puts row s s' = (j : ℕ) → row_of j s' ≡ (if row.id == j then some row else row_of j s)

  -- The promises: decimals are exact at eight places, a query finds rows that are there, an
  -- `updateMany` writes its row if the version is the one of its `where` and the new balance can be
  -- stored, throws if it cannot, and writes nothing if there is no such row, and an `upsert` finds a row or creates it with a balance of zero.
  pub record IsClient : Type 0 where
    pub fixed_text :
        (d : D) (cur : Currency)
        → c.to_fixed d ≡ to_ledger_string (record { ledger_units = units d; currency = cur })
    pub decimal_units :
        (m : Money) → IsBelowCeiling m → units (c.decimal (to_ledger_string m)) ≡ m.ledger_units
    pub own_id : (i : ℕ) (s : S) (row : WalletRow D) → row_of i s ≡ some row → row.id ≡ i
    pub find_row :
        (u : ℕ) (cur : Currency) (s : S) (row : WalletRow D)
        → c.find_unique u cur s ≡ some row
        → row_of row.id s ≡ some row
    pub update_current :
        (i v : ℕ) (change : Change D) (s : S) (row : WalletRow D)
        → row_of i s ≡ some row
        → row.version ≡ v
        → IsSound (changed change (units row.balance))
        → (s' : S) × (row' : WalletRow D) × (c.update_many i v change s ≡ (ok 1, s'))
          × IsChanged change row row'
          × Puts row' s s'
    pub update_unsound :
        (i v : ℕ) (change : Change D) (s : S) (row : WalletRow D)
        → row_of i s ≡ some row
        → row.version ≡ v
        → is_sound (changed change (units row.balance)) ≡ false
        → (e : Error) × (c.update_many i v change s ≡ (err e, s))
    pub update_stale :
        (i v : ℕ) (change : Change D) (s : S)
        → ((row : WalletRow D) → row_of i s ≡ some row → row.version ≢ v)
        → c.update_many i v change s ≡ (ok 0, s)
    pub upsert_row :
        (u : ℕ) (cur : Currency) (s s' : S) (row : WalletRow D)
        → c.upsert u cur s ≡ (ok row, s')
        → Puts row s s'
          × ((row_of row.id s ≡ some row)
              ⊎ ((row_of row.id s ≡ none) × (units row.balance ≡ pos 0)))

  -- Rows are kept or move on to a later version.
  abbrev pub Evolves : S → S → Type 0
  Evolves s s' =
      (j : ℕ) (row : WalletRow D)
      → row_of j s ≡ some row
      → (row' : WalletRow D) × (row_of j s' ≡ some row')
        × ((row' ≡ row) ⊎ (row.version < row'.version))

  abbrev pub AllSound : S → Type 0
  AllSound s = (j : ℕ) (row : WalletRow D) → row_of j s ≡ some row → IsSound (units row.balance)

  -- A snapshot that a request holds: its row is there, not older, and the same balance if it still
  -- has the version.
  abbrev pub Agrees : S → WalletSnapshot → Type 0
  Agrees s w =
      (row : WalletRow D) × (row_of w.id s ≡ some row)
      × (w.version ≤ row.version)
      × (w.version ≡ row.version → w.balance.ledger_units ≡ units row.balance)

  pub Agrees-evolve : (s s' : S) (w : WalletSnapshot) → Evolves s s' → Agrees s w → Agrees s' w
  Agrees-evolve s s' w e (row, found, le, same) =
      let (row', found', cases) = e w.id row found in
      elim cases [
        | inl eq ↦ (
          row',
          found',
          rw eq le,
          λ v. same (v ∙ ap (λ r. r.version) eq) ∙ ap (λ r. units r.balance) (sym eq),
        )
        | inr lt ↦ (row', found', omega (arith, le, lt), λ v. absurd (omega (arith, le, lt, v)))
      ]

  module _ (law : IsClient) where
    pub Puts-Evolves :
        (row row' : WalletRow D) (s s' : S)
        → row_of row'.id s ≡ some row
        → ((row' ≡ row) ⊎ (row.version < row'.version))
        → Puts row' s s'
        → Evolves s s'
    Puts-Evolves row row' s s' found cases puts j r at = elim (Bool-cases (row'.id == j)) [
      | inr other ↦ (r, puts j ∙ (if_no _ _ other ∙ at), inl refl)
      | inl here ↦
          let k : row'.id ≡ j = (==_iff row'.id j).0 here in
          let one : r ≡ row = some_injective (sym at ∙ ap (λ x. row_of x s) (sym k) ∙ found) in
          (
            row',
            puts j ∙ if_yes _ _ here,
            subst (λ x. (row' ≡ x) ⊎ (x.version < row'.version)) (sym one) cases,
          )
    ]

    new-Evolves :
        (row' : WalletRow D) (s s' : S) → row_of row'.id s ≡ none → Puts row' s s' → Evolves s s'
    new-Evolves row' s s' new puts j r at = elim (Bool-cases (row'.id == j)) [
      | inr other ↦ (r, puts j ∙ (if_no _ _ other ∙ at), inl refl)
      | inl here ↦
          let k : row'.id ≡ j = (==_iff row'.id j).0 here in
          absurd (none-ne-some (sym new ∙ ap (λ x. row_of x s) k ∙ at))
    ]

    pub Puts-AllSound :
        (row' : WalletRow D) (s s' : S)
        → Puts row' s s'
        → IsSound (units row'.balance)
        → AllSound s
        → AllSound s'
    Puts-AllSound row' s s' puts sound all j r at = elim (Bool-cases (row'.id == j)) [
      | inr other ↦ all j r (sym (puts j ∙ if_no _ _ other) ∙ at)
      | inl here ↦
          subst (λ x. IsSound (units x.balance))
            (some_injective (sym (puts j ∙ if_yes _ _ here) ∙ at)) sound
    ]

    snapshot_units :
        (row : WalletRow D) {w : WalletSnapshot}
        → IsSound (units row.balance)
        → to_snapshot c row ≡ ok w
        → (w.id ≡ row.id)
          × (w.version ≡ row.version)
          × (w.balance ≡ record { ledger_units = units row.balance; currency = row.currency })
    unfolding to_snapshot snapshot_from
    snapshot_units row sound h =
        let m : Money = record { ledger_units = units row.balance; currency = row.currency } in
        let read : restore (c.to_fixed row.balance) row.currency ≡ ok m =
          ap (λ t. restore t row.currency) (law.fixed_text row.balance row.currency)
          ∙ restore-to_ledger_string m sound.1 in
        ground (arith, read)

    -- A wallet that a request reads is the row that is there.
    pub snapshot-Agrees :
        (row : WalletRow D) (s : S) {w : WalletSnapshot}
        → row_of row.id s ≡ some row
        → IsSound (units row.balance)
        → to_snapshot c row ≡ ok w
        → Agrees s w
    snapshot-Agrees row s found sound h =
        let (i, v, m) = snapshot_units row sound h in
        (row, ap (λ k. row_of k s) i ∙ found, omega (arith, v), λ e. ap (λ x. x.ledger_units) m)

    read_row :
        (o : Option (WalletRow D)) {w : WalletSnapshot}
        → snapshot_of c o ≡ ok (some w)
        → (row : WalletRow D) × (o ≡ some row) × (to_snapshot c row ≡ ok w)
    unfolding snapshot_of present
    read_row none h = absurd (ground (arith, h))
    read_row (some row) h = elim (Result-cases (to_snapshot c row)) [
      | inl (w', e) ↦ (row, refl, ground (arith, e, h))
      | inr (x, e) ↦ absurd (ground (arith, e, h))
    ]

    pub find-Agrees :
        (u : ℕ) (cur : Currency) (s : S) {w : WalletSnapshot}
        → AllSound s
        → snapshot_of c (c.find_unique u cur s) ≡ ok (some w)
        → Agrees s w
    find-Agrees u cur s all h =
        let (row, found, read) = read_row (c.find_unique u cur s) h in
        let at = law.find_row u cur s row found in snapshot-Agrees row s at (all row.id row at) read

    -- A wallet that is created holds zero.
    pub upsert_lem :
        (u : ℕ) (cur : Currency) (s s' : S) (row : WalletRow D)
        → AllSound s
        → c.upsert u cur s ≡ (ok row, s')
        → Evolves s s' × AllSound s' × (row_of row.id s' ≡ some row)
    upsert_lem u cur s s' row all h =
        let (puts, cases) = law.upsert_row u cur s s' row h in
        let sound : IsSound (units row.balance) = elim cases [
          | inl found ↦ all row.id row found
          | inr (new, zero_units) ↦ rw zero_units (refl, omega arith)
        ] in
        (
          elim cases [
            | inl found ↦ Puts-Evolves row row s s' found (inl refl) puts
            | inr (new, zero_units) ↦ new-Evolves row s s' new puts
          ],
          Puts-AllSound row s s' puts sound all,
          puts row.id ∙ if_yes _ _ (==_refl row.id),
        )
