-- ===== src/Wallet/Persistence/Races.antt =====
-- Requests that interleave statement by statement, as READ COMMITTED lets them: each reads a
-- wallet, tests what it has read, and writes by compare-and-swap, with any other statements of
-- others in between.
use payflow_x.Prelude.{
  ℕ, ◌≡◌, ◌≢◌, refl, sym, ap, ◌∙◌, Bool, true, false, Option, none, some, arith, ◌==◌,
  if◌then◌else◌, Bool-cases, ==_iff, inl, inr,
}
use mathlib.Core.Path.{subst}
use payflow_x.Prelude.Int.{ℤ, is_negative, ◌+ℤ◌, ◌-ℤ◌}
use payflow_x.Prelude.Result.{Result, ok}
use payflow_x.Amount.{Currency}
use payflow_x.Money.{Money, IsBelowCeiling, add, is_less_than, to_ledger_string}
use payflow_x.Http.{Error, bind_ok, lift, pair_ext}
use payflow_x.Wallet.Ports.{WalletSnapshot}
use payflow_x.Wallet.Persistence.{
  Client, WalletRow, Change, increment, decrement, find_by_user_and_currency, find_or_create_empty,
  to_snapshot, compare_and_swap, credit, debit,
}
use payflow_x.Wallet.Persistence.Swaps.{swap_kept, swap_stale}
use payflow_x.Wallet.Persistence.Balances.{sub-IsSound, add-IsSound}
use payflow_x.Wallet.Persistence.Statements.{
  IsClient, IsSound, AllSound, Agrees, Agrees-evolve, Evolves, find-Agrees, snapshot-Agrees,
  upsert_lem, some_injective, none-ne-some,
}

-- The database, and the wallet that each request has read and not yet used.
pub record System (S : Type 0) : Type 0 where
  pub db : S
  pub held : ℕ → Option WalletSnapshot

abbrev pub hold :
    ℕ → Option WalletSnapshot → (ℕ → Option WalletSnapshot) → ℕ → Option WalletSnapshot
hold i o held = λ j. if i == j then o else held j

won_and_lost : (r : Result Error Bool) → r ≡ ok true → r ≢ ok false
won_and_lost r h h' = cc

module _ {S D : Type 0} (c : Client S D) where
  -- One statement of one request: `findByUserAndCurrency`, `findOrCreateEmpty`, the debit of a
  -- withdrawal or transfer after its test of the balance, and the credit of a deposit after its
  -- test of the sum.
  pub data Step (s : System S) : System S → Type 0 where
    read :
        (i u : ℕ) (cur : Currency) (w : WalletSnapshot)
        → find_by_user_and_currency c u cur s.db ≡ (ok (some w), s.db)
        → Step s (record { db = s.db; held = hold i (some w) s.held })
    opened :
        (i u : ℕ) (cur : Currency) (w : WalletSnapshot) (db : S)
        → find_or_create_empty c u cur s.db ≡ (ok w, db)
        → Step s (record { db = db; held = hold i (some w) s.held })
    debited :
        (i : ℕ) (w : WalletSnapshot) (m : Money)
        → s.held i ≡ some w
        → IsBelowCeiling m
        → is_negative m.ledger_units ≡ false
        → is_less_than w.balance m ≡ ok false
        → Step s (record { db = (debit c w.id w.version m s.db).1; held = hold i none s.held })
    credited :
        (i : ℕ) (w : WalletSnapshot) (m sum : Money)
        → s.held i ≡ some w
        → IsBelowCeiling m
        → is_negative m.ledger_units ≡ false
        → add w.balance m ≡ ok sum
        → Step s (record { db = (credit c w.id w.version m s.db).1; held = hold i none s.held })

  pub data Reach (s : System S) : System S → Type 0 where
    here : Reach s s
    later : {t u : System S} → Reach s t → Step t u → Reach s u

  module _ (units : D → ℤ) (row_of : ℕ → S → Option (WalletRow D)) where
    -- Every balance is sound, and every request that holds a wallet holds the balance of the
    -- wallet's row if the row still has the version.
    pub record Inv (s : System S) : Type 0 where
      pub sound : AllSound c units row_of s.db
      pub agree : (i : ℕ) (w : WalletSnapshot) → s.held i ≡ some w → Agrees c units row_of s.db w

    module _ (law : IsClient c units row_of) where
      -- The debit of what a request has tested, and the credit, on the row that they find.
      debit_kept :
          (s : S) (w : WalletSnapshot) (m : Money)
          → AllSound c units row_of s
          → Agrees c units row_of s w
          → IsBelowCeiling m
          → is_negative m.ledger_units ≡ false
          → is_less_than w.balance m ≡ ok false
          → Evolves c units row_of s (debit c w.id w.version m s).1
            × AllSound c units row_of (debit c w.id w.version m s).1
      unfolding debit
      debit_kept s w m all (row0, found0, le, same) below pos_m enough =
          swap_kept c units row_of law w.id w.version (decrement (c.decimal (to_ledger_string m))) s
            all
            λ row found current.
              let one : row ≡ row0 = some_injective (sym found ∙ found0) in
              let read : w.balance.ledger_units ≡ units row.balance =
                same (sym current ∙ ap (λ r. r.version) one)
                ∙ ap (λ r. units r.balance) (sym one) in
              subst (λ x. IsSound (units row.balance -ℤ x)) (sym (law.decimal_units m below))
                (sub-IsSound w.balance m (all w.id row found) read pos_m enough)

      credit_kept :
          (s : S) (w : WalletSnapshot) (m sum : Money)
          → AllSound c units row_of s
          → Agrees c units row_of s w
          → IsBelowCeiling m
          → is_negative m.ledger_units ≡ false
          → add w.balance m ≡ ok sum
          → Evolves c units row_of s (credit c w.id w.version m s).1
            × AllSound c units row_of (credit c w.id w.version m s).1
      unfolding credit
      credit_kept s w m sum all (row0, found0, le, same) below pos_m fits =
          swap_kept c units row_of law w.id w.version (increment (c.decimal (to_ledger_string m))) s
            all
            λ row found current.
              let one : row ≡ row0 = some_injective (sym found ∙ found0) in
              let read : w.balance.ledger_units ≡ units row.balance =
                same (sym current ∙ ap (λ r. r.version) one)
                ∙ ap (λ r. units r.balance) (sym one) in
              subst (λ x. IsSound (units row.balance +ℤ x)) (sym (law.decimal_units m below))
                (add-IsSound w.balance m sum (all w.id row found) read pos_m fits)

      -- What is held after a step: an old wallet, or the one that was just read.
      hold-Agrees :
          (s s' : S) (i : ℕ) (o : Option WalletSnapshot) (held : ℕ → Option WalletSnapshot)
          → Evolves c units row_of s s'
          → ((j : ℕ) (w : WalletSnapshot) → held j ≡ some w → Agrees c units row_of s w)
          → ((w : WalletSnapshot) → o ≡ some w → Agrees c units row_of s' w)
          → (j : ℕ) (w : WalletSnapshot) → hold i o held j ≡ some w
          → Agrees c units row_of s' w
      hold-Agrees s s' i o held evolve old new j w at = elim (Bool-cases (i == j)) [
        | inl own ↦ new w (sym (ap (λ b. if b then o else held j) own) ∙ at)
        | inr other ↦
            Agrees-evolve c units row_of s s' w evolve
              (old j w (sym (ap (λ b. if b then o else held j) other) ∙ at))
      ]

      Step-Inv : {s t : System S} → Step s t → Inv s → Inv t
      unfolding find_by_user_and_currency find_or_create_empty
      Step-Inv {s = s} (read i u cur w e) inv = record {
        sound = inv.sound;
        agree =
            hold-Agrees s.db s.db i (some w) s.held (λ j row at. (row, at, inl refl)) inv.agree
              λ w' e'.
                subst (Agrees c units row_of s.db) (some_injective e')
                  (find-Agrees c units row_of law u cur s.db inv.sound (ap (λ p. p.0) e));
      }
      Step-Inv {s = s} (opened i u cur w db e) inv =
          let (row, e1, e2) = bind_ok (c.upsert u cur) (λ row. lift (to_snapshot c row)) s.db e in
          let done = pair_ext (c.upsert u cur s.db) e1 (ap (λ p. p.1) e2) in
          let (evolve, sound, at) =
            upsert_lem c units row_of law u cur s.db db row inv.sound done in
          record {
            sound = sound;
            agree = hold-Agrees s.db db i (some w) s.held evolve inv.agree λ w' e'.
                subst (Agrees c units row_of db) (some_injective e') (
                  snapshot-Agrees c units row_of law row db at (sound row.id row at)
                    (ap (λ p. p.0) e2));
          }
      Step-Inv {s = s} (debited i w m at below pos_m enough) inv =
          let (evolve, sound) =
            debit_kept s.db w m inv.sound (inv.agree i w at) below pos_m enough in
          record {
            sound = sound;
            agree =
                hold-Agrees s.db (debit c w.id w.version m s.db).1 i none s.held evolve inv.agree
                  λ w' e'. absurd (none-ne-some e');
          }
      Step-Inv {s = s} (credited i w m sum at below pos_m fits) inv =
          let (evolve, sound) =
            credit_kept s.db w m sum inv.sound (inv.agree i w at) below pos_m fits in
          record {
            sound = sound;
            agree =
                hold-Agrees s.db (credit c w.id w.version m s.db).1 i none s.held evolve inv.agree
                  λ w' e'. absurd (none-ne-some e');
          }

      Reach-Inv : {s t : System S} → Reach s t → Inv s → Inv t
      Reach-Inv here inv = inv
      Reach-Inv (later r st) inv = Step-Inv st (Reach-Inv r inv)

      -- In every state that such interleaved requests reach, a compare-and-swap of a request that
      -- succeeds finds the very balance that the request has read and tested: no other write came
      -- in between.
      pub swap_as_read :
          (db : S) {t : System S} (i : ℕ) (w : WalletSnapshot) (change : Change D) {s' : S}
          → AllSound c units row_of db
          → Reach (record { db = db; held = λ i. none }) t
          → t.held i ≡ some w
          → compare_and_swap c w.id w.version change t.db ≡ (ok true, s')
          → (row : WalletRow D) × (row_of w.id t.db ≡ some row)
            × (units row.balance ≡ w.balance.ledger_units)
      swap_as_read db {t} i w change all r at won =
          let inv =
            Reach-Inv r (record { sound = all; agree = λ i w e. absurd (none-ne-some e) }) in
          let (row, found, le, same) = inv.agree i w at in
          elim (Bool-cases (row.version == w.version)) [
            | inl now ↦ (row, found, sym (same (sym ((==_iff row.version w.version).0 now))))
            | inr old ↦
                let lost = swap_stale c units row_of law w.id w.version change t.db λ r' at' e.
                  ground (arith, old, ap (λ x. x.version) (some_injective (sym found ∙ at'))) in
                absurd (
                  won_and_lost (compare_and_swap c w.id w.version change t.db).0 (ap (λ p. p.0) won)
                    (ap (λ p. p.0) lost))
          ]
