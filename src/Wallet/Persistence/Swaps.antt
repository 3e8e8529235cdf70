-- ===== src/Wallet/Persistence/Swaps.antt =====
-- What one compare-and-swap of the adapters does to the wallets.
use mathlib.Core.Path.{subst}
use payflow_x.Prelude.{
  ℕ, ◌≡◌, ◌≢◌, refl, sym, ap, ◌∙◌, inl, inr, Bool, true, false, Option, some, arith, ◌==◌, ==_iff,
  Bool-cases, Option-cases,
}
use payflow_x.Prelude.Int.{ℤ}
use payflow_x.Prelude.Result.{Result, ok}
use payflow_x.Http.{Error, bind_from, pure}
use payflow_x.Wallet.Persistence.{Client, WalletRow, Change, compare_and_swap}
use payflow_x.Wallet.Persistence.Statements.{
  IsClient, IsChanged, Puts, Evolves, AllSound, IsSound, changed, none-ne-some, some_injective,
  Puts-Evolves, Puts-AllSound,
}

module _ {S D : Type 0} (c : Client S D) (units : D → ℤ) (row_of : ℕ → S → Option (WalletRow D))
    (law : IsClient c units row_of) where
  -- A compare-and-swap writes its row where the version is current and the new balance sound.
  pub swap_current :
      (i v : ℕ) (change : Change D) (s : S) (row : WalletRow D)
      → row_of i s ≡ some row
      → row.version ≡ v
      → IsSound (changed c units row_of change (units row.balance))
      → (s' : S) × (row' : WalletRow D) × (compare_and_swap c i v change s ≡ (ok true, s'))
        × IsChanged c units row_of change row row'
        × Puts c units row_of row' s s'
  unfolding compare_and_swap
  swap_current i v change s row found current sound =
      let (s', row', done, new, puts) = law.update_current i v change s row found current sound in
      (
        s',
        row',
        bind_from (c.update_many i v change) (λ count. pure (count == 1)) s done,
        new,
        puts,
      )

  pub swap_stale :
      (i v : ℕ) (change : Change D) (s : S)
      → ((row : WalletRow D) → row_of i s ≡ some row → row.version ≢ v)
      → compare_and_swap c i v change s ≡ (ok false, s)
  unfolding compare_and_swap
  swap_stale i v change s stale =
      bind_from (c.update_many i v change) (λ count. pure (count == 1)) s
        (law.update_stale i v change s stale)

  abbrev Kept : S → S → Type 0
  Kept s s' = Evolves c units row_of s s' × AllSound c units row_of s'

  nothing-Kept :
      (s : S) (r : Result Error Bool × S) → AllSound c units row_of s → r.1 ≡ s → Kept s r.1
  nothing-Kept s r all e = subst (Kept s) (sym e) ((λ j row at. (row, at, inl refl)), all)

  -- So it keeps the balances sound if the changed balance is sound where the version is current.
  pub swap_kept :
      (i v : ℕ) (change : Change D) (s : S)
      → AllSound c units row_of s
      → ((row : WalletRow D)
          → row_of i s ≡ some row
          → row.version ≡ v
          → IsSound (changed c units row_of change (units row.balance)))
      → Evolves c units row_of s (compare_and_swap c i v change s).1
        × AllSound c units row_of (compare_and_swap c i v change s).1
  swap_kept i v change s all keeps = elim (Option-cases (row_of i s)) [
    | inl none_there ↦ nothing-Kept s (compare_and_swap c i v change s) all (
        ap (λ p. p.1)
          (swap_stale i v change s λ row at. absurd (none-ne-some (sym none_there ∙ at))))
    | inr (row, found) ↦ elim (Bool-cases (row.version == v)) [
      | inr old ↦ nothing-Kept s (compare_and_swap c i v change s) all (
          ap (λ p. p.1)
            (swap_stale i v change s
              λ r at e. ground (arith, ap (λ x. x.version) (some_injective (sym found ∙ at)))))
      | inl now ↦
          let current : row.version ≡ v = (==_iff row.version v).0 now in
          let (s', row', done, new, puts) =
            swap_current i v change s row found current (keeps row found current) in
          let at : row_of row'.id s ≡ some row =
            ap (λ k. row_of k s) (new.same_id ∙ law.own_id i s row found) ∙ found in
          subst (Kept s) (sym (ap (λ p. p.1) done)) (
            Puts-Evolves c units row_of law row row' s s' at (inr (omega (arith, new.next_version)))
                puts,
            Puts-AllSound c units row_of law row' s s' puts
                (subst IsSound (sym new.new_units) (keeps row found current)) all,
          )
    ]
  ]
