-- ===== src/Wallet/Exchange/Legs.antt =====
-- The two legs of an exchange: the order of their locks, and what their swaps do.
use payflow_x.Prelude.{
  Bool, false, ℕ, ◌≡◌, ◌≢◌, refl, sym, ap, ◌∙◌, Option, List, [], ◌∷◌, some, map, arith, ◌==◌, not,
  if◌then◌else◌, Bool-cases, inl, inr,
}
use payflow_x.Prelude.Int.{ℤ}
use payflow_x.Prelude.Result.{ok, err}
use payflow_x.Http.{Error, throw_if, bind_from, bind_err, ◌>>◌}
use payflow_x.Wallet.UseCases.{lock_conflict}
use payflow_x.Wallet.Persistence.{Client, WalletRow, increment, decrement}
use payflow_x.Wallet.Persistence.Statements.{IsClient, IsChanged, IsSound, Puts, changed, is_sound}
use payflow_x.Wallet.Exchange.{Market, Leg, legs, swap_legs}

abbrev pub leg_id : {D : Type 0} → Leg D → ℕ
leg_id leg = leg.wallet.id

-- Two exchanges over the same two wallets in opposite directions take their locks in the same
-- order, if the order of identifiers is total and antisymmetric.
pub legs_same_order :
    {S D : Type 0} (c : Client S D) (k : Market S D) (source target : WalletRow D)
    (amount received amount' received' : D)
    → k.after target.id source.id ≡ not (k.after source.id target.id)
    → map leg_id (legs c k source target amount received)
      ≡ map leg_id (legs c k target source amount' received')
unfolding legs
legs_same_order c k source target amount received amount' received' order = ground (arith, order)

later_write :
    {A : Type 0} (i1 i2 j : ℕ) (x y z : A)
    → i1 ≢ i2
    → (if i2 == j then y else (if i1 == j then x else z))
      ≡ (if i1 == j then x else (if i2 == j then y else z))
later_write i1 i2 j x y z ne = ground (arith, ne)

other_row : {A : Type 0} (i j : ℕ) (x z : A) → i ≢ j → (if i == j then x else z) ≡ z
other_row i j x z ne = ground (arith, ne)

abbrev pub debit_leg : {D : Type 0} → WalletRow D → D → Leg D
debit_leg source amount = record { wallet = source; change = decrement amount }

abbrev pub credit_leg : {D : Type 0} → WalletRow D → D → Leg D
credit_leg target received = record { wallet = target; change = increment received }

module _ {S D : Type 0} (c : Client S D) (units : D → ℤ)
    (row_of : ℕ → S → Option (WalletRow D)) where
  -- Both legs are written, whichever comes first, and no other wallet.
  abbrev pub WritesBoth : Leg D → Leg D → S → S → Type 0
  WritesBoth l1 l2 s s' =
      (row1 row2 : WalletRow D) × IsChanged c units row_of l1.change l1.wallet row1
      × IsChanged c units row_of l2.change l2.wallet row2
      × ((j : ℕ)
          → row_of j s' ≡ (
              if l1.wallet.id == j
              then some row1
              else (if l2.wallet.id == j then some row2 else row_of j s)))

module _ {S D : Type 0} (c : Client S D) (k : Market S D) (units : D → ℤ)
    (row_of : ℕ → S → Option (WalletRow D)) (law : IsClient c units row_of) where
  -- One leg whose row is the current one is written, where its new balance can be stored.
  swap_leg :
      (leg : Leg D) (rest : List (Leg D)) (s : S)
      → row_of leg.wallet.id s ≡ some leg.wallet
      → IsSound (changed c units row_of leg.change (units leg.wallet.balance))
      → (s' : S) × (row' : WalletRow D) × (swap_legs c k (leg ∷ rest) s ≡ swap_legs c k rest s')
        × IsChanged c units row_of leg.change leg.wallet row'
        × Puts c units row_of row' s s'
  unfolding swap_legs
  swap_leg leg rest s found sound =
      let (s', row', done, new, puts) =
        law.update_current leg.wallet.id leg.wallet.version leg.change s leg.wallet found refl
          sound in
      (
        s',
        row',
        bind_from (c.update_many leg.wallet.id leg.wallet.version leg.change)
            (λ count. throw_if (count == 0) lock_conflict >> swap_legs c k rest) s done,
        new,
        puts,
      )

  swap_both :
      (l1 l2 : Leg D) (s : S)
      → row_of l1.wallet.id s ≡ some l1.wallet
      → row_of l2.wallet.id s ≡ some l2.wallet
      → l1.wallet.id ≢ l2.wallet.id
      → IsSound (changed c units row_of l1.change (units l1.wallet.balance))
      → IsSound (changed c units row_of l2.change (units l2.wallet.balance))
      → (s' : S) × (swap_legs c k (l1 ∷ (l2 ∷ [])) s ≡ (ok tt, s'))
        × WritesBoth c units row_of l1 l2 s s'
  unfolding swap_legs
  swap_both l1 l2 s found1 found2 ne sound1 sound2 =
      let (s1, row1, done1, new1, puts1) = swap_leg l1 (l2 ∷ []) s found1 sound1 in
      let at1 : (j : ℕ) → row_of j s1 ≡ (if l1.wallet.id == j then some row1 else row_of j s) =
        λ j. puts1 j ∙ ap (λ i. if i == j then some row1 else row_of j s) new1.same_id in
      let found2' : row_of l2.wallet.id s1 ≡ some l2.wallet =
        at1 l2.wallet.id
        ∙ (other_row l1.wallet.id l2.wallet.id (some row1) (row_of l2.wallet.id s) ne ∙ found2) in
      let (s2, row2, done2, new2, puts2) = swap_leg l2 [] s1 found2' sound2 in
      (
        s2,
        done1 ∙ done2,
        (
          row1,
          row2,
          new1,
          new2,
          λ j.
              puts2 j
              ∙ ap (λ i. if i == j then some row2 else row_of j s1) new2.same_id
              ∙ ap (λ o. if l2.wallet.id == j then some row2 else o) (at1 j)
              ∙ later_write l1.wallet.id l2.wallet.id j (some row1) (some row2) (row_of j s) ne,
        ),
      )

  -- A leg whose new balance cannot be stored throws, and is not written.
  leg_unsound :
      (leg : Leg D) (rest : List (Leg D)) (s : S)
      → row_of leg.wallet.id s ≡ some leg.wallet
      → is_sound (changed c units row_of leg.change (units leg.wallet.balance)) ≡ false
      → (e : Error) × (swap_legs c k (leg ∷ rest) s ≡ (err e, s))
  unfolding swap_legs
  leg_unsound leg rest s found unsound =
      let (e, failed) =
        law.update_unsound leg.wallet.id leg.wallet.version leg.change s leg.wallet found refl
          unsound in
      (
        e,
        bind_err (c.update_many leg.wallet.id leg.wallet.version leg.change)
            (λ count. throw_if (count == 0) lock_conflict >> swap_legs c k rest) s failed,
      )

  pub legs_overflow :
      (source target : WalletRow D) (amount received : D) (s : S)
      → row_of source.id s ≡ some source
      → row_of target.id s ≡ some target
      → source.id ≢ target.id
      → IsSound (changed c units row_of (decrement amount) (units source.balance))
      → is_sound (changed c units row_of (increment received) (units target.balance)) ≡ false
      → (e : Error) × (s' : S) × (swap_legs c k (legs c k source target amount received) s
          ≡ (err e, s'))
        × (row_of target.id s' ≡ some target)
  unfolding legs
  legs_overflow source target amount received s found found' ne less over =
      let l1 = debit_leg source amount in
      let l2 = credit_leg target received in
      let order = λ (b : Bool). swap_legs c k (if b then l2 ∷ (l1 ∷ []) else l1 ∷ (l2 ∷ [])) s in
      elim (Bool-cases (k.after source.id target.id)) [
        | inl first ↦
            let (e, failed) = leg_unsound l2 (l1 ∷ []) s found' over in
            (e, s, ap order first ∙ failed, found')
        | inr second ↦
            let (s1, row1, done1, new1, puts1) = swap_leg l1 (l2 ∷ []) s found less in
            let there : row_of target.id s1 ≡ some target =
              puts1 target.id
              ∙ ap (λ i. if i == target.id then some row1 else row_of target.id s) new1.same_id
              ∙ other_row source.id target.id (some row1) (row_of target.id s) ne
              ∙ found' in
            let (e, failed) = leg_unsound l2 [] s1 there over in
            (e, s1, ap order second ∙ done1 ∙ failed, there)
      ]

  flip-WritesBoth :
      (l1 l2 : Leg D) (s s' : S)
      → l1.wallet.id ≢ l2.wallet.id
      → WritesBoth c units row_of l2 l1 s s'
      → WritesBoth c units row_of l1 l2 s s'
  flip-WritesBoth l1 l2 s s' ne (row2, row1, new2, new1, writes) = (
    row1,
    row2,
    new1,
    new2,
    λ j. writes j ∙ later_write l1.wallet.id l2.wallet.id j (some row1) (some row2) (row_of j s) ne,
  )

  pub legs-WritesBoth :
      (source target : WalletRow D) (amount received : D) (s : S)
      → row_of source.id s ≡ some source
      → row_of target.id s ≡ some target
      → source.id ≢ target.id
      → IsSound (changed c units row_of (decrement amount) (units source.balance))
      → IsSound (changed c units row_of (increment received) (units target.balance))
      → (s' : S) × (swap_legs c k (legs c k source target amount received) s ≡ (ok tt, s'))
        × WritesBoth c units row_of (debit_leg source amount) (credit_leg target received) s s'
  unfolding legs
  legs-WritesBoth source target amount received s found found' ne less more =
      let l1 = debit_leg source amount in
      let l2 = credit_leg target received in
      elim (Bool-cases (k.after source.id target.id)) [
        | inl e ↦
            let (s', done, writes) = swap_both l2 l1 s found' found (λ h. ne (sym h)) more less in
            (
              s',
              ap (λ b. swap_legs c k (if b then l2 ∷ (l1 ∷ []) else l1 ∷ (l2 ∷ [])) s) e ∙ done,
              flip-WritesBoth l1 l2 s s' ne writes,
            )
        | inr e ↦
            let (s', done, writes) = swap_both l1 l2 s found found' ne less more in
            (
              s',
              ap (λ b. swap_legs c k (if b then l2 ∷ (l1 ∷ []) else l1 ∷ (l2 ∷ [])) s) e ∙ done,
              writes,
            )
      ]
