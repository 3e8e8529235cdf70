-- ===== src/Wallet/Exchange/Stored.antt =====
-- A client that keeps the balance and the version of each wallet by its identifier: an instance
-- that keeps the promises of `IsClient`.
use mathlib.Core.Path.{subst}
use payflow_x.Prelude.{
  Bool, true, false, ℕ, suc, ◌+◌, ◌*◌, ◌/◌, ◌%◌, ◌≡◌, ◌≢◌, refl, sym, ap, ◌∙◌, Option, none, some,
  arith, ◌==◌, ==_iff, if◌then◌else◌, Bool-cases, Option-cases, inl, inr, ◌⊎◌,
}
use payflow_x.Prelude.Int.{ℤ, pos, ◌+ℤ◌, ◌-ℤ◌}
use payflow_x.Prelude.Result.{Result, ok, err}
use payflow_x.Amount.{Currency, ars, usd, usdt, brl, MoneyError}
use payflow_x.Money.{Money, to_ledger_string, restore, IsBelowCeiling}
use payflow_x.Money.LedgerText.{restore-to_ledger_string}
use payflow_x.Http.{Error, Action, other, throw}
use payflow_x.Wallet.Persistence.{Client, WalletRow, Change, increment, decrement}
use payflow_x.Wallet.Persistence.Statements.{
  IsClient, IsChanged, IsSound, Puts, changed, is_sound, is_sound-IsSound, some_injective,
  none-ne-some,
}

abbrev pub Db : Type 0
Db = ℕ → Option (ℤ × ℕ)

abbrev pub index : Currency → ℕ
index ars = 0
index usd = 1
index usdt = 2
index brl = 3

abbrev pub currency_at : ℕ → Currency
currency_at i = if i == 0 then ars else (if i == 1 then usd else (if i == 2 then usdt else brl))

-- The wallet of a user in a currency has the identifier `4 * user + index`.
abbrev pub key : ℕ → Currency → ℕ
key u cur = 4 * u + index cur

abbrev pub row : ℕ → ℤ × ℕ → WalletRow ℤ
row i x = record {
  id = i;
  user_id = some (i / 4);
  currency = currency_at (i % 4);
  balance = x.0;
  version = x.1;
}

abbrev pub row_if : ℕ → Option (ℤ × ℕ) → Option (WalletRow ℤ)
row_if i none = none
row_if i (some x) = some (row i x)

abbrev pub row_of : ℕ → Db → Option (WalletRow ℤ)
row_of i s = row_if i (s i)

abbrev pub put : ℕ → ℤ × ℕ → Db → Db
put i x s = λ j. if i == j then some x else s j

abbrev pub units : ℤ → ℤ
units d = d

abbrev pub apply : Change ℤ → ℤ → ℤ
apply (increment d) u = u +ℤ d
apply (decrement d) u = u -ℤ d

-- The column and its constraint.
abbrev pub store_if : Bool → ℕ → ℤ × ℕ → Action Db ℕ
store_if true i x s = (ok 1, put i x s)
store_if false i x s = (err (other "23514"), s)

abbrev pub update_at : Option (ℤ × ℕ) → ℕ → ℕ → Change ℤ → Action Db ℕ
update_at none i v change s = (ok 0, s)
update_at (some x) i v change s =
    if x.1 == v
    then store_if (is_sound (apply change x.0)) i (apply change x.0, suc x.1) s
    else (ok 0, s)

abbrev pub upsert_at : Option (ℤ × ℕ) → ℕ → Action Db (WalletRow ℤ)
upsert_at none i s = (ok (row i (pos 0, 1)), put i (pos 0, 1) s)
upsert_at (some x) i s = (ok (row i x), s)

abbrev pub decimal_of : Result MoneyError Money → ℤ
decimal_of (ok m) = m.ledger_units
decimal_of (err e) = pos 0

abbrev pub client : Client Db ℤ
client = record {
  to_fixed = λ d. to_ledger_string (record { ledger_units = d; currency = usd });
  to_text = λ d. to_ledger_string (record { ledger_units = d; currency = usd });
  decimal = λ t. decimal_of (restore t usd);
  find_unique = λ u cur s. row_of (key u cur) s;
  upsert = λ u cur s. upsert_at (s (key u cur)) (key u cur) s;
  update_many = λ i v change s. update_at (s i) i v change s;
  create_transaction = λ row. throw (other "none");
}

decimal_units :
    (m : Money) → IsBelowCeiling m → decimal_of (restore (to_ledger_string m) usd) ≡ m.ledger_units
unfolding to_ledger_string
decimal_units m h =
    ap decimal_of
      (restore-to_ledger_string (record { ledger_units = m.ledger_units; currency = usd }) h)

own_row :
    (i : ℕ) (o : Option (ℤ × ℕ)) (r : WalletRow ℤ)
    → row_if i o ≡ some r
    → (x : ℤ × ℕ) × (o ≡ some x) × (row i x ≡ r)
own_row i none r h = absurd (none-ne-some h)
own_row i (some x) r h = (x, refl, some_injective h)

put_lem : (i : ℕ) (x : ℤ × ℕ) (s : Db) → Puts client units row_of (row i x) s (put i x s)
put_lem i x s j = elim (Bool-cases (i == j)) [
  | inl e ↦
      ap (λ b. row_if j (if b then some x else s j)) e
      ∙ ap (λ n. some (row n x)) (sym ((==_iff i j).0 e))
      ∙ sym (ap (λ b. if b then some (row i x) else row_of j s) e)
  | inr e ↦
      ap (λ b. row_if j (if b then some x else s j)) e
      ∙ sym (ap (λ b. if b then some (row i x) else row_of j s) e)
]

row-IsChanged :
    (i : ℕ) (change : Change ℤ) (x : ℤ × ℕ)
    → IsChanged client units row_of change (row i x) (row i (apply change x.0, suc x.1))
row-IsChanged i (increment d) x = record {
  same_id = refl;
  same_currency = refl;
  next_version = refl;
  new_units = refl;
}
row-IsChanged i (decrement d) x = record {
  same_id = refl;
  same_currency = refl;
  next_version = refl;
  new_units = refl;
}

same_row :
    (j : ℕ) (i : ℕ) (x : ℤ × ℕ) (s : Db)
    → s i ≡ some x
    → row_of j s ≡ (if i == j then some (row i x) else row_of j s)
same_row j i x s h = elim (Bool-cases (i == j)) [
  | inl e ↦
      ap (λ n. row_of n s) (sym ((==_iff i j).0 e))
      ∙ ap (row_if i) h
      ∙ sym (ap (λ b. if b then some (row i x) else row_of j s) e)
  | inr e ↦ sym (ap (λ b. if b then some (row i x) else row_of j s) e)
]

abbrev Upserted : ℕ → Db → Result Error (WalletRow ℤ) × Db → Type 0
Upserted i s p =
    (s' : Db) (r : WalletRow ℤ)
    → p ≡ (ok r, s')
    → Puts client units row_of r s s'
      × ((row_of r.id s ≡ some r) ⊎ ((row_of r.id s ≡ none) × (r.balance ≡ pos 0)))

answered :
    (i : ℕ) (s s0 : Db) (r0 : WalletRow ℤ)
    → Puts client units row_of r0 s s0
    → ((row_of r0.id s ≡ some r0) ⊎ ((row_of r0.id s ≡ none) × (r0.balance ≡ pos 0)))
    → Upserted i s (ok r0, s0)
answered i s s0 r0 puts cases s' r h =
    let e : r0 ≡ r = cc in
    let e' : s0 ≡ s' = cc in
    (
      subst (λ x. Puts client units row_of r s x) e'
          (subst (λ x. Puts client units row_of x s s0) e puts),
      subst (λ x. (row_of x.id s ≡ some x) ⊎ ((row_of x.id s ≡ none) × (x.balance ≡ pos 0))) e
          cases,
    )

upserted : (i : ℕ) (s : Db) → Upserted i s (upsert_at (s i) i s)
upserted i s = elim (Option-cases (s i)) [
  | inl free ↦
      subst (λ o. Upserted i s (upsert_at o i s)) (sym free)
        (answered i s (put i (pos 0, 1) s) (row i (pos 0, 1)) (put_lem i (pos 0, 1) s)
          (inr (ap (row_if i) free, refl)))
  | inr (x, e) ↦
      subst (λ o. Upserted i s (upsert_at o i s)) (sym e)
        (answered i s s (row i x) (λ j. same_row j i x s e) (inl (ap (row_if i) e)))
]

apply_lem : (change : Change ℤ) (u : ℤ) → changed client units row_of change u ≡ apply change u
apply_lem (increment d) u = refl
apply_lem (decrement d) u = refl

-- A change at the version of the row comes to the test of its column.
tested :
    (i v : ℕ) (b : Bool) (change : Change ℤ) (s : Db) (r : WalletRow ℤ) (x : ℤ × ℕ)
    → s i ≡ some x
    → row i x ≡ r
    → r.version ≡ v
    → is_sound (changed client units row_of change r.balance) ≡ b
    → update_at (s i) i v change s ≡ store_if b i (apply change x.0, suc x.1) s
tested i v b change s r x e same now h =
    let y : ℤ × ℕ = (apply change x.0, suc x.1) in
    ap (λ o. update_at o i v change s) e
    ∙ ap {B = Result Error ℕ × Db}
        (λ t. if t then store_if (is_sound (apply change x.0)) i y s else (ok 0, s))
        ((==_iff x.1 v).1 (ap (λ r'. r'.version) same ∙ now))
    ∙ ap (λ t. store_if t i y s)
        (ap is_sound (sym (apply_lem change x.0))
          ∙ ap (λ r'. is_sound (changed client units row_of change r'.balance)) same
          ∙ h)

current :
    (i v : ℕ) (change : Change ℤ) (s : Db) (r : WalletRow ℤ)
    → row_of i s ≡ some r
    → r.version ≡ v
    → IsSound (changed client units row_of change r.balance)
    → (s' : Db) × (r' : WalletRow ℤ) × (update_at (s i) i v change s ≡ (ok 1, s'))
      × IsChanged client units row_of change r r'
      × Puts client units row_of r' s s'
current i v change s r found now sound =
    let (x, e, same) = own_row i (s i) r found in
    let y : ℤ × ℕ = (apply change x.0, suc x.1) in
    (
      put i y s,
      row i y,
      tested i v true change s r x e same now (is_sound-IsSound _ sound),
      subst (λ r'. IsChanged client units row_of change r' (row i y)) same
          (row-IsChanged i change x),
      put_lem i y s,
    )

unsound :
    (i v : ℕ) (change : Change ℤ) (s : Db) (r : WalletRow ℤ)
    → row_of i s ≡ some r
    → r.version ≡ v
    → is_sound (changed client units row_of change r.balance) ≡ false
    → (e : Error) × (update_at (s i) i v change s ≡ (err e, s))
unsound i v change s r found now h =
    let (x, e, same) = own_row i (s i) r found in
    (other "23514", tested i v false change s r x e same now h)

old :
    (i v : ℕ) (change : Change ℤ) (s : Db) (o : Option (ℤ × ℕ))
    → ((r : WalletRow ℤ) → row_if i o ≡ some r → r.version ≢ v)
    → update_at o i v change s ≡ (ok 0, s)
old i v change s none h = refl
old i v change s (some x) h = elim (Bool-cases (x.1 == v)) [
  | inl e ↦ absurd (h (row i x) refl ((==_iff x.1 v).0 e))
  | inr e ↦
      ap {B = Result Error ℕ × Db}
        (λ b.
          if b
          then store_if (is_sound (apply change x.0)) i (apply change x.0, suc x.1) s
          else (ok 0, s))
        e
]

pub client-IsClient : IsClient client units row_of
client-IsClient = record {
  fixed_text = λ d cur. unfold to_ledger_string in refl;
  decimal_units = decimal_units;
  own_id = λ i s r h. let (x, e, same) = own_row i (s i) r h in sym (ap (λ r'. r'.id) same);
  find_row = λ u cur s r h.
      let (x, e, same) = own_row (key u cur) (s (key u cur)) r h in
      ap (λ r'. row_of r'.id s) (sym same) ∙ h;
  update_current = current;
  update_unsound = unsound;
  update_stale = λ i v change s h. old i v change s (s i) h;
  upsert_row = λ u cur s s' r h. upserted (key u cur) s s' r h;
}

index_at : (i j : ℕ) → i % 4 ≡ j → currency_at (i % 4) ≡ currency_at j
index_at i j h = ap currency_at h

index_back : (u : ℕ) (cur : Currency) → currency_at (key u cur % 4) ≡ cur
index_back u ars = index_at (key u ars) 0 (omega arith)
index_back u usd = index_at (key u usd) 1 (omega arith)
index_back u usdt = index_at (key u usdt) 2 (omega arith)
index_back u brl = index_at (key u brl) 3 (omega arith)

pub of_currency :
    (u : ℕ) (cur : Currency) (s : Db) (r : WalletRow ℤ)
    → client.find_unique u cur s ≡ some r
    → r.currency ≡ cur
of_currency u cur s r h =
    let (x, e, same) = own_row (key u cur) (s (key u cur)) r h in
    ap (λ r'. r'.currency) (sym same) ∙ index_back u cur
