-- ===== src/Wallet/InMemory/Stored.antt =====
-- The collection of wallets: lookups by id and by owner under `Map.set`, and the two keys.
use payflow_x.Prelude.{
  ℕ, ◌≡◌, ◌≢◌, refl, sym, ◌∙◌, ◌⊎◌, inl, inr, true, false, none, some, List, [], ◌∷◌, arith, ◌==◌,
  if◌then◌else◌, ==_iff, Bool-cases,
}
use payflow_x.Amount.{Currency, same_currency}
use payflow_x.Wallet.InMemory.{StoredWallet, get_wallet, set_wallet, is_of, wallet_of}

pub same_currency_eq : (a b : Currency) → same_currency a b ≡ true → a ≡ b
same_currency_eq a b h = ground arith

pub same_currency_refl : (a : Currency) → same_currency a a ≡ true
same_currency_refl a = ground arith

-- Two wallets of one owner and currency.
same_owner :
    (u : ℕ) (c : Currency) (v w : StoredWallet)
    → is_of u c w ≡ true
    → is_of u c v ≡ true
    → is_of v.user_id v.currency w ≡ true
same_owner u c v w hw hv =
    ground
      (arith, same_currency_eq w.currency c, same_currency_eq v.currency c, same_currency_refl c)

pub is_of_self : (w : StoredWallet) → is_of w.user_id w.currency w ≡ true
is_of_self w = ground (arith, same_currency_refl w.currency)

is_of_symm :
    (v w : StoredWallet)
    → is_of v.user_id v.currency w ≡ false
    → is_of w.user_id w.currency v ≡ false
is_of_symm v w h =
    ground (arith, same_currency_eq v.currency w.currency, same_currency_refl w.currency)

-- Ids are distinct, and so are the pairs of an owner and a currency.
abbrev pub IsKeyed : List StoredWallet → Type 0
IsKeyed [] = Unit
IsKeyed (w ∷ ws) =
    (get_wallet w.id ws ≡ none) × (wallet_of w.user_id w.currency ws ≡ none) × IsKeyed ws

-- `v` takes the place of a wallet with its id, owner and currency, or is new.
abbrev pub Fits : StoredWallet → List StoredWallet → Type 0
Fits v [] = Unit
Fits v (w ∷ ws) =
    (w.id ≡ v.id) × (w.user_id ≡ v.user_id) × (w.currency ≡ v.currency)
    ⊎ (w.id ≢ v.id) × (is_of v.user_id v.currency w ≡ false) × Fits v ws

pub get_wallet-set :
    (k : ℕ) (v : StoredWallet) (ws : List StoredWallet)
    → get_wallet k (set_wallet v ws) ≡ (if v.id == k then some v else get_wallet k ws)
get_wallet-set k v [] = refl
get_wallet-set k v (w ∷ ws) = ground (arith, get_wallet-set k v ws)

pub get_wallet-wallet_of :
    (u : ℕ) (c : Currency) (ws : List StoredWallet) {w : StoredWallet}
    → IsKeyed ws
    → wallet_of u c ws ≡ some w
    → get_wallet w.id ws ≡ some w
unfolding wallet_of
get_wallet-wallet_of u c [] h e = cc
get_wallet-wallet_of u c (x ∷ ws) {w} h e = ground (arith, get_wallet-wallet_of u c ws {w = w} h.2)

pub wallet_of-is_of :
    (u : ℕ) (c : Currency) (ws : List StoredWallet) {w : StoredWallet}
    → wallet_of u c ws ≡ some w
    → is_of u c w ≡ true
unfolding wallet_of
wallet_of-is_of u c [] e = cc
wallet_of-is_of u c (x ∷ ws) {w} e = ground (arith, wallet_of-is_of u c ws {w = w})

pub wallet_of-set :
    (u : ℕ) (c : Currency) (v : StoredWallet) (ws : List StoredWallet)
    → Fits v ws
    → wallet_of u c (set_wallet v ws) ≡ (if is_of u c v then some v else wallet_of u c ws)
unfolding wallet_of
wallet_of-set u c v [] h = refl
wallet_of-set u c v (w ∷ ws) h = ground (arith, wallet_of-set u c v ws, same_owner u c v w)

pub IsKeyed-set :
    (v : StoredWallet) (ws : List StoredWallet) → Fits v ws → IsKeyed ws → IsKeyed (set_wallet v ws)
IsKeyed-set v [] h k = (refl, unfold wallet_of in refl, tt)
IsKeyed-set v (w ∷ ws) (inl (i, u, c)) k =
    rw ((==_iff w.id v.id).1 i) (rw (← i) k.0, rw (← u, ← c) k.1, k.2)
IsKeyed-set v (w ∷ ws) (inr (ne, owner, fits)) k =
    let e : (w.id == v.id) ≡ false = ground arith in
    rw e (
      ground (arith, get_wallet-set w.id v ws),
      ground (arith, wallet_of-set w.user_id w.currency v ws fits, is_of_symm v w),
      IsKeyed-set v ws fits k.2,
    )

-- A wallet that is stored is not of an owner that has none.
wallet_of_ne :
    (u : ℕ) (c : Currency) (w : StoredWallet) (k : ℕ) (ws : List StoredWallet)
    → get_wallet k ws ≡ some w
    → wallet_of u c ws ≡ none
    → is_of u c w ≡ false
unfolding wallet_of
wallet_of_ne u c w k [] e n = cc
wallet_of_ne u c w k (x ∷ ws) e n = ground (arith, wallet_of_ne u c w k ws)

-- A changed copy of a wallet that is stored fits; so does one with a new id and a new owner.
pub Fits-changed :
    (v w : StoredWallet) (ws : List StoredWallet)
    → IsKeyed ws
    → get_wallet v.id ws ≡ some w
    → w.user_id ≡ v.user_id
    → w.currency ≡ v.currency
    → Fits v ws
Fits-changed v w [] k e eu ec = cc
Fits-changed v w (x ∷ ws) k e eu ec = elim (Bool-cases (x.id == v.id)) [
  | inl same ↦ inl (ground arith, ground arith, ground arith)
  | inr other ↦ inr (
    ground arith,
    ground (arith, wallet_of_ne x.user_id x.currency w v.id ws (ground arith) k.1, is_of_symm v x),
    Fits-changed v w ws k.2 (ground arith) eu ec,
  )
]

pub Fits-new :
    (v : StoredWallet) (ws : List StoredWallet)
    → get_wallet v.id ws ≡ none
    → wallet_of v.user_id v.currency ws ≡ none
    → Fits v ws
unfolding wallet_of
Fits-new v [] e n = tt
Fits-new v (x ∷ ws) e n = ground (arith, Fits-new v ws)

pub is_of_parts :
    (u : ℕ) (c : Currency) (w : StoredWallet)
    → is_of u c w ≡ true
    → (w.user_id ≡ u) × (w.currency ≡ c)
is_of_parts u c w h = (ground arith, same_currency_eq w.currency c (ground arith))

-- A wallet that is found for one owner is the one found for any owner that it belongs to.
pub wallet_of_same :
    (u u' : ℕ) (c c' : Currency) (ws : List StoredWallet) {w : StoredWallet}
    → wallet_of u c ws ≡ some w
    → is_of u' c' w ≡ true
    → wallet_of u' c' ws ≡ some w
wallet_of_same u u' c c' ws {w} e h =
    let a = is_of_parts u c w (wallet_of-is_of u c ws e) in
    let b = is_of_parts u' c' w h in cc (e, sym b.0 ∙ a.0, sym b.1 ∙ a.1)
