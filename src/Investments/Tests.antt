-- ===== src/Investments/Tests.antt =====
-- Orders on one asset at 10 dollars, with balances and positions by user.
use payflow_x.Prelude.{
  ℕ, ◌≡◌, refl, sym, ap, ◌∙◌, Bool, true, false, arith, Option, none, some, List, [], ◌∷◌, ◌==◌,
  ==_refl, if◌then◌else◌,
}
use payflow_x.Prelude.Int.{ℤ, pos, ◌+ℤ◌, ◌-ℤ◌, ltb_ℤ, magnitude, quotient, scale}
use payflow_x.Prelude.Result.{ok, err}
use payflow_x.Http.{Error, Action, other}
use payflow_x.Floats.{Floats}
use payflow_x.Wallet.Persistence.{Change, increment, decrement}
use payflow_x.Investments.{
  Desk, Order, Buy, Sell, Quote, UsdWallet, Position, Bought, Reduced, buy_work, buy_reads,
  buy_writes, sell_work, sell_order,
}
use payflow_x.Investments.Statements.{IsDesk, Pays, settled}
use payflow_x.Investments.Buying.{Purchase, buy_work-Purchase}
use payflow_x.Investments.Racing.{second_buy_fails}
use payflow_x.Wallet.Persistence.Statements.{is_sound, is_sound-IsSound}
use payflow_x.Investments.Selling.{Remains, sell_work-Remains}

abbrev Row : Type 0
Row = Option (Position ℤ)

record Floor : Type 0 where
  balances : ℕ → Option ℤ
  positions : ℕ → ℕ → Row
  orders : List (Order ℤ)

abbrev set_row : ℕ → ℕ → Row → Floor → Floor
set_row u a x s = record s {
  positions =
      λ u' a'. if u == u' then (if a == a' then x else s.positions u' a') else s.positions u' a';
}

abbrev pay : ℕ → ℤ → Floor → Floor
pay i d s = record s { balances = λ j. if i == j then some d else s.balances j }

abbrev wallet_if : ℕ → Option ℤ → Option (UsdWallet ℤ)
wallet_if u none = none
wallet_if u (some d) = some (record { id = u; balance = d })

abbrev coin : Quote ℤ
coin = record { symbol = "BTC"; current_price = pos 10 }

abbrev row_of : Bought ℤ → ℤ → Position ℤ
row_of x q = record {
  quantity = q;
  avg_buy_price = x.avg_buy_price;
  current_value = x.current_value;
}

abbrev add_at : Row → ℕ → ℕ → Bought ℤ → Action Floor (Position ℤ)
add_at none u a x s = (err (other "P2025"), s)
add_at (some p) u a x s =
    let p' = row_of x (p.quantity +ℤ x.quantity) in (ok p', set_row u a (some p') s)

abbrev create_at : Row → ℕ → ℕ → Bought ℤ → Action Floor (Position ℤ)
create_at (some p) u a x s = (err (other "P2002"), s)
create_at none u a x s = (ok (row_of x x.quantity), set_row u a (some (row_of x x.quantity)) s)

abbrev set_at : Row → ℕ → ℕ → Reduced ℤ → Action Floor (Position ℤ)
set_at none u a x s = (err (other "P2025"), s)
set_at (some p) u a x s =
    let p' : Position ℤ = record p { quantity = x.quantity; current_value = x.current_value } in
    (ok p', set_row u a (some p') s)

abbrev delete_at : Row → ℕ → ℕ → Action Floor (Position ℤ)
delete_at none u a s = (err (other "P2025"), s)
delete_at (some p) u a s = (ok p, set_row u a none s)

abbrev apply : Change ℤ → ℤ → ℤ
apply (increment d) u = u +ℤ d
apply (decrement d) u = u -ℤ d

-- The column and its constraint.
abbrev pay_if : Bool → ℕ → ℤ → Action Floor (Unit {0})
pay_if true i d s = (ok tt, pay i d s)
pay_if false i d s = (err (other "23514"), s)

abbrev pay_at : Option ℤ → ℕ → Change ℤ → Action Floor (Unit {0})
pay_at none i change s = (err (other "P2025"), s)
pay_at (some d) i change s = pay_if (is_sound (apply change d)) i (apply change d) s

abbrev desk : Desk Floor ℤ ℤ
desk = record {
  find_asset = λ a s. some coin;
  find_usd_wallet = λ u s. wallet_if u (s.balances u);
  find_position = λ u a s. s.positions u a;
  quote_of = λ a s. coin;
  add_to_position = λ u a x s. add_at (s.positions u a) u a x s;
  create_position = λ u a x s. create_at (s.positions u a) u a x s;
  set_position = λ u a x s. set_at (s.positions u a) u a x s;
  delete_position = λ u a s. delete_at (s.positions u a) u a s;
  create_order = λ o s. (ok tt, record s { orders = o ∷ s.orders });
  update_balance = λ i change s. pay_at (s.balances i) i change s;
}

abbrev whole : Floats ℤ ℤ
whole = record {
  number = λ d. d;
  round2 = λ d. d;
  round8 = λ d. d;
  zero_float = pos 0;
  hundred = pos 100;
  plus = λ a b. a +ℤ b;
  minus = λ a b. a -ℤ b;
  times = λ a b. scale a (magnitude b);
  over = λ a b. quotient a (magnitude b);
  less = ltb_ℤ;
  is_positive = λ a. ltb_ℤ (pos 0) a;
}

abbrev same : ℤ → ℤ
same d = d

abbrev balance_of : ℕ → Floor → Option ℤ
balance_of i s = s.balances i

abbrev finite : ℤ → Bool
finite x = true

abbrev orders_of : Floor → List (Order ℤ)
orders_of s = s.orders

own_row : (u a : ℕ) (x y z : Row) → (if u == u then (if a == a then x else y) else z) ≡ x
own_row u a x y z =
    ap (λ b. if b then (if a == a then x else y) else z) (==_refl u)
    ∙ ap (λ b. if b then x else y) (==_refl a)

stored :
    (u : ℕ) (o : Option ℤ) (w : UsdWallet ℤ)
    → wallet_if u o ≡ some w
    → (w.id ≡ u) × (o ≡ some w.balance)
stored u none w h = absurd (cc)
stored u (some d) w h =
    let e : record { id = u; balance = d } ≡ w = cc in
    (sym (ap (λ x. x.id) e), ap (λ x. some x.balance) e)

settled_lem :
    (change : Change ℤ) (d : ℤ)
    → apply change d ≡ settled desk same same balance_of orders_of finite change d
settled_lem (increment x) d = refl
settled_lem (decrement x) d = refl

add_keeps :
    (o : Row) (u a : ℕ) (x : Bought ℤ) (s : Floor) (j : ℕ)
    → balance_of j (add_at o u a x s).1 ≡ balance_of j s
add_keeps none u a x s j = refl
add_keeps (some p) u a x s j = refl

create_keeps :
    (o : Row) (u a : ℕ) (x : Bought ℤ) (s : Floor) (j : ℕ)
    → balance_of j (create_at o u a x s).1 ≡ balance_of j s
create_keeps none u a x s j = refl
create_keeps (some p) u a x s j = refl

desk-IsDesk : IsDesk desk same same balance_of orders_of finite
desk-IsDesk = record {
  stored_wallet = λ u s w h. let (e, e') = stored u (s.balances u) w h in ap s.balances e ∙ e';
  add_found = λ u a x s p h fits.
      let p' = row_of x (p.quantity +ℤ x.quantity) in
      (
        set_row u a (some p') s,
        p',
        ap (λ o. add_at o u a x s) h,
        own_row u a (some p') _ _,
        refl,
        (λ j. refl),
        refl,
      );
  create_new = λ u a x s h fits.
      let p' = row_of x x.quantity in
      (
        set_row u a (some p') s,
        p',
        ap (λ o. create_at o u a x s) h,
        own_row u a (some p') _ _,
        refl,
        (λ j. refl),
        refl,
      );
  set_found = λ u a x s p h fits.
      let p' : Position ℤ = record p { quantity = x.quantity; current_value = x.current_value } in
      (
        set_row u a (some p') s,
        p',
        ap (λ o. set_at o u a x s) h,
        own_row u a (some p') _ _,
        refl,
        (λ j. refl),
        refl,
      );
  delete_found = λ u a s p h.
      (set_row u a none s, ap (λ o. delete_at o u a s) h, own_row u a none _ _, (λ j. refl), refl);
  record_order =
      λ o s fits. (record s { orders = o ∷ s.orders }, refl, (λ j. refl), (λ u a. refl), refl);
  change_balance = λ i change s d h taken sound. (
    pay i (apply change d) s,
    apply change d,
    ap (λ o. pay_at o i change s) h
        ∙ ap (λ b. pay_if b i (apply change d) s)
            (ap is_sound (settled_lem change d) ∙ is_sound-IsSound _ sound),
    settled_lem change d,
    (λ j. refl),
    (λ u a. refl),
    refl,
  );
  change_unsound = λ i change s d h unsound. (
    other "23514",
    ap (λ o. pay_at o i change s) h
        ∙ ap (λ b. pay_if b i (apply change d) s) (ap is_sound (settled_lem change d) ∙ unsound),
  );
  add_keeps = λ u a x s j. add_keeps (s.positions u a) u a x s j;
  create_keeps = λ u a x s j. create_keeps (s.positions u a) u a x s j;
  order_keeps = λ o s j. refl;
}

-- The user 7 has 100 dollars and three coins.
abbrev start : Floor
start = record {
  balances = λ i. if i == 7 then some (pos 100) else none;
  positions = λ u a.
      if u == 7
      then some (record { quantity = pos 3; avg_buy_price = pos 8; current_value = pos 30 })
      else none;
  orders = [];
}

abbrev usd : UsdWallet ℤ
usd = record { id = 7; balance = pos 100 }

abbrev eighty : Buy ℤ
eighty = record { user_id = 7; asset_id = 1; amount = pos 80 }

abbrev ninety : Buy ℤ
ninety = record { user_id = 7; asset_id = 2; amount = pos 90 }

buy_work-Purchase_example :
    (s' : Floor) × (p : Position ℤ) × (buy_work desk whole eighty start ≡ (ok p, s'))
    × Purchase desk whole same same balance_of orders_of finite desk-IsDesk eighty
        (coin, usd)
        (pos 100)
        start
        s'
        p
unfolding ◌+ℤ◌ ◌-ℤ◌ scale quotient
buy_work-Purchase_example =
    buy_work-Purchase desk whole same same balance_of orders_of finite desk-IsDesk eighty start coin
      usd refl refl refl ((refl, omega arith), (refl, omega arith), (refl, omega arith))
      (refl, omega arith) (refl, omega arith)

second_buy_fails_example :
    (s1 : Floor) × (p : Position ℤ) × (d : ℤ) × (e : Error) × (buy_reads desk whole eighty start
      ≡ (ok (coin, usd), start))
    × (buy_reads desk whole ninety start ≡ (ok (coin, usd), start))
    × (buy_writes desk whole eighty (coin, usd) start ≡ (ok p, s1))
    × (balance_of 7 s1 ≡ some d)
    × (d ≡ pos 100 -ℤ pos 80)
    × ((buy_writes desk whole ninety (coin, usd) s1).0 ≡ err e)
    × (balance_of 7 (buy_writes desk whole ninety (coin, usd) s1).1 ≡ some d)
unfolding ◌+ℤ◌ ◌-ℤ◌ scale quotient
second_buy_fails_example =
    second_buy_fails desk whole same same balance_of orders_of finite desk-IsDesk eighty ninety
      start coin coin usd refl refl refl refl refl refl
      ((refl, omega arith), (refl, omega arith), (refl, omega arith)) (refl, omega arith)
      (refl, omega arith) refl

abbrev two : Sell ℤ
two = record { user_id = 7; asset_id = 1; quantity = pos 2 }

sell_work-Remains_example :
    (s' : Floor) × (p : Position ℤ) × (d : ℤ) × (sell_work desk whole two start
      ≡ (ok (p, scale (pos 2) 10), s'))
    × (d ≡ pos 100 +ℤ scale (pos 2) 10)
    × Pays desk same same balance_of orders_of finite 7 d start s'
    × Remains desk whole same same balance_of orders_of finite desk-IsDesk
        (ltb_ℤ (pos 0) (pos 3 -ℤ pos 2))
        (pos 3 -ℤ pos 2)
        (s'.positions 7 1)
    × (s'.orders ≡ sell_order desk whole two coin usd ∷ [])
unfolding ◌+ℤ◌ ◌-ℤ◌ scale quotient
sell_work-Remains_example =
    sell_work-Remains desk whole same same balance_of orders_of finite desk-IsDesk two start
      (record { quantity = pos 3; avg_buy_price = pos 8; current_value = pos 30 }) usd refl refl
      refl ((refl, omega arith), (refl, omega arith)) (refl, omega arith) (refl, omega arith)
