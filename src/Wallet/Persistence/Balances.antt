-- ===== src/Wallet/Persistence/Balances.antt =====
-- The balances after the tests of a debit and of a credit.
use payflow_x.Prelude.{◌<◌, ◌≡◌, false, arith}
use payflow_x.Prelude.Int.{ℤ, pos, negsuc, is_negative, magnitude, ◌+ℤ◌, ◌-ℤ◌, ltb_ℤ}
use payflow_x.Prelude.Result.{ok}
use payflow_x.Amount.{ceiling_units}
use payflow_x.Money.{Money, add, is_less_than, from_units}
use payflow_x.Wallet.Persistence.Statements.{IsSound}

sub_pos : (u v : ℤ) → IsSound u → is_negative v ≡ false → ltb_ℤ u v ≡ false → IsSound (u -ℤ v)
unfolding ◌-ℤ◌
sub_pos (pos a) (pos b) sound pos_v enough = ground (arith, sound, enough)
sub_pos (pos a) (negsuc b) sound pos_v enough = cc
sub_pos (negsuc a) v sound pos_v enough = absurd (ground (arith, sound))

add_pos :
    (u v : ℤ)
    → IsSound u
    → is_negative v ≡ false
    → magnitude (u +ℤ v) < ceiling_units
    → IsSound (u +ℤ v)
unfolding ◌+ℤ◌
add_pos (pos a) (pos b) sound pos_v small = ground (arith, small)
add_pos (pos a) (negsuc b) sound pos_v small = cc
add_pos (negsuc a) v sound pos_v small = absurd (ground (arith, sound))

-- The test before a debit, and that before a credit, on the balance that was read.
pub sub-IsSound :
    {u : ℤ} (w m : Money)
    → IsSound u
    → w.ledger_units ≡ u
    → is_negative m.ledger_units ≡ false
    → is_less_than w m ≡ ok false
    → IsSound (u -ℤ m.ledger_units)
unfolding is_less_than
sub-IsSound {u} w m sound e pos_m enough =
    sub_pos u m.ledger_units sound pos_m (ground (arith, e, enough))

pub add-IsSound :
    {u : ℤ} (w m sum : Money)
    → IsSound u
    → w.ledger_units ≡ u
    → is_negative m.ledger_units ≡ false
    → add w m ≡ ok sum
    → IsSound (u +ℤ m.ledger_units)
unfolding add from_units
add-IsSound {u} w m sum sound e pos_m fits =
    add_pos u m.ledger_units sound pos_m (ground (arith, e, fits))
