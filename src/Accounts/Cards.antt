-- ===== src/Accounts/Cards.antt =====
-- Freezing a card (src/modules/card/card.service.ts).
pub mod Freezing
use payflow_x.Prelude.{ℕ, Bool, true, false, not}
use payflow_x.Http.{unprocessable, text, http, Error, Action, throw_if, ◌>>=◌, ◌>>◌}
use payflow_x.Db.{Table}
use payflow_x.Accounts.Owned.{own}

-- The columns of `Card` that the service reads or writes.
pub record Card : Type 0 where
  pub user_id : ℕ
  pub is_frozen : Bool

abbrev pub card_owner : Card → ℕ
card_owner card = card.user_id

abbrev pub already_frozen : Error
already_frozen = http unprocessable (text "Card is already frozen")

abbrev pub not_frozen : Error
not_frozen = http unprocessable (text "Card is not frozen")

module _ {S : Type 0} (t : Table S Card) where
  -- What `freeze` does with the card that it finds.
  unfoldable pub freeze_card : ℕ → Card → Action S Card
  freeze_card id card = do
    throw_if card.is_frozen already_frozen
    t.update id λ row. record row { is_frozen = true }

  unfoldable pub freeze : ℕ → ℕ → Action S Card
  unfolding freeze_card
  freeze id user_id = own t card_owner user_id id (text "Card") >>= freeze_card id

  unfoldable pub unfreeze_card : ℕ → Card → Action S Card
  unfreeze_card id card = do
    throw_if (not card.is_frozen) not_frozen
    t.update id λ row. record row { is_frozen = false }

  unfoldable pub unfreeze : ℕ → ℕ → Action S Card
  unfolding unfreeze_card
  unfreeze id user_id = own t card_owner user_id id (text "Card") >>= unfreeze_card id
