-- ===== src/Accounts/Cards/Freezing.antt =====
-- Freezing and unfreezing are inverse, refuse to be repeated, and touch only the user's own cards.
use payflow_x.Prelude.{
  ℕ, ◌≡◌, refl, sym, ap, ◌∙◌, Bool, true, false, not, some, ==_refl, if◌then◌else◌,
}
use payflow_x.Prelude.Result.{Result, ok, err}
use payflow_x.Http.{Action, Error, text, throw_if, ◌>>◌}
use payflow_x.Db.{Table, IsTable}
use payflow_x.Accounts.Owned.{own_found, own_spares, update_spares, SparesOthers}
use payflow_x.Accounts.Cards.{
  Card, card_owner, freeze, freeze_card, unfreeze, unfreeze_card, already_frozen, not_frozen,
}

-- A request on a card.
pub data CardRequest : Type 0 where
  freeze_request unfreeze_request : CardRequest

module _ {S : Type 0} (t : Table S Card) where
  abbrev pub serve_cards : CardRequest → ℕ → ℕ → Action S Card
  serve_cards freeze_request id user_id = freeze t id user_id
  serve_cards unfreeze_request id user_id = unfreeze t id user_id

module _ {S : Type 0} (t : Table S Card) (law : IsTable t) where
  set_frozen :
      (b : Bool) (id : ℕ) (s : S) (card : Card)
      → t.find_unique id s ≡ some card
      → (s' : S) × (t.update id (λ row. record row { is_frozen = b }) s
          ≡ (ok (record card { is_frozen = b }), s'))
        × (t.find_unique id s' ≡ some (record card { is_frozen = b }))
  set_frozen b id s card found =
      let (s', done, writes) =
        law.update_found id (λ row. record row { is_frozen = b }) card s found in
      (
        s',
        done,
        writes id
            ∙ ap (λ t'. if t' then some (record card { is_frozen = b }) else t.find_unique id s)
                (==_refl id),
      )

  -- A card of the user that is not frozen can be frozen, once; then it can be unfrozen, which gives
  -- the card back as it was.
  pub unfreeze-freeze :
      (id u : ℕ) (s : S) (card : Card)
      → t.find_unique id s ≡ some card
      → card.user_id ≡ u
      → card.is_frozen ≡ false
      → (s1 s2 : S) × (freeze t id u s ≡ (ok (record card { is_frozen = true }), s1))
        × (freeze t id u s1 ≡ (err already_frozen, s1))
        × (unfreeze t id u s1 ≡ (ok card, s2))
        × (t.find_unique id s2 ≡ some card)
  unfolding freeze freeze_card unfreeze unfreeze_card
  unfreeze-freeze id u s card found is_own free =
      let (s1, done1, found1) = set_frozen true id s card found in
      let (s2, done2, found2) = set_frozen false id s1 (record card { is_frozen = true }) found1 in
      let back : record card { is_frozen = false } ≡ card =
        ap (λ b. record card { is_frozen = b }) (sym free) in
      (
        s1,
        s2,
        own_found t card_owner u id (text "Card") (freeze_card t id) s card found is_own
            ∙ ap
                (λ b.
                  (throw_if b already_frozen
                      >> t.update id (λ row. record row { is_frozen = true }))
                    s)
                free
            ∙ done1,
        own_found t card_owner u id (text "Card") (freeze_card t id) s1
            (record card { is_frozen = true }) found1 is_own,
        own_found t card_owner u id (text "Card") (unfreeze_card t id) s1
              (record card { is_frozen = true }) found1 is_own
            ∙ done2
            ∙ ap {B = Result Error Card × S} (λ c. (ok c, s2)) back,
        found2 ∙ ap some back,
      )

  update_step :
      (u id : ℕ) (b c : Bool) (e : Error) (s : S) (card : Card)
      → t.find_unique id s ≡ some card
      → card.user_id ≡ u
      → SparesOthers t card_owner u s
          ((throw_if c e >> t.update id (λ row. record row { is_frozen = b })) s).1
  update_step u id b true e s card found is_own = λ j. refl
  update_step u id b false e s card found is_own =
      update_spares t card_owner law u id (λ row. record row { is_frozen = b }) s card found is_own
        is_own

  -- Whatever a user asks, and whatever comes of it, the cards of the other users stay as they were.
  pub serve_cards-SparesOthers :
      (request : CardRequest) (id u : ℕ) (s : S)
      → SparesOthers t card_owner u s (serve_cards t request id u s).1
  unfolding freeze freeze_card unfreeze unfreeze_card
  serve_cards-SparesOthers freeze_request id u s =
      own_spares t card_owner law u id (text "Card") (freeze_card t id) s
        λ card found is_own. update_step u id true card.is_frozen already_frozen s card found is_own
  serve_cards-SparesOthers unfreeze_request id u s =
      own_spares t card_owner law u id (text "Card") (unfreeze_card t id) s λ card found is_own.
        update_step u id false (not card.is_frozen) not_frozen s card found is_own
