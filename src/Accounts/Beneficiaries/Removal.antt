-- ===== src/Accounts/Beneficiaries/Removal.antt =====
-- What the service does to the beneficiaries, and what a transfer then finds of them.
use payflow_x.Prelude.{
  Bool-cases, inl, inr, ℕ, ◌≡◌, refl, ap, ◌∙◌, false, Option, none, some, ◌==◌, ==_refl,
  if◌then◌else◌,
}
use payflow_x.Prelude.Result.{ok, err}
use payflow_x.Http.{Action, http, not_found, text}
use payflow_x.Db.{Table, IsTable}
use payflow_x.Accounts.Owned.{
  own_only, find_own, own_found, own_spares, update_spares, create_spares, SparesOthers,
}
use payflow_x.Accounts.Beneficiaries.{
  Beneficiary, NewBeneficiary, BeneficiaryPatch, patched, beneficiary_owner, create, find_one,
  update, remove, find_active, active_snapshot, shown,
}
use payflow_x.Wallet.Ports.{BeneficiarySnapshot, UnitOfWork}
use payflow_x.Wallet.UseCases.{WebhookEvent, Sending, App, execute_send}

-- A request on the beneficiaries.
pub data BeneficiaryRequest : Type 0 where
  create_request : NewBeneficiary → BeneficiaryRequest
  update_request : ℕ → BeneficiaryPatch → BeneficiaryRequest
  remove_request : ℕ → BeneficiaryRequest

module _ {S : Type 0} (t : Table S Beneficiary) (fresh_id : S → ℕ) where
  abbrev pub serve_beneficiaries : BeneficiaryRequest → ℕ → Action S Beneficiary
  serve_beneficiaries (create_request dto) user_id = create t fresh_id user_id dto
  serve_beneficiaries (update_request id dto) user_id = update t fresh_id user_id id dto
  serve_beneficiaries (remove_request id) user_id = remove t fresh_id user_id id

module _ {S : Type 0} (t : Table S Beneficiary) (fresh_id : S → ℕ) (law : IsTable t) where
  -- Whatever a user asks, and whatever comes of it, the beneficiaries of the other users stay.
  pub serve_beneficiaries-SparesOthers :
      (request : BeneficiaryRequest) (u : ℕ) (s : S)
      → SparesOthers t beneficiary_owner u s (serve_beneficiaries t fresh_id request u s).1
  unfolding create find_one update remove
  serve_beneficiaries-SparesOthers (create_request dto) u s =
      create_spares t beneficiary_owner law u (fresh_id s) _ s refl
  serve_beneficiaries-SparesOthers (update_request id dto) u s =
      own_spares t beneficiary_owner law u id (text "Beneficiary")
        (λ row. t.update id (patched dto)) s
        λ row found is_own.
          update_spares t beneficiary_owner law u id (patched dto) s row found is_own is_own
  serve_beneficiaries-SparesOthers (remove_request id) u s =
      own_spares t beneficiary_owner law u id (text "Beneficiary")
        (λ row. t.update id λ r. record r { is_active = false }) s
        λ row found is_own.
          update_spares t beneficiary_owner law u id (λ r. record r { is_active = false }) s row
            found is_own is_own

  -- A row that is not active is shown to no transfer.
  inactive_hidden :
      (u id : ℕ) (s : S) (row : Beneficiary)
      → t.find_unique id s ≡ some row
      → row.is_active ≡ false
      → find_active t fresh_id s u id ≡ none
  unfolding find_active find_own own_only active_snapshot
  inactive_hidden u id s row found gone =
      ap (λ o. active_snapshot id (own_only t beneficiary_owner u o)) found
      ∙ elim (Bool-cases (row.user_id == u)) [
        | inl e ↦
            ap (λ b. active_snapshot id (if b then some row else none)) e
            ∙ ap {B = Option BeneficiarySnapshot} (λ b. if b then some (shown id row) else none)
                gone
        | inr e ↦ ap (λ b. active_snapshot id (if b then some row else none)) e
      ]

  send_hidden :
      {W M : Type 0} (dispatch : WebhookEvent → Action W (Unit {0})) (uow : UnitOfWork M)
      (find : ℕ → ℕ → Option BeneficiarySnapshot) (cmd : Sending) (a : App M W)
      → find cmd.user_id cmd.beneficiary_id ≡ none
      → execute_send dispatch uow find cmd a ≡ (err (http not_found (text "Beneficiary")), a)
  unfolding execute_send
  send_hidden dispatch uow find cmd a h = rw h

  -- After a user has removed a beneficiary of theirs, a transfer to it is refused as not found,
  -- and changes nothing.
  pub send-remove :
      {W M : Type 0} (dispatch : WebhookEvent → Action W (Unit {0})) (uow : UnitOfWork M)
      (cmd : Sending) (s : S) (row : Beneficiary) (a : App M W)
      → t.find_unique cmd.beneficiary_id s ≡ some row
      → row.user_id ≡ cmd.user_id
      → (s' : S) × (removed : Beneficiary) × (remove t fresh_id cmd.user_id cmd.beneficiary_id s
          ≡ (ok removed, s'))
        × (execute_send dispatch uow (find_active t fresh_id s') cmd a
            ≡ (err (http not_found (text "Beneficiary")), a))
  unfolding find_one remove
  send-remove dispatch uow cmd s row a found is_own =
      let (s', done, writes) =
        law.update_found cmd.beneficiary_id (λ r. record r { is_active = false }) row s found in
      let gone : Beneficiary = record row { is_active = false } in
      let there : t.find_unique cmd.beneficiary_id s' ≡ some gone =
        writes cmd.beneficiary_id
        ∙ ap (λ b. if b then some gone else t.find_unique cmd.beneficiary_id s)
            (==_refl cmd.beneficiary_id) in
      (
        s',
        gone,
        own_found t beneficiary_owner cmd.user_id cmd.beneficiary_id (text "Beneficiary")
              (λ r. t.update cmd.beneficiary_id λ r'. record r' { is_active = false }) s row found
              is_own
            ∙ done,
        send_hidden dispatch uow (find_active t fresh_id s') cmd a
            (inactive_hidden cmd.user_id cmd.beneficiary_id s' gone there refl),
      )
