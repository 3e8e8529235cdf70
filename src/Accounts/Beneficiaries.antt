-- ===== src/Accounts/Beneficiaries.antt =====
-- The beneficiaries of a user (src/modules/beneficiaries/beneficiaries.service.ts), which a transfer
-- reads through `PrismaBeneficiaryReader.findActive`.
pub mod Removal
use payflow_x.Prelude.{
  or_else, or_kept, ℕ, Bool, true, false, ◌&&◌, String, Option, none, some, if◌then◌else◌,
}
use payflow_x.Amount.{Currency}
use payflow_x.Http.{text, Action, ◌>>=◌, ◌>>◌}
use payflow_x.Db.{Table}
use payflow_x.Wallet.Ports.{BeneficiarySnapshot}
use payflow_x.Accounts.Owned.{own, find_own}

-- `Beneficiary`; its identifier is the key of the table.
pub record Beneficiary : Type 0 where
  pub user_id : ℕ
  pub alias : String
  pub currency : Currency
  pub beneficiary_type : String
  pub account_number : String
  pub bank_name : Option String
  pub country : String
  pub document_type : Option String
  pub document_number : Option String
  pub is_active : Bool

-- `CreateBeneficiaryDto`
pub record NewBeneficiary : Type 0 where
  pub alias : String
  pub currency : Currency
  pub beneficiary_type : String
  pub account_number : String
  pub bank_name : Option String
  pub country : Option String
  pub document_type : Option String
  pub document_number : Option String
  pub is_active : Option Bool

-- `UpdateBeneficiaryDto`: a field that is absent is left as it is.
pub record BeneficiaryPatch : Type 0 where
  pub alias : Option String
  pub currency : Option Currency
  pub beneficiary_type : Option String
  pub account_number : Option String
  pub bank_name : Option String
  pub country : Option String
  pub document_type : Option String
  pub document_number : Option String
  pub is_active : Option Bool

abbrev pub patched : BeneficiaryPatch → Beneficiary → Beneficiary
patched dto row = record row {
  alias = or_else dto.alias row.alias;
  currency = or_else dto.currency row.currency;
  beneficiary_type = or_else dto.beneficiary_type row.beneficiary_type;
  account_number = or_else dto.account_number row.account_number;
  bank_name = or_kept dto.bank_name row.bank_name;
  country = or_else dto.country row.country;
  document_type = or_kept dto.document_type row.document_type;
  document_number = or_kept dto.document_number row.document_number;
  is_active = or_else dto.is_active row.is_active;
}

abbrev pub beneficiary_owner : Beneficiary → ℕ
beneficiary_owner row = row.user_id

-- What a transfer is shown of a beneficiary.
abbrev pub shown : ℕ → Beneficiary → BeneficiarySnapshot
shown id row = record {
  id = id;
  alias = row.alias;
  currency = row.currency;
  beneficiary_type = row.beneficiary_type;
  account_number = row.account_number;
  bank_name = row.bank_name;
}

-- The condition `isActive: true` of `findActive`, and its mapping.
unfoldable pub active_snapshot : ℕ → Option Beneficiary → Option BeneficiarySnapshot
active_snapshot id none = none
active_snapshot id (some row) = if row.is_active then some (shown id row) else none

module _ {S : Type 0} (t : Table S Beneficiary) (fresh_id : S → ℕ) where
  unfoldable pub create : ℕ → NewBeneficiary → Action S Beneficiary
  create user_id dto s =
      t.create (fresh_id s)
        (record {
          user_id = user_id;
          alias = dto.alias;
          currency = dto.currency;
          beneficiary_type = dto.beneficiary_type;
          account_number = dto.account_number;
          bank_name = dto.bank_name;
          country = or_else dto.country "AR";
          document_type = dto.document_type;
          document_number = dto.document_number;
          is_active = or_else dto.is_active true;
        })
        s

  unfoldable pub find_one : ℕ → ℕ → Action S Beneficiary
  find_one user_id id = own t beneficiary_owner user_id id (text "Beneficiary")

  unfoldable pub update : ℕ → ℕ → BeneficiaryPatch → Action S Beneficiary
  unfolding find_one
  update user_id id dto = do find_one user_id id; t.update id (patched dto)

  unfoldable pub remove : ℕ → ℕ → Action S Beneficiary
  unfolding find_one
  remove user_id id = do find_one user_id id; t.update id λ row. record row { is_active = false }

  unfoldable pub find_active : S → ℕ → ℕ → Option BeneficiarySnapshot
  unfolding active_snapshot
  find_active s user_id id = active_snapshot id (find_own t beneficiary_owner user_id id s)
