-- ===== src/Transactions.antt =====
-- The history of a user's transactions (src/modules/transaction/transaction.service.ts). The queries
-- of the client are parameters; dates are times.
pub mod Pages
mod Tests
use payflow_x.Prelude.{
  ℕ, ◌+◌, ◌-◌, ◌*◌, ◌/◌, Bool, true, false, ◌||◌, List, [], ◌∷◌, Option, none, some, is_some,
  if◌then◌else◌,
}
use payflow_x.Amount.{Currency}
use payflow_x.Http.{text, Action, assert_found, gets, pure, ◌>>=◌}

-- `TransactionTypeEnum` of src/prisma/schema.prisma
pub data TransactionTypeEnum : Type 0 where
  deposit withdrawal transfer exchange yield : TransactionTypeEnum
  investment_buy investment_sell reversal : TransactionTypeEnum

-- `GetTransactionsInterface`
pub record Search : Type 0 where
  pub user_id : ℕ
  pub page : ℕ
  pub limit : ℕ
  pub type : Option TransactionTypeEnum
  pub currency : Option Currency
  pub date_from : Option ℕ
  pub date_to : Option ℕ

-- The `where` of the query.
pub record Period : Type 0 where
  pub gte : Option ℕ
  pub lte : Option ℕ

pub record Where : Type 0 where
  pub wallet_ids : List ℕ
  pub type : Option TransactionTypeEnum
  pub currency : Option Currency
  pub created_at : Option Period

pub record Meta : Type 0 where
  pub total : ℕ
  pub page : ℕ
  pub limit : ℕ
  pub total_pages : ℕ

pub record Found (A : Type 0) : Type 0 where
  pub items : List A
  pub meta : Meta

-- The queries: the wallets of a user, a slice of the matching transactions in the order of their
-- creation, their count, and a transaction by key among those of some wallets.
pub record History (S A : Type 0) : Type 0 where
  pub wallet_ids : ℕ → S → List ℕ
  pub find_many : Where → ℕ → ℕ → S → List A
  pub count : Where → S → ℕ
  pub find_first : ℕ → List ℕ → S → Option A

-- `Math.ceil(total / limit)`
abbrev pub ceil_div : ℕ → ℕ → ℕ
ceil_div total limit = (total + limit - 1) / limit

-- `createdAt`, which is absent where neither date is given.
abbrev pub period_of : Option ℕ → Option ℕ → Option Period
period_of none none = none
period_of none (some to) = some (record { gte = none; lte = some to })
period_of (some from) to = some (record { gte = some from; lte = to })

abbrev pub where_of : Search → List ℕ → Where
where_of search ids = record {
  wallet_ids = ids;
  type = search.type;
  currency = search.currency;
  created_at = period_of search.date_from search.date_to;
}

module _ {S A : Type 0} (h : History S A) where
  -- `findAll`
  unfoldable pub find_all : Search → Action S (Found A)
  find_all search = do
    ids ← gets (h.wallet_ids search.user_id)
    rows ← gets (h.find_many (where_of search ids) ((search.page - 1) * search.limit) search.limit)
    total ← gets (h.count (where_of search ids))
    pure (record {
      items = rows;
      meta = record {
        total = total;
        page = search.page;
        limit = search.limit;
        total_pages = ceil_div total search.limit;
      };
    })

  -- `findOne`
  unfoldable pub find_one : ℕ → ℕ → Action S A
  find_one id user_id = do
    ids ← gets (h.wallet_ids user_id)
    found ← gets (h.find_first id ids)
    assert_found found (text "Transaction")
