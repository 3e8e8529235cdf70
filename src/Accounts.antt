-- ===== src/Accounts.antt =====
-- What a user owns besides wallets and sessions: cards, beneficiaries and portfolios.
pub mod Owned
pub mod Cards
pub mod Beneficiaries
pub mod Portfolios
mod Tests
