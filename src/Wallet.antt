-- ===== src/Wallet.antt =====
-- The wallet module (src/modules/wallet): the ports, the use cases over them, the in-memory unit of
-- work that implements the ports, and the retry policy of the adapter.
pub mod Ports
pub mod Boundary
pub mod UseCases
pub mod Retry
pub mod Persistence
pub mod Exchange
pub mod InMemory
mod Tests
