-- ===== src/Lib.antt =====
-- Payflow X: a payment backend in TypeScript over NestJS and Prisma. A user has wallets in several
-- currencies, deposits, withdraws and sends money to beneficiaries, logs in by password with an
-- optional second factor, and is verified before money moves. Each component is modelled by a
-- module of its own; paths below are those of the repository.
--
-- Shared modules. Prelude holds the library's names, the Boolean tests on native numbers, results,
-- lists, slices of lists and integers. Text holds texts as lists of character codes, with decimal numerals and their
-- trimming. Http holds the exceptions and their messages, and the actions of the services: functions
-- of a state that return or throw and leave a state (`Action`), with `throw_if`, `assert_found`
-- (src/common/utils/assert-found.ts) and `catching` for `try`. Db is the database client for one
-- model as a record of operations, and `IsTable` what the services rely on; Db.Listed is an instance.
-- Floats is the arithmetic of JavaScript numbers as a record, a parameter of what computes with them.
--
-- Money. Amount and Money model src/shared/kernel/money.ts: a `Money` is an integer of ledger units
-- of 10 ^ -8 with its currency, texts are parsed by the patterns of the source, and each arithmetic
-- operation has the ceiling test of `fromUnits`. Money.LedgerText, Money.Display, Money.Ceiling,
-- Money.Conversion and Money.Precision are its theorems.
--
-- Wallet. Wallet.Ports are the records of src/modules/wallet/application/ports, Wallet.Boundary is
-- to-money.ts and the pattern of the request DTOs, Wallet.UseCases the three services deposit,
-- withdraw and send over any unit of work and any webhook dispatcher, and Wallet.InMemory the unit
-- of work of src/modules/wallet/testing/in-memory-unit-of-work.ts: its wallets by identifier, its
-- records, its injected faults, and the rollback of `run`. The modules below it prove what the use
-- cases do over it: Stored and Contract describe the stored wallets and the repositories, Settling,
-- Deposits and Debits what a use case that returns has done, Failures what one that throws has
-- done, Histories what any sequence of calls keeps. Wallet.Retry is
-- src/modules/wallet/utils/with-optimistic-retry.ts: the loop on the number of attempts that are
-- left, which is three at the start, as in the source.
--
-- Wallet.Persistence is src/modules/wallet/infrastructure/persistence: the same ports over the
-- statements of a database client on decimals, both parameters, and the unit of work that runs them
-- under Wallet.Retry. Its Statements say what one statement does by the promises `IsClient` of the
-- client, its Swaps what a compare-and-swap does, its Balances what the tests of the use cases
-- ensure, and its Races let the statements of any number of requests interleave, as a step relation
-- on the database and on the wallets that the requests hold. Wallet.Exchange is
-- src/modules/wallet/exchange.service.ts with utils/validate-currency-precision.ts over the same
-- client: its Legs are the two writes and their order, its Outcome the whole transaction.
--
-- Auth. One backend record gives what src/modules/auth uses of others: the tables of users and of
-- sessions, the signing and the hashing of tokens, the cookies, the clock. Auth.Sessions is
-- src/modules/session/session.service.ts with src/modules/auth/session-token.service.ts, Auth.Refresh
-- and Auth.Login are src/modules/auth/auth.service.ts, Auth.TwoFactor is
-- src/modules/auth/two-factor.service.ts with its map of recent attempts, and Auth.Recovery is
-- src/modules/tokens/tokens.service.ts with src/modules/auth/password-recovery.service.ts. Every
-- nested `try` of the source is a `catching`.
--
-- Users is src/modules/users/users.service.ts over a table of accounts and a query by e-mail, with
-- the columns that a request may set; Users.Emails follows its requests. Accounts.Owned is the
-- query by key and owner that the services on a user's rows share. Accounts.Cards is
-- src/modules/card/card.service.ts, Accounts.Beneficiaries is
-- src/modules/beneficiaries/beneficiaries.service.ts with the reader of the transfers
-- (src/modules/wallet/infrastructure/persistence/prisma-beneficiary.reader.ts), and
-- Accounts.Portfolios is src/modules/portfolio/portfolio.service.ts: Ownership its requests, Pages
-- the cursor of `findAll`, of which a client asks for at most one page more than there are rows, and
-- Valuation `getValuation` over the prices. Prices is src/modules/prices/prices.service.ts: a cache
-- and two remote services, each call of which may throw.
--
-- Kyc is src/modules/kyc: the service over any table, its guard, in Kyc.Machine the state machine of
-- a verification, with the timer of a submission as an event, and in Kyc.Steps and Kyc.Refinement
-- how the one follows the other. Idempotency is
-- src/common/guards/idempotency.guard.ts around any handler. Webhook is
-- src/modules/webhook/webhook.service.ts: the rows of the attempts, the timers between them, and
-- the dispatch to all endpoints; Retries follows one delivery for three attempts, the bound of the
-- source, and Dispatching an event over the endpoints.
--
-- Investments is src/modules/investment/investment.service.ts over the statements of the client:
-- Buying and Selling are its two transactions, each as its reads and then its writes, so that in
-- Racing those of two purchases interleave at READ COMMITTED. What the database stores is bounded
-- there and, by the promises of the client, for the wallets and the exchange: a balance is a
-- NUMERIC(20,8) that a constraint keeps from being negative
-- (prisma/migrations/20260923120000_sync_ledger_roles_and_balance_check), and a write that does not
-- fit throws, so the theorems name what must fit. ExchangeRates is
-- src/modules/exchange-rate/exchange-rate.service.ts, whose remote service may throw or answer
-- without rates; Priced has the rate of each pair, Published what a refresh comes to. Transactions
-- is src/modules/transaction/transaction.service.ts: where-clauses and numbered pages. Guards holds
-- the address of a request (src/common/utils/ip.util.ts) and the tests of
-- src/modules/auth/guards/recaptcha.guard.ts and src/common/guards/csrf.guard.ts, and Geolocation
-- is src/modules/auth/geolocation: the place of an address, and the listener of new sessions; the
-- listener runs beside the request that creates a session, which it does not change. The cleanup of
-- idempotency records (src/common/guards/idempotency-cleanup.service.ts) is in Idempotency; its
-- Cleanup lets runs of it, other requests and time pass between two requests with one key.
--
-- Numbers are native natural numbers, identifiers, tokens, hashes and times (in milliseconds) among
-- them; the source computes them as bigints or safe integers, so no width is written out, and the
-- ages of rows, which the source subtracts as numbers, stop at 0 where they would be negative, which
-- no comparison with a positive bound sees.
--
-- Not modelled: the lists that are queries only, such as those of the brokers and of the assets;
-- controllers, modules, strategies, configuration, e-mail, health and logging, which are
-- declarations, wiring and I/O. But for Wallet.Persistence.Races and two purchases in
-- Investments.Racing, requests are served one at a time; a call of several remote services is one
-- sequence of actions.
pub mod Prelude
pub mod Text
pub mod Amount
pub mod Money
pub mod Http
pub mod Wallet
pub mod Db
pub mod Floats
pub mod ExchangeRates
pub mod Geolocation
pub mod Kyc
pub mod Auth
pub mod Accounts
pub mod Prices
pub mod Users
pub mod Investments
pub mod Transactions
pub mod Webhook
pub mod Guards
pub mod Idempotency
