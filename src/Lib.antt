-- ===== src/Lib.antt =====
-- system-chat: the services behind a cashback application (a NestJS monorepo: apps/ holds one
-- service each, libs/ what they share). The development models the core of these services, query
-- by query, and proves what they keep and where they fail.
--
-- Base holds what all modules share: Boolean tests on numbers, signed amounts (an amount of a
-- column of type Decimal is a whole number of units of its last place, PostgreSQL's
-- numeric(65,30)), tables as lists of rows, and effects. An effect is a function from a state to a
-- result or an error and the new state: what was written before an error stays written. Base/Monad
-- also models Prisma's transactions, with two clients: a call through the callback's own client
-- waits for the commit, and a call through the repository's client (`this._repo`) is committed at
-- once. Base/Invariants has one rule for each way to compose calls.
--
-- Wallet models apps/wallet/src/wallet.service.ts and wallet.controller.ts: Wallet/Rows the tables
-- and the payloads, Wallet.antt each method of WalletService (updateBalance is `update_balance`,
-- and so on) and the handlers of the message queue. Wallet/Balance has the outcome of each method
-- by cases, Wallet/Ledger and Wallet/Calls the invariant of the ledger, and Wallet/Deposit
-- deposits and referrals from end to end, Wallet/Version the test of the version. A deposit's
-- version, which its DTO leaves optional, is always given: without it Prisma refuses the key.
-- Wallet/Overlap has the queries of updateBalance as steps that interleave.
--
-- Pool models apps/wallet/src/pool.service.ts: Pool/Rows the tables, Pool/Queries the queries that
-- the methods share and createPoolRateHistory, Pool.antt the five public methods. Pool/Events
-- states what the events of the pool write, Pool/Ledger, Pool/Calls and Pool/Edits the invariant
-- of its histories.
--
-- A UUID, an enum's number and a text that is only compared or stored is a number. A date that the
-- code takes by `new Date()` is an argument of the call. Each module that names a time-out, a
-- random number, a hash, decimal arithmetic or a constraint of the database takes it as a
-- parameter.
--
-- Caching models libs/caching/src/caching.service.ts over what Redis promises, a record of laws of
-- which Caching/Memory is an instance. Otp models libs/otp/src/otp.service.ts, with dayjs as a
-- record of laws of which Otp/Clock is an instance; Otp/Codes has the life of a code. The calls
-- read the clock several times: each reading is an argument.
--
-- Accounts models apps/authenticator/src/authenticator.service.ts. Accounts/Rows has the table,
-- the cache and the mails, and the record Env of the libraries (bcrypt, libphonenumber,
-- class-validator) and of the texts that are keys of the cache; all kinds of values are in one
-- cache, as in the program. Accounts/Requests has processOTP, checkOTP and resetPasscode,
-- Accounts/Profile the changes of an account, Accounts/SignIn getAccount, sign-in and sign-up, and
-- Accounts/Calls the messages of authenticator.controller.ts with the timers that the methods
-- start. Below each are the modules that prove something of it. The unique columns of the table
-- are in create_account and update_account.
--
-- Exchange models apps/cashback/src/cashback-exchange-v3.service.ts, with the query
-- sql/find-account-balance.sql: Exchange/Rows the tables and the balance, Exchange.antt the
-- methods, Exchange/Submit what a transfer needs. The answer of the wallet service to HOLD_BALANCE
-- is a parameter: no handler for it is in the repository. So is the text of a numeric, since the
-- code compares the two balances of a raw query as texts. Not modelled are the timer that asks
-- ONUS, lists that only read, HTTP routes and mail.
--
-- Rewards models what the authenticator does for a new account, with the wallet's handlers of its
-- messages: Rewards.antt the tables and rewardNewAccount, Rewards/Credit what that leaves,
-- Rewards/Save saveAccount and insertAccountReferral, and the modules below it what they leave.
--
-- Versions models compareVersion of libs/utils/src/utils.service.ts, and Guard the guard of
-- apps/gateway/src/jwt/jwt-roles.guard.ts with what passport does as a record of laws.
--
-- Orders models apps/authenticator/src/partner.service.ts and buyVNDC of the cashback service:
-- Orders/Rows the table, Orders.antt the methods, query by query. Orders/Book states the book that
-- the table stands for, and the modules below it that every call is a step of the book;
-- Orders/Payments what updateStatusTransaction credits, Orders/Pending how many orders of an
-- account are under way.
--
-- Campaigns models apps/cronjob/src/access-trade.job.ts: Campaigns/Rows the tables and
-- AccessTrade's transactions, Campaigns.antt the job for transactions on hold, Campaigns/Wheel
-- that for approved ones with the reward of the lucky wheel, Campaigns/Check the job that looks
-- waiting ones up again. A text of AccessTrade is a number. Its loops recur on the answer and on
-- the number of blocks.
--
-- Sessions models apps/gateway/src/auth.service.ts and apps/gateway/src/jwt/jwt.strategy.ts on the
-- state of Accounts, since gateway and authenticator share the cache: Sessions.antt has
-- processLogin, the three routes that lead to it and the strategy, with JwtService as a record of
-- laws; the modules below it say which tokens are then taken.
--
-- Cms models apps/cms/src/module/account/account.service.ts: Cms/Locks has updateAccount and
-- resetPasscode, also on the state of Accounts, Cms/Kyc changeKycStatus and its payout with the
-- query sql/find-cb-pending-by-account.sql, Cms/Commissions approvedCommissionForPartner with the
-- rates and, in Upgrade, upgradePartnerUser, and Cms/Notices the notifications. Nothing waits for
-- the transaction of an approval: whether it has been committed when the next call runs is an
-- argument. The loop over the pages has the number of the first page and one as its fuel, and each
-- turn takes five pages off that number. Its lists, which only read, are not modelled.
--
-- Interceptor models libs/common/src/interceptors/lock.interceptor.ts, with Redlock as a record of
-- laws on the moments of the first and the last attempt.
pub mod Base
pub mod Accounts
pub mod Caching
pub mod Campaigns
pub mod Cms
pub mod Exchange
pub mod Guard
pub mod Interceptor
pub mod Orders
pub mod Otp
pub mod Pool
pub mod Rewards
pub mod Sessions
pub mod Versions
pub mod Wallet
