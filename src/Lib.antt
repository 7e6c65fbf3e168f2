-- ===== src/Lib.antt =====
-- Verification of the money flows of GAKing (backend/src): the commission accounts, the withdrawals, the
-- order state machine, the settlement of commissions and the circuit breaker that guards it, the sync of
-- orders with their attribution, and the lock, the limits and the menus beside them.
--
-- The parts and their files:
--   Base: shared names, tests on numbers, signed integers, decimal rounding, and tables as association
--     lists from a primary key to a row.
--   Store: the rows (models/business) and the database session. A session has a committed and a working
--     state of the tables; a commit takes its outcome from a list of faults, and one that fails rolls back.
--     Keeps: what holds of both states through an action.
--   Accounts: dao/user_commission_account_dao.py. Dao has the operations; Balances,
--     Reconciliation and Cache have their laws.
--   Withdraw: services/withdraw_service.py (Service), common/withdraw_rule_validator.py (Rules) and
--     common/withdraw_fee_calculator.py (Fee, FeeLaws). apply_withdraw locks an amount and creates an
--     application; reject_apply, approve_apply, complete_apply and fail_apply take it on.
--     services/withdraw_review_service.py with common/mock_user_util.py (Review, ReviewLaws) calls these
--     flows under a lock of its own, logs them and asks WeChat for the transfer.
--   Orders: services/b12_order_state_machine_service.py with the tables of config/b12_constants.py.
--   Settlement: services/settlement_state_machine.py (Machine), the transactions of
--     dao/settlement_atomic_dao.py and dao/commission_settlement_dao.py (Atomic),
--     services/commission_rule_engine.py (Rules), services/commission_settlement_b12_service.py (Freeze,
--     FreezeBatch)
--     and services/commission_settlement_service.py (Settle).
--   Refund: services/commission_flow_validation_service.py (Validate), refund_deduction_service.py (Deduct)
--     and b07_1_reverse_commission_service.py with its DAO (Reverse, ReverseBatch; Run has their calls). The
--     two logs are committed without a rollback, and session_inactive is what the session raises after one
--     that has failed.
--   Reconcile: services/reconciliation_b13_service.py over dao/reconciliation_query_dao.py. Query reads one
--     day, Check makes the comparisons, Service has the runs and the reviews; Balance, RunLaws and
--     ReviewLaws are their laws.
--   Commission: services/commission_service.py, the flows generated and marked for an order.
--   Breaker: cps/circuit_breaker.py for one channel.
--   Lock: common/lock_util.py. Redis has the operations on a key, Lease their specification, Refinement
--     that they implement it, Exclusion and Abandoned what follows. Owners are uuids, here numbers.
--   Attribution: services/attribution, the chain of strategies that finds the user of an order.
--   Sync: services/order_sync_service.py over dao/order_sync_dao.py. Windows splits an interval, Persist
--     upserts the orders reported, Pull is a round of one channel with its breaker, cursor and queue,
--     Rounds goes over all channels, Retry takes up the queue; Upsert and Unique are about what is stored.
--   Limits: common/rate_limit_util.py (Sliding, Fixed) and cps/cache/bloom_filter.py (Bloom).
--   Menus: services/b14_rbac_service.py over dao/admin_menu_dao.py (Service); Forest, Acyclic and Keeps
--     are about the tree.
--   Funds: what the frozen balance of a user has to cover, across withdrawals, reviews, settlements,
--     reversals and reconciliations.
--   Tests: data, and the theorems at concrete inputs.
--
-- A service is a function of the session with a result or an error; a step is one call of a DAO, in the
-- order of the source. Two calls of different requests do not interleave within a transaction. Amounts
-- are whole cents as signed integers, times counts of seconds, in Lock of microseconds on one clock.
-- Loops are over lists, with two exceptions on fuel: split_time_windows has the length of the interval,
-- which is enough as each window is a second or longer, and the recursion over the children of a menu
-- has a bound of the heights, which is enough in a forest. The bounds of Numeric(10, 2) are not modelled.
--
-- Parameters: whether a lock or the submission interval is granted, the clock, generated numbers, the
-- loaded fee configuration, what a driver reads from the settlement status column, the commission rates
-- of the configuration loader and the membership of a user; whether a command reaches Redis, the answers
-- of WeChat and of the channels, the create times of orders and settlements, how the database compares a
-- stored settlement status with a number, str.strip, the strategies of the attribution and the MD5 digest.
--
-- Not modelled: Redis and SQLAlchemy themselves, the HTTP routes, listings, exports, the schedulers, the
-- channel adapters, the WeChat client, the renewing loop of the lock's context manager, the token buckets
-- and the sizing of the Bloom filter (both compute in floats), the reconciliation
-- of a channel's orders,
-- and the administration services but the menus.
pub mod Base
pub mod Breaker
pub mod Store
pub mod Accounts
pub mod Orders
pub mod Withdraw
pub mod Settlement
pub mod Lock
pub mod Attribution
pub mod Sync
pub mod Limits
pub mod Menus
pub mod Refund
pub mod Reconcile
pub mod Commission
pub mod Funds
pub mod Tests
