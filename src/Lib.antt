-- ===== src/Lib.antt =====
-- The quota, pricing and settlement rules of the inference module (internal/inference), and the pool
-- of upstream keys (internal/llm). An account's request is admitted against its quota windows with a
-- hold at a safe upper bound, is priced from the usage that the upstream reports, and is settled
-- against that hold; what the plan does not carry may be paid from a prepaid wallet; and the
-- aggregates are checked against an append-only ledger. What an account may call at all is told by its
-- entitlements, which a worker keeps in line with its subscription and the order that paid for it.
--
-- The parts, and the files of this library that model them:
-- - Common: natural numbers, signed integers, int64 with wrap-around (wrap64, add64, sub64), lists.
-- - Domain/Errors: internal/inference/domain/errors.go, codes and error values (CodeOf), with the
--   Result type that every fallible function returns.
-- - Domain/Credit, Domain/Money, Domain/Rate, Domain/Rate/Decimal:
--   internal/inference/domain/money.go, the checked Microcredit and Money, the exact Rate with
--   MicrosForUnits, and ParseDecimal.
-- - Domain/Usage: the parts of internal/inference/domain/usage.go that the rules read.
-- - Quota/Calendar, Quota/Window: internal/inference/quota/window.go, the three kinds of windows,
--   ConsumptionWindow and ReadWindow; the calendar is that of Go's package time.
-- - Quota/Policy: internal/inference/quota/policy.go, EvaluateAdmission and Views.
-- - Quota/Reservation: internal/inference/quota/reservation.go, ReserveAmount and its bounds.
-- - Accounting/Pricing: internal/inference/accounting/pricing.go, ResolvePrice, BillableBuckets,
--   Quote.
-- - Accounting/Overage, Accounting/Wallet: internal/inference/accounting/overage.go and
--   internal/inference/accounting/wallet.go.
-- - Llm/KeyPool: internal/llm/keypool.go, the pool of upstream keys with its cooldowns; it stands
--   alone.
-- - Accounting/Settlement, Accounting/Reconciliation: internal/inference/accounting/settlement.go
--   (Decide is decide_settlement) and internal/inference/accounting/reconciliation.go.
-- - Store/Table: tables as lists of rows, and the statements on them; mapError of
--   internal/inference/postgres/postgres.go.
-- - Store/Lease: internal/inference/postgres/lease_repo.go (AcquireLeaseTx is acquire_lease), with
--   the interleavings of its transactions in Store/Lease/Steps.
-- - Store/Quota: the tables of the quota transactions. Activate, Hold and Reserve:
--   internal/inference/postgres/quota_repo.go (ActivateWindowsTx, Reserve). Release:
--   internal/inference/postgres/reservation_repo.go (releaseLocked is release). Ledger, Settle,
--   WalletSettle, Mark: internal/inference/postgres/ledger_repo.go with the statements of
--   request_repo.go, wallet_repo.go and reconciliation_repo.go beside it. Steps: the
--   interleavings. The marks of the dispatch (UpdateRequestStatus is update_request_status, in
--   Release) are steps too. The statement has no guard: that a mark meets a request in flight is
--   left to the gateway, which marks between the admission and its own settlement, and to the
--   recovery, which passes over requests with a live lease or a young attempt. Where a theorem
--   needs it, the runs are said to be orderly.
-- - Store/Wallet: internal/inference/postgres/wallet_repo.go on the same tables. Sums: the derived
--   figures. Settings: creation and SetOverageTx. Postings: CreditTopupTx, RefundWalletTx,
--   ApplyWalletAdjustmentTx, ReverseWalletEntryTx. Freeze: ReserveWallet. Steps: the interleavings.
-- - Routing/Pool: internal/inference/routing/account_pool.go and
--   internal/inference/routing/service.go, the order of the upstream accounts
--   (orderAccountsWithQuota), their health (HealthOf is schedulable, its decision), their cooldowns
--   and their leases.
-- - Routing/Session: internal/inference/routing/session_binding.go over the table of bindings of
--   internal/inference/postgres/oauth_repo.go (Bind is bind, End is end_binding), with the calls in
--   any order in Routing/Session/Steps.
-- - Access: internal/inference/access/entitlement.go, GrantFromPlan, dedupeModels and equalModelSets.
--   Access/Selection: SelectEntitlement. Access/Activation:
--   internal/inference/access/benefit_grant.go, ResolveCodingPlanActivation. Access/Decision:
--   DecideSync. Access/Sync: Converge, with planSync and applyPlans of
--   internal/inference/workers/entitlement_sync.go. Access/Rows:
--   internal/inference/postgres/entitlement_repo.go. Selected, Sorted, Models, Patched, Goal, Settled,
--   Converged, Latest, Commits, Synced, Accepted and Completed hold the proofs.
-- How they interact: ReserveAmount and Quote share the rates and the rounding of a price version;
-- Decide runs BillableBuckets and Quote and compares with the hold of ReserveAmount; a correction of
-- CorrectionDelta becomes an adjustment that RebuildUsedMicros reads (at a corrected amount of zero
-- the store writes a reversal of the same amount); EvaluateAdmission and ReadWindow search the same
-- rows as ConsumptionWindow; ActivateWindowsTx runs ConsumptionWindow; AcquireUpstreamLease runs
-- AcquireLeaseTx; applyPlans runs what Converge returns; settleWalletLocked runs SplitConsume and
-- ValidateWalletEntry on the hold of the request; the holds of ReserveAmount are what Reserve takes
-- of the windows. The modules Examples run the theorems at concrete values.
--
-- Conventions: a function of the source has the same name in snake_case (Quote is quote), and a
-- struct's fields keep their names. An int64 is a signed integer; sums and differences that the
-- source takes without a check wrap around. An instant is the number of nanoseconds since the start
-- of year 0 in UTC; a duration is an int64. A nil pointer is none, a Go map is the list of its
-- entries, a text is the list of its code points, and identifiers are numbers (in
-- Access, where the empty text and the prefix of a bundle count, they are texts). Error messages are
-- left out.
--
-- The stores: a table is the list of its rows with the columns that the transactions read; a CHECK, a
-- unique key or a reference that fails is an error with the code of mapError, and an expression past
-- BIGINT is an error without a code. A transaction is a function from the tables to the new tables or
-- to an error, after which the caller rolls back. The row locks and the advisory lock make committed
-- transactions follow each other, so an interleaving is a sequence of them. PostgreSQL keeps an
-- instant to the microsecond, the model to the nanosecond. `now()` columns, details in JSON and the
-- last error are left out; texts of uuid.NewString are given as arguments, and so is the answer of
-- the columns of a request that no rule reads (references to models, Keys, entitlements, policies and
-- prices, and the encoding of the extra bounds). The deficit of a refused admission is computed beside
-- the refusal (deficit_of).
--
-- Bounds: the search for the month of an instant runs on fuel, one more than the number of days
-- since year 0; every month has a day, so the search ends before that. All other loops are
-- structural.
--
-- Not modelled: of the stores, CorrectSettlement, which only tests call, and the catalog,
-- account and operator tables. Nor are the admission service, the gateway, the candidates of
-- routing, principals, API Keys and rate limits, the outbox loop of the entitlement sync, the
-- other workers, the HTTP handlers and protocol adapters, and the payment services outside
-- internal/inference. JSON decoding is a parameter (decode_extra_rates). Of
-- internal/inference/accounting/wallet.go the texts of the idempotency keys and MonthBoundsUTC
-- are left out.
pub mod Common
pub mod Domain
pub mod Accounting
pub mod Quota
pub mod Store
pub mod Routing
pub mod Llm
pub mod Access
