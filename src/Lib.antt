-- ===== src/Lib.antt =====
-- Foundry Pay: payment channels, their vouchers, and the authorizations that let a settlement
-- execute.
--
-- The parts and how they interact:
-- * packages/channel-protocol/python/foundry_channel_protocol/channel.py validates a channel's
--   snapshot and derives the amounts of its projection from it, and validates one observed funding
--   against the snapshots before and after it. It keeps no state: `validate_channel` and
--   `validate_funding_transition` are functions from decoded JSON values to a result. Channel
--   (Channel/Checks, Accounts, Status, Lifecycle, Snapshot, Funding) has one function for each
--   group of checks, in the order of the source, and composes them as the source does; the theorems
--   are in Channel/Accounts/Laws, Channel/Conservation, Channel/CloseWindow and
--   Channel/Funding/Effect.
-- * canonical.py beside it says which values may be canonicalized, and hashes them: Canonical/Json
--   and Canonical/Record, with Canonical/Record/Sealed on self-hashed records.
-- * voucher.py beside it verifies one voucher against a context (`VoucherContext`), a clock and a
--   signature verifier, and keeps the ledger of the submissions, `ReferenceVoucherLedger`. Its two
--   SQL tables are the record `Ledger` of Voucher/Table; `record_issued`, `verify_issued`,
--   `request_activation`, `get` and `events` are functions of Voucher/Record and Voucher/Ledger
--   from a ledger to a result and the ledger that is left. `verify_issued` calls `verify_voucher`
--   (Voucher/Verify) with the latest live voucher of the domain, which `latest` reads from the
--   table. What an accepted voucher guarantees is in Voucher/Verify/Sound, with Progress. The
--   invariant of the table is in Voucher/Monotone and Voucher/Ledger/Invariant, the lifecycle in
--   Voucher/Ledger/Lifecycle, and the sequences of calls in Voucher/Ledger/Reach.
-- * services/authorization/authority.py issues authorizations and keeps their journal: `issue`,
--   `consume` and `state` of `AuthorizationJournal` are `issue`, `consume` and `journal_state` of
--   Authorization/Journal, each one transaction that a raise rolls back.
-- * services/signer/boundary.py signs the exact message of an authorization: `claim`, `complete`
--   and `mark_needs_recovery` of `SignerJournal`, and the end of `ExactMessageSigner.sign`, from
--   the claim on, as `sign_checked`, are in Signer/Journal. It takes what the checks before have
--   read as a `Claim`.
-- * recipient_binding.py beside channel.py binds a claim to a wallet, once: Binding/Claim, Payload
--   and Verify are the validation of the claim, the bytes that both principals sign and
--   `verify_recipient_binding`; `verify_and_record` and `get` of `RecipientBindingLedger` are
--   `verify_and_record` and `get_binding` of Binding/Ledger, on the rows of its table.
--   Binding/Verify/Sound, with Agreement, has what an accepted binding guarantees,
--   Binding/Ledger/Single what sequences of calls do.
-- * capabilities.py beside it has the draft contracts of the offline adapter: Capability/Operation
--   validates requests, prepares them and validates authorizations against what was prepared, and
--   Capability/Binds says what an authorization is bound to.
-- * closure.py beside it closes a channel and refunds its sender. Closure/Request has
--   `request_close` and `freeze_closure`, which call `validate_channel`, Closure/Refund has
--   `make_refund_request` and `project_refund`, on the amounts of Closure/Totals, and
--   Closure/Finalize has `validate_finalization` and `epoch_transition_eligibility`.
--   `ClosureRuntime` reserves, executes and reconciles refunds: its two SQL tables are the record
--   `ClosureDb` of Closure/Table, and its methods are the functions of Closure/Runtime/Register,
--   Commit, Receipt, Reconcile and Recover. A method that works on a row decides on a `Plan` for
--   it, which `transact` of Closure/Runtime carries out: it raises, or returns the row, or writes
--   the row and an event. The abstract specification is the step relation `Change` of
--   Closure/Runtime/Change, to which Closure/Runtime/Calls relates every call of a method; the
--   invariants of the tables that calls reach, in Closure/Runtime/Reached, Reserved, Intervals
--   (with HighWater), Journalled and Chained, use it alone; Released and Frees are about releases.
--
-- Shared: Base (Boolean tests, lists, texts as lists of code points, results) and Python (decoded
-- JSON values, the regular expressions, decimal texts, timestamps, `json.dumps` with sorted keys).
-- A failure keeps the code and the field of the source's error; the detail text is left out, and
-- Python's own exceptions (`TypeError`, `ValueError`, `AssertionError`, `OverflowError`) and those
-- of sqlite3 are failures of their own.
--
-- Bounds: amounts are natural numbers that the checks keep below 2 ^ 64, and JSON integers below 2
-- ^ 53; `int` refuses a text of more than 4300 digits, as Python does by default. Every function is
-- by structural recursion, so that no fuel is needed. A time is a `datetime` in UTC; `instant`
-- counts its microseconds. The SQL journals store a time as a text of fixed width. A column of
-- integers holds numbers below 2 ^ 63: the insertion of a refund tests it. A text with a lone
-- surrogate cannot be bound: the insertion of a voucher and the completion of a signature test it,
-- and the other texts that are looked up or stored are taken to have none. `json.dumps` refuses an
-- integer of more than 4300 digits.
--
-- Parameters: `Host` has the canonical serialization of the package rfc8785, which may refuse, and
-- the hexadecimal SHA-256; `SignatureVerifier` is the function that the caller of `verify_voucher`
-- passes, or that of `verify_recipient_binding`, which may raise; `RefundObservationVerifier` is
-- the one that `reconcile` takes; the signing provider of `sign_checked` may raise an `Exception`
-- or another `BaseException`, or answer with anything. What a theorem assumes of them is among its hypotheses.
--
-- Not modelled: SQLite's connections, locks and files (each method is one atomic step on the
-- tables, which `BEGIN IMMEDIATE` makes it), object keys that are no texts, the parsing of JSON
-- texts, and the other parts of the repository: settlement.py, the observations and the manifest of
-- capabilities.py, the rest of authority.py and of the signer, the reconciliation and the test
-- services, the Solana program.
pub mod Base
pub mod Python
pub mod Canonical
pub mod Channel
pub mod Voucher
pub mod Authorization
pub mod Signer
pub mod Binding
pub mod Closure
pub mod Capability
