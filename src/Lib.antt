-- ===== src/Lib.antt =====
-- Verification of IronVault: the on-chain program that keeps escrows and vaults of SPL tokens, and
-- the observer that follows it.
--
-- The program (programs/iron_vault/src) has nineteen instructions over six kinds of state accounts.
-- Each instruction is a handler that Anchor runs after it has read and constrained the accounts that
-- the instruction declares; a failed instruction leaves the ledger as it was. Escrows move tokens
-- from their maker to a recipient or back. Vaults keep tokens per mint; a withdrawal is instant up to
-- a threshold, or is requested, waits for its timelock, and is executed or cancelled. A protocol
-- configuration pauses kinds of instructions, and roles delegate permissions on a vault.
--
-- The observer (observer/src) subscribes to the program's logs at a node. It reads the events out of
-- the log of each transaction, stores them and what they make of escrows, vaults and requests in a
-- database, counts them and alerts on some. After each connection and every thirty seconds it pages
-- back through the history to its checkpoint and replays it; what was stored before is a no-op.
--
-- Where the parts are:
--   * State, Events, Error, Constants: state/mod.rs, events.rs, error.rs and constants.rs, with the
--     names of the source. A public key is a number, and the default key is 0.
--   * Runtime: the ledger, from keys to accounts with an owner and a content; Anchor's typed reads
--     (`load`, `load_interface`), `init`, seeds and signers, as the account attributes of the source
--     use them; `Runtime` holds what the program calls and does not implement.
--   * Seeds: the `seeds = [...]` of every derived address.
--   * Security: security/pause.rs, permissions.rs, token_policy.rs. `authorize` is the shape that
--     withdraw.rs, request_withdrawal.rs, cancel_withdrawal.rs and update_limits.rs share.
--   * Transfer: the call of `transfer_checked`, the reloads and the balance checks after it.
--   * Escrow/Create, Release, Refund: create_escrow.rs, release_escrow.rs, refund_escrow.rs.
--   * Protocol: initialize.rs, initialize_protocol.rs and set_protocol_pause.rs.
--   * Vault: create_vault.rs, set_vault_authority.rs and pause_vault.rs.
--   * Role: grant_role.rs and revoke_role.rs.
--   * Asset/Register, Deposit, Limits: register_asset.rs, deposit.rs and update_limits.rs.
--   * Withdrawal/Instant, Window, Request, Execute, Cancel: withdraw.rs, its `next_window_state`,
--     request_withdrawal.rs, execute_withdrawal.rs and cancel_withdrawal.rs.
--   * Program: lib.rs; Program/Evolution says how an account may change, Program/History what may
--     happen to a ledger over time.
--   * Borsh: the serializers that the events of both sides are written with and read by; Borsh/Wire
--     has the order in which the fields of events.rs are written.
--   * Observer/Fallible, Text: `anyhow::Result`, and the operations of `str` that the observer uses.
--   * Observer/Events: observer/src/events.rs; Observer/Logs: `extract_events` of rpc.rs.
--   * Observer/Store: database.rs, its statements as functions on tables.
--   * Observer/Alerts, Metrics, Process: alerts.rs, the counters of metrics.rs, and `record_event` and
--     `process_logs` of rpc.rs.
--   * Observer/Reconcile: `reconcile` of rpc.rs. Observer/Sync: `run`, `run_connection`,
--     `reconcile_to_finalized_slot` and `monitor_rpc_slot` of rpc.rs as steps on a status that they
--     share. Observer/Deployment: `fetch_deployment_slot` of rpc.rs. Observer/Health: health.rs.
--   * Multisig: test-programs/mock_multisig/src/lib.rs, the program that tests use as an authority;
--     Multisig/Forwarding describes what it invokes without the code that builds it.
--   * Tests: concrete runtimes, ledgers, codecs and nodes, and the properties at concrete calls.
-- The other modules hold proofs: Outcome, Lifecycle, Outflow and Execution say what a successful
-- handler has read, checked and written, and the modules listed below build on them.
--
-- How the code corresponds: an instruction's record of keys is its accounts structure; `validate_*`
-- (`load_*` and `constrain_*` for an execution) reads and constrains the accounts in the order of the
-- attributes; `check_*` is the run of `require!` lines at the head of a handler; the handler itself
-- composes them, calls the token program and writes the accounts back. Times are signed integers
-- and amounts natural numbers; `checked_add` fails at 2 ^ 63 and 2 ^ 64 as in Rust. The remaining
-- subtraction, of an amount from a balance that covers it, stays above 0 by the check before it.
-- The program has no loop. The observer's loops over lines and events are recursions on lists; its
-- loop over the pages of a history has fuel, of which one more than the entries of the history is
-- enough. Its counters of instructions and events are 32-bit integers in the source, of which fewer
-- than 2 ^ 31 log lines overflow none; the metrics wrap around at 2 ^ 64.
--
-- What is a parameter: address derivation and `transfer_checked` are fields of `Runtime`. Where a
-- theorem speaks of accounts that a transfer does not name, it has the hypothesis `TokenProgram`: a
-- transfer of either token program writes to its two token accounts only. For the observer, Borsh,
-- SHA-256 and base64 are the fields of `Codec`, with `CodecLaws` where a theorem needs them; base58 is
-- a function; the answers of the node are the fields of `Rpc`, and `IsHistory` is a node that pages
-- through a fixed history. PostgreSQL is there as the documented meaning of the statements used, with
-- the table of events in the order of their insertion. For the multisig, `Host` is the runtime.
--
-- What is not modelled: lamports, rent and payers; the byte layout of accounts, in whose place an
-- account's content is typed by its discriminator; the privileges of writable accounts and
-- Anchor's refusal of one account passed twice as mutable; the accounts of the system program and
-- of sysvars; the log lines of the program that are no events. Of the observer: sockets, HTTP, the
-- JSON of messages and of stored payloads, configuration and start-up, and the columns that hold the
-- time of the database. The clients and the scripts are not modelled.
pub mod Prelude
pub mod Error
pub mod State
pub mod Constants
pub mod Events
pub mod Borsh
pub mod Runtime
pub mod Seeds
pub mod Security
pub mod Transfer
pub mod Escrow
pub mod Protocol
pub mod Vault
pub mod Role
pub mod Asset
pub mod Withdrawal
pub mod Program
pub mod Observer
pub mod Multisig
pub mod Tests
