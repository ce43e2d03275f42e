-- ===== src/Observer/Metrics.antt =====
-- observer/src/metrics.rs, and `record_event` of observer/src/rpc.rs. The counters wrap around.
pub mod Page
use iron_vault.Observer.Events.{
  IronVaultEvent, escrow_created, protocol_pause_updated, vault_pause_updated, withdrawal_executed,
  withdrawal_requested,
}
use iron_vault.Prelude.{if◌then◌else◌, not, ℕ, ◌%◌, ◌+◌, ◌==◌, ◌^◌}
use iron_vault.Prelude.Int.{pos, ℤ}

pub record Metrics : Type 0 where
  pub events_total : ℕ
  pub rpc_errors_total : ℕ
  pub rpc_reconnects_total : ℕ
  pub observer_slot_lag : ℤ
  pub decode_errors_total : ℕ
  pub escrows_created_total : ℕ
  pub withdrawals_requested_total : ℕ
  pub withdrawals_executed_total : ℕ
  pub pauses_total : ℕ

abbrev pub no_metrics : Metrics
no_metrics = record {
  events_total = 0;
  rpc_errors_total = 0;
  rpc_reconnects_total = 0;
  observer_slot_lag = pos 0;
  decode_errors_total = 0;
  escrows_created_total = 0;
  withdrawals_requested_total = 0;
  withdrawals_executed_total = 0;
  pauses_total = 0;
}

-- `fetch_add(1)`
abbrev pub fetch_add : ℕ → ℕ
fetch_add n = (n + 1) % 2 ^ 64

count_kind : IronVaultEvent → Metrics → Metrics
count_kind (escrow_created event) m = record m {
  escrows_created_total = fetch_add m.escrows_created_total;
}
count_kind (withdrawal_requested event) m = record m {
  withdrawals_requested_total = fetch_add m.withdrawals_requested_total;
}
count_kind (withdrawal_executed event) m = record m {
  withdrawals_executed_total = fetch_add m.withdrawals_executed_total;
}
count_kind (protocol_pause_updated event) m =
    if not (event.new_flags == 0) then record m { pauses_total = fetch_add m.pauses_total } else m
count_kind (vault_pause_updated event) m =
    if event.paused then record m { pauses_total = fetch_add m.pauses_total } else m
count_kind _ m = m

-- `record_event`
unfoldable pub record_event : IronVaultEvent → Metrics → Metrics
unfolding count_kind
record_event event m = count_kind event (record m { events_total = fetch_add m.events_total })
