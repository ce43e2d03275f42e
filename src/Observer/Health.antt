-- ===== src/Observer/Health.antt =====
-- observer/src/health.rs: the answers of the three routes, without their transport.
use iron_vault.Observer.Metrics.{Metrics}
use iron_vault.Observer.Metrics.Page.{render}
use iron_vault.Observer.Sync.{SyncStatus}
use iron_vault.Prelude.{Bool, String, if◌then◌else◌, leb, ℕ, ◌&&◌, ◌-◌}

-- The code and the JSON object of `readyz`.
pub record Readiness : Type 0 where
  pub code : ℕ
  pub status : String
  pub database : Bool
  pub websocket : Bool
  pub reconciled : Bool
  pub observed_slot : ℕ
  pub rpc_slot : ℕ
  pub slot_lag : ℕ

-- `database_ready` is whether `SELECT 1` was answered.
unfoldable pub readyz : Bool → ℕ → SyncStatus → Readiness
readyz database_ready max_ready_slot_lag sync =
    let lag = sync.rpc_slot - sync.observed_slot in
    let ready =
      database_ready && (sync.connected && (sync.reconciled && leb lag max_ready_slot_lag)) in
    record {
      code = if ready then 200 else 503;
      status = if ready then "ready" else "not_ready";
      database = database_ready;
      websocket = sync.connected;
      reconciled = sync.reconciled;
      observed_slot = sync.observed_slot;
      rpc_slot = sync.rpc_slot;
      slot_lag = lag;
    }

-- The code and the `status` of the object.
abbrev pub healthz : ℕ × String
healthz = (200, "alive")

-- The code, the content type and the page.
abbrev pub metrics_page : Metrics → ℕ × String × String
metrics_page metrics = (200, "text/plain; version=0.0.4; charset=utf-8", render metrics)
