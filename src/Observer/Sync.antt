-- ===== src/Observer/Sync.antt =====
-- observer/src/rpc.rs: `run`, `run_connection`, `reconcile_to_finalized_slot` and
-- `monitor_rpc_slot`. The task of the connection and the
-- task of the monitor take turns on the shared status and counters.
pub mod Ready
use Prim.Native.String
use mathlib.Core.Option
use iron_vault.Observer.Alerts.{Alert, observer_falling_behind, program_upgrade_observed}
use iron_vault.Observer.Events.Decode.{Codec}
use iron_vault.Observer.Fallible.{Fallible, done, failed}
use iron_vault.Observer.Metrics.{fetch_add}
use iron_vault.Observer.Process.{World, process_logs}
use iron_vault.Observer.Reconcile.{Rpc, reconcile}
use iron_vault.Prelude.{
  Bool, List, Option, String, false, if◌then◌else◌, ltb, none, not, some, true, ℕ, ◌-◌, ◌==◌, ◌^◌,
  ◌∷◌, ◌≡◌, ◌≢◌,
}
use iron_vault.Prelude.Int.{negsuc, pos, ℤ}
use iron_vault.State.{Pubkey}

pub record SyncStatus : Type 0 where
  pub connected : Bool
  pub reconciled : Bool
  pub observed_slot : ℕ
  pub rpc_slot : ℕ

-- Where the connection's task is: between two connections, before the acknowledgement of its
-- subscription, in the first reconciliation, and in the loop.
pub data Phase : Type 0 where
  waiting : Phase
  connecting : Phase
  reconciling : Phase
  live : Phase

pub record System : Type 0 where
  pub phase : Phase
  pub status : SyncStatus
  pub world : World
  pub deployment_slot : Option ℕ

abbrev pub first_status : SyncStatus
first_status = record { connected = false; reconciled = false; observed_slot = 0; rpc_slot = 0 }

abbrev pub max : ℕ → ℕ → ℕ
max a b = if ltb a b then b else a

abbrev pub rpc_error : World → World
rpc_error w = record w {
  metrics = record w.metrics { rpc_errors_total = fetch_add w.metrics.rpc_errors_total };
}

-- `run`, when `run_connection` has failed.
unfoldable pub lose : World → System → System
lose w s = record s {
  phase = waiting;
  status = record s.status { connected = false };
  world = rpc_error w;
}

-- `run`, from its second round on.
unfoldable pub retry : System → System
retry s = record s {
  phase = connecting;
  world = record s.world {
    metrics = record s.world.metrics {
      rpc_reconnects_total = fetch_add s.world.metrics.rpc_reconnects_total;
    };
  };
}

-- `run_connection`: the acknowledgement.
unfoldable pub acknowledge : System → System
acknowledge s = record s {
  phase = reconciling;
  status = record s.status { connected = true; reconciled = false };
}

-- `reconcile_to_finalized_slot`, after `reconcile` has succeeded, by the answer of `getSlot`.
unfoldable pub reach_slot : Fallible ℕ → World → System → System
reach_slot (failed why) w s = lose w s
reach_slot (done slot) w s = record s {
  phase = live;
  status = record s.status {
    reconciled = true;
    rpc_slot = slot;
    observed_slot = max s.status.observed_slot slot;
  };
  world = w;
}

abbrev pub reconciled_with : Rpc → System → World × Fallible (Unit {0}) → System
reconciled_with rpc s (w, failed why) = lose w s
reconciled_with rpc s (w, done _) = reach_slot rpc.get_slot w s

abbrev pub logged_with : System → World × Fallible (Unit {0}) → System
logged_with s (w, failed why) = lose w s
logged_with s (w, done _) = record s { world = w }

-- The monitor's alert.
falling_behind : ℕ → ℕ → List Alert → List Alert
falling_behind max_ready_slot_lag lag alerts =
    if ltb max_ready_slot_lag lag then observer_falling_behind lag ∷ alerts else alerts

-- `lag as i64`
abbrev pub as_i64 : ℕ → ℤ
as_i64 n = if ltb n (2 ^ 63) then pos n else negsuc (2 ^ 64 - 1 - n)

differs : Option ℕ → ℕ → Bool
differs none current = false
differs (some previous) current = not (previous == current)

check_deployment : Fallible ℕ → System → System
check_deployment (failed why) s = record s { world = rpc_error s.world }
check_deployment (done current) s = record s {
  world = record s.world {
    alerts =
        if differs s.deployment_slot current
        then program_upgrade_observed ∷ s.world.alerts
        else s.world.alerts;
  };
  deployment_slot = some current;
}

-- A round of `monitor_rpc_slot`, by the answer of `getSlot` and the deployment slot.
unfoldable pub monitor : ℕ → Fallible ℕ → Fallible ℕ → System → System
unfolding check_deployment falling_behind differs
monitor max_ready_slot_lag (failed why) deployment s = record s { world = rpc_error s.world }
monitor max_ready_slot_lag (done slot) deployment s =
    let lag = slot - s.status.observed_slot in
    check_deployment deployment (record s {
      status = record s.status { rpc_slot = slot };
      world = record s.world {
        metrics = record s.world.metrics { observer_slot_lag = as_i64 lag };
        alerts = falling_behind max_ready_slot_lag lag s.world.alerts;
      };
    })

module _ (base58 : Pubkey → String) (large_withdrawal_threshold : ℕ) (codec : Codec)
    (program_id : String) where
  -- `reconcile_to_finalized_slot`; `none` when the fuel ran out.
  unfoldable pub reconcile_to_finalized_slot : Rpc → ℕ → System → Option System
  reconcile_to_finalized_slot rpc fuel s =
      Option.map (reconciled_with rpc s)
        (reconcile base58 large_withdrawal_threshold codec program_id rpc fuel s.world)

  process_notification : Option String → String → ℕ → List String → System → System
  process_notification (some why) signature slot logs s = s
  process_notification none signature slot logs s = logged_with s (
      process_logs base58 large_withdrawal_threshold codec program_id signature slot none logs
        s.world)

  -- A notification of the subscription.
  unfoldable pub notify : Option String → String → ℕ → List String → System → System
  unfolding process_notification
  notify error signature slot logs s =
      process_notification error signature slot logs
        (record s { status = record s.status { observed_slot = max s.status.observed_slot slot } })

  -- What can happen next.
  pub data Step (s : System) : System → Type 0 where
    retries : s.phase ≡ waiting → Step s (retry s)
    acknowledges : s.phase ≡ connecting → Step s (acknowledge s)
    reconciles :
        (rpc : Rpc) (fuel : ℕ) {t : System}
        → s.phase ≢ waiting
        → s.phase ≢ connecting
        → reconcile_to_finalized_slot rpc fuel s ≡ some t
        → Step s t
    notifies :
        (error : Option String) (signature : String) (slot : ℕ) (logs : List String)
        → s.phase ≡ live
        → Step s (notify error signature slot logs s)
    loses : s.phase ≢ waiting → Step s (lose s.world s)
    monitors :
        (max_ready_slot_lag : ℕ) (slot deployment : Fallible ℕ)
        → Step s (monitor max_ready_slot_lag slot deployment s)

  -- Any number of steps.
  pub data Run (s : System) : System → Type 0 where
    stay : Run s s
    then_next : {t u : System} → Run s t → Step t u → Run s u
