-- ===== src/Observer/Process.antt =====
-- observer/src/rpc.rs: `process_logs`, which stores what a log holds, and counts and alerts what
-- was new.
pub mod Resume
use Prim.Native.String
use iron_vault.Observer.Alerts.{Alert, classify_event}
use iron_vault.Observer.Events.Decode.{Codec}
use iron_vault.Observer.Fallible.{Fallible, done, failed}
use iron_vault.Observer.Logs.{extract_events}
use iron_vault.Observer.Metrics.{Metrics, fetch_add, record_event}
use iron_vault.Observer.Store.{ObservedEvent, Tables, persist}
use iron_vault.Prelude.{Bool, List, Option, String, [], false, none, some, true, ℕ, ◌∷◌}
use iron_vault.Prelude.Int.{ℤ}
use iron_vault.State.{Pubkey}

-- The database, the counters, and the alerts that were emitted, the newest first.
pub record World : Type 0 where
  pub tables : Tables
  pub metrics : Metrics
  pub alerts : List Alert

-- `alerts::emit`
abbrev pub emit : Option Alert → List Alert → List Alert
emit none alerts = alerts
emit (some alert) alerts = alert ∷ alerts

-- The `?` operator: a failure keeps what was done before it.
abbrev pub and_then :
    World × Fallible (Unit {0})
    → (World → World × Fallible (Unit {0}))
    → World × Fallible (Unit {0})
and_then (w, failed why) rest = (w, failed why)
and_then (w, done _) rest = rest w

module _ (base58 : Pubkey → String) (large_withdrawal_threshold : ℕ) where
  -- What follows on `persist`.
  abbrev pub after_persist :
      ObservedEvent → Fallible (Tables × Bool) → World → World × Fallible (Unit {0})
  after_persist o (failed why) w = (w, failed why)
  after_persist o (done (t, true)) w = (
    record {
      tables = t;
      metrics = record_event o.event w.metrics;
      alerts = emit (classify_event base58 o.event large_withdrawal_threshold) w.alerts;
    },
    done tt,
  )
  after_persist o (done (t, false)) w = (record w { tables = t }, done tt)

  -- The body of the loop.
  unfoldable pub process_item : Fallible ObservedEvent → World → World × Fallible (Unit {0})
  process_item (done o) w = after_persist o (persist base58 o w.tables) w
  process_item (failed why) w = (
    record w {
      metrics = record w.metrics { decode_errors_total = fetch_add w.metrics.decode_errors_total };
    },
    done tt,
  )

  -- The loop goes on unless the database failed.
  unfoldable pub process_items : List (Fallible ObservedEvent) → World → World × Fallible (Unit {0})
  process_items [] w = (w, done tt)
  process_items (item ∷ items) w = and_then (process_item item w) (λ w'. process_items items w')

  unfoldable pub process_logs :
      Codec → String → String → ℕ → Option ℤ → List String → World → World × Fallible (Unit {0})
  process_logs codec program_id signature slot block_time logs w =
      process_items (extract_events codec signature slot block_time program_id logs) w
