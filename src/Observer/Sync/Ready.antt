-- ===== src/Observer/Sync/Ready.antt =====
-- When the observer reports that it is ready.
use mathlib.Core.Option
use iron_vault.Observer.Events.Decode.{Codec}
use iron_vault.Observer.Fallible.{Fallible, done, failed}
use iron_vault.Observer.Health.{readyz}
use iron_vault.Observer.Process.{World, process_logs}
use iron_vault.Observer.Reconcile.{Rpc}
use iron_vault.Observer.Sync.{
  Phase, Run, Step, System, acknowledge, acknowledges, connecting, live, logged_with, lose, loses,
  monitor, monitors, notifies, notify, reach_slot, reconcile_to_finalized_slot, reconciled_with,
  reconciles, reconciling, retries, retry, stay, then_next, waiting,
}
use iron_vault.Prelude.{
  Bool, List, Option, String, arith, false, none, refl, some, subst, true, ℕ, ◌+◌, ◌≡◌, ◌≤◌,
}
use iron_vault.State.{Pubkey}

-- The status is that of the connection, by its phase.
abbrev pub IsCurrent : Phase → Bool → Bool → Type 0
IsCurrent waiting connected reconciled = connected ≡ false
IsCurrent connecting connected reconciled = connected ≡ false
IsCurrent reconciling connected reconciled = reconciled ≡ false
IsCurrent live connected reconciled = Unit

abbrev pub IsSound : System → Type 0
IsSound s = IsCurrent s.phase s.status.connected s.status.reconciled

-- The status is sound, and what has been observed stays observed.
abbrev IsNext : System → System → Type 0
IsNext s t = IsSound t × (s.status.observed_slot ≤ t.status.observed_slot)

lose-IsNext :
    (s u : System) (w : World)
    → s.status.observed_slot ≤ u.status.observed_slot
    → IsNext s (lose w u)
unfolding lose
lose-IsNext s u w h = (refl, h)

reach_slot-IsNext :
    (answer : Fallible ℕ) (w : World) (s : System) → IsNext s (reach_slot answer w s)
unfolding reach_slot
reach_slot-IsNext (failed why) w s = lose-IsNext s s w (omega arith)
reach_slot-IsNext (done slot) w s = (tt, ground arith)

monitor-IsNext :
    (max_lag : ℕ) (slot deployment : Fallible ℕ) (s : System)
    → IsSound s
    → IsNext s (monitor max_lag slot deployment s)
unfolding monitor
monitor-IsNext max_lag (failed why) deployment s h = (h, omega arith)
monitor-IsNext max_lag (done slot) (failed why) s h = (h, omega arith)
monitor-IsNext max_lag (done slot) (done current) s h = (h, omega arith)

live-IsCurrent :
    (phase : Phase) (connected reconciled : Bool)
    → phase ≡ live
    → IsCurrent phase connected reconciled
live-IsCurrent phase connected reconciled h = rw h tt

logged_with-IsNext :
    (s u : System) (result : World × Fallible (Unit {0}))
    → u.phase ≡ live
    → s.status.observed_slot ≤ u.status.observed_slot
    → IsNext s (logged_with u result)
logged_with-IsNext s u (w, failed why) phase h = lose-IsNext s u w h
logged_with-IsNext s u (w, done _) phase h =
    (live-IsCurrent u.phase u.status.connected u.status.reconciled phase, h)

reconciled_with-IsNext :
    (rpc : Rpc) (s : System) (result : World × Fallible (Unit {0}))
    → IsNext s (reconciled_with rpc s result)
reconciled_with-IsNext rpc s (w, failed why) = lose-IsNext s s w (omega arith)
reconciled_with-IsNext rpc s (w, done _) = reach_slot-IsNext rpc.get_slot w s

ready_phase :
    (phase : Phase) (connected reconciled : Bool)
    → IsCurrent phase connected reconciled
    → connected ≡ true
    → reconciled ≡ true
    → phase ≡ live
ready_phase waiting connected reconciled h c r = absurd (ground arith)
ready_phase connecting connected reconciled h c r = absurd (ground arith)
ready_phase reconciling connected reconciled h c r = absurd (ground arith)
ready_phase live connected reconciled h c r = refl

map-eq_some {ℓ κ} :
    {A : Type ℓ} {B : Type κ} (f : A → B) (found : Option A) (b : B)
    → Option.map f found ≡ some b
    → (a : A) × (f a ≡ b)
map-eq_some f none b h = cc
map-eq_some f (some a) b h = (a, cc)

module _ (base58 : Pubkey → String) (large_withdrawal_threshold : ℕ) (codec : Codec)
    (program_id : String) where
  notify-IsNext :
      (error : Option String) (signature : String) (slot : ℕ) (logs : List String) (s : System)
      → s.phase ≡ live
      → IsNext s
          (notify base58 large_withdrawal_threshold codec program_id error signature slot logs s)
  unfolding notify
  notify-IsNext (some why) signature slot logs s h =
      (live-IsCurrent s.phase s.status.connected s.status.reconciled h, ground arith)
  notify-IsNext none signature slot logs s h =
      logged_with-IsNext s _
        (process_logs base58 large_withdrawal_threshold codec program_id signature slot none logs
          s.world)
        h (ground arith)

  reconcile-IsNext :
      (rpc : Rpc) (fuel : ℕ) (s t : System)
      → reconcile_to_finalized_slot base58 large_withdrawal_threshold codec program_id rpc fuel s
        ≡ some t
      → IsNext s t
  unfolding reconcile_to_finalized_slot
  reconcile-IsNext rpc fuel s t h =
      let (result, e) = map-eq_some (reconciled_with rpc s) _ t h in
      subst (λ u. IsNext s u) e (reconciled_with-IsNext rpc s result)

  Step-IsNext :
      {s t : System}
      → Step base58 large_withdrawal_threshold codec program_id s t
      → IsSound s
      → IsNext s t
  unfolding retry acknowledge
  Step-IsNext {s} (retries phase) h =
      (subst (λ p. IsCurrent p s.status.connected s.status.reconciled) phase h, omega arith)
  Step-IsNext (acknowledges phase) h = (refl, omega arith)
  Step-IsNext {s} {t} (reconciles rpc fuel busy subscribed e) h = reconcile-IsNext rpc fuel s t e
  Step-IsNext {s} (notifies error signature slot logs phase) h =
      notify-IsNext error signature slot logs s phase
  Step-IsNext {s} (loses busy) h = lose-IsNext s s s.world (omega arith)
  Step-IsNext {s} (monitors max_lag slot deployment) h = monitor-IsNext max_lag slot deployment s h

  -- In any run, what has been observed stays observed.
  Run-IsNext :
      {s t : System}
      → Run base58 large_withdrawal_threshold codec program_id s t
      → IsSound s
      → IsNext s t
  Run-IsNext stay h = (h, omega arith)
  Run-IsNext (then_next run step) h =
      let (sound, more) = Run-IsNext run h in
      let (sound', still_more) = Step-IsNext step sound in (sound', omega arith)

  -- However connections are made, lost and made again, and whatever the node answers: when the
  -- observer reports that it is ready, it is past the first reconciliation of the connection that
  -- it has, it has observed all slots that the node has finalized but for the lag allowed, and no
  -- slot that it had observed before is lost.
  pub readyz-IsLive :
      (s t : System) (database_ready : Bool) (max_ready_slot_lag : ℕ)
      → IsSound s
      → Run base58 large_withdrawal_threshold codec program_id s t
      → (readyz database_ready max_ready_slot_lag t.status).code ≡ 200
      → (t.phase ≡ live)
        × (database_ready ≡ true)
        × (t.status.rpc_slot ≤ t.status.observed_slot + max_ready_slot_lag)
        × (s.status.observed_slot ≤ t.status.observed_slot)
  unfolding readyz
  readyz-IsLive s t database_ready max_ready_slot_lag sound run ready =
      let (sound', more) = Run-IsNext run sound in
      (
        ready_phase t.phase _ _ sound' (ground arith) (ground arith),
        ground arith,
        ground arith,
        more,
      )
