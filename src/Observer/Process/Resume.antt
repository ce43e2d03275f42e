-- ===== src/Observer/Process/Resume.antt =====
-- A log that was cut short is processed again from its start.
use iron_vault.Observer.Alerts.{Alert, classify_event}
use iron_vault.Observer.Events.Decode.{Codec}
use iron_vault.Observer.Fallible.{Fallible, done, failed}
use iron_vault.Observer.Logs.{extract_events}
use iron_vault.Observer.Metrics.{Metrics, record_event}
use iron_vault.Observer.Process.{
  World, after_persist, and_then, emit, process_item, process_items, process_logs,
}
use iron_vault.Observer.Store.{ObservedEvent, Tables, persist}
use iron_vault.Observer.Store.Replay.{Stored, Stored-persist, persist-Stored, persist-keeps_Stored}
use iron_vault.Prelude.{
  Bool, List, Option, String, [], ap, false, refl, subst, sym, true, ℕ, ◌++◌, ◌∙◌, ◌∷◌, ◌≡◌,
}
use iron_vault.Prelude.Int.{ℤ}
use iron_vault.State.{Pubkey}

-- What of a run is seen outside of the counters.
abbrev pub view : World × Fallible (Unit {0}) → Tables × List Alert × Fallible (Unit {0})
view (w, result) = (w.tables, w.alerts, result)

abbrev AllStored : List (Fallible ObservedEvent) → Tables → Type 0
AllStored [] t = Unit
AllStored (done o ∷ rest) t = Stored o t × AllStored rest t
AllStored (failed why ∷ rest) t = AllStored rest t

module _ (base58 : Pubkey → String) (large_withdrawal_threshold : ℕ) where
  abbrev run_items : List (Fallible ObservedEvent) → World → World × Fallible (Unit {0})
  run_items items w = process_items base58 large_withdrawal_threshold items w

  abbrev step : Fallible ObservedEvent → World → World × Fallible (Unit {0})
  step item w = process_item base58 large_withdrawal_threshold item w

  -- What follows on an event, with other counters.
  after_persist-metrics :
      (items : List (Fallible ObservedEvent))
      → ((w : World) (m : Metrics)
          → view (run_items items (record w { metrics = m })) ≡ view (run_items items w))
      → (o : ObservedEvent) (result : Fallible (Tables × Bool)) (w : World) (m : Metrics)
      → view (
          and_then
            (after_persist base58 large_withdrawal_threshold o result (record w { metrics = m }))
            (λ w'. run_items items w'))
        ≡ view (
            and_then
              (after_persist base58 large_withdrawal_threshold o result w)
              (λ w'. run_items items w'))
  after_persist-metrics items later o (failed why) w m = refl
  after_persist-metrics items later o (done (t, true)) w m =
      later
        (record {
          tables = t;
          metrics = record_event o.event w.metrics;
          alerts = emit (classify_event base58 o.event large_withdrawal_threshold) w.alerts;
        })
        (record_event o.event m)
  after_persist-metrics items later o (done (t, false)) w m = later (record w { tables = t }) m

  -- The counters decide nothing.
  run_items-metrics :
      (items : List (Fallible ObservedEvent)) (w : World) (m : Metrics)
      → view (run_items items (record w { metrics = m })) ≡ view (run_items items w)
  unfolding process_items process_item
  run_items-metrics [] w m = refl
  run_items-metrics (failed why ∷ items) w m =
      run_items-metrics items w _ ∙ sym (run_items-metrics items w _)
  run_items-metrics (done o ∷ items) w m =
      after_persist-metrics items (λ w' m'. run_items-metrics items w' m') o
        (persist base58 o w.tables) w m

  and_then-eq_done :
      (first : World × Fallible (Unit {0})) (rest : World → World × Fallible (Unit {0}))
      (w1 : World)
      → and_then first rest ≡ (w1, done tt)
      → (v : World) × (first ≡ (v, done tt)) × (rest v ≡ (w1, done tt))
  and_then-eq_done (v, failed why) rest w1 h = cc
  and_then-eq_done (v, done tt) rest w1 h = (v, refl, h)

  run_items-append :
      (xs ys : List (Fallible ObservedEvent)) (w w1 : World)
      → run_items xs w ≡ (w1, done tt)
      → run_items (xs ++ ys) w ≡ run_items ys w1
  unfolding process_items
  run_items-append [] ys w w1 h = ap (λ v. run_items ys v.0) h
  run_items-append (item ∷ xs) ys w w1 h =
      let (v, first, h1) = and_then-eq_done (step item w) _ w1 h in
      rw first (run_items-append xs ys v w1 h1)

  after_persist-eq_done :
      (o : ObservedEvent) (result : Fallible (Tables × Bool)) (w v : World)
      → after_persist base58 large_withdrawal_threshold o result w ≡ (v, done tt)
      → (inserted : Bool) × (result ≡ done (v.tables, inserted))
  after_persist-eq_done o (failed why) w v h = cc
  after_persist-eq_done o (done (t, true)) w v h = (true, ap (λ u. done (u.0.tables, true)) h)
  after_persist-eq_done o (done (t, false)) w v h = (false, ap (λ u. done (u.0.tables, false)) h)

  step-keeps :
      (o : ObservedEvent) (item : Fallible ObservedEvent) (w v : World)
      → step item w ≡ (v, done tt)
      → Stored o w.tables
      → Stored o v.tables
  unfolding process_item
  step-keeps o (failed why) w v h s = subst (λ u. Stored o u.0.tables) h s
  step-keeps o (done p) w v h s =
      let (inserted, e) = after_persist-eq_done p (persist base58 p w.tables) w v h in
      persist-keeps_Stored base58 o p w.tables v.tables inserted e s

  run_items-keeps :
      (o : ObservedEvent) (xs : List (Fallible ObservedEvent)) (w w1 : World)
      → run_items xs w ≡ (w1, done tt)
      → Stored o w.tables
      → Stored o w1.tables
  unfolding process_items
  run_items-keeps o [] w w1 h s = subst (λ u. Stored o u.0.tables) h s
  run_items-keeps o (item ∷ xs) w w1 h s =
      let (v, first, h1) = and_then-eq_done (step item w) _ w1 h in
      run_items-keeps o xs v w1 h1 (step-keeps o item w v first s)

  run_items-AllStored :
      (xs : List (Fallible ObservedEvent)) (w w1 : World)
      → run_items xs w ≡ (w1, done tt)
      → AllStored xs w1.tables
  unfolding process_items process_item
  run_items-AllStored [] w w1 h = tt
  run_items-AllStored (failed why ∷ xs) w w1 h = run_items-AllStored xs _ w1 h
  run_items-AllStored (done o ∷ xs) w w1 h =
      let (v, first, h1) = and_then-eq_done (step (done o) w) _ w1 h in
      let (inserted, e) = after_persist-eq_done o (persist base58 o w.tables) w v first in
      (
        run_items-keeps o xs v w1 h1 (persist-Stored base58 o w.tables v.tables inserted e),
        run_items-AllStored xs v w1 h1,
      )

  AllStored-run_items :
      (xs ys : List (Fallible ObservedEvent)) (w : World)
      → AllStored xs w.tables
      → view (run_items (xs ++ ys) w) ≡ view (run_items ys w)
  unfolding process_items process_item
  AllStored-run_items [] ys w h = refl
  AllStored-run_items (failed why ∷ xs) ys w h =
      AllStored-run_items xs ys _ h ∙ run_items-metrics ys w _
  AllStored-run_items (done o ∷ xs) ys w (s, h) =
      rw (Stored-persist base58 o w.tables s) (AllStored-run_items xs ys w h)

  -- If the work on a log stopped after `xs`, a prefix of its events, and is begun again from the
  -- start, then the tables, the alerts ever emitted and the result are those of work that never
  -- stopped.
  pub process_logs-resume :
      (codec : Codec) (program_id signature : String) (slot : ℕ) (block_time : Option ℤ)
      (logs : List String) (xs ys : List (Fallible ObservedEvent)) (w w1 : World)
      → extract_events codec signature slot block_time program_id logs ≡ xs ++ ys
      → process_items base58 large_withdrawal_threshold xs w ≡ (w1, done tt)
      → view (
          process_logs base58 large_withdrawal_threshold codec program_id signature slot block_time
            logs w1)
        ≡ view (
            process_logs base58 large_withdrawal_threshold codec program_id signature slot
              block_time logs w)
  unfolding process_logs
  process_logs-resume codec program_id signature slot block_time logs xs ys w w1 split h =
      rw split (
        AllStored-run_items xs ys w1 (run_items-AllStored xs w w1 h)
        ∙ sym (ap view (run_items-append xs ys w w1 h)))
