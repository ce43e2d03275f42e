-- ===== src/Tests/Syncing.antt =====
-- The properties of the observer's runs at concrete ones.
use mathlib.Core.Option
use iron_vault.Events as Chain
use iron_vault.Borsh.Wire.{wire}
use iron_vault.Observer.Alerts.{classify_event}
use iron_vault.Observer.Events.Decode.{
  Codec, decode, decode_as, decode_program_data, discriminator, try_from_slice,
}
use iron_vault.Observer.Fallible.{Fallible, done}
use iron_vault.Observer.Health.{readyz}
use iron_vault.Observer.Logs.{extract_events, extract_from, is_data, is_exit, parse_invoke}
use iron_vault.Observer.Metrics.{no_metrics, record_event}
use iron_vault.Observer.Process.{World, process_item, process_items, process_logs}
use iron_vault.Observer.Process.Resume.{process_logs-resume, view}
use iron_vault.Observer.Reconcile.{
  Rpc, SignatureInfo, fetch_signatures, reaches, reconcile, replay, replay_transaction, succeeded,
}
use iron_vault.Observer.Reconcile.Paging.{IsHistory, fetch_signatures-history, older}
use iron_vault.Observer.Store.{
  ObservedEvent, apply_projection, check_columns, eq_text, has_event, persist, store_event,
  update_checkpoint,
}
use iron_vault.Observer.Sync.{
  Run, System, acknowledge, acknowledges, connecting, first_status, live, monitor, monitors,
  reach_slot, reconcile_to_finalized_slot, reconciles, stay, then_next,
}
use iron_vault.Observer.Sync.Ready.{readyz-IsLive}
use iron_vault.Observer.Text.{
  contains, ends_with, parse_u32, split_once, strip_prefix, strip_suffix,
}
use iron_vault.Prelude.{
  List, Option, String, [], arith, drop, if◌then◌else◌, none, refl, some, sym, take, take-drop,
  true, ℕ, ◌++◌, ◌+◌, ◌∷◌, ◌≡◌, ◌≤◌, ◌⊎◌,
}
use iron_vault.Prelude.Int.{◌+ℤ◌}
use iron_vault.Tests.Codecs.{demo_codec, little_endian, put_le, take_le}
use iron_vault.Tests.Observing.{no_tables, short_key}

abbrev paused_on_chain : Chain.IronVaultEvent
paused_on_chain =
    Chain.vault_pause_updated (record { version = 1; vault = 7; caller = 9; paused = true })

abbrev text_codec : Codec
text_codec = record demo_codec {
  base64_decode = λ s.
      if eq_text s "AA"
      then some (discriminator demo_codec "VaultPauseUpdated" ++ wire little_endian paused_on_chain)
      else none;
}

abbrev two_lines : List String
two_lines =
    "Program Iron invoke [1]" ∷ "Program data: AA" ∷ "Program data: AA" ∷ "Program Iron success"
    ∷ []

abbrev two_items : List (Fallible ObservedEvent)
two_items = extract_events text_codec "sig" 42 none "Iron" two_lines

abbrev no_world : World
no_world = record { tables = no_tables; metrics = no_metrics; alerts = [] }

abbrev half_way : World
half_way = (process_items short_key 1000 (take 1 two_items) no_world).0

half_way-done : process_items short_key 1000 (take 1 two_items) no_world ≡ (half_way, done tt)
unfolding process_items process_item persist apply_projection store_event check_columns
    update_checkpoint has_event extract_events extract_from parse_invoke Option.bind strip_prefix
    split_once strip_suffix ends_with parse_u32 is_exit contains is_data decode_program_data decode
    discriminator put_le decode_as try_from_slice take_le classify_event record_event ◌+ℤ◌
half_way-done = refl

process_logs-resume_example :
    view (process_logs short_key 1000 text_codec "Iron" "sig" 42 none two_lines half_way)
    ≡ view (process_logs short_key 1000 text_codec "Iron" "sig" 42 none two_lines no_world)
process_logs-resume_example =
    process_logs-resume short_key 1000 text_codec "Iron" "sig" 42 none two_lines (take 1 two_items)
      (drop 1 two_items) no_world half_way (sym (take-drop 1 two_items)) half_way-done

abbrev three_signatures : List SignatureInfo
three_signatures =
    record { signature = "c"; err = none }
    ∷ record { signature = "b"; err = some "failed" }
    ∷ record { signature = "a"; err = none }
    ∷ []

abbrev answer : ℕ → Option String → Fallible (List SignatureInfo)
answer limit none = done (take limit three_signatures)
answer limit (some signature) = done (take limit (older signature three_signatures))

abbrev demo_rpc : Rpc
demo_rpc = record {
  get_signatures = answer;
  get_transaction = λ signature. done none;
  get_slot = done 42;
}

demo_rpc-IsHistory : IsHistory demo_rpc three_signatures
demo_rpc-IsHistory = record {
  first_page = λ limit. refl;
  next_page = λ limit signature. refl;
  distinct = (refl, (refl, (refl, tt)));
}

fetch_signatures-history_example :
    (n : ℕ) × (fetch_signatures demo_rpc 1 (some "a") 4 none
      ≡ some (done (succeeded (take n three_signatures))))
    × ((reaches (some "a") (take n three_signatures) ≡ true)
        ⊎ (take n three_signatures ≡ three_signatures))
fetch_signatures-history_example =
    fetch_signatures-history demo_rpc three_signatures 1 (some "a") 4 demo_rpc-IsHistory
      (omega arith) (omega arith)

abbrev first_system : System
first_system = record {
  phase = connecting;
  status = first_status;
  world = no_world;
  deployment_slot = none;
}

abbrev system_of : Option System → System
system_of none = first_system
system_of (some s) = s

abbrev reconciled_system : System
reconciled_system = system_of (
    reconcile_to_finalized_slot short_key 1000 text_codec "Iron" demo_rpc 4
      (acknowledge first_system))

reconciled_system-reached :
    reconcile_to_finalized_slot short_key 1000 text_codec "Iron" demo_rpc 4
      (acknowledge first_system)
    ≡ some reconciled_system
unfolding reconcile_to_finalized_slot reconcile fetch_signatures replay replay_transaction
    reach_slot acknowledge
reconciled_system-reached = refl

abbrev later_system : System
later_system = monitor 5 (done 45) (done 3) reconciled_system

demo-Run : Run short_key 1000 text_codec "Iron" first_system later_system
unfolding acknowledge
demo-Run =
    then_next
      (then_next (then_next stay (acknowledges refl))
        (reconciles demo_rpc 4 (λ e. cc) (λ e. cc) reconciled_system-reached))
      (monitors 5 (done 45) (done 3))

later_system-ready : (readyz true 5 later_system.status).code ≡ 200
unfolding readyz monitor reconcile_to_finalized_slot reconcile fetch_signatures replay
    replay_transaction reach_slot acknowledge
later_system-ready = refl

readyz-IsLive_example :
    (later_system.phase ≡ live)
    × (true ≡ true)
    × (later_system.status.rpc_slot ≤ later_system.status.observed_slot + 5)
    × (0 ≤ later_system.status.observed_slot)
readyz-IsLive_example =
    readyz-IsLive short_key 1000 text_codec "Iron" first_system later_system true 5 refl demo-Run
      later_system-ready
