-- ===== src/Tests/Observing.antt =====
-- The properties of the observer at concrete logs and tables.
use mathlib.Core.Option
use iron_vault.Events as Chain
use iron_vault.Observer.Events as Seen
use iron_vault.Observer.Events.{version}
use iron_vault.Observer.Events.Decode.{decode_program_data}
use iron_vault.Observer.Events.Emitted.{emitted, observed}
use iron_vault.Observer.Events.RoundTrip.{decode-emitted}
use iron_vault.Observer.Fallible.{done}
use iron_vault.Observer.Logs.{extract_events, is_data, is_exit, observe, parse_invoke}
use iron_vault.Observer.Logs.Order.{events_of, extract_events-IsOrdered}
use iron_vault.Observer.Logs.Trace.{IsLogged, Trace, called, end, extract_events-trace, lines, said}
use iron_vault.Observer.Store.{ObservedEvent, Tables, has_event}
use iron_vault.Observer.Store.History.{IsNew, IsOrdered, persist_all, status_of}
use iron_vault.Observer.Store.Refinement.{persist_all-refines}
use iron_vault.Observer.Text.{
  contains, ends_with, parse_u32, split_once, strip_prefix, strip_suffix,
}
use iron_vault.Prelude.{List, String, [], arith, if◌then◌else◌, none, refl, some, ℕ, ◌==◌, ◌∷◌, ◌≡◌}
use iron_vault.Prelude.Int.{pos}
use iron_vault.State.{Pubkey}
use iron_vault.Tests.Codecs.{demo_codec, demo_codec-laws, strokes}

abbrev released_on_chain : Chain.IronVaultEvent
released_on_chain = Chain.escrow_released (record {
  version = 1;
  escrow = 7;
  escrow_token = 8;
  maker = 9;
  recipient = 10;
  recipient_token = 11;
  mint = 12;
  amount = 500;
})

decode-emitted_example :
    decode_program_data demo_codec (emitted demo_codec strokes released_on_chain)
    ≡ done (some (observed released_on_chain))
decode-emitted_example = decode-emitted demo_codec strokes demo_codec-laws released_on_chain (
  omega arith,
  omega arith,
  omega arith,
  omega arith,
  omega arith,
  omega arith,
  omega arith,
  omega arith,
)

abbrev pub short_key : Pubkey → String
short_key k = if k == 7 then "seven" else "other"

abbrev created_at : ℕ → ℕ → ObservedEvent
created_at slot k = record {
  id = record { transaction_signature = "created"; instruction_index = 0; event_index = 0 };
  slot = slot;
  block_time = none;
  event = Seen.escrow_created (record {
    version = 1;
    escrow = k;
    escrow_token = 8;
    maker = 9;
    recipient = 10;
    mint = 12;
    amount = 500;
    created_at = pos 100;
    expires_at = pos 200;
    escrow_id = 3;
  });
}

abbrev released_at : ℕ → ℕ → ObservedEvent
released_at slot k = record {
  id = record { transaction_signature = "released"; instruction_index = 0; event_index = 0 };
  slot = slot;
  block_time = none;
  event = Seen.escrow_released (record {
    version = 1;
    escrow = k;
    escrow_token = 8;
    maker = 9;
    recipient = 10;
    recipient_token = 11;
    mint = 12;
    amount = 500;
  });
}

abbrev pub no_tables : Tables
no_tables = record {
  protocol_events = [];
  escrows = λ k. none;
  vaults = λ k. none;
  withdrawal_requests = λ k. none;
  sync_checkpoint = none;
}

abbrev two_events : List ObservedEvent
two_events = created_at 40 7 ∷ released_at 41 7 ∷ []

two_events-IsNew : IsNew [] two_events
unfolding has_event
two_events-IsNew = (refl, (refl, tt))

persist_all-refines_example :
    (t' : Tables) × (persist_all short_key two_events no_tables ≡ done t')
    × (status_of (t'.escrows "seven") ≡ some "released")
persist_all-refines_example =
    persist_all-refines short_key "seven" none two_events no_tables
      (
        (omega arith, omega arith, omega arith, omega arith, omega arith, omega arith),
        ((omega arith, omega arith, omega arith, omega arith, omega arith, tt), tt),
      )
      (tt, (refl, tt)) two_events-IsNew tt

abbrev demo_trace : Trace
demo_trace =
    called "Multisig" "Program Multisig invoke [1]"
      (called "Iron" "Program Iron invoke [2]"
        (said "Program data: AAB" (said "Program log: fine" (said "Program data: B" end)))
        "Program Iron success" (said "Program data: BB" end))
      "Program Multisig success"
      (called "Iron" "Program Iron invoke [1]" (said "Program data: AB" end) "Program Iron success"
        end)

demo_trace-IsLogged : IsLogged 1 demo_trace
unfolding parse_invoke is_exit Option.bind strip_prefix split_once strip_suffix ends_with contains
    parse_u32
demo_trace-IsLogged = (
  refl,
  (refl, ((refl, refl), ((refl, refl), ((refl, refl), tt))), refl, refl, ((refl, refl), tt)),
  refl,
  refl,
  (refl, ((refl, refl), tt), refl, refl, tt),
)

extract_events-trace_example :
    extract_events demo_codec "sig" 42 none "Iron" (lines demo_trace)
    ≡ observe demo_codec "sig" 42 none 0 0 "Program data: AAB"
      ∷ observe demo_codec "sig" 42 none 0 1 "Program data: B"
      ∷ observe demo_codec "sig" 42 none 1 0 "Program data: AB"
      ∷ []
unfolding is_data
extract_events-trace_example =
    extract_events-trace demo_codec "sig" 42 none "Iron" demo_trace demo_trace-IsLogged

extract_events-IsOrdered_example :
    IsOrdered none (events_of (extract_events demo_codec "sig" 42 none "Iron" (lines demo_trace)))
extract_events-IsOrdered_example =
    extract_events-IsOrdered demo_codec "sig" 42 none "Iron" (lines demo_trace)
