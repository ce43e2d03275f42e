-- ===== src/Observer/Logs.antt =====
-- observer/src/rpc.rs: `extract_events` and `parse_invoke`, which read the events out of the log of
-- one transaction. The counters are `i32` and `u32`, which a log of fewer than 2^31 lines fits.
pub mod Order
pub mod Trace
use Prim.Native.String
use mathlib.Core.Option
use text.Mathlib.Text.{starts_with}
use iron_vault.Observer.Events.Decode.{Codec, decode_program_data}
use iron_vault.Observer.Fallible.{Fallible, done, no_event, some_or, ◌>>=◌, ◌>>◌}
use iron_vault.Observer.Store.{ObservedEvent, eq_text}
use iron_vault.Observer.Text.{
  contains, ends_with, parse_u32, split_once, strip_prefix, strip_suffix,
}
use iron_vault.Prelude.{
  Bool, List, Option, String, [], false, if◌then◌else◌, none, refl, some, ℕ, ◌&&◌, ◌++◌, ◌+◌, ◌==◌,
  ◌||◌, ◌∷◌, ◌≡◌,
}
use iron_vault.Prelude.Int.{negsuc, pos, pos_part, ℤ, ◌+ℤ◌}

-- `parse_invoke`: the program and the depth of a line `Program <id> invoke [<depth>]`.
parse_depth : String × String → Option (String × ℕ)
parse_depth (callee, suffix) =
    Option.bind (strip_suffix suffix "]")
      λ digits. Option.map (λ depth. (callee, depth)) (parse_u32 digits)

unfoldable pub parse_invoke : String → Option (String × ℕ)
unfolding parse_depth
parse_invoke log =
    Option.bind (strip_prefix log "Program ")
      λ rest. Option.bind (split_once rest " invoke [") parse_depth

parses_invoke :
    (parse_invoke "Program Iron invoke [2]" ≡ some ("Iron", 2))
    × (parse_invoke "Program Iron success" ≡ none)
    × (parse_invoke "Program log: x invoke [x]" ≡ none)
unfolding parse_invoke Option.bind strip_prefix split_once strip_suffix ends_with parse_u32
parses_invoke = (refl, refl, refl)

-- The line that ends a call.
unfoldable pub is_exit : String → Bool
is_exit log = starts_with log "Program " && (ends_with log " success" || contains log " failed:")

unfoldable pub is_data : String → Bool
is_data log = starts_with log "Program data: "

-- The variables of the loop. The stack has its top first, and `event_indexes` is the map.
pub record Scan : Type 0 where
  pub stack : List String
  pub instruction_index : ℤ
  pub event_indexes : ℕ → Option ℕ

abbrev pub first_scan : Scan
first_scan = record { stack = []; instruction_index = negsuc 0; event_indexes = λ i. none }

-- `Vec::pop`
abbrev pub pop : List String → List String
pop [] = []
pop (callee ∷ rest) = rest

-- `stack.last().is_some_and(|current| current == program_id)`
abbrev pub is_current : String → List String → Bool
is_current program_id [] = false
is_current program_id (current ∷ rest) = eq_text current program_id

-- `or_default`
abbrev pub or_default : Option ℕ → ℕ
or_default none = 0
or_default (some n) = n

-- A line that opens a call.
abbrev pub enter : String → ℕ → Scan → Scan
enter callee depth s =
    if depth == 1
    then record s { stack = callee ∷ []; instruction_index = s.instruction_index +ℤ pos 1 }
    else record s { stack = callee ∷ s.stack }

-- `instruction_index.max(0)`
abbrev pub index_of : Scan → ℕ
index_of s = pos_part s.instruction_index

abbrev pub event_index_of : Scan → ℕ
event_index_of s = or_default (s.event_indexes (index_of s))

-- `*event_index += 1`
abbrev pub count_event : Scan → Scan
count_event s = record s {
  event_indexes = λ i. if i == index_of s then some (event_index_of s + 1) else s.event_indexes i;
}

module _ (codec : Codec) (signature : String) (slot : ℕ) (block_time : Option ℤ) where
  -- What a data line is turned into.
  abbrev pub observe : ℕ → ℕ → String → Fallible ObservedEvent
  observe instruction_index event_index log = do
    found ← decode_program_data codec log
    event ← some_or found no_event
    done (record {
      id = record {
        transaction_signature = signature;
        instruction_index = instruction_index;
        event_index = event_index;
      };
      slot = slot;
      block_time = block_time;
      event = event;
    })

  module _ (program_id : String) where
    -- A line that opens no call.
    abbrev pub scan_other : String → Scan → Scan × List (Fallible ObservedEvent)
    scan_other log s =
        if is_exit log
        then (record s { stack = pop s.stack }, [])
        else if is_current program_id s.stack && is_data log
        then (count_event s, observe (index_of s) (event_index_of s) log ∷ [])
        else (s, [])

    abbrev pub scan_parsed :
        Option (String × ℕ) → String → Scan → Scan × List (Fallible ObservedEvent)
    scan_parsed (some (callee, depth)) log s = (enter callee depth s, [])
    scan_parsed none log s = scan_other log s

    -- The body of the loop: the state after a line, and what it adds to the output.
    abbrev pub scan_line : String → Scan → Scan × List (Fallible ObservedEvent)
    scan_line log s = scan_parsed (parse_invoke log) log s

    unfoldable pub extract_from : List String → Scan → List (Fallible ObservedEvent)
    extract_from [] s = []
    extract_from (log ∷ logs) s = let (s', found) = scan_line log s in found ++ extract_from logs s'

    unfoldable pub extract_events : List String → List (Fallible ObservedEvent)
    extract_events logs = extract_from logs first_scan
