-- ===== src/Observer/Logs/Order.antt =====
-- The events of one transaction come in the order of their positions.
use iron_vault.Observer.Events.Decode.{Codec, decode_program_data}
use iron_vault.Observer.Fallible.{
  >>=-eq_done, Fallible, done, done-injective, failed, no_event, some_or,
}
use iron_vault.Observer.Logs.{
  Scan, count_event, enter, event_index_of, extract_events, extract_from, first_scan, index_of,
  is_current, is_data, is_exit, observe, or_default, parse_invoke, scan_other, scan_parsed,
}
use iron_vault.Observer.Store.{ObservedEvent, Position, before, position_of}
use iron_vault.Observer.Store.History.{IsAfter, IsOrdered}
use iron_vault.Prelude.{
  Bool-cases, List, Option, String, [], ap, arith, inl, inr, none, refl, some, sym, true, ℕ, ◌&&◌,
  ◌++◌, ◌==◌, ◌∷◌, ◌≡◌,
}
use iron_vault.Prelude.Int.{negsuc, pos, pos_part, ℤ, ◌+ℤ◌}

-- The events that were decoded.
abbrev pub events_of : List (Fallible ObservedEvent) → List ObservedEvent
events_of [] = []
events_of (done o ∷ rest) = o ∷ events_of rest
events_of (failed why ∷ rest) = events_of rest

abbrev next_position : ℕ → Scan → Position
next_position slot s = record {
  slot = slot;
  instruction_index = index_of s;
  event_index = event_index_of s;
}

-- The next event will come after `p`.
abbrev IsAhead : Option Position → ℕ → Scan → Type 0
IsAhead p slot s = IsAfter p (next_position slot s)

negative_step : (n : ℕ) → pos_part (negsuc n +ℤ pos 1) ≡ 0
unfolding ◌+ℤ◌
negative_step n = ground arith

-- A new instruction has the next index, or the first.
advance :
    (p : Position) (slot : ℕ) (i : ℤ) (table : ℕ → Option ℕ)
    → before p (record {
      slot = slot;
      instruction_index = pos_part i;
      event_index = or_default (table (pos_part i));
    })
      ≡ true
    → before p (record {
      slot = slot;
      instruction_index = pos_part (i +ℤ pos 1);
      event_index = or_default (table (pos_part (i +ℤ pos 1)));
    })
      ≡ true
unfolding ◌+ℤ◌
advance p slot (pos n) table h = ground arith
advance p slot (negsuc n) table h = rw (negative_step n) h

enter-IsAhead :
    (p : Option Position) (slot : ℕ) (callee : String) (depth : ℕ) (s : Scan)
    → IsAhead p slot s
    → IsAhead p slot (enter callee depth s)
enter-IsAhead none slot callee depth s h = tt
enter-IsAhead (some p) slot callee depth s h = elim (Bool-cases (depth == 1)) [
  | inl top ↦ rw top (advance p slot s.instruction_index s.event_indexes h)
  | inr inner ↦ rw inner h
]

count_event-IsAhead :
    (slot : ℕ) (s : Scan) → IsAhead (some (next_position slot s)) slot (count_event s)
count_event-IsAhead slot s = ground arith

skip-IsAhead :
    (p : Option Position) (slot : ℕ) (s : Scan) → IsAhead p slot s → IsAhead p slot (count_event s)
skip-IsAhead none slot s h = tt
skip-IsAhead (some p) slot s h = ground arith

events_of-append :
    (xs ys : List (Fallible ObservedEvent)) → events_of (xs ++ ys) ≡ events_of xs ++ events_of ys
events_of-append [] ys = refl
events_of-append (done o ∷ xs) ys = ap (λ rest. o ∷ rest) (events_of-append xs ys)
events_of-append (failed why ∷ xs) ys = events_of-append xs ys

module _ (codec : Codec) (signature : String) (slot : ℕ) (block_time : Option ℤ) where
  observe-position :
      (s : Scan) (log : String) (o : ObservedEvent)
      → observe codec signature slot block_time (index_of s) (event_index_of s) log ≡ done o
      → position_of o ≡ next_position slot s
  observe-position s log o e =
      let (found, _, e1) = >>=-eq_done (decode_program_data codec log) _ e in
      let (event, _, e2) = >>=-eq_done (some_or found no_event) _ e1 in
      ap position_of (sym (done-injective e2))

  -- What a data line adds.
  observed-IsOrdered :
      (p : Option Position) (s : Scan) (log : String) (rest : List ObservedEvent)
      → IsAhead p slot s
      → ((q : Option Position) → IsAhead q slot (count_event s) → IsOrdered q rest)
      → (found : Fallible ObservedEvent)
      → observe codec signature slot block_time (index_of s) (event_index_of s) log ≡ found
      → IsOrdered p (events_of (found ∷ []) ++ rest)
  observed-IsOrdered p s log rest h later (failed why) e = later p (skip-IsAhead p slot s h)
  observed-IsOrdered p s log rest h later (done o) e =
      rw (observe-position s log o e)
        (h, later (some (next_position slot s)) (count_event-IsAhead slot s))

  module _ (program_id : String) where
    -- A line adds at most one event, and it comes after the last one.
    scan_other-IsOrdered :
        (log : String) (p : Option Position) (s : Scan) (rest : Scan → List ObservedEvent)
        → IsAhead p slot s
        → ((q : Option Position) (s' : Scan) → IsAhead q slot s' → IsOrdered q (rest s'))
        → IsOrdered p (
            events_of (scan_other codec signature slot block_time program_id log s).1
            ++ rest (scan_other codec signature slot block_time program_id log s).0)
    scan_other-IsOrdered log p s rest h later = elim (Bool-cases (is_exit log)) [
      | inl exits ↦ rw exits (later p _ h)
      | inr stays ↦ elim (Bool-cases (is_current program_id s.stack && is_data log)) [
        | inl counts ↦ rw stays (
            rw counts (
              observed-IsOrdered p s log (rest (count_event s)) h
                (λ q ahead. later q (count_event s) ahead) _ refl))
        | inr other ↦ rw stays (rw other (later p s h))
      ]
    ]

    scan_parsed-IsOrdered :
        (parsed : Option (String × ℕ)) (log : String) (p : Option Position) (s : Scan)
        (rest : Scan → List ObservedEvent)
        → IsAhead p slot s
        → ((q : Option Position) (s' : Scan) → IsAhead q slot s' → IsOrdered q (rest s'))
        → IsOrdered p (
            events_of (scan_parsed codec signature slot block_time program_id parsed log s).1
            ++ rest (scan_parsed codec signature slot block_time program_id parsed log s).0)
    scan_parsed-IsOrdered none log p s rest h later = scan_other-IsOrdered log p s rest h later
    scan_parsed-IsOrdered (some (callee, depth)) log p s rest h later =
        later p (enter callee depth s) (enter-IsAhead p slot callee depth s h)

    extract_from-IsOrdered :
        (logs : List String) (p : Option Position) (s : Scan)
        → IsAhead p slot s
        → IsOrdered p (events_of (extract_from codec signature slot block_time program_id logs s))
    unfolding extract_from
    extract_from-IsOrdered [] p s h = tt
    extract_from-IsOrdered (log ∷ logs) p s h = rw (events_of-append _ _) (
        scan_parsed-IsOrdered (parse_invoke log) log p s
          (λ s'. events_of (extract_from codec signature slot block_time program_id logs s')) h
          (λ q s' ahead. extract_from-IsOrdered logs q s' ahead))

    -- Whatever the log holds, each event that is read from it comes after the one before it.
    pub extract_events-IsOrdered :
        (logs : List String)
        → IsOrdered none
            (events_of (extract_events codec signature slot block_time program_id logs))
    unfolding extract_events
    extract_events-IsOrdered logs = extract_from-IsOrdered logs none first_scan tt
