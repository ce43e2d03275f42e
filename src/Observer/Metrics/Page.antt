-- ===== src/Observer/Metrics/Page.antt =====
-- observer/src/metrics.rs: the text of the page of metrics.
use Prim.Native.String.{slice}
use Prim.Native.String
use iron_vault.Observer.Events.{name}
use iron_vault.Observer.Metrics.{Metrics, no_metrics}
use iron_vault.Observer.Text.{contains}
use iron_vault.Prelude.{
  List, String, [], if◌then◌else◌, ltb, refl, suc, true, zero, ℕ, ◌%◌, ◌+◌, ◌/◌, ◌∷◌, ◌≡◌,
}
use iron_vault.Prelude.Int.{negsuc, pos, ℤ}

digit_text : ℕ → String
digit_text d = slice "0123456789" d (d + 1)

-- The decimal digits of a number, as many as the fuel allows; a `u64` has at most twenty.
digits : ℕ → ℕ → String
digits zero n = ""
digits (suc fuel) n =
    let higher = digits fuel (n / 10) in
    if ltb n 10 then digit_text n else String.◌++◌ higher (digit_text (n % 10))

-- `Display` of `u64` and `i64`
unfoldable pub show_u64 : ℕ → String
unfolding digits digit_text
show_u64 n = digits 20 n

unfoldable pub show_i64 : ℤ → String
show_i64 (pos n) = show_u64 n
show_i64 (negsuc n) = String.◌++◌ "-" (show_u64 (suc n))

abbrev join : List String → String
join [] = ""
join (s ∷ rest) = String.◌++◌ s (join rest)

abbrev sample : String → String → String → String → String
sample kind name help value = join (
    "# HELP " ∷ name ∷ " " ∷ help ∷ "\n# TYPE " ∷ name ∷ " " ∷ kind ∷ "\n" ∷ name ∷ " " ∷ value
    ∷ "\n" ∷ [])

-- `counter` and `gauge`
abbrev pub counter : String → String → ℕ → String
counter name help value = sample "counter" name help (show_u64 value)

abbrev pub gauge : String → String → ℤ → String
gauge name help value = sample "gauge" name help (show_i64 value)

-- `Metrics::render`
unfoldable pub render : Metrics → String
render m = join (
    counter "ironvault_events_total" "Persisted protocol events" m.events_total
    ∷ counter "ironvault_rpc_errors_total" "Solana RPC and WebSocket errors" m.rpc_errors_total
    ∷ counter "ironvault_rpc_reconnects_total" "WebSocket reconnections" m.rpc_reconnects_total
    ∷ gauge "ironvault_observer_slot_lag" "Latest RPC slot minus latest observed slot"
        m.observer_slot_lag
    ∷ counter "ironvault_decode_errors_total" "IronVault event decode errors" m.decode_errors_total
    ∷ counter "ironvault_escrows_created_total" "Created escrows" m.escrows_created_total
    ∷ counter "ironvault_withdrawals_requested_total" "Requested timelocked withdrawals"
        m.withdrawals_requested_total
    ∷ counter "ironvault_withdrawals_executed_total" "Executed timelocked withdrawals"
        m.withdrawals_executed_total
    ∷ counter "ironvault_pauses_total" "Protocol and vault pause activations" m.pauses_total
    ∷ [])

shows :
    (show_u64 0 ≡ "0")
    × (show_u64 18446744073709551615 ≡ "18446744073709551615")
    × (show_i64 (negsuc 6) ≡ "-7")
unfolding show_u64 show_i64 digits digit_text
shows = (refl, refl, refl)

-- The source's test.
shows_lag :
    contains
      (render (record no_metrics { observer_slot_lag = pos 7 }))
      "ironvault_observer_slot_lag 7"
    ≡ true
unfolding render show_u64 show_i64 digits digit_text contains
shows_lag = refl

one_line_end : String.len "\n" ≡ 1
one_line_end = refl
