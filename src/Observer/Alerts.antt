-- ===== src/Observer/Alerts.antt =====
-- observer/src/alerts.rs
use iron_vault.Observer.Events.{
  IronVaultEvent, protocol_pause_updated, vault_authority_updated, vault_pause_updated,
  withdrawal_requested,
}
use iron_vault.Prelude.{Option, String, if◌then◌else◌, leb, none, not, some, ℕ, ◌==◌}
use iron_vault.State.{Pubkey}

pub data Alert : Type 0 where
  protocol_paused : ℕ → Alert
  vault_paused : String → Alert
  large_withdrawal_requested : String → ℕ → Alert
  vault_authority_changed : String → String → Alert
  guardian_changed : String → String → Alert
  program_upgrade_observed : Alert
  observer_falling_behind : ℕ → Alert

-- `base58` is the text of a key.
unfoldable pub classify_event : (Pubkey → String) → IronVaultEvent → ℕ → Option Alert
classify_event base58 (protocol_pause_updated event) large_withdrawal_threshold =
    if not (event.new_flags == 0) then some (protocol_paused event.new_flags) else none
classify_event base58 (vault_pause_updated event) large_withdrawal_threshold =
    if event.paused then some (vault_paused (base58 event.vault)) else none
classify_event base58 (withdrawal_requested event) large_withdrawal_threshold =
    if leb large_withdrawal_threshold event.amount
    then some (large_withdrawal_requested (base58 event.withdrawal_request) event.amount)
    else none
classify_event base58 (vault_authority_updated event) large_withdrawal_threshold =
    some (vault_authority_changed (base58 event.vault) (base58 event.new_authority))
classify_event base58 _ large_withdrawal_threshold = none
