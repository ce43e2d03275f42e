-- ===== src/Observer/Events/Decode.antt =====
-- Decoding of events: `event_enum!` and `decode_program_data` of observer/src/events.rs.
use Prim.Native.String
use iron_vault.Borsh.{Borsh}
use iron_vault.Observer.Events.{
  IronVaultEvent, escrow_created, escrow_refunded, escrow_released, protocol_initialized,
  protocol_pause_updated, role_granted, role_revoked, vault_asset_registered,
  vault_authority_updated, vault_created, vault_deposit, vault_limits_updated, vault_pause_updated,
  vault_withdrawal, withdrawal_cancelled, withdrawal_executed, withdrawal_requested,
}
use iron_vault.Observer.Fallible.{
  Fallible, done, ensure, failed, invalid_base64, invalid_payload, short_payload, some_or,
  unknown_discriminator, ◌>>=◌, ◌>>◌,
}
use iron_vault.Observer.Text.{strip_prefix}
use iron_vault.Prelude.{
  Bool, List, Option, String, [], drop, false, if◌then◌else◌, leb, length, none, some, take, true,
  ℕ, ◌&&◌, ◌==◌, ◌∷◌,
}

-- The events in the order of `event_enum!`.
pub data EventKind : Type 0 where
  kind_protocol_initialized : EventKind
  kind_protocol_pause_updated : EventKind
  kind_escrow_created : EventKind
  kind_escrow_released : EventKind
  kind_escrow_refunded : EventKind
  kind_vault_created : EventKind
  kind_vault_authority_updated : EventKind
  kind_vault_pause_updated : EventKind
  kind_vault_asset_registered : EventKind
  kind_vault_deposit : EventKind
  kind_vault_withdrawal : EventKind
  kind_role_granted : EventKind
  kind_role_revoked : EventKind
  kind_vault_limits_updated : EventKind
  kind_withdrawal_requested : EventKind
  kind_withdrawal_executed : EventKind
  kind_withdrawal_cancelled : EventKind

abbrev pub kinds : List EventKind
kinds =
    kind_protocol_initialized ∷ kind_protocol_pause_updated ∷ kind_escrow_created
    ∷ kind_escrow_released ∷ kind_escrow_refunded ∷ kind_vault_created
    ∷ kind_vault_authority_updated ∷ kind_vault_pause_updated ∷ kind_vault_asset_registered
    ∷ kind_vault_deposit ∷ kind_vault_withdrawal ∷ kind_role_granted ∷ kind_role_revoked
    ∷ kind_vault_limits_updated ∷ kind_withdrawal_requested ∷ kind_withdrawal_executed
    ∷ kind_withdrawal_cancelled ∷ []

-- `stringify!($name)`
abbrev pub kind_name : EventKind → String
kind_name kind_protocol_initialized = "ProtocolInitialized"
kind_name kind_protocol_pause_updated = "ProtocolPauseUpdated"
kind_name kind_escrow_created = "EscrowCreated"
kind_name kind_escrow_released = "EscrowReleased"
kind_name kind_escrow_refunded = "EscrowRefunded"
kind_name kind_vault_created = "VaultCreated"
kind_name kind_vault_authority_updated = "VaultAuthorityUpdated"
kind_name kind_vault_pause_updated = "VaultPauseUpdated"
kind_name kind_vault_asset_registered = "VaultAssetRegistered"
kind_name kind_vault_deposit = "VaultDeposit"
kind_name kind_vault_withdrawal = "VaultWithdrawal"
kind_name kind_role_granted = "RoleGranted"
kind_name kind_role_revoked = "RoleRevoked"
kind_name kind_vault_limits_updated = "VaultLimitsUpdated"
kind_name kind_withdrawal_requested = "WithdrawalRequested"
kind_name kind_withdrawal_executed = "WithdrawalExecuted"
kind_name kind_withdrawal_cancelled = "WithdrawalCancelled"

-- What the observer calls of other crates: Borsh, SHA-256 and base64.
pub record Codec : Type 0 where
  pub borsh : Borsh
  pub sha256 : String → List ℕ
  pub base64_decode : String → Option (List ℕ)

-- The derived `try_from_slice`: the fields in order, and nothing after them.
abbrev read_field {ℓ} :
    {A : Type ℓ}
    → Option (A × List ℕ)
    → (A → List ℕ → Option IronVaultEvent)
    → Option IronVaultEvent
read_field none rest = none
read_field (some (value, bytes)) rest = rest value bytes

abbrev at_end : List ℕ → IronVaultEvent → Option IronVaultEvent
at_end [] event = some event
at_end (_ ∷ _) event = none

-- Equality of byte slices.
abbrev pub eq_bytes : List ℕ → List ℕ → Bool
eq_bytes [] [] = true
eq_bytes [] (_ ∷ _) = false
eq_bytes (_ ∷ _) [] = false
eq_bytes (x ∷ xs) (y ∷ ys) = x == y && eq_bytes xs ys

module _ (codec : Codec) where
  -- `discriminator`
  unfoldable pub discriminator : String → List ℕ
  discriminator n = take 8 (codec.sha256 (String.◌++◌ "event:" n))

  unfoldable pub try_from_slice : EventKind → List ℕ → Option IronVaultEvent
  try_from_slice kind_protocol_initialized bytes =
      read_field (codec.borsh.take_u16 bytes) (λ version bytes0.
        read_field (codec.borsh.take_key bytes0) (λ protocol_config bytes1.
          read_field (codec.borsh.take_key bytes1) (λ admin bytes2.
            read_field (codec.borsh.take_key bytes2) (λ guardian bytes3. at_end bytes3 (
              protocol_initialized (record {
                version = version;
                protocol_config = protocol_config;
                admin = admin;
                guardian = guardian;
              }))))))
  try_from_slice kind_protocol_pause_updated bytes =
      read_field (codec.borsh.take_u16 bytes) (λ version bytes0.
        read_field (codec.borsh.take_key bytes0) (λ protocol_config bytes1.
          read_field (codec.borsh.take_key bytes1) (λ caller bytes2.
            read_field (codec.borsh.take_u32 bytes2) (λ previous_flags bytes3.
              read_field (codec.borsh.take_u32 bytes3) (λ new_flags bytes4. at_end bytes4 (
                protocol_pause_updated (record {
                  version = version;
                  protocol_config = protocol_config;
                  caller = caller;
                  previous_flags = previous_flags;
                  new_flags = new_flags;
                })))))))
  try_from_slice kind_escrow_created bytes =
      read_field (codec.borsh.take_u16 bytes) (λ version bytes0.
        read_field (codec.borsh.take_key bytes0) (λ escrow bytes1.
          read_field (codec.borsh.take_key bytes1) (λ escrow_token bytes2.
            read_field (codec.borsh.take_key bytes2) (λ maker bytes3.
              read_field (codec.borsh.take_key bytes3) (λ recipient bytes4.
                read_field (codec.borsh.take_key bytes4) (λ mint bytes5.
                  read_field (codec.borsh.take_u64 bytes5) (λ amount bytes6.
                    read_field (codec.borsh.take_i64 bytes6) (λ created_at bytes7.
                      read_field (codec.borsh.take_i64 bytes7) (λ expires_at bytes8.
                        read_field (codec.borsh.take_u64 bytes8) (λ escrow_id bytes9.
                          at_end bytes9 (
                            escrow_created (record {
                              version = version;
                              escrow = escrow;
                              escrow_token = escrow_token;
                              maker = maker;
                              recipient = recipient;
                              mint = mint;
                              amount = amount;
                              created_at = created_at;
                              expires_at = expires_at;
                              escrow_id = escrow_id;
                            }))))))))))))
  try_from_slice kind_escrow_released bytes =
      read_field (codec.borsh.take_u16 bytes) (λ version bytes0.
        read_field (codec.borsh.take_key bytes0) (λ escrow bytes1.
          read_field (codec.borsh.take_key bytes1) (λ escrow_token bytes2.
            read_field (codec.borsh.take_key bytes2) (λ maker bytes3.
              read_field (codec.borsh.take_key bytes3) (λ recipient bytes4.
                read_field (codec.borsh.take_key bytes4) (λ recipient_token bytes5.
                  read_field (codec.borsh.take_key bytes5) (λ mint bytes6.
                    read_field (codec.borsh.take_u64 bytes6) (λ amount bytes7. at_end bytes7 (
                      escrow_released (record {
                        version = version;
                        escrow = escrow;
                        escrow_token = escrow_token;
                        maker = maker;
                        recipient = recipient;
                        recipient_token = recipient_token;
                        mint = mint;
                        amount = amount;
                      }))))))))))
  try_from_slice kind_escrow_refunded bytes =
      read_field (codec.borsh.take_u16 bytes) (λ version bytes0.
        read_field (codec.borsh.take_key bytes0) (λ escrow bytes1.
          read_field (codec.borsh.take_key bytes1) (λ escrow_token bytes2.
            read_field (codec.borsh.take_key bytes2) (λ caller bytes3.
              read_field (codec.borsh.take_key bytes3) (λ maker bytes4.
                read_field (codec.borsh.take_key bytes4) (λ maker_destination bytes5.
                  read_field (codec.borsh.take_key bytes5) (λ mint bytes6.
                    read_field (codec.borsh.take_u64 bytes6) (λ amount bytes7. at_end bytes7 (
                      escrow_refunded (record {
                        version = version;
                        escrow = escrow;
                        escrow_token = escrow_token;
                        caller = caller;
                        maker = maker;
                        maker_destination = maker_destination;
                        mint = mint;
                        amount = amount;
                      }))))))))))
  try_from_slice kind_vault_created bytes =
      read_field (codec.borsh.take_u16 bytes) (λ version bytes0.
        read_field (codec.borsh.take_key bytes0) (λ vault bytes1.
          read_field (codec.borsh.take_key bytes1) (λ namespace_authority bytes2.
            read_field (codec.borsh.take_key bytes2) (λ authority bytes3.
              read_field (codec.borsh.take_key bytes3) (λ guardian bytes4.
                read_field (codec.borsh.take_u64 bytes4) (λ vault_id bytes5. at_end bytes5 (
                  vault_created (record {
                    version = version;
                    vault = vault;
                    namespace_authority = namespace_authority;
                    authority = authority;
                    guardian = guardian;
                    vault_id = vault_id;
                  }))))))))
  try_from_slice kind_vault_authority_updated bytes =
      read_field (codec.borsh.take_u16 bytes) (λ version bytes0.
        read_field (codec.borsh.take_key bytes0) (λ vault bytes1.
          read_field (codec.borsh.take_key bytes1) (λ previous_authority bytes2.
            read_field (codec.borsh.take_key bytes2) (λ new_authority bytes3. at_end bytes3 (
              vault_authority_updated (record {
                version = version;
                vault = vault;
                previous_authority = previous_authority;
                new_authority = new_authority;
              }))))))
  try_from_slice kind_vault_pause_updated bytes =
      read_field (codec.borsh.take_u16 bytes) (λ version bytes0.
        read_field (codec.borsh.take_key bytes0) (λ vault bytes1.
          read_field (codec.borsh.take_key bytes1) (λ caller bytes2.
            read_field (codec.borsh.take_bool bytes2) (λ paused bytes3. at_end bytes3 (
              vault_pause_updated
                (record { version = version; vault = vault; caller = caller; paused = paused }))))))
  try_from_slice kind_vault_asset_registered bytes =
      read_field (codec.borsh.take_u16 bytes) (λ version bytes0.
        read_field (codec.borsh.take_key bytes0) (λ vault bytes1.
          read_field (codec.borsh.take_key bytes1) (λ vault_asset bytes2.
            read_field (codec.borsh.take_key bytes2) (λ vault_token bytes3.
              read_field (codec.borsh.take_key bytes3) (λ mint bytes4.
                read_field (codec.borsh.take_key bytes4) (λ token_program bytes5. at_end bytes5 (
                  vault_asset_registered (record {
                    version = version;
                    vault = vault;
                    vault_asset = vault_asset;
                    vault_token = vault_token;
                    mint = mint;
                    token_program = token_program;
                  }))))))))
  try_from_slice kind_vault_deposit bytes =
      read_field (codec.borsh.take_u16 bytes) (λ version bytes0.
        read_field (codec.borsh.take_key bytes0) (λ vault bytes1.
          read_field (codec.borsh.take_key bytes1) (λ vault_asset bytes2.
            read_field (codec.borsh.take_key bytes2) (λ vault_token bytes3.
              read_field (codec.borsh.take_key bytes3) (λ depositor bytes4.
                read_field (codec.borsh.take_key bytes4) (λ source_token bytes5.
                  read_field (codec.borsh.take_key bytes5) (λ mint bytes6.
                    read_field (codec.borsh.take_u64 bytes6) (λ amount bytes7. at_end bytes7 (
                      vault_deposit (record {
                        version = version;
                        vault = vault;
                        vault_asset = vault_asset;
                        vault_token = vault_token;
                        depositor = depositor;
                        source_token = source_token;
                        mint = mint;
                        amount = amount;
                      }))))))))))
  try_from_slice kind_vault_withdrawal bytes =
      read_field (codec.borsh.take_u16 bytes) (λ version bytes0.
        read_field (codec.borsh.take_key bytes0) (λ vault bytes1.
          read_field (codec.borsh.take_key bytes1) (λ vault_asset bytes2.
            read_field (codec.borsh.take_key bytes2) (λ vault_token bytes3.
              read_field (codec.borsh.take_key bytes3) (λ caller bytes4.
                read_field (codec.borsh.take_key bytes4) (λ destination_token bytes5.
                  read_field (codec.borsh.take_key bytes5) (λ mint bytes6.
                    read_field (codec.borsh.take_u64 bytes6) (λ amount bytes7. at_end bytes7 (
                      vault_withdrawal (record {
                        version = version;
                        vault = vault;
                        vault_asset = vault_asset;
                        vault_token = vault_token;
                        caller = caller;
                        destination_token = destination_token;
                        mint = mint;
                        amount = amount;
                      }))))))))))
  try_from_slice kind_role_granted bytes =
      read_field (codec.borsh.take_u16 bytes) (λ version bytes0.
        read_field (codec.borsh.take_key bytes0) (λ vault bytes1.
          read_field (codec.borsh.take_key bytes1) (λ principal bytes2.
            read_field (codec.borsh.take_u64 bytes2) (λ permissions bytes3. at_end bytes3 (
              role_granted (record {
                version = version;
                vault = vault;
                principal = principal;
                permissions = permissions;
              }))))))
  try_from_slice kind_role_revoked bytes =
      read_field (codec.borsh.take_u16 bytes) (λ version bytes0.
        read_field (codec.borsh.take_key bytes0) (λ vault bytes1.
          read_field (codec.borsh.take_key bytes1) (λ principal bytes2.
            read_field (codec.borsh.take_u64 bytes2) (λ previous_permissions bytes3. at_end bytes3 (
              role_revoked (record {
                version = version;
                vault = vault;
                principal = principal;
                previous_permissions = previous_permissions;
              }))))))
  try_from_slice kind_vault_limits_updated bytes =
      read_field (codec.borsh.take_u16 bytes) (λ version bytes0.
        read_field (codec.borsh.take_key bytes0) (λ vault bytes1.
          read_field (codec.borsh.take_key bytes1) (λ vault_asset bytes2.
            read_field (codec.borsh.take_key bytes2) (λ mint bytes3.
              read_field (codec.borsh.take_key bytes3) (λ caller bytes4.
                read_field (codec.borsh.take_u64 bytes4) (λ max_per_transaction bytes5.
                  read_field (codec.borsh.take_u64 bytes5) (λ window_limit bytes6.
                    read_field (codec.borsh.take_i64 bytes6) (λ window_seconds bytes7.
                      read_field (codec.borsh.take_u64 bytes7) (λ timelock_threshold bytes8.
                        read_field (codec.borsh.take_i64 bytes8) (λ timelock_seconds bytes9.
                          read_field (codec.borsh.take_i64 bytes9)
                            (λ request_execution_window_seconds bytes10.
                              read_field (codec.borsh.take_i64 bytes10)
                                (λ window_started_at bytes11.
                                  read_field (codec.borsh.take_u64 bytes11) (λ window_spent bytes12.
                                    at_end bytes12 (
                                      vault_limits_updated (record {
                                        version = version;
                                        vault = vault;
                                        vault_asset = vault_asset;
                                        mint = mint;
                                        caller = caller;
                                        max_per_transaction = max_per_transaction;
                                        window_limit = window_limit;
                                        window_seconds = window_seconds;
                                        timelock_threshold = timelock_threshold;
                                        timelock_seconds = timelock_seconds;
                                        request_execution_window_seconds =
                                            request_execution_window_seconds;
                                        window_started_at = window_started_at;
                                        window_spent = window_spent;
                                      })))))))))))))))
  try_from_slice kind_withdrawal_requested bytes =
      read_field (codec.borsh.take_u16 bytes) (λ version bytes0.
        read_field (codec.borsh.take_key bytes0) (λ vault bytes1.
          read_field (codec.borsh.take_key bytes1) (λ vault_asset bytes2.
            read_field (codec.borsh.take_key bytes2) (λ withdrawal_request bytes3.
              read_field (codec.borsh.take_key bytes3) (λ proposer bytes4.
                read_field (codec.borsh.take_key bytes4) (λ recipient_owner bytes5.
                  read_field (codec.borsh.take_key bytes5) (λ recipient_token_account bytes6.
                    read_field (codec.borsh.take_key bytes6) (λ mint bytes7.
                      read_field (codec.borsh.take_u64 bytes7) (λ withdrawal_id bytes8.
                        read_field (codec.borsh.take_u64 bytes8) (λ amount bytes9.
                          read_field (codec.borsh.take_i64 bytes9) (λ created_at bytes10.
                            read_field (codec.borsh.take_i64 bytes10) (λ execute_after bytes11.
                              read_field (codec.borsh.take_i64 bytes11) (λ expires_at bytes12.
                                at_end bytes12 (
                                  withdrawal_requested (record {
                                    version = version;
                                    vault = vault;
                                    vault_asset = vault_asset;
                                    withdrawal_request = withdrawal_request;
                                    proposer = proposer;
                                    recipient_owner = recipient_owner;
                                    recipient_token_account = recipient_token_account;
                                    mint = mint;
                                    withdrawal_id = withdrawal_id;
                                    amount = amount;
                                    created_at = created_at;
                                    execute_after = execute_after;
                                    expires_at = expires_at;
                                  })))))))))))))))
  try_from_slice kind_withdrawal_executed bytes =
      read_field (codec.borsh.take_u16 bytes) (λ version bytes0.
        read_field (codec.borsh.take_key bytes0) (λ vault bytes1.
          read_field (codec.borsh.take_key bytes1) (λ vault_asset bytes2.
            read_field (codec.borsh.take_key bytes2) (λ withdrawal_request bytes3.
              read_field (codec.borsh.take_key bytes3) (λ caller bytes4.
                read_field (codec.borsh.take_key bytes4) (λ recipient_token_account bytes5.
                  read_field (codec.borsh.take_key bytes5) (λ mint bytes6.
                    read_field (codec.borsh.take_u64 bytes6) (λ withdrawal_id bytes7.
                      read_field (codec.borsh.take_u64 bytes7) (λ amount bytes8. at_end bytes8 (
                        withdrawal_executed (record {
                          version = version;
                          vault = vault;
                          vault_asset = vault_asset;
                          withdrawal_request = withdrawal_request;
                          caller = caller;
                          recipient_token_account = recipient_token_account;
                          mint = mint;
                          withdrawal_id = withdrawal_id;
                          amount = amount;
                        })))))))))))
  try_from_slice kind_withdrawal_cancelled bytes =
      read_field (codec.borsh.take_u16 bytes) (λ version bytes0.
        read_field (codec.borsh.take_key bytes0) (λ vault bytes1.
          read_field (codec.borsh.take_key bytes1) (λ withdrawal_request bytes2.
            read_field (codec.borsh.take_key bytes2) (λ caller bytes3.
              read_field (codec.borsh.take_key bytes3) (λ proposer bytes4.
                read_field (codec.borsh.take_u64 bytes4) (λ withdrawal_id bytes5. at_end bytes5 (
                  withdrawal_cancelled (record {
                    version = version;
                    vault = vault;
                    withdrawal_request = withdrawal_request;
                    caller = caller;
                    proposer = proposer;
                    withdrawal_id = withdrawal_id;
                  }))))))))

  -- The chain of tests that the macro expands to.
  unfoldable pub decode_as : List EventKind → List ℕ → Fallible IronVaultEvent
  decode_as [] bytes = failed unknown_discriminator
  decode_as (kind ∷ rest) bytes =
      if eq_bytes (take 8 bytes) (discriminator (kind_name kind))
      then some_or (try_from_slice kind (drop 8 bytes)) invalid_payload
      else decode_as rest bytes

  -- `IronVaultEvent::decode`
  unfoldable pub decode : List ℕ → Fallible IronVaultEvent
  decode bytes = do ensure (leb 10 (length bytes)) short_payload; decode_as kinds bytes

  decode_text : Option String → Fallible (Option IronVaultEvent)
  decode_text none = done none
  decode_text (some encoded) = do
    bytes ← some_or (codec.base64_decode encoded) invalid_base64
    event ← decode bytes
    done (some event)

  unfoldable pub decode_program_data : String → Fallible (Option IronVaultEvent)
  unfolding decode_text
  decode_program_data log = decode_text (strip_prefix log "Program data: ")
