-- ===== src/Borsh/Wire.antt =====
-- What `emit!` logs for each event of programs/iron_vault/src/events.rs: the name whose hash is the
-- discriminator, and the fields in the order of their declaration.
use iron_vault.Borsh.{Borsh, IsI64}
use iron_vault.Events.{
  IronVaultEvent, escrow_created, escrow_refunded, escrow_released, protocol_initialized,
  protocol_pause_updated, role_granted, role_revoked, vault_asset_registered,
  vault_authority_updated, vault_created, vault_deposit, vault_limits_updated, vault_pause_updated,
  vault_withdrawal, withdrawal_cancelled, withdrawal_executed, withdrawal_requested,
}
use iron_vault.Prelude.{List, String, [], ℕ, ◌++◌, ◌<◌, ◌^◌}

-- The name of the structure.
abbrev pub event_name : IronVaultEvent → String
event_name (protocol_initialized _) = "ProtocolInitialized"
event_name (protocol_pause_updated _) = "ProtocolPauseUpdated"
event_name (escrow_created _) = "EscrowCreated"
event_name (escrow_released _) = "EscrowReleased"
event_name (escrow_refunded _) = "EscrowRefunded"
event_name (vault_created _) = "VaultCreated"
event_name (vault_authority_updated _) = "VaultAuthorityUpdated"
event_name (vault_pause_updated _) = "VaultPauseUpdated"
event_name (vault_asset_registered _) = "VaultAssetRegistered"
event_name (vault_deposit _) = "VaultDeposit"
event_name (vault_withdrawal _) = "VaultWithdrawal"
event_name (role_granted _) = "RoleGranted"
event_name (role_revoked _) = "RoleRevoked"
event_name (vault_limits_updated _) = "VaultLimitsUpdated"
event_name (withdrawal_requested _) = "WithdrawalRequested"
event_name (withdrawal_executed _) = "WithdrawalExecuted"
event_name (withdrawal_cancelled _) = "WithdrawalCancelled"

module _ (b : Borsh) where
  -- The fields that the derived serializer writes.
  abbrev pub wire : IronVaultEvent → List ℕ
  wire (protocol_initialized e) =
      b.put_u16 e.version
      ++ (b.put_key e.protocol_config ++ (b.put_key e.admin ++ (b.put_key e.guardian ++ [])))
  wire (protocol_pause_updated e) =
      b.put_u16 e.version
      ++ (b.put_key e.protocol_config
          ++ (b.put_key e.caller ++ (b.put_u32 e.previous_flags ++ (b.put_u32 e.new_flags ++ []))))
  wire (escrow_created e) =
      b.put_u16 e.version
      ++ (b.put_key e.escrow
          ++ (b.put_key e.escrow_token
              ++ (b.put_key e.maker
                  ++ (b.put_key e.recipient
                      ++ (b.put_key e.mint
                          ++ (b.put_u64 e.amount
                              ++ (b.put_i64 e.created_at
                                  ++ (b.put_i64 e.expires_at
                                      ++ (b.put_u64 e.escrow_id ++ [])))))))))
  wire (escrow_released e) =
      b.put_u16 e.version
      ++ (b.put_key e.escrow
          ++ (b.put_key e.escrow_token
              ++ (b.put_key e.maker
                  ++ (b.put_key e.recipient
                      ++ (b.put_key e.recipient_token
                          ++ (b.put_key e.mint ++ (b.put_u64 e.amount ++ [])))))))
  wire (escrow_refunded e) =
      b.put_u16 e.version
      ++ (b.put_key e.escrow
          ++ (b.put_key e.escrow_token
              ++ (b.put_key e.caller
                  ++ (b.put_key e.maker
                      ++ (b.put_key e.maker_destination
                          ++ (b.put_key e.mint ++ (b.put_u64 e.amount ++ [])))))))
  wire (vault_created e) =
      b.put_u16 e.version
      ++ (b.put_key e.vault
          ++ (b.put_key e.namespace_authority
              ++ (b.put_key e.authority ++ (b.put_key e.guardian ++ (b.put_u64 e.vault_id ++ [])))))
  wire (vault_authority_updated e) =
      b.put_u16 e.version
      ++ (b.put_key e.vault
          ++ (b.put_key e.previous_authority ++ (b.put_key e.new_authority ++ [])))
  wire (vault_pause_updated e) =
      b.put_u16 e.version
      ++ (b.put_key e.vault ++ (b.put_key e.caller ++ (b.put_bool e.paused ++ [])))
  wire (vault_asset_registered e) =
      b.put_u16 e.version
      ++ (b.put_key e.vault
          ++ (b.put_key e.vault_asset
              ++ (b.put_key e.vault_token
                  ++ (b.put_key e.mint ++ (b.put_key e.token_program ++ [])))))
  wire (vault_deposit e) =
      b.put_u16 e.version
      ++ (b.put_key e.vault
          ++ (b.put_key e.vault_asset
              ++ (b.put_key e.vault_token
                  ++ (b.put_key e.depositor
                      ++ (b.put_key e.source_token
                          ++ (b.put_key e.mint ++ (b.put_u64 e.amount ++ [])))))))
  wire (vault_withdrawal e) =
      b.put_u16 e.version
      ++ (b.put_key e.vault
          ++ (b.put_key e.vault_asset
              ++ (b.put_key e.vault_token
                  ++ (b.put_key e.caller
                      ++ (b.put_key e.destination_token
                          ++ (b.put_key e.mint ++ (b.put_u64 e.amount ++ [])))))))
  wire (role_granted e) =
      b.put_u16 e.version
      ++ (b.put_key e.vault ++ (b.put_key e.principal ++ (b.put_u64 e.permissions ++ [])))
  wire (role_revoked e) =
      b.put_u16 e.version
      ++ (b.put_key e.vault ++ (b.put_key e.principal ++ (b.put_u64 e.previous_permissions ++ [])))
  wire (vault_limits_updated e) =
      b.put_u16 e.version
      ++ (b.put_key e.vault
          ++ (b.put_key e.vault_asset
              ++ (b.put_key e.mint
                  ++ (b.put_key e.caller
                      ++ (b.put_u64 e.max_per_transaction
                          ++ (b.put_u64 e.window_limit
                              ++ (b.put_i64 e.window_seconds
                                  ++ (b.put_u64 e.timelock_threshold
                                      ++ (b.put_i64 e.timelock_seconds
                                          ++ (b.put_i64 e.request_execution_window_seconds
                                              ++ (b.put_i64 e.window_started_at
                                                  ++ (b.put_u64 e.window_spent ++ []))))))))))))
  wire (withdrawal_requested e) =
      b.put_u16 e.version
      ++ (b.put_key e.vault
          ++ (b.put_key e.vault_asset
              ++ (b.put_key e.withdrawal_request
                  ++ (b.put_key e.proposer
                      ++ (b.put_key e.recipient_owner
                          ++ (b.put_key e.recipient_token_account
                              ++ (b.put_key e.mint
                                  ++ (b.put_u64 e.withdrawal_id
                                      ++ (b.put_u64 e.amount
                                          ++ (b.put_i64 e.created_at
                                              ++ (b.put_i64 e.execute_after
                                                  ++ (b.put_i64 e.expires_at ++ []))))))))))))
  wire (withdrawal_executed e) =
      b.put_u16 e.version
      ++ (b.put_key e.vault
          ++ (b.put_key e.vault_asset
              ++ (b.put_key e.withdrawal_request
                  ++ (b.put_key e.caller
                      ++ (b.put_key e.recipient_token_account
                          ++ (b.put_key e.mint
                              ++ (b.put_u64 e.withdrawal_id ++ (b.put_u64 e.amount ++ []))))))))
  wire (withdrawal_cancelled e) =
      b.put_u16 e.version
      ++ (b.put_key e.vault
          ++ (b.put_key e.withdrawal_request
              ++ (b.put_key e.caller
                  ++ (b.put_key e.proposer ++ (b.put_u64 e.withdrawal_id ++ [])))))

-- Every field is within its type.
abbrev pub Fits : IronVaultEvent → Type 0
Fits (protocol_initialized e) =
    (e.version < 2 ^ 16)
    × (e.protocol_config < 2 ^ 256)
    × (e.admin < 2 ^ 256)
    × (e.guardian < 2 ^ 256)
Fits (protocol_pause_updated e) =
    (e.version < 2 ^ 16)
    × (e.protocol_config < 2 ^ 256)
    × (e.caller < 2 ^ 256)
    × (e.previous_flags < 2 ^ 32)
    × (e.new_flags < 2 ^ 32)
Fits (escrow_created e) =
    (e.version < 2 ^ 16)
    × (e.escrow < 2 ^ 256)
    × (e.escrow_token < 2 ^ 256)
    × (e.maker < 2 ^ 256)
    × (e.recipient < 2 ^ 256)
    × (e.mint < 2 ^ 256)
    × (e.amount < 2 ^ 64)
    × IsI64 e.created_at
    × IsI64 e.expires_at
    × (e.escrow_id < 2 ^ 64)
Fits (escrow_released e) =
    (e.version < 2 ^ 16)
    × (e.escrow < 2 ^ 256)
    × (e.escrow_token < 2 ^ 256)
    × (e.maker < 2 ^ 256)
    × (e.recipient < 2 ^ 256)
    × (e.recipient_token < 2 ^ 256)
    × (e.mint < 2 ^ 256)
    × (e.amount < 2 ^ 64)
Fits (escrow_refunded e) =
    (e.version < 2 ^ 16)
    × (e.escrow < 2 ^ 256)
    × (e.escrow_token < 2 ^ 256)
    × (e.caller < 2 ^ 256)
    × (e.maker < 2 ^ 256)
    × (e.maker_destination < 2 ^ 256)
    × (e.mint < 2 ^ 256)
    × (e.amount < 2 ^ 64)
Fits (vault_created e) =
    (e.version < 2 ^ 16)
    × (e.vault < 2 ^ 256)
    × (e.namespace_authority < 2 ^ 256)
    × (e.authority < 2 ^ 256)
    × (e.guardian < 2 ^ 256)
    × (e.vault_id < 2 ^ 64)
Fits (vault_authority_updated e) =
    (e.version < 2 ^ 16)
    × (e.vault < 2 ^ 256)
    × (e.previous_authority < 2 ^ 256)
    × (e.new_authority < 2 ^ 256)
Fits (vault_pause_updated e) = (e.version < 2 ^ 16) × (e.vault < 2 ^ 256) × (e.caller < 2 ^ 256)
Fits (vault_asset_registered e) =
    (e.version < 2 ^ 16)
    × (e.vault < 2 ^ 256)
    × (e.vault_asset < 2 ^ 256)
    × (e.vault_token < 2 ^ 256)
    × (e.mint < 2 ^ 256)
    × (e.token_program < 2 ^ 256)
Fits (vault_deposit e) =
    (e.version < 2 ^ 16)
    × (e.vault < 2 ^ 256)
    × (e.vault_asset < 2 ^ 256)
    × (e.vault_token < 2 ^ 256)
    × (e.depositor < 2 ^ 256)
    × (e.source_token < 2 ^ 256)
    × (e.mint < 2 ^ 256)
    × (e.amount < 2 ^ 64)
Fits (vault_withdrawal e) =
    (e.version < 2 ^ 16)
    × (e.vault < 2 ^ 256)
    × (e.vault_asset < 2 ^ 256)
    × (e.vault_token < 2 ^ 256)
    × (e.caller < 2 ^ 256)
    × (e.destination_token < 2 ^ 256)
    × (e.mint < 2 ^ 256)
    × (e.amount < 2 ^ 64)
Fits (role_granted e) =
    (e.version < 2 ^ 16) × (e.vault < 2 ^ 256) × (e.principal < 2 ^ 256) × (e.permissions < 2 ^ 64)
Fits (role_revoked e) =
    (e.version < 2 ^ 16)
    × (e.vault < 2 ^ 256)
    × (e.principal < 2 ^ 256)
    × (e.previous_permissions < 2 ^ 64)
Fits (vault_limits_updated e) =
    (e.version < 2 ^ 16)
    × (e.vault < 2 ^ 256)
    × (e.vault_asset < 2 ^ 256)
    × (e.mint < 2 ^ 256)
    × (e.caller < 2 ^ 256)
    × (e.max_per_transaction < 2 ^ 64)
    × (e.window_limit < 2 ^ 64)
    × IsI64 e.window_seconds
    × (e.timelock_threshold < 2 ^ 64)
    × IsI64 e.timelock_seconds
    × IsI64 e.request_execution_window_seconds
    × IsI64 e.window_started_at
    × (e.window_spent < 2 ^ 64)
Fits (withdrawal_requested e) =
    (e.version < 2 ^ 16)
    × (e.vault < 2 ^ 256)
    × (e.vault_asset < 2 ^ 256)
    × (e.withdrawal_request < 2 ^ 256)
    × (e.proposer < 2 ^ 256)
    × (e.recipient_owner < 2 ^ 256)
    × (e.recipient_token_account < 2 ^ 256)
    × (e.mint < 2 ^ 256)
    × (e.withdrawal_id < 2 ^ 64)
    × (e.amount < 2 ^ 64)
    × IsI64 e.created_at
    × IsI64 e.execute_after
    × IsI64 e.expires_at
Fits (withdrawal_executed e) =
    (e.version < 2 ^ 16)
    × (e.vault < 2 ^ 256)
    × (e.vault_asset < 2 ^ 256)
    × (e.withdrawal_request < 2 ^ 256)
    × (e.caller < 2 ^ 256)
    × (e.recipient_token_account < 2 ^ 256)
    × (e.mint < 2 ^ 256)
    × (e.withdrawal_id < 2 ^ 64)
    × (e.amount < 2 ^ 64)
Fits (withdrawal_cancelled e) =
    (e.version < 2 ^ 16)
    × (e.vault < 2 ^ 256)
    × (e.withdrawal_request < 2 ^ 256)
    × (e.caller < 2 ^ 256)
    × (e.proposer < 2 ^ 256)
    × (e.withdrawal_id < 2 ^ 64)
