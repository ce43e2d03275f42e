-- ===== src/Constants.antt =====
-- programs/iron_vault/src/constants.rs: seeds, pause flags and permission bits.
use Prim.Native.Nat.{bit_or}
use iron_vault.Prelude.{ℕ, ◌-◌, ◌^◌, String}

abbrev pub initial_schema_version : ℕ
initial_schema_version = 1

abbrev pub protocol_seed : String
protocol_seed = "protocol"

abbrev pub escrow_seed : String
escrow_seed = "escrow"

abbrev pub escrow_token_seed : String
escrow_token_seed = "escrow_token"

abbrev pub vault_seed : String
vault_seed = "vault"

abbrev pub vault_asset_seed : String
vault_asset_seed = "vault_asset"

abbrev pub vault_token_seed : String
vault_token_seed = "vault_token"

abbrev pub role_seed : String
role_seed = "role"

abbrev pub withdrawal_seed : String
withdrawal_seed = "withdrawal"

abbrev pub pause_escrow_create : ℕ
pause_escrow_create = 2 ^ 0

abbrev pub pause_escrow_release : ℕ
pause_escrow_release = 2 ^ 1

abbrev pub pause_vault_config : ℕ
pause_vault_config = 2 ^ 2

abbrev pub pause_vault_outflow : ℕ
pause_vault_outflow = 2 ^ 3

abbrev pub known_pause_flags : ℕ
known_pause_flags =
    bit_or (bit_or (bit_or pause_escrow_create pause_escrow_release) pause_vault_config)
      pause_vault_outflow

abbrev pub permission_withdraw : ℕ
permission_withdraw = 2 ^ 0

abbrev pub permission_request_withdrawal : ℕ
permission_request_withdrawal = 2 ^ 1

abbrev pub permission_cancel_withdrawal : ℕ
permission_cancel_withdrawal = 2 ^ 2

abbrev pub permission_manage_assets : ℕ
permission_manage_assets = 2 ^ 3

abbrev pub permission_manage_limits : ℕ
permission_manage_limits = 2 ^ 4

abbrev pub permission_manage_roles : ℕ
permission_manage_roles = 2 ^ 5

abbrev pub known_permissions : ℕ
known_permissions =
    bit_or
      (bit_or
        (bit_or
          (bit_or (bit_or permission_withdraw permission_request_withdrawal)
            permission_cancel_withdrawal)
          permission_manage_assets)
        permission_manage_limits)
      permission_manage_roles

-- `!mask` at 32 and at 64 bits.
abbrev pub not_u32 : ℕ → ℕ
not_u32 mask = 2 ^ 32 - 1 - mask

abbrev pub not_u64 : ℕ → ℕ
not_u64 mask = 2 ^ 64 - 1 - mask
