-- ===== src/Role.antt =====
-- Roles: programs/iron_vault/src/instructions/grant_role.rs and revoke_role.rs.
pub mod Outcome
pub mod Grants
use iron_vault.Constants.{initial_schema_version, known_permissions, not_u64, pause_vault_config}
use iron_vault.Error.{
  Result, constrain, constraint_has_one, constraint_raw, invalid_permission_mask,
  invalid_role_principal, invalid_vault_authority, ok, require, role_not_active, ◌>>=◌, ◌>>◌,
}
use iron_vault.Events.{role_granted, role_revoked}
use iron_vault.Prelude.{
  List, Option, [], bit_and, false, none, replicate, some, true, ℕ, ◌!=◌, ◌&&◌, ◌==◌, ◌∷◌,
}
use iron_vault.Runtime.{
  Account, Content, Context, Effect, Ledger, Runtime, Seed, load, read_protocol_config,
  read_role_assignment, read_vault, require_canonical, require_seeds, require_signer, store,
}
use iron_vault.Security.{require_protocol_active}
use iron_vault.Seeds.{protocol_seeds, role_seeds}
use iron_vault.State.{Pubkey, RoleAssignment, default_key}
use iron_vault.Vault.{require_vault_seeds}

-- The account keys of `GrantRole`.
pub record GrantRole : Type 0 where
  pub authority : Pubkey
  pub protocol_config : Pubkey
  pub vault : Pubkey
  pub role_assignment : Pubkey

-- The account keys of `RevokeRole`.
pub record RevokeRole : Type 0 where
  pub authority : Pubkey
  pub protocol_config : Pubkey
  pub vault : Pubkey
  pub role_assignment : Pubkey

module _ (rt : Runtime) where
  is_absent_or_role : Option Account → Ledger → Pubkey → Result (Unit {0})
  is_absent_or_role none l k = ok tt
  is_absent_or_role (some _) l k = load rt read_role_assignment l k >>= λ _. ok tt

  -- `init_if_needed`: the canonical address, where there is nothing yet or a role of this program.
  unfoldable pub init_role_if_needed : List Seed → Ledger → Pubkey → Result ℕ
  unfolding is_absent_or_role
  init_role_if_needed seeds l k = do
    require_canonical rt seeds k
    is_absent_or_role (l k) l k
    ok (rt.find_program_address seeds).1

  unfoldable pub grant : Context → GrantRole → Pubkey → ℕ → Ledger → Result Effect
  grant ctx accounts principal permissions l = do
    require_signer rt ctx accounts.authority
    config ← load rt read_protocol_config l accounts.protocol_config
    vault ← load rt read_vault l accounts.vault
    bump ← init_role_if_needed (role_seeds accounts.vault principal) l accounts.role_assignment
    require_seeds rt protocol_seeds config.bump accounts.protocol_config
    require_vault_seeds rt vault accounts.vault
    require (vault.authority == accounts.authority) invalid_vault_authority
    require_protocol_active config pause_vault_config
    require
        (principal != default_key && principal != vault.authority && principal != vault.guardian)
        invalid_role_principal
    require (permissions != 0 && bit_and permissions (not_u64 known_permissions) == 0)
        invalid_permission_mask
    let role : RoleAssignment = record {
      vault = accounts.vault;
      principal = principal;
      permissions = permissions;
      active = true;
      bump = bump;
      reserved = replicate 54 0;
    }
    ok (record {
      ledger = store rt accounts.role_assignment (Content.role_assignment role) l;
      events =
          role_granted (record {
            version = initial_schema_version;
            vault = accounts.vault;
            principal = principal;
            permissions = permissions;
          })
          ∷ [];
    })

  unfoldable pub revoke : Context → RevokeRole → Pubkey → Ledger → Result Effect
  revoke ctx accounts principal l = do
    require_signer rt ctx accounts.authority
    config ← load rt read_protocol_config l accounts.protocol_config
    vault ← load rt read_vault l accounts.vault
    role ← load rt read_role_assignment l accounts.role_assignment
    require_seeds rt protocol_seeds config.bump accounts.protocol_config
    require_vault_seeds rt vault accounts.vault
    require (vault.authority == accounts.authority) invalid_vault_authority
    require_seeds rt (role_seeds accounts.vault principal) role.bump accounts.role_assignment
    constrain (role.vault == accounts.vault) constraint_has_one
    constrain (role.principal == principal) constraint_raw
    require_protocol_active config pause_vault_config
    require role.active role_not_active
    let previous_permissions = role.permissions
    ok (record {
      ledger =
          store rt accounts.role_assignment
            (Content.role_assignment (record role { permissions = 0; active = false })) l;
      events =
          role_revoked (record {
            version = initial_schema_version;
            vault = role.vault;
            principal = role.principal;
            previous_permissions = previous_permissions;
          })
          ∷ [];
    })
