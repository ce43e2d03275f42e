-- ===== src/Security.antt =====
-- programs/iron_vault/src/security: the protocol pause, delegated permissions, and the mint policy.
pub mod Delegation
use iron_vault.Constants.{role_seed}
use iron_vault.Error.{
  IronVaultError, Result, err, framework, invalid_account_data, invalid_token_program,
  missing_vault_permission, ok, ok_or, program, protocol_paused, require,
  unsupported_token_extension, ◌>>=◌, ◌>>◌,
}
use iron_vault.Prelude.{
  Bool, List, Option, [], false, if◌then◌else◌, leb, length, none, not, some, true, ℕ, ◌==◌, ◌∷◌,
}
use iron_vault.Runtime.{Context, Interface, Ledger, Mint, Runtime, Seed, read_role_assignment}
use iron_vault.State.{ProtocolConfig, Pubkey, has, is_paused}

unfoldable pub require_protocol_active : ProtocolConfig → ℕ → Result (Unit {0})
require_protocol_active config flag = require (not (is_paused config flag)) protocol_paused

-- `map_err(|_| MissingVaultPermission)` over the deserialization
abbrev or_missing {ℓ} : {A : Type ℓ} → Result A → Result A
or_missing (ok a) = ok a
or_missing (err _) = err (program missing_vault_permission)

abbrev pub head? {ℓ} : {A : Type ℓ} → List A → Option A
head? [] = none
head? (x ∷ xs) = some x

abbrev pub is_empty {ℓ} : {A : Type ℓ} → List A → Bool
is_empty [] = true
is_empty (x ∷ xs) = false

module _ (rt : Runtime) where
  -- `validate_role_permission`. An account that is not on the ledger is owned by the system program.
  unfoldable pub validate_role_permission :
      Ledger → Pubkey → Pubkey → Pubkey → ℕ → Result (Unit {0})
  validate_role_permission l role_info vault caller permission = do
    require
        (role_info
          == (rt.find_program_address
              (Seed.bytes role_seed ∷ Seed.key vault ∷ Seed.key caller ∷ [])).0)
        missing_vault_permission
    a ← ok_or (l role_info) (program missing_vault_permission)
    require (a.program == rt.program_id) missing_vault_permission
    role ← or_missing (read_role_assignment a.content)
    require (role.vault == vault) missing_vault_permission
    require (role.principal == caller) missing_vault_permission
    require (has role permission) missing_vault_permission

  -- The authorization by authority or by one role account that four handlers share in shape:
  -- `intrinsic` callers bring no further account, any other brings exactly the role account.
  -- (`remaining_accounts[0]` is there, by the length.)
  unfoldable pub authorize :
      Ledger
      → Context
      → Bool
      → Pubkey
      → Pubkey
      → ℕ
      → IronVaultError
      → IronVaultError
      → Result (Unit {0})
  authorize l ctx intrinsic vault caller permission unexpected missing =
      if intrinsic then require (is_empty ctx.remaining_accounts) unexpected else (do
        require (leb (length ctx.remaining_accounts) 1) unexpected
        require (length ctx.remaining_accounts == 1) missing
        role_info ← ok_or (head? ctx.remaining_accounts) (program missing)
        validate_role_permission l role_info vault caller permission)

  -- `mint_extensions_supported`
  unfoldable pub mint_extensions_supported : Interface Mint → Result Bool
  mint_extensions_supported mint = if mint.program == rt.token_id then ok true else (do
    types ← ok_or mint.state.extension_types (framework invalid_account_data)
    ok (is_empty types))

  -- The two constraints that every instruction puts on its `mint` account.
  unfoldable pub validate_mint : Interface Mint → Pubkey → Result (Unit {0})
  unfolding mint_extensions_supported
  validate_mint mint token_program = do
    require (mint.program == token_program) invalid_token_program
    supported ← mint_extensions_supported mint
    require supported unsupported_token_extension
