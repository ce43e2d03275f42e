-- ===== src/Seeds.antt =====
-- The seeds of every derived address, as the `seeds = [...]` attributes of
-- programs/iron_vault/src/instructions list them.
use iron_vault.Constants.{
  escrow_seed, escrow_token_seed, protocol_seed, role_seed, vault_asset_seed, vault_seed,
  vault_token_seed, withdrawal_seed,
}
use iron_vault.Prelude.{List, [], ℕ, ◌∷◌}
use iron_vault.Runtime.{Seed}
use iron_vault.State.{Pubkey}

abbrev pub protocol_seeds : List Seed
protocol_seeds = Seed.bytes protocol_seed ∷ []

abbrev pub escrow_seeds : Pubkey → ℕ → List Seed
escrow_seeds maker escrow_id = Seed.bytes escrow_seed ∷ Seed.key maker ∷ Seed.u64_le escrow_id ∷ []

abbrev pub escrow_token_seeds : Pubkey → List Seed
escrow_token_seeds escrow = Seed.bytes escrow_token_seed ∷ Seed.key escrow ∷ []

abbrev pub vault_seeds : Pubkey → ℕ → List Seed
vault_seeds namespace_authority vault_id =
    Seed.bytes vault_seed ∷ Seed.key namespace_authority ∷ Seed.u64_le vault_id ∷ []

abbrev pub vault_asset_seeds : Pubkey → Pubkey → List Seed
vault_asset_seeds vault mint = Seed.bytes vault_asset_seed ∷ Seed.key vault ∷ Seed.key mint ∷ []

abbrev pub vault_token_seeds : Pubkey → Pubkey → List Seed
vault_token_seeds vault mint = Seed.bytes vault_token_seed ∷ Seed.key vault ∷ Seed.key mint ∷ []

abbrev pub role_seeds : Pubkey → Pubkey → List Seed
role_seeds vault principal = Seed.bytes role_seed ∷ Seed.key vault ∷ Seed.key principal ∷ []

abbrev pub withdrawal_seeds : Pubkey → ℕ → List Seed
withdrawal_seeds vault withdrawal_id =
    Seed.bytes withdrawal_seed ∷ Seed.key vault ∷ Seed.u64_le withdrawal_id ∷ []
