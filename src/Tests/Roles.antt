-- ===== src/Tests/Roles.antt =====
-- What an instruction may change, at a grant that replaces a role which is already there.
use iron_vault.Error.{ok}
use iron_vault.Prelude.{List, [], arith, if◌then◌else◌, refl, ℕ, ◌&&◌, ◌<◌, ◌==◌, ◌∷◌, ◌≡◌}
use iron_vault.Program.{grant_role, process}
use iron_vault.Program.Evolution.{Evolves, IsPlaced, RoleMoves}
use iron_vault.Program.History.{process-Evolves}
use iron_vault.Role.{grant, init_role_if_needed}
use iron_vault.Runtime.{Content, Effect, Runtime, Seed, load, require_canonical, require_seeds}
use iron_vault.Runtime.Accounts.{HoldsProgram}
use iron_vault.Runtime.Frame.{TokenProgram}
use iron_vault.Security.{require_protocol_active}
use iron_vault.State.{Pubkey, is_paused}
use iron_vault.Tests.Demo.{
  agent, demo, demo-TokenProgram, demo_ledger, demo_role, outcome, role_at, vault_at,
}
use iron_vault.Tests.Runs.{grant_accounts, owner_call}

-- `home` for one vault and principal, and 0 for all others.
abbrev place : ℕ → ℕ → ℕ → ℕ → ℕ → Pubkey × ℕ
place home vault principal v p = if v == vault && p == principal then (home, 255) else (0, 255)

-- One role's address, and 0 for every other.
abbrev role_address : List Seed → Pubkey × ℕ
role_address (Seed.bytes _ ∷ Seed.key v ∷ Seed.key p ∷ []) = place role_at vault_at agent v p
role_address _ = (0, 255)

-- The concrete runtime, where the addresses of roles are apart.
abbrev apart_demo : Runtime
apart_demo = record demo { find_program_address = role_address }

apart_demo-TokenProgram : TokenProgram apart_demo
apart_demo-TokenProgram = record { frame = demo-TokenProgram.frame }

role_address_of :
    (home vault principal v p : ℕ)
    → 0 < home
    → (place home vault principal v p).0 ≡ home
    → (v ≡ vault) × (p ≡ principal)
role_address_of home vault principal v p positive h = ground arith

demo_role-IsPlaced : IsPlaced apart_demo role_at (Content.role_assignment demo_role)
demo_role-IsPlaced = (refl, λ v p h. role_address_of role_at vault_at agent v p (omega arith) h)

abbrev replaced_effect : Effect
replaced_effect = outcome (grant apart_demo owner_call grant_accounts agent 5 demo_ledger)

replacement_runs :
    process apart_demo owner_call (grant_role grant_accounts agent 5) demo_ledger
    ≡ ok replaced_effect
unfolding process grant init_role_if_needed load require_seeds require_canonical
    require_protocol_active is_paused
replacement_runs = refl

process-Evolves_example :
    (d : Content) × HoldsProgram apart_demo replaced_effect.ledger role_at d
    × Evolves RoleMoves (Content.role_assignment demo_role) d
process-Evolves_example =
    process-Evolves apart_demo apart_demo-TokenProgram owner_call demo_ledger replaced_effect
      (grant_role grant_accounts agent 5) role_at (Content.role_assignment demo_role)
      replacement_runs tt demo_role-IsPlaced refl
