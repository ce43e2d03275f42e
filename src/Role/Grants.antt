-- ===== src/Role/Grants.antt =====
-- What a grant gives and what a revocation takes away.
use iron_vault.Error.{err, missing_vault_permission, ok, program}
use iron_vault.Prelude.{arith, bit_and, if◌then◌else◌, ℕ, ◌==◌, ◌≡◌}
use iron_vault.Role.{GrantRole, RevokeRole, grant, revoke}
use iron_vault.Role.Outcome.{grant-eq_ok, revoke-eq_ok}
use iron_vault.Runtime.{Context, Effect, Ledger, Runtime}
use iron_vault.Security.{validate_role_permission}
use iron_vault.Seeds.{role_seeds}
use iron_vault.State.{Pubkey, has}

module _ (rt : Runtime) (ctx : Context) (l : Ledger) (e : Effect) where
  -- After a grant its principal passes the check of a permission exactly where the granted mask
  -- holds all of its bits; what an earlier grant held is replaced.
  pub grant_gives :
      (accounts : GrantRole) (principal : Pubkey) (permissions permission : ℕ)
      → grant rt ctx accounts principal permissions l ≡ ok e
      → validate_role_permission rt e.ledger accounts.role_assignment accounts.vault principal
          permission
        ≡ (if bit_and permissions permission == permission
            then ok tt
            else err (program missing_vault_permission))
  unfolding validate_role_permission has
  grant_gives accounts principal permissions permission h =
      let (
        vault, role, _, _, canonical, _, _, _, _, of_vault, of_principal, mask, active, _, _, wrote,
      ) =
        grant-eq_ok rt ctx l e accounts principal permissions h in
      ground arith

  -- After the canonical role account has been revoked, its principal passes no check of any
  -- permission with any account.
  pub revoke_removes :
      (accounts : RevokeRole) (principal role_info : Pubkey) (permission : ℕ)
      → revoke rt ctx accounts principal l ≡ ok e
      → (rt.find_program_address (role_seeds accounts.vault principal)).0 ≡ accounts.role_assignment
      → validate_role_permission rt e.ledger role_info accounts.vault principal permission
        ≡ err (program missing_vault_permission)
  unfolding validate_role_permission has
  revoke_removes accounts principal role_info permission h canonical =
      let (vault, role, _, _, _, _, _, _, wrote) = revoke-eq_ok rt ctx l e accounts principal h in
      ground arith
