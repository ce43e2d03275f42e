-- ===== src/Role/Outcome.antt =====
-- What a successful grant and a successful revocation have read, checked and written.
use iron_vault.Constants.{known_permissions, not_u64}
use iron_vault.Error.{>>=-eq_ok, Result-cases, ok}
use iron_vault.Multisig.Approval.{signed}
use iron_vault.Prelude.{
  List, Option-cases, arith, bit_and, false, inl, inr, none, refl, replicate, true, ℕ, ◌≡◌, ◌≢◌,
  ◌⊎◌,
}
use iron_vault.Role.{GrantRole, RevokeRole, grant, init_role_if_needed, revoke}
use iron_vault.Runtime.{
  Content, Context, Effect, Ledger, Runtime, Seed, load, read_protocol_config, read_role_assignment,
  read_vault, require_canonical, require_signer, store,
}
use iron_vault.Runtime.Accounts.{HoldsProgram, load_role-eq_ok, load_vault-eq_ok}
use iron_vault.Seeds.{role_seeds}
use iron_vault.State.{Pubkey, RoleAssignment, Vault}

-- `init_if_needed` finds nothing at the address, or a role of this program.
abbrev pub IsFreeOrRole : Runtime → Ledger → Pubkey → Type 0
IsFreeOrRole rt l k =
    (l k ≡ none) ⊎ ((role : RoleAssignment) × HoldsProgram rt l k (Content.role_assignment role))

init_role-eq_ok :
    (rt : Runtime) (seeds : List Seed) (l : Ledger) (k : Pubkey) (bump : ℕ)
    → init_role_if_needed rt seeds l k ≡ ok bump
    → IsFreeOrRole rt l k
      × ((rt.find_program_address seeds).0 ≡ k)
      × (bump ≡ (rt.find_program_address seeds).1)
unfolding init_role_if_needed require_canonical
init_role-eq_ok rt seeds l k bump h = elim (Option-cases (l k)) [
  | inl absent ↦ (inl absent, ground arith, ground arith)
  | inr (a, e) ↦ elim (Result-cases (load rt read_role_assignment l k)) [
    | inl (role, found) ↦
        (inr (role, load_role-eq_ok rt l k role found), ground arith, ground arith)
    | inr (error, failed) ↦ absurd (ground arith)
  ]
]

module _ (rt : Runtime) (ctx : Context) (l : Ledger) (e : Effect) where
  pub grant-eq_ok :
      (accounts : GrantRole) (principal : Pubkey) (permissions : ℕ)
      → grant rt ctx accounts principal permissions l ≡ ok e
      → (vault : Vault) × (role : RoleAssignment) × (ctx.signers vault.authority ≡ true)
        × HoldsProgram rt l accounts.vault (Content.vault vault)
        × ((rt.find_program_address (role_seeds accounts.vault principal)).0
            ≡ accounts.role_assignment)
        × IsFreeOrRole rt l accounts.role_assignment
        × (principal ≢ vault.authority)
        × (principal ≢ vault.guardian)
        × (bit_and permissions (not_u64 known_permissions) ≡ 0)
        × (role.vault ≡ accounts.vault)
        × (role.principal ≡ principal)
        × (role.permissions ≡ permissions)
        × (role.active ≡ true)
        × (role.bump ≡ (rt.find_program_address (role_seeds accounts.vault principal)).1)
        × (role.reserved ≡ replicate 54 0)
        × (e.ledger ≡ store rt accounts.role_assignment (Content.role_assignment role) l)
  unfolding grant
  grant-eq_ok accounts principal permissions h =
      let (_, signed, h1) = >>=-eq_ok (require_signer rt ctx accounts.authority) _ h in
      let (config, loaded, h2) =
        >>=-eq_ok (load rt read_protocol_config l accounts.protocol_config) _ h1 in
      let (vault, found, h3) = >>=-eq_ok (load rt read_vault l accounts.vault) _ h2 in
      let (bump, made, h4) =
        >>=-eq_ok
          (init_role_if_needed rt (role_seeds accounts.vault principal) l accounts.role_assignment)
          _ h3 in
      let (free, canonical, of_seeds) =
        init_role-eq_ok rt (role_seeds accounts.vault principal) l accounts.role_assignment bump
          made in
      (
        vault,
        record {
          vault = accounts.vault;
          principal = principal;
          permissions = permissions;
          active = true;
          bump = bump;
          reserved = replicate 54 0;
        },
        ground arith,
        load_vault-eq_ok rt l accounts.vault vault found,
        canonical,
        free,
        ground arith,
        ground arith,
        ground arith,
        refl,
        refl,
        refl,
        refl,
        of_seeds,
        refl,
        ground arith,
      )

  pub revoke-eq_ok :
      (accounts : RevokeRole) (principal : Pubkey)
      → revoke rt ctx accounts principal l ≡ ok e
      → (vault : Vault) × (role : RoleAssignment) × (ctx.signers vault.authority ≡ true)
        × HoldsProgram rt l accounts.vault (Content.vault vault)
        × HoldsProgram rt l accounts.role_assignment (Content.role_assignment role)
        × (role.vault ≡ accounts.vault)
        × (role.principal ≡ principal)
        × (role.active ≡ true)
        × (e.ledger
            ≡ store rt accounts.role_assignment
                (Content.role_assignment (record role { permissions = 0; active = false }))
                l)
  unfolding revoke
  revoke-eq_ok accounts principal h =
      let (_, signed, h1) = >>=-eq_ok (require_signer rt ctx accounts.authority) _ h in
      let (config, loaded, h2) =
        >>=-eq_ok (load rt read_protocol_config l accounts.protocol_config) _ h1 in
      let (vault, found, h3) = >>=-eq_ok (load rt read_vault l accounts.vault) _ h2 in
      let (role, found_role, h4) =
        >>=-eq_ok (load rt read_role_assignment l accounts.role_assignment) _ h3 in
      (
        vault,
        role,
        ground arith,
        load_vault-eq_ok rt l accounts.vault vault found,
        load_role-eq_ok rt l accounts.role_assignment role found_role,
        ground arith,
        ground arith,
        ground arith,
        ground arith,
      )
