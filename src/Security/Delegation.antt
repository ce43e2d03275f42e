-- ===== src/Security/Delegation.antt =====
-- Who is authorized: the intrinsic authority alone, or the holder of an active role on the vault.
use iron_vault.Error.{IronVaultError, Result-cases, ok, ok_or, program, require, ◌>>=◌, ◌>>◌}
use iron_vault.Prelude.{
  Bool, List, Option-cases, [], arith, bit_and, false, inl, inr, leb, length, refl, some, true, ℕ,
  ◌==◌, ◌∷◌, ◌≡◌, ◌⊎◌,
}
use iron_vault.Runtime.{Account, Content, Context, Ledger, Runtime, read_role_assignment}
use iron_vault.Runtime.Accounts.{HoldsProgram, read_role-eq_ok}
use iron_vault.Security.{authorize, head?, validate_role_permission}
use iron_vault.Seeds.{role_seeds}
use iron_vault.State.{Pubkey, RoleAssignment, has}

-- An active role of `caller` on `vault` with the permission, at its canonical address.
abbrev pub HasRole : Runtime → Ledger → Pubkey → Pubkey → ℕ → Type 0
HasRole rt l vault caller permission =
    (role : RoleAssignment) × HoldsProgram rt l
      (rt.find_program_address (role_seeds vault caller)).0 (Content.role_assignment role)
    × (role.vault ≡ vault)
    × (role.principal ≡ caller)
    × (role.active ≡ true)
    × (bit_and role.permissions permission ≡ permission)

module _ (rt : Runtime) (l : Ledger) (vault caller : Pubkey) (permission : ℕ) where
  role_content :
      (role_info : Pubkey) (a : Account)
      → l role_info ≡ some a
      → validate_role_permission rt l role_info vault caller permission ≡ ok tt
      → (role : RoleAssignment) × (a.content ≡ Content.role_assignment role)
  unfolding validate_role_permission
  role_content role_info a e h = elim (Result-cases (read_role_assignment a.content)) [
    | inl (role, found) ↦ (role, read_role-eq_ok a.content role found)
    | inr (error, failed) ↦ absurd (ground arith)
  ]

  -- A validated role is the canonical, active role of that caller on that vault.
  pub validate_role-HasRole :
      (role_info : Pubkey)
      → validate_role_permission rt l role_info vault caller permission ≡ ok tt
      → HasRole rt l vault caller permission
  unfolding validate_role_permission has
  validate_role-HasRole role_info h = elim (Option-cases (l role_info)) [
    | inl absent ↦ absurd (ground arith)
    | inr (a, e) ↦
        let (role, content) = role_content role_info a e h in
        (role, ground arith, ground arith, ground arith, ground arith, ground arith)
  ]

  -- Authorization passes only for an intrinsic caller with no further account, or with a role.
  pub authorize_sound :
      (ctx : Context) (intrinsic : Bool) (unexpected missing : IronVaultError)
      → authorize rt l ctx intrinsic vault caller permission unexpected missing ≡ ok tt
      → (intrinsic ≡ true) ⊎ HasRole rt l vault caller permission
  unfolding authorize
  authorize_sound ctx true unexpected missing h = inl refl
  authorize_sound ctx false unexpected missing h = inr (delegated ctx.remaining_accounts h)
    where
      delegated :
          (remaining : List Pubkey)
          → (require (leb (length remaining) 1) unexpected
              >> (require (length remaining == 1) missing
                  >> (ok_or (head? remaining) (program missing) >>= λ role_info.
                      validate_role_permission rt l role_info vault caller permission)))
            ≡ ok tt
          → HasRole rt l vault caller permission
      delegated [] g = absurd (ground arith)
      delegated (role_info ∷ []) g = validate_role-HasRole role_info g
      delegated (a ∷ b ∷ rest) g = absurd (ground arith)
