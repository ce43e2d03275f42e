-- ===== src/Runtime/Accounts.antt =====
-- What a successful load says of the ledger, and the balances that it holds.
use iron_vault.Error.{Result, ok}
use iron_vault.Prelude.{List, Option, Option-cases, arith, inl, inr, none, some, ℕ, ◌≡◌}
use iron_vault.Runtime.{
  Account, Content, Interface, Ledger, Runtime, Seed, TokenAccount, init, load, load_interface,
  read_escrow, read_protocol_config, read_role_assignment, read_token, read_vault, read_vault_asset,
  read_withdrawal_request,
}
use iron_vault.State.{
  Escrow, ProtocolConfig, Pubkey, RoleAssignment, Vault, VaultAsset, WithdrawalRequest,
}

abbrev pub HoldsProgram : Runtime → Ledger → Pubkey → Content → Type 0
HoldsProgram rt l k c = l k ≡ some (record { program = rt.program_id; content = c })

abbrev pub HoldsToken : Ledger → Pubkey → Interface TokenAccount → Type 0
HoldsToken l k t = l k ≡ some (record { program = t.program; content = Content.token t.state })

abbrev content_balance : Content → ℕ
content_balance (Content.token t) = t.amount
content_balance _ = 0

abbrev balance_of : Option Account → ℕ
balance_of none = 0
balance_of (some a) = content_balance a.content

-- The amount of a token account, 0 where the key holds none.
abbrev pub balance : Ledger → Pubkey → ℕ
balance l k = balance_of (l k)

module _ (rt : Runtime) where
  load-eq_ok :
      {A : Type 0} (read : Content → Result A) (l : Ledger) (k : Pubkey) (x : A)
      → load rt read l k ≡ ok x
      → (c : Content) × (l k ≡ some (record { program = rt.program_id; content = c }))
        × (read c ≡ ok x)
  unfolding load
  load-eq_ok read l k x h = elim (Option-cases (l k)) [
    | inl missing ↦ ground arith
    | inr (a, e) ↦ (a.content, ground arith, ground arith)
  ]

  load_interface-eq_ok :
      {A : Type 0} (read : Content → Result A) (l : Ledger) (k : Pubkey) (x : Interface A)
      → load_interface rt read l k ≡ ok x
      → (c : Content) × (l k ≡ some (record { program = x.program; content = c }))
        × (read c ≡ ok x.state)
  unfolding load_interface
  load_interface-eq_ok read l k x h = elim (Option-cases (l k)) [
    | inl missing ↦ ground arith
    | inr (a, e) ↦ (a.content, ground arith, ground arith)
  ]

module _ (rt : Runtime) (l : Ledger) (k : Pubkey) where
  -- The content that each typed load has found.
  pub load_protocol_config-eq_ok :
      (x : ProtocolConfig)
      → load rt read_protocol_config l k ≡ ok x
      → HoldsProgram rt l k (Content.protocol_config x)
  load_protocol_config-eq_ok x h =
      let (c, at, r) = load-eq_ok rt read_protocol_config l k x h in ground arith

  pub load_escrow-eq_ok :
      (x : Escrow) → load rt read_escrow l k ≡ ok x → HoldsProgram rt l k (Content.escrow x)
  load_escrow-eq_ok x h = let (c, at, r) = load-eq_ok rt read_escrow l k x h in ground arith

  pub load_vault-eq_ok :
      (x : Vault) → load rt read_vault l k ≡ ok x → HoldsProgram rt l k (Content.vault x)
  load_vault-eq_ok x h = let (c, at, r) = load-eq_ok rt read_vault l k x h in ground arith

  pub load_vault_asset-eq_ok :
      (x : VaultAsset)
      → load rt read_vault_asset l k ≡ ok x
      → HoldsProgram rt l k (Content.vault_asset x)
  load_vault_asset-eq_ok x h =
      let (c, at, r) = load-eq_ok rt read_vault_asset l k x h in ground arith

  pub load_role-eq_ok :
      (x : RoleAssignment)
      → load rt read_role_assignment l k ≡ ok x
      → HoldsProgram rt l k (Content.role_assignment x)
  load_role-eq_ok x h = let (c, at, r) = load-eq_ok rt read_role_assignment l k x h in ground arith

  pub load_withdrawal_request-eq_ok :
      (x : WithdrawalRequest)
      → load rt read_withdrawal_request l k ≡ ok x
      → HoldsProgram rt l k (Content.withdrawal_request x)
  load_withdrawal_request-eq_ok x h =
      let (c, at, r) = load-eq_ok rt read_withdrawal_request l k x h in ground arith

  pub load_token-eq_ok :
      (x : Interface TokenAccount) → load_interface rt read_token l k ≡ ok x → HoldsToken l k x
  load_token-eq_ok x h = let (c, at, r) = load_interface-eq_ok rt read_token l k x h in ground arith

-- `init` succeeds at the canonical address of an account that is not there, and gives its bump.
pub init-eq_ok :
    (rt : Runtime) (seeds : List Seed) (l : Ledger) (k : Pubkey) (bump : ℕ)
    → init rt seeds l k ≡ ok bump
    → (l k ≡ none) × (rt.find_program_address seeds ≡ (k, bump))
unfolding init
init-eq_ok rt seeds l k bump h = ground arith

pub read_role-eq_ok :
    (c : Content) (role : RoleAssignment)
    → read_role_assignment c ≡ ok role
    → c ≡ Content.role_assignment role
read_role-eq_ok c role h = ground arith
