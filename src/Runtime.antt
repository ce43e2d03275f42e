-- ===== src/Runtime.antt =====
-- What surrounds a handler: the accounts on the ledger, the framework's typed access to them, and
-- the services that the program calls and does not implement. Address derivation and the token
-- programs are fields of `Runtime`, so every definition takes them as a parameter.
pub mod Accounts
pub mod Frame
use iron_vault.Error.{
  Result, account_already_in_use, account_discriminator_mismatch, account_not_initialized,
  account_not_signer, account_owned_by_wrong_program, constrain, constraint_seeds, err, framework,
  invalid_program_id, invoked, ok, ok_or, program, ◌>>=◌, ◌>>◌,
}
use iron_vault.Events.{IronVaultEvent}
use iron_vault.Prelude.{
  Bool, List, Option, String, false, if◌then◌else◌, none, some, true, ℕ, ◌==◌, ◌||◌,
}
use iron_vault.Prelude.Int.{ℤ}
use iron_vault.State.{
  Escrow, ProtocolConfig, Pubkey, RoleAssignment, Vault, VaultAsset, WithdrawalRequest,
}

-- A mint: its decimals, and the types in its extension area, `none` where that does not unpack.
pub record Mint : Type 0 where
  pub decimals : ℕ
  pub extension_types : Option (List ℕ)

pub record TokenAccount : Type 0 where
  pub mint : Pubkey
  pub owner : Pubkey
  pub amount : ℕ

-- The content of an account by its discriminator; `other` is what none of the types reads.
pub data Content : Type 0 where
  protocol_config : ProtocolConfig → Content
  escrow : Escrow → Content
  vault : Vault → Content
  vault_asset : VaultAsset → Content
  role_assignment : RoleAssignment → Content
  withdrawal_request : WithdrawalRequest → Content
  mint : Mint → Content
  token : TokenAccount → Content
  other : Content

-- An account with the program that owns it.
pub record Account : Type 0 where
  pub program : Pubkey
  pub content : Content

abbrev pub Ledger : Type 0
Ledger = Pubkey → Option Account

abbrev pub update : Ledger → Pubkey → Account → Ledger
update l k a j = if j == k then some a else l j

abbrev pub is_none : Option Account → Bool
is_none none = true
is_none (some _) = false

-- A token account as a token program stores it.
abbrev pub store_token : Pubkey → Pubkey → TokenAccount → Ledger → Ledger
store_token k token_program t l =
    update l k (record { program = token_program; content = Content.token t })

pub data Seed : Type 0 where
  bytes : String → Seed
  key : Pubkey → Seed
  u64_le : ℕ → Seed

-- A `TransferChecked` call: `signer_seeds` are those of `CpiContext::new_with_signer`.
pub record TransferChecked : Type 0 where
  pub token_program : Pubkey
  pub from : Pubkey
  pub mint : Pubkey
  pub to : Pubkey
  pub authority : Pubkey
  pub signer_seeds : Option (List Seed × ℕ)
  pub amount : ℕ
  pub decimals : ℕ

-- What the transaction brings: who signed, the Clock sysvar, and the accounts beyond those declared.
pub record Context : Type 0 where
  pub signers : Pubkey → Bool
  pub unix_timestamp : ℤ
  pub remaining_accounts : List Pubkey

pub record Runtime : Type 0 where
  pub program_id : Pubkey
  -- `anchor_spl::token::ID` and `spl_token_2022::ID`
  pub token_id : Pubkey
  pub token_2022_id : Pubkey
  -- the address and the bump
  pub find_program_address : List Seed → Pubkey × ℕ
  -- the address for a given bump, if it is one
  pub create_program_address : List Seed → ℕ → Option Pubkey
  -- the ledger after the invoked program, or its failure
  pub transfer_checked : (Pubkey → Bool) → TransferChecked → Ledger → Option Ledger

-- The ledger that a successful instruction leaves, and what it emitted.
pub record Effect : Type 0 where
  pub ledger : Ledger
  pub events : List IronVaultEvent

-- An account of a token program, with that program.
pub record Interface (A : Type 0) : Type 0 where
  pub program : Pubkey
  pub state : A

abbrev pub read_protocol_config : Content → Result ProtocolConfig
read_protocol_config (Content.protocol_config c) = ok c
read_protocol_config _ = err (framework account_discriminator_mismatch)

abbrev pub read_escrow : Content → Result Escrow
read_escrow (Content.escrow e) = ok e
read_escrow _ = err (framework account_discriminator_mismatch)

abbrev pub read_vault : Content → Result Vault
read_vault (Content.vault v) = ok v
read_vault _ = err (framework account_discriminator_mismatch)

abbrev pub read_vault_asset : Content → Result VaultAsset
read_vault_asset (Content.vault_asset a) = ok a
read_vault_asset _ = err (framework account_discriminator_mismatch)

abbrev pub read_role_assignment : Content → Result RoleAssignment
read_role_assignment (Content.role_assignment r) = ok r
read_role_assignment _ = err (framework account_discriminator_mismatch)

abbrev pub read_withdrawal_request : Content → Result WithdrawalRequest
read_withdrawal_request (Content.withdrawal_request r) = ok r
read_withdrawal_request _ = err (framework account_discriminator_mismatch)

abbrev pub read_mint : Content → Result Mint
read_mint (Content.mint m) = ok m
read_mint _ = err (framework account_discriminator_mismatch)

abbrev pub read_token : Content → Result TokenAccount
read_token (Content.token t) = ok t
read_token _ = err (framework account_discriminator_mismatch)

-- The token account that `init, token::mint = mint, token::authority = authority` makes.
abbrev pub empty_token : Pubkey → Pubkey → TokenAccount
empty_token mint_key authority = record { mint = mint_key; owner = authority; amount = 0 }

module _ (rt : Runtime) where
  -- `Account<'info, T>`: initialised, owned by this program, with the discriminator of `T`.
  unfoldable pub load : {A : Type 0} → (Content → Result A) → Ledger → Pubkey → Result A
  load read l k = do
    a ← ok_or (l k) (framework account_not_initialized)
    constrain (a.program == rt.program_id) account_owned_by_wrong_program
    read a.content

  -- `InterfaceAccount<'info, T>`: the same for an account of either token program.
  unfoldable pub load_interface :
      {A : Type 0} → (Content → Result A) → Ledger → Pubkey → Result (Interface A)
  load_interface read l k = do
    a ← ok_or (l k) (framework account_not_initialized)
    constrain (a.program == rt.token_id || a.program == rt.token_2022_id)
        account_owned_by_wrong_program
    t ← read a.content
    ok (record { program = a.program; state = t })

  -- `Signer<'info>`
  abbrev pub require_signer : Context → Pubkey → Result (Unit {0})
  require_signer ctx k = constrain (ctx.signers k) account_not_signer

  -- `Interface<'info, TokenInterface>`
  abbrev pub require_token_interface : Pubkey → Result (Unit {0})
  require_token_interface k =
      constrain (k == rt.token_id || k == rt.token_2022_id) invalid_program_id

  -- `seeds = [...], bump = b` on an account that exists
  unfoldable pub require_seeds : List Seed → ℕ → Pubkey → Result (Unit {0})
  require_seeds seeds b k = do
    derived ← ok_or (rt.create_program_address seeds b) (framework constraint_seeds)
    constrain (derived == k) constraint_seeds

  -- `seeds = [...], bump` with no bump stored
  unfoldable pub require_canonical : List Seed → Pubkey → Result (Unit {0})
  require_canonical seeds k = constrain ((rt.find_program_address seeds).0 == k) constraint_seeds

  -- `init, seeds = [...], bump`: the address is the canonical one, and nothing is there yet. Returns
  -- the bump. (`mut` accounts and `init` accounts are written by the handler's end.)
  unfoldable pub init : List Seed → Ledger → Pubkey → Result ℕ
  unfolding require_canonical
  init seeds l k = do
    require_canonical seeds k
    constrain (is_none (l k)) account_already_in_use
    ok (rt.find_program_address seeds).1

  -- The call of the token program.
  unfoldable pub invoke_transfer : Context → TransferChecked → Ledger → Result Ledger
  invoke_transfer ctx t l = ok_or (rt.transfer_checked ctx.signers t l) invoked

  -- What `exit` writes back for an account of this program.
  abbrev pub store : Pubkey → Content → Ledger → Ledger
  store k c l = update l k (record { program = rt.program_id; content = c })
