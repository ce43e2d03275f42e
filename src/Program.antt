-- ===== src/Program.antt =====
-- The entry points of programs/iron_vault/src/lib.rs, and the runtime's transactions: a failed
-- instruction leaves the ledger as it was.
pub mod Evolution
pub mod History
pub mod Once
use iron_vault.Asset.Deposit.{Deposit, deposit_tokens}
use iron_vault.Asset.Limits.{Policy, UpdateLimits, update_policy}
use iron_vault.Asset.Register.{RegisterAsset, register_vault_asset}
use iron_vault.Error.{Result}
use iron_vault.Escrow.Create.{CreateEscrow, create}
use iron_vault.Escrow.Refund.{RefundEscrow, refund}
use iron_vault.Escrow.Release.{ReleaseEscrow, release}
use iron_vault.Prelude.{ℕ}
use iron_vault.Prelude.Int.{ℤ}
use iron_vault.Protocol.{
  InitializeProtocol, SetProtocolPause, dispatch, initialize_protocol_account, set_pause,
}
use iron_vault.Role.{GrantRole, RevokeRole, grant, revoke}
use iron_vault.Runtime.{Context, Effect, Ledger, Runtime}
use iron_vault.State.{Pubkey}
use iron_vault.Vault.{
  CreateVault, PauseVault, SetVaultAuthority, UnpauseVault, create_vault_account, pause,
  set_authority, unpause,
}
use iron_vault.Withdrawal.Cancel.{CancelWithdrawal, cancel}
use iron_vault.Withdrawal.Execute.{ExecuteWithdrawal, execute}
use iron_vault.Withdrawal.Instant.{Withdraw, withdraw_tokens}
use iron_vault.Withdrawal.Request.{RequestWithdrawal, request}

pub data Instruction : Type 0 where
  initialize : Instruction
  initialize_protocol : InitializeProtocol → Pubkey → Pubkey → Instruction
  set_protocol_pause : SetProtocolPause → ℕ → Instruction
  create_escrow : CreateEscrow → ℕ → Pubkey → ℕ → ℤ → Instruction
  release_escrow : ReleaseEscrow → Instruction
  refund_escrow : RefundEscrow → Instruction
  create_vault : CreateVault → ℕ → Pubkey → Instruction
  set_vault_authority : SetVaultAuthority → Pubkey → Instruction
  pause_vault : PauseVault → Instruction
  unpause_vault : UnpauseVault → Instruction
  register_asset : RegisterAsset → Instruction
  deposit : Deposit → ℕ → Instruction
  withdraw : Withdraw → ℕ → Instruction
  grant_role : GrantRole → Pubkey → ℕ → Instruction
  revoke_role : RevokeRole → Pubkey → Instruction
  update_limits : UpdateLimits → Policy → Instruction
  request_withdrawal : RequestWithdrawal → ℕ → Instruction
  execute_withdrawal : ExecuteWithdrawal → Instruction
  cancel_withdrawal : CancelWithdrawal → Instruction

module _ (rt : Runtime) (ctx : Context) where
  -- `mod iron_vault`: each entry point calls its handler.
  unfoldable pub process : Instruction → Ledger → Result Effect
  process initialize l = dispatch l
  process (initialize_protocol a admin guardian) l =
      initialize_protocol_account rt ctx a admin guardian l
  process (set_protocol_pause a flags) l = set_pause rt ctx a flags l
  process (create_escrow a escrow_id recipient amount expires_at) l =
      create rt ctx a escrow_id recipient amount expires_at l
  process (release_escrow a) l = release rt ctx a l
  process (refund_escrow a) l = refund rt ctx a l
  process (create_vault a vault_id guardian) l = create_vault_account rt ctx a vault_id guardian l
  process (set_vault_authority a new_authority) l = set_authority rt ctx a new_authority l
  process (pause_vault a) l = pause rt ctx a l
  process (unpause_vault a) l = unpause rt ctx a l
  process (register_asset a) l = register_vault_asset rt ctx a l
  process (deposit a amount) l = deposit_tokens rt ctx a amount l
  process (withdraw a amount) l = withdraw_tokens rt ctx a amount l
  process (grant_role a principal permissions) l = grant rt ctx a principal permissions l
  process (revoke_role a principal) l = revoke rt ctx a principal l
  process (update_limits a p) l = update_policy rt ctx a p l
  process (request_withdrawal a amount) l = request rt ctx a amount l
  process (execute_withdrawal a) l = execute rt ctx a l
  process (cancel_withdrawal a) l = cancel rt ctx a l
