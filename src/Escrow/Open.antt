-- ===== src/Escrow/Open.antt =====
-- What can always be done: when a release and a refund of an escrow succeed.
use iron_vault.Constants.{pause_escrow_release}
use iron_vault.Error.{Result-cases, ok}
use iron_vault.Escrow.Refund.{
  RefundEscrow, RefundEscrowLoaded, check_refund, refund, validate_refund_escrow,
}
use iron_vault.Escrow.Release.{
  ReleaseEscrow, ReleaseEscrowLoaded, check_release, release, validate_release_escrow,
}
use iron_vault.Prelude.{arith, false, inl, inr, some, ◌+◌, ◌<◌, ◌^◌, ◌≡◌, ◌≤◌}
use iron_vault.Prelude.Int.{checked_add, ◌<ℤ◌, ◌≤ℤ◌}
use iron_vault.Runtime.{
  Context, Effect, Interface, Ledger, Runtime, TokenAccount, TransferChecked, invoke_transfer,
  load_interface, read_token,
}
use iron_vault.Security.{require_protocol_active}
use iron_vault.Seeds.{escrow_seeds}
use iron_vault.State.{funded, is_paused}
use iron_vault.Transfer.{transfer_exact}

-- The call that pays the escrow back.
abbrev pub refund_transfer : RefundEscrow → RefundEscrowLoaded → TransferChecked
refund_transfer accounts a = record {
  token_program = accounts.token_program;
  from = accounts.escrow_token;
  mint = accounts.mint;
  to = accounts.maker_destination;
  authority = accounts.escrow;
  signer_seeds = some (escrow_seeds a.escrow.maker a.escrow.escrow_id, a.escrow.bump);
  amount = a.escrow.amount;
  decimals = a.mint.state.decimals;
}

-- Whoever calls it with valid accounts, and whatever is paused, a refund of a funded and expired
-- escrow succeeds, if its custody covers the amount, the destination can take it, and the token
-- program carries out the transfer.
pub refund_is_open :
    (rt : Runtime) (ctx : Context) (accounts : RefundEscrow) (l m : Ledger) (a : RefundEscrowLoaded)
    (source destination : Interface TokenAccount)
    → validate_refund_escrow rt ctx accounts l ≡ ok a
    → a.escrow.status ≡ funded
    → a.escrow.expires_at ≤ℤ ctx.unix_timestamp
    → a.escrow.amount ≤ a.escrow_token.state.amount
    → a.maker_destination.state.amount + a.escrow.amount < 2 ^ 64
    → rt.transfer_checked ctx.signers (refund_transfer accounts a) l ≡ some m
    → load_interface rt read_token m accounts.escrow_token ≡ ok source
    → load_interface rt read_token m accounts.maker_destination ≡ ok destination
    → source.state.amount + a.escrow.amount ≡ a.escrow_token.state.amount
    → destination.state.amount ≡ a.maker_destination.state.amount + a.escrow.amount
    → (e : Effect) × (refund rt ctx accounts l ≡ ok e)
unfolding refund check_refund transfer_exact invoke_transfer checked_add
refund_is_open rt ctx accounts l m a source destination valid live expired covered fits moved
      at_source at_destination paid_out paid_in =
    elim (Result-cases (refund rt ctx accounts l)) [
      | inl done ↦ done
      | inr (error, failed) ↦ absurd (ground arith)
    ]

-- The call that pays the recipient.
abbrev pub release_transfer : ReleaseEscrow → ReleaseEscrowLoaded → TransferChecked
release_transfer accounts a = record {
  token_program = accounts.token_program;
  from = accounts.escrow_token;
  mint = accounts.mint;
  to = accounts.recipient_token;
  authority = accounts.escrow;
  signer_seeds = some (escrow_seeds a.escrow.maker a.escrow.escrow_id, a.escrow.bump);
  amount = a.escrow.amount;
  decimals = a.mint.state.decimals;
}

-- With valid accounts and while releases are not paused, a release of a funded escrow before its
-- expiry succeeds, if its custody covers the amount, the recipient's account can take it, and the
-- token program carries out the transfer.
pub release_is_open :
    (rt : Runtime) (ctx : Context) (accounts : ReleaseEscrow) (l m : Ledger)
    (a : ReleaseEscrowLoaded) (source destination : Interface TokenAccount)
    → validate_release_escrow rt ctx accounts l ≡ ok a
    → is_paused a.config pause_escrow_release ≡ false
    → a.escrow.status ≡ funded
    → ctx.unix_timestamp <ℤ a.escrow.expires_at
    → a.escrow.amount ≤ a.escrow_token.state.amount
    → a.recipient_token.state.amount + a.escrow.amount < 2 ^ 64
    → rt.transfer_checked ctx.signers (release_transfer accounts a) l ≡ some m
    → load_interface rt read_token m accounts.escrow_token ≡ ok source
    → load_interface rt read_token m accounts.recipient_token ≡ ok destination
    → source.state.amount + a.escrow.amount ≡ a.escrow_token.state.amount
    → destination.state.amount ≡ a.recipient_token.state.amount + a.escrow.amount
    → (e : Effect) × (release rt ctx accounts l ≡ ok e)
unfolding release check_release require_protocol_active transfer_exact invoke_transfer checked_add
release_is_open rt ctx accounts l m a source destination valid active live early covered fits moved
      at_source at_destination paid_out paid_in =
    elim (Result-cases (release rt ctx accounts l)) [
      | inl done ↦ done
      | inr (error, failed) ↦ absurd (ground arith)
    ]
