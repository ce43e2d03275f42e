-- ===== src/Error.antt =====
-- The error codes of the program (programs/iron_vault/src/error.rs), the errors that the framework
-- and the runtime raise around a handler, and the result type of every instruction.
use iron_vault.Prelude.{Bool, Option, false, inl, inr, none, refl, some, true, ◌≡◌, ◌⊎◌}

-- `IronVaultError`, in the order of the source.
pub data IronVaultError : Type 0 where
  unsupported_version : IronVaultError
  invalid_protocol_authority : IronVaultError
  unauthorized_protocol_pause : IronVaultError
  guardian_cannot_unpause : IronVaultError
  invalid_pause_flags : IronVaultError
  protocol_paused : IronVaultError
  invalid_amount : IronVaultError
  invalid_recipient : IronVaultError
  invalid_expiry : IronVaultError
  invalid_source_owner : IronVaultError
  invalid_source_mint : IronVaultError
  insufficient_funds : IronVaultError
  invalid_custody_balance : IronVaultError
  invalid_source_balance : IronVaultError
  escrow_not_funded : IronVaultError
  escrow_expired : IronVaultError
  escrow_not_expired : IronVaultError
  invalid_recipient_owner : IronVaultError
  invalid_recipient_mint : IronVaultError
  invalid_recipient_balance : IronVaultError
  invalid_maker_destination_owner : IronVaultError
  invalid_maker_destination_mint : IronVaultError
  invalid_maker_destination_balance : IronVaultError
  invalid_vault_guardian : IronVaultError
  invalid_vault_authority : IronVaultError
  invalid_new_vault_authority : IronVaultError
  vault_asset_disabled : IronVaultError
  invalid_vault_amount : IronVaultError
  invalid_deposit_source_owner : IronVaultError
  invalid_deposit_source_mint : IronVaultError
  invalid_withdrawal_destination_mint : IronVaultError
  insufficient_vault_funds : IronVaultError
  invalid_vault_custody_balance : IronVaultError
  invalid_deposit_source_balance : IronVaultError
  invalid_withdrawal_destination_balance : IronVaultError
  vault_paused : IronVaultError
  unauthorized_vault_pause : IronVaultError
  unauthorized_vault_unpause : IronVaultError
  vault_pause_unchanged : IronVaultError
  invalid_role_principal : IronVaultError
  invalid_permission_mask : IronVaultError
  missing_vault_permission : IronVaultError
  role_not_active : IronVaultError
  unexpected_withdrawal_accounts : IronVaultError
  invalid_withdrawal_policy : IronVaultError
  per_transaction_limit_exceeded : IronVaultError
  window_limit_exceeded : IronVaultError
  withdrawal_policy_overflow : IronVaultError
  live_window_duration_change : IronVaultError
  unexpected_limit_accounts : IronVaultError
  timelock_required : IronVaultError
  timelock_not_required : IronVaultError
  withdrawal_timing_overflow : IronVaultError
  withdrawal_not_pending : IronVaultError
  withdrawal_timelock_active : IronVaultError
  withdrawal_request_expired : IronVaultError
  invalid_withdrawal_recipient : IronVaultError
  invalid_withdrawal_mint : IronVaultError
  unauthorized_withdrawal_cancellation : IronVaultError
  unexpected_request_accounts : IronVaultError
  unexpected_cancellation_accounts : IronVaultError
  invalid_token_program : IronVaultError
  unsupported_token_extension : IronVaultError

-- What Anchor reports when an account does not fit its declaration.
pub data FrameworkError : Type 0 where
  account_not_signer : FrameworkError
  account_not_initialized : FrameworkError
  account_owned_by_wrong_program : FrameworkError
  account_discriminator_mismatch : FrameworkError
  account_already_in_use : FrameworkError
  constraint_seeds : FrameworkError
  constraint_has_one : FrameworkError
  constraint_raw : FrameworkError
  invalid_program_id : FrameworkError
  invalid_account_data : FrameworkError

pub data Error : Type 0 where
  program : IronVaultError → Error
  framework : FrameworkError → Error
  -- an error of an invoked program
  invoked : Error

pub data Result {ℓ} (T : Type ℓ) : Type ℓ where
  ok : T → Result T
  err : Error → Result T

-- The `?` operator.
infixl 5 ◌>>=◌
abbrev pub ◌>>=◌ {ℓ κ} : {T : Type ℓ} {U : Type κ} → Result T → (T → Result U) → Result U
err error >>= rest = err error
ok value >>= rest = rest value

infixl 5 ◌>>◌
abbrev pub ◌>>◌ {κ} : {U : Type κ} → Result (Unit {0}) → Result U → Result U
first >> rest = first >>= λ _. rest

-- `require!` and its variants
abbrev pub require : Bool → IronVaultError → Result (Unit {0})
require true e = ok tt
require false e = err (program e)

-- a constraint with no error code of its own
abbrev pub constrain : Bool → FrameworkError → Result (Unit {0})
constrain true e = ok tt
constrain false e = err (framework e)

abbrev pub ok_or {ℓ} : {A : Type ℓ} → Option A → Error → Result A
ok_or none e = err e
ok_or (some a) e = ok a

-- Inversion of a successful bind, for proofs in which the first part stays shut.
pub >>=-eq_ok {ℓ κ} :
    {T : Type ℓ} {U : Type κ} (first : Result T) (rest : T → Result U) {result : U}
    → (first >>= rest) ≡ ok result
    → (value : T) × (first ≡ ok value) × (rest value ≡ ok result)
>>=-eq_ok (err error) rest h = cc
>>=-eq_ok (ok value) rest h = (value, refl, h)

pub Result-cases {ℓ} :
    {A : Type ℓ} (r : Result A) → ((a : A) × (r ≡ ok a)) ⊎ ((e : Error) × (r ≡ err e))
Result-cases (ok a) = inl (a, refl)
Result-cases (err e) = inr (e, refl)

pub ok-injective {ℓ} : {A : Type ℓ} {a b : A} → ok a ≡ ok b → a ≡ b
ok-injective h = cc
