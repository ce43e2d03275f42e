-- ===== src/Tests/Escrows.antt =====
-- The escrow properties at concrete calls.
use iron_vault.Constants.{pause_escrow_release}
use iron_vault.Error.{ok}
use iron_vault.Escrow.Create.{CreateEscrowLoaded}
use iron_vault.Escrow.Deadline.{deadline_excludes}
use iron_vault.Escrow.Funding.{create_funds}
use iron_vault.Escrow.Open.{refund_is_open, refund_transfer, release_is_open, release_transfer}
use iron_vault.Escrow.Refund.{RefundEscrowLoaded, refund, validate_refund_escrow}
use iron_vault.Escrow.Release.{ReleaseEscrowLoaded, release, validate_release_escrow}
use iron_vault.Escrow.Settlement.{IsPaidTo, Payment, refund_settles, release_settles}
use iron_vault.Prelude.{
  Option, [], arith, false, none, refl, replicate, some, true, ℕ, ◌+◌, ◌<◌, ◌≡◌, ◌≢◌,
}
use iron_vault.Prelude.Int.{pos, ◌<ℤ◌, ◌≤ℤ◌}
use iron_vault.Runtime.{
  Content, Effect, Interface, Ledger, TokenAccount, TransferChecked, empty_token, load,
  load_interface, read_token, require_canonical, require_seeds, store, store_token,
}
use iron_vault.Runtime.Accounts.{HoldsProgram, HoldsToken, balance}
use iron_vault.Security.{mint_extensions_supported, validate_mint}
use iron_vault.Seeds.{escrow_seeds, escrow_token_seeds}
use iron_vault.State.{Escrow, ProtocolConfig, Pubkey, funded, is_paused, refunded, released}
use iron_vault.Tests.Demo.{
  call_of, coin, custody_at, demo, demo_config, demo_escrow, demo_ledger, escrow_at, keeper, maker,
  maker_token, recipient, recipient_token,
}
use iron_vault.Tests.Runs.{
  create_accounts, create_call, create_effect, create_runs, refund_accounts, refund_call,
  refund_effect, refund_runs, release_accounts, release_call, release_effect, release_runs,
}

release_settles_example :
    (escrow : Escrow) × (config : ProtocolConfig) × (m : Ledger) × (release_call.signers
        escrow.maker
      ≡ true)
    × HoldsProgram demo demo_ledger release_accounts.protocol_config
        (Content.protocol_config config)
    × (is_paused config pause_escrow_release ≡ false)
    × (release_call.unix_timestamp <ℤ escrow.expires_at)
    × IsPaidTo demo_ledger release_accounts.recipient_token escrow escrow.recipient
    × Payment demo release_call demo_ledger m release_accounts.escrow release_accounts.escrow_token
        release_accounts.recipient_token escrow
    × (release_effect.ledger
        ≡ store demo release_accounts.escrow
            (Content.escrow (record escrow { status = released }))
            m)
release_settles_example =
    release_settles demo release_call release_accounts demo_ledger release_effect release_runs

refund_settles_example :
    (escrow : Escrow) × (m : Ledger) × (escrow.expires_at ≤ℤ refund_call.unix_timestamp)
    × IsPaidTo demo_ledger refund_accounts.maker_destination escrow escrow.maker
    × Payment demo refund_call demo_ledger m refund_accounts.escrow refund_accounts.escrow_token
        refund_accounts.maker_destination escrow
    × (refund_effect.ledger
        ≡ store demo refund_accounts.escrow
            (Content.escrow (record escrow { status = refunded }))
            m)
refund_settles_example =
    refund_settles demo refund_call refund_accounts demo_ledger refund_effect refund_runs

create_funds_example :
    (a : CreateEscrowLoaded) × (m : Ledger) × (t : TransferChecked) × (create_call.signers
        create_accounts.maker
      ≡ true)
    × (demo_ledger create_accounts.escrow ≡ none)
    × (demo_ledger create_accounts.escrow_token ≡ none)
    × HoldsToken demo_ledger create_accounts.maker_token a.maker_token
    × (a.maker_token.state.owner ≡ create_accounts.maker)
    × (create_accounts.escrow
        ≡ (demo.find_program_address (escrow_seeds create_accounts.maker 8)).0)
    × (create_accounts.escrow_token
        ≡ (demo.find_program_address (escrow_token_seeds create_accounts.escrow)).0)
    × (0 < 40)
    × (recipient ≢ create_accounts.maker)
    × (create_call.unix_timestamp <ℤ (pos 900))
    × (t.from ≡ create_accounts.maker_token)
    × (t.to ≡ create_accounts.escrow_token)
    × (a.ledger
        ≡ store_token create_accounts.escrow_token create_accounts.token_program
            (empty_token create_accounts.mint create_accounts.escrow)
            (store demo create_accounts.escrow Content.other demo_ledger))
    × (demo.transfer_checked create_call.signers t a.ledger ≡ some m)
    × (balance m create_accounts.maker_token + 40 ≡ balance demo_ledger create_accounts.maker_token)
    × (balance m create_accounts.escrow_token ≡ 40)
    × (create_accounts.escrow ≢ create_accounts.escrow_token)
    × (create_effect.ledger
        ≡ store demo create_accounts.escrow
            (Content.escrow (record {
              maker = create_accounts.maker;
              recipient = recipient;
              mint = create_accounts.mint;
              token_program = create_accounts.token_program;
              escrow_id = 8;
              amount = 40;
              created_at = create_call.unix_timestamp;
              expires_at = pos 900;
              status = funded;
              bump = (demo.find_program_address (escrow_seeds create_accounts.maker 8)).1;
              reserved = replicate 30 0;
            }))
            m)
create_funds_example =
    create_funds demo create_call create_accounts demo_ledger 8 recipient 40 (pos 900) create_effect
      create_runs

deadline_excludes_example :
    refund demo (call_of keeper 450 []) refund_accounts demo_ledger ≢ ok refund_effect
deadline_excludes_example =
    deadline_excludes demo demo_ledger release_effect release_call (call_of keeper 450 [])
      release_accounts refund_accounts refund_effect release_runs refl refl

abbrev coins_of : Pubkey → ℕ → Interface TokenAccount
coins_of holder amount = record {
  program = 2;
  state = record { mint = coin; owner = holder; amount = amount };
}

abbrev refund_loaded : RefundEscrowLoaded
refund_loaded = record {
  escrow = demo_escrow;
  mint = record { program = 2; state = record { decimals = 6; extension_types = some [] } };
  escrow_token = coins_of escrow_at 30;
  maker_destination = coins_of maker 500;
}

abbrev ledger_of : Option Ledger → Ledger
ledger_of none = λ k. none
ledger_of (some l) = l

abbrev paid_back : Ledger
paid_back = ledger_of (
    demo.transfer_checked refund_call.signers (refund_transfer refund_accounts refund_loaded)
      demo_ledger)

refund_is_valid :
    validate_refund_escrow demo refund_call refund_accounts demo_ledger ≡ ok refund_loaded
unfolding validate_refund_escrow load load_interface require_seeds require_canonical validate_mint
    mint_extensions_supported
refund_is_valid = refl

custody_is_empty : load_interface demo read_token paid_back custody_at ≡ ok (coins_of escrow_at 0)
unfolding load_interface
custody_is_empty = refl

maker_is_paid : load_interface demo read_token paid_back maker_token ≡ ok (coins_of maker 530)
unfolding load_interface
maker_is_paid = refl

refund_is_open_example : (e : Effect) × (refund demo refund_call refund_accounts demo_ledger ≡ ok e)
refund_is_open_example =
    refund_is_open demo refund_call refund_accounts demo_ledger paid_back refund_loaded
      (coins_of escrow_at 0) (coins_of maker 530) refund_is_valid refl (omega arith) (omega arith)
      (omega arith) refl custody_is_empty maker_is_paid refl refl

abbrev release_loaded : ReleaseEscrowLoaded
release_loaded = record {
  config = demo_config;
  escrow = demo_escrow;
  mint = record { program = 2; state = record { decimals = 6; extension_types = some [] } };
  escrow_token = coins_of escrow_at 30;
  recipient_token = coins_of recipient 5;
}

abbrev paid_out_ledger : Ledger
paid_out_ledger = ledger_of (
    demo.transfer_checked release_call.signers (release_transfer release_accounts release_loaded)
      demo_ledger)

release_is_valid :
    validate_release_escrow demo release_call release_accounts demo_ledger ≡ ok release_loaded
unfolding validate_release_escrow load load_interface require_seeds require_canonical validate_mint
    mint_extensions_supported
release_is_valid = refl

releases_run : is_paused demo_config pause_escrow_release ≡ false
unfolding is_paused
releases_run = refl

custody_is_spent :
    load_interface demo read_token paid_out_ledger custody_at ≡ ok (coins_of escrow_at 0)
unfolding load_interface
custody_is_spent = refl

recipient_is_paid :
    load_interface demo read_token paid_out_ledger recipient_token ≡ ok (coins_of recipient 35)
unfolding load_interface
recipient_is_paid = refl

release_is_open_example :
    (e : Effect) × (release demo release_call release_accounts demo_ledger ≡ ok e)
release_is_open_example =
    release_is_open demo release_call release_accounts demo_ledger paid_out_ledger release_loaded
      (coins_of escrow_at 0) (coins_of recipient 35) release_is_valid releases_run refl
      (omega arith) (omega arith) (omega arith) refl custody_is_spent recipient_is_paid refl refl
