-- ===== src/Tests/Demo.antt =====
-- A concrete runtime and a concrete ledger for the examples: addresses are numbers made from the
-- seeds, and the token program moves amounts between token accounts.
use Prim.Native.Nat.{Ordering}
use Prim.Native.String.{len, compare}
use iron_vault.Error.{Result, err, ok}
use iron_vault.Prelude.{
  List, Option, String, [], arith, false, if◌then◌else◌, leb, none, some, true, ℕ, ◌*◌, ◌+◌, ◌-◌,
  ◌==◌, ◌∷◌, ◌≡◌, ◌≢◌,
}
use iron_vault.Prelude.Int.{pos}
use iron_vault.Runtime.{
  Account, Content, Context, Effect, Ledger, Runtime, Seed, TokenAccount, TransferChecked,
  read_token, store_token,
}
use iron_vault.Runtime.Frame.{TokenProgram}
use iron_vault.Seeds.{
  escrow_seeds, escrow_token_seeds, protocol_seeds, role_seeds, vault_asset_seeds, vault_seeds,
  vault_token_seeds, withdrawal_seeds,
}
use iron_vault.State.{
  Escrow, ProtocolConfig, Pubkey, RoleAssignment, Vault, VaultAsset, WithdrawalRequest, funded,
  pending,
}

abbrev tag : String → ℕ
tag s = len s + elim (compare s "vault_asset") [ Ordering.eq ↦ 20 | _ ↦ 0 ]

abbrev seed_code : Seed → ℕ
seed_code (Seed.bytes s) = tag s
seed_code (Seed.key k) = k
seed_code (Seed.u64_le n) = n

abbrev address_from : ℕ → List Seed → Pubkey
address_from n [] = n
address_from n (s ∷ seeds) = address_from (n * 1000 + seed_code s) seeds

abbrev pub address : List Seed → Pubkey
address seeds = address_from 1 seeds

abbrev token_of : Option Account → Option TokenAccount
token_of none = none
token_of (some a) = elim (read_token a.content) [ ok t ↦ some t | err _ ↦ none ]

abbrev pay : TransferChecked → Ledger → Option TokenAccount → Option TokenAccount → Option Ledger
pay t l none _ = none
pay t l (some a) none = none
pay t l (some a) (some b) =
    if leb t.amount a.amount
    then some (
        store_token t.to t.token_program (record b { amount = b.amount + t.amount })
          (store_token t.from t.token_program (record a { amount = a.amount - t.amount }) l))
    else none

abbrev pub demo : Runtime
demo = record {
  program_id = 1;
  token_id = 2;
  token_2022_id = 3;
  find_program_address = λ seeds. (address seeds, 255);
  create_program_address = λ seeds b. some (address seeds);
  transfer_checked = λ signers t l. pay t l (token_of (l t.from)) (token_of (l t.to));
}

pay_frame :
    (t : TransferChecked) (l l' : Ledger) (k : Pubkey) (a b : Option TokenAccount)
    → pay t l a b ≡ some l'
    → k ≢ t.from
    → k ≢ t.to
    → l' k ≡ l k
pay_frame t l l' k none b h not_from not_to = absurd (ground arith)
pay_frame t l l' k (some a) none h not_from not_to = absurd (ground arith)
pay_frame t l l' k (some a) (some b) h not_from not_to = ground arith

pub demo-TokenProgram : TokenProgram demo
demo-TokenProgram = record {
  frame = λ signers t l l' k h not_from not_to.
      pay_frame t l l' k (token_of (l t.from)) (token_of (l t.to)) h not_from not_to;
}

abbrev pub admin : Pubkey
admin = 100

abbrev pub maker : Pubkey
maker = 101

abbrev pub recipient : Pubkey
recipient = 102

abbrev pub owner : Pubkey
owner = 103

abbrev pub keeper : Pubkey
keeper = 104

abbrev pub agent : Pubkey
agent = 105

abbrev pub coin : Pubkey
coin = 200

abbrev pub maker_token : Pubkey
maker_token = 201

abbrev pub recipient_token : Pubkey
recipient_token = 202

abbrev pub config_at : Pubkey
config_at = address protocol_seeds

abbrev pub escrow_at : Pubkey
escrow_at = address (escrow_seeds maker 7)

abbrev pub custody_at : Pubkey
custody_at = address (escrow_token_seeds escrow_at)

abbrev pub vault_at : Pubkey
vault_at = address (vault_seeds owner 1)

abbrev pub asset_at : Pubkey
asset_at = address (vault_asset_seeds vault_at coin)

abbrev pub vault_token_at : Pubkey
vault_token_at = address (vault_token_seeds vault_at coin)

abbrev pub role_at : Pubkey
role_at = address (role_seeds vault_at agent)

abbrev pub request_at : Pubkey
request_at = address (withdrawal_seeds vault_at 4)

abbrev pub demo_config : ProtocolConfig
demo_config = record {
  version = 1;
  admin = admin;
  guardian = keeper;
  pause_flags = 0;
  bump = 255;
  reserved = [];
}

abbrev pub demo_escrow : Escrow
demo_escrow = record {
  maker = maker;
  recipient = recipient;
  mint = coin;
  token_program = 2;
  escrow_id = 7;
  amount = 30;
  created_at = pos 10;
  expires_at = pos 1000;
  status = funded;
  bump = 255;
  reserved = [];
}

abbrev pub demo_vault : Vault
demo_vault = record {
  namespace_authority = owner;
  authority = owner;
  guardian = keeper;
  vault_id = 1;
  next_withdrawal_id = 5;
  paused = false;
  bump = 255;
  reserved = [];
}

abbrev pub demo_asset : VaultAsset
demo_asset = record {
  vault = vault_at;
  mint = coin;
  token_program = 2;
  max_per_transaction = 100;
  window_limit = 150;
  window_seconds = pos 60;
  window_started_at = pos 400;
  window_spent = 20;
  timelock_threshold = 50;
  timelock_seconds = pos 30;
  request_execution_window_seconds = pos 300;
  enabled = true;
  bump = 255;
  reserved = [];
}

abbrev pub demo_role : RoleAssignment
demo_role = record {
  vault = vault_at;
  principal = agent;
  permissions = 3;
  active = true;
  bump = 255;
  reserved = [];
}

abbrev pub demo_request : WithdrawalRequest
demo_request = record {
  vault = vault_at;
  vault_asset = asset_at;
  mint = coin;
  token_program = 2;
  proposer = agent;
  recipient_owner = recipient;
  recipient_token_account = recipient_token;
  withdrawal_id = 4;
  amount = 80;
  created_at = pos 390;
  execute_after = pos 420;
  expires_at = pos 720;
  status = pending;
  bump = 255;
  reserved = [];
}

abbrev pub demo_account : Content → Account
demo_account c = record { program = 1; content = c }

abbrev coins : Pubkey → ℕ → Account
coins holder amount = record {
  program = 2;
  content = Content.token (record { mint = coin; owner = holder; amount = amount });
}

abbrev pub demo_ledger : Ledger
demo_ledger k =
    if k == config_at
    then some (demo_account (Content.protocol_config demo_config))
    else if k == escrow_at
    then some (demo_account (Content.escrow demo_escrow))
    else if k == custody_at
    then some (coins escrow_at 30)
    else if k == maker_token
    then some (coins maker 500)
    else if k == recipient_token
    then some (coins recipient 5)
    else if k == vault_at
    then some (demo_account (Content.vault demo_vault))
    else if k == asset_at
    then some (demo_account (Content.vault_asset demo_asset))
    else if k == vault_token_at
    then some (coins vault_at 900)
    else if k == role_at
    then some (demo_account (Content.role_assignment demo_role))
    else if k == request_at
    then some (demo_account (Content.withdrawal_request demo_request))
    else if k == coin
    then some (record {
      program = 2;
      content = Content.mint (record { decimals = 6; extension_types = some [] });
    })
    else none

-- The transaction of one signer at a time, with the further accounts.
abbrev pub call_of : Pubkey → ℕ → List Pubkey → Context
call_of signer now remaining = record {
  signers = λ k. k == signer;
  unix_timestamp = pos now;
  remaining_accounts = remaining;
}

-- The effect of a call that succeeds.
abbrev pub outcome : Result Effect → Effect
outcome (ok e) = e
outcome (err _) = record { ledger = λ k. none; events = [] }
