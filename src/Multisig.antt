-- ===== src/Multisig.antt =====
-- test-programs/mock_multisig/src/lib.rs: a multisig of three owners that forwards an instruction which
-- two of them sign, and signs it with its own derived address. The runtime around it is a parameter.
pub mod Approval
pub mod Forwarding
use Prim.Native.String
use iron_vault.Prelude.{
  Bool, List, Option, [], false, if◌then◌else◌, none, not, some, true, ℕ, ◌&&◌, ◌==◌, ◌||◌, ◌∷◌,
}
use iron_vault.Runtime.{Seed}
use iron_vault.State.{Pubkey, default_key}

-- `[Pubkey; 3]`
pub record Owners : Type 0 where
  pub first : Pubkey
  pub second : Pubkey
  pub third : Pubkey

pub record MockMultisig : Type 0 where
  pub creator : Pubkey
  pub owners : Owners
  pub threshold : ℕ
  pub bump : ℕ

pub data Refusal : Type 0 where
  -- `MockMultisigError`
  invalid_owners : Refusal
  duplicate_approval : Refusal
  not_member : Refusal
  invalid_threshold : Refusal
  -- a constraint of the accounts
  constraint : Refusal
  -- an error of the invoked program
  forwarded : Refusal

pub data Outcome (T : Type 0) : Type 0 where
  accepted : T → Outcome T
  refused : Refusal → Outcome T

infixl 5 ◌>>=◌
abbrev pub ◌>>=◌ : {T U : Type 0} → Outcome T → (T → Outcome U) → Outcome U
refused why >>= rest = refused why
accepted value >>= rest = rest value

infixl 5 ◌>>◌
abbrev pub ◌>>◌ : {U : Type 0} → Outcome (Unit {0}) → Outcome U → Outcome U
first >> rest = first >>= λ _. rest

-- `require!` and its variants
abbrev pub demand : Bool → Refusal → Outcome (Unit {0})
demand true why = accepted tt
demand false why = refused why

abbrev pub found_or : {T : Type 0} → Option T → Refusal → Outcome T
found_or none why = refused why
found_or (some value) why = accepted value

pub record AccountInfo : Type 0 where
  pub key : Pubkey
  pub is_signer : Bool
  pub is_writable : Bool

pub record AccountMeta : Type 0 where
  pub pubkey : Pubkey
  pub is_signer : Bool
  pub is_writable : Bool

-- `solana_program::instruction::Instruction`
pub record Forwarded : Type 0 where
  pub program_id : Pubkey
  pub accounts : List AccountMeta
  pub data_bytes : List ℕ

-- `multisigs` has the accounts of this program that hold a multisig, and `others` is the rest of the
-- ledger.
pub record Chain (L : Type 0) : Type 0 where
  pub multisigs : Pubkey → Option MockMultisig
  pub others : L

pub record Host (L : Type 0) : Type 0 where
  pub find_program_address : List Seed → Pubkey × ℕ
  pub create_program_address : List Seed → ℕ → Option Pubkey
  pub is_executable : Pubkey → L → Bool
  pub is_vacant : Pubkey → L → Bool
  -- the instruction, the accounts handed on, and the seeds with the bump that it is signed with
  pub invoke_signed : Forwarded → List Pubkey → List Seed → ℕ → Chain L → Option (Chain L)

abbrev pub multisig_seeds : Pubkey → List Seed
multisig_seeds creator = Seed.bytes "multisig" ∷ Seed.key creator ∷ []

-- `owners.contains`
abbrev pub is_owner : Owners → Pubkey → Bool
is_owner owners k = owners.first == k || (owners.second == k || owners.third == k)

-- The test of `initialize`.
abbrev pub are_valid_owners : Owners → Bool
are_valid_owners owners =
    (not (owners.first == default_key)
      && (not (owners.second == default_key) && not (owners.third == default_key)))
    && (not (owners.first == owners.second)
        && (not (owners.first == owners.third) && not (owners.second == owners.third)))

-- `Initialize`
pub record Initialize : Type 0 where
  pub creator : Pubkey
  pub multisig : Pubkey

-- `Execute`
pub record Execute : Type 0 where
  pub multisig : Pubkey
  pub signer_a : Pubkey
  pub signer_b : Pubkey
  pub target_program : Pubkey
  pub remaining_accounts : List AccountInfo

-- The accounts that the forwarded instruction names: only the multisig signs.
abbrev pub account_metas : Pubkey → List AccountInfo → List AccountMeta
account_metas multisig_key [] = []
account_metas multisig_key (account ∷ rest) =
    record {
      pubkey = account.key;
      is_signer = account.key == multisig_key;
      is_writable = account.is_writable;
    }
    ∷ account_metas multisig_key rest

-- The keys of the accounts handed on: the remaining ones, and the target program.
abbrev pub account_infos : List AccountInfo → Pubkey → List Pubkey
account_infos [] target_program = target_program ∷ []
account_infos (account ∷ rest) target_program = account.key ∷ account_infos rest target_program

abbrev pub forward : Execute → List ℕ → Forwarded
forward a instruction_data = record {
  program_id = a.target_program;
  accounts = account_metas a.multisig a.remaining_accounts;
  data_bytes = instruction_data;
}

abbrev pub is_free : Option MockMultisig → Bool
is_free none = true
is_free (some _) = false

-- The tests of `execute`.
unfoldable pub check_approvals : Execute → MockMultisig → Outcome (Unit {0})
check_approvals a multisig = do
  demand (not (a.signer_a == a.signer_b)) duplicate_approval
  demand (is_owner multisig.owners a.signer_a && is_owner multisig.owners a.signer_b) not_member
  demand (multisig.threshold == 2) invalid_threshold

module _ {L : Type 0} (host : Host L) (signers : Pubkey → Bool) where
  unfoldable pub initialize_multisig : Initialize → Owners → Chain L → Outcome (Chain L)
  initialize_multisig a owners c = do
    demand (signers a.creator) constraint
    let derived = host.find_program_address (multisig_seeds a.creator)
    demand (derived.0 == a.multisig) constraint
    demand (is_free (c.multisigs a.multisig) && host.is_vacant a.multisig c.others) constraint
    demand (are_valid_owners owners) invalid_owners
    accepted (record c {
      multisigs = λ k.
          if k == a.multisig
          then some
              (record { creator = a.creator; owners = owners; threshold = 2; bump = derived.1 })
          else c.multisigs k;
    })

  -- The constraints of `Execute`.
  unfoldable pub load_multisig : Execute → Chain L → Outcome MockMultisig
  load_multisig a c = do
    multisig ← found_or (c.multisigs a.multisig) constraint
    derived ←
        found_or (host.create_program_address (multisig_seeds multisig.creator) multisig.bump)
          constraint
    demand (derived == a.multisig) constraint
    demand (signers a.signer_a) constraint
    demand (signers a.signer_b) constraint
    demand (host.is_executable a.target_program c.others) constraint
    accepted multisig

  unfoldable pub execute_multisig : Execute → List ℕ → Chain L → Outcome (Chain L)
  execute_multisig a instruction_data c = do
    multisig ← load_multisig a c
    check_approvals a multisig
    found_or
        (host.invoke_signed (forward a instruction_data)
          (account_infos a.remaining_accounts a.target_program) (multisig_seeds multisig.creator)
          multisig.bump c)
        forwarded
