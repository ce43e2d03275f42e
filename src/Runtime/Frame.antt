-- ===== src/Runtime/Frame.antt =====
-- What stays of this program's accounts while other programs run.
use iron_vault.Prelude.{Bool, ap, arith, some, ◌∙◌, ◌≡◌, ◌≢◌}
use iron_vault.Runtime.{Content, Context, Interface, Ledger, Runtime, TokenAccount, TransferChecked}
use iron_vault.Runtime.Accounts.{HoldsProgram, HoldsToken}
use iron_vault.State.{Pubkey}

-- The contents that this program keeps state in.
abbrev pub IsState : Content → Type 0
IsState (Content.protocol_config _) = Unit
IsState (Content.escrow _) = Unit
IsState (Content.vault _) = Unit
IsState (Content.vault_asset _) = Unit
IsState (Content.role_assignment _) = Unit
IsState (Content.withdrawal_request _) = Unit
IsState _ = ⊥

-- Every state account of this program on `l` is on `l'` as it was.
abbrev pub Keeps : Runtime → Ledger → Ledger → Type 0
Keeps rt l l' =
    (k : Pubkey) (c : Content) → IsState c → HoldsProgram rt l k c → HoldsProgram rt l' k c

-- What is documented of both token programs: a transfer writes to its two token accounts only.
pub record TokenProgram (rt : Runtime) : Type 0 where
  pub frame :
      (signers : Pubkey → Bool) (t : TransferChecked) (l l' : Ledger) (k : Pubkey)
      → rt.transfer_checked signers t l ≡ some l'
      → k ≢ t.from
      → k ≢ t.to
      → l' k ≡ l k

pub token_is_no_state :
    (rt : Runtime) (l : Ledger) (k j : Pubkey) (c : Content) (t : Interface TokenAccount)
    → IsState c
    → HoldsProgram rt l k c
    → HoldsToken l j t
    → k ≢ j
token_is_no_state rt l k j (Content.token u) t s at_k at_j e = s
token_is_no_state rt l k j c t s at_k at_j e = let same : l k ≡ l j = ap l e in ground arith

module _ (rt : Runtime) (tp : TokenProgram rt) (ctx : Context) (t : TransferChecked) where
  -- A transfer between token accounts keeps the state accounts.
  pub transfer_exact-Keeps :
      (l l' : Ledger) (source destination : Interface TokenAccount)
      → HoldsToken l t.from source
      → HoldsToken l t.to destination
      → rt.transfer_checked ctx.signers t l ≡ some l'
      → Keeps rt l l'
  transfer_exact-Keeps l l' source destination from to moved k c s at =
      tp.frame ctx.signers t l l' k moved (token_is_no_state rt l k t.from c source s at from)
        (token_is_no_state rt l k t.to c destination s at to)
      ∙ at
