-- ===== src/Tests/Approving.antt =====
-- The properties of the multisig at a concrete one, on a ledger that counts the calls.
use iron_vault.Multisig.{
  Chain, Execute, Forwarded, Host, Initialize, MockMultisig, Outcome, Owners, accepted,
  account_infos, check_approvals, execute_multisig, forward, initialize_multisig, load_multisig,
  refused,
}
use iron_vault.Multisig.Approval.{approvals, execute-initialize, execute_multisig-eq_accepted}
use iron_vault.Multisig.Forwarding.{IsAsked, forward-IsAsked}
use iron_vault.Prelude.{
  Bool, List, [], arith, false, if◌then◌else◌, none, refl, some, true, ℕ, ◌+◌, ◌==◌, ◌||◌, ◌∷◌, ◌≡◌,
  ◌≤◌,
}
use iron_vault.Runtime.{Seed}
use iron_vault.State.{Pubkey}

abbrev demo_host : Host ℕ
demo_host = record {
  find_program_address = λ seeds. (99, 254);
  create_program_address = λ seeds bump. if bump == 254 then some 99 else none;
  is_executable = λ k calls. k == 50;
  is_vacant = λ k calls. true;
  invoke_signed = λ instruction keys seeds bump c.
      some (record { multisigs = c.multisigs; others = c.others + 1 });
}

abbrev demo_signers : Pubkey → Bool
demo_signers k = k == 1 || (k == 2 || k == 7)

abbrev demo_owners : Owners
demo_owners = record { first = 1; second = 2; third = 3 }

abbrev demo_initialize : Initialize
demo_initialize = record { creator = 7; multisig = 99 }

abbrev no_multisigs : Chain ℕ
no_multisigs = record { multisigs = λ k. none; others = 0 }

abbrev chain_of : Outcome (Chain ℕ) → Chain ℕ
chain_of (accepted c) = c
chain_of (refused why) = no_multisigs

abbrev first_chain : Chain ℕ
first_chain =
    chain_of (initialize_multisig demo_host demo_signers demo_initialize demo_owners no_multisigs)

abbrev second_chain : Chain ℕ
second_chain = record { multisigs = first_chain.multisigs; others = 1 }

abbrev demo_execute : Execute
demo_execute = record {
  multisig = 99;
  signer_a = 2;
  signer_b = 1;
  target_program = 50;
  remaining_accounts = record { key = 99; is_signer = false; is_writable = true } ∷ [];
}

initialized-accepted :
    initialize_multisig demo_host demo_signers demo_initialize demo_owners no_multisigs
    ≡ accepted first_chain
unfolding initialize_multisig
initialized-accepted = refl

executed-accepted :
    execute_multisig demo_host demo_signers demo_execute (5 ∷ []) first_chain
    ≡ accepted second_chain
unfolding execute_multisig load_multisig check_approvals initialize_multisig
executed-accepted = refl

execute_multisig-eq_accepted_example :
    (m : MockMultisig) × (i : Forwarded) × (keys : List Pubkey) × (first_chain.multisigs
        demo_execute.multisig
      ≡ some m)
    × (m.threshold ≤ approvals demo_signers m.owners)
    × IsAsked demo_execute (5 ∷ []) i keys
    × (demo_host.invoke_signed i keys
          (Seed.bytes "multisig" ∷ Seed.key m.creator ∷ [])
          m.bump
          first_chain
        ≡ some second_chain)
execute_multisig-eq_accepted_example =
    execute_multisig-eq_accepted demo_host demo_signers demo_execute (5 ∷ []) first_chain
      second_chain executed-accepted

-- The two owners of `demo_execute`, and not the creator.
abbrev two_signers : Pubkey → Bool
two_signers k = k == 1 || k == 2

execute-initialize_example :
    execute_multisig demo_host two_signers demo_execute (5 ∷ []) first_chain ≡ accepted second_chain
unfolding initialize_multisig
execute-initialize_example =
    execute-initialize demo_host demo_signers two_signers demo_initialize demo_owners demo_execute
      (5 ∷ []) (forward demo_execute (5 ∷ []))
      (account_infos demo_execute.remaining_accounts demo_execute.target_program) no_multisigs
      first_chain second_chain initialized-accepted refl refl (λ e. absurd (omega arith)) refl refl
      refl refl refl (forward-IsAsked demo_execute (5 ∷ [])) refl
