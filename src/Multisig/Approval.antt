-- ===== src/Multisig/Approval.antt =====
-- The approvals that `execute` of test-programs/mock_multisig/src/lib.rs asks for.
use iron_vault.Multisig.{
  Chain, Execute, Forwarded, Host, Initialize, MockMultisig, Outcome, Owners, Refusal, accepted,
  account_infos, are_valid_owners, check_approvals, constraint, demand, duplicate_approval,
  execute_multisig, forward, found_or, initialize_multisig, invalid_owners, invalid_threshold,
  is_free, is_owner, load_multisig, multisig_seeds, not_member, refused, ◌>>=◌, ◌>>◌,
}
use iron_vault.Multisig.Forwarding.{IsAsked, IsAsked-unique, forward-IsAsked}
use iron_vault.Prelude.{
  Bool, Bool-cases, List, Option, [], ap, arith, false, if◌then◌else◌, inl, inr, none, not, refl,
  some, sym, true, ℕ, ◌&&◌, ◌+◌, ◌==◌, ◌∙◌, ◌∷◌, ◌≡◌, ◌≢◌, ◌≤◌, ◌⊎◌,
}
use iron_vault.Runtime.{Seed}
use iron_vault.State.{Pubkey}

-- 1 for a key that signed.
abbrev pub signed : (Pubkey → Bool) → Pubkey → ℕ
signed signers k = if signers k then 1 else 0

-- The number of owners that signed.
abbrev pub approvals : (Pubkey → Bool) → Owners → ℕ
approvals signers owners =
    signed signers owners.first + signed signers owners.second + signed signers owners.third

is_owner-cases :
    (owners : Owners) (a : Pubkey)
    → is_owner owners a ≡ true
    → (owners.first ≡ a) ⊎ ((owners.second ≡ a) ⊎ (owners.third ≡ a))
is_owner-cases owners a h = elim (Bool-cases (owners.first == a)) [
  | inl one ↦ inl (ground arith)
  | inr not_first ↦ elim (Bool-cases (owners.second == a)) [
    | inl two ↦ inr (inl (ground arith))
    | inr not_second ↦ inr (inr (ground arith))
  ]
]

signed-eq_one :
    (signers : Pubkey → Bool) (k a : Pubkey) → k ≡ a → signers a ≡ true → signed signers k ≡ 1
signed-eq_one signers k a same h = rw same (rw h refl)

-- Two distinct owners that signed are two of the three.
approvals_pair :
    (signers : Pubkey → Bool) (owners : Owners) (a b : Pubkey)
    → (owners.first ≡ a) ⊎ ((owners.second ≡ a) ⊎ (owners.third ≡ a))
    → (owners.first ≡ b) ⊎ ((owners.second ≡ b) ⊎ (owners.third ≡ b))
    → a ≢ b
    → signers a ≡ true
    → signers b ≡ true
    → 2 ≤ approvals signers owners
approvals_pair signers owners a b (inl p) (inl q) apart signed_a signed_b =
    absurd (apart (sym p ∙ q))
approvals_pair signers owners a b (inl p) (inr (inl q)) apart signed_a signed_b = omega (
  arith,
  signed-eq_one signers owners.first a p signed_a,
  signed-eq_one signers owners.second b q signed_b,
)
approvals_pair signers owners a b (inl p) (inr (inr q)) apart signed_a signed_b = omega (
  arith,
  signed-eq_one signers owners.first a p signed_a,
  signed-eq_one signers owners.third b q signed_b,
)
approvals_pair signers owners a b (inr (inl p)) (inl q) apart signed_a signed_b = omega (
  arith,
  signed-eq_one signers owners.second a p signed_a,
  signed-eq_one signers owners.first b q signed_b,
)
approvals_pair signers owners a b (inr (inl p)) (inr (inl q)) apart signed_a signed_b =
    absurd (apart (sym p ∙ q))
approvals_pair signers owners a b (inr (inl p)) (inr (inr q)) apart signed_a signed_b = omega (
  arith,
  signed-eq_one signers owners.second a p signed_a,
  signed-eq_one signers owners.third b q signed_b,
)
approvals_pair signers owners a b (inr (inr p)) (inl q) apart signed_a signed_b = omega (
  arith,
  signed-eq_one signers owners.third a p signed_a,
  signed-eq_one signers owners.first b q signed_b,
)
approvals_pair signers owners a b (inr (inr p)) (inr (inl q)) apart signed_a signed_b = omega (
  arith,
  signed-eq_one signers owners.third a p signed_a,
  signed-eq_one signers owners.second b q signed_b,
)
approvals_pair signers owners a b (inr (inr p)) (inr (inr q)) apart signed_a signed_b =
    absurd (apart (sym p ∙ q))

>>=-eq_accepted :
    {T U : Type 0} (first : Outcome T) (rest : T → Outcome U) {result : U}
    → (first >>= rest) ≡ accepted result
    → (value : T) × (first ≡ accepted value) × (rest value ≡ accepted result)
>>=-eq_accepted (refused why) rest h = cc
>>=-eq_accepted (accepted value) rest h = (value, refl, h)

demand_passed :
    {U : Type 0} (test : Bool) (why : Refusal) (rest : Outcome U) {result : U}
    → (demand test why >> rest) ≡ accepted result
    → (test ≡ true) × (rest ≡ accepted result)
demand_passed true why rest h = (refl, h)
demand_passed false why rest h = cc

demand-eq_accepted :
    (test : Bool) (why : Refusal) {v : Unit {0}} → demand test why ≡ accepted v → test ≡ true
demand-eq_accepted true why h = refl
demand-eq_accepted false why h = cc

found_or-eq_accepted :
    {T : Type 0} (found : Option T) (why : Refusal) {value : T}
    → found_or found why ≡ accepted value
    → found ≡ some value
found_or-eq_accepted none why h = cc
found_or-eq_accepted (some value) why h = cc

accepted-injective : {T : Type 0} {a b : T} → accepted a ≡ accepted b → a ≡ b
accepted-injective h = cc

check_approvals-approvals :
    (signers : Pubkey → Bool) (a : Execute) (m : MockMultisig) {v : Unit {0}}
    → check_approvals a m ≡ accepted v
    → signers a.signer_a ≡ true
    → signers a.signer_b ≡ true
    → m.threshold ≤ approvals signers m.owners
unfolding check_approvals
check_approvals-approvals signers a m h signed_a signed_b =
    let (differ, h1) = demand_passed (not (a.signer_a == a.signer_b)) duplicate_approval _ h in
    let (members, h2) =
      demand_passed (is_owner m.owners a.signer_a && is_owner m.owners a.signer_b) not_member _
        h1 in
    let two = demand-eq_accepted (m.threshold == 2) invalid_threshold h2 in
    let pair =
      approvals_pair signers m.owners a.signer_a a.signer_b
        (is_owner-cases m.owners a.signer_a (ground arith))
        (is_owner-cases m.owners a.signer_b (ground arith)) (λ e. absurd (ground arith)) signed_a
        signed_b in
    let exact : m.threshold ≡ 2 = ground arith in omega (arith, pair, exact)

module _ {L : Type 0} (host : Host L) (signers : Pubkey → Bool) where
  load_multisig-eq_accepted :
      (a : Execute) (c : Chain L) (m : MockMultisig)
      → load_multisig host signers a c ≡ accepted m
      → (c.multisigs a.multisig ≡ some m)
        × (signers a.signer_a ≡ true)
        × (signers a.signer_b ≡ true)
  unfolding load_multisig
  load_multisig-eq_accepted a c m h =
      let (m', stored, h1) = >>=-eq_accepted (found_or (c.multisigs a.multisig) constraint) _ h in
      let (derived, _, h2) =
        >>=-eq_accepted
          (found_or (host.create_program_address (multisig_seeds m'.creator) m'.bump) constraint) _
          h1 in
      let (_, h3) = demand_passed (derived == a.multisig) constraint _ h2 in
      let (signed_a, h4) = demand_passed (signers a.signer_a) constraint _ h3 in
      let (signed_b, h5) = demand_passed (signers a.signer_b) constraint _ h4 in
      let (_, h6) = demand_passed (host.is_executable a.target_program c.others) constraint _ h5 in
      let same : m' ≡ m = accepted-injective h6 in
      (found_or-eq_accepted _ _ stored ∙ ap some same, signed_a, signed_b)

  -- An execution succeeds only for a multisig whose owners signed at least as often as its threshold
  -- says, each counted once. What is then invoked is the target program with the data given, on the
  -- remaining accounts in their order, each as writable as it is, of which exactly the multisig's own
  -- key signs, with the seeds of that multisig; the ledger is the one that the invoked program left.
  pub execute_multisig-eq_accepted :
      (a : Execute) (instruction_data : List ℕ) (c c' : Chain L)
      → execute_multisig host signers a instruction_data c ≡ accepted c'
      → (m : MockMultisig) × (i : Forwarded) × (keys : List Pubkey) × (c.multisigs a.multisig
          ≡ some m)
        × (m.threshold ≤ approvals signers m.owners)
        × IsAsked a instruction_data i keys
        × (host.invoke_signed i keys (Seed.bytes "multisig" ∷ Seed.key m.creator ∷ []) m.bump c
            ≡ some c')
  unfolding execute_multisig
  execute_multisig-eq_accepted a instruction_data c c' h =
      let (m, loaded, h1) = >>=-eq_accepted (load_multisig host signers a c) _ h in
      let (v, checked, h2) = >>=-eq_accepted (check_approvals a m) _ h1 in
      let (stored, signed_a, signed_b) = load_multisig-eq_accepted a c m loaded in
      (
        m,
        forward a instruction_data,
        account_infos a.remaining_accounts a.target_program,
        stored,
        check_approvals-approvals signers a m checked signed_a signed_b,
        forward-IsAsked a instruction_data,
        found_or-eq_accepted _ _ h2,
      )

  -- What an initialization stores.
  abbrev pub initialized : Initialize → Owners → MockMultisig
  initialized i owners = record {
    creator = i.creator;
    owners = owners;
    threshold = 2;
    bump = (host.find_program_address (multisig_seeds i.creator)).1;
  }

  initialize_multisig-eq_accepted :
      (i : Initialize) (owners : Owners) (c c1 : Chain L)
      → initialize_multisig host signers i owners c ≡ accepted c1
      → ((host.find_program_address (multisig_seeds i.creator)).0 == i.multisig ≡ true)
        × (c1.multisigs i.multisig ≡ some (initialized i owners))
  unfolding initialize_multisig
  initialize_multisig-eq_accepted i owners c c1 h =
      let (_, h1) = demand_passed (signers i.creator) constraint _ h in
      let (derived, h2) =
        demand_passed ((host.find_program_address (multisig_seeds i.creator)).0 == i.multisig)
          constraint _ h1 in
      let (_, h3) =
        demand_passed (is_free (c.multisigs i.multisig) && host.is_vacant i.multisig c.others)
          constraint _ h2 in
      let (_, h4) = demand_passed (are_valid_owners owners) invalid_owners _ h3 in
      let same : i.multisig == i.multisig ≡ true = ground arith in
      (derived, rw (← accepted-injective h4) (rw same refl))

-- Once a multisig has been initialized, any two distinct owners of it can forward any instruction to
-- an executable program: of the signatures, execution needs only theirs, whoever signed the
-- initialization. The conditions are that the runtime carries the instruction out, signed with the
-- multisig's seeds, and that an address that it derives is found again with its bump.
pub execute-initialize :
    {L : Type 0} (host : Host L) (first_signers signers : Pubkey → Bool) (i : Initialize)
    (owners : Owners) (a : Execute) (instruction_data : List ℕ) (asked : Forwarded)
    (keys : List Pubkey) (c c1 c2 : Chain L)
    → initialize_multisig host first_signers i owners c ≡ accepted c1
    → a.multisig ≡ i.multisig
    → host.create_program_address
        (multisig_seeds i.creator)
        (host.find_program_address (multisig_seeds i.creator)).1
      ≡ some (host.find_program_address (multisig_seeds i.creator)).0
    → a.signer_a ≢ a.signer_b
    → is_owner owners a.signer_a ≡ true
    → is_owner owners a.signer_b ≡ true
    → signers a.signer_a ≡ true
    → signers a.signer_b ≡ true
    → host.is_executable a.target_program c1.others ≡ true
    → IsAsked a instruction_data asked keys
    → host.invoke_signed asked keys
        (Seed.bytes "multisig" ∷ Seed.key i.creator ∷ [])
        (host.find_program_address (multisig_seeds i.creator)).1
        c1
      ≡ some c2
    → execute_multisig host signers a instruction_data c1 ≡ accepted c2
unfolding execute_multisig load_multisig check_approvals
execute-initialize host first_signers signers i owners a instruction_data asked keys c c1 c2 h
      same_key law differ in_a in_b signed_a signed_b executable is_asked carried_out =
    let (derived, stored) = initialize_multisig-eq_accepted host first_signers i owners c c1 h in
    let (same_asked, same_keys) = IsAsked-unique a instruction_data asked keys is_asked in
    let apart : a.signer_a == a.signer_b ≡ false = ground arith in
    let stored' : c1.multisigs a.multisig ≡ some (initialized host first_signers i owners) =
      rw same_key stored in
    let derived' : (host.find_program_address (multisig_seeds i.creator)).0 == a.multisig ≡ true =
      rw same_key derived in
    let carried' : host.invoke_signed (forward a instruction_data)
          (account_infos a.remaining_accounts a.target_program) (multisig_seeds i.creator)
          (host.find_program_address (multisig_seeds i.creator)).1 c1
        ≡ some c2 =
      rw (← same_asked) (rw (← same_keys) carried_out) in
    rw stored' (
      rw law (
        rw derived' (
          rw signed_a
            (rw signed_b (rw executable (rw apart (rw in_a (rw in_b (rw carried' refl)))))))))
