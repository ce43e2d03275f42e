-- ===== src/Multisig/Forwarding.antt =====
-- What the multisig of test-programs/mock_multisig/src/lib.rs forwards, described without the code
-- that builds it.
use iron_vault.Multisig.{
  AccountInfo, AccountMeta, Execute, Forwarded, account_infos, account_metas, forward,
}
use iron_vault.Prelude.{Bool, List, [], arith, false, refl, sym, true, ℕ, ◌==◌, ◌∷◌, ◌≡◌}
use iron_vault.State.{Pubkey}

-- The metas name the accounts in their order, writable where they are, and signing for exactly the
-- key `k`.
abbrev pub AreNamed : Pubkey → List AccountInfo → List AccountMeta → Type 0
AreNamed k [] [] = Unit
AreNamed k [] (_ ∷ _) = ⊥
AreNamed k (_ ∷ _) [] = ⊥
AreNamed k (x ∷ xs) (y ∷ ys) =
    (y.pubkey ≡ x.key)
    × (y.is_writable ≡ x.is_writable)
    × (y.is_signer ≡ true → x.key ≡ k)
    × (x.key ≡ k → y.is_signer ≡ true)
    × AreNamed k xs ys

-- The keys of the accounts in their order, and then the target program.
abbrev pub AreHanded : List AccountInfo → Pubkey → List Pubkey → Type 0
AreHanded [] target [] = ⊥
AreHanded [] target (k ∷ []) = k ≡ target
AreHanded [] target (_ ∷ _ ∷ _) = ⊥
AreHanded (_ ∷ _) target [] = ⊥
AreHanded (x ∷ xs) target (k ∷ keys) = (k ≡ x.key) × AreHanded xs target keys

-- `i` is the instruction that was asked for, and `keys` are the accounts to run it on: the target
-- program with the data given, on the remaining accounts, of which only the multisig signs.
pub record IsAsked (a : Execute) (instruction_data : List ℕ) (i : Forwarded) (keys : List Pubkey)
    : Type 0 where
  pub target : i.program_id ≡ a.target_program
  pub given : i.data_bytes ≡ instruction_data
  pub named : AreNamed a.multisig a.remaining_accounts i.accounts
  pub handed : AreHanded a.remaining_accounts a.target_program keys

account_metas-AreNamed : (k : Pubkey) (xs : List AccountInfo) → AreNamed k xs (account_metas k xs)
account_metas-AreNamed k [] = tt
account_metas-AreNamed k (x ∷ xs) =
    (refl, refl, (λ h. ground arith), (λ h. ground arith), account_metas-AreNamed k xs)

account_infos-AreHanded :
    (xs : List AccountInfo) (target : Pubkey) → AreHanded xs target (account_infos xs target)
account_infos-AreHanded [] target = refl
account_infos-AreHanded (x ∷ xs) target = (refl, account_infos-AreHanded xs target)

pub forward-IsAsked :
    (a : Execute) (instruction_data : List ℕ)
    → IsAsked a instruction_data
        (forward a instruction_data)
        (account_infos a.remaining_accounts a.target_program)
forward-IsAsked a instruction_data = record {
  target = refl;
  given = refl;
  named = account_metas-AreNamed a.multisig a.remaining_accounts;
  handed = account_infos-AreHanded a.remaining_accounts a.target_program;
}

AreNamed-unique :
    (k : Pubkey) (xs : List AccountInfo) (ys : List AccountMeta)
    → AreNamed k xs ys
    → ys ≡ account_metas k xs
AreNamed-unique k [] [] h = refl
AreNamed-unique k [] (_ ∷ _) h = absurd h
AreNamed-unique k (_ ∷ _) [] h = absurd h
AreNamed-unique k (x ∷ xs) (y ∷ ys) (same, writable, only, signs, rest) =
    one x y same writable
      (signer (x.key == k) y.is_signer (λ h. signs (ground arith)) (λ h. is_key (only h)))
      (AreNamed-unique k xs ys rest)
  where
    signer : (b c : Bool) → (b ≡ true → c ≡ true) → (c ≡ true → b ≡ true) → c ≡ b
    signer true true f g = refl
    signer true false f g = f refl
    signer false true f g = sym (g refl)
    signer false false f g = refl

    is_key : x.key ≡ k → x.key == k ≡ true
    is_key same = ground arith

    one :
        (x : AccountInfo) (y : AccountMeta)
        → y.pubkey ≡ x.key
        → y.is_writable ≡ x.is_writable
        → y.is_signer ≡ (x.key == k)
        → ys ≡ account_metas k xs
        → y ∷ ys ≡ account_metas k (x ∷ xs)
    one x y same writable signs rest = cc

AreHanded-unique :
    (xs : List AccountInfo) (target : Pubkey) (keys : List Pubkey)
    → AreHanded xs target keys
    → keys ≡ account_infos xs target
AreHanded-unique [] target [] h = absurd h
AreHanded-unique [] target (k ∷ []) h = cc
AreHanded-unique [] target (_ ∷ _ ∷ _) h = absurd h
AreHanded-unique (_ ∷ _) target [] h = absurd h
AreHanded-unique (x ∷ xs) target (k ∷ keys) (same, rest) =
    let later = AreHanded-unique xs target keys rest in cc

-- The description leaves no choice.
pub IsAsked-unique :
    (a : Execute) (instruction_data : List ℕ) (i : Forwarded) (keys : List Pubkey)
    → IsAsked a instruction_data i keys
    → (i ≡ forward a instruction_data)
      × (keys ≡ account_infos a.remaining_accounts a.target_program)
IsAsked-unique a instruction_data i keys h =
    let metas = AreNamed-unique a.multisig a.remaining_accounts i.accounts h.named in
    (
      one i h.target h.given metas,
      AreHanded-unique a.remaining_accounts a.target_program keys h.handed,
    )
  where
    one :
        (i : Forwarded)
        → i.program_id ≡ a.target_program
        → i.data_bytes ≡ instruction_data
        → i.accounts ≡ account_metas a.multisig a.remaining_accounts
        → i ≡ forward a instruction_data
    one i target given metas = cc
