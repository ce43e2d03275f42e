-- ===== src/Observer/Fallible.antt =====
-- Results of the observer: `anyhow::Result`, with a constructor for each failure.
use iron_vault.Prelude.{Bool, Option, false, none, refl, some, true, ◌≡◌}

pub data Failure : Type 0 where
  -- observer/src/events.rs
  short_payload invalid_payload unknown_discriminator invalid_base64 : Failure
  -- observer/src/database.rs
  out_of_range check_violated : Failure
  -- observer/src/rpc.rs
  no_event rpc_failed invalid_account : Failure

pub data Fallible {ℓ} (T : Type ℓ) : Type ℓ where
  done : T → Fallible T
  failed : Failure → Fallible T

-- The `?` operator.
infixl 5 ◌>>=◌
abbrev pub ◌>>=◌ {ℓ κ} : {T : Type ℓ} {U : Type κ} → Fallible T → (T → Fallible U) → Fallible U
failed why >>= rest = failed why
done value >>= rest = rest value

infixl 5 ◌>>◌
abbrev pub ◌>>◌ {κ} : {U : Type κ} → Fallible (Unit {0}) → Fallible U → Fallible U
first >> rest = first >>= λ _. rest

-- `bail!` unless the test holds.
abbrev pub ensure : Bool → Failure → Fallible (Unit {0})
ensure true why = done tt
ensure false why = failed why

-- `context` and `ok_or`
abbrev pub some_or {ℓ} : {T : Type ℓ} → Option T → Failure → Fallible T
some_or (some value) why = done value
some_or none why = failed why

pub >>=-eq_done {ℓ κ} :
    {T : Type ℓ} {U : Type κ} (first : Fallible T) (rest : T → Fallible U) {result : U}
    → (first >>= rest) ≡ done result
    → (value : T) × (first ≡ done value) × (rest value ≡ done result)
>>=-eq_done (failed why) rest h = cc
>>=-eq_done (done value) rest h = (value, refl, h)

pub done-injective {ℓ} : {T : Type ℓ} {a b : T} → done a ≡ done b → a ≡ b
done-injective h = cc
