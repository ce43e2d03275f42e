-- ===== src/Observer/Deployment.antt =====
-- observer/src/rpc.rs: `fetch_account_data` and `fetch_deployment_slot`, which finds in the accounts
-- of the upgradeable loader when the program was deployed last. The node's answer for an account is a
-- parameter: its data and their encoding, if there is such an account.
pub mod Loader
use Prim.Native.String
use iron_vault.Observer.Events.Decode.{Codec}
use iron_vault.Observer.Fallible.{
  Fallible, done, ensure, invalid_account, invalid_base64, some_or, ◌>>=◌, ◌>>◌,
}
use iron_vault.Observer.Store.{eq_text}
use iron_vault.Prelude.{
  List, Option, String, [], drop, length, ltb, not, take, ℕ, ◌*◌, ◌+◌, ◌==◌, ◌||◌, ◌∷◌,
}

-- `from_le_bytes`
abbrev pub from_le_bytes : List ℕ → ℕ
from_le_bytes [] = 0
from_le_bytes (b ∷ bytes) = b + 256 * from_le_bytes bytes

-- `get_account` is the answer of `getAccountInfo`, and `base58` the text of some bytes.
module _ (get_account : String → Fallible (Option (String × String))) (codec : Codec)
    (base58 : List ℕ → String) where
  unfoldable pub fetch_account_data : String → Fallible (List ℕ)
  fetch_account_data address = do
    answer ← get_account address
    account_data ← some_or answer invalid_account
    ensure (eq_text account_data.1 "base64") invalid_account
    some_or (codec.base64_decode account_data.0) invalid_base64

  unfoldable pub fetch_deployment_slot : String → Fallible ℕ
  fetch_deployment_slot program_id = do
    program_bytes ← fetch_account_data program_id
    ensure (not (ltb (length program_bytes) 36 || not (from_le_bytes (take 4 program_bytes) == 2)))
        invalid_account
    let program_data_address = base58 (take 32 (drop 4 program_bytes))
    program_data ← fetch_account_data program_data_address
    ensure (not (ltb (length program_data) 12 || not (from_le_bytes (take 4 program_data) == 3)))
        invalid_account
    done (from_le_bytes (take 8 (drop 4 program_data)))
