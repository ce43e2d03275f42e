-- ===== src/Observer/Deployment/Loader.antt =====
-- The slot is the one that the loader wrote.
use iron_vault.Observer.Deployment.{fetch_account_data, fetch_deployment_slot, from_le_bytes}
use iron_vault.Observer.Events.Bytes.{drop-append, take-append}
use iron_vault.Observer.Events.Decode.{Codec}
use iron_vault.Observer.Fallible.{Fallible, done}
use iron_vault.Prelude.{
  List, Option, String, arith, false, length, length-append, ltb, refl, some, ℕ, ◌++◌, ◌≡◌,
}

module _ (get_account : String → Fallible (Option (String × String))) (codec : Codec)
    (base58 : List ℕ → String) where
  fetched :
      (address encoded : String) (bytes : List ℕ)
      → get_account address ≡ done (some (encoded, "base64"))
      → codec.base64_decode encoded ≡ some bytes
      → fetch_account_data get_account codec base58 address ≡ done bytes
  unfolding fetch_account_data
  fetched address encoded bytes answer decoded = rw answer (rw decoded refl)

  -- Where the program's account names its data account and that one begins with its state and a
  -- slot, the observer finds that slot.
  pub fetch_deployment_slot-loader :
      (program_id program_text data_text : String)
      (program_tag address more data_tag slot_bytes rest : List ℕ)
      → get_account program_id ≡ done (some (program_text, "base64"))
      → codec.base64_decode program_text ≡ some (program_tag ++ (address ++ more))
      → get_account (base58 address) ≡ done (some (data_text, "base64"))
      → codec.base64_decode data_text ≡ some (data_tag ++ (slot_bytes ++ rest))
      → length program_tag ≡ 4
      → from_le_bytes program_tag ≡ 2
      → length address ≡ 32
      → length data_tag ≡ 4
      → from_le_bytes data_tag ≡ 3
      → length slot_bytes ≡ 8
      → fetch_deployment_slot get_account codec base58 program_id ≡ done (from_le_bytes slot_bytes)
  unfolding fetch_deployment_slot
  fetch_deployment_slot-loader program_id program_text data_text program_tag address more data_tag
        slot_bytes rest answer decoded answer' decoded' tag_length tag address_length tag_length'
        tag' slot_length =
      let long : ltb (length (program_tag ++ (address ++ more))) 36 ≡ false =
        ground (arith, length-append program_tag (address ++ more), length-append address more) in
      let long' : ltb (length (data_tag ++ (slot_bytes ++ rest))) 12 ≡ false =
        ground
          (arith, length-append data_tag (slot_bytes ++ rest), length-append slot_bytes rest) in
      rw (fetched program_id program_text _ answer decoded) (
        rw long (
          rw (take-append program_tag (address ++ more) 4 tag_length) (
            rw tag (
              rw (drop-append program_tag (address ++ more) 4 tag_length) (
                rw (take-append address more 32 address_length) (
                  rw (fetched (base58 address) data_text _ answer' decoded') (
                    rw long' (
                      rw (take-append data_tag (slot_bytes ++ rest) 4 tag_length') (
                        rw tag' (
                          rw (drop-append data_tag (slot_bytes ++ rest) 4 tag_length')
                            (rw (take-append slot_bytes rest 8 slot_length) refl)))))))))))
