-- ===== src/Tests/Codecs.antt =====
-- Concrete codecs for the observer.
use Prim.Native.Char.{Char, code}
use Prim.Native.String.{char_at, len}
use mathlib.Core.Option
use iron_vault.Borsh.{Borsh, BorshLaws, IsI64}
use iron_vault.Observer.Events.Decode.{
  Codec, EventKind, discriminator, eq_bytes, kind_escrow_created, kind_escrow_refunded,
  kind_escrow_released, kind_name, kind_protocol_initialized, kind_protocol_pause_updated,
  kind_role_granted, kind_role_revoked, kind_vault_asset_registered, kind_vault_authority_updated,
  kind_vault_created, kind_vault_deposit, kind_vault_limits_updated, kind_vault_pause_updated,
  kind_vault_withdrawal, kind_withdrawal_cancelled, kind_withdrawal_executed,
  kind_withdrawal_requested, kinds,
}
use iron_vault.Observer.Events.Emitted.{CodecLaws}
use iron_vault.Prelude.{
  Bool, List, Option, String, [], ap, arith, false, if◌then◌else◌, length, ltb, none, refl, some,
  suc, sym, true, zero, ℕ, ◌%◌, ◌*◌, ◌++◌, ◌+◌, ◌-◌, ◌/◌, ◌<◌, ◌==◌, ◌^◌, ◌∙◌, ◌∷◌, ◌≡◌,
}
use iron_vault.Prelude.Int.{negsuc, pos, ℤ}

-- Little-endian numbers of a number of bytes.
unfoldable pub put_le : ℕ → ℕ → List ℕ
put_le zero n = []
put_le (suc w) n = n % 256 ∷ put_le w (n / 256)

abbrev shift_byte : ℕ → ℕ × List ℕ → ℕ × List ℕ
shift_byte b (n, rest) = (b + 256 * n, rest)

unfoldable pub take_le : ℕ → List ℕ → Option (ℕ × List ℕ)
take_le zero bytes = some (0, bytes)
take_le (suc w) [] = none
take_le (suc w) (b ∷ bytes) = Option.map (shift_byte b) (take_le w bytes)

abbrev bound : ℕ → ℕ
bound zero = 1
bound (suc w) = 256 * bound w

take-put_le :
    (w n : ℕ) (rest : List ℕ) → n < bound w → take_le w (put_le w n ++ rest) ≡ some (n, rest)
unfolding put_le take_le
take-put_le zero n rest h = let none_left : n ≡ 0 = omega arith in rw none_left refl
take-put_le (suc w) n rest h =
    let whole : n % 256 + 256 * (n / 256) ≡ n = omega arith in
    rw (take-put_le w (n / 256) rest (omega arith)) (ap (λ m. some (m, rest)) whole)

abbrev put_signed : ℤ → List ℕ
put_signed (pos n) = put_le 8 n
put_signed (negsuc n) = put_le 8 (2 ^ 64 - 1 - n)

abbrev from_unsigned : ℕ × List ℕ → ℤ × List ℕ
from_unsigned (n, rest) = (if ltb n (2 ^ 63) then pos n else negsuc (2 ^ 64 - 1 - n), rest)

abbrev put_flag : Bool → List ℕ
put_flag true = 1 ∷ []
put_flag false = 0 ∷ []

abbrev take_flag : List ℕ → Option (Bool × List ℕ)
take_flag [] = none
take_flag (b ∷ rest) =
    if b == 0 then some (false, rest) else if b == 1 then some (true, rest) else none

abbrev pub little_endian : Borsh
little_endian = record {
  put_u16 = put_le 2;
  put_u32 = put_le 4;
  put_u64 = put_le 8;
  put_key = put_le 32;
  put_i64 = put_signed;
  put_bool = put_flag;
  take_u16 = take_le 2;
  take_u32 = take_le 4;
  take_u64 = take_le 8;
  take_key = take_le 32;
  take_i64 = λ bytes. Option.map from_unsigned (take_le 8 bytes);
  take_bool = take_flag;
}

take-put_signed :
    (z : ℤ) (rest : List ℕ)
    → IsI64 z
    → Option.map from_unsigned (take_le 8 (put_signed z ++ rest)) ≡ some (z, rest)
take-put_signed (pos n) rest (low, high) = rw (take-put_le 8 n rest (omega arith)) (ground arith)
take-put_signed (negsuc n) rest (low, high) =
    rw (take-put_le 8 (2 ^ 64 - 1 - n) rest (omega arith)) (ground arith)

take-put_flag : (t : Bool) (rest : List ℕ) → take_flag (put_flag t ++ rest) ≡ some (t, rest)
take-put_flag true rest = refl
take-put_flag false rest = refl

pub little_endian-laws : BorshLaws little_endian
unfolding put_le
little_endian-laws = record {
  u16 = λ n rest h. take-put_le 2 n rest h;
  u32 = λ n rest h. take-put_le 4 n rest h;
  u64 = λ n rest h. take-put_le 8 n rest h;
  key = λ n rest h. take-put_le 32 n rest h;
  i64 = take-put_signed;
  bool = take-put_flag;
  length_u16 = λ n. refl;
}

-- A function with the length of the hash that tells the names of the events apart.
abbrev digest : String → List ℕ
digest s = len s ∷ code (char_at s 6) ∷ code (char_at s 10) ∷ code (char_at s 16) ∷ put_le 28 0

length-digest : (s : String) → length (digest s) ≡ 32
unfolding put_le
length-digest s = refl

-- The kind of an event by its discriminator.
abbrev kind_in : List EventKind → (EventKind → List ℕ) → List ℕ → Option EventKind
kind_in [] of bytes = none
kind_in (kind ∷ rest) of bytes =
    if eq_bytes (of kind) bytes then some kind else kind_in rest of bytes

-- Bytes as strokes, each with its end.
letter_a : Char
letter_a = char_at "A" 0

put_byte : ℕ → String → String
put_byte zero s = String.◌∷◌ (char_at "B" 0) s
put_byte (suc n) s = String.◌∷◌ letter_a (put_byte n s)

unfoldable pub strokes : List ℕ → String
unfolding put_byte letter_a
strokes [] = ""
strokes (b ∷ bytes) = put_byte b (strokes bytes)

unfoldable pub count_strokes : ℕ → String → Option (List ℕ)
count_strokes n String.[] = some []
count_strokes n (String.◌∷◌ c s) =
    let ended = count_strokes 0 s in
    let longer = count_strokes (suc n) s in
    if code c == 65 then longer else Option.map (λ bytes. n ∷ bytes) ended

count-put_byte :
    (m n : ℕ) (s : String)
    → count_strokes m (put_byte n s) ≡ Option.map (λ bytes. (m + n) ∷ bytes) (count_strokes 0 s)
unfolding count_strokes put_byte letter_a
count-put_byte m zero s = let same : m + 0 ≡ m = omega arith in rw same refl
count-put_byte m (suc n) s =
    let same : m + suc n ≡ suc m + n = omega arith in rw same (count-put_byte (suc m) n s)

count-strokes : (bytes : List ℕ) → count_strokes 0 (strokes bytes) ≡ some bytes
unfolding strokes count_strokes
count-strokes [] = refl
count-strokes (b ∷ bytes) =
    let same : 0 + b ≡ b = omega arith in
    count-put_byte 0 b (strokes bytes) ∙ rw (count-strokes bytes) (rw same refl)

abbrev pub demo_codec : Codec
demo_codec = record { borsh = little_endian; sha256 = digest; base64_decode = count_strokes 0 }

unfoldable kind_of_discriminator : List ℕ → Option EventKind
kind_of_discriminator bytes = kind_in kinds (λ k. discriminator demo_codec (kind_name k)) bytes

found_again :
    (k : EventKind) → kind_of_discriminator (discriminator demo_codec (kind_name k)) ≡ some k
unfolding kind_of_discriminator discriminator put_le
found_again kind_protocol_initialized = refl
found_again kind_protocol_pause_updated = refl
found_again kind_escrow_created = refl
found_again kind_escrow_released = refl
found_again kind_escrow_refunded = refl
found_again kind_vault_created = refl
found_again kind_vault_authority_updated = refl
found_again kind_vault_pause_updated = refl
found_again kind_vault_asset_registered = refl
found_again kind_vault_deposit = refl
found_again kind_vault_withdrawal = refl
found_again kind_role_granted = refl
found_again kind_role_revoked = refl
found_again kind_vault_limits_updated = refl
found_again kind_withdrawal_requested = refl
found_again kind_withdrawal_executed = refl
found_again kind_withdrawal_cancelled = refl

demo-differ :
    (k j : EventKind)
    → discriminator demo_codec (kind_name k) ≡ discriminator demo_codec (kind_name j)
    → k ≡ j
demo-differ k j h =
    let same : some k ≡ some j = sym (found_again k) ∙ ap kind_of_discriminator h ∙ found_again j in
    cc

pub demo_codec-laws : CodecLaws demo_codec strokes
demo_codec-laws = record {
  borsh_laws = little_endian-laws;
  length_sha256 = length-digest;
  discriminators_differ = demo-differ;
  base64_undoes = count-strokes;
}
