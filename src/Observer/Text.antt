-- ===== src/Observer/Text.antt =====
-- The operations of `str` that the observer uses, over native texts.
use Prim.Native.Char.{Char, code}
use Prim.Native.String.{len, slice, find}
use text.Mathlib.Text.{starts_with, find?, get?}
use text.Mathlib.Text
use text.Mathlib.TextPositions.{starts_with-append, len-append, slice-append_right}
use Prim.Native.String
use iron_vault.Prelude.{
  Bool, Option, String, ap, false, if◌then◌else◌, leb, ltb, none, refl, some, true, ℕ, ◌&&◌, ◌*◌,
  ◌+◌, ◌-◌, ◌==◌, ◌^◌, ◌≡◌,
}

-- `strip_prefix`
unfoldable pub strip_prefix : String → String → Option String
strip_prefix s p = if starts_with s p then some (slice s (len p) (len s)) else none

-- `ends_with`: the last bytes are those of `t`.
unfoldable pub ends_with : String → String → Bool
ends_with s t = leb (len t) (len s) && matches (get? s (len s - len t) (len s))
  where
    matches : Option String → Bool
    matches none = false
    matches (some u) = Text.◌==◌ u t

-- `strip_suffix`
unfoldable pub strip_suffix : String → String → Option String
strip_suffix s t = if ends_with s t then some (slice s 0 (len s - len t)) else none

-- `contains`
unfoldable pub contains : String → String → Bool
contains s t = leb (find s t) (len s)

-- `split_once`
unfoldable pub split_once : String → String → Option (String × String)
split_once s t =
    if leb (find s t) (len s)
    then some (slice s 0 (find s t), slice s (find s t + len t) (len s))
    else none

digit : Char → Option ℕ
digit c = if leb 48 (code c) && leb (code c) 57 then some (code c - 48) else none

shift_in : ℕ → Option ℕ → Option ℕ
shift_in n none = none
shift_in n (some d) = if ltb (n * 10 + d) (2 ^ 32) then some (n * 10 + d) else none

digits_from : Option ℕ → String → Option ℕ
digits_from n String.[] = n
digits_from none (String.◌∷◌ c s) = none
digits_from (some n) (String.◌∷◌ c s) = digits_from (shift_in n (digit c)) s

-- `str::parse::<u32>`: an optional plus sign, then digits, within 32 bits.
unfoldable pub parse_u32 : String → Option ℕ
unfolding digits_from shift_in digit
parse_u32 String.[] = none
parse_u32 (String.◌∷◌ c String.[]) = digits_from (some 0) (String.◌∷◌ c String.[])
parse_u32 (String.◌∷◌ c (String.◌∷◌ d s)) =
    digits_from (some 0) (if code c == 43 then String.◌∷◌ d s else String.◌∷◌ c (String.◌∷◌ d s))

parses :
    (parse_u32 "12" ≡ some 12)
    × (parse_u32 "+7" ≡ some 7)
    × (parse_u32 "+" ≡ none)
    × (parse_u32 "" ≡ none)
    × (parse_u32 "4294967296" ≡ none)
unfolding parse_u32
parses = (refl, refl, refl, refl, refl)

splits : split_once "ab invoke [2]" " invoke [" ≡ some ("ab", "2]")
unfolding split_once
splits = refl

ends : (ends_with "Program x success" " success" ≡ true) × (ends_with "a" " success" ≡ false)
unfolding ends_with
ends = (refl, refl)

strips : strip_prefix "Program data: AA" "Program data: " ≡ some "AA"
unfolding strip_prefix
strips = refl

pub strip_prefix-append : (p s : String) → strip_prefix (String.◌++◌ p s) p ≡ some s
unfolding strip_prefix
strip_prefix-append p s =
    rw (starts_with-append p s) (rw (len-append p s) (ap some (slice-append_right p s)))
