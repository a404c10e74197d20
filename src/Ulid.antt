-- ===== src/Ulid.antt =====
-- include/dev_sys/common/types.h, `UlidGenerator`: the time in milliseconds since the epoch and the ten
-- random bytes are arguments.
pub mod Order
use Prim.Native.Char.{Char}
use iot_dev_sys.Common.{
  ℕ, zero, suc, ◌+◌, ◌*◌, ◌-◌, ◌/◌, ◌%◌, ◌^◌, String, List, [], ◌∷◌, if◌then◌else◌, ltb,
}
use iot_dev_sys.Common.Text.{append}

abbrev pub crockford : String
crockford = "0123456789ABCDEFGHJKMNPQRSTVWXYZ"

-- `s[n]`; no index of this module is past the end.
unfoldable pub char_at : ℕ → String → Char
char_at n String.[] = "0"
char_at zero (String.◌∷◌ c s) = c
char_at (suc n) (String.◌∷◌ c s) = char_at n s

-- `v >> (5 * k)` divides by this.
unfoldable pub place : ℕ → ℕ
place zero = 1
place (suc k) = place k * 32

-- The last `k` characters of the loop.
unfoldable pub time_from : ℕ → ℕ → String
unfolding char_at place
time_from zero v = ""
time_from (suc k) v = String.◌∷◌ (char_at (v / place k % 32) crockford) (time_from k v)

unfoldable pub encode_time : ℕ → String
encode_time ms = time_from 10 (ms % 2 ^ 48)

unfoldable pub byte : ℕ → List ℕ → ℕ
byte n [] = 0
byte zero (b ∷ bs) = b
byte (suc n) (b ∷ bs) = byte n bs

-- `(r[byte_off] << 8) | r[byte_off + 1]`, where a byte is below 256.
abbrev pub word : ℕ → List ℕ → ℕ
word byte_off r =
    byte byte_off r * 256 + (if ltb (byte_off + 1) 10 then byte (byte_off + 1) r else 0)

abbrev pub random_char : ℕ → List ℕ → Char
random_char bit_off r = char_at (word (bit_off / 8) r / 2 ^ (11 - bit_off % 8) % 32) crockford

-- The last `k` of the 16 characters.
unfoldable pub random_from : ℕ → List ℕ → String
unfolding char_at byte
random_from zero r = ""
random_from (suc k) r = String.◌∷◌ (random_char ((16 - suc k) * 5) r) (random_from k r)

unfoldable pub encode_random : List ℕ → String
encode_random r = random_from 16 r

unfoldable pub generate : ℕ → List ℕ → String
generate ms rand_bytes = append (encode_time ms) (encode_random rand_bytes)
