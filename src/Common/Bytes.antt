-- ===== src/Common/Bytes.antt =====
-- Machine words as they lie in memory, and C strings.
--
-- An `n`-byte word is its bit pattern, a number below 256 ^ n, with the lowest byte first. A C string
-- is the list of its bytes before the terminating NUL.
use Prim.Native.Nat.{ℕ, zero, suc, ◌+◌, ◌*◌, ◌/◌, ◌%◌, ◌^◌, ◌<◌, min}
use mathlib.Core.Path.{◌≡◌, refl, ap}
use mathlib.Core.List.{List, [], ◌∷◌}
use native.Mathlib.Nat.{pow-suc}
use native.Mathlib.Omega.{arith}
use libvoyeur.Common.Lists.{length, All}
use libvoyeur.Common.Tests.{◌==◌, if◌then◌else◌}

unfoldable pub word_bytes : ℕ → ℕ → List ℕ
word_bytes zero v = []
word_bytes (suc n) v = (v % 256) ∷ word_bytes n (v / 256)

unfoldable pub of_bytes : List ℕ → ℕ
of_bytes [] = 0
of_bytes (b ∷ bs) = b + 256 * of_bytes bs

pub length-word_bytes : (n v : ℕ) → length (word_bytes n v) ≡ n
unfolding word_bytes
length-word_bytes zero v = refl
length-word_bytes (suc n) v = ap suc (length-word_bytes n (v / 256))

pub of_bytes-word_bytes : (n v : ℕ) → v < 256 ^ n → of_bytes (word_bytes n v) ≡ v
unfolding word_bytes of_bytes
of_bytes-word_bytes zero v h = omega arith
of_bytes-word_bytes (suc n) v h =
    omega (arith, of_bytes-word_bytes n (v / 256) (omega (arith, pow-suc 256 n)))

-- `strnlen`: the bytes before the first NUL, `max` at most.
unfoldable pub strnlen : List ℕ → ℕ → ℕ
strnlen s zero = 0
strnlen [] (suc max) = 0
strnlen (c ∷ s) (suc max) = if c == 0 then 0 else suc (strnlen s max)

-- No byte of the string is NUL.
abbrev pub IsCstr : List ℕ → Type 0
IsCstr = All (λ c. (0 < c) × (c < 256))

pub strnlen-min : (s : List ℕ) (max : ℕ) → IsCstr s → strnlen s max ≡ min max (length s)
unfolding strnlen
strnlen-min s zero h = omega arith
strnlen-min [] (suc max) h = omega arith
strnlen-min (c ∷ s) (suc max) h = ground (arith, strnlen-min s max)
