-- ===== src/Options.antt =====
-- env.c: `voyeur_encode_options` and `voyeur_decode_options`, which carry the observation options of
-- each event type in one character of an environment variable.
use libvoyeur.Common.{
  ℕ, zero, suc, ◌%◌, ◌≤◌, ◌<◌, ◌≡◌, refl, Bool, true, ◌&&◌, not, Option, none, some, List, [], ◌∷◌,
  ◌++◌, map, arith, length, get_or, All, ltb, ◌==◌, ==_iff, bit_and, bit_or, if◌then◌else◌,
}
use libvoyeur.Common.Bytes.{strnlen}

-- The options that voyeur.h and event.h define.
abbrev pub observe_exec_cwd : ℕ
observe_exec_cwd = 1

abbrev pub observe_exec_env : ℕ
observe_exec_env = 2

abbrev pub observe_exec_path : ℕ
observe_exec_path = 4

abbrev pub observe_exec_noaccess : ℕ
observe_exec_noaccess = 8

abbrev pub observe_exec_silent : ℕ
observe_exec_silent = 16

abbrev pub observe_open_cwd : ℕ
observe_open_cwd = 1

-- `opts & mask` as a condition.
unfoldable pub has_flag : ℕ → ℕ → Bool
has_flag opts mask = not (bit_and opts mask == 0)

-- `'@' | ((char) opts & 0x1F)`
unfoldable pub voyeur_encode_options : ℕ → ℕ
voyeur_encode_options opts = bit_or b'@' (bit_and opts 0x1f)

-- The character at `offset` is read from the string with its NUL.
unfoldable pub voyeur_decode_options : Option (List ℕ) → ℕ → ℕ
voyeur_decode_options none offset = 0
voyeur_decode_options (some opts) offset =
    if ltb (strnlen opts 8) offset then 0 else bit_and (get_or (opts ++ (0 ∷ [])) offset 0) 0x1f

-- Whether a test answers true for each number in front of a bound.
every : (ℕ → Bool) → ℕ → Bool
every test zero = true
every test (suc bound) = every test bound && test bound

every-at : (test : ℕ → Bool) (bound o : ℕ) → o < bound → every test bound ≡ true → test o ≡ true
unfolding every
every-at test zero o small all = absurd (omega arith)
every-at test (suc bound) o small all = ground (arith, every-at test bound o)

decoded_table : every (λ o. bit_and (voyeur_encode_options o) 0x1f == o % 32) 256 ≡ true
unfolding every voyeur_encode_options
decoded_table = refl

printable_table :
    every (λ o. ltb 63 (voyeur_encode_options o) && ltb (voyeur_encode_options o) 96) 256 ≡ true
unfolding every voyeur_encode_options
printable_table = refl

decoded : (o : ℕ) → o < 256 → bit_and (voyeur_encode_options o) 0x1f ≡ o % 32
decoded o h = (==_iff _ _).0 (every-at _ 256 o h decoded_table)

-- The character for a byte of options is printable: it lies from 64 to 95.
pub encode_printable :
    (o : ℕ) → o < 256 → (64 ≤ voyeur_encode_options o) × (voyeur_encode_options o < 96)
encode_printable o h = ground (arith, every-at _ 256 o h printable_table)

-- The flags 1, 2 and 4 survive the reduction to five bits.
flags_table :
    every
      (λ o.
        (bit_and (o % 32) 1 == bit_and o 1)
        && (bit_and (o % 32) 2 == bit_and o 2)
        && (bit_and (o % 32) 4 == bit_and o 4))
      256
    ≡ true
unfolding every
flags_table = refl

pub has_flag-mod :
    (o : ℕ)
    → o < 256
    → (has_flag (o % 32) observe_exec_cwd ≡ has_flag o observe_exec_cwd)
      × (has_flag (o % 32) observe_exec_env ≡ has_flag o observe_exec_env)
      × (has_flag (o % 32) observe_exec_path ≡ has_flag o observe_exec_path)
unfolding has_flag
has_flag-mod o h = ground (arith, every-at _ 256 o h flags_table)

strnlen-encoded :
    (os : List ℕ) (max : ℕ)
    → All (λ o. o < 256) os
    → length os ≤ max
    → strnlen (map voyeur_encode_options os) max ≡ length os
unfolding strnlen
strnlen-encoded [] zero h le = refl
strnlen-encoded [] (suc max) h le = refl
strnlen-encoded (o ∷ os) zero h le = absurd (omega arith)
strnlen-encoded (o ∷ os) (suc max) (ho, hos) le =
    ground (arith, encode_printable o ho, strnlen-encoded os max hos)

get_or-encoded :
    (os : List ℕ) (i : ℕ)
    → All (λ o. o < 256) os
    → i < length os
    → bit_and (get_or (map voyeur_encode_options os ++ (0 ∷ [])) i 0) 0x1f ≡ get_or os i 0 % 32
get_or-encoded [] i h lt = absurd (omega arith)
get_or-encoded (o ∷ os) zero (ho, hos) lt = decoded o ho
get_or-encoded (o ∷ os) (suc i) (ho, hos) lt = get_or-encoded os i hos (omega arith)

-- Of up to eight encoded bytes of options, `voyeur_decode_options` gives the low five bits of each
-- at its offset.
pub decode-encode :
    (os : List ℕ) (i : ℕ)
    → All (λ o. o < 256) os
    → length os ≤ 8
    → i < length os
    → voyeur_decode_options (some (map voyeur_encode_options os)) i ≡ get_or os i 0 % 32
unfolding voyeur_decode_options
decode-encode os i h short lt =
    ground (arith, strnlen-encoded os 8 h short, get_or-encoded os i h lt)
