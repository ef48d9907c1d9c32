-- ===== src/Text.antt =====
-- The functions of string.h that the code uses, on C strings: `strlcpy` and `strlcat` into a buffer
-- that starts empty, prefix tests, and the search for a substring.
use Prim.Native.Char.{code}
use Prim.Native.String.{String}
use libvoyeur.Common.{
  ℕ, zero, suc, ◌+◌, ◌-◌, ◌≤◌, ◌<◌, ◌≡◌, refl, Bool, true, false, ◌||◌, Option, none, some, List,
  [], ◌∷◌, ◌++◌, arith, length, take, take-all, length-append, ltb, ◌==◌, if◌then◌else◌,
}

-- The bytes of an ASCII text.
abbrev pub codes : String → List ℕ
codes String.[] = []
codes (String.◌∷◌ c s) = code c ∷ codes s

-- `strlcpy(dst, src, size)`: what the buffer then holds.
unfoldable pub strlcpy : ℕ → List ℕ → List ℕ
strlcpy size src = take (size - 1) src

-- `strlcat(dst, src, size)`: a string that fills the buffer already is left alone.
unfoldable pub strlcat : ℕ → List ℕ → List ℕ → List ℕ
strlcat size dst src = if ltb (length dst) size then take (size - 1) (dst ++ src) else dst

-- The string behind a prefix that it begins with, as a test by `strncmp` finds it.
unfoldable pub strip_prefix : List ℕ → List ℕ → Option (List ℕ)
strip_prefix [] s = some s
strip_prefix (p ∷ ps) [] = none
strip_prefix (p ∷ ps) (c ∷ s) = if p == c then strip_prefix ps s else none

unfoldable pub starts_with : List ℕ → List ℕ → Bool
starts_with [] s = true
starts_with (p ∷ ps) [] = false
starts_with (p ∷ ps) (c ∷ s) = if p == c then starts_with ps s else false

-- Whether the second string occurs in the first.
unfoldable pub occurs : List ℕ → List ℕ → Bool
unfolding starts_with
occurs [] little = starts_with little []
occurs (c ∷ big) little = starts_with little (c ∷ big) || occurs big little

-- `strnstr(big, little, len)` as a condition.
unfoldable pub strnstr : List ℕ → List ℕ → ℕ → Bool
unfolding occurs
strnstr big little len = occurs (take len big) little

pub strlcpy_fits : (size : ℕ) (src : List ℕ) → length src < size → strlcpy size src ≡ src
unfolding strlcpy
strlcpy_fits size src h = take-all (size - 1) src (omega arith)

pub strlcat_fits :
    (size : ℕ) (dst src : List ℕ)
    → length dst + length src < size
    → strlcat size dst src ≡ dst ++ src
unfolding strlcat
strlcat_fits size dst src h =
    ground (arith, take-all (size - 1) (dst ++ src), length-append dst src)

pub strip_prefix-append : (p s : List ℕ) → strip_prefix p (p ++ s) ≡ some s
unfolding strip_prefix
strip_prefix-append [] s = refl
strip_prefix-append (c ∷ p) s = ground (arith, strip_prefix-append p s)

pub starts_with-append : (p s : List ℕ) → starts_with p (p ++ s) ≡ true
unfolding starts_with
starts_with-append [] s = refl
starts_with-append (c ∷ p) s = ground (arith, starts_with-append p s)

-- A string begins with what was found in it, and occurs in what it is a part of.
pub occurs-front : (little s : List ℕ) → occurs (little ++ s) little ≡ true
unfolding occurs
occurs-front [] [] = refl
occurs-front [] (c ∷ s) = refl
occurs-front (c ∷ little) s = ground (arith, starts_with-append (c ∷ little) s)

pub starts_with-strip_prefix :
    (p s : List ℕ) {v : List ℕ} → strip_prefix p s ≡ some v → starts_with p s ≡ true
unfolding strip_prefix starts_with
starts_with-strip_prefix [] s e = refl
starts_with-strip_prefix (c ∷ p) [] e = cc
starts_with-strip_prefix (c ∷ p) (d ∷ s) {v} e =
    ground (arith, starts_with-strip_prefix p s {v = v})

pub strip_prefix-eq-none : (p s : List ℕ) → starts_with p s ≡ false → strip_prefix p s ≡ none
unfolding strip_prefix starts_with
strip_prefix-eq-none [] s e = cc
strip_prefix-eq-none (c ∷ p) [] e = refl
strip_prefix-eq-none (c ∷ p) (d ∷ s) e = ground (arith, strip_prefix-eq-none p s)

-- A prefix survives a cut behind it, and what is put behind the string.
pub starts_with-take :
    (p s : List ℕ) (n : ℕ) → length p ≤ n → starts_with p s ≡ true → starts_with p (take n s) ≡ true
unfolding starts_with
starts_with-take [] s n h e = refl
starts_with-take (c ∷ p) s zero h e = absurd (omega arith)
starts_with-take (c ∷ p) [] (suc n) h e = cc
starts_with-take (c ∷ p) (d ∷ s) (suc n) h e = ground (arith, starts_with-take p s n)

pub starts_with-append_right :
    (p s t : List ℕ) → starts_with p s ≡ true → starts_with p (s ++ t) ≡ true
unfolding starts_with
starts_with-append_right [] s t e = refl
starts_with-append_right (c ∷ p) [] t e = cc
starts_with-append_right (c ∷ p) (d ∷ s) t e = ground (arith, starts_with-append_right p s t)

pub starts_with-strlcat :
    (size : ℕ) (p dst src : List ℕ)
    → length p < size
    → starts_with p dst ≡ true
    → starts_with p (strlcat size dst src) ≡ true
unfolding strlcat
starts_with-strlcat size p dst src h e =
    ground (arith, starts_with-take p (dst ++ src) (size - 1), starts_with-append_right p dst src)
