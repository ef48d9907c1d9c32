-- ===== src/Common/Monad.antt =====
-- Code that runs over the state of the operating system. `none` is a loop that has used up its
-- fuel, a null pointer that is read, or memory outside an array that is written.
use mathlib.Core.Path.{◌≡◌, refl}
use mathlib.Core.Option.{Option, none, some}

abbrev pub M : Type 0 → Type 0 → Type 0
M S A = S → Option (A × S)

abbrev pub pure : {S A : Type 0} → A → M S A
pure a s = some (a, s)

-- A call that always returns.
abbrev pub call : {S A : Type 0} → (S → A × S) → M S A
call f s = some (f s)

infixl 5 ◌>>=◌ ◌>>◌
abbrev pub ◌>>=◌ : {S A B : Type 0} → M S A → (A → M S B) → M S B
◌>>=◌ m f s = elim (m s) [ none ↦ none | some (a, s') ↦ f a s' ]

-- The result of `m` is discarded, as by a C statement that ignores a return value.
abbrev pub ◌>>◌ : {S A B : Type 0} → M S A → M S B → M S B
m >> k = m >>= λ _. k

pub >>=-some :
    {S A B : Type 0} (m : M S A) (f : A → M S B) (s : S) {a : A} {t : S}
    → m s ≡ some (a, t)
    → (m >>= f) s ≡ f a t
>>=-some m f s e = rw (e, ◌>>=◌)

run_cases :
    {S A B : Type 0} (f : A → M S B) (o : Option (A × S)) {r : B × S}
    → elim o [ none ↦ none | some (a, s') ↦ f a s' ] ≡ some r
    → (a : A) × (t : S) × (o ≡ some (a, t)) × (f a t ≡ some r)
run_cases f none e = cc
run_cases f (some (a, t)) e = (a, t, refl, e)

-- A run that gives a result has run both parts.
pub >>=-eq-some :
    {S A B : Type 0} (m : M S A) (f : A → M S B) (s : S) {r : B × S}
    → (m >>= f) s ≡ some r
    → (a : A) × (t : S) × (m s ≡ some (a, t)) × (f a t ≡ some r)
>>=-eq-some m f s e = run_cases f (m s) e
