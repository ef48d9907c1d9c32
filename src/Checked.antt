-- ===== src/Checked.antt =====
-- util.h: `RETURN_ON_FAIL`. A call that fails makes the function around it return at once; here both
-- answer `none`. The message that `perror` prints is left out.
use libvoyeur.Common.{
  ◌≡◌, Option, none, some, List, [], ◌++◌, ℕ, M, pure, ◌>>=◌ as bind, append-nil,
}
use libvoyeur.Kernel.{Kernel, View}
use libvoyeur.Net.Stream.{Reads, Reads->>=, Reads-pure}

abbrev pub or_return : {S A B : Type 0} → (A → M S (Option B)) → Option A → M S (Option B)
or_return f none = pure none
or_return f (some a) = f a

infixl 5 ◌>>=◌
abbrev pub ◌>>=◌ : {S A B : Type 0} → M S (Option A) → (A → M S (Option B)) → M S (Option B)
m >>= f = bind m (or_return f)

module _ {K : Kernel} (V : View K) (fuel fd : ℕ) {A B : Type 0} where
  pub Reads-then :
      {xs ys : List ℕ} {a : A} {b : Option B} (m : M K.State (Option A))
      (f : A → M K.State (Option B))
      → Reads V fuel fd xs (some a) m
      → Reads V fuel fd ys b (f a)
      → Reads V fuel fd (xs ++ ys) b (m >>= f)
  Reads-then m f p q = Reads->>= V fuel fd m (or_return f) p q

  pub Reads-then_pure :
      {xs : List ℕ} {a : A} (b : Option B) (m : M K.State (Option A)) (f : A → M K.State (Option B))
      → Reads V fuel fd xs (some a) m
      → f a ≡ pure b
      → Reads V fuel fd xs b (m >>= f)
  Reads-then_pure {a} b m f p e =
      let last : Reads V fuel fd [] b (f a) = rw e (Reads-pure V fuel fd b) in
      rw append-nil at (Reads-then m f p last)
