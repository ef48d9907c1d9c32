-- ===== src/Memory/Blocks.antt =====
-- Distinct blocks that are allocated, and what the allocator does with them.
use libvoyeur.Common.{
  ℕ, suc, ◌+◌, ◌-◌, ◌<◌, ◌≡◌, ◌≢◌, refl, sym, true, false, some, List, [], ◌∷◌, ◌++◌, arith, length,
  All, ◌==◌, if◌then◌else◌, length-append,
}
use libvoyeur.Memory.{Heap, alloc, free}

module _ (P : ℕ → Type 0) where
  All_at : (pre : List ℕ) (b : ℕ) (xs : List ℕ) → All P (pre ++ (b ∷ xs)) → P b
  All_at [] b xs h = h.0
  All_at (p ∷ pre) b xs h = All_at pre b xs h.1

  All-drop : (pre : List ℕ) (b : ℕ) (xs : List ℕ) → All P (pre ++ (b ∷ xs)) → All P (pre ++ xs)
  All-drop [] b xs h = h.1
  All-drop (p ∷ pre) b xs h = (h.0, All-drop pre b xs h.1)

  All-move :
      (pre : List ℕ) (b : ℕ) (xs : List ℕ) → P b → All P (pre ++ xs) → All P (pre ++ (b ∷ xs))
  All-move [] b xs h k = (h, k)
  All-move (p ∷ pre) b xs h k = (k.0, All-move pre b xs h k.1)

  All-both :
      (Q R : ℕ → Type 0) (xs : List ℕ)
      → ((x : ℕ) → P x → Q x → R x)
      → All P xs
      → All Q xs
      → All R xs
  All-both Q R [] f h k = tt
  All-both Q R (x ∷ xs) f h k = (f x h.0 k.0, All-both Q R xs f h.1 k.1)

abbrev Distinct : List ℕ → Type 0
Distinct [] = Unit {0}
Distinct (b ∷ xs) = All (λ c. b ≢ c) xs × Distinct xs

Distinct-drop :
    (pre : List ℕ) (b : ℕ) (xs : List ℕ) → Distinct (pre ++ (b ∷ xs)) → Distinct (pre ++ xs)
Distinct-drop [] b xs d = d.1
Distinct-drop (p ∷ pre) b xs d = (All-drop (λ c. p ≢ c) pre b xs d.0, Distinct-drop pre b xs d.1)

Distinct-apart :
    (pre : List ℕ) (b : ℕ) (xs : List ℕ) → Distinct (pre ++ (b ∷ xs)) → All (λ c. b ≢ c) (pre ++ xs)
Distinct-apart [] b xs d = d.0
Distinct-apart (p ∷ pre) b xs d =
    ((λ e. All_at (λ c. p ≢ c) pre b xs d.0 (sym e)), Distinct-apart pre b xs d.1)

Distinct-move :
    (pre : List ℕ) (b : ℕ) (xs : List ℕ)
    → All (λ c. b ≢ c) (pre ++ xs)
    → Distinct (pre ++ xs)
    → Distinct (pre ++ (b ∷ xs))
Distinct-move [] b xs a d = (a, d)
Distinct-move (p ∷ pre) b xs a d =
    (All-move (λ c. p ≢ c) pre b xs (λ e. a.0 (sym e)) d.0, Distinct-move pre b xs a.1 d.1)

abbrev IsLive : Heap → ℕ → Type 0
IsLive heap b = (heap.live b ≡ true) × (b < heap.next)

-- The blocks are allocated and distinct, and so many others are allocated.
pub record Holds (others : ℕ) (heap : Heap) (owned : List ℕ) : Type 0 where
  pub are_live : All (IsLive heap) owned
  pub are_distinct : Distinct owned
  pub counted : heap.blocks ≡ others + length owned

fresh : (heap : Heap) (xs : List ℕ) → All (IsLive heap) xs → All (λ c. heap.next ≢ c) xs
fresh heap [] h = tt
fresh heap (x ∷ xs) h = ((λ e. omega (arith, h.0.1)), fresh heap xs h.1)

pub Holds-alloc :
    {others : ℕ} {heap : Heap} {owned : List ℕ}
    → Holds others heap owned
    → (b : ℕ) × (after : Heap) × (alloc heap ≡ some (b, after)) × Holds others after (b ∷ owned)
unfolding alloc
Holds-alloc {others} {heap} {owned} h =
    let after : Heap = record {
      next = suc heap.next;
      live = λ n. if n == heap.next then true else heap.live n;
      blocks = suc heap.blocks;
    } in
    (
      heap.next,
      after,
      refl,
      record {
        are_live = (
          (ground arith, omega arith),
          All-both (IsLive heap) (IsLive heap) (IsLive after) owned
              (λ x k _. (ground (arith, k.0), omega (arith, k.1))) h.are_live h.are_live,
        );
        are_distinct = (fresh heap owned h.are_live, h.are_distinct);
        counted = omega (arith, h.counted);
      },
    )

length-middle :
    (pre : List ℕ) (b : ℕ) (xs : List ℕ) → length (pre ++ (b ∷ xs)) ≡ suc (length (pre ++ xs))
length-middle pre b xs = omega (arith, length-append pre (b ∷ xs), length-append pre xs)

-- One of the blocks is freed.
pub Holds-free :
    {others : ℕ} {heap : Heap} (pre : List ℕ) (b : ℕ) (xs : List ℕ)
    → Holds others heap (pre ++ (b ∷ xs))
    → (after : Heap) × (free b heap ≡ some (tt, after)) × Holds others after (pre ++ xs)
unfolding free
Holds-free {others} {heap} pre b xs h =
    let after : Heap = record heap {
      live = λ n. if n == b then false else heap.live n;
      blocks = heap.blocks - 1;
    } in
    (
      after,
      rw ((All_at (IsLive heap) pre b xs h.are_live).0, free) refl,
      record {
        are_live =
            All-both (λ c. b ≢ c) (IsLive heap) (IsLive after) (pre ++ xs)
              (λ x apart k. (ground (arith, k.0, apart), k.1))
              (Distinct-apart pre b xs h.are_distinct) (All-drop (IsLive heap) pre b xs h.are_live);
        are_distinct = Distinct-drop pre b xs h.are_distinct;
        counted = omega (arith, h.counted, length-middle pre b xs);
      },
    )

-- One of the blocks is forgotten.
pub Holds-lose :
    {others : ℕ} {heap : Heap} (pre : List ℕ) (b : ℕ) (xs : List ℕ)
    → Holds others heap (pre ++ (b ∷ xs))
    → Holds (suc others) heap (pre ++ xs)
Holds-lose {others} {heap} pre b xs h = record {
  are_live = All-drop (IsLive heap) pre b xs h.are_live;
  are_distinct = Distinct-drop pre b xs h.are_distinct;
  counted = omega (arith, h.counted, length-middle pre b xs);
}

-- The first of the blocks is counted as a later one.
pub Holds-move :
    {others : ℕ} {heap : Heap} (pre : List ℕ) (b : ℕ) (xs : List ℕ)
    → Holds others heap (b ∷ (pre ++ xs))
    → Holds others heap (pre ++ (b ∷ xs))
Holds-move {others} {heap} pre b xs h = record {
  are_live = All-move (IsLive heap) pre b xs h.are_live.0 h.are_live.1;
  are_distinct = Distinct-move pre b xs h.are_distinct.0 h.are_distinct.1;
  counted = omega (arith, h.counted, length-middle pre b xs);
}
