-- ===== src/Memory/Owned.antt =====
-- The blocks that a context points to: a new path, and the end of the context.
use libvoyeur.Common.{
  ℕ, ◌+◌, ◌≡◌, refl, Option, none, some, List, [], ◌∷◌, ◌++◌, arith, ◌>>=◌, length,
}
use libvoyeur.Memory.{Heap, free_opt, Owner, set_path, destroy}
use libvoyeur.Memory.Blocks.{Holds, Holds-alloc, Holds-free, Holds-lose, Holds-move}

abbrev pub opt : Option ℕ → List ℕ
opt none = []
opt (some block) = block ∷ []

-- The blocks that a context points to.
abbrev pub owned : Owner → List ℕ
owned owner =
    opt owner.env_buf
    ++ (opt owner.server_state ++ (opt owner.resource_path ++ (owner.context ∷ [])))

-- There is no buffer without a server's state.
abbrev pub HasShape : Option ℕ → Option ℕ → Type 0
HasShape none none = Unit {0}
HasShape none (some buf) = ⊥
HasShape (some state) env_buf = Unit {0}

abbrev pub Owns : ℕ → Heap → Owner → Type 0
Owns others heap owner = Holds others heap (owned owner) × HasShape owner.server_state owner.env_buf

Holds-free_opt :
    {others : ℕ} {heap : Heap} (pre : List ℕ) (o : Option ℕ) (xs : List ℕ)
    → Holds others heap (pre ++ (opt o ++ xs))
    → (after : Heap) × (free_opt o heap ≡ some (tt, after)) × Holds others after (pre ++ xs)
unfolding free_opt
Holds-free_opt {heap = heap} pre none xs h = (heap, refl, h)
Holds-free_opt pre (some block) xs h = Holds-free pre block xs h

pub Holds-count :
    {others others' : ℕ} {heap : Heap} {xs : List ℕ}
    → others ≡ others'
    → Holds others heap xs
    → Holds others' heap xs
Holds-count e h = rw e at h

pub Holds-lose_opt :
    {others : ℕ} {heap : Heap} (pre : List ℕ) (o : Option ℕ) (xs : List ℕ)
    → Holds others heap (pre ++ (opt o ++ xs))
    → Holds (length (opt o) + others) heap (pre ++ xs)
Holds-lose_opt pre none xs h = Holds-count (omega arith) h
Holds-lose_opt pre (some block) xs h = Holds-count (omega arith) (Holds-lose pre block xs h)

-- Everything that a context points to is freed with it, once.
pub destroy_lem :
    {others : ℕ} {heap : Heap} (context : ℕ) (path state buf : Option ℕ)
    → Owns others heap
        (record { context = context; resource_path = path; server_state = state; env_buf = buf })
    → (after : Heap) × (destroy
          (record { context = context; resource_path = path; server_state = state; env_buf = buf })
          heap
        ≡ some (tt, after))
      × Holds others after []
unfolding destroy free_opt Holds-free_opt
destroy_lem context path none none (h, _) =
    let (h1, e1, k1) = Holds-free_opt [] path (context ∷ []) h in
    let (h2, e2, k2) = Holds-free [] context [] k1 in (h2, rw (e1, ◌>>=◌) e2, k2)
destroy_lem context path none (some buf) (h, shape) = absurd shape
destroy_lem context path (some state) none (h, _) =
    let (h1, e1, k1) = Holds-free_opt (state ∷ []) path (context ∷ []) h in
    let (h2, e2, k2) = Holds-free [] state (context ∷ []) k1 in
    let (h3, e3, k3) = Holds-free [] context [] k2 in
    (h3, rw (e1, ◌>>=◌) (rw (e2, ◌>>=◌, free_opt) e3), k3)
destroy_lem context path (some state) (some buf) (h, _) =
    let (h1, e1, k1) = Holds-free_opt (buf ∷ state ∷ []) path (context ∷ []) h in
    let (h2, e2, k2) = Holds-free [] buf (state ∷ context ∷ []) k1 in
    let (h3, e3, k3) = Holds-free [] state (context ∷ []) k2 in
    let (h4, e4, k4) = Holds-free [] context [] k3 in
    (h4, rw (e1, ◌>>=◌) (rw (e2, ◌>>=◌, free_opt) (rw (e3, ◌>>=◌) e4)), k4)

pub set_path_lem :
    {others : ℕ} {heap : Heap} (context : ℕ) (path state buf : Option ℕ)
    → Owns others heap
        (record { context = context; resource_path = path; server_state = state; env_buf = buf })
    → (new : ℕ) × (after : Heap) × (set_path
          (record { context = context; resource_path = path; server_state = state; env_buf = buf })
          heap
        ≡ some (
          record {
            context = context;
            resource_path = some new;
            server_state = state;
            env_buf = buf;
          },
          after,
        ))
      × Owns (length (opt path) + others) after (record {
        context = context;
        resource_path = some new;
        server_state = state;
        env_buf = buf;
      })
unfolding set_path
set_path_lem context path none none (h, shape) =
    let (new, h1, e1, k1) = Holds-alloc h in
    (new, h1, rw (e1, ◌>>=◌), (Holds-lose_opt (new ∷ []) path (context ∷ []) k1, shape))
set_path_lem context path none (some buf) (h, shape) = absurd shape
set_path_lem context path (some state) none (h, shape) =
    let (new, h1, e1, k1) = Holds-alloc h in
    let k2 = Holds-move (state ∷ []) new (opt path ++ (context ∷ [])) k1 in
    (new, h1, rw (e1, ◌>>=◌), (Holds-lose_opt (state ∷ new ∷ []) path (context ∷ []) k2, shape))
set_path_lem context path (some state) (some buf) (h, shape) =
    let (new, h1, e1, k1) = Holds-alloc h in
    let k2 = Holds-move (buf ∷ state ∷ []) new (opt path ++ (context ∷ [])) k1 in
    (
      new,
      h1,
      rw (e1, ◌>>=◌),
      (Holds-lose_opt (buf ∷ state ∷ new ∷ []) path (context ∷ []) k2, shape),
    )
