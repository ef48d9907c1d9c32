-- ===== src/Memory/Prepared.antt =====
-- What `voyeur_prepare` and `voyeur_exec` do with the blocks of a context.
use libvoyeur.Common.{
  ℕ, ◌+◌, ◌≡◌, refl, Bool, true, false, Option, none, some, List, [], ◌∷◌, ◌++◌, arith, ◌>>=◌,
  length,
}
use libvoyeur.Memory.{
  Heap, Owner, requested_libs_memory, prepare, exec_prepared, free_prepared, free_opt,
}
use libvoyeur.Memory.Blocks.{Holds, Holds-alloc, Holds-free, Holds-lose}
use libvoyeur.Memory.Owned.{opt, owned, Owns, Holds-count, Holds-lose_opt}

requested_libs_lem :
    {others : ℕ} {heap : Heap} {xs : List ℕ} (found : Bool) (path : Option ℕ)
    → Holds others heap xs
    → (libs : ℕ) × (after : Heap) × (requested_libs_memory found path heap ≡ some (libs, after))
      × Holds others after (libs ∷ xs)
unfolding requested_libs_memory
requested_libs_lem found (some path) h = Holds-alloc h
requested_libs_lem false none h = Holds-alloc h
requested_libs_lem {xs = xs} true none h =
    let (libdir, h1, e1, k1) = Holds-alloc h in
    let (libs, h2, e2, k2) = Holds-alloc k1 in
    let (h3, e3, k3) = Holds-free (libs ∷ []) libdir xs k2 in
    (libs, h3, rw (e1, ◌>>=◌) (rw (e2, ◌>>=◌) (rw (e3, ◌>>=◌) refl)), k3)

-- The blocks for the server of a context, besides its path.
abbrev pub server_blocks : Owner → ℕ
server_blocks owner = length (opt owner.env_buf) + length (opt owner.server_state)

-- What a context that was prepared points to, and its environment; the strings with the libraries and the
-- options are forgotten, and so is the server that it had.
pub prepare-true :
    {others : ℕ} {heap : Heap} (found : Bool) (owner : Owner)
    → Owns others heap owner
    → (envp : ℕ) × (state : ℕ) × (buf : ℕ) × (after : Heap) × (prepare found true owner heap
        ≡ some ((some envp, record owner { server_state = some state; env_buf = some buf }), after))
      × Holds
          (server_blocks owner + 2 + others)
          after
          (envp ∷ owned (record owner { server_state = some state; env_buf = some buf }))
unfolding prepare
prepare-true found owner (h, shape) =
    let rest = opt owner.resource_path ++ (owner.context ∷ []) in
    let (state, h1, e1, k1) = Holds-alloc h in
    let (libs, h2, e2, k2) = requested_libs_lem found owner.resource_path k1 in
    let (opts, h3, e3, k3) = Holds-alloc k2 in
    let (buf, h4, e4, k4) = Holds-alloc k3 in
    let (envp, h5, e5, k5) = Holds-alloc k4 in
    let k6 = Holds-lose (envp ∷ buf ∷ []) opts (libs ∷ state ∷ owned owner) k5 in
    let k7 = Holds-lose (envp ∷ buf ∷ []) libs (state ∷ owned owner) k6 in
    let k8 =
      Holds-lose_opt (envp ∷ buf ∷ state ∷ []) owner.env_buf (opt owner.server_state ++ rest) k7 in
    let k9 = Holds-lose_opt (envp ∷ buf ∷ state ∷ []) owner.server_state rest k8 in
    (
      envp,
      state,
      buf,
      h5,
      rw (e1, ◌>>=◌) (rw (e2, ◌>>=◌) (rw (e3, ◌>>=◌) (rw (e4, ◌>>=◌) (rw (e5, ◌>>=◌) refl)))),
      Holds-count (omega arith) k9,
    )

pub prepare-false :
    {others : ℕ} {heap : Heap} (found : Bool) (owner : Owner)
    → Owns others heap owner
    → (state : ℕ) × (after : Heap) × (prepare found false owner heap
        ≡ some ((none, record owner { server_state = some state; env_buf = none }), after))
      × Owns
          (server_blocks owner + others)
          after
          (record owner { server_state = some state; env_buf = none })
unfolding prepare
prepare-false found owner (h, shape) =
    let rest = opt owner.resource_path ++ (owner.context ∷ []) in
    let (state, h1, e1, k1) = Holds-alloc h in
    let k2 = Holds-lose_opt (state ∷ []) owner.env_buf (opt owner.server_state ++ rest) k1 in
    let k3 = Holds-lose_opt (state ∷ []) owner.server_state rest k2 in
    (state, h1, rw (e1, ◌>>=◌), (Holds-count (omega arith) k3, tt))

-- The environment is freed in the end.
pub exec_prepared_lem :
    {others : ℕ} {heap : Heap} (envp : ℕ) (owner : Owner)
    → Holds others heap (envp ∷ owned owner)
    → (after : Heap) × (exec_prepared (some envp, owner) heap ≡ some (owner, after))
      × (free_prepared (some envp, owner) heap ≡ some (owner, after))
      × Holds others after (owned owner)
unfolding exec_prepared free_prepared free_opt
exec_prepared_lem envp owner h =
    let (h1, e1, k1) = Holds-free [] envp (owned owner) h in
    (h1, rw (e1, ◌>>=◌) refl, rw (e1, ◌>>=◌) refl, k1)
