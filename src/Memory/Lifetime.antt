-- ===== src/Memory/Lifetime.antt =====
-- A context's memory from its creation to its end.
use libvoyeur.Common.{
  ℕ, ◌+◌, ◌≡◌, refl, ◌∙◌, Bool, true, false, none, some, List, [], ◌∷◌, arith, ◌>>=◌, >>=-some,
  length,
}
use libvoyeur.Memory.{
  Heap, empty_heap, Owner, create_context, prepare, exec_prepared, free_prepared, free_opt, exec,
  Use, sets_path, prepares, execs, use_once, use_all, lifetime,
}
use libvoyeur.Memory.Blocks.{Holds, Holds-alloc}
use libvoyeur.Memory.Owned.{opt, Owns, Holds-count, set_path_lem, destroy_lem}
use libvoyeur.Memory.Prepared.{server_blocks, prepare-true, prepare-false, exec_prepared_lem}

-- How many blocks each use makes unreachable, for a context with so many blocks for its path and for its
-- server, and how many it has afterwards.
abbrev lost_by : ℕ → ℕ → Use → ℕ
lost_by path server sets_path = path
lost_by path server (prepares found made) = elim made [ true ↦ server + 2 | false ↦ server ]
lost_by path server (execs found made) = elim made [ true ↦ server + 2 | false ↦ server ]

abbrev path_after : ℕ → Use → ℕ
path_after path sets_path = 1
path_after path (prepares found made) = path
path_after path (execs found made) = path

abbrev server_after : ℕ → Use → ℕ
server_after server sets_path = server
server_after server (prepares found made) = elim made [ true ↦ 2 | false ↦ 1 ]
server_after server (execs found made) = elim made [ true ↦ 2 | false ↦ 1 ]

abbrev pub lost : ℕ → ℕ → List Use → ℕ
lost path server [] = 0
lost path server (u ∷ us) =
    lost_by path server u + lost (path_after path u) (server_after server u) us

abbrev path_blocks : Owner → ℕ
path_blocks owner = length (opt owner.resource_path)

-- What a use comes to.
abbrev Used : ℕ → Owner → Use → Heap → Type 0
Used others owner u heap =
    (owner' : Owner) × (after : Heap) × (use_once u owner heap ≡ some (owner', after))
    × Owns (lost_by (path_blocks owner) (server_blocks owner) u + others) after owner'
    × (path_blocks owner' ≡ path_after (path_blocks owner) u)
    × (server_blocks owner' ≡ server_after (server_blocks owner) u)

-- Both ways to prepare come to the same.
prepared_lem :
    {others : ℕ} {heap : Heap} (found made : Bool) (owner : Owner)
    → Owns others heap owner
    → (owner' : Owner) × (after : Heap) × ((prepare found made owner >>= exec_prepared) heap
        ≡ some (owner', after))
      × ((prepare found made owner >>= free_prepared) heap ≡ some (owner', after))
      × Owns
          (lost_by (path_blocks owner) (server_blocks owner) (execs found made) + others)
          after
          owner'
      × (path_blocks owner' ≡ path_blocks owner)
      × (server_blocks owner' ≡ server_after (server_blocks owner) (execs found made))
unfolding exec_prepared free_prepared free_opt
prepared_lem found true owner h =
    let (envp, state, buf, h1, e1, k1) = prepare-true found owner h in
    let after : Owner = record owner { server_state = some state; env_buf = some buf } in
    let (h2, e2, e3, k2) = exec_prepared_lem envp after k1 in
    (
      after,
      h2,
      >>=-some (prepare found true owner) exec_prepared _ e1 ∙ e2,
      >>=-some (prepare found true owner) free_prepared _ e1 ∙ e3,
      (k2, tt),
      refl,
      refl,
    )
prepared_lem found false owner h =
    let (state, h1, e1, k1) = prepare-false found owner h in
    let after : Owner = record owner { server_state = some state; env_buf = none } in
    (
      after,
      h1,
      >>=-some (prepare found false owner) exec_prepared _ e1,
      >>=-some (prepare found false owner) free_prepared _ e1,
      k1,
      refl,
      refl,
    )

use_once-Used :
    {others : ℕ} {heap : Heap} (owner : Owner) (u : Use)
    → Owns others heap owner
    → Used others owner u heap
unfolding use_once exec
use_once-Used owner sets_path (h, shape) =
    let (new, h1, e1, k1) =
      set_path_lem owner.context owner.resource_path owner.server_state owner.env_buf (h, shape) in
    (record owner { resource_path = some new }, h1, e1, k1, refl, refl)
use_once-Used owner (prepares found made) h =
    let (owner', h1, _, e1, k1, p, s) = prepared_lem found made owner h in
    (owner', h1, e1, k1, p, s)
use_once-Used owner (execs found made) h =
    let (owner', h1, e1, _, k1, p, s) = prepared_lem found made owner h in
    (owner', h1, e1, k1, p, s)

use_all-Owns :
    (us : List Use) {others : ℕ} {heap : Heap} (owner : Owner)
    → Owns others heap owner
    → (owner' : Owner) × (after : Heap) × (use_all us owner heap ≡ some (owner', after))
      × Owns (lost (path_blocks owner) (server_blocks owner) us + others) after owner'
unfolding use_all
use_all-Owns [] {heap = heap} owner h = (owner, heap, refl, (Holds-count (omega arith) h.0, h.1))
use_all-Owns (u ∷ us) owner h =
    let (owner1, h1, e1, k1, p, s) = use_once-Used owner u h in
    let (owner2, h2, e2, k2) = use_all-Owns us owner1 k1 in
    let same : lost (path_blocks owner1) (server_blocks owner1) us
        ≡ lost (path_after (path_blocks owner) u) (server_after (server_blocks owner) u) us =
      rw (p, s) refl in
    (owner2, h2, rw (e1, ◌>>=◌) e2, (Holds-count (omega (arith, same)) k2.0, k2.1))

-- However a context on which no server runs is used between its creation and
-- `voyeur_context_destroy`, by setting its path, by preparing it and freeing the environment, and
-- by an exec that fails since no socket can be made or no child be spawned, no block is freed that
-- is not allocated, and what these functions leave in the end is exactly: two blocks for each
-- environment that was made, each path that was replaced, and the state and the buffer of each
-- server that was replaced.
pub lifetime_lem :
    (us : List Use)
    → (after : Heap) × (lifetime us empty_heap ≡ some (tt, after)) × (after.blocks ≡ lost 0 0 us)
unfolding lifetime create_context
lifetime_lem us =
    let none_held : Holds 0 empty_heap [] = record {
      are_live = tt;
      are_distinct = tt;
      counted = refl;
    } in
    let (context, h1, e1, k1) = Holds-alloc none_held in
    let owner : Owner = record {
      context = context;
      resource_path = none;
      server_state = none;
      env_buf = none;
    } in
    let (owner', h2, e2, k2) = use_all-Owns us owner (k1, tt) in
    let (h3, e3, k3) =
      destroy_lem owner'.context owner'.resource_path owner'.server_state owner'.env_buf k2 in
    (h3, rw (e1, ◌>>=◌) (rw (e2, ◌>>=◌) e3), omega (arith, k3.counted))
