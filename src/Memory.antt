-- ===== src/Memory.antt =====
-- The memory that a context owns: voyeur.c's calls of the allocator, with those of `voyeur_requested_libs`,
-- `voyeur_requested_opts` and `voyeur_augment_environment`, which `voyeur_prepare` makes.
--
-- A block is a number, and what it holds is left out. The contexts here are those on which no server
-- runs: the memory of `voyeur_start`, the thread and the handlers is left out.
pub mod Blocks
pub mod Owned
pub mod Prepared
pub mod Lifetime
use libvoyeur.Common.{
  ℕ, suc, ◌+◌, ◌-◌, Bool, true, false, Option, none, some, List, [], ◌∷◌, M, pure, call, ◌>>=◌,
  ◌>>◌, ◌==◌, if◌then◌else◌,
}

-- The next block that is given out, which blocks are allocated, and how many they are.
pub record Heap : Type 0 where
  pub next : ℕ
  pub live : ℕ → Bool
  pub blocks : ℕ

abbrev pub empty_heap : Heap
empty_heap = record { next = 0; live = λ n. false; blocks = 0 }

unfoldable pub alloc : M Heap ℕ
alloc heap = some (
  heap.next,
  record {
    next = suc heap.next;
    live = λ n. if n == heap.next then true else heap.live n;
    blocks = suc heap.blocks;
  },
)

-- Freeing what is not allocated has no meaning.
unfoldable pub free : ℕ → M Heap (Unit {0})
free block heap =
    if heap.live block
    then some (
      tt,
      record heap {
        live = λ n. if n == block then false else heap.live n;
        blocks = heap.blocks - 1;
      },
    )
    else none

-- `free`, or a test and `free`: a null pointer is left alone.
unfoldable pub free_opt : Option ℕ → M Heap (Unit {0})
free_opt none = pure tt
free_opt (some block) = free block

-- A context with its pointers; `server_state` is none where it is null.
pub record Owner : Type 0 where
  pub context : ℕ
  pub resource_path : Option ℕ
  pub server_state : Option ℕ
  pub env_buf : Option ℕ

unfoldable pub create_context : M Heap Owner
create_context = do
  context ← alloc
  pure (record { context = context; resource_path = none; server_state = none; env_buf = none })

unfoldable pub set_path : Owner → M Heap Owner
set_path owner = do path ← alloc; pure (record owner { resource_path = some path })

-- `voyeur_requested_libs`: without a path of the context, a directory that dladdr(3) has found is copied,
-- and freed again.
unfoldable pub requested_libs_memory : Bool → Option ℕ → M Heap ℕ
requested_libs_memory found (some path) = alloc
requested_libs_memory false none = alloc
requested_libs_memory true none = do libdir ← alloc; libs ← alloc; _ ← free libdir; pure libs

-- `voyeur_prepare`, and the new environment. It is a null pointer where the server's socket could not be
-- made.
unfoldable pub prepare : Bool → Bool → Owner → M Heap (Option ℕ × Owner)
prepare found false owner = do
  state ← alloc
  pure (none, record owner { server_state = some state; env_buf = none })
prepare found true owner = do
  state ← alloc
  libs ← requested_libs_memory found owner.resource_path
  opts ← alloc
  buf ← alloc
  voyeur_envp ← alloc
  pure (some voyeur_envp, record owner { server_state = some state; env_buf = some buf })

-- What follows `voyeur_prepare` in `voyeur_exec` where no child can be spawned.
unfoldable pub exec_prepared : Option ℕ × Owner → M Heap Owner
exec_prepared (none, owner) = pure owner
exec_prepared (some voyeur_envp, owner) = do _ ← free voyeur_envp; pure owner

-- `voyeur_exec` where the server's socket cannot be made, or no child be spawned.
unfoldable pub exec : Bool → Bool → Owner → M Heap Owner
exec found made owner = prepare found made owner >>= exec_prepared

-- The caller of `voyeur_prepare` frees the environment, as voyeur.h has it.
unfoldable pub free_prepared : Option ℕ × Owner → M Heap Owner
free_prepared (voyeur_envp, owner) = do _ ← free_opt voyeur_envp; pure owner

-- `voyeur_context_destroy`
unfoldable pub destroy : Owner → M Heap (Unit {0})
destroy owner =
    free_opt owner.resource_path
    >> elim owner.server_state [
      | none ↦ pure tt
      | some state ↦ free_opt owner.env_buf >> free state
    ]
    >> free owner.context

-- What a user does with a context: set the path, prepare it and free the environment, or an exec that
-- fails; whether dladdr(3) finds a directory, and whether the server's socket can be made.
pub data Use : Type 0 where
  sets_path : Use
  prepares : Bool → Bool → Use
  execs : Bool → Bool → Use

unfoldable pub use_once : Use → Owner → M Heap Owner
use_once sets_path owner = set_path owner
use_once (prepares found made) owner = prepare found made owner >>= free_prepared
use_once (execs found made) owner = exec found made owner

unfoldable pub use_all : List Use → Owner → M Heap Owner
use_all [] owner = pure owner
use_all (u ∷ us) owner = use_once u owner >>= use_all us

-- A context from its creation to its end.
unfoldable pub lifetime : List Use → M Heap (Unit {0})
lifetime us = do owner ← create_context; owner ← use_all us owner; destroy owner
