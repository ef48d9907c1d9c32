-- ===== src/Examples/Lifetimes.antt =====
-- The memory of a context, and generations of programs.
use libvoyeur.Common.{ℕ, ◌+◌, ◌*◌, ◌≡◌, refl, true, false, some, List, [], ◌∷◌, arith, length}
use libvoyeur.Text.{codes}
use libvoyeur.Memory.{Heap, empty_heap, Use, sets_path, prepares, execs, lifetime}
use libvoyeur.Memory.Lifetime.{lost, lifetime_lem}
use libvoyeur.Env.Lookup.{getenv, ld_preload}
use libvoyeur.Env.Preload.{preloads}
use libvoyeur.Client.Exec.Descent.{generations, first, AreNew, generations_lem}
use mathlib.Core.Option.{or_else}

-- A path, and one exec that fails.
abbrev one_exec : List Use
one_exec = sets_path ∷ execs true true ∷ []

-- Everything that can be done twice, and a server that could not be made.
abbrev much_use : List Use
much_use = prepares true true ∷ sets_path ∷ execs true false ∷ sets_path ∷ execs true true ∷ []

two_lost : lost 0 0 one_exec ≡ 2
two_lost = refl

lifetime_lem_example :
    (after : Heap) × (lifetime much_use empty_heap ≡ some (tt, after))
    × (after.blocks ≡ lost 0 0 much_use)
lifetime_lem_example = lifetime_lem much_use

abbrev at_home : List (List ℕ)
at_home = codes "HOME=/h" ∷ codes "LD_PRELOAD=/x.so" ∷ []

at_home-AreNew : AreNew at_home (codes "/l.so") (codes "H@A@") (codes "/s")
unfolding getenv libvoyeur.Text.strip_prefix or_else
at_home-AreNew = record {
  no_libs = refl;
  no_opts = refl;
  no_socket = refl;
  short_libs = omega arith;
  short_opts = omega arith;
  short_path = omega arith;
}

generations_lem_example :
    (env : List (List ℕ)) × (generations 3
        (first at_home (codes "/l.so") (codes "H@A@") (codes "/s"))
        tt
      ≡ some (env, tt))
    × (getenv env (codes "HOME")
        ≡ getenv (first at_home (codes "/l.so") (codes "H@A@") (codes "/s")) (codes "HOME"))
    × (getenv env ld_preload
        ≡ getenv (first at_home (codes "/l.so") (codes "H@A@") (codes "/s")) ld_preload)
    × (length env ≡ length (first at_home (codes "/l.so") (codes "H@A@") (codes "/s")) + 3 * 3)
unfolding preloads libvoyeur.Text.starts_with getenv libvoyeur.Text.strip_prefix or_else
generations_lem_example =
    generations_lem at_home (codes "/l.so") (codes "H@A@") (codes "/s") 3 (codes "HOME")
      (omega arith) (omega arith) at_home-AreNew (ground arith) (λ e. ground arith)
