-- ===== src/Examples/Starting.antt =====
-- The server's socket, its end, and a child that cannot be started.
use libvoyeur.Server.Setup.{voyeur_prepare}
use libvoyeur.Common.{
  ℕ, ◌≡◌, refl, true, false, Option, none, some, List, [], ◌∷◌, ◌++◌, arith, length, take, ltb,
  if◌then◌else◌,
}
use libvoyeur.Text.{codes}
use libvoyeur.Kernel.{Kernel, send_failed, read_failed, other_errno, closed}
use libvoyeur.Net.{success}
use libvoyeur.Net.Serve.{ServeCalls, IsServing, voyeur_create_server_socket}
use libvoyeur.Event.{Context}
use libvoyeur.Env.Lookup.{getenv}
use libvoyeur.Env.Preload.{preloads}
use libvoyeur.Server.{ServerCalls, select_failed}
use libvoyeur.Server.Prepare.{prepare_lem}
use libvoyeur.Server.Start.{
  ProcessCalls, returned, clean_up_socket, voyeur_exec, voyeur_set_resource_path,
}
use libvoyeur.Server.Start.Outcome.{clean_up_socket_lem}
use libvoyeur.Server.Start.Failure.{exec_not_spawned, set_resource_path_lem}
use libvoyeur.Examples.Data.{watching, watching-HasByteOpts}
use mathlib.Core.Option.{or_else}

-- A system that remembers only the address to which a socket was bound.
abbrev desk : Kernel
desk = record {
  State = Option (List ℕ);
  send = λ fd buf s. (send_failed other_errno, s);
  read = λ fd n s. (read_failed other_errno, s);
  close = λ fd s. (closed, s);
  socket = λ s. (some 7, s);
  connect = λ fd path s. (true, s);
  usleep = λ n s. s;
  arc4random_uniform = λ n s. (0, s);
}

abbrev desk_calls : ServeCalls desk
desk_calls = record {
  mkdtemp = λ template s. (template, s);
  unlink = λ path s. (success, s);
  rmdir = λ path s. (success, s);
  bind = λ sock path s. (success, some path);
  listen = λ sock backlog s. (success, s);
}

desk-IsServing : IsServing desk desk_calls (λ s sock. s)
desk-IsServing = record {
  mkdtemp_law = λ template s c. (c, refl);
  bind_law = λ sock path s t e. cc;
  listen_law = λ sock backlog s. refl;
}

abbrev desk_path : List ℕ
desk_path = codes "/tmp/libvoyeur-XXXXXXXXX/socket"

desk_made :
    voyeur_create_server_socket desk desk_calls none ≡ some ((some 7, desk_path), some desk_path)
unfolding voyeur_create_server_socket libvoyeur.Net.Serve.bind_and_listen
    libvoyeur.Net.Serve.or_error libvoyeur.Net.Serve.socket_path libvoyeur.Text.strlcpy
    libvoyeur.Text.strlcat
desk_made = refl

abbrev home : List (List ℕ)
home = codes "HOME=/h" ∷ codes "LD_PRELOAD=/x.so" ∷ []

clean_up_socket_lem_example :
    (clean_up_socket desk desk_calls true (codes "/tmp/a" ++ (47 ∷ codes "socket")) none
      ≡ some (tt, none))
    × (clean_up_socket desk desk_calls false (codes "/tmp/a" ++ (47 ∷ codes "socket")) none
        ≡ some (tt, none))
clean_up_socket_lem_example =
    clean_up_socket_lem desk_calls (codes "/tmp/a") (codes "socket") none (omega arith)

-- No process can be started.
abbrev no_processes : ProcessCalls desk
no_processes = record {
  pipe = λ s. (some (4, 5), s);
  waitpid = λ pid s. (0, s);
  pthread_create = λ thread s. s;
  posix_spawnp = λ path argv envp s. (none, s);
}

abbrev no_select : ServerCalls desk
no_select = record {
  select = λ active s. (select_failed other_errno, s);
  accept = λ fd s. (none, s);
}

desk_prepared :
    (env : List (List ℕ)) × (after : Context) × (voyeur_prepare none
        (0 ∷ [])
        (some 7, desk_path)
        watching
        home
      ≡ some (some env, after))
unfolding preloads libvoyeur.Text.starts_with getenv libvoyeur.Text.strip_prefix or_else
    libvoyeur.Event.Requested.resource_dir
desk_prepared =
    let (env, after, e, _, _, _) =
      prepare_lem none [] 7 desk_path watching home watching-HasByteOpts (omega arith) (omega arith)
        (omega arith) refl refl (omega arith) (omega arith) in
    (env, after, e)

exec_not_spawned_example :
    (voyeur_exec desk 9 desk_calls no_processes no_select false 8 none
        (0 ∷ [])
        watching
        (codes "/a")
        []
        home
        none
      ≡ some (returned none [], some desk_path))
    × (some desk_path ≡ some desk_path)
exec_not_spawned_example =
    exec_not_spawned desk-IsServing 9 no_processes no_select false 8 none (0 ∷ []) watching
      desk_prepared.1 (codes "/a") [] home desk_prepared.0 7 desk_path none (some desk_path)
      (some desk_path) desk_made desk_prepared.2 refl refl

set_resource_path_lem_example :
    voyeur_set_resource_path [] (codes "/l/") watching
    ≡ some (
      record watching { resource_path = some (take 4095 (codes "/l/")) },
      if ltb (length (codes "/l/")) 4096 then 1 else 0,
    )
set_resource_path_lem_example =
    set_resource_path_lem (codes "/l/") [] watching (omega arith) (omega arith)
