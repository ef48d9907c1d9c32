-- ===== src/Server/Start/Failure.antt =====
-- `voyeur_exec` where no child can be started, and the buffer of `voyeur_set_resource_path`.
use libvoyeur.Server.Setup.{voyeur_prepare, cstr_at}
use libvoyeur.Common.{
  ℕ, zero, suc, ◌+◌, ◌-◌, ◌<◌, ◌≡◌, refl, ap, ◌∙◌, Bool, Option, none, some, List, [], ◌++◌, arith,
  >>=-some, length, take, min, length-take, ltb, if◌then◌else◌,
}
use libvoyeur.Common.Bytes.{IsCstr, strnlen, strnlen-min}
use libvoyeur.Text.{strlcat}
use libvoyeur.Kernel.{Kernel}
use libvoyeur.Net.Serve.{
  ServeCalls, IsServing, voyeur_create_server_socket, create_server_socket_lem,
}
use libvoyeur.Event.{Context}
use libvoyeur.Server.{ServerCalls}
use libvoyeur.Server.Start.{
  ProcessCalls, returned, start_spawned, spawn_prepared, voyeur_exec, voyeur_set_resource_path,
  zeros,
}

module _ {K : Kernel} {F : ServeCalls K} {bound : K.State → ℕ → Option (List ℕ)}
    (L : IsServing K F bound) (fuel : ℕ) (P : ProcessCalls K) (C : ServerCalls K) where
  -- Where `voyeur_exec` gets a server's socket and an environment, and posix_spawnp(3) fails and
  -- leaves the socket as it is, `voyeur_exec` returns -1 with no call of a callback, in the state
  -- that posix_spawnp(3) left, in which the server's socket is still bound to its path. mkdtemp(3),
  -- bind(2) and listen(2) keep their promises.
  pub exec_not_spawned :
      (debug : Bool) (rounds : ℕ) (fname : Option (List ℕ)) (beyond : List ℕ)
      (context after : Context) (path : List ℕ) (argv envp env : List (List ℕ)) (sock : ℕ)
      (sun_path : List ℕ) (s s1 s2 : K.State)
      → voyeur_create_server_socket K F s ≡ some ((some sock, sun_path), s1)
      → voyeur_prepare fname beyond (some sock, sun_path) context envp ≡ some (some env, after)
      → P.posix_spawnp path argv env s1 ≡ (none, s2)
      → bound s2 sock ≡ bound s1 sock
      → (voyeur_exec K fuel F P C debug rounds fname beyond context path argv envp s
          ≡ some (returned none [], s2))
        × (bound s2 sock ≡ some sun_path)
  unfolding voyeur_exec spawn_prepared start_spawned
  exec_not_spawned debug rounds fname beyond context after path argv envp env sock sun_path s s1 s2
        made prepared failed same =
      (
        >>=-some (voyeur_create_server_socket K F)
              (λ server.
                spawn_prepared K fuel F P C debug rounds path argv
                  (voyeur_prepare fname beyond server context envp))
              s made
            ∙ ap (λ p. spawn_prepared K fuel F P C debug rounds path argv p s1) prepared
            ∙ ap (λ r. start_spawned K fuel F P C debug rounds after r.0 r.1) failed,
        same ∙ (create_server_socket_lem L sock sun_path s s1 made).0,
      )

-- Zeroed memory of some size begins with an empty string.
cstr_at-zeros : (size : ℕ) (beyond : List ℕ) → 0 < size → cstr_at (zeros size ++ beyond) ≡ some []
unfolding cstr_at
cstr_at-zeros zero beyond pos = absurd (omega arith)
cstr_at-zeros (suc size) beyond pos = refl

-- How far a string of this length runs over the memory that it was given.
overrun : (n : ℕ) → min 4095 n + 1 - min 4096 n ≡ (if ltb n 4096 then 1 else 0)
overrun n = ground arith

-- For a C string that is not empty, `voyeur_set_resource_path` stores the first 4095 bytes of it,
-- and writes one byte behind the memory that it has allocated where the string is shorter than 4096
-- bytes, and none otherwise.
pub set_resource_path_lem :
    (path beyond : List ℕ) (context : Context)
    → IsCstr path
    → 0 < length path
    → voyeur_set_resource_path beyond path context
      ≡ some (
        record context { resource_path = some (take 4095 path) },
        if ltb (length path) 4096 then 1 else 0,
      )
unfolding voyeur_set_resource_path strlcat
set_resource_path_lem path beyond context c pos =
    let size : strnlen path 4096 ≡ min 4096 (length path) = strnlen-min path 4096 c in
    let new : length (take 4095 path) ≡ min 4095 (length path) = length-take 4095 path in
    let over : length (take 4095 path) + 1 - strnlen path 4096
        ≡ (if ltb (length path) 4096 then 1 else 0) =
      rw (size, new) (overrun (length path)) in
    rw (cstr_at-zeros (strnlen path 4096) beyond (omega arith), voyeur_set_resource_path)
      (ap (λ n. some (record context { resource_path = some (take 4095 path) }, n)) over)
