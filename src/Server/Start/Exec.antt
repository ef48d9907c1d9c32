-- ===== src/Server/Start/Exec.antt =====
-- `voyeur_exec` as a whole: what it promises whatever the system calls answer, and runs to its end.
use libvoyeur.Server.Setup.{voyeur_prepare, waitpid_thread}
use libvoyeur.Common.{
  ℕ, suc, ◌+◌, ◌<◌, ◌≡◌, ◌≢◌, refl, ap, sym, ◌∙◌, Bool, true, false, Option, none, some, List, [],
  call, ◌>>=◌, >>=-some, >>=-eq-some, inl, inr, ◌⊎◌,
}
use libvoyeur.Kernel.{Kernel, send_failed, other_errno, View, IsReliable}
use libvoyeur.Net.Serve.{ServeCalls, voyeur_create_server_socket}
use libvoyeur.Net.Values.{int_bytes}
use libvoyeur.Event.{Context, ServerState}
use libvoyeur.Event.Handle.{Call}
use libvoyeur.Server.{ServerCalls, selected, fd_setsize, Serving, serving_start, run_server}
use libvoyeur.Server.Loop.{only, no_fd}
use libvoyeur.Server.Trace.{Rounds, serve-Rounds}
use libvoyeur.Server.Child.{child_status_lost}
use libvoyeur.Net.Stream.{handed_over}
use libvoyeur.Server.Whole.{run_server-ended}
use libvoyeur.Server.Refine.{IsSelect}
use libvoyeur.Server.Start.{
  ProcessCalls, returned, warn_on_fail, start_waitpid_thread, clean_up_socket, serve_child_of,
  voyeur_start, start_spawned, spawn_prepared, voyeur_exec,
}
use libvoyeur.Server.Start.Outcome.{Served, spawn_prepared-Served, prepare_context}

module _ {K : Kernel} (fuel : ℕ) (F : ServeCalls K) (P : ProcessCalls K) (C : ServerCalls K)
    (debug : Bool) (rounds : ℕ) where
  prepared-Served :
      (fname : Option (List ℕ)) (beyond : List ℕ) (context : Context) (path : List ℕ)
      (argv envp : List (List ℕ)) (server_sock : ℕ) (sun_path : List ℕ)
      (prepared : Option (Option (List (List ℕ)) × Context)) (s t : K.State) (code : Option ℕ)
      (calls : List Call)
      → IsSelect C
      → voyeur_prepare fname beyond (some server_sock, sun_path) context envp ≡ prepared
      → spawn_prepared K fuel F P C debug rounds path argv prepared s
        ≡ some (returned code calls, t)
      → ((code ≡ none) × (calls ≡ [])) ⊎ Served fuel F P C debug rounds server_sock code calls
  unfolding spawn_prepared
  prepared-Served fname beyond context path argv envp server_sock sun_path none s t code calls L p
        e =
      cc
  prepared-Served fname beyond context path argv envp server_sock sun_path (some (none, after)) s t
        code calls L p e =
      inl (cc, cc)
  prepared-Served fname beyond context path argv envp server_sock sun_path (some (some env, after))
        s t code calls L p e =
      let (state, has_state, has_sock) =
        prepare_context fname beyond server_sock sun_path context after envp p in
      elim (spawn_prepared-Served fuel F P C debug rounds path argv env after state server_sock s t
        code calls L has_state has_sock e) [
          | inl (_, no_code, no_calls) ↦ inl (no_code, no_calls)
          | inr served ↦ inr served
        ]

  server-Served :
      (fname : Option (List ℕ)) (beyond : List ℕ) (context : Context) (path : List ℕ)
      (argv envp : List (List ℕ)) (server : Option ℕ × List ℕ) (s t : K.State) (code : Option ℕ)
      (calls : List Call)
      → IsSelect C
      → spawn_prepared K fuel F P C debug rounds path argv
          (voyeur_prepare fname beyond server context envp)
          s
        ≡ some (returned code calls, t)
      → ((code ≡ none) × (calls ≡ []))
        ⊎ ((server_sock : ℕ) × (server.0 ≡ some server_sock)
            × Served fuel F P C debug rounds server_sock code calls)
  unfolding voyeur_prepare spawn_prepared
  server-Served fname beyond context path argv envp (none, sun_path) s t code calls L e =
      inl (cc, cc)
  server-Served fname beyond context path argv envp (some server_sock, sun_path) s t code calls L
        e =
      elim (prepared-Served fname beyond context path argv envp server_sock sun_path _ s t code
        calls L refl e) [ inl failed ↦ inl failed | inr served ↦ inr (server_sock, refl, served) ]

  -- A call of `voyeur_exec` that returns either gives -1 and has made no call of a callback, or a server
  -- was made and has done what the abstract server can do.
  pub exec_lem :
      (fname : Option (List ℕ)) (beyond : List ℕ) (context : Context) (path : List ℕ)
      (argv envp : List (List ℕ)) (s t : K.State) (code : Option ℕ) (calls : List Call)
      → IsSelect C
      → voyeur_exec K fuel F P C debug rounds fname beyond context path argv envp s
        ≡ some (returned code calls, t)
      → ((code ≡ none) × (calls ≡ []))
        ⊎ ((server_sock : ℕ) × (sun_path : List ℕ) × (s1 : K.State) × (voyeur_create_server_socket K
                F s
              ≡ some ((some server_sock, sun_path), s1))
            × Served fuel F P C debug rounds server_sock code calls)
  unfolding voyeur_exec
  exec_lem fname beyond context path argv envp s t code calls L e =
      let ((sock, sun_path), s1, made, e1) =
        >>=-eq-some (voyeur_create_server_socket K F)
          (λ server.
            spawn_prepared K fuel F P C debug rounds path argv
              (voyeur_prepare fname beyond server context envp))
          s e in
      elim (server-Served fname beyond context path argv envp (sock, sun_path) s1 t code calls L
        e1) [
          | inl failed ↦ inl failed
          | inr (server_sock, has_sock, served) ↦ inr (server_sock, sun_path, s1, cc, served)
        ]

-- The state in which the server starts, once the thread that waits for the child was made.
abbrev waiting : (K : Kernel) → ℕ → ProcessCalls K → ℕ → ℕ → K.State → K.State
waiting K fuel P child_pid input s =
    P.pthread_create (call (P.waitpid child_pid) >>= waitpid_thread K fuel input) s

module _ {K : Kernel} (fuel : ℕ) (F : ServeCalls K) (P : ProcessCalls K) (C : ServerCalls K) where
  -- `voyeur_start` returns what `run_server` does, in a build without DEBUG.
  start_lem :
      (after : Context) (state : ServerState) (sock child_pid output input rounds : ℕ)
      (s s1 t : K.State) (code : Option ℕ) (calls : List Call)
      → after.server_state ≡ some state
      → state.server_sock ≡ some sock
      → P.pipe s ≡ (some (output, input), s1)
      → run_server K fuel C after sock output rounds (waiting K fuel P child_pid input s1)
        ≡ some ((code, calls), t)
      → voyeur_start K fuel F P C false rounds after child_pid s ≡ some (returned code calls, t)
  unfolding voyeur_start start_waitpid_thread serve_child_of clean_up_socket warn_on_fail
  start_lem after state sock child_pid output input rounds s s1 t code calls has_state has_sock
        piped e =
      rw (has_state, has_sock, voyeur_start) (rw (piped, ◌>>=◌) (rw (e, ◌>>=◌) refl))

module _ {K : Kernel} {V : View K} (R : IsReliable V) (fuel : ℕ) (F : ServeCalls K)
    (P : ProcessCalls K) (C : ServerCalls K) where
  -- In a build without DEBUG, where `voyeur_exec` gets a server's socket, an environment, a child
  -- and a pipe; the thread that waits for the child runs to its end, and send(2) refuses its pipe,
  -- with an error that is not temporary and nothing written, as it refuses what is not a socket;
  -- any number of rounds follow the start of the thread, in each of which select(2) is interrupted
  -- or finds one descriptor ready, namely a client that says a whole event, a client that is to be
  -- dropped, or the socket with a new client; and then the pipe is ready and brings what the thread
  -- handed over: `voyeur_exec` returns 0, whatever the status of the child was, after exactly the
  -- calls of callbacks that the events of the rounds made, in order. The socket and the pipe are
  -- two descriptors that fit an `fd_set`, the pipe keeps the promises of a stream, and there is
  -- fuel for each temporary error and the calls of close(2).
  pub exec-Rounds :
      (fname : Option (List ℕ)) (beyond : List ℕ) (context after : Context) (path : List ℕ)
      (argv envp env : List (List ℕ)) (sock : ℕ) (sun_path : List ℕ) (child_pid output input : ℕ)
      (s s1 s2 s3 s4 s5 w p q r : K.State) {n : ℕ} {st : Serving} {calls : List Call}
      (rounds status : ℕ)
      → voyeur_create_server_socket K F s ≡ some ((some sock, sun_path), s1)
      → voyeur_prepare fname beyond (some sock, sun_path) context envp ≡ some (some env, after)
      → P.posix_spawnp path argv env s1 ≡ (some child_pid, s2)
      → P.pipe s2 ≡ (some (output, input), s3)
      → P.waitpid child_pid w ≡ (status, p)
      → K.send input (int_bytes status) p ≡ (send_failed other_errno, q)
      → V.sent q input ≡ V.sent p input
      → V.delays q < fuel
      → (call (P.waitpid child_pid) >>= waitpid_thread K fuel input) w ≡ some (tt, r)
      → Rounds K fuel C after sock output n
          (serving_start K fuel C after sock output)
          (waiting K fuel P child_pid input s3)
          calls
          st
          s4
      → sock < fd_setsize
      → output < fd_setsize
      → output ≢ sock
      → C.select st.active s4 ≡ (selected (only output) no_fd, s5)
      → V.up s5 output ≡ true
      → V.incoming s5 output ≡ handed_over V input p r
      → V.delays s5 < fuel
      → (t : K.State) × (voyeur_exec K fuel F P C false
            (n + suc rounds)
            fname
            beyond
            context
            path
            argv
            envp
            s
          ≡ some (returned (some 0) calls, t))
  unfolding voyeur_exec spawn_prepared start_spawned
  exec-Rounds fname beyond context after path argv envp env sock sun_path child_pid output input s
        s1 s2 s3 s4 s5 w p q r {n} {st} {calls} rounds status made prepared spawned piped waited
        refused kept hq thread trace lt_sock lt ns sel up i h =
      let (state, has_state, has_sock) =
        prepare_context fname beyond sock sun_path context after envp prepared in
      let (_, _, running, zero_status) =
        serve-Rounds fuel C after sock output trace (suc rounds) refl in
      let wrote : waitpid_thread K fuel input status p ≡ some (tt, r) =
        ap (λ o. waitpid_thread K fuel input o.0 o.1) (sym waited) ∙ thread in
      let (t, ended) =
        child_status_lost R R fuel fuel input C after sock output rounds status st p q r s4 s5
          refused kept hq wrote running zero_status lt ns sel up i h in
      let e =
        run_server-ended R fuel C after sock output (suc rounds) (some 0)
          (waiting K fuel P child_pid input s3) s4 t trace lt_sock lt ended in
      let all = n + suc rounds in
      (
        t,
        >>=-some (voyeur_create_server_socket K F)
              (λ server.
                spawn_prepared K fuel F P C false all path argv
                  (voyeur_prepare fname beyond server context envp))
              s made
            ∙ ap (λ p. spawn_prepared K fuel F P C false all path argv p s1) prepared
            ∙ ap (λ r. start_spawned K fuel F P C false all after r.0 r.1) spawned
            ∙ start_lem fuel F P C after state sock child_pid output input all s2 s3 t _ calls
                has_state has_sock piped e,
      )
