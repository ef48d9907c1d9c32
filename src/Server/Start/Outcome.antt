-- ===== src/Server/Start/Outcome.antt =====
-- How `voyeur_start` and `voyeur_exec` end.
use libvoyeur.Server.Setup.{voyeur_prepare, prepare_environment, cstr_at}
use libvoyeur.Common.{
  ℕ, ◌≡◌, ◌≢◌, refl, ap, Bool, true, false, Option, none, some, List, [], ◌∷◌, ◌++◌, arith, pure,
  >>=-eq-some, All, Option-cases, inl, inr, ◌⊎◌,
}
use libvoyeur.Kernel.{Kernel}
use libvoyeur.Net.Serve.{ServeCalls}
use libvoyeur.Event.{Context, ServerState}
use libvoyeur.Event.Handle.{Call}
use libvoyeur.Server.{ServerCalls, run_server}
use libvoyeur.Event.Requested.{voyeur_requested_libs, voyeur_requested_opts}
use libvoyeur.Server.Refine.{IsSelect, Promised, run_server-Acts}
use libvoyeur.Server.Start.{
  ProcessCalls, returned, before_last_slash, cut_at_last_slash, warn_on_fail, start_waitpid_thread,
  clean_up_socket, serve_child_of, voyeur_start, start_spawned, spawn_prepared,
}

before_last_slash-none : (name : List ℕ) → All (λ c. c ≢ 47) name → before_last_slash name ≡ none
unfolding before_last_slash
before_last_slash-none [] h = refl
before_last_slash-none (c ∷ name) (hc, h) = rw (before_last_slash-none name h) (ground arith)

-- The directory of a file in it.
before_last_slash-file :
    (dir name : List ℕ) → All (λ c. c ≢ 47) name → before_last_slash (dir ++ (47 ∷ name)) ≡ some dir
unfolding before_last_slash
before_last_slash-file [] name h = rw (before_last_slash-none name h) refl
before_last_slash-file (c ∷ dir) name h = rw (before_last_slash-file dir name h) refl

cut_at_last_slash-file :
    (dir name : List ℕ) → All (λ c. c ≢ 47) name → cut_at_last_slash (dir ++ (47 ∷ name)) ≡ dir
unfolding cut_at_last_slash
cut_at_last_slash-file dir name h = rw (before_last_slash-file dir name h, cut_at_last_slash) refl

module _ {K : Kernel} (F : ServeCalls K) where
  -- For a socket's file in a directory, with no slash in its name, the end of `voyeur_start`
  -- removes the file and then the directory in a build with DEBUG, and removes nothing in a build
  -- without it.
  pub clean_up_socket_lem :
      (dir name : List ℕ) (s : K.State)
      → All (λ c. c ≢ 47) name
      → (clean_up_socket K F true (dir ++ (47 ∷ name)) s
          ≡ some (tt, (F.rmdir dir (F.unlink (dir ++ (47 ∷ name)) s).1).1))
        × (clean_up_socket K F false (dir ++ (47 ∷ name)) s ≡ some (tt, s))
  unfolding clean_up_socket warn_on_fail
  clean_up_socket_lem dir name s h = (
    ap (λ d. some (tt, (F.rmdir d (F.unlink (dir ++ (47 ∷ name)) s).1).1))
        (cut_at_last_slash-file dir name h),
    refl,
  )

module _ {K : Kernel} (fuel : ℕ) (F : ServeCalls K) (P : ProcessCalls K) (C : ServerCalls K)
    (debug : Bool) (rounds : ℕ) where
  -- A child was served with this socket, result and calls by a server that did what the abstract one can
  -- do.
  abbrev pub Served : ℕ → Option ℕ → List Call → Type 0
  Served server_sock code calls =
      (context : Context) × (child_pipe_output : ℕ) × (s : K.State) × Promised fuel C context
        server_sock child_pipe_output s code calls

  serve_child_of-Served :
      (context : Context) (server_sock : ℕ) (sun_path : List ℕ) (pipe : Option ℕ) (s t : K.State)
      (code : Option ℕ) (calls : List Call)
      → IsSelect C
      → serve_child_of K fuel F P C debug rounds context server_sock sun_path pipe s
        ≡ some (returned code calls, t)
      → Served server_sock code calls
  unfolding serve_child_of
  serve_child_of-Served context server_sock sun_path none s t code calls L e = cc
  serve_child_of-Served context server_sock sun_path (some child_pipe_output) s t code calls L e =
      let ((res, made), s1, served, e1) =
        >>=-eq-some (run_server K fuel C context server_sock child_pipe_output rounds) _ s e in
      let (_, s2, _, e2) =
        >>=-eq-some (clean_up_socket K F debug sun_path) (λ _. pure (returned res made)) s1 e1 in
      let (acts, last, u, u', run, end, log, status) =
        run_server-Acts fuel C context server_sock child_pipe_output rounds s s1 res made L
          served in
      (context, child_pipe_output, s, (acts, last, u, u', run, end, cc, cc))

  start-Served :
      (context : Context) (state : ServerState) (server_sock child_pid : ℕ) (s t : K.State)
      (code : Option ℕ) (calls : List Call)
      → IsSelect C
      → context.server_state ≡ some state
      → state.server_sock ≡ some server_sock
      → voyeur_start K fuel F P C debug rounds context child_pid s ≡ some (returned code calls, t)
      → Served server_sock code calls
  unfolding voyeur_start
  start-Served context state server_sock child_pid s t code calls L has_state has_sock e =
      let e' = rw (has_state, has_sock, voyeur_start) at e in
      let (pipe, s1, _, e1) =
        >>=-eq-some (start_waitpid_thread K fuel P child_pid)
          (serve_child_of K fuel F P C debug rounds context server_sock state.sun_path) s e' in
      serve_child_of-Served context server_sock state.sun_path pipe s1 t code calls L e1

mapped_some :
    {A B : Type 0} (f : A → B) (o : Option A) {b : B}
    → elim o [ none ↦ none | some a ↦ some (f a) ] ≡ some b
    → (a : A) × (b ≡ f a)
mapped_some f none e = cc
mapped_some f (some a) e = (a, cc)

-- The context that `voyeur_prepare` leaves has the server's socket.
pub prepare_context :
    (fname : Option (List ℕ)) (beyond : List ℕ) (sock : ℕ) (path : List ℕ) (context after : Context)
    (envp : List (List ℕ)) {env : List (List ℕ)}
    → voyeur_prepare fname beyond (some sock, path) context envp ≡ some (some env, after)
    → (state : ServerState) × (after.server_state ≡ some state) × (state.server_sock ≡ some sock)
unfolding voyeur_prepare prepare_environment
prepare_context fname beyond sock path context after envp e =
    let (opts, same) =
      mapped_some _
        (cstr_at ((voyeur_requested_opts (voyeur_requested_libs fname context).1).0 ++ beyond)) e in
    (_, ap (λ p. p.1.server_state) same, refl)

module _ {K : Kernel} (fuel : ℕ) (F : ServeCalls K) (P : ProcessCalls K) (C : ServerCalls K)
    (debug : Bool) (rounds : ℕ) where
  pub spawn_prepared-Served :
      (path : List ℕ) (argv env : List (List ℕ)) (after : Context) (state : ServerState)
      (server_sock : ℕ) (s t : K.State) (code : Option ℕ) (calls : List Call)
      → IsSelect C
      → after.server_state ≡ some state
      → state.server_sock ≡ some server_sock
      → spawn_prepared K fuel F P C debug rounds path argv (some (some env, after)) s
        ≡ some (returned code calls, t)
      → ((P.posix_spawnp path argv env s).0 ≡ none) × (code ≡ none) × (calls ≡ [])
        ⊎ Served fuel F P C debug rounds server_sock code calls
  unfolding spawn_prepared start_spawned
  spawn_prepared-Served path argv env after state server_sock s t code calls L has_state has_sock
        e =
      elim (Option-cases (P.posix_spawnp path argv env s).0) [
        | inl failed ↦ let e' = rw failed at e in inl (failed, cc, cc)
        | inr (child_pid, spawned) ↦ inr (
            start-Served fuel F P C debug rounds after state server_sock child_pid
              (P.posix_spawnp path argv env s).1 t code calls L has_state has_sock
              (rw spawned at e))
      ]
