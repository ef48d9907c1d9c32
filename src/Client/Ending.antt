-- ===== src/Client/Ending.antt =====
-- How a process ends: the exit event is sent once, whichever of the interposed functions are called.
use libvoyeur.Common.{
  ℕ, ◌+◌, ◌<◌, ◌≡◌, refl, ◌∙◌, true, false, some, List, [], ◌∷◌, ◌++◌, arith, ◌>>=◌, length,
}
use libvoyeur.Kernel.{Kernel, View, IsReliable}
use libvoyeur.Net.{voyeur_msg_done}
use libvoyeur.Net.Values.{int_bytes}
use libvoyeur.Net.Connect.{voyeur_create_client_socket, close_socket_lem}
use libvoyeur.Event.{voyeur_event_exit}
use libvoyeur.Client.{Process, libvoyeur_socket}
use libvoyeur.Client.Exit.{write_exit_on, write_exit_event, ExitPath, voyeur_exit, exit_calls}
use libvoyeur.Client.Sent.{write_exit_messages-Sends}
use libvoyeur.Protocol.{message_bytes}
use mathlib.Core.List.{foldl}

-- The bytes that a process sends on its way out: the exit event and the end message.
abbrev pub exit_messages : Process → ℕ → List ℕ
exit_messages P status =
    message_bytes voyeur_event_exit (
      int_bytes status
      ++ (int_bytes P.getpid ++ (int_bytes P.getppid ++ int_bytes voyeur_msg_done)))

module _ {K : Kernel} {V : View K} (L : IsReliable V) (fuel sock : ℕ) (P : Process) where
  pub write_exit_event_lem :
      (status : ℕ) (s c : K.State)
      → voyeur_create_client_socket K (P.getenv libvoyeur_socket) s ≡ some (some sock, c)
      → V.up c sock ≡ true
      → length (exit_messages P status) + V.delays c < fuel
      → (t : K.State) × (write_exit_event K fuel P status false s ≡ some (true, t))
        × (V.sent t sock ≡ V.sent c sock ++ exit_messages P status)
  unfolding write_exit_event write_exit_on
  write_exit_event_lem status s c connected u h =
      let (t, e, sent, u', d) =
        (write_exit_messages-Sends L fuel sock P status).run c u (omega arith) in
      let (t', e', kept, d') = close_socket_lem L sock fuel t (omega arith) in
      (t', rw (connected, ◌>>=◌) (rw (e, ◌>>=◌) (rw (e', ◌>>=◌))), kept ∙ sent)

module _ (K : Kernel) (fuel : ℕ) (P : Process) (real_exit : ExitPath → ℕ → K.State → K.State) where
  -- What the calls do on their own.
  abbrev pub run_exits : List (ExitPath × ℕ) → K.State → K.State
  run_exits ways s = foldl (λ s (way, status). real_exit way status s) s ways

  -- After the first, further calls only pass through.
  pub exit_calls_later :
      (ways : List (ExitPath × ℕ)) (s : K.State)
      → exit_calls K fuel P real_exit ways true s ≡ some (true, run_exits ways s)
  unfolding exit_calls voyeur_exit write_exit_event
  exit_calls_later [] s = refl
  exit_calls_later ((way, status) ∷ ways) s = exit_calls_later ways (real_exit way status s)

module _ {K : Kernel} {V : View K} (L : IsReliable V) (fuel sock : ℕ) (P : Process) where
  -- Whatever exit functions a process calls, and however many, where the first gets a connection it
  -- sends one exit event, with the status of the first call, and then the end message; every real
  -- function is called, in order, and nothing more is sent before them. The stream keeps the
  -- promises of a stream socket, and there is fuel for each byte, each temporary error and the call
  -- of close(2).
  pub exit_calls_lem :
      (real_exit : ExitPath → ℕ → K.State → K.State) (way : ExitPath) (status : ℕ)
      (later : List (ExitPath × ℕ)) (s c : K.State)
      → voyeur_create_client_socket K (P.getenv libvoyeur_socket) s ≡ some (some sock, c)
      → V.up c sock ≡ true
      → length (exit_messages P status) + V.delays c < fuel
      → (t : K.State) × (V.sent t sock ≡ V.sent c sock ++ exit_messages P status)
        × (exit_calls K fuel P real_exit ((way, status) ∷ later) false s
            ≡ some (true, run_exits K fuel P real_exit ((way, status) ∷ later) t))
  unfolding exit_calls voyeur_exit
  exit_calls_lem real_exit way status later s c connected u h =
      let (t, e, sent) = write_exit_event_lem L fuel sock P status s c connected u h in
      (t, sent, rw (e, ◌>>=◌) (exit_calls_later K fuel P real_exit later (real_exit way status t)))
