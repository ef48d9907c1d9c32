-- ===== src/Client/Destructors.antt =====
-- The destructors of the libraries voyeur-open.c, voyeur-close.c and voyeur-exec.c.
use libvoyeur.Common.{ℕ, ◌+◌, ◌<◌, ◌≡◌, refl, true, false, none, some, ◌++◌, length, ◌>>=◌}
use libvoyeur.Kernel.{Kernel, View, IsReliable}
use libvoyeur.Net.{voyeur_msg_done}
use libvoyeur.Net.Values.{int_bytes}
use libvoyeur.Client.{Process}
use libvoyeur.Client.Open.{open_ready, voyeur_cleanup_open}
use libvoyeur.Client.Close.{CloseStatics, voyeur_cleanup_close}
use libvoyeur.Client.Exec.Spawn.{SpawnStatics, voyeur_cleanup_posix_spawn}
use libvoyeur.Client.Calls.{open_over, say_done_lem}

-- The static variables after a destructor with a connection.
abbrev pub close_over : CloseStatics → CloseStatics
close_over st = record st { finalized = true; initialized = false; sock = none }

abbrev pub spawn_over : SpawnStatics → SpawnStatics
spawn_over st = record st { initialized = false; sock = none }

module _ {K : Kernel} {V : View K} (L : IsReliable V) (fuel sock : ℕ) where
  -- With a connection, the destructor of each of the libraries for `open`, `close` and the
  -- posix_spawn functions sends the end message and nothing else, and leaves variables without a
  -- connection, with which a second run of it does nothing. The stream keeps the promises of a
  -- stream socket, and there is fuel for each byte, each temporary error and the call of close(2).
  pub destructors_lem :
      (P : Process) (opts : ℕ) (close_st : CloseStatics) (spawn_st : SpawnStatics) (s : K.State)
      → close_st.initialized ≡ true
      → close_st.sock ≡ some sock
      → spawn_st.initialized ≡ true
      → spawn_st.sock ≡ some sock
      → V.up s sock ≡ true
      → length (int_bytes voyeur_msg_done) + V.delays s < fuel
      → (t : K.State) × (V.sent t sock ≡ V.sent s sock ++ int_bytes voyeur_msg_done)
        × (voyeur_cleanup_open K fuel (open_ready opts (some sock)) s ≡ some (open_over opts, t))
        × (voyeur_cleanup_close K fuel close_st s ≡ some (close_over close_st, t))
        × (voyeur_cleanup_posix_spawn K fuel P spawn_st s ≡ some (spawn_over spawn_st, t))
        × (voyeur_cleanup_open K fuel (open_over opts) t ≡ some (open_over opts, t))
        × (voyeur_cleanup_close K fuel (close_over close_st) t ≡ some (close_over close_st, t))
        × (voyeur_cleanup_posix_spawn K fuel P (spawn_over spawn_st) t
            ≡ some (spawn_over spawn_st, t))
  unfolding voyeur_cleanup_open voyeur_cleanup_close voyeur_cleanup_posix_spawn
  destructors_lem P opts close_st spawn_st s c_ready c_sock s_ready s_sock u h =
      let (t, e, sent) = say_done_lem L fuel sock s u h in
      (
        t,
        sent,
        rw (e, ◌>>=◌) refl,
        rw (c_ready, c_sock, voyeur_cleanup_close) (rw (e, ◌>>=◌) refl),
        rw (s_ready, s_sock, voyeur_cleanup_posix_spawn) (rw (e, ◌>>=◌) refl),
        refl,
        refl,
        refl,
      )
