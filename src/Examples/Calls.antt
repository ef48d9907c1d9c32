-- ===== src/Examples/Calls.antt =====
-- Runs of the interposed functions.
use libvoyeur.Client.Exec.Spawned.{posix_spawn_lem, spawn_ready, spawns_on_path}
use libvoyeur.Client.Destructors.{close_over, spawn_over, destructors_lem}
use libvoyeur.Client.Exec.Spawn.{SpawnStatics, voyeur_cleanup_posix_spawn, voyeur_posix_spawnp}
use libvoyeur.Common.{
  ℕ, ◌+◌, ◌≤◌, ◌<◌, ◌≡◌, refl, true, false, Option, none, some, List, [], ◌∷◌, ◌++◌, arith, length,
}
use libvoyeur.Kernel.Pipe.{pipe_link, pipe_link-IsReliable}
use libvoyeur.Kernel.Script.{Link, link, link_view, link-IsReliable}
use libvoyeur.Net.{voyeur_msg_done}
use libvoyeur.Net.Stream.{HasSent}
use libvoyeur.Net.Values.{int_bytes, IsInt}
use libvoyeur.Net.Connect.{
  voyeur_create_client_socket, connect_retries, create_client_socket_lem, HasClosed,
  close_socket_retries, HasRetried, voyeur_close_socket,
}
use libvoyeur.Options.{voyeur_decode_options}
use libvoyeur.Client.Open.{open_ready, voyeur_open, voyeur_cleanup_open}
use libvoyeur.Client.Close.{voyeur_close, voyeur_cleanup_close}
use libvoyeur.Client.Exit.{ExitPath, exit_function, underscore_exit, exit_calls}
use libvoyeur.Client.Calls.{open_event, close_event, open_over, open_lem, close_lem}
use libvoyeur.Client.Ending.{exit_messages, run_exits, exit_calls_lem}
use libvoyeur.Client.Exec.Calls.{execl, run_exec, exec_messages, exec_call_lem}
use libvoyeur.Client.Exec.Sent.{exec_event, reports}
use libvoyeur.Env.{voyeur_augment_environment}
use libvoyeur.Protocol.{bytes_if}
use libvoyeur.Text.{codes}
use libvoyeur.Examples.Data.{
  stream, program, real_open_calls, real_close, connected_close, real_exec_calls, program-AreCstrs,
  refusing, refusing-Counts,
}

create_client_socket_lem_example :
    (t : ℕ) × (voyeur_create_client_socket refusing (some (codes "/s")) 0 ≡ some (some 7, t))
    × (t ≤ 0 + connect_retries)
create_client_socket_lem_example = create_client_socket_lem refusing-Counts (codes "/s") 0

-- The call of close(2) is interrupted twice.
close_socket_retries_example :
    HasRetried pipe_link-IsReliable 7 (stream []) (voyeur_close_socket pipe_link 3 7 (stream []))
close_socket_retries_example =
    close_socket_retries pipe_link-IsReliable 7 3 (stream []) (omega arith)

open_lem_example :
    HasSent link_view 7
      (stream [])
      (open_event {K = link} program real_open_calls 1 (some (codes "f")) 64 420 3)
      (3, open_ready 1 (some 7))
      (voyeur_open link 99 program real_open_calls
        (some (codes "f"))
        64
        420
        (open_ready 1 (some 7))
        (stream []))
unfolding libvoyeur.Protocol.message_bytes libvoyeur.Protocol.open_body libvoyeur.Protocol.bytes_if
    libvoyeur.Net.Values.string_bytes libvoyeur.Common.Bytes.word_bytes libvoyeur.Options.has_flag
open_lem_example =
    open_lem link-IsReliable 99 7 program real_open_calls 1 (some (codes "f")) 64 420 (stream [])
      (omega arith) (omega arith) (refl, refl, omega arith) (omega arith)

abbrev connected_spawn : SpawnStatics
connected_spawn = spawn_ready (codes "/l.so") (codes "H@A@") (codes "/s") 8 (some 7)

destructors_lem_example :
    (t : Link) × (link_view.sent t 7 ≡ [] ++ int_bytes voyeur_msg_done)
    × (voyeur_cleanup_open link 9 (open_ready 1 (some 7)) (stream []) ≡ some (open_over 1, t))
    × (voyeur_cleanup_close link 9 connected_close (stream [])
        ≡ some (close_over connected_close, t))
    × (voyeur_cleanup_posix_spawn link 9 program connected_spawn (stream [])
        ≡ some (spawn_over connected_spawn, t))
    × (voyeur_cleanup_open link 9 (open_over 1) t ≡ some (open_over 1, t))
    × (voyeur_cleanup_close link 9 (close_over connected_close) t
        ≡ some (close_over connected_close, t))
    × (voyeur_cleanup_posix_spawn link 9 program (spawn_over connected_spawn) t
        ≡ some (spawn_over connected_spawn, t))
unfolding libvoyeur.Common.Bytes.word_bytes
destructors_lem_example =
    destructors_lem link-IsReliable 9 7 program 1 connected_close connected_spawn (stream []) refl
      refl refl refl refl (omega arith)

close_lem_example :
    HasSent link_view 7
      (stream [])
      (close_event program 3 0)
      (0, connected_close)
      (voyeur_close link 99 program real_close 3 connected_close (stream []))
unfolding libvoyeur.Protocol.message_bytes libvoyeur.Protocol.close_body
    libvoyeur.Common.Bytes.word_bytes
close_lem_example =
    close_lem link-IsReliable 99 7 program real_close connected_close 3 (stream []) refl refl refl
      refl (refl, refl, omega arith) (omega arith)

abbrev no_exit : ExitPath → ℕ → Link → Link
no_exit way status s = s

exit_calls_lem_example :
    (t : Link) × (link_view.sent t 7 ≡ [] ++ exit_messages program 5)
    × (exit_calls link 99 program no_exit
          ((exit_function, 5) ∷ (underscore_exit, 6) ∷ [])
          false
          (stream [])
        ≡ some (
          true,
          run_exits link 99 program no_exit ((exit_function, 5) ∷ (underscore_exit, 6) ∷ []) t,
        ))
unfolding voyeur_create_client_socket libvoyeur.Net.Connect.connect_socket
    libvoyeur.Net.Connect.connect_loop libvoyeur.Protocol.message_bytes
    libvoyeur.Common.Bytes.word_bytes
exit_calls_lem_example =
    exit_calls_lem link-IsReliable 99 7 program no_exit exit_function 5 ((underscore_exit, 6) ∷ [])
      (stream []) (stream []) refl refl (omega arith)

exec_call_lem_example :
    (t : Link) × (link_view.sent t 7
      ≡ []
        ++ exec_messages program true (codes "/a") (codes "/a" ∷ codes "b" ∷ []) (codes "X=1" ∷ []))
    × (run_exec link 999 program
          (codes "X=1" ∷ [])
          real_exec_calls
          (codes "/a")
          (execl (codes "a") (codes "b" ∷ []))
          (stream [])
        ≡ some (
            real_exec_calls.next_execve
              (codes "/a")
              (codes "/a" ∷ codes "b" ∷ [])
              (voyeur_augment_environment
                (codes "X=1" ∷ [])
                (codes "/l.so")
                (codes "H@A@")
                (codes "/s"))
              t))
unfolding voyeur_create_client_socket libvoyeur.Net.Connect.connect_socket
    libvoyeur.Net.Connect.connect_loop libvoyeur.Protocol.message_bytes libvoyeur.Protocol.exec_body
    libvoyeur.Protocol.bytes_if libvoyeur.Protocol.counted_bytes libvoyeur.Protocol.strings_bytes
    libvoyeur.Net.Values.string_bytes libvoyeur.Common.Bytes.word_bytes libvoyeur.Options.has_flag
    libvoyeur.Options.voyeur_decode_options libvoyeur.Common.Bytes.strnlen
exec_call_lem_example =
    exec_call_lem link-IsReliable 999 7 program (codes "X=1" ∷ []) real_exec_calls (codes "/a")
      (execl (codes "a") (codes "b" ∷ [])) (stream []) (stream []) refl refl refl refl
      (record {
        path_cstr = omega arith;
        argv_cstrs = omega arith;
        envp_cstrs = omega arith;
        search_cstr = tt;
        cwd_cstr = omega arith;
      })
      refl (refl, refl, omega arith) (omega arith)

posix_spawn_lem_example :
    HasSent link_view 7
      (stream [])
      (bytes_if
        (reports 8 true)
        (exec_event program 8 (codes "/a") (codes "a" ∷ []) (codes "X=1" ∷ []) 42 41))
      ((0, 42), spawn_ready (codes "/l.so") (codes "H@A@") (codes "/s") 8 (some 7))
      (voyeur_posix_spawnp link 999 program real_exec_calls
        (codes "/a")
        0
        0
        (codes "a" ∷ [])
        (codes "X=1" ∷ [])
        (spawn_ready (codes "/l.so") (codes "H@A@") (codes "/s") 8 (some 7))
        (stream []))
unfolding libvoyeur.Protocol.message_bytes libvoyeur.Protocol.exec_body libvoyeur.Protocol.bytes_if
    libvoyeur.Protocol.counted_bytes libvoyeur.Protocol.strings_bytes
    libvoyeur.Net.Values.string_bytes libvoyeur.Common.Bytes.word_bytes libvoyeur.Options.has_flag
posix_spawn_lem_example =
    posix_spawn_lem link-IsReliable 999 7 program real_exec_calls spawns_on_path (codes "/a") 0 0
      (codes "a" ∷ []) (codes "X=1" ∷ []) (codes "/l.so") (codes "H@A@") (codes "/s") 8 (stream [])
      program-AreCstrs (refl, refl, omega arith) (refl, refl, omega arith) (omega arith)
