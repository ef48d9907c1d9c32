-- ===== src/Examples/Data.antt =====
-- The program, the observer and the states of the runs.
use libvoyeur.Common.{
  ℕ, ◌+◌, refl, true, false, Option, none, some, List, [], ◌∷◌, arith, bytes_eq, if◌then◌else◌,
}
use libvoyeur.Kernel.{Kernel, View, IsReliable, send_failed, read_failed, other_errno, closed}
use libvoyeur.Kernel.Script.{Link, link}
use libvoyeur.Net.Connect.{Counts}
use libvoyeur.Client.Open.{NextOpen}
use libvoyeur.Client.Close.{NextClose, CloseStatics}
use libvoyeur.Client.Exec.{NextExec}
use libvoyeur.Client.Exec.Sent.{AreCstrs}
use libvoyeur.Text.{codes}
use libvoyeur.Event.{Observer, Context}
use libvoyeur.Event.Requested.Opts.{HasByteOpts}
use libvoyeur.Client.{Process, libvoyeur_libs, libvoyeur_opts, libvoyeur_socket}

-- A stream with these bytes to be read, on which the next two calls are interrupted.
abbrev pub stream : List ℕ → Link
stream bytes = record { incoming = bytes; sent = []; hiccups = 2; refusals = 0; closed_fds = [] }

-- The same once the two calls were made, and these bytes were sent.
abbrev pub sent_stream : List ℕ → Link
sent_stream bytes = record {
  incoming = [];
  sent = bytes;
  hiccups = 0;
  refusals = 0;
  closed_fds = [];
}

abbrev variables : List ℕ → Option (List ℕ)
variables name =
    if bytes_eq name libvoyeur_libs
    then some (codes "/l.so")
    else if bytes_eq name libvoyeur_opts
    then some (codes "H@A@")
    else if bytes_eq name libvoyeur_socket
    then some (codes "/s")
    else none

abbrev pub program : Process
program = record { getenv = variables; getcwd = some (codes "/w"); getpid = 41; getppid = 40 }

abbrev observer : ℕ → ℕ → Observer
observer opts cb = record { opts = opts; cb = some cb; userdata = 9 }

-- All four events are observed; exec calls also of what cannot be executed, and `open` with the
-- working directory.
abbrev pub watching : Context
watching = record {
  on_exec = observer 8 1;
  on_exit = observer 0 2;
  on_open = observer 1 3;
  on_close = observer 0 4;
  resource_path = some (codes "/l/");
  server_state = none;
}

pub watching-HasByteOpts : HasByteOpts watching
watching-HasByteOpts = record {
  exec_byte = omega arith;
  exit_byte = omega arith;
  open_byte = omega arith;
  close_byte = omega arith;
}

-- The real `open` and `close`: descriptor 3, and no error.
abbrev pub real_open_calls : NextOpen link
real_open_calls = record { o_creat = 64; next_open = λ path oflag mode s. (3, s) }

abbrev pub real_close : NextClose link
real_close fildes s = (0, s)

abbrev pub connected_close : CloseStatics
connected_close = record {
  initialized = true;
  finalized = false;
  opts = 0;
  sock = some 7;
  looked_up = true;
}

-- The real exec functions: they fail with 1, and a spawn gives the pid 42.
abbrev pub real_exec_calls : NextExec link
real_exec_calls = record {
  access = λ path s. (true, s);
  next_execve = λ path argv envp s. (1, s);
  next_execvpe = λ path argv envp s. (1, s);
  next_posix_spawn = λ path actions attr argv envp s. ((0, 42), s);
  next_posix_spawnp = λ path actions attr argv envp s. ((0, 42), s);
}

pub program-AreCstrs : AreCstrs program (codes "/a") (codes "a" ∷ []) (codes "X=1" ∷ [])
program-AreCstrs = record {
  path_cstr = omega arith;
  argv_cstrs = omega arith;
  envp_cstrs = omega arith;
  search_cstr = tt;
  cwd_cstr = omega arith;
}

-- Sockets that are never connected: the state counts the calls of connect(2).
abbrev pub refusing : Kernel
refusing = record {
  State = ℕ;
  send = λ fd buf s. (send_failed other_errno, s);
  read = λ fd n s. (read_failed other_errno, s);
  close = λ fd s. (closed, s);
  socket = λ s. (some 7, s);
  connect = λ fd path s. (false, s + 1);
  usleep = λ n s. s;
  arc4random_uniform = λ n s. (0, s);
}

pub refusing-Counts : Counts refusing (λ s. s)
refusing-Counts = record {
  connect_counts = λ sock path s. refl;
  socket_counts = λ s. refl;
  usleep_counts = λ n s. refl;
  random_counts = λ n s. refl;
}

-- Seen as a pipe, on which send(2) is refused.
abbrev pub pipe_view : View refusing
pipe_view = record { up = λ s fd. false; sent = λ s fd. []; incoming = λ s fd. []; delays = λ s. 0 }

pub pipe-IsReliable : IsReliable pipe_view
pipe-IsReliable = record {
  send_law = λ s fd buf u pos. absurd (ground arith);
  read_law = λ s fd n u pos. absurd (ground arith);
  close_law = λ s fd. (refl, omega arith);
}
