-- ===== src/Lib.antt =====
-- libvoyeur watches a program and its children: libraries that the dynamic linker puts in front of
-- the C library (src/voyeur-exec.c, src/voyeur-exit.c, src/voyeur-open.c, src/voyeur-close.c)
-- report calls over a Unix socket to the observing process, whose server (src/voyeur.c) reads the
-- messages (src/net.c, src/event.c) and calls the observer's callbacks. The environment carries the
-- libraries, the options and the socket's path to every child (src/env.c).
--
-- Common   numbers, lists, bytes, and the monad of code that runs on a state and may not return
-- Text     the C string functions that the code calls
-- Kernel   the system calls, as a parameter: send, read, close, socket, connect, usleep; `IsReliable`
--          is what is assumed of a connected stream; Kernel/Script is a kernel that meets it,
--          and Kernel/Pipe one with a descriptor on which send is refused
-- Net      src/net.c: do_write, do_read, the readers and writers of values, the client's socket, the
--          server's socket (Net/Serve); Net/Cut is about streams that end too early
-- Checked  RETURN_ON_FAIL of src/util.h
-- Options  voyeur_encode_options and voyeur_decode_options of src/env.c, and the option bits
-- Env      voyeur_augment_environment of src/env.c
-- Event    src/event.h and src/event.c: contexts, the handlers (Event/Handle, with handle_message of
--          src/voyeur.c), the requested libraries and options (Event/Requested); Event/Any puts the
--          four events together, Event/Cut and Event/Truncated are about events that are cut short
-- Protocol the bytes of each message, as a description on its own
-- Client   the interposed functions: Client/Open, Client/Close, Client/Exit, Client/Exec;
--          Client/Exec/Descent follows the environment through generations of programs; Client/Threads
--          has the steps of threads that call `close`, Client/Destructors the ends of the libraries
-- Server   src/voyeur.c: run_server; Server/Setup has waitpid_thread and voyeur_prepare;
--          Server/Session joins a client and the observer, Server/Session/Events all that a client
--          says; Server/Trace follows any number of rounds, Server/Whole up to the end of the child;
--          Server/Acts is an abstract server, a history of what select, accept, handle_message and
--          close answered at each descriptor, to which Server/Refine relates run_server;
--          Server/Start has voyeur_start, voyeur_exec and voyeur_set_resource_path
-- Memory   what is allocated and freed for a voyeur_context on which no server runs
-- Examples the runs to which the theorems are applied
--
-- State is passed explicitly. A run is `none` where it does not return: where the fuel is used up,
-- a null pointer is used, or memory outside a buffer is written by a count or a length from a
-- message, or by FD_SET of a descriptor of 1024 or more. Loops that the kernel can prolong take
-- fuel; the theorems say how much is enough: one for each byte and each temporary error that is
-- still to come, which `View.delays` counts.
-- A descriptor, an `int`, a `pid_t` and a pointer are numbers; an `int` is its 32-bit pattern, and a
-- descriptor that may be negative is an Option. A C string is the list of its bytes before the NUL. A
-- function that holds a mutex is one step. The static variables of a library are a record
-- that a call takes and returns.
--
-- Not modelled: what voyeur_start, its thread and the handlers of src/event.c allocate and free,
-- log output, flags set on descriptors, the lookup of the next function by the dynamic linker (the
-- functions found are parameters), and vfork. Starting a thread, a process or a pipe, and the file
-- system, are parameters. The server is the one of a build without DEBUG.
pub mod Common
pub mod Text
pub mod Kernel
pub mod Net
pub mod Checked
pub mod Options
pub mod Event
pub mod Protocol
pub mod Client
pub mod Env
pub mod Memory
pub mod Server
mod Examples
