-- ===== src/Event/Requested.antt =====
-- event.c: `voyeur_requested_libs` and `voyeur_requested_opts`, which turn a context into the values of
-- two environment variables.
pub mod Libs
pub mod Opts
use libvoyeur.Common.{
  ℕ, zero, suc, ◌+◌, ◌*◌, Bool, true, false, Option, none, some, List, [], ◌∷◌, ◌++◌, length, set,
  ◌==◌, if◌then◌else◌,
}
use libvoyeur.Common.Bytes.{strnlen}
use libvoyeur.Text.{codes, strlcpy, strlcat}
use libvoyeur.Options.{voyeur_encode_options, observe_exec_silent}
use libvoyeur.Event.{
  Observer, Context, voyeur_event_exec, voyeur_event_exit, voyeur_event_open, voyeur_event_close,
  voyeur_event_max,
}

-- `strrchr(s, c)` as an index.
unfoldable pub strrchr : List ℕ → ℕ → Option ℕ
strrchr [] c = none
strrchr (x ∷ s) c = elim (strrchr s c) [
  | some i ↦ some (suc i)
  | none ↦ if x == c then some 0 else none
]

abbrev pub lib_exec : List ℕ
lib_exec = codes "libvoyeur-exec.so"

abbrev pub lib_exit : List ℕ
lib_exit = codes "libvoyeur-exit.so"

abbrev pub lib_open : List ℕ
lib_open = codes "libvoyeur-open.so"

abbrev pub lib_close : List ℕ
lib_close = codes "libvoyeur-close.so"

-- `sizeof(all_libs)`: each name with a colon behind it, and a NUL.
abbrev pub all_libs_size : ℕ
all_libs_size =
    suc (length (codes "libvoyeur-exec.so:libvoyeur-exit.so:libvoyeur-open.so:libvoyeur-close.so:"))

unfoldable pub compute_libs_size : ℕ → ℕ
compute_libs_size libdir_size = all_libs_size + voyeur_event_max * libdir_size

-- The argument is the file name that dladdr(3) gives for the library, if it gives one.
unfoldable pub get_default_resource_path : Option (List ℕ) → List ℕ
get_default_resource_path none = codes "./"
get_default_resource_path (some fname) = elim (strrchr fname b'/') [
  | none ↦ codes "./"
  | some i ↦ strlcpy (i + 2) fname
]

-- The macro's body for one event: `libs` with `prev`, before and after.
unfoldable pub add_lib : ℕ → List ℕ → Option ℕ → List ℕ → List ℕ × Bool → List ℕ × Bool
add_lib size libdir none name (libs, prev) = (libs, prev)
add_lib size libdir (some cb) name (libs, prev) = (
  strlcat size (strlcat size (if prev then strlcat size libs (codes ":") else libs) libdir) name,
  true,
)

-- The address of `did_force_exec`.
abbrev dummy : ℕ
dummy = 1

force_exec : Context → Context
force_exec context = elim context.on_exec.cb [
  | some cb ↦ context
  | none ↦ record context { on_exec = record (context.on_exec) { cb = some dummy } }
]

-- The callback is taken back if it was the dummy.
restore_exec : Option ℕ → Context → Context
restore_exec (some cb) context = context
restore_exec none context = record context { on_exec = record (context.on_exec) { cb = none } }

-- The string for the callbacks of the four events.
libs_in : ℕ → List ℕ → Option ℕ → Option ℕ → Option ℕ → Option ℕ → List ℕ
libs_in size libdir exec_cb exit_cb open_cb close_cb =
    (add_lib size libdir close_cb lib_close (
      add_lib size libdir open_cb lib_open (
        add_lib size libdir exit_cb lib_exit (add_lib size libdir exec_cb lib_exec ([], false))))).0

unfoldable pub resource_dir : Option (List ℕ) → Context → List ℕ
resource_dir fname context = elim context.resource_path [
  | some path ↦ path
  | none ↦ get_default_resource_path fname
]

-- The string, and the context after the call.
unfoldable pub voyeur_requested_libs : Option (List ℕ) → Context → List ℕ × Context
unfolding force_exec libs_in restore_exec compute_libs_size resource_dir add_lib
voyeur_requested_libs fname context =
    let libdir = resource_dir fname context in
    let libs_size = compute_libs_size (strnlen libdir 4096) in
    let forced = force_exec context in
    (
      libs_in libs_size libdir forced.on_exec.cb forced.on_exit.cb forced.on_open.cb
          forced.on_close.cb,
      restore_exec context.on_exec.cb forced,
    )

silence_exec : Context → Context
silence_exec context = elim context.on_exec.cb [
  | some cb ↦ context
  | none ↦ record context { on_exec = record (context.on_exec) { opts = observe_exec_silent } }
]

-- The buffer of `VOYEUR_EVENT_MAX` bytes, and the context after the call.
unfoldable pub voyeur_requested_opts : Context → List ℕ × Context
unfolding silence_exec
voyeur_requested_opts context =
    let context = silence_exec context in
    let opts : List ℕ = 0 ∷ 0 ∷ 0 ∷ 0 ∷ [] in
    let opts = set opts voyeur_event_exec (voyeur_encode_options context.on_exec.opts) in
    let opts = set opts voyeur_event_exit (voyeur_encode_options context.on_exit.opts) in
    let opts = set opts voyeur_event_open (voyeur_encode_options context.on_open.opts) in
    let opts = set opts voyeur_event_close (voyeur_encode_options context.on_close.opts) in
    (opts, context)
