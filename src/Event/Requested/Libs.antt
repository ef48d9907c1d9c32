-- ===== src/Event/Requested/Libs.antt =====
-- The list of libraries is whole: its buffer has room for every directory up to 4096 bytes long.
use libvoyeur.Common.{
  ℕ, suc, ◌+◌, ◌*◌, ◌≤◌, ◌<◌, ◌≡◌, refl, sym, ap, ◌∙◌, Bool, true, false, Option, none, some, List,
  [], ◌∷◌, ◌++◌, arith, length, length-append, append_assoc, append-nil,
}
use libvoyeur.Common.Bytes.{strnlen, strnlen-min, IsCstr}
use libvoyeur.Text.{codes, strlcat, strlcat_fits}
use libvoyeur.Event.{Context}
use libvoyeur.Event.Requested.{
  dummy, lib_exec, lib_exit, lib_open, lib_close, compute_libs_size, add_lib, resource_dir,
  force_exec, restore_exec, libs_in, voyeur_requested_libs,
}

-- What one further event adds to the list.
abbrev pub part : Option ℕ → List ℕ → List ℕ → List ℕ
part none libdir name = []
part (some cb) libdir name = b':' ∷ (libdir ++ name)

-- The list: the exec library always, and in the order of the event types those of the events with a
-- callback.
abbrev pub libs_of : List ℕ → Option ℕ → Option ℕ → Option ℕ → List ℕ
libs_of libdir exit_cb open_cb close_cb =
    (((libdir ++ lib_exec) ++ part exit_cb libdir lib_exit) ++ part open_cb libdir lib_open)
    ++ part close_cb libdir lib_close

length-part :
    (cb : Option ℕ) (libdir name : List ℕ)
    → length (part cb libdir name) ≤ suc (length libdir + length name)
length-part none libdir name = omega arith
length-part (some cb) libdir name = omega (arith, length-append libdir name)

add_lib-part :
    (size : ℕ) (libdir : List ℕ) (cb : Option ℕ) (name libs : List ℕ)
    → length libs + 1 + length libdir + length name < size
    → add_lib size libdir cb name (libs, true) ≡ (libs ++ part cb libdir name, true)
unfolding add_lib
add_lib-part size libdir none name libs h = ap (λ l. (l, true)) (sym (append-nil libs))
add_lib-part size libdir (some cb) name libs h =
    let colon : strlcat size libs (codes ":") ≡ libs ++ codes ":" =
      strlcat_fits size libs (codes ":") (omega arith) in
    let dir : strlcat size (libs ++ codes ":") libdir ≡ (libs ++ codes ":") ++ libdir =
      strlcat_fits size (libs ++ codes ":") libdir
        (omega (arith, length-append libs (codes ":"))) in
    let whole =
      strlcat_fits size ((libs ++ codes ":") ++ libdir) name
        (omega (arith, length-append (libs ++ codes ":") libdir, length-append libs (codes ":"))) in
    ap (λ l. (l, true))
      (rw (colon, dir)
        (whole
          ∙ append_assoc (libs ++ codes ":") libdir name
          ∙ append_assoc libs (codes ":") (libdir ++ name)))

add_lib_first :
    (size : ℕ) (libdir : List ℕ) (cb : ℕ) (name : List ℕ)
    → length libdir + length name < size
    → add_lib size libdir (some cb) name ([], false) ≡ (libdir ++ name, true)
unfolding add_lib
add_lib_first size libdir cb name h =
    ap (λ l. (l, true))
      (rw (strlcat_fits size [] libdir (omega arith)) (strlcat_fits size libdir name h))

libs_in_lem :
    (size : ℕ) (libdir : List ℕ) (cb : ℕ) (exit_cb open_cb close_cb : Option ℕ)
    → 72 + 4 * length libdir < size
    → libs_in size libdir (some cb) exit_cb open_cb close_cb
      ≡ libs_of libdir exit_cb open_cb close_cb
unfolding libs_in
libs_in_lem size libdir cb exit_cb open_cb close_cb h =
    let one = libdir ++ lib_exec in
    let two = one ++ part exit_cb libdir lib_exit in
    let three = two ++ part open_cb libdir lib_open in
    let n1 = length-append libdir lib_exec in
    let n2 = length-append one (part exit_cb libdir lib_exit) in
    let n3 = length-append two (part open_cb libdir lib_open) in
    let p2 = length-part exit_cb libdir lib_exit in
    let p3 = length-part open_cb libdir lib_open in
    let close_after = λ (q : List ℕ × Bool). add_lib size libdir close_cb lib_close q in
    let open_after = λ (q : List ℕ × Bool). close_after (add_lib size libdir open_cb lib_open q) in
    let exit_after = λ (q : List ℕ × Bool). open_after (add_lib size libdir exit_cb lib_exit q) in
    ap (λ q. q.0)
      (ap exit_after (add_lib_first size libdir cb lib_exec (omega arith))
        ∙ ap open_after (add_lib-part size libdir exit_cb lib_exit one (omega arith))
        ∙ ap close_after (add_lib-part size libdir open_cb lib_open two (omega arith))
        ∙ add_lib-part size libdir close_cb lib_close three (omega arith))

-- The call sets a callback for exec events where there is none, and takes it back.
force_exec_lem :
    (context : Context)
    → (cb : ℕ) × ((force_exec context).on_exec.cb ≡ some cb)
      × ((force_exec context).on_exit.cb ≡ context.on_exit.cb)
      × ((force_exec context).on_open.cb ≡ context.on_open.cb)
      × ((force_exec context).on_close.cb ≡ context.on_close.cb)
      × (restore_exec context.on_exec.cb (force_exec context) ≡ context)
unfolding force_exec restore_exec
force_exec_lem context = (
  elim context.on_exec.cb [ some cb ↦ cb | none ↦ dummy ],
  ground arith,
  ground arith,
  ground arith,
  ground arith,
  ground arith,
)

buffer_size :
    (d : List ℕ)
    → IsCstr d
    → length d ≤ 4096
    → 72 + 4 * length d < compute_libs_size (strnlen d 4096)
unfolding compute_libs_size
buffer_size d c h = omega (arith, strnlen-min d 4096 c)

requested_libs_at :
    (fname : Option (List ℕ)) (context : Context)
    → voyeur_requested_libs fname context ≡ (
      libs_in
          (compute_libs_size (strnlen (resource_dir fname context) 4096))
          (resource_dir fname context)
          (force_exec context).on_exec.cb
          (force_exec context).on_exit.cb
          (force_exec context).on_open.cb
          (force_exec context).on_close.cb,
      restore_exec context.on_exec.cb (force_exec context),
    )
unfolding voyeur_requested_libs
requested_libs_at fname context = refl

-- For a directory that is a C string of at most 4096 bytes, `voyeur_requested_libs` gives the whole
-- list of libraries, the exec library always and the others where there is a callback, joined by
-- colons and never cut by the buffer, and leaves the context as it was.
pub requested_libs_lem :
    (fname : Option (List ℕ)) (context : Context)
    → IsCstr (resource_dir fname context)
    → length (resource_dir fname context) ≤ 4096
    → voyeur_requested_libs fname context ≡ (
      libs_of
          (resource_dir fname context)
          context.on_exit.cb
          context.on_open.cb
          context.on_close.cb,
      context,
    )
requested_libs_lem fname context c h =
    let (cb, e, e1, e2, e3, restored) = force_exec_lem context in
    requested_libs_at fname context
    ∙ rw (restored, e, e1, e2, e3)
        (ap (λ l. (l, context))
          (libs_in_lem _ (resource_dir fname context) cb context.on_exit.cb context.on_open.cb
            context.on_close.cb (buffer_size _ c h)))
