-- ===== src/Event/Requested/Opts.antt =====
-- The characters of the options: each event's decode to its options, and none of them is the NUL that
-- is to end the string.
use libvoyeur.Common.{ℕ, ◌%◌, ◌<◌, ◌≡◌, refl, none, some, List, [], ◌∷◌, arith, length, All}
use libvoyeur.Options.{
  voyeur_encode_options, voyeur_decode_options, encode_printable, decode-encode,
  observe_exec_silent,
}
use libvoyeur.Event.{
  Context, voyeur_event_exec, voyeur_event_exit, voyeur_event_open, voyeur_event_close,
  voyeur_event_max,
}
use libvoyeur.Event.Requested.{voyeur_requested_opts}

-- The options of every event are bytes.
pub record HasByteOpts (context : Context) : Type 0 where
  pub exec_byte : context.on_exec.opts < 256
  pub exit_byte : context.on_exit.opts < 256
  pub open_byte : context.on_open.opts < 256
  pub close_byte : context.on_close.opts < 256

-- The options that a client of the exec event is given: only `OBSERVE_EXEC_SILENT` with no callback.
abbrev pub exec_opts_of : Context → ℕ
exec_opts_of context = elim context.on_exec.cb [
  | some cb ↦ context.on_exec.opts
  | none ↦ observe_exec_silent
]

exec_opts_of-byte : (context : Context) → HasByteOpts context → exec_opts_of context < 256
exec_opts_of-byte context b = ground arith

-- The buffer of a context with these options.
buffer_lem :
    (context : Context)
    → (voyeur_requested_opts context).0
      ≡ voyeur_encode_options (exec_opts_of context)
        ∷ voyeur_encode_options context.on_exit.opts
        ∷ voyeur_encode_options context.on_open.opts
        ∷ voyeur_encode_options context.on_close.opts
        ∷ []
unfolding voyeur_requested_opts
buffer_lem context = ground arith

-- The options that a client decodes for an event type from the characters that the observer requests.
abbrev pub requested : Context → ℕ → ℕ
requested context type = voyeur_decode_options (some (voyeur_requested_opts context).0) type

-- Where the options of the four events are bytes, the characters that `voyeur_requested_opts` makes
-- decode, as the clients decode them, to each event's options reduced to five bits; for an exec
-- event with no callback they are only `OBSERVE_EXEC_SILENT`.
pub requested_opts_decode :
    (context : Context)
    → HasByteOpts context
    → (requested context voyeur_event_exec ≡ exec_opts_of context % 32)
      × (requested context voyeur_event_exit ≡ context.on_exit.opts % 32)
      × (requested context voyeur_event_open ≡ context.on_open.opts % 32)
      × (requested context voyeur_event_close ≡ context.on_close.opts % 32)
requested_opts_decode context b =
    let os : List ℕ =
      exec_opts_of context
      ∷ context.on_exit.opts
      ∷ context.on_open.opts
      ∷ context.on_close.opts
      ∷ [] in
    let bytes : All (λ o. o < 256) os =
      (exec_opts_of-byte context b, (b.exit_byte, (b.open_byte, (b.close_byte, tt)))) in
    rw (buffer_lem context) (
      decode-encode os voyeur_event_exec bytes (omega arith) (omega arith),
      decode-encode os voyeur_event_exit bytes (omega arith) (omega arith),
      decode-encode os voyeur_event_open bytes (omega arith) (omega arith),
      decode-encode os voyeur_event_close bytes (omega arith) (omega arith),
    )

-- Where the options of the four events are bytes, the characters of `voyeur_requested_opts` fill
-- its buffer of `VOYEUR_EVENT_MAX` bytes, and none is a NUL: the buffer holds no terminated string.
pub requested_opts_unterminated :
    (context : Context)
    → HasByteOpts context
    → (length (voyeur_requested_opts context).0 ≡ voyeur_event_max)
      × All (λ c. 0 < c) (voyeur_requested_opts context).0
requested_opts_unterminated context b = rw (buffer_lem context) (
  refl,
  omega (
    arith,
    encode_printable (exec_opts_of context) (exec_opts_of-byte context b),
    encode_printable context.on_exit.opts b.exit_byte,
    encode_printable context.on_open.opts b.open_byte,
    encode_printable context.on_close.opts b.close_byte,
  ),
)
