-- ===== src/Env/Insert.antt =====
-- The entry for `LD_PRELOAD` that env.c builds in its buffer.
use libvoyeur.Common.{
  ℕ, ◌+◌, ◌-◌, ◌*◌, ◌≤◌, ◌<◌, ◌≡◌, ◌≢◌, inl, inr, refl, ap, ◌∙◌, false, Option, none, some, List,
  ◌∷◌, ◌++◌, arith, length, if◌then◌else◌, length-append, length-take, Bool-cases, le→ltb,
  append_assoc,
}
use libvoyeur.Text.{codes, strlcpy, strlcat, strlcat_fits, strnstr}
use libvoyeur.Env.{insert_libs, env_buf_size, insert_entry}

-- What the variable is to hold: the libraries in front of what it held, unless they are there.
unfoldable pub preload_value : List ℕ → Option (List ℕ) → List ℕ
preload_value libs none = libs
preload_value libs (some existing) =
    if strnstr existing libs (env_buf_size * 2) then existing else libs ++ (b':' ∷ existing)

abbrev pub value_length : Option (List ℕ) → ℕ
value_length none = 0
value_length (some v) = length v

-- With room in the buffer, the new entry is the key and that value.
pub insert_entry-none :
    (libs : List ℕ) → length libs + 12 < env_buf_size → insert_entry libs none ≡ insert_libs ++ libs
unfolding insert_entry strlcpy
insert_entry-none libs h = ground (arith, strlcat_fits env_buf_size insert_libs libs)

-- The entry that is built where the libraries are put in front.
added_entry : List ℕ → List ℕ → List ℕ
added_entry libs existing =
    strlcat env_buf_size (strlcat env_buf_size (strlcat env_buf_size insert_libs libs) (codes ":"))
      existing

added_entry_fits :
    (libs existing : List ℕ)
    → length libs + length existing + 12 < env_buf_size
    → added_entry libs existing ≡ insert_libs ++ (libs ++ (b':' ∷ existing))
unfolding added_entry
added_entry_fits libs existing h =
    let first : strlcat env_buf_size insert_libs libs ≡ insert_libs ++ libs =
      strlcat_fits env_buf_size insert_libs libs (omega arith) in
    let second : strlcat env_buf_size (insert_libs ++ libs) (codes ":")
        ≡ (insert_libs ++ libs) ++ codes ":" =
      strlcat_fits env_buf_size (insert_libs ++ libs) (codes ":")
        (omega (arith, length-append insert_libs libs)) in
    let third = strlcat_fits env_buf_size ((insert_libs ++ libs) ++ codes ":") existing (
      omega
        (arith, length-append insert_libs libs, length-append (insert_libs ++ libs) (codes ":"))) in
    rw (first, second)
      (third
        ∙ append_assoc (insert_libs ++ libs) (codes ":") existing
        ∙ append_assoc insert_libs libs (codes ":" ++ existing))

insert_entry-added :
    (libs existing : List ℕ) (i : ℕ)
    → strnstr existing libs (env_buf_size * 2) ≡ false
    → length libs + length existing ≤ env_buf_size
    → insert_entry libs (some (i, existing)) ≡ added_entry libs existing
unfolding insert_entry strlcpy added_entry
insert_entry-added libs existing i missing h = rw (missing, le→ltb _ _ h) refl

pub insert_entry-some :
    (libs existing : List ℕ) (i : ℕ)
    → length libs + length existing + 12 < env_buf_size
    → insert_entry libs (some (i, existing)) ≡ insert_libs ++ preload_value libs (some existing)
unfolding insert_entry preload_value strlcpy
insert_entry-some libs existing i h = elim (Bool-cases (strnstr existing libs (env_buf_size * 2))) [
  | inl there ↦ rw there (strlcat_fits env_buf_size insert_libs existing (omega arith))
  | inr missing ↦
      insert_entry-added libs existing i missing (omega arith)
      ∙ added_entry_fits libs existing h
      ∙ rw missing refl
]

strlcat_short :
    (size : ℕ) (dst src : List ℕ) → length dst < size → length (strlcat size dst src) < size
unfolding strlcat
strlcat_short size dst src h = ground (arith, length-take (size - 1) (dst ++ src))

added_entry_short : (libs existing : List ℕ) → length (added_entry libs existing) < env_buf_size
unfolding added_entry
added_entry_short libs existing = strlcat_short env_buf_size _ existing (
    strlcat_short env_buf_size _ (codes ":")
      (strlcat_short env_buf_size insert_libs libs (omega arith)))

-- Where the libraries are not in the old value of `LD_PRELOAD`, and the lengths of both pass the
-- test for room but leave less than the 12 bytes for the key and the colon and one for the NUL, the
-- new entry stays within the buffer and is not the key with the libraries and the old value: it was
-- cut.
pub insert_entry_cut :
    (libs existing : List ℕ) (i : ℕ)
    → strnstr existing libs (env_buf_size * 2) ≡ false
    → length libs + length existing ≤ env_buf_size
    → env_buf_size ≤ length libs + length existing + 12
    → (length (insert_entry libs (some (i, existing))) < env_buf_size)
      × (insert_entry libs (some (i, existing)) ≢ insert_libs ++ preload_value libs (some existing))
unfolding preload_value
insert_entry_cut libs existing i missing fits tight =
    rw (insert_entry-added libs existing i missing fits, missing)
      (
        added_entry_short libs existing,
        λ e. omega (
          arith,
          ap length e,
          added_entry_short libs existing,
          length-append libs (b':' ∷ existing),
        ),
      )
