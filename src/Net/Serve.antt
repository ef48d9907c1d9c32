-- ===== src/Net/Serve.antt =====
-- net.c: `voyeur_create_server_socket`, over the calls on the file system that it makes.
use libvoyeur.Common.{
  ℕ, ◌+◌, ◌<◌, ◌≡◌, refl, ap, ◌∙◌, Option, none, some, List, ◌++◌, arith, M, pure, call, ◌>>=◌,
  length, length-append, >>=-eq-some, All-append,
}
use libvoyeur.Common.Bytes.{IsCstr}
use libvoyeur.Text.{codes, strlcpy, strlcat, strlcpy_fits, strlcat_fits}
use libvoyeur.Kernel.{Kernel}
use libvoyeur.Net.{Status, success, failure}
use libvoyeur.Net.Connect.{sun_path_size}

-- A negative descriptor is `none`. mkdtemp(3) gives what the array of its template then holds, and
-- makes that directory.
pub record ServeCalls (K : Kernel) : Type 0 where
  pub mkdtemp : List ℕ → K.State → List ℕ × K.State
  pub unlink : List ℕ → K.State → Status × K.State
  pub rmdir : List ℕ → K.State → Status × K.State
  pub bind : Option ℕ → List ℕ → K.State → Status × K.State
  pub listen : Option ℕ → ℕ → K.State → Status × K.State

abbrev pub sockdir_template : List ℕ
sockdir_template = codes "/tmp/libvoyeur-XXXXXXXXX"

-- The address in a directory.
unfoldable pub socket_path : List ℕ → List ℕ
socket_path sockdir = strlcat sun_path_size (strlcpy sun_path_size sockdir) (codes "/socket")

-- `RETURN_ERROR_ON_FAIL`
unfoldable pub or_error : {S : Type 0} → M S (Option ℕ) → Status → M S (Option ℕ)
or_error next success = next
or_error next failure = pure none

module _ (K : Kernel) (F : ServeCalls K) where
  -- What follows socket(2).
  unfoldable pub bind_and_listen : List ℕ → Option ℕ → M K.State (Option ℕ)
  bind_and_listen path server_sock =
      call (F.bind server_sock path)
      >>= or_error (call (F.listen server_sock 200) >>= or_error (pure server_sock))

  -- The socket, and the address that the caller's structure then holds.
  unfoldable pub voyeur_create_server_socket : M K.State (Option ℕ × List ℕ)
  voyeur_create_server_socket = do
    sockdir ← call (F.mkdtemp sockdir_template)
    _ ← call (F.unlink (socket_path sockdir))
    server_sock ← call K.socket
    result ← bind_and_listen (socket_path sockdir) server_sock
    pure (result, socket_path sockdir)

-- What mkdtemp(3), bind(2) and listen(2) promise, where `bound` tells the address of a socket.
pub record IsServing (K : Kernel) (F : ServeCalls K) (bound : K.State → ℕ → Option (List ℕ))
    : Type 0 where
  pub mkdtemp_law :
      (template : List ℕ) (s : K.State)
      → IsCstr template
      → IsCstr (F.mkdtemp template s).0 × (length (F.mkdtemp template s).0 ≡ length template)
  pub bind_law :
      (sock : ℕ) (path : List ℕ) (s t : K.State)
      → F.bind (some sock) path s ≡ (success, t)
      → bound t sock ≡ some path
  pub listen_law :
      (sock backlog : ℕ) (s : K.State)
      → bound (F.listen (some sock) backlog s).1 sock ≡ bound s sock

-- No directory that mkdtemp(3) can make is too long for the address.
pub socket_path_fits :
    (sockdir : List ℕ)
    → length sockdir ≡ length sockdir_template
    → socket_path sockdir ≡ sockdir ++ codes "/socket"
unfolding socket_path
socket_path_fits sockdir h =
    rw (strlcpy_fits sun_path_size sockdir (omega arith))
      (strlcat_fits sun_path_size sockdir (codes "/socket") (omega arith))

or_error_cases :
    {S : Type 0} (next : M S (Option ℕ)) (r : Status) {s t : S} {sock : ℕ}
    → or_error next r s ≡ some (some sock, t)
    → (r ≡ success) × (next s ≡ some (some sock, t))
unfolding or_error
or_error_cases next success e = (refl, e)
or_error_cases next failure e = cc

module _ {K : Kernel} {F : ServeCalls K} {bound : K.State → ℕ → Option (List ℕ)}
    (L : IsServing K F bound) where
  bind_and_listen_lem :
      (path : List ℕ) (server_sock : Option ℕ) {sock : ℕ} (s : K.State) {t : K.State}
      → bind_and_listen K F path server_sock s ≡ some (some sock, t)
      → bound t sock ≡ some path
  unfolding bind_and_listen
  bind_and_listen_lem path none s e =
      let (ok, e1) = or_error_cases _ (F.bind none path s).0 e in
      let (ok', e2) = or_error_cases (pure none) (F.listen none 200 (F.bind none path s).1).0 e1 in
      cc
  bind_and_listen_lem path (some sock) s e =
      let s1 = (F.bind (some sock) path s).1 in
      let (ok, e1) = or_error_cases _ (F.bind (some sock) path s).0 e in
      let (ok', e2) = or_error_cases (pure (some sock)) (F.listen (some sock) 200 s1).0 e1 in
      let at_last = L.listen_law sock 200 s1 in let at_first = L.bind_law sock path s s1 (cc) in cc

  -- A server socket that was made is bound to the address that is given back, a C string that is never
  -- cut short.
  pub create_server_socket_lem :
      (sock : ℕ) (path : List ℕ) (s t : K.State)
      → voyeur_create_server_socket K F s ≡ some ((some sock, path), t)
      → (bound t sock ≡ some path) × (length path ≡ 31) × IsCstr path
  unfolding voyeur_create_server_socket
  create_server_socket_lem sock path s t e =
      let made = F.mkdtemp sockdir_template s in
      let (cstr, len) = L.mkdtemp_law sockdir_template s (ground arith) in
      let fits = socket_path_fits made.0 len in
      let cleared = F.unlink (socket_path made.0) made.1 in
      let opened = K.socket cleared.1 in
      let (result, u, run, last) =
        >>=-eq-some (bind_and_listen K F (socket_path made.0) opened.0)
          (λ result. pure (result, socket_path made.0)) opened.1 e in
      let same : path ≡ made.0 ++ codes "/socket" = cc in
      let run' : bind_and_listen K F (socket_path made.0) opened.0 opened.1 ≡ some (some sock, t) =
        cc in
      let at = bind_and_listen_lem (socket_path made.0) opened.0 opened.1 run' in
      (
        cc,
        ap length same ∙ length-append made.0 (codes "/socket") ∙ ap (λ n. n + 7) len,
        rw same
            (All-append (λ c. (0 < c) × (c < 256)) made.0 (codes "/socket") cstr (ground arith)),
      )
