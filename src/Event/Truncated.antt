-- ===== src/Event/Truncated.antt =====
-- `handle_message` of voyeur.c where a client goes away in the middle of an event, and on messages and
-- events of no known type.
use libvoyeur.Common.{
  ℕ, ◌+◌, ◌≤◌, ◌<◌, ◌≡◌, refl, sym, ap, ◌∙◌, true, false, none, some, List, [], ◌++◌, arith, ◌>>=◌,
  length, length-append, inl, inr, ltb, ◌==◌, if◌then◌else◌, lt→ltb, le→ltb,
}
use libvoyeur.Common.Bytes.{length-word_bytes}
use libvoyeur.Kernel.{Kernel, View, IsReliable}
use libvoyeur.Net.{
  success, failure, int_size, voyeur_read_event_type, voyeur_msg_event, voyeur_msg_done,
}
use libvoyeur.Net.Stream.{HasRead, Reads, Reads-pure, Reads->>=_last}
use libvoyeur.Net.Cut.{prefix_cases, read_word-eof}
use libvoyeur.Net.Values.{int_bytes, IsInt, read_msg_type-Reads, read_event_type-Reads}
use libvoyeur.Event.Message.{message-Reads}
use libvoyeur.Event.{
  Context, voyeur_event_max, voyeur_event_exec, voyeur_event_exit, voyeur_event_open,
  voyeur_event_close,
}
use libvoyeur.Event.Handle.{voyeur_handle_event, dispatch, after_msg_type, handle_message}
use libvoyeur.Event.Any.{
  Event, IsSound, type_of, body_of, event_bytes, type_of-IsInt, body-Cuts, message_cut,
}
use libvoyeur.Protocol.{message_bytes}

module _ {K : Kernel} {V : View K} (L : IsReliable V) (fuel fd : ℕ) (context : Context) where
  -- The stream ends within the event type.
  type_cut :
      (s : K.State) (pre : List ℕ)
      → V.up s fd ≡ true
      → V.incoming s fd ≡ int_bytes voyeur_msg_event ++ pre
      → length pre < int_size
      → length (int_bytes voyeur_msg_event ++ pre) + V.delays s < fuel
      → HasRead V fd s [] (failure, none) (handle_message K fuel context fd s)
  unfolding handle_message after_msg_type voyeur_read_event_type dispatch
  type_cut s pre u i short h =
      let len = length-append (int_bytes voyeur_msg_event) pre in
      let (t, e, left, u', d) =
        (read_msg_type-Reads L fuel fd voyeur_msg_event (omega arith)).run s pre u i
          (omega arith) in
      let same : length (V.incoming t fd) ≡ length pre = ap length left in
      let (w, e', left', u'', d') =
        read_word-eof L fuel fd int_size t (omega arith) u' (omega arith) (omega arith) in
      (w, rw (e, ◌>>=◌) (rw (e', ◌>>=◌) refl), left', u'', omega arith)

  -- The stream ends within the body.
  body_cut :
      (ev : Event) (s : K.State) (pre post : List ℕ)
      → IsSound ev
      → V.up s fd ≡ true
      → V.incoming s fd ≡ int_bytes voyeur_msg_event ++ (int_bytes (type_of ev) ++ pre)
      → body_of context ev ≡ pre ++ post
      → 0 < length post
      → length (int_bytes voyeur_msg_event ++ (int_bytes (type_of ev) ++ pre)) + V.delays s < fuel
      → HasRead V fd s [] (success, none) (handle_message K fuel context fd s)
  unfolding handle_message after_msg_type dispatch
  body_cut ev s pre post sound u i split pos h =
      let len = length-append (int_bytes voyeur_msg_event) (int_bytes (type_of ev) ++ pre) in
      let len' = length-append (int_bytes (type_of ev)) pre in
      let (t, e, left, u', d) =
        (read_msg_type-Reads L fuel fd voyeur_msg_event (omega arith)).run s _ u i (omega arith) in
      let (t', e', left', u'', d') =
        (read_event_type-Reads L fuel fd (type_of ev) (type_of-IsInt L fuel fd context ev)).run t
          pre u' left (omega arith) in
      let (w, e'', left'', u''', d'') =
        (body-Cuts L fuel fd context ev sound).run t' pre post split pos u'' left' (omega arith) in
      (w, rw (e, ◌>>=◌) (rw (e', ◌>>=◌) (rw (e'', ◌>>=◌) refl)), left'', u''', omega arith)

  -- One call of `handle_message` on an event that is cut short.
  first_cut :
      (ev : Event) (s : K.State) (pre post : List ℕ)
      → IsSound ev
      → event_bytes context ev ≡ pre ++ post
      → 0 < length post
      → V.up s fd ≡ true
      → V.incoming s fd ≡ pre
      → length pre + V.delays s < fuel
      → HasRead V fd s []
          (if ltb (length pre) (int_size + int_size) then failure else success, none)
          (handle_message K fuel context fd s)
  unfolding message_bytes
  first_cut ev s pre post sound e pos u i h =
      let head = length-word_bytes int_size voyeur_msg_event in
      let head' = length-word_bytes int_size (type_of ev) in
      elim (prefix_cases (int_bytes voyeur_msg_event) (int_bytes (type_of ev) ++ body_of context ev)
        pre post e) [
          | inl (w, e1, pos1) ↦
              let n : length pre < int_size =
                omega (arith, head, ap length e1, length-append pre w) in
              let m : length (V.incoming s fd) ≡ length pre = ap length i in
              rw (lt→ltb (length pre) (int_size + int_size) (omega arith))
                (message_cut L fuel fd context s u (omega arith) (omega arith))
          | inr (more, e1, e2) ↦
              let n : length pre ≡ int_size + length more =
                ap length e1
                ∙ length-append (int_bytes voyeur_msg_event) more
                ∙ ap (λ k. k + length more) head in
              let i' = i ∙ e1 in
              let h' : length (int_bytes voyeur_msg_event ++ more) + V.delays s < fuel =
                rw (sym e1) h in
              elim (prefix_cases (int_bytes (type_of ev)) (body_of context ev) more post e2) [
                | inl (w, e3, pos3) ↦
                    let m : length more < int_size =
                      omega (arith, head', ap length e3, length-append more w) in
                    rw (lt→ltb (length pre) (int_size + int_size) (omega arith))
                      (type_cut s more u i' m h')
                | inr (rest, e3, e4) ↦
                    let m : length more ≡ int_size + length rest =
                      ap length e3
                      ∙ length-append (int_bytes (type_of ev)) rest
                      ∙ ap (λ k. k + length rest) head' in
                    rw (le→ltb (length pre) (int_size + int_size) (omega arith)) (
                      body_cut ev s rest post sound u
                        (i' ∙ ap (λ k. int_bytes voyeur_msg_event ++ k) e3) e4 pos (rw (sym e3) h'))
              ]
        ]

  -- Where a client goes away before the last byte of an event of any of the four types, whose
  -- numbers fit their types and which has the options that the observer asked for, `handle_message`
  -- makes no call of a callback: it reports the end of the connection at once if fewer than 8 bytes
  -- came, and otherwise success, and then the end of the connection when it is called again. The
  -- stream keeps the promises of a stream socket, has a peer until its end, and there is more fuel
  -- than bytes and temporary errors.
  pub truncated_event :
      (ev : Event) (s : K.State) (pre post : List ℕ)
      → IsSound ev
      → event_bytes context ev ≡ pre ++ post
      → 0 < length post
      → V.up s fd ≡ true
      → V.incoming s fd ≡ pre
      → length pre + V.delays s < fuel
      → (t u : K.State) × (handle_message K fuel context fd s
          ≡ some ((if ltb (length pre) 8 then failure else success, none), t))
        × (handle_message K fuel context fd t ≡ some ((failure, none), u))
  truncated_event ev s pre post sound e pos u i h =
      let (t, e1, left, u', d) = first_cut ev s pre post sound e pos u i h in
      let none_left : length (V.incoming t fd) ≡ 0 = ap length left in
      let (w, e2, _, _, _) = message_cut L fuel fd context t u' (omega arith) (omega arith) in
      (t, w, e1, e2)

  unknown_message :
      (type : ℕ)
      → IsInt type
      → voyeur_event_max ≤ type
      → Reads V fuel fd (int_bytes type) (failure, none) (handle_message K fuel context fd)
  unfolding handle_message after_msg_type
  unknown_message type h big =
      let p : (type == voyeur_msg_done) ≡ false = ground arith in
      let q : (type == voyeur_msg_event) ≡ false = ground arith in
      Reads->>=_last V fuel fd _ _ (read_msg_type-Reads L fuel fd type h)
        (rw (p, q) (Reads-pure V fuel fd (failure, none)))

  unknown_event :
      (type : ℕ)
      → voyeur_event_max ≤ type
      → Reads V fuel fd [] none (voyeur_handle_event K fuel context fd type)
  unfolding voyeur_handle_event
  unknown_event type big =
      let e : (type == voyeur_event_exec) ≡ false = ground arith in
      let x : (type == voyeur_event_exit) ≡ false = ground arith in
      let o : (type == voyeur_event_open) ≡ false = ground arith in
      let c : (type == voyeur_event_close) ≡ false = ground arith in
      rw (e, x, o, c) (Reads-pure V fuel fd none)

  -- For a number of 32 bits that is at least `VOYEUR_EVENT_MAX`, as the type of a message,
  -- `handle_message` reads only the type, makes no call and reports the end of the connection; as
  -- the type of an event it reads only the two types, makes no call and keeps the connection.
  -- Either holds of a stream that keeps the promises of a stream socket, with fuel for each byte
  -- and each temporary error.
  pub unknown_types :
      (type : ℕ)
      → IsInt type
      → voyeur_event_max ≤ type
      → Reads V fuel fd (int_bytes type) (failure, none) (handle_message K fuel context fd)
        × Reads V fuel fd (message_bytes type []) (success, none) (handle_message K fuel context fd)
  unknown_types type h big =
      (unknown_message type h big, message-Reads L fuel fd context type h (unknown_event type big))
