-- ===== src/Comms/Handler/Endings.antt =====
-- comms/custom.py, BaseHandler.handle: what a connection delivers, and how it ends.
use armv.Common.{
  ◌≡◌, refl, sym, ap, ◌∙◌, false, List, [], ◌∷◌, ◌++◌, append_assoc, append-nil, Option, some,
  Result, All, if◌then◌else◌,
}
use armv.Common.Bytes.{Bytes}
use armv.Custom.Framing.{
  Handler, Outcome, finished, failed, out_of_fuel, joined, before, then_with, and_then,
  process_data, feed, start,
}
use armv.Custom.Framing.Streams.{IsFramable, frames, collected, Answers, feed-frames}
use armv.Comms.Transport.{
  Event, called, socket_closed, written, Comms, happens, set_connected, disconnect, handle, calls,
}
use armv.Comms.Handler.{
  Read, silent, received, broken, returned, handle_all, after_read, read_loop, handle_connection,
}

-- The bytes of reads that do not break off.
abbrev pub received_bytes : List Read → List Bytes
received_bytes [] = []
received_bytes (silent ∷ reads) = received_bytes reads
received_bytes (received bytes ∷ reads) = bytes ∷ received_bytes reads
received_bytes (broken ∷ reads) = []

abbrev pub IsUnbroken : List Read → Type 0
IsUnbroken [] = Unit {0}
IsUnbroken (silent ∷ reads) = IsUnbroken reads
IsUnbroken (received bytes ∷ reads) = IsUnbroken reads
IsUnbroken (broken ∷ reads) = ⊥

module _ {M : Type 0} (factory : Bytes → Result (Option M)) where
  handle_all-append :
      (ms ns : List M) (c : Comms M)
      → handle_all factory (ms ++ ns) c ≡ handle_all factory ns (handle_all factory ms c)
  unfolding handle_all
  handle_all-append [] ns c = refl
  handle_all-append (m ∷ ms) ns c = handle_all-append ms ns (handle m c)

  calls-append : (xs ys : List (Event M)) → calls (xs ++ ys) ≡ calls xs ++ calls ys
  calls-append [] ys = refl
  calls-append (written bytes ∷ xs) ys = calls-append xs ys
  calls-append (socket_closed ∷ xs) ys = calls-append xs ys
  calls-append (called m ∷ xs) ys = ap (λ l. m ∷ l) (calls-append xs ys)

  -- Handling messages calls back with each, and leaves the connection as it is.
  abbrev pub IsHandled : List M → Comms M → Comms M → Type 0
  IsHandled ms c d =
      (calls d.events ≡ calls c.events ++ ms)
      × (d.connected ≡ c.connected)
      × (d.has_socket ≡ c.has_socket)
      × (d.done ≡ c.done)

  pub handle_all-IsHandled : (ms : List M) (c : Comms M) → IsHandled ms c (handle_all factory ms c)
  unfolding handle_all handle
  handle_all-IsHandled [] c = (sym (append-nil (calls c.events)), refl, refl, refl)
  handle_all-IsHandled (m ∷ ms) c =
      let (all, connected, socket, done) = handle_all-IsHandled ms (handle m c) in
      (
        all
            ∙ ap (λ l. l ++ ms) (calls-append c.events (called m ∷ []))
            ∙ append_assoc (calls c.events) (m ∷ []) ms,
        connected,
        socket,
        done,
      )

  finished-eq :
      (h h' : Handler) (ms ms' : List M) → finished h ms ≡ finished h' ms' → (h ≡ h') × (ms ≡ ms')
  finished-eq h h' ms ms' e = (cc e, cc e)

  then_with-finished :
      (ms : List M) (o : Outcome M) (h : Handler) (all : List M)
      → then_with ms o ≡ finished h all
      → (rest : List M) × (o ≡ finished h rest) × (all ≡ ms ++ rest)
  then_with-finished [] o h all e = (all, e, refl)
  then_with-finished (m ∷ ms) o h all e =
      go (λ ms' q. then_with-finished ms o h ms' q) (then_with ms o) refl e
    where
      go :
          ((ms' : List M)
            → then_with ms o ≡ finished h ms'
            → (rest : List M) × (o ≡ finished h rest) × (ms' ≡ ms ++ rest))
          → (p : Outcome M) → then_with ms o ≡ p
          → before (some m) p ≡ finished h all
          → (rest : List M) × (o ≡ finished h rest) × (all ≡ m ∷ (ms ++ rest))
      go ih (finished h' ms') q f =
          let (same, all_same) = finished-eq h' h (m ∷ ms') all f in
          let (rest, g, size) = ih ms' (q ∙ ap (λ h''. finished h'' ms') same) in
          (rest, g, sym all_same ∙ ap (λ l. m ∷ l) size)
      go ih (failed x ms') q f = cc f
      go ih out_of_fuel q f = cc f

  -- Reads that do not break off are calls of process_data in a row.
  read_loop-feed :
      (reads later : List Read) (h h' : Handler) (ms : List M) (c : Comms M)
      → IsUnbroken reads
      → feed factory h (received_bytes reads) ≡ finished h' ms
      → read_loop factory (reads ++ later) h c
        ≡ read_loop factory later h' (handle_all factory ms c)
  unfolding read_loop feed handle_all
  read_loop-feed [] later h h' ms c u e =
      let (same, none_yet) = finished-eq h h' [] ms e in
      ap (λ g. read_loop factory later g c) same
      ∙ ap (λ l. read_loop factory later h' (handle_all factory l c)) none_yet
  read_loop-feed (silent ∷ reads) later h h' ms c u e = read_loop-feed reads later h h' ms c u e
  read_loop-feed (received bytes ∷ reads) later h h' ms c u e =
      go (λ g rest d f. read_loop-feed reads later g h' rest d u f) (process_data factory h bytes) e
    where
      go :
          ((g : Handler) (rest : List M) (d : Comms M)
            → feed factory g (received_bytes reads) ≡ finished h' rest
            → read_loop factory (reads ++ later) g d
              ≡ read_loop factory later h' (handle_all factory rest d))
          → (o : Outcome M)
          → and_then o (λ g. feed factory g (received_bytes reads)) ≡ finished h' ms
          → after_read factory (read_loop factory (reads ++ later)) o c
            ≡ read_loop factory later h' (handle_all factory ms c)
      go ih (finished g first) f =
          let (rest, k, all) =
            then_with-finished first (feed factory g (received_bytes reads)) h' ms f in
          ih g rest (handle_all factory first c) k
          ∙ ap (read_loop factory later h')
              (sym (handle_all-append first rest c) ∙ ap (λ l. handle_all factory l c) (sym all))
      go ih (failed x first) f = cc f
      go ih out_of_fuel f = cc f
  read_loop-feed (broken ∷ reads) later h h' ms c u e = absurd u

  -- Whatever the reads of a connection cut the frames into, and however often nothing comes, every
  -- message that the factory makes of them is given to the callback in order; the connection is then
  -- closed when it breaks off, if the factory raises on no frame.
  pub handle_connection-frames :
      (g : Bytes → Option M) (ms : List Bytes) (reads later : List Read) (c : Comms M)
      → All IsFramable ms
      → Answers factory g ms
      → IsUnbroken reads
      → joined (received_bytes reads) ≡ frames ms
      → (d : Comms M) × (handle_connection factory (reads ++ broken ∷ later) c ≡ (returned, d))
        × (calls d.events ≡ calls c.events ++ collected g ms)
        × (d.connected ≡ false)
        × (d.has_socket ≡ false)
  unfolding handle_connection read_loop disconnect
  handle_connection-frames g ms reads later c framable answers unbroken cut =
      let all = collected g ms in
      let last : Comms M = handle_all factory all (set_connected c) in
      let (events, connected, socket, done) = handle_all-IsHandled all (set_connected c) in
      (
        record (happens socket_closed last) { has_socket = false; connected = false },
        read_loop-feed reads (broken ∷ later) start start all (set_connected c) unbroken
              (feed-frames factory g ms (received_bytes reads) framable answers cut)
            ∙ ap
                (λ b. (
                  returned,
                  if b
                      then record (happens socket_closed last) {
                        has_socket = false;
                        connected = false;
                      }
                      else last,
                ))
                socket,
        calls-append last.events (socket_closed ∷ []) ∙ append-nil (calls last.events) ∙ events,
        refl,
        refl,
      )
