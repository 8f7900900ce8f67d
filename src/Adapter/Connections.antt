-- ===== src/Adapter/Connections.antt =====
-- The connection of a client: `start`, `stop`, `finish_request` and `heartbeat` of
-- mtconnect_adapter.py. A connection
-- runs in a thread of its own; here nothing else happens while it lasts.
use package.text.Mathlib.Text.{starts_with}
use ros_bridge.Base.{
  socket_error, String, ◌==◌, ◌≡◌, refl, Bool, true, false, ◌&&◌, List, [], ◌∷◌, ◌++◌, arith,
  if◌then◌else◌, Option, none, some, M, ok, err, Outcome, ◌>>◌, modify_state, after, ◌∙◌, eq_iff,
  eq_refl, Option-cases, inl, inr, keep, not,
}
use ros_bridge.Base.Dict.{values, lookup, insert, member, lookup-insert}
use ros_bridge.DataItem.Values.{Number, ◌+++◌}
use ros_bridge.DataItem.{Item, item_values}
use ros_bridge.Adapter.Defs.{
  Sockets, Adapter, send, send_lines, send_separate, send_changed, send_initial, remove_client,
  is_separate, combined_text, format_line,
}
use ros_bridge.Adapter.Clients.{lookup-send_each, lookup-remove_client}

module _ {N S : Type 0} where
  -- `start`, for what the adapter itself keeps.
  unfoldable pub start : Adapter N S → Adapter N S
  start a = record a { running = true }

module _ {N S : Type 0} ⦃k : Sockets S⦄ where
  abbrev shut_each : List S → M (Adapter N S) (Unit {0})
  shut_each [] a = ok tt a
  shut_each (socket ∷ sockets) a = elim (k.shutdown socket) [
    | none ↦ err socket_error a
    | some socket' ↦ shut_each sockets a
  ]

  -- `stop`: the sockets of all clients are shut down, and the first that fails ends it. The clients
  -- stay in the dictionary.
  unfoldable pub stop : M (Adapter N S) (Unit {0})
  stop a = shut_each (values a.clients) a

abbrev pub pong : String → String
pong interval = "* PONG " +++ interval +++ "\n"

module _ {N S : Type 0} ⦃k : Sockets S⦄ where
  abbrev note_pong : String → String → S → Adapter N S → Adapter N S
  note_pong client line socket a = record a {
    clients = insert client socket a.clients;
    sent = a.sent ++ (client, line) ∷ [];
  }

  -- A PONG on the client's socket. A client that no longer stands in the dictionary has had its
  -- socket shut down.
  abbrev answer_ping : String → String → Adapter N S → Option (Adapter N S)
  answer_ping interval client a = elim (lookup client a.clients) [
    | none ↦ none
    | some socket ↦ elim (k.transmit socket (pong interval)) [
      | none ↦ none
      | some socket' ↦ some (note_pong client (pong interval) socket' a)
    ]
  ]

  -- `heartbeat`: each PING is answered by a PONG with the interval; another line ends the loop, and so
  -- does a socket that fails. `interval` is `str(self._heartbeat_interval)`, the lines are what `recv`
  -- returns until it raises.
  unfoldable pub heartbeat : String → String → List String → Adapter N S → Adapter N S
  heartbeat interval client [] a = a
  heartbeat interval client (line ∷ lines) a =
      let answer : Adapter N S = elim (answer_ping interval client a) [
        | none ↦ a
        | some b ↦ heartbeat interval client lines b
      ] in
      if a.running && starts_with line "* PING" then answer else a

  unfoldable pub connect : String → S → Adapter N S → Adapter N S
  connect client request a = record a { clients = insert client request a.clients }

module _ {N S : Type 0} ⦃n : Number N⦄ ⦃k : Sockets S⦄ where
  -- `finish_request`. What `send_initial` raises is not caught.
  unfoldable pub finish_request :
      String → String → String → S → List String → M (Adapter N S) (Unit {0})
  unfolding send_initial
  finish_request time interval client request lines = do
    modify_state (connect client request)
    send_initial time client
    modify_state (heartbeat interval client lines)
    modify_state (remove_client client)

  -- The other clients of the dictionary are as they were.
  abbrev pub Spares : String → Adapter N S → Adapter N S → Type 0
  Spares client a b =
      (other : String) → (client == other) ≡ false → lookup other b.clients ≡ lookup other a.clients

  answer_ping-Spares :
      (interval client : String) (a b : Adapter N S)
      → answer_ping interval client a ≡ some b
      → Spares client a b
  answer_ping-Spares interval client a b e other ne =
      elim (Option-cases (lookup client a.clients)) [
        | inl f ↦ cc
        | inr (socket, f) ↦ elim (Option-cases (k.transmit socket (pong interval))) [
          | inl g ↦ cc
          | inr (socket', g) ↦ ground (arith, lookup-insert client other socket' a.clients)
        ]
      ]

  heartbeat-Spares :
      (interval client : String) (lines : List String) (a : Adapter N S)
      → Spares client a (heartbeat interval client lines a)
  unfolding heartbeat
  heartbeat-Spares interval client [] a other ne = refl
  heartbeat-Spares interval client (line ∷ lines) a other ne =
      elim (Option-cases (answer_ping interval client a)) [
        | inl e ↦ ground arith
        | inr (b, e) ↦ ground (
          arith,
          heartbeat-Spares interval client lines b other ne,
          answer_ping-Spares interval client a b e other ne,
        )
      ]

  send-Spares :
      (time line client : String) (a : Adapter N S)
      → Spares client a (send time line (client ∷ []) a)
  unfolding send member
  send-Spares time line client a other ne = ground (
    arith,
    lookup-send_each (format_line time line) (client ∷ []) other a (refl, tt),
    eq_iff client other,
  )

  send_lines-Spares :
      (time client : String) (lines : List String) (a : Adapter N S)
      → Spares client a (send_lines time lines (client ∷ []) a)
  unfolding send_lines
  send_lines-Spares time client [] a other ne = refl
  send_lines-Spares time client (line ∷ lines) a other ne = ground (
    arith,
    send_lines-Spares time client lines (send time line (client ∷ []) a) other ne,
    send-Spares time line client a other ne,
  )

  send_separate-Spares :
      (time : String) (force : Bool) (client : String) (is : List (Item N)) (a : Adapter N S)
      → Spares client a (after (send_separate time force (client ∷ []) is a))
  unfolding send_separate
  send_separate-Spares time force client [] a other ne = refl
  send_separate-Spares time force client (i ∷ is) a other ne =
      elim (Option-cases (item_values i force)) [
        | inl e ↦ ground (arith, send_separate-Spares time force client is a other ne)
        | inr (lines, e) ↦ ground (
          arith,
          send_separate-Spares time force client is a other ne,
          send_separate-Spares time force client is (send_lines time lines (client ∷ []) a) other
              ne,
          send_lines-Spares time client lines a other ne,
        )
      ]

  send_changed-Spares :
      (time : String) (force : Bool) (client : String) (a : Adapter N S)
      → Spares client a (after (send_changed time (client ∷ []) force a))
  unfolding send_changed
  send_changed-Spares time force client a other ne =
      let separate = keep is_separate a.data_items in
      elim (Option-cases (combined_text force "" (keep (λ i. not (is_separate i)) a.data_items))) [
        | inl e ↦ ground arith
        | inr (text, e) ↦ ground (
          arith,
          send_separate-Spares time force client separate a other ne,
          send_separate-Spares time force client separate (send time text (client ∷ []) a) other ne,
          send-Spares time text client a other ne,
        )
      ]

  connect-Spares :
      (client : String) (request : S) (a : Adapter N S) → Spares client a (connect client request a)
  unfolding connect
  connect-Spares client request a other ne =
      ground (arith, lookup-insert client other request a.clients)

  abbrev pub is_ok : Outcome (Adapter N S) (Unit {0}) → Bool
  is_ok (ok x a) = true
  is_ok (err e a) = false

  -- A connection leaves the other clients as they were, whether it raises or not. If it does not
  -- raise, its own client is no client any more afterwards.
  pub finish_request-Spares :
      (time interval client : String) (request : S) (lines : List String) (a : Adapter N S)
      → let o = finish_request time interval client request lines a in
        Spares client a (after o) × (is_ok o ≡ true → lookup client (after o).clients ≡ none)
  unfolding finish_request send_initial
  finish_request-Spares time interval client request lines a =
      go (send_changed time (client ∷ []) true (connect client request a)) (λ other ne.
        send_changed-Spares time true client (connect client request a) other ne
        ∙ connect-Spares client request a other ne)
    where
      go :
          (o : Outcome (Adapter N S) (Unit {0}))
          → Spares client a (after o)
          → let p : Outcome (Adapter N S) (Unit {0}) = elim o [
            | ok x b ↦ ok tt (remove_client client (heartbeat interval client lines b))
            | err e b ↦ err e b
          ] in
            Spares client a (after p) × (is_ok p ≡ true → lookup client (after p).clients ≡ none)
      go (ok x b) h = (
        (λ other ne. ground (
          arith,
          lookup-remove_client client other (heartbeat interval client lines b),
          heartbeat-Spares interval client lines b other ne,
          h other ne,
        )),
        λ d. ground (
          arith,
          lookup-remove_client client client (heartbeat interval client lines b),
          eq_refl client,
        ),
      )
      go (err e b) h = (h, λ d. cc)
