-- ===== src/Library/Effects.antt =====
-- The effect of `action_cb` on the values that a node serves and on what its clients are sent.
use ros_bridge.Base.{
  ℕ, String, ◌==◌, ◌≡◌, refl, ◌≢◌, refl, ap, true, false, List, [], ◌++◌, map, arith, after,
  if◌then◌else◌, All, ok, some, none, Option, get_elem?, modify, keep, append-nil, eq_iff,
  length-modify, get_elem?-modify_self, get_elem?-modify_ne, Bool-cases, inl, inr,
}
use package.text.Mathlib.TextLemmas.{append-eq-nil_iff}
use ros_bridge.Base.Dict.{Dict, lookup, keys}
use ros_bridge.Base.Unique.{Unique}
use ros_bridge.DataItem.Values.{Number, Value, text, ◌+++◌, value_eq}
use ros_bridge.DataItem.Plain.{DataItem}
use ros_bridge.DataItem.{Item, event, base, set_item}
use ros_bridge.Adapter.Defs.{Sockets, Adapter, sweep_all, send, format_line}
use ros_bridge.Adapter.Gather.{report, due_text, flush}
use ros_bridge.Adapter.Clients.{takes, sent-send_each, keys-Distinct, send_each-Unique}
use ros_bridge.Library.Events.{Node, assign, action_cb}
use ros_bridge.Library.Actions.{
  IsQuiet, IsReady, IsReady-object, object, acted, action_cb_lem, settled, settled-IsQuiet,
  data_items-acted, due_text-modify,
}

-- The line, for each client whose socket takes it, in the order of the dictionary.
abbrev pub told_line : {S : Type 0} ⦃k : Sockets S⦄ → String → Dict S → List (String × String)
told_line line clients =
    map (λ c. (c, line)) (keep (λ c. takes line (lookup c clients)) (keys clients))

module _ {N : Type 0} ⦃n : Number N⦄ where
  pub text_eq : (v : Value N) (s : String) → value_eq v (text s) ≡ true → v ≡ text s
  unfolding value_eq
  text_eq (text t) s h = ap text ((eq_iff t s).0 h)
  text_eq v s h = cc

  -- The event with a value, as it is told to the clients.
  abbrev pub with_value : Value N → DataItem N → Item N
  with_value v c = event (record c { value = v })

  report-ne-empty : (i : Item N) → (report i == "") ≡ false
  report-ne-empty i = elim (Bool-cases (report i == "")) [
    | inl h ↦ absurd (bar ((append-eq-nil_iff {p = "|"}).0 ((eq_iff (report i) "").0 h)).0)
    | inr h ↦ h
  ]
    where
      bar : ◌≢◌ {A = String} "|" ""
      bar = ground (arith, eq_iff "|" "")

module _ {N S : Type 0} ⦃n : Number N⦄ ⦃k : Sockets S⦄ where
  clients-acted :
      (time : String) (i : ℕ) (v : Value N) (d : Node N S)
      → Unique d.adapter.clients
      → Unique (acted time i v d).adapter.clients
  unfolding sweep_all assign send
  clients-acted time i v d u = ground (
    arith,
    send_each-Unique (time +++ due_text (modify d.adapter.data_items i (set_item v)) +++ "\n")
        (keys d.adapter.clients) (assign i v d.adapter) u,
  )

  acted-IsReady :
      (time : String) (i : ℕ) (v : Value N) (d : Node N S) → IsReady d → IsReady (acted time i v d)
  acted-IsReady time i v d r = record {
    quiet = rw (data_items-acted time i v d r) (settled-IsQuiet d.adapter.data_items i v r.quiet);
    clients = clients-acted time i v d r.clients;
    known = λ name j e.
        rw (data_items-acted time i v d r, length-modify d.adapter.data_items i (settled v))
          (r.known name j e);
  }

  -- What a call leaves of a node, for a name of its dictionary: the call succeeds, the dictionary
  -- is as it was, and the invariant holds again.
  pub record Acts (time name : String) (v : Value N) (d e : Node N S) : Type 0 where
    pub done : action_cb time name v d ≡ ok tt e
    pub dict : e.di_dict ≡ d.di_dict
    pub ready : IsReady e

  -- `action_cb` never fails on a name of the dictionary, and keeps the node's invariant.
  pub action_cb-IsReady :
      (time name : String) (i : ℕ) (v : Value N) (d : Node N S)
      → IsReady d
      → lookup name d.di_dict ≡ some i
      → (e : Node N S) × Acts time name v d e
  action_cb-IsReady time name i v d r e = (
    acted time i v d,
    record {
      done = action_cb_lem time name i v d r e;
      dict = refl;
      ready = acted-IsReady time i v d r;
    },
  )

  object-acted :
      (time name : String) (i : ℕ) (v : Value N) (d : Node N S) (c : DataItem N)
      → IsReady d
      → lookup name d.di_dict ≡ some i
      → get_elem? d.adapter.data_items i ≡ some (event c)
      → object name (acted time i v d) ≡ some (settled v (event c))
  object-acted time name i v d c r e f = ground (
    arith,
    data_items-acted time i v d r,
    get_elem?-modify_self d.adapter.data_items i (settled v) f,
  )

  flush-modify-sent :
      (time : String) (i : ℕ) (v : Value N) (a : Adapter N S) (c : DataItem N)
      → All IsQuiet a.data_items
      → Unique a.clients
      → get_elem? a.data_items i ≡ some (event c)
      → (flush time (assign i v a)).sent
        ≡ a.sent
          ++ (if value_eq c.value v
              then []
              else told_line (format_line time (report (with_value v c))) a.clients)
  unfolding assign send
  flush-modify-sent time i v a c q u e = elim (Bool-cases (value_eq c.value v)) [
    | inl h ↦ ground (
      arith,
      due_text-modify a.data_items i v c q e,
      eq_iff (due_text (modify a.data_items i (set_item v))) "",
      append-nil a.sent,
    )
    | inr h ↦ ground (
      arith,
      due_text-modify a.data_items i v c q e,
      report-ne-empty (with_value v c),
      sent-send_each (format_line time (report (with_value v c))) (keys a.clients) (assign i v a)
          (keys-Distinct a.clients u),
    )
  ]

  -- A client that is connected is sent the event's name and new value exactly once, in one line with
  -- the time, if the value differs from the one before by Python's `!=`; otherwise nothing is sent.
  pub action_cb-sent :
      (time name : String) (i : ℕ) (v : Value N) (d : Node N S) (c : DataItem N)
      → IsReady d
      → lookup name d.di_dict ≡ some i
      → get_elem? d.adapter.data_items i ≡ some (event c)
      → (after (action_cb time name v d)).adapter.sent
        ≡ d.adapter.sent
          ++ (if value_eq c.value v
              then []
              else told_line (format_line time (report (with_value v c))) d.adapter.clients)
  unfolding sweep_all
  action_cb-sent time name i v d c r e f =
      rw (action_cb_lem time name i v d r e)
        (flush-modify-sent time i v d.adapter c r.quiet r.clients f)

  -- The value that the node serves under a name.
  abbrev pub served : String → Node N S → Option (Value N)
  served name d = elim (object name d) [ none ↦ none | some item ↦ some (base item).value ]

  -- After `action_cb` with a text, the node serves that text under the name, and under the name of
  -- any other object what it served before.
  pub action_cb-served :
      (time name other : String) (i j : ℕ) (s : String) (d : Node N S)
      → IsReady d
      → lookup name d.di_dict ≡ some i
      → lookup other d.di_dict ≡ some j
      → i ≢ j
      → let d' = after (action_cb time name (text s) d) in
        (served name d' ≡ some (text s)) × (served other d' ≡ served other d)
  unfolding value_eq
  action_cb-served time name other i j s d r e g ne =
      let (c, f) = IsReady-object d name i r e in
      rw (action_cb_lem time name i (text s) d r e) (
        ground (arith, object-acted time name i (text s) d c r e f, text_eq c.value s),
        ground (
          arith,
          data_items-acted time i (text s) d r,
          get_elem?-modify_ne d.adapter.data_items i j (settled (text s)) ne,
        ),
      )

  -- A call on a name of the dictionary, for the nodes that build on it.
  pub action_cb-text :
      (time name : String) (i : ℕ) (s : String) (d : Node N S)
      → IsReady d
      → lookup name d.di_dict ≡ some i
      → (e : Node N S) × (action_cb time name (text s) d ≡ ok tt e)
        × (e.di_dict ≡ d.di_dict)
        × IsReady e
        × (served name e ≡ some (text s))
  action_cb-text time name i s d r e =
      let (c, f) = IsReady-object d name i r e in
      (
        acted time i (text s) d,
        action_cb_lem time name i (text s) d r e,
        refl,
        acted-IsReady time i (text s) d r,
        ground (arith, object-acted time name i (text s) d c r e f, text_eq c.value s),
      )
