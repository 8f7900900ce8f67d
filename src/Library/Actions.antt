-- ===== src/Library/Actions.antt =====
-- What `action_cb` does on a node whose items are events with nothing to tell.
use ros_bridge.Base.{
  ℕ, zero, suc, ◌<◌, String, ◌≡◌, refl, false, List, [], ◌∷◌, map, arith, if◌then◌else◌, All, ok,
  some, none, Option, get_elem?, modify, length, err, key_error,
}
use text.Mathlib.TextLemmas.{append-nil}
use ros_bridge.Base.Dict.{lookup, keys}
use ros_bridge.Base.Unique.{Unique}
use ros_bridge.DataItem.Values.{Number, Value, ◌+++◌, value_eq}
use ros_bridge.DataItem.Plain.{DataItem, sweep, set_value}
use ros_bridge.DataItem.{Item, event, base, sweep_item, set_item}
use ros_bridge.Adapter.Defs.{Sockets, begin_all, sweep_all, begin_gather, send}
use ros_bridge.Adapter.Gather.{
  IsEvent, map-begin, report, due_text, flush, complete_gather_lem, send_each-data_items,
}
use ros_bridge.Library.Events.{Node, assign, action_cb}

-- An event that has no change to tell.
abbrev pub IsQuiet : {N : Type 0} → Item N → Type 0
IsQuiet i = IsEvent i × ((base i).changed ≡ false)

module _ {N : Type 0} where
  pub quiet-IsEvent : (is : List (Item N)) → All IsQuiet is → All IsEvent is
  quiet-IsEvent [] h = tt
  quiet-IsEvent (i ∷ is) h = (h.0.0, quiet-IsEvent is h.1)

  sweep-quiet : (is : List (Item N)) → All IsQuiet is → map sweep_item is ≡ is
  unfolding sweep_item sweep
  sweep-quiet [] h = refl
  sweep-quiet (event d ∷ is) h = ground (arith, sweep-quiet is h.1)
  sweep-quiet (i ∷ is) h = absurd h.0.0

module _ {N : Type 0} ⦃n : Number N⦄ where
  -- The event after an assignment and a sweep. Python's `!=` decides whether the value is new.
  abbrev pub settled : Value N → Item N → Item N
  settled v (event d) = event (if value_eq d.value v then d else record d { value = v })
  settled v i = i

  pub sweep-modify :
      (is : List (Item N)) (i : ℕ) (v : Value N)
      → All IsQuiet is
      → map sweep_item (modify is i (set_item v)) ≡ modify is i (settled v)
  unfolding sweep_item sweep set_item set_value
  sweep-modify [] i v h = refl
  sweep-modify (event d ∷ is) zero v h = ground (arith, sweep-quiet is h.1)
  sweep-modify (event d ∷ is) (suc i) v h = ground (arith, sweep-modify is i v h.1)
  sweep-modify (j ∷ is) i v h = absurd h.0.0

  pub settled-IsQuiet :
      (is : List (Item N)) (i : ℕ) (v : Value N)
      → All IsQuiet is
      → All IsQuiet (modify is i (settled v))
  settled-IsQuiet [] i v h = tt
  settled-IsQuiet (event d ∷ is) zero v h = ground arith
  settled-IsQuiet (event d ∷ is) (suc i) v h = (h.0, settled-IsQuiet is i v h.1)
  settled-IsQuiet (j ∷ is) i v h = absurd h.0.0

  pub modify-IsEvent :
      (is : List (Item N)) (i : ℕ) (v : Value N)
      → All IsQuiet is
      → All IsEvent (modify is i (set_item v))
  unfolding set_item set_value
  modify-IsEvent [] i v h = tt
  modify-IsEvent (event d ∷ is) zero v h = ground (arith, quiet-IsEvent is h.1)
  modify-IsEvent (event d ∷ is) (suc i) v h = (h.0.0, modify-IsEvent is i v h.1)
  modify-IsEvent (j ∷ is) i v h = absurd h.0.0

  due_text-quiet : (is : List (Item N)) → All IsQuiet is → due_text is ≡ ""
  due_text-quiet [] h = refl
  due_text-quiet (i ∷ is) h = rw h.0.1 (due_text-quiet is h.1)

  -- After one assignment the text to send is that of the assigned event, if its value is new.
  pub due_text-modify :
      (is : List (Item N)) (i : ℕ) (v : Value N) (d : DataItem N)
      → All IsQuiet is
      → get_elem? is i ≡ some (event d)
      → due_text (modify is i (set_item v))
        ≡ (if value_eq d.value v then "" else report (event (record d { value = v })))
  unfolding set_item set_value
  due_text-modify [] i v d h e = cc
  due_text-modify (event c ∷ is) zero v d h e =
      ground (arith, due_text-quiet is h.1, append-nil (report (event (record d { value = v }))))
  due_text-modify (event c ∷ is) (suc i) v d h e = ground (arith, due_text-modify is i v d h.1)
  due_text-modify (j ∷ is) i v d h e = absurd h.0.0

-- The invariant of a node between two calls: its items are events with nothing to tell, its clients
-- are a dictionary, and each name of its dictionary stands for an object that exists.
pub record IsReady {N S : Type 0} (d : Node N S) : Type 0 where
  pub quiet : All IsQuiet d.adapter.data_items
  pub clients : Unique d.adapter.clients
  pub known :
      (name : String) (i : ℕ) → lookup name d.di_dict ≡ some i → i < length d.adapter.data_items

module _ {N S : Type 0} where
  -- The object that a name of the dictionary stands for.
  abbrev pub object : String → Node N S → Option (Item N)
  object name d = elim (lookup name d.di_dict) [
    | none ↦ none
    | some i ↦ get_elem? d.adapter.data_items i
  ]

  pub IsReady-object :
      (d : Node N S) (name : String) (i : ℕ)
      → IsReady d
      → lookup name d.di_dict ≡ some i
      → (e : DataItem N) × (get_elem? d.adapter.data_items i ≡ some (event e))
  IsReady-object d name i r e = find d.adapter.data_items i r.quiet (r.known name i e)
    where
      find :
          (is : List (Item N)) (i : ℕ)
          → All IsQuiet is
          → i < length is
          → (e : DataItem N) × (get_elem? is i ≡ some (event e))
      find [] i h l = absurd (omega arith)
      find (event d ∷ is) zero h l = (d, refl)
      find (event d ∷ is) (suc i) h l = find is i h.1 (omega arith)
      find (j ∷ is) i h l = absurd h.0.0

module _ {N S : Type 0} ⦃n : Number N⦄ ⦃k : Sockets S⦄ where
  -- The node that `action_cb` leaves.
  abbrev pub acted : String → ℕ → Value N → Node N S → Node N S
  acted time i v d = record d { adapter = sweep_all (flush time (assign i v d.adapter)) }

  pub action_cb_lem :
      (time name : String) (i : ℕ) (v : Value N) (d : Node N S)
      → IsReady d
      → lookup name d.di_dict ≡ some i
      → action_cb time name v d ≡ ok tt (acted time i v d)
  unfolding action_cb begin_gather begin_all assign
  action_cb_lem time name i v d r e = ground (
    arith,
    map-begin d.adapter.data_items (quiet-IsEvent d.adapter.data_items r.quiet),
    modify-IsEvent d.adapter.data_items i v r.quiet,
    complete_gather_lem time (assign i v d.adapter),
  )

  -- A name that the dictionary does not have raises KeyError, and leaves the node as it was.
  pub action_cb_unknown :
      (time name : String) (v : Value N) (d : Node N S)
      → IsReady d
      → lookup name d.di_dict ≡ none
      → action_cb time name v d ≡ err key_error d
  unfolding action_cb begin_gather begin_all
  action_cb_unknown time name v d r e =
      ground (arith, map-begin d.adapter.data_items (quiet-IsEvent d.adapter.data_items r.quiet))

  pub data_items-acted :
      (time : String) (i : ℕ) (v : Value N) (d : Node N S)
      → IsReady d
      → (acted time i v d).adapter.data_items ≡ modify d.adapter.data_items i (settled v)
  unfolding sweep_all assign send
  data_items-acted time i v d r = ground (
    arith,
    sweep-modify d.adapter.data_items i v r.quiet,
    send_each-data_items (time +++ due_text (modify d.adapter.data_items i (set_item v)) +++ "\n")
        (keys d.adapter.clients) (assign i v d.adapter),
  )
