-- ===== src/Adapter/Gather.antt =====
-- `complete_gather` on an adapter whose items are all events, as those of the bridge nodes are.
use ros_bridge.Base.{
  String, ◌==◌, ◌≡◌, refl, sym, ap, false, not, List, [], ◌∷◌, map, arith, if◌then◌else◌, keep, All,
  ok, some,
}
use text.Mathlib.TextLemmas.{append_assoc, append-nil, nil-append}
use ros_bridge.Base.Dict.{keys}
use ros_bridge.DataItem.Values.{Number, ◌+++◌, value_str, is_truthy}
use ros_bridge.DataItem.Plain.{values}
use ros_bridge.DataItem.{Item, event, base, begin, complete, sweep_item, item_values}
use ros_bridge.Adapter.Defs.{
  Sockets, Adapter, complete_all, sweep_all, is_separate, send_to_client, send_each, send, is_due,
  combined_text, send_separate, send_changed, complete_gather, remove_client,
}

abbrev pub IsEvent : {N : Type 0} → Item N → Type 0
IsEvent (event d) = d.separate_line ≡ false
IsEvent i = ⊥

module _ {N : Type 0} where
  pub map-begin : (is : List (Item N)) → All IsEvent is → map begin is ≡ is
  unfolding begin
  map-begin [] h = refl
  map-begin (event d ∷ is) h = cc (map-begin is h.1)
  map-begin (i ∷ is) h = absurd h.0

  pub map-complete : (is : List (Item N)) → All IsEvent is → map complete is ≡ is
  unfolding complete
  map-complete [] h = refl
  map-complete (event d ∷ is) h = cc (map-complete is h.1)
  map-complete (i ∷ is) h = absurd h.0

  keep-separate : (is : List (Item N)) → All IsEvent is → keep is_separate is ≡ []
  unfolding is_separate
  keep-separate [] h = refl
  keep-separate (event d ∷ is) h = ground (arith, keep-separate is)
  keep-separate (i ∷ is) h = absurd h.0

  keep-combined : (is : List (Item N)) → All IsEvent is → keep (λ i. not (is_separate i)) is ≡ is
  unfolding is_separate
  keep-combined [] h = refl
  keep-combined (event d ∷ is) h = ground (arith, keep-combined is)
  keep-combined (i ∷ is) h = absurd h.0

  pub sweep-IsEvent : (is : List (Item N)) → All IsEvent is → All IsEvent (map sweep_item is)
  unfolding sweep_item
  sweep-IsEvent [] h = tt
  sweep-IsEvent (event d ∷ is) h = (h.0, sweep-IsEvent is h.1)
  sweep-IsEvent (i ∷ is) h = absurd h.0

-- What the clients are to be told of the events: the name and value of each changed one, in order.
module _ {N : Type 0} ⦃n : Number N⦄ where
  abbrev pub report : Item N → String
  report i =
      "|"
      +++ (base i).name
      +++ "|"
      +++ (if is_truthy (base i).value then value_str (base i).value else "UNAVAILABLE")

  abbrev pub due_text : List (Item N) → String
  due_text [] = ""
  due_text (i ∷ is) = if (base i).changed then report i +++ due_text is else due_text is

  combined_text-due :
      (t : String) (is : List (Item N))
      → All IsEvent is
      → combined_text false t is ≡ some (t +++ due_text is)
  unfolding combined_text is_due item_values values
  combined_text-due t [] h = ap some (sym (append-nil t))
  combined_text-due t (event d ∷ is) h = ground (
    arith,
    combined_text-due t is h.1,
    combined_text-due (t +++ report (event d) +++ "") is h.1,
    append-nil (report (event d)),
    append_assoc t (report (event d)) (due_text is),
  )
  combined_text-due t (i ∷ is) h = absurd h.0

module _ {N S : Type 0} ⦃n : Number N⦄ ⦃k : Sockets S⦄ where
  pub send_each-data_items :
      (line : String) (cs : List String) (a : Adapter N S)
      → (send_each line cs a).data_items ≡ a.data_items
  unfolding send_each send_to_client remove_client
  send_each-data_items line [] a = refl
  send_each-data_items line (c ∷ cs) a =
      ground (arith, send_each-data_items line cs (send_to_client line c a))

  -- The adapter after the text of the changed events has been sent to all clients, if there is any.
  abbrev pub flush : String → Adapter N S → Adapter N S
  flush time a =
      if due_text a.data_items == ""
      then a
      else send time (due_text a.data_items) (keys a.clients) a

  -- On an adapter of events that have no line of their own, `complete_gather` raises nothing: the text
  -- of all changed events goes to all clients in one line, if there is one, and then all is swept.
  pub complete_gather_lem :
      (time : String) (a : Adapter N S)
      → All IsEvent a.data_items
      → complete_gather time a ≡ ok tt (sweep_all (flush time a))
  unfolding complete_gather complete_all send_changed send_separate
  complete_gather_lem time a h = ground (
    arith,
    map-complete a.data_items h,
    keep-separate a.data_items h,
    keep-combined a.data_items h,
    combined_text-due "" a.data_items h,
    nil-append (due_text a.data_items),
  )
