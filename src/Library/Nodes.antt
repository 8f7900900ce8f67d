-- ===== src/Library/Nodes.antt =====
-- Nodes that `add_event` sets up, and the types that a goal fits.
use ros_bridge.Base.{
  ℕ, String, ◌==◌, ◌≡◌, refl, Bool, true, false, List, [], ◌∷◌, arith, some, none, length,
  if◌then◌else◌, Outcome, ok, err, All, All-append_one, length-append_one, after, Option-cases, inl,
  inr, Bool-cases, eq_refl, index_error, subst, bind-returns, pure,
}
use ros_bridge.Base.Dict.{lookup, lookup-insert}
use ros_bridge.DataItem.Plain.{new_data_item}
use ros_bridge.DataItem.{event}
use ros_bridge.Adapter.Defs.{Sockets, add_data_item, new_adapter}
use ros_bridge.Adapter.Connections.{start}
use ros_bridge.Library.Goals.{Goal, number, word, goal_type, type_check}
use ros_bridge.DataItem.Values.{Number}
use ros_bridge.Library.Events.{Node, event_name, new_event, add_events, add_event, initialise}
use ros_bridge.Library.Actions.{IsQuiet, IsReady}

module _ {N S : Type 0} where
  new_event-IsReady : (name : String) (d : Node N S) → IsReady d → IsReady (new_event name d)
  unfolding new_event add_data_item new_data_item
  new_event-IsReady name d r = record {
    quiet = All-append_one IsQuiet d.adapter.data_items _ r.quiet ((refl, refl));
    clients = r.clients;
    known = λ other i e. ground (
      arith,
      lookup-insert name other (length d.adapter.data_items) d.di_dict,
      r.known other i,
      length-append_one d.adapter.data_items (event (new_data_item name)),
    );
  }

  -- The tag's event is in the dictionary.
  abbrev pub HasEvent : Node N S → String → Type 0
  HasEvent d tag =
      (name : String) × (i : ℕ) × (event_name tag ≡ some name) × (lookup name d.di_dict ≡ some i)

  pub add_events_end : (d : Node N S) → add_events [] d ≡ ok tt d
  unfolding add_events
  add_events_end d = refl

  pub add_events_step :
      (tag name : String) (tags : List String) (d : Node N S)
      → event_name tag ≡ some name
      → add_events (tag ∷ tags) d ≡ add_events tags (new_event name d)
  unfolding add_events
  add_events_step tag name tags d f = ground arith

  add_events_stop :
      (tag : String) (tags : List String) (d : Node N S)
      → event_name tag ≡ none
      → add_events (tag ∷ tags) d ≡ err index_error d
  unfolding add_events
  add_events_stop tag tags d f = ground arith

  lookup-new_event :
      (name other : String) (d : Node N S)
      → lookup other (new_event name d).di_dict
        ≡ (if name == other then some (length d.adapter.data_items) else lookup other d.di_dict)
  unfolding new_event
  lookup-new_event name other d = lookup-insert name other (length d.adapter.data_items) d.di_dict

  add_events-keeps :
      (tags : List String) (d : Node N S) (name : String) (i : ℕ)
      → lookup name d.di_dict ≡ some i
      → (j : ℕ) × (lookup name (after (add_events tags d)).di_dict ≡ some j)
  add_events-keeps [] d name i e = rw (add_events_end d) (i, e)
  add_events-keeps (tag ∷ tags) d name i e = elim (Option-cases (event_name tag)) [
    | inl f ↦ rw (add_events_stop tag tags d f) (i, e)
    | inr (n, f) ↦ elim (Bool-cases (n == name)) [
      | inl g ↦ rw (add_events_step tag n tags d f) (
          add_events-keeps tags (new_event n d) name (length d.adapter.data_items)
            (ground (arith, lookup-new_event n name d)))
      | inr g ↦
          rw (add_events_step tag n tags d f) (
            add_events-keeps tags (new_event n d) name i
              (ground (arith, lookup-new_event n name d)))
    ]
  ]

  -- `add_event` without a first value keeps a node's invariant, whatever the tags are, also if it
  -- raises. If it does not raise, each tag's name is in the dictionary afterwards.
  pub add_events-IsReady :
      (tags : List String) (d e : Node N S)
      → IsReady d
      → IsReady (after (add_events tags d)) × (add_events tags d ≡ ok tt e → All (HasEvent e) tags)
  add_events-IsReady [] d e r = rw (add_events_end d) (r, λ h. tt)
  add_events-IsReady (tag ∷ tags) d e r = elim (Option-cases (event_name tag)) [
    | inl f ↦ rw (add_events_stop tag tags d f) (r, λ h. absurd (ground arith))
    | inr (name, f) ↦
        let (ready, all) =
          add_events-IsReady tags (new_event name d) e (new_event-IsReady name d r) in
        let (j, kept) =
          add_events-keeps tags (new_event name d) name (length d.adapter.data_items)
            (ground (arith, lookup-new_event name name d, eq_refl name)) in
        rw (add_events_step tag name tags d f) (
          ready,
          λ h. (
            (
              name,
              j,
              f,
              subst (λ (o : Outcome (Node N S) (Unit {0})). lookup name (after o).di_dict ≡ some j)
                  h kept,
            ),
            all h,
          ),
        )
  ]

  -- What is in the dictionary stays there.
  pub add_events-HasEvent :
      (tags : List String) (d : Node N S) (tag : String)
      → HasEvent d tag
      → HasEvent (after (add_events tags d)) tag
  add_events-HasEvent tags d tag (name, i, f, e) =
      let (j, kept) = add_events-keeps tags d name i e in (name, j, f, kept)

no_index : (name : String) (i : ℕ) → lookup name [] ≡ some i → ⊥
unfolding lookup
no_index name i e = cc

module _ {N S : Type 0} where
  -- The node of a constructor, before any data item.
  abbrev pub new_node : ℕ → Node N S
  new_node interval = record { adapter = new_adapter interval; di_dict = [] }

  pub new_node-IsReady : (interval : ℕ) → IsReady {N = N} {S = S} (new_node interval)
  unfolding new_adapter
  new_node-IsReady interval = record {
    quiet = tt;
    clients = tt;
    known = λ name i e. absurd (no_index name i e);
  }

  pub started-IsReady :
      (d : Node N S) → IsReady d → IsReady (record d { adapter = start d.adapter })
  unfolding start
  started-IsReady d r = record { quiet = r.quiet; clients = r.clients; known = r.known }

module _ {N S : Type 0} ⦃n : Number N⦄ ⦃k : Sockets S⦄ where
  pub add_event-plain :
      (time : String) (tags : List String) (d e : Node N S)
      → add_event time tags false d ≡ ok tt e
      → add_events tags d ≡ ok tt e
  unfolding add_event
  add_event-plain time tags d e h =
      let (_, d1, f, g) =
        bind-returns (add_events tags) (λ _. if false then initialise time else pure tt) d e tt h in
      cc (f, g)

module _ {F : Type 0} where
  abbrev pub is_number : Goal F → Bool
  is_number (number x) = true
  is_number (word s) = false

  abbrev pub is_word : Goal F → Bool
  is_word (number x) = false
  is_word (word s) = true

  -- A goal of the agent fits a float slot if it is a number and a string slot if it is none, and it
  -- fits no integer and no Boolean slot; the wide unsigned types raise KeyError.
  type_check_lem :
      (g : Goal F)
      → (type_check "float32" (goal_type g) ≡ some (is_number g))
        × (type_check "float64" (goal_type g) ≡ some (is_number g))
        × (type_check "string" (goal_type g) ≡ some (is_word g))
        × All
            (λ t. type_check t (goal_type g) ≡ some false)
            ("bool" ∷ "int8" ∷ "uint8" ∷ "int16" ∷ "int32" ∷ "int64" ∷ [])
        × All (λ t. type_check t (goal_type g) ≡ none) ("uint16" ∷ "uint32" ∷ "uint64" ∷ [])
  unfolding type_check
  type_check_lem (number x) = (
    refl,
    refl,
    refl,
    (refl, (refl, (refl, (refl, (refl, (refl, tt)))))),
    (refl, (refl, (refl, tt))),
  )
  type_check_lem (word s) = (
    refl,
    refl,
    refl,
    (refl, (refl, (refl, (refl, (refl, (refl, tt)))))),
    (refl, (refl, (refl, tt))),
  )
