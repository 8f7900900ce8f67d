-- ===== src/Library/Events.antt =====
-- `add_event` and `action_cb` of bridge_library.py. A node keeps an adapter and a dictionary of its
-- events; an event of the dictionary is the object at an index of the adapter's list.
use ros_bridge.Base.{
  ℕ, String, Bool, List, [], ◌∷◌, if◌then◌else◌, length, modify, Option, some, M, Outcome, ok, err,
  ◌>>=◌, ◌>>◌, pure, or_raise, modify_state, index_error, key_error,
}
use ros_bridge.Base.Dict.{Dict, lookup, insert, values}
use ros_bridge.DataItem.Values.{Number, Value, text}
use ros_bridge.DataItem.Plain.{new_data_item}
use ros_bridge.DataItem.{event, set_item}
use ros_bridge.Adapter.Defs.{Sockets, Adapter, add_data_item, begin_gather, complete_gather}
use ros_bridge.Library.Tags.{islower, split_event}

pub record Node (N S : Type 0) : Type 0 where
  pub adapter : Adapter N S
  pub di_dict : Dict ℕ

abbrev lift_outcome : {N S A : Type 0} → Node N S → Outcome (Adapter N S) A → Outcome (Node N S) A
lift_outcome d (ok x a) = ok x (record d { adapter = a })
lift_outcome d (err e a) = err e (record d { adapter = a })

-- A method of the node's adapter.
abbrev pub on_adapter : {N S A : Type 0} → M (Adapter N S) A → M (Node N S) A
on_adapter m d = lift_outcome d (m d.adapter)

-- The name under which a tag's event is kept.
unfoldable pub event_name : String → Option String
event_name tag = if islower tag then some tag else split_event tag

module _ {N S : Type 0} where
  unfoldable pub new_event : String → Node N S → Node N S
  unfolding add_data_item new_data_item
  new_event name d = record d {
    adapter = add_data_item (event (new_data_item name)) d.adapter;
    di_dict = insert name (length d.adapter.data_items) d.di_dict;
  }

  -- The loop of `add_event`.
  unfoldable pub add_events : List String → M (Node N S) (Unit {0})
  add_events [] = pure tt
  add_events (tag ∷ tags) = do
    name ← or_raise (event_name tag) index_error
    modify_state (new_event name)
    add_events tags

module _ {N S : Type 0} ⦃n : Number N⦄ where
  -- `set_value` on the object at an index.
  unfoldable pub assign : ℕ → Value N → Adapter N S → Adapter N S
  assign i v a = record a { data_items = modify a.data_items i (set_item v) }

  unfoldable pub assign_all : List ℕ → Value N → Adapter N S → Adapter N S
  assign_all [] v a = a
  assign_all (i ∷ is) v a = assign_all is v (assign i v a)

module _ {N S : Type 0} ⦃n : Number N⦄ ⦃k : Sockets S⦄ where
  -- `event.set_value('READY')` for each event of the dictionary.
  unfoldable pub initialise : String → M (Node N S) (Unit {0})
  initialise time d =
      (do
        on_adapter begin_gather
        on_adapter (modify_state (assign_all (values d.di_dict) (text "READY")))
        on_adapter (complete_gather time))
        d

  unfoldable pub add_event : String → List String → Bool → M (Node N S) (Unit {0})
  add_event time tags init = do add_events tags; if init then initialise time else pure tt

  unfoldable pub action_cb : String → String → Value N → M (Node N S) (Unit {0})
  action_cb time data_item state d =
      (do
        on_adapter begin_gather
        i ← or_raise (lookup data_item d.di_dict) key_error
        on_adapter (modify_state (assign i state))
        on_adapter (complete_gather time))
        d
