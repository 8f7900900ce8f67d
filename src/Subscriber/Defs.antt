-- ===== src/Subscriber/Defs.antt =====
-- `BridgeSubscriber` of bridge_subscriber.py. The message classes, with their constants, are data.
use package.text.Mathlib.Text.{starts_with}
use Prim.Native.String as Text
use ros_bridge.Base.{
  String, Bool, true, not, ◌&&◌, List, [], ◌∷◌, ◌++◌, if◌then◌else◌, Option, none, some, M, Outcome,
  ok, err, ◌>>=◌, ◌>>◌, pure, or_raise, key_error, attribute_error, unbound_local, ℤ, int_eq,
}
use ros_bridge.Base.Dict.{Dict, lookup, member}
use ros_bridge.DataItem.Values.{Number, Value, null, text}
use ros_bridge.Adapter.Defs.{Sockets}
use ros_bridge.Library.Tags.{any_char, is_upper, is_lower}
use ros_bridge.Library.Events.{Node, action_cb}

-- A member of a message class: its name and the attributes of its type, which are sorted, with
-- their values.
pub record Member : Type 0 where
  pub name : String
  pub attributes : List (String × ℤ)

-- A topic of the configuration: for each data item the constants and the texts that they become.
pub record Topic : Type 0 where
  pub name : String
  pub items : Dict (Dict String)
  pub members : List Member

-- `attrib.isupper()`.
unfoldable pub isupper : String → Bool
isupper s = any_char is_upper s && not (any_char is_lower s)

-- `'header' in s`.
unfoldable pub has_header : String → Bool
has_header Text.[] = starts_with "" "header"
has_header (Text.◌∷◌ c s) =
    let rest = has_header s in if starts_with (Text.◌∷◌ c s) "header" then true else rest

-- The names of the constants that have the value.
unfoldable pub constants_of : ℤ → List (String × ℤ) → List String
constants_of v [] = []
constants_of v ((attr, w) ∷ more) =
    let rest = constants_of v more in if isupper attr && int_eq w v then attr ∷ rest else rest

-- `msg_data` with `msg_constants`: the members that are no header, with the names of the constants
-- for the value of each.
unfoldable pub message_constants : List Member → Dict ℤ → Option (List (String × List String))
message_constants [] values = some []
message_constants (m ∷ ms) values =
    let found : Option (List (String × List String)) = elim (lookup m.name values) [
      | none ↦ none
      | some v ↦ elim (message_constants ms values) [
        | none ↦ none
        | some rest ↦ some ((m.name, constants_of v m.attributes) ∷ rest)
      ]
    ] in
    let skip = message_constants ms values in if has_header m.name then skip else found

-- One pass over the topics that are not subscribed yet, with those that stay and those that are
-- subscribed. A topic is deleted from the list while the list is gone through, so that the one after
-- it is not looked at.
unfoldable pub subscribe_pass : List String → List String → List String × List String
subscribe_pass published [] = ([], [])
subscribe_pass published (t ∷ []) = if member t published then ([], t ∷ []) else (t ∷ [], [])
subscribe_pass published (t ∷ u ∷ us) =
    let others = subscribe_pass published us in
    let later = subscribe_pass published (u ∷ us) in
    if member t published then (u ∷ others.0, t ∷ others.1) else (t ∷ later.0, later.1)

-- The loop of the constructor, for what is published at each of its passes.
unfoldable pub subscribe : List (List String) → List String → List String × List String
subscribe [] topics = (topics, [])
subscribe (published ∷ passes) [] = ([], [])
subscribe (published ∷ passes) (t ∷ ts) =
    let (kept, subscribed) = subscribe_pass published (t ∷ ts) in
    let (left, more) = subscribe passes kept in (left, subscribed ++ more)

-- The variable `adapter_val`: not bound, or None or a text.
abbrev pub Local : Type 0
Local = Option (Option String)

-- The loop over the constants of a member. With no constant the variable keeps what it has.
unfoldable pub pick : Dict String → List String → Local → Local
pick table [] adapter_val = adapter_val
pick table (c ∷ cs) adapter_val = elim (lookup c table) [
  | some v ↦ some (some v)
  | none ↦ pick table cs (some none)
]

abbrev pub to_value : {N : Type 0} → Option String → Value N
to_value none = null
to_value (some s) = text s

module _ {N S : Type 0} ⦃n : Number N⦄ ⦃k : Sockets S⦄ where
  -- `data_item_conversion`. A member that the configuration does not name raises KeyError, if it
  -- has a constant to look up.
  abbrev convert : Topic → String → List String → Local → M (Node N S) Local
  convert t name [] adapter_val = pure adapter_val
  convert t name (c ∷ cs) adapter_val = do
    table ← or_raise (lookup name t.items) key_error
    pure (pick table (c ∷ cs) adapter_val)

  unfoldable pub data_item_conversion :
      String → Topic → List (String × List String) → Local → M (Node N S) (Unit {0})
  data_item_conversion time t [] adapter_val = pure tt
  data_item_conversion time t ((name, constants) ∷ more) adapter_val = do
    adapter_val' ← convert t name constants adapter_val
    value ← or_raise adapter_val' unbound_local
    action_cb time name (to_value value)
    data_item_conversion time t more adapter_val'

  -- `topic_callback`: an exception is caught.
  abbrev caught : Outcome (Node N S) (Unit {0}) → Node N S
  caught (ok x d) = d
  caught (err e d) = d

  unfoldable pub topic_callback : String → Topic → Dict ℤ → Node N S → Node N S
  topic_callback time t values d = caught (
      (do
        msg ← or_raise (message_constants t.members values) attribute_error
        data_item_conversion time t msg none)
        d)
