-- ===== src/Publisher/Defs.antt =====
-- `BridgePublisher` of bridge_publisher.py. The constants of the message classes are a parameter.
-- `xml_callback` and `ros_publisher` run in two threads; one call of either is taken after another.
use ros_bridge.Base.{
  ℕ, ◌+◌, ◌-◌, String, ◌==◌, Bool, true, false, ◌&&◌, List, [], ◌∷◌, ◌++◌, if◌then◌else◌, every,
  Option, none, some, M, Outcome, ok, err, ◌>>=◌, ◌>>◌, pure, raise, or_raise, modify_state,
  key_error, index_error, attribute_error, value_error, system_exit, nat_eq, ℤ,
}
use ros_bridge.Base.Dict.{Dict, lookup, insert, keys, contains}
use ros_bridge.Library.Tags.{split_event}
use ros_bridge.Library.Xml.{Element, Chunk, xml_components}

-- The value of each data item; `none` is None.
abbrev pub States : Type 0
States = Dict (Option String)

-- A topic of the configuration, with the conversion from the values of each data item to the names
-- of the message's constants.
pub record Topic : Type 0 where
  pub name : String
  pub conversion : Dict (Dict String)

pub record Publisher : Type 0 where
  pub topics : List Topic
  pub msgs : Dict (Dict ℤ)
  pub di_current : States
  pub di_changed : Option States
  pub xml_queue : List States
  pub unfinished : ℕ
  pub data_hold : Option States
  pub published : List (String × Dict ℤ)

-- `self.data_items`, a list for each topic, as one list.
abbrev pub all_items : List Topic → List String
all_items [] = []
all_items (t ∷ ts) = keys t.conversion ++ all_items ts

abbrev pub all_none : List String → States
all_none [] = []
all_none (d ∷ ds) = insert d none (all_none ds)

unfoldable pub init_di_dict : Publisher → States
init_di_dict p = all_none (all_items p.topics)

-- `process_xml` with its local dictionary.
pub record Reading : Type 0 where
  pub publisher : Publisher
  pub local_di : States

abbrev pub set_di : String → Option String → Reading → Reading
set_di d value r = record {
  publisher = record r.publisher { di_current = insert d value r.publisher.di_current };
  local_di = insert d value r.local_di;
}

-- The loop over the data items: the first one that the element is named after gets its text.
unfoldable pub match_item : Element → List String → M Reading (Unit {0})
match_item e [] = pure tt
match_item e (d ∷ ds) = do
  name ← or_raise e.name key_error
  di_name ← or_raise (split_event d) index_error
  if name == di_name then modify_state (set_di d e.text) else match_item e ds

unfoldable pub match_all : List Element → List String → M Reading (Unit {0})
match_all [] ds = pure tt
match_all (e ∷ es) ds = do match_item e ds; match_all es ds

abbrev pub leave : Outcome Reading (Unit {0}) → Outcome Publisher States
leave (ok x r) = ok r.local_di r.publisher
leave (err e r) = err e r.publisher

abbrev read_all : List Element → M Publisher States
read_all es p =
    leave (match_all es (all_items p.topics) (record { publisher = p; local_di = init_di_dict p }))

-- `process_xml`; the result is the dictionary of the changed items.
unfoldable pub process_xml : Chunk → M Publisher States
process_xml chunk p = (do found ← xml_components chunk (keys p.di_current); read_all found.1) p

abbrev queued : Outcome Publisher States → Outcome Publisher (Unit {0})
queued (err system_exit p) = err system_exit p
queued (err e p) = ok tt p
queued (ok changed p) = ok tt (record p {
  di_changed = some changed;
  xml_queue = p.xml_queue ++ changed ∷ [];
  unfinished = p.unfinished + 1;
})

-- `xml_callback`: an exception is caught, and then nothing is queued.
unfoldable pub xml_callback : Chunk → M Publisher (Unit {0})
xml_callback chunk p = queued (process_xml chunk p)

abbrev pub state_of : String → States → Option String
state_of d m = elim (lookup d m) [ none ↦ none | some v ↦ v ]

abbrev msg_of : Option (Dict ℤ) → Dict ℤ
msg_of none = []
msg_of (some m) = m

module _ (constant : String → String → String → Option ℤ) where
  -- The name of the constant for a changed value, or else for the current one. A changed value that
  -- the configuration does not convert ends the process.
  unfoldable pub ros_tag : Dict String → States → String → Option String → M Publisher String
  ros_tag conv current d (some value) =
      if contains value conv then or_raise (lookup value conv) key_error else raise system_exit
  ros_tag conv current d none = do
    value ← or_raise (state_of d current) key_error
    or_raise (lookup value conv) key_error

  abbrev set_msg : String → String → ℤ → Publisher → Publisher
  set_msg topic name v p = record p {
    msgs = insert topic (insert name v (msg_of (lookup topic p.msgs))) p.msgs;
  }

  unfoldable pub fill : Topic → States → M Publisher (Unit {0})
  fill t [] = pure tt
  fill t ((d, value) ∷ more) =
      let set = λ (conv : Dict String). (do
        tag ← λ p. ros_tag conv p.di_current d value p
        name ← or_raise (split_event d) index_error
        v ← or_raise (constant t.name name tag) attribute_error
        modify_state (set_msg t.name name v)
        fill t more) in
      let skip = fill t more in elim (lookup d t.conversion) [ none ↦ skip | some conv ↦ set conv ]

  abbrev publish : Topic → Publisher → Publisher
  publish t p = record p { published = p.published ++ (t.name, msg_of (lookup t.name p.msgs)) ∷ [] }

  -- `topic_publisher` goes through `self.di_changed`.
  unfoldable pub topic_publisher : Topic → M Publisher (Unit {0})
  topic_publisher t p =
      (do changed ← or_raise p.di_changed attribute_error; fill t changed; modify_state (publish t))
        p

  unfoldable pub publish_all : List Topic → M Publisher (Unit {0})
  publish_all [] = pure tt
  publish_all (t ∷ ts) = do topic_publisher t; publish_all ts

  -- The body of `try` in `ros_publisher`, where there is data.
  abbrev publish_topics : M Publisher (Unit {0})
  publish_topics p =
      (do publish_all p.topics; modify_state (λ q. record q { di_changed = some (init_di_dict q) }))
        p

-- `a == b` for two dictionaries.
abbrev text_same : Option String → Option String → Bool
text_same none none = true
text_same (some s) (some t) = s == t
text_same _ _ = false

abbrev has_entry : States → String × Option String → Bool
has_entry m (d, v) = elim (lookup d m) [ none ↦ false | some w ↦ text_same w v ]

abbrev pub states_eq : States → States → Bool
states_eq a b = every (has_entry b) a && every (has_entry a) b

abbrev pub data_eq : Option States → Option States → Bool
data_eq none none = true
data_eq (some a) (some b) = states_eq a b
data_eq _ _ = false

-- The data of a call of `ros_publisher`, and the publisher without what was taken from the queue.
unfoldable pub take_data : Publisher → Option States × Publisher
take_data p = elim p.xml_queue [
  | [] ↦ (p.data_hold, p)
  | held ∷ queue ↦ (some held, record p { xml_queue = queue })
]

-- The `finally` of `ros_publisher`. `task_done` raises if it is called more often than `put`.
unfoldable pub release : Option States → M Publisher (Unit {0})
release held p =
    if data_eq held p.data_hold
    then ok tt p
    else if nat_eq p.unfinished 0
    then err value_error (record p { data_hold = held })
    else ok tt (record p { data_hold = held; unfinished = p.unfinished - 1 })

module _ (constant : String → String → String → Option ℤ) where
  abbrev pub publish_data : Option States → M Publisher (Unit {0})
  publish_data none = pure tt
  publish_data (some held) = publish_topics constant

  -- An exception is caught, unless it ends the process.
  abbrev pub then_release :
      Option States → Outcome Publisher (Unit {0}) → Outcome Publisher (Unit {0})
  then_release held (ok x p) = release held p
  then_release held (err system_exit p) = err system_exit p
  then_release held (err e p) = release held p

  unfoldable pub ros_publisher : M Publisher (Unit {0})
  unfolding take_data
  ros_publisher p = let (held, q) = take_data p in then_release held (publish_data held q)
