-- ===== src/Publisher/Checks.antt =====
-- The check of the data items by the constructor of `BridgePublisher`.
use ros_bridge.Base.{
  String, ◌==◌, ◌≡◌, refl, sym, subst, Bool, true, false, List, [], ◌∷◌, every, arith, Option, none,
  Outcome, ok, err, ◌>>◌, or_raise, modify_state, after, bind-holds, or_raise-Reads, key_error,
  index_error, eq_refl,
}
use ros_bridge.Base.Dict.{insert, keys, contains}
use ros_bridge.Base.Unique.{contains-insert}
use ros_bridge.Library.Tags.{split_event}
use ros_bridge.Library.Xml.{Element}
use ros_bridge.Publisher.Defs.{States, Publisher, all_none, all_items, init_di_dict}
use ros_bridge.Publisher.Startup.{
  begin_current, take_value, first_value, first_values, all_known, confirm, init_current,
}

every-insert :
    (k : String) (v : Option String) (m : States) (ds : List String)
    → every (λ d. contains d m) ds ≡ true
    → every (λ d. contains d (insert k v m)) ds ≡ true
every-insert k v m [] h = refl
every-insert k v m (d ∷ ds) h = ground (arith, contains-insert k d v m, every-insert k v m ds)

all_none-known : (ds : List String) → every (λ d. contains d (all_none ds)) ds ≡ true
all_none-known [] = refl
all_none-known (d ∷ ds) = ground (
  arith,
  contains-insert d d none (all_none ds),
  eq_refl d,
  every-insert d none (all_none ds) ds (all_none-known ds),
)

-- Each data item of a topic is a key of the current values.
abbrev pub IsKnown : Publisher → Type 0
IsKnown p = all_known p ≡ true

begin_current-IsKnown : (p : Publisher) → IsKnown (begin_current p)
unfolding init_di_dict
begin_current-IsKnown p = all_none-known (all_items p.topics)

take_value-IsKnown :
    (d : String) (b : Bool) (text : Option String) (p : Publisher)
    → IsKnown p
    → IsKnown (take_value d b text p)
take_value-IsKnown d true text p h = every-insert d text p.di_current (all_items p.topics) h
take_value-IsKnown d false text p h = h

first_value-IsKnown :
    (d n : String) (es : List Element) (p : Publisher)
    → IsKnown p
    → IsKnown (after (first_value d n es p))
unfolding first_value
first_value-IsKnown d n [] p h = h
first_value-IsKnown d n (e ∷ es) p h =
    bind-holds IsKnown (or_raise e.name key_error)
      (λ name. modify_state (take_value d (n == name) e.text) >> first_value d n es) p
      (subst IsKnown (sym (or_raise-Reads e.name key_error p)) h)
      λ name q k.
        first_value-IsKnown d n es (take_value d (n == name) e.text q)
          (take_value-IsKnown d (n == name) e.text q k)

first_values-IsKnown :
    (ds : List String) (es : List Element) (p : Publisher)
    → IsKnown p
    → IsKnown (after (first_values ds es p))
unfolding first_values
first_values-IsKnown [] es p h = h
first_values-IsKnown (d ∷ ds) es p h =
    bind-holds IsKnown (or_raise (split_event d) index_error)
      (λ n. first_value d n es >> first_values ds es) p
      (subst IsKnown (sym (or_raise-Reads (split_event d) index_error p)) h)
      λ n q k.
        bind-holds IsKnown (first_value d n es) (λ _. first_values ds es) q
          (first_value-IsKnown d n es q k) λ _. first_values-IsKnown ds es

confirmed :
    (o : Outcome Publisher (Unit {0})) (p : Publisher)
    → IsKnown (after o)
    → ((λ _. o) >> confirm) p ≡ o
confirmed (ok x q) p h = rw h refl
confirmed (err e q) p h = refl

-- The check of the data items never ends the process, whatever the page of the agent has: what the
-- constructor does with the elements is the same without it.
pub init_current-first_values :
    (p : Publisher) (es : List Element)
    → init_current es (begin_current p) ≡ first_values (keys (init_di_dict p)) es (begin_current p)
unfolding init_current
init_current-first_values p es =
    confirmed (first_values (keys (init_di_dict p)) es (begin_current p)) (begin_current p)
      (first_values-IsKnown (keys (init_di_dict p)) es (begin_current p) (begin_current-IsKnown p))
