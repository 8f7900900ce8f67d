-- ===== src/Library/Goals.antt =====
-- `set_goal` and `type_check` of bridge_library.py: from the text of a goal to typed values.
use Prim.Native.Char.{Char, code}
use Prim.Native.String as Text
use ros_bridge.Base.{
  String, nat_eq, Bool, true, false, ◌&&◌, List, [], ◌∷◌, map, if◌then◌else◌, Option, none, some, M,
  ◌>>=◌, ◌>>◌, pure, or_raise, attribute_error, type_error, ok, err,
}
use ros_bridge.Base.Dict.{Dict, insert, lookup}

-- A value of a goal: `float(item)` where that succeeds, and else the text.
pub data Goal (F : Type 0) : Type 0 where
  number : F → Goal F
  word : String → Goal F

abbrev cons_head : Char → List String → List String
cons_head c [] = (Text.◌∷◌ c Text.[]) ∷ []
cons_head c (s ∷ r) = Text.◌∷◌ c s ∷ r

-- `s.split(", ")`.
unfoldable pub split_list : String → List String
split_list Text.[] = "" ∷ []
split_list (Text.◌∷◌ c Text.[]) = (Text.◌∷◌ c Text.[]) ∷ []
split_list (Text.◌∷◌ c (Text.◌∷◌ d s)) =
    let cut = "" ∷ split_list s in
    let longer = cons_head c (split_list (Text.◌∷◌ d s)) in
    if nat_eq (code c) b',' && nat_eq (code d) b' ' then cut else longer

-- The stored goals of the actions, which the client may lose: `none` is None for the dictionary, and
-- in it None for an action's goal.
abbrev pub Goals : Type 0 → Type 0
Goals F = Option (Dict (Option (List (Goal F))))

module _ {F : Type 0} (parse_float : String → Option F) where
  -- `float(item)`, with ValueError caught.
  unfoldable pub convert : String → Goal F
  convert item = elim (parse_float item) [ none ↦ word item | some x ↦ number x ]

  -- `action_goals[tag] = goals`, where `action_goals` may be None.
  abbrev store : String → List (Goal F) → M (Goals F) (Unit {0})
  store tag goals none = err type_error none
  store tag goals (some g) = ok tt (some (insert tag (some goals) g))

  -- `texts` are those of the elements that the goal's tag finds. Without any of them nothing is
  -- changed, and the result, that is None in the code, is false. An element with no text raises
  -- AttributeError.
  unfoldable pub set_goal : String → List (Option String) → M (Goals F) Bool
  set_goal tag [] = pure false
  set_goal tag (first ∷ more) = do
    text ← or_raise first attribute_error
    store tag (map convert (split_list text))
    pure true

-- The Python types of the table.
pub data PyType : Type 0 where
  bool_type int_type long_type float_type str_type : PyType

pub PyType-discrete : Discrete PyType
PyType-discrete = hlevel

abbrev pub type_dict : Dict PyType
type_dict =
    ("bool", bool_type)
    ∷ ("int8", int_type)
    ∷ ("uint8", int_type)
    ∷ ("int16", int_type)
    ∷ ("unit16", int_type)
    ∷ ("int32", int_type)
    ∷ ("unit32", int_type)
    ∷ ("int64", long_type)
    ∷ ("unint64", long_type)
    ∷ ("float32", float_type)
    ∷ ("float64", float_type)
    ∷ ("string", str_type)
    ∷ []

abbrev pub same_type : PyType → PyType → Bool
same_type bool_type bool_type = true
same_type int_type int_type = true
same_type long_type long_type = true
same_type float_type float_type = true
same_type str_type str_type = true
same_type _ _ = false

-- `type(request)` of a goal's value.
abbrev pub goal_type : {F : Type 0} → Goal F → PyType
goal_type (number x) = float_type
goal_type (word s) = str_type

-- `none` stands for the KeyError of a type that is not in the table.
unfoldable pub type_check : String → PyType → Option Bool
unfolding lookup
type_check ros_type t = elim (lookup ros_type type_dict) [
  | none ↦ none
  | some u ↦ some (same_type u t)
]
