-- ===== src/DataItem/Plain.antt =====
-- `DataItem` of data_item.py, the class that the others extend, and `ThreeDSample.values`.
use ros_bridge.Base.{String, Bool, true, false, List, [], ◌∷◌, if◌then◌else◌, Option, none, some}
use ros_bridge.DataItem.Values.{
  Number, Value, null, flag, text, tuple, ◌+++◌, join, strs, value_eq, value_str, is_truthy,
}
use Prim.Native.String as Text

pub record DataItem (N : Type 0) : Type 0 where
  pub name : String
  pub changed : Bool
  pub value : Value N
  pub separate_line : Bool

-- `__init__`.
unfoldable pub new_data_item : {N : Type 0} → String → DataItem N
new_data_item name = record { name = name; changed = false; value = null; separate_line = false }

-- The elements of a text are its characters.
abbrev characters : String → List String
characters Text.[] = []
characters (Text.◌∷◌ c s) = (Text.◌∷◌ c Text.[]) ∷ characters s

module _ {N : Type 0} ⦃n : Number N⦄ where
  unfoldable pub set_value : DataItem N → Value N → DataItem N
  set_value d v = if value_eq d.value v then d else record d { value = v; changed = true }

  -- `v if self._value else "UNAVAILABLE"`, after the name.
  unfoldable pub values : DataItem N → List String
  values d =
      let v = if is_truthy d.value then value_str d.value else "UNAVAILABLE" in
      ("|" +++ d.name +++ "|" +++ v) ∷ []

  -- `[str(i) for i in v]`; what is no sequence raises TypeError.
  abbrev elements : Value N → Option (List String)
  elements null = none
  elements (flag b) = none
  elements (text s) = some (characters s)
  elements (tuple xs) = some (strs xs)

  -- `ThreeDSample.values`.
  unfoldable pub three_d_values : DataItem N → Option (List String)
  three_d_values d =
      if is_truthy d.value
      then elim (elements d.value) [
        | none ↦ none
        | some parts ↦ some (("|" +++ d.name +++ "|" +++ join " " parts) ∷ [])
      ]
      else some (("|" +++ d.name +++ "|" +++ "UNAVAILABLE") ∷ [])

module _ {N : Type 0} where
  unfoldable pub sweep : DataItem N → DataItem N
  sweep d = record d { changed = false }

  unfoldable pub unavailable : DataItem N → DataItem N
  unavailable d = if is_truthy d.value then record d { value = flag false; changed = true } else d
