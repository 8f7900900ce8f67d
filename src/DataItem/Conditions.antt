-- ===== src/DataItem/Conditions.antt =====
-- `Condition` and `SimpleCondition` of data_item.py: activations by their codes, marked while a
-- round of gathering goes on and swept after it.
use ros_bridge.Base.{
  String, Bool, true, false, not, List, [], ◌∷◌, ◌++◌, map, if◌then◌else◌, keep, is_empty, any,
}
use ros_bridge.Base.Dict.{Dict, insert, update, contains, map_values}
use ros_bridge.DataItem.Values.{flag, is_truthy, ◌+++◌}
use ros_bridge.DataItem.Plain.{DataItem, new_data_item}
use ros_bridge.DataItem.Activations.{
  Activation, new_activation, mark, clear, clear_changed, activation_str,
}

pub record Condition (N : Type 0) : Type 0 where
  pub item : DataItem N
  pub open item use *
  pub active : Dict Activation

-- `__init__`.
unfoldable pub new_condition : {N : Type 0} → String → Condition N
unfolding new_data_item
new_condition name = record {
  item = record (new_data_item name) { separate_line = true };
  active = [];
}

-- The arguments of `add`.
pub record Fault : Type 0 where
  pub level : String
  pub text : String
  pub code : String
  pub qualifier : String
  pub severity : String

abbrev pub activate : Fault → Activation
activate f = new_activation f.level f.text f.code f.qualifier f.severity

abbrev pub entry_marked : String × Activation → Bool
entry_marked e = e.1.marked

abbrev pub normal_line : String → String → String
normal_line name code = "|" +++ name +++ "|normal|" +++ code +++ "|||"

abbrev pub active_line : String → Activation → String
active_line name a = "|" +++ name +++ "|" +++ activation_str a

module _ {N : Type 0} where
  unfoldable pub add : Condition N → Fault → Condition N
  unfolding new_activation mark
  add c f =
      if contains f.code c.active
      then record c {
        item = record c.item { value = flag true };
        active = update f.code mark c.active;
      }
      else record c {
        item = record c.item { value = flag true; changed = true };
        active = insert f.code (activate f) c.active;
      }

  unfoldable pub normal : Condition N → Condition N
  normal c =
      if is_truthy c.value
      then c
      else record c { item = record c.item { value = flag true; changed = true } }

  unfoldable pub begin_condition : Condition N → Condition N
  unfolding clear
  begin_condition c = record c { active = map_values clear c.active }

  unfoldable pub complete_condition : Condition N → Condition N
  complete_condition c =
      if any (λ e. not (entry_marked e)) c.active
      then record c { item = record c.item { changed = true } }
      else c

  unfoldable pub sweep_condition : Condition N → Condition N
  sweep_condition c = record c {
    item = record c.item { changed = false };
    active = keep entry_marked c.active;
  }

  -- `SimpleCondition.begin`.
  unfoldable pub begin_simple : Condition N → Condition N
  unfolding clear_changed
  begin_simple c = record c { active = map_values clear_changed c.active }

  -- `SimpleCondition.remove`.
  unfoldable pub remove_code : Condition N → String → Condition N
  unfolding clear
  remove_code c code =
      if contains code c.active then record c { active = update code clear c.active } else c

  unfoldable pub condition_values : Condition N → Bool → List String
  condition_values c all =
      let active = keep entry_marked c.active in
      let cleared = keep (λ e. not (entry_marked e)) c.active in
      if is_truthy c.value
      then if is_empty active
        then ("|" +++ c.name +++ "|normal||||") ∷ []
        else if all
        then map (λ e. active_line c.name e.1) active
        else map (λ e. normal_line c.name e.1.code) cleared
          ++ map (λ e. active_line c.name e.1) (keep (λ e. e.1.changed) active)
      else ("|" +++ c.name +++ "|UNAVAILABLE||||") ∷ []
