-- ===== src/DataItem.antt =====
-- The data items of an adapter: mtconnect_ros_bridge/scripts/src/data_item.py.
-- A class is a constructor of `Item`; a method that a class overrides is a function by clauses.
pub mod Values
pub mod Activations
pub mod Plain
pub mod Conditions
pub mod Marking
pub mod Rounds
use ros_bridge.Base.{String, Bool, List, Option, some}
use Values.{Number, Value}
use Plain.{DataItem, set_value, values, three_d_values, sweep, unavailable}
use Conditions.{
  Condition, begin_condition, complete_condition, sweep_condition, begin_simple, condition_values,
}

pub data Item (N : Type 0) : Type 0 where
  event sample three_d : DataItem N → Item N
  condition simple : Condition N → Item N

module _ {N : Type 0} where
  -- The fields that all classes inherit from `DataItem`.
  abbrev pub base : Item N → DataItem N
  base (event d) = d
  base (sample d) = d
  base (three_d d) = d
  base (condition c) = c.item
  base (simple c) = c.item

  -- A method that is inherited from `DataItem` by every class.
  abbrev pub on_base : (DataItem N → DataItem N) → Item N → Item N
  on_base f (event d) = event (f d)
  on_base f (sample d) = sample (f d)
  on_base f (three_d d) = three_d (f d)
  on_base f (condition c) = condition (record c { item = f c.item })
  on_base f (simple c) = simple (record c { item = f c.item })

  unfoldable pub begin : Item N → Item N
  begin (condition c) = condition (begin_condition c)
  begin (simple c) = simple (begin_simple c)
  begin i = i

  unfoldable pub complete : Item N → Item N
  complete (condition c) = condition (complete_condition c)
  complete (simple c) = simple (complete_condition c)
  complete i = i

  unfoldable pub sweep_item : Item N → Item N
  unfolding sweep
  sweep_item (condition c) = condition (sweep_condition c)
  sweep_item (simple c) = simple (sweep_condition c)
  sweep_item i = on_base sweep i

  unfoldable pub unavailable_item : Item N → Item N
  unfolding unavailable
  unavailable_item i = on_base unavailable i

module _ {N : Type 0} ⦃n : Number N⦄ where
  unfoldable pub set_item : Value N → Item N → Item N
  set_item v i = on_base (λ d. set_value d v) i

  -- `item.values(all)`; none stands for a TypeError.
  unfoldable pub item_values : Item N → Bool → Option (List String)
  item_values (event d) all = some (values d)
  item_values (sample d) all = some (values d)
  item_values (three_d d) all = three_d_values d
  item_values (condition c) all = some (condition_values c all)
  item_values (simple c) all = some (condition_values c all)
