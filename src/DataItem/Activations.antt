-- ===== src/DataItem/Activations.antt =====
-- `ConditionActivation` of data_item.py: one fault, warning or other activation of a condition.
use ros_bridge.Base.{String, ◌==◌, Bool, true, false}
use ros_bridge.DataItem.Values.{◌+++◌}

pub record Activation : Type 0 where
  pub level : String
  pub text : String
  pub code : String
  pub qualifier : String
  pub severity : String
  pub changed : Bool
  pub marked : Bool

unfoldable pub new_activation : String → String → String → String → String → Activation
new_activation level text code qualifier severity = record {
  level = level;
  text = text;
  code = code;
  qualifier = qualifier;
  severity = severity;
  changed = true;
  marked = true;
}

unfoldable pub mark : Activation → Activation
mark c = record c { marked = true }

unfoldable pub clear : Activation → Activation
clear c = record c { marked = false; changed = false }

unfoldable pub clear_changed : Activation → Activation
clear_changed c = record c { changed = false }

-- `__eq__`.
activation_eq : Activation → Activation → Bool
activation_eq c d = c.code == d.code

-- `__str__`.
unfoldable pub activation_str : Activation → String
activation_str c =
    c.level +++ "|" +++ c.code +++ "|" +++ c.severity +++ "|" +++ c.qualifier +++ "|" +++ c.text
