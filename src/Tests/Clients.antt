-- ===== src/Tests/Clients.antt =====
-- An example for an action client that loses its goals.
use ros_bridge.Base.{ℕ, refl, Bool, [], ◌∷◌, some, none, after}
use ros_bridge.Client.Defs.{Client, Outside, xml_callback}
use ros_bridge.Client.Lost.{Lost, xml_callback-Lost}
use ros_bridge.Tests.Data.{nat_number, flag_sockets, two_events, element, document}

-- An agent that shows no goal.
abbrev silent : Outside ℕ
silent = record {
  parse_float = λ s. none;
  slots = λ name. none;
  current = λ tag. some (document []);
  result = λ name goal. 3;
}

abbrev emptied : Client ℕ Bool ℕ
emptied = record {
  node = two_events;
  handshake = none;
  action_list = ("MaterialLoad", "Material") ∷ [];
  action_goals = none;
  launched = [];
}

xml_callback-Lost_example : Lost emptied (
    after (
      xml_callback silent "t"
        (some (document (element "MaterialLoad" "material_load" "ACTIVE" ∷ [])))
        emptied))
xml_callback-Lost_example =
    xml_callback-Lost silent "t"
      (some (document (element "MaterialLoad" "material_load" "ACTIVE" ∷ []))) emptied refl
