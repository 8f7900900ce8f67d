-- ===== src/Server/Started.antt =====
-- What the constructor of `GenericActionServer` leaves: a server that is configured for each of its
-- actions, and shows READY for it.
use ros_bridge.Base.{ℕ, String, ◌≡◌, false, List, [], some, All}
use ros_bridge.Base.Dict.{Dict, lookup}
use ros_bridge.DataItem.Values.{Number, text}
use ros_bridge.Adapter.Defs.{Sockets}
use ros_bridge.Library.Events.{Node}
use ros_bridge.Library.Actions.{IsReady}
use ros_bridge.Library.Effects.{served}
use ros_bridge.Library.Nodes.{HasEvent}
use ros_bridge.Library.Packages.{Actions}
use ros_bridge.Server.Defs.{Server}
use ros_bridge.Server.Requests.{IsConfigured}

module _ {N S : Type 0} ⦃n : Number N⦄ ⦃k : Sockets S⦄ where
  -- The node after `add_event` has set up the events of the tags and given them the first values.
  record Shown (tags : List String) (d : Node N S) : Type 0 where
    ready : IsReady d
    has : All (HasEvent d) tags
    shows :
        (name : String) (i : ℕ)
        → lookup name d.di_dict ≡ some i
        → served name d ≡ some (text "READY")

  -- Each action of the configuration can be executed, and shows READY; nothing is captured.
  pub record Launched (s : Server N S) : Type 0 where
    pub configured :
        (action request : String)
        → lookup action s.server_name ≡ some request
        → (i : ℕ) × IsConfigured action request i s × (served action s.node ≡ some (text "READY"))
    pub capture : s.capture_xml ≡ false
    pub queue : s.xml_queue ≡ []
