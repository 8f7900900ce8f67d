-- ===== src/Server/Reaching.antt =====
-- The start of `GenericActionServer` reaches the stream, if the configuration is complete and the
-- agent answers.
use ros_bridge.Base.{String, ◌≡◌, true, List, [], ◌∷◌, some, All}
use ros_bridge.Base.Dict.{Dict, keys, member}
use ros_bridge.Library.Tags.{split_event}
use ros_bridge.Library.Packages.{Actions, finds}
use ros_bridge.Library.Startup.{content, Config}
use ros_bridge.Server.Defs.{Server}
use ros_bridge.Server.Entries.{HasClasses}
use ros_bridge.Server.Startup.{msg_parameters}

-- A request whose tag has two words, as the name of its data item wants it.
abbrev pub HasName : String → Type 0
HasName request = (name : String) × (split_event request ≡ some name)

-- The packages, with their messages and the two classes of each request, are found, and they hold
-- lists of such requests.
module _ (packages : Actions) where
  abbrev pub IsPackage : String → List String → Type 0
  IsPackage name requests =
      (packages.manifest name ≡ finds tt)
      × (packages.messages name ≡ finds tt)
      × All HasName requests
      × All (HasClasses packages name) requests

  abbrev pub Splits : Config (List String) → Type 0
  Splits [] = Unit
  Splits ((name, content requests) ∷ more) = IsPackage name requests × Splits more
  Splits ((name, setting) ∷ more) = (member name msg_parameters ≡ true) × Splits more

module _ {N S : Type 0} (packages : Actions) where
  -- The requests that have a result have names.
  abbrev Tagged : Server N S → Type 0
  Tagged s = All HasName (keys s.results)
