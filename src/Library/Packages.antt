-- ===== src/Library/Packages.antt =====
-- How the publisher and the subscriber find the classes of their messages, in the packages that ROS
-- loads: the part of their `setup_topic_data` that is the same.
use ros_bridge.Base.{
  String, List, [], ◌∷◌, ◌++◌, if◌then◌else◌, nat_eq, Option, none, some, Exn, M, ◌>>◌, pure, raise,
}
use ros_bridge.Base.Dict.{Dict, member}
use Prim.Native.Char.{Char, code}
use Prim.Native.String as Text

abbrev grow : Char → List String → List String
grow c [] = Text.◌∷◌ c Text.[] ∷ []
grow c (s ∷ more) = Text.◌∷◌ c s ∷ more

-- `split('/')`.
unfoldable pub split_slash : String → List String
split_slash Text.[] = Text.[] ∷ []
split_slash (Text.◌∷◌ c s) =
    let later = split_slash s in if nat_eq (code c) b'/' then Text.[] ∷ later else grow c later

-- A package, or a class of it, is found, or importing it raises.
pub data Import (A : Type 0) : Type 0 where
  fails : Exn → Import A
  finds : A → Import A

-- `load_manifest`, and what a node takes of the class of a message in a package.
pub record Packages (C : Type 0) : Type 0 where
  pub manifest : String → Import (Unit {0})
  pub type_handle : String → String → Import C

abbrev pub imported : {S A : Type 0} → Import A → M S A
imported (fails e) = raise e
imported (finds x) = pure x

-- The packages of the server's actions: `load_manifest`, `import_module` of the messages, and whether
-- the messages have a class.
pub record Actions : Type 0 where
  pub manifest : String → Import (Unit {0})
  pub messages : String → Import (Unit {0})
  pub class_of : String → String → Import (Unit {0})

-- The first two tokens of the name of a type.
abbrev pub two_tokens : List String → Option (String × String)
two_tokens (first ∷ second ∷ more) = some (first, second)
two_tokens _ = none

-- The entries of a topic are types; the first one is taken, with the conversion of its data items.
abbrev pub Types : Type 0
Types = Dict (Dict (Dict String))

abbrev pub first_type : Types → Option (String × Dict (Dict String))
first_type [] = none
first_type (t ∷ ts) = some t

-- The manifest of a package is loaded once; the result is the packages loaded so far.
abbrev pub load : {S C : Type 0} → Packages C → String → List String → M S (List String)
load packages name manifests =
    if member name manifests
    then pure manifests
    else (imported (packages.manifest name) >> pure (manifests ++ name ∷ []))
