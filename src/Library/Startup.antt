-- ===== src/Library/Startup.antt =====
-- `obtain_dataMap` and `xml_get_response` of bridge_library.py, and what the constructors of the
-- nodes do with them: reading the configuration and connecting to the stream of the agent. What YAML
-- makes of a text, and what the HTTP library meets, are parameters.
use ros_bridge.Base.{
  ℕ, String, ◌==◌, Bool, true, false, List, [], ◌∷◌, if◌then◌else◌, nat_eq, Option, none, some, M,
  ◌>>=◌, ◌>>◌, pure, raise, or_raise, is_empty, key_error, type_error, socket_error, yaml_error,
  system_exit, bad_status, name_error,
}
use ros_bridge.Base.Dict.{Dict, lookup}
use ros_bridge.DataItem.Values.{◌+++◌}
use ros_bridge.Library.Xml.{Chunk, Element, xml_components}
use ros_bridge.Library.Connectivity.{
  Attempt, Connection, available, exited, undecided, check_connectivity,
}

-- An entry of the configuration: a text, a number, or what a package has in it.
pub data Setting (A : Type 0) : Type 0 where
  line : String → Setting A
  count : ℕ → Setting A
  content : A → Setting A

abbrev pub Config : Type 0 → Type 0
Config A = Dict (Setting A)

-- `if dataMap == {}`.
abbrev not_empty : {S A : Type 0} → Option (Config A) → M S (Option (Config A))
not_empty none = pure none
not_empty (some config) = if is_empty config then raise system_exit else pure (some config)

-- `obtain_dataMap`, for the option `--input`, the text of a file if it can be read, and what YAML
-- makes of a text: nothing if it is no YAML, and None for an empty text.
unfoldable pub obtain_data_map :
    {S A : Type 0}
    → Option String
    → (String → Option String)
    → (String → Option (Option (Config A)))
    → M S (Option (Config A))
obtain_data_map none read load = raise system_exit
obtain_data_map {S = S} {A = A} (some fn) read load =
    let loaded : M S (Option (Config A)) = (do
      text ← or_raise (read fn) system_exit
      data_map ← or_raise (load text) yaml_error
      not_empty data_map) in
    if fn == "" then raise system_exit else loaded

-- `self.config[key]` for each of the keys.
unfoldable pub require : {S A : Type 0} → List String → Config A → M S (Unit {0})
require [] config = pure tt
require (key ∷ keys) config = do value ← or_raise (lookup key config) key_error; require keys config

abbrev pub text_of : {S A : Type 0} → Option (Setting A) → M S String
text_of none = raise key_error
text_of (some (line s)) = pure s
text_of (some (count n)) = raise type_error
text_of (some (content x)) = raise type_error

-- `self.mtool`, where a text is added to it.
abbrev pub machine_tool : {S A : Type 0} → Config A → M S String
machine_tool config = text_of (lookup "machine_tool" config)

-- What a request to the agent meets: a socket error, or a response with its status.
pub data Reply (A : Type 0) : Type 0 where
  socket_fails : Reply A
  responds : ℕ → A → Reply A

unfoldable pub xml_get_response : {S A : Type 0} → Reply A → M S A
xml_get_response socket_fails = raise socket_error
xml_get_response (responds status body) = if nat_eq status 200 then pure body else raise bad_status

-- Whether a module has `import socket`, as bridge_client.py has and bridge_server.py and
-- bridge_publisher.py have not.
pub data Handler : Type 0 where
  imports_socket lacks_socket : Handler

-- The loop that reads the current page, for the replies that are given; `none` if each of them has
-- been a socket error. Without the import, `except socket.error` raises NameError.
unfoldable pub read_current : {S A : Type 0} → Handler → List (Reply A) → M S (Option A)
unfolding xml_get_response
read_current handler [] = pure none
read_current imports_socket (socket_fails ∷ more) = read_current imports_socket more
read_current lacks_socket (socket_fails ∷ more) = raise name_error
read_current handler (responds status body ∷ more) = do
  page ← xml_get_response (responds status body)
  pure (some page)

-- What a node meets of the agent when it starts: the tries to open its page, the replies to the
-- request of the current page, and the reply to the request of a stream.
pub record Agent (A : Type 0) : Type 0 where
  pub now : ℕ
  pub attempts : List Attempt
  pub current : List (Reply Chunk)
  pub sample : String → Reply A

-- The start waits for the agent, or has come to something.
pub data Progress (A : Type 0) : Type 0 where
  waits : Progress A
  reaches : A → Progress A

abbrev pub awaited : {S : Type 0} → Connection → M S Bool
awaited available = pure true
awaited exited = raise system_exit
awaited undecided = pure false

unfoldable pub await_agent : {S A : Type 0} → Agent A → M S Bool
unfolding check_connectivity
await_agent agent = awaited (check_connectivity agent.now agent.attempts)

-- The request of a stream, from the next sequence of the page that was read.
unfoldable pub sample_path : String → String → String
sample_path mtool seq = mtool +++ "/sample?interval=1000&count=1000&from=" +++ seq

module _ {S A : Type 0} (mtool : String) (tags : List String) (agent : Agent A) where
  -- The elements of the tags on the page, and the stream that goes on after the page.
  unfoldable pub go_on : Option Chunk → M S (Progress (List Element × A))
  unfolding sample_path xml_get_response
  go_on none = pure waits
  go_on (some chunk) = do
    found ← xml_components chunk tags
    stream ← xml_get_response (agent.sample (sample_path mtool found.0))
    pure (reaches (found.1, stream))

module _ {S A : Type 0} (handler : Handler) (mtool : String) (tags : List String)
    (agent : Agent A) where
  -- The current page, and the stream after it.
  unfoldable pub connect : M S (Progress (List Element × A))
  unfolding read_current go_on
  connect = read_current handler agent.current >>= go_on mtool tags agent

-- The constructors of the server and of the client, for the parameters that they read, what they do
-- with the packages of the configuration, the data items that they serve, and the tags that they look
-- for on the agent's page.
module _ {S A B : Type 0} (handler : Handler) (params : List String)
    (setup : Config B → M S (Unit {0})) (serve : M S (Unit {0})) (tags : S → List String)
    (agent : Agent A) where
  abbrev pub connect_node : String → M S (Progress (List Element × A))
  connect_node mtool s = connect handler mtool (tags s) agent s

  -- The constructor once the agent is there.
  unfoldable pub proceed : Config B → Bool → M S (Progress (List Element × A))
  unfolding connect
  proceed config false = pure waits
  proceed config true = do setup config; serve; mtool ← machine_tool config; connect_node mtool

  -- The constructor, for what `obtain_dataMap` has returned; the result is the elements of the page
  -- that was read and the stream, once there is one.
  unfoldable pub start_node : Option (Config B) → M S (Progress (List Element × A))
  unfolding proceed require await_agent
  start_node data_map = do
    config ← or_raise data_map type_error
    require params config
    there ← await_agent agent
    proceed config there
