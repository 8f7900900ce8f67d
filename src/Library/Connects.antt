-- ===== src/Library/Connects.antt =====
-- Connecting to the agent changes nothing of a node.
use ros_bridge.Base.{
  Bool, Bool-cases, List, M, Option, Reads, Reads-returns, String, [], bind-Reads, bind-returns,
  false, inl, inr, key_error, nat_eq, none, ok, or_raise, or_raise-Reads, pure, refl, some, subst,
  sym, true, type_error, value_error, ◌>>=◌, ◌>>◌, ◌++◌, ◌∙◌, ◌∷◌, ◌≡◌,
}
use ros_bridge.Base.Dict.{lookup, member}
use ros_bridge.Library.Packages.{Import, fails, finds, imported, Packages, load}
use ros_bridge.Library.Xml.{Element, Chunk, xml_components, next_sequence, find_tags}
use ros_bridge.Library.Connectivity.{Connection, available, exited, undecided, check_connectivity}
use ros_bridge.Library.Startup.{
  Handler, imports_socket, lacks_socket, machine_tool, Progress, Setting, line, count, content,
  Config, require, Reply, socket_fails, responds, xml_get_response, read_current, Agent, reaches,
  awaited, await_agent, sample_path, go_on, connect, connect_node, proceed, start_node, text_of,
}

module _ {S : Type 0} where
  pub awaited-Reads : (c : Connection) → Reads {S = S} (awaited c)
  awaited-Reads available s = refl
  awaited-Reads exited s = refl
  awaited-Reads undecided s = refl

  next_sequence-Reads : (h : Option (Option String)) → Reads {S = S} (next_sequence h)
  next_sequence-Reads none s = refl
  next_sequence-Reads (some none) s = refl
  next_sequence-Reads (some (some x)) s = refl

  pub xml_components-Reads :
      (chunk : Chunk) (tags : List String) → Reads {S = S} (xml_components chunk tags)
  unfolding xml_components
  xml_components-Reads chunk tags =
      bind-Reads (or_raise chunk value_error)
        (λ doc. next_sequence doc.header >>= λ seq. pure (seq, find_tags tags doc.elements))
        (or_raise-Reads chunk value_error)
        λ doc.
          bind-Reads (next_sequence doc.header) (λ seq. pure (seq, find_tags tags doc.elements))
            (next_sequence-Reads doc.header) λ seq t. refl

  pub imported-Reads : {A : Type 0} (x : Import A) → Reads {S = S} (imported x)
  imported-Reads (fails e) s = refl
  imported-Reads (finds x) s = refl

  pub load-Reads :
      {C : Type 0} (packages : Packages C) (name : String) (manifests : List String)
      → Reads {S = S} (load packages name manifests)
  load-Reads packages name manifests s = elim (Bool-cases (member name manifests)) [
    | inl e ↦ rw e refl
    | inr e ↦ rw e (
        (bind-Reads (imported (packages.manifest name)) (λ _. pure (manifests ++ name ∷ []))
            (imported-Reads (packages.manifest name)) λ _ t. refl)
          s)
  ]

module _ {S A : Type 0} where
  pub require-Reads : (ks : List String) (config : Config A) → Reads {S = S} (require ks config)
  unfolding require
  require-Reads [] config s = refl
  require-Reads (k ∷ ks) config s =
      (bind-Reads (or_raise (lookup k config) key_error) (λ _. require ks config)
          (or_raise-Reads (lookup k config) key_error) λ _. require-Reads ks config)
        s

  pub text_of-Reads : (o : Option (Setting A)) → Reads {S = S} (text_of o)
  text_of-Reads none s = refl
  text_of-Reads (some (line x)) s = refl
  text_of-Reads (some (count x)) s = refl
  text_of-Reads (some (content x)) s = refl

  pub xml_get_response-Reads : (reply : Reply A) → Reads {S = S} (xml_get_response reply)
  unfolding xml_get_response
  xml_get_response-Reads socket_fails s = refl
  xml_get_response-Reads (responds status body) s = elim (Bool-cases (nat_eq status 200)) [
    | inl e ↦ rw e refl
    | inr e ↦ rw e refl
  ]

  pub read_current-Reads :
      (handler : Handler) (replies : List (Reply A)) → Reads {S = S} (read_current handler replies)
  unfolding read_current
  read_current-Reads handler [] s = refl
  read_current-Reads imports_socket (socket_fails ∷ more) s =
      read_current-Reads imports_socket more s
  read_current-Reads lacks_socket (socket_fails ∷ more) s = refl
  read_current-Reads handler (responds status body ∷ more) s =
      (bind-Reads (xml_get_response (responds status body)) (λ page. pure (some page))
          (xml_get_response-Reads (responds status body)) λ _ t. refl)
        s

  pub await_agent-Reads : (agent : Agent A) → Reads {S = S} (await_agent agent)
  unfolding await_agent
  await_agent-Reads agent s = awaited-Reads (check_connectivity agent.now agent.attempts) s

module _ {S A : Type 0} (mtool : String) (tags : List String) (agent : Agent A) where
  go_on-Reads : (page : Option Chunk) → Reads {S = S} (go_on mtool tags agent page)
  unfolding go_on
  go_on-Reads none s = refl
  go_on-Reads (some chunk) s =
      (bind-Reads (xml_components chunk tags)
          (λ found. xml_get_response (agent.sample (sample_path mtool found.0)) >>= λ stream.
            pure (reaches (found.1, stream)))
          (xml_components-Reads chunk tags)
          λ found.
            bind-Reads (xml_get_response (agent.sample (sample_path mtool found.0)))
              (λ stream. pure (reaches (found.1, stream)))
              (xml_get_response-Reads (agent.sample (sample_path mtool found.0))) λ stream t. refl)
        s

module _ {S A : Type 0} (handler : Handler) (mtool : String) (tags : List String)
    (agent : Agent A) where
  pub connect-Reads : Reads {S = S} (connect handler mtool tags agent)
  unfolding connect
  connect-Reads =
      bind-Reads (read_current handler agent.current) (go_on mtool tags agent)
        (read_current-Reads handler agent.current) (go_on-Reads mtool tags agent)

-- A start has set up the packages of a configuration and served the items, and nothing else.
abbrev pub HasStarted :
    {S B : Type 0} → (Config B → M S (Unit {0})) → M S (Unit {0}) → S → S → Type 0
HasStarted {S = S} {B = B} setup serve s t =
    (config : Config B) × (u : S) × (setup config s ≡ ok tt u) × (serve u ≡ ok tt t)

module _ {S A B : Type 0} (handler : Handler) (params : List String)
    (setup : Config B → M S (Unit {0})) (serve : M S (Unit {0})) (tags : S → List String)
    (agent : Agent A) where
  proceed-HasStarted :
      (config : Config B) (there : Bool) (x : List Element × A) (s t : S)
      → proceed handler params setup serve tags agent config there s ≡ ok (reaches x) t
      → HasStarted setup serve s t
  unfolding proceed
  proceed-HasStarted config false x s t h = absurd (cc (h))
  proceed-HasStarted config true x s t h =
      let last : String → M S (Progress (List Element × A)) =
        connect_node handler params setup serve tags agent in
      let (_, s1, a1, h1) =
        bind-returns (setup config) (λ _. serve >> (machine_tool config >>= last)) s t (reaches x)
          h in
      let (_, s2, a2, h2) =
        bind-returns serve (λ _. machine_tool config >>= last) s1 t (reaches x) h1 in
      let (mtool, s3, a3, h3) = bind-returns (machine_tool config) last s2 t (reaches x) h2 in
      let read =
        Reads-returns (machine_tool config) s2 s3 mtool
          (text_of-Reads (lookup "machine_tool" config)) a3 in
      let connected =
        Reads-returns (connect handler mtool (tags s3) agent) s3 t (reaches x)
          (connect-Reads handler mtool (tags s3) agent) h3 in
      (config, s1, a1, subst (λ u. serve s1 ≡ ok tt u) (sym (connected ∙ read)) a2)

  pub start_node-HasStarted :
      (data_map : Option (Config B)) (x : List Element × A) (s t : S)
      → start_node handler params setup serve tags agent data_map s ≡ ok (reaches x) t
      → HasStarted setup serve s t
  unfolding start_node
  start_node-HasStarted data_map x s t h =
      let go = proceed handler params setup serve tags agent in
      let (config, s1, a1, h1) =
        bind-returns (or_raise data_map type_error)
          (λ config. require params config >> (await_agent agent >>= go config)) s t (reaches x)
          h in
      let (_, s2, a2, h2) =
        bind-returns (require params config) (λ _. await_agent agent >>= go config) s1 t (reaches x)
          h1 in
      let (there, s3, a3, h3) = bind-returns (await_agent agent) (go config) s2 t (reaches x) h2 in
      let same =
        Reads-returns (await_agent agent) s2 s3 there (await_agent-Reads agent) a3
        ∙ (Reads-returns (require params config) s1 s2 tt (require-Reads params config) a2
            ∙ Reads-returns (or_raise data_map type_error) s s1 config
                (or_raise-Reads data_map type_error) a1) in
      subst (λ u. HasStarted setup serve u t) same (proceed-HasStarted config there x s3 t h3)
