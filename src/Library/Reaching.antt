-- ===== src/Library/Reaching.antt =====
-- A start of a node reaches the stream, if the agent answers.
use ros_bridge.Base.{
  ◌>>=◌, ℕ, zero, suc, String, ◌≡◌, refl, ap, ◌∙◌, List, [], ◌∷◌, some, M, ok, All, arith,
  bind-returns, pure, inl, inr, Bool-cases, nat_eq,
}
use ros_bridge.Base.Dict.{lookup}
use ros_bridge.Library.Xml.{Document, find_tags, xml_components}
use ros_bridge.Library.Connectivity.{available, check_connectivity}
use ros_bridge.Library.Startup.{
  Handler, imports_socket, lacks_socket, Setting, line, Config, require, Reply, socket_fails,
  responds, read_current, xml_get_response, Agent, reaches, await_agent, go_on, connect,
  sample_path, proceed, start_node,
}

abbrev pub Requires : {B : Type 0} → List String → Config B → Type 0
Requires {B = B} ks config = All (λ k. (x : Setting B) × (lookup k config ≡ some x)) ks

-- A number of replies that are socket errors.
abbrev pub refused : {A : Type 0} → ℕ → List (Reply A) → List (Reply A)
refused zero more = more
refused (suc n) more = socket_fails ∷ refused n more

-- The first reply shows the page, or with `import socket` the first one that is no socket error.
abbrev pub Shows : {A : Type 0} → Handler → List (Reply A) → A → Type 0
Shows {A = A} imports_socket replies page =
    (tries : ℕ) × (more : List (Reply A)) × (replies ≡ refused tries (responds 200 page ∷ more))
Shows {A = A} lacks_socket replies page =
    (more : List (Reply A)) × (replies ≡ responds 200 page ∷ more)

-- The agent answers within its time, shows a page with a header, and then gives the stream that goes
-- on after the page.
pub record Answers {A : Type 0} (handler : Handler) (agent : Agent A) (mtool : String)
    (doc : Document) (stream : A) : Type 0 where
  pub seq : String
  pub opens : check_connectivity agent.now agent.attempts ≡ available
  pub page : Shows handler agent.current (some doc)
  pub header : doc.header ≡ some (some seq)
  pub streams : agent.sample (sample_path mtool seq) ≡ responds 200 stream

module _ {S B : Type 0} where
  require-ok :
      (ks : List String) (config : Config B) (s : S)
      → Requires ks config
      → require ks config s ≡ ok tt s
  unfolding require
  require-ok [] config s a = refl
  require-ok (k ∷ ks) config s a = ground (arith, a.0.1, require-ok ks config s a.1)

  read_current-refused :
      (m : ℕ) (page : B) (more : List (Reply B)) (s : S)
      → read_current imports_socket (refused m (responds 200 page ∷ more)) s ≡ ok (some page) s
  unfolding read_current xml_get_response
  read_current-refused zero page more s = refl
  read_current-refused (suc m) page more s = read_current-refused m page more s

  first_ok :
      (page : B) (more : List (Reply B)) (s : S)
      → read_current lacks_socket (responds 200 page ∷ more) s ≡ ok (some page) s
  unfolding read_current xml_get_response
  first_ok page more s = refl

  read_current-ok :
      (handler : Handler) (replies : List (Reply B)) (page : B) (s : S)
      → Shows handler replies page
      → read_current handler replies s ≡ ok (some page) s
  read_current-ok imports_socket replies page s (tries, more, e) =
      ap (λ l. read_current imports_socket l s) e ∙ read_current-refused tries page more s
  read_current-ok lacks_socket replies page s (more, e) =
      ap (λ l. read_current lacks_socket l s) e ∙ first_ok page more s

module _ {S A B : Type 0} (handler : Handler) (params : List String)
    (setup : Config B → M S (Unit {0})) (serve : M S (Unit {0})) (tags : S → List String)
    (agent : Agent A) (config : Config B) (mtool : String) (doc : Document) (stream : A) where
  connect-ok :
      (ts : List String) (s : S)
      → Answers handler agent mtool doc stream
      → connect handler mtool ts agent s ≡ ok (reaches (find_tags ts doc.elements, stream)) s
  unfolding connect go_on xml_components xml_get_response
  connect-ok ts s a =
      let read = read_current-ok handler agent.current (some doc) s a.page in
      cc (read, a.header, a.streams)

  -- If the packages can be set up and the items served, and the agent answers, the start reaches the
  -- stream, and what it leaves is what these two leave.
  pub start_node-reaches :
      (s u t : S)
      → Requires params config
      → lookup "machine_tool" config ≡ some (line mtool)
      → Answers handler agent mtool doc stream
      → setup config s ≡ ok tt u
      → serve u ≡ ok tt t
      → start_node handler params setup serve tags agent (some config) s
        ≡ ok (reaches (find_tags (tags t) doc.elements, stream)) t
  unfolding start_node proceed await_agent
  start_node-reaches s u t q w a f g =
      cc (require-ok params config s q, a.opens, f, g, w, connect-ok (tags t) t a)

xml_get_response-responds :
    {S A : Type 0} (status : ℕ) (body page : A) (s t : S)
    → xml_get_response (responds status body) s ≡ ok page t
    → (status ≡ 200) × (body ≡ page)
unfolding xml_get_response
xml_get_response-responds status body page s t h = elim (Bool-cases (nat_eq status 200)) [
  | inl e ↦ ground arith
  | inr e ↦ absurd (ground arith)
]

read_current-page :
    {S A : Type 0} (status : ℕ) (body page : A) (s t : S)
    → (xml_get_response (responds status body) >>= λ x. pure (some x)) s ≡ ok (some page) t
    → (status ≡ 200) × (body ≡ page)
read_current-page status body page s t h =
    let (x, u, a, b) =
      bind-returns (xml_get_response (responds status body)) (λ x. pure (some x)) s t (some page)
        h in
    let (at, same) = xml_get_response-responds status body x s u a in (at, cc (same, b))

pub read_current-Shows :
    {S A : Type 0} (handler : Handler) (replies : List (Reply A)) (page : A) (s t : S)
    → read_current handler replies s ≡ ok (some page) t
    → Shows handler replies page
unfolding read_current
read_current-Shows handler [] page s t h = absurd (cc (h))
read_current-Shows imports_socket (socket_fails ∷ more) page s t h =
    let (n, rest, e) = read_current-Shows imports_socket more page s t h in
    (suc n, rest, ap (λ l. socket_fails ∷ l) e)
read_current-Shows lacks_socket (socket_fails ∷ more) page s t h = absurd (cc (h))
read_current-Shows imports_socket (responds status body ∷ more) page s t h =
    let (at, same) = read_current-page status body page s t h in (zero, more, cc (at, same))
read_current-Shows lacks_socket (responds status body ∷ more) page s t h =
    let (at, same) = read_current-page status body page s t h in (more, cc (at, same))
