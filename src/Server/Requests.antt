-- ===== src/Server/Requests.antt =====
-- `execute_cb` of bridge_server.py from the goal of the robot to its answer.
use ros_bridge.Base.{
  ℕ, String, ◌≡◌, refl, true, List, [], ◌∷◌, arith, some, Option, ok, ◌>>=◌, All, append-nil,
}
use ros_bridge.Base.Dict.{lookup, contains}
use ros_bridge.DataItem.Values.{Number, text}
use ros_bridge.Adapter.Defs.{Sockets}
use ros_bridge.Library.Events.{Node, action_cb}
use ros_bridge.Library.Actions.{IsReady}
use ros_bridge.Library.Effects.{action_cb-text}
use ros_bridge.Library.Startup.{Reply, responds, xml_get_response}
use ros_bridge.Library.Xml.{Element, Document, Chunk, find_all, xml_components, find_tags}
use ros_bridge.Server.Defs.{Server, Session, Tick, begin_action, execute_cb, path_tag}
use ros_bridge.Server.Phases.{asked, is_open, Rel}
use ros_bridge.Server.Runs.{IsSingle, HasSingle, follow_all, run-Goes, Rel-flags}

-- A server that `setup_topic_data` has prepared for an action.
pub record IsConfigured {N S : Type 0} (action request : String) (i : ℕ) (s : Server N S)
    : Type 0 where
  pub ready : IsReady s.node
  pub known : lookup action s.node.di_dict ≡ some i
  pub named : lookup action s.server_name ≡ some request
  pub listed : contains request s.results ≡ true

-- The agent shows a state of the machine tool for a request.
pub record Shows (current : String → Reply Chunk) (request : String) (state : Option String)
    : Type 0 where
  pub tag : String
  pub doc : Document
  pub seq : String
  pub head : Element
  pub others : List Element
  pub path : path_tag request ≡ some tag
  pub found : current tag ≡ responds 200 (some doc)
  pub header : doc.header ≡ some (some seq)
  pub elements : find_all request doc.elements ≡ head ∷ others
  pub shown : head.text ≡ state

module _ {N S : Type 0} ⦃n : Number N⦄ ⦃k : Sockets S⦄ (time action request : String) (i : ℕ)
    (current : String → Reply Chunk) where
  found-Shows :
      (state : Option String)
      → (w : Shows current request state) → (s : Server N S)
      → (xml_get_response (current w.tag) >>= λ body. xml_components body (request ∷ [])) s
        ≡ ok (w.seq, w.head ∷ w.others) s
  unfolding xml_components find_tags xml_get_response
  found-Shows state w s =
      ground (arith, w.found, w.header, w.elements, append-nil (w.head ∷ w.others))

  begin_ready :
      (s : Server N S) (e : Node N S)
      → Shows current request (some "READY")
      → action_cb time action (text "ACTIVE") s.node ≡ ok tt e
      → begin_action time current action request s
        ≡ ok true (record s { node = e; capture_xml = true })
  unfolding begin_action
  begin_ready s e w f = ground (arith, w.path, found-Shows (some "READY") w s, w.shown, f)

  begin-Rel :
      (s : Server N S)
      → IsConfigured action request i s
      → Shows current request (some "READY")
      → (s' : Server N S) × (begin_action time current action request s ≡ ok true s')
        × Rel action request i s.verdicts asked s.xml_queue
            (record { server = s'; robot_hold = 0; dwell = true })
  begin-Rel s c w =
      let (e, f, d, r, v) = action_cb-text time action i "ACTIVE" s.node c.ready c.known in
      (
        _,
        begin_ready s e w f,
        record {
          sound = record { ready = r; known = rw d c.known; listed = c.listed };
          held = refl;
          dwells = refl;
          captures = refl;
          serves = v;
          answered = ground (arith, append-nil s.verdicts);
          queues = refl;
        },
      )

  -- If the agent shows READY, `execute_cb` with any sequence of ticks raises nothing and follows the
  -- machine of phases from `asked` and the queue that earlier actions have left: it waits exactly
  -- while the phase is open, and the phase fixes what it serves and the calls of the action server
  -- that it has made, at most one. The server is configured for the action on a ready node, and each
  -- chunk, also of those already queued, is XML with at most one element of the request.
  pub execute_cb-Goes :
      (ticks : List Tick) (s : Server N S)
      → IsConfigured action request i s
      → Shows current request (some "READY")
      → All (HasSingle request) ticks
      → All (IsSingle request) s.xml_queue
      → let (p, q) = follow_all request ticks asked s.xml_queue in
        (t : Session N S) × (execute_cb time current action ticks s ≡ ok t.dwell t.server)
        × (t.dwell ≡ is_open p)
        × Rel action request i s.verdicts p q t
  unfolding execute_cb
  execute_cb-Goes ticks s c w x l =
      let (s', f, a) = begin-Rel s c w in
      let (p, q) = follow_all request ticks asked s.xml_queue in
      let (t, g, b) =
        run-Goes action request i s.verdicts ticks asked s.xml_queue
          (record { server = s'; robot_hold = 0; dwell = true }) x l a in
      (t, ground (arith, c.named, f, g), (Rel-flags action request i s.verdicts p q t b).0, b)
