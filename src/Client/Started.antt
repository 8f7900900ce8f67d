-- ===== src/Client/Started.antt =====
-- What the constructor of `GenericActionClient` leaves.
use ros_bridge.Base.{
  ℕ, String, ◌≡◌, refl, sym, ap, subst, ◌∙◌, false, List, [], ◌∷◌, if◌then◌else◌, Option, none,
  some, Outcome, ok, err, ◌>>◌, pure, or_raise, modify_state, after, arith, All, Bool-cases, inl,
  inr, index_error, bind-returns, bind-holds, or_raise-Reads,
}
use ros_bridge.Base.Dict.{Dict, lookup, insert, keys, member, lookup-insert}
use ros_bridge.DataItem.Values.{Number}
use ros_bridge.Adapter.Defs.{Sockets}
use ros_bridge.Adapter.Connections.{start}
use ros_bridge.Library.Goals.{Goal}
use ros_bridge.Library.Events.{Node, on_adapter, add_event}
use ros_bridge.Library.Actions.{IsReady}
use ros_bridge.Library.Nodes.{add_event-plain, HasEvent, add_events-IsReady}
use ros_bridge.Library.Connects.{start_node-HasStarted}
use ros_bridge.Library.Startup.{
  imports_socket, Setting, line, count, content, Config, Agent, reaches,
}
use ros_bridge.Library.Xml.{Element}
use ros_bridge.Library.Nodes.{new_node-IsReady, started-IsReady}
use ros_bridge.Client.Defs.{Client, on_node, setup_topic_data}
use ros_bridge.Client.Startup.{
  msg_parameters, new_client, first_key, setup_actions, setup_package, setup_packages, serve_items,
  start_client,
}

no_tag : (name tag : String) → lookup name [] ≡ some tag → ⊥
unfolding lookup
no_tag name tag e = cc

module _ {N S F : Type 0} where
  -- Every action is known with no goal of its own.
  abbrev pub AwaitsGoals : Client N S F → Type 0
  AwaitsGoals c =
      (g : Dict (Option (List (Goal F)))) × (c.action_goals ≡ some g)
      × ((action goal_tag : String)
          → lookup action c.action_list ≡ some goal_tag
          → lookup action g ≡ some none)

  record Fresh (interval : ℕ) (c : Client N S F) : Type 0 where
    node : c.node ≡ (new_client {N = N} {S = S} {F = F} interval).node
    handshake : c.handshake ≡ none
    launched : c.launched ≡ []
    awaits : AwaitsGoals c

  entered-Fresh :
      (interval : ℕ) (action goal_tag : String) (c : Client N S F)
      → Fresh interval c
      → Fresh interval (setup_topic_data ((action, goal_tag) ∷ []) c)
  unfolding setup_topic_data
  entered-Fresh interval action goal_tag c h = record {
    node = h.node;
    handshake = h.handshake;
    launched = h.launched;
    awaits =
        let (g, e, a) = h.awaits in
        (
          insert action none g,
          cc (e),
          λ other tag l. ground (
            arith,
            lookup-insert action other goal_tag c.action_list,
            lookup-insert action other none g,
            a other tag,
          ),
        );
  }

  new_client-Fresh : (interval : ℕ) → Fresh interval (new_client interval)
  new_client-Fresh interval = record {
    node = refl;
    handshake = refl;
    launched = refl;
    awaits = ([], refl, λ action tag l. absurd (no_tag action tag l));
  }

  setup_actions-Fresh :
      (actions : Dict (List String)) (interval : ℕ) (c : Client N S F)
      → Fresh interval c
      → Fresh interval (after (setup_actions actions c))
  unfolding setup_actions
  setup_actions-Fresh [] interval c h = h
  setup_actions-Fresh ((action, tags) ∷ more) interval c h =
      bind-holds (Fresh interval) (or_raise (first_key tags) index_error)
        (λ goal_tag.
          modify_state (setup_topic_data ((action, goal_tag) ∷ [])) >> setup_actions more)
        c (subst (Fresh interval) (sym (or_raise-Reads (first_key tags) index_error c)) h)
        λ goal_tag d f.
          setup_actions-Fresh more interval (setup_topic_data ((action, goal_tag) ∷ []) d)
            (entered-Fresh interval action goal_tag d f)

  setup_package-Fresh :
      (setting : Setting (Dict (List String))) (interval : ℕ) (c : Client N S F)
      → Fresh interval c
      → Fresh interval (after (setup_package setting c))
  setup_package-Fresh (line s) interval c h = h
  setup_package-Fresh (count m) interval c h = h
  setup_package-Fresh (content actions) interval c h = setup_actions-Fresh actions interval c h

  setup_packages-Fresh :
      (config : Config (Dict (List String))) (interval : ℕ) (c : Client N S F)
      → Fresh interval c
      → Fresh interval (after (setup_packages config c))
  unfolding setup_packages
  setup_packages-Fresh [] interval c h = h
  setup_packages-Fresh ((name, setting) ∷ more) interval c h =
      bind-holds (Fresh interval)
        (if member name msg_parameters then pure tt else setup_package setting)
        (λ _. setup_packages more) c
        (elim (Bool-cases (member name msg_parameters)) [
          | inl e ↦ rw e h
          | inr e ↦ rw e (setup_package-Fresh setting interval c h)
        ])
        λ _ d. setup_packages-Fresh more interval d

  lifted :
      {A : Type 0} (o : Outcome (Node N S) A) (s t : Client N S F) (a : A)
      → on_node (λ _. o) s ≡ ok a t
      → (d : Node N S) × (o ≡ ok a d) × (t ≡ record s { node = d })
  lifted (ok x d) s t a h = (d, cc (h), cc (h))
  lifted (err e d) s t a h = absurd (cc (h))

-- A client that waits for a request of the machine tool: its node keeps its invariant and has the
-- data item of each action, no handshake is open, nothing has been launched, and no action has a
-- goal.
pub record IsIdle {N S F : Type 0} (c : Client N S F) : Type 0 where
  pub ready : IsReady c.node
  pub has : All (HasEvent c.node) (keys c.action_list)
  pub handshake : c.handshake ≡ none
  pub launched : c.launched ≡ []
  pub awaits : AwaitsGoals c

module _ {N S F : Type 0} ⦃n : Number N⦄ ⦃k : Sockets S⦄ where
  serve_items-IsIdle :
      (time : String) (interval : ℕ) (s t : Client N S F)
      → Fresh interval s
      → serve_items time s ≡ ok tt t
      → IsIdle t
  unfolding serve_items
  serve_items-IsIdle time interval s t h g =
      let tags = keys s.action_list in
      let (_, s1, a, b) =
        bind-returns (on_node (add_event time tags false))
          (λ _. on_node (on_adapter (modify_state start))) s t tt g in
      let (d, e, f) = lifted (add_event time tags false s.node) s s1 tt a in
      let fresh : IsReady s.node = subst IsReady (sym h.node) (new_node-IsReady interval) in
      let adds = add_event-plain time tags s.node d e in
      let (ready, has) = add_events-IsReady tags s.node d fresh in
      let ended : Client N S F → Client N S F =
        λ u. record u { node = record u.node { adapter = start u.node.adapter } } in
      let at_end : ended (record s { node = d }) ≡ t = ap ended (sym f) ∙ cc (b) in
      subst IsIdle at_end (record {
        ready =
            started-IsReady d
              (subst (λ (o : Outcome (Node N S) (Unit {0})). IsReady (after o)) adds ready);
        has = has adds;
        handshake = h.handshake;
        launched = h.launched;
        awaits = h.awaits;
      })

  -- A start of the client that reaches the stream leaves it waiting for a request: the data item of
  -- each action is there, no handshake is open, nothing has been launched, and no action has a goal.
  pub start_client-IsIdle :
      {A : Type 0} (time : String) (interval : ℕ) (data_map : Option (Config (Dict (List String))))
      (agent : Agent A) (x : List Element × A) (c : Client N S F)
      → start_client time data_map agent (new_client interval) ≡ ok (reaches x) c
      → IsIdle c
  unfolding start_client
  start_client-IsIdle time interval data_map agent x c h =
      let c0 = new_client interval in
      let (config, c1, a, b) =
        start_node-HasStarted imports_socket msg_parameters setup_packages (serve_items time)
          (λ c. keys c.action_list) agent data_map x c0 c h in
      let fresh =
        subst (λ (o : Outcome (Client N S F) (Unit {0})). Fresh interval (after o)) a
          (setup_packages-Fresh config interval c0 (new_client-Fresh interval)) in
      serve_items-IsIdle time interval c1 c fresh b
