-- ===== src/Subscriber/Listening.antt =====
-- What the constructor of `BridgeSubscriber` leaves when it has subscribed its topics.
use ros_bridge.Base.{
  arith, ℕ, String, ◌≡◌, sym, ap, subst, ◌∙◌, ◌||◌, List, [], ◌∷◌, some, ok, ◌>>◌, modify_state,
  after, bind-returns, Reads-returns,
}
use ros_bridge.Base.Dict.{member}
use ros_bridge.DataItem.Values.{Number}
use ros_bridge.Adapter.Defs.{Sockets}
use ros_bridge.Adapter.Connections.{start}
use ros_bridge.Library.Connects.{require-Reads}
use ros_bridge.Library.Events.{on_adapter}
use ros_bridge.Library.Nodes.{new_node-IsReady, started-IsReady}
use ros_bridge.Library.Packages.{Packages, Types}
use ros_bridge.Library.Startup.{Config, require, reaches}
use ros_bridge.Subscriber.Defs.{Member, subscribe}
use ros_bridge.Subscriber.Topics.{subscribe-member}
use ros_bridge.Subscriber.Startup.{
  msg_parameters, Subscriber, topic_names, new_subscriber, on_node, setup_topics, subscribed_all,
  listen, start_subscriber,
}
use ros_bridge.Subscriber.Serving.{named_topics, IsServing, setup_topics-IsServing}

subscribed_all-member :
    (o : List String × List String) (subscribed : List String) (j : String)
    → subscribed_all o ≡ reaches subscribed
    → member j subscribed ≡ (member j o.0 || member j o.1)
unfolding member
subscribed_all-member ([], found) subscribed j e = ground (arith, e)
subscribed_all-member (t ∷ ts, found) subscribed j e = absurd (cc (e))

listen-member :
    {N S : Type 0} (passes : List (List String)) (s u : Subscriber N S) (subscribed : List String)
    → listen passes s ≡ ok (reaches subscribed) u
    → (s ≡ u) × ((j : String) → member j subscribed ≡ member j (topic_names s.topics))
unfolding listen
listen-member passes s u subscribed e = (
  ap after e,
  λ j.
      subscribed_all-member (subscribe passes (topic_names s.topics)) subscribed j (cc (e))
      ∙ subscribe-member passes (topic_names s.topics) j,
)

new_subscriber-IsServing :
    {N S : Type 0} (interval : ℕ) → IsServing (new_subscriber {N = N} {S = S} interval)
new_subscriber-IsServing interval = record { ready = new_node-IsReady interval; has = tt }

module _ {N S : Type 0} ⦃n : Number N⦄ ⦃k : Sockets S⦄ (packages : Packages (List Member))
    (time : String) where
  -- A start of the subscriber that comes to its end leaves a ready node with an event for each data
  -- item of each topic, and it has subscribed exactly the names of the configuration that are no
  -- parameters.
  pub start_subscriber-IsServing :
      (interval : ℕ) (config : Config Types) (passes : List (List String))
      (subscribed : List String) (s : Subscriber N S)
      → start_subscriber packages time (some config) passes (new_subscriber interval)
        ≡ ok (reaches subscribed) s
      → IsServing s × ((j : String) → member j subscribed ≡ member j (named_topics config))
  unfolding start_subscriber
  start_subscriber-IsServing interval config passes subscribed s e =
      let s0 = new_subscriber interval in
      let begin = on_node (on_adapter (modify_state start)) in
      let (_, s1, a1, e1) =
        bind-returns (require msg_parameters config)
          (λ _. setup_topics packages time config [] >> (begin >> listen passes)) s0 s
          (reaches subscribed) e in
      let same =
        Reads-returns (require msg_parameters config) s0 s1 tt (require-Reads msg_parameters config)
          a1 in
      let (_, s2, a2, e2) =
        bind-returns (setup_topics packages time config []) (λ _. begin >> listen passes) s1 s
          (reaches subscribed) e1 in
      let (_, s3, a3, e3) = bind-returns begin (λ _. listen passes) s2 s (reaches subscribed) e2 in
      let (serving, added) =
        setup_topics-IsServing packages time config [] s0 s2 (new_subscriber-IsServing interval)
          (subst (λ v. setup_topics packages time config [] v ≡ ok tt s2) same a2) in
      let (at_end, all) = listen-member passes s3 s subscribed e3 in
      let ended : Subscriber N S → Subscriber N S =
        λ u. record u { node = record u.node { adapter = start u.node.adapter } } in
      let shown : ended s2 ≡ s = ap after a3 ∙ at_end in
      (
        subst IsServing shown
            (record { ready = started-IsReady s2.node serving.ready; has = serving.has }),
        λ j.
            all j
            ∙ ap (λ v. member j (topic_names v.topics)) (sym (ap after a3))
            ∙ ap (member j) added,
      )
