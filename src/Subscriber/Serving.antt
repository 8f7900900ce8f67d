-- ===== src/Subscriber/Serving.antt =====
-- What `setup_topic_data` of bridge_subscriber.py leaves.
use ros_bridge.Base.{
  map-All, append-All, String, ◌≡◌, refl, sym, ap, subst, ◌∙◌, false, Bool-cases, List, [], ◌∷◌,
  ◌++◌, append_assoc, append-nil, inl, inr, if◌then◌else◌, Outcome, ok, err, M, ◌>>=◌, ◌>>◌, pure,
  or_raise, modify_state, after, bind-returns, or_raise-Reads, Reads-returns, index_error, All,
}
use ros_bridge.Base.Dict.{Dict, keys, member}
use ros_bridge.DataItem.Values.{Number}
use ros_bridge.Adapter.Defs.{Sockets}
use ros_bridge.Library.Actions.{IsReady}
use ros_bridge.Library.Connects.{imported-Reads, load-Reads}
use ros_bridge.Library.Events.{Node, add_events, add_event}
use ros_bridge.Library.Nodes.{HasEvent, add_events-IsReady, add_events-HasEvent, add_event-plain}
use ros_bridge.Library.Packages.{
  Packages, Types, imported, split_slash, two_tokens, first_type, load,
}
use ros_bridge.Library.Startup.{Setting, line, count, content, Config}
use ros_bridge.Subscriber.Defs.{Member, Topic}
use ros_bridge.Subscriber.Startup.{
  msg_parameters, Subscriber, topic_names, on_node, enter, find_class, setup_type, setup_topic,
  setup_entry, setup_topics,
}

-- The names of a configuration that are no parameters.
unfoldable pub named_topics : Config Types → List String
named_topics [] = []
named_topics ((name, setting) ∷ more) =
    (if member name msg_parameters then [] else name ∷ []) ++ named_topics more

topic_names-append :
    (ts us : List Topic) → topic_names (ts ++ us) ≡ topic_names ts ++ topic_names us
topic_names-append [] us = refl
topic_names-append (t ∷ ts) us = ap (λ l. t.name ∷ l) (topic_names-append ts us)

module _ {N S : Type 0} where
  -- The data items of a topic are events of the node.
  abbrev pub HasItems : Node N S → Topic → Type 0
  HasItems d t = All (HasEvent d) (keys t.items)

  pub record IsServing (s : Subscriber N S) : Type 0 where
    pub ready : IsReady s.node
    pub has : All (HasItems s.node) s.topics

  add_events-HasItems :
      (tags : List String) (d : Node N S) (ts : List Topic)
      → All (HasItems d) ts
      → All (HasItems (after (add_events tags d))) ts
  add_events-HasItems tags d ts =
      map-All (HasItems d) (HasItems (after (add_events tags d))) ts λ t.
        map-All (HasEvent d) (HasEvent (after (add_events tags d))) (keys t.items)
          (add_events-HasEvent tags d)

  lifted :
      {A : Type 0} (o : Outcome (Node N S) A) (s t : Subscriber N S) (a : A)
      → on_node (λ _. o) s ≡ ok a t
      → (d : Node N S) × (o ≡ ok a d) × (t ≡ record s { node = d })
  lifted (ok x d) s t a h = (d, cc (h), cc (h))
  lifted (err e d) s t a h = absurd (cc (h))

  -- What a call adds to the topics.
  abbrev pub Adds : List String → Subscriber N S → Subscriber N S → Type 0
  Adds names s t = topic_names t.topics ≡ topic_names s.topics ++ names

module _ {N S : Type 0} ⦃n : Number N⦄ ⦃k : Sockets S⦄ (packages : Packages (List Member))
    (time : String) where
  find_class-entered :
      (topic : String) (manifests loaded : List String) (t : String × Dict (Dict String))
      (s u : Subscriber N S)
      → find_class packages time topic manifests t s ≡ ok loaded u
      → (members : List Member) × (u
          ≡ enter (record { name = topic; items = t.1; members = members }) s)
  unfolding find_class
  find_class-entered topic manifests loaded (type_key, items) s u h =
      let entered : List Member → Topic =
        λ members. record { name = topic; items = items; members = members } in
      let last : List String → List Member → M (Subscriber N S) (List String) =
        λ loaded members. modify_state (enter (entered members)) >> pure loaded in
      let (tokens, s1, a1, h1) =
        bind-returns (or_raise (two_tokens (split_slash type_key)) index_error)
          (λ tokens. load packages tokens.0 manifests >>= λ loaded.
            imported (packages.type_handle tokens.0 tokens.1) >>= last loaded)
          s u loaded h in
      let (found, s2, a2, h2) =
        bind-returns (load packages tokens.0 manifests)
          (λ loaded. imported (packages.type_handle tokens.0 tokens.1) >>= last loaded) s1 u loaded
          h1 in
      let (members, s3, a3, h3) =
        bind-returns (imported (packages.type_handle tokens.0 tokens.1)) (last found) s2 u loaded
          h2 in
      let same =
        Reads-returns (imported (packages.type_handle tokens.0 tokens.1)) s2 s3 members
          (imported-Reads (packages.type_handle tokens.0 tokens.1)) a3
        ∙ (Reads-returns (load packages tokens.0 manifests) s1 s2 found
              (load-Reads packages tokens.0 manifests) a2
            ∙ Reads-returns (or_raise (two_tokens (split_slash type_key)) index_error) s s1 tokens
                (or_raise-Reads (two_tokens (split_slash type_key)) index_error) a1) in
      (members, sym (ap after h3) ∙ ap (enter (entered members)) same)

  setup_type-IsServing :
      (topic : String) (manifests loaded : List String) (t : String × Dict (Dict String))
      (s u : Subscriber N S)
      → IsServing s
      → setup_type packages time topic manifests t s ≡ ok loaded u
      → IsServing u × Adds (topic ∷ []) s u
  unfolding setup_type
  setup_type-IsServing topic manifests loaded t s u h e =
      let tags = keys t.1 in
      let (_, s1, a, b) =
        bind-returns (on_node (add_event time tags false))
          (λ _. find_class packages time topic manifests t) s u loaded e in
      let (d, f, g) = lifted (add_event time tags false s.node) s s1 tt a in
      let adds = add_event-plain time tags s.node d f in
      let (ready, has) = add_events-IsReady tags s.node d h.ready in
      let at_d : (P : Node N S → Type 0) → P (after (add_events tags s.node)) → P d =
        λ P x. subst (λ (o : Outcome (Node N S) (Unit {0})). P (after o)) adds x in
      let (members, entered) = find_class-entered topic manifests loaded t s1 u b in
      let new : Topic = record { name = topic; items = t.1; members = members } in
      let shown : enter new (record s { node = d }) ≡ u = ap (enter new) (sym g) ∙ sym entered in
      subst (λ v. IsServing v × Adds (topic ∷ []) s v) shown
        (
          record {
            ready = at_d IsReady ready;
            has =
                append-All (HasItems d) s.topics (new ∷ [])
                  (at_d (λ d. All (HasItems d) s.topics)
                    (add_events-HasItems tags s.node s.topics h.has))
                  (has adds, tt);
          },
          topic_names-append s.topics (new ∷ []),
        )

  setup_topic-IsServing :
      (topic : String) (manifests loaded : List String) (setting : Setting Types)
      (s u : Subscriber N S)
      → IsServing s
      → setup_topic packages time topic manifests setting s ≡ ok loaded u
      → IsServing u × Adds (topic ∷ []) s u
  setup_topic-IsServing topic manifests loaded (line x) s u h e = absurd (cc (e))
  setup_topic-IsServing topic manifests loaded (count m) s u h e = absurd (cc (e))
  setup_topic-IsServing topic manifests loaded (content types) s u h e =
      let (t, s1, a, b) =
        bind-returns (or_raise (first_type types) index_error)
          (setup_type packages time topic manifests) s u loaded e in
      let same =
        Reads-returns (or_raise (first_type types) index_error) s s1 t
          (or_raise-Reads (first_type types) index_error) a in
      setup_type-IsServing topic manifests loaded t s u h
        (subst (λ v. setup_type packages time topic manifests t v ≡ ok loaded u) same b)

  setup_entry-IsServing :
      (name : String) (manifests loaded : List String) (setting : Setting Types)
      (s u : Subscriber N S)
      → IsServing s
      → setup_entry packages time name manifests setting s ≡ ok loaded u
      → IsServing u × Adds (if member name msg_parameters then [] else name ∷ []) s u
  setup_entry-IsServing name manifests loaded setting s u h =
      elim (Bool-cases (member name msg_parameters)) [
        | inl g ↦ rw g (λ e.
            let same : s ≡ u = ap after e in
            subst (λ v. IsServing v × Adds [] s v) same
              (h, sym (append-nil (topic_names s.topics))))
        | inr g ↦ rw g (setup_topic-IsServing name manifests loaded setting s u h)
      ]

  pub setup_topics-IsServing :
      (config : Config Types) (manifests : List String) (s u : Subscriber N S)
      → IsServing s
      → setup_topics packages time config manifests s ≡ ok tt u
      → IsServing u × Adds (named_topics config) s u
  unfolding setup_topics named_topics
  setup_topics-IsServing [] manifests s u h e =
      subst (λ v. IsServing v × Adds [] s v) (ap after e)
        (h, sym (append-nil (topic_names s.topics)))
  setup_topics-IsServing ((name, setting) ∷ more) manifests s u h e =
      let first = if member name msg_parameters then [] else name ∷ [] in
      let (loaded, s1, a, b) =
        bind-returns (setup_entry packages time name manifests setting)
          (setup_topics packages time more) s u tt e in
      let (serving, added) = setup_entry-IsServing name manifests loaded setting s s1 h a in
      let (at_end, later) = setup_topics-IsServing more loaded s1 u serving b in
      (
        at_end,
        later
            ∙ (ap (λ l. l ++ named_topics more) added
                ∙ append_assoc (topic_names s.topics) first (named_topics more)),
      )
