-- ===== src/Publisher/Silent.antt =====
-- What `setup_topic_data` of bridge_publisher.py leaves.
use ros_bridge.Base.{
  append-All, ℤ, String, ◌==◌, ◌≡◌, sym, subst, Bool-cases, List, [], ◌∷◌, inl, inr, if◌then◌else◌,
  arith, none, some, M, ◌>>=◌, ◌>>◌, pure, or_raise, modify_state, after, bind-holds,
  or_raise-Reads, index_error, All, eq_refl,
}
use ros_bridge.Base.Dict.{Dict, lookup, insert, member, lookup-insert}
use ros_bridge.Library.Startup.{Setting, line, count, content, Config}
use ros_bridge.Publisher.Defs.{Publisher, Topic}
use ros_bridge.Library.Packages.{
  Packages, Types, imported, split_slash, two_tokens, first_type, load,
}
use ros_bridge.Library.Connects.{imported-Reads, load-Reads}
use ros_bridge.Publisher.Startup.{msg_parameters, enter, setup_type, setup_topic, setup_topics}

abbrev HasMessage : Dict (Dict ℤ) → Topic → Type 0
HasMessage msgs t = (message : Dict ℤ) × (lookup t.name msgs ≡ some message)

-- A publisher that has nothing to publish, with a message for each topic.
pub record IsSilent (p : Publisher) : Type 0 where
  pub queue : p.xml_queue ≡ []
  pub unfinished : p.unfinished ≡ 0
  pub hold : p.data_hold ≡ none
  pub published : p.published ≡ []
  pub messages : All (HasMessage p.msgs) p.topics

insert-HasMessage :
    (name : String) (message : Dict ℤ) (msgs : Dict (Dict ℤ)) (ts : List Topic)
    → All (HasMessage msgs) ts
    → All (HasMessage (insert name message msgs)) ts
insert-HasMessage name message msgs [] h = tt
insert-HasMessage name message msgs (t ∷ ts) h = (
  (elim (Bool-cases (name == t.name)) [
    | inl e ↦ (message, ground (arith, lookup-insert name t.name message msgs))
    | inr e ↦ (h.0.0, ground (arith, lookup-insert name t.name message msgs, h.0.1))
  ]),
  insert-HasMessage name message msgs ts h.1,
)

enter-IsSilent :
    (name : String) (conversion : Dict (Dict String)) (message : Dict ℤ) (p : Publisher)
    → IsSilent p
    → IsSilent (enter name conversion message p)
enter-IsSilent name conversion message p h = record {
  queue = h.queue;
  unfinished = h.unfinished;
  hold = h.hold;
  published = h.published;
  messages =
      append-All (HasMessage (insert name message p.msgs)) p.topics
        (record { name = name; conversion = conversion } ∷ [])
        (insert-HasMessage name message p.msgs p.topics h.messages)
        ((message, ground (arith, lookup-insert name name message p.msgs, eq_refl name)), tt);
}

module _ (packages : Packages (Dict ℤ)) where
  setup_type-IsSilent :
      (name : String) (manifests : List String) (t : String × Dict (Dict String)) (p : Publisher)
      → IsSilent p
      → IsSilent (after (setup_type packages name manifests t p))
  unfolding setup_type
  setup_type-IsSilent name manifests (tn, conversion) p h =
      let added : List String → Dict ℤ → M Publisher (List String) =
        λ loaded message. modify_state (enter name conversion message) >> pure loaded in
      bind-holds IsSilent (or_raise (two_tokens (split_slash tn)) index_error)
        (λ tokens. load packages tokens.0 manifests >>= λ loaded.
          imported (packages.type_handle tokens.0 tokens.1) >>= added loaded)
        p (subst IsSilent (sym (or_raise-Reads (two_tokens (split_slash tn)) index_error p)) h)
        λ tokens q k.
          bind-holds IsSilent (load packages tokens.0 manifests)
            (λ loaded. imported (packages.type_handle tokens.0 tokens.1) >>= added loaded) q
            (subst IsSilent (sym (load-Reads packages tokens.0 manifests q)) k)
            λ loaded r l.
              bind-holds IsSilent (imported (packages.type_handle tokens.0 tokens.1)) (added loaded)
                r
                (subst IsSilent (sym (imported-Reads (packages.type_handle tokens.0 tokens.1) r)) l)
                λ message u. enter-IsSilent name conversion message u

  setup_topic-IsSilent :
      (name : String) (manifests : List String) (setting : Setting Types) (p : Publisher)
      → IsSilent p
      → IsSilent (after (setup_topic packages name manifests setting p))
  setup_topic-IsSilent name manifests (line s) p h = h
  setup_topic-IsSilent name manifests (count n) p h = h
  setup_topic-IsSilent name manifests (content types) p h =
      bind-holds IsSilent (or_raise (first_type types) index_error)
        (setup_type packages name manifests) p
        (subst IsSilent (sym (or_raise-Reads (first_type types) index_error p)) h)
        (setup_type-IsSilent name manifests)

  pub setup_topics-IsSilent :
      (config : Config Types) (manifests : List String) (p : Publisher)
      → IsSilent p
      → IsSilent (after (setup_topics packages config manifests p))
  unfolding setup_topics
  setup_topics-IsSilent [] manifests p h = h
  setup_topics-IsSilent ((name, setting) ∷ more) manifests p h =
      bind-holds IsSilent
        (if member name msg_parameters
          then pure manifests
          else setup_topic packages name manifests setting)
        (setup_topics packages more) p
        (elim (Bool-cases (member name msg_parameters)) [
          | inl e ↦ rw e h
          | inr e ↦ rw e (setup_topic-IsSilent name manifests setting p h)
        ])
        (setup_topics-IsSilent more)
