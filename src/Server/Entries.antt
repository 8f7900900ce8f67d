-- ===== src/Server/Entries.antt =====
-- What `setup_topic_data` of bridge_server.py enters into the dictionaries of the server.
use ros_bridge.Base.{
  ℕ, String, ◌==◌, ◌≡◌, refl, sym, subst, ◌∙◌, true, false, List, [], ◌∷◌, if◌then◌else◌, none,
  some, err, M, modify_state, ◌>>=◌, ◌>>◌, pure, after, arith, index_error, Reads, bind-holds,
  Option-cases, Bool-cases, inl, inr, eq_iff,
}
use Prim.Native.String as Text
use ros_bridge.Base.Dict.{lookup, insert, contains, member, lookup-insert}
use ros_bridge.Base.Unique.{contains-insert}
use ros_bridge.Library.Tags.{find_tokens, split_event, islower, scan_tokens, any_char, is_upper}
use ros_bridge.Library.Events.{event_name}
use ros_bridge.DataItem.Values.{◌+++◌}
use ros_bridge.Library.Connects.{imported-Reads}
use ros_bridge.Library.Packages.{Actions, finds, imported}
use ros_bridge.Library.Startup.{Setting, line, count, content, Config}
use ros_bridge.Server.Defs.{Server, setup_topic_data}
use ros_bridge.Server.Startup.{
  msg_parameters, new_server, requests_of, setup_package, setup_packages,
}

-- A text without capitals has no tokens.
find_tokens_low : (s : String) → any_char is_upper s ≡ false → (scan_tokens s).1 ≡ []
unfolding scan_tokens any_char
find_tokens_low Text.[] h = refl
find_tokens_low (Text.◌∷◌ c s) h = ground (arith, find_tokens_low s)

islower_no : (s : String) → any_char is_upper s ≡ true → islower s ≡ false
unfolding islower
islower_no s h = ground (arith, h)

event_name-split : (s : String) → islower s ≡ false → event_name s ≡ split_event s
unfolding event_name
event_name-split s h = cc (h)

split_event_plain : (s : String) → (scan_tokens s).1 ≡ [] → split_event s ≡ none
unfolding split_event find_tokens
split_event_plain s h = cc (h)

pub split_event_name :
    (tag name : String) → split_event tag ≡ some name → event_name tag ≡ some name
split_event_name tag name h = elim (Bool-cases (any_char is_upper tag)) [
  | inl u ↦ event_name-split tag (islower_no tag u) ∙ h
  | inr u ↦ absurd (cc (split_event_plain tag (find_tokens_low tag u), h))
]

no_name : (name request : String) → lookup name [] ≡ some request → ⊥
unfolding lookup
no_name name request e = cc

module _ {N S : Type 0} where
  abbrev pub Named : Server N S → Type 0
  Named s =
      (name request : String)
      → lookup name s.server_name ≡ some request
      → (contains request s.results ≡ true) × (split_event request ≡ some name)

  -- Each name stands for a request that has a result and is split into it, and nothing is captured.
  pub record Fresh (interval : ℕ) (s : Server N S) : Type 0 where
    pub named : Named s
    pub node : s.node ≡ (new_server interval).node
    pub capture : s.capture_xml ≡ false
    pub queue : s.xml_queue ≡ []

  pub new_server-Fresh : (interval : ℕ) → Fresh interval (new_server interval)
  new_server-Fresh interval = record {
    named = λ name request e. absurd (no_name name request e);
    node = refl;
    capture = refl;
    queue = refl;
  }

  abbrev pub entered : String → String → Server N S → Server N S
  entered name request s = record s {
    server_name = insert name request s.server_name;
    results = insert request none s.results;
  }

  entered_name :
      (name request other r : String) (s : Server N S)
      → split_event request ≡ some name
      → Named s
      → lookup other (insert name request s.server_name) ≡ some r
      → (contains r (insert request none s.results) ≡ true) × (split_event r ≡ some other)
  entered_name name request other r s e h g =
      let found = lookup-insert name other request s.server_name in
      let listed = contains-insert request r none s.results in
      elim (Bool-cases (name == other)) [
        | inl q ↦
            let same : request ≡ r = ground (arith, found, q, g) in
            let names : name ≡ other = (eq_iff name other).0 q in
            (ground (arith, listed, same, eq_iff request r), cc (e, same, names))
        | inr q ↦
            let (there, split) = h other r (ground (arith, found, q, g)) in
            (ground (arith, listed, there), split)
      ]

  entered-Fresh :
      (name request : String) (interval : ℕ) (s : Server N S)
      → split_event request ≡ some name
      → Fresh interval s
      → Fresh interval (entered name request s)
  entered-Fresh name request interval s e h = record {
    named = λ other r g. entered_name name request other r s e h.named g;
    node = h.node;
    capture = h.capture;
    queue = h.queue;
  }

  abbrev enter : String → String → M (Server N S) (Unit {0})
  enter name request = modify_state (entered name request)

module _ (packages : Actions) (package_name : String) where
  -- The classes of a request are found.
  abbrev pub HasClasses : String → Type 0
  HasClasses request =
      (packages.class_of package_name (request +++ "Result") ≡ finds tt)
      × (packages.class_of package_name (request +++ "Action") ≡ finds tt)

module _ {N S : Type 0} (packages : Actions) (package_name : String) where
  setup_stops :
      (r : String) (rs : List String) (s : Server N S)
      → split_event r ≡ none
      → setup_topic_data packages package_name (r ∷ rs) s ≡ err index_error s
  unfolding setup_topic_data
  setup_stops r rs s e = cc (e)

  setup_splits :
      (r name : String) (rs : List String) (s : Server N S)
      → split_event r ≡ some name
      → setup_topic_data packages package_name (r ∷ rs) s
        ≡ (imported (packages.class_of package_name (r +++ "Result"))
              >> (imported (packages.class_of package_name (r +++ "Action"))
                  >> (enter name r >> setup_topic_data packages package_name rs)))
            s
  unfolding setup_topic_data
  setup_splits r name rs s e = rw e refl

  pub setup_goes :
      (r name : String) (rs : List String) (s : Server N S)
      → split_event r ≡ some name
      → HasClasses packages package_name r
      → setup_topic_data packages package_name (r ∷ rs) s
        ≡ setup_topic_data packages package_name rs (entered name r s)
  setup_goes r name rs s e h = setup_splits r name rs s e ∙ rw (h.0, h.1) refl

  setup_topic_data-Fresh :
      (requests : List String) (interval : ℕ) (s : Server N S)
      → Fresh interval s
      → Fresh interval (after (setup_topic_data packages package_name requests s))
  setup_topic_data-Fresh [] interval s h = unfold setup_topic_data in h
  setup_topic_data-Fresh (r ∷ rs) interval s h = elim (Option-cases (split_event r)) [
    | inl e ↦ rw (setup_stops r rs s e) h
    | inr (name, e) ↦
        let last = enter name r >> setup_topic_data packages package_name rs in
        let action = imported (packages.class_of package_name (r +++ "Action")) in
        rw (setup_splits r name rs s e) (
          bind-holds (Fresh interval) (imported (packages.class_of package_name (r +++ "Result")))
            (λ _. action >> last) s
            (subst (Fresh interval)
              (sym (imported-Reads (packages.class_of package_name (r +++ "Result")) s)) h)
            λ _ t k.
              bind-holds (Fresh interval) action (λ _. last) t
                (subst (Fresh interval)
                  (sym (imported-Reads (packages.class_of package_name (r +++ "Action")) t)) k)
                λ _ u l.
                  setup_topic_data-Fresh rs interval (entered name r u)
                    (entered-Fresh name r interval u e l))
  ]

requests_of-Reads :
    {S : Type 0} (setting : Setting (List String)) → Reads {S = S} (requests_of setting)
requests_of-Reads (line x) s = refl
requests_of-Reads (count x) s = refl
requests_of-Reads (content x) s = refl

module _ {N S : Type 0} (packages : Actions) where
  setup_package-Fresh :
      (name : String) (setting : Setting (List String)) (interval : ℕ) (s : Server N S)
      → Fresh interval s
      → Fresh interval (after (setup_package packages name setting s))
  unfolding setup_package
  setup_package-Fresh name setting interval s h =
      let rest = requests_of setting >>= setup_topic_data packages name in
      bind-holds (Fresh interval) (imported (packages.manifest name))
        (λ _. imported (packages.messages name) >> rest) s
        (subst (Fresh interval) (sym (imported-Reads (packages.manifest name) s)) h)
        λ _ t k.
          bind-holds (Fresh interval) (imported (packages.messages name)) (λ _. rest) t
            (subst (Fresh interval) (sym (imported-Reads (packages.messages name) t)) k)
            λ _ u l.
              bind-holds (Fresh interval) (requests_of setting) (setup_topic_data packages name) u
                (subst (Fresh interval) (sym (requests_of-Reads setting u)) l)
                λ requests v. setup_topic_data-Fresh packages name requests interval v

  pub setup_packages-Fresh :
      (config : Config (List String)) (interval : ℕ) (s : Server N S)
      → Fresh interval s
      → Fresh interval (after (setup_packages packages config s))
  unfolding setup_packages
  setup_packages-Fresh [] interval s h = h
  setup_packages-Fresh ((name, setting) ∷ more) interval s h =
      bind-holds (Fresh interval)
        (if member name msg_parameters then pure tt else setup_package packages name setting)
        (λ _. setup_packages packages more) s
        (elim (Bool-cases (member name msg_parameters)) [
          | inl e ↦ rw e h
          | inr e ↦ rw e (setup_package-Fresh name setting interval s h)
        ])
        λ _ t. setup_packages-Fresh more interval t
