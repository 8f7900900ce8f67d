-- ===== src/Client/Lost.antt =====
-- What the client can still do when its dictionary of goals has been overwritten by None.
use ros_bridge.Base.{
  String, ◌==◌, ◌≡◌, refl, true, ◌&&◌, List, [], ◌∷◌, map, arith, some, none, Option, type_error,
  Outcome, ok, err, M, Bool-cases, Option-cases, inl, inr, after, ◌∙◌, ◌>>=◌,
}
use ros_bridge.Base.Dict.{Dict, lookup}
use ros_bridge.DataItem.Values.{Number, text}
use ros_bridge.Adapter.Defs.{Sockets}
use ros_bridge.Library.Tags.{upper}
use ros_bridge.Library.Events.{Node, action_cb}
use ros_bridge.Library.Goals.{set_goal}
use ros_bridge.Library.Xml.{Element, Document, Chunk, find_all, set_goals, xml_components_goals}
use ros_bridge.Client.Defs.{
  Client, Outside, on_goals, shake, shake_if, says, rest_of, names_ok, process_chunk, xml_callback,
  ask_goal, launch, stored_goal,
}
use ros_bridge.Client.Handshake.{shake_nameless, shake_misses, after-then_keep}

module _ {F : Type 0} (parse_float : String → Option F) where
  set_goal-none :
      (tag : String) (texts : List (Option String))
      → after (set_goal parse_float tag texts none) ≡ none
  unfolding set_goal
  set_goal-none tag [] = refl
  set_goal-none tag (none ∷ more) = refl
  set_goal-none tag (some t ∷ more) = refl

  set_goals-none :
      (tags : Dict String) (es : List Element) → after (set_goals parse_float tags es none) ≡ none
  unfolding set_goals
  set_goals-none [] es = refl
  set_goals-none ((tag, goal_tag) ∷ tags) es =
      ground (
        arith,
        set_goal-none tag (map (λ e. e.text) (find_all goal_tag es)),
        set_goals-none tags es,
      )

  xml_components_goals-none :
      (chunk : Chunk) (tags : Dict String)
      → after (xml_components_goals parse_float chunk tags none) ≡ none
  unfolding xml_components_goals
  xml_components_goals-none none tags = refl
  xml_components_goals-none (some doc) tags = ground (arith, set_goals-none tags doc.elements)

module _ {N S F : Type 0} ⦃n : Number N⦄ ⦃k : Sockets S⦄ where
  -- No goal is kept, and no goal has been sent since.
  abbrev pub Lost : Client N S F → Client N S F → Type 0
  Lost c d = (d.action_goals ≡ none) × (d.launched ≡ c.launched)

  names_ok-after : (es : List Element) (c : Client N S F) → after (names_ok es c) ≡ c
  names_ok-after [] c = refl
  names_ok-after (e ∷ es) c = ground (arith, names_ok-after es c)

  shake_hits-Lost :
      (time h name : String) (x : Element) (es : List Element) (c : Client N S F)
      → c.action_goals ≡ none
      → x.name ≡ some name
      → (h == name && says "READY" x) ≡ true
      → Lost c (after (shake time h (x ∷ es) c))
  unfolding shake
  shake_hits-Lost time h name x es c g e f = go (action_cb time name (text "READY") c.node) refl
    where
      go :
          (q : Outcome (Node N S) (Unit {0}))
          → action_cb time name (text "READY") c.node ≡ q
          → Lost c (after (shake time h (x ∷ es) c))
      go (ok u d) a =
          ground
            (arith, e, f, a, names_ok-after (rest_of es) (record c { node = d; handshake = none }))
      go (err u d) a = ground (arith, e, f, a)

  shake-Lost :
      (time h : String) (es : List Element) (c : Client N S F)
      → c.action_goals ≡ none
      → Lost c (after (shake time h es c))
  unfolding shake
  shake-Lost time h [] c g = (g, refl)
  shake-Lost time h (x ∷ es) c g = elim (Option-cases x.name) [
    | inl e ↦ rw (shake_nameless time h x es c e) (g, refl)
    | inr (name, e) ↦ elim (Bool-cases (h == name && says "READY" x)) [
      | inl f ↦ shake_hits-Lost time h name x es c g e f
      | inr f ↦
          rw (shake_misses time h name x es c e f)
            (rw (after-then_keep x (shake time h es c)) (shake-Lost time h es c g))
    ]
  ]

  Lost-trans : (c d e : Client N S F) → Lost c d → Lost d e → Lost c e
  Lost-trans c d e h k = (k.0, k.1 ∙ h.1)

  bind-Lost :
      {A B : Type 0} (m : M (Client N S F) A) (f : A → M (Client N S F) B) (c d : Client N S F)
      → Lost c (after (m d))
      → ((x : A) (e : Client N S F) → Lost c e → Lost c (after (f x e)))
      → Lost c (after ((m >>= f) d))
  bind-Lost {A = A} {B = B} m f c d h k = go (m d) h
    where
      go :
          (q : Outcome (Client N S F) A)
          → Lost c (after q)
          → Lost c (
              after
                (elim q as (λ x. Outcome (Client N S F) B) [ ok x e ↦ f x e | err x e ↦ err x e ]))
      go (ok x e) l = k x e l
      go (err x e) l = l

  stored_goal-none :
      (name : String) (c : Client N S F)
      → c.action_goals ≡ none
      → stored_goal name c ≡ err type_error c
  unfolding stored_goal
  stored_goal-none name c g = ground arith

  shake_if-Lost :
      (time : String) (h : Option String) (es : List Element) (c : Client N S F)
      → c.action_goals ≡ none
      → Lost c (after (shake_if time h es c))
  shake_if-Lost time none es c g = (g, refl)
  shake_if-Lost time (some h) es c g = elim (Bool-cases (h == "")) [
    | inl e ↦ rw e (g, refl)
    | inr e ↦ rw e (shake-Lost time h es c g)
  ]

module _ {N S F : Type 0} ⦃n : Number N⦄ ⦃k : Sockets S⦄ (o : Outside F) where
  launch-Lost :
      (time : String) (es : List Element) (c : Client N S F)
      → c.action_goals ≡ none
      → Lost c (after (launch o time es c))
  unfolding launch
  launch-Lost time [] c g = (g, refl)
  launch-Lost time (e ∷ es) c g = elim (Bool-cases (says "ACTIVE" e)) [
    | inl a ↦ ground (arith, stored_goal-none e.tag c g)
    | inr a ↦ rw a (launch-Lost time es c g)
  ]

  components-Lost :
      (chunk : Chunk) (c : Client N S F)
      → c.action_goals ≡ none
      → Lost c (after (on_goals (xml_components_goals o.parse_float chunk c.action_list) c))
  components-Lost chunk c g =
      ground (arith, g, xml_components_goals-none o.parse_float chunk c.action_list)

  process_chunk-Lost :
      (time : String) (chunk : Chunk) (c : Client N S F)
      → c.action_goals ≡ none
      → Lost c (after (process_chunk o time chunk c))
  unfolding process_chunk
  process_chunk-Lost time chunk c g =
      bind-Lost (on_goals (xml_components_goals o.parse_float chunk c.action_list))
        (λ found. shake_if time c.handshake found.1 >>= λ kept. launch o time kept) c c
        (components-Lost chunk c g)
        (λ found d h.
          bind-Lost (shake_if time c.handshake found.1) (λ kept. launch o time kept) c d
            (Lost-trans c d (after (shake_if time c.handshake found.1 d)) h
              (shake_if-Lost time c.handshake found.1 d h.0))
            (λ kept e l.
              Lost-trans c e (after (launch o time kept e)) l (launch-Lost time kept e l.0)))

  -- Once the goals have been overwritten by None, no chunk launches an action any more: whatever it
  -- shows, nothing is sent to an action server, and the goals stay None.
  pub xml_callback-Lost :
      (time : String) (chunk : Chunk) (c : Client N S F)
      → c.action_goals ≡ none
      → Lost c (after (xml_callback o time chunk c))
  unfolding xml_callback
  xml_callback-Lost time chunk c g = ground (arith, process_chunk-Lost time chunk c g)

  -- If the agent shows no goal for an action, all goals of all actions are overwritten by None.
  ask_goal_loses :
      (name goal_tag : String) (doc : Document) (c : Client N S F)
      → lookup name c.action_list ≡ some goal_tag
      → o.current (upper goal_tag) ≡ some doc
      → find_all goal_tag doc.elements ≡ []
      → ask_goal o name c ≡ ok tt (record c { action_goals = none })
  unfolding ask_goal set_goal
  ask_goal_loses name goal_tag doc c l q f = ground arith
