-- ===== src/Server/Phases.antt =====
-- The handshake of `execute_cb` as a machine of four phases.
use ros_bridge.Base.{
  ℕ, String, ◌==◌, ◌≡◌, refl, Bool, true, false, ◌&&◌, List, [], ◌∷◌, ◌++◌, arith, inl, inr, some,
  none, Option, if◌then◌else◌, eq_iff, Outcome, ok, Bool-cases, nat_eq, eq_refl, append-nil,
}
use ros_bridge.Base.Dict.{lookup, contains, insert}
use ros_bridge.Base.Unique.{contains-insert}
use ros_bridge.DataItem.Values.{Number, text}
use ros_bridge.Adapter.Defs.{Sockets}
use ros_bridge.Library.Events.{Node, action_cb}
use ros_bridge.Library.Actions.{IsReady}
use ros_bridge.Library.Effects.{served, action_cb-text}
use ros_bridge.Library.Xml.{Chunk}
use ros_bridge.Server.Defs.{Verdict, succeeded, aborted, Session, react}

-- The request is out; the machine tool has completed it and been told READY; the goal has succeeded
-- or has been aborted.
pub data Phase : Type 0 where
  asked completed won lost : Phase

-- What a state of the machine tool makes of a phase.
abbrev pub advance : Phase → Option String → Phase
advance asked (some s) = if s == "COMPLETE" then completed else if s == "FAIL" then lost else asked
advance completed (some s) = if s == "READY" then won else if s == "FAIL" then lost else completed
advance p o = p

abbrev pub is_open : Phase → Bool
is_open asked = true
is_open completed = true
is_open won = false
is_open lost = false

module _ {N S : Type 0} ⦃n : Number N⦄ ⦃k : Sockets S⦄ (action request : String) (i : ℕ)
    (before : List Verdict) where
  pub record IsSound (t : Session N S) : Type 0 where
    pub ready : IsReady t.node
    pub known : lookup action t.node.di_dict ≡ some i
    pub listed : contains request t.results ≡ true

  -- What the session, the robot's event and the answers are in a phase.
  pub record At (hold : ℕ) (waits : Bool) (state : String) (answers : List Verdict)
      (queue : List Chunk) (t : Session N S) : Type 0 where
    pub sound : IsSound t
    pub held : t.robot_hold ≡ hold
    pub dwells : t.dwell ≡ waits
    pub captures : t.capture_xml ≡ waits
    pub serves : served action t.node ≡ some (text state)
    pub answered : t.verdicts ≡ before ++ answers
    pub queues : t.xml_queue ≡ queue

  abbrev pub Rel : Phase → List Chunk → Session N S → Type 0
  Rel asked q t = At 0 true "ACTIVE" [] q t
  Rel completed q t = At 1 true "READY" [] q t
  Rel won q t = At 1 false "READY" (succeeded "READY" ∷ []) q t
  Rel lost q t = (h : ℕ) × At h false "FAIL" (aborted "FAIL" ∷ []) q t

  react_complete :
      (time : String) (t : Session N S) (e : Node N S)
      → t.robot_hold ≡ 0
      → action_cb time action (text "READY") t.node ≡ ok tt e
      → react time action request (some "COMPLETE") t
        ≡ ok tt (record t { server = record t.server { node = e }; robot_hold = 1 })
  unfolding react
  react_complete time t e h f = ground arith

  react_ready :
      (time : String) (t : Session N S)
      → t.robot_hold ≡ 1
      → contains request t.results ≡ true
      → react time action request (some "READY") t
        ≡ ok tt (record t {
          dwell = false;
          server = record t.server {
            capture_xml = false;
            results = insert request (some "READY") t.results;
            verdicts = t.verdicts ++ succeeded "READY" ∷ [];
          };
        })
  unfolding react
  react_ready time t h c = ground arith

  react_fail :
      (time : String) (t : Session N S) (e : Node N S)
      → contains request t.results ≡ true
      → action_cb time action (text "FAIL") t.node ≡ ok tt e
      → react time action request (some "FAIL") t
        ≡ ok tt (record t {
          dwell = false;
          server = record t.server {
            node = e;
            capture_xml = false;
            results = insert request (some "FAIL") t.results;
            verdicts = t.verdicts ++ aborted "FAIL" ∷ [];
          };
        })
  unfolding react
  react_fail time t e c f = ground arith

  react-none : (time : String) (t : Session N S) → react time action request none t ≡ ok tt t
  unfolding react
  react-none time t = refl

  -- The other states change nothing.
  react_skip :
      (time : String) (t : Session N S) (s : String)
      → (s == "COMPLETE" && nat_eq t.robot_hold 0) ≡ false
      → (s == "READY" && nat_eq t.robot_hold 1) ≡ false
      → (s == "FAIL") ≡ false
      → react time action request (some s) t ≡ ok tt t
  unfolding react
  react_skip time t s a b c = ground arith

  -- What a call leaves, if the phase after it is known.
  abbrev pub Goes : Phase → List Chunk → Outcome (Session N S) (Unit {0}) → Type 0
  Goes p q o = (t : Session N S) × (o ≡ ok tt t) × Rel p q t

  fail-Goes :
      (time : String) (h : ℕ) (state : String) (q : List Chunk) (t : Session N S)
      → At h true state [] q t
      → Goes lost q (react time action request (some "FAIL") t)
  fail-Goes time h state q t a =
      let (e, f, d, r, s) =
        action_cb-text time action i "FAIL" t.node a.sound.ready a.sound.known in
      (
        _,
        react_fail time t e a.sound.listed f,
        (
          h,
          record {
            sound = record {
              ready = r;
              known = rw d a.sound.known;
              listed =
                  ground (
                    arith,
                    contains-insert request request (some "FAIL") t.results,
                    eq_refl request,
                  );
            };
            held = a.held;
            dwells = refl;
            captures = refl;
            serves = s;
            answered = ground (arith, a.answered, append-nil before);
            queues = a.queues;
          },
        ),
      )

  complete-Goes :
      (time : String) (q : List Chunk) (t : Session N S)
      → Rel asked q t
      → Goes completed q (react time action request (some "COMPLETE") t)
  complete-Goes time q t a =
      let (e, f, d, r, s) =
        action_cb-text time action i "READY" t.node a.sound.ready a.sound.known in
      (
        _,
        react_complete time t e a.held f,
        record {
          sound = record { ready = r; known = rw d a.sound.known; listed = a.sound.listed };
          held = refl;
          dwells = a.dwells;
          captures = a.captures;
          serves = s;
          answered = a.answered;
          queues = a.queues;
        },
      )

  ready-Goes :
      (time : String) (q : List Chunk) (t : Session N S)
      → Rel completed q t
      → Goes won q (react time action request (some "READY") t)
  ready-Goes time q t a = (
    _,
    react_ready time t a.held a.sound.listed,
    record {
      sound = record {
        ready = a.sound.ready;
        known = a.sound.known;
        listed =
            ground
              (arith, contains-insert request request (some "READY") t.results, eq_refl request);
      };
      held = a.held;
      dwells = refl;
      captures = refl;
      serves = a.serves;
      answered = ground (arith, a.answered, append-nil before);
      queues = a.queues;
    },
  )

  -- One element moves the session from phase to phase.
  react-asked :
      (time : String) (o : Option String) (q : List Chunk) (t : Session N S)
      → Rel asked q t
      → Goes (advance asked o) q (react time action request o t)
  react-asked time none q t a = (t, react-none time t, a)
  react-asked time (some s) q t a = elim (Bool-cases (s == "COMPLETE")) [
    | inl c ↦ rw ((eq_iff s "COMPLETE").0 c) (complete-Goes time q t a)
    | inr c ↦ elim (Bool-cases (s == "FAIL")) [
      | inl f ↦ rw ((eq_iff s "FAIL").0 f) (fail-Goes time 0 "ACTIVE" q t a)
      | inr f ↦ rw (c, f) (t, react_skip time t s (ground arith) (ground (arith, a.held)) f, a)
    ]
  ]

  react-completed :
      (time : String) (o : Option String) (q : List Chunk) (t : Session N S)
      → Rel completed q t
      → Goes (advance completed o) q (react time action request o t)
  react-completed time none q t a = (t, react-none time t, a)
  react-completed time (some s) q t a = elim (Bool-cases (s == "READY")) [
    | inl c ↦ rw ((eq_iff s "READY").0 c) (ready-Goes time q t a)
    | inr c ↦ elim (Bool-cases (s == "FAIL")) [
      | inl f ↦ rw ((eq_iff s "FAIL").0 f) (fail-Goes time 1 "READY" q t a)
      | inr f ↦ rw (c, f) (t, react_skip time t s (ground (arith, a.held)) (ground arith) f, a)
    ]
  ]

  pub react-Goes :
      (time : String) (p : Phase) (o : Option String) (q : List Chunk) (t : Session N S)
      → is_open p ≡ true
      → Rel p q t
      → Goes (advance p o) q (react time action request o t)
  react-Goes time asked o q t h a = react-asked time o q t a
  react-Goes time completed o q t h a = react-completed time o q t a
  react-Goes time won o q t h a = cc
  react-Goes time lost o q t h a = cc
