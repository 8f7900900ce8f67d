-- ===== src/Server/Runs.antt =====
-- Whole runs of `execute_cb` against the machine of phases.
use ros_bridge.Base.{
  ℕ, String, ◌≡◌, refl, Bool, true, false, List, [], ◌∷◌, ◌++◌, arith, some, none, Option,
  if◌then◌else◌, ok, length, All, leb, Bool-cases, inl, inr, All-append_one,
}
use ros_bridge.DataItem.Values.{Number}
use ros_bridge.Adapter.Defs.{Sockets}
use ros_bridge.Library.Xml.{Element, Document, Chunk, find_all}
use ros_bridge.Server.Defs.{
  Verdict, succeeded, aborted, Session, react_all, poll, Tick, arrives, polls, tick, run,
  xml_callback,
}
use ros_bridge.Server.Phases.{
  Phase, asked, completed, won, lost, advance, is_open, At, Rel, Goes, react-Goes,
}

-- The state of the machine tool in a chunk that has one element of the request at most.
abbrev pub state_in : String → Chunk → Option String
state_in request none = none
state_in request (some doc) = elim (find_all request doc.elements) [ [] ↦ none | e ∷ es ↦ e.text ]

-- A chunk is XML with at most one element of the request.
abbrev pub is_single : String → Chunk → Bool
is_single request none = false
is_single request (some doc) = leb (length (find_all request doc.elements)) 1

abbrev pub IsSingle : String → Chunk → Type 0
IsSingle request c = is_single request c ≡ true

abbrev pub HasSingle : String → Tick → Type 0
HasSingle request (arrives c) = IsSingle request c
HasSingle request (polls time) = Unit {0}

-- The phase and the queue after a tick.
abbrev pub follow : String → Tick → Phase → List Chunk → Phase × List Chunk
follow request (arrives c) p q = (p, if is_open p then q ++ c ∷ [] else q)
follow request (polls time) p [] = (p, [])
follow request (polls time) p (c ∷ q) =
    if is_open p then (advance p (state_in request c), q) else (p, c ∷ q)

abbrev pub follow_all : String → List Tick → Phase → List Chunk → Phase × List Chunk
follow_all request [] p q = (p, q)
follow_all request (x ∷ xs) p q = let (p', q') = follow request x p q in follow_all request xs p' q'

module _ {N S : Type 0} ⦃n : Number N⦄ ⦃k : Sockets S⦄ (action request : String) (i : ℕ)
    (before : List Verdict) where
  abbrev requeue : List Chunk → Session N S → Session N S
  requeue q t = record t { server = record t.server { xml_queue = q } }

  At-requeue :
      (h : ℕ) (w : Bool) (state : String) (vs : List Verdict) (q r : List Chunk) (t : Session N S)
      → At action request i before h w state vs q t
      → At action request i before h w state vs r (requeue r t)
  At-requeue h w state vs q r t a = record {
    sound = record { ready = a.sound.ready; known = a.sound.known; listed = a.sound.listed };
    held = a.held;
    dwells = a.dwells;
    captures = a.captures;
    serves = a.serves;
    answered = a.answered;
    queues = refl;
  }

  Rel-requeue :
      (p : Phase) (q r : List Chunk) (t : Session N S)
      → Rel action request i before p q t
      → Rel action request i before p r (requeue r t)
  Rel-requeue asked q r t a = At-requeue 0 true "ACTIVE" [] q r t a
  Rel-requeue completed q r t a = At-requeue 1 true "READY" [] q r t a
  Rel-requeue won q r t a = At-requeue 1 false "READY" (succeeded "READY" ∷ []) q r t a
  Rel-requeue lost q r t (h, a) = (h, At-requeue h false "FAIL" (aborted "FAIL" ∷ []) q r t a)

  pub Rel-flags :
      (p : Phase) (q : List Chunk) (t : Session N S)
      → Rel action request i before p q t
      → (t.dwell ≡ is_open p) × (t.capture_xml ≡ is_open p) × (t.xml_queue ≡ q)
  Rel-flags asked q t a = (a.dwells, a.captures, a.queues)
  Rel-flags completed q t a = (a.dwells, a.captures, a.queues)
  Rel-flags won q t a = (a.dwells, a.captures, a.queues)
  Rel-flags lost q t (h, a) = (a.dwells, a.captures, a.queues)

  react_all-Goes :
      (time : String) (es : List Element) (p : Phase) (q : List Chunk) (t : Session N S)
      → leb (length es) 1 ≡ true
      → is_open p ≡ true
      → Rel action request i before p q t
      → Goes action request i before
          (advance p (elim es [ [] ↦ none | e ∷ rest ↦ e.text ]))
          q
          (react_all time action request es t)
  unfolding react_all
  react_all-Goes time [] asked q t l o a = (t, refl, a)
  react_all-Goes time [] completed q t l o a = (t, refl, a)
  react_all-Goes time [] won q t l o a = cc
  react_all-Goes time [] lost q t l o a = cc
  react_all-Goes time (e ∷ []) p q t l o a =
      let (t', f, a') = react-Goes action request i before time p e.text q t o a in
      (t', ground (arith, f), a')
  react_all-Goes time (e ∷ f ∷ es) p q t l o a = absurd (ground arith)

  poll-Goes :
      (time : String) (doc : Document) (p : Phase) (q : List Chunk) (t : Session N S)
      → IsSingle request (some doc)
      → is_open p ≡ true
      → Rel action request i before p (some doc ∷ q) t
      → Goes action request i before
          (advance p (state_in request (some doc)))
          q
          (poll time action request t)
  unfolding poll
  poll-Goes time doc p q t l o a = rw (Rel-flags p (some doc ∷ q) t a).2 (
      react_all-Goes time (find_all request doc.elements) p q (requeue q t) l o
        (Rel-requeue p (some doc ∷ q) q t a))

  tick_taken :
      (c : Chunk) (t : Session N S)
      → t.capture_xml ≡ true
      → tick action request (arrives c) t ≡ ok tt (requeue (t.xml_queue ++ c ∷ []) t)
  unfolding tick xml_callback
  tick_taken c t w = ground arith

  tick_left :
      (c : Chunk) (t : Session N S)
      → t.capture_xml ≡ false
      → tick action request (arrives c) t ≡ ok tt t
  unfolding tick xml_callback
  tick_left c t w = ground arith

  tick_round :
      (time : String) (t : Session N S)
      → t.dwell ≡ true
      → tick action request (polls time) t ≡ poll time action request t
  unfolding tick
  tick_round time t w = ground arith

  tick_rest :
      (time : String) (t : Session N S)
      → t.dwell ≡ false
      → tick action request (polls time) t ≡ ok tt t
  unfolding tick
  tick_rest time t w = ground arith

  tick-Goes :
      (x : Tick) (p : Phase) (q : List Chunk) (t : Session N S)
      → HasSingle request x
      → All (IsSingle request) q
      → Rel action request i before p q t
      → let (p', q') = follow request x p q in
        All (IsSingle request) q' × Goes action request i before p' q' (tick action request x t)
  unfolding tick poll
  tick-Goes (arrives c) p q t x l a =
      let (d, w, e) = Rel-flags p q t a in
      elim (Bool-cases (is_open p)) [
        | inl o ↦ rw o (
          All-append_one (IsSingle request) q c l x,
          (
            requeue (q ++ c ∷ []) t,
            ground (arith, tick_taken c t, w, o, e),
            Rel-requeue p q (q ++ c ∷ []) t a,
          ),
        )
        | inr o ↦ rw o (l, (t, tick_left c t (ground (arith, w, o)), a))
      ]
  tick-Goes (polls time) p [] t x l a =
      let (d, w, e) = Rel-flags p [] t a in (l, (t, ground (arith, e), a))
  tick-Goes (polls time) p (none ∷ q) t x l a = absurd (ground (arith, l.0))
  tick-Goes (polls time) p (some doc ∷ q) t x l a =
      let (d, w, e) = Rel-flags p (some doc ∷ q) t a in
      elim (Bool-cases (is_open p)) [
        | inl o ↦
            let (t', f, b) = poll-Goes time doc p q t l.0 o a in
            rw o (l.1, (t', ground (arith, tick_round time t, d, f), b))
        | inr o ↦ rw o (l, (t, tick_rest time t (ground (arith, d, o)), a))
      ]

  pub run-Goes :
      (xs : List Tick) (p : Phase) (q : List Chunk) (t : Session N S)
      → All (HasSingle request) xs
      → All (IsSingle request) q
      → Rel action request i before p q t
      → let (p', q') = follow_all request xs p q in
        Goes action request i before p' q' (run action request xs t)
  unfolding run
  run-Goes [] p q t x l a = (t, refl, a)
  run-Goes (y ∷ xs) p q t x l a =
      let (p', q') = follow request y p q in
      let (l', (t', e, a')) = tick-Goes y p q t x.0 l a in
      let (u, f, b) = run-Goes xs p' q' t' x.1 l' a' in (u, ground (arith, e, f), b)
