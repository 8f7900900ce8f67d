-- ===== src/RobotSim/Sequence.antt =====
-- The order of the simulated robot's actions, and which chunks its streams take in.
use ros_bridge.Base.{
  String, ◌≡◌, refl, Bool, true, false, List, [], ◌∷◌, ◌++◌, arith, ◌⊎◌, inl, inr, some, none,
  Option, if◌then◌else◌, append_assoc, Option-cases, subst, some-injective,
}
use ros_bridge.Library.Xml.{Document, Chunk}
use ros_bridge.RobotSim.Defs.{
  Action, open_door, close_door, open_chuck, close_chuck, Robot, Side, cnc, rbt, xml_callback,
  arrive, active_tag, read_cnc, read_rbt, both_active, run_sequence, load_step, unload_step, pass,
}

-- A side's stream is held back exactly while the side's ACTIVE is pending, and no sequence is chosen
-- unless one is.
pub record IsHeld (r : Robot) : Type 0 where
  pub cnc_held :
      ((r.cnc_state ≡ some "ACTIVE") × (r.cnc_capture ≡ false))
      ⊎ ((r.cnc_state ≡ none) × (r.cnc_capture ≡ true))
  pub rbt_held :
      ((r.robot_state ≡ some "ACTIVE") × (r.rbt_capture ≡ false))
      ⊎ ((r.robot_state ≡ none) × (r.rbt_capture ≡ true))
  pub idle : r.cnc_state ≡ none → r.robot_state ≡ none → r.sequence ≡ none

xml_callback-IsHeld :
    (side : Side) (chunk : Chunk) (r : Robot) → IsHeld r → IsHeld (xml_callback side chunk r)
unfolding xml_callback
xml_callback-IsHeld cnc chunk r h = ground arith
xml_callback-IsHeld rbt chunk r h = ground arith

pub arrive-IsHeld : (late : List (Side × Chunk)) (r : Robot) → IsHeld r → IsHeld (arrive late r)
unfolding arrive
arrive-IsHeld [] r h = h
arrive-IsHeld ((side, chunk) ∷ late) r h =
    arrive-IsHeld late (xml_callback side chunk r) (xml_callback-IsHeld side chunk r h)

-- Chunks that arrive change the queues alone.
pub arrive-same :
    (late : List (Side × Chunk)) (r : Robot)
    → ((arrive late r).actions ≡ r.actions)
      × ((arrive late r).cnc_capture ≡ r.cnc_capture)
      × ((arrive late r).rbt_capture ≡ r.rbt_capture)
unfolding arrive xml_callback
arrive-same [] r = (refl, refl, refl)
arrive-same ((cnc, chunk) ∷ late) r = ground (arith, arrive-same late (xml_callback cnc chunk r))
arrive-same ((rbt, chunk) ∷ late) r = ground (arith, arrive-same late (xml_callback rbt chunk r))

run_sequence-IsHeld :
    (a b : Action) (late : List (Side × Chunk)) (r : Robot) → IsHeld (run_sequence a b late r)
unfolding run_sequence
run_sequence-IsHeld a b late r =
    let s : Robot = record r {
      actions = (r.actions ++ a ∷ []) ++ b ∷ [];
      cnc_capture = true;
      rbt_capture = true;
    } in
    ground (arith, arrive-same late s)

if-IsHeld : (b : Bool) (r s : Robot) → IsHeld r → IsHeld s → IsHeld (if b then r else s)
if-IsHeld true r s h k = h
if-IsHeld false r s h k = k

step-IsHeld :
    (late : List (Side × Chunk)) (r : Robot)
    → IsHeld r
    → IsHeld (unload_step late (load_step late r))
unfolding load_step unload_step
step-IsHeld late r h =
    let s = load_step late r in
    if-IsHeld (both_active "MaterialUnload" s) (run_sequence open_door open_chuck late s) s
      (run_sequence-IsHeld open_door open_chuck late s)
      (if-IsHeld (both_active "MaterialLoad" r) (run_sequence close_chuck close_door late r) r
        (run_sequence-IsHeld close_chuck close_door late r) h)

read_cnc-IsHeld : (r s : Robot) → read_cnc r ≡ some s → IsHeld r → IsHeld s
unfolding read_cnc
read_cnc-IsHeld r s e h = ground arith

read_rbt-IsHeld : (r s : Robot) → read_rbt r ≡ some s → IsHeld r → IsHeld s
unfolding read_rbt
read_rbt-IsHeld r s e h = ground arith

-- The actions of a load are run as a pair, and so are those of an unload.
pub data Pairs : List Action → Type 0 where
  nothing : Pairs []
  load : {l m : List Action} → Pairs l → m ≡ l ++ close_chuck ∷ close_door ∷ [] → Pairs m
  unload : {l m : List Action} → Pairs l → m ≡ l ++ open_door ∷ open_chuck ∷ [] → Pairs m

run_sequence-actions :
    (a b : Action) (late : List (Side × Chunk)) (r : Robot)
    → (run_sequence a b late r).actions ≡ r.actions ++ a ∷ b ∷ []
unfolding run_sequence
run_sequence-actions a b late r =
    let s : Robot = record r {
      actions = (r.actions ++ a ∷ []) ++ b ∷ [];
      cnc_capture = true;
      rbt_capture = true;
    } in
    ground (arith, arrive-same late s, append_assoc r.actions (a ∷ []) (b ∷ []))

if-Pairs :
    (b : Bool) (r s : Robot)
    → Pairs r.actions
    → Pairs s.actions
    → Pairs (if b then r else s).actions
if-Pairs true r s h k = h
if-Pairs false r s h k = k

step-Pairs :
    (late : List (Side × Chunk)) (r : Robot)
    → Pairs r.actions
    → Pairs (unload_step late (load_step late r)).actions
unfolding load_step unload_step
step-Pairs late r h =
    let s = load_step late r in
    let loaded : Pairs s.actions =
      if-Pairs (both_active "MaterialLoad" r) (run_sequence close_chuck close_door late r) r
        (load h (run_sequence-actions close_chuck close_door late r)) h in
    if-Pairs (both_active "MaterialUnload" s) (run_sequence open_door open_chuck late s) s
      (unload loaded (run_sequence-actions open_door open_chuck late s)) loaded

read_same : (r s t : Robot) → read_cnc r ≡ some s → read_rbt s ≡ some t → t.actions ≡ r.actions
unfolding read_cnc read_rbt
read_same r s t e f = ground arith

pass_cases :
    (late : List (Side × Chunk)) (r q : Robot)
    → pass late r ≡ some q
    → (s t : Robot) × (read_cnc r ≡ some s)
      × (read_rbt s ≡ some t)
      × (q ≡ unload_step late (load_step late t))
unfolding pass
pass_cases late r q e = ground arith

xml_callback-actions :
    (side : Side) (c : Chunk) (r : Robot) → (xml_callback side c r).actions ≡ r.actions
unfolding xml_callback
xml_callback-actions cnc c r = ground arith
xml_callback-actions rbt c r = ground arith

-- What the simulated robot meets: a chunk on one of its streams, or a pass of its loop, with the
-- chunks that arrive during its second action.
pub data Event : Type 0 where
  chunk : Side → Chunk → Event
  loop : List (Side × Chunk) → Event

-- `none`: the parser has refused a chunk, and the loop has ended.
unfoldable pub run : List Event → Robot → Option Robot
run [] r = some r
run (chunk side c ∷ es) r = run es (xml_callback side c r)
run (loop late ∷ es) r = elim (pass late r) [ none ↦ none | some s ↦ run es s ]

-- In every history a side's stream is captured again only when its ACTIVE has been dealt with, and
-- the actions run are whole pairs: close chuck and close door, or open door and open chuck.
pub run-IsHeld :
    (es : List Event) (r s : Robot)
    → IsHeld r
    → Pairs r.actions
    → run es r ≡ some s
    → IsHeld s × Pairs s.actions
unfolding run
run-IsHeld [] r s h p e = let same = some-injective r s e in (subst IsHeld same h, rw (← same) p)
run-IsHeld (chunk side c ∷ es) r s h p e =
    run-IsHeld es (xml_callback side c r) s (xml_callback-IsHeld side c r h)
      (rw (xml_callback-actions side c r) p) e
run-IsHeld (loop late ∷ es) r s h p e = elim (Option-cases (pass late r)) [
  | inl f ↦ cc
  | inr (q, f) ↦
      let (s1, s2, e1, e2, eq) = pass_cases late r q f in
      let held : IsHeld q =
        rw eq (step-IsHeld late s2 (read_rbt-IsHeld s1 s2 e2 (read_cnc-IsHeld r s1 e1 h))) in
      let pairs : Pairs q.actions = rw eq (step-Pairs late s2 (rw (read_same r s1 s2 e1 e2) p)) in
      run-IsHeld es q s held pairs (ground arith)
]

load_only :
    (late : List (Side × Chunk)) (t : Robot)
    → t.cnc_state ≡ some "ACTIVE"
    → t.robot_state ≡ some "ACTIVE"
    → t.sequence ≡ some "MaterialLoad"
    → unload_step late (load_step late t) ≡ run_sequence close_chuck close_door late t
unfolding load_step unload_step run_sequence
load_only late t c r q = rw (c, r, q) refl

-- A load that the machine tool has asked for, with no chunk of it waiting, is run as soon as the
-- robot's stream shows any ACTIVE, be it the one of an unload.
pass_mixed :
    (late : List (Side × Chunk)) (r : Robot) (doc : Document) (queue : List Chunk) (tag : String)
    → r.cnc_queue ≡ []
    → r.cnc_state ≡ some "ACTIVE"
    → r.sequence ≡ some "MaterialLoad"
    → r.rbt_queue ≡ some doc ∷ queue
    → active_tag doc ≡ some tag
    → (s : Robot) × (pass late r ≡ some s)
      × (s.actions ≡ r.actions ++ close_chuck ∷ close_door ∷ [])
unfolding pass read_cnc read_rbt
pass_mixed late r doc queue tag c st sq q a =
    let t : Robot = record r {
      rbt_queue = queue;
      robot_state = some "ACTIVE";
      rbt_capture = false;
    } in
    (
      run_sequence close_chuck close_door late t,
      ground (arith, load_only late t),
      run_sequence-actions close_chuck close_door late t,
    )
