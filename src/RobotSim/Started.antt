-- ===== src/RobotSim/Started.antt =====
-- What the constructor of `RobotSim` leaves, and what its loop keeps from there.
use ros_bridge.Base.{
  String, ◌≡◌, refl, sym, ap, subst, ◌∙◌, Bool, true, false, List, [], ◌∷◌, ◌++◌, append_assoc,
  append-nil, arith, some, M, ok, ◌>>=◌, ◌>>◌, pure, modify_state, after, inr, Reads, Reads-returns,
  bind-Reads, bind-returns,
}
use ros_bridge.Library.Connectivity.{check_connectivity}
use ros_bridge.Library.Connects.{awaited-Reads, xml_get_response-Reads, xml_components-Reads}
use ros_bridge.Library.Startup.{xml_get_response, sample_path, Progress, reaches}
use ros_bridge.Library.Xml.{Chunk, xml_components}
use ros_bridge.RobotSim.Defs.{Robot, cnc, xml_callback, arrive}
use ros_bridge.RobotSim.Sequence.{
  IsHeld, Pairs, nothing, Event, run, run-IsHeld, arrive-IsHeld, arrive-same,
}
use ros_bridge.RobotSim.Startup.{
  data_items, new_robot, Source, await_source, open_stream, from_cnc, open_streams, then_open,
  then_await, start_robot,
}

open_stream-Reads :
    {S A : Type 0} (path : String) (source : Source A) → Reads {S = S} (open_stream path source)
unfolding open_stream
open_stream-Reads path source =
    bind-Reads (xml_get_response source.current)
      (λ body. xml_components body data_items >>= λ found.
        xml_get_response (source.sample (sample_path path found.0)))
      (xml_get_response-Reads source.current)
      λ body.
        bind-Reads (xml_components body data_items)
          (λ found. xml_get_response (source.sample (sample_path path found.0)))
          (xml_components-Reads body data_items)
          λ found. xml_get_response-Reads (source.sample (sample_path path found.0))

await_source-Reads : {S A : Type 0} (source : Source A) → Reads {S = S} (await_source source)
await_source-Reads source = awaited-Reads (check_connectivity source.now source.attempts)

-- While the machine tool's stream is captured, its chunks are queued in their order.
arrive-queue :
    (chunks : List Chunk) (r : Robot)
    → r.cnc_capture ≡ true
    → (arrive (from_cnc chunks) r).cnc_queue ≡ r.cnc_queue ++ chunks
unfolding arrive xml_callback
arrive-queue [] r h = sym (append-nil r.cnc_queue)
arrive-queue (c ∷ cs) r h =
    let s = xml_callback cnc c r in
    ground (arith, arrive-queue cs s, append_assoc r.cnc_queue (c ∷ []) cs)

module _ {A : Type 0} (cnc_source rbt_source : Source A) (early : List Chunk) where
  open_streams-arrived :
      (s r : Robot) (x : A × A)
      → open_streams cnc_source rbt_source early s ≡ ok (reaches x) r
      → r ≡ arrive (from_cnc early) s
  unfolding open_streams
  open_streams-arrived s r x h =
      let last : A → A → M Robot (Progress (A × A)) =
        λ cnc_response rbt_response. pure (reaches (cnc_response, rbt_response)) in
      let (a, s1, a1, h1) =
        bind-returns (open_stream "/cnc" cnc_source)
          (λ a.
            modify_state (arrive (from_cnc early)) >> (open_stream "/Robot" rbt_source >>= last a))
          s r (reaches x) h in
      let (b, s2, a2, h2) =
        bind-returns (open_stream "/Robot" rbt_source) (last a) (arrive (from_cnc early) s1) r
          (reaches x) h1 in
      sym (ap after h2)
      ∙ (Reads-returns (open_stream "/Robot" rbt_source) (arrive (from_cnc early) s1) s2 b
            (open_stream-Reads "/Robot" rbt_source) a2
          ∙ ap (arrive (from_cnc early)) (
              Reads-returns (open_stream "/cnc" cnc_source) s s1 a
                (open_stream-Reads "/cnc" cnc_source) a1))

  then_open-arrived :
      (there : Bool) (s r : Robot) (x : A × A)
      → then_open cnc_source rbt_source early there s ≡ ok (reaches x) r
      → r ≡ arrive (from_cnc early) s
  then_open-arrived false s r x h = absurd (cc (h))
  then_open-arrived true s r x h = open_streams-arrived s r x h

  then_await-arrived :
      (there : Bool) (s r : Robot) (x : A × A)
      → then_await cnc_source rbt_source early there s ≡ ok (reaches x) r
      → r ≡ arrive (from_cnc early) s
  then_await-arrived false s r x h = absurd (cc (h))
  then_await-arrived true s r x h =
      let (there, s1, a1, h1) =
        bind-returns (await_source rbt_source) (then_open cnc_source rbt_source early) s r
          (reaches x) h in
      then_open-arrived there s1 r x h1
      ∙ ap (arrive (from_cnc early))
          (Reads-returns (await_source rbt_source) s s1 there (await_source-Reads rbt_source) a1)

  start_robot-arrived :
      (r : Robot) (x : A × A)
      → start_robot cnc_source rbt_source early new_robot ≡ ok (reaches x) r
      → r ≡ arrive (from_cnc early) new_robot
  unfolding start_robot
  start_robot-arrived r x h =
      let (there, s1, a1, h1) =
        bind-returns (await_source cnc_source) (then_await cnc_source rbt_source early) new_robot r
          (reaches x) h in
      then_await-arrived there s1 r x h1
      ∙ ap (arrive (from_cnc early)) (
          Reads-returns (await_source cnc_source) new_robot s1 there (await_source-Reads cnc_source)
            a1)

  -- A start of the simulated robot that reaches its two streams has queued the machine tool's chunks
  -- that came meanwhile, in their order, and in every history from there a side's stream is held
  -- back exactly while its ACTIVE is pending, and the actions run are whole pairs.
  pub start_robot-IsHeld :
      (x : A × A) (r s : Robot) (es : List Event)
      → start_robot cnc_source rbt_source early new_robot ≡ ok (reaches x) r
      → run es r ≡ some s
      → (r.cnc_queue ≡ early) × IsHeld s × Pairs s.actions
  start_robot-IsHeld x r s es h e =
      let arrived = start_robot-arrived r x h in
      let new : IsHeld new_robot = record {
        cnc_held = inr (refl, refl);
        rbt_held = inr (refl, refl);
        idle = λ c r. refl;
      } in
      let held : IsHeld r =
        subst IsHeld (sym arrived) (arrive-IsHeld (from_cnc early) new_robot new) in
      let none_run : r.actions ≡ [] =
        ap (λ (u : Robot). u.actions) arrived ∙ (arrive-same (from_cnc early) new_robot).0 in
      let (kept, pairs) = run-IsHeld es r s held (subst Pairs (sym none_run) nothing) e in
      (ap (λ (u : Robot). u.cnc_queue) arrived ∙ arrive-queue early new_robot refl, kept, pairs)
