-- ===== src/Publisher/Queue.antt =====
-- What `ros_publisher` publishes of the data that it takes from the queue.
use ros_bridge.Base.{
  String, ◌≡◌, refl, sym, ◌∙◌, List, ◌∷◌, arith, some, Option, Outcome, ok, err, after, ℤ,
  system_exit,
}
use ros_bridge.Publisher.Defs.{
  States, Publisher, release, ros_publisher, then_release, publish_data, take_data,
}

release-published :
    (held : Option States) (p : Publisher) → (after (release held p)).published ≡ p.published
unfolding release
release-published held p = ground arith

module _ (constant : String → String → String → Option ℤ) where
  then_release-published :
      (held : Option States) (o : Outcome Publisher (Unit {0}))
      → (after (then_release constant held o)).published ≡ (after o).published
  then_release-published held (ok x p) = release-published held p
  then_release-published held (err system_exit p) = refl
  then_release-published held (err e p) = ground (arith, release-published held p)

  -- What is published does not depend on the data that is taken from the queue: any other data at
  -- its place leads to the same messages.
  pub ros_publisher-published :
      (held other : States) (queue : List States) (p : Publisher)
      → (after (ros_publisher constant (record p { xml_queue = held ∷ queue }))).published
        ≡ (after (ros_publisher constant (record p { xml_queue = other ∷ queue }))).published
  unfolding ros_publisher take_data
  ros_publisher-published held other queue p =
      let q : Publisher = record p { xml_queue = queue } in
      then_release-published (some held) (publish_data constant (some held) q)
      ∙ sym (then_release-published (some other) (publish_data constant (some other) q))
