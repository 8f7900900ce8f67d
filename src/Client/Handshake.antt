-- ===== src/Client/Handshake.antt =====
-- The handshake of the action client: what never completes it, and what the client reports.
use ros_bridge.Base.{
  ℕ, String, ◌==◌, ◌≡◌, ◌≢◌, refl, true, false, ◌&&◌, List, [], ◌∷◌, arith, some, none, Option,
  Outcome, ok, err, key_error, Bool-cases, inl, inr, eq_iff, eq_refl, after,
}
use ros_bridge.Base.Dict.{lookup}
use ros_bridge.DataItem.Values.{Number, text}
use ros_bridge.Adapter.Defs.{Sockets}
use ros_bridge.Library.Events.{action_cb}
use ros_bridge.Library.Actions.{IsReady, action_cb_unknown}
use ros_bridge.Library.Effects.{served, action_cb-text}
use ros_bridge.Library.Xml.{Element}
use ros_bridge.Client.Defs.{Client, on_node, shake, says, report_result}

abbrev pub returned : {S A : Type 0} → Outcome S A → Option A
returned (ok x s) = some x
returned (err e s) = none

module _ {N S F : Type 0} ⦃n : Number N⦄ ⦃k : Sockets S⦄ where
  on_node-unknown :
      (time name : String) (c : Client N S F)
      → IsReady c.node
      → lookup name c.node.di_dict ≡ none
      → on_node (action_cb time name (text "READY")) c ≡ err key_error c
  on_node-unknown time name c r e = rw (action_cb_unknown time name (text "READY") c.node r e) refl

  abbrev pub then_keep :
      Element → Outcome (Client N S F) (List Element) → Outcome (Client N S F) (List Element)
  then_keep x (ok es c) = ok (x ∷ es) c
  then_keep x (err e c) = err e c

  pub shake_nameless :
      (time h : String) (x : Element) (es : List Element) (c : Client N S F)
      → x.name ≡ none
      → shake time h (x ∷ es) c ≡ err key_error c
  unfolding shake
  shake_nameless time h x es c f = rw f refl

  pub shake_misses :
      (time h name : String) (x : Element) (es : List Element) (c : Client N S F)
      → x.name ≡ some name
      → (h == name && says "READY" x) ≡ false
      → shake time h (x ∷ es) c ≡ then_keep x (shake time h es c)
  unfolding shake
  shake_misses time h name x es c f g =
      rw (f, g) (elim (shake time h es c) [ ok fs d ↦ refl | err d e ↦ refl ])

  shake_hits :
      (time h : String) (x : Element) (es : List Element) (c : Client N S F)
      → x.name ≡ some h
      → says "READY" x ≡ true
      → IsReady c.node
      → lookup h c.node.di_dict ≡ none
      → shake time h (x ∷ es) c ≡ err key_error c
  unfolding shake
  shake_hits time h x es c f g r e = ground (arith, eq_refl h, on_node-unknown time h c r e)

  pub after-then_keep :
      (x : Element) (o : Outcome (Client N S F) (List Element)) → after (then_keep x o) ≡ after o
  after-then_keep x (ok es c) = refl
  after-then_keep x (err e c) = refl

  -- A handshake under a name that is no data item of the node is never completed: whatever elements
  -- a chunk shows, the loop leaves the client as it was.
  shake_keeps :
      (time h : String) (es : List Element) (c : Client N S F)
      → IsReady c.node
      → lookup h c.node.di_dict ≡ none
      → after (shake time h es c) ≡ c
  unfolding shake
  shake_keeps time h [] c r e = refl
  shake_keeps time h (x ∷ es) c r e =
      elim x.name as (λ y. x.name ≡ y → after (shake time h (x ∷ es) c) ≡ c) [
        | none ↦ λ f. ground (arith, shake_nameless time h x es c f)
        | some name ↦ λ f. elim (Bool-cases (h == name && says "READY" x)) [
          | inl g ↦ ground (arith, shake_hits time h x es c, eq_iff h name)
          | inr g ↦ ground (
            arith,
            shake_misses time h name x es c f g,
            after-then_keep x (shake time h es c),
            shake_keeps time h es c r e,
          )
        ]
      ]
        refl

  -- The end of a goal. SUCCEEDED (3) serves COMPLETE and starts a handshake; ABORTED (4) serves
  -- FAIL; any other state is told to nobody, and the node is as it was.
  report_result_lem :
      (time name data_item : String) (i result : ℕ) (c : Client N S F)
      → IsReady c.node
      → lookup data_item c.node.di_dict ≡ some i
      → let o = report_result time name data_item result c in
        (result ≡ 3
          → (returned o ≡ some (some name))
            × (served data_item (after o).node ≡ some (text "COMPLETE")))
        × (result ≡ 4
            → (returned o ≡ some none) × (served data_item (after o).node ≡ some (text "FAIL")))
        × (result ≢ 3 → result ≢ 4 → o ≡ ok none c)
  unfolding report_result
  report_result_lem time name data_item i result c r e =
      let (d, a, k, b, s) = action_cb-text time data_item i "COMPLETE" c.node r e in
      let (d', a', k', b', s') = action_cb-text time data_item i "FAIL" c.node r e in
      (
        λ f. (ground (arith, a), ground (arith, a, s)),
        λ f. (ground (arith, a'), ground (arith, a', s')),
        λ f g. ground arith,
      )
