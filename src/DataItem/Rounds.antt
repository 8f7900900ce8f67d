-- ===== src/DataItem/Rounds.antt =====
-- What a whole round on a condition does to its codes and to its `changed` flag.
use ros_bridge.Base.{String, ◌≡◌, ◌↔◌, true, false, not, List, [], ◌∷◌, arith, eq_iff, eq_refl, any}
use ros_bridge.Base.Dict.{contains, member}
use ros_bridge.Base.Unique.{Unique, contains-map_values, map_values-Unique, keep-Unique}
use ros_bridge.DataItem.Activations.{clear}
use ros_bridge.DataItem.Conditions.{
  Condition, Fault, entry_marked, add, begin_condition, complete_condition, sweep_condition,
}
use ros_bridge.DataItem.Marking.{
  codes, has_marked, has_marked-clear, add_all, contains-add, has_marked-add_all, contains-add_all,
  add_all-Unique, contains-keep_marked, none_unmarked→, none_unmarked←,
}

module _ {N : Type 0} where
  -- `begin`, then the additions, then `complete`: the condition as its lines are sent.
  pub gathered : Condition N → List Fault → Condition N
  gathered c fs = complete_condition (add_all (begin_condition c) fs)

  -- The same, swept.
  pub round : Condition N → List Fault → Condition N
  unfolding gathered
  round c fs = sweep_condition (gathered c fs)

  -- After a round the active codes of a condition are exactly the codes added in it.
  pub contains-round :
      (k : String) (c : Condition N) (fs : List Fault)
      → contains k (round c fs).active ≡ member k (codes fs)
  unfolding round complete_condition sweep_condition begin_condition
  contains-round k c fs = ground (
    arith,
    contains-keep_marked k (add_all (begin_condition c) fs).active,
    has_marked-add_all k (begin_condition c) fs,
    has_marked-clear k c.active,
  )

  -- A round keeps the codes of a condition distinct.
  round-Unique : (c : Condition N) (fs : List Fault) → Unique c.active → Unique (round c fs).active
  unfolding round complete_condition sweep_condition begin_condition
  round-Unique c fs u = ground (
    arith,
    keep-Unique entry_marked (add_all (begin_condition c) fs).active,
    add_all-Unique (begin_condition c) fs,
    map_values-Unique clear c.active u,
  )

  -- The flag stays down while every added code was there.
  add_all-unchanged→ :
      (c : Condition N) (fs : List Fault) (k : String)
      → (add_all c fs).changed ≡ false
      → (c.changed ≡ false) × (member k (codes fs) ≡ true → contains k c.active ≡ true)
  unfolding add_all member add
  add_all-unchanged→ c [] k h = (h, λ m. cc)
  add_all-unchanged→ c (f ∷ fs) k h =
      ground (arith, eq_iff f.code k, add_all-unchanged→ (add c f) fs k h, contains-add k c f)

  add_all-unchanged← :
      (c : Condition N) (fs : List Fault)
      → c.changed ≡ false
      → ((k : String) → member k (codes fs) ≡ true → contains k c.active ≡ true)
      → (add_all c fs).changed ≡ false
  unfolding add_all member add
  add_all-unchanged← c [] h all = h
  add_all-unchanged← c (f ∷ fs) h all =
      add_all-unchanged← (add c f) fs (ground (arith, all f.code, eq_refl f.code))
        (λ k m. ground (arith, all k, contains-add k c f))

  complete-unchanged_iff :
      (d : Condition N)
      → ((complete_condition d).changed ≡ false)
        ↔ ((d.changed ≡ false) × (any (λ e. not (entry_marked e)) d.active ≡ false))
  unfolding complete_condition
  complete-unchanged_iff d = ground arith

  same_codes :
      (c : Condition N) (fs : List Fault) (k : String)
      → (add_all (begin_condition c) fs).changed ≡ false
      → any (λ e. not (entry_marked e)) (add_all (begin_condition c) fs).active ≡ false
      → contains k c.active ≡ member k (codes fs)
  unfolding begin_condition
  same_codes c fs k h m = ground (
    arith,
    add_all-unchanged→ (begin_condition c) fs k h,
    none_unmarked→ (add_all (begin_condition c) fs).active k m,
    contains-add_all k (begin_condition c) fs,
    has_marked-add_all k (begin_condition c) fs,
    has_marked-clear k c.active,
    contains-map_values k clear c.active,
  )

  all_marked :
      (c : Condition N) (fs : List Fault)
      → ((k : String) → contains k c.active ≡ member k (codes fs))
      → (k : String) → contains k (add_all (begin_condition c) fs).active ≡ true
      → has_marked k (add_all (begin_condition c) fs).active ≡ true
  unfolding begin_condition
  all_marked c fs same k h = ground (
    arith,
    same k,
    contains-add_all k (begin_condition c) fs,
    has_marked-add_all k (begin_condition c) fs,
    contains-map_values k clear c.active,
  )

  -- A round reports a change exactly when it changes the set of active codes, or the condition was
  -- already changed when it began.
  pub gathered-unchanged_iff :
      (c : Condition N) (fs : List Fault)
      → Unique c.active
      → ((gathered c fs).changed ≡ false)
        ↔ ((c.changed ≡ false) × ((k : String) → contains k c.active ≡ member k (codes fs)))
  unfolding gathered begin_condition
  gathered-unchanged_iff c fs u = (there, back)
    where
      there :
          (complete_condition (add_all (begin_condition c) fs)).changed ≡ false
          → (c.changed ≡ false) × ((k : String) → contains k c.active ≡ member k (codes fs))
      there h =
          let (flag, marked) = (complete-unchanged_iff _).0 h in
          (
            (add_all-unchanged→ (begin_condition c) fs "" flag).0,
            λ k. same_codes c fs k flag marked,
          )

      back :
          (c.changed ≡ false) × ((k : String) → contains k c.active ≡ member k (codes fs))
          → (complete_condition (add_all (begin_condition c) fs)).changed ≡ false
      back h = (complete-unchanged_iff _).1 (
        add_all-unchanged← (begin_condition c) fs h.0
            (λ k m. ground (arith, h.1 k, contains-map_values k clear c.active)),
        none_unmarked← _ (add_all-Unique _ fs (map_values-Unique clear c.active u))
            (all_marked c fs h.1),
      )
