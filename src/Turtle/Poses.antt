-- ===== src/Turtle/Poses.antt =====
-- What the clients of the turtle's adapter are told of its poses.
use ros_bridge.Base.{
  String, ◌==◌, ◌≡◌, refl, Bool, true, false, Bool-cases, inl, inr, List, [], ◌∷◌, ◌++◌, arith,
  if◌then◌else◌, ok, some, ap, sym, append-nil, map, ◌∙◌, ◌>>=◌, modify_state,
}
use package.text.Mathlib.TextLemmas as Texts
use ros_bridge.Base.Dict.{keys}
use ros_bridge.Base.Unique.{Unique}
use ros_bridge.DataItem.Values.{Number, Value, tuple, text, ◌+++◌, value_eq, join, strs, is_truthy}
use ros_bridge.DataItem.Plain.{DataItem, set_value, values, three_d_values, sweep}
use ros_bridge.DataItem.{event, three_d, begin, complete, sweep_item, set_item, item_values}
use ros_bridge.Adapter.Clients.{sent-send_each, keys-Distinct}
use ros_bridge.Adapter.Defs.{
  Sockets, Adapter, begin_all, complete_all, sweep_all, is_separate, is_due, combined_text,
  send_separate, send_changed, send, format_line, complete_gather, begin_gather,
}
use ros_bridge.Adapter.Gather.{report, send_each-data_items}
use ros_bridge.Library.Effects.{told_line}
use ros_bridge.Library.Events.{assign}
use ros_bridge.Turtle.Defs.{handle_turtle_pose}

module _ {N : Type 0} ⦃n : Number N⦄ where
  abbrev pub pose_text : DataItem N → List N → String
  pose_text pose xs =
      if value_eq pose.value (tuple xs)
      then ""
      else "|" +++ pose.name +++ "|" +++ join " " (strs xs)

  abbrev pub avail_text : DataItem N → String
  avail_text avail = if avail.changed then report (event avail) else ""

  -- The line of a pose, with what else is due.
  abbrev pub line : DataItem N → DataItem N → List N → String
  line pose avail xs = pose_text pose xs +++ avail_text avail

  avail_lem :
      (t : String) (avail : DataItem N)
      → combined_text false t (event avail ∷ []) ≡ some (t +++ avail_text avail)
  unfolding combined_text is_due item_values values
  avail_lem t avail = ground (arith, Texts.append-nil t, Texts.append-nil (report (event avail)))

  moved_lem :
      (pose avail : DataItem N) (x y z : N)
      → combined_text false "" (
          three_d (record pose { value = tuple (x ∷ y ∷ z ∷ []); changed = true })
          ∷ event avail
          ∷ [])
        ≡ some
            (("|" +++ pose.name +++ "|" +++ join " " (strs (x ∷ y ∷ z ∷ []))) +++ avail_text avail)
  unfolding combined_text is_due item_values three_d_values is_truthy
  moved_lem pose avail x y z =
      let t = "|" +++ pose.name +++ "|" +++ join " " (strs (x ∷ y ∷ z ∷ [])) in
      avail_lem ("" +++ (t +++ "")) avail
      ∙ ap (λ u. some (u +++ avail_text avail)) (Texts.nil-append (t +++ "") ∙ Texts.append-nil t)

  combined_lem :
      (pose avail : DataItem N) (x y z : N)
      → pose.changed ≡ false
      → combined_text false ""
          (three_d (set_value pose (tuple (x ∷ y ∷ z ∷ []))) ∷ event avail ∷ [])
        ≡ some (line pose avail (x ∷ y ∷ z ∷ []))
  unfolding combined_text is_due set_value
  combined_lem pose avail x y z h =
      let v = tuple (x ∷ y ∷ z ∷ []) in
      elim (Bool-cases (value_eq pose.value v)) [
        | inl e ↦ rw (e, h) (avail_lem "" avail)
        | inr e ↦
            let moved : set_value pose v ≡ record pose { value = v; changed = true } = rw e refl in
            ap (λ d. combined_text false "" (three_d d ∷ event avail ∷ [])) moved
            ∙ (moved_lem pose avail x y z ∙ rw e refl)
      ]

  -- The two objects after a pose: its value is the new one, and nothing is due.
  abbrev pub posed : DataItem N → Value N → DataItem N
  posed pose v = record pose {
    value = if value_eq pose.value v then pose.value else v;
    changed = false;
  }

  swept_lem :
      (pose avail : DataItem N) (v : Value N)
      → pose.changed ≡ false
      → map sweep_item (three_d (set_value pose v) ∷ event avail ∷ [])
        ≡ three_d (posed pose v) ∷ event (record avail { changed = false }) ∷ []
  unfolding sweep_item sweep set_value
  swept_lem pose avail v h = elim (Bool-cases (value_eq pose.value v)) [
    | inl e ↦ ground arith
    | inr e ↦ ground arith
  ]

module _ {N S : Type 0} ⦃n : Number N⦄ ⦃k : Sockets S⦄ where
  -- An adapter with the two objects of the turtle's.
  abbrev pub turtle : DataItem N → DataItem N → Adapter N S → Adapter N S
  turtle pose avail a = record a { data_items = three_d pose ∷ event avail ∷ [] }

  send_changed-turtle :
      (time : String) (pose avail : DataItem N) (x y z : N) (a : Adapter N S)
      → pose.changed ≡ false
      → pose.separate_line ≡ false
      → avail.separate_line ≡ false
      → let b = turtle (set_value pose (tuple (x ∷ y ∷ z ∷ []))) avail a in
        send_changed time (keys a.clients) false b
        ≡ ok tt (
            if line pose avail (x ∷ y ∷ z ∷ []) == ""
            then b
            else send time (line pose avail (x ∷ y ∷ z ∷ [])) (keys a.clients) b)
  unfolding send_changed send_separate is_separate set_value
  send_changed-turtle time pose avail x y z a h p q =
      let l = combined_lem pose avail x y z h in
      elim (Bool-cases (value_eq pose.value (tuple (x ∷ y ∷ z ∷ [])))) [
        | inl e ↦ ground (arith, l, e, p, q)
        | inr e ↦ ground (arith, l, e, p, q)
      ]

  send-data_items :
      (b : Bool) (time told : String) (clients : List String) (a : Adapter N S)
      → (if b then a else send time told clients a).data_items ≡ a.data_items
  unfolding send
  send-data_items true time told clients a = refl
  send-data_items false time told clients a = send_each-data_items (format_line time told) clients a

  sent-send :
      (b : Bool) (time told : String) (a : Adapter N S)
      → Unique a.clients
      → (if b then a else send time told (keys a.clients) a).sent
        ≡ a.sent ++ (if b then [] else told_line (format_line time told) a.clients)
  unfolding send
  sent-send true time told a u = sym (append-nil a.sent)
  sent-send false time told a u =
      sent-send_each (format_line time told) (keys a.clients) a (keys-Distinct a.clients u)

  -- A pose of the turtle is told to each client that takes it, in one line with the time, if the
  -- pose is not the one before, together with the availability while that has not been told yet.
  -- Nothing is raised, and afterwards the adapter has the new pose and nothing to tell.
  pub handle_turtle_pose-told :
      (origin x y : N) (time : String) (pose avail : DataItem N) (a : Adapter N S)
      → pose.changed ≡ false
      → pose.separate_line ≡ false
      → avail.separate_line ≡ false
      → Unique a.clients
      → let v = x ∷ y ∷ origin ∷ [] in
        let told = line pose avail v in
        (b : Adapter N S) × (handle_turtle_pose origin time x y (turtle pose avail a) ≡ ok tt b)
        × (b.data_items
            ≡ three_d (posed pose (tuple v)) ∷ event (record avail { changed = false }) ∷ [])
        × (b.sent
            ≡ a.sent ++ (if told == "" then [] else told_line (format_line time told) a.clients))
  unfolding handle_turtle_pose begin_gather begin_all complete_gather complete_all begin complete
      assign set_item sweep_all
  handle_turtle_pose-told origin x y time pose avail a h p q u =
      let v = x ∷ y ∷ origin ∷ [] in
      let told = line pose avail v in
      let b = turtle (set_value pose (tuple v)) avail a in
      let c = if told == "" then b else send time told (keys a.clients) b in
      let sends = send_changed-turtle time pose avail x y origin a h p q in
      (
        sweep_all c,
        ap (λ o. (◌>>=◌ (λ _. o) (λ _. modify_state sweep_all)) b) sends,
        ap (map sweep_item) (send-data_items (told == "") time told (keys a.clients) b)
            ∙ swept_lem pose avail (tuple v) h,
        sent-send (told == "") time told b u,
      )
