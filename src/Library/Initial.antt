-- ===== src/Library/Initial.antt =====
-- The first values that `add_event` gives the events of a node.
use ros_bridge.Base.{
  ℕ, zero, suc, ◌<◌, ◌==◌, String, ◌≡◌, ◌≢◌, refl, sym, ap, ◌∙◌, true, false, List, [], ◌∷◌, map,
  arith, All, ok, some, get_elem?, modify, length, Bool-cases, inl, inr, nat_eq,
  get_elem?-modify_self, get_elem?-modify_ne, length-modify, subst,
}
use ros_bridge.Base.Dict.{Dict, lookup, keys, values}
use ros_bridge.Base.Unique.{Unique}
use ros_bridge.DataItem.Values.{Number, Value, text, value_eq, ◌+++◌}
use ros_bridge.DataItem.Plain.{DataItem, sweep, set_value}
use ros_bridge.DataItem.{Item, event, sweep_item, set_item}
use ros_bridge.Adapter.Defs.{Sockets, Adapter, begin_all, sweep_all, begin_gather, send}
use ros_bridge.Adapter.Clients.{send_each-Unique}
use ros_bridge.Adapter.Gather.{
  IsEvent, map-begin, due_text, flush, complete_gather_lem, send_each-data_items,
}
use ros_bridge.Library.Events.{Node, assign, assign_all, initialise}
use ros_bridge.Library.Actions.{IsQuiet, IsReady, IsReady-object, quiet-IsEvent}
use ros_bridge.Library.Effects.{served, text_eq}

no_entry : (name : String) (i : ℕ) → lookup name [] ≡ some i → ⊥
unfolding lookup
no_entry name i e = cc

lookup_first :
    (key name : String) (j : ℕ) (m : Dict ℕ)
    → (key == name) ≡ true
    → lookup name ((key, j) ∷ m) ≡ some j
unfolding lookup
lookup_first key name j m h = cc (h)

lookup_later :
    (key name : String) (j : ℕ) (m : Dict ℕ)
    → (key == name) ≡ false
    → lookup name ((key, j) ∷ m) ≡ lookup name m
unfolding lookup
lookup_later key name j m h = cc (h)

index_eq : (i j : ℕ) → nat_eq j i ≡ true → j ≡ i
index_eq i j h = ground (arith, h)

index_ne : (i j : ℕ) → nat_eq j i ≡ false → j ≢ i
index_ne i j h = ground (arith, h)

module _ {N : Type 0} where
  length-map_sweep : (is : List (Item N)) → length (map sweep_item is) ≡ length is
  length-map_sweep [] = refl
  length-map_sweep (i ∷ is) = ap suc (length-map_sweep is)

  sweep-IsQuiet : (is : List (Item N)) → All IsEvent is → All IsQuiet (map sweep_item is)
  unfolding sweep_item sweep
  sweep-IsQuiet [] h = tt
  sweep-IsQuiet (event d ∷ is) h = ((h.0, refl), sweep-IsQuiet is h.1)
  sweep-IsQuiet (i ∷ is) h = absurd h.0

  get_elem?-sweep :
      (is : List (Item N)) (i : ℕ) (x : Item N)
      → get_elem? is i ≡ some x
      → get_elem? (map sweep_item is) i ≡ some (sweep_item x)
  get_elem?-sweep [] i x h = cc
  get_elem?-sweep (y ∷ is) zero x h = cc
  get_elem?-sweep (y ∷ is) (suc i) x h = get_elem?-sweep is i x h

module _ {N : Type 0} ⦃n : Number N⦄ where
  modify-IsEvent :
      (is : List (Item N)) (i : ℕ) (v : Value N)
      → All IsEvent is
      → All IsEvent (modify is i (set_item v))
  unfolding set_item set_value
  modify-IsEvent [] i v h = tt
  modify-IsEvent (event d ∷ is) zero v h = ground (arith, h.1)
  modify-IsEvent (event d ∷ is) (suc i) v h = (h.0, modify-IsEvent is i v h.1)
  modify-IsEvent (j ∷ is) i v h = absurd h.0

  -- The object at an index is an event.
  abbrev Exists : ℕ → List (Item N) → Type 0
  Exists i is = (c : DataItem N) × (get_elem? is i ≡ some (event c))

  -- The event at an index has a value.
  abbrev Says : Value N → ℕ → List (Item N) → Type 0
  Says v i is = (c : DataItem N) × (get_elem? is i ≡ some (event c)) × (c.value ≡ v)

  Says-modify_self :
      (s : String) (i : ℕ) (is : List (Item N))
      → Exists i is
      → Says (text s) i (modify is i (set_item (text s)))
  unfolding set_item set_value
  Says-modify_self s i is (c, e) =
      let there = get_elem?-modify_self is i (set_item (text s)) e in
      elim (Bool-cases (value_eq c.value (text s))) [
        | inl h ↦ (c, ground (arith, there, h), text_eq c.value s h)
        | inr h ↦ (record c { value = text s; changed = true }, ground (arith, there, h), refl)
      ]

  Exists-modify :
      (s : String) (i j : ℕ) (is : List (Item N))
      → Exists i is
      → Exists i (modify is j (set_item (text s)))
  Exists-modify s i j is e = elim (Bool-cases (nat_eq j i)) [
    | inl h ↦
        let (c, g, _) = Says-modify_self s i is e in
        subst (λ k. Exists i (modify is k (set_item (text s)))) (sym (index_eq i j h)) (c, g)
    | inr h ↦ (e.0, get_elem?-modify_ne is j i (set_item (text s)) (index_ne i j h) ∙ e.1)
  ]

  Says-modify :
      (s : String) (i j : ℕ) (is : List (Item N))
      → Says (text s) i is
      → Says (text s) i (modify is j (set_item (text s)))
  Says-modify s i j is (c, e, v) = elim (Bool-cases (nat_eq j i)) [
    | inl h ↦
        subst (λ k. Says (text s) i (modify is k (set_item (text s)))) (sym (index_eq i j h))
          (Says-modify_self s i is (c, e))
    | inr h ↦ (c, get_elem?-modify_ne is j i (set_item (text s)) (index_ne i j h) ∙ e, v)
  ]

module _ {N S : Type 0} ⦃n : Number N⦄ where
  assign_all-items :
      (is : List ℕ) (v : Value N) (a : Adapter N S)
      → (assign_all is v a).clients ≡ a.clients
        × (length (assign_all is v a).data_items ≡ length a.data_items)
        × (All IsEvent a.data_items → All IsEvent (assign_all is v a).data_items)
  unfolding assign_all assign
  assign_all-items [] v a = (refl, refl, λ h. h)
  assign_all-items (i ∷ is) v a =
      let (c, l, e) = assign_all-items is v (assign i v a) in
      (c, l ∙ length-modify a.data_items i (set_item v), λ h. e (modify-IsEvent a.data_items i v h))

  assign_all-keeps :
      (is : List ℕ) (s : String) (i : ℕ) (a : Adapter N S)
      → Says (text s) i a.data_items
      → Says (text s) i (assign_all is (text s) a).data_items
  unfolding assign_all assign
  assign_all-keeps [] s i a h = h
  assign_all-keeps (j ∷ is) s i a h =
      assign_all-keeps is s i (assign j (text s) a) (Says-modify s i j a.data_items h)

  -- Each event of the dictionary gets the value.
  assign_all-Says :
      (m : Dict ℕ) (s name : String) (i : ℕ) (a : Adapter N S)
      → lookup name m ≡ some i
      → Exists i a.data_items
      → Says (text s) i (assign_all (values m) (text s) a).data_items
  unfolding assign_all assign
  assign_all-Says [] s name i a e x = absurd (no_entry name i e)
  assign_all-Says ((key, j) ∷ m) s name i a e x = elim (Bool-cases (key == name)) [
    | inl h ↦
        let same : j ≡ i = cc (lookup_first key name j m h, e) in
        assign_all-keeps (values m) s i (assign j (text s) a) (
          subst (λ k. Says (text s) i (modify a.data_items k (set_item (text s)))) (sym same)
            (Says-modify_self s i a.data_items x))
    | inr h ↦
        assign_all-Says m s name i (assign j (text s) a) (sym (lookup_later key name j m h) ∙ e)
          (Exists-modify s i j a.data_items x)
  ]

-- What a node is after `add_event` has given it the first values.
pub record Starts {N S : Type 0} ⦃n : Number N⦄ ⦃k : Sockets S⦄ (time : String) (d e : Node N S)
    : Type 0 where
  pub done : initialise time d ≡ ok tt e
  pub dict : e.di_dict ≡ d.di_dict
  pub ready : IsReady e
  pub shows :
      (name : String) (i : ℕ) → lookup name d.di_dict ≡ some i → served name e ≡ some (text "READY")

module _ {N S : Type 0} ⦃n : Number N⦄ ⦃k : Sockets S⦄ where
  -- The adapter that the first values leave.
  abbrev initialised : String → Node N S → Adapter N S
  initialised time d =
      sweep_all (flush time (assign_all (values d.di_dict) (text "READY") d.adapter))

  items-initialised :
      (time : String) (d : Node N S)
      → (initialised time d).data_items
        ≡ map sweep_item (assign_all (values d.di_dict) (text "READY") d.adapter).data_items
  unfolding sweep_all send
  items-initialised time d =
      let a = assign_all (values d.di_dict) (text "READY") d.adapter in
      ground
        (arith, send_each-data_items (time +++ due_text a.data_items +++ "\n") (keys a.clients) a)

  clients-initialised :
      (time : String) (d : Node N S)
      → Unique d.adapter.clients
      → Unique (initialised time d).clients
  unfolding sweep_all send
  clients-initialised time d u =
      let a = assign_all (values d.di_dict) (text "READY") d.adapter in
      let kept = (assign_all-items (values d.di_dict) (text "READY") d.adapter).0 in
      let v : Unique a.clients = subst Unique (sym kept) u in
      ground
        (arith, send_each-Unique (time +++ due_text a.data_items +++ "\n") (keys a.clients) a v)

  served_ready :
      (name : String) (i : ℕ) (d : Node N S) (a b : Adapter N S)
      → lookup name d.di_dict ≡ some i
      → b.data_items ≡ map sweep_item a.data_items
      → Says (text "READY") i a.data_items
      → served name (record d { adapter = b }) ≡ some (text "READY")
  unfolding sweep_item sweep
  served_ready name i d a b e items (c, f, v) =
      ground (arith, e, items, get_elem?-sweep a.data_items i (event c) f, v)

  -- The first values are given without an exception, keep the dictionary and the invariant of a node,
  -- and READY is served under each name.
  pub initialise-Starts :
      (time : String) (d : Node N S) → IsReady d → (e : Node N S) × Starts time d e
  unfolding initialise begin_gather begin_all
  initialise-Starts time d r =
      let a = assign_all (values d.di_dict) (text "READY") d.adapter in
      let (_, size, still) = assign_all-items (values d.di_dict) (text "READY") d.adapter in
      let quiet = quiet-IsEvent d.adapter.data_items r.quiet in
      let events = still quiet in
      let items = items-initialised time d in
      let lengths = ap length items ∙ (length-map_sweep a.data_items ∙ size) in
      (
        record d { adapter = initialised time d },
        record {
          done =
              ground
                (arith, map-begin d.adapter.data_items quiet, complete_gather_lem time a events);
          dict = refl;
          ready = record {
            quiet = subst (All IsQuiet) (sym items) (sweep-IsQuiet a.data_items events);
            clients = clients-initialised time d r.clients;
            known = λ name i e. subst (λ l. i < l) (sym lengths) (r.known name i e);
          };
          shows = λ name i e.
              served_ready name i d a (initialised time d) e items (
                assign_all-Says d.di_dict "READY" name i d.adapter e (IsReady-object d name i r e));
        },
      )
