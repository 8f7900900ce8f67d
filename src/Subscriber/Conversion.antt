-- ===== src/Subscriber/Conversion.antt =====
-- What the conversion of `BridgeSubscriber` serves for the members of a message.
use ros_bridge.Base.{
  ℕ, String, ◌≡◌, ◌≢◌, refl, ap, subst, List, [], ◌∷◌, arith, some, none, Option, ◌∙◌, ok, err, All,
  after, Option-cases, inl, inr, unbound_local,
}
use ros_bridge.Base.Dict.{Dict, lookup}
use ros_bridge.DataItem.Values.{Number, text}
use ros_bridge.Adapter.Defs.{Sockets}
use ros_bridge.Library.Events.{Node, action_cb}
use ros_bridge.Library.Actions.{IsReady}
use ros_bridge.Library.Effects.{served, action_cb-text, action_cb-served}
use ros_bridge.Subscriber.Defs.{Topic, Local, pick, data_item_conversion}

-- The first constant that the table converts.
abbrev pub mapped : Dict String → List String → Option String
mapped table [] = none
mapped table (c ∷ cs) = elim (lookup c table) [ none ↦ mapped table cs | some v ↦ some v ]

pick-mapped :
    (table : Dict String) (c : String) (cs : List String) (prior : Local)
    → pick table (c ∷ cs) prior ≡ some (mapped table (c ∷ cs))
unfolding pick
pick-mapped table c [] prior = ground arith
pick-mapped table c (d ∷ cs) prior = ground (arith, pick-mapped table d cs (some none))

-- The text for a member by the configuration alone, where it has one.
abbrev pub text_of : Topic → String × List String → Option String
text_of t (name, constants) = elim (lookup name t.items) [
  | none ↦ none
  | some table ↦ mapped table constants
]

-- A member that names an object of the dictionary and that the configuration converts.
abbrev pub Converts : Topic → Dict ℕ → String × List String → Type 0
Converts t dict m = (i : ℕ) × (v : String) × (lookup m.0 dict ≡ some i) × (text_of t m ≡ some v)

-- The members stand for different objects.
abbrev pub Apart : Dict ℕ → List (String × List String) → Type 0
Apart dict [] = Unit
Apart dict (m ∷ ms) = All (λ m'. lookup m'.0 dict ≢ lookup m.0 dict) ms × Apart dict ms

module _ {N S : Type 0} ⦃n : Number N⦄ ⦃k : Sockets S⦄ (time : String) (t : Topic) where
  abbrev pub IsServed : Node N S → String × List String → Type 0
  IsServed e m = (v : String) → text_of t m ≡ some v → served m.0 e ≡ some (text v)

  pub record After (dict : Dict ℕ) (msg : List (String × List String)) (d e : Node N S)
      : Type 0 where
    pub ready : IsReady e
    same_dict : e.di_dict ≡ dict
    pub others :
        (name : String) (j : ℕ)
        → lookup name dict ≡ some j
        → All (λ m. lookup m.0 dict ≢ some j) msg
        → served name e ≡ served name d
    all_served : All (IsServed e) msg

  conversion_step :
      (name v : String) (constants : List String) (more : List (String × List String))
      (prior : Local) (d e : Node N S)
      → text_of t (name, constants) ≡ some v
      → action_cb time name (text v) d ≡ ok tt e
      → data_item_conversion time t ((name, constants) ∷ more) prior d
        ≡ data_item_conversion time t more (some (some v)) e
  unfolding data_item_conversion
  conversion_step name v [] more prior d e h f = ground arith
  conversion_step name v (c ∷ cs) more prior d e h f = elim (Option-cases (lookup name t.items)) [
    | inl g ↦ ground arith
    | inr (table, g) ↦ ground (arith, pick-mapped table c cs prior, f, g, h)
  ]

  step_others :
      (name other v : String) (i j : ℕ) (d e : Node N S)
      → IsReady d
      → lookup name d.di_dict ≡ some i
      → lookup other d.di_dict ≡ some j
      → i ≢ j
      → action_cb time name (text v) d ≡ ok tt e
      → served other e ≡ served other d
  step_others name other v i j d e r l l' ne f =
      subst (λ o. served other (after o) ≡ served other d) f
        (action_cb-served time name other i j v d r l l' ne).1

  pub conversion-After :
      (dict : Dict ℕ) (msg : List (String × List String)) (prior : Local) (d : Node N S)
      → IsReady d
      → d.di_dict ≡ dict
      → All (Converts t dict) msg
      → Apart dict msg
      → (e : Node N S) × (data_item_conversion time t msg prior d ≡ ok tt e) × After dict msg d e
  unfolding data_item_conversion
  conversion-After dict [] prior d r q c a =
      (d, refl, record { ready = r; same_dict = q; others = λ name j l h. refl; all_served = tt })
  conversion-After dict (m ∷ msg) prior d r q c a =
      let (i, v, l, x) = c.0 in
      let l' : lookup m.0 d.di_dict ≡ some i = rw q l in
      let (e1, f, dq, r1, s) = action_cb-text time m.0 i v d r l' in
      let (e, g, rest) = conversion-After dict msg (some (some v)) e1 r1 (dq ∙ q) c.1 a.1 in
      let apart : All (λ m'. lookup m'.0 dict ≢ some i) msg =
        subst (λ z. All (λ m'. lookup m'.0 dict ≢ z) msg) l a.0 in
      (
        e,
        conversion_step m.0 v m.1 msg prior d e1 x f ∙ g,
        record {
          ready = rest.ready;
          same_dict = rest.same_dict;
          others = λ name j k h.
              rest.others name j k h.1
              ∙ step_others m.0 name v i j d e1 r l' (rw q k) (λ same. h.0 (l ∙ ap some same)) f;
          all_served =
              ((λ w y. ground (arith, rest.others m.0 i l apart, s, x, y)), rest.all_served);
        },
      )

  -- A member without a constant, after one that the configuration converts, is served the text of
  -- that other member, and as the first member of a message it raises UnboundLocalError.
  pub conversion_stale :
      (name other v : String) (constants : List String) (i j : ℕ) (prior : Local) (d : Node N S)
      → IsReady d
      → lookup name d.di_dict ≡ some i
      → lookup other d.di_dict ≡ some j
      → text_of t (name, constants) ≡ some v
      → (served other
            (after (data_item_conversion time t ((name, constants) ∷ (other, []) ∷ []) prior d))
          ≡ some (text v))
        × (data_item_conversion time t ((other, []) ∷ []) none d ≡ err unbound_local d)
  unfolding data_item_conversion
  conversion_stale name other v constants i j prior d r l k x =
      let (e, f, q, r', s) = action_cb-text time name i v d r l in
      let k' : lookup other e.di_dict ≡ some j = rw q k in
      let (e', f', q', r'', s') = action_cb-text time other j v e r' k' in
      (
        rw (conversion_step name v constants ((other, []) ∷ []) prior d e x f)
            (ground (arith, f', s')),
        refl,
      )
