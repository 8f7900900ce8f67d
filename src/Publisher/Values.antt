-- ===== src/Publisher/Values.antt =====
-- The first values of the data items, which the constructor of `BridgePublisher` takes from the
-- elements of the agent's page.
use ros_bridge.Base.{
  String, ◌==◌, ◌≡◌, refl, sym, ◌∙◌, Bool, true, false, Bool-cases, Option-cases, List, [], ◌∷◌,
  ◌⊎◌, inl, inr, if◌then◌else◌, arith, Option, none, some, ok, ◌>>◌, or_raise, bind-returns,
  or_raise-Reads, index_error, eq_iff, Reads-returns,
}
use ros_bridge.Base.Dict.{lookup, keys, contains, member, lookup-insert}
use ros_bridge.Base.Unique.{contains-insert}
use ros_bridge.Library.Tags.{split_event}
use ros_bridge.Library.Xml.{Element}
use ros_bridge.Publisher.Defs.{States, Publisher, all_none, all_items, init_di_dict}
use ros_bridge.Publisher.Startup.{
  begin_current, take_value, first_value, first_values, init_current,
}
use ros_bridge.Publisher.Checks.{init_current-first_values}

abbrev is_named : String → Element → Bool
is_named n e = elim e.name [ none ↦ false | some m ↦ n == m ]

-- The text of the last element of a name, or else the text before.
unfoldable pub last_text : String → List Element → Option String → Option String
last_text n [] before = before
last_text n (e ∷ es) before = last_text n es (if is_named n e then e.text else before)

abbrev Overwrites : String → List Element → Type 0
Overwrites n es = (v w : Option String) → last_text n es v ≡ last_text n es w

last_text_cases :
    (n : String) (es : List Element)
    → ((v : Option String) → last_text n es v ≡ v) ⊎ Overwrites n es
unfolding last_text
last_text_cases n [] = inl λ v. refl
last_text_cases n (e ∷ es) = elim (last_text_cases n es) [
  | inr f ↦ inr λ v w. f _ _
  | inl f ↦ elim (Bool-cases (is_named n e)) [
    | inl h ↦ inr λ v w. rw h refl
    | inr h ↦ inl λ v. rw h (f v)
  ]
]

last_text-last_text :
    (n : String) (es : List Element) (v : Option String)
    → last_text n es (last_text n es v) ≡ last_text n es v
last_text-last_text n es v = elim (last_text_cases n es) [ inl f ↦ f _ | inr f ↦ f _ _ ]

take_value-lookup :
    (j d : String) (b : Bool) (text : Option String) (p : Publisher)
    → lookup d (take_value j b text p).di_current
      ≡ (if b then (if j == d then some text else lookup d p.di_current) else lookup d p.di_current)
take_value-lookup j d true text p = lookup-insert j d text p.di_current
take_value-lookup j d false text p = refl

first_value-lookup :
    (j d m : String) (es : List Element) (p q : Publisher) (v : Option String)
    → lookup d p.di_current ≡ some v
    → first_value j m es p ≡ ok tt q
    → lookup d q.di_current ≡ some (if j == d then last_text m es v else v)
unfolding first_value last_text
first_value-lookup j d m [] p q v h e = ground arith
first_value-lookup j d m (x ∷ es) p q v h e = elim (Option-cases x.name) [
  | inl f ↦ absurd (ground arith)
  | inr (name, f) ↦
      let t = take_value j (m == name) x.text p in
      let w = if m == name then (if j == d then x.text else v) else v in
      let l : lookup d t.di_current ≡ some w =
        ground (arith, take_value-lookup j d (m == name) x.text p) in
      let k = first_value-lookup j d m es t q w l (ground arith) in ground arith
]

-- Going through the data items, of which one has the name, and the value that it ends with.
module _ (d n : String) (s : split_event d ≡ some n) (es : List Element) where
  abbrev Has : Option String → Publisher → Type 0
  Has v p = lookup d p.di_current ≡ some v

  abbrev Shown : Publisher → Type 0
  Shown = Has (last_text n es none)

  round_lem :
      (j : String) (ds : List String) (p q : Publisher) (v : Option String)
      → Has v p
      → first_values (j ∷ ds) es p ≡ ok tt q
      → (r : Publisher) × Has (if j == d then last_text n es v else v) r
        × (first_values ds es r ≡ ok tt q)
  unfolding first_values
  round_lem j ds p q v h e =
      let (m, p1, a, b) =
        bind-returns (or_raise (split_event j) index_error)
          (λ m. first_value j m es >> first_values ds es) p q tt e in
      let (_, r, c, f) = bind-returns (first_value j m es) (λ _. first_values ds es) p1 q tt b in
      let same =
        Reads-returns (or_raise (split_event j) index_error) p p1 m
          (or_raise-Reads (split_event j) index_error) a in
      let k = first_value-lookup j d m es p1 r v (cc (h, same)) c in
      (
        r,
        (elim (Bool-cases (j == d)) [
          | inl g ↦
              let name : m ≡ n = ground (arith, s, a, eq_iff j d) in rw g (ground (arith, k, name))
          | inr g ↦ rw g (ground (arith, k))
        ]),
        f,
      )

  first_values-stay :
      (ds : List String) (p q : Publisher) → Shown p → first_values ds es p ≡ ok tt q → Shown q
  unfolding first_values
  first_values-stay [] p q h e = ground arith
  first_values-stay (j ∷ ds) p q h e =
      let (r, k, f) = round_lem j ds p q (last_text n es none) h e in
      let settled : Shown r = ground (arith, k, last_text-last_text n es none) in
      first_values-stay ds r q settled f

  first_values-Shown :
      (ds : List String) (p q : Publisher)
      → Has none p
      → member d ds ≡ true
      → first_values ds es p ≡ ok tt q
      → Shown q
  unfolding member
  first_values-Shown [] p q h i e = absurd (cc (i))
  first_values-Shown (j ∷ ds) p q h i e =
      let (r, k, f) = round_lem j ds p q none h e in
      elim (Bool-cases (j == d)) [
        | inl g ↦ first_values-stay ds r q (ground (arith, k, g)) f
        | inr g ↦ first_values-Shown ds r q (ground (arith, k, g)) (ground (arith, i, g)) f
      ]

member-keys : (d : String) (m : States) → member d (keys m) ≡ contains d m
unfolding member contains
member-keys d [] = refl
member-keys d ((j, v) ∷ m) = ground (arith, member-keys d m)

contains-all_none : (d : String) (ds : List String) → contains d (all_none ds) ≡ member d ds
unfolding member contains
contains-all_none d [] = refl
contains-all_none d (j ∷ ds) =
    ground (arith, contains-insert j d none (all_none ds), contains-all_none d ds)

lookup-all_none :
    (d : String) (ds : List String) → member d ds ≡ true → lookup d (all_none ds) ≡ some none
unfolding member
lookup-all_none d [] h = absurd (cc (h))
lookup-all_none d (j ∷ ds) h =
    ground (arith, lookup-insert j d none (all_none ds), lookup-all_none d ds)

-- Where the set-up of the current values returns, each data item of a topic has the text of the
-- last element with its name, or None if there is no such element.
pub init_current-values :
    (p q : Publisher) (es : List Element) (d n : String)
    → member d (all_items p.topics) ≡ true
    → split_event d ≡ some n
    → init_current es (begin_current p) ≡ ok tt q
    → lookup d q.di_current ≡ some (last_text n es none)
unfolding init_di_dict
init_current-values p q es d n i s e =
    let ds = all_items p.topics in
    first_values-Shown d n s es (keys (all_none ds)) (begin_current p) q (lookup-all_none d ds i)
      (member-keys d (all_none ds) ∙ (contains-all_none d ds ∙ i))
      (sym (init_current-first_values p es) ∙ e)
