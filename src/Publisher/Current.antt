-- ===== src/Publisher/Current.antt =====
-- What a chunk changes in the current values of `BridgePublisher`, and what is queued for it.
use ros_bridge.Base.{
  append-All, String, ◌==◌, ◌≡◌, refl, Bool, List, [], ◌∷◌, arith, some, none, Option,
  if◌then◌else◌, Outcome, ok, err, Bool-cases, Option-cases, inl, inr, ◌⊎◌, M, ◌>>◌, after, All,
  keep,
}
use ros_bridge.Base.Dict.{lookup, insert, keys, lookup-insert}
use ros_bridge.Library.Tags.{split_event}
use ros_bridge.Library.Xml.{Element, Document, find_all, find_tags, xml_components}
use ros_bridge.Publisher.Defs.{
  States, Publisher, Reading, set_di, match_item, match_all, process_xml, state_of, all_none,
  all_items, init_di_dict, leave,
}

abbrev pub HasText : Element → Type 0
HasText e = (v : String) × (e.text ≡ some v)

abbrev pub merged : Option String → Option String → Option String
merged none before = before
merged (some v) before = some v

-- The current values are the ones before, overwritten by the local dictionary.
abbrev Merges : States → Reading → Type 0
Merges before r =
    (d : String)
    → state_of d r.publisher.di_current ≡ merged (state_of d r.local_di) (state_of d before)

then-after :
    {S B : Type 0} (p : S → Type 0) (m : M S (Unit {0})) (f : M S B) (s : S)
    → p (after (m s))
    → ((t : S) → p t → p (after (f t)))
    → p (after ((m >> f) s))
then-after p m f s = go (m s)
  where
    go :
        (o : Outcome _ (Unit {0}))
        → p (after o)
        → ((t : _) → p t → p (after (f t)))
        → p (after (elim o [ ok x t ↦ f t | err e t ↦ err e t ]))
    go (ok x t) h k = k t h
    go (err e t) h k = h

state_of-insert :
    (d j v : String) (m : States)
    → state_of j (insert d (some v) m) ≡ (if d == j then some v else state_of j m)
state_of-insert d j v m = ground (arith, lookup-insert d j (some v) m)

state_of-all_none : (d : String) (ds : List String) → state_of d (all_none ds) ≡ none
unfolding lookup
state_of-all_none d [] = refl
state_of-all_none d (j ∷ ds) =
    ground (arith, lookup-insert j d none (all_none ds), state_of-all_none d ds)

set_di-Merges :
    (before : States) (d v : String) (r : Reading)
    → Merges before r
    → Merges before (set_di d (some v) r)
set_di-Merges before d v r h j =
    ground
      (arith, state_of-insert d j v r.publisher.di_current, state_of-insert d j v r.local_di, h j)

-- An element sets at most one data item.
match_item_cases :
    (e : Element) (v : String) (ds : List String) (r : Reading)
    → e.text ≡ some v
    → (after (match_item e ds r) ≡ r)
      ⊎ ((d : String) × (after (match_item e ds r) ≡ set_di d (some v) r))
unfolding match_item
match_item_cases e v [] r t = inl refl
match_item_cases e v (d ∷ ds) r t = elim (Option-cases e.name) [
  | inl f ↦ inl (ground arith)
  | inr (name, f) ↦ elim (Option-cases (split_event d)) [
    | inl g ↦ inl (ground arith)
    | inr (di, g) ↦ elim (Bool-cases (name == di)) [
      | inl h ↦ inr (d, ground arith)
      | inr h ↦ elim (match_item_cases e v ds r t) [
        | inl a ↦ inl (ground arith)
        | inr (d', a) ↦ inr (d', ground arith)
      ]
    ]
  ]
]

match_item-Merges :
    (before : States) (e : Element) (ds : List String) (r : Reading)
    → HasText e
    → Merges before r
    → Merges before (after (match_item e ds r))
match_item-Merges before e ds r (v, t) h = elim (match_item_cases e v ds r t) [
  | inl a ↦ rw a h
  | inr (d, a) ↦ rw a (set_di-Merges before d v r h)
]

match_all-Merges :
    (before : States) (es : List Element) (ds : List String) (r : Reading)
    → All HasText es
    → Merges before r
    → Merges before (after (match_all es ds r))
unfolding match_all
match_all-Merges before [] ds r t h = h
match_all-Merges before (e ∷ es) ds r t h =
    then-after (Merges before) (match_item e ds) (match_all es ds) r
      (match_item-Merges before e ds r t.0 h) (λ s. match_all-Merges before es ds s t.1)

keep-All : {A : Type 0} (P : A → Type 0) (f : A → Bool) (xs : List A) → All P xs → All P (keep f xs)
keep-All P f [] h = tt
keep-All P f (x ∷ xs) h = elim (Bool-cases (f x)) [
  | inl e ↦ rw e (h.0, keep-All P f xs h.1)
  | inr e ↦ rw e (keep-All P f xs h.1)
]

find_tags-All :
    (P : Element → Type 0) (tags : List String) (es : List Element)
    → All P es
    → All P (find_tags tags es)
unfolding find_tags
find_tags-All P [] es h = tt
find_tags-All P (tag ∷ tags) es h =
    append-All P (find_all tag es) (find_tags tags es) (keep-All P (λ e. e.tag == tag) es h)
      (find_tags-All P tags es h)

start-Merges :
    (p : Publisher) → Merges p.di_current (record { publisher = p; local_di = init_di_dict p })
unfolding init_di_dict
start-Merges p d = ground (arith, state_of-all_none d (all_items p.topics))

leave-Merges :
    (before : States) (o : Outcome Reading (Unit {0})) (changed : States) (q : Publisher)
    → leave o ≡ ok changed q
    → Merges before (after o)
    → (d : String) → state_of d q.di_current ≡ merged (state_of d changed) (state_of d before)
leave-Merges before (ok x r) changed q e h d = ground (arith, h d)
leave-Merges before (err x r) changed q e h d = cc

-- What `process_xml` returns for a chunk are exactly the changes that it makes: afterwards the
-- current value of each data item is the value returned for it, if there is one, and else the one
-- before. All elements of the chunk have a text.
pub process_xml-merged :
    (doc : Document) (p q : Publisher) (changed : States) (d : String)
    → All HasText doc.elements
    → process_xml (some doc) p ≡ ok changed q
    → state_of d q.di_current ≡ merged (state_of d changed) (state_of d p.di_current)
unfolding process_xml xml_components
process_xml-merged doc p q changed d t e =
    let start : Reading = record { publisher = p; local_di = init_di_dict p } in
    let es = find_tags (keys p.di_current) doc.elements in
    leave-Merges p.di_current (match_all es (all_items p.topics) start) changed q (ground arith)
      (match_all-Merges p.di_current es (all_items p.topics) start
        (find_tags-All HasText (keys p.di_current) doc.elements t) (start-Merges p))
      d
