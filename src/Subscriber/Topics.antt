-- ===== src/Subscriber/Topics.antt =====
-- The topics that `BridgeSubscriber` waits for.
use ros_bridge.Base.{
  suc, map-All, All, ◌*◌, ◌≤◌, ◌<◌, length, String, ◌==◌, ◌≡◌, refl, ◌∙◌, ap, Bool, true, false,
  ◌||◌, ◌++◌, List, [], ◌∷◌, arith, Bool-cases, inl, inr,
}
use Prim.Native.Nat.{◌^◌}
use ros_bridge.Base.Dict.{member}
use ros_bridge.Subscriber.Defs.{subscribe_pass, subscribe}

member-append :
    (j : String) (xs ys : List String) → member j (xs ++ ys) ≡ (member j xs || member j ys)
unfolding member
member-append j [] ys = refl
member-append j (x ∷ xs) ys = ground (arith, member-append j xs ys)

or_swap : (a b c d : Bool) → ((b || c) || (a || d)) ≡ (a || (b || (c || d)))
or_swap true true c d = refl
or_swap true false true d = refl
or_swap true false false d = refl
or_swap false true c d = refl
or_swap false false c d = refl

or_assoc : (a b c : Bool) → ((a || b) || c) ≡ (a || (b || c))
or_assoc true b c = refl
or_assoc false b c = refl

pass-member :
    (published topics : List String) (j : String)
    → (member j (subscribe_pass published topics).0 || member j (subscribe_pass published topics).1)
      ≡ member j topics
unfolding subscribe_pass member
pass-member published [] j = refl
pass-member published (t ∷ []) j = ground arith
pass-member published (t ∷ u ∷ us) j = elim (Bool-cases (member t published)) [
  | inl e ↦
      let (kept, subscribed) = subscribe_pass published us in
      rw e (
        or_swap (t == j) (u == j) (member j kept) (member j subscribed)
        ∙ ap (λ b. t == j || (u == j || b)) (pass-member published us j))
  | inr e ↦
      let (kept, subscribed) = subscribe_pass published (u ∷ us) in
      rw e (
        or_assoc (t == j) (member j kept) (member j subscribed)
        ∙ ap (λ b. t == j || b) (pass-member published (u ∷ us) j))
]

-- Whatever is published at the passes of the loop, a topic that is waited for is subscribed or is
-- still waited for, and no other topic is: deleting from the list that is gone through loses none.
pub subscribe-member :
    (passes : List (List String)) (topics : List String) (j : String)
    → (member j (subscribe passes topics).0 || member j (subscribe passes topics).1)
      ≡ member j topics
unfolding subscribe member
subscribe-member [] topics j = ground arith
subscribe-member (published ∷ passes) [] j = refl
subscribe-member (published ∷ passes) (t ∷ ts) j =
    let (kept, subscribed) = subscribe_pass published (t ∷ ts) in
    let (left, more) = subscribe passes kept in
    ground (
      arith,
      subscribe-member passes kept j,
      pass-member published (t ∷ ts) j,
      member-append j subscribed more,
    )

abbrev Publishes : List String → List String → Type 0
Publishes topics published = All (λ t. member t published ≡ true) topics

pass-Publishes :
    (published other topics : List String)
    → Publishes topics other
    → Publishes (subscribe_pass published topics).0 other
unfolding subscribe_pass
pass-Publishes published other [] h = tt
pass-Publishes published other (t ∷ []) h = elim (Bool-cases (member t published)) [
  | inl e ↦ rw e tt
  | inr e ↦ rw e h
]
pass-Publishes published other (t ∷ u ∷ us) h = elim (Bool-cases (member t published)) [
  | inl e ↦ rw e (h.1.0, pass-Publishes published other us h.1.1)
  | inr e ↦ rw e (h.0, pass-Publishes published other (u ∷ us) h.1)
]

-- A pass over topics that are published leaves at most half of them.
pass-halves :
    (published topics : List String)
    → Publishes topics published
    → 2 * length (subscribe_pass published topics).0 ≤ length topics
unfolding subscribe_pass
pass-halves published [] h = omega arith
pass-halves published (t ∷ []) h = rw (h.0) (omega arith)
pass-halves published (t ∷ u ∷ us) h = rw (h.0) (omega (arith, pass-halves published us h.1.1))

-- If all topics are published at each pass of the loop, and there are fewer topics than two to the
-- number of passes, no topic is left.
pub subscribe-ends :
    (passes : List (List String)) (topics : List String)
    → All (Publishes topics) passes
    → length topics < 2 ^ length passes
    → (subscribe passes topics).0 ≡ []
unfolding subscribe
subscribe-ends [] [] h b = refl
subscribe-ends [] (t ∷ ts) h b = absurd (omega (arith, b))
subscribe-ends (published ∷ passes) [] h b = refl
subscribe-ends (published ∷ passes) (t ∷ ts) h b =
    let (kept, subscribed) = subscribe_pass published (t ∷ ts) in
    let halves = pass-halves published (t ∷ ts) h.0 in
    let power : 2 ^ suc (length passes) ≡ 2 * 2 ^ length passes = omega arith in
    subscribe-ends passes kept
      (map-All (Publishes (t ∷ ts)) (Publishes kept) passes
        (λ other. pass-Publishes published other (t ∷ ts)) h.1)
      (omega (arith, halves, power, b))
