-- ===== src/Adapter/Clients.antt =====
-- Sending a line to clients: who gets it, and who is dropped.
use ros_bridge.Base.{
  String, ◌==◌, ◌≡◌, refl, sym, Bool, true, false, List, [], ◌∷◌, ◌++◌, map, arith, if◌then◌else◌,
  Option, none, some, keep, eq_iff, eq_refl, append_assoc, append-nil, Option-cases, inl, inr,
}
use ros_bridge.Base.Dict.{
  Dict, lookup, keys, contains, member, lookup-insert, lookup-remove, contains-lookup,
}
use ros_bridge.Base.Unique.{Unique, insert-Unique, remove-Unique}
use ros_bridge.Adapter.Defs.{Sockets, Adapter, remove_client, send_to_client, send_each}

-- No text stands twice in the list.
abbrev pub Distinct : List String → Type 0
Distinct [] = Unit
Distinct (c ∷ cs) = (member c cs ≡ false) × Distinct cs

module _ {S : Type 0} ⦃k : Sockets S⦄ where
  -- What a line makes of the entry of a client.
  abbrev pub told : String → Option S → Option S
  told line none = none
  told line (some s) = k.transmit s line

  abbrev pub takes : String → Option S → Bool
  takes line o = elim (told line o) [ none ↦ false | some s ↦ true ]

module _ {N S : Type 0} ⦃k : Sockets S⦄ where
  pub lookup-remove_client :
      (c j : String) (a : Adapter N S)
      → lookup j (remove_client c a).clients ≡ (if c == j then none else lookup j a.clients)
  unfolding remove_client
  lookup-remove_client c j a =
      ground (arith, lookup-remove c j a.clients, eq_iff c j, contains-lookup c a.clients)

  lookup-send_to_client :
      (line c j : String) (a : Adapter N S)
      → lookup j (send_to_client line c a).clients
        ≡ (if c == j then told line (lookup j a.clients) else lookup j a.clients)
  unfolding send_to_client
  lookup-send_to_client line c j a = elim (Option-cases (lookup c a.clients)) [
    | inl e ↦ ground (arith, lookup-remove_client c j a, eq_iff c j)
    | inr (s, e) ↦ elim (Option-cases (k.transmit s line)) [
      | inl f ↦ ground (arith, lookup-remove_client c j a, eq_iff c j)
      | inr (t, f) ↦ ground (arith, lookup-insert c j t a.clients, eq_iff c j)
    ]
  ]

  sent-send_to_client :
      (line c : String) (a : Adapter N S)
      → (send_to_client line c a).sent
        ≡ a.sent ++ (if takes line (lookup c a.clients) then (c, line) ∷ [] else [])
  unfolding send_to_client remove_client
  sent-send_to_client line c a = ground (arith, append-nil a.sent)

  -- Each client of the list is given the line once: its socket goes on from there, or it is dropped
  -- if it is unknown or its socket fails. The other clients are not touched.
  pub lookup-send_each :
      (line : String) (cs : List String) (j : String) (a : Adapter N S)
      → Distinct cs
      → lookup j (send_each line cs a).clients
        ≡ (if member j cs then told line (lookup j a.clients) else lookup j a.clients)
  unfolding send_each member
  lookup-send_each line [] j a d = refl
  lookup-send_each line (c ∷ cs) j a d = ground (
    arith,
    lookup-send_each line cs j (send_to_client line c a) d.1,
    lookup-send_to_client line c j a,
    eq_iff c j,
    d.0,
  )

  keep-takes-cong :
      (line : String) (cs : List String) (a b : Adapter N S)
      → ((j : String) → member j cs ≡ true → lookup j a.clients ≡ lookup j b.clients)
      → keep (λ c. takes line (lookup c a.clients)) cs
        ≡ keep (λ c. takes line (lookup c b.clients)) cs
  unfolding member
  keep-takes-cong line [] a b h = refl
  keep-takes-cong line (c ∷ cs) a b h =
      ground (arith, h c, eq_refl c, keep-takes-cong line cs a b (λ j m. h j (ground arith)))

  -- The line goes exactly to the clients of the list whose sockets take it, in the list's order.
  pub sent-send_each :
      (line : String) (cs : List String) (a : Adapter N S)
      → Distinct cs
      → (send_each line cs a).sent
        ≡ a.sent ++ map (λ c. (c, line)) (keep (λ c. takes line (lookup c a.clients)) cs)
  unfolding send_each member
  sent-send_each line [] a d = sym (append-nil a.sent)
  sent-send_each line (c ∷ cs) a d =
      let others =
        keep-takes-cong line cs (send_to_client line c a) a
          (λ j m. ground (arith, lookup-send_to_client line c j a, eq_iff c j, d.0)) in
      let rest : List (String × String) =
        map (λ c. (c, line)) (keep (λ c. takes line (lookup c a.clients)) cs) in
      rw
        (sent-send_each line cs (send_to_client line c a) d.1, others, sent-send_to_client line c a)
        (ground (arith, append_assoc a.sent ((c, line) ∷ []) rest, append-nil a.sent))

-- The keys of a dictionary are distinct.
keys-contains {ℓ} :
    {V : Type ℓ} (k : String) (m : Dict V) → contains k m ≡ false → member k (keys m) ≡ false
unfolding contains member
keys-contains k [] h = refl
keys-contains k ((j, v) ∷ m) h = ground (arith, keys-contains k m)

pub keys-Distinct {ℓ} : {V : Type ℓ} (m : Dict V) → Unique m → Distinct (keys m)
keys-Distinct [] u = tt
keys-Distinct ((j, v) ∷ m) u = (keys-contains j m u.0, keys-Distinct m u.1)

module _ {N S : Type 0} ⦃k : Sockets S⦄ where
  send_to_client-Unique :
      (line c : String) (a : Adapter N S)
      → Unique a.clients
      → Unique (send_to_client line c a).clients
  unfolding send_to_client remove_client
  send_to_client-Unique line c a u = elim (Option-cases (lookup c a.clients)) [
    | inl e ↦ ground (arith, remove-Unique c a.clients u)
    | inr (s, e) ↦ elim (Option-cases (k.transmit s line)) [
      | inl f ↦ ground (arith, remove-Unique c a.clients u)
      | inr (t, f) ↦ ground (arith, insert-Unique c t a.clients u)
    ]
  ]

  -- Sending a line keeps the clients distinct.
  pub send_each-Unique :
      (line : String) (cs : List String) (a : Adapter N S)
      → Unique a.clients
      → Unique (send_each line cs a).clients
  unfolding send_each
  send_each-Unique line [] a u = u
  send_each-Unique line (c ∷ cs) a u =
      send_each-Unique line cs (send_to_client line c a) (send_to_client-Unique line c a u)
