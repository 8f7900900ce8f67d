-- ===== src/LongPull/Ends.antt =====
-- The inner loop of `long_pull` ends, whatever text comes.
use ros_bridge.Base.{
  ℕ, zero, suc, ◌+◌, ◌*◌, ◌-◌, ◌≤◌, ◌<◌, ◌≡◌, ◌≢◌, refl, sym, ap, ◌∙◌, ℤ, pos, negsuc, true, false,
  [], ◌∷◌, ◌++◌, Option, none, some, if◌then◌else◌, arith, length, is_empty, M, Outcome, ok, err,
  after, subst, Option-cases, Bool-cases, inl, inr,
}
use ros_bridge.LongPull.Defs.{Bytes}
use ros_bridge.LongPull.Cuts.{length-append, length-drop, length_pos}
use ros_bridge.LongPull.Text.{
  crlf, bytes_of, cut, find_text, split_lines, fields, value_of, int_value,
}
use ros_bridge.LongPull.Scanner.{Scanner, IsScanner, Consumes}
use ros_bridge.LongPull.Pull.{
  Pull, tail, content_length, checked, scanned, after_head, called, reaches, read_head, read_part,
  read_step, read_parts, take_chunk, enough,
}
use ros_bridge.LongPull.Parts.{
  next, read_parts-next, read_parts-stops, read_step-head, read_step-part,
}
use ros_bridge.LongPull.Written.{reaches-short}

length-cut : (n : ℤ) (s : Bytes) → length (cut n s).1 ≤ length s
unfolding cut
length-cut (pos n) s = omega (arith, length-drop n s)
length-cut (negsuc n) s = omega (arith, length-drop (length s - suc n) s)

found_in : (p s : Bytes) (m : Bytes × Bytes) → find_text p s ≡ some m → 0 < length s
unfolding find_text
found_in p [] m h = absurd (ground (arith, h))
found_in p (c ∷ s) m h = omega arith

after-content_length : {S : Type 0} (head : Bytes) (s : S) → after (content_length head s) ≡ s
unfolding content_length
after-content_length head s = elim (Option-cases (fields (tail (split_lines head)))) [
  | inl e ↦ cc (e)
  | inr (values, e) ↦ elim (Option-cases (value_of (bytes_of "content-length") values)) [
    | inl f ↦ cc (e, f)
    | inr (text, f) ↦ elim (Option-cases (int_value text)) [
      | inl g ↦ cc (e, f, g)
      | inr (n, g) ↦ cc (e, f, g)
    ]
  ]
]

module _ {D U : Type 0} (sc : Scanner D) (law : IsScanner sc) (callback : Bytes → M U (Unit {0}))
    (boundary : Bytes) where
  -- What is scanned is consumed.
  scan_until-rest :
      (d : D)
      → (sc.scan_until (crlf ++ crlf) d).0 ≢ none
      → length (sc.rest (sc.scan_until (crlf ++ crlf) d).1) < length (sc.rest d)
  scan_until-rest d h =
      let o = sc.scan_until (crlf ++ crlf) d in
      elim (Option-cases (find_text (crlf ++ crlf) (sc.rest d))) [
        | inl e ↦
            absurd
              (h (subst (λ x. Consumes sc d (crlf ++ crlf) x o) e (law.scans (crlf ++ crlf) d)).0)
        | inr (m, e) ↦
            let c = subst (λ x. Consumes sc d (crlf ++ crlf) x o) e (law.scans (crlf ++ crlf) d) in
            let there : 0 < length (sc.rest d) = found_in (crlf ++ crlf) (sc.rest d) m e in
            let after_it = ap length (law.rests o.1) ∙ length-drop (sc.place o.1) (sc.string o.1) in
            let before_it = ap length (law.rests d) ∙ length-drop (sc.place d) (sc.string d) in
            let same = ap length c.1 in
            omega (arith, there, after_it, before_it, same, c.2, length-append m.0 (crlf ++ crlf))
      ]

  -- After a body the next head starts with the boundary.
  abbrev Ready : Pull D U → Type 0
  Ready p = p.header ≡ true → p.wanted ≡ pos (length boundary)

  abbrev cost : Pull D U → ℕ
  cost p = 2 * length (sc.rest p.document) + (if p.header then 0 else 1)

  abbrev Steps : ℕ → Outcome (Pull D U) (Unit {0}) → Type 0
  Steps n (ok _ q) = (cost q < n) × Ready q
  Steps n (err e q) = Unit

  after_head-Steps :
      (p : Pull D U) (o : Outcome (Pull D U) ℤ) (n : ℕ)
      → after o ≡ p
      → length (sc.rest p.document) < n
      → Steps (2 * n) (after_head sc callback boundary p o)
  after_head-Steps p (ok m q) n e h =
      (omega (arith, ap (λ r. length (sc.rest r.document)) e), λ g. absurd (cc (g)))
  after_head-Steps p (err x q) n e h = tt

  scanned-Steps :
      (p : Pull D U) (o : Option Bytes × D) (n : ℕ)
      → (o.0 ≢ none → length (sc.rest o.1) < n)
      → Steps (2 * n) (scanned sc callback boundary p o)
  scanned-Steps p (none, d) n h = tt
  scanned-Steps p (some head, d) n h =
      after_head-Steps (record p { document = d }) (content_length head _) n
        (after-content_length head _) (h λ e. absurd (cc (e)))

  checked-Steps :
      (p : Pull D U) (o : Option Bytes × D)
      → sc.rest o.1 ≡ sc.rest p.document
      → Steps (2 * length (sc.rest p.document)) (checked sc callback boundary p o)
  checked-Steps p (none, d) h = tt
  checked-Steps p (some [], d) h = tt
  checked-Steps p (some (c ∷ s), d) h =
      subst (λ n. Steps (2 * n) (checked sc callback boundary p (some (c ∷ s), d))) (ap length h)
        (scanned-Steps (record p { document = d }) (sc.scan_until (crlf ++ crlf) d)
          (length (sc.rest d)) (scan_until-rest d))

  called-Steps :
      (p : Pull D U) (o : Outcome U (Unit {0})) (n : ℕ)
      → 2 * length (sc.rest p.document) < n
      → Steps n (called sc callback boundary p o)
  called-Steps p (ok _ u) n h = (omega (arith, h), λ _. refl)
  called-Steps p (err e u) n h = tt

  read_step-Steps : (p : Pull D U) → Steps (cost p) (read_step sc callback boundary p)
  unfolding read_head read_part
  read_step-Steps p = elim (Bool-cases p.header) [
    | inl h ↦
        let keeps = law.check_keeps boundary p.document in
        let d = (sc.check boundary p.document).1 in
        let same : sc.rest d ≡ sc.rest p.document =
          cc (law.rests d, law.rests p.document, keeps.0, keeps.1) in
        let goes = checked-Steps p (sc.check boundary p.document) same in
        let costs : 2 * length (sc.rest p.document) ≡ cost p = ground (arith, h) in
        subst (λ n. Steps n (read_step sc callback boundary p)) costs
          (subst (Steps (2 * length (sc.rest p.document)))
            (sym (read_step-head sc law callback boundary p h)) goes)
    | inr h ↦
        let more = (cut p.wanted (sc.rest p.document)).1 in
        let d = sc.set_string more (sc.reset p.document) in
        let sets = law.sets more (sc.reset p.document) in
        let rest_of : sc.rest d ≡ more = cc (law.rests d, sets.0, sets.1) in
        let shorter : 2 * length (sc.rest d) < cost p =
          ground (arith, h, rest_of, length-cut p.wanted (sc.rest p.document)) in
        subst (Steps (cost p)) (sym (read_step-part sc law callback boundary p h))
          (called-Steps (record p { document = d }) _ (cost p) shorter)
  ]

  abbrev pub Settles : Outcome (Pull D U) (Unit {0}) → Type 0
  Settles (ok _ q) = reaches q.wanted (sc.rest q.document) ≡ false
  Settles (err e q) = Unit

  next-Settles :
      (n m : ℕ) (o : Outcome (Pull D U) (Unit {0}))
      → m ≤ suc n
      → Steps m o
      → ((q : Pull D U) → Ready q → cost q ≤ n → Settles (read_parts sc callback boundary n q))
      → Settles (next sc law callback boundary n o)
  unfolding next
  next-Settles n m (ok _ q) h s ih = ih q s.1 (omega (arith, s.0))
  next-Settles n m (err e q) h s ih = tt

  read_parts-Settles :
      (n : ℕ) (p : Pull D U)
      → is_empty boundary ≡ false
      → Ready p
      → cost p ≤ n
      → Settles (read_parts sc callback boundary n p)
  read_parts-Settles zero p b r c = elim (Bool-cases p.header) [
    | inl h ↦
        let e : reaches p.wanted (sc.rest p.document) ≡ false =
          ap (λ m. reaches m (sc.rest p.document)) (r h)
          ∙ reaches-short (length boundary) (sc.rest p.document)
              (ground (arith, h, length_pos boundary b)) in
        subst Settles (sym (read_parts-stops sc law callback boundary 0 p e)) e
    | inr h ↦ absurd (ground (arith, h))
  ]
  read_parts-Settles (suc n) p b r c = elim (Bool-cases (reaches p.wanted (sc.rest p.document))) [
    | inl e ↦
        subst Settles (sym (read_parts-next sc law callback boundary n p e))
          (next-Settles n (cost p) _ c (read_step-Steps p) λ q. read_parts-Settles n q b)
    | inr e ↦ subst Settles (sym (read_parts-stops sc law callback boundary (suc n) p e)) e
  ]

  -- The loop on a chunk ends because too little text is left, or by an exception, and never because
  -- its fuel is used up: whatever the chunk is, and wherever the loop stands.
  pub take_chunk-Settles :
      (chunk : Bytes) (p : Pull D U)
      → is_empty boundary ≡ false
      → (p.header ≡ true → p.wanted ≡ pos (length boundary))
      → Settles (take_chunk sc callback boundary chunk p)
  unfolding take_chunk
  take_chunk-Settles chunk p b r =
      let q : Pull D U = record p {
        document = sc.set_string (sc.string p.document ++ chunk) p.document;
      } in
      read_parts-Settles (enough sc callback boundary q) q b r (ground arith)
