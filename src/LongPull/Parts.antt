-- ===== src/LongPull/Parts.antt =====
-- The inner loop of `long_pull` on the parts that the agent writes.
use ros_bridge.Base.{
  ℕ, zero, suc, ◌*◌, ◌≤◌, ◌<◌, ◌≡◌, refl, sym, ap, ◌∙◌, ℤ, pos, true, false, List, [], ◌∷◌, ◌++◌,
  subst, map, some, none, Option, All, arith, length, is_empty, M, Outcome, ok, err, ◌>>◌,
}
use ros_bridge.LongPull.Defs.{Bytes}
use ros_bridge.LongPull.Cuts.{length-append}
use ros_bridge.LongPull.Text.{crlf, bytes_of, find_text, value_of, int_value, cut}
use ros_bridge.LongPull.Scanner.{Scanner, IsScanner, Consumes}
use ros_bridge.LongPull.Heads.{
  Field, write_head, write_fields, IsField, in_lower_case, no_cr, find-write_head,
  content_length-write_head,
}
use ros_bridge.LongPull.Pull.{
  Pull, content_length, checked, scanned, after_head, called, reaches, read_head, read_part,
  read_step, read_parts,
}
use ros_bridge.LongPull.Written.{
  Part, IsPart, write_parts, body_of, each, write_head-append, drop-append, cut-append,
  starts_with-append,
}

module _ {D U : Type 0} (sc : Scanner D) (law : IsScanner sc) (callback : Bytes → M U (Unit {0}))
    (boundary : Bytes) where
  -- The document has this string, and nothing of it is consumed.
  abbrev pub AtStart : D → Bytes → Type 0
  AtStart d s = (sc.string d ≡ s) × (sc.place d ≡ 0)

  pub rest-AtStart : (d : D) (s : Bytes) → AtStart d s → sc.rest d ≡ s
  rest-AtStart d s h = cc (law.rests d, h.0, h.1)

  checked-some :
      (p : Pull D U) (o : Option Bytes × D)
      → o.0 ≡ some boundary
      → is_empty boundary ≡ false
      → checked sc callback boundary p o
        ≡ scanned sc callback boundary
            (record p { document = o.1 })
            (sc.scan_until (crlf ++ crlf) o.1)
  checked-some p (none, d) e h = cc
  checked-some p (some [], d) e h = cc
  checked-some p (some (c ∷ s), d) e h = refl

  scanned-some :
      (p : Pull D U) (o : Option Bytes × D) (head : Bytes)
      → o.0 ≡ some head
      → scanned sc callback boundary p o
        ≡ after_head sc callback boundary p (content_length head (record p { document = o.1 }))
  scanned-some p (none, d) head e = cc
  scanned-some p (some s, d) head e = cc

  -- Up to the empty line, a head is consumed.
  scan-write_head :
      (d : D) (fs : List Field) (s : Bytes)
      → no_cr boundary ≡ true
      → All IsField fs
      → AtStart d (write_head boundary fs s)
      → ((sc.scan_until (crlf ++ crlf) d).0 ≡ some (write_head boundary fs []))
        × (sc.rest (sc.scan_until (crlf ++ crlf) d).1 ≡ s)
        × (sc.string (sc.scan_until (crlf ++ crlf) d).1 ≡ write_head boundary fs s)
  scan-write_head d fs s c a h =
      let (before, f, g) = find-write_head boundary fs s c a in
      let o = sc.scan_until (crlf ++ crlf) d in
      let consumes =
        subst (λ x. Consumes sc d (crlf ++ crlf) x o)
          (ap (find_text (crlf ++ crlf)) (rest-AtStart d _ h) ∙ f) (law.scans (crlf ++ crlf) d) in
      let whole = write_head-append boundary fs [] s in
      let all = drop-append (write_head boundary fs []) s in
      (
        consumes.0 ∙ ap some g,
        ground (arith, law.rests o.1, consumes.1, consumes.2, g, h.0, h.1, whole, all),
        consumes.1 ∙ h.0,
      )

  -- A head is consumed, and its content length is that of the part.
  pub read_head-write_head :
      (p : Pull D U) (fs : List Field) (v s : Bytes) (n : ℤ)
      → no_cr boundary ≡ true
      → is_empty boundary ≡ false
      → All IsField fs
      → value_of (bytes_of "content-length") (map in_lower_case fs) ≡ some v
      → int_value v ≡ some n
      → AtStart p.document (write_head boundary fs s)
      → (d : D) × (read_head sc callback boundary p
          ≡ ok tt (record p { document = d; header = false; wanted = n }))
        × (sc.rest d ≡ s)
        × (sc.string d ≡ write_head boundary fs s)
  unfolding read_head
  read_head-write_head p fs v s n c b a e i h =
      let s0 = write_head boundary fs s in
      let o = sc.check boundary p.document in
      let found = law.checks boundary p.document h.1 in
      let keeps = law.check_keeps boundary p.document in
      let whole : AtStart o.1 s0 = (keeps.0 ∙ h.0, keeps.1 ∙ h.1) in
      let scan = scan-write_head o.1 fs s c a whole in
      let head = sc.scan_until (crlf ++ crlf) o.1 in
      let q : Pull D U = record p { document = o.1 } in
      let r : Pull D U = record p { document = head.1 } in
      let is_found : o.0 ≡ some boundary =
        cc (found, h.0, starts_with-append boundary (crlf ++ write_fields fs (crlf ++ s))) in
      let length_of = content_length-write_head boundary fs v n r c a e i in
      (
        head.1,
        checked-some p o is_found b
            ∙ (scanned-some q head (write_head boundary fs []) scan.0
                ∙ ap (after_head sc callback boundary q) length_of),
        scan.1,
        scan.2,
      )

  -- A body that has come goes to the callback, and the document starts after it.
  pub read_part-body :
      (p : Pull D U) (body s : Bytes)
      → p.wanted ≡ pos (length body)
      → sc.rest p.document ≡ body ++ s
      → (d : D) × (read_part sc callback boundary p
          ≡ called sc callback boundary (record p { document = d }) (callback body p.user))
        × AtStart d s
  unfolding read_part
  read_part-body p body s w r =
      let d = sc.set_string s (sc.reset p.document) in
      let whole =
        ap (λ m. cut m (sc.rest p.document)) w
        ∙ (ap (cut (pos (length body))) r ∙ cut-append body s) in
      let call : Bytes × Bytes → Outcome (Pull D U) (Unit {0}) = λ c.
        called sc callback boundary
          (record p { document = sc.set_string c.1 (sc.reset p.document) }) (callback c.0 p.user) in
      (d, ap call whole, law.sets s (sc.reset p.document))

  unfoldable pub next : ℕ → Outcome (Pull D U) (Unit {0}) → Outcome (Pull D U) (Unit {0})
  unfolding read_parts
  next n (ok _ q) = read_parts sc callback boundary n q
  next n (err e q) = err e q

  pub read_parts-next :
      (n : ℕ) (p : Pull D U)
      → reaches p.wanted (sc.rest p.document) ≡ true
      → read_parts sc callback boundary (suc n) p ≡ next n (read_step sc callback boundary p)
  unfolding read_parts next
  read_parts-next n p h = rw (read_parts, h)

  -- What the calls leave is the state of the user, and then `t` is what is left of the text.
  abbrev pub Delivers : Bytes → Outcome U (Unit {0}) → Outcome (Pull D U) (Unit {0}) → Type 0
  Delivers t (ok _ u) (ok _ q) =
      (q.user ≡ u) × (q.header ≡ true) × (q.wanted ≡ pos (length boundary)) × AtStart q.document t
  Delivers t (err e u) (err f q) = (f ≡ e) × (q.user ≡ u)
  Delivers t _ _ = ⊥

  Delivers-next :
      (n : ℕ) (p : Pull D U) (o : Outcome U (Unit {0})) (bodies : List Bytes) (t : Bytes)
      → ((u : U)
          → Delivers t (each callback bodies u) (
              read_parts sc callback boundary n
                (record p { user = u; wanted = pos (length boundary); header = true })))
      → Delivers t
          (((λ _. o) >> each callback bodies) p.user)
          (next n (called sc callback boundary p o))
  unfolding next
  Delivers-next n p (ok _ u) bodies t ih = ih u
  Delivers-next n p (err e u) bodies t ih = (refl, refl)

  pub read_step-head :
      (p : Pull D U)
      → p.header ≡ true
      → read_step sc callback boundary p ≡ read_head sc callback boundary p
  unfolding read_step
  read_step-head p h = cc (h)

  pub read_step-part :
      (p : Pull D U)
      → p.header ≡ false
      → read_step sc callback boundary p ≡ read_part sc callback boundary p
  unfolding read_step
  read_step-part p h = cc (h)

  pub reaches-start :
      (p : Pull D U) (l s : Bytes)
      → p.wanted ≡ pos (length l)
      → sc.rest p.document ≡ l ++ s
      → reaches p.wanted (sc.rest p.document) ≡ true
  reaches-start p l s w r = ground (arith, w, r, length-append l s)

  pub read_parts-stops :
      (n : ℕ) (p : Pull D U)
      → reaches p.wanted (sc.rest p.document) ≡ false
      → read_parts sc callback boundary n p ≡ ok tt p
  unfolding read_parts
  read_parts-stops zero p h = refl
  read_parts-stops (suc n) p h = cc (h)

  read_parts-rest :
      (n : ℕ) (p : Pull D U) (t : Bytes)
      → p.wanted ≡ pos (length boundary)
      → AtStart p.document t
      → length t < length boundary
      → read_parts sc callback boundary n p ≡ ok tt p
  read_parts-rest n p t w d l =
      read_parts-stops n p (ground (arith, w, rest-AtStart p.document t d))

  -- With fuel for two steps a part, the bodies are delivered in order.
  pub read_parts-Delivers :
      (ps : List Part) (t : Bytes) (n : ℕ) (p : Pull D U)
      → no_cr boundary ≡ true
      → is_empty boundary ≡ false
      → All IsPart ps
      → length t < length boundary
      → 2 * length ps ≤ n
      → p.header ≡ true
      → p.wanted ≡ pos (length boundary)
      → AtStart p.document (write_parts boundary ps t)
      → Delivers t (each callback (map body_of ps) p.user) (read_parts sc callback boundary n p)
  unfolding read_step read_part next
  read_parts-Delivers [] t n p c b a l m h w d =
      subst (Delivers t (ok tt p.user)) (sym (read_parts-rest n p t w d l)) (refl, h, w, d)
  read_parts-Delivers (x ∷ ps) t zero p c b a l m h w d = absurd (omega arith)
  read_parts-Delivers (x ∷ ps) t (suc zero) p c b a l m h w d = absurd (omega arith)
  read_parts-Delivers (x ∷ ps) t (suc (suc n)) p c b a l m h w d =
      let more = write_parts boundary ps t in
      let (fields_ok, (v, ev, iv)) = a.0 in
      let (d1, e, r, _) =
        read_head-write_head p x.fields v (x.body ++ more) (pos (length x.body)) c b fields_ok ev iv
          d in
      let q : Pull D U = record p { document = d1; header = false; wanted = pos (length x.body) } in
      let (d2, f, s) = read_part-body q x.body more refl r in
      let head_comes =
        reaches-start p boundary (crlf ++ write_fields x.fields (crlf ++ (x.body ++ more))) w
          (rest-AtStart p.document _ d) in
      let first =
        read_parts-next (suc n) p head_comes ∙ ap (next (suc n)) (read_step-head p h ∙ e) in
      let second = read_parts-next n q (reaches-start q x.body more refl r) ∙ ap (next n) f in
      subst (Delivers t (each callback (map body_of (x ∷ ps)) p.user)) (sym (first ∙ second)) (
        Delivers-next n (record q { document = d2 }) (callback x.body p.user) (map body_of ps) t
          λ u. read_parts-Delivers ps t n _ c b a.1 l (omega arith) refl refl s)
