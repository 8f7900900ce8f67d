-- ===== src/LongPull/Frames.antt =====
-- What `long_pull` does with a chunk of the stream: the parts in it are delivered, and a body that
-- comes in two chunks is not.
use ros_bridge.Base.{
  ℕ, suc, ◌+◌, ◌*◌, ◌≤◌, ◌<◌, ◌≡◌, refl, sym, ap, ◌∙◌, pos, true, false, List, [], ◌∷◌, ◌++◌, map,
  some, All, arith, length, is_empty, M, ok, ◌>>◌,
}
use ros_bridge.LongPull.Defs.{Bytes, take, drop}
use ros_bridge.LongPull.Cuts.{length-append, take-drop, length-take}
use ros_bridge.LongPull.Text.{crlf, bytes_of, value_of, int_value}
use ros_bridge.LongPull.Scanner.{Scanner, IsScanner}
use ros_bridge.LongPull.Heads.{Field, line, write_head, write_fields, IsField, in_lower_case, no_cr}
use ros_bridge.LongPull.Pull.{Pull, called, reaches, read_parts, take_chunk, enough}
use ros_bridge.LongPull.Parts.{
  AtStart, Delivers, next, read_parts-Delivers, rest-AtStart, read_head-write_head, read_part-body,
  read_step-head, read_parts-next, read_parts-stops, reaches-start, read_step-part,
}
use ros_bridge.LongPull.Written.{
  Part, IsPart, write_parts, body_of, each, reaches-short, reaches-long,
}

length-write_fields : (fs : List Field) (s : Bytes) → length s ≤ length (write_fields fs s)
length-write_fields [] s = omega arith
length-write_fields (f ∷ fs) s =
    omega (arith, length-append (line f) (crlf ++ write_fields fs s), length-write_fields fs s)

length-write_head :
    (l : Bytes) (fs : List Field) (s : Bytes) → length s < length (write_head l fs s)
length-write_head l fs s = omega (
  arith,
  length-append l (crlf ++ write_fields fs (crlf ++ s)),
  length-write_fields fs (crlf ++ s),
)

length-write_parts :
    (l : Bytes) (ps : List Part) (t : Bytes) → length ps ≤ length (write_parts l ps t)
length-write_parts l [] t = omega arith
length-write_parts l (p ∷ ps) t =
    let more = write_parts l ps t in
    omega (
      arith,
      length-write_parts l ps t,
      length-append p.body more,
      length-write_head l p.fields (p.body ++ more),
    )

read_two :
    {D U : Type 0} (sc : Scanner D) (callback : Bytes → M U (Unit {0})) (boundary : Bytes) (m : ℕ)
    (p : Pull D U)
    → read_parts sc callback boundary (m + 2) p ≡ read_parts sc callback boundary (suc (suc m)) p
read_two sc callback boundary m p = ap (λ k. read_parts sc callback boundary k p) (omega arith)

module _ {D U : Type 0} (sc : Scanner D) (law : IsScanner sc) (callback : Bytes → M U (Unit {0}))
    (boundary : Bytes) where
  -- A chunk that completes a number of parts hands their bodies to the callback, in order, and what
  -- is left of the text waits for the next chunk, if it is shorter than the boundary; if the callback
  -- raises, its exception is passed on.
  pub take_chunk-Delivers :
      (ps : List Part) (s chunk t : Bytes) (p : Pull D U)
      → no_cr boundary ≡ true
      → is_empty boundary ≡ false
      → All IsPart ps
      → length t < length boundary
      → p.header ≡ true
      → p.wanted ≡ pos (length boundary)
      → AtStart sc law callback boundary p.document s
      → s ++ chunk ≡ write_parts boundary ps t
      → Delivers sc law callback boundary t
          (each callback (map body_of ps) p.user)
          (take_chunk sc callback boundary chunk p)
  unfolding take_chunk
  take_chunk-Delivers ps s chunk t p c b a l h w d e =
      let text : Bytes = sc.string p.document ++ chunk in
      let q : Pull D U = record p { document = sc.set_string text p.document } in
      let whole : text ≡ write_parts boundary ps t = ap (λ x. x ++ chunk) d.0 ∙ e in
      let (string_of, place_of) = law.sets text p.document in
      let at : AtStart sc law callback boundary q.document (write_parts boundary ps t) =
        (string_of ∙ whole, place_of) in
      let at_end = rest-AtStart sc law callback boundary q.document _ at in
      let fuel : 2 * length ps ≤ enough sc callback boundary q =
        omega (arith, length-write_parts boundary ps t, ap length at_end) in
      read_parts-Delivers sc law callback boundary ps t (enough sc callback boundary q) q c b a l
        fuel h w at

  -- The head has come, and not all of the body: nothing is delivered yet.
  take_chunk-waits :
      (fs : List Field) (v first : Bytes) (n : ℕ) (p : Pull D U)
      → no_cr boundary ≡ true
      → is_empty boundary ≡ false
      → All IsField fs
      → value_of (bytes_of "content-length") (map in_lower_case fs) ≡ some v
      → int_value v ≡ some (pos n)
      → length first < n
      → p.header ≡ true
      → p.wanted ≡ pos (length boundary)
      → AtStart sc law callback boundary p.document []
      → (d : D) × (take_chunk sc callback boundary (write_head boundary fs first) p
          ≡ ok tt (record p { document = d; header = false; wanted = pos n }))
        × (sc.string d ≡ write_head boundary fs first)
  unfolding take_chunk next
  take_chunk-waits fs v first n p c b a e i l h w d =
      let text : Bytes = sc.string p.document ++ write_head boundary fs first in
      let q : Pull D U = record p { document = sc.set_string text p.document } in
      let (string_of, place_of) = law.sets text p.document in
      let at : AtStart sc law callback boundary q.document (write_head boundary fs first) =
        (string_of ∙ ap (λ x. x ++ write_head boundary fs first) d.0, place_of) in
      let (d1, f, r, s) =
        read_head-write_head sc law callback boundary q fs v first (pos n) c b a e i at in
      let come =
        reaches-start sc law callback boundary q boundary (crlf ++ write_fields fs (crlf ++ first))
          w (rest-AtStart sc law callback boundary q.document _ at) in
      let m = 2 * length (sc.rest q.document) in
      let q1 : Pull D U = record q { document = d1; header = false; wanted = pos n } in
      (
        d1,
        read_two sc callback boundary m q
            ∙ (read_parts-next sc law callback boundary (suc m) q come
                ∙ (ap (next sc law callback boundary (suc m))
                      (read_step-head sc law callback boundary q h ∙ f)
                    ∙ read_parts-stops sc law callback boundary (suc m) q1
                        (ap (reaches (pos n)) r ∙ reaches-short n first l))),
        s,
      )

  -- A part whose body comes in two chunks is misread: once the rest of it has come, and its text
  -- holds the announced number of bytes, the callback is called with that many bytes from the
  -- boundary on, not with the body.
  pub take_chunk_cut :
      (fs : List Field) (v first second : Bytes) (n : ℕ) (p : Pull D U)
      → no_cr boundary ≡ true
      → is_empty boundary ≡ false
      → All IsField fs
      → value_of (bytes_of "content-length") (map in_lower_case fs) ≡ some v
      → int_value v ≡ some (pos n)
      → length first < n
      → n ≤ length (write_head boundary fs first ++ second)
      → p.header ≡ true
      → p.wanted ≡ pos (length boundary)
      → AtStart sc law callback boundary p.document []
      → (fuel : ℕ) × (q : Pull D U) × ((take_chunk sc callback boundary
                (write_head boundary fs first)
              >> take_chunk sc callback boundary second)
            p
          ≡ next sc law callback boundary fuel (
              called sc callback boundary q
                (callback (take n (write_head boundary fs first ++ second)) p.user)))
  unfolding take_chunk
  take_chunk_cut fs v first second n p c b a e i l m h w d =
      let (d1, f, s) = take_chunk-waits fs v first n p c b a e i l h w d in
      let text : Bytes = sc.string d1 ++ second in
      let whole = write_head boundary fs first ++ second in
      let q : Pull D U = record p {
        document = sc.set_string text d1;
        header = false;
        wanted = pos n;
      } in
      let (string_of, place_of) = law.sets text d1 in
      let at : AtStart sc law callback boundary q.document whole =
        (string_of ∙ ap (λ x. x ++ second) s, place_of) in
      let r = rest-AtStart sc law callback boundary q.document whole at in
      let size = length-take n whole m in
      let (d2, g, _) =
        read_part-body sc law callback boundary q (take n whole) (drop n whole) (ap pos (sym size))
          (r ∙ sym (take-drop n whole)) in
      let k = 2 * length (sc.rest q.document) in
      (
        suc k,
        record q { document = d2 },
        ap (λ o. ((λ _. o) >> take_chunk sc callback boundary second) p) f
            ∙ (read_two sc callback boundary k q
                ∙ (read_parts-next sc law callback boundary (suc k) q
                      (ap (reaches (pos n)) r ∙ reaches-long n whole m)
                    ∙ ap (next sc law callback boundary (suc k))
                        (read_step-part sc law callback boundary q refl ∙ g))),
      )
