-- ===== src/LongPull/Deliveries.antt =====
-- `long_pull` on a stream that the agent writes: chunks that hold whole parts.
use ros_bridge.Base.{
  ℕ, suc, ◌+◌, ◌≤◌, ◌≡◌, refl, sym, ap, ◌∙◌, pos, true, false, List, [], ◌∷◌, ◌++◌, map, some, All,
  arith, length, is_empty, M, Outcome, ok, err, ◌>>◌, ◌>>=◌, subst, not_connected,
}
use ros_bridge.LongPull.Defs.{
  Bytes, LongPull, drop, read_chunk, fill_buffer, recv, hex_value, strip_extension,
}
use ros_bridge.LongPull.Cuts.{joined, IsOpen, length_pos}
use ros_bridge.LongPull.Text.{crlf, find_boundary, hex_run}
use ros_bridge.LongPull.Scanner.{Scanner, IsScanner}
use ros_bridge.LongPull.Heads.{no_cr}
use ros_bridge.LongPull.Pull.{Pull, take_chunk}
use ros_bridge.LongPull.Session.{
  Session, on_wire, on_pull, pull_chunk, pull_chunks, start, leaves, long_pull,
}
use ros_bridge.Base.Dict.{Dict, lookup}
use ros_bridge.LongPull.Parts.{AtStart, Delivers}
use ros_bridge.LongPull.Written.{Part, IsPart, write_parts, body_of, each}
use ros_bridge.LongPull.Frames.{take_chunk-Delivers}
use ros_bridge.LongPull.Chunks.{read_chunk-written}

-- A chunk on the wire: the line with its size, its parts, and the pieces in which it comes, the first
-- of which has the line.
pub record Sent : Type 0 where
  pub size : Bytes
  pub parts : List Part
  pub first : Bytes
  pub more : List Bytes

abbrev pub text_of : Bytes → Sent → Bytes
text_of boundary s = write_parts boundary s.parts []

abbrev pub IsSent : Bytes → Sent → Type 0
IsSent boundary s =
    (no_cr s.size ≡ true)
    × (hex_value (strip_extension s.size) ≡ some (length (text_of boundary s)))
    × (length s.size + 2 ≤ 32)
    × All IsOpen s.more
    × (s.first ++ joined s.more ≡ text_of boundary s ++ crlf)
    × All IsPart s.parts

abbrev pub pieces_of : List Sent → List Bytes
pieces_of [] = []
pieces_of (s ∷ ss) = (s.size ++ (crlf ++ s.first)) ∷ (s.more ++ pieces_of ss)

abbrev pub bodies_of : List Sent → List Bytes
bodies_of [] = []
bodies_of (s ∷ ss) = map body_of s.parts ++ bodies_of ss

-- The user is left with what the calls leave, and the exception is theirs, or that of a connection
-- that has been closed.
abbrev pub Closes : {U : Type 0} → Outcome U (Unit {0}) → Outcome (LongPull × U) (Unit {0}) → Type 0
Closes (ok _ u) (err e (w, v)) = (e ≡ not_connected) × (v ≡ u)
Closes (err e u) (err f (w, v)) = (f ≡ e) × (v ≡ u)
Closes _ (ok _ s) = ⊥

no_cr-hex_run : (s : Bytes) → no_cr (hex_run s) ≡ true
no_cr-hex_run [] = refl
no_cr-hex_run (c ∷ s) = ground (arith, no_cr-hex_run s)

no_cr-find_boundary : (s digits : Bytes) → find_boundary s ≡ some digits → no_cr digits ≡ true
unfolding find_boundary
no_cr-find_boundary [] digits h = cc
no_cr-find_boundary (c ∷ s) digits h =
    ground (arith, h, no_cr-hex_run (drop 9 (c ∷ s)), no_cr-find_boundary s digits)

module _ {D U : Type 0} (sc : Scanner D) (law : IsScanner sc) (callback : Bytes → M U (Unit {0}))
    (boundary : Bytes) where
  abbrev with_pull : LongPull → Outcome (Pull D U) (Unit {0}) → Outcome (Session D U) (Unit {0})
  with_pull w (ok a p) = ok a (record { wire = w; pull = p })
  with_pull w (err e p) = err e (record { wire = w; pull = p })

  abbrev IsWaiting : Pull D U → Type 0
  IsWaiting p =
      (p.header ≡ true)
      × (p.wanted ≡ pos (length boundary))
      × AtStart sc law callback boundary p.document []

  closed-Closes :
      (n : ℕ) (p : Pull D U)
      → Closes (ok tt p.user) (
          leaves sc callback (
            pull_chunks sc callback boundary
              (suc n)
              (record { wire = record { buffer = []; pieces = [] }; pull = p })))
  unfolding pull_chunks pull_chunk read_chunk fill_buffer recv
  closed-Closes n p = (refl, refl)

  each-bind :
      (o : Outcome U (Unit {0})) (xs ys : List Bytes) (u : U)
      → ((v : U) → each callback (xs ++ ys) v ≡ (each callback xs >> each callback ys) v)
      → ((λ _. o) >> each callback (xs ++ ys)) u
        ≡ (((λ _. o) >> each callback xs) >> each callback ys) u
  each-bind (ok _ v) xs ys u ih = ih v
  each-bind (err e v) xs ys u ih = refl

  each-append :
      (xs ys : List Bytes) (u : U)
      → each callback (xs ++ ys) u ≡ (each callback xs >> each callback ys) u
  each-append [] ys u = refl
  each-append (x ∷ xs) ys u = each-bind (callback x u) xs ys u (each-append xs ys)

  next-Closes :
      (ss : List Sent) (n : ℕ) (w : LongPull) (s : Session D U) (u : U) (o : Outcome U (Unit {0}))
      (r : Outcome (Pull D U) (Unit {0}))
      → Delivers sc law callback boundary [] o r
      → ((p : Pull D U)
          → IsWaiting p
          → Closes (each callback (bodies_of ss) p.user) (
              leaves sc callback
                (pull_chunks sc callback boundary n (record { wire = w; pull = p }))))
      → Closes
          (((λ _. o) >> each callback (bodies_of ss)) u)
          (leaves sc callback (((λ _. with_pull w r) >> pull_chunks sc callback boundary n) s))
  next-Closes ss n w s u (ok _ v) (ok _ p) d ih =
      subst
        (λ x.
          Closes (each callback (bodies_of ss) x) (
            leaves sc callback
              (pull_chunks sc callback boundary n (record { wire = w; pull = p }))))
        d.0 (ih p (d.1, d.2, d.3))
  next-Closes ss n w s u (err e v) (err f p) d ih = d
  next-Closes ss n w s u (ok _ v) (err f p) d ih = absurd d
  next-Closes ss n w s u (err e v) (ok _ p) d ih = absurd d

  on_pull-with_pull :
      (o : Outcome (Pull D U) (Unit {0})) (s : Session D U)
      → on_pull sc callback (λ _. o) s ≡ with_pull s.wire o
  on_pull-with_pull (ok a p) s = refl
  on_pull-with_pull (err e p) s = refl

  pull_chunk-Sent :
      (s : Sent) (ss : List Sent) (p : Pull D U)
      → IsSent boundary s
      → pull_chunk sc callback boundary
          (record { wire = record { buffer = []; pieces = pieces_of (s ∷ ss) }; pull = p })
        ≡ with_pull
            (record { buffer = []; pieces = pieces_of ss })
            (take_chunk sc callback boundary (text_of boundary s) p)
  unfolding pull_chunk
  pull_chunk-Sent s ss p h =
      let (c, x, l, o, e, _) = h in
      let text = text_of boundary s in
      let goes : Outcome LongPull Bytes → Outcome (Session D U) (Unit {0}) = λ r.
        (on_wire sc callback (λ _. r) >>= λ chunk.
        on_pull sc callback (take_chunk sc callback boundary chunk))
          (record { wire = record { buffer = []; pieces = [] }; pull = p }) in
      ap goes (read_chunk-written s.size text s.first s.more (pieces_of ss) c x l o e)
      ∙ on_pull-with_pull (take_chunk sc callback boundary text p)
          (record { wire = record { buffer = []; pieces = pieces_of ss }; pull = p })

  pull_chunks-Closes :
      (ss : List Sent) (p : Pull D U)
      → no_cr boundary ≡ true
      → is_empty boundary ≡ false
      → All (IsSent boundary) ss
      → IsWaiting p
      → Closes (each callback (bodies_of ss) p.user) (
          leaves sc callback (
            pull_chunks sc callback boundary
              (suc (length ss))
              (record { wire = record { buffer = []; pieces = pieces_of ss }; pull = p })))
  unfolding pull_chunks
  pull_chunks-Closes [] p c b a w = closed-Closes 0 p
  pull_chunks-Closes (s ∷ ss) p c b a w =
      let u = p.user in
      let n = suc (length ss) in
      let at : Session D U = record {
        wire = record { buffer = []; pieces = pieces_of (s ∷ ss) };
        pull = p;
      } in
      let left : LongPull = record { buffer = []; pieces = pieces_of ss } in
      let now = each callback (map body_of s.parts) u in
      let taken = take_chunk sc callback boundary (text_of boundary s) p in
      let calls = each-append (map body_of s.parts) (bodies_of ss) u in
      let passes =
        ap (λ o. leaves sc callback (((λ _. o) >> pull_chunks sc callback boundary n) at))
          (pull_chunk-Sent s ss p a.0) in
      let delivers : Delivers sc law callback boundary [] now taken =
        take_chunk-Delivers sc law callback boundary s.parts [] (text_of boundary s) [] p c b a.0.5
          (length_pos boundary b) w.0 w.1 w.2 refl in
      subst (λ x. Closes x (leaves sc callback (pull_chunks sc callback boundary (suc n) at)))
        (sym calls)
        (subst (Closes (((λ _. now) >> each callback (bodies_of ss)) u)) (sym passes)
          (next-Closes ss n left at u now taken delivers λ q. pull_chunks-Closes ss q c b a.1))

module _ {D U : Type 0} (sc : Scanner D) (law : IsScanner sc)
    (callback : Bytes → M U (Unit {0})) where
  -- On a stream of chunks that hold whole parts, each chunk cut into pieces anyhow after the line with
  -- its size, `long_pull` calls the callback with the body of each part, in order, and raises what a
  -- call raises, or else what the closed connection raises.
  pub long_pull-Closes :
      (headers : Dict Bytes) (content_type digits : Bytes) (ss : List Sent) (u : U)
      → lookup "content-type" headers ≡ some content_type
      → find_boundary content_type ≡ some digits
      → All (IsSent (b'-' ∷ b'-' ∷ digits)) ss
      → Closes (each callback (bodies_of ss) u) (
          long_pull sc callback headers
            (suc (length ss))
            (record { buffer = []; pieces = pieces_of ss }, u))
  unfolding long_pull
  long_pull-Closes headers content_type digits ss u h f a =
      let boundary = b'-' ∷ b'-' ∷ digits in
      let s = start sc callback boundary (record { buffer = []; pieces = pieces_of ss }) u in
      let runs : long_pull sc callback headers (suc (length ss)) (s.wire, u)
          ≡ leaves sc callback (pull_chunks sc callback boundary (suc (length ss)) s) =
        cc (h, f) in
      let clean : no_cr boundary ≡ true = no_cr-find_boundary content_type digits f in
      subst (Closes (each callback (bodies_of ss) u)) (sym runs) (
        pull_chunks-Closes sc law callback boundary ss s.pull clean refl a
          (refl, refl, law.starts []))
