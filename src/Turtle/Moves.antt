-- ===== src/Turtle/Moves.antt =====
-- What the turtle is told to do by the chunks of the agent's stream.
use ros_bridge.Base.{
  arith, Option, none, true, false, ◌≢◌, eq_iff, String, ◌==◌, ◌≡◌, refl, sym, ap, ◌∙◌, ◌&&◌, not,
  List, [], ◌∷◌, ◌++◌, append_assoc, append-nil, some, ok, All, Bool-cases, inl, inr,
}
use ros_bridge.Library.Xml.{Element, Document, Chunk}
use ros_bridge.Turtle.Defs.{
  Velocity, linear, angular, is_active, moves, process_xml, callback, serve_chunks,
}

moves-append : (es fs : List Element) → moves (es ++ fs) ≡ moves es ++ moves fs
unfolding moves
moves-append [] fs = refl
moves-append (e ∷ es) fs = elim (Bool-cases (e.tag == "Execution" && not (is_active e.text))) [
  | inl h ↦ rw h (ap (λ l. linear ∷ angular ∷ l) (moves-append es fs))
  | inr h ↦ rw h (moves-append es fs)
]

abbrev pub HasHeader : Document → Type 0
HasHeader doc = (seq : String) × (doc.header ≡ some (some seq))

abbrev pub chunks_of : List Document → List Chunk
chunks_of [] = []
chunks_of (doc ∷ docs) = some doc ∷ chunks_of docs

abbrev pub all_elements : List Document → List Element
all_elements [] = []
all_elements (doc ∷ docs) = doc.elements ++ all_elements docs

-- What elements call for: a move and a turn for each Execution that does not show ACTIVE, in their
-- order, and nothing for any other element.
pub data Told : List Element → List Velocity → Type 0 where
  nothing : Told [] []
  moved :
      {e : Element} {es : List Element} {vs : List Velocity}
      → e.tag ≡ "Execution"
      → e.text ≢ some "ACTIVE"
      → Told es vs
      → Told (e ∷ es) (linear ∷ angular ∷ vs)
  other_tag :
      {e : Element} {es : List Element} {vs : List Velocity}
      → e.tag ≢ "Execution"
      → Told es vs
      → Told (e ∷ es) vs
  active :
      {e : Element} {es : List Element} {vs : List Velocity}
      → e.text ≡ some "ACTIVE"
      → Told es vs
      → Told (e ∷ es) vs

is_active-true : (o : Option String) → is_active o ≡ true → o ≡ some "ACTIVE"
is_active-true none h = absurd (cc (h))
is_active-true (some s) h = ap some ((eq_iff s "ACTIVE").0 h)

is_active-false : (o : Option String) → is_active o ≡ false → o ≢ some "ACTIVE"
is_active-false none h e = absurd (cc (e))
is_active-false (some s) h e = ground (arith, h, e, eq_iff s "ACTIVE")

moves-Told : (es : List Element) → Told es (moves es)
unfolding moves
moves-Told [] = nothing
moves-Told (e ∷ es) = elim (Bool-cases (e.tag == "Execution")) [
  | inl h ↦ elim (Bool-cases (is_active e.text)) [
    | inl a ↦ rw (h, a) (active (is_active-true e.text a) (moves-Told es))
    | inr a ↦
        rw (h, a)
          (moved ((eq_iff e.tag "Execution").0 h) (is_active-false e.text a) (moves-Told es))
  ]
  | inr h ↦ rw h (other_tag (λ g. ground (arith, h, g, eq_iff e.tag "Execution")) (moves-Told es))
]

serve_chunks-moves :
    (docs : List Document) (published : List Velocity)
    → All HasHeader docs
    → serve_chunks (chunks_of docs) published ≡ ok tt (published ++ moves (all_elements docs))
unfolding serve_chunks callback process_xml moves
serve_chunks-moves [] published h = ap (ok tt) (sym (append-nil published))
serve_chunks-moves (doc ∷ docs) published h = rw (h.0.1) (
    serve_chunks-moves docs (published ++ moves doc.elements) h.1
    ∙ ap (ok tt) (
        append_assoc published (moves doc.elements) (moves (all_elements docs))
        ∙ ap (λ l. published ++ l) (sym (moves-append doc.elements (all_elements docs)))))

-- The chunks of the stream, all with a header, publish a move and a turn for each Execution that does
-- not show ACTIVE, in the order of the elements in all the chunks, and nothing else.
pub serve_chunks-Told :
    (docs : List Document) (published : List Velocity)
    → All HasHeader docs
    → (vs : List Velocity) × (serve_chunks (chunks_of docs) published ≡ ok tt (published ++ vs))
      × Told (all_elements docs) vs
serve_chunks-Told docs published h =
    (moves (all_elements docs), serve_chunks-moves docs published h, moves-Told (all_elements docs))
