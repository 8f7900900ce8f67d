-- ===== src/LongPull/Heads.antt =====
-- Heads as the agent writes them: the boundary, a line for each field, and an empty line.
use ros_bridge.Base.{
  ℕ, ◌≡◌, refl, ap, ◌∙◌, Bool, true, false, not, ◌&&◌, List, [], ◌∷◌, ◌++◌, map, Option, some,
  nat_eq, every, is_empty, All, arith, append_assoc, append-nil, any-append, ok, ℤ,
}
use ros_bridge.LongPull.Defs.{Bytes, under}
use ros_bridge.LongPull.Text.{
  crlf, bytes_of, find_text, starts_with, split_lines, split_colon, lower, has_field, fields,
  value_of, int_value,
}
use ros_bridge.LongPull.Pull.{content_length}

abbrev pub Field : Type 0
Field = Bytes × Bytes

-- A line of the field, without its end.
abbrev pub line : Field → Bytes
line (name, value) = name ++ b':' ∷ value

-- The lines of the fields, and what follows them.
abbrev pub write_fields : List Field → Bytes → Bytes
write_fields [] s = s
write_fields (f ∷ fs) s = line f ++ (crlf ++ write_fields fs s)

-- A head, and what follows it.
abbrev pub write_head : Bytes → List Field → Bytes → Bytes
write_head boundary fs s = boundary ++ (crlf ++ write_fields fs (crlf ++ s))

-- No colon, and no end of a line.
abbrev pub is_plain : Bytes → Bool
is_plain = every λ c. not (nat_eq c b':') && not (nat_eq c 13)

abbrev pub IsField : Field → Type 0
IsField (name, value) = (is_empty name ≡ false) × (is_plain name ≡ true) × (is_plain value ≡ true)

abbrev pub in_lower_case : Field → Field
in_lower_case (name, value) = (lower name, lower value)

abbrev above : Bytes → Option (Bytes × Bytes) → Option (Bytes × Bytes)
above [] o = o
above (c ∷ l) o = under c (above l o)

above-some : (l x y : Bytes) → above l (some (x, y)) ≡ some (l ++ x, y)
above-some [] x y = refl
above-some (c ∷ l) x y = rw (above-some l x y)

-- Text without an end of line is not in the way.
abbrev pub no_cr : Bytes → Bool
no_cr = every λ c. not (nat_eq c 13)

no_cr-plain : (l : Bytes) → is_plain l ≡ true → no_cr l ≡ true
no_cr-plain [] h = refl
no_cr-plain (c ∷ l) h = ground (arith, no_cr-plain l)

no_cr-append : (l m : Bytes) → no_cr l ≡ true → no_cr m ≡ true → no_cr (l ++ m) ≡ true
no_cr-append [] m h g = g
no_cr-append (c ∷ l) m h g = ground (arith, no_cr-append l m)

no_cr-line : (f : Field) → IsField f → no_cr (line f) ≡ true
no_cr-line (n, v) h = no_cr-append n (b':' ∷ v) (no_cr-plain n h.1) (no_cr-plain v h.2)

find-skip :
    (l s : Bytes)
    → no_cr l ≡ true
    → find_text (crlf ++ crlf) (l ++ s) ≡ above l (find_text (crlf ++ crlf) s)
unfolding find_text starts_with
find-skip [] s h = refl
find-skip (c ∷ l) s h = ground (arith, find-skip l s)

find-next :
    (c : ℕ) (s : Bytes)
    → nat_eq c 13 ≡ false
    → find_text (crlf ++ crlf) (13 ∷ 10 ∷ c ∷ s)
      ≡ under 13 (under 10 (find_text (crlf ++ crlf) (c ∷ s)))
unfolding find_text starts_with
find-next c s h = ground arith

find-end : (s : Bytes) → find_text (crlf ++ crlf) (crlf ++ crlf ++ s) ≡ some ([], s)
unfolding find_text starts_with
find-end s = refl

-- The first empty line ends the head.
pub find-write_head :
    (l : Bytes) (fs : List Field) (s : Bytes)
    → no_cr l ≡ true
    → All IsField fs
    → (before : Bytes) × (find_text (crlf ++ crlf) (write_head l fs s) ≡ some (before, s))
      × (before ++ (crlf ++ crlf) ≡ write_head l fs [])
find-write_head l [] s h a = (
  l,
  find-skip l (crlf ++ crlf ++ s) h
      ∙ (ap (above l) (find-end s) ∙ (above-some l [] s ∙ ap (λ x. some (x, s)) (append-nil l))),
  refl,
)
find-write_head l (([], v) ∷ fs) s h a = absurd (ground (arith, a.0.0))
find-write_head l ((c ∷ n, v) ∷ fs) s h a =
    let next : Bytes = line (c ∷ n, v) in
    let (before, e, f) = find-write_head next fs s (no_cr-line (c ∷ n, v) a.0) a.1 in
    let same =
      find-next c ((n ++ b':' ∷ v) ++ (crlf ++ write_fields fs (crlf ++ s)))
        (ground (arith, a.0.1)) in
    (
      l ++ 13 ∷ 10 ∷ before,
      find-skip l (crlf ++ write_head next fs s) h
          ∙ (ap (above l) same
              ∙ (ap (λ o. above l (under 13 (under 10 o))) e ∙ above-some l (13 ∷ 10 ∷ before) s)),
      append_assoc l (13 ∷ 10 ∷ before) (crlf ++ crlf) ∙ ap (λ x. l ++ 13 ∷ 10 ∷ x) f,
    )

-- The lines of a head are the lines that were written, and two empty ones.
split_lines-line :
    (l s : Bytes) → no_cr l ≡ true → split_lines (l ++ (crlf ++ s)) ≡ l ∷ split_lines s
unfolding split_lines
split_lines-line [] s h = refl
split_lines-line (c ∷ []) s h = ground arith
split_lines-line (c ∷ d ∷ l) s h = ground (arith, split_lines-line (d ∷ l) s)

split_lines-write_fields :
    (fs : List Field)
    → All IsField fs
    → split_lines (write_fields fs crlf) ≡ map line fs ++ [] ∷ [] ∷ []
split_lines-write_fields [] a = unfold split_lines in refl
split_lines-write_fields (f ∷ fs) a =
    split_lines-line (line f) (write_fields fs crlf) (no_cr-line f a.0)
    ∙ ap (λ ls. line f ∷ ls) (split_lines-write_fields fs a.1)

-- A line is cut at its colon.
no_colon : Bytes → Bool
no_colon = every λ c. not (nat_eq c b':')

no_colon-lower : (l : Bytes) → is_plain l ≡ true → no_colon (lower l) ≡ true
unfolding no_colon lower
no_colon-lower [] h = refl
no_colon-lower (c ∷ l) h = ground (arith, no_colon-lower l)

lower-append : (l m : Bytes) → lower (l ++ m) ≡ lower l ++ lower m
unfolding lower
lower-append [] m = refl
lower-append (c ∷ l) m = ground (arith, lower-append l m)

split_colon-plain : (l : Bytes) → no_colon l ≡ true → split_colon l ≡ l ∷ []
unfolding no_colon split_colon
split_colon-plain [] h = refl
split_colon-plain (c ∷ l) h = ground (arith, split_colon-plain l)

split_colon-append :
    (l m : Bytes) → no_colon l ≡ true → split_colon (l ++ b':' ∷ m) ≡ l ∷ split_colon m
unfolding no_colon split_colon
split_colon-append [] m h = refl
split_colon-append (c ∷ l) m h = ground (arith, split_colon-append l m)

has_field-line : (f : Field) → IsField f → has_field (line f) ≡ true
unfolding has_field
has_field-line ([], v) h = absurd (ground (arith, h.0))
has_field-line (c ∷ n, v) h = ground (arith, any-append (nat_eq b':') n (b':' ∷ v), h.1)

split_colon-line :
    (n v : Bytes)
    → is_plain n ≡ true
    → is_plain v ≡ true
    → split_colon (lower (line (n, v))) ≡ lower n ∷ lower v ∷ []
unfolding lower
split_colon-line n v h g =
    ap split_colon (lower-append n (b':' ∷ v))
    ∙ (split_colon-append (lower n) (lower v) (no_colon-lower n h)
        ∙ ap (λ ls. lower n ∷ ls) (split_colon-plain (lower v) (no_colon-lower v g)))

fields-line :
    (f : Field) (ls : List Bytes) (fs : List Field)
    → IsField f
    → fields ls ≡ some fs
    → fields (line f ∷ ls) ≡ some (in_lower_case f ∷ fs)
unfolding fields
fields-line (n, v) ls fs h e =
    ground (arith, e, has_field-line (n, v) h, split_colon-line n v h.1 h.2)

fields-lines :
    (fs : List Field)
    → All IsField fs
    → fields (map line fs ++ [] ∷ [] ∷ []) ≡ some (map in_lower_case fs)
fields-lines [] a = unfold fields in refl
fields-lines (f ∷ fs) a = fields-line f _ _ a.0 (fields-lines fs a.1)

-- The content length that a head gives is that of its last field of this name.
pub content_length-write_head :
    {S : Type 0} (l : Bytes) (fs : List Field) (v : Bytes) (n : ℤ) (s : S)
    → no_cr l ≡ true
    → All IsField fs
    → value_of (bytes_of "content-length") (map in_lower_case fs) ≡ some v
    → int_value v ≡ some n
    → content_length (write_head l fs []) s ≡ ok n s
unfolding content_length
content_length-write_head l fs v n s h a e i =
    let lines =
      split_lines-line l (write_fields fs crlf) h
      ∙ ap (λ ls. l ∷ ls) (split_lines-write_fields fs a) in
    let found = fields-lines fs a in cc (lines, found, e, i)
