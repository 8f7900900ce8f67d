-- ===== src/LongPull/Cuts.antt =====
-- The stream, and the pieces into which the network cuts it.
use ros_bridge.Base.{
  ℕ, zero, suc, ◌+◌, ◌-◌, ◌≤◌, ◌<◌, ◌≡◌, refl, ap, false, List, [], ◌∷◌, ◌++◌, arith, leb, length,
  some, ok, All, is_empty, append-nil, Bool-cases, inl, inr,
}
use ros_bridge.LongPull.Defs.{
  Bytes, LongPull, take, drop, read_rest, read_all, read_body, find_eol, hex_value, strip_extension,
}

abbrev pub joined : List Bytes → Bytes
joined [] = []
joined (p ∷ ps) = p ++ joined ps

-- The bytes that are still to be read.
abbrev pub stream : LongPull → Bytes
stream p = p.buffer ++ joined p.pieces

-- The connection is open as long as there are pieces.
abbrev pub IsOpen : Bytes → Type 0
IsOpen p = is_empty p ≡ false

module _ {A : Type 0} where
  pub length-append : (xs ys : List A) → length (xs ++ ys) ≡ length xs + length ys
  length-append [] ys = ground arith
  length-append (x ∷ xs) ys = ground (arith, length-append xs ys)

  pub take-append_ge :
      (n : ℕ) (xs ys : List A) → length xs ≤ n → take n (xs ++ ys) ≡ xs ++ take (n - length xs) ys
  take-append_ge n [] ys h = ground arith
  take-append_ge zero (x ∷ xs) ys h = absurd (omega arith)
  take-append_ge (suc n) (x ∷ xs) ys h = ground (arith, take-append_ge n xs ys)

  pub drop-append_ge :
      (n : ℕ) (xs ys : List A) → length xs ≤ n → drop n (xs ++ ys) ≡ drop (n - length xs) ys
  drop-append_ge n [] ys h = ground arith
  drop-append_ge zero (x ∷ xs) ys h = absurd (omega arith)
  drop-append_ge (suc n) (x ∷ xs) ys h = ground (arith, drop-append_ge n xs ys)

  pub take-append_le : (n : ℕ) (xs ys : List A) → n ≤ length xs → take n (xs ++ ys) ≡ take n xs
  take-append_le zero xs ys h = refl
  take-append_le (suc n) [] ys h = absurd (omega arith)
  take-append_le (suc n) (x ∷ xs) ys h = ground (arith, take-append_le n xs ys)

  pub drop-append_le :
      (n : ℕ) (xs ys : List A) → n ≤ length xs → drop n (xs ++ ys) ≡ drop n xs ++ ys
  drop-append_le zero xs ys h = refl
  drop-append_le (suc n) [] ys h = absurd (omega arith)
  drop-append_le (suc n) (x ∷ xs) ys h = ground (arith, drop-append_le n xs ys)

  take-take : (m n : ℕ) (xs : List A) → m ≤ n → take m (take n xs) ≡ take m xs
  take-take zero n xs h = refl
  take-take (suc m) zero xs h = absurd (omega arith)
  take-take (suc m) (suc n) [] h = refl
  take-take (suc m) (suc n) (x ∷ xs) h = ground (arith, take-take m n xs)

  drop-take : (n : ℕ) (xs : List A) → drop n (take n xs) ≡ []
  drop-take zero xs = refl
  drop-take (suc n) [] = refl
  drop-take (suc n) (x ∷ xs) = drop-take n xs

pub length-drop : {A : Type 0} (n : ℕ) (xs : List A) → length (drop n xs) ≡ length xs - n
length-drop zero xs = ground arith
length-drop (suc n) [] = ground arith
length-drop (suc n) (x ∷ xs) = ground (arith, length-drop n xs)

pub take-drop : (n : ℕ) (s : Bytes) → take n s ++ drop n s ≡ s
take-drop zero s = refl
take-drop (suc n) [] = refl
take-drop (suc n) (c ∷ s) = ap (λ x. c ∷ x) (take-drop n s)

pub length-take : (n : ℕ) (s : Bytes) → n ≤ length s → length (take n s) ≡ n
length-take zero s h = refl
length-take (suc n) [] h = absurd (omega arith)
length-take (suc n) (c ∷ s) h = ap suc (length-take n s (omega arith))

pub length_pos : (s : Bytes) → is_empty s ≡ false → 0 < length s
length_pos [] h = absurd (ground (arith, h))
length_pos (c ∷ s) h = omega arith

-- The bytes that are asked for are read, if they come, and the others stay.
read_rest-joined :
    (amt : ℕ) (ps : List Bytes)
    → All IsOpen ps
    → amt ≤ length (joined ps)
    → (qs : List Bytes) × (read_rest amt ps ≡ (some (take amt (joined ps)), qs))
      × (joined qs ≡ drop amt (joined ps))
unfolding read_rest
read_rest-joined zero ps o h = (ps, refl, refl)
read_rest-joined (suc m) [] o h = absurd (omega arith)
read_rest-joined (suc m) ([] ∷ ps) o h = absurd (ground (arith, o.0))
read_rest-joined (suc m) ((b ∷ p) ∷ ps) o h = elim (Bool-cases (leb (length p) m)) [
  | inl l ↦
      let (qs, e, f) =
        read_rest-joined (m - length p) ps o.1 (ground (arith, length-append p (joined ps))) in
      (
        qs,
        ground (arith, e, take-append_ge m p (joined ps)),
        ground (arith, f, drop-append_ge m p (joined ps)),
      )
  | inr l ↦ (
    drop (suc m) (b ∷ p) ∷ ps,
    ground (arith, take-append_le m p (joined ps)),
    ground (arith, drop-append_le m p (joined ps)),
  )
]

read_rest-zero : (ps : List Bytes) → read_rest 0 ps ≡ (some [], ps)
unfolding read_rest
read_rest-zero ps = refl

read_all-stream :
    (size : ℕ) (p : LongPull)
    → All IsOpen p.pieces
    → size ≤ length (stream p)
    → (chunk : Bytes) × (qs : List Bytes) × (read_all size p ≡ ok chunk (record p { pieces = qs }))
      × (take size chunk ≡ take size (stream p))
      × (drop size chunk ++ joined qs ≡ drop size (stream p))
unfolding read_all
read_all-stream size p o h = elim (Bool-cases (leb (length p.buffer) size)) [
  | inl l ↦
      let amt = size - length p.buffer in
      let bytes = joined p.pieces in
      let (qs, e, f) =
        read_rest-joined amt p.pieces o (ground (arith, length-append p.buffer bytes)) in
      (
        p.buffer ++ take amt bytes,
        qs,
        ground (arith, e),
        ground (
          arith,
          take-append_ge size p.buffer (take amt bytes),
          take-append_ge size p.buffer bytes,
          take-take amt amt bytes,
        ),
        ground (
          arith,
          drop-append_ge size p.buffer (take amt bytes),
          drop-append_ge size p.buffer bytes,
          drop-take amt bytes,
          f,
        ),
      )
  | inr l ↦ (
    p.buffer,
    p.pieces,
    ground (arith, read_rest-zero p.pieces, append-nil p.buffer),
    ground (arith, take-append_le size p.buffer (joined p.pieces)),
    ground (arith, drop-append_le size p.buffer (joined p.pieces)),
  )
]

-- A chunk whose line of size is in the buffer, and whose bytes come from an open connection, is read
-- from the stream, of the announced size, and the stream goes on after its two closing bytes: how
-- the network cuts the bytes into pieces makes no difference.
pub read_body-stream :
    (p : LongPull) (line rest : Bytes) (n : ℕ)
    → find_eol p.buffer ≡ some (line, rest)
    → hex_value (strip_extension line) ≡ some n
    → All IsOpen p.pieces
    → n + 2 ≤ length (rest ++ joined p.pieces)
    → (q : LongPull) × (read_body p ≡ ok (take n (rest ++ joined p.pieces)) q)
      × (stream q ≡ drop (n + 2) (rest ++ joined p.pieces))
unfolding read_body
read_body-stream p line rest n e f o h =
    let (chunk, qs, g, t, d) = read_all-stream (n + 2) (record p { buffer = rest }) o h in
    (
      record { buffer = drop (n + 2) chunk; pieces = qs },
      ground (
        arith,
        e,
        f,
        g,
        t,
        take-take n (n + 2) chunk,
        take-take n (n + 2) (rest ++ joined p.pieces),
      ),
      d,
    )
