-- ===== src/LongPull/Defs.antt =====
-- `_read_all` and `_read_chunk` of `LongPull`. Text is a list of bytes. The socket is the list of the
-- pieces in which the bytes come; an empty piece, or none, is a connection that has been closed.
use ros_bridge.Base.{
  ℕ, zero, suc, ◌+◌, ◌-◌, ◌*◌, ◌&&◌, List, [], ◌∷◌, ◌++◌, if◌then◌else◌, nat_eq, leb, ltb, length,
  Option, none, some, M, Outcome, ok, err, ◌>>◌, long_pull_error, not_connected, incomplete_read,
  type_error,
}

abbrev pub Bytes : Type 0
Bytes = List ℕ

module _ {A : Type 0} where
  abbrev pub take : ℕ → List A → List A
  take zero xs = []
  take (suc n) [] = []
  take (suc n) (x ∷ xs) = x ∷ take n xs

  abbrev pub drop : ℕ → List A → List A
  drop zero xs = xs
  drop (suc n) [] = []
  drop (suc n) (x ∷ xs) = drop n xs

pub record LongPull : Type 0 where
  pub buffer : Bytes
  pub pieces : List Bytes

-- `recv(amt)`: as much of the next piece as is asked for.
unfoldable pub recv : ℕ → List Bytes → Bytes × List Bytes
recv amt [] = ([], [])
recv amt (p ∷ ps) = if leb (length p) amt then (p, ps) else (take amt p, drop amt p ∷ ps)

abbrev prepend : Bytes → Option Bytes × List Bytes → Option Bytes × List Bytes
prepend p (none, ps) = (none, ps)
prepend p (some bs, ps) = (some (p ++ bs), ps)

-- The loop of `_read_all`, for a number of bytes; `none` is a LongPullException.
unfoldable pub read_rest : ℕ → List Bytes → Option Bytes × List Bytes
read_rest zero ps = (some [], ps)
read_rest (suc m) [] = (none, [])
read_rest (suc m) ([] ∷ ps) = (none, ps)
read_rest (suc m) ((b ∷ p) ∷ ps) =
    let more = prepend (b ∷ p) (read_rest (m - length p) ps) in
    if leb (length p) m then more else (some (take (suc m) (b ∷ p)), drop (suc m) (b ∷ p) ∷ ps)

abbrev all_of : LongPull → Option Bytes × List Bytes → Outcome LongPull Bytes
all_of p (none, ps) = err long_pull_error (record p { pieces = ps })
all_of p (some bs, ps) = ok (p.buffer ++ bs) (record p { pieces = ps })

unfoldable pub read_all : ℕ → M LongPull Bytes
unfolding read_rest
read_all size p = all_of p (read_rest (size - length p.buffer) p.pieces)

abbrev pub under : ℕ → Option (Bytes × Bytes) → Option (Bytes × Bytes)
under c none = none
under c (some (line, rest)) = some (c ∷ line, rest)

-- The line before the first `\r\n` and what comes after that.
unfoldable pub find_eol : Bytes → Option (Bytes × Bytes)
find_eol [] = none
find_eol (c ∷ []) = none
find_eol (c ∷ d ∷ s) =
    let later = under c (find_eol (d ∷ s)) in
    if nat_eq c 13 && nat_eq d 10 then some ([], s) else later

-- `line[:i]` for the first `;`.
unfoldable pub strip_extension : Bytes → Bytes
strip_extension [] = []
strip_extension (c ∷ s) = let rest = c ∷ strip_extension s in if nat_eq c b';' then [] else rest

abbrev hex_digit : ℕ → Option ℕ
hex_digit c =
    if leb b'0' c && leb c b'9'
    then some (c - b'0')
    else if leb b'a' c && leb c b'f'
    then some (c - b'a' + 10)
    else if leb b'A' c && leb c b'F'
    then some (c - b'A' + 10)
    else none

abbrev hex_from : ℕ → Bytes → Option ℕ
hex_from n [] = some n
hex_from n (c ∷ s) = elim (hex_digit c) [ none ↦ none | some d ↦ hex_from (n * 16 + d) s ]

-- `int(line, 16)` for digits; the blanks, the sign and the `0x` that Python takes too are left out.
unfoldable pub hex_value : Bytes → Option ℕ
hex_value [] = none
hex_value (c ∷ s) = hex_from 0 (c ∷ s)

-- The buffer gets 32 more bytes, if it has fewer than 32.
unfoldable pub fill_buffer : M LongPull (Unit {0})
unfolding recv
fill_buffer p =
    let (text, ps) = recv 32 p.pieces in
    let filled : Outcome LongPull (Unit {0}) = elim text [
      | [] ↦ err not_connected (record p { pieces = ps })
      | c ∷ s ↦ ok tt (record { buffer = p.buffer ++ c ∷ s; pieces = ps })
    ] in
    if ltb (length p.buffer) 32 then filled else ok tt p

abbrev cut_chunk : ℕ → Outcome LongPull Bytes → Outcome LongPull Bytes
cut_chunk n (ok chunk p) = ok (take n chunk) (record p { buffer = drop (n + 2) chunk })
cut_chunk n (err e p) = err e p

-- What follows the line with the size. Without a line the size is None, and `_read_all` raises
-- TypeError.
unfoldable pub read_body : M LongPull Bytes
unfolding read_all find_eol strip_extension hex_value
read_body p = elim (find_eol p.buffer) [
  | none ↦ err type_error p
  | some (line, rest) ↦ elim (hex_value (strip_extension line)) [
    | none ↦ err incomplete_read p
    | some n ↦ cut_chunk n (read_all (n + 2) (record p { buffer = rest }))
  ]
]

-- `_read_chunk`.
unfoldable pub read_chunk : M LongPull Bytes
unfolding fill_buffer read_body
read_chunk = fill_buffer >> read_body
