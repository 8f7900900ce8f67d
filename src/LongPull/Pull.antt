-- ===== src/LongPull/Pull.antt =====
-- `long_pull` of long_pull.py: the parts of a multipart stream, each a head and a body, are handed to
-- a callback. The scanner, the callback and the state it changes are parameters.
use ros_bridge.Base.{
  ℕ, zero, suc, ◌+◌, ◌*◌, ℤ, pos, negsuc, Bool, true, false, List, [], ◌∷◌, ◌++◌, Option, none,
  some, leb, length, M, Outcome, ok, err, ◌>>◌, long_pull_error, attribute_error, key_error,
  value_error, type_error,
}
use ros_bridge.LongPull.Defs.{Bytes}
use ros_bridge.LongPull.Text.{crlf, bytes_of, split_lines, fields, value_of, int_value, cut}
use ros_bridge.LongPull.Scanner.{Scanner}

-- The variables of `long_pull`, and the state that the callback changes. `wanted` is the variable
-- `length`.
pub record Pull (D U : Type 0) : Type 0 where
  pub document : D
  pub header : Bool
  pub wanted : ℤ
  pub user : U

abbrev pub tail : List Bytes → List Bytes
tail [] = []
tail (l ∷ ls) = ls

-- The content length that a head gives. Building the message for a value that is no number raises
-- TypeError, since it adds a list to a text.
unfoldable pub content_length : {S : Type 0} → Bytes → M S ℤ
unfolding split_lines fields value_of int_value
content_length head s = elim (fields (tail (split_lines head))) [
  | none ↦ err value_error s
  | some values ↦ elim (value_of (bytes_of "content-length") values) [
    | none ↦ err key_error s
    | some text ↦ elim (int_value text) [ none ↦ err type_error s | some n ↦ ok n s ]
  ]
]

-- `rest_len() >= length`.
abbrev pub reaches : ℤ → Bytes → Bool
reaches (pos n) s = leb n (length s)
reaches (negsuc n) s = true

module _ {D U : Type 0} (sc : Scanner D) (callback : Bytes → M U (Unit {0}))
    (boundary : Bytes) where
  abbrev pub start_of_part : ℤ
  start_of_part = pos (length boundary)

  abbrev pub after_head : Pull D U → Outcome (Pull D U) ℤ → Outcome (Pull D U) (Unit {0})
  after_head p (ok n q) = ok tt (record q { header = false; wanted = n })
  after_head p (err e q) = err e (record q { header = false })

  abbrev pub scanned : Pull D U → Option Bytes × D → Outcome (Pull D U) (Unit {0})
  scanned p (none, d) = err attribute_error (record p { document = d })
  scanned p (some head, d) = after_head p (content_length head (record p { document = d }))

  abbrev pub checked : Pull D U → Option Bytes × D → Outcome (Pull D U) (Unit {0})
  checked p (none, d) = err long_pull_error (record p { document = d })
  checked p (some [], d) = err long_pull_error (record p { document = d })
  checked p (some (c ∷ s), d) = scanned (record p { document = d }) (sc.scan_until (crlf ++ crlf) d)

  -- The head of a part: the boundary, and the fields up to the empty line.
  unfoldable pub read_head : M (Pull D U) (Unit {0})
  unfolding content_length
  read_head p = checked p (sc.check boundary p.document)

  abbrev pub called : Pull D U → Outcome U (Unit {0}) → Outcome (Pull D U) (Unit {0})
  called p (ok _ u) = ok tt (record p { user = u; wanted = start_of_part; header = true })
  called p (err e u) = err e (record p { user = u })

  -- The body of a part goes to the callback, and the string is what comes after it.
  unfoldable pub read_part : M (Pull D U) (Unit {0})
  unfolding cut
  read_part p =
      let (body, more) = cut p.wanted (sc.rest p.document) in
      called (record p { document = sc.set_string more (sc.reset p.document) })
        (callback body p.user)

  unfoldable pub read_step : M (Pull D U) (Unit {0})
  unfolding read_head read_part
  read_step p = elim p.header [ true ↦ read_head p | false ↦ read_part p ]

  -- The inner loop, on fuel.
  unfoldable pub read_parts : ℕ → M (Pull D U) (Unit {0})
  unfolding read_step
  read_parts zero p = ok tt p
  read_parts (suc fuel) p = elim (reaches p.wanted (sc.rest p.document)) [
    | true ↦ (read_step >> read_parts fuel) p
    | false ↦ ok tt p
  ]

  abbrev pub enough : Pull D U → ℕ
  enough p = 2 * length (sc.rest p.document) + 2

  -- What is done with a chunk.
  unfoldable pub take_chunk : Bytes → M (Pull D U) (Unit {0})
  unfolding read_parts
  take_chunk chunk p =
      let d = sc.set_string (sc.string p.document ++ chunk) p.document in
      let q : Pull D U = record p { document = d } in read_parts (enough q) q
