-- ===== src/LongPull/Chunks.antt =====
-- Chunks as the agent writes them: the line with the size, the text, and two closing bytes.
use ros_bridge.Base.{
  ℕ, zero, suc, ◌+◌, ◌-◌, ◌≤◌, ◌≡◌, refl, sym, ap, ◌∙◌, true, false, List, [], ◌∷◌, ◌++◌, some, All,
  arith, append_assoc, length, leb, ok, ◌>>◌, is_empty, ◌<◌, Bool-cases, inl, inr,
}
use ros_bridge.LongPull.Defs.{
  Bytes, take, drop, read_rest, read_all, read_body, read_chunk, fill_buffer, recv, find_eol,
  hex_value, strip_extension,
}
use ros_bridge.LongPull.Cuts.{
  joined, IsOpen, length-append, take-append_ge, drop-append_ge, length-drop, take-drop,
}
use ros_bridge.LongPull.Text.{crlf}
use ros_bridge.LongPull.Heads.{no_cr}
use ros_bridge.LongPull.Written.{take-append}

find_eol-line : (l s : Bytes) → no_cr l ≡ true → find_eol (l ++ (crlf ++ s)) ≡ some (l, s)
unfolding find_eol
find_eol-line [] s h = refl
find_eol-line (c ∷ []) s h = ground arith
find_eol-line (c ∷ d ∷ l) s h = ground (arith, find_eol-line (d ∷ l) s)

-- Pieces that are asked for in full are read, and no other.
read_rest-append :
    (ps qs : List Bytes)
    → All IsOpen ps
    → read_rest (length (joined ps)) (ps ++ qs) ≡ (some (joined ps), qs)
unfolding read_rest
read_rest-append [] qs o = refl
read_rest-append ([] ∷ ps) qs o = absurd (ground (arith, o.0))
read_rest-append ((b ∷ p) ∷ ps) qs o =
    let amount : length (p ++ joined ps) - length p ≡ length (joined ps) =
      omega (arith, length-append p (joined ps)) in
    let more = ap (λ k. read_rest k (ps ++ qs)) amount ∙ read_rest-append ps qs o.1 in
    ground (arith, more, length-append p (joined ps))

read_all-append :
    (r : Bytes) (size : ℕ) (ps qs : List Bytes)
    → All IsOpen ps
    → length (r ++ joined ps) ≡ size
    → read_all size (record { buffer = r; pieces = ps ++ qs })
      ≡ ok (r ++ joined ps) (record { buffer = r; pieces = qs })
unfolding read_all
read_all-append r size ps qs o e =
    let amount : size - length r ≡ length (joined ps) =
      omega (arith, e, length-append r (joined ps)) in
    let more = ap (λ k. read_rest k (ps ++ qs)) amount ∙ read_rest-append ps qs o in cc (more)

drop_closing : (s : Bytes) → drop (length s + 2) (s ++ crlf) ≡ []
drop_closing [] = refl
drop_closing (c ∷ s) = ground (arith, drop_closing s)

-- The text of a chunk is read up to its closing bytes, if its line is in the buffer.
read_body-line :
    (line text r : Bytes) (ps qs : List Bytes)
    → no_cr line ≡ true
    → hex_value (strip_extension line) ≡ some (length text)
    → All IsOpen ps
    → r ++ joined ps ≡ text ++ crlf
    → read_body (record { buffer = line ++ (crlf ++ r); pieces = ps ++ qs })
      ≡ ok text (record { buffer = []; pieces = qs })
unfolding read_body read_all
read_body-line line text r ps qs c h o e =
    let size = length text + 2 in
    let long : length (r ++ joined ps) ≡ size =
      omega (arith, ap length e, length-append text crlf) in
    let all = read_all-append r size ps qs o long in
    let closing = drop_closing text in
    cc (find_eol-line line r c, h, all, e, take-append text crlf, closing)

not_empty : (l s : Bytes) → is_empty (l ++ (crlf ++ s)) ≡ false
not_empty [] s = refl
not_empty (c ∷ l) s = refl

is_open : (s : Bytes) → 0 < length s → is_empty s ≡ false
is_open [] h = absurd (omega arith)
is_open (c ∷ s) h = refl

take-crlf : (m : ℕ) (s : Bytes) → 2 ≤ m → take m (crlf ++ s) ≡ crlf ++ take (m - 2) s
take-crlf zero s h = absurd (omega arith)
take-crlf (suc zero) s h = absurd (omega arith)
take-crlf (suc (suc m)) s h = ground arith

drop-crlf : (m : ℕ) (s : Bytes) → 2 ≤ m → drop m (crlf ++ s) ≡ drop (m - 2) s
drop-crlf zero s h = absurd (omega arith)
drop-crlf (suc zero) s h = absurd (omega arith)
drop-crlf (suc (suc m)) s h = ground arith

take-line :
    (m : ℕ) (l s : Bytes)
    → length l + 2 ≤ m
    → take m (l ++ (crlf ++ s)) ≡ l ++ (crlf ++ take (m - length l - 2) s)
take-line m l s h =
    take-append_ge m l (crlf ++ s) (omega arith)
    ∙ ap (λ x. l ++ x) (take-crlf (m - length l) s (omega arith))

drop-line :
    (m : ℕ) (l s : Bytes) → length l + 2 ≤ m → drop m (l ++ (crlf ++ s)) ≡ drop (m - length l - 2) s
drop-line m l s h =
    drop-append_ge m l (crlf ++ s) (omega arith) ∙ drop-crlf (m - length l) s (omega arith)

fill_short :
    (p : Bytes) (ps : List Bytes)
    → is_empty p ≡ false
    → length p ≤ 32
    → fill_buffer (record { buffer = []; pieces = p ∷ ps })
      ≡ ok tt (record { buffer = p; pieces = ps })
unfolding fill_buffer recv
fill_short [] ps h l = absurd (ground (arith, h))
fill_short (c ∷ p) ps h l = ground arith

fill_long :
    (p : Bytes) (ps : List Bytes)
    → 32 < length p
    → fill_buffer (record { buffer = []; pieces = p ∷ ps })
      ≡ ok tt (record { buffer = take 32 p; pieces = drop 32 p ∷ ps })
unfolding fill_buffer recv
fill_long [] ps l = absurd (omega arith)
fill_long (c ∷ p) ps l = ground arith

-- A chunk whose line comes in one piece, in at most 32 bytes, is read from an empty buffer, however
-- its text is cut, and nothing after it is touched.
pub read_chunk-written :
    (line text first : Bytes) (ps qs : List Bytes)
    → no_cr line ≡ true
    → hex_value (strip_extension line) ≡ some (length text)
    → length line + 2 ≤ 32
    → All IsOpen ps
    → first ++ joined ps ≡ text ++ crlf
    → read_chunk (record { buffer = []; pieces = (line ++ (crlf ++ first)) ∷ (ps ++ qs) })
      ≡ ok text (record { buffer = []; pieces = qs })
unfolding read_chunk
read_chunk-written line text first ps qs c h l o e =
    let piece : Bytes = line ++ (crlf ++ first) in
    let long = length-append line (crlf ++ first) in
    elim (Bool-cases (leb (length piece) 32)) [
      | inl s ↦
          ap (λ r. ((λ _. r) >> read_body) (record { buffer = []; pieces = [] }))
            (fill_short piece (ps ++ qs) (not_empty line first) (ground (arith, s)))
          ∙ read_body-line line text first ps qs c h o e
      | inr s ↦
          let over : 32 < length piece = ground (arith, s) in
          let k = 32 - length line - 2 in
          let rest = drop k first in
          let t : take 32 piece ≡ line ++ (crlf ++ take k first) = take-line 32 line first l in
          let d : drop 32 piece ≡ rest = drop-line 32 line first l in
          let whole =
            sym (append_assoc (take k first) rest (joined ps))
            ∙ (ap (λ x. x ++ joined ps) (take-drop k first) ∙ e) in
          ap (λ r. ((λ _. r) >> read_body) (record { buffer = []; pieces = [] }))
            (fill_long piece (ps ++ qs) (ground (arith, s)))
          ∙ (cc (t, d)
              ∙ read_body-line line text (take k first) (rest ∷ ps) qs c h
                  (is_open rest (omega (arith, over, long, length-drop k first)), o) whole)
    ]
