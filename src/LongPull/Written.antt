-- ===== src/LongPull/Written.antt =====
-- The parts that the agent writes to the stream of `long_pull`, and text that is put together.
use ros_bridge.Base.{
  ℕ, ◌≤◌, ◌<◌, ◌≡◌, refl, sym, ap, ◌∙◌, pos, true, false, List, [], ◌∷◌, ◌++◌, map, some, All,
  arith, append_assoc, length, M, ok, ◌>>◌,
}
use ros_bridge.LongPull.Defs.{Bytes, take, drop}
use ros_bridge.LongPull.Text.{crlf, bytes_of, starts_with, value_of, int_value, cut}
use ros_bridge.LongPull.Heads.{Field, write_head, write_fields, line, IsField, in_lower_case}
use ros_bridge.LongPull.Pull.{reaches}

-- A part: the fields of its head, and its body.
pub record Part : Type 0 where
  pub fields : List Field
  pub body : Bytes

-- The last field `content-length` gives the length of the body.
abbrev pub IsPart : Part → Type 0
IsPart p =
    All IsField p.fields
    × ((v : Bytes) × (value_of (bytes_of "content-length") (map in_lower_case p.fields) ≡ some v)
        × (int_value v ≡ some (pos (length p.body))))

abbrev pub write_parts : Bytes → List Part → Bytes → Bytes
write_parts boundary [] s = s
write_parts boundary (p ∷ ps) s = write_head boundary p.fields (p.body ++ write_parts boundary ps s)

abbrev pub body_of : Part → Bytes
body_of p = p.body

module _ {U : Type 0} (callback : Bytes → M U (Unit {0})) where
  -- The callback is called with these bodies, one after the other, unless it raises.
  abbrev pub each : List Bytes → M U (Unit {0})
  each [] u = ok tt u
  each (body ∷ more) u = (callback body >> each more) u

pub starts_with-append : (l s : Bytes) → starts_with l (l ++ s) ≡ true
unfolding starts_with
starts_with-append [] s = refl
starts_with-append (c ∷ l) s = ground (arith, starts_with-append l s)

write_fields-append :
    (fs : List Field) (s t : Bytes) → write_fields fs (s ++ t) ≡ write_fields fs s ++ t
write_fields-append [] s t = refl
write_fields-append (f ∷ fs) s t =
    ap (λ x. line f ++ (crlf ++ x)) (write_fields-append fs s t)
    ∙ sym (append_assoc (line f) (crlf ++ write_fields fs s) t)

pub write_head-append :
    (l : Bytes) (fs : List Field) (s t : Bytes) → write_head l fs (s ++ t) ≡ write_head l fs s ++ t
write_head-append l fs s t =
    ap (λ x. l ++ (crlf ++ x)) (write_fields-append fs (crlf ++ s) t)
    ∙ sym (append_assoc l (crlf ++ write_fields fs (crlf ++ s)) t)

pub drop-append : (s t : Bytes) → drop (length s) (s ++ t) ≡ t
drop-append [] t = refl
drop-append (c ∷ s) t = drop-append s t

pub take-append : (s t : Bytes) → take (length s) (s ++ t) ≡ s
take-append [] t = refl
take-append (c ∷ s) t = ap (λ x. c ∷ x) (take-append s t)

pub cut-append : (s t : Bytes) → cut (pos (length s)) (s ++ t) ≡ (s, t)
unfolding cut
cut-append s t = cc (take-append s t, drop-append s t)

pub reaches-short : (n : ℕ) (s : Bytes) → length s < n → reaches (pos n) s ≡ false
reaches-short n s h = ground arith

pub reaches-long : (n : ℕ) (s : Bytes) → n ≤ length s → reaches (pos n) s ≡ true
reaches-long n s h = ground arith
