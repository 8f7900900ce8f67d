-- ===== src/LongPull/Text.antt =====
-- What `long_pull` of long_pull.py asks of Python's strings: the boundary in the content type, the
-- lines of a head, their fields, and the number that a field holds.
use ros_bridge.Base.{
  ℕ, zero, suc, ◌+◌, ◌-◌, ◌*◌, ℤ, pos, negsuc, String, Bool, true, false, not, ◌&&◌, ◌||◌, List, [],
  ◌∷◌, Option, none, some, if◌then◌else◌, nat_eq, leb, length, any, every, is_empty,
}
use ros_bridge.LongPull.Defs.{Bytes, take, drop, under}
use Prim.Native.Char.{code}

abbrev pub bytes_of : String → Bytes
bytes_of String.[] = []
bytes_of (String.◌∷◌ c s) = code c ∷ bytes_of s

abbrev pub crlf : Bytes
crlf = 13 ∷ 10 ∷ []

unfoldable pub starts_with : Bytes → Bytes → Bool
starts_with [] s = true
starts_with (c ∷ p) [] = false
starts_with (c ∷ p) (d ∷ s) = nat_eq c d && starts_with p s

-- The text before the first place of a text, which is not empty, and what comes after that place.
unfoldable pub find_text : Bytes → Bytes → Option (Bytes × Bytes)
unfolding starts_with
find_text p [] = none
find_text p (c ∷ s) =
    let later = under c (find_text p s) in
    if starts_with p (c ∷ s) then some ([], drop (length p) (c ∷ s)) else later

abbrev pub grow : ℕ → List Bytes → List Bytes
grow c [] = (c ∷ []) ∷ []
grow c (l ∷ ls) = (c ∷ l) ∷ ls

-- `split('\r\n')`.
unfoldable pub split_lines : Bytes → List Bytes
split_lines [] = [] ∷ []
split_lines (c ∷ []) = (c ∷ []) ∷ []
split_lines (c ∷ d ∷ s) = elim (nat_eq c 13 && nat_eq d 10) [
  | true ↦ [] ∷ split_lines s
  | false ↦ grow c (split_lines (d ∷ s))
]

-- `split(':')`.
unfoldable pub split_colon : Bytes → List Bytes
split_colon [] = [] ∷ []
split_colon (c ∷ s) =
    let later = split_colon s in if nat_eq c b':' then [] ∷ later else grow c later

-- `lower()`.
unfoldable pub lower : Bytes → Bytes
lower [] = []
lower (c ∷ s) = (if leb b'A' c && leb c b'Z' then c + 32 else c) ∷ lower s

-- `v.find(':') > 0`.
unfoldable pub has_field : Bytes → Bool
has_field [] = false
has_field (c ∷ s) = not (nat_eq c b':') && any (nat_eq b':') s

abbrev pair_of : List Bytes → Option (Bytes × Bytes)
pair_of (k ∷ v ∷ []) = some (k, v)
pair_of _ = none

abbrev with_field :
    Option (Bytes × Bytes) → Option (List (Bytes × Bytes)) → Option (List (Bytes × Bytes))
with_field (some f) (some fs) = some (f ∷ fs)
with_field _ _ = none

-- The fields from which `values` is made; `none` is the ValueError of a field that is not a pair.
unfoldable pub fields : List Bytes → Option (List (Bytes × Bytes))
unfolding split_colon lower has_field
fields [] = some []
fields (v ∷ vs) =
    let rest = fields vs in
    if has_field v then with_field (pair_of (split_colon (lower v))) rest else rest

unfoldable pub same_text : Bytes → Bytes → Bool
same_text [] [] = true
same_text (c ∷ s) (d ∷ t) = nat_eq c d && same_text s t
same_text _ _ = false

abbrev or_else : Option Bytes → Option Bytes → Option Bytes
or_else (some v) w = some v
or_else none w = w

-- `values[key]`: the last field of that name.
unfoldable pub value_of : Bytes → List (Bytes × Bytes) → Option Bytes
unfolding same_text
value_of key [] = none
value_of key ((k, v) ∷ fs) = or_else (value_of key fs) (if same_text k key then some v else none)

abbrev is_blank : ℕ → Bool
is_blank c = nat_eq c 32 || leb 9 c && leb c 13

abbrev is_digit : ℕ → Bool
is_digit c = leb b'0' c && leb c b'9'

abbrev skip_blanks : Bytes → Bytes
skip_blanks [] = []
skip_blanks (c ∷ s) = let rest = skip_blanks s in if is_blank c then rest else c ∷ s

abbrev digits_from : ℕ → Bytes → Option ℕ
digits_from n [] = some n
digits_from n (c ∷ s) =
    let more = digits_from (n * 10 + (c - b'0')) s in
    if is_digit c then more else if every is_blank (c ∷ s) then some n else none

abbrev number : Bytes → Option ℕ
number [] = none
number (c ∷ s) = if is_digit c then digits_from 0 (c ∷ s) else none

abbrev negative : Option ℕ → Option ℤ
negative none = none
negative (some zero) = some (pos 0)
negative (some (suc n)) = some (negsuc n)

abbrev positive : Option ℕ → Option ℤ
positive none = none
positive (some n) = some (pos n)

abbrev signed : Bytes → Option ℤ
signed [] = none
signed (c ∷ s) =
    if nat_eq c b'-'
    then negative (number s)
    else if nat_eq c b'+'
    then positive (number s)
    else positive (number (c ∷ s))

-- `int(text)`; `none` is a ValueError.
unfoldable pub int_value : Bytes → Option ℤ
int_value s = signed (skip_blanks s)

abbrev is_hex : ℕ → Bool
is_hex c = is_digit c || leb b'A' c && leb c b'F' || leb b'a' c && leb c b'f'

abbrev pub hex_run : Bytes → Bytes
hex_run [] = []
hex_run (c ∷ s) = let rest = c ∷ hex_run s in if is_hex c then rest else []

-- `re.search('boundary=([0-9A-Fa-f]+)', content_type)`, and its group.
unfoldable pub find_boundary : Bytes → Option Bytes
unfolding starts_with
find_boundary [] = none
find_boundary (c ∷ s) =
    let later = find_boundary s in
    let digits = hex_run (drop 9 (c ∷ s)) in
    if starts_with (bytes_of "boundary=") (c ∷ s) && not (is_empty digits)
    then some digits
    else later

-- `text[:n]` and `text[n:]`; a negative `n` counts from the end.
unfoldable pub cut : ℤ → Bytes → Bytes × Bytes
cut (pos n) s = (take n s, drop n s)
cut (negsuc n) s = let m = length s - suc n in (take m s, drop m s)
