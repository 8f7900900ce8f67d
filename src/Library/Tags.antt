-- ===== src/Library/Tags.antt =====
-- `split_event` of bridge_library.py: from the tag of an element to the name of its data item.
use Prim.Native.Char.{Char, code}
use Prim.Native.String as Text
use ros_bridge.Base.{
  ◌-◌, String, Bool, false, not, ◌&&◌, ◌||◌, List, [], ◌∷◌, map, if◌then◌else◌, leb, Option, none,
  some,
}
use ros_bridge.DataItem.Values.{◌+++◌}

unfoldable pub is_upper : Char → Bool
is_upper c = leb b'A' (code c) && leb (code c) b'Z'

unfoldable pub is_lower : Char → Bool
is_lower c = leb b'a' (code c) && leb (code c) b'z'

-- A capital and the small letter of it.
unfoldable pub lower_char : Char → Char
lower_char c = if is_upper c then Text.char_at "abcdefghijklmnopqrstuvwxyz" (code c - b'A') else c

-- `s.lower()`.
unfoldable pub lower : String → String
lower Text.[] = Text.[]
lower (Text.◌∷◌ c s) = Text.◌∷◌ (lower_char c) (lower s)

-- A small letter and the capital of it.
unfoldable pub upper_char : Char → Char
upper_char c = if is_lower c then Text.char_at "ABCDEFGHIJKLMNOPQRSTUVWXYZ" (code c - b'a') else c

-- `s.upper()`.
unfoldable pub upper : String → String
upper Text.[] = Text.[]
upper (Text.◌∷◌ c s) = Text.◌∷◌ (upper_char c) (upper s)

unfoldable pub any_char : (Char → Bool) → String → Bool
any_char p Text.[] = false
any_char p (Text.◌∷◌ c s) = p c || any_char p s

-- `s.islower()`.
unfoldable pub islower : String → Bool
islower s = any_char is_lower s && not (any_char is_upper s)

-- The small letters that a text starts with, and the tokens after them.
unfoldable pub scan_tokens : String → String × List String
scan_tokens Text.[] = (Text.[], [])
scan_tokens (Text.◌∷◌ c s) =
    let rest = scan_tokens s in
    if is_upper c
    then (Text.[], Text.◌∷◌ c rest.0 ∷ rest.1)
    else if is_lower c
    then (Text.◌∷◌ c rest.0, rest.1)
    else (Text.[], rest.1)

-- `re.findall(r'([A-Z][a-z]*)', s)`: each capital with the small letters after it.
unfoldable pub find_tokens : String → List String
find_tokens s = (scan_tokens s).1

abbrev join_two : List String → Option String
join_two [] = none
join_two (s ∷ []) = none
join_two (s ∷ t ∷ r) = some (s +++ "_" +++ t)

-- `none` stands for the IndexError of a tag with fewer than two words.
unfoldable pub split_event : String → Option String
unfolding find_tokens scan_tokens lower lower_char is_upper is_lower
split_event tag = join_two (map lower (find_tokens tag))
