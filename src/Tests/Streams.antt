-- ===== src/Tests/Streams.antt =====
-- Examples for the stream of the agent, the topics of a subscriber and the connections of an adapter.
use ros_bridge.Base.{◌+◌, ◌≤◌, ◌≡◌, refl, true, [], ◌∷◌, arith, some, none, ok, after, length}
use ros_bridge.Base.Dict.{lookup}
use ros_bridge.Adapter.Connections.{finish_request, Spares, is_ok, finish_request-Spares}
use ros_bridge.LongPull.Defs.{LongPull, take, drop, find_eol, hex_value, strip_extension, read_body}
use ros_bridge.LongPull.Cuts.{joined, stream, read_body-stream}
use ros_bridge.Tests.Data.{nat_number, flag_sockets, two_events}

-- The chunk `abc`, and the first byte of the next one.
abbrev abc : LongPull
abc = record {
  buffer = b'3' ∷ 13 ∷ 10 ∷ b'a' ∷ [];
  pieces = (b'b' ∷ []) ∷ (b'c' ∷ 13 ∷ []) ∷ (10 ∷ b'5' ∷ []) ∷ [];
}

abc-find_eol : find_eol abc.buffer ≡ some (b'3' ∷ [], b'a' ∷ [])
unfolding find_eol
abc-find_eol = refl

abc-hex_value : hex_value (strip_extension (b'3' ∷ [])) ≡ some 3
unfolding hex_value strip_extension
abc-hex_value = refl

abc-length : 3 + 2 ≤ length (b'a' ∷ joined abc.pieces)
abc-length = omega arith

read_body-stream_example :
    (q : LongPull) × (read_body abc ≡ ok (take 3 (b'a' ∷ joined abc.pieces)) q)
    × (stream q ≡ drop 5 (b'a' ∷ joined abc.pieces))
read_body-stream_example =
    read_body-stream abc (b'3' ∷ []) (b'a' ∷ []) 3 abc-find_eol abc-hex_value
      (refl, (refl, (refl, tt))) abc-length

finish_request-Spares_example :
    let o = finish_request "t" "10000" "c" true ("* PING" ∷ "bye" ∷ []) two_events.adapter in
    Spares "c" two_events.adapter (after o) × (is_ok o ≡ true → lookup "c" (after o).clients ≡ none)
finish_request-Spares_example =
    finish_request-Spares "t" "10000" "c" true ("* PING" ∷ "bye" ∷ []) two_events.adapter
