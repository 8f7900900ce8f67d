-- ===== src/Tests/Pulls.antt =====
-- Examples for the pull of the stream, with a scanner that keeps a string and a place in it.
use ros_bridge.Base.{
  ℕ, ◌+◌, ◌≡◌, refl, true, List, [], ◌∷◌, ◌++◌, ◌&&◌, arith, some, none, Option, ok, M, pos, length,
  nat_eq, if◌then◌else◌, ◌>>◌,
}
use ros_bridge.Base.Dict.{Dict, lookup}
use ros_bridge.LongPull.Defs.{Bytes, drop, hex_value, strip_extension}
use ros_bridge.LongPull.Text.{
  bytes_of, crlf, starts_with, find_text, find_boundary, value_of, int_value, same_text, lower,
}
use ros_bridge.LongPull.Scanner.{Scanner, IsScanner, Consumes}
use ros_bridge.LongPull.Heads.{Field, write_head}
use ros_bridge.LongPull.Pull.{Pull, called, take_chunk}
use ros_bridge.LongPull.Parts.{next}
use ros_bridge.LongPull.Written.{Part, each}
use ros_bridge.LongPull.Frames.{take_chunk_cut}
use ros_bridge.LongPull.Ends.{Settles, take_chunk-Settles}
use ros_bridge.LongPull.Session.{long_pull}
use ros_bridge.LongPull.Deliveries.{Sent, IsSent, pieces_of, bodies_of, Closes, long_pull-Closes}

abbrev Marked : Type 0
Marked = Bytes × ℕ

abbrev consume : Bytes → Marked → Option (Bytes × Bytes) → Option Bytes × Marked
consume p d none = (none, d)
consume p d (some (before, after)) = (some (before ++ p), (d.0, d.1 + length (before ++ p)))

abbrev plain : Scanner Marked
plain = record {
  start = λ s. (s, 0);
  string = λ d. d.0;
  set_string = λ s d. (s, 0);
  place = λ d. d.1;
  reset = λ d. (d.0, 0);
  rest = λ d. drop d.1 d.0;
  check = λ p d. (if nat_eq d.1 0 && starts_with p d.0 then some p else none, d);
  scan_until = λ p d. consume p d (find_text p (drop d.1 d.0));
}

consume-Consumes :
    (p : Bytes) (d : Marked) (o : Option (Bytes × Bytes)) → Consumes plain d p o (consume p d o)
consume-Consumes p d none = (refl, (refl, refl))
consume-Consumes p d (some m) = (refl, refl, refl)

plain-IsScanner : IsScanner plain
plain-IsScanner = record {
  starts = λ s. (refl, refl);
  sets = λ s d. (refl, refl);
  rests = λ d. refl;
  checks = λ p d h. ground (arith, h);
  check_keeps = λ p d. (refl, refl);
  scans = λ p d. consume-Consumes p d (find_text p (drop d.1 d.0));
}

abbrev log : Bytes → M (List Bytes) (Unit {0})
log body bodies = ok tt (bodies ++ body ∷ [])

abbrev boundary : Bytes
boundary = bytes_of "--a1"

abbrev fields : List Field
fields = (bytes_of "Content-length", bytes_of "3") ∷ []

abbrev abc : Part
abc = record { fields = fields; body = bytes_of "abc" }

-- One part, whose chunk comes in two pieces.
abbrev one_part : Sent
one_part = record {
  size = bytes_of "1d";
  parts = abc ∷ [];
  first = [];
  more = (write_head boundary fields (bytes_of "abc") ++ crlf) ∷ [];
}

one_part-IsSent : IsSent boundary one_part
unfolding value_of same_text lower int_value hex_value strip_extension
one_part-IsSent = (
  refl,
  refl,
  omega arith,
  (refl, tt),
  refl,
  ((((refl, refl, refl), tt), (bytes_of "3", refl, refl)), tt),
)

abbrev content_type : Bytes
content_type = bytes_of "multipart/x-mixed-replace;boundary=a1"

abbrev headers : Dict Bytes
headers = ("content-type", content_type) ∷ []

headers-lookup : lookup "content-type" headers ≡ some content_type
unfolding lookup
headers-lookup = refl

headers-find_boundary : find_boundary content_type ≡ some (bytes_of "a1")
unfolding find_boundary starts_with
headers-find_boundary = refl

long_pull-Closes_example : Closes (each log (bodies_of (one_part ∷ one_part ∷ [])) []) (
    long_pull plain log headers 3
      (record { buffer = []; pieces = pieces_of (one_part ∷ one_part ∷ []) }, []))
long_pull-Closes_example =
    long_pull-Closes plain plain-IsScanner log headers content_type (bytes_of "a1")
      (one_part ∷ one_part ∷ []) [] headers-lookup headers-find_boundary
      (one_part-IsSent, (one_part-IsSent, tt))

-- The state in which `long_pull` begins.
abbrev at_start : Pull Marked (List Bytes)
at_start = record { document = ([], 0); header = true; wanted = pos 4; user = [] }

fields-value_of :
    value_of (bytes_of "content-length") ((bytes_of "content-length", bytes_of "3") ∷ [])
    ≡ some (bytes_of "3")
unfolding value_of same_text
fields-value_of = refl

take_chunk_cut_example :
    (fuel : ℕ) × (q : Pull Marked (List Bytes)) × ((take_chunk plain log boundary
            (write_head boundary fields (bytes_of "a"))
          >> take_chunk plain log boundary (bytes_of "bc"))
        at_start
      ≡ next plain plain-IsScanner log boundary fuel
          (called plain log boundary q (log (bytes_of "--a") [])))
unfolding lower int_value
take_chunk_cut_example =
    take_chunk_cut plain plain-IsScanner log boundary fields (bytes_of "3") (bytes_of "a")
      (bytes_of "bc") 3 at_start refl refl ((refl, refl, refl), tt) fields-value_of refl
      (omega arith) (omega arith) refl refl (refl, refl)

take_chunk-Settles_example :
    Settles plain plain-IsScanner log boundary
      (take_chunk plain log boundary (bytes_of "--a1 no head") at_start)
take_chunk-Settles_example =
    take_chunk-Settles plain plain-IsScanner log boundary (bytes_of "--a1 no head") at_start refl
      (λ _. refl)
