-- ===== src/LongPull/Scanner.antt =====
-- What long_pull.py asks of the text scanner, a library whose copy stands beside it: the operations
-- that it calls, as a record, and what their documentation says of them.
use ros_bridge.Base.{ℕ, ◌+◌, ◌≡◌, ◌++◌, Option, none, some, if◌then◌else◌, length}
use ros_bridge.LongPull.Defs.{Bytes, drop}
use ros_bridge.LongPull.Text.{starts_with, find_text}

-- `string` is read and set, `pos` is the string pointer. A pattern here is a text that stands for
-- itself; `check` has it behind `^`.
pub record Scanner (D : Type 0) : Type 0 where
  pub start : Bytes → D
  pub string : D → Bytes
  pub set_string : Bytes → D → D
  pub place : D → ℕ
  pub reset : D → D
  pub rest : D → Bytes
  pub check : Bytes → D → Option Bytes × D
  pub scan_until : Bytes → D → Option Bytes × D

module _ {D : Type 0} (sc : Scanner D) where
  abbrev pub Keeps : D → D → Type 0
  Keeps d e = (sc.string e ≡ sc.string d) × (sc.place e ≡ sc.place d)

  abbrev pub Consumes : D → Bytes → Option (Bytes × Bytes) → Option Bytes × D → Type 0
  Consumes d p none (found, e) = (found ≡ none) × Keeps d e
  Consumes d p (some (before, after)) (found, e) =
      (found ≡ some (before ++ p))
      × (sc.string e ≡ sc.string d)
      × (sc.place e ≡ sc.place d + length (before ++ p))

  -- `string` sets the pointer back to the start, `rest` is what comes after the pointer, `check` at
  -- the start gives the pattern, if the string starts with it, and consumes nothing, and `scan_until` consumes up to the end of the first match, if there is one.
  pub record IsScanner : Type 0 where
    pub starts : (s : Bytes) → (sc.string (sc.start s) ≡ s) × (sc.place (sc.start s) ≡ 0)
    pub sets :
        (s : Bytes) (d : D)
        → (sc.string (sc.set_string s d) ≡ s) × (sc.place (sc.set_string s d) ≡ 0)
    pub rests : (d : D) → sc.rest d ≡ drop (sc.place d) (sc.string d)
    pub checks :
        (p : Bytes) (d : D)
        → sc.place d ≡ 0
        → (sc.check p d).0 ≡ (if starts_with p (sc.string d) then some p else none)
    pub check_keeps : (p : Bytes) (d : D) → Keeps d (sc.check p d).1
    pub scans : (p : Bytes) (d : D) → Consumes d p (find_text p (sc.rest d)) (sc.scan_until p d)
