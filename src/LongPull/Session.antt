-- ===== src/LongPull/Session.antt =====
-- `long_pull` of long_pull.py from its call on: the boundary of the response, and the loop over the
-- chunks of the stream.
use ros_bridge.Base.{
  ℕ, zero, suc, pos, true, [], ◌∷◌, none, some, length, M, Outcome, ok, err, ◌>>=◌, ◌>>◌, pure,
  key_error, long_pull_error,
}
use ros_bridge.Base.Dict.{Dict, lookup}
use ros_bridge.LongPull.Defs.{Bytes, LongPull, read_chunk}
use ros_bridge.LongPull.Text.{find_boundary}
use ros_bridge.LongPull.Scanner.{Scanner}
use ros_bridge.LongPull.Pull.{Pull, take_chunk}

pub record Session (D U : Type 0) : Type 0 where
  pub wire : LongPull
  pub pull : Pull D U

module _ {D U : Type 0} (sc : Scanner D) (callback : Bytes → M U (Unit {0})) where
  abbrev pub on_wire : {A : Type 0} → M LongPull A → M (Session D U) A
  on_wire m s = elim (m s.wire) [
    | ok a w ↦ ok a (record s { wire = w })
    | err e w ↦ err e (record s { wire = w })
  ]

  abbrev pub on_pull : M (Pull D U) (Unit {0}) → M (Session D U) (Unit {0})
  on_pull m s = elim (m s.pull) [
    | ok a p ↦ ok a (record s { pull = p })
    | err e p ↦ err e (record s { pull = p })
  ]

  -- One pass of the outer loop.
  unfoldable pub pull_chunk : Bytes → M (Session D U) (Unit {0})
  unfolding read_chunk take_chunk
  pull_chunk boundary =
      on_wire read_chunk >>= λ chunk. on_pull (take_chunk sc callback boundary chunk)

  -- The outer loop, which only an exception leaves, for a number of passes.
  unfoldable pub pull_chunks : Bytes → ℕ → M (Session D U) (Unit {0})
  unfolding pull_chunk
  pull_chunks boundary zero = pure tt
  pull_chunks boundary (suc n) = pull_chunk boundary >> pull_chunks boundary n

  abbrev pub start : Bytes → LongPull → U → Session D U
  start boundary w u = record {
    wire = w;
    pull = record {
      document = sc.start [];
      header = true;
      wanted = pos (length boundary);
      user = u;
    };
  }

  abbrev pub leaves : Outcome (Session D U) (Unit {0}) → Outcome (LongPull × U) (Unit {0})
  leaves (ok _ s) = ok tt (s.wire, s.pull.user)
  leaves (err e s) = err e (s.wire, s.pull.user)

  -- `long_pull` on a response with these headers, for a number of passes.
  unfoldable pub long_pull : Dict Bytes → ℕ → M (LongPull × U) (Unit {0})
  unfolding pull_chunks find_boundary
  long_pull headers n (w, u) = elim (lookup "content-type" headers) [
    | none ↦ err key_error (w, u)
    | some text ↦ elim (find_boundary text) [
      | none ↦ err long_pull_error (w, u)
      | some digits ↦
          let boundary = b'-' ∷ b'-' ∷ digits in
          leaves (pull_chunks boundary n (start boundary w u))
    ]
  ]
