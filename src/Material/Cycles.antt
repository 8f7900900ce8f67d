-- ===== src/Material/Cycles.antt =====
-- When the loops of the two material servers end, and how.
use ros_bridge.Base.{
  ℕ, zero, suc, ◌+◌, ◌≤◌, ◌<◌, ◌≡◌, refl, Bool, true, false, List, [], ◌∷◌, ◌++◌, arith, ◌⊎◌, inl,
  inr, ◌∙◌, some, none, Option, ltb, if◌then◌else◌, append_assoc, append-nil, any, length,
}
use ros_bridge.Material.Load.{
  Verdict, succeeded, aborted, Server, Pass, waits, returned, exited, Tick, message, at, all_closed,
  time_limit, pass, execute_cb, topic_callback,
}
use ros_bridge.Material.Unload as Unload

-- What a load that has returned stands for.
abbrev pub IsDone : Server → Pass → Type 0
IsDone s (waits t) = (t.counter ≡ s.counter) × (t.verdicts ≡ s.verdicts)
IsDone s (exited t) = (t.counter ≡ s.counter) × (t.verdicts ≡ s.verdicts)
IsDone s (returned t) =
    (all_closed t ≡ true)
    × (t.counter ≡ s.counter + 1)
    × (((s.counter < 25) × (t.verdicts ≡ s.verdicts ++ succeeded "COMPLETE" ∷ []))
        ⊎ ((s.counter ≡ 25) × (t.verdicts ≡ s.verdicts ++ aborted "FAIL" ∷ [])))

pass-IsDone : (start now : ℕ) (s : Server) → IsDone s (pass start now s)
unfolding pass
pass-IsDone start now s = ground arith

IsDone-trans :
    (s t : Server) (p : Pass)
    → t.counter ≡ s.counter
    → t.verdicts ≡ s.verdicts
    → IsDone t p
    → IsDone s p
IsDone-trans s t (waits u) c v d = (d.0 ∙ c, d.1 ∙ v)
IsDone-trans s t (exited u) c v d = (d.0 ∙ c, d.1 ∙ v)
IsDone-trans s t (returned u) c v d = ground arith

-- Whatever messages come in, a load is answered once, with the door and the chuck closed: COMPLETE
-- in the first 24 cycles and FAIL in the 25th. If the loop goes on or `sys.exit` ends it, nothing has
-- been answered.
pub execute_cb-IsDone :
    (start : ℕ) (ticks : List Tick) (s : Server) → IsDone s (execute_cb start ticks s)
unfolding execute_cb topic_callback
execute_cb-IsDone start [] s = (refl, refl)
execute_cb-IsDone start (message m ∷ ticks) s = execute_cb-IsDone start ticks (topic_callback m s)
execute_cb-IsDone start (at now ∷ ticks) s =
    go (pass start now s) (pass-IsDone start now s) (execute_cb-IsDone start ticks)
  where
    go :
        (p : Pass)
        → IsDone s p
        → ((t : Server) → IsDone t (execute_cb start ticks t))
        → IsDone s (elim p [
          | waits t ↦ execute_cb start ticks t
          | returned t ↦ returned t
          | exited t ↦ exited t
        ])
    go (waits t) d rest = IsDone-trans s t (execute_cb start ticks t) d.0 d.1 (rest t)
    go (returned t) d rest = d
    go (exited t) d rest = d

-- A pass of the loop after the time limit.
abbrev pub is_late : ℕ → Tick → Bool
is_late start (message m) = false
is_late start (at now) = ltb (start + time_limit) now

abbrev pub is_waiting : Pass → Bool
is_waiting (waits t) = true
is_waiting (returned t) = false
is_waiting (exited t) = false

late-pass :
    (start now : ℕ) (s : Server)
    → ltb (start + time_limit) now ≡ true
    → is_waiting (pass start now s) ≡ false
unfolding pass
late-pass start now s h = ground arith

-- The loop of a load ends: once a pass comes after the time limit it has returned, or `sys.exit` has
-- ended its thread.
pub execute_cb-ends :
    (start : ℕ) (ticks : List Tick) (s : Server)
    → any (is_late start) ticks ≡ true
    → is_waiting (execute_cb start ticks s) ≡ false
unfolding execute_cb
execute_cb-ends start [] s h = cc
execute_cb-ends start (message m ∷ ticks) s h = execute_cb-ends start ticks (topic_callback m s) h
execute_cb-ends start (at now ∷ ticks) s h =
    go (pass start now s) (late-pass start now s) (execute_cb-ends start ticks)
  where
    go :
        (p : Pass)
        → (ltb (start + time_limit) now ≡ true → is_waiting p ≡ false)
        → ((t : Server)
            → any (is_late start) ticks ≡ true
            → is_waiting (execute_cb start ticks t) ≡ false)
        → is_waiting (elim p [
          | waits t ↦ execute_cb start ticks t
          | returned t ↦ returned t
          | exited t ↦ exited t
        ])
          ≡ false
    go (waits t) e rest = ground (arith, rest t)
    go (returned t) e rest = refl
    go (exited t) e rest = refl

-- Goals that come one after another, each with its start and what happens while it runs. `none`: one
-- of them did not return.
unfoldable pub serve : List (ℕ × List Tick) → Server → Option Server
serve [] s = some s
serve ((start, ticks) ∷ goals) s = elim (execute_cb start ticks s) [
  | waits t ↦ none
  | returned t ↦ serve goals t
  | exited t ↦ none
]

-- The answers to a number of goals, from a value of the counter on.
abbrev pub answers : ℕ → ℕ → List Verdict
answers counter zero = []
answers counter (suc n) =
    (if ltb counter 25 then succeeded "COMPLETE" else aborted "FAIL") ∷ answers (suc counter) n

-- When successive goals have all returned, they have been answered by COMPLETE up to the 24th cycle
-- and by FAIL in the 25th, and none comes after that: the server answers 25 goals in its life.
pub serve-answers :
    (goals : List (ℕ × List Tick)) (s t : Server)
    → s.counter ≤ 26
    → serve goals s ≡ some t
    → (t.verdicts ≡ s.verdicts ++ answers s.counter (length goals))
      × (s.counter + length goals ≤ 26)
unfolding serve
serve-answers [] s t c e = (ground (arith, append-nil s.verdicts), omega arith)
serve-answers ((start, ticks) ∷ goals) s t c e =
    go (execute_cb start ticks s) (execute_cb-IsDone start ticks s) (serve-answers goals) e
  where
    go :
        (p : Pass)
        → IsDone s p
        → ((u t : Server)
            → u.counter ≤ 26
            → serve goals u ≡ some t
            → (t.verdicts ≡ u.verdicts ++ answers u.counter (length goals))
              × (u.counter + length goals ≤ 26))
        → elim p [ waits t ↦ none | returned t ↦ serve goals t | exited t ↦ none ] ≡ some t
        → (t.verdicts ≡ s.verdicts ++ answers s.counter (suc (length goals)))
          × (s.counter + suc (length goals) ≤ 26)
    go (waits u) d rest e = cc
    go (exited u) d rest e = cc
    go (returned u) d rest e = elim d.2 [
      | inl young ↦ ground (
        arith,
        rest u t,
        append_assoc s.verdicts (succeeded "COMPLETE" ∷ [])
            (answers (suc s.counter) (length goals)),
      )
      | inr last ↦ ground (
        arith,
        rest u t,
        append_assoc s.verdicts (aborted "FAIL" ∷ []) (answers (suc s.counter) (length goals)),
      )
    ]

-- What an unload that has returned stands for.
abbrev pub IsUnloaded : Unload.Server → Unload.Pass → Type 0
IsUnloaded s (Unload.waits t) = t.verdicts ≡ s.verdicts
IsUnloaded s (Unload.exited t) = t.verdicts ≡ s.verdicts
IsUnloaded s (Unload.returned t) =
    (Unload.all_open t ≡ true) × (t.verdicts ≡ s.verdicts ++ succeeded "COMPLETE" ∷ [])

unload-pass : (start now : ℕ) (s : Unload.Server) → IsUnloaded s (Unload.pass start now s)
unfolding Unload.pass
unload-pass start now s = ground arith

join :
    (s t : Unload.Server) (p : Unload.Pass)
    → t.verdicts ≡ s.verdicts
    → IsUnloaded t p
    → IsUnloaded s p
join s t (Unload.waits u) v d = d ∙ v
join s t (Unload.exited u) v d = d ∙ v
join s t (Unload.returned u) v d = ground arith

-- Whatever messages come in, an unload that is answered is answered once, by COMPLETE, with the door
-- and the chuck open. If the loop goes on or `sys.exit` ends it, nothing has been answered.
pub unload-IsUnloaded :
    (start : ℕ) (ticks : List Tick) (s : Unload.Server)
    → IsUnloaded s (Unload.execute_cb start ticks s)
unfolding Unload.execute_cb Unload.topic_callback
unload-IsUnloaded start [] s = refl
unload-IsUnloaded start (message m ∷ ticks) s =
    unload-IsUnloaded start ticks (Unload.topic_callback m s)
unload-IsUnloaded start (at now ∷ ticks) s =
    go (Unload.pass start now s) (unload-pass start now s) (unload-IsUnloaded start ticks)
  where
    go :
        (p : Unload.Pass)
        → IsUnloaded s p
        → ((t : Unload.Server) → IsUnloaded t (Unload.execute_cb start ticks t))
        → IsUnloaded s (elim p [
          | Unload.waits t ↦ Unload.execute_cb start ticks t
          | Unload.returned t ↦ Unload.returned t
          | Unload.exited t ↦ Unload.exited t
        ])
    go (Unload.waits t) d rest = join s t (Unload.execute_cb start ticks t) d (rest t)
    go (Unload.returned t) d rest = d
    go (Unload.exited t) d rest = d

-- If the door and the chuck are found open only after the time limit, `sys.exit` ends the loop in place of
-- the answer, with the result already set to COMPLETE.
unload_late :
    (start now : ℕ) (ticks : List Tick) (s : Unload.Server)
    → Unload.all_open s ≡ true
    → start + time_limit < now
    → (t : Unload.Server) × (Unload.execute_cb start (at now ∷ ticks) s ≡ Unload.exited t)
      × (t.unload_state ≡ some "COMPLETE")
      × (t.verdicts ≡ s.verdicts)
unfolding Unload.execute_cb Unload.pass
unload_late start now ticks s o h =
    (record s { unload_state = some "COMPLETE"; counter = s.counter + 1 }, ground arith, refl, refl)
