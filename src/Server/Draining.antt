-- ===== src/Server/Draining.antt =====
-- The answer of `execute_cb` once its loop has polled often enough.
use ros_bridge.Base.{
  ℕ, zero, suc, ◌+◌, ◌≤◌, String, ◌≡◌, refl, subst, false, List, [], ◌∷◌, ◌++◌, arith, some, ok,
  All, Bool-cases, inl, inr, length, length-append_one,
}
use ros_bridge.DataItem.Values.{Number}
use ros_bridge.Adapter.Defs.{Sockets}
use ros_bridge.Library.Startup.{Reply}
use ros_bridge.Library.Xml.{Chunk}
use ros_bridge.Server.Defs.{Server, Session, Tick, arrives, polls, execute_cb}
use ros_bridge.Server.Phases.{Phase, asked, advance, is_open, Rel}
use ros_bridge.Server.Runs.{state_in, IsSingle, HasSingle, follow, follow_all, Rel-flags}
use ros_bridge.Server.Requests.{IsConfigured, Shows, execute_cb-Goes}
use ros_bridge.Server.Order.{conclude, arrivals, conclude-closed, follow_all-conclude}

-- The loop polls a number of times, and nothing else happens.
abbrev pub drain : String → ℕ → List Tick
drain time zero = []
drain time (suc n) = polls time ∷ drain time n

follow_all-append :
    (request : String) (xs ys : List Tick) (p : Phase) (q : List Chunk)
    → follow_all request (xs ++ ys) p q
      ≡ (let (p', q') = follow_all request xs p q in follow_all request ys p' q')
follow_all-append request [] ys p q = refl
follow_all-append request (x ∷ xs) ys p q =
    let (p', q') = follow request x p q in follow_all-append request xs ys p' q'

follow_all-closed :
    (request time : String) (n : ℕ) (p : Phase) (q : List Chunk)
    → is_open p ≡ false
    → follow_all request (drain time n) p q ≡ (p, q)
follow_all-closed request time zero p q o = refl
follow_all-closed request time (suc n) p [] o = follow_all-closed request time n p [] o
follow_all-closed request time (suc n) p (c ∷ q) o =
    ground (arith, o, follow_all-closed request time n p (c ∷ q) o)

follow_all-drain :
    (request time : String) (n : ℕ) (p : Phase) (q : List Chunk)
    → length q ≤ n
    → (follow_all request (drain time n) p q).0 ≡ conclude request p q
follow_all-drain request time zero p [] h = refl
follow_all-drain request time zero p (c ∷ q) h = absurd (omega arith)
follow_all-drain request time (suc n) p [] h = follow_all-drain request time n p [] (omega arith)
follow_all-drain request time (suc n) p (c ∷ q) h = elim (Bool-cases (is_open p)) [
  | inl o ↦
      ground
        (arith, o, follow_all-drain request time n (advance p (state_in request c)) q (omega arith))
  | inr o ↦ ground (
    arith,
    follow_all-closed request time (suc n) p (c ∷ q) o,
    conclude-closed request p (c ∷ q) o,
  )
]

follow-length :
    (request : String) (x : Tick) (xs : List Tick) (p : Phase) (q : List Chunk)
    → length (follow request x p q).1 + length (arrivals xs) ≤ length q + length (arrivals (x ∷ xs))
follow-length request (arrives c) xs p q = ground (arith, length-append_one q c)
follow-length request (polls time) xs p [] = ground arith
follow-length request (polls time) xs p (c ∷ q) = ground arith

follow_all-length :
    (request : String) (xs : List Tick) (p : Phase) (q : List Chunk)
    → length (follow_all request xs p q).1 ≤ length q + length (arrivals xs)
follow_all-length request [] p q = ground arith
follow_all-length request (x ∷ xs) p q =
    let (p', q') = follow request x p q in
    ground (arith, follow_all-length request xs p' q', follow-length request x xs p q)

drain-HasSingle : (request time : String) (n : ℕ) → All (HasSingle request) (drain time n)
drain-HasSingle request time zero = tt
drain-HasSingle request time (suc n) = (tt, drain-HasSingle request time n)

append-HasSingle :
    (request : String) (xs ys : List Tick)
    → All (HasSingle request) xs
    → All (HasSingle request) ys
    → All (HasSingle request) (xs ++ ys)
append-HasSingle request [] ys h k = k
append-HasSingle request (x ∷ xs) ys h k = (h.0, append-HasSingle request xs ys h.1 k)

module _ {N S : Type 0} ⦃n : Number N⦄ ⦃k : Sockets S⦄ (time action request : String) (i : ℕ)
    (current : String → Reply Chunk) where
  -- If the agent shows READY and, after any ticks, the loop polls at least as often as there have
  -- been chunks, `execute_cb` is in the phase that the chunks lead to in their order, after those of
  -- earlier actions: it has answered if that phase is closed, and else it waits. The server is
  -- configured for the action on a ready node, and each chunk, also of those already queued, is XML
  -- with at most one element of the request.
  pub execute_cb-decides :
      (ticks : List Tick) (rounds : ℕ) (later : String) (s : Server N S)
      → IsConfigured action request i s
      → Shows current request (some "READY")
      → All (HasSingle request) ticks
      → All (IsSingle request) s.xml_queue
      → length s.xml_queue + length (arrivals ticks) ≤ rounds
      → let p = conclude request asked (s.xml_queue ++ arrivals ticks) in
        (t : Session N S) × (execute_cb time current action (ticks ++ drain later rounds) s
          ≡ ok (is_open p) t.server)
        × Rel action request i s.verdicts p t.xml_queue t
  execute_cb-decides ticks rounds later s c w x l h =
      let all = ticks ++ drain later rounds in
      let (p', q') = follow_all request ticks asked s.xml_queue in
      let (p, q) = follow_all request all asked s.xml_queue in
      let (t, f, d, r) =
        execute_cb-Goes time action request i current all s c w
          (append-HasSingle request ticks (drain later rounds) x
            (drain-HasSingle request later rounds))
          l in
      let e = (Rel-flags action request i s.verdicts p q t r).2 in
      let same : p ≡ conclude request asked (s.xml_queue ++ arrivals ticks) = ground (
        arith,
        follow_all-append request ticks (drain later rounds) asked s.xml_queue,
        follow_all-drain request later rounds p' q'
            (ground (arith, follow_all-length request ticks asked s.xml_queue)),
        follow_all-conclude request ticks asked s.xml_queue,
      ) in
      (
        t,
        ground (arith, f, d, same),
        subst (λ z. Rel action request i s.verdicts z t.xml_queue t) same (rw e r),
      )
