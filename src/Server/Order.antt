-- ===== src/Server/Order.antt =====
-- The order in which chunks arrive and the loop of `execute_cb` polls them.
use ros_bridge.Base.{
  ℕ, String, ◌≡◌, refl, false, List, [], ◌∷◌, ◌++◌, arith, some, Option, ok, All, Bool-cases, inl,
  inr, append-nil, append_assoc,
}
use ros_bridge.DataItem.Values.{Number}
use ros_bridge.Adapter.Defs.{Sockets}
use ros_bridge.Library.Startup.{Reply}
use ros_bridge.Library.Xml.{Chunk}
use ros_bridge.Server.Defs.{Server, Session, Tick, arrives, polls, execute_cb}
use ros_bridge.Server.Phases.{Phase, asked, completed, won, lost, advance, is_open, Rel}
use ros_bridge.Server.Runs.{state_in, IsSingle, HasSingle, follow, follow_all, Rel-flags}
use ros_bridge.Server.Requests.{IsConfigured, Shows, execute_cb-Goes}

-- The phase after a list of chunks, one after the other.
abbrev pub conclude : String → Phase → List Chunk → Phase
conclude request p [] = p
conclude request p (c ∷ q) = conclude request (advance p (state_in request c)) q

abbrev pub arrivals : List Tick → List Chunk
arrivals [] = []
arrivals (arrives c ∷ xs) = c ∷ arrivals xs
arrivals (polls time ∷ xs) = arrivals xs

advance-closed : (p : Phase) (o : Option String) → is_open p ≡ false → advance p o ≡ p
advance-closed asked o h = cc
advance-closed completed o h = cc
advance-closed won o h = refl
advance-closed lost o h = refl

pub conclude-closed :
    (request : String) (p : Phase) (q : List Chunk) → is_open p ≡ false → conclude request p q ≡ p
conclude-closed request p [] h = refl
conclude-closed request p (c ∷ q) h =
    rw (advance-closed p (state_in request c) h) (conclude-closed request p q h)

follow-conclude :
    (request : String) (x : Tick) (xs : List Tick) (p : Phase) (q : List Chunk)
    → let (p', q') = follow request x p q in
      conclude request p' (q' ++ arrivals xs) ≡ conclude request p (q ++ arrivals (x ∷ xs))
follow-conclude request (arrives c) xs p q = elim (Bool-cases (is_open p)) [
  | inl o ↦ rw o (ground (arith, append_assoc q (c ∷ []) (arrivals xs)))
  | inr o ↦ ground (
    arith,
    conclude-closed request p (q ++ arrivals xs) o,
    conclude-closed request p (q ++ c ∷ arrivals xs) o,
  )
]
follow-conclude request (polls time) xs p [] = refl
follow-conclude request (polls time) xs p (c ∷ q) = elim (Bool-cases (is_open p)) [
  | inl o ↦ rw o refl
  | inr o ↦ rw o refl
]

pub follow_all-conclude :
    (request : String) (xs : List Tick) (p : Phase) (q : List Chunk)
    → let (p', q') = follow_all request xs p q in
      conclude request p' q' ≡ conclude request p (q ++ arrivals xs)
follow_all-conclude request [] p q = ground (arith, append-nil q)
follow_all-conclude request (x ∷ xs) p q =
    let (p', q') = follow request x p q in
    ground (arith, follow_all-conclude request xs p' q', follow-conclude request x xs p q)

module _ {N S : Type 0} ⦃n : Number N⦄ ⦃k : Sockets S⦄ (time action request : String) (i : ℕ)
    (current : String → Reply Chunk) where
  -- If the agent shows READY, the session that `execute_cb` leaves, with the chunks that are still
  -- queued, ends in the phase that the chunks alone lead to, in the order of their arrival and after
  -- those that earlier actions have left in the queue: when the loop polls them does not matter. The
  -- server is configured for the action on a ready node, and each chunk, also of those already queued,
  -- is XML with at most one element of the request.
  pub execute_cb-conclude :
      (ticks : List Tick) (s : Server N S)
      → IsConfigured action request i s
      → Shows current request (some "READY")
      → All (HasSingle request) ticks
      → All (IsSingle request) s.xml_queue
      → (p : Phase) × (t : Session N S) × (execute_cb time current action ticks s
          ≡ ok (is_open p) t.server)
        × Rel action request i s.verdicts p t.xml_queue t
        × (conclude request p t.xml_queue ≡ conclude request asked (s.xml_queue ++ arrivals ticks))
  execute_cb-conclude ticks s c w x l =
      let (p, q) = follow_all request ticks asked s.xml_queue in
      let (t, f, d, r) = execute_cb-Goes time action request i current ticks s c w x l in
      let e = (Rel-flags action request i s.verdicts p q t r).2 in
      (
        p,
        t,
        ground (arith, f, d),
        rw e r,
        ground (arith, e, follow_all-conclude request ticks asked s.xml_queue),
      )
