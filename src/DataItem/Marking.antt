-- ===== src/DataItem/Marking.antt =====
-- A round of gathering on a condition: `begin`, any number of `add`, `complete`, `sweep`.
use ros_bridge.Base.{
  String, ◌==◌, ◌≡◌, refl, inl, inr, Bool, true, false, not, ◌&&◌, ◌||◌, List, [], ◌∷◌, arith,
  eq_iff, eq_refl, any, keep, map, Bool-cases,
}
use ros_bridge.Base.Dict.{Dict, insert, update, contains, map_values, member}
use ros_bridge.Base.Unique.{Unique, contains-insert, contains-update, insert-Unique, update-Unique}
use ros_bridge.DataItem.Activations.{Activation, mark, clear}
use ros_bridge.DataItem.Conditions.{Condition, Fault, activate, entry_marked, add}

-- Whether some activation under the code is marked.
abbrev pub has_marked : String → Dict Activation → Bool
has_marked k d = any (λ e. e.0 == k && e.1.marked) d

abbrev pub codes : List Fault → List String
codes = map (λ f. f.code)

pub has_marked-clear :
    (k : String) (d : Dict Activation) → has_marked k (map_values clear d) ≡ false
unfolding clear
has_marked-clear k [] = refl
has_marked-clear k ((j, a) ∷ d) = ground (arith, has_marked-clear k d)

has_marked-update :
    (c k : String) (d : Dict Activation)
    → contains c d ≡ true
    → has_marked k (update c mark d) ≡ (c == k || has_marked k d)
unfolding contains update mark
has_marked-update c k [] h = cc
has_marked-update c k ((j, a) ∷ d) h =
    ground (arith, eq_iff j c, eq_iff c k, eq_iff j k, has_marked-update c k d)

has_marked-insert :
    (c k : String) (a : Activation) (d : Dict Activation)
    → a.marked ≡ true
    → contains c d ≡ false
    → has_marked k (insert c a d) ≡ (c == k || has_marked k d)
unfolding contains insert
has_marked-insert c k a [] m h = ground arith
has_marked-insert c k a ((j, b) ∷ d) m h =
    ground (arith, eq_iff j c, eq_iff c k, eq_iff j k, has_marked-insert c k a d m)

pub contains-keep_marked :
    (k : String) (d : Dict Activation) → contains k (keep entry_marked d) ≡ has_marked k d
unfolding contains
contains-keep_marked k [] = refl
contains-keep_marked k ((j, a) ∷ d) = ground (arith, contains-keep_marked k d)

has_marked→contains :
    (k : String) (d : Dict Activation) → has_marked k d ≡ true → contains k d ≡ true
unfolding contains
has_marked→contains k [] h = cc
has_marked→contains k ((j, a) ∷ d) h = ground (arith, has_marked→contains k d)

-- With unique codes, no activation is unmarked exactly when each code has a marked one.
pub none_unmarked→ :
    (d : Dict Activation) (k : String)
    → any (λ e. not (entry_marked e)) d ≡ false
    → contains k d ≡ true
    → has_marked k d ≡ true
unfolding contains
none_unmarked→ [] k h c = cc
none_unmarked→ ((j, a) ∷ d) k h c = ground (arith, none_unmarked→ d k)

pub none_unmarked← :
    (d : Dict Activation)
    → Unique d
    → ((k : String) → contains k d ≡ true → has_marked k d ≡ true)
    → any (λ e. not (entry_marked e)) d ≡ false
unfolding contains
none_unmarked← [] u h = refl
none_unmarked← ((j, a) ∷ d) u h =
    ground (arith, h j, eq_refl j, has_marked→contains j d, none_unmarked← d u.1 rest)
  where
    rest : (k : String) → contains k d ≡ true → has_marked k d ≡ true
    rest k c = ground (arith, h k, eq_iff j k, u.0)

module _ {N : Type 0} where
  -- What the gathering function does between `begin` and `complete`.
  unfoldable pub add_all : Condition N → List Fault → Condition N
  add_all c [] = c
  add_all c (f ∷ fs) = add_all (add c f) fs

  pub contains-add :
      (k : String) (c : Condition N) (f : Fault)
      → contains k (add c f).active ≡ (f.code == k || contains k c.active)
  unfolding add
  contains-add k c f = ground (
    arith,
    eq_iff f.code k,
    contains-insert f.code k (activate f) c.active,
    contains-update f.code k mark c.active,
  )

  add-Unique : (c : Condition N) (f : Fault) → Unique c.active → Unique (add c f).active
  unfolding add
  add-Unique c f u =
      ground
        (arith, insert-Unique f.code (activate f) c.active u, update-Unique f.code mark c.active u)

  has_marked-add :
      (k : String) (c : Condition N) (f : Fault)
      → has_marked k (add c f).active ≡ (f.code == k || has_marked k c.active)
  unfolding add
  has_marked-add k c f = elim (Bool-cases (contains f.code c.active)) [
    | inl h ↦ rw h (has_marked-update f.code k c.active h)
    | inr h ↦ rw h (has_marked-insert f.code k (activate f) c.active refl h)
  ]

  pub has_marked-add_all :
      (k : String) (c : Condition N) (fs : List Fault)
      → has_marked k (add_all c fs).active ≡ (member k (codes fs) || has_marked k c.active)
  unfolding add_all member
  has_marked-add_all k c [] = refl
  has_marked-add_all k c (f ∷ fs) =
      ground (arith, has_marked-add_all k (add c f) fs, has_marked-add k c f)

  pub contains-add_all :
      (k : String) (c : Condition N) (fs : List Fault)
      → contains k (add_all c fs).active ≡ (member k (codes fs) || contains k c.active)
  unfolding add_all member
  contains-add_all k c [] = refl
  contains-add_all k c (f ∷ fs) =
      ground (arith, contains-add_all k (add c f) fs, contains-add k c f)

  pub add_all-Unique :
      (c : Condition N) (fs : List Fault) → Unique c.active → Unique (add_all c fs).active
  unfolding add_all
  add_all-Unique c [] u = u
  add_all-Unique c (f ∷ fs) u = add_all-Unique (add c f) fs (add-Unique c f u)
