-- ===== src/Base/Unique.antt =====
-- Dictionaries in which no key stands twice, as in the code's.
use ros_bridge.Base.Lists.{keep}
use ros_bridge.Base.Dict.{Dict, insert, update, contains, map_values, remove}
use Prim.Native.String.{String}
use mathlib.Core.Path.{◌≡◌, refl}
use mathlib.Core.Bool.{Bool, false, ◌||◌, ◌&&◌, not}
use mathlib.Core.List.{[], ◌∷◌}
use native.Mathlib.Omega.{arith}
use text.Mathlib.Text.{◌==◌}
use text.Mathlib.TextEquality.{eq_iff}

module _ {ℓ} {V : Type ℓ} where
  abbrev pub Unique : Dict V → Type 0
  Unique [] = Unit
  Unique ((j, v) ∷ m) = (contains j m ≡ false) × Unique m

  pub contains-insert :
      (k j : String) (v : V) (m : Dict V) → contains j (insert k v m) ≡ (k == j || contains j m)
  unfolding contains insert
  contains-insert k j v [] = refl
  contains-insert k j v ((i, w) ∷ m) =
      ground (arith, eq_iff k j, eq_iff i k, eq_iff i j, contains-insert k j v m)

  pub contains-update :
      (k j : String) (f : V → V) (m : Dict V) → contains j (update k f m) ≡ contains j m
  unfolding contains update
  contains-update k j f [] = refl
  contains-update k j f ((i, w) ∷ m) = ground (arith, contains-update k j f m)

  pub contains-map_values :
      (k : String) (f : V → V) (m : Dict V) → contains k (map_values f m) ≡ contains k m
  unfolding contains
  contains-map_values k f [] = refl
  contains-map_values k f ((i, w) ∷ m) = ground (arith, contains-map_values k f m)

  pub contains-remove :
      (k j : String) (m : Dict V) → contains j (remove k m) ≡ (contains j m && not (k == j))
  unfolding contains remove
  contains-remove k j [] = refl
  contains-remove k j ((i, w) ∷ m) =
      ground (arith, eq_iff k j, eq_iff i k, eq_iff i j, contains-remove k j m)

  pub insert-Unique : (k : String) (v : V) (m : Dict V) → Unique m → Unique (insert k v m)
  unfolding insert contains
  insert-Unique k v [] u = (refl, tt)
  insert-Unique k v ((i, w) ∷ m) u =
      ground (arith, eq_iff i k, eq_iff k i, contains-insert k i v m, insert-Unique k v m u.1)

  pub update-Unique : (k : String) (f : V → V) (m : Dict V) → Unique m → Unique (update k f m)
  unfolding update
  update-Unique k f [] u = tt
  update-Unique k f ((i, w) ∷ m) u =
      ground (arith, contains-update k i f m, update-Unique k f m u.1)

  pub map_values-Unique : (f : V → V) (m : Dict V) → Unique m → Unique (map_values f m)
  map_values-Unique f [] u = tt
  map_values-Unique f ((i, w) ∷ m) u =
      ground (arith, contains-map_values i f m, map_values-Unique f m u.1)

  contains-keep :
      (k : String) (p : String × V → Bool) (m : Dict V)
      → contains k m ≡ false
      → contains k (keep p m) ≡ false
  unfolding contains
  contains-keep k p [] h = refl
  contains-keep k p ((i, w) ∷ m) h = ground (arith, contains-keep k p m)

  pub keep-Unique : (p : String × V → Bool) (m : Dict V) → Unique m → Unique (keep p m)
  keep-Unique p [] u = tt
  keep-Unique p ((i, w) ∷ m) u = ground (arith, contains-keep i p m, keep-Unique p m u.1)

  pub remove-Unique : (k : String) (m : Dict V) → Unique m → Unique (remove k m)
  unfolding remove
  remove-Unique k [] u = tt
  remove-Unique k ((i, w) ∷ m) u = ground (arith, contains-remove k i m, remove-Unique k m u.1)
