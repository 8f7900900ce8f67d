-- ===== src/DataItem/Values.antt =====
-- The Python values that data items hold, with Python's equality, truth and `str`.
use Prim.Native.String as Text
use ros_bridge.Base.{
  String, ◌==◌, ◌≡◌, refl, Bool, true, false, not, ◌&&◌, List, [], ◌∷◌, arith, eq_refl,
}

-- A floating-point number, as far as the code uses one. `same` is how Python compares the parts of
-- two tuples: by identity, and else by `==`.
pub record Number (N : Type 0) : Type 0 where
  pub same : N → N → Bool
  pub same_refl : (x : N) → same x x ≡ true
  pub str : N → String
  pub repr : N → String

pub data Value (N : Type 0) : Type 0 where
  null : Value N
  flag : Bool → Value N
  text : String → Value N
  tuple : List N → Value N

infixr 65 ◌+++◌
abbrev pub ◌+++◌ : String → String → String
s +++ t = Text.◌++◌ s t

-- `sep.join(parts)`.
abbrev pub join : String → List String → String
join sep [] = ""
join sep (s ∷ []) = s
join sep (s ∷ t ∷ r) = s +++ sep +++ join sep (t ∷ r)

abbrev bool_eq : Bool → Bool → Bool
bool_eq true b = b
bool_eq false b = not b

module _ {N : Type 0} ⦃n : Number N⦄ where
  unfoldable pub tuple_eq : List N → List N → Bool
  tuple_eq [] [] = true
  tuple_eq (x ∷ xs) (y ∷ ys) = n.same x y && tuple_eq xs ys
  tuple_eq _ _ = false

  -- `v == w`.
  unfoldable pub value_eq : Value N → Value N → Bool
  unfolding tuple_eq
  value_eq null null = true
  value_eq (flag a) (flag b) = bool_eq a b
  value_eq (text s) (text t) = s == t
  value_eq (tuple xs) (tuple ys) = tuple_eq xs ys
  value_eq _ _ = false

  abbrev pub reprs : List N → List String
  reprs [] = []
  reprs (x ∷ xs) = n.repr x ∷ reprs xs

  abbrev pub strs : List N → List String
  strs [] = []
  strs (x ∷ xs) = n.str x ∷ strs xs

  abbrev tuple_str : List N → String
  tuple_str (x ∷ []) = "(" +++ n.repr x +++ ",)"
  tuple_str xs = "(" +++ join ", " (reprs xs) +++ ")"

  -- `str(v)`.
  unfoldable pub value_str : Value N → String
  value_str null = "None"
  value_str (flag true) = "True"
  value_str (flag false) = "False"
  value_str (text s) = s
  value_str (tuple xs) = tuple_str xs

  tuple_eq_refl : (xs : List N) → tuple_eq xs xs ≡ true
  unfolding tuple_eq
  tuple_eq_refl [] = refl
  tuple_eq_refl (x ∷ xs) = ground (arith, n.same_refl x, tuple_eq_refl xs)

  pub value_eq_refl : (v : Value N) → value_eq v v ≡ true
  unfolding value_eq
  value_eq_refl null = refl
  value_eq_refl (flag true) = refl
  value_eq_refl (flag false) = refl
  value_eq_refl (text s) = eq_refl s
  value_eq_refl (tuple xs) = tuple_eq_refl xs

-- `bool(v)`.
unfoldable pub is_truthy : {N : Type 0} → Value N → Bool
is_truthy null = false
is_truthy (flag b) = b
is_truthy (text s) = not (s == "")
is_truthy (tuple []) = false
is_truthy (tuple (x ∷ xs)) = true
