-- ===== src/Base/Effects.antt =====
-- Stateful code that may raise: a method takes the state and returns a value or an exception, and
-- in both cases the state that it leaves.
use mathlib.Core.Option.{Option, none, some}
use mathlib.Core.Path.{◌≡◌, refl, sym, ap, ◌∙◌}

-- The exceptions that the code can raise.
pub data Exn : Type 0 where
  type_error key_error index_error value_error attribute_error unbound_local : Exn
  -- `LongPullException`, and the two of httplib.
  long_pull_error not_connected incomplete_read : Exn
  socket_error yaml_error name_error : Exn
  -- What `xml_get_response` raises on a status other than 200: SystemExit, or AttributeError if rospy
  -- has no `logerror`.
  bad_status : Exn
  -- `sys.exit`, which ends the thread that calls it, and `os._exit`, which ends the process.
  system_exit : Exn

pub data Outcome (S A : Type 0) : Type 0 where
  ok : A → S → Outcome S A
  err : Exn → S → Outcome S A

abbrev pub M : Type 0 → Type 0 → Type 0
M S A = S → Outcome S A

infixl 5 ◌>>=◌ ◌>>◌
abbrev pub ◌>>=◌ : {S A B : Type 0} → M S A → (A → M S B) → M S B
◌>>=◌ m f s = elim (m s) [ ok a t ↦ f a t | err e t ↦ err e t ]

abbrev pub ◌>>◌ : {S B : Type 0} → M S (Unit {0}) → M S B → M S B
m >> k = m >>= λ _. k

abbrev pub pure : {S A : Type 0} → A → M S A
pure a s = ok a s

abbrev pub raise : {S A : Type 0} → Exn → M S A
raise e s = err e s

abbrev pub modify_state : {S : Type 0} → (S → S) → M S (Unit {0})
modify_state f s = ok tt (f s)

abbrev pub or_raise : {S A : Type 0} → Option A → Exn → M S A
or_raise none e s = err e s
or_raise (some a) e s = ok a s

-- The state that a call leaves, whether it raises or not.
abbrev pub after : {S A : Type 0} → Outcome S A → S
after (ok a s) = s
after (err e s) = s

-- If a call and what follows it return, then each of the two returns.
returns :
    {S A B : Type 0} (o : Outcome S A) (f : A → M S B) (s u : S) (b : B)
    → ((λ _. o) >>= f) s ≡ ok b u
    → (a : A) × (t : S) × (o ≡ ok a t) × (f a t ≡ ok b u)
returns (ok a t) f s u b h = (a, t, refl, h)
returns (err e t) f s u b h = absurd (cc (h))

pub bind-returns :
    {S A B : Type 0} (m : M S A) (f : A → M S B) (s u : S) (b : B)
    → (m >>= f) s ≡ ok b u
    → (a : A) × (t : S) × (m s ≡ ok a t) × (f a t ≡ ok b u)
bind-returns m f s u b h = returns (m s) f s u b h

-- A call that changes nothing.
abbrev pub Reads : {S A : Type 0} → M S A → Type 0
Reads {S = S} m = (s : S) → after (m s) ≡ s

pub Reads-returns : {S A : Type 0} (m : M S A) (s t : S) (a : A) → Reads m → m s ≡ ok a t → t ≡ s
Reads-returns m s t a r h = sym (ap after h) ∙ r s

Reads-outcome :
    {S A B : Type 0} (o : Outcome S A) (f : A → M S B) (s : S)
    → after o ≡ s
    → ((a : A) → Reads (f a))
    → after (((λ _. o) >>= f) s) ≡ s
Reads-outcome (ok a t) f s h g = g a t ∙ h
Reads-outcome (err e t) f s h g = h

pub bind-Reads :
    {S A B : Type 0} (m : M S A) (f : A → M S B)
    → Reads m
    → ((a : A) → Reads (f a))
    → Reads (m >>= f)
bind-Reads m f h g s = Reads-outcome (m s) f s (h s) g

pub or_raise-Reads : {S A : Type 0} (o : Option A) (e : Exn) → Reads {S = S} (or_raise o e)
or_raise-Reads none e s = refl
or_raise-Reads (some a) e s = refl

holds_on :
    {S A B : Type 0} (P : S → Type 0) (o : Outcome S A) (f : A → M S B) (s : S)
    → P (after o)
    → ((a : A) (t : S) → P t → P (after (f a t)))
    → P (after (((λ _. o) >>= f) s))
holds_on P (ok a t) f s h g = g a t h
holds_on P (err e t) f s h g = h

-- What a call and what follows it keep, both keep.
pub bind-holds :
    {S A B : Type 0} (P : S → Type 0) (m : M S A) (f : A → M S B) (s : S)
    → P (after (m s))
    → ((a : A) (t : S) → P t → P (after (f a t)))
    → P (after ((m >>= f) s))
bind-holds P m f s h g = holds_on P (m s) f s h g
