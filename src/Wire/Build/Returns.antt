-- ===== src/Wire/Build/Returns.antt =====
-- What is known of a step of the builder that returns.
use lazily_spec.Prelude.{
  String, Bool, true, false, Option, none, some, [], ◌∷◌, ◌++◌, ◌≡◌, refl, string_eq, Result, ok,
  err,
}
use lazily_spec.Prelude.Members.{In, here, In-append_right}
use lazily_spec.Wire.Types.{Decl}
use lazily_spec.Wire.Build.Monad.{
  BuildError, State, Build, pure, raise, ◌>>=◌, ◌>>◌, require, add_type, given, unnamed_envelope,
}

-- The value and the state between two steps that return.
pub record Between {A B : Type 0} (m : Build A) (k : A → Build B) (s : State) (b : B) (u : State)
    : Type 0 where
  pub value : A
  pub middle : State
  pub first : m s ≡ ok (value, middle)
  pub second : k value middle ≡ ok (b, u)

pub >>=-ok :
    {A B : Type 0} (m : Build A) (k : A → Build B) (s : State) (b : B) (u : State)
    → (m >>= k) s ≡ ok (b, u)
    → Between m k s b u
unfolding ◌>>=◌
>>=-ok m k s b u h = by_result (m s) refl h
  where
    by_result :
        (r : Result BuildError (_ × State))
        → m s ≡ r
        → elim r [ err e ↦ err e | ok (a, t) ↦ k a t ] ≡ ok (b, u)
        → Between m k s b u
    by_result (err e) q h = cc
    by_result (ok (a, t)) q h = record { value = a; middle = t; first = q; second = h }

pub require_then :
    {B : Type 0} (test : Bool) (e : BuildError) (k : Build B) (s : State) (b : B) (u : State)
    → (require test e >> k) s ≡ ok (b, u)
    → (test ≡ true) × (k s ≡ ok (b, u))
unfolding require pure raise ◌>>◌ ◌>>=◌
require_then true e k s b u h = (refl, h)
require_then false e k s b u h = cc

pub add_type-ok : (d : Decl) (s u : State) (b : Unit {0}) → add_type d s ≡ ok (b, u) → In d u.types
unfolding add_type
add_type-ok d s u b h =
    let after : s.types ++ d ∷ [] ≡ u.types = cc in
    rw after at (In-append_right d s.types (d ∷ []) (here refl))

pub given-ok :
    (name : Option String) (s t : State) (value : String)
    → given name (raise unnamed_envelope) pure s ≡ ok (value, t)
    → name ≡ some value
unfolding given raise pure
given-ok none s t value h = cc
given-ok (some name) s t value h = cc
