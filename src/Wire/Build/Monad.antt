-- ===== src/Wire/Build/Monad.antt =====
-- The state of `_SurfaceBuilder`, and chains of steps on it that may raise.
use lazily_spec.Prelude.{
  String, Bool, true, false, Option, none, some, List, [], ◌∷◌, ◌++◌, Result, ok, err,
}
use lazily_spec.Wire.Types.{Decl}

pub data BuildError : Type 0 where
  no_description no_string_ref foreign_ref unsupported_definition unsupported_shape : BuildError
  unnamed_enum bad_enum bad_enum_docs undocumented_value signed_integer bounded_integer : BuildError
  open_variant many_keys optional_tag bad_branch bad_tag other_title few_tags : BuildError
  open_record empty_record unknown_required bad_field_name default_of_required : BuildError
  no_enum_values recursion_limit too_many_rounds : BuildError
  open_envelope no_record_named many_variants unnamed_envelope no_envelope : BuildError
  unresolved declared_twice : String → BuildError

-- Every error but that of the loop over the queue.
abbrev pub in_rounds : BuildError → Bool
in_rounds too_many_rounds = false
in_rounds _ = true

pub record State : Type 0 where
  pub types : List Decl
  pub emitted : List String
  pub shared_queue : List String

abbrev pub Build : Type 0 → Type 0
Build A = State → Result BuildError (A × State)

unfoldable pub pure : {A : Type 0} → A → Build A
pure a s = ok (a, s)

unfoldable pub raise : {A : Type 0} → BuildError → Build A
raise e s = err e

infixl 5 ◌>>=◌ ◌>>◌
unfoldable pub ◌>>=◌ : {A B : Type 0} → Build A → (A → Build B) → Build B
◌>>=◌ m f s = elim (m s) [ err e ↦ err e | ok (a, s') ↦ f a s' ]

unfoldable pub ◌>>◌ : {A B : Type 0} → Build A → Build B → Build B
unfolding ◌>>=◌
m >> k = m >>= λ _. k

unfoldable pub require : Bool → BuildError → Build (Unit {0})
unfolding pure raise
require true e = pure tt
require false e = raise e

unfoldable pub add_type : Decl → Build (Unit {0})
add_type d s = ok (tt, record s { types = s.types ++ d ∷ [] })

unfoldable pub add_emitted : String → Build (Unit {0})
add_emitted name s = ok (tt, record s { emitted = name ∷ s.emitted })

unfoldable pub add_shared : String → Build (Unit {0})
add_shared name s = ok (tt, record s { shared_queue = s.shared_queue ++ name ∷ [] })

unfoldable pub state : Build State
state s = ok (s, s)

-- `if test: ... else: ...`, and a test for None, between steps.
infix 1 if◌then◌else◌
unfoldable pub if◌then◌else◌ : {A : Type 0} → Bool → Build A → Build A → Build A
if true then m else k = m
if false then m else k = k

unfoldable pub given : {A X : Type 0} → Option X → Build A → (X → Build A) → Build A
given none m f = m
given (some x) m f = f x
