-- ===== src/Wire/Build/Rules.antt =====
-- What steps of the builder do to its state: a relation that every step keeps, with one rule for each
-- way to build a step.
use lazily_spec.Prelude.{
  String, Bool, true, false, Option, none, some, List, [], ◌∷◌, ◌++◌, ◌≡◌, refl, Result, ok, err,
  contains, string_eq,
}
use lazily_spec.Wire.Types.{Decl}
use lazily_spec.Wire.Build.Monad.{
  BuildError, in_rounds, State, Build, pure, raise, ◌>>=◌, ◌>>◌, require, add_emitted, add_type,
  given, if◌then◌else◌,
}

abbrev pub with_emitted : String → State → State
with_emitted name s = record s { emitted = name ∷ s.emitted }

abbrev pub with_type : Decl → State → State
with_type d s = record s { types = s.types ++ d ∷ [] }

abbrev pub with_shared : String → State → State
with_shared name s = record s { shared_queue = s.shared_queue ++ name ∷ [] }

-- A relation of states before and after that composes, and holds where a known name is queued for
-- the first time, where a name is marked as emitted, and where a declaration is added.
pub record IsGrowth (known : List String) (R : State → State → Type 0) : Type 0 where
  pub stay : (s : State) → R s s
  pub compose : (s t u : State) → R s t → R t u → R s u
  pub queue :
      (s : State) (name : String)
      → contains known name ≡ true
      → contains s.shared_queue name ≡ false
      → R s (with_shared name s)
  pub mark : (s : State) (name : String) → R s (with_emitted name s)
  pub append : (s : State) (d : Decl) → R s (with_type d s)

module _ (R : State → State → Type 0) where
  -- A step that returns leaves the relation and a property of its value; one that raises does not
  -- raise for want of rounds.
  abbrev pub Outcome : {A : Type 0} → (A → Type 0) → State → Result BuildError (A × State) → Type 0
  Outcome Q s (err e) = in_rounds e ≡ true
  Outcome Q s (ok (a, t)) = R s t × Q a

  pub record Steps {A : Type 0} (Q : A → Type 0) (m : Build A) : Type 0 where
    pub at : (s : State) → Outcome Q s (m s)

  abbrev pub Any : {A : Type 0} → A → Type 0
  Any a = Unit

module _ {known : List String} {R : State → State → Type 0} (growth : IsGrowth known R) where
  open growth use {stay, compose}

  pub Steps-pure : {A : Type 0} (Q : A → Type 0) (a : A) → Q a → Steps R Q (pure a)
  unfolding pure
  Steps-pure Q a q = record { at = λ s. (stay s, q) }

  pub Steps-raise :
      {A : Type 0} (Q : A → Type 0) (e : BuildError) → in_rounds e ≡ true → Steps R Q (raise e)
  unfolding raise
  Steps-raise Q e h = record { at = λ s. h }

  pub Steps-require :
      (b : Bool) (e : BuildError) → in_rounds e ≡ true → Steps R (Any R) (require b e)
  unfolding require pure raise
  Steps-require true e h = record { at = λ s. (stay s, tt) }
  Steps-require false e h = record { at = λ s. h }

  pub Outcome-from :
      {A : Type 0} (Q : A → Type 0) (s t : State) (r : Result BuildError (A × State))
      → R s t
      → Outcome R Q t r
      → Outcome R Q s r
  Outcome-from Q s t (err e) first h = h
  Outcome-from Q s t (ok (a, u)) first (then_r, q) = (compose s t u first then_r, q)

  pub Outcome-bind :
      {A B : Type 0} (P : A → Type 0) (Q : B → Type 0) (m : Build A) (f : A → Build B) (s : State)
      → Outcome R P s (m s)
      → ((a : A) (t : State) → R s t → P a → Outcome R Q t (f a t))
      → Outcome R Q s ((m >>= f) s)
  unfolding ◌>>=◌
  Outcome-bind P Q m f s h k = by_result (m s) h
    where
      by_result :
          (r : Result BuildError _)
          → Outcome R P s r
          → Outcome R Q s (elim r [ err e ↦ err e | ok (a, t) ↦ f a t ])
      by_result (err e) h = h
      by_result (ok (a, t)) (first, p) = Outcome-from Q s t (f a t) first (k a t first p)

  pub Steps-bind :
      {A B : Type 0} (P : A → Type 0) (Q : B → Type 0) (m : Build A) (f : A → Build B)
      → Steps R P m
      → ((a : A) → P a → Steps R Q (f a))
      → Steps R Q (m >>= f)
  Steps-bind P Q m f hm hf = record {
    at = λ s. Outcome-bind P Q m f s (hm.at s) (λ a t r p. (hf a p).at t);
  }

  pub Steps-then :
      {A B : Type 0} (P : A → Type 0) (Q : B → Type 0) (m : Build A) (k : Build B)
      → Steps R P m
      → Steps R Q k
      → Steps R Q (m >> k)
  unfolding ◌>>◌
  Steps-then P Q m k hm hk = Steps-bind P Q m (λ a. k) hm (λ a p. hk)

  pub Steps-if :
      {A : Type 0} (Q : A → Type 0) (b : Bool) (m k : Build A)
      → Steps R Q m
      → Steps R Q k
      → Steps R Q (if b then m else k)
  unfolding if◌then◌else◌
  Steps-if Q true m k hm hk = hm
  Steps-if Q false m k hm hk = hk

  pub Steps-given :
      {A X : Type 0} (Q : A → Type 0) (o : Option X) (m : Build A) (f : X → Build A)
      → Steps R Q m
      → ((x : X) → o ≡ some x → Steps R Q (f x))
      → Steps R Q (given o m f)
  unfolding given
  Steps-given Q none m f hm hf = hm
  Steps-given Q (some x) m f hm hf = hf x refl

  -- Where nothing is said of the values.
  pub Steps-seq :
      {A B : Type 0} (m : Build A) (f : A → Build B)
      → Steps R (Any R) m
      → ((a : A) → Steps R (Any R) (f a))
      → Steps R (Any R) (m >>= f)
  Steps-seq m f hm hf = Steps-bind (Any R) (Any R) m f hm (λ a p. hf a)

  pub Steps-mark : (name : String) → Steps R (Any R) (add_emitted name)
  unfolding add_emitted
  Steps-mark name = record { at = λ s. (growth.mark s name, tt) }

  pub Steps-append : (d : Decl) → Steps R (Any R) (add_type d)
  unfolding add_type
  Steps-append d = record { at = λ s. (growth.append s d, tt) }

  -- A name that is marked, then a step that makes its declaration.
  pub Steps-declare :
      {A : Type 0} (name : String) (m : Build A) (f : A → Build (Unit {0}))
      → Steps R (Any R) m
      → ((a : A) → Steps R (Any R) (f a))
      → Steps R (Any R) (add_emitted name >> (m >>= f))
  Steps-declare name m f hm hf =
      Steps-then (Any R) (Any R) (add_emitted name) (m >>= f) (Steps-mark name)
        (Steps-seq m f hm hf)
