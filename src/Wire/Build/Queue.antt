-- ===== src/Wire/Build/Queue.antt =====
-- The loop of `build` over the queue of shared definitions.
use lazily_spec.Prelude.{
  ℕ, zero, suc, ◌≤◌, ◌<◌, ◌+◌, String, true, false, Option, none, some, List, ◌≡◌, ◌≢◌, refl, arith,
  inl, inr, Bool-cases, Option-cases, ◌==◌, string_eq, contains, Result, ok, err, get_elem?, nat_eq,
  nat_beq_iff, length,
}
use lazily_spec.Prelude.Distinct.{contains-head, Distinct-length_le}
use lazily_spec.Blocks.Json.{Json, get, keys}
use lazily_spec.Wire.Types.{Decl}
use lazily_spec.Wire.Build.Monad.{
  BuildError, in_rounds, State, Build, pure, raise, ◌>>=◌, ◌>>◌, add_type, add_emitted, state,
  if◌then◌else◌, given, too_many_rounds,
}
use lazily_spec.Wire.Build.Rules.{IsGrowth, Outcome, Steps, Any, Steps-then, with_emitted}
use lazily_spec.Wire.Build.Grows.{
  get_elem?-none, get_elem?-some, contains-get_elem?, ValidQueue, Grows, Grows-IsGrowth,
}
use lazily_spec.Wire.Build.Declare.{Env, shared_defs}
use lazily_spec.Wire.Build.Declare.Steps.{WellScoped}
use lazily_spec.Wire.Build.Union.{
  declaration, add_declared, emit_new, emit, emit_all, emit_shared, drain,
}
use lazily_spec.Wire.Build.Surface.{root_type, collect, empty}
use lazily_spec.Wire.Build.Surface.Steps.{root_type-Steps}
use lazily_spec.Wire.Build.Union.Steps.{declaration-Steps, emit_all-Steps, emit_shared-Steps}

-- If a step returns, the name is emitted.
abbrev Emits : String → Result BuildError (Unit {0} × State) → Type 0
Emits name (err e) = Unit
Emits name (ok (a, t)) = contains t.emitted name ≡ true

-- The loop ends, and every name of the queue is emitted then.
abbrev pub Drained : Result BuildError (Unit {0} × State) → Type 0
Drained (err e) = in_rounds e ≡ true
Drained (ok (a, t)) =
    (i : ℕ) (n : String) → get_elem? t.shared_queue i ≡ some n → contains t.emitted n ≡ true

module _ (env : Env) (scoped : WellScoped env) where
  abbrev known : List String
  known = keys env.shared

  growth : IsGrowth known (Grows known)
  growth = Grows-IsGrowth known

  add_declared-Emits :
      (s t : State) (name : String) (d : Option Decl)
      → Grows known (with_emitted name s) t
      → Emits name (add_declared d t)
  unfolding pure add_type
  add_declared-Emits s t name none g = g.kept name (contains-head name s.emitted)
  add_declared-Emits s t name (some d) g = g.kept name (contains-head name s.emitted)

  emit_new-Emits :
      (f : ℕ) (name : String) (node : Json) (s : State) → Emits name (emit_new f env name node s)
  unfolding emit_new ◌>>=◌ ◌>>◌ add_emitted
  emit_new-Emits f name node s =
      by_result (declaration f env name node (with_emitted name s))
        ((declaration-Steps env scoped growth f name node).at (with_emitted name s))
    where
      by_result :
          (r : Result BuildError (Option Decl × State))
          → Outcome (Grows known) (Any (Grows known)) (with_emitted name s) r
          → Emits name (elim r [ err e ↦ err e | ok (d, t) ↦ add_declared d t ])
      by_result (err e) h = tt
      by_result (ok (d, t)) (g, named) = add_declared-Emits s t name d g

  emit-Emits :
      (f : ℕ) (name : String) (node : Json) (s : State) → Emits name (emit f env name node s)
  unfolding emit ◌>>=◌ state if◌then◌else◌ pure
  emit-Emits f name node s = elim (Bool-cases (contains s.emitted name)) [
    | inl e ↦ rw e e
    | inr e ↦ rw e (emit_new-Emits f name node s)
  ]

  emit_shared-Emits : (f : ℕ) (name : String) (s : State) → Emits name (emit_shared f env name s)
  unfolding emit_shared given raise
  emit_shared-Emits f name s = elim (Option-cases (get name env.shared)) [
    | inl e ↦ rw e tt
    | inr (node, e) ↦ rw e (emit-Emits f name node s)
  ]

  -- Every name of the queue before a place is emitted.
  abbrev DoneBefore : ℕ → State → Type 0
  DoneBefore at s =
      (i : ℕ) (n : String)
      → i < at
      → get_elem? s.shared_queue i ≡ some n
      → contains s.emitted n ≡ true

  DoneBefore-suc :
      (at : ℕ) (name : String) (s t : State)
      → DoneBefore at s
      → get_elem? s.shared_queue at ≡ some name
      → Grows known s t
      → contains t.emitted name ≡ true
      → DoneBefore (suc at) t
  DoneBefore-suc at name s t done here g has i n h e = elim (Bool-cases (i == at)) [
    | inl p ↦
        let same_place : i ≡ at = (nat_beq_iff i at).0 p in
        let unchanged = g.same at (get_elem?-some s.shared_queue at name here) in same_name cc
    | inr p ↦
        let unchanged =
          g.same i (omega (arith, before p, get_elem?-some s.shared_queue at name here)) in
        g.kept n (done i n (before p) cc)
  ]
    where
      before : (i == at) ≡ false → i < at
      before k = grind (arith, nat_beq_iff i at)

      same_name : some name ≡ some n → contains t.emitted n ≡ true
      same_name h = let same_text : name ≡ n = cc in rw same_text at has

  then-Drained :
      (m k : Build (Unit {0})) (name : String) (s : State)
      → Outcome (Grows known) (Any (Grows known)) s (m s)
      → Emits name (m s)
      → ((t : State) → Grows known s t → contains t.emitted name ≡ true → Drained (k t))
      → Drained ((m >> k) s)
  unfolding ◌>>◌ ◌>>=◌
  then-Drained m k name s h has next = by_result (m s) h has
    where
      by_result :
          (r : Result BuildError (Unit {0} × State))
          → Outcome (Grows known) (Any (Grows known)) s r
          → Emits name r
          → Drained (elim r [ err e ↦ err e | ok (a, t) ↦ k t ])
      by_result (err e) h has = h
      by_result (ok (a, t)) (g, u) has = next t g has

  drain-step :
      (rounds f at : ℕ) (s : State)
      → DoneBefore at s
      → ((name : String) (t : State)
          → get_elem? s.shared_queue at ≡ some name
          → Grows known s t
          → contains t.emitted name ≡ true
          → Drained (drain rounds f env (suc at) t))
      → Drained (drain (suc rounds) f env at s)
  unfolding drain state given pure ◌>>=◌
  drain-step rounds f at s done next = elim (Option-cases (get_elem? s.shared_queue at)) [
    | inl e ↦ rw e (λ i n p.
        done i n
          (omega (arith, get_elem?-none s.shared_queue at e, get_elem?-some s.shared_queue i n p))
          p)
    | inr (name, e) ↦ rw e (
        then-Drained (emit_shared f env name) (drain rounds f env (suc at)) name s
          ((emit_shared-Steps env scoped growth f name).at s) (emit_shared-Emits f name s)
          (λ t g has. next name t e g has))
  ]

  drain-Drained :
      (rounds f at : ℕ) (s : State)
      → ValidQueue known s
      → at ≤ length s.shared_queue
      → length known < rounds + at
      → DoneBefore at s
      → Drained (drain rounds f env at s)
  unfolding drain raise
  drain-Drained zero f at s (d, w) h k done =
      absurd (omega (arith, h, k, Distinct-length_le s.shared_queue known d w))
  drain-Drained (suc rounds) f at s valid h k done =
      drain-step rounds f at s done (λ name t e g has.
        drain-Drained rounds f (suc at) t (g.valid valid)
          (omega (arith, g.longer, get_elem?-some s.shared_queue at name e)) (omega (arith, k))
          (DoneBefore-suc at name s t done e g has))

-- The loop, after a step that leaves the queue valid.
then_drain :
    (m : Build (Unit {0})) (rounds f : ℕ) (env : Env) (scoped : WellScoped env) (s : State)
    → ValidQueue (keys env.shared) s
    → Steps (Grows (keys env.shared)) (Any (Grows (keys env.shared))) m
    → length (keys env.shared) < rounds
    → Drained ((m >> drain rounds f env 0) s)
unfolding ◌>>◌ ◌>>=◌
then_drain m rounds f env scoped s valid steps enough = by_result (m s) (steps.at s)
  where
    by_result :
        (r : Result BuildError (Unit {0} × State))
        → Outcome (Grows (keys env.shared)) (Any (Grows (keys env.shared))) s r
        → Drained (elim r [ err e ↦ err e | ok (a, t) ↦ drain rounds f env 0 t ])
    by_result (err e) h = h
    by_result (ok (a, t)) (g, u) =
        drain-Drained env scoped rounds f 0 t (g.valid valid) (omega arith) (omega (arith, enough))
          (λ i n h e. absurd (omega (arith, h)))

abbrev onward :
    Build (Unit {0}) → Result BuildError (Unit {0} × State) → Result BuildError (Unit {0} × State)
onward k r = elim r [ err e ↦ err e | ok (a, t) ↦ k t ]

then_assoc : (m k l : Build (Unit {0})) (s : State) → (m >> (k >> l)) s ≡ ((m >> k) >> l) s
unfolding ◌>>◌ ◌>>=◌
then_assoc m k l s = by_result (m s)
  where
    by_result :
        (r : Result BuildError (Unit {0} × State))
        → onward (λ t. onward l (k t)) r ≡ onward l (onward k r)
    by_result (err e) = refl
    by_result (ok (a, t)) = refl

collect-Drained :
    (rounds f : ℕ) (env : Env)
    → WellScoped env
    → length (keys env.shared) < rounds
    → Drained (collect rounds f env empty)
unfolding collect
collect-Drained rounds f env scoped enough =
    rw (then_assoc (emit_all f env env.defs) (root_type f env) (drain rounds f in_shared 0) empty) (
      then_drain (emit_all f env env.defs >> root_type f env) rounds f in_shared (inr refl) empty
        (tt, tt)
        (Steps-then (growth env scoped) _ _ _ _
          (emit_all-Steps env scoped (growth env scoped) f env.defs)
          (root_type-Steps env scoped (growth env scoped) f))
        enough)
  where
    in_shared : Env
    in_shared = record env { scope_path = shared_defs; scope_defs = env.shared }

-- Where the loop may run once more than the shared document has definitions, collecting the
-- declarations of a schema, its envelope among them, never stops for want of rounds, and if it
-- returns then every name of the shared queue is emitted. Local references resolve in the shared document only where the scope is
-- that document.
pub collect-Complete :
    (rounds f : ℕ) (env : Env)
    → WellScoped env
    → length (keys env.shared) < rounds
    → (collect rounds f env empty ≢ err too_many_rounds)
      × ((t : State) (n : String)
          → collect rounds f env empty ≡ ok (tt, t)
          → contains t.shared_queue n ≡ true
          → contains t.emitted n ≡ true)
collect-Complete rounds f env scoped enough =
    of_result (collect rounds f env empty) (collect-Drained rounds f env scoped enough)
  where
    of_result :
        (r : Result BuildError (Unit {0} × State))
        → Drained r
        → (r ≢ err too_many_rounds)
          × ((t : State) (n : String)
              → r ≡ ok (tt, t)
              → contains t.shared_queue n ≡ true
              → contains t.emitted n ≡ true)
    of_result (err e) h = (λ p. cc, λ t n p k. cc)
    of_result (ok (a, u)) h = (
      λ p. cc,
      λ t n p k.
          let same_state : u ≡ t = cc in
          let (i, e) = contains-get_elem? t.shared_queue n k in rw same_state at h i n e,
    )
