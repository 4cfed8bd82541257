-- ===== src/Wire/Build/Declare/Steps.antt =====
-- Each step of `type_expr` and of the declarations keeps the relation.
use lazily_spec.Prelude.{
  ℕ, zero, suc, String, Bool, true, false, some, List, [], ◌∷◌, ◌≡◌, refl, arith, ◌⊎◌, inl, inr,
  Bool-cases, ◌==◌, string_eq, eq_iff, contains,
}
use lazily_spec.Blocks.Json.{Json, Fields, no_fields, field, get, keys}
use lazily_spec.Wire.Build.Monad.{
  BuildError, in_rounds, State, Build, pure, ◌>>=◌, ◌>>◌, require, state, add_shared, if◌then◌else◌,
}
use lazily_spec.Wire.Build.Rules.{
  IsGrowth, Steps, Any, Steps-pure, Steps-raise, Steps-require, Steps-bind, Steps-then, Steps-if,
  Steps-given, Steps-seq, Steps-append, Steps-declare,
}
use lazily_spec.Wire.Build.Declare.{
  Env, shared_defs, require_doc, Resolved, resolve_in, resolve, enqueue, documented, enum_type,
  declare_enum, inline_enum, unsigned, scalar, type_expr, alias_type, field_of, record_fields,
  record_type,
}

get-keys :
    (name : String) (fs : Fields) {node : Json}
    → get name fs ≡ some node
    → contains (keys fs) name ≡ true
unfolding get keys
get-keys name no_fields h = cc
get-keys name (field k v fs) h = elim (Bool-cases (k == name)) [
  | inl e ↦ rw ((eq_iff k name).0 e) (ground (arith, eq_iff name name))
  | inr e ↦ ground (arith, get-keys name fs (rw (e, get) at h))
]

-- Local references resolve in the shared document only where that is the scope.
abbrev pub WellScoped : Env → Type 0
WellScoped env = ((env.scope_path == shared_defs) ≡ false) ⊎ (env.scope_defs ≡ env.shared)

-- A resolved reference to the shared document is one of its definitions.
abbrev pub IsKnown : Env → Resolved → Type 0
IsKnown env r = (r.2 ≡ false) ⊎ (contains (keys env.shared) r.0 ≡ true)

module _ (env : Env) (scoped : WellScoped env) {R : State → State → Type 0}
    (growth : IsGrowth (keys env.shared) R) where
  pub require_doc-Steps : (node : Json) → Steps R (Any R) (require_doc env node)
  unfolding require_doc
  require_doc-Steps node =
      Steps-given growth _ _ _ _ (Steps-raise growth _ _ refl)
        (λ doc e. Steps-if growth _ _ _ _ (Steps-raise growth _ _ refl) (Steps-pure growth _ _ tt))

  documented-Steps : (docs : Fields) (vs : List Json) → Steps R (Any R) (documented env docs vs)
  unfolding documented
  documented-Steps docs [] = Steps-pure growth _ _ tt
  documented-Steps docs (v ∷ vs) =
      Steps-given growth _ _ _ _ (Steps-raise growth _ _ refl) (λ wire e.
        Steps-given growth _ _ _ _ (Steps-raise growth _ _ refl) (λ doc e'.
          Steps-if growth _ _ _ _ (Steps-raise growth _ _ refl)
            (Steps-seq growth _ _ (documented-Steps docs vs) (λ others. Steps-pure growth _ _ tt))))

  -- A test of the schema, and what follows it.
  pub checked :
      {A : Type 0} (Q : A → Type 0) (b : Bool) (e : BuildError) (k : Build A)
      → in_rounds e ≡ true
      → Steps R Q k
      → Steps R Q (require b e >> k)
  checked Q b e k h hk = Steps-then growth (Any R) Q (require b e) k (Steps-require growth b e h) hk

  pub enum_type-Steps : (name : String) (node : Json) → Steps R (Any R) (enum_type env name node)
  unfolding enum_type
  enum_type-Steps name node = checked _ _ _ _ refl (
      checked _ _ _ _ refl (
        Steps-bind growth (Any R) _ _ _ (documented-Steps _ _) (λ c r.
          Steps-then growth (Any R) _ _ _ (require_doc-Steps node) (Steps-pure growth _ _ tt))))

  declare_enum-Steps :
      (name : String) (node : Json) (names : List String)
      → Steps R (Any R) (declare_enum env name node names)
  unfolding declare_enum
  declare_enum-Steps name node names =
      Steps-if growth _ _ _ _ (Steps-pure growth _ _ tt)
        (Steps-declare growth name _ _ (enum_type-Steps name node) (λ d. Steps-append growth d))

  inline_enum-Steps : (node : Json) → Steps R (Any R) (inline_enum env node)
  unfolding inline_enum
  inline_enum-Steps node = Steps-given growth _ _ _ _ (Steps-raise growth _ _ refl) (λ name e.
      checked _ _ _ _ refl
        (Steps-then growth (Any R) _ _ _ (at_state name) (Steps-pure growth _ _ tt)))
    where
      at_state :
          (name : String) → Steps R (Any R) (state >>= λ s. declare_enum env name node s.emitted)
      at_state name = record {
        at = λ s. unfold state in unfold ◌>>=◌ in (declare_enum-Steps name node s.emitted).at s;
      }

  unsigned-Steps : (node : Json) → Steps R (Any R) (unsigned node)
  unfolding unsigned
  unsigned-Steps node = checked _ _ _ _ refl (checked _ _ _ _ refl (Steps-pure growth _ _ tt))

  scalar-Steps : (node : Json) → Steps R (Any R) (scalar env node)
  unfolding scalar
  scalar-Steps node = Steps-if growth _ _ _ _ (inline_enum-Steps node) (
      Steps-if growth _ _ _ _ (Steps-pure growth _ _ tt) (
        Steps-if growth _ _ _ _ (unsigned-Steps node)
          (Steps-if growth _ _ _ _ (Steps-pure growth _ _ tt) (Steps-raise growth _ _ refl))))

  resolve_in-Steps :
      (name : String) (defs : Fields) (is_shared : Bool)
      → (is_shared ≡ false) ⊎ (defs ≡ env.shared)
      → Steps R (IsKnown env) (resolve_in env name defs is_shared)
  unfolding resolve_in
  resolve_in-Steps name defs is_shared place =
      Steps-given growth _ _ _ _ (Steps-raise growth _ _ refl) (λ node e.
        Steps-if growth _ _ _ _ (Steps-raise growth _ _ refl)
          (Steps-pure growth _ _ (known place e)))
    where
      known :
          {node : Json}
          → (is_shared ≡ false) ⊎ (defs ≡ env.shared)
          → get name defs ≡ some node
          → IsKnown env (name, node, is_shared)
      known (inl p) e = inl p
      known (inr p) e = inr (rw (← p) (get-keys name defs e))

  resolve-Steps : (node : Json) → Steps R (IsKnown env) (resolve env node)
  unfolding resolve
  resolve-Steps node = Steps-given growth _ _ _ _ (Steps-raise growth _ _ refl) (λ r e.
      Steps-given growth _ _ _ _
        (Steps-given growth _ _ _ _ (Steps-raise growth _ _ refl)
          (λ name e. resolve_in-Steps name env.shared true (inr refl)))
        (λ name e. resolve_in-Steps name env.scope_defs (env.scope_path == shared_defs) scoped))

  enqueue-Steps :
      (is_shared : Bool) (name : String)
      → (is_shared ≡ false) ⊎ (contains (keys env.shared) name ≡ true)
      → Steps R (Any R) (enqueue is_shared name)
  unfolding enqueue
  enqueue-Steps false name known = Steps-pure growth _ _ tt
  enqueue-Steps true name (inl e) = cc
  enqueue-Steps true name (inr known) = record {
    at = λ s. elim (Bool-cases (contains s.shared_queue name)) [
      | inl e ↦
          unfold state in
          unfold ◌>>=◌ in unfold if◌then◌else◌ in unfold pure in rw e (growth.stay s, tt)
      | inr e ↦
          unfold state in
          unfold ◌>>=◌ in
          unfold if◌then◌else◌ in unfold add_shared in rw e (growth.queue s name known e, tt)
    ];
  }

  pub type_expr-Steps : (f : ℕ) (node : Json) → Steps R (Any R) (type_expr f env node)
  unfolding type_expr
  type_expr-Steps zero node = Steps-raise growth _ _ refl
  type_expr-Steps (suc f) node =
      Steps-given growth _ _ _ _
        (Steps-given growth _ _ _ _
          (Steps-given growth _ _ _ _ (scalar-Steps node) (λ item e.
            Steps-if growth _ _ _ _ (Steps-pure growth _ _ tt)
              (Steps-seq growth _ _ (type_expr-Steps f item) (λ x. Steps-pure growth _ _ tt))))
          (λ inner e.
            Steps-seq growth _ _ (type_expr-Steps f inner) (λ x. Steps-pure growth _ _ tt)))
        (λ r e.
          Steps-bind growth (IsKnown env) _ _ _ (resolve-Steps r)
            (λ (name, target, is_shared) known.
              Steps-given growth _ _ _ _ (Steps-raise growth _ _ refl) (λ kind e'.
                Steps-if growth _ _ _ _ (type_expr-Steps f target) (
                  Steps-then growth (Any R) _ _ _ (enqueue-Steps is_shared name known)
                    (Steps-pure growth _ _ tt)))))

  pub alias_type-Steps :
      (f : ℕ) (name : String) (node : Json) → Steps R (Any R) (alias_type f env name node)
  unfolding alias_type
  alias_type-Steps f name node = Steps-then growth (Any R) _ _ _ (require_doc-Steps node) (
      Steps-bind growth (Any R) _ _ _ (type_expr-Steps f node)
        (λ target r. Steps-pure growth _ _ tt))

  field_of-Steps :
      (f : ℕ) (required : List String) (name : String) (node : Json)
      → Steps R (Any R) (field_of f env required name node)
  unfolding field_of
  field_of-Steps f required name node = checked _ _ _ _ refl (
      Steps-seq growth _ _ (require_doc-Steps node) (λ doc.
        Steps-seq growth _ _ (type_expr-Steps f node)
          (λ type. checked _ _ _ _ refl (Steps-pure growth _ _ tt))))

  record_fields-Steps :
      (f : ℕ) (required : List String) (fs : Fields)
      → Steps R (Any R) (record_fields f env required fs)
  unfolding record_fields
  record_fields-Steps f required no_fields = Steps-pure growth _ _ tt
  record_fields-Steps f required (field name node rest) =
      Steps-seq growth _ _ (field_of-Steps f required name node) (λ first.
        Steps-seq growth _ _ (record_fields-Steps f required rest)
          (λ others. Steps-pure growth _ _ tt))

  pub record_type-Steps :
      (f : ℕ) (name : String) (node : Json) → Steps R (Any R) (record_type f env name node)
  unfolding record_type
  record_type-Steps f name node = checked _ _ _ _ refl (
      checked _ _ _ _ refl (
        checked _ _ _ _ refl (
          Steps-bind growth (Any R) _ _ _ (record_fields-Steps f _ _) (λ fields r.
            Steps-then growth (Any R) _ _ _ (require_doc-Steps node) (Steps-pure growth _ _ tt)))))
