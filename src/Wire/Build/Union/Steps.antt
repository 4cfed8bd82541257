-- ===== src/Wire/Build/Union/Steps.antt =====
-- Each step of `union_type`, `declaration` and `_emit` keeps the relation.
use lazily_spec.Prelude.{ℕ, String, Option, none, some, List, [], ◌∷◌, refl, string_eq, contains}
use lazily_spec.Blocks.Json.{Json, Fields, no_fields, field, keys}
use lazily_spec.Wire.Types.{Decl}
use lazily_spec.Wire.Build.Monad.{State, ◌>>=◌, state}
use lazily_spec.Wire.Build.Rules.{
  IsGrowth, Steps, Any, Steps-pure, Steps-raise, Steps-bind, Steps-then, Steps-if, Steps-given,
  Steps-seq, Steps-declare, Steps-append,
}
use lazily_spec.Wire.Build.Declare.{Env}
use lazily_spec.Wire.Build.Declare.Steps.{
  WellScoped, checked, require_doc-Steps, enum_type-Steps, type_expr-Steps, alias_type-Steps,
  record_type-Steps,
}
use lazily_spec.Wire.Build.Union.{
  tagged_branch, read_branch, payload_type, variant_of, variants_of, union_type, declare_as,
  declaration, add_declared, emit_new, emit, emit_all, emit_shared,
}

module _ (env : Env) (scoped : WellScoped env) {R : State → State → Type 0}
    (growth : IsGrowth (keys env.shared) R) where
  tagged_branch-Steps : (node : Json) → Steps R (Any R) (tagged_branch node)
  unfolding tagged_branch
  tagged_branch-Steps node = checked env scoped growth _ _ _ _ refl (
      Steps-given growth _ _ _ _ (Steps-raise growth _ _ refl)
        (λ (tag, payload) e. checked env scoped growth _ _ _ _ refl (Steps-pure growth _ _ tt)))

  read_branch-Steps : (node : Json) → Steps R (Any R) (read_branch node)
  unfolding read_branch
  read_branch-Steps node = Steps-if growth _ _ _ _ (Steps-raise growth _ _ refl) (
      Steps-if growth _ _ _ _
        (Steps-given growth _ _ _ _ (Steps-raise growth _ _ refl)
          (λ tag e. Steps-pure growth _ _ tt))
        (Steps-if growth _ _ _ _ (tagged_branch-Steps node) (Steps-raise growth _ _ refl)))

  payload_type-Steps :
      (f : ℕ) (payload : Option Json) → Steps R (Any R) (payload_type f env payload)
  unfolding payload_type
  payload_type-Steps f payload = Steps-given growth _ _ _ _ (Steps-pure growth _ _ tt) (λ node e.
      Steps-seq growth _ _ (type_expr-Steps env scoped growth f node)
        (λ x. Steps-pure growth _ _ tt))

  variant_of-Steps : (f : ℕ) (branch : Json) → Steps R (Any R) (variant_of f env branch)
  unfolding variant_of
  variant_of-Steps f branch = Steps-seq growth _ _ (read_branch-Steps branch) (λ (tag, payload).
      checked env scoped growth _ _ _ _ refl (
        checked env scoped growth _ _ _ _ refl (
          Steps-seq growth _ _ (require_doc-Steps env scoped growth _) (λ doc.
            Steps-seq growth _ _ (payload_type-Steps f payload)
              (λ type. Steps-pure growth _ _ tt)))))

  variants_of-Steps : (f : ℕ) (branches : List Json) → Steps R (Any R) (variants_of f env branches)
  unfolding variants_of
  variants_of-Steps f [] = Steps-pure growth _ _ tt
  variants_of-Steps f (branch ∷ rest) = Steps-seq growth _ _ (variant_of-Steps f branch) (λ first.
      Steps-seq growth _ _ (variants_of-Steps f rest) (λ others. Steps-pure growth _ _ tt))

  union_type-Steps :
      (f : ℕ) (name : String) (node : Json) → Steps R (Any R) (union_type f env name node)
  unfolding union_type
  union_type-Steps f name node =
      Steps-bind growth (Any R) _ _ _ (variants_of-Steps f _) (λ variants r.
        checked env scoped growth _ _ _ _ refl (
          Steps-then growth (Any R) _ _ _ (require_doc-Steps env scoped growth node)
            (Steps-pure growth _ _ tt)))

  declare_as-Steps :
      (f : ℕ) (name : String) (node : Json) (kind : String)
      → Steps R (Any R) (declare_as f env name node kind)
  unfolding declare_as
  declare_as-Steps f name node kind = Steps-if growth _ _ _ _ (Steps-pure growth _ _ tt) (
      Steps-bind growth (Any R) _ _ _
        (Steps-if growth _ _ _ _ (enum_type-Steps env scoped growth name node) (
          Steps-if growth _ _ _ _ (record_type-Steps env scoped growth f name node) (
            Steps-if growth _ _ _ _ (union_type-Steps f name node)
              (alias_type-Steps env scoped growth f name node))))
        (λ d named. Steps-pure growth _ (some d) tt))

  pub declaration-Steps :
      (f : ℕ) (name : String) (node : Json) → Steps R (Any R) (declaration f env name node)
  unfolding declaration
  declaration-Steps f name node =
      Steps-given growth _ _ _ _ (Steps-raise growth _ _ refl)
        (λ kind e. declare_as-Steps f name node kind)

  add_declared-Steps : (d : Option Decl) → Steps R (Any R) (add_declared d)
  add_declared-Steps none = Steps-pure growth _ _ tt
  add_declared-Steps (some d) = Steps-append growth d

  emit_new-Steps :
      (f : ℕ) (name : String) (node : Json) → Steps R (Any R) (emit_new f env name node)
  unfolding emit_new
  emit_new-Steps f name node =
      Steps-declare growth name _ _ (declaration-Steps f name node) add_declared-Steps

  pub emit-Steps : (f : ℕ) (name : String) (node : Json) → Steps R (Any R) (emit f env name node)
  unfolding emit
  emit-Steps f name node = record {
    at = λ s.
        unfold state in
        unfold ◌>>=◌ in
        (Steps-if growth _ (contains s.emitted name) _ _ (Steps-pure growth _ _ tt)
            (emit_new-Steps f name node)).at
          s;
  }

  pub emit_all-Steps : (f : ℕ) (fs : Fields) → Steps R (Any R) (emit_all f env fs)
  unfolding emit_all
  emit_all-Steps f no_fields = Steps-pure growth _ _ tt
  emit_all-Steps f (field name node rest) =
      Steps-then growth (Any R) _ _ _ (emit-Steps f name node) (emit_all-Steps f rest)

  pub emit_shared-Steps : (f : ℕ) (name : String) → Steps R (Any R) (emit_shared f env name)
  unfolding emit_shared
  emit_shared-Steps f name =
      Steps-given growth _ _ _ _ (Steps-raise growth _ _ refl) (λ node e. emit-Steps f name node)
