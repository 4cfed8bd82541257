-- ===== src/Wire/Build/Surface/Steps.antt =====
-- The step between the loops of `build` keeps the relation.
use lazily_spec.Prelude.{ℕ, String, refl}
use lazily_spec.Blocks.Json.{Json, Fields, no_fields, field, keys}
use lazily_spec.Wire.Types.{Expr, text, u64, bool, bytes, ref, nullable, list}
use lazily_spec.Wire.Build.Monad.{State}
use lazily_spec.Wire.Build.Rules.{
  IsGrowth, Steps, Any, Steps-pure, Steps-raise, Steps-require, Steps-then, Steps-if, Steps-given,
  Steps-seq, Steps-mark, Steps-append,
}
use lazily_spec.Wire.Build.Declare.{Env}
use lazily_spec.Wire.Build.Declare.Steps.{
  WellScoped, checked, require_doc-Steps, type_expr-Steps, record_type-Steps,
}
use lazily_spec.Wire.Build.Surface.{
  name_of, envelope_variant, envelope_variants, envelope_type, root_type,
}

module _ (env : Env) (scoped : WellScoped env) {R : State → State → Type 0}
    (growth : IsGrowth (keys env.shared) R) where
  name_of-Steps : (e : Expr) → Steps R (Any R) (name_of e)
  unfolding name_of
  name_of-Steps (ref name) = Steps-pure growth _ _ tt
  name_of-Steps (text least most pattern) = Steps-raise growth _ _ refl
  name_of-Steps u64 = Steps-raise growth _ _ refl
  name_of-Steps bool = Steps-raise growth _ _ refl
  name_of-Steps bytes = Steps-raise growth _ _ refl
  name_of-Steps (nullable e) = Steps-raise growth _ _ refl
  name_of-Steps (list e) = Steps-raise growth _ _ refl

  envelope_variant-Steps :
      (f : ℕ) (tag : String) (node : Json) → Steps R (Any R) (envelope_variant f env tag node)
  unfolding envelope_variant
  envelope_variant-Steps f tag node =
      Steps-if growth _ _ _ _
        (Steps-seq growth _ _ (type_expr-Steps env scoped growth f node) (λ target.
          Steps-seq growth _ _ (name_of-Steps target) (λ name. Steps-pure growth _ _ tt)))
        (Steps-then growth (Any R) _ _ _ (Steps-mark growth tag) (
          Steps-seq growth _ _ (record_type-Steps env scoped growth f tag node) (λ d.
            Steps-then growth (Any R) _ _ _ (Steps-append growth d) (Steps-pure growth _ _ tt))))

  envelope_variants-Steps : (f : ℕ) (fs : Fields) → Steps R (Any R) (envelope_variants f env fs)
  unfolding envelope_variants
  envelope_variants-Steps f no_fields = Steps-pure growth _ _ tt
  envelope_variants-Steps f (field tag node rest) =
      Steps-seq growth _ _ (envelope_variant-Steps f tag node) (λ first.
        Steps-seq growth _ _ (envelope_variants-Steps f rest) (λ others. Steps-pure growth _ _ tt))

  envelope_type-Steps : (f : ℕ) (envelope : Json) → Steps R (Any R) (envelope_type f env envelope)
  unfolding envelope_type
  envelope_type-Steps f envelope = checked env scoped growth _ _ _ _ refl (
      Steps-seq growth _ _ (envelope_variants-Steps f _) (λ variants.
        checked env scoped growth _ _ _ _ refl (
          Steps-seq growth _ _
            (Steps-given growth _ _ _ _ (Steps-raise growth _ _ refl)
              (λ name e. Steps-pure growth _ _ tt))
            (λ name.
              Steps-then growth (Any R) _ _ _ (require_doc-Steps env scoped growth envelope)
                (Steps-append growth _)))))

  pub root_type-Steps : (f : ℕ) → Steps R (Any R) (root_type f env)
  unfolding root_type
  root_type-Steps f =
      Steps-given growth _ _ _ _ (Steps-require growth _ _ refl)
        (λ envelope e. envelope_type-Steps f envelope)
