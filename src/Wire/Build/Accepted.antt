-- ===== src/Wire/Build/Accepted.antt =====
-- The declarations that `build` accepts.
use lazily_spec.Prelude.{
  ℕ, zero, suc, String, true, false, not, ◌&&◌, some, List, [], ◌∷◌, map, ◌≡◌, refl, arith,
  string_eq, get_elem?, Result, ok, err, All, Option-cases, inl, inr,
}
use lazily_spec.Prelude.Members.{In, In-append_left}
use lazily_spec.Prelude.Distinct.{Distinct}
use lazily_spec.Blocks.Json.{Json, keys}
use lazily_spec.Wire.Types.{Decl, decl_name, envelope_decl}
use lazily_spec.Wire.Model.{
  Unsupported, has_repeats, unless, duplicate_names, each_ok, check_refs, check_types, type_exprs,
}
use lazily_spec.Wire.Total.{Known, check_types-Known, >>-ok, unless-ok}
use lazily_spec.Wire.Build.Monad.{
  BuildError, State, pure, raise, ◌>>=◌, ◌>>◌, add_type, state, given, open_envelope, many_variants,
  unnamed_envelope,
}
use lazily_spec.Wire.Build.Rules.{IsGrowth}
use lazily_spec.Wire.Build.Nodes.{attribute, is_text, is_closed}
use lazily_spec.Wire.Build.Declare.{Env, as_text, fields_at, shared_defs, require_doc}
use lazily_spec.Wire.Build.Declare.Steps.{WellScoped}
use lazily_spec.Wire.Build.Union.{requires_only, emit_all, emit_shared, drain}
use lazily_spec.Wire.Build.Union.Steps.{emit_shared-Steps}
use lazily_spec.Wire.Build.Surface.{
  Tagged, requires_one, envelope_variants, envelope_type, envelope_of, root_type, collect, empty,
  checked_types, build, in_step, in_check,
}
use lazily_spec.Wire.Build.Returns.{>>=-ok, require_then, add_type-ok, given-ok}

-- A step keeps the declarations that there are.
record Extends (s t : State) : Type 0 where
  kept : (d : Decl) → In d s.types → In d t.types

Extends-IsGrowth : (known : List String) → IsGrowth known Extends
Extends-IsGrowth known = record {
  stay = λ s. record { kept = λ d i. i };
  compose = λ s t u g h. record { kept = λ d i. h.kept d (g.kept d i) };
  queue = λ s name k e. record { kept = λ d i. i };
  mark = λ s name. record { kept = λ d i. i };
  append = λ s c. record { kept = λ d i. In-append_left d s.types (c ∷ []) i };
}

-- The one variant's tag is the one that the root requires.
pub record HasEnvelope (root envelope : Json) (types : List Decl) : Type 0 where
  pub name : String
  pub tag : String
  pub type : String
  pub named : as_text (attribute "name" envelope) ≡ some name
  pub required : requires_only tag root ≡ true
  pub listed : In (envelope_decl name ((tag, type) ∷ [])) types

requires_one-true :
    (root : Json) (variants : List Tagged)
    → requires_one root variants ≡ true
    → (v : Tagged) × (variants ≡ v ∷ []) × (requires_only v.0 root ≡ true)
requires_one-true root [] h = cc
requires_one-true root ((tag, type) ∷ []) h = ((tag, type), refl, h)
requires_one-true root (v ∷ w ∷ variants) h = cc

envelope_type-HasEnvelope :
    (f : ℕ) (env : Env) (envelope : Json) (s u : State)
    → envelope_type f env envelope s ≡ ok (tt, u)
    → HasEnvelope env.root envelope u.types
unfolding envelope_type
envelope_type-HasEnvelope f env envelope s u h =
    let (closed, h1) =
      require_then (is_text "type" "object" env.root && is_closed env.root) open_envelope _ s tt u
        h in
    let variants = >>=-ok (envelope_variants f env (fields_at "properties" env.root)) _ s tt u h1 in
    let (one, h2) =
      require_then (requires_one env.root variants.value) many_variants _ variants.middle tt u
        variants.second in
    let named =
      >>=-ok (given (as_text (attribute "name" envelope)) (raise unnamed_envelope) pure) _
        variants.middle tt u h2 in
    let documented =
      >>=-ok (require_doc env envelope) (λ d. add_type (envelope_decl named.value variants.value))
        named.middle tt u (unfold ◌>>◌ in named.second) in
    let (v, only, required) = requires_one-true env.root variants.value one in
    record {
      name = named.value;
      tag = v.0;
      type = v.1;
      named =
          given-ok (as_text (attribute "name" envelope)) variants.middle named.middle named.value
            named.first;
      required = required;
      listed = rw only at (
          add_type-ok (envelope_decl named.value variants.value) documented.middle u tt
            documented.second);
    }

root_type-HasEnvelope :
    (f : ℕ) (env : Env) (envelope : Json) (s u : State)
    → envelope_of env.root ≡ some envelope
    → root_type f env s ≡ ok (tt, u)
    → HasEnvelope env.root envelope u.types
unfolding root_type
root_type-HasEnvelope f env envelope s u e h =
    envelope_type-HasEnvelope f env envelope s u (unfold given in rw e at h)

module _ (env : Env) (scoped : WellScoped env) where
  growth : IsGrowth (keys env.shared) Extends
  growth = Extends-IsGrowth (keys env.shared)

  emit_shared-Extends :
      (f : ℕ) (name : String) (s t : State) → emit_shared f env name s ≡ ok (tt, t) → Extends s t
  emit_shared-Extends f name s t h = (rw h at ((emit_shared-Steps env scoped growth f name).at s)).0

  drain-Extends :
      (rounds f at : ℕ) (s t : State) → drain rounds f env at s ≡ ok (tt, t) → Extends s t
  unfolding drain raise pure
  drain-Extends zero f at s t h = cc
  drain-Extends (suc rounds) f at s t h = elim (Option-cases (get_elem? s.shared_queue at)) [
    | inl e ↦ ended (unfold state in unfold ◌>>=◌ in unfold given in rw e at h)
    | inr (name, e) ↦
        one_more name (λ u k. drain-Extends rounds f (suc at) u t k)
          (unfold state in unfold ◌>>=◌ in unfold given in rw e at h)
  ]
    where
      ended : pure tt s ≡ ok (tt, t) → Extends s t
      ended h = let same_state : s ≡ t = cc in rw same_state (growth.stay t)

      one_more :
          (name : String)
          → ((u : State) → drain rounds f env (suc at) u ≡ ok (tt, t) → Extends u t)
          → (emit_shared f env name >> drain rounds f env (suc at)) s ≡ ok (tt, t)
          → Extends s t
      one_more name more h =
          let r =
            >>=-ok (emit_shared f env name) (λ u. drain rounds f env (suc at)) s tt t
              (unfold ◌>>◌ in h) in
          growth.compose s r.middle t (emit_shared-Extends f name s r.middle r.first)
            (more r.middle r.second)

HasEnvelope-mono :
    (root envelope : Json) (s t : State)
    → Extends s t
    → HasEnvelope root envelope s.types
    → HasEnvelope root envelope t.types
HasEnvelope-mono root envelope s t g h = record {
  name = h.name;
  tag = h.tag;
  type = h.type;
  named = h.named;
  required = h.required;
  listed = g.kept (envelope_decl h.name ((h.tag, h.type) ∷ [])) h.listed;
}

collect-HasEnvelope :
    (rounds f : ℕ) (env : Env) (envelope : Json) (t : State)
    → envelope_of env.root ≡ some envelope
    → collect rounds f env empty ≡ ok (tt, t)
    → HasEnvelope env.root envelope t.types
unfolding collect ◌>>◌
collect-HasEnvelope rounds f env envelope t e h =
    let defs = >>=-ok (emit_all f env env.defs) _ empty tt t h in
    let root =
      >>=-ok (root_type f env) (λ u. drain rounds f in_shared 0) defs.middle tt t defs.second in
    HasEnvelope-mono env.root envelope root.middle t
      (drain-Extends in_shared (inr refl) rounds f 0 root.middle t root.second)
      (root_type-HasEnvelope f env envelope defs.middle root.middle e root.first)
  where
    in_shared : Env
    in_shared = record env { scope_path = shared_defs; scope_defs = env.shared }

has_repeats-Distinct : (xs : List String) → has_repeats xs ≡ false → Distinct xs
unfolding has_repeats
has_repeats-Distinct [] h = tt
has_repeats-Distinct (x ∷ xs) h = (ground arith, has_repeats-Distinct xs (ground arith))

check_types-Distinct : (ts : List Decl) → check_types ts ≡ ok tt → Distinct (map decl_name ts)
unfolding check_types
check_types-Distinct [] h = cc
check_types-Distinct (t ∷ ts) h =
    let names = map decl_name (t ∷ ts) in
    let (unique, _) =
      >>-ok (unless (not (has_repeats names)) (duplicate_names names))
        (each_ok (check_refs names) (t ∷ ts)) h in
    has_repeats-Distinct names
      (ground (arith, unless-ok (not (has_repeats names)) (duplicate_names names) unique))

-- Each name once, and every name that an expression refers to among them.
pub record Closed (types : List Decl) : Type 0 where
  pub distinct : Distinct (map decl_name types)
  pub known : All (λ t. All (λ le. Known types le.1) (type_exprs t)) types

checked_types-Closed :
    (s : State) (types : List Decl) → checked_types s ≡ ok types → (types ≡ s.types) × Closed types
unfolding checked_types
checked_types-Closed s types h = by_check (check_types s.types) refl h
  where
    by_check :
        (r : Result Unsupported (Unit {0}))
        → check_types s.types ≡ r
        → elim r [ err e ↦ err (in_check e) | ok u ↦ ok s.types ] ≡ ok types
        → (types ≡ s.types) × Closed types
    by_check (err e) q h = cc
    by_check (ok u) q h =
        let same_types : s.types ≡ types = cc in
        let closed : Closed s.types = record {
          distinct = check_types-Distinct s.types q;
          known = check_types-Known s.types q;
        } in
        (cc, rw same_types at closed)

-- Where the root has an envelope and `build` accepts the schema, no two declarations have the same
-- name, every name that an expression of a declaration refers to is declared, and one declaration is
-- the envelope, under its name, with one variant, whose tag is the only one that the root requires.
pub build-HasEnvelope :
    (rounds f : ℕ) (env : Env) (envelope : Json) (types : List Decl)
    → envelope_of env.root ≡ some envelope
    → build rounds f env ≡ ok types
    → Closed types × HasEnvelope env.root envelope types
unfolding build
build-HasEnvelope rounds f env envelope types e h = by_result (collect rounds f env empty) refl h
  where
    by_result :
        (r : Result BuildError (Unit {0} × State))
        → collect rounds f env empty ≡ r
        → elim r [ err e ↦ err (in_step e) | ok (u, s) ↦ checked_types s ] ≡ ok types
        → Closed types × HasEnvelope env.root envelope types
    by_result (err e') q h = cc
    by_result (ok (u, s)) q h =
        let (same_types, closed) = checked_types-Closed s types h in
        (closed, rw same_types (collect-HasEnvelope rounds f env envelope s e q))
