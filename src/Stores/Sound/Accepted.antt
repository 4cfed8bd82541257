-- ===== src/Stores/Sound/Accepted.antt =====
-- `registry_problems` and `main`: what the whole check accepts.
use lazily_spec.Prelude.{
  ℕ, String, true, false, not, none, some, List, [], ◌∷◌, ◌≡◌, ◌↔◌, refl, arith, ◌==◌, string_eq,
  nat_eq, nat_beq_iff, eq_iff, Bool-cases, Option-cases, inl, inr, append-eq-nil,
}
use lazily_spec.Prelude.Members.{In, here}
use lazily_spec.Prelude.Texts.{◌+++◌}
use lazily_spec.Prelude.Distinct.{Distinct}
use lazily_spec.Prelude.Reports.{
  report, over, report-silent, silent-report, gather-silent, silent-gather, over-silent,
  silent-over,
}
use lazily_spec.Stores.Registry.{
  Sqlite, no_store, host_connection, owned_connection, Entry, Driver, Registry, Checkout, Host,
  Problem,
}
use lazily_spec.Stores.Check.{has_repeats, entry_problems, names_of, registry_problems}
use lazily_spec.Stores.Run.{Options, sibling_problems, checked, problems, is_nil, main}
use lazily_spec.Stores.Sound.Conforms.{Conforms}
use lazily_spec.Stores.Sound.Silence.{report-not_iff}
use lazily_spec.Stores.Sound.Binding.{binding_problems_iff}

-- A store with a connection of its own has the contract's timeout.
abbrev pub SameTimeout : ℕ → Sqlite → Type 0
SameTimeout ms no_store = Unit
SameTimeout ms (host_connection store) = Unit
SameTimeout ms (owned_connection store) = store.busy_timeout.ms ≡ ms

pub record Registered (host : Host) (registry : Registry) : Type 0 where
  pub once : Distinct (names_of registry)
  pub named :
      (entry : Entry) → In entry registry.bindings → entry.repo ≡ "lazily-" +++ entry.binding
  pub timed :
      (entry : Entry)
      → In entry registry.bindings
      → SameTimeout registry.busy_timeout_ms entry.sqlite
  pub compiled :
      (driver : Driver) → In driver registry.drivers → host.compiles driver.pattern ≡ true

has_repeats_iff : (xs : List String) → (has_repeats xs ≡ false) ↔ Distinct xs
unfolding has_repeats
has_repeats_iff [] = (λ h. tt, λ d. refl)
has_repeats_iff (x ∷ xs) = (
  λ h. (ground arith, (has_repeats_iff xs).0 (ground arith)),
  λ (c, d). ground (arith, (has_repeats_iff xs).1 d),
)

entry_problems_iff :
    (ms : ℕ) (entry : Entry)
    → (entry_problems ms entry ≡ [])
      ↔ ((entry.repo ≡ "lazily-" +++ entry.binding) × SameTimeout ms entry.sqlite)
unfolding entry_problems
entry_problems_iff ms entry = (
  λ h.
      let (p, (q, _)) = gather-silent _ h in
      ((eq_iff _ _).0 ((report-not_iff _ _).0 p), (timed entry.sqlite).0 q),
  λ (p, q).
      silent-gather _ ((report-not_iff _ _).1 ((eq_iff _ _).1 p), ((timed entry.sqlite).1 q, tt)),
)
  where
    timed :
        (s : Sqlite)
        → (elim s [
          | owned_connection store ↦
              report
                (not (store.busy_timeout.ms == ms))
                (Problem.other_timeout entry.binding store.busy_timeout.ms ms)
          | _ ↦ []
        ]
            ≡ [])
          ↔ SameTimeout ms s
    timed no_store = (λ h. tt, λ h. refl)
    timed (host_connection store) = (λ h. tt, λ h. refl)
    timed (owned_connection store) = (
      λ h. (nat_beq_iff _ _).0 ((report-not_iff _ _).0 h),
      λ h. (report-not_iff _ _).1 ((nat_beq_iff _ _).1 h),
    )

registry_problems_iff :
    (host : Host) (registry : Registry)
    → (registry_problems host registry none ≡ []) ↔ Registered host registry
unfolding registry_problems
registry_problems_iff host registry = (
  λ h.
      let (p, (_, (q, (r, _)))) = gather-silent _ h in
      record {
        once = (has_repeats_iff (names_of registry)).0 (report-silent _ _ p);
        named = λ entry i.
            ((entry_problems_iff registry.busy_timeout_ms entry).0
              (over-silent _ registry.bindings q entry i)).0;
        timed = λ entry i.
            ((entry_problems_iff registry.busy_timeout_ms entry).0
              (over-silent _ registry.bindings q entry i)).1;
        compiled = λ driver i. (report-not_iff _ _).0 (over-silent _ registry.drivers r driver i);
      },
  λ o. silent-gather _ (
    silent-report _ _ ((has_repeats_iff (names_of registry)).1 o.once),
    (
      refl,
      (
        silent-over _ registry.bindings (λ entry i.
            (entry_problems_iff registry.busy_timeout_ms entry).1
              (o.named entry i, o.timed entry i)),
        (
          silent-over _ registry.drivers (λ driver i. (report-not_iff _ _).1 (o.compiled driver i)),
          tt,
        ),
      ),
    ),
  ),
)

-- Every sibling is there and conforms, and there is one.
pub record Accepted (host : Host) (options : Options) (registry : Registry) : Type 0 where
  pub registered : Registered host registry
  pub conforming :
      (entry : Entry)
      → In entry registry.bindings
      → (repo : Checkout) × (options.sibling entry.repo ≡ some repo)
        × Conforms host entry repo registry.drivers
  pub some_binding : is_nil registry.bindings ≡ false

module _ (host : Host) (options : Options) (registry : Registry)
    (strict : options.require_all ≡ true) where
  sibling_problems_iff :
      (entry : Entry)
      → (sibling_problems host options registry entry ≡ []) ↔ (
          (repo : Checkout) × (options.sibling entry.repo ≡ some repo)
          × Conforms host entry repo registry.drivers)
  unfolding sibling_problems
  sibling_problems_iff entry = elim (Option-cases (options.sibling entry.repo)) [
    | inl e ↦
        (λ h. absurd (ground (arith, rw (e, strict, sibling_problems) at h)), λ (repo, p, c). cc)
    | inr (repo, e) ↦ (
      λ h. (
        repo,
        e,
        (binding_problems_iff host entry repo registry.drivers).0 (rw (e, sibling_problems) at h),
      ),
      λ (other, p, c).
          rw (p, sibling_problems) ((binding_problems_iff host entry other registry.drivers).1 c),
    )
  ]

  checked-is_nil :
      (entries : List Entry)
      → is_nil entries ≡ false
      → ((entry : Entry)
          → In entry entries
          → (repo : Checkout) × (options.sibling entry.repo ≡ some repo))
      → is_nil (checked options entries) ≡ false
  unfolding checked
  checked-is_nil [] h k = cc
  checked-is_nil (entry ∷ entries) h k = let (repo, e) = k entry (here refl) in rw (e, checked) refl

  checked-some :
      (entries : List Entry) → is_nil (checked options entries) ≡ false → is_nil entries ≡ false
  unfolding checked
  checked-some [] h = cc
  checked-some (entry ∷ entries) h = refl

  main-silent :
      main host options registry ≡ 0
      → (problems host options registry ≡ []) × (is_nil (checked options registry.bindings) ≡ false)
  unfolding main
  main-silent h = elim (Bool-cases (is_nil (problems host options registry))) [
    | inr e ↦ absurd (ground (arith, rw (e, main) at h))
    | inl e ↦ elim (Bool-cases (is_nil (checked options registry.bindings))) [
      | inl e' ↦ absurd (ground (arith, rw (e, e', strict, main) at h))
      | inr e' ↦ (nothing (problems host options registry) e, e')
    ]
  ]
    where
      nothing : (ps : List Problem) → is_nil ps ≡ true → ps ≡ []
      nothing [] h = refl
      nothing (p ∷ ps) h = cc

  silent-main :
      problems host options registry ≡ []
      → is_nil (checked options registry.bindings) ≡ false
      → main host options registry ≡ 0
  unfolding main
  silent-main p q = rw (p, q, main) refl

  -- With --require-all, the exit status is 0 exactly where the registry is consistent (no binding
  -- twice, each repository named after its binding, each timeout the contract's, each pattern
  -- compiling), it lists a binding, and every binding's checkout is there and conforms.
  pub main_iff : (main host options registry ≡ 0) ↔ Accepted host options registry
  unfolding problems
  main_iff = (
    λ h.
        let (p, q) = main-silent h in
        let (r, s) =
          append-eq-nil (registry_problems host registry none)
            (over (sibling_problems host options registry) registry.bindings) p in
        record {
          registered = (registry_problems_iff host registry).0 r;
          conforming =
              λ entry i. (sibling_problems_iff entry).0 (over-silent _ registry.bindings s entry i);
          some_binding = checked-some registry.bindings q;
        },
    λ a.
        silent-main
          (rw ((registry_problems_iff host registry).1 a.registered) (
            silent-over _ registry.bindings
              (λ entry i. (sibling_problems_iff entry).1 (a.conforming entry i))))
          (checked-is_nil registry.bindings a.some_binding
            (λ entry i. let (repo, e, c) = a.conforming entry i in (repo, e))),
  )
