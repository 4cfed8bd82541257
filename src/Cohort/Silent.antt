-- ===== src/Cohort/Silent.antt =====
-- What the silence of the single checks says.
use lazily_spec.Prelude.{
  ℕ, suc, String, Bool, true, false, not, Option, none, some, List, [], ◌∷◌, ◌≡◌, refl, arith, ◌==◌,
  string_eq, eq_iff, Bool-cases, inl, inr, append-eq-nil, all, contains, All,
}
pub use lazily_spec.Prelude.Reports.{report-silent, gather-silent}
use lazily_spec.Prelude.Distinct.{Distinct, Within}
use lazily_spec.Prelude.Sorted.{sorted, insert_key}
use lazily_spec.Cohort.Manifest.{Host}
use lazily_spec.Cohort.Faults.{Label, Fault, each}
use lazily_spec.Cohort.Evidence.{is_within, safe_evidence_path, verify_digest, verify_under}
use lazily_spec.Cohort.Gates.{repeats, without, is_nil, duplicates}
use lazily_spec.Cohort.Binding.{same_set}

-- What a check of an equality says when it is silent.
pub same_text : (a b : String) → not (a == b) ≡ false → a ≡ b
same_text a b h = ground (arith, eq_iff a b)

pub each-silent {ℓ κ} :
    {A : Type ℓ} (P : A → Type κ) (f : ℕ → A → List Fault)
    → ((i : ℕ) (x : A) → f i x ≡ [] → P x)
    → (i : ℕ) (xs : List A) → each i f xs ≡ []
    → All P xs
each-silent P f holds i [] h = tt
each-silent P f holds i (x ∷ xs) h =
    let (first, others) = append-eq-nil (f i x) (each (suc i) f xs) h in
    (holds i x first, each-silent P f holds (suc i) xs others)

insert_key-is_nil : (k : String) (ks : List String) → is_nil (insert_key k ks) ≡ false
unfolding insert_key
insert_key-is_nil k [] = refl
insert_key-is_nil k (j ∷ ks) = ground arith

pub sorted-is_nil : (ks : List String) → is_nil (sorted ks) ≡ true → ks ≡ []
unfolding sorted
sorted-is_nil [] h = refl
sorted-is_nil (k ∷ ks) h = cc (insert_key-is_nil k (sorted ks))

repeats-Distinct : (xs : List String) → repeats xs ≡ [] → Distinct xs
unfolding repeats
repeats-Distinct [] h = tt
repeats-Distinct (x ∷ xs) h = elim (Bool-cases (contains xs x)) [
  | inl e ↦ cc (rw (e, repeats) at h)
  | inr e ↦ (e, repeats-Distinct xs (rw (e, repeats) at h))
]

pub duplicates-Distinct : (xs : List String) → not (is_nil (duplicates xs)) ≡ false → Distinct xs
unfolding duplicates
duplicates-Distinct xs h = repeats-Distinct xs (sorted-is_nil (repeats xs) (ground arith))

pub without-Within : (ys xs : List String) → without ys xs ≡ [] → Within ys xs
unfolding without
without-Within ys [] h = tt
without-Within ys (x ∷ xs) h = elim (Bool-cases (contains ys x)) [
  | inl e ↦ (e, without-Within ys xs (rw (e, without) at h))
  | inr e ↦ cc (rw (e, without) at h)
]

pub all-All {ℓ} :
    {A : Type ℓ} (p : A → Bool) (xs : List A) → all p xs ≡ true → All (λ x. p x ≡ true) xs
all-All p [] h = tt
all-All p (x ∷ xs) h = (ground arith, all-All p xs (ground arith))

pub same_set-Within : (xs ys : List String) → same_set xs ys ≡ true → Within ys xs × Within xs ys
unfolding same_set
same_set-Within xs ys h =
    (all-All (contains ys) xs (ground arith), all-All (contains xs) ys (ground arith))

-- The file stands under the root, and has the digest that the manifest gives.
pub record Evident (host : Host) (root : String) (relative : String) (digest : String)
    : Type 0 where
  pub inside : is_within (host.resolve root) (host.resolve_under root relative) ≡ true
  pub present : host.is_file (host.resolve_under root relative) ≡ true
  pub digested : host.sha256_file (host.resolve_under root relative) ≡ digest

verify_digest-silent :
    (host : Host) (root relative digest : String) (label : Label)
    → verify_digest host root relative digest label ≡ []
    → Evident host root relative digest
unfolding verify_digest safe_evidence_path
verify_digest-silent host root relative digest label h =
    elim (Bool-cases (is_within (host.resolve root) (host.resolve_under root relative))) [
      | inr e ↦ cc (rw (e, verify_digest) at h)
      | inl e ↦ elim (Bool-cases (host.is_file (host.resolve_under root relative))) [
        | inr e' ↦ cc (rw (e, e', verify_digest) at h)
        | inl e' ↦ record {
          inside = e;
          present = e';
          digested = same_text _ digest (report-silent _ _ (rw (e, e', verify_digest) at h));
        }
      ]
    ]

-- Nothing is asked where no root is given.
abbrev pub EvidentUnder : Host → Option String → String → String → Type 0
EvidentUnder host none relative digest = Unit
EvidentUnder host (some root) relative digest = Evident host root relative digest

pub verify_under-silent :
    (host : Host) (root : Option String) (relative digest : String) (label : Label)
    → verify_under host root relative digest label ≡ []
    → EvidentUnder host root relative digest
unfolding verify_under
verify_under-silent host none relative digest label h = tt
verify_under-silent host (some root) relative digest label h =
    verify_digest-silent host root relative digest label h
