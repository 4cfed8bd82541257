-- ===== src/Stores/Sound/Silence.antt =====
-- When the single checks of a checkout report nothing.
use lazily_spec.Prelude.{
  String, Bool, true, false, not, ◌&&◌, ◌||◌, List, [], ◌∷◌, ◌≡◌, ◌↔◌, ◌⊎◌, refl, ◌∙◌, sym, ap,
  arith, ◌==◌, string_eq, eq_iff, contains, Bool-cases, inl, inr,
}
use lazily_spec.Prelude.Members.{In, here, there, contains-In, In-contains}
use lazily_spec.Prelude.Sorted.{sorted, sorted-In}
use lazily_spec.Prelude.Reports.{
  report, gather, over, report-silent, silent-report, gather-silent, silent-gather, over-silent,
  silent-over,
}
use lazily_spec.Stores.Registry.{Checkout, Problem}
use lazily_spec.Stores.Scan.{Hits}
use lazily_spec.Stores.Check.{sort_hits, reading, stale}
use lazily_spec.Stores.Sound.Hit.{hit_keys, contains-sort_hits}
use lazily_spec.Stores.Sound.Conforms.{Reads}

pub report-not_iff : {F : Type 0} (b : Bool) (fault : F) → (report (not b) fault ≡ []) ↔ (b ≡ true)
report-not_iff true fault = (λ h. refl, λ h. silent-report false fault refl)
report-not_iff false fault =
    (λ h. sym (report-silent true fault h), λ h. silent-report true fault (sym h))

key-hit :
    (hits : Hits) (rel : String)
    → contains (hit_keys hits) rel ≡ true
    → (hit : String × List String) × In hit hits × (hit.0 ≡ rel)
key-hit [] rel c = cc
key-hit (hit ∷ hits) rel c = elim (Bool-cases (rel == hit.0)) [
  | inl e ↦ (hit, here refl, sym ((eq_iff rel hit.0).0 e))
  | inr e ↦ let (other, i, q) = key-hit hits rel (ground arith) in (other, there i, q)
]

hit-key :
    (hit : String × List String) (hits : Hits) → In hit hits → contains (hit_keys hits) hit.0 ≡ true
hit-key hit [] i = elim i [ ]
hit-key hit (first ∷ hits) (here e) = rw ((eq_iff hit.0 first.0).1 (sym (ap (λ h. h.0) e))) refl
hit-key hit (first ∷ hits) (there i) = ground (arith, hit-key hit hits i)

-- A check of the hits by their paths.
pub over-hit_keys :
    (f : String × List String → List Problem) (ok : String → Type 0)
    → ((hit : String × List String) → (f hit ≡ []) ↔ ok hit.0)
    → (hits : Hits)
    → (over f (sort_hits hits) ≡ [])
      ↔ ((rel : String) → contains (hit_keys hits) rel ≡ true → ok rel)
over-hit_keys f ok each_hit hits = (
  λ h rel c.
      let (hit, i, e) = key-hit (sort_hits hits) rel (contains-sort_hits rel hits ∙ c) in
      rw (← e) ((each_hit hit).0 (over-silent f (sort_hits hits) h hit i)),
  λ h. silent-over f (sort_hits hits) (λ hit i.
      (each_hit hit).1
        (h hit.0 (sym (contains-sort_hits hit.0 hits) ∙ hit-key hit (sort_hits hits) i))),
)

-- Always a problem.
pub over-always :
    (g : String × List String → Problem) (hits : Hits)
    → (over (λ hit. g hit ∷ []) (sort_hits hits) ≡ [])
      ↔ ((rel : String) → contains (hit_keys hits) rel ≡ true → ⊥)
over-always g hits =
    over-hit_keys (λ hit. g hit ∷ []) (λ rel. ⊥)
      (λ hit. (λ h. absurd (ground arith), λ h. absurd h)) hits

pub gather_two_iff :
    {F : Type 0} (xs ys : List F) → (gather (xs ∷ ys ∷ []) ≡ []) ↔ ((xs ≡ []) × (ys ≡ []))
gather_two_iff xs ys = (
  λ h. let (p, (q, _)) = gather-silent (xs ∷ ys ∷ []) h in (p, q),
  λ (p, q). silent-gather (xs ∷ ys ∷ []) (p, (q, tt)),
)

pub reading_iff :
    (repo : Checkout) (binding rel : String) (check : String → List Problem) (P : String → Type 0)
    → ((text : String) → (check text ≡ []) ↔ P text)
    → (reading repo binding rel check ≡ []) ↔ Reads repo rel P
unfolding reading
reading_iff repo binding rel check P each_text = elim (Bool-cases (repo.is_declared_file rel)) [
  | inl e ↦ (
    λ h. (e, (each_text (repo.declared_text rel)).0 (rw (e, reading) at h)),
    λ (_, p). rw (e, reading) ((each_text (repo.declared_text rel)).1 p),
  )
  | inr e ↦ (λ h. absurd (ground (arith, rw (e, reading) at h)), λ (q, p). absurd (ground arith))
]

pub two_reports_iff :
    (a b : Bool) (p q : Problem)
    → (gather (report (not a) p ∷ report (not b) q ∷ []) ≡ []) ↔ ((a ≡ true) × (b ≡ true))
two_reports_iff a b p q = (
  λ h.
      let (x, y) = (gather_two_iff (report (not a) p) (report (not b) q)).0 h in
      ((report-not_iff a p).0 x, (report-not_iff b q).0 y),
  λ (x, y).
      (gather_two_iff (report (not a) p) (report (not b) q)).1
        ((report-not_iff a p).1 x, (report-not_iff b q).1 y),
)

pub over_reports_iff :
    (test : String → Bool) (p : String → Problem) (xs : List String)
    → (over (λ x. report (not (test x)) (p x)) xs ≡ []) ↔ ((x : String) → In x xs → test x ≡ true)
over_reports_iff test p xs = (
  λ h x i. (report-not_iff (test x) (p x)).0 (over-silent _ xs h x i),
  λ h. silent-over _ xs (λ x i. (report-not_iff (test x) (p x)).1 (h x i)),
)

contains-stale :
    (rel : String) (rels : List String) (hits : Hits)
    → contains (stale rels hits) rel ≡ (contains rels rel && not (contains (hit_keys hits) rel))
unfolding stale
contains-stale rel [] hits = refl
contains-stale rel (r ∷ rels) hits = elim (Bool-cases (contains (hit_keys hits) r)) [
  | inl e ↦ rw (e, stale) (stale_head e (contains-stale rel rels hits) (Bool-cases (rel == r)))
  | inr e ↦ rw (e, stale) (fresh_head e (contains-stale rel rels hits) (Bool-cases (rel == r)))
]
  where
    stale_head :
        contains (hit_keys hits) r ≡ true
        → contains (stale rels hits) rel ≡ (contains rels rel && not (contains (hit_keys hits) rel))
        → ((rel == r) ≡ true) ⊎ ((rel == r) ≡ false)
        → contains (stale rels hits) rel
          ≡ ((rel == r || contains rels rel) && not (contains (hit_keys hits) rel))
    stale_head e ih (inl q) =
        let same : rel ≡ r = (eq_iff rel r).0 q in
        let known : contains (hit_keys hits) rel ≡ true = rw same e in ground arith
    stale_head e ih (inr q) = ground arith

    fresh_head :
        contains (hit_keys hits) r ≡ false
        → contains (stale rels hits) rel ≡ (contains rels rel && not (contains (hit_keys hits) rel))
        → ((rel == r) ≡ true) ⊎ ((rel == r) ≡ false)
        → (rel == r || contains (stale rels hits) rel)
          ≡ ((rel == r || contains rels rel) && not (contains (hit_keys hits) rel))
    fresh_head e ih (inl q) =
        let same : rel ≡ r = (eq_iff rel r).0 q in
        let known : contains (hit_keys hits) rel ≡ false = rw same e in ground arith
    fresh_head e ih (inr q) = ground arith

pub stale_iff :
    (binding : String) (rels : List String) (hits : Hits)
    → (over (λ rel. Problem.stale_driver binding rel ∷ []) (sorted (stale rels hits)) ≡ [])
      ↔ ((rel : String) → contains rels rel ≡ true → contains (hit_keys hits) rel ≡ true)
stale_iff binding rels hits = (
  λ h rel c. elim (Bool-cases (contains (sorted (stale rels hits)) rel)) [
    | inl e ↦
        absurd
          (ground (arith, over-silent _ (sorted (stale rels hits)) h rel (contains-In rel _ e)))
    | inr e ↦ ground (arith, sorted-In (stale rels hits) rel, contains-stale rel rels hits)
  ],
  λ h. silent-over _ (sorted (stale rels hits)) (λ rel i. absurd (
      ground (
        arith,
        In-contains rel (sorted (stale rels hits)) i,
        sorted-In (stale rels hits) rel,
        contains-stale rel rels hits,
        h rel,
      ))),
)
