-- ===== src/Wire/Build/Grows.antt =====
-- The queue of shared definitions under one step: it only gets longer, and holds no name twice.
use lazily_spec.Prelude.{
  ℕ, zero, suc, ◌≤◌, ◌<◌, String, true, none, some, List, [], ◌∷◌, ◌++◌, ◌≡◌, refl, arith, inl, inr,
  Bool-cases, ◌==◌, string_eq, eq_iff, contains, get_elem?, ◌∙◌, nat_eq, length, length-append,
}
use lazily_spec.Prelude.Distinct.{contains-cons, Distinct, Within, Distinct-snoc, Within-snoc}
use lazily_spec.Wire.Build.Monad.{State}
use lazily_spec.Wire.Build.Rules.{IsGrowth}

get_elem?-append :
    (xs ys : List String) (i : ℕ) → i < length xs → get_elem? (xs ++ ys) i ≡ get_elem? xs i
get_elem?-append [] ys i h = absurd (omega (arith, h))
get_elem?-append (x ∷ xs) ys zero h = refl
get_elem?-append (x ∷ xs) ys (suc i) h = get_elem?-append xs ys i (omega (arith, h))

pub get_elem?-none : (xs : List String) (i : ℕ) → get_elem? xs i ≡ none → length xs ≤ i
get_elem?-none [] i h = omega arith
get_elem?-none (x ∷ xs) zero h = cc
get_elem?-none (x ∷ xs) (suc i) h = omega (arith, get_elem?-none xs i h)

pub get_elem?-some :
    (xs : List String) (i : ℕ) (x : String) → get_elem? xs i ≡ some x → i < length xs
get_elem?-some [] i x h = cc
get_elem?-some (y ∷ xs) zero x h = omega arith
get_elem?-some (y ∷ xs) (suc i) x h = omega (arith, get_elem?-some xs i x h)

pub contains-get_elem? :
    (xs : List String) (n : String) → contains xs n ≡ true → (i : ℕ) × (get_elem? xs i ≡ some n)
contains-get_elem? [] n h = cc
contains-get_elem? (x ∷ xs) n h = elim (Bool-cases (n == x)) [
  | inl e ↦ let same_text : n ≡ x = (eq_iff n x).0 e in (zero, rw same_text refl)
  | inr e ↦ let (i, p) = contains-get_elem? xs n (ground arith) in (suc i, p)
]

-- The queue holds no name twice, and only known ones.
abbrev pub ValidQueue : List String → State → Type 0
ValidQueue known s = Distinct s.shared_queue × Within known s.shared_queue

-- A step keeps what is emitted and what is queued, and adds to the queue at its end.
pub record Grows (known : List String) (s t : State) : Type 0 where
  pub kept : (n : String) → contains s.emitted n ≡ true → contains t.emitted n ≡ true
  pub longer : length s.shared_queue ≤ length t.shared_queue
  pub same :
      (i : ℕ) → i < length s.shared_queue → get_elem? t.shared_queue i ≡ get_elem? s.shared_queue i
  pub valid : ValidQueue known s → ValidQueue known t

pub Grows-IsGrowth : (known : List String) → IsGrowth known (Grows known)
Grows-IsGrowth known = record {
  stay = λ s. record { kept = λ n h. h; longer = omega arith; same = λ i h. refl; valid = λ h. h };
  compose = λ s t u g h. record {
    kept = λ n k. h.kept n (g.kept n k);
    longer = omega (arith, g.longer, h.longer);
    same = λ i k. h.same i (omega (arith, g.longer, k)) ∙ g.same i k;
    valid = λ k. h.valid (g.valid k);
  };
  queue = λ s name is_known e. record {
    kept = λ n h. h;
    longer = omega (arith, length-append s.shared_queue (name ∷ []));
    same = λ i h. get_elem?-append s.shared_queue (name ∷ []) i h;
    valid = λ (d, w).
        (Distinct-snoc s.shared_queue name d e, Within-snoc known s.shared_queue name w is_known);
  };
  mark = λ s name. record {
    kept = λ n h. contains-cons name n s.emitted h;
    longer = omega arith;
    same = λ i h. refl;
    valid = λ h. h;
  };
  append =
      λ s d. record { kept = λ n h. h; longer = omega arith; same = λ i h. refl; valid = λ h. h };
}
