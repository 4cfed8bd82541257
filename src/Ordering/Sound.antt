-- ===== src/Ordering/Sound.antt =====
-- What the check of the order accepts.
pub mod Parts
pub mod Whole
pub mod Companion
use lazily_spec.Prelude.{
  ℕ, zero, suc, ◌≤◌, ◌<◌, ◌+◌, String, Bool, true, false, not, ◌&&◌, ◌||◌, Option, none, some, List,
  [], ◌∷◌, ◌++◌, map, ◌≡◌, ◌≢◌, ◌↔◌, refl, ◌∙◌, sym, ap, arith, ◌==◌, string_eq, nat_eq,
  nat_beq_iff, leb, eq_iff, contains, Bool-cases, Option-cases, inl, inr, append-eq-nil,
  if◌then◌else◌, get_elem?, length,
}
use lazily_spec.Prelude.Reports.{report, report-silent, silent-report, over-silent, silent-over}
use lazily_spec.Ordering.Check.{
  OrderedCheck, Match, OrderError, Finder, is_nil, reversed_pairs, counts_allowed, count_error,
  order_errors, ordering_errors,
}

-- Each first match ends before its partner starts.
abbrev pub InOrder : List Match → List Match → Type 0
InOrder before after =
    (i : ℕ) (b a : Match)
    → get_elem? before i ≡ some b
    → get_elem? after i ≡ some a
    → b.end ≤ a.start

-- As many of the one as of the other, one of each where they are not paired, at least one, in order.
pub record Ordered (paired : Bool) (before after : List Match) : Type 0 where
  pub same_count : length before ≡ length after
  pub some_match : 0 < length before
  pub single : paired ≡ false → length before ≡ 1
  pub in_order : InOrder before after

reversed_pairs_iff :
    (index : ℕ) (before after : List Match)
    → (reversed_pairs index before after ≡ []) ↔ InOrder before after
unfolding reversed_pairs
reversed_pairs_iff index [] after = (λ h i b a p q. cc, λ h. refl)
reversed_pairs_iff index (x ∷ before) [] = (λ h i b a p q. cc, λ h. refl)
reversed_pairs_iff index (x ∷ before) (y ∷ after) = (
  λ h.
      let (p, q) =
        append-eq-nil (report (not (leb x.end y.start)) (OrderError.reversed index))
          (reversed_pairs (suc index) before after) h in
      both (report-silent (not (leb x.end y.start)) (OrderError.reversed index) p)
        ((reversed_pairs_iff (suc index) before after).0 q),
  λ h.
      rw
        (silent-report (not (leb x.end y.start)) (OrderError.reversed index)
          (ground (arith, h 0 x y refl refl)))
        ((reversed_pairs_iff (suc index) before after).1 (λ i b a p q. h (suc i) b a p q)),
)
  where
    both : not (leb x.end y.start) ≡ false → InOrder before after → InOrder (x ∷ before) (y ∷ after)
    both h rest zero b a p q =
        let same_b : x ≡ b = cc in let same_a : y ≡ a = cc in rw (← same_b, ← same_a) (ground arith)
    both h rest (suc i) b a p q = rest i b a p q

counts_allowed_iff :
    (paired : Bool) (m n : ℕ)
    → (counts_allowed paired m n ≡ true) ↔ ((m ≡ n) × (paired ≡ false → m ≡ 1))
counts_allowed_iff true m n =
    (λ h. ((nat_beq_iff m n).0 h, λ e. cc), λ (p, q). (nat_beq_iff m n).1 p)
counts_allowed_iff false m n = (
  λ h. (ground (arith, nat_beq_iff m 1, nat_beq_iff n 1), λ e. ground (arith, nat_beq_iff m 1)),
  λ (p, q). ground (arith, nat_beq_iff m 1, nat_beq_iff n 1, q refl),
)

is_nil-length : {A : Type 0} (xs : List A) → (is_nil xs ≡ false) ↔ (0 < length xs)
is_nil-length [] = (λ h. absurd (ground arith), λ h. absurd (omega (arith, h)))
is_nil-length (x ∷ xs) = (λ h. omega arith, λ h. refl)

order_errors_iff :
    (paired : Bool) (before after : List Match)
    → (order_errors paired before after ≡ []) ↔ Ordered paired before after
unfolding order_errors
order_errors_iff paired before after = elim (Bool-cases (is_nil before || is_nil after)) [
  | inl e ↦ (
    λ h. absurd (ground (arith, rw (e, order_errors) at h)),
    λ o. absurd (
        ground (
          arith,
          (is_nil-length before).1 o.some_match,
          (is_nil-length after).1 (rw (← o.same_count) o.some_match),
        )),
  )
  | inr e ↦ elim (Bool-cases (counts_allowed paired (length before) (length after))) [
    | inr e' ↦ (
      λ h. absurd (ground (arith, rw (e, e', order_errors) at h)),
      λ o. absurd (
          ground (
            arith,
            (counts_allowed_iff paired (length before) (length after)).1 (o.same_count, o.single),
          )),
    )
    | inl e' ↦ (
      λ h.
          let (p, q) = (counts_allowed_iff paired (length before) (length after)).0 e' in
          record {
            same_count = p;
            some_match = (is_nil-length before).0 (ground arith);
            single = q;
            in_order = (reversed_pairs_iff 1 before after).0 (rw (e, e', order_errors) at h);
          },
      λ o. rw (e, e', order_errors) ((reversed_pairs_iff 1 before after).1 o.in_order),
    )
  ]
]

-- A text passes a check exactly where both patterns match it, as often the one as the other, once each
-- unless the check is paired, and each match of the first ends before the match of the second at the same
-- place starts.
pub ordering_errors_iff :
    (finditer : Finder) (text : String) (check : OrderedCheck)
    → (ordering_errors finditer text check ≡ [])
      ↔ Ordered check.paired (finditer check.before text) (finditer check.after text)
unfolding ordering_errors
ordering_errors_iff finditer text check =
    order_errors_iff check.paired (finditer check.before text) (finditer check.after text)
