-- ===== src/Ordering/Check.antt =====
-- `OrderedCheck` and `_ordering_errors`.
use lazily_spec.Prelude.{
  ℕ, suc, String, Bool, true, false, not, ◌&&◌, ◌||◌, List, [], ◌∷◌, ◌++◌, ◌==◌, nat_eq, leb,
  length, if◌then◌else◌,
}
use lazily_spec.Prelude.Reports.{report}

pub record OrderedCheck : Type 0 where
  pub path : String
  pub before : String
  pub after : String
  pub description : String
  pub paired : Bool

-- A match: where it starts and ends.
pub record Match : Type 0 where
  pub start : ℕ
  pub end : ℕ

pub data OrderError : Type 0 where
  missing_anchors : Bool → Bool → OrderError
  count_differs not_unique : ℕ → ℕ → OrderError
  reversed : ℕ → OrderError

-- list(re.finditer(pattern, text, re.MULTILINE))
abbrev pub Finder : Type 0
Finder = String → String → List Match

abbrev pub is_nil {ℓ} : {A : Type ℓ} → List A → Bool
is_nil [] = true
is_nil (x ∷ xs) = false

-- zip(before, after), and the indices of the pairs that are reversed
unfoldable pub reversed_pairs : ℕ → List Match → List Match → List OrderError
unfolding report
reversed_pairs index [] after = []
reversed_pairs index (b ∷ before) [] = []
reversed_pairs index (b ∷ before) (a ∷ after) =
    report (not (leb b.end a.start)) (reversed index) ++ reversed_pairs (suc index) before after

abbrev pub counts_allowed : Bool → ℕ → ℕ → Bool
counts_allowed true m n = m == n
counts_allowed false m n = m == 1 && n == 1

abbrev pub count_error : Bool → ℕ → ℕ → OrderError
count_error true m n = count_differs m n
count_error false m n = not_unique m n

unfoldable pub order_errors : Bool → List Match → List Match → List OrderError
unfolding reversed_pairs
order_errors paired before after =
    if is_nil before || is_nil after
    then missing_anchors (is_nil before) (is_nil after) ∷ []
    else if not (counts_allowed paired (length before) (length after))
    then count_error paired (length before) (length after) ∷ []
    else reversed_pairs 1 before after

unfoldable pub ordering_errors : Finder → String → OrderedCheck → List OrderError
unfolding order_errors
ordering_errors finditer text check =
    order_errors check.paired (finditer check.before text) (finditer check.after text)
