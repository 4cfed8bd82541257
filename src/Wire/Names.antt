-- ===== src/Wire/Names.antt =====
-- Names with a number behind them, in scripts/wire_codegen.py, and a number in decimal.
use lazily_spec.Prelude.{
  ℕ, zero, suc, ◌/◌, ◌%◌, String, none, some, List, [], ◌∷◌, ltb, get_elem?, if◌then◌else◌,
}
use lazily_spec.Prelude.Texts.{◌+++◌}

abbrev digits : List String
digits = "0" ∷ "1" ∷ "2" ∷ "3" ∷ "4" ∷ "5" ∷ "6" ∷ "7" ∷ "8" ∷ "9" ∷ []

abbrev digit : ℕ → String
digit n = elim (get_elem? digits n) [ none ↦ "" | some d ↦ d ]

decimal_from : ℕ → ℕ → String
decimal_from zero n = ""
decimal_from (suc f) n =
    let front = decimal_from f (n / 10) in if ltb n 10 then digit n else front +++ digit (n % 10)

-- str(n); a number has no more digits than its value and one.
unfoldable pub decimal : ℕ → String
unfolding decimal_from
decimal n = decimal_from (suc n) n

-- f"{name}{depth}" if depth else name
unfoldable pub at_depth : String → ℕ → String
unfolding decimal
at_depth name zero = name
at_depth name (suc depth) = name +++ decimal (suc depth)
