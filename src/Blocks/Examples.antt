-- ===== src/Blocks/Examples.antt =====
-- Runs of scripts/gen_assertion_block_schema.py on small blocks.
use lazily_spec.Prelude.{true, List, [], ◌∷◌, ◌≡◌, refl, arith}
use lazily_spec.Blocks.Json.{Json, null, str, depth}
use lazily_spec.Blocks.Infer.{infer_schema}
use lazily_spec.Blocks.Accepts.{accepts}
use lazily_spec.Prelude.Members.{here, there}
use lazily_spec.Blocks.Members.{Below}
use lazily_spec.Blocks.Sound.{infer_schema_sound}
use lazily_spec.Blocks.Routes.{Block, build_schema, Routed, build_schema-Routed}

abbrev seen : List Json
seen = str "a" ∷ null ∷ []

seen-Below : Below 2 seen
unfolding depth
seen-Below = (omega arith, (omega arith, tt))

infer_schema_sound_example : accepts (infer_schema 2 seen) null ≡ true
infer_schema_sound_example = infer_schema_sound 2 seen null seen-Below (there (here refl))

abbrev first_block : Block
first_block = record { fixture = "a.json"; pointer = "$/steps/*"; value = null }

abbrev second_block : Block
second_block = record { fixture = "a.json"; pointer = "$/steps/*"; value = str "x" }

abbrev blocks : List Block
blocks = first_block ∷ second_block ∷ []

build_schema-Routed_example : Routed second_block (build_schema blocks)
build_schema-Routed_example = build_schema-Routed second_block blocks (there (here refl))
