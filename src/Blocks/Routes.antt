-- ===== src/Blocks/Routes.antt =====
-- `build_schema` of scripts/gen_assertion_block_schema.py: the blocks of each route, and its schema.
use Prim.Native.Nat.{max, Ordering}
use Prim.Native.String.{compare}
use lazily_spec.Prelude.{
  ℕ, suc, ◌<◌, String, Bool, true, false, ◌&&◌, List, [], ◌∷◌, ◌++◌, ◌≡◌, refl, arith, ◌==◌,
  string_eq, eq_iff, if◌then◌else◌, Bool-cases, inl, inr,
}
use lazily_spec.Blocks.Json.{Json, depth}
use lazily_spec.Blocks.Infer.{Schema, infer_schema}
use lazily_spec.Blocks.Accepts.{accepts}
use lazily_spec.Prelude.Members.{In, here, there}
use lazily_spec.Blocks.Members.{Below}
use lazily_spec.Blocks.Sound.{infer_schema_sound}

-- A block and where it stands: the fixture, and the pointer with its indices normalised.
pub record Block : Type 0 where
  pub fixture : String
  pub pointer : String
  pub value : Json

pub record Group : Type 0 where
  pub fixture : String
  pub pointer : String
  pub values : List Json

-- A route of the schema; the title and the numbered name of the definition are left out.
pub record RouteCase : Type 0 where
  pub fixture : String
  pub pointer : String
  pub schema : Schema

abbrev same_route : String → String → Group → Bool
same_route fixture pointer g = g.fixture == fixture && g.pointer == pointer

-- grouped[(fixture, pointer)].append(block)
unfoldable pub add_block : Block → List Group → List Group
add_block b [] = record { fixture = b.fixture; pointer = b.pointer; values = b.value ∷ [] } ∷ []
add_block b (g ∷ gs) =
    let rest = add_block b gs in
    if same_route b.fixture b.pointer g
    then record g { values = g.values ++ b.value ∷ [] } ∷ gs
    else g ∷ rest

unfoldable pub group_blocks : List Group → List Block → List Group
unfolding add_block
group_blocks gs [] = gs
group_blocks gs (b ∷ bs) = group_blocks (add_block b gs) bs

-- The order of tuples: by the fixture, then by the pointer.
abbrev is_above : Group → Group → Bool
is_above g h = elim (compare g.fixture h.fixture) [
  | Ordering.gt ↦ true
  | Ordering.lt ↦ false
  | Ordering.eq ↦ elim (compare g.pointer h.pointer) [ Ordering.gt ↦ true | _ ↦ false ]
]

unfoldable pub insert_group : Group → List Group → List Group
insert_group g [] = g ∷ []
insert_group g (h ∷ hs) =
    let rest = insert_group g hs in if is_above g h then h ∷ rest else g ∷ h ∷ hs

-- sorted(grouped.items())
unfoldable pub sort_groups : List Group → List Group
unfolding insert_group
sort_groups [] = []
sort_groups (g ∷ gs) = insert_group g (sort_groups gs)

unfoldable pub max_depth : List Json → ℕ
max_depth [] = 0
max_depth (v ∷ vs) = max (depth v) (max_depth vs)

-- The values' depth is the recursion's, so this fuel is enough.
abbrev pub route_case : Group → RouteCase
route_case g = record {
  fixture = g.fixture;
  pointer = g.pointer;
  schema = infer_schema (suc (max_depth g.values)) g.values;
}

unfoldable pub route_cases : List Group → List RouteCase
route_cases [] = []
route_cases (g ∷ gs) = route_case g ∷ route_cases gs

unfoldable pub build_schema : List Block → List RouteCase
unfolding group_blocks sort_groups max_depth route_cases
build_schema blocks = route_cases (sort_groups (group_blocks [] blocks))

-- The group of the block's route holds its value.
abbrev Holds : Block → Group → Type 0
Holds b g = (g.fixture ≡ b.fixture) × (g.pointer ≡ b.pointer) × In b.value g.values

data Held (b : Block) : List Group → Type 0 where
  first : {g : Group} {gs : List Group} → Holds b g → Held b (g ∷ gs)
  later : {g : Group} {gs : List Group} → Held b gs → Held b (g ∷ gs)

In-snoc : (v : Json) (vs : List Json) → In v (vs ++ v ∷ [])
In-snoc v [] = here refl
In-snoc v (w ∷ vs) = there (In-snoc v vs)

In-snoc_old : (v w : Json) (vs : List Json) → In v vs → In v (vs ++ w ∷ [])
In-snoc_old v w [] i = elim i [ ]
In-snoc_old v w (x ∷ vs) (here e) = here e
In-snoc_old v w (x ∷ vs) (there i) = there (In-snoc_old v w vs i)

add_block-Held : (b : Block) (gs : List Group) → Held b (add_block b gs)
unfolding add_block
add_block-Held b [] = first (refl, refl, here refl)
add_block-Held b (g ∷ gs) = elim (Bool-cases (same_route b.fixture b.pointer g)) [
  | inl e ↦ rw e (
      first (
        (eq_iff g.fixture b.fixture).0 (ground arith),
        (eq_iff g.pointer b.pointer).0 (ground arith),
        In-snoc b.value g.values,
      ))
  | inr e ↦ rw e (later (add_block-Held b gs))
]

add_block-Held_old : (b c : Block) (gs : List Group) → Held b gs → Held b (add_block c gs)
unfolding add_block
add_block-Held_old b c [] h = elim h [ ]
add_block-Held_old b c (g ∷ gs) (first (p, q, i)) =
    elim (Bool-cases (same_route c.fixture c.pointer g)) [
      | inl e ↦ rw e (first (p, q, In-snoc_old b.value c.value g.values i))
      | inr e ↦ rw e (first (p, q, i))
    ]
add_block-Held_old b c (g ∷ gs) (later h) = elim (Bool-cases (same_route c.fixture c.pointer g)) [
  | inl e ↦ rw e (later h)
  | inr e ↦ rw e (later (add_block-Held_old b c gs h))
]

group_blocks-Held_old :
    (b : Block) (gs : List Group) (bs : List Block) → Held b gs → Held b (group_blocks gs bs)
unfolding group_blocks
group_blocks-Held_old b gs [] h = h
group_blocks-Held_old b gs (c ∷ bs) h =
    group_blocks-Held_old b (add_block c gs) bs (add_block-Held_old b c gs h)

group_blocks-Held :
    (b : Block) (gs : List Group) (bs : List Block) → In b bs → Held b (group_blocks gs bs)
unfolding group_blocks
group_blocks-Held b gs [] i = elim i [ ]
group_blocks-Held b gs (c ∷ bs) (here e) =
    group_blocks-Held_old b (add_block c gs) bs (rw e (add_block-Held b gs))
group_blocks-Held b gs (c ∷ bs) (there i) = group_blocks-Held b (add_block c gs) bs i

insert_group-Held :
    (b : Block) (g : Group) (hs : List Group) → Held b (g ∷ hs) → Held b (insert_group g hs)
unfolding insert_group
insert_group-Held b g [] h = h
insert_group-Held b g (k ∷ hs) h = elim (Bool-cases (is_above g k)) [
  | inr e ↦ rw e h
  | inl e ↦ rw e (past h (insert_group-Held b g hs))
]
  where
    past :
        Held b (g ∷ k ∷ hs)
        → (Held b (g ∷ hs) → Held b (insert_group g hs))
        → Held b (k ∷ insert_group g hs)
    past (first p) ih = later (ih (first p))
    past (later (first p)) ih = first p
    past (later (later h)) ih = later (ih (later h))

sort_groups-Held : (b : Block) (gs : List Group) → Held b gs → Held b (sort_groups gs)
unfolding sort_groups
sort_groups-Held b [] h = elim h [ ]
sort_groups-Held b (g ∷ gs) (first p) = insert_group-Held b g (sort_groups gs) (first p)
sort_groups-Held b (g ∷ gs) (later h) =
    insert_group-Held b g (sort_groups gs) (later (sort_groups-Held b gs h))

-- A case for the block's own route, whose schema accepts the block.
pub record Routed (b : Block) (cases : List RouteCase) : Type 0 where
  pub route : RouteCase
  pub listed : In route cases
  pub fixture : route.fixture ≡ b.fixture
  pub pointer : route.pointer ≡ b.pointer
  pub accepted : accepts route.schema b.value ≡ true

max_depth-Below : (n : ℕ) (vs : List Json) → max_depth vs < n → Below n vs
unfolding max_depth
max_depth-Below n [] h = tt
max_depth-Below n (v ∷ vs) h = (omega arith, max_depth-Below n vs (omega arith))

route_cases-Routed : (b : Block) (gs : List Group) → Held b gs → Routed b (route_cases gs)
unfolding route_cases
route_cases-Routed b [] h = elim h [ ]
route_cases-Routed b (g ∷ gs) (first (p, q, i)) = record {
  route = route_case g;
  listed = here refl;
  fixture = p;
  pointer = q;
  accepted =
      infer_schema_sound (suc (max_depth g.values)) g.values b.value
        (max_depth-Below (suc (max_depth g.values)) g.values (omega arith)) i;
}
route_cases-Routed b (g ∷ gs) (later h) =
    let r = route_cases-Routed b gs h in
    record {
      route = r.route;
      listed = there r.listed;
      fixture = r.fixture;
      pointer = r.pointer;
      accepted = r.accepted;
    }

-- Every block that the schema was built from has a case for its own fixture and pointer, and the
-- schema of that case accepts it.
pub build_schema-Routed :
    (b : Block) (blocks : List Block) → In b blocks → Routed b (build_schema blocks)
unfolding build_schema
build_schema-Routed b blocks i =
    route_cases-Routed b (sort_groups (group_blocks [] blocks))
      (sort_groups-Held b (group_blocks [] blocks) (group_blocks-Held b [] blocks i))
