-- ===== src/Stores/Scan.antt =====
-- `_scan_files` and `driver_hits`: the source files of a checkout, and the drivers that they use.
use lazily_spec.Prelude.{
  String, Bool, true, false, not, ◌&&◌, Option, none, some, List, [], ◌∷◌, ◌++◌, ◌==◌, string_eq,
  contains, any, if◌then◌else◌,
}
use lazily_spec.Prelude.Texts.{ends_with, ◌+++◌}
use lazily_spec.Stores.Registry.{RelPath, Checkout, Host, Driver}

abbrev code_suffixes : List String
code_suffixes =
    ".rs" ∷ ".py" ∷ ".pyx" ∷ ".go" ∷ ".kt" ∷ ".kts" ∷ ".java" ∷ ".js" ∷ ".mjs" ∷ ".cjs" ∷ ".ts"
    ∷ ".mts" ∷ ".c" ∷ ".cc" ∷ ".cpp" ∷ ".cxx" ∷ ".h" ∷ ".hh" ∷ ".hpp" ∷ ".cs" ∷ ".dart" ∷ ".zig"
    ∷ ".gd" ∷ []

abbrev skip_dirs : List String
skip_dirs =
    ".git" ∷ "node_modules" ∷ "target" ∷ "build" ∷ "dist" ∷ "vendor" ∷ "bin" ∷ "obj" ∷ ".zig-cache"
    ∷ "zig-out" ∷ "zig-cache" ∷ ".gradle" ∷ ".venv" ∷ "__pycache__" ∷ ".dart_tool" ∷ ".godot" ∷ []

-- path.name
abbrev name_of : RelPath → String
name_of [] = ""
name_of (part ∷ []) = part
name_of (part ∷ rest) = name_of rest

-- rel_parts[:-1]
abbrev dirs_of : RelPath → List String
dirs_of [] = []
dirs_of (part ∷ []) = []
dirs_of (part ∷ rest) = part ∷ dirs_of rest

abbrev pub as_posix : RelPath → String
as_posix [] = "."
as_posix (part ∷ []) = part
as_posix (part ∷ rest) = part +++ "/" +++ as_posix rest

-- The tests of the inner loop.
unfoldable pub is_source : Host → Checkout → RelPath → Bool
is_source host repo path =
    (repo.is_file path && contains code_suffixes (host.suffix (name_of path)))
    && not (any (contains skip_dirs) (dirs_of path))
    && not (ends_with (name_of path) "_test.go")

abbrev pub filter {ℓ} : {A : Type ℓ} → (A → Bool) → List A → List A
filter p [] = []
filter p (x ∷ xs) = if p x then x ∷ filter p xs else filter p xs

-- What is looked at under one root.
unfoldable pub candidates : Checkout → String → List RelPath
candidates repo root =
    if not (repo.is_dir root) then [] else if root == "." then repo.iterdir else repo.rglob root

unfoldable pub gathered : Host → Checkout → List String → List RelPath
unfolding candidates
gathered host repo [] = []
gathered host repo (root ∷ roots) =
    filter (is_source host repo) (candidates repo root) ++ gathered host repo roots

unfoldable pub insert_path : Host → RelPath → List RelPath → List RelPath
insert_path host path [] = path ∷ []
insert_path host path (first ∷ rest) =
    let later = insert_path host path rest in
    if host.precedes first path then first ∷ later else path ∷ first ∷ rest

unfoldable pub sort_paths : Host → List RelPath → List RelPath
unfolding insert_path
sort_paths host [] = []
sort_paths host (path ∷ paths) = insert_path host path (sort_paths host paths)

unfoldable pub scan_files : Host → Checkout → List String → List RelPath
unfolding sort_paths gathered
scan_files host repo roots = sort_paths host (gathered host repo roots)

-- The ids of the drivers whose pattern is found in the text.
unfoldable pub found_in : Host → List Driver → String → List String
found_in host [] text = []
found_in host (driver ∷ drivers) text =
    let rest = found_in host drivers text in
    if host.search driver.pattern text then driver.id ∷ rest else rest

abbrev pub Hits : Type 0
Hits = List (String × List String)

-- hits[rel] = found, with the entries in the order of their keys
unfoldable pub put : String → List String → Hits → Hits
put rel found [] = (rel, found) ∷ []
put rel found ((key, ids) ∷ rest) =
    let later = put rel found rest in if key == rel then (rel, found) ∷ rest else (key, ids) ∷ later

abbrev pub is_nil {ℓ} : {A : Type ℓ} → List A → Bool
is_nil [] = true
is_nil (x ∷ xs) = false

abbrev pub file_hits : Host → List Driver → Option String → List String
file_hits host drivers none = []
file_hits host drivers (some text) = found_in host drivers text

-- One turn of the loop: a file that cannot be read has no entry, nor one that uses no driver.
unfoldable pub note : String → List String → Hits → Hits
unfolding put
note rel [] hits = hits
note rel (id ∷ ids) hits = put rel (id ∷ ids) hits

unfoldable pub driver_hits_from : Host → Checkout → List Driver → Hits → List RelPath → Hits
unfolding note found_in
driver_hits_from host repo drivers hits [] = hits
driver_hits_from host repo drivers hits (path ∷ paths) =
    driver_hits_from host repo drivers
      (note (as_posix path) (file_hits host drivers (repo.read_text path)) hits) paths

unfoldable pub driver_hits : Host → Checkout → List String → List Driver → Hits
unfolding driver_hits_from scan_files
driver_hits host repo roots drivers =
    driver_hits_from host repo drivers [] (scan_files host repo roots)
