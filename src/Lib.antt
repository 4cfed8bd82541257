-- ===== src/Lib.antt =====
-- A verification library for the scripts of lazily-spec that decide whether an implementation, a
-- fixture or a release conforms to the specification.
--
-- The parts, and the files that model them. A function keeps its name, without the leading `_`.
--
-- - MsgPack/: the MessagePack encoders of the fixture generators. NodeId models
--   scripts/gen_nodeid_exact_range_fixture.py, Blob
--   scripts/gen_blob_backend_discriminator_fixture.py and NodeKey
--   scripts/gen_nodekey_null_leniency_fixture.py; each generator has an encoder of its own, and
--   Agree relates the three. Fnv models `_fnv1a64_hex`. Decoder is a reader of the format, written
--   for the theorems, and stands in no script. A `raise` is an error value. A Python integer is an
--   integer of Prelude/Int where the code asks for its sign, and a natural number elsewhere.
-- - Guard/: scripts/check-assert-with-consumption.py. Lexer and Chars model `_lex`, Brackets
--   models `_matching` and `_split_top_level`, Callback the shapes of callbacks, Resolve
--   `_callback_for`, `_definition_call` and `_resolve_named_callback`, Scan models `_scan_c_like`,
--   and Zig `_zig_definitions` and `_scan_zig`. Tree holds the trees of Python's `ast` with
--   `ast.walk`, which runs on fuel, the number of the nodes; Python models `_scan_python`, and Run
--   `scan_text`, `run_binding` and `main`. `ast.parse` and the file system are parameters. The
--   scans call the lexer, then the brackets, then the shapes. Python's `str.isspace` and
--   `str.isalpha` are the parameter `CharClass`. The loop of `_lex` runs on fuel, the size of the
--   text, since each round leaves a shorter text. A position in the text is the text that is left;
--   a position among the tokens is an index. Lexer/Moves says what each round passes. A diagnostic
--   is a value without the file's path.
-- - Blocks/: scripts/gen_assertion_block_schema.py. Json holds `_kind`, Infer `_schema_for_kind`
--   and `infer_schema`, Routes `build_schema`, and Walk `iter_assertion_blocks` and `records` over
--   documents that are given. The recursion of the inference goes into the values, and runs on
--   fuel above their depth. Accepts is the meaning of the schemas that are built, by the JSON
--   Schema vocabulary that they use.
-- - Cohort/: scripts/verify_core_cohort.py. Manifest holds the document after its schema was
--   checked, Evidence `verify_digest`, Pins `verify_source_pin`, Binding, Packages and Gates the
--   checks in the loop of `validate_semantics`, and Validate the whole. Report models
--   `build_report` and `render_markdown` on a document that its schema accepts, and the exit
--   status of `main`. An appended message is a value with its place. The file system, Git and
--   `str.strip().lower()` are the parameter `Host`. The sets of seen coordinates and files are
--   passed from each round to the next.
-- - Wire/: scripts/wire_codegen.py. Types holds the declarations of a surface, Model
--   `_type_exprs`, `_all_exprs`, `_refs` and the checks that end `build`, Lowerable
--   `_require_lowerable` and the types of Rust, Go, Kotlin and Python, Names the numbered names,
--   Kotlin `_kt_encode` and `_kt_decode`, and Python `_py_encode` and `_py_decode`, on fuel, since
--   aliases may refer to each other. Constraints models `pascal`, `_kt_name`, `_py_constraints` and
--   `_kt_constraints`; the case of a character is a parameter. Build models `_SurfaceBuilder` on
--   JSON nodes: Nodes and Declare from `_nullable_inner` to `record_type`, Union `union_type`,
--   `declaration`, `_emit` and the two loops, and Surface the envelope of the root and `build` with
--   its closing checks. The builder's attributes are a state that each step passes on, and
--   `type_expr` runs on fuel, where Python's recursion has its limit, since a chain of aliases may
--   not end. The loop over the queue has a bound on its rounds, which the size of the shared
--   document suffices for. Rules and the files Steps say what every step does to the state, once
--   for any relation that grows with it; Grows and Accepted have one such relation each, Returns
--   inverts a step that returns, and Queue has the loop. A raised `UnsupportedSchema`, or the
--   `KeyError` of a missing type, is an error value.
-- - Stores/: scripts/check-sqlite-stores.py. Registry holds sqlite-stores.json and the problems
--   as values, Scan models `_scan_files` and `driver_hits`, Identifier `_has_identifier`, Check
--   `registry_problems` and `binding_problems`, and Run `sparse_paths` and `main`, with
--   --sparse-paths in a function of its own. What pathlib answers about a checkout, and the
--   library's functions on paths and patterns, are the parameters `Checkout` and `Host`.
--   Sound/Conforms is the meaning of a declaration.
-- - Ordering/: scripts/check-assertion-ordering.py. Checks holds `CHECKS` and
--   `CONSUMPTION_UNCONFIGURED`, Check models `_ordering_errors`, and Run `run_binding`,
--   `_consumption_exemption_errors`, `consumption_errors` and `main` for a binding. The matches of
--   the regular expressions, the file system and the process of the companion guard are the
--   parameter `Host`.
--   Sound/Companion puts the exit status of Guard/Run for that process.
--
-- Prelude and its children hold what the parts share.
--
-- Not modelled: what reads and prints files, the fixture documents around the encoded frames and
-- the JSON twins of those frames, the self tests of the guards, the report of a cohort that its
-- schema refuses, the renderers in scripts/wire_codegen.py, which print source text, and the other
-- scripts, which copy, list or print fixtures.
mod Prelude
pub mod MsgPack
pub mod Guard
pub mod Blocks
pub mod Cohort
pub mod Wire
pub mod Stores
pub mod Ordering
