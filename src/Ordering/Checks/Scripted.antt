-- ===== src/Ordering/Checks/Scripted.antt =====
-- The entries of `CHECKS` for py, js, dart, kt and gd.
use lazily_spec.Prelude.{true, false, List, [], ◌∷◌}
use lazily_spec.Ordering.Check.{OrderedCheck}

abbrev pub py_checks : List OrderedCheck
py_checks =
    record {
      path = "tests/test_collection_conformance.py";
      before = "applied\\s*=\\s*plane\\.apply_ops";
      after = "assert_key_with\\(\\s*expect,\\s*\"resolution\"";
      description = "distributed ingest precedes the resolution assertion";
      paired = false;
    }
    ∷ record {
      path = "tests/test_nodeid_exact_range_conformance.py";
      before = "verify_prose\\(fixture\\)";
      after = "assert\\s+accepted\\s*==\\s*declared\\s*,";
      description = "fixture assertions precede the node-id runner completeness assertion";
      paired = false;
    }
    ∷ record {
      path = "tests/test_nodekey_null_leniency_conformance.py";
      before = "verify_prose\\(fixture\\)";
      after = "assert\\s+replayed\\s*==\\s*declared\\s*,";
      description = "fixture assertions precede the node-key runner completeness assertion";
      paired = false;
    }
    ∷ record {
      path = "tests/test_blob_backend_discriminator_conformance.py";
      before = "verify_prose\\(fixture\\)";
      after = "assert\\s+accepted\\s*\\+\\s*rejected\\s*==\\s*declared\\s*,";
      description = "fixture assertions precede the blob runner completeness assertion";
      paired = false;
    }
    ∷ record {
      path = "tests/test_codec_conformance.py";
      before = "verify_prose\\(fixture\\)";
      after = "_assert_replay_floor\\(replayed\\)";
      description = "fixture assertions precede each codec runner floor";
      paired = true;
    }
    ∷ record {
      path = "tests/test_reactive_graph_conformance.py";
      before = "tail\\.sub\\(\"final_state\"\\)";
      after = "tail\\.sub\\(\"after_publish\"\\)";
      description =
          "the reactive-graph tail reads `final_state` before `after_publish` publishes (#lzexpectedkeyorder)";
      paired = false;
    }
    ∷ []

abbrev pub js_checks : List OrderedCheck
js_checks =
    record {
      path = "test/distributed.test.js";
      before = "const\\s+applied\\s*=\\s*ingestOps";
      after = "assertKeyWith\\(\\s*scenario\\.expect,\\s*\"resolution\"";
      description = "distributed ingest precedes the resolution assertion";
      paired = false;
    }
    ∷ record {
      path = "test/nodeid-exact-range.test.js";
      before = "verifyProse\\(fixture\\);";
      after = "assert\\.equal\\(\\s*accepted\\s*,";
      description = "fixture assertions precede the node-id runner completeness assertion";
      paired = false;
    }
    ∷ record {
      path = "test/nodekey-null-leniency.test.js";
      before = "verifyProse\\(fixture\\);";
      after = "assert\\.equal\\(\\s*replayed\\s*,";
      description = "fixture assertions precede the node-key runner completeness assertion";
      paired = false;
    }
    ∷ record {
      path = "test/blob-backend-discriminator.test.js";
      before = "verifyProse\\(fixture\\);";
      after = "assert\\.equal\\(\\s*accepted\\s*,";
      description = "fixture assertions precede the blob runner completeness assertion";
      paired = false;
    }
    ∷ record {
      path = "test/codec.test.js";
      before = "verifyProse\\(fixture\\);";
      after = "assert\\.equal\\(\\s*replayed\\s*,";
      description = "fixture assertions precede each codec runner completeness assertion";
      paired = true;
    }
    ∷ record {
      path = "test/reactive-graph/engine.js";
      before = "subBlock\\(tail,\\s*\"final_state\"\\)";
      after = "subBlock\\(tail,\\s*\"after_publish\"\\)";
      description =
          "the reactive-graph tail reads `final_state` before `after_publish` publishes (#lzexpectedkeyorder)";
      paired = false;
    }
    ∷ []

abbrev pub dart_checks : List OrderedCheck
dart_checks =
    record {
      path = "test/distributed_conformance_test.dart";
      before = "final\\s+applied\\s*=\\s*runtime\\.ingestOps\\(ops\\)";
      after = "assertKey\\(expect_,\\s*'resolution'";
      description = "distributed ingest precedes the resolution assertion";
      paired = false;
    }
    ∷ record {
      path = "test/nodeid_exact_range_test.dart";
      before = "assertKey\\(block,\\s*'scenario_count'";
      after = "expect\\(\\s*accepted\\s*,";
      description = "fixture assertions precede the node-id runner completeness assertion";
      paired = false;
    }
    ∷ record {
      path = "test/reactive_graph_conformance_test.dart";
      before = "subKeyIfPresent\\(tail,\\s*'final_state'\\)";
      after = "subKeyIfPresent\\(tail,\\s*'after_publish'\\)";
      description =
          "the reactive-graph tail reads `final_state` before `after_publish` publishes (#lzexpectedkeyorder)";
      paired = false;
    }
    ∷ []

abbrev pub kt_checks : List OrderedCheck
kt_checks =
    record {
      path = "src/test/kotlin/io/github/lazily/CrdtPlaneTest.kt";
      before = "val\\s+applied\\s*=\\s*runtime\\.ingest\\(frame\\)";
      after = "a\\.assertKeyWith\\(\"resolution\"";
      description = "distributed ingest precedes the resolution assertion";
      paired = false;
    }
    ∷ record {
      path = "src/test/kotlin/io/github/lazily/NodeIdExactRangeConformanceTest.kt";
      before = "meta\\.requireAllSatisfied\\(\\)";
      after = "assertEquals\\(\\s*[^,\\n]+,\\s*accepted\\b";
      description = "fixture assertions precede the node-id runner completeness assertion";
      paired = false;
    }
    ∷ record {
      path = "src/test/kotlin/io/github/lazily/ReactiveGraphConformanceTest.kt";
      before = "t\\.sub\\(\"final_state\"\\)";
      after = "t\\.sub\\(\"after_publish\"\\)";
      description =
          "the reactive-graph tail reads `final_state` before `after_publish` publishes (#lzexpectedkeyorder)";
      paired = false;
    }
    ∷ []

abbrev pub gd_checks : List OrderedCheck
gd_checks =
    record {
      path = "tests/conformance/reactive_graph_runner.gd";
      before = "tail\\.has\\(\"final_state\"\\)";
      after = "tail\\.has\\(\"after_publish\"\\)";
      description =
          "the reactive-graph tail reads `final_state` before `after_publish` publishes (#lzexpectedkeyorder)";
      paired = false;
    }
    ∷ []
