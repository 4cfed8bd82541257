-- ===== src/Ordering/Checks/Compiled.antt =====
-- The entries of `CHECKS` for rs, go, cpp, zig and cs.
use lazily_spec.Prelude.{true, false, List, [], ◌∷◌}
use lazily_spec.Ordering.Check.{OrderedCheck}

abbrev pub rs_checks : List OrderedCheck
rs_checks =
    record {
      path = "tests/distributed_conformance.rs";
      before = "let\\s+applied\\s*=\\s*ingest_ops";
      after = "exp\\.assert_key_with\\(\\s*\"resolution\"";
      description = "distributed ingest precedes the resolution assertion";
      paired = false;
    }
    ∷ record {
      path = "tests/nodeid_exact_range_conformance.rs";
      before = "a\\.finish\\(\\);";
      after = "assert_eq!\\(\\s*replayed\\s*,";
      description = "fixture assertions precede the node-id runner completeness assertion";
      paired = false;
    }
    ∷ record {
      path = "tests/reactive_graph/engine.rs";
      before = "tail\\.sub\\(\"final_state\"\\)";
      after = "tail\\.sub\\(\"after_publish\"\\)";
      description =
          "the reactive-graph tail reads `final_state` before `after_publish` publishes (#lzexpectedkeyorder)";
      paired = false;
    }
    ∷ []

abbrev pub go_checks : List OrderedCheck
go_checks =
    record {
      path = "receipts_distributed_conformance_test.go";
      before =
          "if\\s+got\\s*:=\\s*runtime\\.IngestOps\\(scenario\\.Ops\\);\\s*got\\s*!=\\s*scenario\\.Expect\\.AppliedCount";
      after = "assertCrdtResolution\\(t,\\s*scenario\\.Expect\\.Resolution";
      description = "distributed ingest precedes the resolution assertion";
      paired = false;
    }
    ∷ record {
      path = "nodeid_exact_range_conformance_test.go";
      before = "assertKey\\(t,\\s*assertions,\\s*\"scenario_count\"";
      after = "if\\s+accepted\\s*!=";
      description = "fixture assertions precede the node-id runner completeness assertion";
      paired = false;
    }
    ∷ record {
      path = "reactive_graph_conformance_test.go";
      before = "fx\\.Expected\\.FinalState";
      after = "fx\\.Expected\\.AfterPublish";
      description =
          "the reactive-graph tail reads `final_state` before `after_publish` publishes (#lzexpectedkeyorder)";
      paired = false;
    }
    ∷ []

abbrev pub cpp_checks : List OrderedCheck
cpp_checks =
    record {
      path = "tests/test_distributed_conformance.cpp";
      before = "const\\s+int\\s+applied\\s*=\\s*runtime\\.ingest\\(frame\\)";
      after = "assert_max_stamp_resolution\\(name,";
      description = "distributed ingest precedes the resolution assertion";
      paired = false;
    }
    ∷ record {
      path = "tests/test_nodeid_exact_range_conformance.cpp";
      before = "block\\.finish\\(\\);";
      after = "REQUIRE\\(\\s*accepted\\s*==";
      description = "fixture assertions precede the node-id runner completeness assertion";
      paired = false;
    }
    ∷ record {
      path = "tests/test_reactive_graph_conformance.cpp";
      before = "with_sub_if_present\\(\"final_state\"";
      after = "with_sub\\(\"after_publish\"";
      description =
          "the reactive-graph tail reads `final_state` before `after_publish` publishes (#lzexpectedkeyorder)";
      paired = false;
    }
    ∷ []

abbrev pub zig_checks : List OrderedCheck
zig_checks =
    record {
      path = "src/lazily/distributed_conformance.zig";
      before = "const\\s+applied\\s*=\\s*try\\s+rt\\.ingest";
      after = "expect\\.assertKeyWith\\(\\s*\"resolution\"";
      description = "distributed ingest precedes the resolution assertion";
      paired = false;
    }
    ∷ record {
      path = "src/lazily/nodeid_exact_range_conformance.zig";
      before = "meta\\.finish\\(\\)";
      after = ",\\s*accepted\\s*\\)\\s*;";
      description = "fixture assertions precede the node-id runner completeness assertion";
      paired = false;
    }
    ∷ record {
      path = "src/lazily/reactive_graph_conformance.zig";
      before = "assertObjectWithOpt\\(\"final_state\"";
      after = "assertObjectWithOpt\\(\"after_publish\"";
      description =
          "the reactive-graph tail reads `final_state` before `after_publish` publishes (#lzexpectedkeyorder)";
      paired = false;
    }
    ∷ []

abbrev pub cs_checks : List OrderedCheck
cs_checks =
    record {
      path = "tests/Lazily.Tests/CrdtPlaneConformanceTests.cs";
      before = "var\\s+applied\\s*=\\s*runtime\\.Ingest";
      after = "expected\\.AssertKeyWith\\(\\s*\"resolution\"";
      description = "distributed ingest precedes the resolution assertion";
      paired = false;
    }
    ∷ record {
      path = "tests/Lazily.Tests/NodeIdExactRangeConformanceTests.cs";
      before = "prose\\.VerifyProse\\(Fixture\\)";
      after = "Assert\\.Equal\\(\\s*[^,\\n]+,\\s*accepted\\b";
      description = "fixture assertions precede the node-id runner completeness assertion";
      paired = false;
    }
    ∷ record {
      path = "tests/Lazily.Tests/NodeKeyNullLeniencyConformanceTests.cs";
      before = "prose\\.VerifyProse\\(Fixture\\)";
      after = "Assert\\.Equal\\(\\s*[^,\\n]+,\\s*replayed\\b";
      description = "fixture assertions precede the node-key runner completeness assertion";
      paired = false;
    }
    ∷ record {
      path = "tests/Lazily.Tests/BlobBackendDiscriminatorConformanceTests.cs";
      before = "prose\\.VerifyProse\\(Fixture\\)";
      after = "Assert\\.Equal\\(\\s*[^,\\n]+,\\s*replayed\\b";
      description = "fixture assertions precede the blob runner completeness assertion";
      paired = false;
    }
    ∷ record {
      path = "tests/Lazily.Tests/CodecConformanceTests.cs";
      before = "prose\\.VerifyProse\\((?:JsonFixture|MsgPackFixture)\\)";
      after = "Assert\\.Equal\\(\\s*[^,\\n]+,\\s*replayed\\b";
      description = "fixture assertions precede each codec runner completeness assertion";
      paired = true;
    }
    ∷ record {
      path = "tests/Lazily.Tests/ReactiveGraphEngine.cs";
      before = "TryAssertObjectKey\\(\\s*\"final_state\"";
      after = "TryAssertObjectKey\\(\\s*\"after_publish\"";
      description =
          "the reactive-graph tail reads `final_state` before `after_publish` publishes (#lzexpectedkeyorder)";
      paired = false;
    }
    ∷ []
