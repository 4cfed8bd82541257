-- ===== src/Stores/Sound/Sparse.antt =====
-- What a sparse clone holds.
use text.Mathlib.TextPositions.{eq_refl}
use lazily_spec.Prelude.{
  String, ◌&&◌, ◌||◌, not, some, List, [], ◌∷◌, ◌++◌, map, ◌≡◌, ◌≢◌, ◌∙◌, refl, sym, ap, arith,
  ◌==◌, string_eq, eq_iff, contains, ◌⊎◌, ◌↔◌, inl, inr, true, false, Bool-cases, All,
}
use lazily_spec.Prelude.Distinct.{contains-append}
use lazily_spec.Prelude.Members.{
  In, here, there, In-append, In-append_left, In-append_right, contains-In, In-contains,
}
use lazily_spec.Prelude.Sorted.{sorted-In}
use lazily_spec.Stores.Registry.{
  Sqlite, no_store, host_connection, owned_connection, Entry, Registry, Host,
}
use lazily_spec.Stores.Run.{but_dot, declared_files, sparse_paths, entries_of, printed_paths}

-- The files that a check of the binding reads beside those that it scans.
abbrev pub ReadsFile : Sqlite → String → Type 0
ReadsFile no_store rel = ⊥
ReadsFile (host_connection store) rel = rel ≡ store.file
ReadsFile (owned_connection store) rel =
    In rel store.driver_files
    ⊎ ((rel ≡ store.busy_timeout.file)
        ⊎ ((rel ≡ store.two_writer_tests.file) ⊎ (rel ≡ store.deferred_transaction_guard.file)))

-- A directory that a check of the binding needs, other than the top of the repository.
abbrev pub Needed : Host → Entry → String → Type 0
Needed host entry p =
    (p ≢ ".")
    × (In p entry.scan_roots
        ⊎ ((rel : String) × (host.parent rel ≡ p) × ReadsFile entry.sqlite rel))

declared_files_iff : (q : Sqlite) (rel : String) → In rel (declared_files q) ↔ ReadsFile q rel
declared_files_iff no_store rel = (λ i. elim i [ ], λ h. elim h [ ])
declared_files_iff (host_connection store) rel =
    (λ i. elim i [ here e ↦ sym e | there j ↦ elim j [ ] ], λ e. here (sym e))
declared_files_iff (owned_connection store) rel = (
  λ i. elim (In-append rel store.driver_files _ i) [ inl j ↦ inl j | inr j ↦ inr (last_three j) ],
  λ h. elim h [
    | inl j ↦ In-append_left rel store.driver_files _ j
    | inr k ↦ In-append_right rel store.driver_files _ (elim k [
      | inl e ↦ here (sym e)
      | inr k' ↦ elim k' [ inl e ↦ there (here (sym e)) | inr e ↦ there (there (here (sym e))) ]
    ])
  ],
)
  where
    last_three : {a b c : String} → In rel (a ∷ b ∷ c ∷ []) → (rel ≡ a) ⊎ ((rel ≡ b) ⊎ (rel ≡ c))
    last_three (here e) = inl (sym e)
    last_three (there (here e)) = inr (inl (sym e))
    last_three (there (there (here e))) = inr (inr (sym e))
    last_three (there (there (there i))) = elim i [ ]

module _ (f : String → String) (p : String) where
  In-map : (rels : List String) → In p (map f rels) → (rel : String) × (f rel ≡ p) × In rel rels
  In-map [] i = elim i [ ]
  In-map (rel ∷ rels) (here e) = (rel, e, here refl)
  In-map (rel ∷ rels) (there i) = let (rel', e, j) = In-map rels i in (rel', e, there j)

  map-In : (rel : String) (rels : List String) → f rel ≡ p → In rel rels → In p (map f rels)
  map-In rel [] e i = elim i [ ]
  map-In rel (rel' ∷ rels) e (here q) = here (ap f q ∙ e)
  map-In rel (rel' ∷ rels) e (there i) = there (map-In rel rels e i)

contains-but_dot :
    (p : String) (ps : List String) → contains (but_dot ps) p ≡ (contains ps p && not (p == "."))
unfolding but_dot
contains-but_dot p [] = refl
contains-but_dot p (q ∷ ps) =
    ground (arith, contains-but_dot p ps, eq_iff p q, eq_iff q ".", eq_iff p ".")

sparse_paths-contains :
    (host : Host) (entry : Entry) (p : String)
    → contains (sparse_paths host entry) p ≡ (
        (contains entry.scan_roots p || contains (map host.parent (declared_files entry.sqlite)) p)
        && not (p == "."))
unfolding sparse_paths
sparse_paths-contains host entry p =
    sorted-In (but_dot entry.scan_roots ++ but_dot (map host.parent (declared_files entry.sqlite)))
      p
    ∙ contains-append (but_dot entry.scan_roots)
        (but_dot (map host.parent (declared_files entry.sqlite))) p
    ∙ ground (
      arith,
      contains-but_dot p entry.scan_roots,
      contains-but_dot p (map host.parent (declared_files entry.sqlite)),
    )

module _ (host : Host) (entry : Entry) (p : String) where
  abbrev parents : List String
  parents = map host.parent (declared_files entry.sqlite)

  sparse_paths-Needed : contains (sparse_paths host entry) p ≡ true → Needed host entry p
  sparse_paths-Needed h = (
    λ e. ground (arith, eq_iff p ".", split),
    elim (Bool-cases (contains entry.scan_roots p)) [
      | inl e ↦ inl (contains-In p entry.scan_roots e)
      | inr e ↦
          let (rel, q, i) =
            In-map host.parent p (declared_files entry.sqlite)
              (contains-In p parents (ground (arith, e, split))) in
          inr (rel, q, (declared_files_iff entry.sqlite rel).0 i)
    ],
  )
    where
      split : ((contains entry.scan_roots p || contains parents p) && not (p == ".")) ≡ true
      split = sym (sparse_paths-contains host entry p) ∙ h

  Needed-sparse_paths : Needed host entry p → contains (sparse_paths host entry) p ≡ true
  Needed-sparse_paths (top, inl i) =
      sparse_paths-contains host entry p
      ∙ ground (arith, In-contains p entry.scan_roots i, eq_iff p ".", top)
  Needed-sparse_paths (top, inr (rel, q, r)) =
      let listed : contains parents p ≡ true = In-contains p parents (
        map-In host.parent p rel (declared_files entry.sqlite) q
          ((declared_files_iff entry.sqlite rel).1 r)) in
      sparse_paths-contains host entry p ∙ ground (arith, listed, eq_iff p ".", top)

-- Entries of other bindings.
abbrev pub Others : String → List Entry → Type 0
Others binding = All (λ entry. entry.binding ≢ binding)

other_binding : (a b : String) → a ≢ b → (a == b) ≡ false
other_binding a b h = ground (arith, eq_iff a b, h)

entries_of-Others :
    (binding : String) (es : List Entry) → Others binding es → entries_of binding es ≡ []
unfolding entries_of
entries_of-Others binding [] h = refl
entries_of-Others binding (e ∷ es) (hx, h) =
    rw (other_binding e.binding binding hx) (entries_of-Others binding es h)

entries_of-only :
    (before after : List Entry) (entry : Entry)
    → Others entry.binding before
    → Others entry.binding after
    → entries_of entry.binding (before ++ entry ∷ after) ≡ entry ∷ []
unfolding entries_of
entries_of-only [] after entry h k =
    rw (eq_refl entry.binding) (ap (λ es. entry ∷ es) (entries_of-Others entry.binding after k))
entries_of-only (e ∷ before) after entry (hx, h) k =
    rw (other_binding e.binding entry.binding hx) (entries_of-only before after entry h k)

-- Where the registry has an entry and no other one for its binding, --sparse-paths prints a path exactly where it
-- is a root that is scanned or the parent directory of a file that the entry declares (the file of
-- the obligation, or each driver file, the files of the timeout, of the two-writer tests and of the
-- guard), and not the top of the repository.
pub printed_paths_iff :
    (host : Host) (registry : Registry) (before after : List Entry) (entry : Entry) (p : String)
    → registry.bindings ≡ before ++ entry ∷ after
    → Others entry.binding before
    → Others entry.binding after
    → (paths : List String) × (printed_paths host registry entry.binding ≡ some paths)
      × (In p paths ↔ Needed host entry p)
unfolding printed_paths
printed_paths_iff host registry before after entry p listed h k = (
  sparse_paths host entry,
  rw (listed, entries_of-only before after entry h k, printed_paths) refl,
  (
    λ i. sparse_paths-Needed host entry p (In-contains p (sparse_paths host entry) i),
    λ n. contains-In p (sparse_paths host entry) (Needed-sparse_paths host entry p n),
  ),
)
