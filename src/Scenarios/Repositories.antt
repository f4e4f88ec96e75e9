-- ===== src/Scenarios/Repositories.antt =====
-- The subsystems, the entrypoints and the risks of a small repository.
use local_ai_broker.Prelude.{
  ◌≤◌, true, String, List, [], ◌∷◌, ◌≡◌, refl, length, distinct, str_eq, sort_by, sort_insert,
}
use local_ai_broker.Prelude.Search.{drop_prefix, partition}
use local_ai_broker.Prelude.Sorting.{Sorted}
use local_ai_broker.WarmQueue.{drop_suffix}
use local_ai_broker.RepoSummary.{
  RepoFile, derive_subsystems, most_common, tally, bump, top_dir, top_dirs, derive_entrypoints,
  entrypoint_loop, classify_entrypoint,
}
use local_ai_broker.RepoSummary.Counted.{
  Count, subsystem_names, fewer_files, derive_subsystems-Count,
}

abbrev file : String → RepoFile
file path = record { path = path; size_bytes = 10; language = "python" }

abbrev files : List RepoFile
files =
    file "README.md"
    ∷ file "tests/test_a.py"
    ∷ file "workers/main.py"
    ∷ file "workers/tools/b.py"
    ∷ []

derive_subsystems-Count_example :
    (length (derive_subsystems files) ≤ 5)
    × (distinct str_eq (subsystem_names (derive_subsystems files)) ≡ true)
    × Count (top_dirs files) (derive_subsystems files)
    × Sorted fewer_files (derive_subsystems files)
derive_subsystems-Count_example = derive_subsystems-Count files

the_names : subsystem_names (derive_subsystems files) ≡ "workers" ∷ "." ∷ "tests" ∷ []
unfolding derive_subsystems most_common tally bump top_dir partition drop_prefix sort_by sort_insert
the_names = refl

the_entrypoints :
    derive_entrypoints files
    ≡ record { path = "README.md"; kind = "project_entrypoint" }
      ∷ record { path = "workers/main.py"; kind = "service_entrypoint" }
      ∷ []
unfolding derive_entrypoints entrypoint_loop classify_entrypoint drop_suffix drop_prefix
the_entrypoints = refl
