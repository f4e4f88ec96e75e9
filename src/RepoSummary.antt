-- ===== src/RepoSummary.antt =====
-- The summary of a repository, workers/repo-summary/main.py: `build_manifest`, `should_skip`, `classify_language`,
-- `derive_subsystems`, `infer_role`, `derive_entrypoints`, `classify_entrypoint`, `derive_dependencies` and
-- `derive_risks`. The walk through the directories is a list of its paths in their order, and whether a path
-- of the root exists is an argument.
pub mod Counted
use local_ai_broker.Prelude.{
  when, ℕ, zero, suc, ◌+◌, String, Bool, true, false, not, Option, none, some, List, [], ◌∷◌, ◌++◌,
  str_eq, contains, any, take, length, map, ltb, ◌==◌, sort_by, if◌then◌else◌, ◌||◌, ◌&&◌,
}
use local_ai_broker.Prelude.Search.{drop_prefix, partition, occurs}
use local_ai_broker.Prelude.Text.{lower, is_empty, or_else}
use local_ai_broker.WarmQueue.{drop_suffix}
use local_ai_broker.Prelude.Search.{is_some}
use Prim.Native.String.{◌++◌ as str_append}

-- A path of the walk: its parts and its text from the root, and its suffix in lower case.
pub record WalkedPath : Type 0 where
  pub parts : List String
  pub rel : String
  pub ext : String
  pub is_file : Bool
  pub size_bytes : ℕ

pub record RepoFile : Type 0 where
  pub path : String
  pub size_bytes : ℕ
  pub language : String

-- A counter: its keys in the order of their first counts.
pub record Tally : Type 0 where
  pub name : String
  pub count : ℕ

unfoldable pub bump : String → List Tally → List Tally
bump name [] = record { name = name; count = 1 } ∷ []
bump name (t ∷ ts) =
    let rest = bump name ts in
    if str_eq t.name name then record { name = t.name; count = suc t.count } ∷ ts else t ∷ rest

-- `counter.get(x, 0)`
unfoldable pub count_in : String → List Tally → ℕ
count_in x [] = 0
count_in x (t ∷ ts) = if str_eq t.name x then t.count else count_in x ts

-- `ext.lstrip(".")`
unfoldable pub without_dots : String → String
without_dots String.[] = String.[]
without_dots (String.◌∷◌ c s) =
    let rest = without_dots s in
    if is_some (drop_prefix "." (String.◌∷◌ c String.[])) then rest else String.◌∷◌ c s

unfoldable pub classify_language : String → String → String
classify_language rel ext =
    if str_eq rel "go.mod" || str_eq ext ".go"
    then "go"
    else if str_eq ext ".py"
    then "python"
    else if contains ext (".md" ∷ ".rst" ∷ ".txt" ∷ [])
    then "docs"
    else if contains ext (".sh" ∷ ".bash" ∷ [])
    then "shell"
    else if contains ext (".json" ∷ ".yaml" ∷ ".yml" ∷ ".toml" ∷ [])
    then "config"
    else or_else (without_dots ext) "unknown"

-- The manifest, without the text of the root.
pub record Manifest : Type 0 where
  pub file_count : ℕ
  pub languages : List Tally
  pub files : List RepoFile

abbrev pub ignore_dirs : List String
ignore_dirs =
    ".git" ∷ ".broker" ∷ "__pycache__" ∷ ".pytest_cache" ∷ ".mypy_cache" ∷ ".ruff_cache" ∷ ".tox"
    ∷ ".venv" ∷ "venv" ∷ "env" ∷ "node_modules" ∷ "site-packages" ∷ "build" ∷ "dist" ∷ []

abbrev pub should_skip : WalkedPath → Bool
should_skip p = any (λ part. contains part ignore_dirs) p.parts

abbrev pub file_of : WalkedPath → RepoFile
file_of p = record {
  path = p.rel;
  size_bytes = p.size_bytes;
  language = classify_language p.rel p.ext;
}

unfoldable pub listed_files : List WalkedPath → List RepoFile
listed_files [] = []
listed_files (p ∷ ps) =
    let rest = listed_files ps in
    if not (should_skip p) && p.is_file then file_of p ∷ rest else rest

unfoldable pub tally : List String → List Tally → List Tally
tally [] table = table
tally (name ∷ names) table = tally names (bump name table)

unfoldable pub build_manifest : List WalkedPath → Manifest
build_manifest walk =
    let files = listed_files walk in
    record {
      file_count = length files;
      languages = tally (map (λ (f : RepoFile). f.language) files) [];
      files = take 500 files;
    }

-- `parts[0] if len(parts) > 1 else "."`, with the parts of the path between slashes.
unfoldable pub top_dir : String → String
top_dir path = elim (partition "/" path) [ some (first, rest) ↦ first | none ↦ "." ]

-- `Counter.most_common(n)`
abbrev pub counts_before : Tally → Tally → Bool
counts_before a b = ltb b.count a.count

unfoldable pub most_common : ℕ → List Tally → List Tally
most_common n table = take n (sort_by counts_before table)

-- The roles, by what the name in lower case holds.
unfoldable pub infer_role : String → String
infer_role name =
    let low = lower name in
    if occurs "broker" low
    then "control plane"
    else if occurs "worker" low
    then "worker runtime"
    else if occurs "deploy" low
    then "deployment assets"
    else if occurs "config" low
    then "configuration"
    else if occurs "test" low
    then "tests"
    else "repository subsystem"

-- The confidence, which is always the same, is left out.
pub record Subsystem : Type 0 where
  pub name : String
  pub role : String
  pub paths : List String
  pub file_count : ℕ

abbrev pub subsystem_of : Tally → Subsystem
subsystem_of t = record {
  name = t.name;
  role = infer_role t.name;
  paths = (if str_eq t.name "." then "." else str_append t.name "/") ∷ [];
  file_count = t.count;
}

abbrev pub top_dirs : List RepoFile → List String
top_dirs files = map (λ (f : RepoFile). top_dir f.path) files

unfoldable pub derive_subsystems : List RepoFile → List Subsystem
derive_subsystems files = map subsystem_of (most_common 5 (tally (top_dirs files) []))

abbrev pub ends_with : String → String → Bool
ends_with suffix path = is_some (drop_suffix suffix path)

pub record Entrypoint : Type 0 where
  pub path : String
  pub kind : String

unfoldable pub classify_entrypoint : String → String
classify_entrypoint path =
    if ends_with "/main.go" path || ends_with "/main.py" path
    then "service_entrypoint"
    else if str_eq path "go.mod"
    then "module_root"
    else "project_entrypoint"

abbrev pub is_entrypoint : String → Bool
is_entrypoint path =
    ends_with "/main.go" path
    || (ends_with "/main.py" path || contains path ("go.mod" ∷ "README.md" ∷ []))

unfoldable pub entrypoint_loop : List Entrypoint → List RepoFile → List Entrypoint
entrypoint_loop entrypoints [] = entrypoints
entrypoint_loop entrypoints (f ∷ fs) =
    let found =
      if is_entrypoint f.path
      then entrypoints ++ record { path = f.path; kind = classify_entrypoint f.path } ∷ []
      else entrypoints in
    let later = entrypoint_loop found fs in if length found == 10 then found else later

unfoldable pub derive_entrypoints : List RepoFile → List Entrypoint
derive_entrypoints files = entrypoint_loop [] files

-- What the summary looks for under the root.
pub record Root : Type 0 where
  pub has_go_mod : Bool
  pub has_python_file : Bool
  pub has_deploy_slurm : Bool
  pub has_broker : Bool
  pub has_tests : Bool

unfoldable pub derive_dependencies : Root → List (String × String)
derive_dependencies root =
    when root.has_go_mod ("Go toolchain", "build_dependency")
    ++ when root.has_python_file ("Python 3", "runtime_dependency")
    ++ when root.has_deploy_slurm ("Slurm", "runtime_dependency")

abbrev pub or_consistent : List String → List String
or_consistent [] =
    "Repository structure appears consistent with the current summary heuristics." ∷ []
or_consistent (risk ∷ risks) = risk ∷ risks

unfoldable pub derive_risks : Root → ℕ → List String
derive_risks root file_count = take 5 (
    or_consistent (
      when (not root.has_broker) "Repository does not yet contain a dedicated broker package."
      ++ when (file_count == 0) "No files were discovered in the repository summary pass."
      ++ when (not root.has_tests) "No tests directory was found."))
