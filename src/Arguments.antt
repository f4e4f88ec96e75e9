-- ===== src/Arguments.antt =====
-- The arguments of the inspection worker: `parse_args` of workers/rag-compression/inspect_repo_worker.py. The
-- dictionary of the options, whose keys are fixed, is a function from flags; none is `None`.
pub mod Rendered
use local_ai_broker.Prelude.{
  ℕ, String, Bool, true, false, not, Option, none, some, List, [], ◌∷◌, ◌++◌, str_eq, ◌==◌,
  if◌then◌else◌, ◌||◌, ◌&&◌, keep,
}
use local_ai_broker.Prelude.Result.{Result, ok, raise, ◌>>=◌}
use local_ai_broker.Prelude.Search.{drop_prefix, is_some}
use local_ai_broker.Prelude.Text.{is_empty}

pub data Flag : Type 0 where
  job_spec execution_plan input_manifest output_dir heartbeat_path completion_socket_path
        daemon_spool_dir repo_root :
      Flag

abbrev pub flag_name : Flag → String
flag_name job_spec = "--job-spec"
flag_name execution_plan = "--execution-plan"
flag_name input_manifest = "--input-manifest"
flag_name output_dir = "--output-dir"
flag_name heartbeat_path = "--heartbeat-path"
flag_name completion_socket_path = "--completion-socket-path"
flag_name daemon_spool_dir = "--daemon-spool-dir"
flag_name repo_root = "--repo-root"

abbrev pub all_flags : List Flag
all_flags =
    job_spec ∷ execution_plan ∷ input_manifest ∷ output_dir ∷ heartbeat_path
    ∷ completion_socket_path ∷ daemon_spool_dir ∷ repo_root ∷ []

-- The places of the keys in `options`, by which two of them are compared.
abbrev pub flag_index : Flag → ℕ
flag_index job_spec = 0
flag_index execution_plan = 1
flag_index input_manifest = 2
flag_index output_dir = 3
flag_index heartbeat_path = 4
flag_index completion_socket_path = 5
flag_index daemon_spool_dir = 6
flag_index repo_root = 7

abbrev pub same_flag : Flag → Flag → Bool
same_flag f g = flag_index f == flag_index g

-- The chain of `if flag == ...`.
unfoldable pub flag_of : String → Option Flag
flag_of flag =
    if str_eq flag "--job-spec"
    then some job_spec
    else if str_eq flag "--execution-plan"
    then some execution_plan
    else if str_eq flag "--input-manifest"
    then some input_manifest
    else if str_eq flag "--output-dir"
    then some output_dir
    else if str_eq flag "--heartbeat-path"
    then some heartbeat_path
    else if str_eq flag "--completion-socket-path"
    then some completion_socket_path
    else if str_eq flag "--daemon-spool-dir"
    then some daemon_spool_dir
    else if str_eq flag "--repo-root"
    then some repo_root
    else none

abbrev pub Options : Type 0
Options = Flag → Option String

abbrev pub no_options : Options
no_options flag = none

abbrev pub set_option : Flag → String → Options → Options
set_option flag value options other = if same_flag flag other then some value else options other

pub data ArgumentError : Type 0 where
  unexpected missing_value : String → ArgumentError
  missing_required : List Flag → ArgumentError

unfoldable pub parse_loop : Options → List String → Result ArgumentError Options
parse_loop options [] = ok options
parse_loop options (flag ∷ []) =
    if is_some (drop_prefix "--" flag) then raise (missing_value flag) else raise (unexpected flag)
parse_loop options (flag ∷ value ∷ rest) =
    if is_some (drop_prefix "--" flag)
    then elim (flag_of flag) [
      | some known ↦ parse_loop (set_option known value options) rest
      | none ↦ raise (unexpected flag)
    ]
    else raise (unexpected flag)

-- `options[name]` as a condition.
abbrev pub is_given : Option String → Bool
is_given none = false
is_given (some value) = not (is_empty value)

abbrev pub missing_flags : Options → List Flag
missing_flags options =
    keep (λ flag. not (is_given (options flag))) (job_spec ∷ input_manifest ∷ output_dir ∷ [])

unfoldable pub check_required : Options → Result ArgumentError Options
check_required options =
    if is_given (options daemon_spool_dir) then ok options else elim (missing_flags options) [
      | [] ↦ ok options
      | flag ∷ flags ↦ raise (missing_required (flag ∷ flags))
    ]

unfoldable pub parse_args : List String → Result ArgumentError Options
parse_args argv = parse_loop no_options argv >>= check_required
