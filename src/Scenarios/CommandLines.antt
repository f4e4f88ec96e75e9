-- ===== src/Scenarios/CommandLines.antt =====
-- The command line of a daemon, and some that are refused.
use local_ai_broker.Prelude.{none, some, [], ◌∷◌, ◌≡◌, refl}
use local_ai_broker.Prelude.Result.{ok, raise}
use local_ai_broker.Prelude.Search.{drop_prefix}
use local_ai_broker.Arguments.{
  input_manifest, output_dir, daemon_spool_dir, repo_root, all_flags, Options, flag_of, unexpected,
  missing_value, missing_required, parse_loop, check_required, parse_args,
}
use local_ai_broker.Arguments.Rendered.{render, parse_args-render}

abbrev daemon : Options
daemon daemon_spool_dir = some "/spool"
daemon repo_root = some "--odd"
daemon _ = none

parse_args-render_example : parse_args (render daemon all_flags) ≡ ok daemon
parse_args-render_example = parse_args-render daemon refl

no_output :
    parse_args ("--job-spec" ∷ "job.json" ∷ "--output-dir" ∷ "" ∷ [])
    ≡ raise (missing_required (input_manifest ∷ output_dir ∷ []))
unfolding parse_args parse_loop drop_prefix flag_of check_required
no_output = refl

no_value :
    parse_args ("--job-spec" ∷ "job.json" ∷ "--verbose" ∷ []) ≡ raise (missing_value "--verbose")
unfolding parse_args parse_loop drop_prefix flag_of check_required
no_value = refl

unknown_flag : parse_args ("--verbose" ∷ "1" ∷ []) ≡ raise (unexpected "--verbose")
unfolding parse_args parse_loop drop_prefix flag_of check_required
unknown_flag = refl
