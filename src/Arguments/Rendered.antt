-- ===== src/Arguments/Rendered.antt =====
-- That the arguments which the broker writes for some options are read as those options.
use mathlib.Core.Path.{fun_ext}
use local_ai_broker.Prelude.{
  ℕ, zero, suc, String, Bool, true, false, Option, none, some, List, [], ◌∷◌, ==_iff, if◌then◌else◌,
  ◌||◌, ◌&&◌, member, ◌≡◌, refl, sym, ap, ◌∙◌, inl, inr, Bool-cases, arith,
}
use local_ai_broker.Prelude.Result.{ok, ◌>>=◌}
use local_ai_broker.Prelude.Search.{drop_prefix, is_some}
use local_ai_broker.Arguments.{
  Flag, job_spec, execution_plan, input_manifest, output_dir, heartbeat_path,
  completion_socket_path, daemon_spool_dir, repo_root, flag_name, all_flags, flag_index, same_flag,
  flag_of, Options, no_options, set_option, parse_loop, is_given, check_required, parse_args,
}

-- An option that is there, behind its flag.
abbrev pub given : Flag → Option String → List String → List String
given f none rest = rest
given f (some value) rest = flag_name f ∷ value ∷ rest

abbrev pub render : Options → List Flag → List String
render options [] = []
render options (f ∷ fs) = given f (options f) (render options fs)

abbrev pub is_complete : Options → Bool
is_complete options =
    is_given (options daemon_spool_dir)
    || (is_given (options job_spec)
        && (is_given (options input_manifest) && is_given (options output_dir)))

flag_of-flag_name : (f : Flag) → flag_of (flag_name f) ≡ some f
unfolding flag_of
flag_of-flag_name job_spec = refl
flag_of-flag_name execution_plan = refl
flag_of-flag_name input_manifest = refl
flag_of-flag_name output_dir = refl
flag_of-flag_name heartbeat_path = refl
flag_of-flag_name completion_socket_path = refl
flag_of-flag_name daemon_spool_dir = refl
flag_of-flag_name repo_root = refl

begins : (f : Flag) → is_some (drop_prefix "--" (flag_name f)) ≡ true
unfolding drop_prefix
begins job_spec = refl
begins execution_plan = refl
begins input_manifest = refl
begins output_dir = refl
begins heartbeat_path = refl
begins completion_socket_path = refl
begins daemon_spool_dir = refl
begins repo_root = refl

flag_at : ℕ → Flag
flag_at zero = job_spec
flag_at (suc zero) = execution_plan
flag_at (suc (suc zero)) = input_manifest
flag_at (suc (suc (suc zero))) = output_dir
flag_at (suc (suc (suc (suc zero)))) = heartbeat_path
flag_at (suc (suc (suc (suc (suc zero))))) = completion_socket_path
flag_at (suc (suc (suc (suc (suc (suc zero)))))) = daemon_spool_dir
flag_at (suc (suc (suc (suc (suc (suc (suc n))))))) = repo_root

flag_at-flag_index : (f : Flag) → flag_at (flag_index f) ≡ f
unfolding flag_at
flag_at-flag_index job_spec = refl
flag_at-flag_index execution_plan = refl
flag_at-flag_index input_manifest = refl
flag_at-flag_index output_dir = refl
flag_at-flag_index heartbeat_path = refl
flag_at-flag_index completion_socket_path = refl
flag_at-flag_index daemon_spool_dir = refl
flag_at-flag_index repo_root = refl

same_flag-eq : (f g : Flag) → same_flag f g ≡ true → f ≡ g
same_flag-eq f g h =
    sym (flag_at-flag_index f)
    ∙ ap flag_at ((==_iff (flag_index f) (flag_index g)).0 h)
    ∙ flag_at-flag_index g

-- What is read of some flags, over what was there.
abbrev put : Flag → Option String → Options → Options
put f none before = before
put f (some value) before = set_option f value before

abbrev overlay : Options → List Flag → Options → Options
overlay options [] before = before
overlay options (f ∷ fs) before = overlay options fs (put f (options f) before)

parse_loop-given :
    (f : Flag) (o : Option String) (before : Options) (rest : List String)
    → parse_loop before (given f o rest) ≡ parse_loop (put f o before) rest
unfolding parse_loop
parse_loop-given f none before rest = refl
parse_loop-given f (some value) before rest = rw (begins f, flag_of-flag_name f, parse_loop) refl

parse_loop-render :
    (options before : Options) (fs : List Flag)
    → parse_loop before (render options fs) ≡ ok (overlay options fs before)
unfolding parse_loop
parse_loop-render options before [] = refl
parse_loop-render options before (f ∷ fs) =
    parse_loop-given f (options f) before (render options fs)
    ∙ parse_loop-render options (put f (options f) before) fs

-- A flag that was not given keeps what was there.
abbrev or_before : Option String → Option String → Option String
or_before none before = before
or_before (some value) before = some value

or_before-twice : (o before : Option String) → or_before o (or_before o before) ≡ or_before o before
or_before-twice none before = refl
or_before-twice (some value) before = refl

put-here :
    (f : Flag) (o : Option String) (before : Options) → put f o before f ≡ or_before o (before f)
put-here f none before = refl
put-here f (some value) before = rw ((==_iff (flag_index f) (flag_index f)).1 refl) refl

put-elsewhere :
    (f g : Flag) (o : Option String) (before : Options)
    → same_flag f g ≡ false
    → put f o before g ≡ before g
put-elsewhere f g none before h = refl
put-elsewhere f g (some value) before h = rw (h) refl

overlay-at :
    (options before : Options) (fs : List Flag) (g : Flag)
    → overlay options fs before g
      ≡ (if member same_flag g fs then or_before (options g) (before g) else before g)
overlay-at options before [] g = refl
overlay-at options before (f ∷ fs) g =
    overlay-at options (put f (options f) before) fs g ∙ elim (Bool-cases (same_flag g f)) [
      | inl same ↦
          let is = same_flag-eq g f same in
          let here : put f (options f) before g ≡ or_before (options g) (before g) =
            ap (λ x. put f (options f) before x) is
            ∙ put-here f (options f) before
            ∙ ap (λ x. or_before (options x) (before x)) (sym is) in
          ground (arith, here, or_before-twice (options g) (before g))
      | inr apart ↦
          let there : same_flag f g ≡ false = ground arith in
          ground (arith, put-elsewhere f g (options f) before there)
    ]

every_flag : (f : Flag) → member same_flag f all_flags ≡ true
every_flag job_spec = refl
every_flag execution_plan = refl
every_flag input_manifest = refl
every_flag output_dir = refl
every_flag heartbeat_path = refl
every_flag completion_socket_path = refl
every_flag daemon_spool_dir = refl
every_flag repo_root = refl

or_before-none : (o : Option String) → or_before o none ≡ o
or_before-none none = refl
or_before-none (some value) = refl

overlay-all : (options : Options) → overlay options all_flags no_options ≡ options
overlay-all options = fun_ext (λ f.
    overlay-at options no_options all_flags f
    ∙ ap (λ b. if b then or_before (options f) none else none) (every_flag f)
    ∙ or_before-none (options f))

check_required_complete :
    (options : Options) → is_complete options ≡ true → check_required options ≡ ok options
unfolding check_required
check_required_complete options h = ground arith

-- The arguments that are written for options, with a spool directory or with a job, a manifest and an output
-- directory, are read as those options.
pub parse_args-render :
    (options : Options)
    → is_complete options ≡ true
    → parse_args (render options all_flags) ≡ ok options
unfolding parse_args
parse_args-render options h =
    ap (λ r. r >>= check_required) (parse_loop-render options no_options all_flags)
    ∙ ap check_required (overlay-all options)
    ∙ check_required_complete options h
