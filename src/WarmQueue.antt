-- ===== src/WarmQueue.antt =====
-- The queue of the warm daemon, workers/rag-compression/inspect_repo_worker.py: `recover_warm_requests`,
-- `iter_warm_request_paths`, `process_claimed_warm_request`, `process_warm_request`,
-- `release_warm_request_slot`, `build_wakeup_metadata_map` and the passes of `run_warm_daemon`. A request
-- is known by the stem of its file: `requests` are the stems with a `.json` file, `working` those
-- with a `.working` file. Of the broker only the requests are modelled that it writes while the daemon waits.
pub mod Names
pub mod Slots
pub mod Conserved
pub mod Drained
pub mod Recovered
use Prim.Native.Char.{code}
use Prim.Native.String.{◌++◌ as str_append}
use local_ai_broker.Prelude.{
  ℕ, String, Bool, true, false, not, Option, none, some, List, [], ◌∷◌, ◌++◌, str_eq, contains,
  keep, ◌==◌, if◌then◌else◌, ◌&&◌, ◌||◌, sort_by,
}
use local_ai_broker.Prelude.Result.{Result, ok, raise}
use local_ai_broker.Prelude.Text.{strip, is_empty, or_else}
use local_ai_broker.Prelude.TextOrder.{str_lt}
use local_ai_broker.Prelude.Search.{partition, occurs}
use local_ai_broker.StagedJob.{
  Event, heartbeat, failed, cancelled, JobError, other, Job, run_staged_job,
}

-- The stem of a name that ends with the suffix.
unfoldable pub drop_suffix : (suffix name : String) → Option String
drop_suffix suffix String.[] = if str_eq suffix String.[] then some String.[] else none
drop_suffix suffix (String.◌∷◌ c name) =
    let later = drop_suffix suffix name in
    if str_eq suffix (String.◌∷◌ c name)
    then some String.[]
    else elim later [ some stem ↦ some (String.◌∷◌ c stem) | none ↦ none ]

-- The request that a wakeup names: a plain `.json` name of one file.
unfoldable pub named_request : String → Option String
unfolding strip occurs drop_suffix
named_request raw =
    let name = strip raw in
    if is_empty name || occurs "/" name || occurs "\\" name then none else drop_suffix ".json" name

-- A text with a NUL, which names no file: a path with one raises a ValueError.
unfoldable pub has_nul : String → Bool
has_nul String.[] = false
has_nul (String.◌∷◌ c s) = let later = has_nul s in code c == 0 || later

-- What the renaming of a file that is not there raises: an OSError is caught, a ValueError is not.
abbrev pub refused_name : String → Option JobError
refused_name stem = if has_nul stem then some (other "embedded null byte") else none

-- Paths are sorted by their names.
abbrev pub earlier_path : String → String → String → Bool
earlier_path suffix a b = str_lt (str_append a suffix) (str_append b suffix)

unfoldable pub woken : List String → List String → List String
unfolding named_request
woken seen [] = []
woken seen (raw ∷ names) = elim (named_request raw) [
  | none ↦ woken seen names
  | some stem ↦ if contains stem seen then woken seen names else stem ∷ woken (stem ∷ seen) names
]

unfoldable pub unseen : List String → List String → List String
unseen seen [] = []
unseen seen (stem ∷ stems) =
    if contains stem seen then unseen seen stems else stem ∷ unseen (stem ∷ seen) stems

abbrev pub queued_paths : List String → List String → List String
queued_paths wake_request_names queued =
    unseen (woken [] wake_request_names) (sort_by (earlier_path ".json") queued)

-- The requests that were named first, and then the queued ones, as they are when the named ones are done.
unfoldable pub iter_warm_request_paths : List String → List String → List String
iter_warm_request_paths wake_request_names queued =
    woken [] wake_request_names ++ queued_paths wake_request_names queued

-- The files of an output directory, with the heartbeats and results that were written there.
pub record Output (P : Type 0) : Type 0 where
  pub cancel_request : Bool
  pub warm_request_marker : Bool
  pub events : List (Event P)

pub record Spool (P : Type 0) : Type 0 where
  pub requests : List String
  pub working : List String
  pub busy_marker : Option String
  pub outputs : String → Output P

-- What a claimed file holds, where it can be read; the job too may be in a file that cannot.
pub record Request (P : Type 0) : Type 0 where
  pub output_dir : String
  pub job_spec : Result JobError (Job P)

pub record Processed (P : Type 0) : Type 0 where
  pub spool : Spool P
  pub claimed : Bool
  pub error : Option JobError

abbrev pub without : String → List String → List String
without stem stems = keep (λ other. not (str_eq stem other)) stems

module _ {P : Type 0} where
  -- `recover_warm_requests`: a claimed file becomes a request again, or goes where there is a new one.
  unfoldable pub recover_one : Spool P → String → Spool P
  recover_one s stem =
      if contains stem s.requests
      then record s { working = without stem s.working }
      else record s { working = without stem s.working; requests = stem ∷ s.requests }

  unfoldable pub recover_loop : Spool P → List String → Spool P
  recover_loop s [] = s
  recover_loop s (stem ∷ stems) = recover_loop (recover_one s stem) stems

  unfoldable pub recover_warm_requests : Spool P → Spool P
  recover_warm_requests s = recover_loop s (sort_by (earlier_path ".working") s.working)

  abbrev pub set_output : String → Output P → Spool P → Spool P
  set_output dir output s = record s {
    outputs = λ other. if str_eq dir other then output else s.outputs other;
  }

  abbrev pub ended_heartbeat : Option JobError → List (Event P)
  ended_heartbeat none = []
  ended_heartbeat (some error) = heartbeat failed "failed" ∷ []

  abbrev pub cleared : List (Event P) → Output P
  cleared events = record { cancel_request = false; warm_request_marker = false; events = events }

  -- What is done with a request whose job could be read.
  unfoldable pub run_request : String → Job P → Spool P → Spool P × Option JobError
  run_request dir job s =
      let output = s.outputs dir in
      if output.cancel_request
      then (
        set_output dir (cleared (output.events ++ heartbeat cancelled "cancelled" ∷ [])) s,
        none,
      )
      else let (events, error) = run_staged_job true job in
        (
          set_output dir (cleared (output.events ++ events ++ ended_heartbeat error))
              (record s { busy_marker = none }),
          error,
        )

  unfoldable pub process_warm_request :
      (String → Result JobError (Request P)) → String → Spool P → Spool P × Option JobError
  process_warm_request contents stem s = elim (contents stem) [
    | raise error ↦ (s, some error)
    | ok request ↦
        let busy : Spool P = record s { busy_marker = some (str_append stem ".working") } in
        elim request.job_spec [
          | raise error ↦ (busy, some error)
          | ok job ↦ run_request request.output_dir job busy
        ]
  ]

  -- The claim renames the file, which fails where it is gone; the claimed file goes in any case. No file has
  -- a name with a NUL, so that such a name is not found.
  unfoldable pub process_claimed_warm_request :
      (String → Result JobError (Request P)) → String → Spool P → Processed P
  unfolding has_nul
  process_claimed_warm_request contents stem s =
      let claim : Spool P = record s {
        requests = without stem s.requests;
        working = stem ∷ without stem s.working;
      } in
      let (after, error) = process_warm_request contents stem claim in
      if contains stem s.requests
      then record {
        spool = record after { working = without stem after.working };
        claimed = true;
        error = error;
      }
      else record { spool = s; claimed = false; error = refused_name stem }

  -- A pass over some paths, which an error ends.
  unfoldable pub pass : (String → Result JobError (Request P)) → List String → Spool P → Processed P
  pass contents [] s = record { spool = s; claimed = false; error = none }
  pass contents (stem ∷ stems) s =
      let first = process_claimed_warm_request contents stem s in
      let rest = pass contents stems first.spool in
      elim first.error [
        | some error ↦ first
        | none ↦ record rest { claimed = first.claimed || rest.claimed }
      ]

  -- A pass over the paths of `iter_warm_request_paths`: the queue is read when the named requests are done.
  unfoldable pub pass_over :
      (String → Result JobError (Request P)) → List String → Spool P → Processed P
  pass_over contents wake_request_names s =
      let named = pass contents (woken [] wake_request_names) s in
      let queued =
        pass contents (queued_paths wake_request_names named.spool.requests) named.spool in
      elim named.error [
        | some error ↦ named
        | none ↦ record queued { claimed = named.claimed || queued.claimed }
      ]

  abbrev pub unless_silent : List String → Processed P → Processed P → Processed P
  unless_silent [] quiet woken_pass = quiet
  unless_silent (m ∷ ms) quiet woken_pass = woken_pass

  -- The requests that the broker writes while the daemon waits.
  abbrev pub arrive : List String → Spool P → Spool P
  arrive arrivals s = record s { requests = unseen s.requests arrivals ++ s.requests }

  -- One round of the loop, with the messages and the requests that come while it waits; after a round
  -- that worked on a request it does not wait.
  unfoldable pub daemon_round :
      (String → Result JobError (Request P)) → List String → List String → Spool P → Processed P
  daemon_round contents messages arrivals s =
      let first = pass_over contents [] s in
      let waited = arrive arrivals first.spool in
      let woken_pass = pass_over contents messages waited in
      elim first.error [
        | some error ↦ first
        | none ↦
            if first.claimed
            then first
            else unless_silent messages (record { spool = waited; claimed = false; error = none })
                woken_pass
      ]
