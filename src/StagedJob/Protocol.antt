-- ===== src/StagedJob/Protocol.antt =====
-- The protocol that the broker sees of a job, and that every job keeps to it.
use local_ai_broker.Prelude.{
  ℕ, String, Bool, true, false, Option, none, some, List, [], ◌∷◌, if◌then◌else◌, ◌≡◌, refl, ◌⊎◌,
  inl, inr, Bool-cases,
}
use local_ai_broker.Prelude.Result.{Result, ok, raise}
use local_ai_broker.StagedJob.{
  running, completed, timed_out, Event, heartbeat, wrote_artifacts, released_slot, notified,
  wrote_result, JobError, Prefetched, Check, phase_name, Job, runtime_limit_reached, prepare,
  unless_late, probe, finish, inspect, run_staged_job, Shown, discovering_inputs, prefetching,
  retrieving, writing_artifacts, after, or_raise,
}

-- How far a job is, for one who follows its events.
pub data Stage : Type 0 where
  starting searching validated storing free written told over : Stage

-- One event of a job, of a daemon or not: the artifacts are written before the slot is released, which a daemon does
-- before it writes the result; then the completion is told, and last of all shown by a heartbeat. A job may run
-- out of time before its artifacts are written.
pub data Step (P : Type 0) : Bool → Stage → Event P → Stage → Type 0 where
  retrieves : {d : Bool} → Step P d starting (heartbeat running "gpu_first_retrieval") searching
  validates : {d : Bool} → Step P d searching (heartbeat running "validated_synthesis") validated
  late : {d : Bool} → (phase : String) → Step P d starting (heartbeat timed_out phase) over
  late_writing : {d : Bool} → Step P d searching (heartbeat timed_out "writing_artifacts") over
  stores_cached : {d : Bool} → Step P d starting wrote_artifacts storing
  stores : {d : Bool} → Step P d searching wrote_artifacts storing
  stores_validated : {d : Bool} → Step P d validated wrote_artifacts storing
  releases : Step P true storing released_slot free
  keeps : {payload : P} → Step P false storing (wrote_result payload) written
  writes : {payload : P} → Step P true free (wrote_result payload) written
  tells : {d : Bool} → Step P d written notified told
  completes : {d : Bool} → Step P d told (heartbeat completed "completed") over

pub data Steps (P : Type 0) (d : Bool) : Stage → List (Event P) → Stage → Type 0 where
  done : {s : Stage} → Steps P d s [] s
  onward :
      {s t u : Stage} {e : Event P} {es : List (Event P)}
      → Step P d s e t
      → Steps P d t es u
      → Steps P d s (e ∷ es) u

module _ {P : Type 0} where
  -- A job that returns has shown that it is over; one that raises has shown at most that it retrieves.
  abbrev pub Follows : Bool → Stage → Shown P → Type 0
  Follows d s (events, none) = Steps P d s events over
  Follows d s (events, some error) =
      (t : Stage) × Steps P d s events t × ((t ≡ starting) ⊎ (t ≡ searching))

  Follows-after :
      (d : Bool) (s t : Stage) (e : Event P) (shown : Shown P)
      → Step P d s e t
      → Follows d t shown
      → Follows d s (e ∷ shown.0, shown.1)
  Follows-after d s t e (events, none) step rest = onward step rest
  Follows-after d s t e (events, some error) step (u, rest, place) = (u, onward step rest, place)

  finish-Steps :
      (d : Bool) (s : Stage) (payload : P)
      → Step P d s wrote_artifacts storing
      → Steps P d s (finish d payload).0 over
  unfolding finish
  finish-Steps true s payload step =
      onward step (onward releases (onward writes (onward tells (onward completes done))))
  finish-Steps false s payload step =
      onward step (onward keeps (onward tells (onward completes done)))

  unless_late-Follows :
      (d : Bool) (s : Stage) (job : Job P) (deadline : Option ℕ) (check : Check) (next : Shown P)
      → Step P d s (heartbeat timed_out (phase_name check)) over
      → Follows d s next
      → Follows d s (unless_late job deadline check next)
  unfolding unless_late
  unless_late-Follows d s job deadline check next step rest =
      elim (Bool-cases (runtime_limit_reached deadline (job.clock check))) [
        | inl past ↦ rw (past, unless_late) (onward step done)
        | inr early ↦ rw (early, unless_late) rest
      ]

  written-Follows :
      (d : Bool) (job : Job P) (payload : P)
      → Follows d searching (
          after
            (if job.answer_ready payload then heartbeat running "validated_synthesis" ∷ [] else [])
            (finish d payload))
  unfolding finish
  written-Follows d job payload = elim (Bool-cases (job.answer_ready payload)) [
    | inl ready ↦ rw (ready) (onward validates (finish-Steps d validated payload stores_validated))
    | inr other ↦ rw (other) (finish-Steps d searching payload stores)
  ]

  inspected-Follows :
      (d : Bool) (job : Job P) (deadline : Option ℕ) (inspected : Result JobError P)
      → Follows d starting (
          after (heartbeat running "gpu_first_retrieval" ∷ []) (
            or_raise inspected (λ payload. unless_late job deadline writing_artifacts (
              after
                (if job.answer_ready payload
                  then heartbeat running "validated_synthesis" ∷ []
                  else [])
                (finish d payload)))))
  inspected-Follows d job deadline (raise error) = (searching, onward retrieves done, inr refl)
  inspected-Follows d job deadline (ok payload) =
      Follows-after d starting searching (heartbeat running "gpu_first_retrieval") _ retrieves (
        unless_late-Follows d searching job deadline writing_artifacts _ late_writing
          (written-Follows d job payload))

  cached-Follows :
      (d : Bool) (job : Job P) (deadline : Option ℕ) (cached : Option P)
      → Follows d starting
          (elim cached [ some payload ↦ finish d payload | none ↦ inspect d job deadline ])
  unfolding finish inspect
  cached-Follows d job deadline none = inspected-Follows d job deadline job.run_inspection
  cached-Follows d job deadline (some payload) = finish-Steps d starting payload stores_cached

  probed-Follows :
      (d : Bool) (job : Job P) (deadline : Option ℕ) (probed : Result JobError (Option P))
      → Follows d starting (
          or_raise probed (λ cached.
            unless_late job deadline retrieving
              (elim cached [ some payload ↦ finish d payload | none ↦ inspect d job deadline ])))
  probed-Follows d job deadline (raise error) = (starting, done, inl refl)
  probed-Follows d job deadline (ok cached) =
      unless_late-Follows d starting job deadline retrieving _ (late _)
        (cached-Follows d job deadline cached)

  prefetched-Follows :
      (d : Bool) (job : Job P) (deadline : Option ℕ) (prefetched : Result JobError (Prefetched P))
      → Follows d starting (
          or_raise prefetched (λ state. unless_late job deadline prefetching (
            or_raise (probe job state) (λ cached.
              unless_late job deadline retrieving (elim cached [
                | some payload ↦ finish d payload
                | none ↦ inspect d job deadline
              ])))))
  prefetched-Follows d job deadline (raise error) = (starting, done, inl refl)
  prefetched-Follows d job deadline (ok state) =
      unless_late-Follows d starting job deadline prefetching _ (late _)
        (probed-Follows d job deadline (probe job state))

  prepared-Follows :
      (d : Bool) (job : Job P) (prepared : Result JobError (Option ℕ))
      → Follows d starting (
          or_raise prepared (λ deadline. unless_late job deadline discovering_inputs (
            or_raise job.prepare_prefetched_state (λ state. unless_late job deadline prefetching (
              or_raise (probe job state) (λ cached.
                unless_late job deadline retrieving (elim cached [
                  | some payload ↦ finish d payload
                  | none ↦ inspect d job deadline
                ])))))))
  prepared-Follows d job (raise error) = (starting, done, inl refl)
  prepared-Follows d job (ok deadline) =
      unless_late-Follows d starting job deadline discovering_inputs _ (late _)
        (prefetched-Follows d job deadline job.prepare_prefetched_state)

  -- Every job keeps to the protocol: what it shows are steps from its start, to the end where it
  -- returns, and where it raises to a place before its artifacts.
  pub run_staged_job-Follows : (d : Bool) (job : Job P) → Follows d starting (run_staged_job d job)
  unfolding run_staged_job
  run_staged_job-Follows d job = prepared-Follows d job (prepare job)
