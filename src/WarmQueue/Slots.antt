-- ===== src/WarmQueue/Slots.antt =====
-- What a request that the daemon works on leaves behind.
use mathlib.Core.List.{append-nil, append_assoc}
use mathlib.Core.Path.{subst}
use mathlib.Core.Bool.{true≢false}
use Prim.Native.String.{◌++◌ as str_append}
use local_ai_broker.Prelude.{
  String, Bool, true, false, none, some, List, [], ◌∷◌, ◌++◌, str_eq, if◌then◌else◌, ◌≡◌, refl, sym,
  ap, ◌∙◌, inl, inr, Bool-cases, All,
}
use local_ai_broker.Prelude.Distinct.{str_eq_refl}
use local_ai_broker.Prelude.Result.{Result, ok}
use local_ai_broker.StagedJob.{
  State, running, completed, failed, cancelled, timed_out, Event, heartbeat, wrote_artifacts,
  released_slot, notified, wrote_result, JobError, Job, run_staged_job, Shown,
}
use local_ai_broker.StagedJob.Protocol.{
  Stage, starting, searching, validated, storing, free, written, told, over, Step, Steps, done,
  onward, Follows, run_staged_job-Follows, retrieves, validates, late, late_writing, stores_cached,
  stores, stores_validated, releases, keeps, writes, tells, completes,
}
use local_ai_broker.WarmQueue.{Spool, Request, ended_heartbeat, run_request, process_warm_request}

-- The states of a heartbeat that nothing follows.
abbrev pub is_terminal_state : State → Bool
is_terminal_state running = false
is_terminal_state completed = true
is_terminal_state failed = true
is_terminal_state cancelled = true
is_terminal_state timed_out = true

abbrev is_over : Stage → Bool
is_over over = true
is_over starting = false
is_over searching = false
is_over validated = false
is_over storing = false
is_over free = false
is_over written = false
is_over told = false

module _ {P : Type 0} where
  abbrev pub is_terminal : Event P → Bool
  is_terminal (heartbeat state phase) = is_terminal_state state
  is_terminal wrote_artifacts = false
  is_terminal released_slot = false
  is_terminal notified = false
  is_terminal (wrote_result payload) = false

  -- The last event is a heartbeat of a terminal state, and no event before it is one.
  abbrev pub IsEnded : List (Event P) → Type 0
  IsEnded events =
      (earlier : List (Event P)) × (state : State) × (phase : String) × (events
        ≡ earlier ++ heartbeat state phase ∷ [])
      × (is_terminal_state state ≡ true)
      × All (λ e. is_terminal e ≡ false) earlier

  Step-from : {d : Bool} {s t : Stage} {e : Event P} → Step P d s e t → is_over s ≡ false
  Step-from retrieves = refl
  Step-from validates = refl
  Step-from (late phase) = refl
  Step-from late_writing = refl
  Step-from stores_cached = refl
  Step-from stores = refl
  Step-from stores_validated = refl
  Step-from releases = refl
  Step-from keeps = refl
  Step-from writes = refl
  Step-from tells = refl
  Step-from completes = refl

  Step-to : {d : Bool} {s t : Stage} {e : Event P} → Step P d s e t → is_terminal e ≡ is_over t
  Step-to retrieves = refl
  Step-to validates = refl
  Step-to (late phase) = refl
  Step-to late_writing = refl
  Step-to stores_cached = refl
  Step-to stores = refl
  Step-to stores_validated = refl
  Step-to releases = refl
  Step-to keeps = refl
  Step-to writes = refl
  Step-to tells = refl
  Step-to completes = refl

  terminal_heartbeat :
      (e : Event P)
      → is_terminal e ≡ true
      → (state : State) × (phase : String) × (e ≡ heartbeat state phase)
        × (is_terminal_state state ≡ true)
  terminal_heartbeat (heartbeat state phase) h = (state, phase, refl, h)
  terminal_heartbeat wrote_artifacts h = cc
  terminal_heartbeat released_slot h = cc
  terminal_heartbeat notified h = cc
  terminal_heartbeat (wrote_result payload) h = cc

  Steps-over :
      {d : Bool} {s t : Stage} {es : List (Event P)}
      → Steps P d s es t
      → is_over s ≡ true
      → (es ≡ []) × (is_over t ≡ true)
  Steps-over done h = (refl, h)
  Steps-over (onward step rest) h = absurd (true≢false (sym h ∙ Step-from step))

  Steps-IsEnded :
      {d : Bool} {s t : Stage} {es : List (Event P)}
      → Steps P d s es t
      → is_over s ≡ false
      → is_over t ≡ true
      → IsEnded es
  Steps-IsEnded done h k = absurd (true≢false (sym k ∙ h))
  Steps-IsEnded (onward {t = u} {e = e} {es = es} step rest) h k = elim (Bool-cases (is_over u)) [
    | inl ends ↦
        let (state, phase, same, terminal) = terminal_heartbeat e (Step-to step ∙ ends) in
        let (nothing, _) = Steps-over rest ends in
        ([], state, phase, (λ i. same i ∷ nothing i), terminal, tt)
    | inr goes ↦
        let (earlier, state, phase, whole, terminal, others) = Steps-IsEnded rest goes k in
        (e ∷ earlier, state, phase, ap (λ l. e ∷ l) whole, terminal, (Step-to step ∙ goes, others))
  ]

  Steps-onward :
      {d : Bool} {s t : Stage} {es : List (Event P)}
      → Steps P d s es t
      → is_over t ≡ false
      → All (λ e. is_terminal e ≡ false) es
  Steps-onward done k = tt
  Steps-onward (onward {t = u} step rest) k = elim (Bool-cases (is_over u)) [
    | inl ends ↦ absurd (true≢false (sym (Steps-over rest ends).1 ∙ k))
    | inr goes ↦ (Step-to step ∙ goes, Steps-onward rest k)
  ]

  -- A job with the heartbeat of its failure.
  shown-IsEnded :
      (shown : Shown P) → Follows true starting shown → IsEnded (shown.0 ++ ended_heartbeat shown.1)
  shown-IsEnded (events, none) steps =
      subst IsEnded (sym (append-nil events)) (Steps-IsEnded steps refl refl)
  shown-IsEnded (events, some error) (t, steps, inl e) =
      (events, failed, "failed", refl, refl, Steps-onward steps (ap is_over e))
  shown-IsEnded (events, some error) (t, steps, inr e) =
      (events, failed, "failed", refl, refl, Steps-onward steps (ap is_over e))

  -- What is left of a request, of the output directory and with the name of its claimed file.
  abbrev pub IsHandled : String → String → Spool P → Spool P → Type 0
  IsHandled dir name s t =
      (t.requests ≡ s.requests)
      × (t.working ≡ s.working)
      × ((other : String) → str_eq dir other ≡ false → t.outputs other ≡ s.outputs other)
      × ((t.outputs dir).cancel_request ≡ false)
      × ((t.outputs dir).warm_request_marker ≡ false)
      × ((new : List (Event P)) × ((t.outputs dir).events ≡ (s.outputs dir).events ++ new)
          × IsEnded new)
      × (t.busy_marker ≡ (if (s.outputs dir).cancel_request then some name else none))

  run_request-IsHandled :
      (dir name : String) (job : Job P) (s : Spool P)
      → IsHandled dir name s (run_request dir job (record s { busy_marker = some name })).0
  unfolding run_request
  run_request-IsHandled dir name job s = elim (Bool-cases (s.outputs dir).cancel_request) [
    | inl stops ↦
        rw (stops, run_request)
          (
            refl,
            refl,
            λ other apart. rw (apart) refl,
            rw (str_eq_refl dir) refl,
            rw (str_eq_refl dir) refl,
            (
              heartbeat cancelled "cancelled" ∷ [],
              rw (str_eq_refl dir) refl,
              ([], cancelled, "cancelled", refl, refl, tt),
            ),
            refl,
          )
    | inr goes ↦
        rw (goes, run_request)
          (
            refl,
            refl,
            λ other apart. rw (apart) refl,
            rw (str_eq_refl dir) refl,
            rw (str_eq_refl dir) refl,
            (
              (run_staged_job true job).0 ++ ended_heartbeat (run_staged_job true job).1,
              rw (str_eq_refl dir) (
                  append_assoc (s.outputs dir).events (run_staged_job true job).0
                    (ended_heartbeat (run_staged_job true job).1)),
              shown-IsEnded (run_staged_job true job) (run_staged_job-Follows true job),
            ),
            refl,
          )
  ]

  -- A request whose file and job can be read leaves the queue as it is and the other outputs too. Its cancel file and
  -- its marker are gone, and its output has new events, the last of which, and no other, is a
  -- heartbeat that says how the request ended. The busy marker is gone too, except where the request was
  -- cancelled, which leaves the marker of the request.
  pub process_warm_request-IsHandled :
      (contents : String → Result JobError (Request P)) (stem : String) (s : Spool P)
      → (request : Request P) (job : Job P) → contents stem ≡ ok request
      → request.job_spec ≡ ok job
      → IsHandled request.output_dir
          (str_append stem ".working")
          s
          (process_warm_request contents stem s).0
  unfolding process_warm_request
  process_warm_request-IsHandled contents stem s request job e k =
      rw (e, process_warm_request, k)
        (run_request-IsHandled request.output_dir (str_append stem ".working") job s)
