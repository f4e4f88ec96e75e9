-- ===== src/WarmQueue/Drained.antt =====
-- What a pass of the daemon leaves of the queue.
use local_ai_broker.Prelude.{String, false, none, List, [], contains, ◌≡◌, All, ◌⊎◌, ◌↔◌}
use local_ai_broker.Prelude.Membership.{In}
use local_ai_broker.Prelude.Result.{Result}
use local_ai_broker.StagedJob.{JobError}
use local_ai_broker.WarmQueue.{has_nul, Spool, Request, Processed, process_warm_request}

-- Names that files can have.
abbrev pub AreNames : List String → Type 0
AreNames stems = All (λ stem. has_nul stem ≡ false) stems

module _ {P : Type 0} (contents : String → Result JobError (Request P)) where
  -- No request raises, wherever it is worked on.
  abbrev pub AllReturn : Type 0
  AllReturn = (stem : String) (s : Spool P) → (process_warm_request contents stem s).1 ≡ none

  -- Every request of a list is done: it is queued no more, and no other request has come or gone.
  abbrev pub IsPassed : List String → Spool P → Processed P → Type 0
  IsPassed stems s r =
      (r.error ≡ none)
      × ((stem : String)
          → In stem r.spool.requests
          → In stem s.requests × (contains stem stems ≡ false))
      × ((stem : String)
          → In stem s.requests
          → contains stem stems ≡ false
          → In stem r.spool.requests)

  -- What a round leaves queued: nothing, or, where it was idle and no message came, the requests that came.
  abbrev pub IsRound : List String → List String → Processed P → Type 0
  IsRound messages arrivals r =
      (r.error ≡ none)
      × ((r.spool.requests ≡ [])
          ⊎ ((messages ≡ []) × ((stem : String) → In stem r.spool.requests ↔ In stem arrivals)))
