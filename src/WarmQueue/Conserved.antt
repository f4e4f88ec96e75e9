-- ===== src/WarmQueue/Conserved.antt =====
-- Which files of the queue a claim moves.
use mathlib.Core.Bool.{true≢false}
use local_ai_broker.Prelude.{
  String, true, false, List, [], ◌∷◌, contains, ◌≡◌, refl, sym, ap, ◌∙◌, inl, inr, Bool-cases,
  arith,
}
use local_ai_broker.Prelude.Distinct.{str_eq_refl}
use local_ai_broker.Prelude.Result.{Result, Result-cases}
use local_ai_broker.StagedJob.{JobError, Job}
use local_ai_broker.WarmQueue.{
  Spool, Request, Processed, without, refused_name, run_request, process_warm_request,
  process_claimed_warm_request,
}

contains-without : (x : String) (xs : List String) → contains x (without x xs) ≡ false
contains-without x [] = refl
contains-without x (y ∷ ys) = ground (arith, contains-without x ys)

without-twice : (x : String) (xs : List String) → without x (without x xs) ≡ without x xs
without-twice x [] = refl
without-twice x (y ∷ ys) = ground (arith, without-twice x ys)

pub without-absent : (x : String) (xs : List String) → contains x xs ≡ false → without x xs ≡ xs
without-absent x [] h = refl
without-absent x (y ∷ ys) h = ground (arith, without-absent x ys)

without-claimed : (x : String) (xs : List String) → without x (x ∷ without x xs) ≡ without x xs
without-claimed x xs = ground (arith, str_eq_refl x, without-twice x xs)

module _ {P : Type 0} where
  run_request-keeps :
      (dir : String) (job : Job P) (s : Spool P)
      → ((run_request dir job s).0.requests ≡ s.requests)
        × ((run_request dir job s).0.working ≡ s.working)
  unfolding run_request
  run_request-keeps dir job s = elim (Bool-cases (s.outputs dir).cancel_request) [
    | inl stops ↦ rw (stops, run_request) (refl, refl)
    | inr goes ↦ rw (goes, run_request) (refl, refl)
  ]

  process_warm_request-keeps :
      (contents : String → Result JobError (Request P)) (stem : String) (s : Spool P)
      → ((process_warm_request contents stem s).0.requests ≡ s.requests)
        × ((process_warm_request contents stem s).0.working ≡ s.working)
  unfolding process_warm_request
  process_warm_request-keeps contents stem s = elim (Result-cases (contents stem)) [
    | inr (error, e) ↦ rw (e, process_warm_request) (refl, refl)
    | inl (request, e) ↦ elim (Result-cases request.job_spec) [
      | inr (error, k) ↦ rw (e, process_warm_request, k) (refl, refl)
      | inl (job, k) ↦ rw (e, process_warm_request, k) (run_request-keeps request.output_dir job _)
    ]
  ]

  -- What a claim does to the queue, whatever becomes of the request.
  abbrev pub IsClaimed : String → Spool P → Processed P → Type 0
  IsClaimed stem s r =
      (r.claimed ≡ contains stem s.requests)
      × (r.spool.requests ≡ without stem s.requests)
      × (contains stem r.spool.requests ≡ false)
      × (r.claimed ≡ true
          → (r.spool.working ≡ without stem s.working) × (contains stem r.spool.working ≡ false))
      × (r.claimed ≡ false → (r.spool ≡ s) × (r.error ≡ refused_name stem))

  -- A request is claimed exactly where it is queued. It is queued no more then, nor is its claimed file left, whatever
  -- becomes of it, so that it cannot be claimed again; and all other requests, queued or claimed, are as
  -- they were. What is not queued changes nothing, and raises exactly where its name has a NUL.
  pub process_claimed_warm_request-IsClaimed :
      (contents : String → Result JobError (Request P)) (stem : String) (s : Spool P)
      → IsClaimed stem s (process_claimed_warm_request contents stem s)
  unfolding process_claimed_warm_request
  process_claimed_warm_request-IsClaimed contents stem s =
      elim (Bool-cases (contains stem s.requests)) [
        | inl there ↦
            rw (there, process_claimed_warm_request)
              (
                refl,
                queued,
                ap (contains stem) queued ∙ contains-without stem s.requests,
                λ _. (
                  ap (without stem) moved ∙ without-claimed stem s.working,
                  contains-without stem (process_warm_request contents stem claim).0.working,
                ),
                λ h. absurd (true≢false h),
              )
        | inr gone ↦
            rw (gone, process_claimed_warm_request)
              (
                refl,
                sym (without-absent stem s.requests gone),
                gone,
                λ h. absurd (true≢false (sym h)),
                λ _. (refl, refl),
              )
      ]
    where
      claim : Spool P
      claim = record s {
        requests = without stem s.requests;
        working = stem ∷ without stem s.working;
      }

      queued : (process_warm_request contents stem claim).0.requests ≡ without stem s.requests
      queued = (process_warm_request-keeps contents stem claim).0

      moved : (process_warm_request contents stem claim).0.working ≡ stem ∷ without stem s.working
      moved = (process_warm_request-keeps contents stem claim).1
