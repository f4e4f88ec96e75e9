-- ===== src/Lexical/Run/Released.antt =====
-- What the evidence of a lexical job cites.
use mathlib.Core.Path.{subst}
use local_ai_broker.Prelude.{
  ℕ, suc, ◌≤◌, ◌≡◌, String, true, List, [], ◌∷◌, ◌++◌, str_eq, contains, distinct, length, take,
  ◌==◌, refl, ap, ◌∙◌, sym, arith, inl, inr, Bool-cases, All, All-take, map-take, length-map,
  length-take, take-short,
}
use local_ai_broker.Prelude.Distinct.{distinct-take}
use local_ai_broker.Prelude.Membership.{All-In, In, In-take, In-map, map-In}
use local_ai_broker.Evidence.{enforce_final_pack_budget}
use local_ai_broker.Evidence.Pack.{enforce_final_pack_budget-IsLongest}
use local_ai_broker.Service.{or_number}
use local_ai_broker.Lexical.{Chunk}
use local_ai_broker.Lexical.Blocks.{build_chunk_manifest}
use local_ai_broker.Lexical.Planning.{RetrievalPlan}
use local_ai_broker.Lexical.Execution.Signals.{Findings, Task}
use local_ai_broker.Lexical.Merging.{
  Candidate, make_candidate, fallback_score, fallback_candidates, Retrieval, execute_retrieval_plan,
}
use local_ai_broker.Lexical.Merging.Gathered.{IsBacked}
use local_ai_broker.Lexical.Merging.Ranked.{
  IsRetrieved, scored, unscored, execute_retrieval_plan-IsRetrieved, execute_retrieval_plan-some,
}
use local_ai_broker.Lexical.Picking.{
  Reranked, Selected, selected_of, rerank_candidates, select_chunks,
}
use local_ai_broker.Lexical.Picking.Picked.{
  firsts, IsSelection, hash_of, select_chunks-IsSelection, IsSelection-some,
}
use local_ai_broker.Lexical.Picking.Reordered.{rerank_candidates-IsReordering}
use local_ai_broker.Lexical.Pack.{Evidence, build_evidence, estimate_evidence_pack_tokens}
use local_ai_broker.Lexical.Pack.Cited.{
  IsShown, Cites, evidence_ids, Cites-distinct, evidence_loop-Cites,
}
use local_ai_broker.Lexical.Run.{Outside, Job, chunks_of, run_job}

firsts-In :
    (r : Reranked) (seen : List String) (rs : List Reranked) → In r (firsts seen rs) → In r rs
firsts-In r seen [] place = absurd place
firsts-In r seen (q ∷ rs) place = elim (Bool-cases (contains (hash_of q) seen)) [
  | inl old ↦ inr (firsts-In r seen rs (rw old at place))
  | inr new ↦ elim (rw new at place) [
    | inl same ↦ inl same
    | inr later ↦ inr (firsts-In r (seen ++ hash_of q ∷ []) rs later)
  ]
]

-- The candidates of a plan stand for chunks, whether strategies found them or not.
retrieved-In :
    (found : Chunk → Findings) (task : Task) (chunks : List Chunk) (names : List String) (limit : ℕ)
    (candidates : List Candidate) (c : Candidate)
    → IsRetrieved found task chunks names limit candidates
    → In c candidates
    → In c.chunk chunks
retrieved-In found task chunks names limit candidates c (scored once backed ordered few) place =
    (All-In (IsBacked chunks names) c candidates backed place).of_chunk
retrieved-In found task chunks names limit candidates c (unscored same nothing) place =
    let make = λ (chunk : Chunk).
      make_candidate chunk (fallback_score found task chunk) ("fallback" ∷ []) ("fallback" ∷ []) in
    let (chunk, there, e) =
      In-map make c (take 24 chunks)
        (In-take c limit (fallback_candidates found task chunks) (subst (In c) same place)) in
    subst (λ x. In x chunks) (sym (ap (λ (x : Candidate). x.chunk) e))
      (In-take chunk 24 chunks there)

-- An item that stands in a relation to one chunk of a list.
abbrev pub IsReleased : (Chunk → Evidence → Type 0) → List Chunk → Evidence → Type 0
IsReleased Q chunks e = (c : Chunk) × In c chunks × Q c e

Cites-IsReleased :
    (Q : Chunk → Evidence → Type 0) (chunks : List Chunk) (idx : ℕ) (ss : List Selected)
    (es : List Evidence)
    → Cites Q idx ss es
    → ((s : Selected) → In s ss → In s.chunk chunks)
    → All (IsReleased Q chunks) es
Cites-IsReleased Q chunks idx [] [] c each = tt
Cites-IsReleased Q chunks idx [] (e ∷ es) c each = absurd c
Cites-IsReleased Q chunks idx (s ∷ ss) [] c each = tt
Cites-IsReleased Q chunks idx (s ∷ ss) (e ∷ es) c each = (
  (s.chunk, each s (inl refl), c.1),
  Cites-IsReleased Q chunks (suc idx) ss es c.2 (λ x place. each x (inr place)),
)

-- What is kept of the evidence is a prefix, and not nothing of something.
kept-prefix :
    (evidence : List Evidence) (limit : ℕ)
    → (take
          (length (enforce_final_pack_budget estimate_evidence_pack_tokens evidence limit).kept)
          evidence
        ≡ (enforce_final_pack_budget estimate_evidence_pack_tokens evidence limit).kept)
      × (1 ≤ length evidence
          → 1
            ≤ length (enforce_final_pack_budget estimate_evidence_pack_tokens evidence limit).kept)
unfolding enforce_final_pack_budget
kept-prefix evidence limit = elim (Bool-cases (limit == 0)) [
  | inl unlimited ↦
      rw (unlimited, enforce_final_pack_budget)
        (take-short (length evidence) evidence (omega arith), λ h. h)
  | inr limited ↦
      let longest =
        (enforce_final_pack_budget-IsLongest estimate_evidence_pack_tokens limit evidence
          (ground arith)).0 in
      (longest.0, longest.4)
]

length-Cites :
    (Q : Chunk → Evidence → Type 0) (idx : ℕ) (ss : List Selected) (es : List Evidence)
    → Cites Q idx ss es
    → length es ≡ length ss
length-Cites Q idx [] [] c = refl
length-Cites Q idx [] (e ∷ es) c = absurd c
length-Cites Q idx (s ∷ ss) [] c = absurd c
length-Cites Q idx (s ∷ ss) (e ∷ es) c = ap suc (length-Cites Q (suc idx) ss es c.2)

-- The pack of selected chunks: its items, their ids and their number.
abbrev pub IsReleasedPack : (Chunk → Evidence → Type 0) → List Chunk → List Evidence → Type 0
IsReleasedPack Q chunks kept =
    All (IsReleased Q chunks) kept
    × (distinct str_eq (evidence_ids kept) ≡ true)
    × (length kept ≤ 12)

prefix-IsReleasedPack :
    (Q : Chunk → Evidence → Type 0) (chunks : List Chunk) (ss : List Selected) (es : List Evidence)
    (n : ℕ)
    → Cites Q 1 ss es
    → ((s : Selected) → In s ss → In s.chunk chunks)
    → length ss ≤ 12
    → IsReleasedPack Q chunks (take n es)
prefix-IsReleasedPack Q chunks ss es n cites each few = (
  All-take (IsReleased Q chunks) n es (Cites-IsReleased Q chunks 1 ss es cites each),
  ap (distinct str_eq) (map-take (λ (e : Evidence). e.id) n es)
      ∙ distinct-take str_eq n (evidence_ids es) (Cites-distinct Q ss es cites few),
  omega (arith, length-take n es, length-Cites Q 1 ss es cites),
)

module _ (out : Outside) (job : Job) where
  chunks : List Chunk
  chunks = chunks_of out job

  ranked : RetrievalPlan → List Reranked
  ranked plan =
      rerank_candidates out.found job.adapter out.ask job.task
        (execute_retrieval_plan out.found job.task chunks (build_chunk_manifest chunks)
          job.retrieved_chunk_budget plan).candidates

  ranked-In :
      (plan : RetrievalPlan) (r : Reranked) → In r (ranked plan) → In r.candidate.chunk chunks
  unfolding ranked
  ranked-In plan r place =
      let candidates =
        (execute_retrieval_plan out.found job.task chunks (build_chunk_manifest chunks)
          job.retrieved_chunk_budget plan).candidates in
      retrieved-In out.found job.task chunks plan.effective_strategies _ candidates r.candidate
        (execute_retrieval_plan-IsRetrieved out.found job.task chunks (build_chunk_manifest chunks)
          job.retrieved_chunk_budget plan).1
        (((rerank_candidates-IsReordering out.found job.adapter out.ask job.task candidates).1
            r.candidate).1
          (map-In (λ (x : Reranked). x.candidate) r (ranked plan) place))

  selected-In :
      (plan : RetrievalPlan) (selected : List Selected) (retrieval : Retrieval) (budget : ℕ)
      → IsSelection out.relevance_of budget (ranked plan) selected retrieval
      → (s : Selected) → In s selected
      → In s.chunk chunks
  selected-In plan selected retrieval budget i s place =
      let (r, there, e) =
        In-map (selected_of out.relevance_of) s i.picked (subst (In s) i.selects place) in
      subst (λ x. In x chunks) (sym (ap (λ (x : Selected). x.chunk) e))
        (ranked-In plan r (
          In-take r i.taken (ranked plan)
            (firsts-In r [] (take i.taken (ranked plan)) (subst (In r) i.first there))))

  -- Each item of the evidence of a job cites one chunk of its inputs, and its claim is the one made of that chunk. Its
  -- preview has at most 220 characters; it is, but for dots at its end and white space, the front of the
  -- text of that chunk or, with a llama.cpp that is there, of the model's answer to that text. There are at
  -- most twelve items, of different ids, and at least one where the inputs have a chunk.
  pub run_job-IsReleased :
      IsReleasedPack
        (IsShown out.compressed out.first out.said job.adapter)
        (chunks_of out job)
        (run_job out job).pack.kept
      × (1 ≤ length (chunks_of out job) → 1 ≤ length (run_job out job).pack.kept)
  unfolding run_job chunks ranked build_evidence
  run_job-IsReleased =
      let plan = (run_job out job).plan in
      let budget = job.retrieved_chunk_budget in
      let retrieved =
        execute_retrieval_plan out.found job.task chunks (build_chunk_manifest chunks) budget
          plan in
      let result = select_chunks out.relevance_of (ranked plan) budget retrieved.retrieval in
      let selection =
        select_chunks-IsSelection out.relevance_of (ranked plan) budget retrieved.retrieval in
      let evidence =
        build_evidence out.compressed out.first out.said job.adapter
          job.per_chunk_compression_budget result.0 in
      let cites =
        evidence_loop-Cites out.compressed out.first out.said job.adapter
          (or_number job.per_chunk_compression_budget 384) 1 result.0 in
      let kept = kept-prefix evidence job.final_evidence_pack_budget in
      let few : length result.0 ≤ 12 = omega (
        arith,
        selection.few,
        ap length selection.selects,
        length-map (selected_of out.relevance_of) selection.picked,
      ) in
      (
        subst (IsReleasedPack (IsShown out.compressed out.first out.said job.adapter) chunks) kept.0
            (prefix-IsReleasedPack (IsShown out.compressed out.first out.said job.adapter) chunks
              result.0 evidence _ cites
              (selected-In plan result.0 result.1 (or_number budget 64000) selection) few),
        λ some_chunk. kept.1 (
            omega (
              arith,
              length-Cites (IsShown out.compressed out.first out.said job.adapter) 1 result.0
                  evidence cites,
              IsSelection-some out.relevance_of (or_number budget 64000) (ranked plan) result.0
                  result.1 selection
                  (omega (
                    arith,
                    (rerank_candidates-IsReordering out.found job.adapter out.ask job.task
                        retrieved.candidates).0,
                    execute_retrieval_plan-some out.found job.task chunks
                        (build_chunk_manifest chunks) budget plan some_chunk,
                  )),
            )),
      )
