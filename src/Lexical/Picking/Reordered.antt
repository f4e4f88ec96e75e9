-- ===== src/Lexical/Picking/Reordered.antt =====
-- Reranking orders the candidates anew and loses none.
use local_ai_broker.Prelude.{
  ℕ, suc, ◌≡◌, ◌↔◌, String, not, Option, List, [], ◌∷◌, ◌||◌, ◌&&◌, str_eq, length, take, map,
  sort_by, ltb, ◌==◌, refl, sym, ap, ◌∙◌, arith, inl, inr, Bool-cases, length-map,
}
use local_ai_broker.Prelude.Membership.{In, map-In, In-map, In-sort_by, sort_by-In}
use local_ai_broker.Prelude.Sorting.{Sorted, sort_by-Sorted, length-sort_by}
use local_ai_broker.Lexical.{Chunk}
use local_ai_broker.Lexical.Execution.Signals.{Findings, Task}
use local_ai_broker.Lexical.Merging.{Candidate}
use local_ai_broker.Lexical.Picking.{
  Reranked, Adapter, rerank_one, rerank_loop, adjust, llama_cpp_rerank_ids, apply_runtime_rerank,
  reranks_higher, rerank_candidates,
}
use mathlib.Core.Path.{subst}

abbrev pub candidates_of : List Reranked → List Candidate
candidates_of rs = map (λ (r : Reranked). r.candidate) rs

candidates_of-rerank_loop :
    (found : Chunk → Findings) (adapter : Adapter) (task : Task) (idx : ℕ) (cs : List Candidate)
    → candidates_of (rerank_loop found adapter task idx cs) ≡ cs
unfolding rerank_loop rerank_one
candidates_of-rerank_loop found adapter task idx [] = refl
candidates_of-rerank_loop found adapter task idx (c ∷ cs) =
    ap (λ l. c ∷ l) (candidates_of-rerank_loop found adapter task (suc idx) cs)

candidate-adjust : (ids : List String) (r : Reranked) → (adjust ids r).candidate ≡ r.candidate
unfolding adjust
candidate-adjust ids r = ground arith

candidates_of-adjust :
    (ids : List String) (rs : List Reranked)
    → candidates_of (map (adjust ids) rs) ≡ candidates_of rs
candidates_of-adjust ids [] = refl
candidates_of-adjust ids (r ∷ rs) = λ i. candidate-adjust ids r i ∷ candidates_of-adjust ids rs i

candidates_of-apply :
    (adapter : Adapter) (ask : List Reranked → Option (List String)) (rs : List Reranked)
    → candidates_of (apply_runtime_rerank adapter ask rs) ≡ candidates_of rs
unfolding apply_runtime_rerank
candidates_of-apply adapter ask rs =
    let top = take 8 rs in
    let ids = llama_cpp_rerank_ids (ask top) top in
    elim (Bool-cases (
      not (str_eq adapter.name "llama.cpp" && adapter.llm_available)
      || ltb (length top) 2
      || length ids == 0)) [
        | inl kept ↦ rw (kept, apply_runtime_rerank) refl
        | inr changed ↦ rw (changed, apply_runtime_rerank) (candidates_of-adjust ids rs)
      ]

-- Reranking gives each of the candidates, no other and as many of them, and none with a higher score behind
-- another, whatever the adapter is and the model answers.
pub rerank_candidates-IsReordering :
    (found : Chunk → Findings) (adapter : Adapter) (ask : List Reranked → Option (List String))
    (task : Task) (candidates : List Candidate)
    → (length (rerank_candidates found adapter ask task candidates) ≡ length candidates)
      × ((c : Candidate)
          → In c candidates
            ↔ In c (candidates_of (rerank_candidates found adapter ask task candidates)))
      × Sorted reranks_higher (rerank_candidates found adapter ask task candidates)
unfolding rerank_candidates
rerank_candidates-IsReordering found adapter ask task candidates =
    let scored = apply_runtime_rerank adapter ask (rerank_loop found adapter task 0 candidates) in
    let same : candidates_of scored ≡ candidates =
      candidates_of-apply adapter ask (rerank_loop found adapter task 0 candidates)
      ∙ candidates_of-rerank_loop found adapter task 0 candidates in
    (
      length-sort_by reranks_higher scored
          ∙ sym (length-map (λ (r : Reranked). r.candidate) scored)
          ∙ ap length same,
      λ c. (
        λ place.
            let (r, there, e) =
              In-map (λ (r : Reranked). r.candidate) c scored (subst (In c) (sym same) place) in
            subst (λ x. In x (candidates_of (sort_by reranks_higher scored))) (sym e)
              (map-In (λ (r : Reranked). r.candidate) r (sort_by reranks_higher scored)
                (sort_by-In reranks_higher r scored there)),
        λ place.
            let (r, there, e) =
              In-map (λ (r : Reranked). r.candidate) c (sort_by reranks_higher scored) place in
            subst (λ x. In x candidates) (sym e)
              (subst (In r.candidate) same (
                map-In (λ (r : Reranked). r.candidate) r scored
                  (In-sort_by reranks_higher r scored there))),
      ),
      sort_by-Sorted reranks_higher (λ a b h. ground arith) scored,
    )
