-- ===== src/Lexical/Pack/Cited.antt =====
-- The evidence cites the selected chunks, one each.
use local_ai_broker.Prelude.{
  ℕ, zero, suc, ◌≤◌, ◌≡◌, String, true, List, [], ◌∷◌, str_eq, distinct, length, take, map, refl,
  ap, ◌∙◌, arith,
}
use local_ai_broker.Prelude.Text.{decimal}
use local_ai_broker.Prelude.Distinct.{distinct-take}
use local_ai_broker.Lexical.{Chunk}
use local_ai_broker.Lexical.Picking.{Adapter, Selected}
use local_ai_broker.Lexical.Pack.{Evidence, evidence_id, ref_of, summarize_chunk, evidence_loop}
use local_ai_broker.Lexical.Pack.Preview.{IsPreview, compress_text-IsPreview}

-- Evidence from a number on, each item of which stands in a relation to the chunk in its place.
abbrev pub Cites : (Chunk → Evidence → Type 0) → ℕ → List Selected → List Evidence → Type 0
Cites Q idx [] [] = Unit
Cites Q idx [] (e ∷ es) = ⊥
Cites Q idx (s ∷ ss) [] = ⊥
Cites Q idx (s ∷ ss) (e ∷ es) = (e.id ≡ evidence_id idx) × Q s.chunk e × Cites Q (suc idx) ss es

module _ (compressed first said : String → String) (adapter : Adapter) where
  -- An item that cites a chunk, with the claim that is made of it and a preview of its text.
  abbrev pub IsShown : Chunk → Evidence → Type 0
  IsShown c e =
      (e.source_refs ≡ ref_of c ∷ [])
      × (e.claim ≡ summarize_chunk first said c)
      × IsPreview compressed adapter c.content e.excerpt_preview

  pub evidence_loop-Cites :
      (budget idx : ℕ) (ss : List Selected)
      → Cites IsShown idx ss (evidence_loop compressed first said adapter budget idx ss)
  unfolding evidence_loop
  evidence_loop-Cites budget idx [] = tt
  evidence_loop-Cites budget idx (s ∷ ss) = (
    refl,
    (refl, refl, compress_text-IsPreview compressed s.chunk.content budget adapter),
    evidence_loop-Cites budget (suc idx) ss,
  )

ids_from : ℕ → ℕ → List String
ids_from idx zero = []
ids_from idx (suc n) = evidence_id idx ∷ ids_from (suc idx) n

take-ids_from : (idx n m : ℕ) → n ≤ m → ids_from idx n ≡ take n (ids_from idx m)
unfolding ids_from
take-ids_from idx zero m h = refl
take-ids_from idx (suc n) zero h = absurd (omega arith)
take-ids_from idx (suc n) (suc m) h =
    ap (λ l. evidence_id idx ∷ l) (take-ids_from (suc idx) n m (omega arith))

abbrev pub evidence_ids : List Evidence → List String
evidence_ids es = map (λ (e : Evidence). e.id) es

Cites-ids :
    (Q : Chunk → Evidence → Type 0) (idx : ℕ) (ss : List Selected) (es : List Evidence)
    → Cites Q idx ss es
    → evidence_ids es ≡ ids_from idx (length ss)
unfolding ids_from
Cites-ids Q idx [] [] c = refl
Cites-ids Q idx [] (e ∷ es) c = absurd c
Cites-ids Q idx (s ∷ ss) [] c = absurd c
Cites-ids Q idx (s ∷ ss) (e ∷ es) c = λ i. c.0 i ∷ Cites-ids Q (suc idx) ss es c.2 i

twelve_ids : distinct str_eq (ids_from 1 12) ≡ true
unfolding ids_from evidence_id decimal
twelve_ids = refl

-- The ids of the evidence of at most twelve chunks are different.
pub Cites-distinct :
    (Q : Chunk → Evidence → Type 0) (ss : List Selected) (es : List Evidence)
    → Cites Q 1 ss es
    → length ss ≤ 12
    → distinct str_eq (evidence_ids es) ≡ true
Cites-distinct Q ss es c few =
    ap (distinct str_eq) (Cites-ids Q 1 ss es c ∙ take-ids_from 1 (length ss) 12 few)
    ∙ distinct-take str_eq (length ss) (ids_from 1 12) twelve_ids
