-- ===== src/Fusion/Fused.antt =====
-- What a fusion returns.
use mathlib.Core.Path.{ap₂}
use local_ai_broker.Prelude.{
  ℕ, zero, suc, ◌≤◌, String, Bool, true, false, not, List, [], ◌∷◌, str_eq, contains, distinct, map,
  length, length-take, take, sort_by, ◌≡◌, refl, sym, ap, ◌∙◌, inl, inr, Bool-cases, arith, ◌||◌,
  ◌&&◌, ◌<◌, take-short, All,
}
use local_ai_broker.Prelude.Distinct.{distinct-take, str_eq_comm}
use local_ai_broker.Prelude.Membership.{In, In-take, In-sort_by}
use local_ai_broker.Prelude.Sorting.{
  Sorted, Sorted-take, sort_by-Sorted, distinct-sort_by, member-sort_by,
}
use local_ai_broker.Prelude.Text.{is_empty}
use local_ai_broker.Prelude.TextOrder.{str_lt, str_lt_asymm}
use local_ai_broker.Fusion.{
  RankedItem, Entry, FusedItem, put, fuse_ranking, fuse_rankings, fuses_before, fused_items,
  ordered, reciprocal_rank_fusion,
}
use local_ai_broker.Fusion.Covers.{fuse_rankings-covers}
use local_ai_broker.Fusion.Table.{
  total, ids_of, fuse_rankings-distinct, score_in-fuse_rankings, In-score_in,
}

-- No chunk without an id is put in.
abbrev Named : {F : Type 0} → List (Entry F) → Type 0
Named table = All (λ e. is_empty e.chunk_id ≡ false) table

module _ {F : Type 0} (less : F → F → Bool) (add : F → F → F) (nothing : F) (share : ℕ → F) where
  put-Named :
      (id : String) (more : F) (source : String) (table : List (Entry F))
      → is_empty id ≡ false
      → Named table
      → Named (put less add nothing share id more source table)
  unfolding put
  put-Named id more source [] named h = (named, tt)
  put-Named id more source (e ∷ es) named h = elim (Bool-cases (str_eq e.chunk_id id)) [
    | inl same ↦ rw (same, put) h
    | inr apart ↦ rw (apart, put) (h.0, put-Named id more source es named h.1)
  ]

  fuse_ranking-Named :
      (n : ℕ) (seen : List String) (items : List RankedItem) (table : List (Entry F))
      → Named table
      → Named (fuse_ranking less add nothing share n seen items table)
  unfolding fuse_ranking
  fuse_ranking-Named n seen [] table h = h
  fuse_ranking-Named n seen (item ∷ items) table h =
      elim (Bool-cases (is_empty item.chunk_id || contains item.chunk_id seen)) [
        | inl skip ↦ rw (skip, fuse_ranking) (fuse_ranking-Named (suc n) seen items table h)
        | inr fresh ↦
            rw (fresh, fuse_ranking)
              (fuse_ranking-Named (suc n) (item.chunk_id ∷ seen) items _
                (put-Named item.chunk_id _ item.source table (ground arith) h))
      ]

  fuse_rankings-Named :
      (rankings : List (List RankedItem)) (table : List (Entry F))
      → Named table
      → Named (fuse_rankings less add nothing share rankings table)
  unfolding fuse_rankings
  fuse_rankings-Named [] table h = h
  fuse_rankings-Named (ranking ∷ rankings) table h =
      fuse_rankings-Named rankings _ (fuse_ranking-Named 1 [] ranking table h)

  All-In :
      (table : List (Entry F)) (e : Entry F)
      → Named table
      → In e table
      → is_empty e.chunk_id ≡ false
  All-In [] e h place = absurd place
  All-In (f ∷ table) e h (inl same) = ap (λ (x : Entry F). is_empty x.chunk_id) same ∙ h.0
  All-In (f ∷ table) e h (inr later) = All-In table e h.1 later

  abbrev pub ids_of_fused : List (FusedItem F) → List String
  ids_of_fused items = map (λ (i : FusedItem F). i.chunk_id) items

  -- Ranks from a first one on, and the rounded totals as scores.
  abbrev pub Totals : (F → F) → List (List RankedItem) → ℕ → List (FusedItem F) → Type 0
  Totals rounded rankings rank [] = Unit
  Totals rounded rankings rank (item ∷ items) =
      (item.rank ≡ rank)
      × (item.rrf_score ≡ rounded (total less add nothing share item.chunk_id rankings nothing))
      × Totals rounded rankings (suc rank) items

  -- The order of two chunks, by their totals and then by their ids.
  abbrev pub totals_before : List (List RankedItem) → String → String → Bool
  totals_before rankings a b =
      let score : String → F = λ id. total less add nothing share id rankings nothing in
      less (score b) (score a) || (not (less (score a) (score b)) && str_lt a b)

  fuses_before_asymm :
      ((a b : F) → less a b ≡ true → less b a ≡ false)
      → (a b : Entry F) → fuses_before less add nothing share a b ≡ true
      → fuses_before less add nothing share b a ≡ false
  fuses_before_asymm asymm a b h =
      ground
        (arith, asymm b.score a.score, asymm a.score b.score, str_lt_asymm a.chunk_id b.chunk_id)

  -- Entries with their totals.
  abbrev HasTotals : List (List RankedItem) → List (Entry F) → Type 0
  HasTotals rankings table =
      (e : Entry F)
      → In e table
      → e.score ≡ total less add nothing share e.chunk_id rankings nothing

  Totals-fused_items :
      (rounded : F → F) (rankings : List (List RankedItem)) (rank : ℕ) (es : List (Entry F))
      → HasTotals rankings es
      → Totals rounded rankings rank (fused_items less add nothing share rounded rank es)
  Totals-fused_items rounded rankings rank [] h = tt
  Totals-fused_items rounded rankings rank (e ∷ es) h = (
    refl,
    ap rounded (h e (inl refl)),
    Totals-fused_items rounded rankings (suc rank) es (λ f place. h f (inr place)),
  )

  ids_of_fused-fused_items :
      (rounded : F → F) (rank : ℕ) (es : List (Entry F))
      → ids_of_fused (fused_items less add nothing share rounded rank es) ≡ ids_of es
  ids_of_fused-fused_items rounded rank [] = refl
  ids_of_fused-fused_items rounded rank (e ∷ es) =
      ap (λ l. e.chunk_id ∷ l) (ids_of_fused-fused_items rounded (suc rank) es)

  Sorted-totals :
      (rankings : List (List RankedItem)) (es : List (Entry F))
      → HasTotals rankings es
      → Sorted (fuses_before less add nothing share) es
      → Sorted (totals_before rankings) (ids_of es)
  Sorted-totals rankings [] h s = tt
  Sorted-totals rankings (e ∷ []) h s = tt
  Sorted-totals rankings (e ∷ f ∷ es) h s = (
    ap₂ (λ a b. less a b || (not (less b a) && str_lt f.chunk_id e.chunk_id)) (sym (h e (inl refl)))
          (sym (h f (inr (inl refl))))
        ∙ s.0,
    Sorted-totals rankings (f ∷ es) (λ g place. h g (inr place)) s.1,
  )

  ids_of-take : (n : ℕ) (es : List (Entry F)) → ids_of (take n es) ≡ take n (ids_of es)
  ids_of-take zero es = refl
  ids_of-take (suc n) [] = refl
  ids_of-take (suc n) (e ∷ es) = ap (λ l. e.chunk_id ∷ l) (ids_of-take n es)

  length-ids_of : (es : List (Entry F)) → length (ids_of es) ≡ length es
  length-ids_of [] = refl
  length-ids_of (e ∷ es) = ap suc (length-ids_of es)

  ordered-HasTotals :
      (rankings : List (List RankedItem)) (limit : ℕ)
      → HasTotals rankings (ordered less add nothing share rankings limit)
  unfolding ordered
  ordered-HasTotals rankings limit e place =
      let table = fuse_rankings less add nothing share rankings [] in
      let there =
        In-sort_by (fuses_before less add nothing share) e table
          (In-take e limit (sort_by (fuses_before less add nothing share) table) place) in
      In-score_in less add nothing share e table
        (fuse_rankings-distinct less add nothing share rankings [] refl) there
      ∙ score_in-fuse_rankings less add nothing share e.chunk_id rankings []
          (All-In table e (fuse_rankings-Named rankings [] tt) there)

  -- What a fusion promises of the chunks of some rankings.
  abbrev pub IsFused : (F → F) → List (List RankedItem) → ℕ → List (FusedItem F) → Type 0
  IsFused rounded rankings limit items =
      (length (ids_of_fused items) ≤ limit)
      × (distinct str_eq (ids_of_fused items) ≡ true)
      × Totals rounded rankings 1 items
      × Sorted (totals_before rankings) (ids_of_fused items)
      × ((ranking : List RankedItem) (item : RankedItem)
          → In ranking rankings
          → In item ranking
          → is_empty item.chunk_id ≡ false
          → length (ids_of_fused items) < limit
          → contains item.chunk_id (ids_of_fused items) ≡ true)

  entries-IsFused :
      ((a b : F) → less a b ≡ true → less b a ≡ false)
      → (rounded : F → F) (rankings : List (List RankedItem)) (limit : ℕ)
      → (length (ids_of (ordered less add nothing share rankings limit)) ≤ limit)
        × (distinct str_eq (ids_of (ordered less add nothing share rankings limit)) ≡ true)
        × Sorted (totals_before rankings) (ids_of (ordered less add nothing share rankings limit))
        × ((ranking : List RankedItem) (item : RankedItem)
            → In ranking rankings
            → In item ranking
            → is_empty item.chunk_id ≡ false
            → length (ids_of (ordered less add nothing share rankings limit)) < limit
            → contains item.chunk_id (ids_of (ordered less add nothing share rankings limit))
              ≡ true)
  unfolding ordered
  entries-IsFused asymm rounded rankings limit =
      let before = fuses_before less add nothing share in
      let table = fuse_rankings less add nothing share rankings [] in
      let sorted = sort_by before table in
      let name : Entry F → String = λ e. e.chunk_id in
      (
        omega (arith, length-ids_of (take limit sorted), length-take limit sorted),
        rw (ids_of-take limit sorted) (
            distinct-take str_eq limit (ids_of sorted) (
              distinct-sort_by before str_eq name str_eq_comm table
                (fuse_rankings-distinct less add nothing share rankings [] refl))),
        Sorted-totals rankings (take limit sorted) (ordered-HasTotals rankings limit) (
            Sorted-take before limit sorted
              (sort_by-Sorted before (fuses_before_asymm asymm) table)),
        λ ranking item place there named short.
            let whole : take limit sorted ≡ sorted =
              take-short limit sorted (
                omega
                  (arith, short, length-ids_of (take limit sorted), length-take limit sorted)) in
            ap (λ l. contains item.chunk_id (ids_of l)) whole
            ∙ member-sort_by before str_eq name str_eq_comm item.chunk_id table
            ∙ fuse_rankings-covers less add nothing share item ranking rankings [] named there
                place,
      )

  -- Over scores of an asymmetric test, a fusion gives at most as many chunks as its limit, none twice. Their ranks go up
  -- from 1, their scores are the rounded totals of their shares, one for each ranking that has the chunk, by its
  -- first place there, and none comes before the one in front of it by the total and the id. Where there are
  -- fewer than the limit, every chunk with an id of some ranking is among them.
  pub reciprocal_rank_fusion-IsFused :
      ((a b : F) → less a b ≡ true → less b a ≡ false)
      → (rounded : F → F) (rankings : List (List RankedItem)) (limit : ℕ)
      → IsFused rounded rankings limit
          (reciprocal_rank_fusion less add nothing share rounded rankings limit)
  unfolding reciprocal_rank_fusion
  reciprocal_rank_fusion-IsFused asymm rounded rankings limit =
      let es = ordered less add nothing share rankings limit in
      let (fewer, different, sorted, covers) = entries-IsFused asymm rounded rankings limit in
      rw (ids_of_fused-fused_items rounded 1 es) (
        fewer,
        different,
        Totals-fused_items rounded rankings 1 es (ordered-HasTotals rankings limit),
        sorted,
        covers,
      )
