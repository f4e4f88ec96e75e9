-- ===== src/Fusion/Table.antt =====
-- The scores that the rankings add up to.
use local_ai_broker.Prelude.{
  ℕ, suc, String, Bool, true, false, List, [], ◌∷◌, ◌++◌, str_eq, contains, distinct, map,
  if◌then◌else◌, ◌≡◌, refl, sym, ap, ◌∙◌, inl, inr, Bool-cases, arith, eq_iff, ◌||◌,
}
use local_ai_broker.Prelude.Distinct.{str_eq_comm, str_eq_refl, distinct-snoc, distinct-apart}
use local_ai_broker.Prelude.Membership.{In, map-In, In-contains}
use local_ai_broker.Prelude.Text.{is_empty}
use local_ai_broker.Fusion.{RankedItem, rank_of, Entry, put, fuse_ranking, fuse_rankings}

abbrev pub ids_of : {F : Type 0} → List (Entry F) → List String
ids_of table = map (λ e. e.chunk_id) table

module _ {F : Type 0} (less : F → F → Bool) (add : F → F → F) (nothing : F) (share : ℕ → F) where
  -- The share of a chunk in one ranking, by its first place there, added to what it has.
  abbrev pub with_share : String → ℕ → List RankedItem → F → F
  with_share id default_rank [] score = score
  with_share id default_rank (item ∷ items) score =
      if str_eq item.chunk_id id
      then add score (share (rank_of item.rank default_rank))
      else with_share id (suc default_rank) items score

  -- The score of a chunk: its shares, added in the order of the rankings.
  abbrev pub total : String → List (List RankedItem) → F → F
  total id [] score = score
  total id (ranking ∷ rankings) score = total id rankings (with_share id 1 ranking score)

  abbrev pub score_in : String → List (Entry F) → F
  score_in id [] = nothing
  score_in id (e ∷ es) = if str_eq e.chunk_id id then e.score else score_in id es

  score_in-put :
      (id other : String) (more : F) (source : String) (table : List (Entry F))
      → score_in other (put less add nothing share id more source table)
        ≡ (if str_eq id other then add (score_in other table) more else score_in other table)
  unfolding put
  score_in-put id other more source [] = refl
  score_in-put id other more source (e ∷ es) = elim (Bool-cases (str_eq e.chunk_id id)) [
    | inl same ↦
        rw (same, put)
          (found (str_eq e.chunk_id other) (str_eq id other)
            (ap (λ x. str_eq x other) ((eq_iff e.chunk_id id).0 same)))
    | inr apart ↦
        rw (apart, put)
          (elim (Bool-cases (str_eq e.chunk_id other)) [
            | inl here ↦ rw (here, unlike apart here) refl
            | inr there ↦ rw (there) (score_in-put id other more source es)
          ])
  ]
    where
      unlike :
          str_eq e.chunk_id id ≡ false → str_eq e.chunk_id other ≡ true → str_eq id other ≡ false
      unlike apart here =
          str_eq_comm id other
          ∙ ap (λ x. str_eq x id) (sym ((eq_iff e.chunk_id other).0 here))
          ∙ apart

      found :
          (a b : Bool)
          → a ≡ b
          → (if a then add e.score more else score_in other es) ≡ (
              if b
              then add (if a then e.score else score_in other es) more
              else (if a then e.score else score_in other es))
      found true true h = refl
      found false false h = refl
      found true false h = cc
      found false true h = cc

  pub ids_of-put :
      (id : String) (more : F) (source : String) (table : List (Entry F))
      → ids_of (put less add nothing share id more source table)
        ≡ (if contains id (ids_of table) then ids_of table else ids_of table ++ id ∷ [])
  unfolding put
  ids_of-put id more source [] = refl
  ids_of-put id more source (e ∷ es) = elim (Bool-cases (str_eq e.chunk_id id)) [
    | inl same ↦ rw (same, put, str_eq_comm id e.chunk_id ∙ same) refl
    | inr apart ↦
        rw (apart, put, str_eq_comm id e.chunk_id ∙ apart)
          (ap (λ l. e.chunk_id ∷ l) (ids_of-put id more source es)
            ∙ pushed (contains id (ids_of es)))
  ]
    where
      pushed :
          (b : Bool)
          → e.chunk_id ∷ (if b then ids_of es else ids_of es ++ id ∷ [])
            ≡ (if b then e.chunk_id ∷ ids_of es else e.chunk_id ∷ ids_of es ++ id ∷ [])
      pushed true = refl
      pushed false = refl

  ids_of-put-distinct :
      (id : String) (more : F) (source : String) (table : List (Entry F))
      → distinct str_eq (ids_of table) ≡ true
      → distinct str_eq (ids_of (put less add nothing share id more source table)) ≡ true
  ids_of-put-distinct id more source table d =
      ap (distinct str_eq) (ids_of-put id more source table)
      ∙ elim (Bool-cases (contains id (ids_of table))) [
        | inl old ↦ rw (old) d
        | inr new ↦ rw (new) (distinct-snoc str_eq str_eq_comm (ids_of table) id d new)
      ]

  fuse_ranking-distinct :
      (n : ℕ) (seen : List String) (items : List RankedItem) (table : List (Entry F))
      → distinct str_eq (ids_of table) ≡ true
      → distinct str_eq (ids_of (fuse_ranking less add nothing share n seen items table)) ≡ true
  unfolding fuse_ranking
  fuse_ranking-distinct n seen [] table d = d
  fuse_ranking-distinct n seen (item ∷ items) table d =
      elim (Bool-cases (is_empty item.chunk_id || contains item.chunk_id seen)) [
        | inl skip ↦ rw (skip, fuse_ranking) (fuse_ranking-distinct (suc n) seen items table d)
        | inr fresh ↦
            rw (fresh, fuse_ranking)
              (fuse_ranking-distinct (suc n) (item.chunk_id ∷ seen) items _ (
                ids_of-put-distinct item.chunk_id (share (rank_of item.rank n)) item.source table
                  d))
      ]

  pub fuse_rankings-distinct :
      (rankings : List (List RankedItem)) (table : List (Entry F))
      → distinct str_eq (ids_of table) ≡ true
      → distinct str_eq (ids_of (fuse_rankings less add nothing share rankings table)) ≡ true
  unfolding fuse_rankings
  fuse_rankings-distinct [] table d = d
  fuse_rankings-distinct (ranking ∷ rankings) table d =
      fuse_rankings-distinct rankings _ (fuse_ranking-distinct 1 [] ranking table d)

  -- One ranking gives a chunk its share, if it has not done so before.
  score_in-fuse_ranking :
      (id : String) (n : ℕ) (seen : List String) (items : List RankedItem) (table : List (Entry F))
      → is_empty id ≡ false
      → score_in id (fuse_ranking less add nothing share n seen items table) ≡ (
          if contains id seen then score_in id table else with_share id n items (score_in id table))
  unfolding fuse_ranking
  score_in-fuse_ranking id n seen [] table named = same_both (contains id seen)
    where
      same_both :
          (b : Bool) → score_in id table ≡ (if b then score_in id table else score_in id table)
      same_both true = refl
      same_both false = refl
  score_in-fuse_ranking id n seen (item ∷ items) table named =
      let more = share (rank_of item.rank n) in
      let raised = put less add nothing share item.chunk_id more item.source table in
      let passed = score_in-fuse_ranking id (suc n) seen items table named in
      let added = score_in-fuse_ranking id (suc n) (item.chunk_id ∷ seen) items raised named in
      let one_more = score_in-put item.chunk_id id more item.source table in
      elim (Bool-cases (str_eq item.chunk_id id)) [
        | inl same ↦
            let is : item.chunk_id ≡ id = (eq_iff item.chunk_id id).0 same in
            let full : is_empty item.chunk_id ≡ false = ap is_empty is ∙ named in
            let often : contains item.chunk_id seen ≡ contains id seen =
              ap (λ x. contains x seen) is in
            ground (arith, full, often, passed, added, one_more, str_eq_comm id item.chunk_id)
        | inr apart ↦ ground (arith, passed, added, one_more, str_eq_comm id item.chunk_id)
      ]

  -- Every ranking gives a chunk its share.
  pub score_in-fuse_rankings :
      (id : String) (rankings : List (List RankedItem)) (table : List (Entry F))
      → is_empty id ≡ false
      → score_in id (fuse_rankings less add nothing share rankings table)
        ≡ total id rankings (score_in id table)
  unfolding fuse_rankings
  score_in-fuse_rankings id [] table named = refl
  score_in-fuse_rankings id (ranking ∷ rankings) table named =
      score_in-fuse_rankings id rankings _ named
      ∙ ap (total id rankings) (score_in-fuse_ranking id 1 [] ranking table named)

  score_in-first :
      (e : Entry F) (table : List (Entry F)) → e.score ≡ score_in e.chunk_id (e ∷ table)
  score_in-first e table = rw (str_eq_refl e.chunk_id) refl

  -- The score of an entry is the one that its chunk is found with.
  pub In-score_in :
      (e : Entry F) (table : List (Entry F))
      → distinct str_eq (ids_of table) ≡ true
      → In e table
      → e.score ≡ score_in e.chunk_id table
  In-score_in e [] d place = absurd place
  In-score_in e (f ∷ table) d (inl same) =
      ap (λ (x : Entry F). x.score) same
      ∙ score_in-first f table
      ∙ ap (λ (x : Entry F). score_in x.chunk_id (f ∷ table)) (sym same)
  In-score_in e (f ∷ table) d (inr later) =
      let here =
        In-contains e.chunk_id (ids_of table)
          (map-In (λ (x : Entry F). x.chunk_id) e table later) in
      let unlike = distinct-apart f.chunk_id e.chunk_id (ids_of table) d here in
      rw (unlike) (In-score_in e table (ground arith) later)
