-- ===== src/Fusion/Covers.antt =====
-- Every chunk of a ranking is in the table.
use mathlib.Core.Path.{subst}
use mathlib.Core.Bool.{false≢true}
use local_ai_broker.Prelude.{
  ℕ, suc, String, Bool, true, false, List, [], ◌∷◌, str_eq, contains, ◌≡◌, ap, ◌∙◌, inl, inr,
  Bool-cases, arith, eq_iff, ◌||◌,
}
use local_ai_broker.Prelude.Distinct.{str_eq_refl, member-append}
use local_ai_broker.Prelude.Membership.{In}
use local_ai_broker.Prelude.Text.{is_empty}
use local_ai_broker.Fusion.{RankedItem, rank_of, Entry, put, fuse_ranking, fuse_rankings}
use local_ai_broker.Fusion.Table.{ids_of, ids_of-put}

module _ {F : Type 0} (less : F → F → Bool) (add : F → F → F) (nothing : F) (share : ℕ → F) where
  put-keeps :
      (id x : String) (more : F) (source : String) (table : List (Entry F))
      → contains x (ids_of table) ≡ true
      → contains x (ids_of (put less add nothing share id more source table)) ≡ true
  put-keeps id x more source table h =
      ap (contains x) (ids_of-put less add nothing share id more source table)
      ∙ ground (arith, h, member-append str_eq x (ids_of table) (id ∷ []))

  put-contains :
      (id : String) (more : F) (source : String) (table : List (Entry F))
      → contains id (ids_of (put less add nothing share id more source table)) ≡ true
  put-contains id more source table =
      ap (contains id) (ids_of-put less add nothing share id more source table)
      ∙ ground (arith, str_eq_refl id, member-append str_eq id (ids_of table) (id ∷ []))

  -- A table has what was seen.
  abbrev Has : List String → List (Entry F) → Type 0
  Has seen table = (x : String) → contains x seen ≡ true → contains x (ids_of table) ≡ true

  put-Has :
      (id : String) (seen : List String) (more : F) (source : String) (table : List (Entry F))
      → Has seen table
      → Has (id ∷ seen) (put less add nothing share id more source table)
  put-Has id seen more source table has x h = elim (Bool-cases (str_eq x id)) [
    | inl same ↦
        ap (λ y. contains y (ids_of (put less add nothing share id more source table)))
          ((eq_iff x id).0 same)
        ∙ put-contains id more source table
    | inr apart ↦ put-keeps id x more source table (has x (ground arith))
  ]

  fuse_ranking-keeps :
      (x : String) (n : ℕ) (seen : List String) (items : List RankedItem) (table : List (Entry F))
      → contains x (ids_of table) ≡ true
      → contains x (ids_of (fuse_ranking less add nothing share n seen items table)) ≡ true
  unfolding fuse_ranking
  fuse_ranking-keeps x n seen [] table h = h
  fuse_ranking-keeps x n seen (item ∷ items) table h =
      elim (Bool-cases (is_empty item.chunk_id || contains item.chunk_id seen)) [
        | inl skip ↦ rw (skip, fuse_ranking) (fuse_ranking-keeps x (suc n) seen items table h)
        | inr fresh ↦
            rw (fresh, fuse_ranking)
              (fuse_ranking-keeps x (suc n) (item.chunk_id ∷ seen) items _
                (put-keeps item.chunk_id x _ item.source table h))
      ]

  fuse_ranking-covers :
      (item : RankedItem) (n : ℕ) (seen : List String) (items : List RankedItem)
      (table : List (Entry F))
      → Has seen table
      → is_empty item.chunk_id ≡ false
      → In item items
      → contains item.chunk_id (ids_of (fuse_ranking less add nothing share n seen items table))
        ≡ true
  unfolding fuse_ranking
  fuse_ranking-covers item n seen [] table has named place = absurd place
  fuse_ranking-covers item n seen (first ∷ items) table has named place =
      elim (Bool-cases (is_empty first.chunk_id || contains first.chunk_id seen)) [
        | inl skip ↦
            rw (skip, fuse_ranking)
              (elim place [
                | inl same ↦
                    fuse_ranking-keeps item.chunk_id (suc n) seen items table
                      (has item.chunk_id (old same skip))
                | inr later ↦ fuse_ranking-covers item (suc n) seen items table has named later
              ])
        | inr fresh ↦
            rw (fresh, fuse_ranking)
              (elim place [
                | inl same ↦
                    fuse_ranking-keeps item.chunk_id (suc n) (first.chunk_id ∷ seen) items _ (
                      ap (λ (i : RankedItem). contains i.chunk_id (ids_of (raised first))) same
                      ∙ put-contains first.chunk_id (share (rank_of first.rank n)) first.source
                          table)
                | inr later ↦
                    fuse_ranking-covers item (suc n) (first.chunk_id ∷ seen) items _
                      (put-Has first.chunk_id seen (share (rank_of first.rank n)) first.source table
                        has)
                      named later
              ])
      ]
    where
      raised : RankedItem → List (Entry F)
      raised i =
          put less add nothing share first.chunk_id (share (rank_of first.rank n)) first.source
            table

      old :
          item ≡ first
          → (is_empty first.chunk_id || contains first.chunk_id seen) ≡ true
          → contains item.chunk_id seen ≡ true
      old same skip =
          let again : (is_empty item.chunk_id || contains item.chunk_id seen) ≡ true =
            ap (λ (i : RankedItem). is_empty i.chunk_id || contains i.chunk_id seen) same ∙ skip in
          ground (arith, again, named)

  fuse_rankings-keeps :
      (x : String) (rankings : List (List RankedItem)) (table : List (Entry F))
      → contains x (ids_of table) ≡ true
      → contains x (ids_of (fuse_rankings less add nothing share rankings table)) ≡ true
  unfolding fuse_rankings
  fuse_rankings-keeps x [] table h = h
  fuse_rankings-keeps x (ranking ∷ rankings) table h =
      fuse_rankings-keeps x rankings _ (fuse_ranking-keeps x 1 [] ranking table h)

  pub fuse_rankings-covers :
      (item : RankedItem) (ranking : List RankedItem) (rankings : List (List RankedItem))
      (table : List (Entry F))
      → is_empty item.chunk_id ≡ false
      → In item ranking
      → In ranking rankings
      → contains item.chunk_id (ids_of (fuse_rankings less add nothing share rankings table)) ≡ true
  unfolding fuse_rankings
  fuse_rankings-covers item ranking [] table named there place = absurd place
  fuse_rankings-covers item ranking (first ∷ rankings) table named there (inl same) =
      fuse_rankings-keeps item.chunk_id rankings _ (
        fuse_ranking-covers item 1 [] first table (λ x h. absurd (false≢true h)) named
          (subst (In item) same there))
  fuse_rankings-covers item ranking (first ∷ rankings) table named there (inr later) =
      fuse_rankings-covers item ranking rankings _ named there later
