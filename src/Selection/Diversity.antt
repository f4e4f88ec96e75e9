-- ===== src/Selection/Diversity.antt =====
-- What `select_diverse_chunks` returns: no chunk or content twice, two chunks a file at most unless the
-- file is named, and a token count within the budget.
use mathlib.Core.List.{map-append}
use native.Mathlib.Nat.{div-le_self}
use local_ai_broker.Prelude.{
  Bool-cases, ltb, ◌&&◌, ℕ, ◌+◌, ◌≤◌, String, ◌≡◌, refl, ap, Bool, true, false, some, none, List,
  [], ◌∷◌, ◌++◌, map, length, arith, inl, inr, str_eq, eq_iff, contains, max, min, if◌then◌else◌,
  ◌∙◌, Option, ◌⊎◌, member, distinct,
}
use local_ai_broker.Prelude.Distinct.{distinct-snoc, str_eq_comm}
use local_ai_broker.Selection.{
  Chunk, Ranked, ChunkMap, Selection, start, skips, add, content_key, same_key, per_chunk_budget,
  select_diverse_chunks,
}
use local_ai_broker.Selection.Passes.{Keeps, select-keeps}

-- `chunk_by_id` holds each chunk under its own id.
abbrev pub IsKeyed : ChunkMap → Type 0
IsKeyed chunk_by_id =
    (id : String) (chunk : Chunk) → chunk_by_id id ≡ some chunk → chunk.chunk_id ≡ id

same_key_comm : (a b : String × String) → same_key a b ≡ same_key b a
same_key_comm a b = ground (arith, str_eq_comm a.0 b.0, str_eq_comm a.1 b.1)

module _ (chunk_by_id : ChunkMap) (named_paths : List String) (budget limit : ℕ) where
  abbrev pub ids : List Ranked → List String
  ids items = map (λ item. item.chunk_id) items

  -- What the ranked item stands for in the map.
  abbrev pub key_of : Option Chunk → String × String
  key_of none = ("", "")
  key_of (some chunk) = content_key chunk

  abbrev pub contents : List Ranked → List (String × String)
  contents items = map (λ item. key_of (chunk_by_id item.chunk_id)) items

  abbrev pub on_path : String → Option Chunk → ℕ
  on_path path none = 0
  on_path path (some chunk) = if str_eq path chunk.path then 1 else 0

  -- How many of the items are chunks of a file.
  abbrev pub path_count : String → List Ranked → ℕ
  path_count path [] = 0
  path_count path (item ∷ items) = on_path path (chunk_by_id item.chunk_id) + path_count path items

  abbrev pub charge : Option Chunk → ℕ
  charge none = 0
  charge (some chunk) =
      min chunk.token_estimate (per_chunk_budget chunk_by_id named_paths budget limit)

  -- The tokens of the items, each cut to the budget of one chunk.
  abbrev pub charged : List Ranked → ℕ
  charged [] = 0
  charged (item ∷ items) = charge (chunk_by_id item.chunk_id) + charged items

  pub record IsDiverse (s : Selection) : Type 0 where
    pub distinct_ids : distinct str_eq (ids s.selected) ≡ true
    pub distinct_contents : distinct same_key (contents s.selected) ≡ true
    pub two_per_file :
        (path : String) → contains path named_paths ≡ false → path_count path s.selected ≤ 2
    pub tokens : s.used ≡ charged s.selected
    pub within_budget : s.used ≤ max 64 budget

  -- The sets and counters of the loop hold what they stand for.
  record IsTracked (s : Selection) : Type 0 where
    ids_tracked : s.selected_ids ≡ ids s.selected
    hashes_tracked : s.content_hashes ≡ contents s.selected
    counts_tracked : (path : String) → s.path_counts path ≡ path_count path s.selected

  record IsSound (s : Selection) : Type 0 where
    tracked : IsTracked s
    diverse : IsDiverse s

  path_count-snoc :
      (path : String) (items : List Ranked) (item : Ranked)
      → path_count path (items ++ item ∷ [])
        ≡ path_count path items + on_path path (chunk_by_id item.chunk_id)
  path_count-snoc path [] item = omega arith
  path_count-snoc path (x ∷ items) item = omega (arith, path_count-snoc path items item)

  charged-snoc :
      (items : List Ranked) (item : Ranked)
      → charged (items ++ item ∷ []) ≡ charged items + charge (chunk_by_id item.chunk_id)
  charged-snoc [] item = omega arith
  charged-snoc (x ∷ items) item = omega (arith, charged-snoc items item)

  -- What holds of a chunk that no `continue` stops.
  record IsAdmitted (chunk : Chunk) (s : Selection) : Type 0 where
    fresh_id : contains chunk.chunk_id s.selected_ids ≡ false
    fresh_content : member same_key (content_key chunk) s.content_hashes ≡ false
    room_in_file : contains chunk.path named_paths ≡ false → s.path_counts chunk.path ≤ 1
    room_in_budget : (s.selected ≡ []) ⊎ (s.used + charge (some chunk) ≤ budget)

  room :
      (items : List Ranked) (projected : ℕ)
      → (ltb 0 (length items) && ltb budget projected) ≡ false
      → (items ≡ []) ⊎ (projected ≤ budget)
  room [] projected h = inl refl
  room (x ∷ items) projected h = inr (ground arith)

  skips-IsAdmitted :
      (pass : Bool) (chunk : Chunk) (s : Selection)
      → skips chunk_by_id named_paths budget limit pass chunk s ≡ false
      → IsAdmitted chunk s
  unfolding skips
  skips-IsAdmitted pass chunk s h = record {
    fresh_id = ground arith;
    fresh_content = ground arith;
    room_in_file = λ unnamed. ground arith;
    room_in_budget = room s.selected (s.used + charge (some chunk)) (ground arith);
  }

  charge-le : (chunk : Chunk) → charge (some chunk) ≤ max 64 budget
  unfolding per_chunk_budget
  charge-le chunk = omega (arith, div-le_self budget (max 1 limit))

  module _ (keyed : IsKeyed chunk_by_id) where
    add-IsTracked :
        (item : Ranked) (chunk : Chunk) (s : Selection)
        → chunk_by_id chunk.chunk_id ≡ some chunk
        → IsTracked s
        → IsTracked (add chunk_by_id named_paths budget limit item chunk s)
    unfolding add
    add-IsTracked item chunk s found t = record {
      ids_tracked = rw (map-append, t.ids_tracked);
      hashes_tracked = rw (map-append, found, t.hashes_tracked);
      counts_tracked = λ path. ground (
        arith,
        t.counts_tracked path,
        path_count-snoc path s.selected (record { chunk_id = chunk.chunk_id; rank = item.rank }),
      );
    }

    two_per_file-add :
        (chunk : Chunk) (s : Selection) (path : String)
        → IsAdmitted chunk s
        → IsSound s
        → contains path named_paths ≡ false
        → path_count path s.selected + on_path path (some chunk) ≤ 2
    two_per_file-add chunk s path a h unnamed = elim (Bool-cases (str_eq path chunk.path)) [
      | inl same ↦
          let e = (eq_iff path chunk.path).0 same in
          let few = a.room_in_file (rw e at unnamed) in
          rw same (
            omega (
              arith,
              few,
              h.tracked.counts_tracked chunk.path,
              ap (λ p. path_count p s.selected) e,
            ))
      | inr other ↦ rw other (omega (arith, h.diverse.two_per_file path unnamed))
    ]

    used-empty : (s : Selection) → IsSound s → s.selected ≡ [] → s.used ≡ 0
    used-empty s h e = h.diverse.tokens ∙ ap charged e

    within_budget-add :
        (chunk : Chunk) (s : Selection)
        → IsAdmitted chunk s
        → IsSound s
        → s.used + charge (some chunk) ≤ max 64 budget
    within_budget-add chunk s a h = elim a.room_in_budget [
      | inl empty ↦ omega (arith, used-empty s h empty, charge-le chunk)
      | inr fits ↦ omega arith
    ]

    -- An addition that no `continue` stops keeps the selection diverse.
    add-IsSound : Keeps chunk_by_id named_paths budget limit IsSound
    add-IsSound pass item chunk s found unskipped h = record {
      tracked = add-IsTracked item chunk s at_own_id h.tracked;
      diverse =
          unfold add in
          record {
            distinct_ids = rw map-append (
                distinct-snoc str_eq str_eq_comm (ids s.selected) chunk.chunk_id
                  h.diverse.distinct_ids (rw h.tracked.ids_tracked at a.fresh_id));
            distinct_contents =
                rw (map-append, at_own_id)
                  (distinct-snoc same_key same_key_comm (contents s.selected) (content_key chunk)
                    h.diverse.distinct_contents (rw h.tracked.hashes_tracked at a.fresh_content));
            two_per_file = λ path unnamed.
                rw (path_count-snoc, at_own_id) (two_per_file-add chunk s path a h unnamed);
            tokens =
                rw (charged-snoc, at_own_id) (ap (λ t. t + charge (some chunk)) h.diverse.tokens);
            within_budget = within_budget-add chunk s a h;
          };
    }
      where
        at_own_id : chunk_by_id chunk.chunk_id ≡ some chunk
        at_own_id = ap chunk_by_id (keyed item.chunk_id chunk found) ∙ found

        a : IsAdmitted chunk s
        a = skips-IsAdmitted pass chunk s unskipped

    start-IsSound : IsSound start
    start-IsSound = record {
      tracked = record { ids_tracked = refl; hashes_tracked = refl; counts_tracked = λ path. refl };
      diverse = record {
        distinct_ids = refl;
        distinct_contents = refl;
        two_per_file = λ path unnamed. omega arith;
        tokens = refl;
        within_budget = omega arith;
      };
    }

    -- Over chunks filed under their own ids, the selection holds no chunk id twice, no content of
    -- one source namespace twice, at most two chunks of a file that the query does not name, and its
    -- token count is the sum of the chunks' capped estimates and at most the budget, or 64 if that is more.
    pub select_diverse_chunks-IsDiverse :
        (ranked : List Ranked)
        → IsDiverse (select_diverse_chunks chunk_by_id named_paths budget limit ranked)
    select_diverse_chunks-IsDiverse ranked =
        (select-keeps chunk_by_id named_paths budget limit IsSound add-IsSound ranked
          start-IsSound).diverse
