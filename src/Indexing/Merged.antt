-- ===== src/Indexing/Merged.antt =====
-- The documents after an update by the plan of `_semantic_sync_plan`.
use mathlib.Core.Option
use mathlib.Core.Option.{none-ne-some, some-injective}
use mathlib.Core.Path.{subst}
use local_ai_broker.Prelude.{
  String, true, false, not, Option, none, some, List, [], ◌∷◌, str_eq, eq_iff, ◌&&◌, if◌then◌else◌,
  map, keep, contains, sort_by, All, ◌≡◌, refl, sym, ◌∙◌, ap, distinct, inl, inr, Bool-cases,
  Option-cases,
}
use local_ai_broker.Prelude.Text.{is_empty}
use local_ai_broker.Indexing.{Document, put_documents}
use local_ai_broker.Indexing.Sync.{
  is_removed, signed_id, named, select_changed_chunks, Signatures, signed, signature_in, differs,
  is_changed, has,
}
use local_ai_broker.Indexing.Upload.{same_id}
use local_ai_broker.Indexing.Lookup.{
  find_document, first_of, put_documents-find, keep-find, keep-distinct,
}
use local_ai_broker.Indexing.Changes.{
  changes, contains-named, contains-sort_by, contains-changed, contains-removed,
  signature_in-signed,
}
use local_ai_broker.Indexing.Updates.{left_of}
use local_ai_broker.Prelude.TextOrder.{str_lt}

-- What an update leaves of an id, from what the documents and the base have for it: the signature of the document.
module _ (sign : Document → String) (previous : Signatures) where
  abbrev updated : String → Option Document → Option Document → Option Document
  updated id now before =
      first_of (if changes sign previous now && not (is_empty id) then now else none) (
        if not
          ((has (signature_in id previous) && not (has (Option.map sign now))) && not (is_empty id))
        then before
        else none)

  updated-removed :
      (id : String) (before : Option Document)
      → signature_in id previous ≡ Option.map sign before
      → (is_empty id ≡ true → signature_in id previous ≡ none)
      → Option.map sign (updated id none before) ≡ none
  updated-removed id none p e = elim (Bool-cases (is_empty id)) [
    | inl empty ↦ rw (empty, p) refl
    | inr full ↦ rw (full, p) refl
  ]
  updated-removed id (some o) p e = elim (Bool-cases (is_empty id)) [
    | inl empty ↦ absurd (none-ne-some (sign o) (sym (e empty) ∙ p))
    | inr full ↦ rw (full, p) refl
  ]

  updated-held :
      (id : String) (d : Document) (before : Option Document)
      → d.id ≡ id
      → is_empty id ≡ false
      → signature_in id previous ≡ Option.map sign before
      → Option.map sign (updated id (some d) before) ≡ some (sign d)
  updated-held id d none k full p =
      let new : changes sign previous (some d) ≡ true =
        ap (λ s. differs s (sign d)) (ap (λ i. signature_in i previous) k ∙ p) in
      rw (full, new) refl
  updated-held id d (some o) k full p =
      let compared : changes sign previous (some d) ≡ not (str_eq (sign o) (sign d)) =
        ap (λ s. differs s (sign d)) (ap (λ i. signature_in i previous) k ∙ p) in
      elim (Bool-cases (str_eq (sign o) (sign d))) [
        | inl same ↦ rw (full, p, compared, same) (ap some ((eq_iff (sign o) (sign d)).0 same))
        | inr new ↦ rw (full, p, compared, new) refl
      ]

pub find_document-id :
    (id : String) (ds : List Document) (d : Document) → find_document id ds ≡ some d → d.id ≡ id
find_document-id id [] d h = absurd (none-ne-some d h)
find_document-id id (x ∷ xs) d h = elim (Bool-cases (str_eq x.id id)) [
  | inl same ↦
      ap (λ (x : Document). x.id) (sym (some-injective x d (rw same at h)))
      ∙ (eq_iff x.id id).0 same
  | inr apart ↦ find_document-id id xs d (rw apart at h)
]

pub find_document-All :
    (P : Document → Type 0) (id : String) (ds : List Document) (d : Document)
    → All P ds
    → find_document id ds ≡ some d
    → P d
find_document-All P id [] d a h = absurd (none-ne-some d h)
find_document-All P id (x ∷ xs) d a h = elim (Bool-cases (str_eq x.id id)) [
  | inl same ↦ subst P (some-injective x d (rw same at h)) a.0
  | inr apart ↦ find_document-All P id xs d a.1 (rw apart at h)
]

-- The ids that the plan names, and what an update by them leaves.
module _ (sign : Document → String) (previous : Signatures) (documents : List Document) where
  abbrev pub changed_ids : List String
  changed_ids =
      named
        (sort_by str_lt (map signed_id (keep (is_changed previous) (map (signed sign) documents))))

  abbrev pub removed_ids : List String
  removed_ids =
      named
        (sort_by str_lt (map signed_id (keep (is_removed (map (signed sign) documents)) previous)))

  contains-changed_ids :
      (id : String)
      → distinct same_id documents ≡ true
      → contains id changed_ids
        ≡ (changes sign previous (find_document id documents) && not (is_empty id))
  contains-changed_ids id d =
      contains-named id _
      ∙ ap (λ b. b && not (is_empty id))
          (contains-sort_by str_lt id _ ∙ contains-changed sign previous id documents d)

  contains-removed_ids :
      (id : String)
      → contains id removed_ids ≡ (
          (has (signature_in id previous)
            && not (has (Option.map sign (find_document id documents))))
          && not (is_empty id))
  contains-removed_ids id =
      contains-named id _
      ∙ ap (λ b. b && not (is_empty id))
          (contains-sort_by str_lt id _
            ∙ contains-removed (map (signed sign) documents) id previous
            ∙ ap (λ s. has (signature_in id previous) && not (has s))
                (signature_in-signed sign id documents))

module _ (sign : Document → String) (previous : Signatures) (documents old : List Document) where
  abbrev pub merged : List Document
  merged =
      put_documents (select_changed_chunks documents (changed_ids sign previous documents))
        (left_of (removed_ids sign previous documents) old)

  merged-find :
      (id : String)
      → distinct same_id documents ≡ true
      → find_document id merged
        ≡ updated sign previous id (find_document id documents) (find_document id old)
  merged-find id d =
      put_documents-find id (select_changed_chunks documents (changed_ids sign previous documents))
        (left_of (removed_ids sign previous documents) old)
        (keep-distinct (λ x. contains x.id (changed_ids sign previous documents)) documents d)
      ∙ ap (λ o. first_of o (find_document id (left_of (removed_ids sign previous documents) old)))
          (keep-find (λ i. contains i (changed_ids sign previous documents)) id documents
            ∙ ap (λ b. if b then find_document id documents else none)
                (contains-changed_ids sign previous documents id d))
      ∙ ap (first_of _) (
          keep-find (λ i. not (contains i (removed_ids sign previous documents))) id old
          ∙ ap (λ b. if not b then find_document id old else none)
              (contains-removed_ids sign previous documents id))

  -- Every id has the signature of the documents.
  pub merged-sign :
      (id : String)
      → distinct same_id documents ≡ true
      → All (λ (x : Document). is_empty x.id ≡ false) documents
      → ((i : String) → signature_in i previous ≡ Option.map sign (find_document i old))
      → ((i : String) → is_empty i ≡ true → signature_in i previous ≡ none)
      → Option.map sign (find_document id merged) ≡ Option.map sign (find_document id documents)
  merged-sign id d full p e =
      ap (Option.map sign) (merged-find id d) ∙ elim (Option-cases (find_document id documents)) [
        | inl gone ↦
            ap (λ o. Option.map sign (updated sign previous id o (find_document id old))) gone
            ∙ updated-removed sign previous id _ (p id) (e id)
            ∙ ap (Option.map sign) (sym gone)
        | inr (x, there) ↦
            let same = find_document-id id documents x there in
            let filled =
              subst (λ i. is_empty i ≡ false) same
                (find_document-All (λ y. is_empty y.id ≡ false) id documents x full there) in
            ap (λ o. Option.map sign (updated sign previous id o (find_document id old))) there
            ∙ updated-held sign previous id x _ same filled (p id)
            ∙ ap (Option.map sign) (sym there)
      ]
