-- ===== src/Indexing/Synced.antt =====
-- `ensure_semantic_index` with the plan of `_semantic_sync_plan`.
use mathlib.Core.Path.{subst}
use local_ai_broker.Prelude.{
  all, ℕ, ◌≤◌, String, Bool, true, false, not, some, List, str_eq, ◌||◌, ◌==◌, ltb, length, map,
  keep, sort_by, All, ◌≡◌, refl, sym, ◌∙◌, ap, arith, distinct, inl, inr, Bool-cases,
}
use local_ai_broker.Prelude.TextOrder.{str_lt}
use local_ai_broker.Prelude.Result.{ok, Result-cases}
use local_ai_broker.Prelude.Text.{is_empty}
use local_ai_broker.Indexing.{
  has_id, Document, no_chunks, bad_batch_size, Store, put_documents, base_of, index_status,
  form_batches,
}
use local_ai_broker.Indexing.Sync.{
  SyncManifest, signed, semantic_document_signatures, semantic_sync_plan, signed_id, is_changed,
  is_removed, select_changed_chunks, or_whole, upload_changed, upload_planned, finalized,
  ensure_semantic_index,
}
use local_ai_broker.Indexing.Accepted.{All-has_id, keep-has_id}
use local_ai_broker.Indexing.Batches.{concat, form_batches-updates}
use local_ai_broker.Indexing.Upload.{same_id, index_of}
use local_ai_broker.Indexing.Updates.{left_of, upserts-update}
use local_ai_broker.Indexing.Ensure.{upload-ok, upload-raise, form_batches-error}
use local_ai_broker.Indexing.Merged.{changed_ids, removed_ids}
use local_ai_broker.Indexing.Described.{
  IsDescribed, IsSynced, was_ready, failed, signatures_eq, upload-whole, update-IsSynced,
}

module _ (sign : Document → String)
    (decides : (a b : Document) → sign a ≡ sign b → a.content ≡ b.content) (key : String)
    (documents : List Document) (d : distinct same_id documents ≡ true)
    (full : All (λ (x : Document). is_empty x.id ≡ false) documents) where
  -- The second upload, if the first does not reuse the base.
  or_whole-IsSynced :
      (batch_size : ℕ) (reused : Bool) (store : Store)
      → 1 ≤ batch_size
      → 1 ≤ length documents
      → (reused ≡ true
          → IsSynced sign key documents
              (finalized key (length documents) (record { base_reused = ok true; store = store })))
      → IsSynced sign key documents (
          finalized key
            (length documents)
            (or_whole key batch_size documents (record { base_reused = ok reused; store = store })))
  unfolding or_whole
  or_whole-IsSynced n true store m l first = first refl
  or_whole-IsSynced n false store m l first =
      (upload-whole sign decides key documents d full) n store m l

  -- An upload of the changed documents, over a base that the service has or has not.
  upload_changed-IsSynced :
      (batch_size : ℕ) (manifest : SyncManifest) (store : Store)
      → 1 ≤ batch_size
      → 1 ≤ length documents
      → is_empty manifest.fingerprint ≡ false
      → IsDescribed sign manifest store
      → IsSynced sign key documents (
          finalized key (length documents) (
            upload_changed key batch_size
              (record {
                base_fingerprint = manifest.fingerprint;
                changed_ids = sort_by str_lt (
                    map signed_id
                      (keep (is_changed manifest.documents) (map (signed sign) documents)));
                removed_ids = sort_by str_lt (
                    map signed_id
                      (keep (is_removed (map (signed sign) documents)) manifest.documents));
              })
              documents
              store))
  unfolding upload_changed finalized
  upload_changed-IsSynced n manifest store m l nonempty known =
      let base = manifest.fingerprint in
      let removed = removed_ids sign manifest.documents documents in
      let changed =
        select_changed_chunks documents (changed_ids sign manifest.documents documents) in
      let updates : (ltb 0 (length removed) || not (is_empty base)) ≡ true = ground arith in
      elim (Result-cases (form_batches n (ltb 0 (length removed) || not (is_empty base)) changed)) [
        | inr (error, h) ↦
            subst
              (λ u.
                IsSynced sign key documents
                  (finalized key (length documents) (or_whole key n documents u)))
              (sym (upload-raise key n base removed changed store error h))
              (failed _ error refl (inl (form_batches-error _ n changed error h)))
        | inl (batches, h) ↦
            let (whole, some_there) =
              form_batches-updates n changed batches m
                (subst (λ b. form_batches n b changed ≡ ok batches) updates h) in
            let named_changes : all has_id (concat batches) ≡ true =
              subst (λ ds. all has_id ds ≡ true) (sym whole)
                (keep-has_id _ documents (All-has_id documents full)) in
            subst
              (λ u.
                IsSynced sign key documents
                  (finalized key (length documents) (or_whole key n documents u)))
              (sym (upload-ok key n base removed changed store batches h named_changes))
              (or_whole-IsSynced n _ _ m l (λ reused. elim known [
                | inl absent ↦ ground arith
                | inr signs ↦
                    let old = (base_of store base).0 in
                    let there : base_of store base ≡ (old, true) =
                      ap (λ (r : Bool). (old, r)) (ground arith) in
                    (update-IsSynced sign decides key documents d full) manifest.documents old _
                      signs
                      (upserts-update key base removed batches store old some_there there
                        ∙ ap (λ l. some (index_of true (put_documents l (left_of removed old))))
                            whole)
              ]))
      ]

  planned-IsSynced :
      (batch_size : ℕ) (manifest : SyncManifest) (store : Store)
      → 1 ≤ batch_size
      → 1 ≤ length documents
      → IsDescribed sign manifest store
      → IsSynced sign key documents (
          finalized key (length documents) (
            upload_planned key batch_size
              (semantic_sync_plan (some manifest) (semantic_document_signatures sign documents) key)
              documents
              store))
  unfolding upload_planned semantic_sync_plan
  planned-IsSynced n manifest store m l known =
      elim (Bool-cases (is_empty manifest.fingerprint || str_eq manifest.fingerprint key)) [
        | inl whole ↦
            rw (whole, semantic_sync_plan, upload_planned)
              ((upload-whole sign decides key documents d full) n store m l)
        | inr updates ↦
            let nonempty : is_empty manifest.fingerprint ≡ false = ground arith in
            rw
              (
                updates,
                (signatures_eq sign decides key documents d full),
                nonempty,
                semantic_sync_plan,
                upload_planned,
              )
              (upload_changed-IsSynced n manifest store m l nonempty known)
      ]

-- For documents with different ids that are not empty, signatures that tell contents apart, and an earlier
-- manifest whose index the service does not have ready or has with the documents of the manifest:
-- `ensure_semantic_index` with the plan of `_semantic_sync_plan` finds an index that is ready with as many
-- documents, or leaves one ready under the fingerprint that has, for every id, the content that the documents
-- have, as many documents as there are, and the signatures of the new manifest; or it raises, since a
-- document is too large, there is none, or the batch size is 0.
pub ensure_semantic_index-IsSynced :
    (sign : Document → String) (key : String) (batch_size : ℕ) (manifest : SyncManifest)
    (documents : List Document) (store : Store)
    → ((a b : Document) → sign a ≡ sign b → a.content ≡ b.content)
    → distinct same_id documents ≡ true
    → All (λ (x : Document). is_empty x.id ≡ false) documents
    → IsDescribed sign manifest store
    → IsSynced sign key documents (
        ensure_semantic_index key batch_size
          (semantic_sync_plan (some manifest) (semantic_document_signatures sign documents) key)
          documents
          store)
unfolding ensure_semantic_index
ensure_semantic_index-IsSynced sign key n manifest documents store decides d full known =
    elim (Bool-cases (index_status key (length documents) store)) [
      | inl ready ↦ rw (ready, ensure_semantic_index) (was_ready _ refl ready)
      | inr cold ↦ elim (Bool-cases (length documents == 0)) [
        | inl none_there ↦
            rw (cold, none_there, ensure_semantic_index) (failed _ no_chunks refl (inr (inl refl)))
        | inr some_there ↦ elim (Bool-cases (n == 0)) [
          | inl bad ↦
              rw (cold, some_there, bad, ensure_semantic_index)
                (failed _ bad_batch_size refl (inr (inr refl)))
          | inr good ↦
              rw (cold, some_there, good, ensure_semantic_index)
                (planned-IsSynced sign decides key documents d full n manifest store (ground arith)
                  (ground arith) known)
        ]
      ]
    ]
