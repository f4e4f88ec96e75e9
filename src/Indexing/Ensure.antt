-- ===== src/Indexing/Ensure.antt =====
-- `ensure_semantic_index` against the service.
use mathlib.Core.Path.{subst}
use local_ai_broker.Prelude.{
  All, all, Bool, ltb, not, ◌||◌, ◌&&◌, ℕ, ◌≤◌, String, true, false, List, [], ◌∷◌, ◌++◌, ◌+◌,
  length, ◌==◌, ◌≡◌, refl, sym, ◌∙◌, ap, arith, distinct, inl, inr, Bool-cases, ◌⊎◌, some, none,
}
use local_ai_broker.Prelude.Text.{is_empty}
use local_ai_broker.Prelude.Result.{ok, raise, Result-cases}
use local_ai_broker.Indexing.{
  Document, base_of, IndexError, document_too_large, no_chunks, bad_batch_size, Store, batch_loop,
  form_batches, index_status, upserts, has_id,
}
use local_ai_broker.Indexing.Sync.{
  after_posts, upload, Ensured, finalized, upload_planned, ensure_semantic_index,
}
use local_ai_broker.Indexing.Batches.{concat, form_batches-IsBatch}
use local_ai_broker.Indexing.Accepted.{accept_all, post_all-accepts, All-has_id}
use local_ai_broker.Indexing.Upload.{same_id, index_of, upserts-IsUploaded}

-- Either the index is ready for the documents after the call, held under the fingerprint if it was
-- uploaded now, or the call raised for one of three reasons and the store is as it was.
pub data IsEnsured (key : String) (documents : List Document) (store : Store)
    : Ensured → Type 0 where
  found :
      (e : Ensured)
      → e.cache_hit ≡ ok true
      → e.store ≡ store
      → index_status key (length documents) e.store ≡ true
      → IsEnsured key documents store e
  uploaded :
      (e : Ensured)
      → e.cache_hit ≡ ok false
      → e.store key ≡ some (index_of true documents)
      → index_status key (length documents) e.store ≡ true
      → IsEnsured key documents store e
  refused :
      (e : Ensured) (error : IndexError)
      → e.cache_hit ≡ raise error
      → (error ≡ document_too_large) ⊎ ((error ≡ no_chunks) ⊎ (error ≡ bad_batch_size))
      → e.store ≡ store
      → IsEnsured key documents store e

batch_loop-error :
    (n : ℕ) (ds : List Document) (batches : List (List Document)) (batch : List Document)
    (bytes : ℕ) (e : IndexError)
    → batch_loop n ds batches batch bytes ≡ raise e
    → e ≡ document_too_large
unfolding batch_loop
batch_loop-error n [] batches batch bytes e h = cc
batch_loop-error n (d ∷ ds) batches batch bytes e h = ground (
  arith,
  batch_loop-error n ds (batches ++ batch ∷ []) (d ∷ []) d.bytes e,
  batch_loop-error n ds batches (batch ++ d ∷ []) (bytes + d.bytes) e,
)

pub form_batches-error :
    (is_update : Bool) (n : ℕ) (documents : List Document) (e : IndexError)
    → form_batches n is_update documents ≡ raise e
    → e ≡ document_too_large
unfolding form_batches
form_batches-error is_update n documents e h =
    ground (arith, batch_loop-error n documents [] [] 0 e)

concat-nonempty :
    (batches : List (List Document)) → 1 ≤ length (concat batches) → 1 ≤ length batches
concat-nonempty [] h = h
concat-nonempty (b ∷ bs) h = omega arith

pub upload-ok :
    (key : String) (batch_size : ℕ) (base : String) (removed : List String)
    (documents : List Document) (store : Store) (batches : List (List Document))
    → form_batches batch_size (ltb 0 (length removed) || not (is_empty base)) documents ≡ ok batches
    → all has_id (concat batches) ≡ true
    → upload key batch_size base removed documents store ≡ record {
      base_reused = ok (ltb 0 (length batches) && (base_of store base).1);
      store = accept_all key (upserts true base removed batches) store;
    }
unfolding upload
upload-ok key n base removed documents store batches h named =
    rw (h, upload)
      (ap (after_posts (ltb 0 (length batches) && (base_of store base).1))
        (post_all-accepts key true base removed batches store named))

pub upload-raise :
    (key : String) (batch_size : ℕ) (base : String) (removed : List String)
    (documents : List Document) (store : Store) (e : IndexError)
    → form_batches batch_size (ltb 0 (length removed) || not (is_empty base)) documents ≡ raise e
    → upload key batch_size base removed documents store
      ≡ record { base_reused = raise e; store = store }
unfolding upload
upload-raise key n base removed documents store e h = rw (h, upload) refl

pub upload-IsEnsured :
    (key : String) (batch_size : ℕ) (documents : List Document) (store : Store)
    → 1 ≤ batch_size
    → 1 ≤ length documents
    → distinct same_id documents ≡ true
    → All (λ (x : Document). is_empty x.id ≡ false) documents
    → IsEnsured key documents store
        (finalized key (length documents) (upload key batch_size "" [] documents store))
unfolding finalized
upload-IsEnsured key n documents store m l d full =
    elim (Result-cases (form_batches n false documents)) [
      | inr (e, h) ↦
          subst (λ u. IsEnsured key documents store (finalized key (length documents) u))
            (sym (upload-raise key n "" [] documents store e h))
            (refused _ e refl (inl (form_batches-error false n documents e h)) refl)
      | inl (batches, h) ↦
          let (whole, each) = form_batches-IsBatch n documents batches m h in
          let up =
            upserts-IsUploaded key batches store
              (concat-nonempty batches (subst (λ ds. 1 ≤ length ds) (sym whole) l))
              (subst (λ ds. distinct same_id ds ≡ true) (sym whole) d) in
          let held = up.0 ∙ ap (λ ds. some (index_of true ds)) whole in
          let ready =
            subst
              (λ ds.
                index_status key (length ds) (accept_all key (upserts true "" [] batches) store)
                ≡ true)
              whole up.1 in
          subst (λ u. IsEnsured key documents store (finalized key (length documents) u))
            (sym (
              upload-ok key n "" [] documents store batches h
                (subst (λ ds. all has_id ds ≡ true) (sym whole) (All-has_id documents full))))
            (uploaded _ (rw ready refl) held ready)
    ]

-- For documents with different ids that are not empty, `ensure_semantic_index` without a sync plan either finds an index that
-- is ready with as many documents and changes nothing, or leaves the index of the fingerprint ready with
-- exactly the documents in their order, or raises and changes nothing, since a document is too large,
-- there is none, or the batch size is 0; it never raises because the index was not finalized.
pub ensure_semantic_index-IsEnsured :
    (key : String) (batch_size : ℕ) (documents : List Document) (store : Store)
    → distinct same_id documents ≡ true
    → All (λ (x : Document). is_empty x.id ≡ false) documents
    → IsEnsured key documents store (ensure_semantic_index key batch_size none documents store)
unfolding ensure_semantic_index upload_planned
ensure_semantic_index-IsEnsured key n documents store d full =
    elim (Bool-cases (index_status key (length documents) store)) [
      | inl ready ↦ rw (ready, ensure_semantic_index) (found _ refl refl ready)
      | inr cold ↦ elim (Bool-cases (length documents == 0)) [
        | inl none_there ↦
            rw (cold, none_there, ensure_semantic_index)
              (refused _ no_chunks refl (inr (inl refl)) refl)
        | inr some_there ↦ elim (Bool-cases (n == 0)) [
          | inl bad ↦
              rw (cold, some_there, bad, ensure_semantic_index)
                (refused _ bad_batch_size refl (inr (inr refl)) refl)
          | inr good ↦
              rw (cold, some_there, good, ensure_semantic_index, upload_planned)
                (upload-IsEnsured key n documents store (ground arith) (ground arith) d full)
        ]
      ]
    ]
