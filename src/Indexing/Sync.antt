-- ===== src/Indexing/Sync.antt =====
-- The sync plan over an earlier index, and `ensure_semantic_index` with it: `_semantic_document_signatures`
-- and `_semantic_sync_plan` of workers/rag-compression/inspection_pipeline.py, and `ensure_semantic_index` and
-- `_select_changed_chunks` of workers/rag-compression/gpu_client.py, for chunks that hold their content and
-- carry no tables by file. The signature of a chunk is an argument.
use local_ai_broker.Prelude.{
  ℕ, String, Bool, true, false, not, Option, none, some, List, [], ◌∷◌, str_eq, ltb, ◌==◌, ◌||◌,
  ◌&&◌, if◌then◌else◌, length, map, keep, contains, sort_by,
}
use local_ai_broker.Prelude.Result.{Result, ok, raise}
use local_ai_broker.Prelude.Text.{is_empty}
use local_ai_broker.Prelude.TextOrder.{str_lt}
use local_ai_broker.Indexing.{
  Document, IndexError, no_chunks, bad_batch_size, not_finalized, Store, form_batches, base_of,
  index_status, Posted, upserts, post_all, put_documents,
}

-- The signatures of documents by their ids, in the order of the dictionary.
abbrev pub Signatures : Type 0
Signatures = List (String × String)

pub record SyncManifest : Type 0 where
  pub fingerprint : String
  pub documents : Signatures

pub record SyncPlan : Type 0 where
  pub base_fingerprint : String
  pub changed_ids : List String
  pub removed_ids : List String

abbrev pub signed : (Document → String) → Document → String × String
signed sign d = (d.id, sign d)

-- A later chunk of an id takes the place of the earlier one.
abbrev pub semantic_document_signatures : (Document → String) → List Document → Signatures
semantic_document_signatures sign chunks = map (signed sign) (put_documents chunks [])

unfoldable pub signature_in : String → Signatures → Option String
signature_in id [] = none
signature_in id (p ∷ ps) =
    let later = signature_in id ps in if str_eq p.0 id then some p.1 else later

-- Whether a lookup answers.
abbrev pub has : Option String → Bool
has none = false
has (some signature) = true

-- `!=`, of a lookup and a signature
abbrev pub differs : Option String → String → Bool
differs none signature = true
differs (some earlier) signature = not (str_eq earlier signature)

-- `previous_documents.get(chunk_id) != signature`
abbrev pub is_changed : Signatures → String × String → Bool
is_changed previous p = differs (signature_in p.0 previous) p.1

-- `chunk_id not in document_signatures`
abbrev pub is_removed : Signatures → String × String → Bool
is_removed signatures p = not (has (signature_in p.0 signatures))

abbrev pub signed_id : String × String → String
signed_id p = p.0

unfoldable pub semantic_sync_plan : Option SyncManifest → Signatures → String → Option SyncPlan
semantic_sync_plan none signatures fingerprint = none
semantic_sync_plan (some previous) signatures fingerprint =
    if is_empty previous.fingerprint || str_eq previous.fingerprint fingerprint
    then none
    else some (record {
      base_fingerprint = previous.fingerprint;
      changed_ids =
          sort_by str_lt (map signed_id (keep (is_changed previous.documents) signatures));
      removed_ids =
          sort_by str_lt (map signed_id (keep (is_removed signatures) previous.documents));
    })

abbrev pub named : List String → List String
named ids = keep (λ id. not (is_empty id)) ids

abbrev pub select_changed_chunks : List Document → List String → List Document
select_changed_chunks chunks changed_ids = keep (λ (d : Document). contains d.id changed_ids) chunks

-- What `upload` leaves: whether the service reused the base, or an error, and the store.
pub record Uploaded : Type 0 where
  pub base_reused : Result IndexError Bool
  pub store : Store

-- The responses of an upload: an error of one of them, or whether the first says that the base was reused.
abbrev pub after_posts : Bool → Posted → Uploaded
after_posts reused p = record {
  base_reused = elim p.error [ some e ↦ raise e | none ↦ ok reused ];
  store = p.store;
}

unfoldable pub upload : String → ℕ → String → List String → List Document → Store → Uploaded
upload key batch_size base_fingerprint removed_ids documents store =
    elim (form_batches batch_size (ltb 0 (length removed_ids) || not (is_empty base_fingerprint))
      documents) [
        | raise e ↦ record { base_reused = raise e; store = store }
        | ok batches ↦
            after_posts (ltb 0 (length batches) && (base_of store base_fingerprint).1)
              (post_all key (upserts true base_fingerprint removed_ids batches) store)
      ]

-- All chunks, where the service did not have the base.
unfoldable pub or_whole : String → ℕ → List Document → Uploaded → Uploaded
unfolding upload
or_whole key batch_size chunks first = elim first.base_reused [
  | raise e ↦ first
  | ok reused ↦ if reused then first else upload key batch_size "" [] chunks first.store
]

-- The changed chunks over the base.
unfoldable pub upload_changed : String → ℕ → SyncPlan → List Document → Store → Uploaded
unfolding upload or_whole
upload_changed key batch_size plan chunks store = or_whole key batch_size chunks (
    upload key batch_size plan.base_fingerprint (named plan.removed_ids)
      (select_changed_chunks chunks (named plan.changed_ids)) store)

unfoldable pub upload_planned : String → ℕ → Option SyncPlan → List Document → Store → Uploaded
unfolding upload_changed upload
upload_planned key batch_size none chunks store = upload key batch_size "" [] chunks store
upload_planned key batch_size (some plan) chunks store =
    if is_empty plan.base_fingerprint
    then upload key batch_size "" [] chunks store
    else upload_changed key batch_size plan chunks store

-- What `ensure_semantic_index` leaves: whether the index was there already, or an error, and the store.
pub record Ensured : Type 0 where
  pub cache_hit : Result IndexError Bool
  pub store : Store

-- The second status.
unfoldable pub finalized : String → ℕ → Uploaded → Ensured
finalized key document_count u = elim u.base_reused [
  | raise e ↦ record { cache_hit = raise e; store = u.store }
  | ok reused ↦ record {
    cache_hit = if index_status key document_count u.store then ok false else raise not_finalized;
    store = u.store;
  }
]

unfoldable pub ensure_semantic_index :
    String → ℕ → Option SyncPlan → List Document → Store → Ensured
unfolding finalized upload_planned
ensure_semantic_index key batch_size sync_plan chunks store =
    if index_status key (length chunks) store
    then record { cache_hit = ok true; store = store }
    else if length chunks == 0
    then record { cache_hit = raise no_chunks; store = store }
    else if batch_size == 0
    then record { cache_hit = raise bad_batch_size; store = store }
    else finalized key (length chunks) (upload_planned key batch_size sync_plan chunks store)
