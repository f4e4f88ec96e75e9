-- ===== src/Scenarios/Uploads.antt =====
-- An upload of three documents in two batches.
use local_ai_broker.Prelude.{
  String, true, false, some, List, [], ◌∷◌, ◌≡◌, refl, All, Option, none, str_eq, if◌then◌else◌,
  map, sort_by, sort_insert, inr, arith,
}
use local_ai_broker.Prelude.Result.{ok, raise}
use local_ai_broker.Indexing.{
  put_document, put_documents, base_of, opened, no_document_id, set_index, index_upsert, put_into,
  Document, Store, batch_loop, form_batches, index_status, upserts, post_all,
}
use local_ai_broker.Indexing.Sync.{
  SyncManifest, SyncPlan, signed, signature_in, semantic_document_signatures, semantic_sync_plan,
  upload, or_whole, upload_changed, upload_planned, finalized, ensure_semantic_index,
}
use local_ai_broker.Indexing.Manifest.{
  ManifestFiles, manifest_of, load_path, load_semantic_sync_manifest, write_semantic_sync_manifest,
  sync_semantic_index,
}
use local_ai_broker.Indexing.Rewritten.{files_of}
use local_ai_broker.Indexing.Known.{IsKnown, IsFound, sync_semantic_index-IsFound}
use local_ai_broker.Indexing.Changes.{signature_in-signed}
use local_ai_broker.Indexing.Described.{IsDescribed, IsSynced}
use local_ai_broker.Indexing.Synced.{ensure_semantic_index-IsSynced}
use local_ai_broker.Prelude.TextOrder.{str_lt}
use local_ai_broker.Indexing.Batches.{concat, IsBatch, form_batches-IsBatch}
use local_ai_broker.Indexing.Ensure.{IsEnsured, ensure_semantic_index-IsEnsured}
use local_ai_broker.Indexing.Upload.{index_of}

abbrev document : String → Document
document id = record { id = id; content = "x = 1"; bytes = 200 }

abbrev documents : List Document
documents = document "a" ∷ document "b" ∷ document "c" ∷ []

abbrev batches : List (List Document)
batches = (document "a" ∷ document "b" ∷ []) ∷ (document "c" ∷ []) ∷ []

two_batches : form_batches 2 false documents ≡ ok batches
unfolding form_batches batch_loop
two_batches = refl

form_batches-IsBatch_example : (concat batches ≡ documents) × All (IsBatch 2) batches
form_batches-IsBatch_example = form_batches-IsBatch 2 documents batches (omega arith) two_batches

-- The service still holds an older index under the fingerprint.
abbrev store : Store
store key = some (index_of false (document "old" ∷ []))

ensure_semantic_index-IsEnsured_example :
    IsEnsured "sha256:1" documents store (ensure_semantic_index "sha256:1" 2 none documents store)
ensure_semantic_index-IsEnsured_example =
    ensure_semantic_index-IsEnsured "sha256:1" 2 documents store refl (refl, (refl, (refl, tt)))

-- An update in which one document stays, one changes, one goes and one is new.
abbrev line : String → String → Document
line id content = record { id = id; content = content; bytes = 200 }

abbrev sign : Document → String
sign d = d.content

abbrev base_documents : List Document
base_documents = line "a" "x = 1" ∷ line "b" "y = 2" ∷ line "gone" "z = 3" ∷ []

abbrev present : List Document
present = line "a" "x = 1" ∷ line "c" "w = 4" ∷ line "b" "y = 5" ∷ []

abbrev manifest : SyncManifest
manifest = record { fingerprint = "sha256:0"; documents = map (signed sign) base_documents }

abbrev with_base : Store
with_base key = if str_eq key "sha256:0" then some (index_of true base_documents) else none

abbrev plan : Option SyncPlan
plan = semantic_sync_plan (some manifest) (semantic_document_signatures sign present) "sha256:1"

updates_in_place :
    (ensure_semantic_index "sha256:1" 1 plan present with_base).store "sha256:1"
    ≡ some (index_of true (line "a" "x = 1" ∷ line "b" "y = 5" ∷ line "c" "w = 4" ∷ []))
unfolding semantic_sync_plan signature_in sort_by sort_insert str_lt put_documents put_document
    ensure_semantic_index finalized upload_planned upload_changed or_whole upload form_batches
    batch_loop base_of index_status upserts post_all index_upsert put_into opened
updates_in_place = refl

described : IsDescribed sign manifest with_base
unfolding base_of signature_in
described = inr (refl, λ id. signature_in-signed sign id base_documents, refl)

ensure_semantic_index-IsSynced_example :
    IsSynced sign "sha256:1" present (ensure_semantic_index "sha256:1" 1 plan present with_base)
ensure_semantic_index-IsSynced_example =
    ensure_semantic_index-IsSynced sign "sha256:1" 1 manifest present with_base (λ a b same. same)
      refl (refl, (refl, (refl, tt))) described

abbrev manifest_files : ManifestFiles
manifest_files = files_of false (some (manifest_of manifest)) none

uploads_once :
    (sync_semantic_index sign "sha256:1" 1 present with_base manifest_files).ensured.cache_hit
    ≡ ok false
unfolding sync_semantic_index load_semantic_sync_manifest load_path semantic_sync_plan signature_in
    sort_by sort_insert str_lt put_documents put_document ensure_semantic_index finalized
    upload_planned upload_changed or_whole upload form_batches batch_loop base_of index_status
    upserts post_all index_upsert put_into opened
uploads_once = refl

known : IsKnown sign (load_semantic_sync_manifest manifest_files).0 with_base
unfolding load_semantic_sync_manifest load_path
known = described

sync_semantic_index-IsFound_example :
    IsFound sign "sha256:1"
      (load_semantic_sync_manifest
        ((sync_semantic_index sign "sha256:1" 1 present with_base manifest_files).files)).0
      (sync_semantic_index sign "sha256:1" 1 present with_base manifest_files).ensured.store
sync_semantic_index-IsFound_example =
    sync_semantic_index-IsFound sign "sha256:1" 1 present with_base (some (manifest_of manifest))
      none (λ a b same. same) refl (refl, (refl, (refl, tt))) refl known uploads_once

-- With a shared directory the manifest is written there, and the one in the cache directory is still read.
still_read :
    (load_semantic_sync_manifest (
      write_semantic_sync_manifest
        (some manifest)
        (record { fingerprint = "sha256:1"; documents = map (signed sign) present })
        (files_of true (some (manifest_of manifest)) none))).0
    ≡ some manifest
unfolding load_semantic_sync_manifest write_semantic_sync_manifest load_path signature_in
still_read = refl

-- A document without an id: the request that replaces has reset the index before it raises.
reset_then_raises : ensure_semantic_index "sha256:0" 4 none (line "" "x" ∷ []) with_base ≡ record {
  cache_hit = raise no_document_id;
  store = set_index "sha256:0" (index_of false []) with_base;
}
unfolding ensure_semantic_index finalized upload_planned upload form_batches batch_loop base_of
    index_status upserts post_all index_upsert put_into opened
reset_then_raises = refl
