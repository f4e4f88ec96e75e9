-- ===== src/Indexing/Known.antt =====
-- What a sync leaves for the next one.
use mathlib.Core.Path.{subst}
use local_ai_broker.Prelude.{
  ℕ, String, Bool, true, false, Option, none, some, List, eq_iff, if◌then◌else◌, All, distinct, ◌≡◌,
  refl, sym, ◌∙◌, ap, arith, inl, inr, Bool-cases,
}
use local_ai_broker.Prelude.Result.{ok}
use local_ai_broker.Prelude.Text.{is_empty}
use local_ai_broker.Indexing.{Document, Store, base_of}
use local_ai_broker.Indexing.Sync.{
  SyncManifest, semantic_document_signatures, semantic_sync_plan, Ensured, ensure_semantic_index,
}
use local_ai_broker.Indexing.Manifest.{
  ManifestFile, ManifestFiles, load_path, load_semantic_sync_manifest, is_written,
  write_semantic_sync_manifest, sync_semantic_index,
}
use local_ai_broker.Indexing.Upload.{same_id}
use local_ai_broker.Indexing.Described.{
  AreSigned, IsDescribed, IsSynced, was_ready, synced, failed, whole-IsSynced,
}
use local_ai_broker.Indexing.Ensure.{ensure_semantic_index-IsEnsured}
use local_ai_broker.Indexing.Synced.{ensure_semantic_index-IsSynced}
use local_ai_broker.Indexing.Rewritten.{files_of, load-write, AreSigned-same}

-- The manifest that a load finds, where it finds one, describes the store.
abbrev pub IsKnown : (Document → String) → Option SyncManifest → Store → Type 0
IsKnown sign none store = Unit
IsKnown sign (some m) store = IsDescribed sign m store

-- The manifest is of the fingerprint, and has the signatures of the documents that are held under it.
abbrev pub IsFound : (Document → String) → String → Option SyncManifest → Store → Type 0
IsFound sign key found store =
    (m : SyncManifest) × (found ≡ some m)
    × (m.fingerprint ≡ key)
    × AreSigned sign m.documents (base_of store key).0

-- The manifest after the sync, where the index of the fingerprint has the documents.
current-IsFound :
    (sign : Document → String) (previous : Option SyncManifest) (m : SyncManifest) (store : Store)
    → AreSigned sign m.documents (base_of store m.fingerprint).0
    → IsFound sign m.fingerprint (if is_written previous m then previous else some m) store
current-IsFound sign none m store signs = (m, refl, refl, signs)
current-IsFound sign (some p) m store signs = elim (Bool-cases (is_written (some p) m)) [
  | inr new ↦ (m, rw new refl, refl, signs)
  | inl same ↦ (
    p,
    rw same refl,
    (eq_iff p.fingerprint m.fingerprint).0 (ground arith),
    AreSigned-same sign p.documents m.documents _ (ground arith) signs,
  )
]

module _ (sign : Document → String) (key : String) (batch_size : ℕ) (documents : List Document)
    (store : Store) where
  abbrev ensured_of : Option SyncManifest → Ensured
  ensured_of previous =
      ensure_semantic_index key batch_size
        (semantic_sync_plan previous (semantic_document_signatures sign documents) key) documents
        store

  uploaded-signs :
      (e : Ensured)
      → is_empty key ≡ false
      → IsSynced sign key documents e
      → e.cache_hit ≡ ok false
      → AreSigned sign (semantic_document_signatures sign documents) (base_of e.store key).0
  unfolding base_of
  uploaded-signs _ full (was_ready e hit ready) h = absurd cc
  uploaded-signs _ full (failed e error hit cause) h = absurd cc
  uploaded-signs _ full (synced e stored hit held as_many same signs) h =
      rw (full, held, base_of) signs

  ensured-IsSynced :
      (previous : Option SyncManifest)
      → ((a b : Document) → sign a ≡ sign b → a.content ≡ b.content)
      → distinct same_id documents ≡ true
      → All (λ (x : Document). is_empty x.id ≡ false) documents
      → IsKnown sign previous store
      → IsSynced sign key documents (ensured_of previous)
  unfolding semantic_sync_plan
  ensured-IsSynced none decides d full known =
      whole-IsSynced sign decides key documents d full _ store
        (ensure_semantic_index-IsEnsured key batch_size documents store d full)
  ensured-IsSynced (some m) decides d full known =
      ensure_semantic_index-IsSynced sign key batch_size m documents store decides d full known

  sync-ensured :
      (files : ManifestFiles)
      → (sync_semantic_index sign key batch_size documents store files).ensured
        ≡ ensured_of (load_semantic_sync_manifest files).0
  unfolding sync_semantic_index
  sync-ensured files = refl

  sync-files :
      (files : ManifestFiles) (hit : Bool)
      → (ensured_of (load_semantic_sync_manifest files).0).cache_hit ≡ ok hit
      → (sync_semantic_index sign key batch_size documents store files).files
        ≡ write_semantic_sync_manifest
            (load_semantic_sync_manifest files).0
            (record { fingerprint = key; documents = semantic_document_signatures sign documents })
            (load_semantic_sync_manifest files).1
  unfolding sync_semantic_index
  sync-files files hit h = rw (h, sync_semantic_index) refl

-- For documents with different ids that are not empty, signatures that tell contents apart, a fingerprint
-- that is not empty, and no shared directory: where the manifest of the file, if there is one, describes the
-- service, and the sync uploads, the next load finds a manifest of the fingerprint with the signatures of the
-- documents that the service holds under it.
pub sync_semantic_index-IsFound :
    (sign : Document → String) (key : String) (batch_size : ℕ) (documents : List Document)
    (store : Store) (local_file shared_file : Option ManifestFile)
    → ((a b : Document) → sign a ≡ sign b → a.content ≡ b.content)
    → distinct same_id documents ≡ true
    → All (λ (x : Document). is_empty x.id ≡ false) documents
    → is_empty key ≡ false
    → IsKnown sign (load_semantic_sync_manifest (files_of false local_file shared_file)).0 store
    → (sync_semantic_index sign key batch_size documents store
        (files_of false local_file shared_file)).ensured.cache_hit
      ≡ ok false
    → IsFound sign key
        (load_semantic_sync_manifest (
          (sync_semantic_index sign key batch_size documents store
            (files_of false local_file shared_file)).files)).0
        (sync_semantic_index sign key batch_size documents store
          (files_of false local_file shared_file)).ensured.store
sync_semantic_index-IsFound sign key n documents store local_file shared_file decides d full named
      known h =
    let files = files_of false local_file shared_file in
    let previous = (load_semantic_sync_manifest files).0 in
    let same = sync-ensured sign key n documents store files in
    let hit : (ensured_of sign key n documents store previous).cache_hit ≡ ok false =
      ap (λ (e : Ensured). e.cache_hit) (sym same) ∙ h in
    let m : SyncManifest = record {
      fingerprint = key;
      documents = semantic_document_signatures sign documents;
    } in
    let synced_store = ensured-IsSynced sign key n documents store previous decides d full known in
    let signs =
      uploaded-signs sign key n documents store (ensured_of sign key n documents store previous)
        named synced_store hit in
    let written : (load_semantic_sync_manifest
          (sync_semantic_index sign key n documents store files).files).0
        ≡ (if is_written (load_path local_file).0 m then (load_path local_file).0 else some m) =
      ap (λ f. (load_semantic_sync_manifest f).0)
        (sync-files sign key n documents store files false hit)
      ∙ load-write m local_file shared_file in
    subst
      (λ (e : Ensured).
        IsFound sign key
          (load_semantic_sync_manifest
            (sync_semantic_index sign key n documents store files).files).0
          e.store)
      (sym same)
      (subst (λ o. IsFound sign key o (ensured_of sign key n documents store previous).store)
        (sym written) (current-IsFound sign (load_path local_file).0 m _ signs))
