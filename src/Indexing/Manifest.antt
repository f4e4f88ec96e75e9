-- ===== src/Indexing/Manifest.antt =====
-- The files of the sync manifest, and a sync over them: `_load_semantic_sync_manifest`,
-- `_write_semantic_sync_manifest` and their calls in `gpu_semantic_retrieval` of
-- workers/rag-compression/inspection_pipeline.py. A file is what its text is read as; the endpoint and the
-- fingerprint of the service are arguments.
use local_ai_broker.Prelude.{
  ℕ, String, Bool, false, not, Option, none, some, List, all, ◌&&◌, str_eq, if◌then◌else◌,
}
use local_ai_broker.Prelude.Result.{ok, raise}
use local_ai_broker.Indexing.{Document, Store}
use local_ai_broker.Indexing.Sync.{
  Signatures, SyncManifest, is_changed, semantic_document_signatures, semantic_sync_plan, Ensured,
  ensure_semantic_index,
}

-- A file that is no JSON, one of another schema or shape, or a manifest.
pub data ManifestFile : Type 0 where
  unreadable other_schema : ManifestFile
  manifest_of : SyncManifest → ManifestFile

-- The file in the cache directory, and the one in the shared directory, where that is another one.
pub record ManifestFiles : Type 0 where
  pub has_shared_path : Bool
  pub local_file : Option ManifestFile
  pub shared_file : Option ManifestFile

-- `load_path`: the manifest, and the file, which is unlinked where it cannot be read.
unfoldable pub load_path : Option ManifestFile → Option SyncManifest × Option ManifestFile
load_path none = (none, none)
load_path (some unreadable) = (none, none)
load_path (some other_schema) = (none, some other_schema)
load_path (some (manifest_of m)) = (some m, some (manifest_of m))

unfoldable pub load_semantic_sync_manifest : ManifestFiles → Option SyncManifest × ManifestFiles
unfolding load_path
load_semantic_sync_manifest files =
    let first = load_path files.local_file in
    let second = load_path files.shared_file in
    let after = record files { local_file = first.1 } in
    elim first.0 [
      | some m ↦ (some m, after)
      | none ↦
          if files.has_shared_path
          then (second.0, record after { shared_file = second.1 })
          else (none, after)
    ]

-- `==` of two dictionaries
abbrev pub same_signatures : Signatures → Signatures → Bool
same_signatures a b = all (λ p. not (is_changed b p)) a && all (λ p. not (is_changed a p)) b

abbrev pub is_written : Option SyncManifest → SyncManifest → Bool
is_written none m = false
is_written (some previous) m =
    str_eq previous.fingerprint m.fingerprint && same_signatures previous.documents m.documents

unfoldable pub write_semantic_sync_manifest :
    Option SyncManifest → SyncManifest → ManifestFiles → ManifestFiles
write_semantic_sync_manifest previous m files =
    if is_written previous m
    then files
    else if files.has_shared_path
    then record files { shared_file = some (manifest_of m) }
    else record files { local_file = some (manifest_of m) }

pub record SyncRun : Type 0 where
  pub ensured : Ensured
  pub files : ManifestFiles

-- The manifest is written after a call that does not raise.
unfoldable pub sync_semantic_index :
    (Document → String) → String → ℕ → List Document → Store → ManifestFiles → SyncRun
unfolding load_semantic_sync_manifest write_semantic_sync_manifest
sync_semantic_index sign fingerprint batch_size chunks store files =
    let signatures = semantic_document_signatures sign chunks in
    let (previous, loaded) = load_semantic_sync_manifest files in
    let plan = semantic_sync_plan previous signatures fingerprint in
    let e = ensure_semantic_index fingerprint batch_size plan chunks store in
    record {
      ensured = e;
      files = elim e.cache_hit [
        | raise error ↦ loaded
        | ok hit ↦
            write_semantic_sync_manifest previous
              (record { fingerprint = fingerprint; documents = signatures }) loaded
      ];
    }
