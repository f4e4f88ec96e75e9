-- ===== src/Indexing/Rewritten.antt =====
-- The manifest that is found after one was loaded and one was written.
use mathlib.Core.Bool.{false≢true}
use mathlib.Core.Option.{none-ne-some}
use local_ai_broker.Prelude.{
  String, Bool, true, false, not, Option, none, some, List, [], ◌∷◌, all, str_eq, eq_iff,
  if◌then◌else◌, ◌≡◌, refl, sym, ◌∙◌, ap, arith, inl, inr, Bool-cases, Option-cases,
}
use local_ai_broker.Indexing.{Document}
use local_ai_broker.Indexing.Sync.{Signatures, SyncManifest, signature_in, differs, is_changed}
use local_ai_broker.Indexing.Manifest.{
  ManifestFile, unreadable, other_schema, manifest_of, ManifestFiles, load_path,
  load_semantic_sync_manifest, same_signatures, is_written, write_semantic_sync_manifest,
}
use local_ai_broker.Indexing.Described.{AreSigned}

differs-false : (o : Option String) (s : String) → differs o s ≡ false → o ≡ some s
differs-false none s h = absurd (false≢true (sym h))
differs-false (some t) s h = ap some ((eq_iff t s).0 (ground arith))

signature_in-unchanged :
    (id : String) (a b : Signatures) (s : String)
    → all (λ p. not (is_changed b p)) a ≡ true
    → signature_in id a ≡ some s
    → signature_in id b ≡ some s
unfolding signature_in
signature_in-unchanged id [] b s h g = absurd (none-ne-some s g)
signature_in-unchanged id (p ∷ ps) b s h g = elim (Bool-cases (str_eq p.0 id)) [
  | inl same ↦
      let kept : differs (signature_in id b) p.1 ≡ false =
        ap (λ i. differs (signature_in i b) p.1) (sym ((eq_iff p.0 id).0 same)) ∙ ground arith in
      differs-false (signature_in id b) p.1 kept ∙ rw same at g
  | inr apart ↦ signature_in-unchanged id ps b s (ground arith) (rw apart at g)
]

-- Equal dictionaries answer alike.
same_signatures_eq :
    (a b : Signatures) (id : String)
    → same_signatures a b ≡ true
    → signature_in id a ≡ signature_in id b
same_signatures_eq a b id h = elim (Option-cases (signature_in id a)) [
  | inr (s, there) ↦ there ∙ sym (signature_in-unchanged id a b s (ground arith) there)
  | inl gone ↦ elim (Option-cases (signature_in id b)) [
    | inl gone_too ↦ gone ∙ sym gone_too
    | inr (s, there) ↦ signature_in-unchanged id b a s (ground arith) there ∙ sym there
  ]
]

pub AreSigned-same :
    (sign : Document → String) (a b : Signatures) (documents : List Document)
    → same_signatures a b ≡ true
    → AreSigned sign b documents
    → AreSigned sign a documents
AreSigned-same sign a b documents h (d, each, nameless) =
    (d, λ id. same_signatures_eq a b id h ∙ each id, same_signatures_eq a b "" h ∙ nameless)

-- The manifest that is found after `files` were loaded, and `m` was written.
abbrev pub next_manifest : SyncManifest → ManifestFiles → Option SyncManifest
next_manifest m files =
    (load_semantic_sync_manifest (
      write_semantic_sync_manifest (load_semantic_sync_manifest files).0 m
        (load_semantic_sync_manifest files).1)).0

abbrev pub files_of : Bool → Option ManifestFile → Option ManifestFile → ManifestFiles
files_of has_shared_path local_file shared_file = record {
  has_shared_path = has_shared_path;
  local_file = local_file;
  shared_file = shared_file;
}

write-current :
    (previous : Option SyncManifest) (m : SyncManifest) (files : ManifestFiles)
    → is_written previous m ≡ true
    → write_semantic_sync_manifest previous m files ≡ files
unfolding write_semantic_sync_manifest
write-current previous m files h = rw (h, write_semantic_sync_manifest) refl

write-new :
    (previous : Option SyncManifest) (m : SyncManifest)
    (local_file shared_file : Option ManifestFile)
    → is_written previous m ≡ false
    → write_semantic_sync_manifest previous m (files_of false local_file shared_file)
      ≡ files_of false (some (manifest_of m)) shared_file
unfolding write_semantic_sync_manifest
write-new previous m local_file shared_file h = rw (h, write_semantic_sync_manifest) refl

-- Without a shared path it is the manifest that was written, or the earlier one where it is the same.
pub load-write :
    (m : SyncManifest) (local_file shared_file : Option ManifestFile)
    → next_manifest m (files_of false local_file shared_file)
      ≡ (if is_written (load_path local_file).0 m then (load_path local_file).0 else some m)
unfolding load_semantic_sync_manifest write_semantic_sync_manifest load_path
load-write m none shared = refl
load-write m (some unreadable) shared = refl
load-write m (some other_schema) shared = refl
load-write m (some (manifest_of p)) shared = elim (Bool-cases (is_written (some p) m)) [
  | inl same ↦
      ap (λ f. (load_semantic_sync_manifest f).0) (write-current (some p) m _ same) ∙ rw same refl
  | inr new ↦
      ap (λ f. (load_semantic_sync_manifest f).0) (write-new (some p) m _ shared new) ∙ rw new refl
]
