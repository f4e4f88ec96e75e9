-- ===== src/Indexing/Described.antt =====
-- What a call with a plan leaves, after an upload of all documents and after an update of a base.
use mathlib.Core.Option
use mathlib.Core.Bool.{false≢true}
use mathlib.Core.Option.{none-ne-some, some-injective}
use mathlib.Core.Path.{subst}
use local_ai_broker.Prelude.{
  ℕ, ◌≤◌, String, true, false, Option, none, some, List, [], ◌==◌, length, map, All, ◌≡◌, refl, sym,
  ◌∙◌, ap, arith, distinct, inl, inr, ◌⊎◌, Option-cases,
}
use local_ai_broker.Prelude.Result.{ok, raise}
use local_ai_broker.Prelude.Text.{is_empty}
use local_ai_broker.Indexing.{
  Document, IndexError, document_too_large, no_chunks, bad_batch_size, Store, base_of, index_status,
}
use local_ai_broker.Indexing.Sync.{
  has, Signatures, SyncManifest, signed, signature_in, semantic_document_signatures,
  select_changed_chunks, upload, Ensured, finalized,
}
use local_ai_broker.Indexing.Upload.{same_id, index_of, put_documents-new}
use local_ai_broker.Indexing.Updates.{left_of}
use local_ai_broker.Indexing.Ensure.{IsEnsured, found, uploaded, refused, upload-IsEnsured}
use local_ai_broker.Indexing.Lookup.{
  find_document, is_held, is_held-find, distinct-length, keep-distinct, put_documents-distinct,
}
use local_ai_broker.Indexing.Changes.{signature_in-signed}
use local_ai_broker.Indexing.Merged.{
  changed_ids, removed_ids, merged, merged-sign, find_document-id, find_document-All,
}

eq_refl : (n : ℕ) → (n == n) ≡ true
eq_refl n = ground arith

-- The documents of a list have the signatures that are given.
abbrev pub AreSigned : (Document → String) → Signatures → List Document → Type 0
AreSigned sign signatures documents =
    (distinct same_id documents ≡ true)
    × ((id : String) → signature_in id signatures ≡ Option.map sign (find_document id documents))
    × (signature_in "" signatures ≡ none)

-- The service does not have the index of the manifest ready, or its documents are those of the manifest.
abbrev pub IsDescribed : (Document → String) → SyncManifest → Store → Type 0
IsDescribed sign manifest store =
    ((base_of store manifest.fingerprint).1 ≡ false)
    ⊎ AreSigned sign manifest.documents (base_of store manifest.fingerprint).0

-- What a call with a plan leaves: an index that was ready, or one with the same contents under the same ids
-- as the documents, which the new manifest describes, or one of three errors.
pub data IsSynced (sign : Document → String) (key : String) (documents : List Document)
    : Ensured → Type 0 where
  was_ready :
      (e : Ensured)
      → e.cache_hit ≡ ok true
      → index_status key (length documents) e.store ≡ true
      → IsSynced sign key documents e
  synced :
      (e : Ensured) (stored : List Document)
      → e.cache_hit ≡ ok false
      → e.store key ≡ some (index_of true stored)
      → length stored ≡ length documents
      → ((id : String)
          → Option.map (λ (d : Document). d.content) (find_document id stored)
            ≡ Option.map (λ (d : Document). d.content) (find_document id documents))
      → AreSigned sign (semantic_document_signatures sign documents) stored
      → IsSynced sign key documents e
  failed :
      (e : Ensured) (error : IndexError)
      → e.cache_hit ≡ raise error
      → (error ≡ document_too_large) ⊎ ((error ≡ no_chunks) ⊎ (error ≡ bad_batch_size))
      → IsSynced sign key documents e

module _ (sign : Document → String)
    (decides : (a b : Document) → sign a ≡ sign b → a.content ≡ b.content) (key : String)
    (documents : List Document) (d : distinct same_id documents ≡ true)
    (full : All (λ (x : Document). is_empty x.id ≡ false) documents) where
  pub signatures_eq : semantic_document_signatures sign documents ≡ map (signed sign) documents
  signatures_eq = ap (map (signed sign)) (put_documents-new documents [] d)

  same_content :
      (a b : Option Document)
      → Option.map sign a ≡ Option.map sign b
      → Option.map (λ (x : Document). x.content) a ≡ Option.map (λ (x : Document). x.content) b
  same_content none none h = refl
  same_content none (some b) h = absurd (none-ne-some (sign b) h)
  same_content (some a) none h = absurd (none-ne-some (sign a) (sym h))
  same_content (some a) (some b) h = ap some (decides a b (some-injective (sign a) (sign b) h))

  signed-same :
      (stored : List Document)
      → distinct same_id stored ≡ true
      → ((id : String)
          → Option.map sign (find_document id stored)
            ≡ Option.map sign (find_document id documents))
      → AreSigned sign (semantic_document_signatures sign documents) stored
  signed-same stored ds same = (
    ds,
    λ id.
        ap (signature_in id) signatures_eq ∙ signature_in-signed sign id documents ∙ sym (same id),
    ap (signature_in "") signatures_eq
        ∙ signature_in-signed sign "" documents
        ∙ ap (Option.map sign) (elim (Option-cases (find_document "" documents)) [
          | inl gone ↦ gone
          | inr (x, there) ↦
              let named_empty =
                subst (λ i. is_empty i ≡ false) (find_document-id "" documents x there)
                  (find_document-All (λ y. is_empty y.id ≡ false) "" documents x full there) in
              absurd (false≢true (sym named_empty))
        ]),
  )

  answers :
      (o : Option Document) → (elim o [ none ↦ false | some x ↦ true ]) ≡ has (Option.map sign o)
  answers none = refl
  answers (some x) = refl

  empty_name : (id : String) → is_empty id ≡ true → id ≡ ""
  empty_name String.[] h = refl
  empty_name (String.◌∷◌ c s) h = absurd (false≢true h)

  held-same :
      (xs ys : List Document)
      → ((id : String)
          → Option.map sign (find_document id xs) ≡ Option.map sign (find_document id ys))
      → (id : String) → is_held id xs ≡ true
      → is_held id ys ≡ true
  held-same xs ys same id h =
      sym (
        is_held-find id xs
        ∙ answers (find_document id xs)
        ∙ ap has (same id)
        ∙ sym (answers (find_document id ys))
        ∙ sym (is_held-find id ys))
      ∙ h

  pub whole-IsSynced :
      (e : Ensured) (store : Store)
      → IsEnsured key documents store e
      → IsSynced sign key documents e
  whole-IsSynced _ store (found e hit same ready) = was_ready e hit ready
  whole-IsSynced _ store (uploaded e hit held ready) =
      synced e documents hit held refl (λ id. refl) (signed-same documents d (λ id. refl))
  whole-IsSynced _ store (refused e error hit cause same) = failed e error hit cause

  -- The second upload is whole, and the first where the plan is none.
  pub upload-whole :
      (batch_size : ℕ) (store : Store)
      → 1 ≤ batch_size
      → 1 ≤ length documents
      → IsSynced sign key documents
          (finalized key (length documents) (upload key batch_size "" [] documents store))
  upload-whole n store m l =
      whole-IsSynced _ store (upload-IsEnsured key n documents store m l d full)

  -- The update over a base whose documents are those of the manifest.
  pub update-IsSynced :
      (previous : Signatures) (old : List Document) (store : Store)
      → AreSigned sign previous old
      → store key ≡ some (index_of true (merged sign previous documents old))
      → IsSynced sign key documents
          (finalized key (length documents) (record { base_reused = ok true; store = store }))
  unfolding finalized index_status
  update-IsSynced previous old store (od, same, nameless) held =
      let after = merged sign previous documents old in
      let signs : (id : String)
          → Option.map sign (find_document id after)
            ≡ Option.map sign (find_document id documents) =
        λ id.
          merged-sign sign previous documents old id d full same
            (λ i empty. ap (λ j. signature_in j previous) (empty_name i empty) ∙ nameless) in
      let apart : distinct same_id after ≡ true =
        put_documents-distinct
          (select_changed_chunks documents (changed_ids sign previous documents))
          (left_of (removed_ids sign previous documents) old) (keep-distinct _ old od) in
      let as_many : length after ≡ length documents = omega (
        arith,
        distinct-length after documents apart (held-same after documents signs),
        distinct-length documents after d (held-same documents after (λ id. sym (signs id))),
      ) in
      let ready : index_status key (length documents) store ≡ true =
        rw (held, index_status)
          (ap (λ n. n == length documents) as_many ∙ eq_refl (length documents)) in
      synced _ after (rw ready refl) held as_many
        (λ id. same_content (find_document id after) (find_document id documents) (signs id))
        (signed-same after apart signs)
