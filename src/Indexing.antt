-- ===== src/Indexing.antt =====
-- The semantic index: the batches and requests of `ensure_semantic_index` of
-- workers/rag-compression/gpu_client.py, and `index_upsert` and `index_status` of
-- workers/gpu-service/main.py, which keep it. The persistent cache of the service, its search state and its
-- vector cache are left out: an index is what the memory of the service holds, and a document stands with
-- the content that its vector is made of.
pub mod Batches
pub mod Sync
pub mod Accepted
pub mod Upload
pub mod Ensure
pub mod Lookup
pub mod Changes
pub mod Updates
pub mod Merged
pub mod Described
pub mod Synced
pub mod Manifest
pub mod Rewritten
pub mod Known
use local_ai_broker.Prelude.{
  ℕ, zero, suc, ◌+◌, String, Bool, true, false, not, Option, none, some, List, [], ◌∷◌, ◌++◌, map,
  all, str_eq, ltb, leb, ◌==◌, if◌then◌else◌, ◌&&◌, ◌||◌, length, keep, contains,
}
use local_ai_broker.Prelude.Result.{Result, ok, raise}
use local_ai_broker.Prelude.Text.{is_empty}

-- A document with the length of its JSON text.
pub record Document : Type 0 where
  pub id : String
  pub content : String
  pub bytes : ℕ

pub data IndexError : Type 0 where
  document_too_large no_chunks bad_batch_size not_finalized no_document_id : IndexError

abbrev pub max_index_batch_bytes : ℕ
max_index_batch_bytes = 8388608

-- The loop of `upload` that forms the batches, from the batches, the open batch and its bytes.
unfoldable pub batch_loop :
    ℕ
    → List Document
    → List (List Document)
    → List Document
    → ℕ
    → Result IndexError (List (List Document) × List Document)
batch_loop batch_size [] batches batch batch_bytes = ok (batches, batch)
batch_loop batch_size (d ∷ ds) batches batch batch_bytes =
    let closed = batch_loop batch_size ds (batches ++ batch ∷ []) (d ∷ []) d.bytes in
    let extended = batch_loop batch_size ds batches (batch ++ d ∷ []) (batch_bytes + d.bytes) in
    if ltb max_index_batch_bytes d.bytes
    then raise document_too_large
    else if ltb 0 (length batch)
        && (leb batch_size (length batch) || ltb max_index_batch_bytes (batch_bytes + d.bytes))
    then closed
    else extended

-- With `if batch or removed_ids or base_fingerprint`, whose last two hold together here as `is_update`.
unfoldable pub form_batches : ℕ → Bool → List Document → Result IndexError (List (List Document))
unfolding batch_loop
form_batches batch_size is_update documents = elim (batch_loop batch_size documents [] [] 0) [
  | raise e ↦ raise e
  | ok (batches, batch) ↦
      ok (if ltb 0 (length batch) || is_update then batches ++ batch ∷ [] else batches)
]

-- An index of the service.
pub record Index : Type 0 where
  pub ready : Bool
  pub documents : List Document

-- The body of one request.
pub record Upsert : Type 0 where
  pub replace : Bool
  pub finalize : Bool
  pub base_index_fingerprint : String
  pub removed_document_ids : List String
  pub documents : List Document

-- The indexes of one model profile, by their fingerprints.
abbrev pub Store : Type 0
Store = String → Option Index

abbrev pub set_index : String → Index → Store → Store
set_index key index store = λ k. if str_eq k key then some index else store k

-- `by_id[item["id"]] = item`: in the place of the document with that id, or at the end.
unfoldable pub put_document : Document → List Document → List Document
put_document d [] = d ∷ []
put_document d (x ∷ xs) =
    let rest = put_document d xs in if str_eq x.id d.id then d ∷ xs else x ∷ rest

unfoldable pub put_documents : List Document → List Document → List Document
put_documents [] stored = stored
put_documents (d ∷ ds) stored = put_documents ds (put_document d stored)

-- The documents of the base, where it is there and ready, and whether they are used.
unfoldable pub base_of : Store → String → List Document × Bool
base_of store base_fingerprint =
    if is_empty base_fingerprint then ([], false) else elim (store base_fingerprint) [
      | none ↦ ([], false)
      | some base ↦ if base.ready then (base.documents, true) else ([], false)
    ]

-- The record before the documents of the request, `replace` or not.
unfoldable pub opened : Store → String → Upsert → Index
unfolding base_of
opened store key u =
    if u.replace
    then record { ready = false; documents = (base_of store u.base_index_fingerprint).0 }
    else elim (store key) [ none ↦ record { ready = false; documents = [] } | some index ↦ index ]

-- The record after the removal of documents, and after the documents of a request were put too.
abbrev pub removed_from : Upsert → Index → Index
removed_from u index = record index {
  documents = keep (λ d. not (contains d.id u.removed_document_ids)) index.documents;
}

unfoldable pub put_into : Upsert → Index → Index
unfolding put_documents
put_into u index = record {
  ready = u.finalize || index.ready;
  documents = put_documents u.documents index.documents;
}

-- `_document_text`, which raises a ValueError where a document has no id.
abbrev pub has_id : Document → Bool
has_id d = not (is_empty d.id)

-- What a request leaves: an error, and the store.
pub record Posted : Type 0 where
  pub error : Option IndexError
  pub store : Store

-- A request with a document that has no id raises after the record was opened and documents were removed.
unfoldable pub index_upsert : String → Upsert → Store → Posted
unfolding opened put_into
index_upsert key u store =
    let index = removed_from u (opened store key u) in
    if all has_id u.documents
    then record { error = none; store = set_index key (put_into u index) store }
    else record { error = some no_document_id; store = set_index key index store }

-- Whether the index is ready with that many documents.
unfoldable pub index_status : String → ℕ → Store → Bool
index_status key document_count store = elim (store key) [
  | none ↦ false
  | some index ↦ index.ready && length index.documents == document_count
]

-- The requests of an upload, in order: the first replaces and carries the base, the last finalizes.
unfoldable pub upserts : Bool → String → List String → List (List Document) → List Upsert
upserts is_first base removed [] = []
upserts is_first base removed (b ∷ bs) =
    record {
      replace = is_first;
      finalize = length bs == 0;
      base_index_fingerprint = if is_first then base else "";
      removed_document_ids = if is_first then removed else [];
      documents = b;
    }
    ∷ upserts false base removed bs

-- The requests up to the first that raises.
unfoldable pub post_all : String → List Upsert → Store → Posted
post_all key [] store = record { error = none; store = store }
post_all key (u ∷ us) store =
    let first = index_upsert key u store in
    let rest = post_all key us first.store in elim first.error [ some e ↦ first | none ↦ rest ]
