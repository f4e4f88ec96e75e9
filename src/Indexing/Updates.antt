-- ===== src/Indexing/Updates.antt =====
-- What the requests of an update leave in the service, where it accepts them.
use mathlib.Core.List.{append-nil}
use local_ai_broker.Prelude.{
  ◌≤◌, String, true, false, not, some, List, [], ◌∷◌, ◌++◌, ◌||◌, ◌==◌, length, keep, contains, ◌≡◌,
  refl, sym, ◌∙◌, ap, arith,
}
use local_ai_broker.Prelude.Distinct.{str_eq_refl}
use local_ai_broker.Indexing.{
  Document, Store, Upsert, put_document, put_documents, base_of, opened, upserts, put_into,
}
use local_ai_broker.Indexing.Accepted.{accept, accept_all}
use local_ai_broker.Indexing.Batches.{concat}
use local_ai_broker.Indexing.Upload.{index_of, keep-nothing_removed, opened-kept}

put_documents-append :
    (ds es stored : List Document)
    → put_documents (ds ++ es) stored ≡ put_documents es (put_documents ds stored)
unfolding put_documents
put_documents-append [] es stored = refl
put_documents-append (d ∷ ds) es stored = put_documents-append ds es (put_document d stored)

abbrev pub left_of : List String → List Document → List Document
left_of removed stored = keep (λ d. not (contains d.id removed)) stored

accept-puts :
    (key : String) (u : Upsert) (store : Store) (stored : List Document)
    → opened store key u ≡ index_of false stored
    → accept key u store key
      ≡ some (
          index_of
            (u.finalize || false)
            (put_documents u.documents (left_of u.removed_document_ids stored)))
unfolding accept put_into
accept-puts key u store stored o = rw (str_eq_refl key, o, accept, put_into) refl

-- The requests after the first.
accept_all-puts :
    (key base : String) (removed : List String) (bs : List (List Document)) (store : Store)
    (stored : List Document)
    → 1 ≤ length bs
    → store key ≡ some (index_of false stored)
    → accept_all key (upserts false base removed bs) store key
      ≡ some (index_of true (put_documents (concat bs) stored))
unfolding accept_all upserts
accept_all-puts key base removed [] store stored n h = absurd (omega arith)
accept_all-puts key base removed (b ∷ []) store stored n h =
    accept-puts key _ store stored (opened-kept key _ store _ refl h)
    ∙ ap (λ l. some (index_of true (put_documents b l))) (keep-nothing_removed stored)
    ∙ ap (λ l. some (index_of true (put_documents l stored))) (sym (append-nil b))
accept_all-puts key base removed (b ∷ c ∷ bs) store stored n h =
    let open_still : (length (c ∷ bs) == 0 || false) ≡ false = ground arith in
    let next =
      accept-puts key _ store stored (opened-kept key _ store _ refl h)
      ∙ ap (λ l. some (index_of (length (c ∷ bs) == 0 || false) (put_documents b l)))
          (keep-nothing_removed stored)
      ∙ ap (λ r. some (index_of r (put_documents b stored))) open_still in
    accept_all-puts key base removed (c ∷ bs) _ (put_documents b stored) (omega arith) next
    ∙ ap (λ l. some (index_of true l)) (sym (put_documents-append b (concat (c ∷ bs)) stored))

opened-base :
    (key : String) (u : Upsert) (store : Store) (old : List Document)
    → u.replace ≡ true
    → base_of store u.base_index_fingerprint ≡ (old, true)
    → opened store key u ≡ index_of false old
unfolding opened
opened-base key u store old r h = rw (r, h, opened) refl

-- An update over a base that is ready.
pub upserts-update :
    (key base : String) (removed : List String) (batches : List (List Document)) (store : Store)
    (old : List Document)
    → 1 ≤ length batches
    → base_of store base ≡ (old, true)
    → accept_all key (upserts true base removed batches) store key
      ≡ some (index_of true (put_documents (concat batches) (left_of removed old)))
unfolding accept_all upserts
upserts-update key base removed [] store old n h = absurd (omega arith)
upserts-update key base removed (b ∷ []) store old n h =
    accept-puts key _ store old (opened-base key _ store old refl h)
    ∙ ap (λ l. some (index_of true (put_documents l (left_of removed old)))) (sym (append-nil b))
upserts-update key base removed (b ∷ c ∷ bs) store old n h =
    let open_still : (length (c ∷ bs) == 0 || false) ≡ false = ground arith in
    let next =
      accept-puts key _ store old (opened-base key _ store old refl h)
      ∙ ap (λ r. some (index_of r (put_documents b (left_of removed old)))) open_still in
    accept_all-puts key base removed (c ∷ bs) _ (put_documents b (left_of removed old))
      (omega arith) next
    ∙ ap (λ l. some (index_of true l))
        (sym (put_documents-append b (concat (c ∷ bs)) (left_of removed old)))
