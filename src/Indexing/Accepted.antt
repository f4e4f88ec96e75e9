-- ===== src/Indexing/Accepted.antt =====
-- Requests whose documents all have ids are accepted.
use local_ai_broker.Prelude.{
  String, Bool, true, some, none, List, [], ◌∷◌, ◌++◌, all, ◌≡◌, refl, ap, ◌∙◌, arith, All, keep,
  false,
}
use local_ai_broker.Prelude.Text.{is_empty}
use local_ai_broker.Indexing.{
  Document, Store, Upsert, set_index, opened, removed_from, put_into, has_id, Posted, index_upsert,
  upserts, post_all,
}
use local_ai_broker.Indexing.Batches.{concat}

-- The store after a request, and after requests, that are accepted.
unfoldable pub accept : String → Upsert → Store → Store
accept key u store = set_index key (put_into u (removed_from u (opened store key u))) store

unfoldable pub accept_all : String → List Upsert → Store → Store
accept_all key [] store = store
accept_all key (u ∷ us) store = accept_all key us (accept key u store)

index_upsert-accepts :
    (key : String) (u : Upsert) (store : Store)
    → all has_id u.documents ≡ true
    → index_upsert key u store ≡ record { error = none; store = accept key u store }
unfolding index_upsert accept
index_upsert-accepts key u store named = rw (named, index_upsert) refl

post_all-cons :
    (key : String) (u : Upsert) (us : List Upsert) (store : Store)
    → all has_id u.documents ≡ true
    → post_all key (u ∷ us) store ≡ post_all key us (accept key u store)
unfolding post_all
post_all-cons key u us store named =
    ap (λ (p : Posted). elim p.error [ some e ↦ p | none ↦ post_all key us p.store ])
      (index_upsert-accepts key u store named)

all-append-left : (ds es : List Document) → all has_id (ds ++ es) ≡ true → all has_id ds ≡ true
all-append-left [] es h = refl
all-append-left (d ∷ ds) es h = ground (arith, all-append-left ds es)

all-append-right : (ds es : List Document) → all has_id (ds ++ es) ≡ true → all has_id es ≡ true
all-append-right [] es h = h
all-append-right (d ∷ ds) es h = all-append-right ds es (ground arith)

pub post_all-accepts :
    (key : String) (is_first : Bool) (base : String) (removed : List String)
    (bs : List (List Document)) (store : Store)
    → all has_id (concat bs) ≡ true
    → post_all key (upserts is_first base removed bs) store
      ≡ record { error = none; store = accept_all key (upserts is_first base removed bs) store }
unfolding post_all upserts accept_all
post_all-accepts key is_first base removed [] store named = refl
post_all-accepts key is_first base removed (b ∷ bs) store named =
    post_all-cons key _ (upserts false base removed bs) store (all-append-left b (concat bs) named)
    ∙ (post_all-accepts key false base removed bs _ (all-append-right b (concat bs) named))

pub All-has_id :
    (ds : List Document) → All (λ (d : Document). is_empty d.id ≡ false) ds → all has_id ds ≡ true
All-has_id [] h = refl
All-has_id (d ∷ ds) h = ground (arith, All-has_id ds h.1, h.0)

pub keep-has_id :
    (p : Document → Bool) (ds : List Document)
    → all has_id ds ≡ true
    → all has_id (keep p ds) ≡ true
keep-has_id p [] h = refl
keep-has_id p (d ∷ ds) h = ground (arith, keep-has_id p ds)
