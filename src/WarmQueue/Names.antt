-- ===== src/WarmQueue/Names.antt =====
-- Which requests a pass of the daemon looks at.
use mathlib.Core.Path.{subst}
use local_ai_broker.Prelude.{
  String, true, false, none, some, List, [], ◌∷◌, ◌++◌, str_eq, contains, distinct, map, ◌≡◌, refl,
  sym, ap, ◌∙◌, ◌⊎◌, inl, inr, Bool-cases, Option-cases, arith, sort_by,
}
use local_ai_broker.Prelude.Distinct.{str_eq_comm, member-append}
use local_ai_broker.Prelude.Membership.{
  contains-In, In, In-sort_by, sort_by-In, In-append, In-append-left, In-append-right,
}
use local_ai_broker.Reduce.Dedupe.{first_of_key, first_of_key-skips, first_of_key-distinct}
use local_ai_broker.LogAnalysis.Aggregate.{itself}
use local_ai_broker.WarmQueue.{named_request, woken, unseen, iter_warm_request_paths, earlier_path}

-- The requests that messages name, in their order.
unfoldable pub named_stems : List String → List String
named_stems [] = []
named_stems (raw ∷ names) = elim (named_request raw) [
  | none ↦ named_stems names
  | some stem ↦ stem ∷ named_stems names
]

woken-unseen : (seen names : List String) → woken seen names ≡ unseen seen (named_stems names)
unfolding woken unseen named_stems
woken-unseen seen [] = refl
woken-unseen seen (raw ∷ names) = elim (Option-cases (named_request raw)) [
  | inl e ↦ rw (e, woken, named_stems) (woken-unseen seen names)
  | inr (stem, e) ↦
      rw (e, woken, named_stems)
        (ground (arith, woken-unseen seen names, woken-unseen (stem ∷ seen) names))
]

unseen-first :
    (seen stems : List String)
    → unseen seen stems ≡ map itself (first_of_key itself str_eq seen (map some stems))
unfolding unseen
unseen-first seen [] = refl
unseen-first seen (stem ∷ stems) =
    ground (arith, unseen-first seen stems, unseen-first (stem ∷ seen) stems)

unseen-distinct : (seen stems : List String) → distinct str_eq (unseen seen stems) ≡ true
unseen-distinct seen stems =
    rw (unseen-first seen stems)
      (first_of_key-distinct itself str_eq seen (map some stems) str_eq_comm)

unseen-skips :
    (x : String) (seen stems : List String) → In x seen → contains x (unseen seen stems) ≡ false
unseen-skips x seen stems place =
    rw (unseen-first seen stems)
      (first_of_key-skips itself str_eq x seen (map some stems) str_eq_comm place)

distinct-append :
    (xs ys : List String)
    → distinct str_eq xs ≡ true
    → distinct str_eq ys ≡ true
    → ((x : String) → In x xs → contains x ys ≡ false)
    → distinct str_eq (xs ++ ys) ≡ true
distinct-append [] ys d e apart = e
distinct-append (x ∷ xs) ys d e apart = ground (
  arith,
  member-append str_eq x xs ys,
  apart x (inl refl),
  distinct-append xs ys (ground arith) e (λ y place. apart y (inr place)),
)

pub unseen-In : (x : String) (seen stems : List String) → In x (unseen seen stems) → In x stems
unfolding unseen
unseen-In x seen [] place = place
unseen-In x seen (y ∷ ys) place = elim (Bool-cases (contains y seen)) [
  | inl old ↦ inr (unseen-In x seen ys (rw (old, unseen) at place))
  | inr new ↦ elim (rw (new, unseen) at place) [
    | inl e ↦ inl e
    | inr later ↦ inr (unseen-In x (y ∷ seen) ys later)
  ]
]

pub unseen-covers :
    (x : String) (seen stems : List String) → In x stems → In x seen ⊎ In x (unseen seen stems)
unfolding unseen
unseen-covers x seen [] place = absurd place
unseen-covers x seen (y ∷ ys) place = elim (Bool-cases (contains y seen)) [
  | inl old ↦
      rw (old, unseen)
        (elim place [
          | inl same ↦ inl (subst (λ z. In z seen) (sym same) (contains-In y seen old))
          | inr later ↦ unseen-covers x seen ys later
        ])
  | inr new ↦
      rw (new, unseen)
        (elim place [
          | inl same ↦ inr (inl same)
          | inr later ↦ elim (unseen-covers x (y ∷ seen) ys later) [
            | inl (inl same) ↦ inr (inl same)
            | inl (inr before) ↦ inl before
            | inr found ↦ inr (inr found)
          ]
        ])
]

-- A stem that a message of the list names.
abbrev pub IsNamed : String → List String → Type 0
IsNamed stem names = (raw : String) × In raw names × (named_request raw ≡ some stem)

named_stems-IsNamed :
    (stem : String) (names : List String) → In stem (named_stems names) → IsNamed stem names
unfolding named_stems
named_stems-IsNamed stem [] place = absurd place
named_stems-IsNamed stem (raw ∷ names) place = elim (Option-cases (named_request raw)) [
  | inl e ↦
      let (found, there, named) = named_stems-IsNamed stem names (rw (e, named_stems) at place) in
      (found, inr there, named)
  | inr (first, e) ↦ elim (rw (e, named_stems) at place) [
    | inl same ↦ (raw, inl refl, e ∙ ap some (sym same))
    | inr later ↦
        let (found, there, named) = named_stems-IsNamed stem names later in
        (found, inr there, named)
  ]
]

-- A pass looks at no request twice, at every one that is queued, and at no other than those that are queued
-- or that a message names.
pub iter_warm_request_paths-IsIteration :
    (names queued : List String)
    → (distinct str_eq (iter_warm_request_paths names queued) ≡ true)
      × ((stem : String) → In stem queued → In stem (iter_warm_request_paths names queued))
      × ((stem : String)
          → In stem (iter_warm_request_paths names queued)
          → In stem queued ⊎ IsNamed stem names)
unfolding iter_warm_request_paths
iter_warm_request_paths-IsIteration names queued =
    let order = earlier_path ".json" in
    let named = unseen [] (named_stems names) in
    let sorted = sort_by order queued in
    let rest = unseen named sorted in
    rw (woken-unseen [] names) (
      distinct-append named rest (unseen-distinct [] (named_stems names))
          (unseen-distinct named sorted) (λ x place. unseen-skips x named sorted place),
      λ stem place. elim (unseen-covers stem named sorted (sort_by-In order stem queued place)) [
        | inl before ↦ In-append-left stem named rest before
        | inr after ↦ In-append-right stem named rest after
      ],
      λ stem place. elim (In-append stem named rest place) [
        | inl before ↦
            inr (named_stems-IsNamed stem names (unseen-In stem [] (named_stems names) before))
        | inr after ↦ inl (In-sort_by order stem queued (unseen-In stem named sorted after))
      ],
    )
