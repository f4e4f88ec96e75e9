-- ===== src/Lexical/Unique.antt =====
-- `unique_preserving_order` holds each item once.
use local_ai_broker.Prelude.{
  String, true, not, List, [], ◌∷◌, ◌&&◌, str_eq, contains, distinct, ◌≡◌, refl, arith, inl, inr,
  Bool-cases, ap, eq_iff,
}
use local_ai_broker.Lexical.{unique_from, unique_preserving_order}

pub contains-unique_from :
    (x : String) (seen xs : List String)
    → contains x (unique_from seen xs) ≡ (contains x xs && not (contains x seen))
unfolding unique_from
contains-unique_from x seen [] = refl
contains-unique_from x seen (y ∷ ys) = elim (Bool-cases (str_eq x y)) [
  | inl same ↦
      let moved : contains x seen ≡ contains y seen =
        ap (λ s. contains s seen) ((eq_iff x y).0 same) in
      ground (arith, contains-unique_from x (y ∷ seen) ys, contains-unique_from x seen ys)
  | inr apart ↦ ground (arith, contains-unique_from x (y ∷ seen) ys, contains-unique_from x seen ys)
]

unique_from-distinct : (seen xs : List String) → distinct str_eq (unique_from seen xs) ≡ true
unfolding unique_from
unique_from-distinct seen [] = refl
unique_from-distinct seen (x ∷ xs) = ground (
  arith,
  contains-unique_from x (x ∷ seen) xs,
  (eq_iff x x).1 refl,
  unique_from-distinct (x ∷ seen) xs,
  unique_from-distinct seen xs,
)

pub unique_preserving_order-distinct :
    (xs : List String) → distinct str_eq (unique_preserving_order xs) ≡ true
unfolding unique_preserving_order
unique_preserving_order-distinct xs = unique_from-distinct [] xs

pub contains-unique_preserving_order :
    (x : String) (xs : List String) → contains x (unique_preserving_order xs) ≡ contains x xs
unfolding unique_preserving_order
contains-unique_preserving_order x xs = ground (arith, contains-unique_from x [] xs)
