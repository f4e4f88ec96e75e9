-- ===== src/Endpoint/Selected.antt =====
-- What `select_endpoint` returns.
use mathlib.Core.Path.{subst}
use local_ai_broker.Prelude.{
  ℕ, String, ◌≡◌, refl, sym, Bool, true, false, Option, none, some, List, [], ◌∷◌, arith, eq_iff,
  All, keep, sort_by, inl,
}
use local_ai_broker.Prelude.TextOrder.{
  str_lt_asymm, str_lt_neg_trans, str_lt_antisymm, Heads, sort_by-Heads, sort_by-eq-nil,
}
use local_ai_broker.Prelude.Membership.{In, In-keep, All-keep, keep-eq-nil, In-sort_by}
use local_ai_broker.Service.{Service}
use local_ai_broker.Endpoint.{is_candidate, sorts_before, first, select_endpoint}

sorts_before_asymm : (a b : Service) → sorts_before a b ≡ true → sorts_before b a ≡ false
unfolding sorts_before
sorts_before_asymm a b h = ground (
  arith,
  str_lt_asymm b.lease_expires_at.text a.lease_expires_at.text,
  str_lt_asymm b.id a.id,
  eq_iff a.lease_expires_at.text b.lease_expires_at.text,
  eq_iff b.lease_expires_at.text a.lease_expires_at.text,
  str_lt_asymm a.lease_expires_at.text a.lease_expires_at.text,
)

sorts_before_neg_trans :
    (a b c : Service)
    → sorts_before a b ≡ false
    → sorts_before b c ≡ false
    → sorts_before a c ≡ false
unfolding sorts_before
sorts_before_neg_trans a b c h k = ground (
  arith,
  str_lt_neg_trans c.lease_expires_at.text b.lease_expires_at.text a.lease_expires_at.text,
  str_lt_neg_trans c.id b.id a.id,
  str_lt_antisymm c.lease_expires_at.text b.lease_expires_at.text,
  str_lt_antisymm b.lease_expires_at.text a.lease_expires_at.text,
  eq_iff c.lease_expires_at.text a.lease_expires_at.text,
  eq_iff b.lease_expires_at.text a.lease_expires_at.text,
  eq_iff c.lease_expires_at.text b.lease_expires_at.text,
)

first-eq-none : {A : Type 0} (xs : List A) → first xs ≡ none → xs ≡ []
first-eq-none [] h = refl
first-eq-none (x ∷ xs) h = cc

module _ (now interval : ℕ) (services : List Service) (tier capability : String)
    (expected : Option ℕ) where
  abbrev pub passes : Service → Bool
  passes = is_candidate now interval tier capability expected

  pub record IsSelected (r : Service) : Type 0 where
    pub listed : In r services
    pub candidate : passes r ≡ true
    pub latest : All (λ s. passes s ≡ true → sorts_before s r ≡ false) services

  first-IsSelected :
      (sorted : List Service) (r : Service)
      → sorted ≡ sort_by sorts_before (keep passes services)
      → first sorted ≡ some r
      → IsSelected r
  first-IsSelected [] r e h = cc
  first-IsSelected (x ∷ xs) r e h =
      let same : x ≡ r = cc in
      let place =
        In-keep passes r services
          (In-sort_by sorts_before r (keep passes services) (subst (In r) e (inl (sym same)))) in
      record {
        listed = place.0;
        candidate = place.1;
        latest =
            All-keep passes (λ s. sorts_before s r ≡ false) services
              (subst (λ z. All (λ s. sorts_before s z ≡ false) (keep passes services)) same
                (subst
                  (λ l.
                    Heads sorts_before sorts_before_asymm sorts_before_neg_trans l
                      (keep passes services))
                  (sym e)
                  (sort_by-Heads sorts_before sorts_before_asymm sorts_before_neg_trans
                    (keep passes services))));
      }

  pub select_endpoint-IsSelected :
      ((r : Service)
        → select_endpoint now interval services tier capability expected ≡ some r
        → IsSelected r)
      × (select_endpoint now interval services tier capability expected ≡ none
          → All (λ s. passes s ≡ false) services)
  unfolding select_endpoint
  select_endpoint-IsSelected = (
    λ r h. first-IsSelected _ r refl h,
    λ h.
        keep-eq-nil passes services
          (sort_by-eq-nil sorts_before (keep passes services) (first-eq-none _ h)),
  )
