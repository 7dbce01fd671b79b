-- ===== src/Opportunity/Service/Staleness.antt =====
-- Which opportunities are equal to a stale one of a list.
use per.Prelude.{
  ◌≡◌, refl, ap, inl, inr, Bool, true, false, ◌&&◌, ◌||◌, List, [], ◌∷◌, ◌++◌, arith, not,
  Bool-cases, keep, any, All, ok,
}
use per.Auction.Entities.{Time}
use per.Opportunity.Entities.{OpportunityId, OpportunityKey, OpportunitySvm}
use per.Opportunity.Equality.{opportunity_eq, key_eq}
use per.Opportunity.Equality.Laws.{
  opportunity_eq_refl, opportunity_eq_refresh_time, opportunity_eq_id, eq_of,
}
use per.Opportunity.Repository.{Opportunities, get_in_memory_opportunities_by_key}
use per.Verification.Checks.{All-map}
use per.Opportunity.Service.{OpportunityService, get_config, is_stale, all_opportunities}
use per.Verification.Checks.{All-map}

module _ {ℓ} {A : Type ℓ} where
  pub keep_fuse :
      (p q r : A → Bool)
      → ((x : A) → r x ≡ q x && p x)
      → (xs : List A) → keep p (keep q xs) ≡ keep r xs
  keep_fuse p q r same [] = refl
  keep_fuse p q r same (x ∷ xs) =
      let here = same x in
      let later = keep_fuse p q r same xs in
      elim (Bool-cases (q x)) [ inl passes ↦ ground arith | inr fails ↦ ground arith ]

  pub keep_all : (p : A → Bool) → ((x : A) → p x ≡ true) → (xs : List A) → keep p xs ≡ xs
  keep_all p same [] = refl
  keep_all p same (x ∷ xs) = rw (keep, same x) (ap (◌∷◌ x) (keep_all p same xs))

  -- Tests that agree on the elements of a list keep the same of them.
  pub keep_agree : (p q : A → Bool) (xs : List A) → All (λ x. p x ≡ q x) xs → keep p xs ≡ keep q xs
  keep_agree p q [] h = refl
  keep_agree p q (x ∷ xs) h = let here = h.0 in let later = keep_agree p q xs h.1 in ground arith

-- A stale opportunity of the list is equal to this one.
unfoldable pub stale_in : (OpportunityId → Time) → List OpportunitySvm → OpportunitySvm → Bool
stale_in now [] p = false
stale_in now (o ∷ opps) p = (is_stale (now o.id) o && opportunity_eq p o) || stale_in now opps p

abbrev pub Served : OpportunityService → OpportunitySvm → Type 0
Served s o = get_config o.create.chain_id s ≡ ok tt

-- An opportunity of a list is equal to a stale one of it exactly when it is stale itself.
fresh_out :
    (now : OpportunityId → Time) (opps : List OpportunitySvm) (p : OpportunitySvm)
    → is_stale (now p.id) p ≡ false
    → stale_in now opps p ≡ false
unfolding stale_in is_stale
fresh_out now [] p fresh = refl
fresh_out now (o ∷ opps) p fresh = elim (Bool-cases (opportunity_eq p o)) [
  | inl same ↦
      let times = opportunity_eq_refresh_time p o same in
      let ids = eq_of p.id o.id (opportunity_eq_id p o same) in
      ground (arith, fresh_out now opps p fresh)
  | inr other ↦ ground (arith, fresh_out now opps p fresh)
]

unfoldable is_in : List OpportunitySvm → OpportunitySvm → Bool
is_in opps p = any (opportunity_eq p) opps

stale_out :
    (now : OpportunityId → Time) (opps : List OpportunitySvm) (p : OpportunitySvm)
    → is_stale (now p.id) p ≡ true
    → is_in opps p ≡ true
    → stale_in now opps p ≡ true
unfolding stale_in is_in is_stale
stale_out now [] p stale here = cc
stale_out now (o ∷ opps) p stale here = elim (Bool-cases (opportunity_eq p o)) [
  | inl same ↦
      let times = opportunity_eq_refresh_time p o same in
      let ids = eq_of p.id o.id (opportunity_eq_id p o same) in ground arith
  | inr other ↦ ground (arith, stale_out now opps p stale)
]

pub In : List OpportunitySvm → OpportunitySvm → Type 0
In opps p = is_in opps p ≡ true

or_true : (b : Bool) → b || true ≡ true
or_true true = refl
or_true false = refl

In-later :
    (o : OpportunitySvm) (opps : List OpportunitySvm) (p : OpportunitySvm)
    → In opps p
    → In (o ∷ opps) p
unfolding In is_in
In-later o opps p h = rw h (or_true (opportunity_eq p o))

All-In : (opps : List OpportunitySvm) → All (In opps) opps
unfolding In is_in
All-In [] = tt
All-In (o ∷ opps) = (rw (opportunity_eq_refl o) refl, All-map (In-later o opps) opps (All-In opps))

In-append :
    (before after : List OpportunitySvm) (p : OpportunitySvm) → In after p → In (before ++ after) p
In-append [] after p h = h
In-append (o ∷ before) after p h = In-later o (before ++ after) p (In-append before after p h)

In-front :
    (before after : List OpportunitySvm) (p : OpportunitySvm) → In before p → In (before ++ after) p
unfolding In is_in
In-front [] after p h = absurd cc
In-front (o ∷ before) after p h = elim (Bool-cases (opportunity_eq p o)) [
  | inl same ↦ rw same refl
  | inr other ↦ ground (arith, In-front before after p)
]

-- The opportunities of a key are in the copy that the sweep runs over.
pub copied :
    (key : OpportunityKey) (entries : Opportunities)
    → All (In (all_opportunities entries)) (get_in_memory_opportunities_by_key key entries)
unfolding get_in_memory_opportunities_by_key
copied key [] = tt
copied key ((k, opps) ∷ entries) = elim (Bool-cases (key_eq k key)) [
  | inl here ↦
      rw (get_in_memory_opportunities_by_key, here)
        (All-map (In-front opps (all_opportunities entries)) opps (All-In opps))
  | inr there ↦
      rw (get_in_memory_opportunities_by_key, there)
        (All-map (In-append opps (all_opportunities entries)) _ (copied key entries))
]

pub agrees :
    (now : OpportunityId → Time) (opps : List OpportunitySvm) (p : OpportunitySvm)
    → In opps p
    → not (stale_in now opps p) ≡ not (is_stale (now p.id) p)
unfolding In
agrees now opps p here = elim (Bool-cases (is_stale (now p.id) p)) [
  | inl stale ↦ rw (stale, stale_out now opps p stale here) refl
  | inr fresh ↦ rw (fresh, fresh_out now opps p fresh) refl
]
