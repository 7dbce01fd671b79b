-- ===== src/Opportunity/Service/Known.antt =====
-- How the loop of assess_action answers once an opportunity is known.
use per.Prelude.{
  ◌+◌, ◌≤◌, ◌≡◌, refl, subst, inl, inr, Bool, true, false, List, [], ◌∷◌, ◌++◌, arith, ltb, leb,
  if◌then◌else◌, Bool-cases,
}
use per.Auction.Entities.{Time}
use per.Opportunity.Entities.{OpportunityCreateSvm, OpportunitySvm, get_key}
use per.Opportunity.Equality.{key_eq, opportunity_eq, is_same, compare, min_refresh_time}
use per.Opportunity.Equality.Laws.{opportunity_eq_refl, key_eq_refl}
use per.Opportunity.Repository.{
  Opportunities, get_in_memory_opportunities_by_key, push_opportunity, refresh, replace_first,
  refresh_entry,
}
use per.Opportunity.Service.{add_action, ignore_action, refresh_action, assess_loop}

-- Some opportunity is the same and was refreshed lately, and those before it are not the same.
unfoldable pub is_known : Time → OpportunityCreateSvm → List OpportunitySvm → Bool
is_known now create [] = false
is_known now create (o ∷ opps) =
    let rest = is_known now create opps in
    if is_same o create then leb now (o.refresh_time + min_refresh_time) else rest

pub known_ignored :
    (now : Time) (create : OpportunityCreateSvm) (opps : List OpportunitySvm)
    → is_known now create opps ≡ true
    → assess_loop now create opps ≡ ignore_action
unfolding assess_loop is_known compare
known_ignored now create [] h = absurd cc
known_ignored now create (o ∷ opps) h = elim (Bool-cases (is_same o create)) [
  | inl same ↦ ground arith
  | inr other ↦ ground (arith, known_ignored now create opps)
]

-- The opportunities that were there are all different from the new one when it is added.
pub added_known :
    (now later : Time) (create : OpportunityCreateSvm) (o : OpportunitySvm)
    (opps : List OpportunitySvm)
    → is_same o create ≡ true
    → later ≤ o.refresh_time + min_refresh_time
    → assess_loop now create opps ≡ add_action
    → is_known later create (opps ++ o ∷ []) ≡ true
unfolding assess_loop is_known compare
added_known now later create o [] same soon h = ground arith
added_known now later create o (p ∷ opps) same soon h = elim (Bool-cases (is_same p create)) [
  | inl known ↦ elim (Bool-cases (ltb (p.refresh_time + min_refresh_time) now)) [
    | inl old ↦ absurd (ground arith)
    | inr fresh ↦ absurd (ground arith)
  ]
  | inr other ↦ ground (arith, added_known now later create o opps same soon)
]

-- What is refreshed is the same as the new one.
pub refreshed-is_same :
    (now : Time) (create : OpportunityCreateSvm) (o : OpportunitySvm) (opps : List OpportunitySvm)
    → assess_loop now create opps ≡ refresh_action o
    → is_same o create ≡ true
unfolding assess_loop compare
refreshed-is_same now create o [] h = absurd cc
refreshed-is_same now create o (p ∷ opps) h = elim (Bool-cases (is_same p create)) [
  | inl known ↦ elim (Bool-cases (ltb (p.refresh_time + min_refresh_time) now)) [
    | inl old ↦ let it : p ≡ o = ground arith in subst (λ q. is_same q create ≡ true) it known
    | inr fresh ↦ absurd (ground arith)
  ]
  | inr other ↦ refreshed-is_same now create o opps (ground arith)
]

refresh-is_same :
    (now : Time) (create : OpportunityCreateSvm) (o : OpportunitySvm)
    → is_same o create ≡ true
    → is_same (refresh now o) create ≡ true
unfolding is_same refresh
refresh-is_same now create o h = h

head_known :
    (now later : Time) (create : OpportunityCreateSvm) (o : OpportunitySvm)
    (opps : List OpportunitySvm)
    → is_same o create ≡ true
    → later ≤ now + min_refresh_time
    → is_known later create (refresh now o ∷ opps) ≡ true
unfolding is_known refresh
head_known now later create o opps same soon =
    let still = refresh-is_same now create o same in ground arith

pub refreshed_known :
    (now later : Time) (create : OpportunityCreateSvm) (o : OpportunitySvm)
    (opps : List OpportunitySvm)
    → later ≤ now + min_refresh_time
    → assess_loop now create opps ≡ refresh_action o
    → is_known later create (replace_first o (refresh now o) opps) ≡ true
unfolding assess_loop compare replace_first is_known
refreshed_known now later create o [] soon h = absurd cc
refreshed_known now later create o (p ∷ opps) soon h = elim (Bool-cases (opportunity_eq p o)) [
  | inl found ↦
      rw found
        (head_known now later create o opps (refreshed-is_same now create o (p ∷ opps) h) soon)
  | inr not_it ↦ elim (Bool-cases (is_same p create)) [
    | inl known ↦ elim (Bool-cases (ltb (p.refresh_time + min_refresh_time) now)) [
      | inl old ↦
          let it : p ≡ o = ground arith in
          let same = subst (λ q. opportunity_eq p q ≡ true) it (opportunity_eq_refl p) in absurd cc
      | inr fresh ↦ absurd (ground arith)
    ]
    | inr other ↦
        let later_one = refreshed_known now later create o opps soon (ground arith) in
        rw (not_it) (rw (is_known, other) later_one)
  ]
]

pub push-known :
    (o : OpportunitySvm) (entries : Opportunities)
    → get_in_memory_opportunities_by_key (get_key o.create) (push_opportunity o entries)
      ≡ get_in_memory_opportunities_by_key (get_key o.create) entries ++ o ∷ []
unfolding get_in_memory_opportunities_by_key push_opportunity
push-known o [] = rw (key_eq_refl (get_key o.create)) refl
push-known o ((k, opps) ∷ entries) = elim (Bool-cases (key_eq k (get_key o.create))) [
  | inl here ↦ ground arith
  | inr there ↦ ground (arith, push-known o entries)
]

pub refresh-known :
    (now : Time) (o : OpportunitySvm) (entries : Opportunities)
    → get_in_memory_opportunities_by_key (get_key o.create) (refresh_entry now o entries)
      ≡ replace_first o
          (refresh now o)
          (get_in_memory_opportunities_by_key (get_key o.create) entries)
unfolding get_in_memory_opportunities_by_key refresh_entry replace_first
refresh-known now o [] = refl
refresh-known now o ((k, opps) ∷ entries) = elim (Bool-cases (key_eq k (get_key o.create))) [
  | inl here ↦ ground arith
  | inr there ↦ ground (arith, refresh-known now o entries)
]
