-- ===== src/Opportunity/Service/Duplicates.antt =====
-- An opportunity that was just added or refreshed is refused as a duplicate.
use per.Prelude.{
  ◌+◌, ◌≤◌, ◌≡◌, refl, sym, subst, inl, inr, Bool, true, false, List, arith, ◌==◌, not, Bool-cases,
  any, ok, err, fail_if, Result-cases,
}
use per.Auction.Entities.{Time}
use per.Auction.Errors.{RestError, bad_parameters, chain_not_found, duplicate_opportunity}
use per.Opportunity.Entities.{
  ChainId, OpportunityCreateSvm, OpportunitySvm, get_key, new_with_current_time,
}
use per.Opportunity.Equality.{min_refresh_time}
use per.Opportunity.Equality.Laws.{is_same_refl, is_same_key}
use per.Opportunity.Repository.{
  Opportunities, get_in_memory_opportunities_by_key, store_opportunity, refresh, replace_first,
  refresh_entry, refresh_in_memory_opportunity,
}
use per.Opportunity.Service.{
  OpportunityService, get_config, OpportunityAction, add_action, ignore_action, refresh_action,
  assess_action, broadcast, World, announce, add_opportunity, take_action,
}
use per.Opportunity.Service.Known.{
  is_known, known_ignored, added_known, refreshed-is_same, refreshed_known, push-known,
  refresh-known,
}

-- The service knows an opportunity of a chain that it serves.
pub record Knows (later : Time) (create : OpportunityCreateSvm) (service : OpportunityService)
    : Type 0 where
  pub served : get_config create.chain_id service ≡ ok tt
  pub known :
      is_known later create
        (get_in_memory_opportunities_by_key (get_key create) service.opportunities)
      ≡ true

refused :
    (world : World) (create : OpportunityCreateSvm) (service : OpportunityService)
    → Knows world.now create service
    → add_opportunity world create service ≡ (service, err duplicate_opportunity)
unfolding add_opportunity assess_action take_action
refused world create service k =
    rw (add_opportunity, k.served)
      (rw (assess_action, known_ignored world.now create _ k.known) refl)

announced :
    (listened : Bool) (opportunities : Opportunities) (made o : OpportunitySvm)
    (service service1 : OpportunityService)
    → announce listened (opportunities, made) service ≡ (service1, ok o)
    → (service1.opportunities ≡ opportunities) × (service1.chain_ids ≡ service.chain_ids)
unfolding broadcast
announced true opportunities made o service service1 h = (ground arith, ground arith)
announced false opportunities made o service service1 h = absurd (ground arith)

still_served :
    (id : ChainId) (service service1 : OpportunityService)
    → service1.chain_ids ≡ service.chain_ids
    → get_config id service ≡ ok tt
    → get_config id service1 ≡ ok tt
unfolding get_config
still_served id service service1 same h =
    subst (λ ids. fail_if (not (any (λ c. c == id) ids)) (bad_parameters chain_not_found) ≡ ok tt)
      (sym same) h

not_added :
    (world : World) (create : OpportunityCreateSvm) (o : OpportunitySvm)
    (service service1 : OpportunityService) (e : RestError)
    → get_config create.chain_id service ≡ err e
    → add_opportunity world create service ≡ (service1, ok o)
    → ⊥
unfolding add_opportunity
not_added world create o service service1 e unknown h = absurd (ground arith)

module _ (world : World) (later : Time) (create : OpportunityCreateSvm) (o : OpportunitySvm)
    (service service1 : OpportunityService) (soon : later ≤ world.now + min_refresh_time)
    (served : get_config create.chain_id service ≡ ok tt) where
  of_key : List OpportunitySvm
  of_key = get_in_memory_opportunities_by_key (get_key create) service.opportunities

  after_add :
      assess_action world.now create service ≡ add_action
      → announce world.listened
          (store_opportunity world.new_id world.now create service.opportunities)
          service
        ≡ (service1, ok o)
      → Knows later create service1
  unfolding assess_action store_opportunity of_key new_with_current_time
  after_add action h =
      let made = new_with_current_time world.new_id world.now create in
      let (memory, chains) = announced world.listened _ made o service service1 h in
      record {
        served = still_served create.chain_id service service1 chains served;
        known =
            subst
              (λ m.
                is_known later create (get_in_memory_opportunities_by_key (get_key create) m)
                ≡ true)
              (sym memory)
              (subst (λ opps. is_known later create opps ≡ true)
                (sym (push-known made service.opportunities))
                (added_known world.now later create made of_key (is_same_refl made) soon action));
      }

  after_refresh :
      (p : OpportunitySvm)
      → assess_action world.now create service ≡ refresh_action p
      → announce world.listened
          (refresh_in_memory_opportunity world.now p service.opportunities)
          service
        ≡ (service1, ok o)
      → Knows later create service1
  unfolding assess_action refresh_in_memory_opportunity of_key
  after_refresh p action h =
      let (memory, chains) =
        announced world.listened _ (refresh world.now p) o service service1 h in
      let key = is_same_key p create (refreshed-is_same world.now create p of_key action) in
      record {
        served = still_served create.chain_id service service1 chains served;
        known =
            subst
              (λ m.
                is_known later create (get_in_memory_opportunities_by_key (get_key create) m)
                ≡ true)
              (sym memory)
              (subst (λ opps. is_known later create opps ≡ true)
                (sym (
                  subst
                    (λ k.
                      get_in_memory_opportunities_by_key k
                        (refresh_entry world.now p service.opportunities)
                      ≡ replace_first p (refresh world.now p)
                          (get_in_memory_opportunities_by_key k service.opportunities))
                    key (refresh-known world.now p service.opportunities)))
                (refreshed_known world.now later create p of_key soon action));
      }

  after_action :
      (a : OpportunityAction)
      → assess_action world.now create service ≡ a
      → add_opportunity world create service ≡ (service1, ok o)
      → Knows later create service1
  unfolding add_opportunity take_action
  after_action ignore_action action h = absurd (ground arith)
  after_action (refresh_action p) action h = after_refresh p action (ground arith)
  after_action add_action action h = elim (Bool-cases world.database_accepts) [
    | inl accepted ↦ after_add action (ground arith)
    | inr rejected ↦ absurd (ground arith)
  ]

-- An opportunity that was just added, or refreshed, is refused as a duplicate when it is added again
-- within 30 seconds, and the service stays as it is.
pub add_opportunity_again :
    (world again : World) (create : OpportunityCreateSvm) (o : OpportunitySvm)
    (service service1 : OpportunityService)
    → add_opportunity world create service ≡ (service1, ok o)
    → again.now ≤ world.now + min_refresh_time
    → add_opportunity again create service1 ≡ (service1, err duplicate_opportunity)
add_opportunity_again world again create o service service1 h soon =
    elim (Result-cases (get_config create.chain_id service)) [
      | inl (e, unknown) ↦ absurd (not_added world create o service service1 e unknown h)
      | inr (done, served) ↦ refused again create service1 (
          after_action world again.now create o service service1 soon served
            (assess_action world.now create service) refl h)
    ]
