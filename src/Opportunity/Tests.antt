-- ===== src/Opportunity/Tests.antt =====
-- Concrete runs of the opportunity service.
use per.Prelude.{ℕ, ◌≡◌, refl, ap, subst, true, none, [], ◌∷◌, arith, not, keep, ok, err}
use per.Auction.Errors.{duplicate_opportunity}
use per.Opportunity.Entities.{OpportunityKey, OpportunityCreateSvm, OpportunitySvm, limo, get_key}
use per.Opportunity.Repository.{get_in_memory_opportunities_by_key}
use per.Opportunity.Repository.Invariant.{IsWellFormed, has_key}
use per.Opportunity.Service.{
  OpportunityService, World, UpdateEvent, opportunity_added, add_opportunity,
  remove_invalid_or_expired_opportunities, is_stale, get_config,
}
use per.Opportunity.Service.Duplicates.{add_opportunity_again}
use per.Opportunity.Service.Steps.{Reachable, starts, goes_on, adds, Reachable-IsWellFormed}
use per.Opportunity.Service.Sweeping.{remove_invalid_or_expired_opportunities_keeps}

abbrev test_create : ℕ → OpportunityCreateSvm
test_create slot = record {
  permission_key = 0 ∷ 1 ∷ [];
  chain_id = 3;
  sell_tokens = record { token = 5 ∷ []; amount = 10 } ∷ [];
  buy_tokens = record { token = 6 ∷ []; amount = 20 } ∷ [];
  router = 1 ∷ [];
  permission_account = 2 ∷ [];
  program = limo (record { order = 8 ∷ []; order_address = 9 ∷ []; slot = slot });
  profile_id = none;
}

abbrev test_world : ℕ → World
test_world now = record {
  now = now;
  new_id = 77;
  sweep_time = λ id. now;
  database_accepts = true;
  listened = true;
}

abbrev empty_service : OpportunityService
empty_service = record { chain_ids = 3 ∷ []; opportunities = []; events = [] }

abbrev test_opportunity : OpportunitySvm
test_opportunity = record {
  id = 77;
  creation_time = 1000;
  refresh_time = 1000;
  create = test_create 4;
}

abbrev full_service : OpportunityService
full_service = record {
  chain_ids = 3 ∷ [];
  opportunities = (get_key (test_create 4), test_opportunity ∷ []) ∷ [];
  events = opportunity_added test_opportunity ∷ [];
}

added :
    add_opportunity (test_world 1000) (test_create 4) empty_service
    ≡ (full_service, ok test_opportunity)
unfolding add_opportunity get_config per.Opportunity.Service.take_action
    per.Opportunity.Service.assess_action per.Opportunity.Service.assess_loop
    get_in_memory_opportunities_by_key per.Opportunity.Service.broadcast
    per.Opportunity.Repository.store_opportunity per.Opportunity.Repository.push_opportunity
    per.Opportunity.Entities.new_with_current_time
added = refl

add_opportunity_again_example :
    add_opportunity (test_world 31000) (test_create 4) full_service
    ≡ (full_service, err duplicate_opportunity)
add_opportunity_again_example =
    add_opportunity_again (test_world 1000) (test_world 31000) (test_create 4) test_opportunity
      empty_service full_service added (omega arith)

full-Reachable : Reachable full_service
full-Reachable =
    subst (λ s. Reachable s) (ap (λ r. r.0) added)
      (goes_on (starts (3 ∷ [])) (adds (test_world 1000) (test_create 4) empty_service))

Reachable-IsWellFormed_example : IsWellFormed full_service.opportunities
Reachable-IsWellFormed_example = Reachable-IsWellFormed full-Reachable

full-IsWellFormed : IsWellFormed full_service.opportunities
unfolding IsWellFormed has_key
full-IsWellFormed = (refl, (refl, (refl, tt)), tt)

chain_served : get_config 3 full_service ≡ ok tt
unfolding get_config
chain_served = refl

remove_invalid_or_expired_opportunities_keeps_example :
    get_in_memory_opportunities_by_key
      (get_key (test_create 4))
      (remove_invalid_or_expired_opportunities (test_world 200000) full_service).opportunities
    ≡ keep
        (λ p. not (is_stale 200000 p))
        (get_in_memory_opportunities_by_key (get_key (test_create 4)) full_service.opportunities)
remove_invalid_or_expired_opportunities_keeps_example =
    remove_invalid_or_expired_opportunities_keeps (test_world 200000) full_service
      (get_key (test_create 4)) full-IsWellFormed refl (chain_served, tt)
