-- ===== src/Opportunity/Service.antt =====
-- auction-server/src/opportunity/service: adding, refreshing, removing and sweeping opportunities. The
-- clock, the new ids, the answers of the database and whether anybody listens to the events are
-- arguments; the analytics, which run in tasks of their own, are left out.
pub mod Known
pub mod Duplicates
pub mod Staleness
pub mod Steps
pub mod Sweeping
use per.Prelude.{
  ◌+◌, Bool, List, [], ◌∷◌, ◌++◌, ltb, ◌==◌, not, if◌then◌else◌, any, is_empty, ok, err, fail_if,
}
use per.Auction.Entities.{Time, KeyBytes, submit_bid_type}
use per.Auction.Errors.{
  Reply, bad_parameters, chain_not_found, duplicate_opportunity, temporarily_unavailable,
}
use per.Opportunity.Entities.{
  ChainId, OpportunityKey, OpportunityId, OpportunityCreateSvm, OpportunitySvm, get_key,
  new_opportunity, duplicate, needs_refresh, opportunity_permission_key,
}
use per.Opportunity.Equality.{compare}
use per.Opportunity.Repository.{
  Opportunities, get_in_memory_opportunities_by_key, store_opportunity,
  refresh_in_memory_opportunity, remove_opportunities, remove_opportunity,
}

-- An event carries what is made of the opportunity that it names.
pub data UpdateEvent : Type 0 where
  opportunity_added : OpportunitySvm → UpdateEvent
  opportunities_removed : OpportunitySvm → UpdateEvent

pub record OpportunityService : Type 0 where
  pub chain_ids : List ChainId
  pub opportunities : Opportunities
  pub events : List UpdateEvent

unfoldable pub get_config : ChainId → OpportunityService → Reply (Unit {0})
get_config chain_id service =
    fail_if (not (any (λ c. c == chain_id) service.chain_ids)) (bad_parameters chain_not_found)

pub data OpportunityAction : Type 0 where
  add_action ignore_action : OpportunityAction
  refresh_action : OpportunitySvm → OpportunityAction

-- The loop of assess_action over the opportunities of the key.
unfoldable pub assess_loop : Time → OpportunityCreateSvm → List OpportunitySvm → OpportunityAction
assess_loop now create [] = add_action
assess_loop now create (o ∷ opps) =
    let rest = assess_loop now create opps in
    elim (compare now o create) [
      | duplicate ↦ ignore_action
      | needs_refresh ↦ refresh_action o
      | new_opportunity ↦ rest
    ]

unfoldable pub assess_action : Time → OpportunityCreateSvm → OpportunityService → OpportunityAction
assess_action now create service =
    assess_loop now create
      (get_in_memory_opportunities_by_key (get_key create) service.opportunities)

-- `send` fails when nobody listens.
unfoldable pub broadcast :
    Bool → UpdateEvent → OpportunityService → OpportunityService × Reply (Unit {0})
broadcast listened event service =
    if listened
    then (record service { events = service.events ++ event ∷ [] }, ok tt)
    else (service, err temporarily_unavailable)

-- The world around one call: the clock, the next random id, the database and the listeners.
pub record World : Type 0 where
  pub now : Time
  -- What the clock reads when the sweep comes to the opportunity with an id.
  pub sweep_time : OpportunityId → Time
  pub new_id : OpportunityId
  pub database_accepts : Bool
  pub listened : Bool

-- What follows the change of the memory: the event, and the opportunity as the answer.
abbrev pub announce :
    Bool
    → Opportunities × OpportunitySvm
    → OpportunityService
    → OpportunityService × Reply OpportunitySvm
announce listened (opportunities, opportunity) service =
    let (service1, sent) =
      broadcast listened (opportunity_added opportunity)
        (record service { opportunities = opportunities }) in
    (service1, elim sent [ ok done ↦ ok opportunity | err e ↦ err e ])

-- add_opportunity, once the action is known.
unfoldable pub take_action :
    World
    → OpportunityCreateSvm
    → OpportunityAction
    → OpportunityService
    → OpportunityService × Reply OpportunitySvm
take_action world create ignore_action service = (service, err duplicate_opportunity)
take_action world create (refresh_action o) service =
    announce world.listened (refresh_in_memory_opportunity world.now o service.opportunities)
      service
take_action world create add_action service =
    if world.database_accepts
    then announce world.listened
        (store_opportunity world.new_id world.now create service.opportunities) service
    else (service, err temporarily_unavailable)

unfoldable pub add_opportunity :
    World → OpportunityCreateSvm → OpportunityService → OpportunityService × Reply OpportunitySvm
add_opportunity world create service = elim (get_config create.chain_id service) [
  | err e ↦ (service, err e)
  | ok done ↦ take_action world create (assess_action world.now create service) service
]

unfoldable pub remove_one :
    Bool → OpportunitySvm → OpportunityService → OpportunityService × Reply (Unit {0})
remove_one database_accepts o service = elim (get_config o.create.chain_id service) [
  | err e ↦ (service, err e)
  | ok done ↦
      if database_accepts
      then (record service { opportunities = remove_opportunity o service.opportunities }, ok tt)
      else (service, err temporarily_unavailable)
]

-- The event after the removal names the first of the removed opportunities.
unfoldable pub announce_removed :
    Bool
    → Opportunities × List OpportunitySvm
    → OpportunityService
    → OpportunityService × Reply (Unit {0})
announce_removed listened (opportunities, []) service =
    (record service { opportunities = opportunities }, ok tt)
announce_removed listened (opportunities, o ∷ removed) service =
    broadcast listened (opportunities_removed o) (record service { opportunities = opportunities })

abbrev pub submit_bid_key : ChainId → KeyBytes → KeyBytes → OpportunityKey
submit_bid_key chain_id permission_account router = record {
  chain_id = chain_id;
  permission_key = opportunity_permission_key submit_bid_type router permission_account;
}

unfoldable pub remove_by_account :
    World
    → ChainId
    → KeyBytes
    → KeyBytes
    → OpportunityService
    → OpportunityService × Reply (Unit {0})
remove_by_account world chain_id permission_account router service =
    elim (get_config chain_id service) [
      | err e ↦ (service, err e)
      | ok done ↦
          if world.database_accepts
          then announce_removed world.listened
              (remove_opportunities (submit_bid_key chain_id permission_account router)
                service.opportunities)
              service
          else (service, err temporarily_unavailable)
    ]

-- Times are in milliseconds.
abbrev pub max_stale_opportunity_duration : Time
max_stale_opportunity_duration = 120000

unfoldable pub is_stale : Time → OpportunitySvm → Bool
is_stale now o = ltb (o.refresh_time + max_stale_opportunity_duration) now

-- The event of a removal is sent when the key has no opportunity left; a failure is only logged.
unfoldable pub after_removal :
    World → OpportunitySvm → OpportunityService × Reply (Unit {0}) → OpportunityService
after_removal world o (service, err e) = service
after_removal world o (service, ok done) =
    if is_empty (get_in_memory_opportunities_by_key (get_key o.create) service.opportunities)
    then (broadcast world.listened (opportunities_removed o) service).0
    else service

-- The removal of one stale opportunity.
unfoldable pub sweep_one : World → OpportunitySvm → OpportunityService → OpportunityService
sweep_one world o service = after_removal world o (remove_one world.database_accepts o service)

unfoldable pub sweep : World → List OpportunitySvm → OpportunityService → OpportunityService
sweep world [] service = service
sweep world (o ∷ opps) service =
    sweep world opps
      (if is_stale (world.sweep_time o.id) o then sweep_one world o service else service)

abbrev pub all_opportunities : Opportunities → List OpportunitySvm
all_opportunities [] = []
all_opportunities ((k, opps) ∷ entries) = opps ++ all_opportunities entries

-- The loop runs over a copy of the memory, and reads the clock again for every opportunity.
unfoldable pub remove_invalid_or_expired_opportunities :
    World → OpportunityService → OpportunityService
remove_invalid_or_expired_opportunities world service =
    sweep world (all_opportunities service.opportunities) service
