-- ===== src/Opportunity/Service/Steps.antt =====
-- The service as a state machine: what every sequence of its operations keeps.
use per.Prelude.{
  inl, inr, Bool, true, false, List, [], ◌∷◌, Bool-cases, is_empty, ok, err, Result-cases,
}
use per.Auction.Entities.{KeyBytes}
use per.Auction.Errors.{Reply}
use per.Opportunity.Entities.{ChainId, OpportunityCreateSvm, OpportunitySvm, get_key}
use per.Opportunity.Repository.{
  Opportunities, store_opportunity, refresh_in_memory_opportunity, remove_opportunities,
  get_in_memory_opportunities_by_key,
}
use per.Opportunity.Repository.Invariant.{
  IsWellFormed, push_opportunity-IsWellFormed, refresh_entry-IsWellFormed,
  remove_opportunity-IsWellFormed, remove_key-IsWellFormed,
}
use per.Opportunity.Service.{
  OpportunityService, UpdateEvent, get_config, OpportunityAction, add_action, ignore_action,
  refresh_action, assess_action, broadcast, World, announce, add_opportunity, remove_one,
  remove_by_account, is_stale, sweep_one, sweep, remove_invalid_or_expired_opportunities,
  opportunity_added, take_action, announce_removed, submit_bid_key, opportunities_removed,
  after_removal, all_opportunities,
}

pub data Step : OpportunityService → OpportunityService → Type 0 where
  adds :
      (world : World) (create : OpportunityCreateSvm) (s : OpportunityService)
      → Step s (add_opportunity world create s).0
  removes :
      (accepted : Bool) (o : OpportunitySvm) (s : OpportunityService)
      → Step s (remove_one accepted o s).0
  removes_by_account :
      (world : World) (chain_id : ChainId) (permission_account router : KeyBytes)
      (s : OpportunityService)
      → Step s (remove_by_account world chain_id permission_account router s).0
  sweeps :
      (world : World) (s : OpportunityService)
      → Step s (remove_invalid_or_expired_opportunities world s)

-- The states that a service with empty memory reaches.
pub data Reachable : OpportunityService → Type 0 where
  starts :
      (ids : List ChainId) → Reachable (record { chain_ids = ids; opportunities = []; events = [] })
  goes_on : {s s1 : OpportunityService} → Reachable s → Step s s1 → Reachable s1

abbrev Holds : OpportunityService → Type 0
Holds s = IsWellFormed s.opportunities

broadcast-Holds :
    (listened : Bool) (event : UpdateEvent) (s : OpportunityService)
    → Holds s
    → Holds (broadcast listened event s).0
unfolding broadcast
broadcast-Holds true event s h = h
broadcast-Holds false event s h = h

announce-Holds :
    (listened : Bool) (opportunities : Opportunities) (o : OpportunitySvm) (s : OpportunityService)
    → IsWellFormed opportunities
    → Holds (announce listened (opportunities, o) s).0
announce-Holds listened opportunities o s h =
    broadcast-Holds listened (opportunity_added o) (record s { opportunities = opportunities }) h

take_action-Holds :
    (world : World) (create : OpportunityCreateSvm) (a : OpportunityAction) (s : OpportunityService)
    → Holds s
    → Holds (take_action world create a s).0
unfolding take_action store_opportunity refresh_in_memory_opportunity
take_action-Holds world create ignore_action s h = h
take_action-Holds world create (refresh_action o) s h =
    announce-Holds world.listened _ _ s (refresh_entry-IsWellFormed world.now o s.opportunities h)
take_action-Holds world create add_action s h = elim (Bool-cases world.database_accepts) [
  | inl accepted ↦
      rw (take_action, accepted)
        (announce-Holds world.listened _ _ s (push_opportunity-IsWellFormed _ s.opportunities h))
  | inr rejected ↦ rw (take_action, rejected) h
]

add_opportunity-Holds :
    (world : World) (create : OpportunityCreateSvm) (s : OpportunityService)
    → Holds s
    → Holds (add_opportunity world create s).0
unfolding add_opportunity
add_opportunity-Holds world create s h = elim (Result-cases (get_config create.chain_id s)) [
  | inl (e, unknown) ↦ rw (add_opportunity, unknown) h
  | inr (done, served) ↦
      rw (add_opportunity, served)
        (take_action-Holds world create (assess_action world.now create s) s h)
]

remove_one-Holds :
    (accepted : Bool) (o : OpportunitySvm) (s : OpportunityService)
    → Holds s
    → Holds (remove_one accepted o s).0
unfolding remove_one
remove_one-Holds accepted o s h = elim (Result-cases (get_config o.create.chain_id s)) [
  | inl (e, unknown) ↦ rw (remove_one, unknown) h
  | inr (done, served) ↦ elim (Bool-cases accepted) [
    | inl taken ↦
        rw (remove_one, served, taken) (remove_opportunity-IsWellFormed o s.opportunities h)
    | inr refused ↦ rw (remove_one, served, refused) h
  ]
]

announce_removed-Holds :
    (listened : Bool) (opportunities : Opportunities) (removed : List OpportunitySvm)
    (s : OpportunityService)
    → IsWellFormed opportunities
    → Holds (announce_removed listened (opportunities, removed) s).0
unfolding announce_removed
announce_removed-Holds listened opportunities [] s h = h
announce_removed-Holds listened opportunities (o ∷ removed) s h =
    broadcast-Holds listened (opportunities_removed o) (record s { opportunities = opportunities })
      h

remove_by_account-Holds :
    (world : World) (chain_id : ChainId) (permission_account router : KeyBytes)
    (s : OpportunityService)
    → Holds s
    → Holds (remove_by_account world chain_id permission_account router s).0
unfolding remove_by_account remove_opportunities
remove_by_account-Holds world chain_id permission_account router s h =
    elim (Result-cases (get_config chain_id s)) [
      | inl (e, unknown) ↦ rw (remove_by_account, unknown) h
      | inr (done, served) ↦ elim (Bool-cases world.database_accepts) [
        | inl accepted ↦
            rw (remove_by_account, served, accepted)
              (announce_removed-Holds world.listened _ _ s (
                remove_key-IsWellFormed (submit_bid_key chain_id permission_account router)
                  s.opportunities h))
        | inr rejected ↦ rw (remove_by_account, served, rejected) h
      ]
    ]

after_removal-Holds :
    (world : World) (o : OpportunitySvm) (s : OpportunityService) (r : Reply (Unit {0}))
    → Holds s
    → Holds (after_removal world o (s, r))
unfolding after_removal
after_removal-Holds world o s (err e) h = h
after_removal-Holds world o s (ok done) h =
    let none_left =
      is_empty (get_in_memory_opportunities_by_key (get_key o.create) s.opportunities) in
    elim (Bool-cases none_left) [
      | inl gone ↦
          rw (after_removal, gone) (broadcast-Holds world.listened (opportunities_removed o) s h)
      | inr left ↦ rw (after_removal, left) h
    ]

sweep-Holds :
    (world : World) (opps : List OpportunitySvm) (s : OpportunityService)
    → Holds s
    → Holds (sweep world opps s)
unfolding sweep sweep_one
sweep-Holds world [] s h = h
sweep-Holds world (o ∷ opps) s h = elim (Bool-cases (is_stale (world.sweep_time o.id) o)) [
  | inl stale ↦
      rw (sweep, stale)
        (sweep-Holds world opps _
          (after_removal-Holds world o _ _ (remove_one-Holds world.database_accepts o s h)))
  | inr live ↦ rw (sweep, live) (sweep-Holds world opps s h)
]

Step-Holds : {s s1 : OpportunityService} → Step s s1 → Holds s → Holds s1
unfolding remove_invalid_or_expired_opportunities
Step-Holds (adds world create s) h = add_opportunity-Holds world create s h
Step-Holds (removes accepted o s) h = remove_one-Holds accepted o s h
Step-Holds (removes_by_account world chain_id permission_account router s) h =
    remove_by_account-Holds world chain_id permission_account router s h
Step-Holds (sweeps world s) h = sweep-Holds world (all_opportunities s.opportunities) s h

-- In every state that the service reaches from an empty memory by adding, removing and sweeping, the
-- memory has at most one entry for a key, no entry is empty, and each holds opportunities of its key
-- only.
pub Reachable-IsWellFormed : {s : OpportunityService} → Reachable s → IsWellFormed s.opportunities
unfolding IsWellFormed
Reachable-IsWellFormed (starts ids) = tt
Reachable-IsWellFormed (goes_on before step) = Step-Holds step (Reachable-IsWellFormed before)
