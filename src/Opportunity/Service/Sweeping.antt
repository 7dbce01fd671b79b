-- ===== src/Opportunity/Service/Sweeping.antt =====
-- The sweep removes the stale opportunities and no others.
use per.Prelude.{
  ◌≡◌, refl, sym, ap, subst, ◌∙◌, inl, inr, Bool, true, false, ◌&&◌, ◌||◌, List, [], ◌∷◌, ◌==◌, not,
  Bool-cases, keep, any, is_empty, All, ok, err, fail_if,
}
use per.Auction.Errors.{Reply, bad_parameters, chain_not_found}
use per.Opportunity.Entities.{OpportunityKey, OpportunitySvm, get_key, ChainId}
use per.Opportunity.Equality.{opportunity_eq}
use per.Opportunity.Repository.{get_in_memory_opportunities_by_key, remove_opportunity}
use per.Opportunity.Repository.Invariant.{IsWellFormed, remove_opportunity-IsWellFormed}
use per.Opportunity.Repository.Removal.{differs, remove_opportunity-differs}
use per.Verification.Checks.{All-map}
use per.Opportunity.Service.{
  OpportunityService, get_config, broadcast, World, remove_one, is_stale, after_removal, sweep_one,
  sweep, all_opportunities, remove_invalid_or_expired_opportunities, UpdateEvent,
  opportunities_removed,
}
use per.Verification.Checks.{All-map}
use per.Opportunity.Service.Staleness.{
  keep_fuse, keep_all, keep_agree, stale_in, Served, copied, agrees,
}

broadcast-same :
    (listened : Bool) (event : UpdateEvent) (s : OpportunityService)
    → ((broadcast listened event s).0.opportunities ≡ s.opportunities)
      × ((broadcast listened event s).0.chain_ids ≡ s.chain_ids)
unfolding broadcast
broadcast-same true event s = (refl, refl)
broadcast-same false event s = (refl, refl)

after_removal-same :
    (world : World) (o : OpportunitySvm) (s : OpportunityService) (r : Reply (Unit {0}))
    → ((after_removal world o (s, r)).opportunities ≡ s.opportunities)
      × ((after_removal world o (s, r)).chain_ids ≡ s.chain_ids)
unfolding after_removal
after_removal-same world o s (err e) = (refl, refl)
after_removal-same world o s (ok done) =
    let none_left =
      is_empty (get_in_memory_opportunities_by_key (get_key o.create) s.opportunities) in
    elim (Bool-cases none_left) [
      | inl gone ↦
          rw (after_removal, gone) (broadcast-same world.listened (opportunities_removed o) s)
      | inr left ↦ rw (after_removal, left) (refl, refl)
    ]

-- Whether a chain is served is read off the chain ids.
ServedChain : List ChainId → OpportunitySvm → Type 0
ServedChain ids o =
    fail_if (not (any (λ c. c == o.create.chain_id) ids)) (bad_parameters chain_not_found) ≡ ok tt

de_morgan : (a b : Bool) → not (a || b) ≡ not a && not b
de_morgan true b = refl
de_morgan false b = refl

chains-Served :
    (s : OpportunityService) (opps : List OpportunitySvm)
    → All (Served s) opps
    → All (ServedChain s.chain_ids) opps
unfolding ServedChain get_config
chains-Served s opps h = All-map (λ o served. served) opps h

module _ (world : World) (accepts : world.database_accepts ≡ true) where
  served_lem :
      (o : OpportunitySvm) (s : OpportunityService)
      → ServedChain s.chain_ids o
      → get_config o.create.chain_id s ≡ ok tt
  unfolding ServedChain get_config
  served_lem o s served = served

  removed :
      (o : OpportunitySvm) (s : OpportunityService)
      → ServedChain s.chain_ids o
      → remove_one world.database_accepts o s
        ≡ (record s { opportunities = remove_opportunity o s.opportunities }, ok tt)
  unfolding remove_one
  removed o s served = rw (remove_one, served_lem o s served, accepts) refl

  swept_one :
      (o : OpportunitySvm) (s : OpportunityService)
      → ServedChain s.chain_ids o
      → ((sweep_one world o s).opportunities ≡ remove_opportunity o s.opportunities)
        × ((sweep_one world o s).chain_ids ≡ s.chain_ids)
  unfolding sweep_one
  swept_one o s served =
      rw (sweep_one, removed o s served)
        (after_removal-same world o
          (record s { opportunities = remove_opportunity o s.opportunities }) (ok tt))

  swept :
      (key : OpportunityKey) (opps : List OpportunitySvm) (s : OpportunityService)
      → IsWellFormed s.opportunities
      → All (ServedChain s.chain_ids) opps
      → get_in_memory_opportunities_by_key key (sweep world opps s).opportunities
        ≡ keep
            (λ p. not (stale_in world.sweep_time opps p))
            (get_in_memory_opportunities_by_key key s.opportunities)
  unfolding sweep stale_in
  swept key [] s h served = sym (keep_all (λ p. true) (λ p. refl) _)
  swept key (o ∷ opps) s h served = elim (Bool-cases (is_stale (world.sweep_time o.id) o)) [
    | inl stale ↦
        let (memory, chains) = swept_one o s served.0 in
        let rest =
          swept key opps (sweep_one world o s)
            (subst IsWellFormed (sym memory) (remove_opportunity-IsWellFormed o s.opportunities h))
            (subst (λ ids. All (ServedChain ids) opps) (sym chains) served.1) in
        rw (sweep, stale)
          (rest
            ∙ ap
                (λ m.
                  keep (λ p. not (stale_in world.sweep_time opps p))
                    (get_in_memory_opportunities_by_key key m))
                memory
            ∙ ap (keep (λ p. not (stale_in world.sweep_time opps p)))
                (remove_opportunity-differs key o s.opportunities h)
            ∙ keep_fuse (λ p. not (stale_in world.sweep_time opps p)) (differs o) _
                (λ p. de_morgan (opportunity_eq p o) (stale_in world.sweep_time opps p)) _)
    | inr live ↦ rw (sweep, live) (swept key opps s h served.1)
  ]

-- After the sweep each key has the opportunities that it had before, in their order and without those
-- that, when the sweep comes to them, were not refreshed for two minutes, when the memory is well formed, the database accepts the
-- removals, and the chains of all the opportunities are served.
pub remove_invalid_or_expired_opportunities_keeps :
    (world : World) (s : OpportunityService) (key : OpportunityKey)
    → IsWellFormed s.opportunities
    → world.database_accepts ≡ true
    → All (Served s) (all_opportunities s.opportunities)
    → get_in_memory_opportunities_by_key key
        (remove_invalid_or_expired_opportunities world s).opportunities
      ≡ keep
          (λ p. not (is_stale (world.sweep_time p.id) p))
          (get_in_memory_opportunities_by_key key s.opportunities)
unfolding remove_invalid_or_expired_opportunities
remove_invalid_or_expired_opportunities_keeps world s key h accepts served =
    let opps = all_opportunities s.opportunities in
    let there = get_in_memory_opportunities_by_key key s.opportunities in
    swept world accepts key opps s h (chains-Served s opps served)
    ∙ keep_agree (λ p. not (stale_in world.sweep_time opps p))
        (λ p. not (is_stale (world.sweep_time p.id) p)) there
        (All-map (agrees world.sweep_time opps) there (copied key s.opportunities))
