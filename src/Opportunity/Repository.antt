-- ===== src/Opportunity/Repository.antt =====
-- auction-server/src/opportunity/repository: the opportunities kept in memory, and the operations on
-- them. A hash map is a list of its entries, one for each key. The database's answers are arguments of
-- the service, since an operation that it refuses leaves the memory as it is.
pub mod Invariant
pub mod Removal
use per.Prelude.{
  ℕ, zero, suc, ◌+◌, ◌-◌, ◌*◌, ◌/◌, ◌%◌, ◌^◌, ◌≤◌, ◌<◌, ◌≡◌, refl, sym, ap, subst, ◌∙◌, ◌≢◌, ◌↔◌,
  ◌⊎◌, inl, inr, Bool, true, false, ◌&&◌, ◌||◌, Option, none, some, List, [], ◌∷◌, ◌++◌, map, arith,
  ltb, leb, ◌==◌, not, ◌!=◌, if◌then◌else◌, ==_refl, Bool-cases, Option-cases, bytes_eq,
  bytes_eq_refl, bytes_eq_iff, take-append, drop-append, length, take, drop, get_elem?,
  length-append, keep, find, any, all, is_empty, first, All, Result, ok, err, ◌>>=◌, ◌>>◌, fail_if,
  ok_or, Result-cases, OnSome, u64_limit, checked_add, checked_sub, checked_mul, saturating_sub,
}
use per.Auction.Entities.{Time}
use per.Opportunity.Entities.{
  OpportunityKey, OpportunityId, OpportunityCreateSvm, OpportunitySvm, get_key,
  new_with_current_time,
}
use per.Opportunity.Equality.{key_eq, opportunity_eq}

abbrev pub Opportunities : Type 0
Opportunities = List (OpportunityKey × List OpportunitySvm)

unfoldable pub get_in_memory_opportunities_by_key :
    OpportunityKey → Opportunities → List OpportunitySvm
get_in_memory_opportunities_by_key key [] = []
get_in_memory_opportunities_by_key key ((k, opps) ∷ entries) =
    let others = get_in_memory_opportunities_by_key key entries in
    if key_eq k key then opps else others

-- `find_map` over the entries, in the order of the list.
unfoldable pub get_in_memory_opportunity_by_id :
    OpportunityId → Opportunities → Option OpportunitySvm
get_in_memory_opportunity_by_id id [] = none
get_in_memory_opportunity_by_id id ((k, opps) ∷ entries) =
    let others = get_in_memory_opportunity_by_id id entries in
    elim (find (λ o. o.id == id) opps) [ some o ↦ some o | none ↦ others ]

-- `entry(key).or_insert_with(Vec::new).push(opportunity)`
unfoldable pub push_opportunity : OpportunitySvm → Opportunities → Opportunities
push_opportunity o [] = (get_key o.create, o ∷ []) ∷ []
push_opportunity o ((k, opps) ∷ entries) =
    let others = push_opportunity o entries in
    if key_eq k (get_key o.create) then (k, opps ++ o ∷ []) ∷ entries else (k, opps) ∷ others

-- add_opportunity, once the database has stored the new opportunity.
unfoldable pub store_opportunity :
    OpportunityId → Time → OpportunityCreateSvm → Opportunities → Opportunities × OpportunitySvm
store_opportunity id now create entries =
    let opportunity = new_with_current_time id now create in
    (push_opportunity opportunity entries, opportunity)

unfoldable pub refresh : Time → OpportunitySvm → OpportunitySvm
refresh now o = record o { refresh_time = now }

-- The first equal opportunity is replaced.
unfoldable pub replace_first :
    OpportunitySvm → OpportunitySvm → List OpportunitySvm → List OpportunitySvm
replace_first old new [] = []
replace_first old new (o ∷ opps) =
    let others = replace_first old new opps in
    if opportunity_eq o old then new ∷ opps else o ∷ others

unfoldable pub refresh_entry : Time → OpportunitySvm → Opportunities → Opportunities
refresh_entry now o [] = []
refresh_entry now o ((k, opps) ∷ entries) =
    let others = refresh_entry now o entries in
    if key_eq k (get_key o.create)
    then (k, replace_first o (refresh now o) opps) ∷ entries
    else (k, opps) ∷ others

unfoldable pub refresh_in_memory_opportunity :
    Time → OpportunitySvm → Opportunities → Opportunities × OpportunitySvm
refresh_in_memory_opportunity now o entries = (refresh_entry now o entries, refresh now o)

-- The entries without the key, whose opportunities are given back.
unfoldable pub remove_key : OpportunityKey → Opportunities → Opportunities
remove_key key entries = keep (λ e. not (key_eq e.0 key)) entries

unfoldable pub remove_opportunities :
    OpportunityKey → Opportunities → Opportunities × List OpportunitySvm
remove_opportunities key entries =
    (remove_key key entries, get_in_memory_opportunities_by_key key entries)

-- `retain`, and the entry goes when nothing is left; a key without an entry gets none.
unfoldable pub remove_opportunity : OpportunitySvm → Opportunities → Opportunities
remove_opportunity o [] = []
remove_opportunity o ((k, opps) ∷ entries) =
    let others = remove_opportunity o entries in
    let retained = keep (λ p. not (opportunity_eq p o)) opps in
    if key_eq k (get_key o.create)
    then (if is_empty retained then entries else (k, retained) ∷ entries)
    else (k, opps) ∷ others
