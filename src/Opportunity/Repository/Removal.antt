-- ===== src/Opportunity/Repository/Removal.antt =====
-- What a removal leaves under every key of a well-formed memory.
use per.Prelude.{
  ◌≡◌, refl, sym, ap, subst, ◌∙◌, ◌≢◌, inl, inr, Bool, true, false, List, [], ◌∷◌, arith, not,
  Bool-cases, keep, is_empty, All,
}
use per.Opportunity.Entities.{OpportunityKey, OpportunitySvm, get_key}
use per.Opportunity.Equality.{key_eq, opportunity_eq}
use per.Opportunity.Equality.Laws.{key_eq_refl, opportunity_eq_key}
use per.Opportunity.Repository.{
  Opportunities, get_in_memory_opportunities_by_key, remove_opportunity,
}
use per.Opportunity.Repository.Invariant.{has_key, HasKey, IsWellFormed, key_eq→eq}

abbrev pub differs : OpportunitySvm → OpportunitySvm → Bool
differs o p = not (opportunity_eq p o)

untouched :
    (key : OpportunityKey) (o : OpportunitySvm) (opps : List OpportunitySvm)
    → get_key o.create ≢ key
    → All (HasKey key) opps
    → keep (differs o) opps ≡ opps
untouched key o [] other own = refl
untouched key o (p ∷ opps) other own = elim (Bool-cases (opportunity_eq p o)) [
  | inl same ↦ absurd (other (sym (opportunity_eq_key p o same) ∙ own.0))
  | inr different ↦ rw (keep, different) (ap (◌∷◌ p) (untouched key o opps other own.1))
]

absent_lem :
    (key : OpportunityKey) (entries : Opportunities)
    → has_key key entries ≡ false
    → get_in_memory_opportunities_by_key key entries ≡ []
unfolding has_key get_in_memory_opportunities_by_key
absent_lem key [] absent = refl
absent_lem key ((k, opps) ∷ entries) absent = elim (Bool-cases (key_eq k key)) [
  | inl here ↦
      let self = subst (λ l. key_eq key l ≡ true) (sym (key_eq→eq k key here)) (key_eq_refl key) in
      absurd (ground arith)
  | inr there ↦ ground (arith, absent_lem key entries)
]

own_keys :
    (key : OpportunityKey) (entries : Opportunities)
    → IsWellFormed entries
    → All (HasKey key) (get_in_memory_opportunities_by_key key entries)
unfolding IsWellFormed get_in_memory_opportunities_by_key
own_keys key [] h = tt
own_keys key ((k, opps) ∷ entries) h = elim (Bool-cases (key_eq k key)) [
  | inl here ↦
      rw (get_in_memory_opportunities_by_key, here)
        (subst (λ l. All (HasKey l) opps) (key_eq→eq k key here) h.1.1)
  | inr there ↦ rw (get_in_memory_opportunities_by_key, there) (own_keys key entries h.2)
]

not_equal : (k l : OpportunityKey) → key_eq k l ≡ false → l ≢ k
not_equal k l h e = let self = subst (λ m. key_eq k m ≡ true) (sym e) (key_eq_refl k) in cc

empty_list : (xs : List OpportunitySvm) → is_empty xs ≡ true → xs ≡ []
empty_list [] h = refl
empty_list (x ∷ xs) h = absurd cc

pub remove_opportunity-differs :
    (key : OpportunityKey) (o : OpportunitySvm) (entries : Opportunities)
    → IsWellFormed entries
    → get_in_memory_opportunities_by_key key (remove_opportunity o entries)
      ≡ keep (differs o) (get_in_memory_opportunities_by_key key entries)
unfolding IsWellFormed get_in_memory_opportunities_by_key remove_opportunity
remove_opportunity-differs key o [] h = refl
remove_opportunity-differs key o ((k, opps) ∷ entries) h =
    elim (Bool-cases (key_eq k (get_key o.create))) [
      | inl here ↦
          let ours = key_eq→eq k (get_key o.create) here in
          elim (Bool-cases (key_eq k key)) [
            | inl asked ↦
                let nothing = absent_lem k entries h.0 in
                let none_here =
                  subst (λ l. get_in_memory_opportunities_by_key l entries ≡ [])
                    (key_eq→eq k key asked) nothing in
                elim (Bool-cases (is_empty (keep (differs o) opps))) [
                  | inl gone ↦ let empty = empty_list _ gone in ground arith
                  | inr left ↦ ground arith
                ]
            | inr not_asked ↦
                let other : get_key o.create ≢ key =
                  λ e. not_equal k key not_asked (sym e ∙ sym ours) in
                let same = untouched key o _ other (own_keys key entries h.2) in
                elim (Bool-cases (is_empty (keep (differs o) opps))) [
                  | inl gone ↦ ground arith
                  | inr left ↦ ground arith
                ]
          ]
      | inr there ↦ elim (Bool-cases (key_eq k key)) [
        | inl asked ↦
            let other : get_key o.create ≢ k = not_equal k (get_key o.create) there in
            let same = untouched k o opps other h.1.1 in ground arith
        | inr not_asked ↦ ground (arith, remove_opportunity-differs key o entries h.2)
      ]
    ]
