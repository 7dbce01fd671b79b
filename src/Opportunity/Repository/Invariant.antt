-- ===== src/Opportunity/Repository/Invariant.antt =====
-- The invariant of the opportunities in memory: one entry for each key, none of them empty, each
-- holding opportunities of its key. Every operation of the repository keeps it.
use per.Prelude.{
  ◌≡◌, refl, sym, inl, inr, Bool, true, false, ◌||◌, List, [], ◌∷◌, ◌++◌, arith, not, Bool-cases,
  bytes_eq_iff, keep, is_empty, All,
}
use per.Auction.Entities.{Time}
use per.Opportunity.Entities.{OpportunityKey, OpportunitySvm, get_key}
use per.Opportunity.Equality.{key_eq, opportunity_eq}
use per.Opportunity.Equality.Laws.{and_elim, eq_of}
use per.Opportunity.Repository.{
  Opportunities, push_opportunity, refresh, replace_first, refresh_entry, remove_key,
  remove_opportunity,
}

unfoldable pub has_key : OpportunityKey → Opportunities → Bool
has_key key [] = false
has_key key ((k, opps) ∷ entries) = key_eq key k || has_key key entries

abbrev pub HasKey : OpportunityKey → OpportunitySvm → Type 0
HasKey key o = get_key o.create ≡ key

abbrev pub IsEntry : OpportunityKey × List OpportunitySvm → Type 0
IsEntry (key, opps) = (is_empty opps ≡ false) × All (HasKey key) opps

unfoldable pub IsWellFormed : Opportunities → Type 0
IsWellFormed [] = Unit
IsWellFormed ((key, opps) ∷ entries) =
    (has_key key entries ≡ false) × IsEntry (key, opps) × IsWellFormed entries

All-append {ℓ κ} :
    {A : Type ℓ} (P : A → Type κ) (xs ys : List A) → All P xs → All P ys → All P (xs ++ ys)
All-append P [] ys h k = k
All-append P (x ∷ xs) ys h k = (h.0, All-append P xs ys h.1 k)

All-keep {ℓ κ} :
    {A : Type ℓ} (P : A → Type κ) (p : A → Bool) (xs : List A) → All P xs → All P (keep p xs)
All-keep P p [] h = tt
All-keep P p (x ∷ xs) h = elim (Bool-cases (p x)) [
  | inl passes ↦ rw (keep, passes) (h.0, All-keep P p xs h.1)
  | inr fails ↦ rw (keep, fails) (All-keep P p xs h.1)
]

append_nonempty : (xs : List OpportunitySvm) (o : OpportunitySvm) → is_empty (xs ++ o ∷ []) ≡ false
append_nonempty [] o = refl
append_nonempty (x ∷ xs) o = refl

pub key_eq→eq : (k l : OpportunityKey) → key_eq k l ≡ true → k ≡ l
unfolding key_eq
key_eq→eq k l h =
    let (chain, permission) = and_elim _ _ h in
    let chains = eq_of k.chain_id l.chain_id chain in
    let permissions = (bytes_eq_iff k.permission_key l.permission_key).0 permission in cc

push-has_key :
    (key : OpportunityKey) (o : OpportunitySvm) (entries : Opportunities)
    → key_eq key (get_key o.create) ≡ false
    → has_key key entries ≡ false
    → has_key key (push_opportunity o entries) ≡ false
unfolding has_key push_opportunity
push-has_key key o [] other absent = rw other refl
push-has_key key o ((k, opps) ∷ entries) other absent =
    elim (Bool-cases (key_eq k (get_key o.create))) [
      | inl here ↦ ground arith
      | inr there ↦ ground (arith, push-has_key key o entries other)
    ]

pub push_opportunity-IsWellFormed :
    (o : OpportunitySvm) (entries : Opportunities)
    → IsWellFormed entries
    → IsWellFormed (push_opportunity o entries)
unfolding IsWellFormed push_opportunity has_key
push_opportunity-IsWellFormed o [] h = (refl, (refl, (refl, tt)), tt)
push_opportunity-IsWellFormed o ((k, opps) ∷ entries) h =
    elim (Bool-cases (key_eq k (get_key o.create))) [
      | inl here ↦
          let same = key_eq→eq k (get_key o.create) here in
          rw (push_opportunity, here)
            (
              h.0,
              (append_nonempty opps o, All-append (HasKey k) opps (o ∷ []) h.1.1 (sym same, tt)),
              h.2,
            )
      | inr there ↦
          rw (push_opportunity, there)
            (push-has_key k o entries there h.0, h.1, push_opportunity-IsWellFormed o entries h.2)
    ]

replace-nonempty :
    (old new : OpportunitySvm) (opps : List OpportunitySvm)
    → is_empty opps ≡ false
    → is_empty (replace_first old new opps) ≡ false
unfolding replace_first
replace-nonempty old new [] h = cc
replace-nonempty old new (o ∷ opps) h = elim (Bool-cases (opportunity_eq o old)) [
  | inl found ↦ rw found refl
  | inr other ↦ rw other refl
]

replace-HasKey :
    (key : OpportunityKey) (old new : OpportunitySvm) (opps : List OpportunitySvm)
    → HasKey key new
    → All (HasKey key) opps
    → All (HasKey key) (replace_first old new opps)
unfolding replace_first
replace-HasKey key old new [] k h = tt
replace-HasKey key old new (o ∷ opps) k h = elim (Bool-cases (opportunity_eq o old)) [
  | inl found ↦ rw (replace_first, found) (k, h.1)
  | inr other ↦ rw (replace_first, other) (h.0, replace-HasKey key old new opps k h.1)
]

refresh-HasKey :
    (now : Time) (key : OpportunityKey) (o : OpportunitySvm)
    → HasKey key o
    → HasKey key (refresh now o)
unfolding refresh
refresh-HasKey now key o h = h

refresh-has_key :
    (key : OpportunityKey) (now : Time) (o : OpportunitySvm) (entries : Opportunities)
    → has_key key entries ≡ false
    → has_key key (refresh_entry now o entries) ≡ false
unfolding has_key refresh_entry
refresh-has_key key now o [] absent = absent
refresh-has_key key now o ((k, opps) ∷ entries) absent =
    elim (Bool-cases (key_eq k (get_key o.create))) [
      | inl here ↦ ground arith
      | inr there ↦ ground (arith, refresh-has_key key now o entries)
    ]

pub refresh_entry-IsWellFormed :
    (now : Time) (o : OpportunitySvm) (entries : Opportunities)
    → IsWellFormed entries
    → IsWellFormed (refresh_entry now o entries)
unfolding IsWellFormed refresh_entry
refresh_entry-IsWellFormed now o [] h = tt
refresh_entry-IsWellFormed now o ((k, opps) ∷ entries) h =
    elim (Bool-cases (key_eq k (get_key o.create))) [
      | inl here ↦
          let same = sym (key_eq→eq k (get_key o.create) here) in
          rw (refresh_entry, here)
            (
              h.0,
              (
                replace-nonempty o (refresh now o) opps h.1.0,
                replace-HasKey k o (refresh now o) opps (refresh-HasKey now k o same) h.1.1,
              ),
              h.2,
            )
      | inr there ↦
          rw (refresh_entry, there)
            (refresh-has_key k now o entries h.0, h.1, refresh_entry-IsWellFormed now o entries h.2)
    ]

remove-has_key :
    (key : OpportunityKey) (o : OpportunitySvm) (entries : Opportunities)
    → has_key key entries ≡ false
    → has_key key (remove_opportunity o entries) ≡ false
unfolding has_key remove_opportunity
remove-has_key key o [] absent = absent
remove-has_key key o ((k, opps) ∷ entries) absent =
    let retained = keep (λ p. not (opportunity_eq p o)) opps in
    elim (Bool-cases (key_eq k (get_key o.create))) [
      | inl here ↦ elim (Bool-cases (is_empty retained)) [
        | inl gone ↦ ground arith
        | inr left ↦ ground arith
      ]
      | inr there ↦ ground (arith, remove-has_key key o entries)
    ]

pub remove_opportunity-IsWellFormed :
    (o : OpportunitySvm) (entries : Opportunities)
    → IsWellFormed entries
    → IsWellFormed (remove_opportunity o entries)
unfolding IsWellFormed remove_opportunity
remove_opportunity-IsWellFormed o [] h = tt
remove_opportunity-IsWellFormed o ((k, opps) ∷ entries) h =
    let retained = keep (λ p. not (opportunity_eq p o)) opps in
    elim (Bool-cases (key_eq k (get_key o.create))) [
      | inl here ↦ elim (Bool-cases (is_empty retained)) [
        | inl gone ↦ rw (remove_opportunity, here, gone) h.2
        | inr left ↦
            rw (remove_opportunity, here, left)
              (h.0, (left, All-keep (HasKey k) (λ p. not (opportunity_eq p o)) opps h.1.1), h.2)
      ]
      | inr there ↦
          rw (remove_opportunity, there)
            (remove-has_key k o entries h.0, h.1, remove_opportunity-IsWellFormed o entries h.2)
    ]

remove_key-has_key :
    (key removed : OpportunityKey) (entries : Opportunities)
    → has_key key entries ≡ false
    → has_key key (remove_key removed entries) ≡ false
unfolding has_key remove_key
remove_key-has_key key removed [] absent = absent
remove_key-has_key key removed ((k, opps) ∷ entries) absent = elim (Bool-cases (key_eq k removed)) [
  | inl gone ↦ ground (arith, remove_key-has_key key removed entries)
  | inr left ↦ ground (arith, remove_key-has_key key removed entries)
]

pub remove_key-IsWellFormed :
    (key : OpportunityKey) (entries : Opportunities)
    → IsWellFormed entries
    → IsWellFormed (remove_key key entries)
unfolding IsWellFormed remove_key
remove_key-IsWellFormed key [] h = tt
remove_key-IsWellFormed key ((k, opps) ∷ entries) h = elim (Bool-cases (key_eq k key)) [
  | inl gone ↦ rw (remove_key, keep, gone) (remove_key-IsWellFormed key entries h.2)
  | inr left ↦
      rw (remove_key, keep, left)
        (remove_key-has_key k key entries h.0, h.1, remove_key-IsWellFormed key entries h.2)
]
