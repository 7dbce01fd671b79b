-- ===== src/Verification/Accounts/Resolution.antt =====
-- What extract_account answers: the place of an account is its index into all the keys of the
-- transaction, and the cache of lookup tables does not change the answer.
use per.Prelude.{
  ℕ, zero, suc, ◌-◌, ◌≡◌, refl, ap, ◌∙◌, inl, inr, Option, none, some, List, [], ◌∷◌, ◌++◌, map,
  arith, Option-cases, length, get_elem?, Result, ok, err,
}
use mathlib.Core.Option
use per.Auction.Entities.{KeyBytes, Transaction, CompiledInstruction, AddressTableLookup}
use per.Verification.Accounts.{
  LookupAccount, lookup_accounts, AccountPlace, static_key, looked_up, find_lookup, locate_account,
  table_entries, flat_map,
}

-- What an answer is, its error forgotten.
abbrev pub to_option {ℓ κ} : {E : Type ℓ} {A : Type κ} → Result E A → Option A
to_option (ok a) = some a
to_option (err e) = none

-- The accounts that the lookups name by one of their lists of indexes, table after table.
unfoldable pub looked_up_keys :
    (AddressTableLookup → List ℕ) → List AddressTableLookup → List AccountPlace
looked_up_keys indexes [] = []
looked_up_keys indexes (t ∷ tables) =
    map (λ i. looked_up (t.account_key, i)) (indexes t) ++ looked_up_keys indexes tables

abbrev lookup_keys : Option (List AddressTableLookup) → List AccountPlace
lookup_keys none = []
lookup_keys (some tables) =
    looked_up_keys (λ t. t.writable_indexes) tables
    ++ looked_up_keys (λ t. t.readonly_indexes) tables

-- All the accounts of a transaction: its own keys, and then those of its lookups.
unfoldable pub account_keys : Transaction → List AccountPlace
account_keys tx = map static_key tx.static_account_keys ++ lookup_keys tx.address_table_lookups

module _ {ℓ κ} {A : Type ℓ} {B : Type κ} where
  get_elem-map :
      (f : A → B) (xs : List A) (i : ℕ) → get_elem? (map f xs) i ≡ Option.map f (get_elem? xs i)
  get_elem-map f [] i = refl
  get_elem-map f (x ∷ xs) zero = refl
  get_elem-map f (x ∷ xs) (suc i) = get_elem-map f xs i

  get_elem-append_map :
      (f : A → B) (xs : List A) (ys : List B) (i : ℕ)
      → get_elem? (map f xs ++ ys) i
        ≡ elim (get_elem? xs i) [ some x ↦ some (f x) | none ↦ get_elem? ys (i - length xs) ]
  get_elem-append_map f [] ys i = ap (get_elem? ys) (omega arith)
  get_elem-append_map f (x ∷ xs) ys zero = refl
  get_elem-append_map f (x ∷ xs) ys (suc i) =
      get_elem-append_map f xs ys i
      ∙ ap (λ j. elim (get_elem? xs i) [ some y ↦ some (f y) | none ↦ get_elem? ys j ])
          (omega arith)

map-append {ℓ κ} :
    {A : Type ℓ} {B : Type κ} (f : A → B) (xs ys : List A) → map f (xs ++ ys) ≡ map f xs ++ map f ys
map-append f [] ys = refl
map-append f (x ∷ xs) ys = ap (◌∷◌ (f x)) (map-append f xs ys)

map-table_entries :
    (k : KeyBytes) (indexes : List ℕ)
    → map looked_up (table_entries k indexes) ≡ map (λ i. looked_up (k, i)) indexes
unfolding table_entries
map-table_entries k [] = refl
map-table_entries k (i ∷ indexes) = ap (◌∷◌ (looked_up (k, i))) (map-table_entries k indexes)

map-flat_map :
    (indexes : AddressTableLookup → List ℕ) (tables : List AddressTableLookup)
    → map looked_up (flat_map (λ t. table_entries t.account_key (indexes t)) tables)
      ≡ looked_up_keys indexes tables
unfolding flat_map looked_up_keys
map-flat_map indexes [] = refl
map-flat_map indexes (t ∷ tables) =
    rw
      (
        map-append looked_up (table_entries t.account_key (indexes t))
            (flat_map (λ u. table_entries u.account_key (indexes u)) tables),
        map-table_entries t.account_key (indexes t),
        map-flat_map indexes tables,
      )
      refl

map-lookup_accounts :
    (tables : List AddressTableLookup)
    → map looked_up (lookup_accounts tables) ≡ lookup_keys (some tables)
unfolding lookup_accounts
map-lookup_accounts tables =
    rw
      (
        map-append looked_up (flat_map (λ t. table_entries t.account_key t.writable_indexes) tables)
            (flat_map (λ t. table_entries t.account_key t.readonly_indexes) tables),
        map-flat_map (λ t. t.writable_indexes) tables,
        map-flat_map (λ t. t.readonly_indexes) tables,
      )
      refl

found :
    (accounts : List LookupAccount) (i : ℕ)
    → to_option (find_lookup accounts i) ≡ get_elem? (map looked_up accounts) i
unfolding find_lookup
found accounts i = ground (arith, get_elem-map looked_up accounts i)

-- The account that an instruction names by its index i is the i-th of all the accounts of the
-- transaction: its own keys first, then the writable accounts of every lookup table, and then the
-- readonly accounts of every lookup table.
pub locate_account-account_keys :
    (tx : Transaction) (instruction : CompiledInstruction) (position i : ℕ)
    → get_elem? instruction.accounts position ≡ some i
    → to_option (locate_account tx instruction position) ≡ get_elem? (account_keys tx) i
unfolding locate_account account_keys
locate_account-account_keys tx instruction position i named =
    elim (Option-cases tx.address_table_lookups) [
      | inl legacy ↦ ground (arith, get_elem-append_map static_key tx.static_account_keys [] i)
      | inr (tables, versioned) ↦ ground (
        arith,
        get_elem-append_map static_key tx.static_account_keys (lookup_keys (some tables)) i,
        map-lookup_accounts tables,
        found (lookup_accounts tables) (i - length tx.static_account_keys),
      )
    ]
