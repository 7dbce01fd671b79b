-- ===== src/Verification/Accounts.antt =====
-- query_lookup_table, find_and_query_lookup_table and extract_account of verification.rs, with
-- get_lookup_table and add_lookup_table of the repository: which account an instruction names. The
-- cache of lookup tables is a list of its entries; the chain's answers are an argument.
pub mod Resolution
pub mod Caching
use per.Prelude.{
  ℕ, zero, suc, ◌+◌, ◌-◌, ◌*◌, ◌/◌, ◌%◌, ◌^◌, ◌≤◌, ◌<◌, ◌≡◌, refl, sym, ap, subst, ◌∙◌, ◌≢◌, ◌↔◌,
  ◌⊎◌, inl, inr, Bool, true, false, ◌&&◌, ◌||◌, Option, none, some, List, [], ◌∷◌, ◌++◌, map, arith,
  ltb, leb, ◌==◌, not, ◌!=◌, if◌then◌else◌, ==_refl, Bool-cases, Option-cases, bytes_eq,
  bytes_eq_refl, bytes_eq_iff, take-append, drop-append, length, take, drop, get_elem?,
  length-append, keep, find, any, all, is_empty, first, All, Result, ok, err, ◌>>=◌, ◌>>◌, fail_if,
  ok_or, Result-cases, OnSome, u64_limit, checked_add, checked_sub, checked_mul, saturating_sub,
}
use per.Auction.Entities.{KeyBytes, Transaction, CompiledInstruction, AddressTableLookup}
use per.Auction.Errors.{
  Reply, bad_parameters, temporarily_unavailable, lookup_table_not_found,
  lookup_table_not_deserialized, account_not_in_lookup_table, account_not_in_instruction,
  account_not_in_lookup_accounts, no_lookup_tables,
}

abbrev pub LookupTables : Type 0
LookupTables = List (KeyBytes × List KeyBytes)

unfoldable pub get_lookup_table : KeyBytes → LookupTables → Option (List KeyBytes)
get_lookup_table key [] = none
get_lookup_table key ((k, addresses) ∷ tables) =
    let others = get_lookup_table key tables in if bytes_eq k key then some addresses else others

-- `insert` of a hash map
unfoldable pub add_lookup_table : KeyBytes → List KeyBytes → LookupTables → LookupTables
add_lookup_table key addresses [] = (key, addresses) ∷ []
add_lookup_table key addresses ((k, old) ∷ tables) =
    let others = add_lookup_table key addresses tables in
    if bytes_eq k key then (k, addresses) ∷ tables else (k, old) ∷ others

-- The chain's answer about a table: the call may fail, find no account, or find data that is no
-- table.
pub data TableAccount : Type 0 where
  rpc_error account_not_found not_a_table : TableAccount
  table_account : (addresses : List KeyBytes) → TableAccount

abbrev pub Chain : Type 0
Chain = KeyBytes → TableAccount

unfoldable pub read_table : TableAccount → Reply (List KeyBytes)
read_table rpc_error = err temporarily_unavailable
read_table account_not_found = err (bad_parameters lookup_table_not_found)
read_table not_a_table = err (bad_parameters lookup_table_not_deserialized)
read_table (table_account addresses) = ok addresses

-- The part after a miss: the table is stored when it has the account.
unfoldable pub fetch_lookup_table :
    Chain → KeyBytes → ℕ → LookupTables → Reply KeyBytes × LookupTables
fetch_lookup_table chain table index cache = elim (read_table (chain table)) [
  | err e ↦ (err e, cache)
  | ok addresses ↦ elim (get_elem? addresses index) [
    | none ↦ (err (bad_parameters account_not_in_lookup_table), cache)
    | some account ↦ (ok account, add_lookup_table table addresses cache)
  ]
]

abbrev pub cached_account : KeyBytes → ℕ → LookupTables → Option KeyBytes
cached_account table index cache = elim (get_lookup_table table cache) [
  | none ↦ none
  | some addresses ↦ get_elem? addresses index
]

unfoldable pub query_lookup_table :
    Chain → KeyBytes → ℕ → LookupTables → Reply KeyBytes × LookupTables
query_lookup_table chain table index cache = elim (cached_account table index cache) [
  | some account ↦ (ok account, cache)
  | none ↦ fetch_lookup_table chain table index cache
]

abbrev pub LookupAccount : Type 0
LookupAccount = KeyBytes × ℕ

unfoldable pub table_entries : KeyBytes → List ℕ → List LookupAccount
table_entries key [] = []
table_entries key (index ∷ indexes) = (key, index) ∷ table_entries key indexes

unfoldable pub flat_map {ℓ κ} : {A : Type ℓ} {B : Type κ} → (A → List B) → List A → List B
flat_map f [] = []
flat_map f (x ∷ xs) = f x ++ flat_map f xs

-- All the writable entries come first, and then all the readonly ones.
unfoldable pub lookup_accounts : List AddressTableLookup → List LookupAccount
lookup_accounts tables =
    flat_map (λ t. table_entries t.account_key t.writable_indexes) tables
    ++ flat_map (λ t. table_entries t.account_key t.readonly_indexes) tables

-- Where an account of a transaction is found: among its own keys or in a lookup table.
pub data AccountPlace : Type 0 where
  static_key : KeyBytes → AccountPlace
  looked_up : LookupAccount → AccountPlace

-- find_and_query_lookup_table, up to the query.
unfoldable pub find_lookup : List LookupAccount → ℕ → Reply AccountPlace
find_lookup accounts position = do
  entry ← ok_or (get_elem? accounts position) (bad_parameters account_not_in_lookup_accounts)
  ok (looked_up entry)

-- extract_account, up to the query.
unfoldable pub locate_account : Transaction → CompiledInstruction → ℕ → Reply AccountPlace
locate_account tx instruction position = do
  account_position ←
      ok_or (get_elem? instruction.accounts position) (bad_parameters account_not_in_instruction)
  elim (get_elem? tx.static_account_keys account_position) [
    | some account ↦ ok (static_key account)
    | none ↦ elim tx.address_table_lookups [
      | none ↦ err (bad_parameters no_lookup_tables)
      | some tables ↦
          find_lookup (lookup_accounts tables) (account_position - length tx.static_account_keys)
    ]
  ]

unfoldable pub resolve : Chain → Reply AccountPlace → LookupTables → Reply KeyBytes × LookupTables
resolve chain (err e) cache = (err e, cache)
resolve chain (ok (static_key account)) cache = (ok account, cache)
resolve chain (ok (looked_up entry)) cache = query_lookup_table chain entry.0 entry.1 cache

unfoldable pub extract_account :
    Chain → Transaction → CompiledInstruction → ℕ → LookupTables → Reply KeyBytes × LookupTables
extract_account chain tx instruction position cache =
    resolve chain (locate_account tx instruction position) cache
