-- ===== src/Verification/Accounts/Caching.antt =====
-- The cache of lookup tables refines the chain: while it holds what the chain holds, or an earlier
-- and shorter state of it, the answers are those of a server without a cache.
use per.Prelude.{
  ℕ, zero, suc, ◌≡◌, refl, sym, ap, subst, ◌∙◌, inl, inr, some, List, [], ◌∷◌, ◌++◌, arith,
  Bool-cases, Option-cases, bytes_eq, bytes_eq_iff, get_elem?, ok, err, Result-cases,
}
use per.Auction.Entities.{KeyBytes, Transaction, CompiledInstruction}
use per.Auction.Errors.{Reply}
use per.Verification.Accounts.{
  LookupTables, get_lookup_table, add_lookup_table, cached_account, TableAccount, table_account,
  Chain, read_table, fetch_lookup_table, query_lookup_table, AccountPlace, locate_account, resolve,
  extract_account, static_key, looked_up, rpc_error, account_not_found, not_a_table,
}

-- Any sequence of the requests that handlers make of extract_account, each of which is answered.
unfoldable pub extract_accounts :
    Chain
    → Transaction
    → List (CompiledInstruction × ℕ)
    → LookupTables
    → List (Reply KeyBytes) × LookupTables
extract_accounts chain tx [] cache = ([], cache)
extract_accounts chain tx ((instruction, position) ∷ requests) cache =
    let (account, cache1) = extract_account chain tx instruction position cache in
    let (accounts, cache2) = extract_accounts chain tx requests cache1 in
    (account ∷ accounts, cache2)

-- A table of the chain holds the cached addresses, and perhaps more after them: a lookup table is
-- only ever extended.
unfoldable pub HoldsPrefix : TableAccount → List KeyBytes → Type 0
HoldsPrefix account addresses =
    (rest : List KeyBytes) × (account ≡ table_account (addresses ++ rest))

unfoldable pub Agrees : Chain → LookupTables → Type 0
Agrees chain [] = Unit
Agrees chain ((key, addresses) ∷ tables) = HoldsPrefix (chain key) addresses × Agrees chain tables

-- The answer of the chain alone.
abbrev uncached : Chain → KeyBytes → ℕ → Reply KeyBytes
uncached chain table index = (fetch_lookup_table chain table index []).0

get_elem-append {ℓ} :
    {A : Type ℓ} (xs ys : List A) (i : ℕ) (a : A)
    → get_elem? xs i ≡ some a
    → get_elem? (xs ++ ys) i ≡ some a
get_elem-append [] ys i a e = cc
get_elem-append (x ∷ xs) ys zero a e = e
get_elem-append (x ∷ xs) ys (suc i) a e = get_elem-append xs ys i a e

append_nil {ℓ} : {A : Type ℓ} (xs : List A) → xs ≡ xs ++ []
append_nil [] = refl
append_nil (x ∷ xs) = ap (◌∷◌ x) (append_nil xs)

fetched :
    (chain : Chain) (table : KeyBytes) (index : ℕ) (addresses : List KeyBytes) (account : KeyBytes)
    → HoldsPrefix (chain table) addresses
    → get_elem? addresses index ≡ some account
    → uncached chain table index ≡ ok account
unfolding fetch_lookup_table read_table HoldsPrefix
fetched chain table index addresses account (rest, holds) hit =
    ground (arith, get_elem-append addresses rest index account hit)

-- What the cache holds is what the chain answers.
cached_lem :
    (chain : Chain) (table : KeyBytes) (index : ℕ) (cache : LookupTables) (account : KeyBytes)
    → Agrees chain cache
    → cached_account table index cache ≡ some account
    → uncached chain table index ≡ ok account
unfolding get_lookup_table Agrees
cached_lem chain table index [] account agrees hit = cc
cached_lem chain table index ((key, addresses) ∷ tables) account agrees hit =
    elim (Bool-cases (bytes_eq key table)) [
      | inl same ↦
          fetched chain table index addresses account
            (subst (λ k. HoldsPrefix (chain k) addresses) ((bytes_eq_iff key table).0 same)
              agrees.0)
            (ground arith)
      | inr other ↦ cached_lem chain table index tables account agrees.1 (ground arith)
    ]

add_lookup_table-Agrees :
    (chain : Chain) (table : KeyBytes) (addresses : List KeyBytes) (cache : LookupTables)
    → HoldsPrefix (chain table) addresses
    → Agrees chain cache
    → Agrees chain (add_lookup_table table addresses cache)
unfolding add_lookup_table Agrees
add_lookup_table-Agrees chain table addresses [] holds agrees = (holds, tt)
add_lookup_table-Agrees chain table addresses ((key, old) ∷ tables) holds agrees =
    elim (Bool-cases (bytes_eq key table)) [
      | inl same ↦ rw same (
        subst (λ k. HoldsPrefix (chain k) addresses) (sym ((bytes_eq_iff key table).0 same)) holds,
        agrees.1,
      )
      | inr other ↦
          rw other (agrees.0, add_lookup_table-Agrees chain table addresses tables holds agrees.1)
    ]

read_table-HoldsPrefix :
    (account : TableAccount) (addresses : List KeyBytes)
    → read_table account ≡ ok addresses
    → HoldsPrefix account addresses
unfolding read_table HoldsPrefix
read_table-HoldsPrefix rpc_error addresses read = cc
read_table-HoldsPrefix account_not_found addresses read = cc
read_table-HoldsPrefix not_a_table addresses read = cc
read_table-HoldsPrefix (table_account held) addresses read =
    ([], ap table_account (append_nil held ∙ ap (λ xs. xs ++ []) cc))

fetch_lookup_table-Agrees :
    (chain : Chain) (table : KeyBytes) (index : ℕ) (cache : LookupTables)
    → Agrees chain cache
    → ((fetch_lookup_table chain table index cache).0 ≡ (fetch_lookup_table chain table index []).0)
      × Agrees chain (fetch_lookup_table chain table index cache).1
unfolding fetch_lookup_table
fetch_lookup_table-Agrees chain table index cache agrees =
    elim (Result-cases (read_table (chain table))) [
      | inl (e, failed) ↦ rw (fetch_lookup_table, failed) (refl, agrees)
      | inr (addresses, read) ↦ elim (Option-cases (get_elem? addresses index)) [
        | inl missing ↦ rw (fetch_lookup_table, read, missing) (refl, agrees)
        | inr (account, hit) ↦
            rw (fetch_lookup_table, read, hit)
              (
                refl,
                add_lookup_table-Agrees chain table addresses cache
                    (read_table-HoldsPrefix (chain table) addresses read) agrees,
              )
      ]
    ]

-- A query answers as the chain alone would, whether or not the cache has the table, and the cache
-- still agrees with the chain afterwards, when it did before.
pub query_lookup_table-Agrees :
    (chain : Chain) (table : KeyBytes) (index : ℕ) (cache : LookupTables)
    → Agrees chain cache
    → ((query_lookup_table chain table index cache).0 ≡ (query_lookup_table chain table index []).0)
      × Agrees chain (query_lookup_table chain table index cache).1
unfolding query_lookup_table get_lookup_table
query_lookup_table-Agrees chain table index cache agrees =
    elim (Option-cases (cached_account table index cache)) [
      | inl miss ↦
          rw (query_lookup_table, miss) (fetch_lookup_table-Agrees chain table index cache agrees)
      | inr (account, hit) ↦
          rw (query_lookup_table, hit)
            (sym (cached_lem chain table index cache account agrees hit), agrees)
    ]

pub resolve-Agrees :
    (chain : Chain) (place : Reply AccountPlace) (cache : LookupTables)
    → Agrees chain cache
    → ((resolve chain place cache).0 ≡ (resolve chain place []).0)
      × Agrees chain (resolve chain place cache).1
unfolding resolve
resolve-Agrees chain (err e) cache agrees = (refl, agrees)
resolve-Agrees chain (ok (static_key account)) cache agrees = (refl, agrees)
resolve-Agrees chain (ok (looked_up entry)) cache agrees =
    query_lookup_table-Agrees chain entry.0 entry.1 cache agrees

-- The answers without a cache, to each request by itself.
unfoldable pub fresh_answers :
    Chain → Transaction → List (CompiledInstruction × ℕ) → List (Reply KeyBytes)
fresh_answers chain tx [] = []
fresh_answers chain tx ((instruction, position) ∷ requests) =
    (extract_account chain tx instruction position []).0 ∷ fresh_answers chain tx requests

-- A sequence of requests for accounts, each of which may extend the cache, is answered as the chain
-- alone answers each of them, and the cache still agrees with the chain afterwards, when it did at
-- the start.
pub extract_accounts-refines :
    (chain : Chain) (tx : Transaction) (requests : List (CompiledInstruction × ℕ))
    (cache : LookupTables)
    → Agrees chain cache
    → ((extract_accounts chain tx requests cache).0 ≡ fresh_answers chain tx requests)
      × Agrees chain (extract_accounts chain tx requests cache).1
unfolding extract_accounts extract_account fresh_answers
extract_accounts-refines chain tx [] cache agrees = (refl, agrees)
extract_accounts-refines chain tx ((instruction, position) ∷ requests) cache agrees =
    let place = locate_account tx instruction position in
    let now = resolve-Agrees chain place cache agrees in
    let later = extract_accounts-refines chain tx requests (resolve chain place cache).1 now.1 in
    (cc, later.1)
