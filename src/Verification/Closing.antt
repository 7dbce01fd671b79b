-- ===== src/Verification/Closing.antt =====
-- check_close_account_instruction of verification.rs: the token accounts that a swap may close.
pub mod Destinations
use per.Prelude.{
  ℕ, zero, suc, ◌+◌, ◌-◌, ◌*◌, ◌/◌, ◌%◌, ◌^◌, ◌≤◌, ◌<◌, ◌≡◌, refl, sym, ap, subst, ◌∙◌, ◌≢◌, ◌↔◌,
  ◌⊎◌, inl, inr, Bool, true, false, ◌&&◌, ◌||◌, Option, none, some, List, [], ◌∷◌, ◌++◌, map, arith,
  ltb, leb, ◌==◌, not, ◌!=◌, if◌then◌else◌, ==_refl, Bool-cases, Option-cases, bytes_eq,
  bytes_eq_refl, bytes_eq_iff, take-append, drop-append, length, take, drop, get_elem?,
  length-append, keep, find, any, all, is_empty, first, All, Result, ok, err, ◌>>=◌, ◌>>◌, fail_if,
  ok_or, Result-cases, OnSome, u64_limit, checked_add, checked_sub, checked_mul, saturating_sub,
}
use per.Auction.Entities.{KeyBytes, Transaction}
use per.Verification.Instructions.{
  Verifier, CloseAccountInstructionData, extract_close_account_instructions,
}
use per.Verification.BidData.{SwapAccounts}
use per.Verification.Wrapping.{native_ata}
use per.Auction.Errors.{
  Reply, invalid_instruction, invalid_close_account_instruction_count_user,
  invalid_close_account_instruction_count_searcher,
  invalid_account_to_close_in_close_account_instruction, close_account_instruction_not_allowed,
  invalid_destination_close_account_instruction, invalid_owner_close_account_instruction,
}

abbrev pub closes : KeyBytes → CloseAccountInstructionData → Bool
closes account c = bytes_eq c.account account

-- The two partitions: the user's account, else the searcher's, else another.
unfoldable pub user_closes :
    Verifier → SwapAccounts → List CloseAccountInstructionData → List CloseAccountInstructionData
user_closes v accounts cs = keep (closes (native_ata v accounts.user_wallet)) cs

unfoldable pub not_user_closes :
    Verifier → SwapAccounts → List CloseAccountInstructionData → List CloseAccountInstructionData
not_user_closes v accounts cs = keep (λ c. not (closes (native_ata v accounts.user_wallet) c)) cs

unfoldable pub searcher_closes :
    Verifier → SwapAccounts → List CloseAccountInstructionData → List CloseAccountInstructionData
searcher_closes v accounts cs =
    keep (closes (native_ata v accounts.searcher)) (not_user_closes v accounts cs)

unfoldable pub other_closes :
    Verifier → SwapAccounts → List CloseAccountInstructionData → List CloseAccountInstructionData
other_closes v accounts cs =
    keep (λ c. not (closes (native_ata v accounts.searcher) c)) (not_user_closes v accounts cs)

abbrev pub index_of : CloseAccountInstructionData → ℕ
index_of c = c.index

abbrev pub first_index : List CloseAccountInstructionData → Option ℕ
first_index [] = none
first_index (c ∷ cs) = some c.index

unfoldable pub check_no_others : List CloseAccountInstructionData → Reply (Unit {0})
check_no_others [] = ok tt
check_no_others (c ∷ cs) = err (
    invalid_instruction (some c.index)
      (invalid_account_to_close_in_close_account_instruction c.account))

-- The user's own account is closed by the user and to the user.
unfoldable pub check_user_close : SwapAccounts → CloseAccountInstructionData → Reply (Unit {0})
check_user_close accounts c = do
  fail_if (not (bytes_eq c.destination accounts.user_wallet)) (
      invalid_instruction (some c.index)
        (invalid_destination_close_account_instruction accounts.user_wallet c.destination))
  fail_if (not (bytes_eq c.owner accounts.user_wallet)) (
      invalid_instruction (some c.index)
        (invalid_owner_close_account_instruction accounts.user_wallet c.owner))

-- The user unwraps once; a user who pays in native tokens may also not unwrap.
unfoldable pub check_user_closes :
    Verifier → SwapAccounts → List CloseAccountInstructionData → Reply (Unit {0})
check_user_closes v accounts [] =
    fail_if (not (bytes_eq accounts.mint_user v.solana.native_mint))
      (invalid_instruction none (invalid_close_account_instruction_count_user 0))
check_user_closes v accounts (c ∷ cs) = do
  check_user_close accounts c
  fail_if (not (is_empty cs)) (
      invalid_instruction (first_index cs)
        (invalid_close_account_instruction_count_user (1 + length cs)))

unfoldable pub check_searcher_closes : List CloseAccountInstructionData → Reply (Unit {0})
check_searcher_closes cs = fail_if (ltb 1 (length cs)) (
    invalid_instruction (elim (get_elem? cs 1) [ none ↦ none | some c ↦ some c.index ])
      (invalid_close_account_instruction_count_searcher (length cs)))

-- `front().or(front())`
abbrev pub first_of_both :
    List CloseAccountInstructionData → List CloseAccountInstructionData → Option ℕ
first_of_both [] others = first_index others
first_of_both (c ∷ cs) others = some c.index

unfoldable pub swaps_native : Verifier → SwapAccounts → Bool
swaps_native v accounts =
    bytes_eq accounts.mint_searcher v.solana.native_mint
    || bytes_eq accounts.mint_user v.solana.native_mint

unfoldable pub check_closes :
    Verifier → SwapAccounts → List CloseAccountInstructionData → Reply (Unit {0})
check_closes v accounts cs =
    let users = user_closes v accounts cs in
    let searchers = searcher_closes v accounts cs in
    check_no_others (other_closes v accounts cs)
    >> (if swaps_native v accounts
        then check_user_closes v accounts users >> check_searcher_closes searchers
        else fail_if (not (is_empty users) || not (is_empty searchers)) (
            invalid_instruction (first_of_both users searchers)
              close_account_instruction_not_allowed))

unfoldable pub check_close_account_instruction :
    Verifier → Transaction → SwapAccounts → Reply (Unit {0})
check_close_account_instruction v tx accounts = do
  cs ← extract_close_account_instructions v tx
  check_closes v accounts cs
