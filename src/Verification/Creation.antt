-- ===== src/Verification/Creation.antt =====
-- check_create_ata_instructions of verification.rs: who pays for the token accounts that a swap
-- creates.
use per.Prelude.{
  ℕ, zero, suc, ◌&&◌, Option, none, some, List, [], ◌∷◌, not, if◌then◌else◌, bytes_eq, ok, ◌>>=◌,
  ◌>>◌, fail_if, ok_or, try_for_each,
}
use per.Auction.Entities.{KeyBytes, Transaction}
use per.Opportunity.Entities.{
  TokenAccountInitializationConfig, TokenAccountInitializationConfigs, is_user_payer,
}
use per.Verification.Instructions.{
  Verifier, CreateAtaInstructionData, extract_create_ata_instructions,
}
use per.Verification.BidData.{SwapAccounts}
use per.Auction.Errors.{
  Reply, invalid_instruction, missing_create_ata_instruction,
  invalid_payer_in_create_ata_instruction, invalid_mint_in_create_ata_instruction,
  invalid_owner_in_create_ata_instruction, handler_panic,
  invalid_token_program_in_create_ata_instruction,
}

abbrev pub Creations : Type 0
Creations = List CreateAtaInstructionData

-- The mint and the token program of one of the user's accounts.
pub record UserAccount : Type 0 where
  pub mint : KeyBytes
  pub token_program : KeyBytes

abbrev pub user_ata : Verifier → SwapAccounts → UserAccount → KeyBytes
user_ata v accounts u =
    v.solana.associated_token_address accounts.user_wallet u.mint u.token_program

-- `position` of the first creation of `ata`.
unfoldable pub position_of_ata : KeyBytes → Creations → Option ℕ
position_of_ata ata [] = none
position_of_ata ata (c ∷ creations) =
    let rest = position_of_ata ata creations in
    if bytes_eq c.ata ata then some 0 else elim rest [ none ↦ none | some i ↦ some (suc i) ]

abbrev pub last_of : Creations → Option CreateAtaInstructionData
last_of [] = none
last_of (c ∷ []) = some c
last_of (c ∷ c' ∷ creations) = last_of (c' ∷ creations)

abbrev pub without_last : Creations → Creations
without_last [] = []
without_last (c ∷ []) = []
without_last (c ∷ c' ∷ creations) = c ∷ without_last (c' ∷ creations)

-- `swap_remove`: the last element takes the place of the removed one.
unfoldable pub swap_remove : ℕ → Creations → Option (CreateAtaInstructionData × Creations)
swap_remove i [] = none
swap_remove zero (c ∷ creations) =
    some (c, elim (last_of creations) [ none ↦ [] | some l ↦ l ∷ without_last creations ])
swap_remove (suc i) (c ∷ creations) = elim (swap_remove i creations) [
  | none ↦ none
  | some (removed, rest) ↦ some (removed, c ∷ rest)
]

unfoldable pub check_user_creation :
    SwapAccounts → UserAccount → CreateAtaInstructionData → Reply (Unit {0})
check_user_creation accounts u c = do
  fail_if (not (bytes_eq c.mint u.mint))
      (invalid_instruction (some c.index) (invalid_mint_in_create_ata_instruction u.mint c.mint))
  fail_if (not (bytes_eq c.owner accounts.user_wallet)) (
      invalid_instruction (some c.index)
        (invalid_owner_in_create_ata_instruction accounts.user_wallet c.owner))
  fail_if (not (bytes_eq c.token_program u.token_program)) (
      invalid_instruction (some c.index)
        (invalid_token_program_in_create_ata_instruction u.token_program c.token_program))
  fail_if (not (bytes_eq c.payer accounts.searcher) && not (bytes_eq c.payer accounts.user_wallet))
      (invalid_instruction (some c.index)
        (invalid_payer_in_create_ata_instruction accounts.user_wallet c.payer))

-- The body of the closure where the user pays for the account.
unfoldable pub remove_user_creation :
    Verifier → SwapAccounts → UserAccount → Creations → Reply Creations
remove_user_creation v accounts u creations = do
  i ←
      ok_or (position_of_ata (user_ata v accounts u) creations)
        (invalid_instruction none (missing_create_ata_instruction (user_ata v accounts u)))
  (matching, rest) ← ok_or (swap_remove i creations) handler_panic
  check_user_creation accounts u matching
  ok rest

unfoldable pub validate_and_remove_create_user_ata_instruction :
    Verifier
    → SwapAccounts
    → UserAccount
    → TokenAccountInitializationConfig
    → Creations
    → Reply Creations
validate_and_remove_create_user_ata_instruction v accounts u config creations =
    if is_user_payer config then remove_user_creation v accounts u creations else ok creations

-- The searcher pays for all the other accounts.
unfoldable pub check_searcher_pays : SwapAccounts → CreateAtaInstructionData → Reply (Unit {0})
check_searcher_pays accounts c = fail_if (not (bytes_eq c.payer accounts.searcher)) (
    invalid_instruction (some c.index)
      (invalid_payer_in_create_ata_instruction accounts.searcher c.payer))

unfoldable pub check_creations :
    Verifier → SwapAccounts → TokenAccountInitializationConfigs → Creations → Reply (Unit {0})
check_creations v accounts configs creations = do
  creations1 ←
      validate_and_remove_create_user_ata_instruction v accounts
        (record { mint = accounts.mint_user; token_program = accounts.token_program_user })
        configs.user_ata_mint_user creations
  creations2 ←
      validate_and_remove_create_user_ata_instruction v accounts
        (record { mint = accounts.mint_searcher; token_program = accounts.token_program_searcher })
        configs.user_ata_mint_searcher creations1
  try_for_each (check_searcher_pays accounts) creations2

unfoldable pub check_create_ata_instructions :
    Verifier → Transaction → SwapAccounts → TokenAccountInitializationConfigs → Reply (Unit {0})
check_create_ata_instructions v tx accounts configs = do
  creations ← extract_create_ata_instructions v tx
  check_creations v accounts configs creations
