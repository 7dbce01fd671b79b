-- ===== src/Verification/Wrapping.antt =====
-- check_transfer_instruction, check_sync_native_instruction_exists and check_memo_instructions of
-- verification.rs: the native tokens that a swap wraps, and its memo.
use per.Prelude.{
  ℕ, suc, ◌&&◌, Option, none, some, List, [], ◌∷◌, ltb, not, ◌!=◌, if◌then◌else◌, bytes_eq, length,
  get_elem?, is_empty, ok, err, ◌>>=◌, ◌>>◌, fail_if,
}
use per.Auction.Entities.{KeyBytes, Transaction, CompiledInstruction}
use per.Opportunity.Entities.{OpportunitySvmProgramSwap, get_user_amount_to_wrap}
use per.Verification.Instructions.{
  Verifier, Numbered, TransferInstructionData, extract_transfer_instructions,
  extract_program_instructions, extract_sync_native_instructions, account_of,
}
use per.Verification.BidData.{BidTransactionDataSwap}
use per.Auction.Errors.{
  Reply, invalid_instruction, invalid_memo_string, transfer_instruction_not_allowed,
  invalid_sync_native_instruction_count, invalid_from_account_transfer_instruction,
  invalid_transfer_instructions_count, invalid_amount_transfer_instruction,
  invalid_to_account_transfer_instruction, invalid_memo_instruction_count,
}

-- get_associated_token_address, which takes the first token program.
abbrev pub native_ata : Verifier → KeyBytes → KeyBytes
native_ata v wallet =
    v.solana.associated_token_address wallet v.solana.native_mint v.solana.spl_token

-- Both ends of a transfer: from a wallet to its token account for native tokens.
unfoldable pub check_transfer_accounts :
    Verifier → KeyBytes → TransferInstructionData → Reply (Unit {0})
check_transfer_accounts v wallet t = do
  fail_if (not (bytes_eq t.sender wallet)) (
      invalid_instruction (some t.index)
        (invalid_from_account_transfer_instruction wallet t.sender))
  fail_if (not (bytes_eq t.receiver (native_ata v wallet))) (
      invalid_instruction (some t.index)
        (invalid_to_account_transfer_instruction (native_ata v wallet) t.receiver))

-- The user wraps the amount of the swap, or what the user's balance allows of it.
unfoldable pub check_user_transfer :
    Verifier
    → BidTransactionDataSwap
    → OpportunitySvmProgramSwap
    → List TransferInstructionData
    → Reply (Unit {0})
check_user_transfer v d opp (t ∷ []) =
    let amount_user_to_wrap =
      get_user_amount_to_wrap v.solana.token_account_rent opp d.args.amount_user in
    (do
      check_transfer_accounts v d.accounts.user_wallet t
      fail_if (d.args.amount_user != t.lamports && amount_user_to_wrap != t.lamports) (
          invalid_instruction (some t.index)
            (invalid_amount_transfer_instruction amount_user_to_wrap t.lamports)))
check_user_transfer v d opp transfers =
    err (invalid_instruction none invalid_transfer_instructions_count)

-- The searcher may wrap any amount; no other transfer is allowed.
unfoldable pub check_other_transfer :
    Verifier → BidTransactionDataSwap → List TransferInstructionData → Reply (Unit {0})
check_other_transfer v d [] = ok tt
check_other_transfer v d (t ∷ transfers) =
    if bytes_eq d.accounts.mint_searcher v.solana.native_mint && is_empty transfers
    then check_transfer_accounts v d.accounts.searcher t
    else err (invalid_instruction (some t.index) transfer_instruction_not_allowed)

unfoldable pub check_transfers :
    Verifier
    → BidTransactionDataSwap
    → OpportunitySvmProgramSwap
    → List TransferInstructionData
    → Reply (Unit {0})
check_transfers v d opp transfers = do
  fail_if (ltb 1 (length transfers)) (
      invalid_instruction (elim (get_elem? transfers 1) [ none ↦ none | some t ↦ some t.index ])
        invalid_transfer_instructions_count)
  if bytes_eq d.accounts.mint_user v.solana.native_mint
      then check_user_transfer v d opp transfers
      else check_other_transfer v d transfers

unfoldable pub check_transfer_instruction :
    Verifier → Transaction → BidTransactionDataSwap → OpportunitySvmProgramSwap → Reply (Unit {0})
check_transfer_instruction v tx d opp = do
  transfers ← extract_transfer_instructions v tx
  check_transfers v d opp transfers

-- The number of instructions whose first account is `ata`.
unfoldable pub count_matching :
    Verifier → Transaction → KeyBytes → List CompiledInstruction → Reply ℕ
count_matching v tx ata [] = ok 0
count_matching v tx ata (instruction ∷ instructions) = do
  account ← account_of v tx instruction 0
  matching ← count_matching v tx ata instructions
  ok (if bytes_eq ata account then suc matching else matching)

unfoldable pub check_sync_native_instruction_exists :
    Verifier → Transaction → KeyBytes → Reply (Unit {0})
check_sync_native_instruction_exists v tx wallet = do
  instructions ← extract_sync_native_instructions v tx
  matching ← count_matching v tx (native_ata v wallet) instructions
  fail_if (matching != 1)
      (invalid_instruction none (invalid_sync_native_instruction_count (native_ata v wallet)))

-- The `match` on the expected memo and the memo instructions.
unfoldable pub check_memos : Option (List ℕ) → List Numbered → Reply (Unit {0})
check_memos none [] = ok tt
check_memos (some memo) [] = ok tt
check_memos (some memo) ((index, instruction) ∷ []) =
    fail_if (not (bytes_eq instruction.bytes memo))
      (invalid_instruction (some index) (invalid_memo_string memo instruction.bytes))
check_memos none (m ∷ memos) =
    err (invalid_instruction none (invalid_memo_instruction_count 0 (length (m ∷ memos))))
check_memos (some memo) (m ∷ m' ∷ memos) =
    err (invalid_instruction none (invalid_memo_instruction_count 1 (length (m ∷ m' ∷ memos))))

unfoldable pub check_memo_instructions : Verifier → Transaction → Option (List ℕ) → Reply (Unit {0})
check_memo_instructions v tx memo = do
  memos ← extract_program_instructions tx v.solana.spl_memo_client
  check_memos memo memos
