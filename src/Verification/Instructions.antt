-- ===== src/Verification/Instructions.antt =====
-- The instructions of a transaction, as verification.rs reads them: the programs a swap may call, and
-- the transfers, sync-natives, closed accounts and created token accounts among them. An account
-- is read with the cache of lookup tables as it is at the start, since the cache does not change the
-- answers (Accounts/Caching). An index of a program out of range makes the source panic.
use per.Prelude.{
  ℕ, Bool, true, false, ◌||◌, Option, none, some, List, map, not, if◌then◌else◌, bytes_eq,
  get_elem?, keep, Result, ok, err, ◌>>=◌, ◌>>◌, fail_if, ok_or, map_err, try_for_each,
  try_filter_map, enumerate,
}
use per.Auction.Entities.{KeyBytes, Transaction, CompiledInstruction}
use per.Verification.Solana.{
  Solana, ExpressRelaySvm, SystemInstruction, transfer, other_system_instruction, TokenInstruction,
  close_account, sync_native, other_token_instruction, AssociatedTokenAccountInstruction, create,
  create_idempotent, other_ata_instruction,
}
use per.Verification.Accounts.{LookupTables, Chain, extract_account}
use per.Auction.Errors.{
  InstructionError, Reply, invalid_instruction, unsupported_system_program_instruction,
  handler_panic, unsupported_program, invalid_associated_token_account_instruction,
  invalid_spl_token_instruction, unsupported_spl_token_instruction,
  invalid_system_program_in_create_ata_instruction,
  unsupported_associated_token_account_instruction,
}

-- The configuration of the server and what it reads of the chain.
pub record Verifier : Type 0 where
  pub solana : Solana
  pub express_relay : ExpressRelaySvm
  pub chain : Chain
  pub lookup_tables : LookupTables

abbrev pub Numbered : Type 0
Numbered = ℕ × CompiledInstruction

abbrev pub account_of : Verifier → Transaction → CompiledInstruction → ℕ → Reply KeyBytes
account_of v tx instruction position =
    (extract_account v.chain tx instruction position v.lookup_tables).0

-- `CompiledInstruction::program_id`, which indexes the transaction's own keys.
unfoldable pub program_id_of : Transaction → CompiledInstruction → Reply KeyBytes
program_id_of tx instruction =
    ok_or (get_elem? tx.static_account_keys instruction.program_id_index) handler_panic

-- The test of the filter in extract_program_instructions.
unfoldable pub of_program : Transaction → KeyBytes → Numbered → Reply (Option Numbered)
of_program tx program_id (index, instruction) = do
  program ← program_id_of tx instruction
  ok (if bytes_eq program program_id then some (index, instruction) else none)

unfoldable pub extract_program_instructions : Transaction → KeyBytes → Reply (List Numbered)
extract_program_instructions tx program_id =
    try_filter_map (of_program tx program_id) (enumerate 0 tx.instructions)

abbrev pub validate_system_instruction :
    Option SystemInstruction → Result InstructionError (Unit {0})
validate_system_instruction (some (transfer lamports)) = ok tt
validate_system_instruction _ = err unsupported_system_program_instruction

abbrev pub validate_token_instruction : Option TokenInstruction → Result InstructionError (Unit {0})
validate_token_instruction none = err invalid_spl_token_instruction
validate_token_instruction (some close_account) = ok tt
validate_token_instruction (some sync_native) = ok tt
validate_token_instruction (some other_token_instruction) = err unsupported_spl_token_instruction

abbrev pub validate_ata_instruction :
    Option AssociatedTokenAccountInstruction → Result InstructionError (Unit {0})
validate_ata_instruction none = err invalid_associated_token_account_instruction
validate_ata_instruction (some create) = ok tt
validate_ata_instruction (some create_idempotent) = ok tt
validate_ata_instruction (some other_ata_instruction) =
    err unsupported_associated_token_account_instruction

unfoldable pub validate_swap_transaction_instruction :
    Verifier → KeyBytes → CompiledInstruction → Result InstructionError (Unit {0})
validate_swap_transaction_instruction v program_id ix =
    if bytes_eq program_id v.solana.system_program
    then validate_system_instruction (v.solana.system_instruction ix.bytes)
    else if bytes_eq program_id v.solana.spl_token
    then validate_token_instruction (v.solana.token_instruction ix.bytes)
    else if bytes_eq program_id v.solana.spl_associated_token_account
    then validate_ata_instruction (v.solana.associated_token_account_instruction ix.bytes)
    else if bytes_eq program_id v.express_relay.program_id
        || (bytes_eq program_id v.solana.spl_memo_client
            || bytes_eq program_id v.solana.compute_budget)
    then ok tt
    else err (unsupported_program program_id)

-- One step of the `try_for_each`.
unfoldable pub validate_numbered : Verifier → Transaction → Numbered → Reply (Unit {0})
validate_numbered v tx (index, ix) = do
  program_id ← program_id_of tx ix
  map_err (invalid_instruction (some index)) (validate_swap_transaction_instruction v program_id ix)

unfoldable pub validate_swap_transaction_instructions : Verifier → Transaction → Reply (Unit {0})
validate_swap_transaction_instructions v tx =
    try_for_each (validate_numbered v tx) (enumerate 0 tx.instructions)

pub record TransferInstructionData : Type 0 where
  pub index : ℕ
  pub sender : KeyBytes
  pub receiver : KeyBytes
  pub lamports : ℕ

pub record CloseAccountInstructionData : Type 0 where
  pub index : ℕ
  pub account : KeyBytes
  pub destination : KeyBytes
  pub owner : KeyBytes

pub record CreateAtaInstructionData : Type 0 where
  pub index : ℕ
  pub payer : KeyBytes
  pub ata : KeyBytes
  pub owner : KeyBytes
  pub mint : KeyBytes
  pub token_program : KeyBytes

-- The filter keeps only transfers, so the loop's own errors on other data do not arise.
unfoldable pub transfer_of :
    Verifier → Transaction → Numbered → Reply (Option TransferInstructionData)
transfer_of v tx (index, instruction) = elim (v.solana.system_instruction instruction.bytes) [
  | some (transfer lamports) ↦ do
    sender ← account_of v tx instruction 0
    receiver ← account_of v tx instruction 1
    ok (some (record { index = index; sender = sender; receiver = receiver; lamports = lamports }))
  | some other_system_instruction ↦ ok none
  | none ↦ ok none
]

unfoldable pub extract_transfer_instructions :
    Verifier → Transaction → Reply (List TransferInstructionData)
extract_transfer_instructions v tx = do
  instructions ← extract_program_instructions tx v.solana.system_program
  try_filter_map (transfer_of v tx) instructions

abbrev pub is_sync_native : Option TokenInstruction → Bool
is_sync_native (some sync_native) = true
is_sync_native _ = false

unfoldable pub extract_sync_native_instructions :
    Verifier → Transaction → Reply (List CompiledInstruction)
extract_sync_native_instructions v tx = do
  token_instructions ← extract_program_instructions tx v.solana.spl_token
  ok (
      map (λ n. n.1)
        (keep (λ n. is_sync_native (v.solana.token_instruction n.1.bytes)) token_instructions))

abbrev pub is_close_account : Option TokenInstruction → Bool
is_close_account (some close_account) = true
is_close_account _ = false

-- The accounts are read together; they are given here in order, and so is their first error.
unfoldable pub close_account_of :
    Verifier → Transaction → Numbered → Reply (Option CloseAccountInstructionData)
close_account_of v tx (index, instruction) =
    if is_close_account (v.solana.token_instruction instruction.bytes)
    then (do
      account ← account_of v tx instruction 0
      destination ← account_of v tx instruction 1
      owner ← account_of v tx instruction 2
      ok (
          some (record {
            index = index;
            account = account;
            destination = destination;
            owner = owner;
          })))
    else ok none

unfoldable pub extract_close_account_instructions :
    Verifier → Transaction → Reply (List CloseAccountInstructionData)
extract_close_account_instructions v tx = do
  instructions ← extract_program_instructions tx v.solana.spl_token
  try_filter_map (close_account_of v tx) instructions

abbrev pub is_create_ata : Option AssociatedTokenAccountInstruction → Bool
is_create_ata (some create) = true
is_create_ata (some create_idempotent) = true
is_create_ata _ = false

unfoldable pub create_ata_of :
    Verifier → Transaction → Numbered → Reply (Option CreateAtaInstructionData)
create_ata_of v tx (index, instruction) =
    if is_create_ata (v.solana.associated_token_account_instruction instruction.bytes)
    then (do
      payer ← account_of v tx instruction 0
      ata ← account_of v tx instruction 1
      owner ← account_of v tx instruction 2
      mint ← account_of v tx instruction 3
      system_program ← account_of v tx instruction 4
      token_program ← account_of v tx instruction 5
      fail_if (not (bytes_eq system_program v.solana.system_program)) (
          invalid_instruction (some index)
            (invalid_system_program_in_create_ata_instruction system_program))
      ok (
          some (record {
            index = index;
            payer = payer;
            ata = ata;
            owner = owner;
            mint = mint;
            token_program = token_program;
          })))
    else ok none

unfoldable pub extract_create_ata_instructions :
    Verifier → Transaction → Reply (List CreateAtaInstructionData)
extract_create_ata_instructions v tx = do
  instructions ← extract_program_instructions tx v.solana.spl_associated_token_account
  try_filter_map (create_ata_of v tx) instructions
