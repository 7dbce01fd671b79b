-- ===== src/Verification/Tests.antt =====
-- Concrete runs of the verification, with stand-ins for the code outside the repository.
use per.Prelude.{
  ℕ, zero, suc, ◌≡◌, refl, Option, none, some, List, [], ◌∷◌, ◌++◌, ◌==◌, if◌then◌else◌, bytes_eq,
  get_elem?, ok,
}
use per.Auction.Entities.{
  KeyBytes, Transaction, CompiledInstruction, BidChainDataSvm, submit_bid_type,
}
use per.Relay.Permission.{SubmitBidArgs}
use per.Relay.Swap.{SwapArgs, SwapV2Args}
use per.Verification.Solana.{
  Solana, ExpressRelaySvm, SystemInstruction, transfer, TokenInstruction, close_account,
  AssociatedTokenAccountInstruction, create, ComputeBudgetInstruction, set_compute_unit_price,
}
use per.Verification.Accounts.{
  Chain, TableAccount, table_account, account_not_found, LookupTables, locate_account, static_key,
  looked_up, extract_account, resolve,
}
use per.Verification.Accounts.Resolution.{
  to_option, account_keys, looked_up_keys, locate_account-account_keys,
}
use per.Verification.Accounts.Caching.{
  extract_accounts, Agrees, HoldsPrefix, fresh_answers, extract_accounts-refines,
}
use per.Verification.Instructions.{Verifier}
use per.Verification.Simulation.{Attempt, succeeded, failed_at, simulated}
use per.Verification.Budget.{PrioritizationFeeSample}
use per.Verification.Extraction.{World, BidChainDataCreateSvm, on_chain}

abbrev pub key : ℕ → KeyBytes
key n = n ∷ []

abbrev decode_transfer : List ℕ → Option SystemInstruction
decode_transfer (n ∷ []) = some (transfer n)
decode_transfer _ = none

abbrev decode_token : List ℕ → Option TokenInstruction
decode_token [] = none
decode_token _ = some close_account

abbrev decode_ata : List ℕ → Option AssociatedTokenAccountInstruction
decode_ata [] = none
decode_ata _ = some create

abbrev decode_budget : List ℕ → Option ComputeBudgetInstruction
decode_budget (n ∷ []) = some (set_compute_unit_price n)
decode_budget _ = none

abbrev decode_bid : List ℕ → Option SubmitBidArgs
decode_bid (d ∷ a ∷ []) = some (record { deadline = d; bid_amount = a })
decode_bid _ = none

abbrev no_swap : List ℕ → Option SwapArgs
no_swap _ = none

abbrev no_swap_v2 : List ℕ → Option SwapV2Args
no_swap_v2 _ = none

abbrev first_of : List (List ℕ) → KeyBytes
first_of [] = []
first_of (seed ∷ seeds) = seed

abbrev test_solana : Solana
test_solana = record {
  system_program = key 11;
  spl_token = key 12;
  spl_associated_token_account = key 13;
  spl_memo_client = key 14;
  compute_budget = key 15;
  native_mint = key 16;
  system_instruction = decode_transfer;
  token_instruction = decode_token;
  associated_token_account_instruction = decode_ata;
  compute_budget_instruction = decode_budget;
  associated_token_address = λ wallet mint program. wallet ++ mint;
  find_program_address = first_of;
  verify_signature = λ signature pubkey message. signature == 7;
  serialized_size = λ tx. some 100;
  packet_data_size = 1232;
  from_unix_timestamp = λ t. some t;
  token_account_rent = 10;
}

abbrev test_relay : ExpressRelaySvm
test_relay = record {
  program_id = key 3;
  relayer = key 1;
  submit_bid_discriminator = 9 ∷ [];
  swap_discriminator = 8 ∷ [];
  swap_v2_discriminator = 7 ∷ [];
  submit_bid_args = decode_bid;
  swap_args = no_swap;
  swap_v2_args = no_swap_v2;
  submit_bid_positions = record { permission_account = 0; router_account = 1 };
  swap_positions = record {
    searcher_account = 0;
    user_wallet_account = 1;
    mint_searcher_account = 2;
    mint_user_account = 3;
    router_token_account = 4;
    token_program_searcher = 5;
    token_program_user = 6;
  };
}

-- Table 50 of the chain has three keys, of which the cache has the first.
abbrev test_chain : Chain
test_chain table =
    if bytes_eq table (key 50)
    then table_account (key 61 ∷ key 62 ∷ key 63 ∷ [])
    else account_not_found

abbrev test_cache : LookupTables
test_cache = (key 50, key 61 ∷ []) ∷ []

abbrev pub test_verifier : Verifier
test_verifier = record {
  solana = test_solana;
  express_relay = test_relay;
  chain = test_chain;
  lookup_tables = test_cache;
}

-- The relayer and the permission account sign; the price of 5 is set for a compute unit.
abbrev bid_instruction : CompiledInstruction
bid_instruction = record { program_id_index = 3; accounts = 1 ∷ 2 ∷ []; bytes = 9 ∷ 6000 ∷ 50 ∷ [] }

abbrev pub price_instruction : CompiledInstruction
price_instruction = record { program_id_index = 4; accounts = []; bytes = 5 ∷ [] }

abbrev pub bid_transaction : Transaction
bid_transaction = record {
  signatures = 1 ∷ 7 ∷ [];
  static_account_keys = key 1 ∷ key 21 ∷ key 22 ∷ key 3 ∷ key 15 ∷ [];
  message = 5 ∷ [];
  instructions = price_instruction ∷ bid_instruction ∷ [];
  address_table_lookups = none;
}

abbrev pub fee_of : ℕ → PrioritizationFeeSample
fee_of n = record { fee = n; sample_time = 20000 }

abbrev pub test_attempts : ℕ → Attempt
test_attempts zero = failed_at 3
test_attempts (suc n) = succeeded

abbrev pub test_world : World
test_world = record {
  now = 25000;
  rounded_at_extraction = 0;
  rounded_at_check = 1000;
  samples = fee_of 4 ∷ fee_of 9 ∷ [];
  opportunities = [];
  pending_bids = [];
  platform_fee = ok 1;
  swap_simulation = simulated none;
  attempts = test_attempts;
}

abbrev test_bid : BidChainDataCreateSvm
test_bid = on_chain (record { transaction = bid_transaction; slot = some 7 })

abbrev stored_bid : BidChainDataSvm
stored_bid = record {
  transaction = bid_transaction;
  bid_payment_instruction_type = submit_bid_type;
  router = key 22;
  permission_account = key 21;
}

-- A transaction whose fourth account is the second of the writable ones.
abbrev lookup_instruction : CompiledInstruction
lookup_instruction = record { program_id_index = 0; accounts = 3 ∷ 4 ∷ []; bytes = [] }

abbrev lookup_transaction : Transaction
lookup_transaction = record {
  signatures = [];
  static_account_keys = key 1 ∷ key 2 ∷ [];
  message = [];
  instructions = lookup_instruction ∷ [];
  address_table_lookups = some (
      record { account_key = key 50; writable_indexes = 0 ∷ 1 ∷ []; readonly_indexes = 2 ∷ [] }
      ∷ []);
}

locate_account-account_keys_example :
    to_option (locate_account lookup_transaction lookup_instruction 0)
    ≡ get_elem? (account_keys lookup_transaction) 3
locate_account-account_keys_example =
    locate_account-account_keys lookup_transaction lookup_instruction 0 3 refl

located : get_elem? (account_keys lookup_transaction) 3 ≡ some (looked_up (key 50, 1))
unfolding account_keys looked_up_keys
located = refl

cache-Agrees : Agrees test_chain test_cache
unfolding Agrees HoldsPrefix
cache-Agrees = ((key 62 ∷ key 63 ∷ [], refl), tt)

abbrev test_requests : List (CompiledInstruction × ℕ)
test_requests = (lookup_instruction, 0) ∷ (lookup_instruction, 1) ∷ []

extract_accounts-refines_example :
    ((extract_accounts test_chain lookup_transaction test_requests test_cache).0
      ≡ fresh_answers test_chain lookup_transaction test_requests)
    × Agrees test_chain (extract_accounts test_chain lookup_transaction test_requests test_cache).1
extract_accounts-refines_example =
    extract_accounts-refines test_chain lookup_transaction test_requests test_cache cache-Agrees

answers : fresh_answers test_chain lookup_transaction test_requests ≡ ok (key 62) ∷ ok (key 63) ∷ []
unfolding fresh_answers per.Verification.Accounts.extract_account per.Verification.Accounts.resolve
    locate_account per.Verification.Accounts.find_lookup per.Verification.Accounts.lookup_accounts
    per.Verification.Accounts.flat_map per.Verification.Accounts.table_entries
    per.Verification.Accounts.query_lookup_table per.Verification.Accounts.get_lookup_table
    per.Verification.Accounts.fetch_lookup_table per.Verification.Accounts.read_table
answers = refl
