-- ===== src/Auction/Tests.antt =====
-- Bids, rows and a service on which the theorems about the auction server are applied.
use per.Prelude.{
  ℕ, zero, suc, ◌+◌, ◌≤◌, ◌≡◌, refl, ◌⊎◌, Option, none, some, List, [], ◌∷◌, ◌++◌, length, find,
  OnSome, is_empty, false, All,
}
use per.Auction.Entities.{
  BidId, BidStatusSvm, BidStatusAuction, Bid, Transaction, BidChainDataSvm, KeyBytes,
  submit_bid_type, Signature, submitted, failed, awaiting_signature, cancelled, BidFailedReason,
  expired, lost, Time, won,
}
use per.Auction.Entities.Auction.{Auction, try_new}
use per.Auction.Entities.PermissionKey.{
  PermissionKeySvm, IsSized, get_permission_key, get_bid_payment_instruction_type, get_router,
  get_permission_account, get_chain_data_entity, get_permission_key-roundtrip,
  get_chain_data_entity-roundtrip, get_chain_data_entity_legacy,
}
use per.Auction.Database.{
  Row, get_bid_status_entity, get_update_bid_query, reason_model, status_entity, convert_bid_status,
  get_bid_status_reason, AuctionRow, BidStatus,
}
use per.Auction.Database.Exclusion.{
  IsCancelledOrRefused, IsSubmittedOrLanded, run_cancelled, run_submitted,
}
use per.Auction.Database.Lifecycle.{
  Step, Reach, History, run, changes, updated, updated-Step, run-Reach, changes-le-three,
}
use per.Auction.Database.Reading.{get_bid_status, last_applied, run-get_bid_status}
use per.Auction.Database.Concluded.{IsRefused, run_concluded}
use per.Auction.Repository.Collection.{Eligible, try_new-Eligible}
use per.Auction.Repository.Operations.{
  Operation, perform_all, PendingIsValid, empty_repository, perform_all-IsValid, add_bid_of,
  update_bid_status_of, add_auction_of, conclude_auction_of,
}
use per.Auction.Service.{Service, SignatureStatus, conclude_auction_turn, Rpc}
use per.Auction.Service.Conclusion.{conclude_auction_turn-terminates}
use per.Auction.Service.Winners.{get_winner_bids_fallback, unbeaten}
use per.Auction.Service.Handling.{get_winner_bids}
use per.Auction.Service.Quotes.Sending.{submit_auction_bid_for_lock_sends, MaySend, SendsOnlyIf}
use per.Auction.Repository.{
  add_bid, get_in_memory_auction_by_id, get_bid_entity, Repository,
  get_in_memory_pending_bids_by_permission_key,
}
use per.Auction.Service.Quotes.{submit_auction_bid_for_lock}

abbrev bytes_of : ℕ → ℕ → KeyBytes
bytes_of zero b = []
bytes_of (suc n) b = b ∷ bytes_of n b

abbrev test_transaction : Transaction
test_transaction = record {
  signatures = 77 ∷ 78 ∷ [];
  static_account_keys = [];
  message = 1 ∷ 2 ∷ [];
  instructions = [];
  address_table_lookups = none;
}

abbrev test_chain_data : BidChainDataSvm
test_chain_data = record {
  transaction = test_transaction;
  bid_payment_instruction_type = submit_bid_type;
  router = bytes_of 32 3;
  permission_account = bytes_of 32 4;
}

test_chain_data-IsSized : IsSized test_chain_data
test_chain_data-IsSized = record { router_sized = refl; permission_sized = refl }

get_permission_key-roundtrip_example :
    (length (get_permission_key test_chain_data) ≡ 65)
    × (get_bid_payment_instruction_type (get_permission_key test_chain_data) ≡ some submit_bid_type)
    × (get_router (get_permission_key test_chain_data) ≡ bytes_of 32 3)
    × (get_permission_account (get_permission_key test_chain_data) ≡ bytes_of 32 4)
get_permission_key-roundtrip_example =
    get_permission_key-roundtrip test_chain_data test_chain_data-IsSized

get_chain_data_entity-roundtrip_example :
    get_chain_data_entity test_transaction (get_permission_key test_chain_data)
    ≡ some test_chain_data
get_chain_data_entity-roundtrip_example =
    get_chain_data_entity-roundtrip test_chain_data test_chain_data-IsSized

get_chain_data_entity_legacy_example :
    get_chain_data_entity test_transaction (bytes_of 32 3 ++ bytes_of 32 4) ≡ some test_chain_data
get_chain_data_entity_legacy_example =
    get_chain_data_entity_legacy test_chain_data test_chain_data-IsSized refl

abbrev test_status_auction : BidStatusAuction
test_status_auction = record { id = 5; tx_hash = 77 }

abbrev test_failed : BidStatusSvm
test_failed = failed test_status_auction (some BidFailedReason.insufficient_user_funds)

abbrev test_auction_row : AuctionRow
test_auction_row = record { id = 5; tx_hash = some 80; submission_time = some 1000 }

abbrev test_row : BidStatus → Row
test_row status = record {
  id = 9;
  permission_key = [];
  bid_amount = 100;
  status = status;
  auction_id = some 5;
  initiation_time = 0;
  conclusion_time = none;
  transaction = test_transaction;
  status_reason = none;
}

-- A cancellation that comes before and after the submission, and an expiry.
abbrev test_history : History
test_history =
    (10, 9, submitted test_status_auction)
    ∷ (11, 9, cancelled test_status_auction)
    ∷ (12, 8, expired test_status_auction)
    ∷ (13, 9, won test_status_auction)
    ∷ []

updated-Step_example :
    (updated 10 9 (submitted test_status_auction) (test_row BidStatus.pending)
      ≡ test_row BidStatus.pending)
    ⊎ (Step BidStatus.pending
          (updated 10 9 (submitted test_status_auction) (test_row BidStatus.pending)).status
        × ((updated 10 9 (submitted test_status_auction) (test_row BidStatus.pending)).status
            ≡ convert_bid_status (submitted test_status_auction))
        × ((test_row BidStatus.pending).id ≡ 9))
updated-Step_example =
    updated-Step 10 9 (submitted test_status_auction) (test_row BidStatus.pending)

run-Reach_example : Reach BidStatus.pending (run test_history (test_row BidStatus.pending)).status
run-Reach_example = run-Reach test_history (test_row BidStatus.pending)

changes-le-three_example : changes test_history (test_row BidStatus.pending) + 0 ≤ 3
changes-le-three_example = changes-le-three test_history (test_row BidStatus.pending)

run_concluded_example :
    (run test_history (test_row BidStatus.cancelled) ≡ test_row BidStatus.cancelled)
    ⊎ ((BidStatus.cancelled ≡ BidStatus.cancelled)
        × IsRefused (run test_history (test_row BidStatus.cancelled)).status)
unfolding convert_bid_status
run_concluded_example =
    run_concluded test_history (test_row BidStatus.cancelled) (cancelled test_status_auction) refl
      refl

abbrev fresh_row : Row
fresh_row = record (test_row BidStatus.pending) { auction_id = none }

-- The bid is sent, and then fails for the user's lack of funds.
abbrev test_failure : History
test_failure = (10, 9, submitted test_status_auction) ∷ (13, 9, test_failed) ∷ []

run-get_bid_status_example :
    get_bid_status (test_auction_row ∷ []) (run test_failure fresh_row)
    ≡ some (last_applied test_failure fresh_row BidStatusSvm.pending)
unfolding get_bid_status get_bid_status_entity status_entity
run-get_bid_status_example =
    run-get_bid_status (test_auction_row ∷ []) test_auction_row test_failure 77 fresh_row
      BidStatusSvm.pending refl refl (refl, refl) ((λ e. refl), ((λ e. refl), tt)) refl

test_last : last_applied test_failure fresh_row BidStatusSvm.pending ≡ test_failed
unfolding last_applied get_update_bid_query convert_bid_status reason_model
test_last = refl

run_cancelled_example :
    IsCancelledOrRefused (run test_history (test_row BidStatus.cancelled)).status
run_cancelled_example = run_cancelled test_history (test_row BidStatus.cancelled) refl

run_submitted_example : IsSubmittedOrLanded (run test_history (test_row BidStatus.submitted)).status
run_submitted_example = run_submitted test_history (test_row BidStatus.submitted) refl

abbrev test_bid : BidStatusSvm → BidId → ℕ → Bid
test_bid status id amount = record {
  id = id;
  chain_id = 1;
  initiation_time = 100;
  profile_id = some 6;
  opportunity_id = none;
  creation_time = 100;
  conclusion_time = none;
  submission_time = none;
  amount = amount;
  status = status;
  chain_data = test_chain_data;
}

abbrev test_auction : BidStatusSvm → Auction
test_auction status = record {
  id = 5;
  permission_key = [];
  creation_time = 200;
  bid_collection_time = 900;
  submission_time = none;
  tx_hash = some 77;
  bids = test_bid status 9 100 ∷ test_bid status 10 300 ∷ test_bid status 11 300 ∷ [];
}

abbrev test_operations : List Operation
test_operations =
    add_bid_of 9 100
      (record { chain_id = 1; initiation_time = 100; profile_id = some 6; opportunity_id = none })
      test_chain_data 100
    ∷ update_bid_status_of 300 (test_bid BidStatusSvm.pending 9 100) (lost none)
    ∷ add_auction_of (test_auction BidStatusSvm.pending)
    ∷ conclude_auction_of 900 5
    ∷ []

perform_all-IsValid_example : PendingIsValid (perform_all test_operations empty_repository)
unfolding add_bid get_bid_entity per.Auction.Database.get_bid_status_entity
    per.Auction.Repository.new_row status_entity get_chain_data_entity
    per.Auction.Entities.PermissionKey.stored_key get_permission_key
    get_bid_payment_instruction_type per.Auction.Repository.push_pending get_router
    get_permission_account
perform_all-IsValid_example =
    perform_all-IsValid test_operations (tt, ((((λ e. refl), tt), tt), (tt, (tt, tt))))

abbrev test_service : BidStatusSvm → Service
test_service status = record {
  repo = record empty_repository { auctions = test_auction status ∷ [] };
  events = [];
  sent = [];
}

abbrev test_statuses : Signature → Option SignatureStatus
test_statuses sig = some none

conclude_auction_turn-terminates_example :
    (after : Service) × (conclude_auction_turn
        (some test_statuses)
        300000
        5
        (test_service (submitted test_status_auction))
      ≡ some after)
    × ((rpc : Rpc) (later : Time) → conclude_auction_turn rpc later 5 after ≡ none)
unfolding get_in_memory_auction_by_id per.Auction.Service.is_auction_expired
conclude_auction_turn-terminates_example =
    conclude_auction_turn-terminates test_statuses 300000
      (test_auction (submitted test_status_auction)) (test_service (submitted test_status_auction))
      refl refl ((λ e. cc), ((λ e. cc), ((λ e. cc), tt)))

abbrev test_bids : List Bid
test_bids = (test_auction BidStatusSvm.pending).bids

get_winner_bids_fallback_example :
    get_winner_bids (λ bids. none) (test_auction BidStatusSvm.pending)
    ≡ elim (find (unbeaten test_bids) test_bids) [ none ↦ [] | some b ↦ b ∷ [] ]
get_winner_bids_fallback_example =
    get_winner_bids_fallback (λ bids. none) (test_auction BidStatusSvm.pending) refl

submit_auction_bid_for_lock_sends_example :
    OnSome
      (SendsOnlyIf
        (MaySend 10 20 5 (test_service (awaiting_signature test_status_auction)))
        test_transaction
        (test_service (awaiting_signature test_status_auction)))
      (submit_auction_bid_for_lock 10000 10 20
        (test_bid BidStatusSvm.pending 9 100)
        5
        (test_service (awaiting_signature test_status_auction)))
submit_auction_bid_for_lock_sends_example =
    submit_auction_bid_for_lock_sends 10000 10 20 (test_bid BidStatusSvm.pending 9 100) 5
      (test_service (awaiting_signature test_status_auction))

abbrev test_create : List Operation
test_create =
    add_bid_of 9 100
      (record { chain_id = 1; initiation_time = 100; profile_id = some 6; opportunity_id = none })
      test_chain_data 100
    ∷ []

abbrev test_repo : Repository
test_repo = perform_all test_create empty_repository

abbrev test_collected : Auction
test_collected = record {
  id = 5;
  permission_key = get_permission_key test_chain_data;
  creation_time = 900;
  bid_collection_time = 900;
  submission_time = none;
  tx_hash = none;
  bids = test_bid BidStatusSvm.pending 9 100 ∷ [];
}

test_collected_from :
    try_new 5 900
      (get_in_memory_pending_bids_by_permission_key
        (get_permission_key test_chain_data)
        test_repo.pending_bids)
      900
    ≡ some test_collected
unfolding try_new get_in_memory_pending_bids_by_permission_key add_bid get_bid_entity
    per.Auction.Database.get_bid_status_entity per.Auction.Repository.new_row status_entity
    get_chain_data_entity per.Auction.Entities.PermissionKey.stored_key get_permission_key
    get_bid_payment_instruction_type per.Auction.Repository.push_pending get_router
    get_permission_account
test_collected_from = refl

try_new-Eligible_example :
    (test_collected.permission_key ≡ get_permission_key test_chain_data)
    × (is_empty test_collected.bids ≡ false)
    × All (Eligible test_repo.bid_rows (get_permission_key test_chain_data)) test_collected.bids
try_new-Eligible_example =
    try_new-Eligible 5 900 900 (get_permission_key test_chain_data) test_repo test_collected
      (perform_all-IsValid test_create (tt, tt)) test_collected_from
