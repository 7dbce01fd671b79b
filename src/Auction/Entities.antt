-- ===== src/Auction/Entities.antt =====
-- auction-server/src/auction/entities/bid.rs and auction.rs: bids, their statuses and auctions. Ids
-- and signatures are numbers, since they are only compared; a time is a number of milliseconds.
pub mod PermissionKey
pub mod Auction
use per.Prelude.{
  ℕ, zero, suc, ◌+◌, ◌-◌, ◌*◌, ◌/◌, ◌%◌, ◌^◌, ◌≤◌, ◌<◌, ◌≡◌, refl, sym, ap, subst, ◌∙◌, ◌≢◌, ◌↔◌,
  ◌⊎◌, inl, inr, Bool, true, false, ◌&&◌, ◌||◌, Option, none, some, List, [], ◌∷◌, ◌++◌, map, arith,
  ltb, leb, ◌==◌, not, ◌!=◌, if◌then◌else◌, ==_refl, Bool-cases, Option-cases, bytes_eq,
  bytes_eq_refl, bytes_eq_iff, take-append, drop-append, length, take, drop, get_elem?, keep, find,
  any, all, is_empty, first, All, Result, ok, err, ◌>>=◌, ◌>>◌, fail_if, ok_or, Result-cases,
  OnSome, u64_limit, checked_add, checked_sub, checked_mul, saturating_sub,
}

abbrev pub AuctionId : Type 0
AuctionId = ℕ

abbrev pub BidId : Type 0
BidId = ℕ

abbrev pub Signature : Type 0
Signature = ℕ

abbrev pub ProfileId : Type 0
ProfileId = ℕ

abbrev pub Time : Type 0
Time = ℕ

-- The 32 bytes of a Solana key.
abbrev pub KeyBytes : Type 0
KeyBytes = List ℕ

pub record BidStatusAuction : Type 0 where
  pub id : AuctionId
  pub tx_hash : Signature

pub data BidSubmissionFailedReason : Type 0 where
  was_cancelled deadline_missed : BidSubmissionFailedReason

pub data BidFailedReason : Type 0 where
  insufficient_user_funds insufficient_searcher_funds : BidFailedReason
  insufficient_funds_sol_transfer deadline_passed other_reason : BidFailedReason

pub data BidStatusSvm : Type 0 where
  pending : BidStatusSvm
  awaiting_signature : BidStatusAuction → BidStatusSvm
  sent_to_user_for_submission : BidStatusAuction → BidStatusSvm
  submitted : BidStatusAuction → BidStatusSvm
  lost : Option BidStatusAuction → BidStatusSvm
  won : BidStatusAuction → BidStatusSvm
  failed : BidStatusAuction → Option BidFailedReason → BidStatusSvm
  expired : BidStatusAuction → BidStatusSvm
  cancelled : BidStatusAuction → BidStatusSvm
  submission_failed : BidStatusAuction → BidSubmissionFailedReason → BidStatusSvm

-- The errors of a transaction, as far as they are matched: a custom code of one instruction, or not.
pub data TransactionError : Type 0 where
  custom_error : (index code : ℕ) → TransactionError
  other_error : TransactionError

-- Anchor numbers the variants of an error enum from 6000 on, in their order in error.rs.
abbrev pub deadline_passed_code : ℕ
deadline_passed_code = 6002

abbrev pub insufficient_searcher_funds_code : ℕ
insufficient_searcher_funds_code = 6006

abbrev pub insufficient_user_funds_code : ℕ
insufficient_user_funds_code = 6009

unfoldable pub get_failed_reason_from_transaction_error : TransactionError → BidFailedReason
get_failed_reason_from_transaction_error (custom_error index code) =
    if code == 1
    then insufficient_funds_sol_transfer
    else if code == deadline_passed_code
    then deadline_passed
    else if code == insufficient_searcher_funds_code
    then insufficient_searcher_funds
    else if code == insufficient_user_funds_code
    then insufficient_user_funds
    else other_reason
get_failed_reason_from_transaction_error other_error = other_reason

abbrev pub is_pending : BidStatusSvm → Bool
is_pending pending = true
is_pending _ = false

abbrev pub is_awaiting_signature : BidStatusSvm → Bool
is_awaiting_signature (awaiting_signature auction) = true
is_awaiting_signature _ = false

abbrev pub is_sent_to_user_for_submission : BidStatusSvm → Bool
is_sent_to_user_for_submission (sent_to_user_for_submission auction) = true
is_sent_to_user_for_submission _ = false

abbrev pub is_submitted : BidStatusSvm → Bool
is_submitted (submitted auction) = true
is_submitted _ = false

abbrev pub is_cancelled : BidStatusSvm → Bool
is_cancelled (cancelled auction) = true
is_cancelled _ = false

abbrev pub is_concluded : BidStatusSvm → Bool
is_concluded (lost auction) = true
is_concluded (won auction) = true
is_concluded (failed auction reason) = true
is_concluded (expired auction) = true
is_concluded (cancelled auction) = true
is_concluded (submission_failed auction reason) = true
is_concluded _ = false

abbrev pub new_lost : BidStatusSvm
new_lost = lost none

abbrev pub get_auction_id : BidStatusSvm → Option AuctionId
get_auction_id pending = none
get_auction_id (awaiting_signature auction) = some auction.id
get_auction_id (sent_to_user_for_submission auction) = some auction.id
get_auction_id (submitted auction) = some auction.id
get_auction_id (lost none) = none
get_auction_id (lost (some auction)) = some auction.id
get_auction_id (won auction) = some auction.id
get_auction_id (failed auction reason) = some auction.id
get_auction_id (expired auction) = some auction.id
get_auction_id (cancelled auction) = some auction.id
get_auction_id (submission_failed auction reason) = some auction.id

pub record CompiledInstruction : Type 0 where
  pub program_id_index : ℕ
  pub accounts : List ℕ
  pub bytes : List ℕ

pub record AddressTableLookup : Type 0 where
  pub account_key : KeyBytes
  pub writable_indexes : List ℕ
  pub readonly_indexes : List ℕ

-- VersionedTransaction of the Solana SDK, as far as the server reads it. `message` stands for the
-- serialised message; a legacy message has no lookups.
pub record Transaction : Type 0 where
  pub signatures : List Signature
  pub static_account_keys : List KeyBytes
  pub message : List ℕ
  pub instructions : List CompiledInstruction
  pub address_table_lookups : Option (List AddressTableLookup)

pub data BidPaymentInstructionType : Type 0 where
  submit_bid_type swap_type : BidPaymentInstructionType

pub record BidChainDataSvm : Type 0 where
  pub transaction : Transaction
  pub bid_payment_instruction_type : BidPaymentInstructionType
  pub router : KeyBytes
  pub permission_account : KeyBytes

pub record Bid : Type 0 where
  pub id : BidId
  pub chain_id : ℕ
  pub initiation_time : Time
  pub profile_id : Option ProfileId
  pub opportunity_id : Option ℕ
  pub creation_time : Time
  pub conclusion_time : Option Time
  pub submission_time : Option Time
  pub amount : ℕ
  pub status : BidStatusSvm
  pub chain_data : BidChainDataSvm

-- `signatures[0]`, which every transaction of a bid has; the source panics on an empty list.
abbrev pub first_signature : Bid → Option Signature
first_signature b = first b.chain_data.transaction.signatures
