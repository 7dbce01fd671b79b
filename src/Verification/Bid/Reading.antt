-- ===== src/Verification/Bid/Reading.antt =====
-- What extract_bid_data answers, by what the transaction and the opportunity say.
use per.Prelude.{subst, ◌≡◌, refl, none, some, ok, ok_or, Option, fail_if, not, bytes_eq}
use per.Auction.Entities.{Transaction}
use per.Auction.Errors.{
  swap_opportunity_not_found, invalid_swap_instruction, associated_router_token_account,
}
use per.Opportunity.Entities.{
  OpportunitySvm, OpportunitySvmProgramSwap, QuoteTokens, get_swap_quote_tokens,
  get_opportunity_swap_data,
}
use per.Opportunity.Repository.{get_in_memory_opportunity_by_id}
use per.Verification.Instructions.{Verifier, validate_swap_transaction_instructions}
use per.Auction.Service.Handling.{by_server}
use per.Verification.Checks.{bind_ok, then_ok, ok_injective}
use per.Verification.BidData.{
  BidTransactionDataSubmitBid, BidTransactionDataSwap, get_bid_transaction_data_submit_bid,
  get_bid_transaction_data_swap,
}
use per.Verification.SwapFields.{check_svm_swap_bid_fields}
use per.Verification.SwapFields.Exact.{Matches, check_svm_swap_bid_fields_iff}
use per.Verification.Wrapping.{check_memo_instructions}
use per.Verification.Creation.{check_create_ata_instructions}
use per.Verification.Extraction.{
  BidChainDataOnChainCreateSvm, BidChainDataSwapCreateSvm, BidChainDataCreateSvm, on_chain,
  swap_bid, BidDataSvm, World, extract_bid_data, extract_on_chain, extract_swap, check_swap,
  swap_bid_amount, deadline_of, router_account, check_wrap_unwrap_native_token_instructions,
}

-- The bid's amount, router and permission account are those of its SubmitBid instruction.
pub record SaysBid (v : Verifier) (tx : Transaction) (d : BidDataSvm) : Type 0 where
  pub instruction : BidTransactionDataSubmitBid
  pub read : get_bid_transaction_data_submit_bid v tx ≡ ok instruction
  pub amount : d.amount ≡ instruction.args.bid_amount
  pub submitted_by : d.submit_type ≡ by_server
  pub router : d.router ≡ instruction.accounts.router
  pub permission : d.permission_account ≡ instruction.accounts.permission_account

-- The bid's swap instruction is the swap that the opportunity it names asks for, whose router it has.
pub record SaysSwap (v : Verifier) (world : World) (bid_data : BidChainDataSwapCreateSvm)
    (d : BidDataSvm) : Type 0 where
  pub opp : OpportunitySvm
  pub swap : OpportunitySvmProgramSwap
  pub tokens : QuoteTokens
  pub instruction : BidTransactionDataSwap
  pub known : get_in_memory_opportunity_by_id bid_data.opportunity_id world.opportunities ≡ some opp
  pub is_swap : get_opportunity_swap_data opp ≡ ok swap
  pub quoted : get_swap_quote_tokens opp ≡ ok tokens
  pub read :
      get_bid_transaction_data_swap v world.platform_fee bid_data.transaction ≡ ok instruction
  pub matches : Matches instruction swap tokens
  pub amount : d.amount ≡ swap_bid_amount tokens instruction.args
  pub router : d.router ≡ opp.create.router

abbrev pub Says : Verifier → World → BidChainDataCreateSvm → BidDataSvm → Type 0
Says v world (on_chain bid_data) d = SaysBid v bid_data.transaction d
Says v world (swap_bid bid_data) d = SaysSwap v world bid_data d

ok_or-some {ℓ κ} :
    {A : Type ℓ} {E : Type κ} (found : Option A) (e : E) (a : A)
    → ok_or found e ≡ ok a
    → found ≡ some a
ok_or-some none e a h = absurd cc
ok_or-some (some b) e a h = cc

-- What the checks of a swap have found of its data, its opportunity's swap and its tokens.
abbrev IsOpportunitySwap :
    Verifier
    → World
    → Transaction
    → OpportunitySvm
    → BidTransactionDataSwap × OpportunitySvmProgramSwap × QuoteTokens
    → Type 0
IsOpportunitySwap v world tx opp (instruction, swap, tokens) =
    (get_opportunity_swap_data opp ≡ ok swap)
    × (get_swap_quote_tokens opp ≡ ok tokens)
    × (get_bid_transaction_data_swap v world.platform_fee tx ≡ ok instruction)
    × (check_svm_swap_bid_fields instruction swap tokens ≡ ok tt)

checked_swap :
    (v : Verifier) (world : World) (tx : Transaction) (opp : OpportunitySvm)
    (instruction : BidTransactionDataSwap) (swap : OpportunitySvmProgramSwap) (tokens : QuoteTokens)
    → check_swap v world tx opp ≡ ok (instruction, swap, tokens)
    → IsOpportunitySwap v world tx opp (instruction, swap, tokens)
unfolding check_swap
checked_swap v world tx opp instruction swap tokens h =
    let (valid, h1) = then_ok (validate_swap_transaction_instructions v tx) _ _ h in
    let (t, quoted, h2) = bind_ok (get_swap_quote_tokens opp) _ _ h1 in
    let (s, is_swap, h3) = bind_ok (get_opportunity_swap_data opp) _ _ h2 in
    let (i, read, h4) = bind_ok (get_bid_transaction_data_swap v world.platform_fee tx) _ _ h3 in
    let (fields, h5) = then_ok (check_svm_swap_bid_fields i s t) _ _ h4 in
    let (memo, h6) = then_ok (check_memo_instructions v tx s.memo) _ _ h5 in
    let (created, h7) =
      then_ok (check_create_ata_instructions v tx i.accounts s.token_account_initialization_configs)
        _ _ h6 in
    let (wrapped, h8) = then_ok (check_wrap_unwrap_native_token_instructions v tx i s) _ _ h7 in
    let (account, h9) =
      then_ok
        (fail_if (not (bytes_eq (router_account v opp i) i.accounts.router_token_account)) (
          invalid_swap_instruction (
            associated_router_token_account (router_account v opp i)
              i.accounts.router_token_account)))
        _ _ h8 in
    subst (IsOpportunitySwap v world tx opp) (ok_injective (i, s, t) (instruction, swap, tokens) h9)
      (is_swap, quoted, read, fields)

extracted_on_chain :
    (v : Verifier) (world : World) (bid_data : BidChainDataOnChainCreateSvm) (d : BidDataSvm)
    → extract_on_chain v world bid_data ≡ ok d
    → SaysBid v bid_data.transaction d
unfolding extract_on_chain
extracted_on_chain v world bid_data d h =
    let (i, read, h1) =
      bind_ok (get_bid_transaction_data_submit_bid v bid_data.transaction) _ _ h in
    let (deadline, timed, h2) = bind_ok (deadline_of v i.args.deadline) _ _ h1 in
    subst (SaysBid v bid_data.transaction) (ok_injective _ _ h2) (record {
      instruction = i;
      read = read;
      amount = refl;
      submitted_by = refl;
      router = refl;
      permission = refl;
    })

extracted_swap :
    (v : Verifier) (world : World) (bid_data : BidChainDataSwapCreateSvm) (d : BidDataSvm)
    → extract_swap v world bid_data ≡ ok d
    → SaysSwap v world bid_data d
unfolding extract_swap
extracted_swap v world bid_data d h =
    let (opp, known, h1) =
      bind_ok
        (ok_or (get_in_memory_opportunity_by_id bid_data.opportunity_id world.opportunities)
          swap_opportunity_not_found)
        _ _ h in
    let ((i, swap, tokens), checked, h2) =
      bind_ok (check_swap v world bid_data.transaction opp) _ _ h1 in
    let (deadline, timed, h3) = bind_ok (deadline_of v i.args.deadline) _ _ h2 in
    let (is_swap, quoted, read, fields) =
      checked_swap v world bid_data.transaction opp i swap tokens checked in
    subst (SaysSwap v world bid_data) (ok_injective _ _ h3) (record {
      opp = opp;
      swap = swap;
      tokens = tokens;
      instruction = i;
      known =
          ok_or-some (get_in_memory_opportunity_by_id bid_data.opportunity_id world.opportunities)
            swap_opportunity_not_found opp known;
      is_swap = is_swap;
      quoted = quoted;
      read = read;
      matches = (check_svm_swap_bid_fields_iff i swap tokens).0 fields;
      amount = refl;
      router = refl;
    })

pub extract_bid_data-Says :
    (v : Verifier) (world : World) (chain_data : BidChainDataCreateSvm) (d : BidDataSvm)
    → extract_bid_data v world chain_data ≡ ok d
    → Says v world chain_data d
unfolding extract_bid_data
extract_bid_data-Says v world (on_chain bid_data) d h = extracted_on_chain v world bid_data d h
extract_bid_data-Says v world (swap_bid bid_data) d h = extracted_swap v world bid_data d h
