-- ===== src/Verification/Handling/Again.antt =====
-- A bid that was handled is not accepted again while it is pending.
use per.Prelude.{
  ◌≢◌, ◌≡◌, refl, sym, ap, subst, ◌∙◌, inl, inr, Bool, true, false, some, List, [], ◌∷◌, arith,
  ==_refl, Bool-cases, Option-cases, bytes_eq, bytes_eq_refl, bytes_eq_iff, ◌&&◌, any, All, ok, err,
  ℕ,
}
use per.Auction.Entities.{
  BidId, Time, Bid, Transaction, BidChainDataSvm, BidPaymentInstructionType, submit_bid_type,
}
use per.Auction.Entities.PermissionKey.{
  get_permission_key, IsSized, get_chain_data_entity-roundtrip,
}
use per.Auction.Repository.{
  Repository, BidCreate, add_bid, push_pending, get_bid_entity, new_row,
  get_in_memory_pending_bids_by_permission_key,
}
use per.Auction.Repository.Operations.{Operation, perform_all}
use per.Auction.Repository.Staying.{Waits, Leaves, push_pending-Waits, perform_all-Waits}
use per.Auction.Service.Handling.{by_server}
use per.Opportunity.Entities.{ChainId}
use per.Verification.BidData.{get_bid_transaction_data_submit_bid}
use per.Verification.Instructions.{Verifier}
use per.Verification.Extraction.{World, BidChainDataOnChainCreateSvm, on_chain, BidDataSvm}
use per.Verification.Bid.{verify_bid, is_same_bid, same_transaction, payment_type_of}
use per.Verification.Bid.Acceptance.{verify_bid-IsAcceptable, IsAcceptable}
use per.Verification.Bid.Passing.{Repeats}
use per.Verification.Checks.{ok_injective}
use per.Verification.Handling.{store_bid, handle_bid}

-- What add_bid stores: the chain data that was verified, when its keys have 32 bytes.
added :
    (id : BidId) (now : Time) (create : BidCreate) (d : BidChainDataSvm) (amount : ℕ)
    (repo after : Repository) (b : Bid)
    → IsSized d
    → add_bid id now create d amount repo ≡ some (after, b)
    → (b.chain_data ≡ d)
      × (b.chain_id ≡ create.chain_id)
      × (after.pending_bids ≡ push_pending (get_permission_key b.chain_data) b repo.pending_bids)
unfolding add_bid get_bid_entity new_row
added id now create d amount repo after b sized h =
    let stored = get_chain_data_entity-roundtrip d sized in
    elim (Option-cases (get_bid_entity now create (new_row id create amount d))) [
      | inl no_entity ↦ absurd (ground arith)
      | inr (bid, e) ↦ (ground (arith, stored), ground arith, ground arith)
    ]

-- What is handled was verified, and added.
handled_bid :
    (v : Verifier) (world : World) (id : BidId) (now : Time) (create : BidCreate)
    (bid_data : BidChainDataOnChainCreateSvm) (repo after : Repository) (b : Bid)
    → handle_bid v world id now create (on_chain bid_data) repo ≡ some (ok b, after)
    → (d : BidChainDataSvm) × (amount : ℕ) × (verify_bid v
          (record world { pending_bids = repo.pending_bids })
          create.chain_id
          (on_chain bid_data)
        ≡ some (ok (d, amount)))
      × (add_bid id now create d amount repo ≡ some (after, b))
unfolding handle_bid store_bid
handled_bid v world id now create bid_data repo after b h =
    elim (Option-cases (
      verify_bid v (record world { pending_bids = repo.pending_bids }) create.chain_id
        (on_chain bid_data))) [
          | inl unfinished ↦ absurd (ground arith)
          | inr (err e, failed) ↦ absurd (ground arith)
          | inr (ok (d, amount), verified) ↦
              elim (Option-cases (add_bid id now create d amount repo)) [
                | inl refused ↦ absurd (ground arith)
                | inr ((stored_repo, stored), e) ↦ (d, amount, verified, ground arith)
              ]
        ]

same_data :
    (d e : BidChainDataSvm)
    → d.transaction ≡ e.transaction
    → d.bid_payment_instruction_type ≡ e.bid_payment_instruction_type
    → d.router ≡ e.router
    → d.permission_account ≡ e.permission_account
    → d ≡ e
same_data d e tx instruction_type router permission = cc

server_type :
    (d : BidDataSvm) (t : BidPaymentInstructionType)
    → d.submit_type ≡ by_server
    → payment_type_of d.submit_type ≡ ok t
    → t ≡ submit_bid_type
unfolding payment_type_of
server_type d t server typed = ground arith

-- The chain data of an on-chain bid depends on its transaction only.
same_chain_data :
    (v : Verifier) (world later : World) (chain_id chain_id' : ChainId)
    (bid_data again : BidChainDataOnChainCreateSvm) (d d' : BidDataSvm)
    (stored stored' : BidChainDataSvm) (amount amount' : ℕ)
    → again.transaction ≡ bid_data.transaction
    → IsAcceptable v world chain_id (on_chain bid_data) d stored amount
    → IsAcceptable v later chain_id' (on_chain again) d' stored' amount'
    → stored ≡ stored'
unfolding payment_type_of
same_chain_data v world later chain_id chain_id' bid_data again d d' stored stored' amount amount'
      same a a' =
    let says = a.says in
    let says' = a'.says in
    let read = ap (get_bid_transaction_data_submit_bid v) (sym same) ∙ says'.read in
    let instruction = ok_injective _ _ (sym says.read ∙ read) in
    same_data stored stored' (a.same_transaction ∙ sym same ∙ sym a'.same_transaction)
      (server_type d stored.bid_payment_instruction_type says.submitted_by a.same_type
        ∙ sym (server_type d' stored'.bid_payment_instruction_type says'.submitted_by a'.same_type))
      (a.same_router
        ∙ says.router
        ∙ ap (λ i. i.accounts.router) instruction
        ∙ sym says'.router
        ∙ sym a'.same_router)
      (a.same_permission
        ∙ says.permission
        ∙ ap (λ i. i.accounts.permission_account) instruction
        ∙ sym says'.permission
        ∙ sym a'.same_permission)

and_elim : (a b : Bool) → a && b ≡ true → (a ≡ true) × (b ≡ true)
and_elim true b h = (refl, h)
and_elim false b h = absurd cc

repeated :
    (chain_id : ChainId) (tx : Transaction) (bids : List Bid)
    → All (λ b. ¬ Repeats chain_id tx b) bids
    → any (is_same_bid chain_id tx) bids ≡ false
unfolding is_same_bid same_transaction
repeated chain_id tx [] h = refl
repeated chain_id tx (b ∷ bids) h = elim (Bool-cases (is_same_bid chain_id tx b)) [
  | inl same ↦
      let (both, chain) = and_elim (same_transaction tx b.chain_data.transaction) _ same in
      let (signatures, message) =
        and_elim (bytes_eq tx.signatures b.chain_data.transaction.signatures) _ both in
      absurd (
        h.0 (
          (bytes_eq_iff tx.signatures b.chain_data.transaction.signatures).0 signatures,
          (bytes_eq_iff tx.message b.chain_data.transaction.message).0 message,
          ground arith,
        ))
  | inr other ↦ rw (other, repeated chain_id tx bids h.1) refl
]

repeats_itself :
    (chain_id : ChainId) (stored : BidChainDataSvm) (b : Bid)
    → b.chain_data ≡ stored
    → b.chain_id ≡ chain_id
    → is_same_bid chain_id stored.transaction b ≡ true
unfolding is_same_bid same_transaction
repeats_itself chain_id stored b kept chain =
    rw
      (
        kept,
        chain,
        bytes_eq_refl stored.transaction.signatures,
        bytes_eq_refl stored.transaction.message,
        ==_refl chain_id,
      )
      refl

-- While an on-chain bid that was handled is pending, its transaction is not verified again on its
-- chain: the operations of the repository in between may be any that do not name the bid for its
-- removal, and the clock, the fees and the simulator may answer anything the second time. The router
-- and the permission account have 32 bytes each.
pub handle_bid-not_again :
    (v : Verifier) (world later : World) (id : BidId) (now : Time) (create : BidCreate)
    (bid_data again : BidChainDataOnChainCreateSvm) (repo after : Repository) (b : Bid)
    (ops : List Operation) (stored : BidChainDataSvm) (amount : ℕ)
    → handle_bid v world id now create (on_chain bid_data) repo ≡ some (ok b, after)
    → All (Leaves b) ops
    → later.pending_bids ≡ (perform_all ops after).pending_bids
    → again.transaction ≡ bid_data.transaction
    → IsSized stored
    → verify_bid v later create.chain_id (on_chain again) ≢ some (ok (stored, amount))
unfolding Waits
handle_bid-not_again v world later id now create bid_data again repo after b ops stored amount
      handled leaves pending same sized =
    λ verified.
      let (d0, amount0, first_time, e) =
        handled_bid v world id now create bid_data repo after b handled in
      let (d, accepted) =
        verify_bid-IsAcceptable v _ create.chain_id (on_chain bid_data) d0 amount0 first_time in
      let (d', accepted') =
        verify_bid-IsAcceptable v later create.chain_id (on_chain again) stored amount verified in
      let data_same =
        same_chain_data v _ later create.chain_id create.chain_id bid_data again d d' d0 stored
          amount0 amount same accepted accepted' in
      let (data_kept, chain_kept, stays) =
        added id now create d0 amount0 repo after b (subst IsSized (sym data_same) sized) e in
      let waits =
        perform_all-Waits ops b after leaves
          (subst (Waits b) (sym stays) (push_pending-Waits b repo.pending_bids)) in
      let kept = data_kept ∙ data_same in
      let found =
        waits (is_same_bid create.chain_id stored.transaction)
          (repeats_itself create.chain_id stored b kept chain_kept) in
      let absent = repeated create.chain_id stored.transaction _ accepted'.is_new in
      let here =
        subst
          (λ k.
            any (is_same_bid create.chain_id stored.transaction)
              (get_in_memory_pending_bids_by_permission_key k (perform_all ops after).pending_bids)
            ≡ true)
          (ap get_permission_key kept) found in
      let there =
        subst
          (λ m.
            any (is_same_bid create.chain_id stored.transaction)
              (get_in_memory_pending_bids_by_permission_key (get_permission_key stored) m)
            ≡ true)
          (sym pending) here in
      absurd cc
