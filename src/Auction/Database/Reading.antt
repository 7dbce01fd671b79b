-- ===== src/Auction/Database/Reading.antt =====
-- Reading a bid's status back after updates: repository/get_bid.rs.
pub mod Columns
use per.Prelude.{
  ℕ, ◌≡◌, refl, sym, ap, subst, ◌∙◌, ◌⊎◌, inl, inr, Bool, true, false, Option, none, some, List, [],
  ◌∷◌, ◌==◌, arith, if◌then◌else◌, Bool-cases, any, find, first, All,
}
use per.Auction.Entities.{
  BidId, AuctionId, Time, BidStatusSvm, BidStatusAuction, BidFailedReason,
  BidSubmissionFailedReason, Signature,
}
use per.Auction.Database.{
  BidStatusReason, reason_entity, reason_model, get_bid_status_reason, convert_bid_status,
  AuctionRow, status_entity, get_bid_status_auction_entity, BidStatus, pending, awaiting_signature,
  sent_to_user_for_submission, submitted, lost, failed, cancelled, Row, BidUpdate, status_eq,
  get_update_bid_query, set_columns, get_bid_status_entity, or_else,
}
use per.Auction.Database.Lifecycle.{
  Step, Step-rank, History, run, updated, apply, apply-Step, accepted, rank, await_signature,
  status_eq_refl,
}
use per.Auction.Database.Reading.Columns.{
  Names, Links, IsLinked, stored_auction, Writes, columns, linked, joined, read_back, asked,
  Step-differs,
}

-- The status that Repository::get_bid reads: the bid's row with the auction's row that it names.
unfoldable pub get_bid_status : List AuctionRow → Row → Option BidStatusSvm
get_bid_status auctions row = elim row.auction_id [
  | none ↦ get_bid_status_entity row none
  | some id ↦ elim (find (λ a. a.id == id) auctions) [
    | none ↦ none
    | some auction ↦ get_bid_status_entity row (some auction)
  ]
]

-- The last requested status that changed the row.
unfoldable pub last_applied : History → Row → BidStatusSvm → BidStatusSvm
last_applied [] row s = s
last_applied ((now, id, s') ∷ h) row s =
    let row' = updated now id s' row in
    last_applied h row' (if status_eq row.status row'.status then s else s')

module _ (auctions : List AuctionRow) (auction : AuctionRow)
    (known : find (λ a. a.id == auction.id) auctions ≡ some auction) where
  get_bid_status-joined :
      (s : BidStatusSvm) (sig : Signature) (row : Row)
      → first row.transaction.signatures ≡ some sig
      → row.auction_id ≡ stored_auction auction.id s
      → get_bid_status auctions row
        ≡ status_entity row.status row.status_reason sig
            (joined (stored_auction auction.id s) auction)
  unfolding get_bid_status get_bid_status_entity
  get_bid_status-joined (BidStatusSvm.lost none) sig row signed e =
      rw (get_bid_status, e, get_bid_status_entity, signed) refl
  get_bid_status-joined _ sig row signed e =
      rw (get_bid_status, e, known, get_bid_status_entity, signed) refl

  abbrev Reads : BidStatusSvm → Row → Type 0
  Reads s row = (get_bid_status auctions row ≡ some s) × IsLinked auction.id row

  written :
      (now : Time) (s : BidStatusSvm) (sig : Signature) (row : Row) (u : BidUpdate)
      → get_update_bid_query now s ≡ some u
      → any (status_eq row.status) u.accepts ≡ true
      → first row.transaction.signatures ≡ some sig
      → Names s sig auction
      → IsLinked auction.id row
      → Reads s (set_columns u row)
  written now s sig row u e guarded signed named links =
      let writes =
        columns now s row.status sig auction row.auction_id row.status_reason named links in
      let (status, id, reason) =
        subst (Writes auction.id s row.status row.auction_id row.status_reason) e writes guarded in
      (
        get_bid_status-joined s sig (set_columns u row) signed id
            ∙ rw (status, reason) (read_back s sig auction named),
        rw (status, id, reason) (linked auction.id s (asked now s u e)),
      )

  updated-Reads :
      (now : Time) (id : BidId) (s : BidStatusSvm) (sig : Signature) (row : Row)
      → first row.transaction.signatures ≡ some sig
      → (row.id ≡ id → Names s sig auction)
      → IsLinked auction.id row
      → (updated now id s row ≡ row)
        ⊎ (Reads s (updated now id s row)
            × (first (updated now id s row).transaction.signatures ≡ some sig)
            × (status_eq row.status (updated now id s row).status ≡ false)
            × ((updated now id s row).id ≡ row.id))
  updated-Reads now id s sig row signed named links =
      elim (apply-Step id (get_update_bid_query now s) row (accepted now s row.status)) [
        | inl same ↦ inl same
        | inr (u, e, new, step, own, guarded) ↦ inr (
          rw new (written now s sig row u e guarded signed (named own) links),
          rw new signed,
          rw new (Step-differs step),
          rw new refl,
        )
      ]

  run-Reads :
      (h : History) (bid_id : BidId) (sig : Signature) (row : Row) (s : BidStatusSvm)
      → row.id ≡ bid_id
      → first row.transaction.signatures ≡ some sig
      → All (λ q. q.1 ≡ bid_id → Names q.2 sig auction) h
      → Reads s row
      → Reads (last_applied h row s) (run h row)
  unfolding run last_applied
  run-Reads [] bid_id sig row s own signed named reads = reads
  run-Reads ((now, id, s') ∷ h) bid_id sig row s own signed named reads =
      elim (updated-Reads now id s' sig row signed (λ e. named.0 (sym e ∙ own)) reads.1) [
        | inl same ↦
            subst
              (λ r.
                Reads (last_applied h r (if status_eq row.status r.status then s else s'))
                  (run h r))
              (sym same)
              (rw (status_eq_refl row.status)
                (run-Reads h bid_id sig row s own signed named.1 reads))
        | inr (reads', signed', changed, kept) ↦
            rw changed (
              run-Reads h bid_id sig (updated now id s' row) s' (kept ∙ own) signed' named.1 reads')
      ]

-- A bid's row that was read as status s is read, after any history of requests for any bids, as the
-- last requested status that the guards let through, or as s where there is none: with its auction,
-- its signature and the reason of its failure. The requests for this bid name one auction of the
-- auction table with the bid's own signature (a lost bid none, or the auction with its own
-- signature); the row has no auction and no reason if it is pending, and that auction and no reason
-- if it can still change otherwise.
pub run-get_bid_status :
    (auctions : List AuctionRow) (auction : AuctionRow) (h : History) (sig : Signature) (row : Row)
    (s : BidStatusSvm)
    → find (λ a. a.id == auction.id) auctions ≡ some auction
    → first row.transaction.signatures ≡ some sig
    → IsLinked auction.id row
    → All (λ q. q.1 ≡ row.id → Names q.2 sig auction) h
    → get_bid_status auctions row ≡ some s
    → get_bid_status auctions (run h row) ≡ some (last_applied h row s)
run-get_bid_status auctions auction h sig row s known signed links named reads =
    (run-Reads auctions auction known h row.id sig row s refl signed named (reads, links)).0
