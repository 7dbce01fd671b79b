-- ===== src/Auction/Repository/Collection.antt =====
-- The auction that is made of the pending bids of a permission key.
use per.Prelude.{
  ◌≡◌, refl, sym, subst, ◌∙◌, inl, inr, true, false, some, List, [], ◌∷◌, arith, Bool-cases,
  bytes_eq, bytes_eq_iff, keep, is_empty, All,
}
use per.Auction.Entities.{AuctionId, Time, Bid, is_pending}
use per.Auction.Entities.Auction.{Auction, try_new}
use per.Auction.Entities.PermissionKey.{PermissionKeySvm, get_permission_key}
use per.Auction.Database.{Row}
use per.Auction.Repository.{Repository, PendingBids, get_in_memory_pending_bids_by_permission_key}
use per.Auction.Repository.Pending.{Tracked, IsValid}
use per.Auction.Repository.Operations.{PendingIsValid}

collected-Tracked :
    (rows : List Row) (key : PermissionKeySvm) (entries : PendingBids)
    → IsValid rows entries
    → All (Tracked rows key) (get_in_memory_pending_bids_by_permission_key key entries)
unfolding get_in_memory_pending_bids_by_permission_key
collected-Tracked rows key [] v = tt
collected-Tracked rows key ((k, bids) ∷ entries) ((some_bid, ts), v) =
    elim (Bool-cases (bytes_eq k key)) [
      | inl same ↦ rw same (subst (λ j. All (Tracked rows j) bids) ((bytes_eq_iff k key).0 same) ts)
      | inr other ↦ rw other (collected-Tracked rows key entries v)
    ]

-- A bid that can be in an auction for a permission key.
abbrev pub Eligible : List Row → PermissionKeySvm → Bid → Type 0
Eligible rows key b = (is_pending b.status ≡ true) × Tracked rows key b

keep-Eligible :
    (rows : List Row) (key : PermissionKeySvm) (bids : List Bid)
    → All (Tracked rows key) bids
    → All (Eligible rows key) (keep (λ b. is_pending b.status) bids)
keep-Eligible rows key [] ts = tt
keep-Eligible rows key (b ∷ bids) (t, ts) = elim (Bool-cases (is_pending b.status)) [
  | inl hit ↦ rw hit ((hit, t), keep-Eligible rows key bids ts)
  | inr miss ↦ rw miss (keep-Eligible rows key bids ts)
]

auction_of :
    (id : AuctionId) (now : Time) (bids : List Bid) (time : Time) (auction : Auction)
    → try_new id now bids time ≡ some auction
    → (b : Bid) × (rest : List Bid) × (keep (λ c. is_pending c.status) bids ≡ b ∷ rest)
      × (auction.bids ≡ b ∷ rest)
      × (auction.permission_key ≡ get_permission_key b.chain_data)
unfolding try_new
auction_of id now bids time auction e = go (keep (λ c. is_pending c.status) bids) refl
  where
    go :
        (kept : List Bid)
        → keep (λ c. is_pending c.status) bids ≡ kept
        → (b : Bid) × (rest : List Bid) × (keep (λ c. is_pending c.status) bids ≡ b ∷ rest)
          × (auction.bids ≡ b ∷ rest)
          × (auction.permission_key ≡ get_permission_key b.chain_data)
    go [] h = absurd (ground arith)
    go (b ∷ rest) h = (b, rest, h, ground arith, ground arith)

-- In a repository that is valid, an auction made of the pending bids of a permission key has that
-- key and at least one bid, and each of its bids has that key, is pending in memory and has a
-- pending row.
pub try_new-Eligible :
    (id : AuctionId) (now time : Time) (key : PermissionKeySvm) (repo : Repository)
    (auction : Auction)
    → PendingIsValid repo
    → try_new id now (get_in_memory_pending_bids_by_permission_key key repo.pending_bids) time
      ≡ some auction
    → (auction.permission_key ≡ key)
      × (is_empty auction.bids ≡ false)
      × All (Eligible repo.bid_rows key) auction.bids
try_new-Eligible id now time key repo auction v e =
    let bids = get_in_memory_pending_bids_by_permission_key key repo.pending_bids in
    let (b, rest, kept, same, named) = auction_of id now bids time auction e in
    let eligible = subst (All (Eligible repo.bid_rows key)) kept (
      keep-Eligible repo.bid_rows key bids
        (collected-Tracked repo.bid_rows key repo.pending_bids v)) in
    (
      named ∙ eligible.0.1.0,
      rw same refl,
      subst (All (Eligible repo.bid_rows key)) (sym same) eligible,
    )
