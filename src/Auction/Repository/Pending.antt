-- ===== src/Auction/Repository/Pending.antt =====
-- What ties the pending bids in memory to the bid table.
use per.Prelude.{
  ◌≡◌, refl, sym, inl, inr, Bool, true, false, ◌&&◌, List, [], ◌∷◌, ◌++◌, arith, ◌==◌, ◌!=◌,
  Bool-cases, bytes_eq, bytes_eq_iff, keep, any, is_empty, All, ==_iff,
}
use per.Auction.Entities.{BidId, Bid}
use per.Auction.Entities.PermissionKey.{PermissionKeySvm, get_permission_key}
use per.Auction.Database.{Row, execute, affects, status_eq, BidUpdate, BidStatus}
use per.Auction.Repository.{
  PendingBids, remove_pending_bid, remove_in_memory_pending_bids, push_pending,
}

-- Whether the table has a pending row for a bid.
abbrev pub waiting : BidId → List Row → Bool
waiting id rows = any (λ row. row.id == id && status_eq row.status BidStatus.pending) rows

abbrev pub Tracked : List Row → PermissionKeySvm → Bid → Type 0
Tracked rows key b = (get_permission_key b.chain_data ≡ key) × (waiting b.id rows ≡ true)

abbrev pub EntryIsValid : List Row → PermissionKeySvm × List Bid → Type 0
EntryIsValid rows entry = (is_empty entry.1 ≡ false) × All (Tracked rows entry.0) entry.1

-- Every entry has a bid, every bid stands under its own permission key, and its row is pending.
abbrev pub IsValid : List Row → PendingBids → Type 0
IsValid rows entries = All (EntryIsValid rows) entries

-- No bid of the entries has this bid's id and another permission key.
abbrev pub Agrees : Bid → PendingBids → Type 0
Agrees bid entries =
    All
      (λ entry.
        All
          (λ b. b.id ≡ bid.id → get_permission_key b.chain_data ≡ get_permission_key bid.chain_data)
          entry.1)
      entries

-- Rows that keep every pending row of the bids other than `bid`.
abbrev pub Keeps : BidId → List Row → List Row → Type 0
Keeps id rows rows' =
    (other : BidId) → (other == id) ≡ false → waiting other rows ≡ true → waiting other rows' ≡ true

pub execute-Keeps :
    (id : BidId) (u : BidUpdate) (rows : List Row) → Keeps id rows (execute id u rows)
unfolding execute
execute-Keeps id u [] other ne h = h
execute-Keeps id u (row ∷ rows) other ne h = ground (arith, execute-Keeps id u rows other ne)

pub execute_unaffected :
    (id : BidId) (u : BidUpdate) (rows : List Row)
    → affects id u rows ≡ false
    → execute id u rows ≡ rows
unfolding execute affects
execute_unaffected id u [] h = refl
execute_unaffected id u (row ∷ rows) h = ground (arith, execute_unaffected id u rows)

kept-Tracked :
    (bid : Bid) (rows rows' : List Row) (key : PermissionKeySvm) (bids : List Bid)
    → Keeps bid.id rows rows'
    → All (Tracked rows key) bids
    → All (Tracked rows' key) (keep (λ b. b.id != bid.id) bids)
kept-Tracked bid rows rows' key [] keeps v = tt
kept-Tracked bid rows rows' key (b ∷ bids) keeps ((same, waits), v) =
    let rest = kept-Tracked bid rows rows' key bids keeps v in
    elim (Bool-cases (b.id == bid.id)) [
      | inl eq ↦ rw eq rest
      | inr ne ↦ rw ne ((same, keeps b.id ne waits), rest)
    ]

other-Tracked :
    (bid : Bid) (rows rows' : List Row) (key : PermissionKeySvm) (bids : List Bid)
    → Keeps bid.id rows rows'
    → bytes_eq key (get_permission_key bid.chain_data) ≡ false
    → All
        (λ b. b.id ≡ bid.id → get_permission_key b.chain_data ≡ get_permission_key bid.chain_data)
        bids
    → All (Tracked rows key) bids
    → All (Tracked rows' key) bids
other-Tracked bid rows rows' key [] keeps ne agrees v = tt
other-Tracked bid rows rows' key (b ∷ bids) keeps ne (a, agrees) ((same, waits), v) =
    let rest = other-Tracked bid rows rows' key bids keeps ne agrees v in
    elim (Bool-cases (b.id == bid.id)) [
      | inl eq ↦ absurd (
          ground
            (arith, bytes_eq_iff key (get_permission_key bid.chain_data), a, ==_iff b.id bid.id))
      | inr other ↦ ((same, keeps b.id other waits), rest)
    ]

pub remove_pending_bid-IsValid :
    (bid : Bid) (rows rows' : List Row) (entries : PendingBids)
    → Keeps bid.id rows rows'
    → Agrees bid entries
    → IsValid rows entries
    → IsValid rows' (remove_pending_bid bid entries)
unfolding remove_pending_bid
remove_pending_bid-IsValid bid rows rows' [] keeps agrees v = tt
remove_pending_bid-IsValid bid rows rows' ((k, bids) ∷ entries) keeps (a, agrees)
      ((some_bid, ts), v) =
    let rest = remove_pending_bid-IsValid bid rows rows' entries keeps agrees v in
    elim (Bool-cases (bytes_eq k (get_permission_key bid.chain_data))) [
      | inl mine ↦ elim (Bool-cases (is_empty (keep (λ b. b.id != bid.id) bids))) [
        | inl left_empty ↦ rw (mine, left_empty) rest
        | inr more ↦ rw (mine, more) ((more, kept-Tracked bid rows rows' k bids keeps ts), rest)
      ]
      | inr other ↦
          rw other ((some_bid, other-Tracked bid rows rows' k bids keeps other a ts), rest)
    ]

pub same-Keeps : (id : BidId) (rows : List Row) → Keeps id rows rows
same-Keeps id rows other ne h = h

-- Without a change of the rows nothing has to agree.
remove_one-IsValid :
    (bid : Bid) (rows : List Row) (entries : PendingBids)
    → IsValid rows entries
    → IsValid rows (remove_pending_bid bid entries)
unfolding remove_pending_bid
remove_one-IsValid bid rows [] v = tt
remove_one-IsValid bid rows ((k, bids) ∷ entries) ((some_bid, ts), v) =
    let rest = remove_one-IsValid bid rows entries v in
    elim (Bool-cases (bytes_eq k (get_permission_key bid.chain_data))) [
      | inl mine ↦ elim (Bool-cases (is_empty (keep (λ b. b.id != bid.id) bids))) [
        | inl left_empty ↦ rw (mine, left_empty) rest
        | inr more ↦
            rw (mine, more)
              ((more, kept-Tracked bid rows rows k bids (same-Keeps bid.id rows) ts), rest)
      ]
      | inr other ↦ rw other ((some_bid, ts), rest)
    ]

pub remove_all-IsValid :
    (bids : List Bid) (rows : List Row) (entries : PendingBids)
    → IsValid rows entries
    → IsValid rows (remove_in_memory_pending_bids bids entries)
unfolding remove_in_memory_pending_bids
remove_all-IsValid [] rows entries v = v
remove_all-IsValid (bid ∷ bids) rows entries v =
    remove_all-IsValid bids rows (remove_pending_bid bid entries)
      (remove_one-IsValid bid rows entries v)

Tracked-cons :
    (row : Row) (rows : List Row) (key : PermissionKeySvm) (bids : List Bid)
    → All (Tracked rows key) bids
    → All (Tracked (row ∷ rows) key) bids
Tracked-cons row rows key [] v = tt
Tracked-cons row rows key (b ∷ bids) ((same, waits), v) =
    ((same, ground arith), Tracked-cons row rows key bids v)

pub IsValid-cons :
    (row : Row) (rows : List Row) (entries : PendingBids)
    → IsValid rows entries
    → IsValid (row ∷ rows) entries
IsValid-cons row rows [] v = tt
IsValid-cons row rows ((k, bids) ∷ entries) ((some_bid, ts), v) =
    ((some_bid, Tracked-cons row rows k bids ts), IsValid-cons row rows entries v)

push-Tracked :
    (rows : List Row) (key : PermissionKeySvm) (b : Bid) (bids : List Bid)
    → All (Tracked rows key) bids
    → Tracked rows key b
    → EntryIsValid rows (key, bids ++ b ∷ [])
push-Tracked rows key b [] v t = (refl, (t, tt))
push-Tracked rows key b (c ∷ bids) (u, v) t = (refl, (u, (push-Tracked rows key b bids v t).1))

pub push_pending-IsValid :
    (rows : List Row) (b : Bid) (entries : PendingBids)
    → waiting b.id rows ≡ true
    → IsValid rows entries
    → IsValid rows (push_pending (get_permission_key b.chain_data) b entries)
unfolding push_pending
push_pending-IsValid rows b [] w v = ((refl, ((refl, w), tt)), tt)
push_pending-IsValid rows b ((k, bids) ∷ entries) w ((some_bid, ts), v) =
    let key = get_permission_key b.chain_data in
    let rest = push_pending-IsValid rows b entries w v in
    elim (Bool-cases (bytes_eq k key)) [
      | inl same ↦ rw same (push-Tracked rows k b bids ts (sym ((bytes_eq_iff k key).0 same), w), v)
      | inr other ↦ rw other ((some_bid, ts), rest)
    ]
