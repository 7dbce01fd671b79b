-- ===== src/Auction/Repository/Staying.antt =====
-- Which operations of the repository leave a pending bid where it is.
use per.Prelude.{
  ◌≡◌, refl, inl, inr, Bool, true, false, ◌&&◌, List, [], ◌∷◌, ◌++◌, arith, ◌==◌, not, ◌!=◌,
  Bool-cases, Option-cases, bytes_eq, bytes_eq_refl, keep, any, is_empty, All,
}
use per.Auction.Entities.{Bid, BidStatusSvm, Time, is_pending}
use per.Auction.Entities.PermissionKey.{PermissionKeySvm, get_permission_key}
use per.Auction.Database.{update_bid_status_db}
use per.Auction.Repository.{
  Repository, PendingBids, push_pending, remove_pending_bid, remove_in_memory_pending_bids,
  get_in_memory_pending_bids_by_permission_key, add_bid, add_auction, get_bid_entity, new_row,
  update_bid_status, submit_auction, conclude_auction, unsubmitted,
}
use per.Auction.Repository.Operations.{
  Operation, add_bid_of, add_auction_of, update_bid_status_of, submit_auction_of,
  conclude_auction_of, perform, perform_all,
}

-- The bid is among the pending bids of its permission key: every test that it passes finds a bid.
unfoldable pub Waits : Bid → PendingBids → Type 0
Waits b entries =
    (p : Bid → Bool)
    → p b ≡ true
    → any p (get_in_memory_pending_bids_by_permission_key (get_permission_key b.chain_data) entries)
      ≡ true

-- An operation that does not name the bid for its removal.
abbrev pub Leaves : Bid → Operation → Type 0
Leaves b (update_bid_status_of now other status) = (b.id == other.id) ≡ false
Leaves b (add_auction_of auction) = All (λ c. (b.id == c.id) ≡ false) auction.bids
Leaves b _ = Unit

any-front {ℓ} :
    {A : Type ℓ} (p : A → Bool) (xs ys : List A) → any p xs ≡ true → any p (xs ++ ys) ≡ true
any-front p [] ys h = absurd cc
any-front p (x ∷ xs) ys h = elim (Bool-cases (p x)) [
  | inl here ↦ rw here refl
  | inr later ↦ ground (arith, any-front p xs ys)
]

any-end {ℓ} :
    {A : Type ℓ} (p : A → Bool) (xs : List A) (x : A) → p x ≡ true → any p (xs ++ x ∷ []) ≡ true
any-end p [] x h = rw h refl
any-end p (y ∷ xs) x h = ground (arith, any-end p xs x h)

any-keep {ℓ} :
    {A : Type ℓ} (p q : A → Bool) (xs : List A)
    → any (λ x. q x && p x) xs ≡ true
    → any p (keep q xs) ≡ true
any-keep p q [] h = absurd cc
any-keep p q (x ∷ xs) h = elim (Bool-cases (q x)) [
  | inl kept ↦ elim (Bool-cases (p x)) [
    | inl here ↦ rw (kept, here) refl
    | inr later ↦ rw (kept, later) (any-keep p q xs (ground arith))
  ]
  | inr dropped ↦ rw dropped (any-keep p q xs (ground arith))
]

any-both {ℓ} :
    {A : Type ℓ} (p q : A → Bool) (xs : List A) → any (λ x. q x && p x) xs ≡ true → any p xs ≡ true
any-both p q [] h = absurd cc
any-both p q (x ∷ xs) h = elim (Bool-cases (p x)) [
  | inl here ↦ rw here refl
  | inr later ↦ rw later (
      any-both p q xs
        (elim (Bool-cases (q x)) [ inl kept ↦ ground arith | inr dropped ↦ ground arith ]))
]

any-nonempty {ℓ} : {A : Type ℓ} (p : A → Bool) (xs : List A) → any p xs ≡ true → is_empty xs ≡ false
any-nonempty p [] h = absurd cc
any-nonempty p (x ∷ xs) h = refl

module _ (p : Bid → Bool) (key : PermissionKeySvm) where
  abbrev Found : PendingBids → Type 0
  Found entries = any p (get_in_memory_pending_bids_by_permission_key key entries) ≡ true

  push_pending-there :
      (b : Bid) (entries : PendingBids) → p b ≡ true → Found (push_pending key b entries)
  unfolding get_in_memory_pending_bids_by_permission_key push_pending
  push_pending-there b [] h = rw (bytes_eq_refl key, h) refl
  push_pending-there b ((k, bids) ∷ entries) h = elim (Bool-cases (bytes_eq k key)) [
    | inl same ↦ ground (arith, any-end p bids b h)
    | inr other ↦ ground (arith, push_pending-there b entries h)
  ]

  push_pending-Found :
      (k : PermissionKeySvm) (b : Bid) (entries : PendingBids)
      → Found entries
      → Found (push_pending k b entries)
  unfolding get_in_memory_pending_bids_by_permission_key push_pending
  push_pending-Found k b [] h = absurd cc
  push_pending-Found k b ((k', bids) ∷ entries) h = elim (Bool-cases (bytes_eq k' k)) [
    | inl pushed ↦ elim (Bool-cases (bytes_eq k' key)) [
      | inl here ↦ ground (arith, any-front p bids (b ∷ []))
      | inr later ↦ ground arith
    ]
    | inr other ↦ elim (Bool-cases (bytes_eq k' key)) [
      | inl here ↦ ground arith
      | inr later ↦ ground (arith, push_pending-Found k b entries)
    ]
  ]

  remove_pending_bid-Found :
      (c : Bid) (entries : PendingBids)
      → any (λ x. x.id != c.id && p x) (get_in_memory_pending_bids_by_permission_key key entries)
        ≡ true
      → Found (remove_pending_bid c entries)
  unfolding get_in_memory_pending_bids_by_permission_key remove_pending_bid
  remove_pending_bid-Found c [] h = absurd cc
  remove_pending_bid-Found c ((k, bids) ∷ entries) h =
      elim (Bool-cases (bytes_eq k (get_permission_key c.chain_data))) [
        | inl mine ↦ elim (Bool-cases (bytes_eq k key)) [
          | inl here ↦
              let kept = any-keep p (λ b. b.id != c.id) bids (ground arith) in
              let some_left = any-nonempty p (keep (λ b. b.id != c.id) bids) kept in
              rw (mine, some_left, get_in_memory_pending_bids_by_permission_key, here) kept
          | inr later ↦
              let rest = remove_pending_bid-Found c entries (ground arith) in
              elim (Bool-cases (is_empty (keep (λ b. b.id != c.id) bids))) [
                | inl gone ↦ rw (mine, gone) rest
                | inr left ↦
                    rw (mine, left, get_in_memory_pending_bids_by_permission_key, later) rest
              ]
        ]
        | inr other ↦ elim (Bool-cases (bytes_eq k key)) [
          | inl here ↦
              let found = any-both p (λ b. b.id != c.id) bids (ground arith) in
              rw (other, get_in_memory_pending_bids_by_permission_key, here) found
          | inr later ↦
              rw (other, get_in_memory_pending_bids_by_permission_key, later)
                (remove_pending_bid-Found c entries (ground arith))
        ]
      ]

remove_pending_bid-Waits :
    (b c : Bid) (entries : PendingBids)
    → (b.id == c.id) ≡ false
    → Waits b entries
    → Waits b (remove_pending_bid c entries)
unfolding Waits
remove_pending_bid-Waits b c entries other h = λ p passes.
    remove_pending_bid-Found p (get_permission_key b.chain_data) c entries
      (h (λ x. x.id != c.id && p x) (rw (other, passes) refl))

pushed :
    (b : Bid) (k : PermissionKeySvm) (c : Bid) (entries : PendingBids)
    → Waits b entries
    → Waits b (push_pending k c entries)
unfolding Waits
pushed b k c entries h =
    λ p passes. push_pending-Found p (get_permission_key b.chain_data) k c entries (h p passes)

remove_bids-Waits :
    (b : Bid) (bids : List Bid) (entries : PendingBids)
    → All (λ c. (b.id == c.id) ≡ false) bids
    → Waits b entries
    → Waits b (remove_in_memory_pending_bids bids entries)
unfolding remove_in_memory_pending_bids
remove_bids-Waits b [] entries others h = h
remove_bids-Waits b (c ∷ bids) entries others h =
    remove_bids-Waits b bids (remove_pending_bid c entries) others.1
      (remove_pending_bid-Waits b c entries others.0 h)

-- A bid that was pushed under its own key is among the pending ones of it.
pub push_pending-Waits :
    (b : Bid) (entries : PendingBids)
    → Waits b (push_pending (get_permission_key b.chain_data) b entries)
unfolding Waits
push_pending-Waits b entries =
    λ p passes. push_pending-there p (get_permission_key b.chain_data) b entries passes

update_bid_status-Waits :
    (now : Time) (b c : Bid) (status : BidStatusSvm) (repo : Repository)
    → (b.id == c.id) ≡ false
    → Waits b repo.pending_bids
    → Waits b (perform (update_bid_status_of now c status) repo).pending_bids
unfolding update_bid_status
update_bid_status-Waits now b c status repo other h =
    elim (Option-cases (update_bid_status_db now c.id status repo.bid_rows)) [
      | inl refused ↦ rw (perform, refused) h
      | inr ((rows, updated, time), e) ↦ elim (Bool-cases (updated && not (is_pending status))) [
        | inl removes ↦
            rw (perform, e, removes) (remove_bids-Waits b (c ∷ []) repo.pending_bids (other, tt) h)
        | inr stays ↦ rw (perform, e, stays) h
      ]
    ]

perform-Waits :
    (op : Operation) (b : Bid) (repo : Repository)
    → Leaves b op
    → Waits b repo.pending_bids
    → Waits b (perform op repo).pending_bids
unfolding add_bid add_auction submit_auction conclude_auction
perform-Waits (add_bid_of id now create chain_data amount) b repo leaves h =
    elim (Option-cases (get_bid_entity now create (new_row id create amount chain_data))) [
      | inl refused ↦ rw (perform, refused) h
      | inr (bid, e) ↦
          rw (perform, e) (pushed b (get_permission_key bid.chain_data) bid repo.pending_bids h)
    ]
perform-Waits (add_auction_of auction) b repo leaves h =
    remove_bids-Waits b auction.bids repo.pending_bids leaves h
perform-Waits (update_bid_status_of now other status) b repo leaves h =
    update_bid_status-Waits now b other status repo leaves h
perform-Waits (submit_auction_of now auction tx_hash ids) b repo leaves h =
    elim (Bool-cases (any (unsubmitted auction.id) repo.auction_rows)) [
      | inl hit ↦ rw (perform, hit) h
      | inr miss ↦ rw (perform, miss) h
    ]
perform-Waits (conclude_auction_of now id) b repo leaves h = h

-- A pending bid stays among the pending ones through operations that do not name it.
pub perform_all-Waits :
    (ops : List Operation) (b : Bid) (repo : Repository)
    → All (Leaves b) ops
    → Waits b repo.pending_bids
    → Waits b (perform_all ops repo).pending_bids
perform_all-Waits [] b repo leaves h = h
perform_all-Waits (op ∷ ops) b repo leaves h =
    perform_all-Waits ops b (perform op repo) leaves.1 (perform-Waits op b repo leaves.0 h)
