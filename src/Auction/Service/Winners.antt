-- ===== src/Auction/Service/Winners.antt =====
-- The order in which the bids of an auction are tried.
use per.Prelude.{
  ◌≤◌, ◌≡◌, refl, sym, subst, inl, inr, Bool, true, Option, none, some, List, [], ◌∷◌, arith, ltb,
  leb, if◌then◌else◌, Bool-cases, find, all, first,
}
use per.Auction.Entities.{Bid}
use per.Auction.Entities.Auction.{Auction}
use per.Auction.Service.Handling.{insert_by_amount, sort_by_amount, get_winner_bids}

-- Whether no bid offers more than this one.
abbrev pub unbeaten : List Bid → Bid → Bool
unbeaten bids b = all (λ c. leb c.amount b.amount) bids

abbrev leader : Bid → Option Bid → Option Bid
leader b none = some b
leader b (some c) = if ltb b.amount c.amount then some c else some b

first-insert : (b : Bid) (bids : List Bid) → first (insert_by_amount b bids) ≡ leader b (first bids)
unfolding insert_by_amount
first-insert b [] = refl
first-insert b (c ∷ bids) = ground arith

find_ext {ℓ} :
    {A : Type ℓ} (p q : A → Bool) (xs : List A) → ((x : A) → p x ≡ q x) → find p xs ≡ find q xs
find_ext p q [] h = refl
find_ext p q (x ∷ xs) h = rw (h x, find_ext p q xs h) refl

unbeaten_mono :
    (bids : List Bid) (c b : Bid)
    → unbeaten bids c ≡ true
    → c.amount ≤ b.amount
    → unbeaten bids b ≡ true
unbeaten_mono [] c b h le = refl
unbeaten_mono (d ∷ bids) c b h le = ground (arith, unbeaten_mono bids c b)

-- The head of the sorted list is a bid that no bid beats, and the first such bid of the list.
abbrev Leads : List Bid → Option Bid → Type 0
Leads bids none = bids ≡ []
Leads bids (some c) =
    (unbeaten bids c ≡ true)
    × ((x : Bid) → unbeaten bids x ≡ true → c.amount ≤ x.amount)
    × (find (unbeaten bids) bids ≡ some c)

agree :
    (b : Bid) (bids : List Bid) (c : Bid)
    → ((x : Bid) → unbeaten bids x ≡ true → c.amount ≤ x.amount)
    → ltb b.amount c.amount ≡ true
    → (x : Bid) → unbeaten (b ∷ bids) x ≡ unbeaten bids x
agree b bids c low less x = elim (Bool-cases (unbeaten bids x)) [
  | inl hit ↦ ground (arith, low x hit)
  | inr miss ↦ rw miss (ground arith)
]

step : (b : Bid) (bids : List Bid) (m : Option Bid) → Leads bids m → Leads (b ∷ bids) (leader b m)
step b bids none h =
    subst (λ xs. Leads (b ∷ xs) (some b)) (sym h) (ground arith, λ x e. ground arith, ground arith)
step b bids (some c) (high, low, found) = elim (Bool-cases (ltb b.amount c.amount)) [
  | inl less ↦ rw less (
    ground arith,
    λ x e. low x (ground arith),
    ground (
      arith,
      agree b bids c low,
      find_ext (unbeaten (b ∷ bids)) (unbeaten bids) bids (agree b bids c low less),
      low b,
    ),
  )
  | inr more ↦ rw more (
    ground (arith, unbeaten_mono bids c b high),
    λ x e. ground arith,
    ground (arith, unbeaten_mono bids c b high),
  )
]

sort-Leads : (bids : List Bid) → Leads bids (first (sort_by_amount bids))
unfolding sort_by_amount
sort-Leads [] = refl
sort-Leads (b ∷ bids) =
    rw (sort_by_amount, first-insert b (sort_by_amount bids))
      (step b bids (first (sort_by_amount bids)) (sort-Leads bids))

head-Leads : (bids : List Bid) (m : Option Bid) → Leads bids m → m ≡ find (unbeaten bids) bids
head-Leads bids none h = rw h refl
head-Leads bids (some c) (high, low, found) = sym found

-- The bid that is tried first is the first one of the list with the highest amount.
first-sort_by_amount : (bids : List Bid) → first (sort_by_amount bids) ≡ find (unbeaten bids) bids
first-sort_by_amount bids = head-Leads bids (first (sort_by_amount bids)) (sort-Leads bids)

-- When the simulation fails, the winner is the first bid of the auction with the highest amount,
-- alone, and an auction without bids has no winner.
pub get_winner_bids_fallback :
    (optimize_bids : List Bid → Option (List Bid)) (auction : Auction)
    → optimize_bids (sort_by_amount auction.bids) ≡ none
    → get_winner_bids optimize_bids auction
      ≡ elim (find (unbeaten auction.bids) auction.bids) [ none ↦ [] | some b ↦ b ∷ [] ]
unfolding get_winner_bids
get_winner_bids_fallback optimize_bids auction e =
    rw (get_winner_bids, e, first-sort_by_amount auction.bids) refl
