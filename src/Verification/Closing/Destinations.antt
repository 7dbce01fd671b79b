-- ===== src/Verification/Closing/Destinations.antt =====
-- Which token accounts a swap that passes check_close_account_instruction closes, and to whom.
use per.Prelude.{
  ◌≤◌, ◌≡◌, refl, sym, ap, subst, ◌∙◌, ◌⊎◌, inl, inr, Bool, true, false, ◌||◌, List, [], ◌∷◌, arith,
  not, Bool-cases, bytes_eq_iff, length, keep, is_empty, All, ok, ◌>>◌,
}
use per.Auction.Entities.{KeyBytes}
use per.Verification.Instructions.{Verifier, CloseAccountInstructionData}
use per.Verification.BidData.{SwapAccounts}
use per.Verification.Wrapping.{native_ata}
use per.Verification.Closing.{
  closes, user_closes, not_user_closes, searcher_closes, other_closes, check_no_others,
  check_user_closes, check_searcher_closes, swaps_native, check_closes, check_user_close,
}
use per.Verification.Checks.{
  then_part, else_part, not_below, seq_ok, fail_if_ok, key_ok, err_not_ok, All-map, not-false,
}

abbrev ToUser : KeyBytes → CloseAccountInstructionData → Type 0
ToUser wallet c = (c.destination ≡ wallet) × (c.owner ≡ wallet)

-- The user's account of native tokens is closed by the user and to the user; otherwise the account is
-- the searcher's.
abbrev IsSafeClose : Verifier → SwapAccounts → CloseAccountInstructionData → Type 0
IsSafeClose v accounts c =
    ((c.account ≡ native_ata v accounts.user_wallet) × ToUser accounts.user_wallet c)
    ⊎ (c.account ≡ native_ata v accounts.searcher)

pub record IsSafeClosing (v : Verifier) (accounts : SwapAccounts)
    (cs : List CloseAccountInstructionData) : Type 0 where
  pub all_safe : All (IsSafeClose v accounts) cs
  pub user_once : length (user_closes v accounts cs) ≤ 1
  pub searcher_once : length (searcher_closes v accounts cs) ≤ 1
  pub only_native : (swaps_native v accounts ≡ true) ⊎ (cs ≡ [])

module _ {ℓ} {A : Type ℓ} (p : A → Bool) (x : A) (xs : List A) where
  keep_passing : p x ≡ true → keep p (x ∷ xs) ≡ x ∷ keep p xs
  keep_passing h = rw (keep, h) refl

  keep_failing : p x ≡ false → keep p (x ∷ xs) ≡ keep p xs
  keep_failing h = rw (keep, h) refl

-- A list of two kinds of elements.
module _ {ℓ κ} {A : Type ℓ} (Q : A → Type κ) (p r : A → Bool) where
  abbrev rest_of : List A → List A
  rest_of xs = keep (λ x. not (p x)) xs

  first_out : (x : A) (xs : List A) → p x ≡ true → rest_of (x ∷ xs) ≡ rest_of xs
  first_out x xs h = keep_failing (λ y. not (p y)) x xs (rw h refl)

  first_in : (x : A) (xs : List A) → p x ≡ false → rest_of (x ∷ xs) ≡ x ∷ rest_of xs
  first_in x xs h = keep_passing (λ y. not (p y)) x xs (rw h refl)

  both_kinds :
      (xs : List A)
      → All Q (keep p xs)
      → keep (λ x. not (r x)) (rest_of xs) ≡ []
      → All (λ x. ((p x ≡ true) × Q x) ⊎ (r x ≡ true)) xs
  both_kinds [] good none_left = tt
  both_kinds (x ∷ xs) good none_left = elim (Bool-cases (p x)) [
    | inl is_first ↦
        let good1 = subst (All Q) (keep_passing p x xs is_first) good in
        (
          inl (is_first, good1.0),
          both_kinds xs good1.1
              (sym (ap (keep (λ y. not (r y))) (first_out x xs is_first)) ∙ none_left),
        )
    | inr other ↦
        let good1 = subst (All Q) (keep_failing p x xs other) good in
        let left = sym (ap (keep (λ y. not (r y))) (first_in x xs other)) ∙ none_left in
        elim (Bool-cases (r x)) [
          | inl is_second ↦ (
            inr is_second,
            both_kinds xs good1
                (sym (keep_failing (λ y. not (r y)) x (rest_of xs) (rw is_second refl)) ∙ left),
          )
          | inr neither ↦
              let more =
                sym (keep_passing (λ y. not (r y)) x (rest_of xs) (rw neither refl)) ∙ left in
              absurd cc
        ]
  ]

  none_of_both :
      (xs : List A)
      → keep p xs ≡ []
      → keep r (rest_of xs) ≡ []
      → keep (λ x. not (r x)) (rest_of xs) ≡ []
      → xs ≡ []
  none_of_both [] no_first no_second none_left = refl
  none_of_both (x ∷ xs) no_first no_second none_left = elim (Bool-cases (p x)) [
    | inl is_first ↦ let some_first = sym (keep_passing p x xs is_first) ∙ no_first in absurd cc
    | inr other ↦
        let left = sym (ap (keep (λ y. not (r y))) (first_in x xs other)) ∙ none_left in
        let second = sym (ap (keep r) (first_in x xs other)) ∙ no_second in
        elim (Bool-cases (r x)) [
          | inl is_second ↦
              let more = sym (keep_passing r x (rest_of xs) is_second) ∙ second in absurd cc
          | inr neither ↦
              let more =
                sym (keep_passing (λ y. not (r y)) x (rest_of xs) (rw neither refl)) ∙ left in
              absurd cc
        ]
  ]

none_other : (cs : List CloseAccountInstructionData) → check_no_others cs ≡ ok tt → cs ≡ []
unfolding check_no_others
none_other [] h = refl
none_other (c ∷ cs) h = absurd (err_not_ok _ _ h)

user_checked :
    (accounts : SwapAccounts) (c : CloseAccountInstructionData)
    → check_user_close accounts c ≡ ok tt
    → ToUser accounts.user_wallet c
unfolding check_user_close
user_checked accounts c h =
    let (destination, owner) = (seq_ok _ _).0 h in
    (sym ((key_ok _ _ _).0 destination), sym ((key_ok _ _ _).0 owner))

users_checked :
    (v : Verifier) (accounts : SwapAccounts) (cs : List CloseAccountInstructionData)
    → check_user_closes v accounts cs ≡ ok tt
    → All (ToUser accounts.user_wallet) cs × (length cs ≤ 1)
unfolding check_user_closes
users_checked v accounts [] h = (tt, omega arith)
users_checked v accounts (c ∷ []) h =
    ((user_checked accounts c ((seq_ok (check_user_close accounts c) _).0 h).0, tt), omega arith)
users_checked v accounts (c ∷ c' ∷ cs) h =
    absurd (err_not_ok _ _ ((seq_ok (check_user_close accounts c) _).0 h).1)

searchers_checked :
    (cs : List CloseAccountInstructionData) → check_searcher_closes cs ≡ ok tt → length cs ≤ 1
unfolding check_searcher_closes
searchers_checked cs h = not_below 1 (length cs) ((fail_if_ok _ _).0 h)

none_of : (cs : List CloseAccountInstructionData) → is_empty cs ≡ true → cs ≡ []
none_of [] h = refl
none_of (c ∷ cs) h = absurd cc

neither : (a b : Bool) → a || b ≡ false → (a ≡ false) × (b ≡ false)
neither true b h = absurd cc
neither false b h = (refl, h)

module _ (v : Verifier) (accounts : SwapAccounts) (cs : List CloseAccountInstructionData) where
  abbrev users : List CloseAccountInstructionData
  users = user_closes v accounts cs

  abbrev searchers : List CloseAccountInstructionData
  searchers = searcher_closes v accounts cs

  All-safely :
      All (ToUser accounts.user_wallet) users
      → other_closes v accounts cs ≡ []
      → All (IsSafeClose v accounts) cs
  unfolding user_closes not_user_closes other_closes
  All-safely to_user no_others =
      All-map
        (λ c kind. elim kind [
          | inl (is_user, safe) ↦
              inl ((bytes_eq_iff c.account (native_ata v accounts.user_wallet)).0 is_user, safe)
          | inr is_searcher ↦
              inr ((bytes_eq_iff c.account (native_ata v accounts.searcher)).0 is_searcher)
        ])
        cs
        (both_kinds (ToUser accounts.user_wallet) (closes (native_ata v accounts.user_wallet))
          (closes (native_ata v accounts.searcher)) cs to_user no_others)

  nothing_closed : users ≡ [] → searchers ≡ [] → other_closes v accounts cs ≡ [] → cs ≡ []
  unfolding user_closes searcher_closes not_user_closes other_closes
  nothing_closed no_users no_searchers no_others =
      none_of_both (ToUser accounts.user_wallet) (closes (native_ata v accounts.user_wallet))
        (closes (native_ata v accounts.searcher)) cs no_users no_searchers no_others

  with_native :
      swaps_native v accounts ≡ true
      → other_closes v accounts cs ≡ []
      → check_user_closes v accounts users >> check_searcher_closes searchers ≡ ok tt
      → IsSafeClosing v accounts cs
  with_native native no_others h =
      let (user_part, searcher_part) = (seq_ok (check_user_closes v accounts users) _).0 h in
      let (to_user, once) = users_checked v accounts users user_part in
      record {
        all_safe = All-safely to_user no_others;
        user_once = once;
        searcher_once = searchers_checked searchers searcher_part;
        only_native = inl native;
      }

  without_native :
      other_closes v accounts cs ≡ []
      → not (is_empty users) || not (is_empty searchers) ≡ false
      → IsSafeClosing v accounts cs
  without_native no_others h =
      let (no_user, no_searcher) = neither (not (is_empty users)) (not (is_empty searchers)) h in
      let users_gone = none_of users ((not-false (is_empty users)).0 no_user) in
      let searchers_gone = none_of searchers ((not-false (is_empty searchers)).0 no_searcher) in
      record {
        all_safe =
            All-safely (subst (All (ToUser accounts.user_wallet)) (sym users_gone) tt) no_others;
        user_once = subst (λ xs. length xs ≤ 1) (sym users_gone) (omega arith);
        searcher_once = subst (λ xs. length xs ≤ 1) (sym searchers_gone) (omega arith);
        only_native = inr (nothing_closed users_gone searchers_gone no_others);
      }

-- A swap that passes the check of its closed accounts closes only native token accounts of the user,
-- by the user and to the user, and of the searcher, each at most once, and none at all when neither
-- of its mints is the native one.
pub check_closes-IsSafeClosing :
    (v : Verifier) (accounts : SwapAccounts) (cs : List CloseAccountInstructionData)
    → check_closes v accounts cs ≡ ok tt
    → IsSafeClosing v accounts cs
unfolding check_closes
check_closes-IsSafeClosing v accounts cs h =
    let (others, h1) = (seq_ok (check_no_others (other_closes v accounts cs)) _).0 h in
    elim (Bool-cases (swaps_native v accounts)) [
      | inl native ↦
          with_native v accounts cs native (none_other _ others)
            (then_part (swaps_native v accounts) _ _ _ h1 native)
      | inr other ↦
          without_native v accounts cs (none_other _ others)
            ((fail_if_ok _ _).0 (else_part (swaps_native v accounts) _ _ _ h1 other))
    ]
