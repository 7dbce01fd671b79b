-- ===== src/Verification/Signatures/Signed.antt =====
-- What verify_signatures makes sure of: who signed a bid's transaction.
use per.Prelude.{
  ◌≡◌, subst, inl, inr, true, false, none, some, List, [], ◌∷◌, ◌++◌, arith, ltb, Bool-cases,
  length, take, first, All, ok, ◌>>◌,
}
use per.Auction.Entities.{KeyBytes, Transaction}
use per.Auction.Service.Handling.{SubmitType, by_server, by_other, invalid}
use per.Opportunity.Entities.{OpportunitySvm, get_missing_signers}
use per.Verification.Instructions.{Verifier}
use per.Verification.Checks.{seq_ok, fail_if_ok, bind_ok, not-false, err_not_ok}
use per.Verification.Signatures.{
  relayer_signer_exists, all_signatures_exists, signers_of, verify_swap_signatures,
  verify_submit_bid_signatures, verify_signatures, contains,
}
use per.Verification.Signatures.Valid.{signed_by, IsSigned, all_signatures_exists_iff}

-- The signers whose signatures a bid may lack: the relayer, who signs last, and the user of a swap.
unfoldable pub may_be_missing : Verifier → List OpportunitySvm → SubmitType → List KeyBytes
may_be_missing v opportunities by_server = v.express_relay.relayer ∷ []
may_be_missing v opportunities by_other = elim (first opportunities) [
  | none ↦ []
  | some opportunity ↦ get_missing_signers opportunity ++ v.express_relay.relayer ∷ []
]
may_be_missing v opportunities invalid = []

abbrev pub signers : Transaction → List KeyBytes
signers tx = take (length tx.signatures) tx.static_account_keys

-- The relayer is a signer, and every signature that may not be missing verifies.
pub record IsWellSigned (v : Verifier) (tx : Transaction) (missing : List KeyBytes) : Type 0 where
  pub enough_keys : ltb (length tx.static_account_keys) (length tx.signatures) ≡ false
  pub relayer_signs : contains (signers tx) v.express_relay.relayer ≡ true
  pub valid : All (IsSigned v tx.message missing) (signed_by (signers tx) tx.signatures)

signed :
    (v : Verifier) (tx : Transaction) (missing : List KeyBytes)
    → ltb (length tx.static_account_keys) (length tx.signatures) ≡ false
    → relayer_signer_exists v (signers tx)
        >> all_signatures_exists v tx.message (signers tx) tx.signatures missing
      ≡ ok tt
    → IsWellSigned v tx missing
unfolding relayer_signer_exists
signed v tx missing enough h =
    let (relayer, signatures) = (seq_ok _ _).0 h in
    record {
      enough_keys = enough;
      relayer_signs = (not-false _).0 ((fail_if_ok _ _).0 relayer);
      valid =
          (all_signatures_exists_iff v tx.message (signers tx) tx.signatures missing).0 signatures;
    }

swap_signed :
    (v : Verifier) (tx : Transaction) (opportunities : List OpportunitySvm)
    → ltb (length tx.static_account_keys) (length tx.signatures) ≡ false
    → verify_swap_signatures v tx (signers tx) opportunities ≡ ok tt
    → IsWellSigned v tx (may_be_missing v opportunities by_other)
unfolding verify_swap_signatures may_be_missing
swap_signed v tx [] enough h = absurd cc
swap_signed v tx (opportunity ∷ opportunities) enough h = signed v tx _ enough ((seq_ok _ _).0 h).1

signers_of_ok :
    (tx : Transaction) (keys : List KeyBytes)
    → signers_of tx ≡ ok keys
    → (ltb (length tx.static_account_keys) (length tx.signatures) ≡ false) × (keys ≡ signers tx)
unfolding signers_of
signers_of_ok tx keys h =
    elim (Bool-cases (ltb (length tx.static_account_keys) (length tx.signatures))) [
      | inl short ↦ absurd (ground arith)
      | inr enough ↦ (enough, ground arith)
    ]

pub verify_signatures-IsWellSigned :
    (v : Verifier) (tx : Transaction) (opportunities : List OpportunitySvm)
    (submit_type : SubmitType)
    → verify_signatures v tx opportunities submit_type ≡ ok tt
    → IsWellSigned v tx (may_be_missing v opportunities submit_type)
unfolding verify_signatures verify_submit_bid_signatures may_be_missing
verify_signatures-IsWellSigned v tx opportunities invalid h =
    absurd (err_not_ok _ _ (bind_ok (signers_of tx) _ tt h).2)
verify_signatures-IsWellSigned v tx opportunities by_other h =
    let (keys, found, checked) = bind_ok (signers_of tx) _ tt h in
    let (enough, same) = signers_of_ok tx keys found in
    swap_signed v tx opportunities enough
      (subst (λ ks. verify_swap_signatures v tx ks opportunities ≡ ok tt) same checked)
verify_signatures-IsWellSigned v tx opportunities by_server h =
    let (keys, found, checked) = bind_ok (signers_of tx) _ tt h in
    let (enough, same) = signers_of_ok tx keys found in
    signed v tx _ enough (subst (λ ks. verify_submit_bid_signatures v tx ks ≡ ok tt) same checked)
