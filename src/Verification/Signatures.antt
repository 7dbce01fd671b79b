-- ===== src/Verification/Signatures.antt =====
-- relayer_signer_exists, all_signatures_exists and verify_signatures of verification.rs. The live
-- opportunities of the bid's permission key are an argument.
pub mod Valid
pub mod Signed
use per.Prelude.{
  ℕ, Bool, List, [], ◌∷◌, ◌++◌, ltb, not, if◌then◌else◌, bytes_eq, length, take, any, first, ok,
  err, ◌>>=◌, ◌>>◌, fail_if, ok_or, map_err, ◌≡◌, ◌↔◌, true, All, ◌⊎◌, Bool-cases, inl, arith, inr,
}
use per.Auction.Entities.{KeyBytes, Signature, Transaction}
use per.Auction.Service.Handling.{SubmitType, by_server, by_other, invalid}
use per.Opportunity.Entities.{OpportunitySvm, check_fee_payer, get_missing_signers}
use per.Verification.Instructions.{Verifier}
use per.Auction.Errors.{
  Reply, bad_parameters, handler_panic, invalid_signature, relayer_not_signer,
  opportunity_not_found, permission_key_not_valid, invalid_first_signer,
}

unfoldable pub relayer_signer_exists : Verifier → List KeyBytes → Reply (Unit {0})
relayer_signer_exists v signers =
    fail_if (not (any (λ account. bytes_eq account v.express_relay.relayer) signers))
      (relayer_not_signer v.express_relay.relayer)

abbrev pub contains : List KeyBytes → KeyBytes → Bool
contains keys key = any (λ k. bytes_eq k key) keys

unfoldable pub all_signatures_exists :
    Verifier → List ℕ → List KeyBytes → List Signature → List KeyBytes → Reply (Unit {0})
all_signatures_exists v message_bytes (pubkey ∷ signers) (signature ∷ signatures) missing_signers =
    let rest = all_signatures_exists v message_bytes signers signatures missing_signers in
    if contains missing_signers pubkey
    then rest
    else if v.solana.verify_signature signature pubkey message_bytes
    then rest
    else err (invalid_signature pubkey)
all_signatures_exists v message_bytes _ _ missing_signers = ok tt

-- `&keys[..n]`, which panics when there are fewer keys.
unfoldable pub signers_of : Transaction → Reply (List KeyBytes)
signers_of tx =
    if ltb (length tx.static_account_keys) (length tx.signatures)
    then err handler_panic
    else ok (take (length tx.signatures) tx.static_account_keys)

-- The branch of a swap, whose user signs later, as the relayer does.
unfoldable pub verify_swap_signatures :
    Verifier → Transaction → List KeyBytes → List OpportunitySvm → Reply (Unit {0})
verify_swap_signatures v tx signers opportunities = do
  opportunity ← ok_or (first opportunities) (bad_parameters opportunity_not_found)
  map_err (λ e. invalid_first_signer) (check_fee_payer opportunity signers v.express_relay.relayer)
  relayer_signer_exists v signers
  all_signatures_exists v tx.message signers tx.signatures
      (get_missing_signers opportunity ++ v.express_relay.relayer ∷ [])

unfoldable pub verify_submit_bid_signatures :
    Verifier → Transaction → List KeyBytes → Reply (Unit {0})
verify_submit_bid_signatures v tx signers = do
  relayer_signer_exists v signers
  all_signatures_exists v tx.message signers tx.signatures (v.express_relay.relayer ∷ [])

unfoldable pub verify_signatures :
    Verifier → Transaction → List OpportunitySvm → SubmitType → Reply (Unit {0})
verify_signatures v tx opportunities submit_type = do
  signers ← signers_of tx
  elim submit_type [
    | invalid ↦ err (bad_parameters permission_key_not_valid)
    | by_other ↦ verify_swap_signatures v tx signers opportunities
    | by_server ↦ verify_submit_bid_signatures v tx signers
  ]
