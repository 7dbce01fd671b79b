-- ===== src/Verification/Signatures/Valid.antt =====
-- Which signatures all_signatures_exists accepts.
use per.Prelude.{ℕ, ◌≡◌, refl, ◌↔◌, ◌⊎◌, inl, inr, true, List, [], ◌∷◌, arith, Bool-cases, All, ok}
use per.Auction.Entities.{KeyBytes, Signature}
use per.Verification.Instructions.{Verifier}
use per.Verification.Signatures.{contains, all_signatures_exists}

-- The signatures with the keys that they are of, as far as both go.
unfoldable pub signed_by : List KeyBytes → List Signature → List (KeyBytes × Signature)
signed_by (pubkey ∷ signers) (signature ∷ signatures) =
    (pubkey, signature) ∷ signed_by signers signatures
signed_by _ _ = []

-- The signature of a key that may be missing is not looked at.
abbrev pub IsSigned : Verifier → List ℕ → List KeyBytes → KeyBytes × Signature → Type 0
IsSigned v message_bytes missing_signers (pubkey, signature) =
    (contains missing_signers pubkey ≡ true)
    ⊎ (v.solana.verify_signature signature pubkey message_bytes ≡ true)

-- Signatures are accepted exactly when each of them, but those of the signers that may be missing,
-- verifies with the key at its position.
pub all_signatures_exists_iff :
    (v : Verifier) (message_bytes : List ℕ) (signers : List KeyBytes) (signatures : List Signature)
    (missing_signers : List KeyBytes)
    → (all_signatures_exists v message_bytes signers signatures missing_signers ≡ ok tt)
      ↔ All (IsSigned v message_bytes missing_signers) (signed_by signers signatures)
unfolding all_signatures_exists signed_by
all_signatures_exists_iff v message_bytes [] signatures missing_signers = (λ h. tt, λ h. refl)
all_signatures_exists_iff v message_bytes (pubkey ∷ signers) [] missing_signers =
    (λ h. tt, λ h. refl)
all_signatures_exists_iff v message_bytes (pubkey ∷ signers) (signature ∷ signatures)
      missing_signers =
    let rest = all_signatures_exists_iff v message_bytes signers signatures missing_signers in
    elim (Bool-cases (contains missing_signers pubkey)) [
      | inl missing ↦ (
        λ h. (inl missing, rest.0 (ground arith)),
        λ h. rw (all_signatures_exists, missing) (rest.1 h.1),
      )
      | inr present ↦ elim (Bool-cases (v.solana.verify_signature signature pubkey message_bytes)) [
        | inl valid ↦ (
          λ h. (inr valid, rest.0 (ground arith)),
          λ h. rw (all_signatures_exists, present, valid) (rest.1 h.1),
        )
        | inr wrong ↦
            (λ h. absurd (ground arith), λ h. absurd (elim h.0 [ inl e ↦ cc | inr e ↦ cc ]))
      ]
    ]
