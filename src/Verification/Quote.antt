-- ===== src/Verification/Quote.antt =====
-- is_indicative_price_taker and get_quote_virtual_permission_account of
-- opportunity/service/get_quote.rs: the permission account that all the bids on one quote share.
use per.Prelude.{ℕ, zero, suc, ◌/◌, ◌%◌, Bool, List, [], ◌∷◌, bytes_eq, take}
use per.Auction.Entities.{KeyBytes}
use per.Opportunity.Entities.{QuoteTokens, user_token_specified, searcher_token_specified}
use per.Verification.Solana.{Solana}

-- `u64::to_le_bytes`, of as many bytes as asked for.
unfoldable pub to_le_bytes : ℕ → ℕ → List ℕ
to_le_bytes zero n = []
to_le_bytes (suc k) n = n % 256 ∷ to_le_bytes k (n / 256)

unfoldable pub quote_seeds : QuoteTokens → KeyBytes → KeyBytes → ℕ → List (List ℕ)
quote_seeds (user_token_specified user searcher) wallet router_token_account referral_fee_ppm =
    router_token_account
    ∷ wallet
    ∷ searcher
    ∷ user.token
    ∷ to_le_bytes 8 user.amount
    ∷ to_le_bytes 8 referral_fee_ppm
    ∷ []
quote_seeds (searcher_token_specified user searcher) wallet router_token_account referral_fee_ppm =
    router_token_account
    ∷ wallet
    ∷ searcher.token
    ∷ to_le_bytes 8 searcher.amount
    ∷ user
    ∷ to_le_bytes 8 referral_fee_ppm
    ∷ []

unfoldable pub get_quote_virtual_permission_account :
    Solana → QuoteTokens → KeyBytes → KeyBytes → ℕ → KeyBytes
get_quote_virtual_permission_account solana tokens wallet router_token_account referral_fee_ppm =
    solana.find_program_address (quote_seeds tokens wallet router_token_account referral_fee_ppm)

-- The bytes of the key Price11111111111111111111111111111111111112.
abbrev pub indicative_price_taker_base : KeyBytes
indicative_price_taker_base =
    5 ∷ 218 ∷ 254 ∷ 88 ∷ 252 ∷ 201 ∷ 84 ∷ 190 ∷ 150 ∷ 201 ∷ 50 ∷ 174 ∷ 142 ∷ 154 ∷ 23 ∷ 104 ∷ 157
    ∷ 16 ∷ 23 ∷ 248 ∷ 201 ∷ 225 ∷ 176 ∷ 124 ∷ 134 ∷ 50 ∷ 113 ∷ 192 ∷ 0 ∷ 0 ∷ 0 ∷ 1 ∷ []

-- The first 24 bytes are compared.
unfoldable pub is_indicative_price_taker : KeyBytes → Bool
is_indicative_price_taker wallet = bytes_eq (take 24 wallet) (take 24 indicative_price_taker_base)
