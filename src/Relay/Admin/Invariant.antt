-- ===== src/Relay/Admin/Invariant.antt =====
-- Every split that the program stores is within the precision.
use per.Prelude.{
  ℕ, ◌≤◌, ◌≡◌, ◌≢◌, refl, some, List, [], ◌∷◌, ok, err, arith, u64_limit, ◌<◌, OnSome, subst,
}
use per.Relay.State.{
  ExpressRelayMetadata, ConfigRouter, Outcome, fee_split_precision, code, fees_higher_than_bid,
  Pubkey,
}
use per.Relay.Fees.{validate_fee_split, perform_fee_splits}
use per.Relay.Fees.Splits.{perform_fee_splits-ne-fees_higher}
use per.Relay.Admin.{
  Program, AdminCall, dispatch, require_admin, after, run, empty, initialize_call,
}

pub record MetadataIsValid (m : ExpressRelayMetadata) : Type 0 where
  pub router_within : m.split_router_default ≤ fee_split_precision
  pub relayer_within : m.split_relayer ≤ fee_split_precision
  pub platform_within : m.swap_platform_fee_bps ≤ fee_split_precision

abbrev pub ConfigIsValid : ℕ → ConfigRouter → Type 0
ConfigIsValid k c = (c.router ≡ k) × (c.split ≤ fee_split_precision)

pub record IsValid (p : Program) : Type 0 where
  pub metadata_valid : OnSome MetadataIsValid p.metadata
  pub config_valid : (k : ℕ) → OnSome (ConfigIsValid k) (p.config_router k)

pub empty-IsValid : IsValid empty
unfolding empty
empty-IsValid = record { metadata_valid = tt; config_valid = λ k. tt }

dispatch-metadata_valid :
    (c : AdminCall) (p q : Program)
    → OnSome MetadataIsValid p.metadata
    → dispatch c p ≡ ok q
    → OnSome MetadataIsValid q.metadata
unfolding dispatch validate_fee_split require_admin
dispatch-metadata_valid (initialize_call accounts args) p q v e = ground arith
dispatch-metadata_valid _ p q v e = ground arith

dispatch-config_valid :
    (c : AdminCall) (p q : Program) (k : ℕ)
    → OnSome (ConfigIsValid k) (p.config_router k)
    → dispatch c p ≡ ok q
    → OnSome (ConfigIsValid k) (q.config_router k)
unfolding dispatch validate_fee_split require_admin
dispatch-config_valid (initialize_call accounts args) p q k v e = ground arith
dispatch-config_valid _ p q k v e = ground arith

-- A call of any kind, whether it succeeds or fails, keeps the stored splits within the precision and
-- each router's config account naming its own router.
pub dispatch-IsValid : (c : AdminCall) (p : Program) → IsValid p → IsValid (after p (dispatch c p))
dispatch-IsValid c p v = go (dispatch c p) refl
  where
    go : (r : Outcome Program) → dispatch c p ≡ r → IsValid (after p r)
    go (err x) e = v
    go (ok q) e = record {
      metadata_valid = dispatch-metadata_valid c p q v.metadata_valid e;
      config_valid = λ k. dispatch-config_valid c p q k (v.config_valid k) e;
    }

run-IsValid : (p : Program) (cs : List AdminCall) → IsValid p → IsValid (run p cs)
unfolding run
run-IsValid p [] v = v
run-IsValid p (c ∷ cs) v = run-IsValid (after p (dispatch c p)) cs (dispatch-IsValid c p v)

-- After any sequence of configuration calls on the fresh program, successful or not, every stored
-- split is within the precision.
pub run-empty-IsValid : (cs : List AdminCall) → IsValid (run empty cs)
run-empty-IsValid cs = run-IsValid empty cs empty-IsValid

-- Once the configuration calls, in any sequence, have stored metadata and a router's config,
-- perform_fee_splits answers FeesHigherThanBid for no u64 bid, neither with the default router split
-- nor with the router's own.
pub run-ne-fees_higher :
    (cs : List AdminCall) (m : ExpressRelayMetadata) (k : Pubkey) (c : ConfigRouter) (bid : ℕ)
    → (run empty cs).metadata ≡ some m
    → (run empty cs).config_router k ≡ some c
    → bid < u64_limit
    → (perform_fee_splits bid m.split_router_default m.split_relayer
        ≢ err (code fees_higher_than_bid))
      × (perform_fee_splits bid c.split m.split_relayer ≢ err (code fees_higher_than_bid))
run-ne-fees_higher cs m k c bid e found h = (
  perform_fee_splits-ne-fees_higher bid m.split_router_default m.split_relayer h meta.router_within
      meta.relayer_within,
  perform_fee_splits-ne-fees_higher bid c.split m.split_relayer h
      (subst (OnSome (ConfigIsValid k)) found ((run-empty-IsValid cs).config_valid k)).1
      meta.relayer_within,
)
  where
    meta : MetadataIsValid m
    meta = subst (OnSome MetadataIsValid) e (run-empty-IsValid cs).metadata_valid
