-- ===== src/Relay/Admin/Authority.antt =====
-- Who may change the configuration.
use per.Prelude.{◌≡◌, true, some, ok, arith}
use mathlib.Core.Option
use per.Relay.State.{Pubkey, ExpressRelayMetadata}
use per.Relay.Admin.{
  Program, AdminCall, Signer, dispatch, require_admin, initialize_call, set_admin_call,
  set_relayer_call, set_secondary_relayer_call, set_splits_call, set_swap_platform_fee_call,
  set_router_split_call,
}

-- The account that a call presents as the authority: the admin, or the payer of initialize.
abbrev pub presented : AdminCall → Signer
presented (initialize_call accounts args) = accounts.payer
presented (set_admin_call admin _) = admin
presented (set_relayer_call admin _ _) = admin
presented (set_secondary_relayer_call admin _) = admin
presented (set_splits_call admin _ _) = admin
presented (set_swap_platform_fee_call admin _) = admin
presented (set_router_split_call admin _ _) = admin

abbrev pub IsInitialize : AdminCall → Type 0
IsInitialize (initialize_call accounts args) = Unit
IsInitialize _ = ⊥

-- The admin that a successful call leaves behind.
abbrev pub admin_after : AdminCall → Pubkey → Pubkey
admin_after (set_admin_call _ admin_new) admin = admin_new
admin_after _ admin = admin

-- Once the metadata exists, a configuration call that succeeds is not initialize and was signed by
-- the stored admin, and afterwards the admin is the same unless the call was set_admin, which
-- installs the key that it names.
pub dispatch_authorized :
    (c : AdminCall) (p q : Program) (m : ExpressRelayMetadata)
    → p.metadata ≡ some m
    → dispatch c p ≡ ok q
    → (¬ IsInitialize c)
      × ((presented c).is_signer ≡ true)
      × ((presented c).key ≡ m.admin)
      × (Option.map (λ (n : ExpressRelayMetadata). n.admin) q.metadata
          ≡ some (admin_after c m.admin))
unfolding dispatch require_admin
dispatch_authorized (initialize_call accounts args) p q m e h =
    (λ i. ground arith, ground arith, ground arith, ground arith)
dispatch_authorized (set_admin_call _ _) p q m e h =
    (λ i. i, ground arith, ground arith, ground arith)
dispatch_authorized _ p q m e h = (λ i. i, ground arith, ground arith, ground arith)
