-- ===== src/Relay/Admin.antt =====
-- The instructions that set the program's configuration (lib.rs: initialize, set_admin, set_relayer,
-- set_secondary_relayer, set_splits, set_swap_platform_fee, set_router_split) with the constraints
-- of their `Accounts` structs. The seeds of an account fix its address, so the state holds one
-- metadata account and one config account for each router.
pub mod Invariant
pub mod Authority
use per.Prelude.{
  ℕ, Bool, Option, none, some, List, [], ◌∷◌, ok, err, ◌>>=◌, ◌>>◌, fail_if, ok_or, ◌==◌, ◌!=◌, not,
  if◌then◌else◌,
}
use per.Relay.State.{
  Pubkey, ExpressRelayMetadata, ConfigRouter, Error, Outcome, anchor, cpi, account_not_signer,
  account_not_initialized, constraint_has_one,
}
use per.Relay.Fees.{validate_fee_split}

-- An account that an instruction is given, and whether it signed the transaction.
pub record Signer : Type 0 where
  pub key : Pubkey
  pub is_signer : Bool

-- The accounts that the program owns. `none` is an account that does not exist yet.
pub record Program : Type 0 where
  pub metadata : Option ExpressRelayMetadata
  pub config_router : Pubkey → Option ConfigRouter

unfoldable pub empty : Program
empty = record { metadata = none; config_router = λ k. none }

-- `admin: Signer` and `has_one = admin` on the metadata account.
unfoldable pub require_admin : Program → Signer → Outcome ExpressRelayMetadata
require_admin p admin = do
  fail_if (not admin.is_signer) (anchor account_not_signer)
  m ← ok_or p.metadata (anchor account_not_initialized)
  fail_if (m.admin != admin.key) (anchor constraint_has_one)
  ok m

-- `init` fails in the system program, with AccountAlreadyInUse, if the account exists.
require_new : Option ExpressRelayMetadata → Outcome (Unit {0})
require_new none = ok tt
require_new (some m) = err (cpi 0)

pub record InitializeArgs : Type 0 where
  pub split_router_default : ℕ
  pub split_relayer : ℕ

pub record Initialize : Type 0 where
  pub payer : Signer
  pub admin : Pubkey
  pub relayer_signer : Pubkey
  pub fee_receiver_relayer : Pubkey

-- The fields that initialize leaves alone have Rust's default, which is 0 (also as a key).
unfoldable pub initialize : Initialize → InitializeArgs → Program → Outcome Program
unfolding require_new
initialize accounts args p = do
  fail_if (not accounts.payer.is_signer) (anchor account_not_signer)
  require_new p.metadata
  validate_fee_split args.split_router_default
  validate_fee_split args.split_relayer
  ok (record p {
    metadata = some (record {
      admin = accounts.admin;
      relayer_signer = accounts.relayer_signer;
      fee_receiver_relayer = accounts.fee_receiver_relayer;
      split_router_default = args.split_router_default;
      split_relayer = args.split_relayer;
      swap_platform_fee_bps = 0;
      secondary_relayer_signer = 0;
    });
  })

unfoldable pub set_admin : Signer → Pubkey → Program → Outcome Program
set_admin admin admin_new p = do
  m ← require_admin p admin
  ok (record p { metadata = some (record m { admin = admin_new }) })

unfoldable pub set_relayer : Signer → Pubkey → Pubkey → Program → Outcome Program
set_relayer admin relayer_signer fee_receiver_relayer p = do
  m ← require_admin p admin
  ok (record p {
    metadata =
        some (record m {
          relayer_signer = relayer_signer;
          fee_receiver_relayer = fee_receiver_relayer;
        });
  })

unfoldable pub set_secondary_relayer : Signer → Pubkey → Program → Outcome Program
set_secondary_relayer admin secondary_relayer_signer p = do
  m ← require_admin p admin
  ok (record p {
    metadata = some (record m { secondary_relayer_signer = secondary_relayer_signer });
  })

unfoldable pub set_splits : Signer → ℕ → ℕ → Program → Outcome Program
set_splits admin split_router_default split_relayer p = do
  m ← require_admin p admin
  validate_fee_split split_router_default
  validate_fee_split split_relayer
  ok (record p {
    metadata =
        some
          (record m { split_router_default = split_router_default; split_relayer = split_relayer });
  })

unfoldable pub set_swap_platform_fee : Signer → ℕ → Program → Outcome Program
set_swap_platform_fee admin swap_platform_fee_bps p = do
  m ← require_admin p admin
  validate_fee_split swap_platform_fee_bps
  ok (record p { metadata = some (record m { swap_platform_fee_bps = swap_platform_fee_bps }) })

abbrev pub install {ℓ} : {A : Type ℓ} → (ℕ → A) → ℕ → A → ℕ → A
install f k v j = if j == k then v else f j

unfoldable pub set_router_split : Signer → Pubkey → ℕ → Program → Outcome Program
set_router_split admin router split_router p = do
  m ← require_admin p admin
  validate_fee_split split_router
  ok (record p {
    config_router =
        install p.config_router router (some (record { router = router; split = split_router }));
  })

pub data AdminCall : Type 0 where
  initialize_call : Initialize → InitializeArgs → AdminCall
  set_admin_call : Signer → Pubkey → AdminCall
  set_relayer_call : Signer → Pubkey → Pubkey → AdminCall
  set_secondary_relayer_call : Signer → Pubkey → AdminCall
  set_splits_call : Signer → ℕ → ℕ → AdminCall
  set_swap_platform_fee_call : Signer → ℕ → AdminCall
  set_router_split_call : Signer → Pubkey → ℕ → AdminCall

-- The dispatch that Anchor's `#[program]` makes on the instruction.
unfoldable pub dispatch : AdminCall → Program → Outcome Program
unfolding initialize set_admin set_relayer set_secondary_relayer set_splits set_swap_platform_fee
    set_router_split
dispatch (initialize_call accounts args) = initialize accounts args
dispatch (set_admin_call admin admin_new) = set_admin admin admin_new
dispatch (set_relayer_call admin relayer receiver) = set_relayer admin relayer receiver
dispatch (set_secondary_relayer_call admin relayer) = set_secondary_relayer admin relayer
dispatch (set_splits_call admin router relayer) = set_splits admin router relayer
dispatch (set_swap_platform_fee_call admin fee) = set_swap_platform_fee admin fee
dispatch (set_router_split_call admin router split) = set_router_split admin router split

-- A failed instruction leaves every account as it was.
abbrev pub after : Program → Outcome Program → Program
after p (ok q) = q
after p (err e) = p

unfoldable pub run : Program → List AdminCall → Program
run p [] = p
run p (c ∷ cs) = run (after p (dispatch c p)) cs
