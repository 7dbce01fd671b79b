-- ===== src/Verification/Checks.antt =====
-- When a chain of the checks of verification.rs passes, as a conjunction.
use per.Prelude.{
  if◌then◌else◌, ltb, ◌≤◌, ◌∷◌, List, [], All, ℕ, ◌≡◌, refl, sym, ◌↔◌, Bool, true, false, arith,
  not, ◌!=◌, bytes_eq, bytes_eq_iff, Result, ok, err, ◌>>=◌, ◌>>◌, fail_if,
}

-- A sequence of checks passes exactly when each of them does.
pub seq_ok {ℓ} :
    {E : Type ℓ} (m n : Result E (Unit {0})) → (m >> n ≡ ok tt) ↔ ((m ≡ ok tt) × (n ≡ ok tt))
seq_ok (ok done) n = (λ e. (refl, e), λ e. e.1)
seq_ok (err e) n = (λ h. cc, λ h. cc)

pub fail_if_ok {ℓ} : {E : Type ℓ} (b : Bool) (e : E) → (fail_if b e ≡ ok tt) ↔ (b ≡ false)
fail_if_ok true e = (λ h. cc, λ h. cc)
fail_if_ok false e = (λ h. refl, λ h. refl)

pub not-false : (b : Bool) → (not b ≡ false) ↔ (b ≡ true)
not-false true = (λ h. refl, λ h. refl)
not-false false = (λ h. cc, λ h. cc)

pub bind_ok {ℓ κ μ} :
    {E : Type ℓ} {A : Type κ} {B : Type μ} (m : Result E A) (next : A → Result E B) (b : B)
    → m >>= next ≡ ok b
    → (a : A) × (m ≡ ok a) × (next a ≡ ok b)
bind_ok (ok a) next b h = (a, refl, h)
bind_ok (err e) next b h = absurd cc

-- A key that is compared with the one expected passes exactly when it is that key.
pub key_ok {ℓ} :
    {E : Type ℓ} (e : E) (expected found : List ℕ)
    → (fail_if (not (bytes_eq expected found)) e ≡ ok tt) ↔ (found ≡ expected)
key_ok e expected found = (
  λ h. sym (
      (bytes_eq_iff expected found).0 (
        (not-false (bytes_eq expected found)).0
          ((fail_if_ok (not (bytes_eq expected found)) e).0 h))),
  λ h.
      (fail_if_ok (not (bytes_eq expected found)) e).1
        ((not-false (bytes_eq expected found)).1 ((bytes_eq_iff expected found).1 (sym h))),
)

pub amount_ok {ℓ} :
    {E : Type ℓ} (e : E) (expected found : ℕ)
    → (fail_if (expected != found) e ≡ ok tt) ↔ (found ≡ expected)
amount_ok e expected found = (
  λ h. let passed = (fail_if_ok (expected != found) e).0 h in ground arith,
  λ h. (fail_if_ok (expected != found) e).1 (ground arith),
)

pub err_not_ok {ℓ κ} : {E : Type ℓ} {A : Type κ} (e : E) (a : A) → err e ≡ ok a → ⊥
err_not_ok e a h = absurd cc

pub then_ok {ℓ κ} :
    {E : Type ℓ} {B : Type κ} (m : Result E (Unit {0})) (n : Result E B) (b : B)
    → m >> n ≡ ok b
    → (m ≡ ok tt) × (n ≡ ok b)
then_ok (ok done) n b h = (refl, h)
then_ok (err e) n b h = absurd cc

pub ok_injective {ℓ κ} :
    {E : Type ℓ} {A : Type κ} (a b : A) → ◌≡◌ {A = Result E A} (ok a) (ok b) → a ≡ b
ok_injective a b h = cc

pub not_below : (a b : ℕ) → ltb a b ≡ false → b ≤ a
not_below a b h = ground arith

-- A predicate that follows from another one, on every element.
pub All-map {ℓ κ μ} :
    {A : Type ℓ} {P : A → Type κ} {Q : A → Type μ}
    → ((x : A) → P x → Q x)
    → (xs : List A) → All P xs
    → All Q xs
All-map f [] h = tt
All-map f (x ∷ xs) h = (f x h.0, All-map f xs h.1)

pub then_part {ℓ} :
    {A : Type ℓ} (b : Bool) (m n r : A) → (if b then m else n) ≡ r → b ≡ true → m ≡ r
then_part true m n r h e = h
then_part false m n r h e = absurd cc

pub else_part {ℓ} :
    {A : Type ℓ} (b : Bool) (m n r : A) → (if b then m else n) ≡ r → b ≡ false → n ≡ r
else_part true m n r h e = absurd cc
else_part false m n r h e = h
