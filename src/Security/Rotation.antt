-- ===== src/Security/Rotation.antt =====
-- Secret rotation of src/harness/security/rotation.py. Times are seconds; `now` is the time that the
-- caller gives, or the clock's.
use md_harness.Prelude.{
  leb, ltb, if◌then◌else◌, ℕ, ◌+◌, ◌*◌, ◌≤◌, ◌<◌, ◌≡◌, ◌↔◌, String, Bool, true, not, ◌&&◌, arith,
  nat_eq,
}
use md_harness.Effects.{value_error, Result, return}
use md_harness.Effects.Checks.{◌>>◌, check}
use md_harness.Text.{is_blank}

pub record RotationPolicy : Type 0 where
  pub max_age_days : ℕ

pub data SecretStatus : Type 0 where
  valid : SecretStatus
  expiring : SecretStatus
  expired : SecretStatus
  missing : SecretStatus

pub record SecretRotation : Type 0 where
  pub name : String
  pub created_at : ℕ
  pub policy : RotationPolicy

-- `RotationPolicy.__post_init__`
unfoldable pub rotation_policy : ℕ → Result RotationPolicy
rotation_policy max_age_days = do
  check (not (ltb max_age_days 1)) (value_error "max_age_days must be positive")
  return (record { max_age_days = max_age_days })

-- `SecretRotation.__post_init__`; `aware` says that `created_at` has a time zone.
unfoldable pub secret_rotation : String → ℕ → Bool → RotationPolicy → Result SecretRotation
unfolding is_blank
secret_rotation name created_at aware policy = do
  check (not (is_blank name) && aware)
      (value_error "secret name and timezone-aware creation time are required")
  return (record { name = name; created_at = created_at; policy = policy })

abbrev pub day : ℕ
day = 86400

-- `self.created_at + timedelta(days=self.policy.max_age_days)`
abbrev pub expiry : SecretRotation → ℕ
expiry r = r.created_at + r.policy.max_age_days * day

unfoldable pub due : SecretRotation → ℕ → Bool
due r now = leb (expiry r) now

-- `current >= expiry - timedelta(days=14)` is read as a sum.
unfoldable pub secret_status : SecretRotation → Bool → ℕ → SecretStatus
secret_status r present now =
    if not present
    then missing
    else if leb (expiry r) now
    then expired
    else if leb (expiry r) (now + 14 * day)
    then expiring
    else valid

abbrev pub rank : SecretStatus → ℕ
rank valid = 0
rank expiring = 1
rank expired = 2
rank missing = 3

-- A present secret is expired from its expiry on, which is when it is due, expiring in the 14 days
-- before, and valid before those. As time passes its status never gets better.
pub secret_status_lem :
    (r : SecretRotation) (now later : ℕ)
    → now ≤ later
    → ((secret_status r true now ≡ expired) ↔ (expiry r ≤ now))
      × ((due r now ≡ true) ↔ (secret_status r true now ≡ expired))
      × ((secret_status r true now ≡ expiring) ↔ ((expiry r ≤ now + 14 * day) × (now < expiry r)))
      × ((secret_status r true now ≡ valid) ↔ (now + 14 * day < expiry r))
      × (rank (secret_status r true now) ≤ rank (secret_status r true later))
unfolding secret_status due
secret_status_lem r now later h = (
  (λ e. ground (arith, e), λ e. ground (arith, e)),
  (λ e. ground (arith, e), λ e. ground (arith, e)),
  (λ e. ground (arith, e), λ e. ground (arith, e)),
  (λ e. ground (arith, e), λ e. ground (arith, e)),
  ground (arith, h),
)
