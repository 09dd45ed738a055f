-- ===== src/Capsule/Status.antt =====
-- The statuses of v2/bbp_v2.c: OK or not.
use bear_boot.Prelude.{◌≡◌, ◌≢◌, ◌⊎◌, inl, inr, refl}
use bear_boot.Capsule.{
  CapsuleStatus, ok, err_null, err_magic, err_version, err_format, err_extent, err_overflow,
  err_count, err_alignment, err_overlap, err_padding, err_crc, err_work, err_capacity, err_policy,
  err_source, proceed,
}

pub CapsuleStatus-ok : (x : CapsuleStatus) → (x ≡ ok) ⊎ (x ≢ ok)
CapsuleStatus-ok ok = inl refl
CapsuleStatus-ok err_null = inr (λ e. cc)
CapsuleStatus-ok err_magic = inr (λ e. cc)
CapsuleStatus-ok err_version = inr (λ e. cc)
CapsuleStatus-ok err_format = inr (λ e. cc)
CapsuleStatus-ok err_extent = inr (λ e. cc)
CapsuleStatus-ok err_overflow = inr (λ e. cc)
CapsuleStatus-ok err_count = inr (λ e. cc)
CapsuleStatus-ok err_alignment = inr (λ e. cc)
CapsuleStatus-ok err_overlap = inr (λ e. cc)
CapsuleStatus-ok err_padding = inr (λ e. cc)
CapsuleStatus-ok err_crc = inr (λ e. cc)
CapsuleStatus-ok err_work = inr (λ e. cc)
CapsuleStatus-ok err_capacity = inr (λ e. cc)
CapsuleStatus-ok err_policy = inr (λ e. cc)
CapsuleStatus-ok err_source = inr (λ e. cc)

-- A status other than OK stops.
pub proceed-stop :
    {A : Type 0} (x : CapsuleStatus) (next : A) (stop : CapsuleStatus → A)
    → x ≢ ok
    → proceed x next stop ≡ stop x
proceed-stop ok next stop h = absurd (h refl)
proceed-stop err_null next stop h = refl
proceed-stop err_magic next stop h = refl
proceed-stop err_version next stop h = refl
proceed-stop err_format next stop h = refl
proceed-stop err_extent next stop h = refl
proceed-stop err_overflow next stop h = refl
proceed-stop err_count next stop h = refl
proceed-stop err_alignment next stop h = refl
proceed-stop err_overlap next stop h = refl
proceed-stop err_padding next stop h = refl
proceed-stop err_crc next stop h = refl
proceed-stop err_work next stop h = refl
proceed-stop err_capacity next stop h = refl
proceed-stop err_policy next stop h = refl
proceed-stop err_source next stop h = refl
