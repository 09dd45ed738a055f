-- ===== src/Examples/Boot.antt =====
-- The theorems on bootloader/uefi and experimental/rollback on concrete input.
use bear_boot.Prelude.{
  ℕ, ◌+◌, ◌^◌, ◌≤◌, ◌<◌, ◌≡◌, ◌≢◌, ◌⊎◌, ◌↔◌, refl, ◌==◌, if◌then◌else◌, List, [], ◌∷◌, arith,
}
use bear_boot.Rollback.{role_release, accept_update, accept_retry, evaluate, commit_all}
use bear_boot.Rollback.Policy.{evaluate-decides, commit_all-bounds}
use bear_boot.Uefi.Exit.{
  success, buffer_too_small, invalid_parameter, ok, Query, Firmware, map_capacity, attempts,
  negotiate,
}

abbrev next : ℕ
next = 5

evaluate-decides_example :
    (((evaluate 4 next role_release).decision ≡ accept_update)
      ↔ ((role_release ≡ 1) × (next ≡ 4 + 1)))
    × (((evaluate 4 next role_release).decision ≡ accept_retry)
        ↔ (((role_release ≡ 1) ⊎ (role_release ≡ 2)) × (next ≡ 4)))
    × (((evaluate 4 next role_release).decision ≡ accept_update)
        → (evaluate 4 next role_release).floor ≡ next)
    × (((evaluate 4 next role_release).decision ≢ accept_update)
        → (evaluate 4 next role_release).floor ≡ 4)
evaluate-decides_example = evaluate-decides 4 next role_release (omega arith) (omega arith)

abbrev boots : List (ℕ × ℕ)
boots = (5, 1) ∷ (5, 2) ∷ (7, 1) ∷ []

commit_all-bounds_example :
    (4 ≤ commit_all 4 boots) × (commit_all 4 boots ≤ 7) × (commit_all 4 boots < 2 ^ 64)
commit_all-bounds_example = commit_all-bounds 4 boots (omega arith) (omega arith)

-- A firmware that counts its calls: the first asks for 96 bytes, and the first exit finds a stale
-- key.
abbrev counting : Firmware ℕ
counting = record {
  get_memory_map = λ s buffer query.
      let answer : Query = record {
        map_size = 96;
        map_key = s;
        descriptor_size = 48;
        descriptor_version = 1;
      } in
      (if s == 0 then buffer_too_small else success, answer, s + 1);
  exit_boot_services = λ s key. (if key == 2 then invalid_parameter else success, s + 1);
  allocate = λ s size. (4096, s + 1);
  free = λ s p. s + 1;
}

exits_on_second_attempt : (negotiate counting 0).0 ≡ ok
unfolding negotiate attempts map_capacity
exits_on_second_attempt = refl
