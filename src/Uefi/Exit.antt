-- ===== src/Uefi/Exit.antt =====
-- bootloader/uefi/uefi_exit.c: the ExitBootServices state machine. The firmware is a parameter: a
-- state, and the four functions of `struct bbp_uefi_exit_ops` on it. A NULL pointer to a function is
-- none, and a NULL allocation is 0.
pub mod Ledger
use bear_boot.Prelude.{
  ℕ, zero, suc, ◌+◌, ◌-◌, ◌*◌, ◌/◌, ◌^◌, Bool, true, false, ◌||◌, ltb, ◌==◌, if◌then◌else◌, Option,
  none, some,
}

-- `bbp_uefi_firmware_status`.
pub data FirmwareStatus : Type 0 where
  success buffer_too_small invalid_parameter error : FirmwareStatus

-- `bbp_uefi_exit_status`.
pub data ExitStatus : Type 0 where
  ok err_argument err_probe err_overflow err_allocation err_memory_map err_exit_boot_services
        err_retry_limit :
      ExitStatus

-- The variables that GetMemoryMap reads and writes through its pointers.
pub record Query : Type 0 where
  pub map_size : ℕ
  pub map_key : ℕ
  pub descriptor_size : ℕ
  pub descriptor_version : ℕ

-- `struct bbp_uefi_exit_ops` with no pointer NULL, for one image handle.
pub record Firmware (S : Type 0) : Type 0 where
  pub get_memory_map : S → ℕ → Query → FirmwareStatus × Query × S
  pub exit_boot_services : S → ℕ → FirmwareStatus × S
  pub allocate : S → ℕ → ℕ × S
  pub free : S → ℕ → S

-- `struct bbp_uefi_exit_ops`, whose pointers may be NULL.
pub record Ops (S : Type 0) : Type 0 where
  pub get_memory_map : Option (S → ℕ → Query → FirmwareStatus × Query × S)
  pub exit_boot_services : Option (S → ℕ → FirmwareStatus × S)
  pub allocate : Option (S → ℕ → ℕ × S)
  pub free : Option (S → ℕ → S)

-- `struct bbp_uefi_exit_result`.
pub record ExitResult : Type 0 where
  pub memory_map : ℕ
  pub memory_map_size : ℕ
  pub memory_map_capacity : ℕ
  pub map_key : ℕ
  pub descriptor_size : ℕ
  pub descriptor_version : ℕ
  pub memory_map_final : ℕ

abbrev pub size_max : ℕ
size_max = 2 ^ 64 - 1

abbrev pub descriptor_slack : ℕ
descriptor_slack = 8

abbrev pub max_attempts : ℕ
max_attempts = 8

unfoldable pub map_capacity : ℕ → ℕ → Option ℕ
map_capacity required descriptor_size =
    if (descriptor_size == 0) || ltb (size_max / descriptor_slack) descriptor_size
    then none
    else let slack = descriptor_size * descriptor_slack in
      if ltb (size_max - slack) required then none else some (required + slack)

-- What `bbp_uefi_exit_boot_services` gives: its status, what it stores through `result` if it does,
-- and the firmware's state.
abbrev pub Outcome : Type 0 → Type 0
Outcome S = ExitStatus × Option ExitResult × S

module _ {S : Type 0} (firmware : Firmware S) where
  -- The loop over the attempts, of which `left` are left.
  unfoldable pub attempts : ℕ → S → ℕ → ℕ → Query → Outcome S
  attempts zero s capacity memory_map query = (err_retry_limit, none, firmware.free s memory_map)
  attempts (suc left) s capacity memory_map query =
      let (status, query', s') =
        firmware.get_memory_map s memory_map (record query { map_size = capacity }) in
      elim status [
        | buffer_too_small ↦ elim (map_capacity query'.map_size query'.descriptor_size) [
          | none ↦ (err_overflow, none, firmware.free s' memory_map)
          | some larger ↦
              let (memory_map', s'') = firmware.allocate (firmware.free s' memory_map) larger in
              elim (memory_map' == 0) [
                | true ↦ (err_allocation, none, s'')
                | false ↦ attempts left s'' larger memory_map' query'
              ]
        ]
        | success ↦ elim ((query'.descriptor_size == 0) || ltb capacity query'.map_size) [
          | true ↦ (err_memory_map, none, firmware.free s' memory_map)
          | false ↦
              let (status', s'') = firmware.exit_boot_services s' query'.map_key in
              elim status' [
                | success ↦ (
                  ok,
                  some (record {
                    memory_map = memory_map;
                    memory_map_size = query'.map_size;
                    memory_map_capacity = capacity;
                    map_key = query'.map_key;
                    descriptor_size = query'.descriptor_size;
                    descriptor_version = query'.descriptor_version;
                    memory_map_final = 1;
                  }),
                  s'',
                )
                | invalid_parameter ↦ attempts left s'' capacity memory_map query'
                | buffer_too_small ↦ (err_exit_boot_services, none, firmware.free s'' memory_map)
                | error ↦ (err_exit_boot_services, none, firmware.free s'' memory_map)
              ]
        ]
        | invalid_parameter ↦ (err_memory_map, none, firmware.free s' memory_map)
        | error ↦ (err_memory_map, none, firmware.free s' memory_map)
      ]

  -- `bbp_uefi_exit_boot_services` after the check of its arguments.
  unfoldable pub negotiate : S → Outcome S
  negotiate s =
      let blank : Query = record {
        map_size = 0;
        map_key = 0;
        descriptor_size = 0;
        descriptor_version = 0;
      } in
      let (status, query, s') = firmware.get_memory_map s 0 blank in
      elim status [
        | buffer_too_small ↦ elim (map_capacity query.map_size query.descriptor_size) [
          | none ↦ (err_overflow, none, s')
          | some capacity ↦
              let (memory_map, s'') = firmware.allocate s' capacity in
              elim (memory_map == 0) [
                | true ↦ (err_allocation, none, s'')
                | false ↦ attempts max_attempts s'' capacity memory_map query
              ]
        ]
        | success ↦ (err_probe, none, s')
        | invalid_parameter ↦ (err_probe, none, s')
        | error ↦ (err_probe, none, s')
      ]

-- The functions of `ops`, if none of the pointers is NULL.
unfoldable pub usable : {S : Type 0} → Option (Ops S) → Option (Firmware S)
usable none = none
usable (some ops) = elim ops.get_memory_map [
  | none ↦ none
  | some get ↦ elim ops.exit_boot_services [
    | none ↦ none
    | some exit ↦ elim ops.allocate [
      | none ↦ none
      | some allocate ↦ elim ops.free [
        | none ↦ none
        | some free ↦ some (record {
          get_memory_map = get;
          exit_boot_services = exit;
          allocate = allocate;
          free = free;
        })
      ]
    ]
  ]
]

-- `bbp_uefi_exit_boot_services`; `result_there` says that `result` is not NULL.
unfoldable pub exit_boot_services : {S : Type 0} → Option (Ops S) → Bool → S → Outcome S
exit_boot_services ops false s = (err_argument, none, s)
exit_boot_services ops true s = elim (usable ops) [
  | none ↦ (err_argument, none, s)
  | some firmware ↦ negotiate firmware s
]
