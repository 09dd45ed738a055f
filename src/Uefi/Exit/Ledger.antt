-- ===== src/Uefi/Exit/Ledger.antt =====
-- Every firmware keeps a ledger of what bootloader/uefi/uefi_exit.c asks of it: the live
-- allocations with their sizes, the key of the last memory map, and the calls of ExitBootServices.
use bear_boot.Prelude.{
  ℕ, ◌+◌, ◌≤◌, ◌<◌, ◌≡◌, ◌≢◌, Bool, true, false, ◌&&◌, leb, ◌==◌, none, some, List, [], ◌∷◌,
  if◌then◌else◌,
}
use bear_boot.Uefi.Exit.{
  FirmwareStatus, success, buffer_too_small, invalid_parameter, error, ExitStatus, ok, Firmware,
  ExitResult, Outcome,
}

-- A firmware's state and its ledger. `fresh` says that nothing was called since the last memory
-- map, and `stale` counts the calls of ExitBootServices that were not made on a fresh memory map
-- with its key; `overrun` counts the calls of GetMemoryMap that offered more bytes than the buffer has.
pub record Audited (S : Type 0) : Type 0 where
  pub state : S
  pub live : List (ℕ × ℕ)
  pub fresh : Bool
  pub key : ℕ
  pub exits : ℕ
  pub stale : ℕ
  pub overrun : ℕ

abbrev pub release : ℕ → List (ℕ × ℕ) → List (ℕ × ℕ)
release p [] = []
release p ((q, size) ∷ live) = if q == p then live else (q, size) ∷ release p live

-- The live allocation at `p` has at least `n` bytes.
abbrev pub has_room : ℕ → ℕ → List (ℕ × ℕ) → Bool
has_room p n [] = n == 0
has_room p n ((q, size) ∷ live) = if q == p then leb n size else has_room p n live

abbrev succeeded : FirmwareStatus → Bool
succeeded success = true
succeeded buffer_too_small = false
succeeded invalid_parameter = false
succeeded error = false

-- The firmware with its ledger.
abbrev pub audited : {S : Type 0} → Firmware S → Firmware (Audited S)
audited firmware = record {
  get_memory_map = λ a buffer query.
      let (status, query', s) = firmware.get_memory_map a.state buffer query in
      (
        status,
        query',
        record a {
          state = s;
          fresh = succeeded status;
          key = query'.map_key;
          overrun = if has_room buffer query.map_size a.live then a.overrun else a.overrun + 1;
        },
      );
  exit_boot_services = λ a key.
      let (status, s) = firmware.exit_boot_services a.state key in
      (
        status,
        record a {
          state = s;
          fresh = false;
          exits = a.exits + 1;
          stale = if a.fresh && (key == a.key) then a.stale else a.stale + 1;
        },
      );
  allocate = λ a size.
      let (p, s) = firmware.allocate a.state size in
      (
        p,
        record a { state = s; fresh = false; live = if p == 0 then a.live else (p, size) ∷ a.live },
      );
  free =
      λ a p. record a { state = firmware.free a.state p; fresh = false; live = release p a.live };
}

-- A firmware that has been asked nothing.
abbrev pub opened : {S : Type 0} → S → Audited S
opened s = record {
  state = s;
  live = [];
  fresh = false;
  key = 0;
  exits = 0;
  stale = 0;
  overrun = 0;
}

-- What a run leaves: after a failure nothing allocated and nothing in `result`; after a success the
-- one live allocation is the memory map that `result` names, it was allocated with the capacity that
-- `result` names, which holds the map, and its key is that of the last map. ExitBootServices was
-- called at most `limit` times, each time on a fresh map, and no call of GetMemoryMap offered more
-- bytes than its buffer has.
pub data IsSettled {S : Type 0} (limit : ℕ) : Outcome (Audited S) → Type 0 where
  failed :
      {status : ExitStatus} {a : Audited S}
      → status ≢ ok
      → a.live ≡ []
      → a.stale ≡ 0
      → a.overrun ≡ 0
      → a.exits ≤ limit
      → IsSettled limit (status, none, a)
  exited :
      {r : ExitResult} {a : Audited S}
      → a.live ≡ (r.memory_map, r.memory_map_capacity) ∷ []
      → a.stale ≡ 0
      → a.overrun ≡ 0
      → a.exits ≤ limit
      → r.map_key ≡ a.key
      → r.memory_map_size ≤ r.memory_map_capacity
      → 0 < r.descriptor_size
      → IsSettled limit (ok, some r, a)
