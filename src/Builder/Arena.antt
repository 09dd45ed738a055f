-- ===== src/Builder/Arena.antt =====
-- The data that bootloader/bbp_build.c copies into its arena.
use bear_boot.Prelude.{
  ℕ, zero, suc, ◌+◌, ◌&&◌, ◌||◌, ltb, ◌==◌, ◌!=◌, if◌then◌else◌, Option, none, some, List, [], ◌∷◌,
  ◌++◌, ◌>>=◌,
}
use bear_boot.Memory.{Memory, load_bytes, store_bytes}
use bear_boot.Builder.{Builder, overflowed, arena_bump, u32_max, size_max}

-- The scan `while (len < source_bytes && s[len]) len++`, from `len` with `left` bytes to go.
unfoldable pub string_length : Memory → ℕ → ℕ → ℕ → Option ℕ
string_length m s zero len = some len
string_length m s (suc left) len = do
  c ← m (s + len)
  (let rest = string_length m s left (len + 1) in if c != 0 then rest else some len)

-- What `bbp_arena_strdup_n` gives: the physical address (0 for failure), the length that it stores
-- through `out_len`, the builder and the memory.
pub record Copied : Type 0 where
  pub phys : ℕ
  pub out_len : ℕ
  pub builder : Option Builder
  pub memory : Memory

abbrev pub copied : ℕ → ℕ → Option Builder → Memory → Copied
copied phys out_len builder memory = record {
  phys = phys;
  out_len = out_len;
  builder = builder;
  memory = memory;
}

-- The bytes that a bump has made room for.
unfoldable pub place_bytes : Memory → List ℕ → ℕ → Option (ℕ × ℕ) × Builder → Option Copied
place_bytes m bytes len (none, b') = some (copied 0 0 (some b') m)
place_bytes m bytes len (some (p, phys), b') = do
  m' ← store_bytes m p bytes
  some (copied phys len (some b') m')

-- `bbp_arena_strdup_n`; 0 for `s` is NULL.
unfoldable pub strdup_n : Memory → Option Builder → ℕ → ℕ → Option Copied
strdup_n m none s source_bytes = some (copied 0 0 none m)
strdup_n m (some b) s source_bytes =
    if (s == 0) || (source_bytes == 0) then some (copied 0 0 (some (overflowed b)) m) else do
      len ← string_length m s source_bytes 0
      (if (len == source_bytes) || ltb u32_max len
          then some (copied 0 0 (some (overflowed b)) m)
          else do
            text ← load_bytes m s len
            place_bytes m (text ++ 0 ∷ []) len (arena_bump b (len + 1)))

-- `bbp_arena_strdup`.
unfoldable pub strdup : Memory → Option Builder → ℕ → Option Copied
strdup m b s = strdup_n m b s size_max

-- `bbp_arena_blob`; 0 for `bytes` is NULL.
unfoldable pub blob : Memory → Option Builder → ℕ → ℕ → Option Copied
blob m none bytes len = some (copied 0 0 none m)
blob m (some b) bytes len =
    if (bytes == 0) && (len != 0)
    then some (copied 0 0 (some (overflowed b)) m)
    else if len == 0
    then some (copied 0 0 (some b) m)
    else do content ← load_bytes m bytes len; place_bytes m content len (arena_bump b len)
