-- ===== src/Memory.antt =====
-- Memory management types of core_system.py: permissions, types, `MemoryRegion`.
use trinity_v4_ai_brain.Prelude.{
  ℕ, ℤ, String, ◌≡◌, ◌↔◌, Option, [], ◌∷◌, Bool, true, false, Eq, ◌==◌, nat_eq, string_eq, arith,
}
use text.Mathlib.TextEquality.{eq_iff}
use trinity_v4_ai_brain.Enum.{find_member}
use trinity_v4_ai_brain.Host.{Host}
use trinity_v4_ai_brain.Dict
use trinity_v4_ai_brain.Dict.{Dict}

pub data MemoryPermission : Type 0 where
  none read write read_write execute read_execute write_execute read_write_execute :
      MemoryPermission

abbrev pub permission_value : MemoryPermission → ℕ
permission_value MemoryPermission.none = 0
permission_value MemoryPermission.read = 1
permission_value MemoryPermission.write = 2
permission_value MemoryPermission.read_write = 3
permission_value MemoryPermission.execute = 4
permission_value MemoryPermission.read_execute = 5
permission_value MemoryPermission.write_execute = 6
permission_value MemoryPermission.read_write_execute = 7

-- MemoryPermission(v)
abbrev pub permission_of : ℤ → Option MemoryPermission
permission_of = find_member permission_value (
    MemoryPermission.none ∷ MemoryPermission.read ∷ MemoryPermission.write
    ∷ MemoryPermission.read_write ∷ MemoryPermission.execute ∷ MemoryPermission.read_execute
    ∷ MemoryPermission.write_execute ∷ MemoryPermission.read_write_execute ∷ [])

pub data MemoryType : Type 0 where
  normal shared locked huge device : MemoryType

abbrev pub is_shared : MemoryType → Bool
is_shared MemoryType.shared = true
is_shared _ = false

-- The texts that stand as region ids: two fixed ones, f"{pid}_code", f"{pid}_data",
-- f"{pid}_stack", str(uuid) by its number, and any other text that a caller may pass.
pub data RegionId : Type 0 where
  kernel_main : RegionId
  system_shared : RegionId
  code_segment : ℕ → RegionId
  data_segment : ℕ → RegionId
  stack_segment : ℕ → RegionId
  uuid : ℕ → RegionId
  other : String → RegionId

abbrev pub region_id_beq : RegionId → RegionId → Bool
region_id_beq RegionId.kernel_main RegionId.kernel_main = true
region_id_beq RegionId.system_shared RegionId.system_shared = true
region_id_beq (RegionId.code_segment p) (RegionId.code_segment q) = p == q
region_id_beq (RegionId.data_segment p) (RegionId.data_segment q) = p == q
region_id_beq (RegionId.stack_segment p) (RegionId.stack_segment q) = p == q
region_id_beq (RegionId.uuid n) (RegionId.uuid m) = n == m
region_id_beq (RegionId.other s) (RegionId.other t) = s == t
region_id_beq _ _ = false

pub region_id_beq_iff : (a b : RegionId) → (region_id_beq a b ≡ true) ↔ (a ≡ b)
region_id_beq_iff RegionId.kernel_main b = ground arith
region_id_beq_iff (RegionId.other s) (RegionId.other t) = ground (arith, eq_iff s t)
region_id_beq_iff _ b = ground arith

instance abbrev pub region_id_eq : Eq RegionId
region_id_eq = record { beq = region_id_beq; beq_iff = region_id_beq_iff }

-- The one key that the code writes to `metadata` is "mapped_from".
pub record MemoryRegion (H : Host) : Type 0 where
  pub id : RegionId
  pub start : ℕ
  pub size : ℕ
  pub owner_pid : ℕ
  pub memory_type : MemoryType
  pub permissions : MemoryPermission
  pub name : String
  pub metadata : Dict String RegionId
  pub is_mapped : Bool
  pub created_at : H.Float
  pub last_accessed : H.Float

-- MemoryRegion(id=…, start=…, size=…, owner_pid=…, memory_type=…, permissions=…, name=…), at `now`
abbrev pub new_region :
    {H : Host}
    → RegionId
    → ℕ
    → ℕ
    → ℕ
    → MemoryType
    → MemoryPermission
    → String
    → H.Float
    → MemoryRegion H
new_region {H} id start size owner_pid memory_type permissions name now = record {
  id = id;
  start = start;
  size = size;
  owner_pid = owner_pid;
  memory_type = memory_type;
  permissions = permissions;
  name = name;
  metadata = Dict.empty;
  is_mapped = true;
  created_at = now;
  last_accessed = H.zero_seconds;
}
