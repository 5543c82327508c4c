-- ===== src/CoreSystem/Accounting/Deletion.antt =====
-- Deleting a list of regions, as the end of a process does.
use trinity_v4_ai_brain.Prelude.{◌≡◌, refl, ◌∙◌, none, List, [], ◌∷◌, member, if◌then◌else◌, arith}
use trinity_v4_ai_brain.Host.{Host}
use trinity_v4_ai_brain.Dict.{Dict, get, delete}
use trinity_v4_ai_brain.Dict.Laws.{get-delete}
use trinity_v4_ai_brain.Memory.{MemoryRegion, RegionId, region_id_eq}
use trinity_v4_ai_brain.CoreSystem.Regions.{delete_all}

module _ {H : Host} where
  pub get-delete_all :
      (rids : List RegionId) (d : Dict RegionId (MemoryRegion H)) (rid : RegionId)
      → get (delete_all rids d) rid ≡ (if member rid rids then none else get d rid)
  unfolding delete_all member
  get-delete_all [] d rid = refl
  get-delete_all (x ∷ xs) d rid =
      get-delete_all xs (delete d x) rid ∙ simp get-delete (ground arith)
