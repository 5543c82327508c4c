-- ===== src/CoreSystem/Queries/MemoryMap.antt =====
-- What `get_memory_map` reports for one process.
use trinity_v4_ai_brain.Prelude.{
  ℕ, ◌+◌, ◌≤◌, leb, ◌≡◌, refl, ◌∙◌, ap, some, List, [], ◌∷◌, map, ◌==◌, nat_eq, if◌then◌else◌,
  if_cases, indicator, count, inl, inr, is_some, Option-cases, arith,
}
use trinity_v4_ai_brain.Host.{Host}
use trinity_v4_ai_brain.Dict.{get}
use trinity_v4_ai_brain.Memory.{RegionId, region_id_eq, region_id_beq_iff}
use trinity_v4_ai_brain.CoreSystem.{System}
use trinity_v4_ai_brain.CoreSystem.Accounting.{IsAccounted, holdings, owned_by}
use trinity_v4_ai_brain.CoreSystem.Queries.{
  RegionReport, get_memory_info, collect, insert, sort, get_memory_map,
}

module _ {H : Host} where
  -- Every report starts at or above the bound.
  abbrev pub IsAbove : ℕ → List (RegionReport H) → Type 0
  IsAbove n [] = Unit {0}
  IsAbove n (r ∷ rs) = (n ≤ r.start) × IsAbove n rs

  abbrev pub IsSorted : List (RegionReport H) → Type 0
  IsSorted [] = Unit {0}
  IsSorted (r ∷ rs) = IsAbove r.start rs × IsSorted rs

  -- Every report is what get_memory_info says of its id.
  abbrev pub IsAccurate : System H → List (RegionReport H) → Type 0
  IsAccurate s [] = Unit {0}
  IsAccurate s (r ∷ rs) = (get_memory_info r.id s ≡ some r) × IsAccurate s rs

  abbrev pub ids_of : List (RegionReport H) → List RegionId
  ids_of = map λ r. r.id

  IsAbove-weaken : (n m : ℕ) (rs : List (RegionReport H)) → n ≤ m → IsAbove m rs → IsAbove n rs
  IsAbove-weaken n m [] le a = tt
  IsAbove-weaken n m (r ∷ rs) le (a, below) = (omega (arith, le, a), IsAbove-weaken n m rs le below)

  insert-IsAbove :
      (n : ℕ) (r : RegionReport H) (rs : List (RegionReport H))
      → n ≤ r.start
      → IsAbove n rs
      → IsAbove n (insert r rs)
  unfolding insert
  insert-IsAbove n r [] le a = (le, tt)
  insert-IsAbove n r (x ∷ xs) le (a, below) =
      let rest = insert-IsAbove n r xs le below in
      if_cases (IsAbove n) (leb r.start x.start) (r ∷ x ∷ xs) (x ∷ insert r xs)
        (λ e. (le, (a, below))) (λ e. (a, rest))

  insert-IsSorted :
      (r : RegionReport H) (rs : List (RegionReport H)) → IsSorted rs → IsSorted (insert r rs)
  unfolding insert
  insert-IsSorted r [] h = (tt, tt)
  insert-IsSorted r (x ∷ xs) (a, h) =
      let rest = insert-IsSorted r xs h in
      if_cases IsSorted (leb r.start x.start) (r ∷ x ∷ xs) (x ∷ insert r xs)
        (λ e.
          let le : r.start ≤ x.start = ground (arith, e) in
          ((le, IsAbove-weaken r.start x.start xs le a), (a, h)))
        (λ e.
          let le : x.start ≤ r.start = ground (arith, e) in
          (insert-IsAbove x.start r xs le a, rest))

  sort-IsSorted : (rs : List (RegionReport H)) → IsSorted (sort rs)
  unfolding sort
  sort-IsSorted [] = tt
  sort-IsSorted (r ∷ rs) = insert-IsSorted r (sort rs) (sort-IsSorted rs)

  insert-IsAccurate :
      (s : System H) (r : RegionReport H) (rs : List (RegionReport H))
      → get_memory_info r.id s ≡ some r
      → IsAccurate s rs
      → IsAccurate s (insert r rs)
  unfolding insert
  insert-IsAccurate s r [] e h = (e, tt)
  insert-IsAccurate s r (x ∷ xs) e (a, below) =
      let rest = insert-IsAccurate s r xs e below in
      if_cases (IsAccurate s) (leb r.start x.start) (r ∷ x ∷ xs) (x ∷ insert r xs)
        (λ b. (e, (a, below))) (λ b. (a, rest))

  sort-IsAccurate :
      (s : System H) (rs : List (RegionReport H)) → IsAccurate s rs → IsAccurate s (sort rs)
  unfolding sort
  sort-IsAccurate s [] h = tt
  sort-IsAccurate s (r ∷ rs) (e, h) = insert-IsAccurate s r (sort rs) e (sort-IsAccurate s rs h)

  count-insert :
      (rid : RegionId) (r : RegionReport H) (rs : List (RegionReport H))
      → count rid (ids_of (insert r rs)) ≡ indicator (r.id == rid) + count rid (ids_of rs)
  unfolding insert count
  count-insert rid r [] = omega arith
  count-insert rid r (x ∷ xs) =
      let rest = count-insert rid r xs in
      if_cases
        (λ ys.
          count rid (ids_of ys)
          ≡ indicator (r.id == rid) + (indicator (x.id == rid) + count rid (ids_of xs)))
        (leb r.start x.start) (r ∷ x ∷ xs) (x ∷ insert r xs) (λ b. refl) (λ b. omega (arith, rest))

  count-sort :
      (rid : RegionId) (rs : List (RegionReport H))
      → count rid (ids_of (sort rs)) ≡ count rid (ids_of rs)
  unfolding sort count
  count-sort rid [] = refl
  count-sort rid (r ∷ rs) = omega (arith, count-insert rid r (sort rs), count-sort rid rs)

module _ {H : Host} (s : System H) (h : IsAccounted s) where
  -- A region is reported under the id that it stands under.
  info-id : (rid : RegionId) (r : RegionReport H) → get_memory_info rid s ≡ some r → r.id ≡ rid
  unfolding get_memory_info
  info-id rid r e = elim (Option-cases (get s.memory_regions rid)) [
    | inl missing ↦ absurd (cc (rw (missing, get_memory_info) at e))
    | inr (q, there) ↦ ground (arith, h.ids rid, there, e)
  ]

  collect-IsAccurate : (rids : List RegionId) → IsAccurate s (collect rids s)
  unfolding collect
  collect-IsAccurate [] = tt
  collect-IsAccurate (rid ∷ rids) = elim (Option-cases (get_memory_info rid s)) [
    | inl e ↦ rw (e, collect) (collect-IsAccurate rids)
    | inr (r, e) ↦
        rw (e, collect)
          (ap (λ j. get_memory_info j s) (info-id rid r e) ∙ e, collect-IsAccurate rids)
  ]

  collect-count :
      (j : RegionId) (rids : List RegionId)
      → count j (ids_of (collect rids s))
        ≡ (if is_some (get s.memory_regions j) then count j rids else 0)
  unfolding collect count get_memory_info
  collect-count j [] = ground arith
  collect-count j (rid ∷ rids) =
      let rest = collect-count j rids in
      elim (Option-cases (get s.memory_regions rid)) [
        | inl e ↦ rw (e, collect) (ground (arith, rest, e, region_id_beq_iff rid j))
        | inr (r, e) ↦
            rw (e, collect)
              (ground
                (arith, rest, e, h.ids rid, region_id_beq_iff rid j, region_id_beq_iff r.id j))
      ]

  -- With the memory tables consistent, the memory map of a process is sorted by start address,
  -- each entry is what get_memory_info reports of its id, and every region that the process owns
  -- is in it once, and no other.
  pub get_memory_map_complete :
      (pid : ℕ)
      → let reports = get_memory_map (some pid) s in
        IsSorted reports
        × IsAccurate s reports
        × ((rid : RegionId)
            → count rid (ids_of reports) ≡ indicator (owned_by pid (get s.memory_regions rid)))
  unfolding get_memory_map
  get_memory_map_complete pid = (
    sort-IsSorted (collect (holdings s pid) s),
    sort-IsAccurate s (collect (holdings s pid) s) (collect-IsAccurate (holdings s pid)),
    λ rid.
        count-sort rid (collect (holdings s pid) s)
        ∙ collect-count rid (holdings s pid)
        ∙ (ground (arith, h.held pid rid)),
  )
