-- ===== src/Health/Store/Worst.antt =====
-- The overall status of the health summary.
use fast_tak.Base.{◌≡◌, ◌≤◌, ◌<◌, refl, ◌∙◌, [], ◌∷◌, ◌⊎◌, inl, inr, arith}
use fast_tak.Base.Result.{ok}
use fast_tak.Health.Status.{Status, okay, note, rank, name, of_name}
use fast_tak.Health.Store.{Cache, raise_worst, overall, summaries, health_summary}

-- The store holds the name of a level for every service.
abbrev pub HasLevels : {N : Type 0} → Cache N → Type 0
HasLevels [] = Unit
HasLevels ((service, entry) ∷ rest) =
    ((l : Status) × (of_name entry.status ≡ ok l)) × HasLevels rest

-- No service is worse than this level, unless it is at `note` or below.
abbrev pub IsBound : {N : Type 0} → Status → Cache N → Type 0
IsBound worst [] = Unit
IsBound worst ((service, entry) ∷ rest) =
    ((l : Status) → of_name entry.status ≡ ok l → (rank l ≤ rank note) ⊎ (rank l ≤ rank worst))
    × IsBound worst rest

-- Some service is at this level.
abbrev pub IsLevelOf : {N : Type 0} → Status → Cache N → Type 0
IsLevelOf worst [] = ⊥
IsLevelOf worst ((service, entry) ∷ rest) = (of_name entry.status ≡ ok worst) ⊎ IsLevelOf worst rest

raise_worst_cases :
    (w l : Status) → (raise_worst w l ≡ w) ⊎ ((raise_worst w l ≡ l) × (rank note < rank l))
raise_worst_cases w l = ground arith

overall-bounds :
    {N : Type 0} (w : Status) (cache : Cache N)
    → HasLevels cache
    → (worst : Status) × (overall w cache ≡ ok worst)
      × (rank w ≤ rank worst)
      × IsBound worst cache
      × ((worst ≡ w) ⊎ ((rank note < rank worst) × IsLevelOf worst cache))
unfolding overall
overall-bounds w [] levels = (w, refl, omega arith, tt, inl refl)
overall-bounds w ((service, entry) ∷ rest) ((l, named), levels) =
    let (worst, found, grows, bound, source) = overall-bounds (raise_worst w l) rest levels in
    (
      worst,
      rw named found,
      ground (arith, grows),
      ((λ l' h. ground (arith, grows, named, h)), bound),
      elim source [
        | inr (above, later) ↦ inr (above, inr later)
        | inl kept ↦ elim (raise_worst_cases w l) [
          | inl same ↦ inl (kept ∙ same)
          | inr (raised, above) ↦
              inr (ground (arith, above, kept, raised), inl (ground (arith, named, kept, raised)))
        ]
      ],
    )

-- Where the store holds the name of a level for every service, the summary answers. Its overall status is `ok`,
-- or it is above `note` and the level of some service; and no service that is above `note` is worse. So a service
-- at `note` does not count: the overall status is never `note`.
pub health_summary_worst :
    {N : Type 0} (cache : Cache N)
    → HasLevels cache
    → (worst : Status) × (health_summary cache
        ≡ ok (record { overall_status = name worst; services = summaries cache }))
      × IsBound worst cache
      × ((worst ≡ okay) ⊎ ((rank note < rank worst) × IsLevelOf worst cache))
unfolding health_summary
health_summary_worst cache levels =
    let (worst, found, grows, bound, source) = overall-bounds okay cache levels in
    (worst, rw found refl, bound, source)
