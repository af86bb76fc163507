-- ===== src/LendingMarket/Tests.antt =====
-- The market's operations at concrete inputs.
use kamino_lending.Base.{LendingError, err, none, ok, refl, set, some, ℕ, ◌≡◌, ◌≢◌}
use kamino_lending.LendingMarket.State.{
  check_group, elevation_group_at, get_elevation_group, get_index, set_elevation_group,
}
use kamino_lending.LendingMarket.Sample.{group, market}
use kamino_lending.LendingMarket.Groups.{get-set_elevation_group}

get-set_elevation_group_example :
    (elevation_group_at
        (record market {
          elevation_groups = set market.elevation_groups 4 (record group { id = 5 });
        })
        5
      ≡ ok (some (record group { id = 5 })))
    × (◌≢◌ {A = ℕ} 1 5
        → elevation_group_at
            (record market {
              elevation_groups = set market.elevation_groups 4 (record group { id = 5 });
            })
            1
          ≡ elevation_group_at market 1)
unfolding set_elevation_group get_index
get-set_elevation_group_example =
    get-set_elevation_group market
      (record market { elevation_groups = set market.elevation_groups 4 (record group { id = 5 }) })
      (record group { id = 5 }) 1 refl

groups_by_id :
    (get_elevation_group 1 market ≡ ok (some group))
    × (get_elevation_group 0 market ≡ ok none)
    × (get_elevation_group 2 market ≡ err LendingError.invalid_elevation_group)
    × (get_elevation_group 33 market ≡ err LendingError.invalid_elevation_group)
unfolding get_elevation_group elevation_group_at check_group
groups_by_id = (refl, refl, refl, refl)
