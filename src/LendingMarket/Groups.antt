-- ===== src/LendingMarket/Groups.antt =====
-- Reading back an elevation group that was set (state/lending_market.rs).
use kamino_lending.Base.{
  >>=-eq-ok, Bool-cases, LendingError, List, Option, arith, eq_false→ne, get_elem?, get_elem?-set,
  get_elem?-set_other, if_false, if_true, inl, inr, ok, ok_or, refl, set, some, unwrap,
  unwrap-eq-ok, ℕ, ◌-◌, ◌==◌, ◌>>=◌, ◌≡◌, ◌≢◌, ◌≤◌,
}
use kamino_lending.LendingMarket.State.{
  ElevationGroup, LendingMarket, elevation_group_at, elevation_group_none, get_index,
  set_elevation_group,
}
use kamino_lending.Crates.{step_difference}

found :
    (o : Option ElevationGroup) (g : ElevationGroup)
    → o ≡ some g
    → (ok_or o LendingError.invalid_elevation_group >>= λ group. ok (some group)) ≡ ok (some g)
found o g h = rw h refl

pred_ne : (i j : ℕ) → i ≢ 0 → 1 ≤ j → i ≢ j → j - 1 ≢ i - 1
pred_ne i j a b c e = c (omega (arith, e))

written :
    (m m' : LendingMarket) (groups : List ElevationGroup)
    → ok (record m { elevation_groups = groups }) ≡ ok m'
    → m'.elevation_groups ≡ groups
written m m' groups e = let same : m' ≡ record m { elevation_groups = groups } = cc in rw same refl

-- A group that is set is found under its id, and every other id finds what it found before.
pub get-set_elevation_group :
    (m m' : LendingMarket) (g : ElevationGroup) (id : ℕ)
    → set_elevation_group m g ≡ ok m'
    → (elevation_group_at m' g.id ≡ ok (some g))
      × (id ≢ g.id → elevation_group_at m' id ≡ elevation_group_at m id)
unfolding set_elevation_group elevation_group_at get_index
get-set_elevation_group m m' g id e = elim (Bool-cases (g.id == elevation_group_none)) [
  | inl unset ↦ let e₁ = if_true _ unset e in cc
  | inr is_set ↦
      let e₁ = if_false _ is_set e in
      let (pos, e₂) = step_difference {a = g.id} {b = 1} _ refl e₁ in
      let (old, old_eq, e₃) = >>=-eq-ok (unwrap (get_elem? m.elevation_groups (g.id - 1))) _ e₂ in
      let at_index = unwrap-eq-ok (get_elem? m.elevation_groups (g.id - 1)) old old_eq in
      let groups_eq = written m m' (set m.elevation_groups (g.id - 1) g) e₃ in
      let here : get_elem? m'.elevation_groups (g.id - 1) ≡ some g =
        rw groups_eq (get_elem?-set m.elevation_groups (g.id - 1) old g at_index) in
      (
        rw is_set (found (get_elem? m'.elevation_groups (g.id - 1)) g here),
        λ other. elim (Bool-cases (id == elevation_group_none)) [
          | inl none_id ↦ rw none_id refl
          | inr some_id ↦
              let there : get_elem? m'.elevation_groups (id - 1)
                  ≡ get_elem? m.elevation_groups (id - 1) =
                rw groups_eq (
                  get_elem?-set_other m.elevation_groups (g.id - 1) (id - 1) g
                    (pred_ne id g.id (eq_false→ne id 0 some_id) pos other)) in
              rw some_id (rw there refl)
        ],
      )
]
