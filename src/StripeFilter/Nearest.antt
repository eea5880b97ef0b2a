-- ===== src/StripeFilter/Nearest.antt =====
-- What `sf_find_nearest_neighbor_in_box` finds.
use hawkeye.Base.{
  ℕ, zero, suc, ◌+◌, ◌-◌, ◌^◌, ◌≤◌, ◌<◌, ◌≡◌, ◌≢◌, refl, ◌⊎◌, inl, inr, true, false, ◌&&◌, not,
  List, [], ◌∷◌, arith, length, get_or, ltb, ◌==◌, if-intro, sub_u32,
}
use hawkeye.StripeFilter.Clusters.{ClusterInfo}
use hawkeye.StripeFilter.Features.{
  zero_cluster, in_box, nearest_from, sf_find_nearest_neighbor_in_box,
}

module _ (base : ClusterInfo) (x_off delta_x delta_y base_index : ℕ) where
  -- A cluster at index `j` that the loop considers, and how far to the right it is.
  abbrev pub IsCandidate : ℕ → ClusterInfo → Type 0
  IsCandidate j c = (j ≢ base_index) × (in_box base x_off delta_x delta_y c ≡ true)

  abbrev pub distance : ClusterInfo → ℕ
  distance c = sub_u32 c.x_cent base.x_cent

  -- No candidate among `cs`, which start at index `i`, is nearer than `least`.
  abbrev pub NoneNearer : ℕ → List ClusterInfo → ℕ → Type 0
  NoneNearer i cs least =
      (j : ℕ)
      → j < length cs
      → IsCandidate (i + j) (get_or cs j zero_cluster)
      → least ≤ distance (get_or cs j zero_cluster)

  abbrev pub Nearest : ℕ → List ClusterInfo → ℕ → ℕ → ℕ → Type 0
  Nearest i cs min_x min_index r =
      ((r ≡ min_index) × NoneNearer i cs min_x)
      ⊎ ((k : ℕ) × (k < length cs)
          × (r ≡ i + k)
          × IsCandidate (i + k) (get_or cs k zero_cluster)
          × (distance (get_or cs k zero_cluster) < min_x)
          × NoneNearer i cs (distance (get_or cs k zero_cluster)))

  NoneNearer-cons :
      (i least : ℕ) (c : ClusterInfo) (cs : List ClusterInfo)
      → (IsCandidate i c → least ≤ distance c)
      → NoneNearer (i + 1) cs least
      → NoneNearer i (c ∷ cs) least
  NoneNearer-cons i least c cs first later zero b (d, e) = first ((λ s. d (omega (arith, s))), e)
  NoneNearer-cons i least c cs first later (suc j) b (d, e) =
      later j (omega (arith, b)) ((λ s. d (omega (arith, s))), e)

  test_on :
      (i min_x : ℕ) (c : ClusterInfo)
      → (not (i == base_index) && (in_box base x_off delta_x delta_y c && ltb (distance c) min_x))
        ≡ true
      → IsCandidate i c × (distance c < min_x)
  test_on i min_x c h = ground (arith, h)

  test_off :
      (i min_x : ℕ) (c : ClusterInfo)
      → (not (i == base_index) && (in_box base x_off delta_x delta_y c && ltb (distance c) min_x))
        ≡ false
      → IsCandidate i c
      → min_x ≤ distance c
  test_off i min_x c h (d, e) = ground (arith, h, d, e)

  nearest_from-Nearest :
      (cs : List ClusterInfo) (i min_x min_index : ℕ)
      → Nearest i cs min_x min_index
          (nearest_from base x_off delta_x delta_y base_index i cs min_x min_index)
  unfolding nearest_from
  nearest_from-Nearest [] i min_x min_index = inl (refl, λ j b. absurd (omega (arith, b)))
  nearest_from-Nearest (c ∷ cs) i min_x min_index =
      if-intro (Nearest i (c ∷ cs) min_x min_index)
        (not (i == base_index) && (in_box base x_off delta_x delta_y c && ltb (distance c) min_x))
        (λ on.
          let (here, nearer) = test_on i min_x c on in
          elim (nearest_from-Nearest cs (i + 1) (distance c) i) [
            | inl (same, none_nearer) ↦ inr (
              0,
              omega arith,
              omega (arith, same),
              ((λ s. here.0 (omega (arith, s))), here.1),
              nearer,
              NoneNearer-cons i (distance c) c cs (λ h. omega arith) none_nearer,
            )
            | inr (k, inside, at, (d, e), less, none_nearer) ↦ inr (
              suc k,
              omega (arith, inside),
              omega (arith, at),
              ((λ s. d (omega (arith, s))), e),
              omega (arith, less, nearer),
              NoneNearer-cons i (distance (get_or cs k zero_cluster)) c cs
                  (λ h. omega (arith, less)) none_nearer,
            )
          ])
        (λ off. elim (nearest_from-Nearest cs (i + 1) min_x min_index) [
          | inl (same, none_nearer) ↦
              inl (same, NoneNearer-cons i min_x c cs (test_off i min_x c off) none_nearer)
          | inr (k, inside, at, (d, e), less, none_nearer) ↦ inr (
            suc k,
            omega (arith, inside),
            omega (arith, at),
            ((λ s. d (omega (arith, s))), e),
            less,
            NoneNearer-cons i (distance (get_or cs k zero_cluster)) c cs
                (λ h. omega (arith, less, test_off i min_x c off h)) none_nearer,
          )
        ])

-- For a cluster of the list, `sf_find_nearest_neighbor_in_box` returns 0 when no other cluster lies in the
-- box to its right at a distance below 2^32 - 1, and otherwise the index of another cluster in the box that
-- no cluster in the box undercuts in distance.
pub sf_find_nearest_neighbor_in_box-Nearest :
    (clusters : List ClusterInfo) (base_index x_off delta_x delta_y : ℕ)
    → base_index < length clusters
    → Nearest
        (get_or clusters base_index zero_cluster)
        x_off
        delta_x
        delta_y
        base_index
        0
        clusters
        (2 ^ 32 - 1)
        0
        (sf_find_nearest_neighbor_in_box clusters base_index x_off delta_x delta_y)
unfolding sf_find_nearest_neighbor_in_box
sf_find_nearest_neighbor_in_box-Nearest clusters base_index x_off delta_x delta_y h =
    let base = get_or clusters base_index zero_cluster in
    if-intro (Nearest base x_off delta_x delta_y base_index 0 clusters (2 ^ 32 - 1) 0)
      (ltb (length clusters) base_index) (λ on. absurd (ground (arith, on, h)))
      (λ off. nearest_from-Nearest base x_off delta_x delta_y base_index clusters 0 (2 ^ 32 - 1) 0)
