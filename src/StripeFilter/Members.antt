-- ===== src/StripeFilter/Members.antt =====
-- What `sf_cluster_gradients` computes: each cluster is the exact summary of a group of gradients.
use hawkeye.Base.{
  ℕ, suc, ◌+◌, ◌-◌, ◌/◌, ◌^◌, ◌≤◌, ◌<◌, ◌≡◌, refl, sym, ap, ◌∙◌, inl, inr, Bool-cases, Option-cases,
  Bool, true, false, List, [], ◌∷◌, ◌++◌, Option, none, some, arith, length, length-append, leb,
  leb→le, u32, All, ◌&&◌, if-intro, subst, if◌then◌else◌,
}
use hawkeye.StripeFilter.Gradients.{Gradient, negative, positive, GradientInfo}
use hawkeye.StripeFilter.Clusters.{
  ClusterInfo, max_gradient_clusters, same_type, matches, add_to_cluster, start_cluster,
  sf_cluster_grad, sf_create_cluster_from_grad, or_create, cluster_all, sf_cluster_gradients,
}

-- Sums over a list of gradients, and how many of them satisfy a test.
abbrev pub sum_of : (GradientInfo → ℕ) → List GradientInfo → ℕ
sum_of f [] = 0
sum_of f (g ∷ gs) = f g + sum_of f gs

abbrev pub tally : (GradientInfo → Bool) → List GradientInfo → ℕ
tally p [] = 0
tally p (g ∷ gs) = (if p g then 1 else 0) + tally p gs

abbrev pub SameType : Gradient → List GradientInfo → Type 0
SameType t [] = Unit
SameType t (g ∷ gs) = (g.grad_type ≡ t) × SameType t gs

-- A cluster and the gradients in it.
abbrev pub Summary : ClusterInfo → List GradientInfo → Type 0
Summary c gs =
    (0 < length gs)
    × (c.count ≡ u32 (length gs))
    × (c.x_sum ≡ u32 (sum_of (λ g. g.x_coord) gs))
    × (c.y_sum ≡ u32 (sum_of (λ g. g.y_coord) gs))
    × (c.x_cent ≡ c.x_sum / c.count)
    × (c.y_cent ≡ c.y_sum / c.count)
    × SameType c.cluster_type gs

-- A group of gradients for each cluster.
pub data Grouped : List ClusterInfo → List (List GradientInfo) → Type 0 where
  none_yet : Grouped [] []
  group :
      {c : ClusterInfo} {cs : List ClusterInfo} {gs : List GradientInfo}
      {groups : List (List GradientInfo)}
      → Summary c gs
      → Grouped cs groups
      → Grouped (c ∷ cs) (gs ∷ groups)

abbrev pub tally_groups : (GradientInfo → Bool) → List (List GradientInfo) → ℕ
tally_groups p [] = 0
tally_groups p (gs ∷ groups) = tally p gs + tally_groups p groups

abbrev pub one_if : Bool → ℕ
one_if b = if b then 1 else 0

-- Coordinates are uint32_t.
abbrev pub IsWord : GradientInfo → Type 0
IsWord g = (g.x_coord < 2 ^ 32) × (g.y_coord < 2 ^ 32)

abbrev pub capacity : ℕ
capacity = max_gradient_clusters - 1

and_right : (a b : Bool) → (a && b) ≡ true → b ≡ true
and_right true b h = h
and_right false b h = absurd (ground (arith, h))

same_type-eq : (s t : Gradient) → same_type s t ≡ true → s ≡ t
unfolding same_type
same_type-eq negative negative h = refl
same_type-eq positive positive h = refl
same_type-eq negative positive h = absurd (ground (arith, h))
same_type-eq positive negative h = absurd (ground (arith, h))

matches-type :
    (g : GradientInfo) (c : ClusterInfo) → matches g c ≡ true → g.grad_type ≡ c.cluster_type
unfolding matches
matches-type g c h = same_type-eq g.grad_type c.cluster_type (and_right _ _ (and_right _ _ h))

add_to_cluster-Summary :
    (g : GradientInfo) (c : ClusterInfo) (gs : List GradientInfo)
    → matches g c ≡ true
    → Summary c gs
    → Summary (add_to_cluster g c) (g ∷ gs)
unfolding add_to_cluster
add_to_cluster-Summary g c gs m (some_in, count, x, y, _, _, same) = (
  omega arith,
  omega (arith, count),
  omega (arith, x),
  omega (arith, y),
  refl,
  refl,
  (matches-type g c m, same),
)

start_cluster-Summary : (g : GradientInfo) → IsWord g → Summary (start_cluster g) (g ∷ [])
unfolding start_cluster
start_cluster-Summary g h = (
  omega arith,
  omega arith,
  omega (arith, h.0),
  omega (arith, h.1),
  omega arith,
  omega arith,
  (refl, tt),
)

-- One more gradient in the groups.
abbrev Gains : GradientInfo → List ClusterInfo → List (List GradientInfo) → Type 0
Gains g cs groups =
    (groups' : List (List GradientInfo)) × Grouped cs groups'
    × ((p : GradientInfo → Bool) → tally_groups p groups' ≡ one_if (p g) + tally_groups p groups)

sf_cluster_grad-Gains :
    (g : GradientInfo) (cs cs' : List ClusterInfo) (groups : List (List GradientInfo))
    → Grouped cs groups
    → sf_cluster_grad g cs ≡ some cs'
    → (length cs' ≡ length cs) × Gains g cs' groups
unfolding sf_cluster_grad
sf_cluster_grad-Gains g (c ∷ cs) cs' [] h e = elim h [ ]
sf_cluster_grad-Gains g [] cs' groups h e = absurd (ground (arith, e))
sf_cluster_grad-Gains g (c ∷ cs) cs' (gs ∷ groups) (group s h) e = elim (Bool-cases (matches g c)) [
  | inl agrees ↦
      let now : some (add_to_cluster g c ∷ cs) ≡ some cs' = sym (rw agrees refl) ∙ e in
      subst (λ o. (length o ≡ length (c ∷ cs)) × Gains g o (gs ∷ groups)) (some_inj now)
        (
          refl,
          ((g ∷ gs) ∷ groups, group (add_to_cluster-Summary g c gs agrees s) h, λ p. omega arith),
        )
  | inr differs ↦ elim (Option-cases (sf_cluster_grad g cs)) [
    | inl missed ↦ absurd (ground (arith, e, differs, missed))
    | inr (found, here) ↦
        let now : some (c ∷ found) ≡ some cs' = sym (rw (differs, here) refl) ∙ e in
        let (size, (groups', h', count)) = sf_cluster_grad-Gains g cs found groups h here in
        subst (λ o. (length o ≡ length (c ∷ cs)) × Gains g o (gs ∷ groups)) (some_inj now)
          (ap suc size, (gs ∷ groups', group s h', λ p. omega (arith, count p)))
  ]
]
  where
    some_inj : {xs ys : List ClusterInfo} → some xs ≡ some ys → xs ≡ ys
    some_inj h = ground (arith, h)

Grouped-append :
    (cs : List ClusterInfo) (groups : List (List GradientInfo)) (c : ClusterInfo)
    (gs : List GradientInfo)
    → Grouped cs groups
    → Summary c gs
    → Grouped (cs ++ (c ∷ [])) (groups ++ (gs ∷ []))
Grouped-append [] [] c gs none_yet s = group s none_yet
Grouped-append [] (gs' ∷ groups) c gs h s = elim h [ ]
Grouped-append (c' ∷ cs) [] c gs h s = elim h [ ]
Grouped-append (c' ∷ cs) (gs' ∷ groups) c gs (group s' h) s =
    group s' (Grouped-append cs groups c gs h s)

tally_groups-append :
    (p : GradientInfo → Bool) (groups : List (List GradientInfo)) (gs : List GradientInfo)
    → tally_groups p (groups ++ (gs ∷ [])) ≡ tally_groups p groups + tally p gs
tally_groups-append p [] gs = omega arith
tally_groups-append p (gs' ∷ groups) gs = omega (arith, tally_groups-append p groups gs)

-- The clusters `out` that come from `cs` when the gradients `gs` are taken in.
abbrev Takes :
    List GradientInfo → List ClusterInfo → List (List GradientInfo) → List ClusterInfo → Type 0
Takes gs cs groups out =
    (length cs ≤ length out)
    × (length out ≤ capacity)
    × (groups' : List (List GradientInfo)) × Grouped out groups'
    × ((p : GradientInfo → Bool) → tally_groups p groups' ≤ tally p gs + tally_groups p groups)
    × (length out < capacity
        → (p : GradientInfo → Bool) → tally_groups p groups' ≡ tally p gs + tally_groups p groups)

or_create-Takes :
    (g : GradientInfo) (cs : List ClusterInfo) (groups : List (List GradientInfo))
    (o : Option (List ClusterInfo))
    → sf_cluster_grad g cs ≡ o
    → IsWord g
    → length cs ≤ capacity
    → Grouped cs groups
    → Takes (g ∷ []) cs groups (or_create g cs o)
unfolding or_create sf_create_cluster_from_grad
or_create-Takes g cs groups (some cs') e w room h =
    let (size, (groups', h', count)) = sf_cluster_grad-Gains g cs cs' groups h e in
    (
      omega (arith, size),
      omega (arith, size, room),
      groups',
      h',
      (λ p. omega (arith, count p)),
      (λ _ p. omega (arith, count p)),
    )
or_create-Takes g cs groups none e w room h =
    if-intro (λ r. Takes (g ∷ []) cs groups r) (leb capacity (length cs))
      (λ full. (
        omega arith,
        room,
        groups,
        h,
        (λ p. omega arith),
        (λ few p. absurd (omega (arith, few, leb→le capacity (length cs) full))),
      ))
      (λ free. (
        omega (arith, length-append cs (start_cluster g ∷ [])),
        omega (arith, length-append cs (start_cluster g ∷ []), ltb_free free),
        groups ++ ((g ∷ []) ∷ []),
        Grouped-append cs groups (start_cluster g) (g ∷ []) h (start_cluster-Summary g w),
        (λ p. omega (arith, tally_groups-append p groups (g ∷ []))),
        (λ few p. omega (arith, tally_groups-append p groups (g ∷ []))),
      ))
  where
    ltb_free : leb capacity (length cs) ≡ false → length cs < capacity
    ltb_free h = ground (arith, h)

cluster_all-Takes :
    (gs : List GradientInfo) (cs : List ClusterInfo) (groups : List (List GradientInfo))
    → All IsWord gs
    → length cs ≤ capacity
    → Grouped cs groups
    → Takes gs cs groups (cluster_all gs cs)
unfolding cluster_all
cluster_all-Takes [] cs groups w room h =
    (omega arith, room, groups, h, (λ p. omega arith), (λ few p. omega arith))
cluster_all-Takes (g ∷ gs) cs groups w room h =
    let cs' = or_create g cs (sf_cluster_grad g cs) in
    let (grow, room', groups', h', most, all) =
      or_create-Takes g cs groups (sf_cluster_grad g cs) refl w.0 room h in
    let (grow', room'', groups'', h'', most', all') =
      cluster_all-Takes gs cs' groups' w.1 room' h' in
    (
      omega (arith, grow, grow'),
      room'',
      groups'',
      h'',
      (λ p. omega (arith, most p, most' p)),
      (λ few p. omega (arith, all (omega (arith, few, grow')) p, all' few p)),
    )

-- From an empty list of clusters, `sf_cluster_gradients` succeeds on every non-empty list of
-- gradients with uint32_t coordinates and leaves at most 999 clusters. The gradients fall into
-- groups, one for each cluster: all gradients of a group have the type of the cluster, its count and
-- its sums are theirs modulo 2^32, and its centroid is the quotient of these. No gradient is counted
-- twice, and with fewer than 999 clusters none is left out.
pub sf_cluster_gradients-Grouped :
    (g : GradientInfo) (gs : List GradientInfo)
    → All IsWord (g ∷ gs)
    → (out : List ClusterInfo) × (sf_cluster_gradients (g ∷ gs) [] ≡ some out)
      × (length out ≤ capacity)
      × (groups : List (List GradientInfo)) × Grouped out groups
      × ((p : GradientInfo → Bool) → tally_groups p groups ≤ tally p (g ∷ gs))
      × (length out < capacity
          → (p : GradientInfo → Bool) → tally_groups p groups ≡ tally p (g ∷ gs))
unfolding sf_cluster_gradients
sf_cluster_gradients-Grouped g gs w =
    let (_, room, groups, h, most, all) =
      cluster_all-Takes (g ∷ gs) [] [] w (omega arith) none_yet in
    (
      cluster_all (g ∷ gs) [],
      refl,
      room,
      groups,
      h,
      (λ p. omega (arith, most p)),
      (λ few p. omega (arith, all few p)),
    )
