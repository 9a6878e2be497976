-- ===== src/Orchestration/RoleGraph/Laws/Filters.antt =====
-- What is left of the order of a graph when roles are taken out.
use tomorrowedge.Prelude.{
  String, ◌≡◌, refl, Bool, true, false, not, ◌&&◌, ◌||◌, List, [], ◌∷◌, ◌++◌, ◌==◌, filter,
  includes, arith, eq_iff,
}
use tomorrowedge.Roles.{AgentRole, reviewer, judge, role_eq}
use tomorrowedge.Orchestration.RoleGraph.{
  RoleNode, BuildRoleGraphInput, ids, keeps, is_governance_role, risk_is_high, base_graph,
  has_node_of, read_only_graph, patch_graph, repair_loop_graph, phase_allowed_for_role,
}

-- No dependency of the node is its own id or one behind it.
abbrev pub avoids : List String → List String → Bool
avoids later [] = true
avoids later (d ∷ ds) = not (includes later d) && avoids later ds

-- Ids stand once and dependencies do not point forwards.
abbrev pub looks_back : List RoleNode → Bool
looks_back [] = true
looks_back (n ∷ ns) =
    not (includes (ids ns) n.id) && avoids (n.id ∷ ids ns) n.dependencies && looks_back ns

pub base-looks_back : (input : BuildRoleGraphInput) → looks_back (base_graph input).nodes ≡ true
unfolding base_graph read_only_graph patch_graph repair_loop_graph
base-looks_back input = ground arith

module _ (p : RoleNode → Bool) where
  includes-filter :
      (ns : List RoleNode) (d : String)
      → includes (ids ns) d ≡ false
      → includes (ids (filter p ns)) d ≡ false
  includes-filter [] d h = refl
  includes-filter (n ∷ ns) d h = ground (arith, includes-filter ns d, h)

  avoids-filter :
      (id : String) (ns : List RoleNode) (ds : List String)
      → avoids (id ∷ ids ns) ds ≡ true
      → avoids (id ∷ ids (filter p ns)) ds ≡ true
  avoids-filter id ns [] h = refl
  avoids-filter id ns (d ∷ ds) h = ground (arith, avoids-filter id ns ds, includes-filter ns d, h)

  pub looks_back-filter :
      (ns : List RoleNode) → looks_back ns ≡ true → looks_back (filter p ns) ≡ true
  looks_back-filter [] h = refl
  looks_back-filter (n ∷ ns) h = ground (
    arith,
    looks_back-filter ns,
    includes-filter ns n.id,
    avoids-filter n.id ns n.dependencies,
    h,
  )

pub keeps_governance :
    (input : BuildRoleGraphInput) (n : RoleNode)
    → is_governance_role n.role ≡ true
    → keeps input true n ≡ true
unfolding keeps phase_allowed_for_role
keeps_governance input n h = ground (arith, h)

pub has_node_filter :
    (role : AgentRole) (p : RoleNode → Bool)
    → ((n : RoleNode) → role_eq n.role role ≡ true → p n ≡ true)
    → (ns : List RoleNode) → has_node_of role (filter p ns) ≡ has_node_of role ns
has_node_filter role p h [] = refl
has_node_filter role p h (n ∷ ns) = ground (arith, has_node_filter role p h ns, h n)

-- A node with the id `id` can be put behind the list.
abbrev pub admits : String → List RoleNode → Bool
admits id [] = true
admits id (n ∷ ns) = not (n.id == id) && not (includes n.dependencies id) && admits id ns

pub base-has-reviewer :
    (input : BuildRoleGraphInput)
    → risk_is_high input ≡ true
    → has_node_of reviewer (base_graph input).nodes ≡ true
unfolding base_graph read_only_graph patch_graph repair_loop_graph
base-has-reviewer input h = ground (arith, h)

pub base-judge :
    (input : BuildRoleGraphInput)
    → risk_is_high input ≡ true
    → (has_node_of judge (base_graph input).nodes || admits "judge" (base_graph input).nodes) ≡ true
unfolding base_graph read_only_graph patch_graph repair_loop_graph
base-judge input h = ground (arith, h)

pub admits-filter :
    (id : String) (p : RoleNode → Bool) (ns : List RoleNode)
    → admits id ns ≡ true
    → admits id (filter p ns) ≡ true
admits-filter id p [] h = refl
admits-filter id p (n ∷ ns) h = ground (arith, admits-filter id p ns, h)

includes_behind :
    (ns : List RoleNode) (m : RoleNode) (d : String)
    → includes (ids (ns ++ m ∷ [])) d ≡ (includes (ids ns) d || m.id == d)
includes_behind [] m d = ground arith
includes_behind (n ∷ ns) m d = ground (arith, includes_behind ns m d)

avoids_behind :
    (id : String) (ns : List RoleNode) (m : RoleNode) (ds : List String)
    → avoids (id ∷ ids ns) ds ≡ true
    → includes ds m.id ≡ false
    → avoids (id ∷ ids (ns ++ m ∷ [])) ds ≡ true
avoids_behind id ns m [] h k = refl
avoids_behind id ns m (d ∷ ds) h k =
    ground
      (arith, avoids_behind id ns m ds, includes_behind ns m d, eq_iff m.id d, eq_iff d m.id, h, k)

avoids_own : (id : String) (ds : List String) → includes ds id ≡ false → avoids (id ∷ []) ds ≡ true
avoids_own id [] h = refl
avoids_own id (d ∷ ds) h = ground (arith, avoids_own id ds, eq_iff id d, eq_iff d id, h)

pub looks_back_behind :
    (ns : List RoleNode) (m : RoleNode)
    → looks_back ns ≡ true
    → admits m.id ns ≡ true
    → includes m.dependencies m.id ≡ false
    → looks_back (ns ++ m ∷ []) ≡ true
looks_back_behind [] m h k l = ground (arith, avoids_own m.id m.dependencies l)
looks_back_behind (n ∷ ns) m h k l = ground (
  arith,
  looks_back_behind ns m,
  includes_behind ns m n.id,
  eq_iff m.id n.id,
  eq_iff n.id m.id,
  avoids_behind n.id ns m n.dependencies,
  h,
  k,
  l,
)
