-- ===== src/Access/Policy/Scope.antt =====
-- What a resolved scope holds: the projects placed under a node of the caller's scope, and no other.
use gldaassurance.Base.{
  String, ◌≡◌, ◌↔◌, true, List, map, Memᴰ, ==_iff, filter, sort-perm, mem_of_perm, mem-map,
  mem_of_mem-map, mem-filter, mem_of_mem-filter, All-mem, All-filter_test, string_eq, any_iff, sym,
  ◌==◌,
}
use mathlib.Core.Path.{subst}
use gldaassurance.Access.Types.{
  ScopeNode, AuthorizationContext, geography, project, account, business_unit, portfolio, ScopeKind,
}
use gldaassurance.Access.Policy.{
  EntityPlacement, node_field, placement_in_scope, resolve_scope, text_before,
}
use mathlib.Core.List.Permᴰ

-- The id is that of the placement's unit, geography, portfolio, account or project.
abbrev pub Names : ScopeKind → EntityPlacement → String → Type 0
Names business_unit p id = p.business_unit_id ≡ id
Names geography p id = p.geography_id ≡ id
Names portfolio p id = p.portfolio_id ≡ id
Names account p id = p.account_id ≡ id
Names project p id = p.project_id ≡ id

Names-node_field :
    (kind : ScopeKind) (p : EntityPlacement) (id : String)
    → (node_field kind p ≡ id) ↔ Names kind p id
Names-node_field business_unit p id = (λ h. h, λ h. h)
Names-node_field geography p id = (λ h. h, λ h. h)
Names-node_field portfolio p id = (λ h. h, λ h. h)
Names-node_field account p id = (λ h. h, λ h. h)
Names-node_field project p id = (λ h. h, λ h. h)

-- The placement lies under some node of the scope: the node names its unit, geography, portfolio,
-- account or project.
abbrev pub IsUnder : EntityPlacement → List ScopeNode → Type 0
IsUnder p scope = (node : ScopeNode) × Memᴰ node scope × Names node.kind p node.id

placement_in_scope_iff :
    (p : EntityPlacement) (scope : List ScopeNode)
    → (placement_in_scope p scope ≡ true) ↔ IsUnder p scope
unfolding placement_in_scope
placement_in_scope_iff p scope =
    let (to, from) = any_iff (λ node. node_field node.kind p == node.id) scope in
    (
      λ h.
          let (node, listed, same) = to h in
          (
            node,
            listed,
            (Names-node_field node.kind p node.id).0
                ((==_iff (node_field node.kind p) node.id).0 same),
          ),
      λ (node, listed, same). from (
        node,
        listed,
        (==_iff (node_field node.kind p) node.id).1 ((Names-node_field node.kind p node.id).1 same),
      ),
    )

-- A project id is in the resolved set exactly where some placement of that project lies under a
-- node of the caller's scope.
pub resolve_scope-mem_iff :
    (placements : List EntityPlacement) (ctx : AuthorizationContext) (id : String)
    → Memᴰ id (resolve_scope placements ctx).project_ids
      ↔ ((p : EntityPlacement) × Memᴰ p placements × (p.project_id ≡ id) × IsUnder p ctx.scope)
unfolding resolve_scope
resolve_scope-mem_iff placements ctx id =
    let test = λ (p : EntityPlacement). placement_in_scope p ctx.scope in
    let name = λ (p : EntityPlacement). p.project_id in
    let kept = filter test placements in
    let perm = sort-perm text_before (map name kept) in
    (
      λ m.
          let (p, in_kept, e) = mem_of_mem-map name id kept (mem_of_perm perm m) in
          (
            p,
            mem_of_mem-filter test placements in_kept,
            sym e,
            (placement_in_scope_iff p ctx.scope).0
                (All-mem (λ q. test q ≡ true) kept (All-filter_test test placements) in_kept),
          ),
      λ (p, listed, e, under). mem_of_perm (Permᴰ.symm perm) (
          subst (λ n. Memᴰ n (map name kept)) e
            (mem-map name kept
              (mem-filter test placements listed ((placement_in_scope_iff p ctx.scope).1 under)))),
    )
