-- ===== src/Tests/AccessRuns.antt =====
-- The policy at a concrete caller.
use gldaassurance.Base.{◌∷◌, ◌↔◌, Memᴰ, [], ◌≡◌, refl}
use gldaassurance.Tests.Data.{manager, two_projects}
use gldaassurance.Access.Policy.{type_error, grant, may, resolve_scope, decided, EntityPlacement}
use gldaassurance.Access.Policy.Scope.{resolve_scope-mem_iff, IsUnder}

granted_run : may manager "project.view" ≡ decided grant
unfolding may
granted_run = refl

inherited_run : may manager "toString" ≡ type_error
unfolding may
inherited_run = refl

resolved_run : (resolve_scope two_projects manager).project_ids ≡ "p-1" ∷ []
unfolding resolve_scope
resolved_run = refl

resolve_scope-mem_iff_example : Memᴰ "p-1" (resolve_scope two_projects manager).project_ids ↔ (
    (p : EntityPlacement) × Memᴰ p two_projects × (p.project_id ≡ "p-1") × IsUnder p manager.scope)
resolve_scope-mem_iff_example = resolve_scope-mem_iff two_projects manager "p-1"
