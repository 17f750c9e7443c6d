-- ===== src/Api/Contract/Lookup.antt =====
-- A request has one route at most: no two routes of the table match one method and path.
use gldaassurance.Base.{
  Bool-cases, All-mem, all_iff, find-mem, find-test, ==_iff, ◌||◌, [], ◌↔◌, Memᴰ, if◌then◌else◌,
  Bool, ◌≡◌, arith, ◌&&◌, all, refl, some, false, ◌∙◌, ap, inl, inr, String, sym, find, List, ◌==◌,
  true, ◌∷◌, string_eq,
}
use gldaassurance.Api.Contract.{
  segments_match, matches, split_slash, find_route, routes, segment_matches, RouteDefinition,
  is_param,
}

-- Two patterns that no path matches both: they differ in length, or in two literal segments.
abbrev both_literal : String → String → Bool
both_literal p q = (if is_param p then false else true) && (if is_param q then false else true)

unfoldable apart : List String → List String → Bool
apart [] [] = false
apart (p ∷ ps) (q ∷ qs) = (both_literal p q && (if p == q then false else true)) || apart ps qs
apart [] (_ ∷ _) = true
apart (_ ∷ _) [] = true

segment-apart :
    (p q a : String)
    → both_literal p q && (if p == q then false else true) ≡ true
    → segment_matches p a ≡ true
    → segment_matches q a ≡ true
    → ⊥
segment-apart p q a h hp hq = ground (arith, h, hp, hq, ==_iff p a, ==_iff q a, ==_iff p q)

apart-no_match :
    (p q a : List String)
    → apart p q ≡ true
    → segments_match p a ≡ true
    → segments_match q a ≡ true
    → ⊥
unfolding apart segments_match
apart-no_match [] [] a h hp hq = ground arith
apart-no_match (p ∷ ps) (q ∷ qs) [] h hp hq = ground arith
apart-no_match (p ∷ ps) (q ∷ qs) (a ∷ rest) h hp hq =
    ground (arith, segment-apart p q a, apart-no_match ps qs rest)
apart-no_match [] (q ∷ qs) [] h hp hq = ground arith
apart-no_match [] (q ∷ qs) (a ∷ rest) h hp hq = ground arith
apart-no_match (p ∷ ps) [] [] h hp hq = ground arith
apart-no_match (p ∷ ps) [] (a ∷ rest) h hp hq = ground arith

-- The two routes never match one request.
abbrev routes_apart : RouteDefinition → RouteDefinition → Bool
routes_apart r s =
    (if r.method == s.method then false else true)
    || apart (split_slash r.path) (split_slash s.path)

abbrev all_apart : List RouteDefinition → Bool
all_apart [] = true
all_apart (r ∷ rs) = all (routes_apart r) rs && all_apart rs

table_apart : all_apart routes ≡ true
unfolding routes apart split_slash
table_apart = refl

both_true : (a b : Bool) → a && b ≡ true → (a ≡ true) × (b ≡ true)
both_true a b h = ground arith

module _ (method path : String) where
  abbrev hits : RouteDefinition → Bool
  hits r = r.method == method && matches r.path path

  hits-exclusive :
      (r s : RouteDefinition) → routes_apart r s ≡ true → hits r ≡ true → hits s ≡ true → ⊥
  unfolding matches
  hits-exclusive r s h hr hs = ground (
    arith,
    ==_iff r.method method,
    ==_iff s.method method,
    ==_iff r.method s.method,
    apart-no_match (split_slash r.path) (split_slash s.path) (split_slash path),
  )

  find-only :
      (r : RouteDefinition) (l : List RouteDefinition)
      → all_apart l ≡ true
      → Memᴰ r l
      → hits r ≡ true
      → find hits l ≡ some r
  find-only r [] h m hit = elim m [ ]
  find-only r (x ∷ l) h (Memᴰ.head e) hit =
      let hit' : hits x ≡ true = ap hits (sym e) ∙ hit in rw hit' (ap some (sym e))
  find-only r (x ∷ l) h (Memᴰ.tail m) hit = elim (Bool-cases (hits x)) [
    | inl both ↦
        let quiet : all (routes_apart x) l ≡ true = ground (arith, h) in
        absurd (
          hits-exclusive x r
            (All-mem (λ s. routes_apart x s ≡ true) l ((all_iff (routes_apart x) l).0 quiet) m) both
            hit)
    | inr miss ↦
        let rest : all_apart l ≡ true = ground (arith, h) in rw miss (find-only r l rest m hit)
  ]

  -- `findRoute` returns a route exactly where the table holds it, its method is that of the request
  -- and its pattern matches the path.
  pub find_route-some_iff :
      (r : RouteDefinition)
      → (find_route method path ≡ some r)
        ↔ (Memᴰ r routes × (r.method ≡ method) × (matches r.path path ≡ true))
  unfolding find_route
  find_route-some_iff r = (
    λ h.
        let (same, fits) =
          both_true (r.method == method) (matches r.path path) (find-test hits r routes h) in
        (find-mem hits r routes h, (==_iff r.method method).0 same, fits),
    λ (m, e, k). find-only r routes table_apart m (rw ((==_iff r.method method).1 e) k),
  )
