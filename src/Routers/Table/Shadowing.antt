-- ===== src/Routers/Table/Shadowing.antt =====
-- Which stubs of api/routers/_stubs.py are still reached.
use pid_docs.Prelude.{
  String, text_eq, eq_iff, ◌≡◌, ◌≢◌, refl, inl, inr, Bool, true, false, not, ◌&&◌, ◌||◌, none, some,
  List, [], ◌∷◌, ◌++◌, arith, find?, Bool-cases, Option-cases,
}
use pid_docs.Routers.Table.{
  Segment, lit, param, Handler, real, stub, planned, Route, Request, matches, path_matches,
  real_routes, stubs_router, resolve,
}

same_segment : Segment → Segment → Bool
same_segment (lit s) (lit t) = text_eq s t
same_segment param param = true
same_segment (lit s) param = false
same_segment param (lit t) = false

same_path : List Segment → List Segment → Bool
unfolding same_segment
same_path [] [] = true
same_path [] (t ∷ ts) = false
same_path (s ∷ ss) [] = false
same_path (s ∷ ss) (t ∷ ts) = same_segment s t && same_path ss ts

-- Is there a route for the same requests in the list?
has_twin : List Route → Route → Bool
unfolding same_path
has_twin [] r = false
has_twin (x ∷ routes) r =
    (text_eq x.method r.method && same_path x.path r.path) || has_twin routes r

-- Is the endpoint of a session whose router is registered?
abbrev pub is_built : String → Bool
is_built owner = text_eq owner "S2-A" || text_eq owner "S2-C" || text_eq owner "S2-F"

abbrev pub is_built_stub : Handler → Bool
is_built_stub (stub owner) = is_built owner
is_built_stub (real name) = false
is_built_stub (planned feature) = false

same_path-matches :
    (ss ts : List Segment) (q : List String)
    → same_path ss ts ≡ true
    → path_matches ts q ≡ true
    → path_matches ss q ≡ true
unfolding same_path path_matches
same_path-matches [] [] q h k = k
same_path-matches [] (t ∷ ts) q h k = cc
same_path-matches (s ∷ ss) [] q h k = cc
same_path-matches (s ∷ ss) (t ∷ ts) [] h k = k
same_path-matches (lit s ∷ ss) (lit t ∷ ts) (x ∷ q) h k =
    ground (arith, eq_iff s t, eq_iff t x, eq_iff s x, same_path-matches ss ts q)
same_path-matches (lit s ∷ ss) (param ∷ ts) (x ∷ q) h k = cc
same_path-matches (param ∷ ss) (lit t ∷ ts) (x ∷ q) h k = cc
same_path-matches (param ∷ ss) (param ∷ ts) (x ∷ q) h k = ground (arith, same_path-matches ss ts q)

twin-matches :
    (q : Request) (x r : Route)
    → text_eq x.method r.method && same_path x.path r.path ≡ true
    → matches q r ≡ true
    → matches q x ≡ true
unfolding matches
twin-matches q x r h k = ground (
  arith,
  eq_iff x.method r.method,
  eq_iff r.method q.method,
  eq_iff x.method q.method,
  same_path-matches x.path r.path q.segments,
)

-- A request that a route matches is matched by its twin.
find?-has_twin :
    (q : Request) (routes : List Route) (r : Route)
    → has_twin routes r ≡ true
    → matches q r ≡ true
    → find? (matches q) routes ≢ none
unfolding has_twin
find?-has_twin q [] r h k e = cc
find?-has_twin q (x ∷ routes) r h k e = elim (Bool-cases (matches q x)) [
  | inl here ↦ ground arith
  | inr away ↦ elim (Bool-cases (text_eq x.method r.method && same_path x.path r.path)) [
    | inl twin ↦ cc (twin-matches q x r twin k, away)
    | inr other ↦ find?-has_twin q routes r (ground arith) k (ground arith)
  ]
]

-- Is every route of the list no stub of a registered session, or has it a twin among `ahead`?
all_shadowed : List Route → List Route → Bool
unfolding has_twin
all_shadowed ahead [] = true
all_shadowed ahead (r ∷ routes) =
    (not (is_built_stub r.handler) || has_twin ahead r) && all_shadowed ahead routes

built_alone :
    (r : Route)
    → not (is_built_stub r.handler) || has_twin [] r ≡ true
    → is_built_stub r.handler ≡ false
unfolding has_twin
built_alone r h = ground arith

find?-all_shadowed :
    (p : Route → Bool) (ahead routes : List Route) (r : Route)
    → all_shadowed ahead routes ≡ true
    → find? p routes ≡ some r
    → (p r ≡ true) × (not (is_built_stub r.handler) || has_twin ahead r ≡ true)
unfolding all_shadowed
find?-all_shadowed p ahead [] r h e = absurd (ground arith)
find?-all_shadowed p ahead (x ∷ routes) r h e = elim (Bool-cases (p x)) [
  | inl here ↦ let same : x ≡ r = ground arith in rw (← same) (here, ground arith)
  | inr away ↦ find?-all_shadowed p ahead routes r (ground arith) (ground arith)
]

find?-append :
    (p : Route → Bool) (xs ys : List Route) → find? p xs ≡ none → find? p (xs ++ ys) ≡ find? p ys
find?-append p [] ys e = refl
find?-append p (x ∷ xs) ys e = ground (arith, find?-append p xs ys)

find?-append_found :
    (p : Route → Bool) (xs ys : List Route) (r : Route)
    → find? p xs ≡ some r
    → find? p (xs ++ ys) ≡ some r
find?-append_found p [] ys r e = absurd (ground arith)
find?-append_found p (x ∷ xs) ys r e = ground (arith, find?-append_found p xs ys r)

real_routes_built : all_shadowed [] real_routes ≡ true
unfolding all_shadowed
real_routes_built = refl

stubs_router_shadowed : all_shadowed real_routes stubs_router ≡ true
unfolding all_shadowed
stubs_router_shadowed = refl

resolve_from :
    (q : Request) (ahead stubs : List Route) (r : Route)
    → all_shadowed [] ahead ≡ true
    → all_shadowed ahead stubs ≡ true
    → find? (matches q) (ahead ++ stubs) ≡ some r
    → is_built_stub r.handler ≡ false
resolve_from q ahead stubs r a b e = elim (Option-cases (find? (matches q) ahead)) [
  | inr (t, f) ↦
      let same : t ≡ r = ground (arith, find?-append_found (matches q) ahead stubs t f) in
      rw (← same) (built_alone t (find?-all_shadowed (matches q) [] ahead t a f).1)
  | inl f ↦
      let found : find? (matches q) stubs ≡ some r =
        ground (arith, find?-append (matches q) ahead stubs f) in
      let (hit, covered) = find?-all_shadowed (matches q) ahead stubs r b found in
      elim (Bool-cases (is_built_stub r.handler)) [
        | inr done ↦ done
        | inl still ↦ absurd (find?-has_twin q ahead r (ground arith) hit f)
      ]
]

-- The first-match rule of the route table: no request whatever is served by the stub of a session whose router
-- is registered (S2-A, S2-C and S2-F).
pub resolve-is_built_stub :
    (q : Request) (r : Route) → resolve q ≡ some r → is_built_stub r.handler ≡ false
unfolding resolve
resolve-is_built_stub q r e =
    resolve_from q real_routes stubs_router r real_routes_built stubs_router_shadowed e
