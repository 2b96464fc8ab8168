-- ===== src/Api/App.antt =====
-- main.rs: the HTTP server of each mode, the routes behind the metrics middleware.
use lmax_clob.Common.{
  ℕ, ◌≡◌, ◌≢◌, refl, inl, inr, sym, ap, ◌∙◌, Bool, true, false, ◌&&◌, String, Option, none, some,
  some-injective, List, [], ◌∷◌, Any, same_text, same_text_iff, if◌then◌else◌, Bool-cases,
  Option-cases,
}
use lmax_clob.Engine.Types.{Result, ok}
use lmax_clob.Api.Metrics.{ServiceRequest, ServiceResponse, Sample, call, latency_sample}
use lmax_clob.Api.Modes.{Mode, follower_mode, Route, routes}

-- The method and the pattern of the path, as the attribute above each handler gives them.
abbrev pub method_of : Route → String
method_of Route.health = "GET"
method_of Route.healthz = "GET"
method_of Route.place_order = "POST"
method_of Route.get_order = "GET"
method_of Route.cancel_order = "DELETE"
method_of Route.get_book = "GET"
method_of Route.get_trades = "GET"
method_of Route.ws_market = "GET"

abbrev pub pattern_of : Route → String
pattern_of Route.health = "/health"
pattern_of Route.healthz = "/healthz"
pattern_of Route.place_order = "/orders"
pattern_of Route.get_order = "/orders/{id}"
pattern_of Route.cancel_order = "/orders/{id}"
pattern_of Route.get_book = "/markets/{id}/book"
pattern_of Route.get_trades = "/markets/{id}/trades"
pattern_of Route.ws_market = "/ws/markets/{id}"

-- How the server matches a path with a pattern, what a handler answers, how a status is printed, and
-- the answer where no route fits.
pub record Server (E B : Type 0) : Type 0 where
  pub fits : String → String → Bool
  pub handle : Route → ServiceRequest → Result E (ServiceResponse B)
  pub status_text : ℕ → String
  pub not_found : B

module _ {E B : Type 0} (v : Server E B) where
  abbrev takes : Route → ServiceRequest → Bool
  takes r req = same_text (method_of r) req.method && v.fits (pattern_of r) req.path

  -- The first service that takes the request.
  find_route : List Route → ServiceRequest → Option Route
  find_route [] req = none
  find_route (r ∷ rs) req = let rest = find_route rs req in if takes r req then some r else rest

  handled : Option Route → ServiceRequest → Result E (ServiceResponse B)
  handled none req = ok (record { status = 404; body = v.not_found })
  handled (some r) req = v.handle r req

  unfoldable pub serve_http : Mode → ℕ → ServiceRequest → Result E (ServiceResponse B) × List Sample
  unfolding find_route handled
  serve_http mode elapsed req =
      call v.status_text (λ q. handled (find_route (routes mode) q) q) elapsed req

  -- A route of the list with this method.
  abbrev pub IsRouted : List Route → ServiceRequest → Route → Type 0
  IsRouted rs req r = Any (λ x. x ≡ r) rs × (method_of r ≡ req.method)

  both_true : (a b : Bool) → (a && b) ≡ true → a ≡ true
  both_true true b e = refl
  both_true false b e = e

  find_route-IsRouted :
      (rs : List Route) (req : ServiceRequest) (r : Route)
      → find_route rs req ≡ some r
      → IsRouted rs req r
  unfolding find_route
  find_route-IsRouted [] req r e = absurd cc
  find_route-IsRouted (x ∷ rs) req r e = elim (Bool-cases (takes x req)) [
    | inl yes_x ↦
        let same = some-injective x r (rw (yes_x, find_route) at e) in
        (
          inl same,
          ap method_of (sym same)
              ∙ (same_text_iff (method_of x) req.method).0 (both_true _ _ yes_x),
        )
    | inr other ↦
        let (found, method) = find_route-IsRouted rs req r (rw (other, find_route) at e) in
        (inr found, method)
  ]

  get_only : (r : Route) → Any (λ x. x ≡ r) (routes follower_mode) → method_of r ≡ "GET"
  unfolding routes
  get_only r (inl e) = ap method_of (sym e)
  get_only r (inr (inl e)) = ap method_of (sym e)
  get_only r (inr (inr (inl e))) = ap method_of (sym e)
  get_only r (inr (inr (inr (inl e)))) = ap method_of (sym e)
  get_only r (inr (inr (inr (inr e)))) = absurd e

  -- A follower answers a request that is no GET with the status 404: it places and cancels nothing.
  -- One sample of the latency is recorded for the answer.
  pub serve_http-follower :
      (elapsed : ℕ) (req : ServiceRequest)
      → req.method ≢ "GET"
      → serve_http follower_mode elapsed req ≡ (
        ok (record { status = 404; body = v.not_found }),
        latency_sample v.status_text req 404 elapsed ∷ [],
      )
  unfolding serve_http call handled
  serve_http-follower elapsed req other =
      elim (Option-cases (find_route (routes follower_mode) req)) [
        | inl nothing ↦ rw nothing refl
        | inr (r, found) ↦
            let (listed, method) = find_route-IsRouted (routes follower_mode) req r found in
            absurd (other (sym method ∙ get_only r listed))
      ]
