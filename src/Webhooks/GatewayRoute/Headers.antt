-- ===== src/Webhooks/GatewayRoute/Headers.antt =====
-- The loops over header, metadata and query-parameter matches of gatewayroute_validator.go.
use aws_app_mesh_controller.Base.{
  ℕ, ◌≤◌, true, false, Option, none, some, List, [], ◌∷◌, ◌++◌, ◌≡◌, refl, sym, ◌∙◌, ◌↔◌, ok,
  is_some, All, arith, ltb, eqb,
}
use aws_app_mesh_controller.Base.Int.{◌<ℤ◌}
use aws_app_mesh_controller.Api.Shared.{
  MatchRange, HeaderMatchMethod, GrpcRouteMetadataMatchMethod, HttpQueryParameters,
}
use aws_app_mesh_controller.Api.GatewayRoute.{HttpGatewayRouteHeader, GrpcGatewayRouteMetadata}
use aws_app_mesh_controller.Webhooks.Checks.{Check, count_true, guard-ok}
use aws_app_mesh_controller.Webhooks.GatewayRoute.{
  get_num_of_header_match_filters, get_num_of_metadata_match_filters, validate_match_range,
  after_range, validate_query_parameters_if_any, validate_header_match,
  validate_http_headers_if_any, validate_metadata_match, validate_metadata_if_any,
}

-- How many of the five match filters are set.
abbrev pub filters : HeaderMatchMethod → ℕ
filters m =
    count_true (
      is_some m.exact
      ∷ is_some m.prefix
      ∷ is_some m.range
      ∷ is_some m.regex
      ∷ is_some m.suffix
      ∷ [])

abbrev pub metadata_filters : GrpcRouteMetadataMatchMethod → ℕ
metadata_filters m =
    count_true (
      is_some m.exact
      ∷ is_some m.prefix
      ∷ is_some m.range
      ∷ is_some m.regex
      ∷ is_some m.suffix
      ∷ [])

abbrev pub IsRange : MatchRange → Type 0
IsRange r = r.start <ℤ r.end

-- What one match must satisfy, whatever stands around it.
abbrev pub RangeOk : Option MatchRange → Type 0
RangeOk none = Unit {0}
RangeOk (some r) = IsRange r

abbrev pub HeaderOk : Option HeaderMatchMethod → Type 0
HeaderOk none = Unit {0}
HeaderOk (some m) = (filters m ≡ 1) × RangeOk m.range

-- The matches up to the first range hold exactly one filter, and that range is not empty.
abbrev AfterRange : Option MatchRange → Type 0 → Type 0
AfterRange none rest = rest
AfterRange (some r) rest = IsRange r

abbrev AfterHeader : Option HeaderMatchMethod → Type 0 → Type 0
AfterHeader none rest = rest
AfterHeader (some m) rest = (filters m ≡ 1) × AfterRange m.range rest

abbrev pub HeadersPass : List HttpGatewayRouteHeader → Type 0
HeadersPass [] = Unit {0}
HeadersPass (h ∷ hs) = AfterHeader h.match (HeadersPass hs)

abbrev AfterMetadata : Option GrpcRouteMetadataMatchMethod → Type 0 → Type 0
AfterMetadata none rest = rest
AfterMetadata (some m) rest = (metadata_filters m ≤ 1) × AfterRange m.range rest

abbrev pub MetadataPass : List GrpcGatewayRouteMetadata → Type 0
MetadataPass [] = Unit {0}
MetadataPass (h ∷ hs) = AfterMetadata h.match (MetadataPass hs)

abbrev pub QueryOk : HttpQueryParameters → Type 0
QueryOk q = elim q.match [ none ↦ Unit {0} | some m ↦ is_some m.exact ≡ true ]

num-eq-filters : (m : HeaderMatchMethod) → get_num_of_header_match_filters m ≡ filters m
unfolding get_num_of_header_match_filters
num-eq-filters m = ground arith

num-eq-metadata_filters :
    (m : GrpcRouteMetadataMatchMethod) → get_num_of_metadata_match_filters m ≡ metadata_filters m
unfolding get_num_of_metadata_match_filters
num-eq-metadata_filters m = ground arith

-- An integer range is accepted exactly when its end is greater than its start.
pub validate_match_range-ok : (r : MatchRange) → (validate_match_range r ≡ ok tt) ↔ IsRange r
unfolding validate_match_range
validate_match_range-ok r = ground arith

after_range-ok :
    (o : Option MatchRange) (rest : Check) {R : Type 0}
    → ((rest ≡ ok tt) ↔ R)
    → (after_range o rest ≡ ok tt) ↔ AfterRange o R
unfolding after_range
after_range-ok none rest h = h
after_range-ok (some r) rest h = validate_match_range-ok r

exactly_one : (n : ℕ) → ((ltb 1 n ≡ false) × (eqb n 0 ≡ false)) ↔ (n ≡ 1)
exactly_one n = ground arith

at_most_one : (n : ℕ) → (ltb 1 n ≡ false) ↔ (n ≤ 1)
at_most_one n = ground arith

header-ok :
    (o : Option HeaderMatchMethod) (rest : Check) {R : Type 0}
    → ((rest ≡ ok tt) ↔ R)
    → (elim o [ none ↦ rest | some m ↦ validate_header_match m rest ] ≡ ok tt) ↔ AfterHeader o R
unfolding validate_header_match
header-ok none rest h = h
header-ok (some m) rest h =
    let tail = after_range-ok m.range rest h in
    let one = exactly_one (get_num_of_header_match_filters m) in
    (
      λ p.
          let (few, q) = (guard-ok _ _ _).0 p in
          let (many, r) = (guard-ok _ _ _).0 q in
          (sym (num-eq-filters m) ∙ one.0 (few, many), tail.0 r),
      λ (f, r).
          let (few, many) = one.1 (num-eq-filters m ∙ f) in
          (guard-ok _ _ _).1 (few, (guard-ok _ _ _).1 (many, tail.1 r)),
    )

-- The headers are accepted exactly when, up to the first range, each match has one filter, and
-- that range is not empty.
pub validate_http_headers_if_any-ok :
    (hs : List HttpGatewayRouteHeader) → (validate_http_headers_if_any hs ≡ ok tt) ↔ HeadersPass hs
unfolding validate_http_headers_if_any
validate_http_headers_if_any-ok [] = (λ _. tt, λ _. refl)
validate_http_headers_if_any-ok (h ∷ hs) =
    header-ok h.match (validate_http_headers_if_any hs) (validate_http_headers_if_any-ok hs)

metadata-ok :
    (o : Option GrpcRouteMetadataMatchMethod) (rest : Check) {R : Type 0}
    → ((rest ≡ ok tt) ↔ R)
    → (elim o [ none ↦ rest | some m ↦ validate_metadata_match m rest ] ≡ ok tt) ↔ AfterMetadata o R
unfolding validate_metadata_match
metadata-ok none rest h = h
metadata-ok (some m) rest h =
    let tail = after_range-ok m.range rest h in
    let most = at_most_one (get_num_of_metadata_match_filters m) in
    (
      λ p.
          let (few, q) = (guard-ok _ _ _).0 p in
          (rw (← num-eq-metadata_filters m) (most.0 few), tail.0 q),
      λ (f, r). (guard-ok _ _ _).1 (most.1 (rw (num-eq-metadata_filters m) f), tail.1 r),
    )

pub validate_metadata_if_any-ok :
    (hs : List GrpcGatewayRouteMetadata) → (validate_metadata_if_any hs ≡ ok tt) ↔ MetadataPass hs
unfolding validate_metadata_if_any
validate_metadata_if_any-ok [] = (λ _. tt, λ _. refl)
validate_metadata_if_any-ok (h ∷ hs) =
    metadata-ok h.match (validate_metadata_if_any hs) (validate_metadata_if_any-ok hs)

pub validate_query_parameters_if_any-ok :
    (qs : List HttpQueryParameters) → (validate_query_parameters_if_any qs ≡ ok tt) ↔ All QueryOk qs
unfolding validate_query_parameters_if_any
validate_query_parameters_if_any-ok [] = (λ _. tt, λ _. refl)
validate_query_parameters_if_any-ok (q ∷ qs) =
    ground (arith, validate_query_parameters_if_any-ok qs)

abbrev pub NoRange : Option HeaderMatchMethod → Type 0
NoRange none = Unit {0}
NoRange (some m) = m.range ≡ none

without_range :
    (o : Option HeaderMatchMethod) {R S : Type 0}
    → NoRange o
    → R ↔ S
    → AfterHeader o R ↔ (HeaderOk o × S)
without_range none _ e = (λ r. (tt, e.0 r), λ p. e.1 p.1)
without_range (some m) n e = rw n (λ p. ((p.0, tt), e.0 p.1), λ p. (p.0.0, e.1 p.1))

HeadersPass-eq-All :
    (hs : List HttpGatewayRouteHeader)
    → All (λ h. NoRange h.match) hs
    → HeadersPass hs ↔ All (λ h. HeaderOk h.match) hs
HeadersPass-eq-All [] _ = (λ _. tt, λ _. tt)
HeadersPass-eq-All (h ∷ hs) (n, ns) = without_range h.match n (HeadersPass-eq-All hs ns)

-- If no match has a range, the headers are accepted exactly when every match has exactly one
-- filter.
pub headers_without_range :
    (hs : List HttpGatewayRouteHeader)
    → All (λ h. NoRange h.match) hs
    → (validate_http_headers_if_any hs ≡ ok tt) ↔ All (λ h. HeaderOk h.match) hs
headers_without_range hs n =
    let checked = validate_http_headers_if_any-ok hs in
    let each = HeadersPass-eq-All hs n in (λ e. each.0 (checked.0 e), λ a. checked.1 (each.1 a))

range_ends_loop :
    (pre : List HttpGatewayRouteHeader) (h : HttpGatewayRouteHeader) (m : HeaderMatchMethod)
    (r : MatchRange) (post : List HttpGatewayRouteHeader)
    → All (λ x. NoRange x.match × HeaderOk x.match) pre
    → h.match ≡ some m
    → m.range ≡ some r
    → HeaderOk (some m)
    → HeadersPass (pre ++ h ∷ post)
range_ends_loop [] h m r post _ e f k = rw (e, f) (rw f at k)
range_ends_loop (x ∷ pre) h m r post ((n, k'), ks) e f k =
    (without_range x.match n (λ p. p, λ p. p)).1 (k', range_ends_loop pre h m r post ks e f k)

-- Once the matches before it are well formed and have no range, a header with a well-formed range
-- match makes the whole list accepted, whatever headers follow.
pub headers_after_range_unchecked :
    (pre : List HttpGatewayRouteHeader) (h : HttpGatewayRouteHeader) (m : HeaderMatchMethod)
    (r : MatchRange) (post : List HttpGatewayRouteHeader)
    → All (λ x. NoRange x.match × HeaderOk x.match) pre
    → h.match ≡ some m
    → m.range ≡ some r
    → HeaderOk (some m)
    → validate_http_headers_if_any (pre ++ h ∷ post) ≡ ok tt
headers_after_range_unchecked pre h m r post a e f k =
    (validate_http_headers_if_any-ok (pre ++ h ∷ post)).1 (range_ends_loop pre h m r post a e f k)
