-- ===== src/Routes/Tainted.antt =====
-- taintedSDKRouteRefs selects the routes that have to go before the listeners change.
use aws_app_mesh_controller.Base.{
  String, Bool, true, false, not, ◌&&◌, ◌||◌, Option, none, some, is_some, List, [], ◌∷◌, ◌++◌,
  contains, ◌≡◌, refl, sym, ◌↔◌, All, All-append, ◌∙◌, arith, string_eq, ◌==◌, ==-eq, if◌then◌else◌,
  ap,
}
use aws_app_mesh_controller.Base.Int.{ℤ, int_eq}
use aws_app_mesh_controller.Base.Dict
use aws_app_mesh_controller.Base.Dict.{Dict, IsKeyed}
use aws_app_mesh_controller.Base.Sets.{StringSets, StringSetLaws}
use aws_app_mesh_controller.Api.VirtualRouter.{Route, TcpRoute, TcpRouteMatch, HttpRoute, GrpcRoute}
use aws_app_mesh_controller.References.{AwsSdk, AwsSdkLaws}
use aws_app_mesh_controller.Routes.{
  RouteRef, SdkListener, route_by_name, route_ref_name, sdk_route_ref_by_name, sdk_listener_by_port,
  protocol_changed, is_tainted, insert_tainted, tainted_sdk_route_refs,
}
use aws_app_mesh_controller.Routes.Match.{
  names, ref_names, route_by_name-IsKeyed, ref_by_name-IsKeyed, has_ref, route_keys, ref_keys,
  has_route,
}

abbrev pub tainted_at : AwsSdk → Dict ℤ String → Option Route → Bool
tainted_at sdk by_port none = false
tainted_at sdk by_port (some r) = is_tainted sdk by_port r

merge :
    (b c tn tk s : Bool)
    → (b ≡ true → tk ≡ tn)
    → ((c && tn) || ((b && tk) || s)) ≡ (((b || c) && tn) || s)
merge b c tn tk s h = ground arith

module _ (sdk : AwsSdk) (sets : StringSets) (laws : StringSetLaws sets) where
  insert_step :
      (by_port : Dict ℤ String) (o : Option Route) (set : sets.StringSet) (k n : String)
      → ((r : Route) → o ≡ some r → r.name ≡ k)
      → contains
          (sets.list (elim o [
            | none ↦ set
            | some r ↦ if is_tainted sdk by_port r then sets.insert r.name set else set
          ]))
          n
        ≡ ((n == k && tainted_at sdk by_port o) || contains (sets.list set) n)
  insert_step by_port none set k n key = ground arith
  insert_step by_port (some r) set k n key =
      ground (arith, laws.contains-insert r.name set n, key r refl)

  -- The loop adds the tainted routes under the names it goes through.
  contains-insert_tainted :
      (by_name : Dict String Route) (by_port : Dict ℤ String) (ns : List String)
      (set : sets.StringSet) (n : String)
      → IsKeyed (λ (r : Route). r.name) by_name
      → contains (sets.list (insert_tainted sdk sets by_name by_port ns set)) n ≡ (
          (contains ns n && tainted_at sdk by_port (Dict.lookup n by_name))
          || contains (sets.list set) n)
  unfolding insert_tainted
  contains-insert_tainted by_name by_port [] set n keyed = refl
  contains-insert_tainted by_name by_port (k ∷ ns) set n keyed =
      contains-insert_tainted by_name by_port ns _ n keyed
      ∙ (ap (λ b. (contains ns n && tainted_at sdk by_port (Dict.lookup n by_name)) || b)
            (insert_step by_port (Dict.lookup k by_name) set k n (λ r e. keyed.key_of k r e))
          ∙ merge (n == k) (contains ns n) _ _ (contains (sets.list set) n)
              (λ e. ap (λ j. tainted_at sdk by_port (Dict.lookup j by_name)) (sym (==-eq e))))

  -- The same by the functions that the loop uses.
  pub contains-tainted_sdk_route_refs :
      (routes : List Route) (listeners : List SdkListener) (refs : List RouteRef) (n : String)
      → contains (ref_names sdk (tainted_sdk_route_refs sdk sets routes listeners refs)) n ≡ (
          contains (ref_names sdk refs) n
          && (not (contains (names routes) n)
              || tainted_at sdk
                  (sdk_listener_by_port sdk listeners [])
                  (Dict.lookup n (route_by_name routes))))
  unfolding tainted_sdk_route_refs
  contains-tainted_sdk_route_refs routes listeners refs n =
      let by_name = route_by_name routes in
      let by_ref = sdk_route_ref_by_name sdk refs in
      let by_port = sdk_listener_by_port sdk listeners [] in
      let route_set = sets.key_set (Dict.keys by_name) in
      let ref_set = sets.key_set (Dict.keys by_ref) in
      let both = sets.list (sets.intersection route_set ref_set) in
      let gone = sets.difference ref_set route_set in
      ground (
        arith,
        Dict.contains-values_of (route_ref_name sdk) by_ref
            (sets.list (insert_tainted sdk sets by_name by_port both gone)) n
            (ref_by_name-IsKeyed sdk refs),
        contains-insert_tainted by_name by_port both gone n (route_by_name-IsKeyed routes),
        laws.contains-intersection route_set ref_set n,
        laws.contains-difference ref_set route_set n,
        route_keys sdk sets laws routes refs n,
        ref_keys sdk sets laws routes refs n,
        has_ref sdk refs n,
      )

-- The ports that a route names, each with the protocol of its kind.
abbrev port_of : Option ℤ → String → Dict ℤ String
port_of none protocol = []
port_of (some port) protocol = (port, protocol) ∷ []

abbrev tcp_port : Option TcpRoute → Dict ℤ String
tcp_port none = []
tcp_port (some t) = elim t.match [ none ↦ [] | some m ↦ port_of m.port "tcp" ]

abbrev http_port : String → Option HttpRoute → Dict ℤ String
http_port protocol none = []
http_port protocol (some h) = port_of h.match.port protocol

abbrev grpc_port : Option GrpcRoute → Dict ℤ String
grpc_port none = []
grpc_port (some g) = port_of g.match.port "grpc"

abbrev pub ports_of : Route → Dict ℤ String
ports_of r =
    tcp_port r.tcp_route
    ++ (grpc_port r.grpc_route
        ++ (http_port "http2" r.http2_route ++ http_port "http" r.http_route))

abbrev pub protocol_at : Dict ℤ String → ℤ → String
protocol_at by_port port = elim (Dict.lookup port by_port) [ none ↦ "" | some p ↦ p ]

abbrev pub Fits : Dict ℤ String → ℤ × String → Type 0
Fits by_port p = protocol_at by_port p.0 ≡ p.1

module _ (sdk : AwsSdk) (laws : AwsSdkLaws sdk) (by_port : Dict ℤ String) where
  changed-false :
      (port : Option ℤ) (protocol : String)
      → (protocol_changed sdk by_port port protocol ≡ false)
        ↔ All (Fits by_port) (port_of port protocol)
  unfolding protocol_changed
  changed-false none protocol = ground arith
  changed-false (some port) protocol = ground (arith, laws.int64_value-some port)

  tcp-false :
      (o : Option TcpRoute)
      → (elim o [
        | none ↦ false
        | some t ↦ elim t.match [
          | none ↦ false
          | some m ↦ protocol_changed sdk by_port m.port "tcp"
        ]
      ]
          ≡ false)
        ↔ All (Fits by_port) (tcp_port o)
  tcp-false none = (λ _. tt, λ _. refl)
  tcp-false (some t) = go t.match
    where
      go :
          (o : Option TcpRouteMatch)
          → (elim o [ none ↦ false | some m ↦ protocol_changed sdk by_port m.port "tcp" ] ≡ false)
            ↔ All (Fits by_port) (elim o [ none ↦ [] | some m ↦ port_of m.port "tcp" ])
      go none = (λ _. tt, λ _. refl)
      go (some m) = changed-false m.port "tcp"

  http-false :
      (protocol : String) (o : Option HttpRoute)
      → (elim o [ none ↦ false | some h ↦ protocol_changed sdk by_port h.match.port protocol ]
          ≡ false)
        ↔ All (Fits by_port) (http_port protocol o)
  http-false protocol none = (λ _. tt, λ _. refl)
  http-false protocol (some h) = changed-false h.match.port protocol

  grpc-false :
      (o : Option GrpcRoute)
      → (elim o [ none ↦ false | some g ↦ protocol_changed sdk by_port g.match.port "grpc" ]
          ≡ false)
        ↔ All (Fits by_port) (grpc_port o)
  grpc-false none = (λ _. tt, λ _. refl)
  grpc-false (some g) = changed-false g.match.port "grpc"

  one_of_two :
      {P Q R : Type 0} (a b : Bool)
      → ((a ≡ false) ↔ P)
      → ((b ≡ false) ↔ Q)
      → (R ↔ (P × Q))
      → ((if a then true else b) ≡ false) ↔ R
  one_of_two true b p q r = (λ h. cc, λ h. p.1 (r.0 h).0)
  one_of_two false b p q r = (λ h. r.1 (p.0 refl, q.0 h), λ h. q.1 (r.0 h).1)

  -- A route is tainted unless each port that it names has a listener of its kind's protocol.
  pub is_tainted-false :
      (r : Route) → (is_tainted sdk by_port r ≡ false) ↔ All (Fits by_port) (ports_of r)
  unfolding is_tainted
  is_tainted-false r =
      one_of_two _ _ (tcp-false r.tcp_route)
        (one_of_two _ _ (grpc-false r.grpc_route)
          (one_of_two _ _ (http-false "http2" r.http2_route) (http-false "http" r.http_route) (
            All-append (Fits by_port) (http_port "http2" r.http2_route)
              (http_port "http" r.http_route)))
          (All-append (Fits by_port) (grpc_port r.grpc_route) _))
        (All-append (Fits by_port) (tcp_port r.tcp_route) _)

-- What is wanted under a name: the last route that has it.
abbrev pub last_named : String → List Route → Option Route
last_named n [] = none
last_named n (r ∷ rs) = elim (last_named n rs) [
  | some s ↦ some s
  | none ↦ if n == r.name then some r else none
]

lookup-index :
    (n : String) (rs : List Route) (d : Dict String Route)
    → Dict.lookup n (Dict.index_by (λ (r : Route). r.name) rs d)
      ≡ elim (last_named n rs) [ some r ↦ some r | none ↦ Dict.lookup n d ]
unfolding Dict.index_by
lookup-index n [] d = refl
lookup-index n (r ∷ rs) d =
    ground (arith, lookup-index n rs (Dict.insert r.name r d), Dict.lookup-insert n r.name r d)

lookup-route_by_name :
    (n : String) (rs : List Route) → Dict.lookup n (route_by_name rs) ≡ last_named n rs
unfolding route_by_name
lookup-route_by_name n rs = ground (arith, lookup-index n rs [], Dict.lookup-nil {V = Route} n)

module _ (sdk : AwsSdk) where
  -- The protocol of the last listener on a port, and "" without one.
  abbrev pub last_protocol : ℤ → List SdkListener → Option String
  last_protocol port [] = none
  last_protocol port (l ∷ ls) = elim (last_protocol port ls) [
    | some p ↦ some p
    | none ↦ if port == sdk.int64_value l.port then some (sdk.string_value l.protocol) else none
  ]

  lookup-listener :
      (port : ℤ) (ls : List SdkListener) (d : Dict ℤ String)
      → Dict.lookup port (sdk_listener_by_port sdk ls d)
        ≡ elim (last_protocol port ls) [ some p ↦ some p | none ↦ Dict.lookup port d ]
  unfolding sdk_listener_by_port
  lookup-listener port [] d = refl
  lookup-listener port (l ∷ ls) d =
      let port' = sdk.int64_value l.port in
      let protocol = sdk.string_value l.protocol in
      ground (
        arith,
        lookup-listener port ls (Dict.insert port' protocol d),
        Dict.lookup-insert port port' protocol d,
      )

  -- Each port that is named has its protocol; a port without a listener has "".
  abbrev pub all_served : List SdkListener → Dict ℤ String → Bool
  all_served ls [] = true
  all_served ls ((port, protocol) ∷ ps) =
      (elim (last_protocol port ls) [ none ↦ "" | some p ↦ p ]) == protocol && all_served ls ps

  served_iff :
      (ls : List SdkListener) (ps : Dict ℤ String)
      → All (Fits (sdk_listener_by_port sdk ls [])) ps ↔ (all_served ls ps ≡ true)
  served_iff ls [] = (λ _. refl, λ _. tt)
  served_iff ls ((port, protocol) ∷ ps) =
      let rest = served_iff ls ps in
      let found = lookup-listener port ls [] in
      let missing = Dict.lookup-nil {V = String} port in ground (arith, rest, found, missing)

  -- Nothing is wanted, or a route that names a port without a listener of its kind's protocol.
  abbrev pub is_displaced : List SdkListener → Option Route → Bool
  is_displaced ls none = true
  is_displaced ls (some r) = not (all_served ls (ports_of r))

  module _ (laws : AwsSdkLaws sdk) (ls : List SdkListener) where
    tainted-eq-not-served :
        (r : Route)
        → is_tainted sdk (sdk_listener_by_port sdk ls []) r ≡ not (all_served ls (ports_of r))
    tainted-eq-not-served r =
        let by_ports = is_tainted-false sdk laws (sdk_listener_by_port sdk ls []) r in
        let served = served_iff ls (ports_of r) in
        opposite _ _ (λ e. served.0 (by_ports.0 e)) (λ e. by_ports.1 (served.1 e))
      where
        opposite : (a b : Bool) → (a ≡ false → b ≡ true) → (b ≡ true → a ≡ false) → a ≡ not b
        opposite true true f g = g refl
        opposite true false f g = refl
        opposite false true f g = refl
        opposite false false f g = f refl

    displaced :
        (o : Option Route)
        → (not (is_some o) || tainted_at sdk (sdk_listener_by_port sdk ls []) o) ≡ is_displaced ls o
    displaced none = refl
    displaced (some r) = tainted-eq-not-served r

-- With sets and an SDK that keep their laws: a name is tainted exactly when App Mesh has a route of
-- that name and either none is wanted under it, or the last route of that name names a port whose
-- last listener has not the protocol of the route's kind.
pub tainted-names :
    (sdk : AwsSdk) (sdk_laws : AwsSdkLaws sdk) (sets : StringSets) (laws : StringSetLaws sets)
    (routes : List Route) (listeners : List SdkListener) (refs : List RouteRef) (n : String)
    → contains (ref_names sdk (tainted_sdk_route_refs sdk sets routes listeners refs)) n
      ≡ (contains (ref_names sdk refs) n && is_displaced sdk listeners (last_named n routes))
tainted-names sdk sdk_laws sets laws routes listeners refs n =
    let wanted = last_named n routes in
    let at = lookup-route_by_name n routes in
    let has : contains (names routes) n ≡ is_some wanted =
      sym (has_route routes n) ∙ ap is_some at in
    contains-tainted_sdk_route_refs sdk sets laws routes listeners refs n
    ∙ ap (λ b. contains (ref_names sdk refs) n && b)
        (ap
            (λ o.
              not (contains (names routes) n)
              || tainted_at sdk (sdk_listener_by_port sdk listeners []) o)
            at
          ∙ ap (λ b. not b || tainted_at sdk (sdk_listener_by_port sdk listeners []) wanted) has
          ∙ displaced sdk sdk_laws listeners wanted)
