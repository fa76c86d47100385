-- ===== src/Membership/Designate/Gateways.antt =====
-- Which gateway a gateway route joins, by the selectors of the gateways.
use aws_app_mesh_controller.Base.{
  String, Bool, true, false, Option, none, some, List, [], ◌∷◌, ◌++◌, Result, ok, ◌≡◌, refl, sym,
  ap, subst, ◌∙◌, ◌↔◌, ◌⊎◌, inl, inr, select, All, if◌then◌else◌,
}
use aws_app_mesh_controller.Api.Meta.{ObjectMeta}
use aws_app_mesh_controller.Api.VirtualGateway.{VirtualGateway}
use aws_app_mesh_controller.Membership.Candidates.{positive, Answered, bind-ok, wrap-ok}
use aws_app_mesh_controller.Membership.Designate.{designate_for_gateway_route-selected}
use aws_app_mesh_controller.Membership.Finalize.Waits.{All-iff}
use aws_app_mesh_controller.Membership.{
  Labels, LabelSelectors, Cluster, wrap, bad_selector, selects, matches_gateway_route,
  matches_gateway_route_selector, designate_for_gateway_route,
}

module _ {E A : Type 0} (test : A → Result E Bool) where
  -- Every test is answered, and that element alone passes: the list is split there.
  abbrev pub IsOnly : A → List A → Type 0
  IsOnly a xs =
      (pre : List A) × (post : List A) × (xs ≡ pre ++ a ∷ post)
      × All (λ x. test x ≡ ok false) (pre ++ post)
      × (test a ≡ ok true)

  abbrev found : List A → List A
  found = select (λ x. positive (test x))

  found_under :
      (x : A) (xs : List A) (b : Bool)
      → test x ≡ ok b
      → found (x ∷ xs) ≡ (if b then x ∷ found xs else found xs)
  unfolding select
  found_under x xs b e = ap (λ (c : Bool). if c then x ∷ found xs else found xs) (ap positive e)

  none_found :
      (xs : List A)
      → All (λ x. Answered (test x)) xs
      → found xs ≡ []
      → All (λ x. test x ≡ ok false) xs
  none_found [] _ h = tt
  none_found (x ∷ xs) ((true, e), all) h = cc (sym (found_under x xs true e) ∙ h)
  none_found (x ∷ xs) ((false, e), all) h =
      (e, none_found xs all (sym (found_under x xs false e) ∙ h))

  none_passes :
      (xs : List A)
      → All (λ x. test x ≡ ok false) xs
      → All (λ x. Answered (test x)) xs × (found xs ≡ [])
  unfolding select
  none_passes [] _ = (tt, refl)
  none_passes (x ∷ xs) (e, all) =
      let (answered, h) = none_passes xs all in
      (((false, e), answered), found_under x xs false e ∙ h)

  to_only :
      (a : A) (xs : List A) → All (λ x. Answered (test x)) xs → found xs ≡ a ∷ [] → IsOnly a xs
  unfolding select
  to_only a [] _ h = cc h
  to_only a (x ∷ xs) ((true, e), all) h =
      let both = sym (found_under x xs true e) ∙ h in
      let same : x ≡ a = cc both in
      let rest : found xs ≡ [] = cc both in
      ([], xs, ap (λ y. y ∷ xs) same, none_found xs all rest, subst (λ y. test y ≡ ok true) same e)
  to_only a (x ∷ xs) ((false, e), all) h =
      let (pre, post, split, others, passes) =
        to_only a xs all (sym (found_under x xs false e) ∙ h) in
      (x ∷ pre, post, ap (◌∷◌ x) split, (e, others), passes)

  from_only :
      (a : A) (pre post : List A)
      → All (λ x. test x ≡ ok false) (pre ++ post)
      → test a ≡ ok true
      → All (λ x. Answered (test x)) (pre ++ a ∷ post) × (found (pre ++ a ∷ post) ≡ a ∷ [])
  from_only a [] post others passes =
      let (answered, h) = none_passes post others in
      (((true, passes), answered), found_under a post true passes ∙ ap (◌∷◌ a) h)
  from_only a (x ∷ pre) post (e, others) passes =
      let (answered, h) = from_only a pre post others passes in
      (((false, e), answered), found_under x (pre ++ a ∷ post) false e ∙ h)

  IsOnly-iff :
      (a : A) (xs : List A) → (All (λ x. Answered (test x)) xs × (found xs ≡ a ∷ [])) ↔ IsOnly a xs
  IsOnly-iff a xs = (
    λ p. to_only a xs p.0 p.1,
    λ (pre, post, split, others, passes).
        subst (λ ys. All (λ x. Answered (test x)) ys × (found ys ≡ a ∷ [])) (sym split)
          (from_only a pre post others passes),
  )

module _ {Selector E : Type 0} (selectors : LabelSelectors Selector E) where
  -- The selector is well formed, and this is whether it matches the labels.
  abbrev pub Selects : Option Selector → Labels → Bool → Type 0
  Selects s labels b =
      (matches : Labels → Bool) × (selectors.as_selector s ≡ ok matches) × (matches labels ≡ b)

  -- Without a selector of gateway routes, the library's selector of everything is asked.
  abbrev pub SelectsRoute : Option Selector → Labels → Bool → Type 0
  SelectsRoute none labels b = (selectors.everything labels ≡ b)
  SelectsRoute (some s) labels b = Selects (some s) labels b

  -- Both selectors of the gateway match: the namespace's labels and the route's.
  abbrev pub Joins : Labels → ObjectMeta → VirtualGateway Selector → Type 0
  Joins labels obj vg =
      Selects vg.spec.namespace_selector labels true
      × SelectsRoute vg.spec.gateway_route_selector obj.labels true

  -- One of them does not; the second is looked at only if the first matches.
  abbrev pub Avoids : Labels → ObjectMeta → VirtualGateway Selector → Type 0
  Avoids labels obj vg =
      Selects vg.spec.namespace_selector labels false
      ⊎ (Selects vg.spec.namespace_selector labels true
          × SelectsRoute vg.spec.gateway_route_selector obj.labels false)

  selects-ok :
      (labels : Labels) (s : Option Selector) (b : Bool)
      → (selects selectors labels s ≡ ok b) ↔ Selects s labels b
  unfolding selects
  selects-ok labels s b = (
    λ h.
        let (m, e, r) = (bind-ok (wrap bad_selector (selectors.as_selector s)) _ b).0 h in
        (m, (wrap-ok bad_selector _ m).0 e, cc r),
    λ (m, e, r).
        (bind-ok (wrap bad_selector (selectors.as_selector s)) _ b).1
          (m, (wrap-ok bad_selector _ m).1 e, ap (λ (c : Bool). ok c) r),
  )

  route_selector-ok :
      (obj : ObjectMeta) (vg : VirtualGateway Selector) (b : Bool)
      → (matches_gateway_route_selector selectors obj vg ≡ ok b)
        ↔ SelectsRoute vg.spec.gateway_route_selector obj.labels b
  unfolding matches_gateway_route_selector
  route_selector-ok obj vg b = go vg.spec.gateway_route_selector
    where
      go :
          (o : Option Selector)
          → (elim o [
            | none ↦ ok (selectors.everything obj.labels)
            | some s ↦ selects selectors obj.labels (some s)
          ]
              ≡ ok b)
            ↔ SelectsRoute o obj.labels b
      go none = (λ h. cc h, λ h. ap (λ (c : Bool). ok c) h)
      go (some s) = selects-ok obj.labels (some s) b

  module _ (labels : Labels) (obj : ObjectMeta) (vg : VirtualGateway Selector) where
    Joins-iff : (matches_gateway_route selectors labels obj vg ≡ ok true) ↔ Joins labels obj vg
    unfolding matches_gateway_route
    Joins-iff = (
      λ h.
          let (b, e, r) =
            (bind-ok (selects selectors labels vg.spec.namespace_selector) _ true).0 h in
          second b e r,
      λ (n, r).
          (bind-ok (selects selectors labels vg.spec.namespace_selector) _ true).1
            (true, (selects-ok labels _ true).1 n, (route_selector-ok obj vg true).1 r),
    )
      where
        second :
            (b : Bool)
            → selects selectors labels vg.spec.namespace_selector ≡ ok b
            → (if b then matches_gateway_route_selector selectors obj vg else ok false) ≡ ok true
            → Joins labels obj vg
        second true e r = ((selects-ok labels _ true).0 e, (route_selector-ok obj vg true).0 r)
        second false e r = cc r

    Avoids-iff : (matches_gateway_route selectors labels obj vg ≡ ok false) ↔ Avoids labels obj vg
    unfolding matches_gateway_route
    Avoids-iff = (
      λ h.
          let (b, e, r) =
            (bind-ok (selects selectors labels vg.spec.namespace_selector) _ false).0 h in
          second b e r,
      λ a. elim a [
        | inl n ↦
            (bind-ok (selects selectors labels vg.spec.namespace_selector) _ false).1
              (false, (selects-ok labels _ false).1 n, refl)
        | inr (n, r) ↦
            (bind-ok (selects selectors labels vg.spec.namespace_selector) _ false).1
              (true, (selects-ok labels _ true).1 n, (route_selector-ok obj vg false).1 r)
      ],
    )
      where
        second :
            (b : Bool)
            → selects selectors labels vg.spec.namespace_selector ≡ ok b
            → (if b then matches_gateway_route_selector selectors obj vg else ok false) ≡ ok false
            → Avoids labels obj vg
        second true e r = inr ((selects-ok labels _ true).0 e, (route_selector-ok obj vg false).0 r)
        second false e r = inl ((selects-ok labels _ false).0 e)

  -- A gateway is designated for a gateway route exactly when the request's namespace and the gateways
  -- are read, that gateway's namespace selector matches the namespace's labels and its selector of
  -- gateway routes, if it has one, the route's labels (without one the selector of everything does),
  -- and of each other gateway in the list one of the two does not match, the second being looked at
  -- only if the first matches, and the selectors that are looked at are well formed.
  pub designate_for_gateway_route-ok :
      (cluster : Cluster Selector E) (ns : String) (obj : ObjectMeta) (g : VirtualGateway Selector)
      → (designate_for_gateway_route selectors cluster ns obj ≡ ok g) ↔ (
          (labels : Labels) × (pre : List (VirtualGateway Selector)) × (post : List
            (VirtualGateway Selector))
          × (cluster.get_namespace ns ≡ ok labels)
          × (cluster.list_virtual_gateways ≡ ok (pre ++ g ∷ post))
          × All (Avoids labels obj) (pre ++ post)
          × Joins labels obj g)
  designate_for_gateway_route-ok cluster ns obj g =
      let by_test = designate_for_gateway_route-selected selectors cluster ns obj g in
      (
        λ h.
            let (labels, gateways, e₁, e₂, all, one) = by_test.0 h in
            let (pre, post, split, others, passes) =
              (IsOnly-iff (matches_gateway_route selectors labels obj) g gateways).0 (all, one) in
            (
              labels,
              pre,
              post,
              e₁,
              e₂ ∙ ap (λ (gs : List (VirtualGateway Selector)). ok gs) split,
              (All-iff _ _ (λ x. Avoids-iff labels obj x) (pre ++ post)).0 others,
              (Joins-iff labels obj g).0 passes,
            ),
        λ (labels, pre, post, e₁, e₂, others, joins).
            let (all, one) =
              (IsOnly-iff (matches_gateway_route selectors labels obj) g (pre ++ g ∷ post)).1 (
                pre,
                post,
                refl,
                (All-iff _ _ (λ x. Avoids-iff labels obj x) (pre ++ post)).1 others,
                (Joins-iff labels obj g).1 joins,
              ) in
            by_test.1 (labels, pre ++ g ∷ post, e₁, e₂, all, one),
      )
