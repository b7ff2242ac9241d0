-- ===== src/Dispatcher/Routing.antt =====
-- Which handler a request gets from the routes that a config makes.
use mathlib.Core.List.{Memᴰ}
use mathlib.Core.List.Memᴰ
use creeper_url_shortening_w.Config.{NginxConfig}
use creeper_url_shortening_w.Config.Locations.{NginxLocation, get_locations, exists_in}
use creeper_url_shortening_w.Config.Locations.Checked.{
  IsChecked, AreChecked, get_locations-AreChecked,
}
use creeper_url_shortening_w.Http.{Request}
use creeper_url_shortening_w.Registry.{
  Registry, returned, RequestHandlerFactory, get_handler_factory,
}
use creeper_url_shortening_w.Prelude.Assoc.{Assoc, lookup, lookup-insert}
use creeper_url_shortening_w.Prelude.Text.{Bytes, str_eq, str_eq_iff, str_eq_refl, front_is}
use creeper_url_shortening_w.Prelude.{
  ◌≤◌, Bool, true, false, ◌||◌, ◌≡◌, refl, sym, ap, ◌∙◌, inl, inr, List, [], ◌∷◌, ◌++◌, Option,
  none, some, arith, length, if◌then◌else◌, Bool-cases, Option-cases,
}
use creeper_url_shortening_w.Dispatcher.{
  Route, made_route, starts_with, longest_prefix_match, add_route, add_locations, routes_of,
  dispatcher, call, get_handler,
}
use creeper_url_shortening_w.Dispatcher.LongestPrefix.{
  HasKey, longest_prefix_match-IsLongest, lookup-HasKey, HasKey_of_lookup, starts_with_same,
  empty_of_length,
}

str_eq_comm : (a b : Bytes) → str_eq a b ≡ str_eq b a
str_eq_comm a b = ground (arith, str_eq_iff a b, str_eq_iff b a)

or_parts : (a b : Bool) → a || b ≡ false → (a ≡ false) × (b ≡ false)
or_parts a b e = ground arith

starts_slash :
    (url path : Bytes)
    → starts_with url path ≡ true
    → front_is b'/' path ≡ true
    → front_is b'/' url ≡ true
unfolding starts_with front_is str_eq
starts_slash url [] e slash = cc
starts_slash [] (c ∷ path) e slash = cc
starts_slash (d ∷ url) (c ∷ path) e slash = ground arith

module _ {A H : Type 0} (registry : Registry A H) where
  -- The route of the first location with the path.
  abbrev route_at : Bytes → List (NginxLocation A) → Option (Route A H)
  route_at path [] = none
  route_at path (l ∷ ls) =
      if str_eq l.path path then some (made_route registry l) else route_at path ls

  abbrev or_else : Option (Route A H) → Option (Route A H) → Option (Route A H)
  or_else none other = other
  or_else (some route) other = some route

  or_else-none : (o : Option (Route A H)) → or_else o none ≡ o
  or_else-none none = refl
  or_else-none (some r) = refl

  or_else-if :
      (o : Option (Route A H)) (b : Bool) (r : Route A H) (other : Option (Route A H))
      → or_else (or_else o (if b then some r else none)) other
        ≡ or_else o (if b then some r else other)
  or_else-if (some x) b r other = refl
  or_else-if none true r other = refl
  or_else-if none false r other = refl

  lookup-add_route :
      (path : Bytes) (l : NginxLocation A) (routes : Assoc (Route A H))
      → lookup path (add_route registry l routes).0
        ≡ or_else
            (lookup path routes)
            (if str_eq l.path path then some (made_route registry l) else none)
  unfolding add_route
  lookup-add_route path l routes = elim (Option-cases (lookup l.path routes)) [
    | inl e ↦ rw (add_route, e) (lookup-insert l.path path (made_route registry l) routes ∙ swap e)
    | inr (r, e) ↦ rw (add_route, e) (kept r e)
  ]
    where
      swap :
          lookup l.path routes ≡ none
          → (if str_eq l.path path then some (made_route registry l) else lookup path routes)
            ≡ or_else
                (lookup path routes)
                (if str_eq l.path path then some (made_route registry l) else none)
      swap e = elim (Bool-cases (str_eq l.path path)) [
        | inl f ↦ rw (f, ap (λ p. lookup p routes) (sym ((str_eq_iff l.path path).0 f)) ∙ e) refl
        | inr f ↦ rw f (sym (or_else-none (lookup path routes)))
      ]

      kept :
          (r : Route A H)
          → lookup l.path routes ≡ some r
          → lookup path routes
            ≡ or_else
                (lookup path routes)
                (if str_eq l.path path then some (made_route registry l) else none)
      kept r e = elim (Bool-cases (str_eq l.path path)) [
        | inl f ↦ rw (f, ap (λ p. lookup p routes) (sym ((str_eq_iff l.path path).0 f)) ∙ e) refl
        | inr f ↦ rw f (sym (or_else-none (lookup path routes)))
      ]

  lookup-add_locations :
      (path : Bytes) (ls : List (NginxLocation A)) (routes : Assoc (Route A H))
      → lookup path (add_locations registry ls routes)
        ≡ or_else (lookup path routes) (route_at path ls)
  unfolding add_locations
  lookup-add_locations path [] routes = elim (Option-cases (lookup path routes)) [
    | inl e ↦ rw e refl
    | inr (r, e) ↦ rw e refl
  ]
  lookup-add_locations path (l ∷ ls) routes =
      lookup-add_locations path ls (add_route registry l routes).0
      ∙ ap (λ o. or_else o (route_at path ls)) (lookup-add_route path l routes)
      ∙ or_else-if (lookup path routes) (str_eq l.path path) (made_route registry l)
          (route_at path ls)

  exists_in-append :
      (path : Bytes) (xs ys : List (NginxLocation A))
      → exists_in registry path (xs ++ ys)
        ≡ exists_in registry path xs || exists_in registry path ys
  unfolding exists_in
  exists_in-append path [] ys = refl
  exists_in-append path (x ∷ xs) ys = ground (arith, exists_in-append path xs ys)

  head_apart :
      (path : Bytes) (x : NginxLocation A)
      → exists_in registry path (x ∷ []) ≡ false
      → str_eq path x.path ≡ false
  unfolding exists_in
  head_apart path x e = ground arith

  route_at-Memᴰ :
      (earlier ls : List (NginxLocation A)) (l : NginxLocation A)
      → AreChecked registry earlier ls
      → Memᴰ l ls
      → (exists_in registry l.path earlier ≡ false)
        × (route_at l.path ls ≡ some (made_route registry l))
        × IsChecked registry l
  route_at-Memᴰ earlier [] l checked m = absurd (Memᴰ.not-nil m)
  route_at-Memᴰ earlier (x ∷ ls) l (is, new, rest) (Memᴰ.head e) =
      rw e (new, rw (str_eq_refl x.path) refl, is)
  route_at-Memᴰ earlier (x ∷ ls) l (is, new, rest) (Memᴰ.tail m) =
      let (not_before, at, checked) = route_at-Memᴰ (earlier ++ x ∷ []) ls l rest m in
      let apart = exists_in-append l.path earlier (x ∷ []) in
      let (before, other) =
        or_parts (exists_in registry l.path earlier) (exists_in registry l.path (x ∷ []))
          (sym apart ∙ not_before) in
      (before, rw (str_eq_comm x.path l.path, head_apart l.path x other) at, checked)

  -- A route that is found was made of a location.
  route_at-some :
      (path : Bytes) (ls : List (NginxLocation A)) (r : Route A H)
      → route_at path ls ≡ some r
      → (l : NginxLocation A) × Memᴰ l ls × (l.path ≡ path)
  route_at-some path [] r e = cc
  route_at-some path (x ∷ ls) r e = elim (Bool-cases (str_eq x.path path)) [
    | inl f ↦ (x, Memᴰ.head refl, (str_eq_iff x.path path).0 f)
    | inr f ↦ let (l, m, same) = route_at-some path ls r (rw f at e) in (l, Memᴰ.tail m, same)
  ]

  route_at-empty : (ls : List (NginxLocation A)) → AreChecked registry [] ls → route_at [] ls ≡ none
  unfolding front_is
  route_at-empty ls checked = elim (Option-cases (route_at [] ls)) [
    | inl e ↦ e
    | inr (r, e) ↦
        let (l, m, same) = route_at-some [] ls r e in
        let is = (route_at-Memᴰ [] ls l checked m).2 in absurd (cc (rw same at is.slash))
  ]

  -- The routes of a valid config are those of its locations.
  dispatcher-routes :
      (config : NginxConfig) (ls : List (NginxLocation A)) (routes : Assoc (Route A H))
      → get_locations registry config ≡ returned (some ls)
      → dispatcher registry config ≡ some routes
      → (path : Bytes) → lookup path routes ≡ route_at path ls
  unfolding dispatcher lookup
  dispatcher-routes config ls routes valid made path =
      let created : routes_of registry (get_locations registry config) ≡ some routes = made in
      let same : routes ≡ add_locations registry ls [] = ground (arith, rw valid at created) in
      ap (λ m. lookup path m) same ∙ lookup-add_locations path ls []

  location_of-HasKey :
      (routes : Assoc (Route A H)) (ls : List (NginxLocation A)) (k : Bytes)
      → ((path : Bytes) → lookup path routes ≡ route_at path ls)
      → HasKey k routes
      → (l : NginxLocation A) × Memᴰ l ls × (l.path ≡ k)
  location_of-HasKey routes ls k all h =
      let (r, e) = lookup-HasKey k routes h in route_at-some k ls r (sym (all k) ∙ e)

  -- A URI that no location's path begins, gets the null pointer that `routes_` makes for the empty
  -- path.
  pub get_handler_unmatched :
      (config : NginxConfig) (ls : List (NginxLocation A)) (routes : Assoc (Route A H))
      (request : Request)
      → get_locations registry config ≡ returned (some ls)
      → dispatcher registry config ≡ some routes
      → ((l : NginxLocation A) → Memᴰ l ls → starts_with request.uri l.path ≡ false)
      → get_handler routes request ≡ none
  unfolding get_handler
  get_handler_unmatched config ls routes request valid made apart =
      let all = dispatcher-routes config ls routes valid made in
      let checked = get_locations-AreChecked registry config ls valid in
      let b = longest_prefix_match-IsLongest routes request.uri in
      elim b.found [
        | inl empty ↦ ap call (ap (λ p. lookup p routes) empty ∙ all [] ∙ route_at-empty ls checked)
        | inr (h, starts) ↦
            let (l, m, same) = location_of-HasKey routes ls _ all h in
            absurd (cc (apart l m, starts, same))
      ]

  -- The location whose path is the longest that begins the URI, makes the handler of the request.
  pub get_handler_matched :
      (config : NginxConfig) (ls : List (NginxLocation A)) (routes : Assoc (Route A H))
      (request : Request) (l : NginxLocation A) (factory : RequestHandlerFactory A H)
      → get_locations registry config ≡ returned (some ls)
      → dispatcher registry config ≡ some routes
      → Memᴰ l ls
      → starts_with request.uri l.path ≡ true
      → ((k : NginxLocation A)
          → Memᴰ k ls
          → starts_with request.uri k.path ≡ true
          → length k.path ≤ length l.path)
      → get_handler_factory l.handler registry ≡ some factory
      → get_handler routes request ≡ some (factory l.path l.args)
  unfolding get_handler
  get_handler_matched config ls routes request l factory valid made m starts longest found =
      let all = dispatcher-routes config ls routes valid made in
      let (_, at, checked) =
        route_at-Memᴰ [] ls l (get_locations-AreChecked registry config ls valid) m in
      let b = longest_prefix_match-IsLongest routes request.uri in
      let h = HasKey_of_lookup l.path routes _ (all l.path ∙ at) in
      let up = b.longest l.path h starts in
      let match : longest_prefix_match routes request.uri ≡ l.path = elim b.found [
        | inl empty ↦ empty ∙ sym (empty_of_length l.path (omega (arith, up, ap length empty)))
        | inr (h', begins) ↦
            let (k, mk, same) = location_of-HasKey routes ls _ all h' in
            starts_with_same request.uri _ l.path begins starts
              (omega (arith, up, longest k mk (rw same begins), ap length same))
      ] in
      ap call (ap (λ p. lookup p routes) match ∙ all l.path ∙ at) ∙ rw found refl

  -- A URI that does not begin with a slash has no route, whatever the config is.
  pub get_handler_without_slash :
      (config : NginxConfig) (ls : List (NginxLocation A)) (routes : Assoc (Route A H))
      (request : Request)
      → get_locations registry config ≡ returned (some ls)
      → dispatcher registry config ≡ some routes
      → front_is b'/' request.uri ≡ false
      → get_handler routes request ≡ none
  get_handler_without_slash config ls routes request valid made no_slash =
      get_handler_unmatched config ls routes request valid made (λ l m.
        elim (Bool-cases (starts_with request.uri l.path)) [
          | inl e ↦
              let is =
                (route_at-Memᴰ [] ls l (get_locations-AreChecked registry config ls valid) m).2 in
              absurd (cc (starts_slash request.uri l.path e is.slash, no_slash))
          | inr e ↦ e
        ])
