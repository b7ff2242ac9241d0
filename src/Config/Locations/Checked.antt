-- ===== src/Config/Locations/Checked.antt =====
-- What holds of the locations that `get_locations` returns.
use creeper_url_shortening_w.Config.{NginxConfigStatement, NginxConfig, tokens, statements}
use creeper_url_shortening_w.Config.Locations.{
  NginxLocation, Found, skip, add, invalid, thrown, crashed, made, create, is_quoted, exists_in,
  check_location, read_statement, locations_from, get_locations,
}
use creeper_url_shortening_w.Registry.{
  Registry, Created, returned, throws, undefined, CreateFromConfigFactory, get_create_from_config,
}
use creeper_url_shortening_w.Prelude.Text.{Bytes, codes, str_eq, str_eq_iff, front_is, back_is}
use creeper_url_shortening_w.Prelude.{
  Bool, true, false, not, ◌&&◌, ◌≡◌, refl, sym, ap, ◌∙◌, subst, ◌⊎◌, inl, inr, List, [], ◌∷◌, ◌++◌,
  Option, none, some, arith, if◌then◌else◌, Bool-cases, append-nil, append_assoc,
}

module _ {A H : Type 0} (registry : Registry A H) where
  -- The path begins with a slash and, unless it is "/", does not end with one; the arguments are what
  -- the handler's `create_from_config` made of a statement.
  pub record IsChecked (l : NginxLocation A) : Type 0 where
    pub slash : front_is b'/' l.path ≡ true
    pub no_trailing : (back_is b'/' l.path ≡ false) ⊎ (l.path ≡ codes "/")
    pub create_from_config : CreateFromConfigFactory A
    pub registered : get_create_from_config l.handler registry ≡ some create_from_config
    pub statement : NginxConfigStatement
    pub made_by : create_from_config statement ≡ returned (some l.args)

  -- Each is checked, and its path is not that of an earlier one.
  abbrev pub AreChecked : List (NginxLocation A) → List (NginxLocation A) → Type 0
  AreChecked earlier [] = Unit
  AreChecked earlier (l ∷ ls) =
      IsChecked l × (exists_in registry l.path earlier ≡ false) × AreChecked (earlier ++ l ∷ []) ls

  made_by :
      (path handler : Bytes) (s : NginxConfigStatement) (o : Option (CreateFromConfigFactory A))
      (l : NginxLocation A)
      → create registry path handler s o ≡ add l
      → (f : CreateFromConfigFactory A) × (o ≡ some f)
        × (f s ≡ returned (some l.args))
        × (l.path ≡ path)
        × (l.handler ≡ handler)
  made_by path handler s none l e = cc
  made_by path handler s (some f) l e = go (f s) refl e
    where
      go :
          (c : Created A)
          → f s ≡ c
          → made registry path handler c ≡ add l
          → (g : CreateFromConfigFactory A) × (some f ≡ some g)
            × (g s ≡ returned (some l.args))
            × (l.path ≡ path)
            × (l.handler ≡ handler)
      go (returned none) same h = cc
      go (returned (some args)) same h = (f, refl, ground arith, ground arith, ground arith)
      go throws same h = cc
      go undefined same h = cc

  -- The tests that a path passes where `check_location` adds a location.
  passes :
      (ls : List (NginxLocation A)) (s : NginxConfigStatement) (path handler : Bytes)
      (l : NginxLocation A)
      → check_location registry ls s path handler ≡ add l
      → (front_is b'/' path ≡ true)
        × (back_is b'/' path && not (str_eq path (codes "/")) ≡ false)
        × (exists_in registry path ls ≡ false)
        × (create registry path handler s (get_create_from_config handler registry) ≡ add l)
  unfolding check_location
  passes ls s path handler l e =
      go (is_quoted registry path) (back_is b'/' path && not (str_eq path (codes "/")))
        (front_is b'/' path) (exists_in registry path ls) e
    where
      go :
          (quoted trailing slash exists : Bool)
          → (if quoted
              then invalid
              else if trailing
              then invalid
              else if not slash
              then invalid
              else if exists
              then invalid
              else create registry path handler s (get_create_from_config handler registry))
            ≡ add l
          → (slash ≡ true)
            × (trailing ≡ false)
            × (exists ≡ false)
            × (create registry path handler s (get_create_from_config handler registry) ≡ add l)
      go false false true false h = (refl, refl, refl, h)
      go true _ _ _ h = cc
      go false true _ _ h = cc
      go false false false _ h = cc
      go false false true true h = cc

  no_trailing_or_root :
      (path : Bytes)
      → back_is b'/' path && not (str_eq path (codes "/")) ≡ false
      → (back_is b'/' path ≡ false) ⊎ (path ≡ codes "/")
  no_trailing_or_root path e = elim (Bool-cases (str_eq path (codes "/"))) [
    | inl same ↦ inr ((str_eq_iff path (codes "/")).0 same)
    | inr other ↦ inl (ground arith)
  ]

  check_location-add :
      (ls : List (NginxLocation A)) (s : NginxConfigStatement) (path handler : Bytes)
      (l : NginxLocation A)
      → check_location registry ls s path handler ≡ add l
      → IsChecked l × (exists_in registry l.path ls ≡ false)
  check_location-add ls s path handler l e =
      let tests = passes ls s path handler l e in
      let (f, found, result, same_path, same_handler) =
        made_by path handler s (get_create_from_config handler registry) l tests.3 in
      (
        record {
          slash = ap (front_is b'/') same_path ∙ tests.0;
          no_trailing =
              no_trailing_or_root l.path
                (ap (λ p. back_is b'/' p && not (str_eq p (codes "/"))) same_path ∙ tests.1);
          create_from_config = f;
          registered = ap (λ h. get_create_from_config h registry) same_handler ∙ found;
          statement = s;
          made_by = result;
        },
        ap (λ p. exists_in registry p ls) same_path ∙ tests.2,
      )

  read_statement-add :
      (ls : List (NginxLocation A)) (s : NginxConfigStatement) (words : List Bytes)
      (l : NginxLocation A)
      → read_statement registry ls s words ≡ add l
      → IsChecked l × (exists_in registry l.path ls ≡ false)
  unfolding read_statement
  read_statement-add ls s [] l e = cc
  read_statement-add ls s (first ∷ []) l e = ground arith
  read_statement-add ls s (first ∷ path ∷ []) l e = ground arith
  read_statement-add ls s (first ∷ path ∷ handler ∷ []) l e =
      elim (Bool-cases (str_eq first (codes "location"))) [
        | inl is ↦ check_location-add ls s path handler l (ground arith)
        | inr other ↦ ground arith
      ]
  read_statement-add ls s (first ∷ path ∷ handler ∷ x ∷ xs) l e = ground arith

  locations_from-AreChecked :
      (earlier : List (NginxLocation A)) (ss : List NginxConfigStatement)
      (ls : List (NginxLocation A))
      → locations_from registry earlier ss ≡ returned (some ls)
      → (more : List (NginxLocation A)) × (ls ≡ earlier ++ more) × AreChecked earlier more
  unfolding locations_from
  locations_from-AreChecked earlier [] ls e =
      let same : ls ≡ earlier = cc in ([], same ∙ sym (append-nil earlier), tt)
  locations_from-AreChecked earlier (s ∷ ss) ls e =
      go (read_statement registry earlier s (tokens s)) refl
        (λ before. locations_from-AreChecked before ss ls) e
    where
      go :
          (found : Found A)
          → read_statement registry earlier s (tokens s) ≡ found
          → ((before : List (NginxLocation A))
              → locations_from registry before ss ≡ returned (some ls)
              → (more : List (NginxLocation A)) × (ls ≡ before ++ more) × AreChecked before more)
          → (elim found [
            | skip ↦ locations_from registry earlier ss
            | add location ↦ locations_from registry (earlier ++ location ∷ []) ss
            | invalid ↦ returned none
            | thrown ↦ throws
            | crashed ↦ undefined
          ])
            ≡ returned (some ls)
          → (more : List (NginxLocation A)) × (ls ≡ earlier ++ more) × AreChecked earlier more
      go skip same rest h = rest earlier h
      go (add l) same rest h =
          let (more, eq, checked) = rest (earlier ++ l ∷ []) h in
          let (is, new) = read_statement-add earlier s (tokens s) l same in
          (l ∷ more, eq ∙ append_assoc earlier (l ∷ []) more, (is, new, checked))
      go invalid same rest h = cc
      go thrown same rest h = cc
      go crashed same rest h = cc

  -- Where `get_locations` is valid, every location was checked, its arguments were made for its
  -- handler, and no path occurs twice.
  pub get_locations-AreChecked :
      (config : NginxConfig) (ls : List (NginxLocation A))
      → get_locations registry config ≡ returned (some ls)
      → AreChecked [] ls
  unfolding get_locations
  get_locations-AreChecked config ls e =
      let (more, eq, checked) = locations_from-AreChecked [] (statements config) ls e in
      subst (AreChecked []) (sym eq) checked
