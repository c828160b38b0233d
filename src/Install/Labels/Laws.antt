-- ===== src/Install/Labels/Laws.antt =====
-- What the labels of an installed application say of its package.
use mathlib.Core.Option.{get_or}
use mantl_api.Prelude.{
  String, ◌≡◌, refl, ◌==◌, false, Option, none, some, [], arith, inl, inr, Bool-cases,
  if◌then◌else◌,
}
use mantl_api.Prelude.Dict.{Map, get, get-put}
use mantl_api.Prelude.Outcome.{Result, ok, err, panic, ok-injective, >>=-eq-ok}
use mantl_api.Json.{Codec}
use mantl_api.Marathon.{App}
use mantl_api.Install.Config.Definition.{PackageDefinition}
use mantl_api.Install.Config.Render.{Mustache, uninstall_json, load_balancer}
use mantl_api.Install.Labels.{
  Base64, label, put_name, copy_dcos, put_lb, mantl_labels, add_mantl_labels, package_name_key,
  package_version_key, package_index_key, package_is_framework_key, package_framework_name_key,
  package_uninstall_key, dcos_package_framework_name_key, traefik_enable_key,
}

get-put_lb :
    (lb : Result String) (m m' : Map String) (k : String)
    → put_lb lb m ≡ ok m'
    → (traefik_enable_key == k) ≡ false
    → get k m' ≡ get k m
unfolding put_lb
get-put_lb (ok lb) m m' k h e = rw (← ok-injective h, get-put, e) refl
get-put_lb (err x) m m' k h e = rw (ok-injective h) refl
get-put_lb panic m m' k h e = cc

-- the first of two values that is there
abbrev pub or_else : Option String → Option String → Option String
or_else none y = y
or_else (some x) y = some x

get-copy_dcos :
    (name : Option String) (m : Map String) (k : String)
    → get k (copy_dcos name m)
      ≡ (if package_framework_name_key == k then or_else name (get k m) else get k m)
unfolding copy_dcos
get-copy_dcos none m k = elim (Bool-cases (package_framework_name_key == k)) [
  | inl e ↦ rw e refl
  | inr e ↦ rw e refl
]
get-copy_dcos (some v) m k = get-put package_framework_name_key k v m

get-put_name :
    (name : String) (m : Map String) (k : String)
    → get k (put_name name m) ≡ (
        if name == ""
        then get k m
        else if package_framework_name_key == k
        then some name
        else get k m)
unfolding put_name
get-put_name name m k = elim (Bool-cases (name == "")) [
  | inl e ↦ rw e refl
  | inr e ↦ rw e (get-put package_framework_name_key k name m)
]

module _ {N : Type 0} (c : Codec N) (mustache : Mustache N) (b : Base64) where
  -- the lookups in the labels that are made of a map of labels
  mantl_labels-get :
      (d : PackageDefinition N) (u : String) (lb : Result String) (m m' : Map String)
      → mantl_labels c mustache b d u lb m ≡ ok m'
      → (get package_name_key m' ≡ some d.name)
        × (get package_version_key m' ≡ some d.version)
        × (get package_index_key m' ≡ some d.release)
        × (get package_uninstall_key m' ≡ some (b.encode u))
  unfolding mantl_labels
  mantl_labels-get d u lb m m' h = (
    rw (get-put_lb lb _ m' package_name_key h refl)
        (simp (get-copy_dcos, get-put_name, get-put) (ground arith)),
    rw (get-put_lb lb _ m' package_version_key h refl)
        (simp (get-copy_dcos, get-put_name, get-put) (ground arith)),
    rw (get-put_lb lb _ m' package_index_key h refl)
        (simp (get-copy_dcos, get-put_name, get-put) (ground arith)),
    rw (get-put_lb lb _ m' package_uninstall_key h refl)
        (simp (get-copy_dcos, get-put_name, get-put) (ground arith)),
  )

  -- a key that is none of the program's own
  abbrev Foreign : String → Type 0
  Foreign k =
      ((package_name_key == k) ≡ false)
      × ((package_version_key == k) ≡ false)
      × ((package_index_key == k) ≡ false)
      × ((package_is_framework_key == k) ≡ false)
      × ((package_uninstall_key == k) ≡ false)
      × ((package_framework_name_key == k) ≡ false)
      × ((traefik_enable_key == k) ≡ false)

  mantl_labels-keeps :
      (d : PackageDefinition N) (u : String) (lb : Result String) (m m' : Map String) (k : String)
      → mantl_labels c mustache b d u lb m ≡ ok m'
      → Foreign k
      → get k m' ≡ get k m
  unfolding mantl_labels
  mantl_labels-keeps d u lb m m' k h (e1, e2, e3, e4, e5, e6, e7) =
      rw (get-put_lb lb _ m' k h e7)
        (simp (get-copy_dcos, get-put_name, get-put, e1, e2, e3, e4, e5, e6) (ground arith))

  mantl_labels-framework :
      (d : PackageDefinition N) (u : String) (lb : Result String) (m m' : Map String)
      → mantl_labels c mustache b d u lb m ≡ ok m'
      → get package_framework_name_key m ≡ none
      → get package_framework_name_key m'
        ≡ or_else
            (get dcos_package_framework_name_key m)
            (if d.framework_name == "" then none else some d.framework_name)
  unfolding mantl_labels
  mantl_labels-framework d u lb m m' h e =
      rw (get-put_lb lb _ m' package_framework_name_key h refl) (
        simp (get-copy_dcos, get-put_name, get-put, e)
          (elim (Bool-cases (d.framework_name == "")) [ inl p ↦ rw p refl | inr p ↦ rw p refl ]))

  -- The application that `addMantlLabels` returns carries the package's name, its version and the
  -- index of that version, and the encoded text of the rendered `uninstall.json`.
  pub add_mantl_labels-label :
      (app labelled : App N) (d : PackageDefinition N)
      → add_mantl_labels c mustache b app d ≡ ok labelled
      → (u : String) × (uninstall_json c mustache d ≡ ok u)
        × (label package_name_key labelled ≡ d.name)
        × (label package_version_key labelled ≡ d.version)
        × (label package_index_key labelled ≡ d.release)
        × (label package_uninstall_key labelled ≡ b.encode u)
  unfolding add_mantl_labels label
  add_mantl_labels-label app labelled d h =
      let (u, e, h1) = >>=-eq-ok (uninstall_json c mustache d) _ h in
      let (m, g, h2) =
        >>=-eq-ok
          (mantl_labels c mustache b d u (load_balancer c mustache d) (get_or app.labels [])) _
          h1 in
      let (p, q, r, s) =
        mantl_labels-get d u (load_balancer c mustache d) (get_or app.labels []) m g in
      (
        u,
        e,
        rw (← ok-injective h2, p) refl,
        rw (← ok-injective h2, q) refl,
        rw (← ok-injective h2, r) refl,
        rw (← ok-injective h2, s) refl,
      )

  -- `addMantlLabels` changes no part of the application but its labels, and of those only the
  -- program's own: the label of another key is what it was.
  pub add_mantl_labels-keeps :
      (app labelled : App N) (d : PackageDefinition N) (k : String)
      → add_mantl_labels c mustache b app d ≡ ok labelled
      → Foreign k
      → ((record app { labels = labelled.labels }) ≡ labelled)
        × (get k (get_or labelled.labels []) ≡ get k (get_or app.labels []))
  unfolding add_mantl_labels
  add_mantl_labels-keeps app labelled d k h f =
      let (u, e, h1) = >>=-eq-ok (uninstall_json c mustache d) _ h in
      let (m, g, h2) =
        >>=-eq-ok
          (mantl_labels c mustache b d u (load_balancer c mustache d) (get_or app.labels [])) _
          h1 in
      let p = ok-injective h2 in
      (
        rw (← p) refl,
        rw (← p)
            (mantl_labels-keeps d u (load_balancer c mustache d) (get_or app.labels []) m k g f),
      )

  pub add_mantl_labels-framework :
      (app labelled : App N) (d : PackageDefinition N)
      → add_mantl_labels c mustache b app d ≡ ok labelled
      → get package_framework_name_key (get_or app.labels []) ≡ none
      → get package_framework_name_key (get_or labelled.labels [])
        ≡ or_else
            (get dcos_package_framework_name_key (get_or app.labels []))
            (if d.framework_name == "" then none else some d.framework_name)
  unfolding add_mantl_labels
  add_mantl_labels-framework app labelled d h fresh =
      let (u, e, h1) = >>=-eq-ok (uninstall_json c mustache d) _ h in
      let (m, g, h2) =
        >>=-eq-ok
          (mantl_labels c mustache b d u (load_balancer c mustache d) (get_or app.labels [])) _
          h1 in
      rw (← ok-injective h2)
        (mantl_labels-framework d u (load_balancer c mustache d) (get_or app.labels []) m g fresh)
