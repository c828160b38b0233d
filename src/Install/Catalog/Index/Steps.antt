-- ===== src/Install/Catalog/Index/Steps.antt =====
-- What the loop over the keys of a package leaves true of the package.
use Prim.Native.String as S
use mathlib.Core.Path.{subst}
use mantl_api.Prelude.{String, Bool, false, ◌≡◌, ap, Option, none, some, List, [], ◌∷◌}
use mantl_api.Prelude.Dict.{put}
use mantl_api.Prelude.Outcome.{Result, ok, ok-injective}
use mantl_api.Prelude.Outcome as R
use mantl_api.Prelude.Exec.{lift, >>=-eq-ok}
use mantl_api.Json as J
use mantl_api.Json.{Value, null, bool, num, str, arr, obj, Fields, Codec}
use mantl_api.Consul.{Consul}
use mantl_api.Install.Package.{Package}
use mantl_api.Install.Repository.{last_part}
use mantl_api.Install.Catalog.Index.{
  Found, must_string, must_bool, must_strings, description_in, framework_in, tags_in, version_in,
  apply_meta, apply_found, key_exists, package_meta, index_keys,
}

-- A predicate that the assignments of `packagesIndex` to a package keep.
pub record IsKept (P : Package → Type 0) : Type 0 where
  pub described : (p : Package) (s : String) → P p → P (record p { description = s })
  pub framed : (p : Package) (b : Bool) → P p → P (record p { framework = b })
  pub tagged : (p : Package) (ts : List String) → P p → P (record p { tags = ts })
  pub versioned :
      (p : Package) (version index : String)
      → P p
      → P (record p {
        versions =
            put version (record { version = version; index = index; supported = false }) p.versions;
      })

-- A result that, if it is a package, satisfies the predicate.
abbrev Keeps : (Package → Type 0) → Result Package → Type 0
Keeps P r = (q : Package) → r ≡ ok q → P q

module _ {N : Type 0} (P : Package → Type 0) (kept : IsKept P) where
  description_in-Keeps : (o : Option (Value N)) (p : Package) → P p → Keeps P (description_in o p)
  unfolding description_in
  description_in-Keeps none p k q h = subst P (ok-injective h) k
  description_in-Keeps (some v) p k q h =
      let (s, _, e) = R.>>=-eq-ok (must_string v) _ h in
      subst P (ok-injective e) (kept.described p s k)

  framework_in-Keeps : (o : Option (Value N)) (p : Package) → P p → Keeps P (framework_in o p)
  unfolding framework_in
  framework_in-Keeps none p k q h = subst P (ok-injective h) k
  framework_in-Keeps (some v) p k q h =
      let (b, _, e) = R.>>=-eq-ok (must_bool v) _ h in subst P (ok-injective e) (kept.framed p b k)

  tags_in-Keeps : (o : Option (Value N)) (p : Package) → P p → Keeps P (tags_in o p)
  unfolding tags_in
  tags_in-Keeps (some (arr vs)) p k q h =
      let (ts, _, e) = R.>>=-eq-ok (must_strings vs) _ h in
      subst P (ok-injective e) (kept.tagged p ts k)
  tags_in-Keeps _ p k q h = subst P (ok-injective h) k

  version_in-Keeps :
      (o : Option (Value N)) (index : String) (p : Package) → P p → Keeps P (version_in o index p)
  unfolding version_in
  version_in-Keeps none index p k q h = cc
  version_in-Keeps (some v) index p k q h =
      let (s, _, e) = R.>>=-eq-ok (must_string v) _ h in
      subst P (ok-injective e) (kept.versioned p s index k)

  apply_found-Keeps :
      (o : Option (Fields N)) (index : String) (p : Package) → P p → Keeps P (apply_found o index p)
  unfolding apply_found apply_meta
  apply_found-Keeps none index p k q h = subst P (ok-injective h) k
  apply_found-Keeps (some meta) index p k q h =
      let (p1, a, h1) = R.>>=-eq-ok (description_in (J.get "description" meta) p) _ h in
      let (p2, b, h2) = R.>>=-eq-ok (framework_in (J.get "framework" meta) p1) _ h1 in
      let (p3, c, h3) = R.>>=-eq-ok (tags_in (J.get "tags" meta) p2) _ h2 in
      version_in-Keeps (J.get "version" meta) index p3
        (tags_in-Keeps (J.get "tags" meta) p2
          (framework_in-Keeps (J.get "framework" meta) p1
            (description_in-Keeps (J.get "description" meta) p k p1 a) p2 b)
          p3 c)
        q h3

module _ {W N : Type 0} (consul : Consul W) (c : Codec N) (P : Package → Type 0)
    (kept : IsKept P) where
  -- The loop over the keys of a package keeps such a predicate.
  pub index_keys-Keeps :
      (ks : List String) (found f : Found) (w w' : W)
      → P found.pkg
      → index_keys consul c ks found w ≡ (ok f, w')
      → P f.pkg
  unfolding index_keys
  index_keys-Keeps [] found f w w' k h =
      subst (λ (g : Found). P g.pkg) (ok-injective (ap (λ z. z.0) h)) k
  index_keys-Keeps (key ∷ ks) found f w w' k h =
      let (has, w1, a, h1) = >>=-eq-ok _ (key_exists consul c (S.◌++◌ key "mantl.json")) w h in
      let (meta, w2, b, h2) = >>=-eq-ok _ (package_meta consul c key) w1 h1 in
      let (p, w3, d, h3) = >>=-eq-ok _ (lift (apply_found meta (last_part key) found.pkg)) w2 h2 in
      index_keys-Keeps ks _ f w3 w'
        (apply_found-Keeps P kept meta (last_part key) found.pkg k p (ap (λ z. z.0) d)) h3
