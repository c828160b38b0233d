-- ===== src/Install/Operations/Removal.antt =====
-- What fails a removal and what does not, and the nodes that it deletes.
use mathlib.Core.Path.{fun_ext}
use mantl_api.Prelude.{
  String, ◌≡◌, refl, ◌≢◌, ap, ◌==◌, false, Option, none, some, List, [], ◌∷◌, map, ◌⊎◌, inl, inr,
  Bool-cases, if◌then◌else◌,
}
use mantl_api.Prelude.Lists.{select}
use mantl_api.Prelude.Exec.Attempts.{Attempts, finished, returned, failed, outcomes}
use mantl_api.Zookeeper.{delete}
use mantl_api.Prelude.Outcome.{Result, ok, err, panic}
use mantl_api.Prelude.Exec.{Exec, pure, ◌>>=◌, attempt, >>=-eq-err}
use mantl_api.Marathon.{App, destroy_app}
use mantl_api.Mesos.{Mesos, shutdown_framework_by_name}
use mantl_api.Install.Labels.{add_mantl_labels}
use mantl_api.Install.Labels.Laws.{add_mantl_labels-label}
use mantl_api.Install.Config.Definition.{PackageDefinition}
use mantl_api.Install.Config.Render.{uninstall_json}
use mantl_api.Install.Operations.{
  Env, Install, ZookeeperNode, framework_name, delete_nodes, post_uninstall, shutdown_named,
  uninstall_package,
}

-- an attempt whose two continuations succeed does not fail
module _ {W A : Type 0} where
  settled-ne-err :
      (r : Result A) (w1 w' : W) (e : String)
      → attempt (λ (v : W). (r, v)) (λ _. pure tt) (λ x. pure tt) w1 ≡ (err e, w')
      → ⊥
  settled-ne-err (ok a) w1 w' e p = cc (ap (λ q. q.0) p)
  settled-ne-err (err x) w1 w' e p = cc (ap (λ q. q.0) p)
  settled-ne-err panic w1 w' e p = cc (ap (λ q. q.0) p)

  attempt-ne-err :
      (m : Exec W A) (w w' : W) (e : String)
      → attempt m (λ _. pure tt) (λ x. pure tt) w ≡ (err e, w')
      → ⊥
  attempt-ne-err m w w' e h = settled-ne-err (m w).0 (m w).1 w' e h

module _ {W N : Type 0} (env : Env W N) (i : Install N) where
  shutdown_named-eq-err :
      (mesos : Option Mesos) (name : String) (w : W) {e : String} {w' : W}
      → shutdown_named env mesos name w ≡ (err e, w')
      → (m : Mesos) × (mesos ≡ some m)
        × (shutdown_framework_by_name env.net env.state_decoder m name w ≡ (err e, w'))
  unfolding shutdown_named
  shutdown_named-eq-err none name w h = cc (ap (λ q. q.0) h)
  shutdown_named-eq-err (some m) name w h = (m, refl, h)

  -- If `UninstallPackage` returns an error, then either the application was not destroyed, with that
  -- error, and nothing else was done; or it was destroyed and the shutdown of its framework failed with
  -- that error, and nothing was done after that. What follows the shutdown never fails a removal.
  pub uninstall_package-eq-err :
      (app : App N) (e : String) (w w' : W)
      → uninstall_package env i (some app) w ≡ (err e, w')
      → (destroy_app env.net env.app_codec i.marathon app.id w ≡ (err e, w'))
        ⊎ ((text : String) × (w1 : W) × (m : Mesos) × (destroy_app env.net env.app_codec i.marathon
                app.id w
              ≡ (ok text, w1))
            × ((framework_name env app == "") ≡ false)
            × (i.mesos ≡ some m)
            × (shutdown_framework_by_name env.net env.state_decoder m (framework_name env app) w1
                ≡ (err e, w')))
  unfolding uninstall_package
  uninstall_package-eq-err app e w w' h =
      elim (>>=-eq-err _ (destroy_app env.net env.app_codec i.marathon app.id) w h) [
        | inl p ↦ inl p
        | inr (text, w1, p, q) ↦
            elim (>>=-eq-err _
              (if framework_name env app == ""
                then pure tt
                else shutdown_named env i.mesos (framework_name env app))
              w1 q) [
                | inr (u, w2, r, s) ↦ absurd (attempt-ne-err (post_uninstall env i app) w2 w' e s)
                | inl r ↦ elim (Bool-cases (framework_name env app == "")) [
                  | inl t ↦ cc (ap (λ z. z.0) (rw t at r))
                  | inr t ↦
                      let (m, a, b) =
                        shutdown_named-eq-err i.mesos (framework_name env app) w1 (rw t at r) in
                      inr (text, w1, m, p, t, a, b)
                ]
              ]
      ]

  -- Deleting the nodes of a removal never returns an error, whatever ZooKeeper answers.
  delete_nodes-ne-err :
      (nodes : List ZookeeperNode) (e : String) (w w' : W)
      → delete_nodes env i nodes w ≡ (err e, w')
      → ⊥
  unfolding delete_nodes
  delete_nodes-ne-err [] e w w' h = cc (ap (λ q. q.0) h)
  delete_nodes-ne-err (node ∷ nodes) e w w' h =
      elim (>>=-eq-err _
        (if node.always
          then attempt (delete env.zk i.zk_servers env.stack node.path) (λ _. pure tt)
              (λ x. pure tt)
          else pure tt)
        w h) [
          | inr (u, w1, p, q) ↦ delete_nodes-ne-err nodes e w1 w' q
          | inl p ↦ elim (Bool-cases node.always) [
            | inl t ↦
                attempt-ne-err (delete env.zk i.zk_servers env.stack node.path) w w' e (rw t at p)
            | inr t ↦ cc (ap (λ z. z.0) (rw t at p))
          ]
        ]

  same :
      (nodes : List ZookeeperNode) (w : W)
      → delete_nodes env i nodes w ≡ delete_nodes env i (select (λ node. node.always) nodes) w
  unfolding delete_nodes select
  same [] w = refl
  same (node ∷ nodes) w = elim (Bool-cases node.always) [
    | inl t ↦ rw t (
        ap
          (λ (k : Exec W (Unit {0})).
            (attempt (delete env.zk i.zk_servers env.stack node.path) (λ _. pure tt) (λ x. pure tt)
                >>= λ _. k)
              w)
          (fun_ext λ v. same nodes v))
    | inr t ↦ rw t (same nodes w)
  ]

  -- The deletion of a list of nodes is that of the nodes in it that are marked `always`, in order, and
  -- returns no error whatever ZooKeeper answers.
  pub delete_nodes-select :
      (nodes : List ZookeeperNode) (w : W)
      → (delete_nodes env i nodes w ≡ delete_nodes env i (select (λ node. node.always) nodes) w)
        × ((e : String) (w' : W) → delete_nodes env i nodes w ≢ (err e, w'))
  delete_nodes-select nodes w = (same nodes w, λ e w' h. delete_nodes-ne-err nodes e w w' h)

  -- the paths of the nodes that are marked `always`
  abbrev pub always_paths : List ZookeeperNode → List String
  always_paths nodes =
      map (λ (node : ZookeeperNode). node.path) (select (λ node. node.always) nodes)

  -- the deletion of a path in a tree of ZooKeeper
  abbrev pub delete_path : String → Exec W (Unit {0})
  delete_path path = delete env.zk i.zk_servers env.stack path

  abbrev pub NoPanic : Type 0
  NoPanic = (path : String) (w : W) → (delete_path path w).0 ≢ panic

  -- The nodes that are marked `always` are deleted one after the other, whatever fails.
  delete_nodes-Attempts :
      NoPanic
      → (nodes : List ZookeeperNode) (w : W)
      → (w' : W) × (delete_nodes env i nodes w ≡ (ok tt, w'))
        × Attempts delete_path (always_paths nodes) w w'
  unfolding delete_nodes select
  delete_nodes-Attempts total [] w = (w, refl, finished)
  delete_nodes-Attempts total (node ∷ nodes) w = elim (Bool-cases node.always) [
    | inr t ↦ rw t (delete_nodes-Attempts total nodes w)
    | inl t ↦
        let w1 = (delete_path node.path w).1 in
        let (w', p, q) = delete_nodes-Attempts total nodes w1 in
        elim (outcomes delete_path node.path w (delete_path node.path w).0 w1 refl
          (total node.path w)) [
            | inl (a, h) ↦ rw t (w', rw h p, returned a h q)
            | inr (e, h) ↦ rw t (w', rw h p, failed e h q)
          ]
  ]

  -- If the `uninstall.json` of a package renders to a text that holds a list of nodes, that text is
  -- decoded from its encoding, which is not empty, and no deletion in ZooKeeper panics, then the
  -- clean-up of an application that was given the labels of the package succeeds, and what it did is to
  -- call the deletion of each of those nodes that is marked `always`, in order and whatever the ones
  -- before returned, and nothing else.
  pub post_uninstall-add_mantl_labels :
      (app labelled : App N) (d : PackageDefinition N) (u : String) (nodes : List ZookeeperNode)
      (w : W)
      → add_mantl_labels env.codec env.mustache env.base64 app d ≡ ok labelled
      → uninstall_json env.codec env.mustache d ≡ ok u
      → env.uninstall_nodes u ≡ ok nodes
      → env.base64.decode (env.base64.encode u) ≡ ok u
      → (env.base64.encode u == "") ≡ false
      → NoPanic
      → (w' : W) × (post_uninstall env i labelled w ≡ (ok tt, w'))
        × Attempts delete_path (always_paths nodes) w w'
  unfolding post_uninstall
  post_uninstall-add_mantl_labels app labelled d u nodes w h rendered parsed back filled total =
      let (v, a, p, q, r, s) =
        add_mantl_labels-label env.codec env.mustache env.base64 app labelled d h in
      let same_text : v ≡ u = cc (a, rendered) in
      rw (s, same_text, filled, back, parsed) (delete_nodes-Attempts total nodes w)
