-- ===== src/Zookeeper/Laws.antt =====
-- What fails the deletion of a tree of nodes.
use Prim.Native.String.{◌++◌}
use mathlib.Core.Path.{subst}
use mantl_api.Prelude.{ℕ, String, ◌≡◌, ap, List, [], ◌∷◌, map, reverse, inl, inr, ◌⊎◌}
use mantl_api.Prelude.Outcome.{ok, err}
use mantl_api.Prelude.Exec.{>>=-eq-err, attempt-eq-err}
use mantl_api.Prelude.Exec.Attempts.{Attempts, finished, attempt-Attempts}
use mantl_api.Zookeeper.{ZkClient, znode_tree, delete_each, delete_tree}

module _ {W : Type 0} (zk : ZkClient W) where
  delete_each-ne-err :
      (key : String) (nodes : List String) (e : String) (w w' : W)
      → delete_each zk key nodes w ≡ (err e, w')
      → ⊥
  unfolding delete_each
  delete_each-ne-err key [] e w w' h = cc (ap (λ p. p.0) h)
  delete_each-ne-err key (n ∷ nodes) e w w' h =
      let (w1, p) = attempt-eq-err _ _ (zk.delete (key ++ "/" ++ n)) w h in
      elim p [
        | inl (u, q) ↦ delete_each-ne-err key nodes e w1 w' q
        | inr (x, q) ↦ delete_each-ne-err key nodes e w1 w' q
      ]

  delete_each-Attempts :
      (key : String) (nodes : List String) (w w' : W)
      → delete_each zk key nodes w ≡ (ok tt, w')
      → Attempts zk.delete (map (λ node. key ++ "/" ++ node) nodes) w w'
  unfolding delete_each
  delete_each-Attempts key [] w w' h =
      subst (λ v. Attempts zk.delete [] w v) (ap (λ z. z.1) h) finished
  delete_each-Attempts key (n ∷ nodes) w w' h =
      attempt-Attempts zk.delete (key ++ "/" ++ n) (map (λ node. key ++ "/" ++ node) nodes)
        (delete_each zk key nodes) w w' h (λ w1 q. delete_each-Attempts key nodes w1 w' q)

  -- If `deleteTree` returns an error, then either the nodes below could not be listed, with that error,
  -- and none was deleted, or they were listed, the deletion of each of them was called, in the order
  -- opposite to the listing and whatever the ones before returned, and it is the error of deleting the
  -- node itself. The failed deletion of a node below fails nothing.
  pub delete_tree-eq-err :
      (fuel : ℕ) (key e : String) (w w' : W)
      → delete_tree zk fuel key w ≡ (err e, w')
      → (znode_tree zk fuel key "" w ≡ (err e, w'))
        ⊎ ((nodes : List String) × (w1 : W) × (w2 : W) × (znode_tree zk fuel key "" w
              ≡ (ok nodes, w1))
            × Attempts zk.delete (map (λ node. key ++ "/" ++ node) (reverse nodes)) w1 w2
            × (zk.delete key w2 ≡ (err e, w')))
  unfolding delete_tree
  delete_tree-eq-err fuel key e w w' h = elim (>>=-eq-err _ (znode_tree zk fuel key "") w h) [
    | inl p ↦ inl p
    | inr (nodes, w1, p, q) ↦ elim (>>=-eq-err _ (delete_each zk key (reverse nodes)) w1 q) [
      | inl r ↦ absurd (delete_each-ne-err key (reverse nodes) e w1 w' r)
      | inr (u, w2, r, s) ↦
          inr (nodes, w1, w2, p, delete_each-Attempts key (reverse nodes) w1 w2 r, s)
    ]
  ]
