-- ===== src/Zookeeper.antt =====
-- zookeeper/zookeeper.go: the deletion of a tree of nodes. The client of ZooKeeper is a third-party
-- package. The walk goes as deep as the tree: `fuel` is the depth at which Go's stack is exhausted,
-- which ends the process.
pub mod Laws
pub mod Tree
use Prim.Native.String.{◌++◌}
use mantl_api.Prelude.{ℕ, zero, suc, String, List, [], ◌∷◌, ◌++◌ as ◌<>◌, reverse}
use mantl_api.Prelude.Sort.{sort}
use mantl_api.Prelude.Text.{less, trim_prefix}
use mantl_api.Prelude.Slash.{path_join}
use mantl_api.Prelude.Outcome.{panic}
use mantl_api.Prelude.Exec.{Exec, pure, fail, lift, ◌>>=◌, ◌>>◌, attempt}

pub record ZkClient (W : Type 0) : Type 0 where
  -- `zk.Connect`, and `conn.Close`
  pub connect : List String → Exec W (Unit {0})
  pub close : Exec W (Unit {0})
  pub children : String → Exec W (List String)
  -- `conn.Delete` of any version
  pub delete : String → Exec W (Unit {0})

module _ {W : Type 0} (zk : ZkClient W) where
  -- the loop of `znodeTree` over the children, with the walk below a child
  unfoldable pub walk :
      (String → String → Exec W (List String))
      → String
      → String
      → List String
      → Exec W (List String)
  walk below key next [] = pure []
  walk below key next (child ∷ more) =
      let next_child = path_join (next ∷ child ∷ []) in
      below (path_join (key ∷ child ∷ [])) next_child >>= λ nested.
      walk below key next more >>= λ rest. pure (next_child ∷ (nested <> rest))

  -- `znodeTree`: the nodes below a node, relative to it, each before the nodes below it
  unfoldable pub znode_tree : ℕ → String → String → Exec W (List String)
  znode_tree zero key next = lift panic
  znode_tree (suc fuel) key next =
      let below = znode_tree fuel in zk.children key >>= λ cs. walk below key next (sort less cs)

  -- `connect`
  abbrev connect : List String → Exec W (Unit {0})
  connect servers = zk.connect servers

  -- `deleteNode`
  abbrev delete_node : String → Exec W (Unit {0})
  delete_node key_path = zk.delete key_path

  -- the loop of `deleteTree`: a node that cannot be deleted is passed over
  unfoldable pub delete_each : String → List String → Exec W (Unit {0})
  delete_each key [] = pure tt
  delete_each key (node ∷ more) =
      attempt (delete_node (key ++ "/" ++ node)) (λ _. delete_each key more)
        (λ e. delete_each key more)

  -- `deleteTree`
  unfoldable pub delete_tree : ℕ → String → Exec W (Unit {0})
  delete_tree fuel key =
      znode_tree fuel key "" >>= λ nodes. delete_each key (reverse nodes) >> delete_node key

  -- the deferred `conn.Close`, which keeps the result
  unfoldable pub then_close : Exec W (Unit {0}) → Exec W (Unit {0})
  then_close m w = let (r, w') = m w in (r, (zk.close w').1)

  -- `Delete`
  unfoldable pub delete : List String → ℕ → String → Exec W (Unit {0})
  unfolding then_close
  delete servers fuel key_path =
      connect servers >> then_close (delete_tree fuel (trim_prefix key_path "zk:"))
