-- ===== src/Zookeeper/Tree.antt =====
-- The nodes that `znodeTree` lists and the order in which `deleteTree` deletes them, for a tree of any
-- shape that the connection shows.
use mantl_api.Prelude.{ℕ, suc, String, ◌≡◌, List, [], ◌∷◌, ◌++◌, ltb, if◌then◌else◌}
use mantl_api.Prelude.Sort.{sort}
use mantl_api.Prelude.Text.{less}
use mantl_api.Prelude.Slash.{path_join}
use mantl_api.Prelude.Outcome.{ok}
use mantl_api.Zookeeper.{ZkClient}

-- the nodes below a node: the first by its name with those below it, and its siblings
pub data Forest : Type 0 where
  bare : Forest
  tree : String → Forest → Forest → Forest

abbrev pub roots : Forest → List String
roots bare = []
roots (tree name below more) = name ∷ roots more

abbrev pub depth : Forest → ℕ
depth bare = 0
depth (tree name below more) =
    if ltb (depth below) (depth more) then depth more else suc (depth below)

-- each node, and then those below it
abbrev pub top_down : String → Forest → List String
top_down next bare = []
top_down next (tree name below more) =
    path_join (next ∷ name ∷ [])
    ∷ (top_down (path_join (next ∷ name ∷ [])) below ++ top_down next more)

-- the last sibling first, and each node after those below it
abbrev pub bottom_up : String → Forest → List String
bottom_up next bare = []
bottom_up next (tree name below more) =
    bottom_up next more
    ++ (bottom_up (path_join (next ∷ name ∷ [])) below ++ path_join (next ∷ name ∷ []) ∷ [])

module _ {W : Type 0} (zk : ZkClient W) (w : W) where
  -- The connection shows the children of a node, in any order, and is left as it was.
  abbrev pub Shows : String → Forest → Type 0
  Shows key f = (cs : List String) × (zk.children key w ≡ (ok cs, w)) × (sort less cs ≡ roots f)

  abbrev pub Below : String → Forest → Type 0
  Below key bare = Unit
  Below key (tree name below more) =
      Shows (path_join (key ∷ name ∷ [])) below
      × Below (path_join (key ∷ name ∷ [])) below
      × Below key more
