-- ===== src/Trie/Node.antt =====
-- component/trie/node.go
use clash_for_android.Prelude.{Option, none, some, Bytes, bytes_eq, if◌then◌else◌}

mutual
  -- A node holds its data once it is set. No node is reached by two ways, so that a change in place
  -- is a change of the tree.
  pub data Node (T : Type 0) : Type 0 where
    mk_node : Children T → Option T → Node T

  -- No child; one, by `childStr` and `childNode`; or `childMap`.
  pub data Children (T : Type 0) : Type 0 where
    no_child : Children T
    child_node : Bytes → Node T → Children T
    child_map : Entries T → Children T

  pub data Entries (T : Type 0) : Type 0 where
    end : Entries T
    entry : Bytes → Node T → Entries T → Entries T

module _ {T : Type 0} where
  abbrev pub find_entry : Bytes → Entries T → Option (Node T)
  find_entry s end = none
  find_entry s (entry k n es) = if bytes_eq k s then some n else find_entry s es

  abbrev pub find_child : Bytes → Children T → Option (Node T)
  find_child s no_child = none
  find_child s (child_node k n) = if bytes_eq k s then some n else none
  find_child s (child_map es) = find_entry s es

  -- `getChild`
  unfoldable pub get_child : Bytes → Node T → Option (Node T)
  get_child s (mk_node cs d) = find_child s cs

  abbrev pub put_entry : Bytes → Node T → Entries T → Entries T
  put_entry s c end = entry s c end
  put_entry s c (entry k n es) = if bytes_eq k s then entry k c es else entry k n (put_entry s c es)

  abbrev pub add_to : Bytes → Node T → Children T → Children T
  add_to s c no_child = child_node s c
  add_to s c (child_node k n) = child_map (put_entry s c (entry k n end))
  add_to s c (child_map es) = child_map (put_entry s c es)

  -- `addChild`, of a name that has no child.
  unfoldable pub add_child : Bytes → Node T → Node T → Node T
  add_child s c (mk_node cs d) = mk_node (add_to s c cs) d

  -- `newNode`
  abbrev pub new_node : Node T
  new_node = mk_node no_child none

  abbrev pub or_new : Option (Node T) → Node T
  or_new none = new_node
  or_new (some n) = n

  abbrev pub replace_in : Bytes → Node T → Children T → Children T
  replace_in s c no_child = no_child
  replace_in s c (child_node k n) = if bytes_eq k s then child_node k c else child_node k n
  replace_in s c (child_map es) = child_map (put_entry s c es)

  -- A change of the child of a name that has one, through the pointer to it.
  unfoldable pub replace_child : Bytes → Node T → Node T → Node T
  replace_child s c (mk_node cs d) = mk_node (replace_in s c cs) d

  abbrev pub added : Bytes → Option (Node T) → Node T → Node T
  added s none n = add_child s new_node n
  added s (some c) n = n

  -- `getOrNewChild`: the child, and the node with it.
  unfoldable pub get_or_new_child : Bytes → Node T → Node T × Node T
  unfolding get_child add_child
  get_or_new_child s n = let found = get_child s n in (or_new found, added s found n)

  -- `isEmpty` and `Data`
  abbrev pub data_of : Node T → Option T
  data_of (mk_node cs d) = d

  unfoldable pub set_data : T → Node T → Node T
  set_data v (mk_node cs d) = mk_node cs (some v)

unfoldable mutual
  -- `optimize`
  pub optimize : {T : Type 0} → Node T → Node T
  optimize (mk_node cs d) = mk_node (optimize_children cs) d

  pub optimize_children : {T : Type 0} → Children T → Children T
  optimize_children no_child = no_child
  optimize_children (child_node k n) = child_node k (optimize n)
  optimize_children (child_map end) = no_child
  optimize_children (child_map (entry k n end)) = child_node k (optimize n)
  optimize_children (child_map (entry k n (entry j m es))) =
      child_map (entry k (optimize n) (entry j (optimize m) (optimize_entries es)))

  pub optimize_entries : {T : Type 0} → Entries T → Entries T
  optimize_entries end = end
  optimize_entries (entry k n es) = entry k (optimize n) (optimize_entries es)
