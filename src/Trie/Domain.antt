-- ===== src/Trie/Domain.antt =====
-- component/trie/domain.go
use mathlib.Core.List.{reverse}
use clash_for_android.Prelude.{
  ℕ, Bool, true, false, ◌||◌, Option, none, some, List, [], ◌∷◌, Bytes, bytes_eq, ◌==◌,
  if◌then◌else◌, split, is_space, lower, map, any,
}
use clash_for_android.Trie.Node.{
  Node, get_child, get_or_new_child, replace_child, set_data, data_of, Children, no_child,
  child_node, child_map, end, entry,
}

abbrev pub wildcard : Bytes
wildcard = b'*' ∷ []

abbrev pub dot_wildcard : Bytes
dot_wildcard = []

abbrev pub complex_wildcard : Bytes
complex_wildcard = b'+' ∷ []

abbrev pub domain_step : ℕ
domain_step = b'.'

abbrev pub first_char : Bytes → Bytes
first_char [] = []
first_char (c ∷ s) = c ∷ []

-- Whether the text is empty or starts with such a character.
abbrev pub starts : (ℕ → Bool) → Bytes → Bool
starts test s = any test (first_char s)

abbrev pub valid_parts : List Bytes → Option (List Bytes)
valid_parts [] = none
valid_parts ([] ∷ []) = none
valid_parts (part ∷ []) = some (part ∷ [])
valid_parts (part ∷ parts) = if any (λ p. bytes_eq p []) parts then none else some (part ∷ parts)

-- `ValidAndSplitDomain`
unfoldable pub valid_and_split_domain : Bytes → Option (List Bytes)
unfolding split
valid_and_split_domain domain =
    if starts (λ c. c == domain_step) (reverse domain)
    then none
    else if starts is_space domain || starts is_space (reverse domain)
    then none
    else valid_parts (split domain_step (map lower domain))

module _ {T : Type 0} where
  -- The loop of `insert`, over the parts from the last.
  unfoldable pub insert_path : List Bytes → T → Node T → Node T
  unfolding get_or_new_child replace_child set_data
  insert_path [] v n = set_data v n
  insert_path (part ∷ parts) v n =
      let (c, n') = get_or_new_child part n in replace_child part (insert_path parts v c) n'

  -- `insert`
  unfoldable pub insert_parts : List Bytes → T → Node T → Node T
  unfolding insert_path
  insert_parts parts v root = insert_path (reverse parts) v root

  abbrev pub insert_split : T → Node T → List Bytes → Node T
  insert_split v root [] = root
  insert_split v root (part ∷ parts) =
      if bytes_eq part complex_wildcard
      then insert_parts (dot_wildcard ∷ parts) v (insert_parts parts v root)
      else insert_parts (part ∷ parts) v root

  abbrev pub insert_valid : T → Node T → Option (List Bytes) → Option (Node T)
  insert_valid v root none = none
  insert_valid v root (some parts) = some (insert_split v root parts)

  -- `Insert`; `none` is ErrInvalidDomain.
  unfoldable pub insert_domain : Bytes → T → Node T → Option (Node T)
  unfolding valid_and_split_domain insert_parts
  insert_domain domain v root = insert_valid v root (valid_and_split_domain domain)

  abbrev pub has_data : Option (Node T) → Bool
  has_data none = false
  has_data (some n) = elim (data_of n) [ none ↦ false | some v ↦ true ]

  -- The node if it holds data, or else the other one.
  abbrev pub or_else : Option (Node T) → Option (Node T) → Option (Node T)
  or_else found other = if has_data found then found else other

  abbrev pub within : (Node T → Option (Node T)) → Option (Node T) → Option (Node T)
  within f none = none
  within f (some c) = f c

  -- `search`, with the parts from the last.
  unfoldable pub search_path : List Bytes → Node T → Option (Node T)
  unfolding get_child
  search_path [] n = some n
  search_path (part ∷ parts) n =
      or_else (within (search_path parts) (get_child part n))
        (or_else (within (search_path parts) (get_child wildcard n)) (get_child dot_wildcard n))

  abbrev pub node_data : Option (Node T) → Option T
  node_data none = none
  node_data (some n) = data_of n

  abbrev pub search_parts : Node T → Option (List Bytes) → Option T
  search_parts root none = none
  search_parts root (some []) = none
  search_parts root (some ([] ∷ parts)) = none
  search_parts root (some ((c ∷ part) ∷ parts)) =
      node_data (search_path (reverse ((c ∷ part) ∷ parts)) root)

  -- `Search`, and the data of the node that it gives.
  unfoldable pub search : Bytes → Node T → Option T
  unfolding search_path valid_and_split_domain
  search domain root = search_parts root (valid_and_split_domain domain)

  abbrev pub no_children : Children T → Bool
  no_children no_child = true
  no_children (child_node k n) = false
  no_children (child_map end) = true
  no_children (child_map (entry k n es)) = false

  -- `IsEmpty`
  unfoldable pub is_empty : Node T → Bool
  is_empty (Node.mk_node cs v) = no_children cs
