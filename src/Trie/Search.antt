-- ===== src/Trie/Search.antt =====
-- What a search of the trie gives (component/trie/domain.go).
use clash_for_android.Prelude.{◌≡◌, refl, sym, ap, Option, none, some, List, [], ◌∷◌, Bytes}
use clash_for_android.Trie.Node.{Node, mk_node, get_child}
use clash_for_android.Trie.Domain.{wildcard, dot_wildcard, or_else, within, search_path, node_data}
use clash_for_android.Trie.Store.{value, value_in}

module _ {T : Type 0} where
  abbrev pub first_of : Option T → Option T → Option T
  first_of none b = b
  first_of (some v) b = some v

  -- The search in a map from patterns to data: at each part a pattern with the part itself comes
  -- before one with `*`, and that before the one that ends there with an empty part.
  abbrev pub search_in : (List Bytes → Option T) → List Bytes → Option T
  search_in f [] = f []
  search_in f (p ∷ ps) =
      first_of (search_in (λ q. f (p ∷ q)) ps)
        (first_of (search_in (λ q. f (wildcard ∷ q)) ps) (f (dot_wildcard ∷ [])))

  search_in-none : (ps : List Bytes) → search_in (λ q. none) ps ≡ none
  search_in-none [] = refl
  search_in-none (p ∷ ps) = rw (search_in-none ps)

  node_data-or_else :
      (a b : Option (Node T)) → node_data (or_else a b) ≡ first_of (node_data a) (node_data b)
  node_data-or_else none b = refl
  node_data-or_else (some (mk_node cs none)) b = refl
  node_data-or_else (some (mk_node cs (some v))) b = refl

  node_data-within :
      (ps : List Bytes) (o : Option (Node T))
      → ((n : Node T) → node_data (search_path ps n) ≡ search_in (λ q. value q n) ps)
      → node_data (within (search_path ps) o) ≡ search_in (λ q. value_in (value q) o) ps
  node_data-within ps none h = sym (search_in-none ps)
  node_data-within ps (some c) h = h c

  last_value : (o : Option (Node T)) → node_data o ≡ value_in (value []) o
  unfolding value
  last_value none = refl
  last_value (some n) = refl

  -- The search of the trie is the search in the map of what is stored in it.
  pub search_path-search_in :
      (ps : List Bytes) (n : Node T) → node_data (search_path ps n) ≡ search_in (λ q. value q n) ps
  unfolding search_path value
  search_path-search_in [] n = refl
  search_path-search_in (p ∷ ps) n =
      rw
        (
          node_data-or_else,
          node_data-within ps (get_child p n) (search_path-search_in ps),
          node_data-or_else,
          node_data-within ps (get_child wildcard n) (search_path-search_in ps),
        )
        (ap
          (λ (o : Option T).
            first_of (search_in (λ q. value (p ∷ q) n) ps)
              (first_of (search_in (λ q. value (wildcard ∷ q) n) ps) o))
          (last_value (get_child dot_wildcard n)))
