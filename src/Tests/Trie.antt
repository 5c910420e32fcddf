-- ===== src/Tests/Trie.antt =====
-- Tests of the domain trie.
use mathlib.Core.List.{reverse}
use clash_for_android.Prelude.{ℕ, ◌≡◌, refl, Bytes, codes, List, [], ◌∷◌, none, some}
use clash_for_android.Trie.Node.{new_node, optimize}
use clash_for_android.Trie.Domain.{valid_and_split_domain, search, insert_domain}
use clash_for_android.Trie.Search.{search_in}
use clash_for_android.Trie.Pattern.{insert_all, held, Found, search_lem}

abbrev history : List (Bytes × ℕ)
history =
    (codes "+.example.com", 1)
    ∷ (codes "*.example.com", 2)
    ∷ (codes "www.example.com", 3)
    ∷ (codes "bad.", 4)
    ∷ (codes "WWW.example.com", 5)
    ∷ []

abbrev www : List Bytes
www = codes "www" ∷ codes "example" ∷ codes "com" ∷ []

www_split : valid_and_split_domain (codes "www.Example.com") ≡ some www
unfolding valid_and_split_domain
www_split = refl

-- The static part comes first, then the star, then the dot.
priorities :
    (search (codes "www.example.com") (insert_all history new_node) ≡ some 5)
    × (search (codes "api.example.com") (insert_all history new_node) ≡ some 2)
    × (search (codes "a.b.example.com") (insert_all history new_node) ≡ some 1)
    × (search (codes "example.com") (insert_all history new_node) ≡ some 1)
    × (search (codes "example.org") (insert_all history new_node) ≡ none)
unfolding search insert_domain
priorities = (refl, refl, refl, refl, refl)

search_lem_example :
    (search (codes "www.Example.com") (insert_all history new_node)
      ≡ search_in (held history) (reverse www))
    × (search (codes "www.Example.com") (optimize (insert_all history new_node))
        ≡ search_in (held history) (reverse www))
    × Found
        (held history)
        (reverse www)
        (search (codes "www.Example.com") (insert_all history new_node))
search_lem_example =
    search_lem history (codes "www.Example.com") b'w' (codes "ww")
      (codes "example" ∷ codes "com" ∷ []) www_split
