-- ===== src/Tests/Config.antt =====
-- Tests of the order of the groups.
use mathlib.Core.List.{Perm}
use clash_for_android.Prelude.{
  ◌≡◌, refl, String, [], ◌∷◌, List, none, some, Result, ok, err, subst, sym, inl, inr,
}
use clash_for_android.Config.DagSort.{
  GroupOption, Graph, SortError, loop_in, duplicate_name, build, sort_loop, sort_groups,
}
use clash_for_android.Config.DagSort.Edges.{group_named}
use clash_for_android.Config.DagSort.Groups.{MembersFirst}
use clash_for_android.Config.DagSort.Build.{entries}
use clash_for_android.Config.DagSort.Sorted.{SortOutcome, sort_groups_lem}
use clash_for_android.Config.DagSort.Impossible.{loop_in-no_order}

-- An entry is its options.
abbrev read_option : GroupOption → Result String GroupOption
read_option option = ok option

abbrev as_listed : List String → List String
as_listed names = names

abbrev media : GroupOption
media = record { name = "media"; proxies = "auto" ∷ "tokyo" ∷ [] }

abbrev auto : GroupOption
auto = record { name = "auto"; proxies = "tokyo" ∷ "osaka" ∷ [] }

abbrev ring : GroupOption
ring = record { name = "ring"; proxies = "auto" ∷ "ring" ∷ [] }

abbrev ring_graph : Graph GroupOption
ring_graph =
    ("ring", record { indegree = 1; group = some (ring, ring) })
    ∷ ("auto", record { indegree = 1; group = some (auto, auto) })
    ∷ ("tokyo", record { indegree = 1; group = none })
    ∷ ("osaka", record { indegree = 1; group = none })
    ∷ []

members_first :
    sort_groups read_option as_listed (media ∷ auto ∷ []) ≡ some (ok (auto ∷ media ∷ []))
unfolding sort_groups build sort_loop
members_first = refl

one_name_twice :
    sort_groups read_option as_listed (media ∷ auto ∷ media ∷ [])
    ≡ some (err (duplicate_name "media"))
unfolding sort_groups build sort_loop
one_name_twice = refl

own_member : sort_groups read_option as_listed (ring ∷ auto ∷ []) ≡ some (err (loop_in ring_graph))
unfolding sort_groups build sort_loop
own_member = refl

sort_groups_lem_example :
    (r : Result (SortError GroupOption String) (List GroupOption)) × (sort_groups read_option
        as_listed
        (media ∷ auto ∷ [])
      ≡ some r)
    × SortOutcome read_option (media ∷ auto ∷ []) r
sort_groups_lem_example =
    sort_groups_lem read_option (media ∷ auto ∷ []) as_listed (λ names x. refl)

auto-MembersFirst : MembersFirst ((auto, auto) ∷ [])
auto-MembersFirst = (
  λ p m. elim m [
    | inl e ↦ subst (λ (q : String). group_named q ((auto, auto) ∷ []) ≡ none) (sym e) refl
    | inr (inl e) ↦ subst (λ (q : String). group_named q ((auto, auto) ∷ []) ≡ none) (sym e) refl
    | inr (inr k) ↦ absurd k
  ],
  tt,
)

loop_in-no_order_example : ¬ Perm (entries ((auto, auto) ∷ [])) (ring ∷ auto ∷ [])
loop_in-no_order_example =
    loop_in-no_order read_option as_listed (ring ∷ auto ∷ []) ring_graph ((auto, auto) ∷ [])
      (λ names x. refl) own_member (refl, tt) auto-MembersFirst
