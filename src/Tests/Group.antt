-- ===== src/Tests/Group.antt =====
-- Tests of the policy groups.
use clash_for_android.Prelude.{
  ◌+◌, ◌%◌, ◌≡◌, ◌≢◌, refl, inl, inr, ◌⊎◌, ap, ◌∙◌, String, true, false, some, none, [], ◌∷◌, arith,
  In, str_eq, str_eq_iff, sym, ok,
}
use clash_for_android.Health.Kind.{shadowsocks}
use clash_for_android.Health.Proxy.{Member, is_alive}
use clash_for_android.Group.Base.{
  members, excluded_name, excluded_type, get_proxies, update_provider, Provider,
}
use clash_for_android.Group.Base.Members.{LetThrough, members_sound}
use clash_for_android.Group.Base.Members.Complete.{Named, members_complete}
use clash_for_android.Group.Base.Cache.{
  IsCoherent, Served, get_proxies_lem, update_provider-IsCoherent, visible,
}
use clash_for_android.Group.Base.Failures.{burst, burst_lem}
use clash_for_android.Group.Selector.{set, now, first, or_first}
use clash_for_android.Group.Selector.Choice.{set-member, choices}
use clash_for_android.Group.Fallback.{Fallback, find_alive_proxy}
use clash_for_android.Group.Fallback.Alive.{
  first_alive, find_alive_proxy-auto, find_alive_proxy-fixed,
}
use clash_for_android.Group.UrlTest.{UrlTest, find_fast, choice}
use clash_for_android.Group.UrlTest.Fast.{NoneFaster, Kept, fastest_from, find_fast-auto}
use clash_for_android.Group.LoadBalance.{round_robin}
use clash_for_android.Group.LoadBalance.RoundRobin.{Found, NoneFound, round_robin_lem}
use clash_for_android.Tests.Samples.{
  compat, tokyo, osaka, paris, subscription, filtered, whole, url, heap, chooser,
}

tokyo_member : In tokyo (members filtered)
unfolding members
tokyo_member = inl refl

members_sound_example :
    (excluded_name filtered tokyo ≡ false)
    × (excluded_type filtered tokyo ≡ false)
    × ((pd : Provider) × In pd filtered.providers × LetThrough filtered.filter_regs pd tokyo)
members_sound_example = members_sound filtered tokyo tokyo_member

osaka_kept : excluded_name filtered osaka ≡ false
unfolding excluded_name
osaka_kept = refl

members_complete_example : Named "osaka" (members filtered)
members_complete_example =
    members_complete filtered subscription osaka refl (inl refl) (inr (inl refl), inr (inr refl))
      osaka_kept

-- Paris is filtered out.
members-filtered : members filtered ≡ tokyo ∷ osaka ∷ []
unfolding members
members-filtered = refl

whole-IsCoherent : IsCoherent whole
whole-IsCoherent = record {
  some_provider = omega arith;
  behind = tt;
  fresh = λ e. cc;
  non_empty = λ h. absurd (h refl);
}

get_proxies_lem_example : Served compat whole (get_proxies compat true whole)
get_proxies_lem_example = get_proxies_lem compat true whole whole-IsCoherent

update_provider-IsCoherent_example : IsCoherent (update_provider 0 (osaka ∷ []) whole)
update_provider-IsCoherent_example =
    update_provider-IsCoherent 0 (osaka ∷ []) whole (omega arith, tt) (omega arith) whole-IsCoherent

burst_lem_example :
    burst shadowsocks (100 ∷ 200 ∷ 300 ∷ 400 ∷ 500 ∷ 600 ∷ []) whole
    ≡ false ∷ false ∷ false ∷ false ∷ true ∷ false ∷ []
burst_lem_example =
    burst_lem shadowsocks 100 (100 ∷ 200 ∷ 300 ∷ 400 ∷ 500 ∷ 600 ∷ []) whole refl refl refl
      (omega arith)

members-whole : members whole ≡ tokyo ∷ osaka ∷ paris ∷ []
unfolding members
members-whole = refl

osaka-Named : Named "osaka" (choices compat chooser)
unfolding members
osaka-Named = (osaka, inr (inl refl), refl)

set-member_example :
    ((set compat "osaka" chooser).0 ≡ ok tt)
    × ((now compat (set compat "osaka" chooser).1).0 ≡ some "osaka")
set-member_example = set-member compat chooser whole-IsCoherent "osaka" osaka-Named

differs : (a b : String) → str_eq a b ≡ false → a ≢ b
differs a b d e = ground (arith, str_eq_iff a b)

nowhere_not-Named : ¬ Named "nowhere" (choices compat chooser)
unfolding members
nowhere_not-Named (p, inl e, h) =
    absurd (differs "tokyo" "nowhere" refl (sym (ap (λ (m : Member). m.name) e) ∙ h))
nowhere_not-Named (p, inr (inl e), h) =
    absurd (differs "osaka" "nowhere" refl (sym (ap (λ (m : Member). m.name) e) ∙ h))
nowhere_not-Named (p, inr (inr (inl e)), h) =
    absurd (differs "paris" "nowhere" refl (sym (ap (λ (m : Member). m.name) e) ∙ h))
nowhere_not-Named (p, inr (inr (inr z)), h) = absurd z

abbrev backup : Fallback
backup = record {
  group = whole;
  disable_udp = false;
  test_url = url;
  selected = "";
  expected_status = "*";
  hidden = false;
  icon = "";
}

find_alive_proxy-auto_example :
    ((find_alive_proxy heap compat false backup).0
      ≡ or_first
          (visible compat (members whole))
          (first_alive heap url (visible compat (members whole))))
    × ((find_alive_proxy heap compat false backup).1.selected ≡ "")
    × (first (visible compat (members whole)) ≢ none)
find_alive_proxy-auto_example = find_alive_proxy-auto heap compat false backup whole-IsCoherent refl

-- Tokyo is fixed and dead, so the group forgets it and uses osaka.
find_alive_proxy-fixed_example :
    ((find_alive_proxy heap compat false (record backup { selected = "tokyo" })).0 ≡ some osaka)
    × ((find_alive_proxy heap compat false (record backup { selected = "tokyo" })).1.selected ≡ "")
unfolding is_alive
find_alive_proxy-fixed_example =
    find_alive_proxy-fixed heap compat false (record backup { selected = "tokyo" }) whole-IsCoherent
      [] (osaka ∷ paris ∷ []) tokyo members-whole refl refl tt

abbrev fastest_group : UrlTest
fastest_group = record {
  group = whole;
  selected = "";
  test_url = url;
  expected_status = "*";
  tolerance = 50;
  disable_udp = false;
  hidden = false;
  icon = "";
  fast_node = some osaka;
  fast_single = none;
}

no_choice : choice heap fastest_group (tokyo ∷ osaka ∷ paris ∷ []) ≡ none
no_choice = refl

find_fast-auto_example :
    ((q : Member) × (find_fast heap fastest_group (tokyo ∷ osaka ∷ paris ∷ []) ≡ some q)
      × In q (tokyo ∷ osaka ∷ paris ∷ [])
      × NoneFaster heap url q (tokyo ∷ osaka ∷ paris ∷ []))
    ⊎ ((q : Member) × (find_fast heap fastest_group (tokyo ∷ osaka ∷ paris ∷ []) ≡ some q)
        × Kept heap url 50
            (some osaka)
            (osaka ∷ paris ∷ [])
            (fastest_from heap url tokyo (osaka ∷ paris ∷ []))
            q)
find_fast-auto_example = find_fast-auto heap fastest_group tokyo (osaka ∷ paris ∷ []) no_choice

-- Osaka is 40 ms slower than paris, within the tolerance.
osaka_stays : find_fast heap fastest_group (tokyo ∷ osaka ∷ paris ∷ []) ≡ some osaka
unfolding find_fast
osaka_stays = refl

-- Tokyo is dead, so that the first turn goes to osaka and the next one is that of paris.
round_robin_lem_example :
    ((p : Member) × (f : Found heap url (tokyo ∷ osaka ∷ paris ∷ []) 0 0 p) × (round_robin heap url
          (tokyo ∷ osaka ∷ paris ∷ [])
          true
          0
        ≡ (some p, (0 + (f.turn + 1)) % 3)))
    ⊎ (NoneFound heap url (tokyo ∷ osaka ∷ paris ∷ []) 0 0
        × (round_robin heap url (tokyo ∷ osaka ∷ paris ∷ []) true 0 ≡ (some tokyo, 0)))
round_robin_lem_example = round_robin_lem heap url (tokyo ∷ osaka ∷ paris ∷ []) true 0 (omega arith)

osaka_turn : round_robin heap url (tokyo ∷ osaka ∷ paris ∷ []) true 0 ≡ (some osaka, 2)
unfolding round_robin
osaka_turn = refl
