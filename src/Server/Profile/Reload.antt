-- ===== src/Server/Profile/Reload.antt =====
-- The choices of a reload do not depend on the order of the map (server/profile.go).
use clash_for_android.Prelude.{◌≡◌, ◌≢◌, refl, sym, ◌∙◌, ap, String, List, [], ◌∷◌}
use clash_for_android.Health.Proxy.{Member}
use clash_for_android.Server.State.{App}
use clash_for_android.Server.Select.{set_proxy_select}
use clash_for_android.Server.Select.Order.{set_proxy_select_comm}
use clash_for_android.Server.Profile.{choose_all}

-- Two orders of the entries of one map: neighbours with different keys may change places.
pub data Reordered : List (String × String) → List (String × String) → Type 0 where
  done : Reordered [] []
  same :
      (e : String × String) {es fs : List (String × String)}
      → Reordered es fs
      → Reordered (e ∷ es) (e ∷ fs)
  swap :
      (d e : String × String) {es fs : List (String × String)}
      → d.0 ≢ e.0
      → Reordered es fs
      → Reordered (d ∷ e ∷ es) (e ∷ d ∷ fs)
  then : {es fs gs : List (String × String)} → Reordered es fs → Reordered fs gs → Reordered es gs

-- Whatever order Go gives to the entries of the map of choices, the state after the loop is the
-- same.
pub choose_all-Reordered :
    (compat : Member) {es fs : List (String × String)}
    → Reordered es fs
    → (app : App) → choose_all compat es app ≡ choose_all compat fs app
unfolding choose_all
choose_all-Reordered compat done app = refl
choose_all-Reordered compat (same (k, v) r) app =
    choose_all-Reordered compat r (set_proxy_select compat k v app).1
choose_all-Reordered compat (swap (k, a) (j, b) {es} {fs} ne r) app =
    choose_all-Reordered compat r
      (set_proxy_select compat j b (set_proxy_select compat k a app).1).1
    ∙ ap (choose_all compat fs) (sym (set_proxy_select_comm compat k j a b app ne))
choose_all-Reordered compat (then r s) app =
    choose_all-Reordered compat r app ∙ choose_all-Reordered compat s app
