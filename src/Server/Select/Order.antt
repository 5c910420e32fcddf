-- ===== src/Server/Select/Order.antt =====
-- Choices for different names commute (`setProxySelect` of server/proxies.go), so that the order in
-- which `handleProfileReload` ranges over a map of choices does not matter.
use clash_for_android.Prelude.{
  ◌≡◌, ◌≢◌, refl, sym, ap, String, Option, none, some, [], ◌∷◌, arith, str_eq_iff, Dict, lookup,
  insert, lookup-insert, Result, ok, err,
}
use clash_for_android.Health.Proxy.{Member}
use clash_for_android.Group.Selector
use clash_for_android.Group.Selector.{Selector, SetError}
use clash_for_android.Server.State.{Outbound, select, plain, foreign, App}
use clash_for_android.Server.Select.{set_proxy_select, select_in, stored}

pub insert_comm :
    {V : Type 0} (k j : String) (v w : V) (m : Dict V)
    → k ≢ j
    → lookup k m ≢ none
    → lookup j m ≢ none
    → insert k v (insert j w m) ≡ insert j w (insert k v m)
insert_comm k j v w [] ne hk hj = absurd (hk refl)
insert_comm k j v w ((i, u) ∷ m) ne hk hj = ground (
  arith,
  str_eq_iff i k,
  str_eq_iff i j,
  str_eq_iff k j,
  str_eq_iff j k,
  insert_comm k j v w m ne,
)

-- What a choice writes to the entry of its name.
abbrev write_of : Member → String → Option Outbound → Option Outbound
write_of compat chosen (some (select s)) = some (select (Selector.set compat chosen s).1)
write_of compat chosen (some (plain m)) = none
write_of compat chosen (some foreign) = none
write_of compat chosen none = none

abbrev apply_write : String → Option Outbound → Dict Outbound → Dict Outbound
apply_write name none m = m
apply_write name (some v) m = insert name v m

-- The entries after a choice.
abbrev chosen_in : Member → String → String → Dict Outbound → Dict Outbound
chosen_in compat name chosen m = apply_write name (write_of compat chosen (lookup name m)) m

stored-proxies :
    (name : String) (app : App) (r : Result SetError (Unit {0}) × Selector)
    → (stored name app r).1 ≡ record app { proxies = insert name (select r.1) app.proxies }
stored-proxies name app (ok _, s) = refl
stored-proxies name app (err _, s) = refl

select_in-proxies :
    (compat : Member) (name chosen : String) (app : App) (o : Option Outbound)
    → (select_in compat name chosen app o).1
      ≡ record app { proxies = apply_write name (write_of compat chosen o) app.proxies }
select_in-proxies compat name chosen app none = refl
select_in-proxies compat name chosen app (some foreign) = refl
select_in-proxies compat name chosen app (some (plain m)) = refl
select_in-proxies compat name chosen app (some (select s)) =
    stored-proxies name app (Selector.set compat chosen s)

set_proxy_select-proxies :
    (compat : Member) (name chosen : String) (app : App)
    → (set_proxy_select compat name chosen app).1
      ≡ record app { proxies = chosen_in compat name chosen app.proxies }
unfolding set_proxy_select
set_proxy_select-proxies compat name chosen app =
    select_in-proxies compat name chosen app (lookup name app.proxies)

lookup-apply_write :
    (k j : String) (o : Option Outbound) (m : Dict Outbound)
    → k ≢ j
    → lookup j (apply_write k o m) ≡ lookup j m
lookup-apply_write k j none m ne = refl
lookup-apply_write k j (some v) m ne = rw lookup-insert (ground (arith, str_eq_iff k j))

apply_write_comm :
    (k j : String) (o u : Option Outbound) (m : Dict Outbound)
    → k ≢ j
    → (o ≢ none → lookup k m ≢ none)
    → (u ≢ none → lookup j m ≢ none)
    → apply_write k o (apply_write j u m) ≡ apply_write j u (apply_write k o m)
apply_write_comm k j none u m ne hk hj = refl
apply_write_comm k j (some v) none m ne hk hj = refl
apply_write_comm k j (some v) (some w) m ne hk hj =
    insert_comm k j v w m ne (hk (λ e. cc)) (hj (λ e. cc))

write_of-ne :
    (compat : Member) (chosen : String) (o : Option Outbound)
    → write_of compat chosen o ≢ none
    → o ≢ none
write_of-ne compat chosen none h = h
write_of-ne compat chosen (some o) h = λ e. cc

chosen_in_comm :
    (compat : Member) (k j a b : String) (m : Dict Outbound)
    → k ≢ j
    → chosen_in compat k a (chosen_in compat j b m) ≡ chosen_in compat j b (chosen_in compat k a m)
chosen_in_comm compat k j a b m ne =
    let o = write_of compat a (lookup k m) in
    let u = write_of compat b (lookup j m) in
    rw (lookup-apply_write j k u m (λ e. ne (sym e)), lookup-apply_write k j o m ne)
      (apply_write_comm k j o u m ne (write_of-ne compat a (lookup k m))
        (write_of-ne compat b (lookup j m)))

-- Two choices for different names leave the same state in either order.
pub set_proxy_select_comm :
    (compat : Member) (k j a b : String) (app : App)
    → k ≢ j
    → (set_proxy_select compat k a (set_proxy_select compat j b app).1).1
      ≡ (set_proxy_select compat j b (set_proxy_select compat k a app).1).1
set_proxy_select_comm compat k j a b app ne = simp set_proxy_select-proxies (
    ap (λ (m : Dict Outbound). record app { proxies = m })
      (chosen_in_comm compat k j a b app.proxies ne))
