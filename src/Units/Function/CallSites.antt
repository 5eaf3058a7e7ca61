-- ===== src/Units/Function/CallSites.antt =====
-- The call sites of a function: Function::AddCallSite.
use re_wizard.Prelude.{
  ℕ, true, false, arith, pair_beq, pair_beq_iff, ◌≡◌, if◌then◌else◌, nat_key, pair_key,
}
use re_wizard.Prelude.Set
use re_wizard.Prelude.Set.{contains, contains-insert, contains-erase}
use re_wizard.Units.Function.{Function, add_call_site}

-- After a call site is added exactly it and the old ones are there, without the placeholder (the
-- target 0) of the same call; so a resolved target never stands beside the placeholder of its call.
pub add_call_site-contains :
    (call target : ℕ) (f : Function) (site : ℕ × ℕ)
    → contains site (add_call_site call target f).call_sites ≡ (
        if pair_beq (call, target) site
        then true
        else if pair_beq (call, 0) site
        then false
        else contains site f.call_sites)
unfolding add_call_site
add_call_site-contains call target f site =
    let sites = f.call_sites in
    ground (
      arith,
      contains-insert (call, target) site sites,
      contains-insert (call, target) site (Set.erase (call, 0) sites),
      contains-erase (call, 0) site sites,
      pair_beq_iff (call, 0) site,
    )
