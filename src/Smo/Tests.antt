-- ===== src/Smo/Tests.antt =====
-- internal/smo/registry.go: a registry with two plugins, a run of the health check loop, and the
-- theorems at them.
use netweave.Common.{
  ◌+◌, ◌≤◌, ◌≡◌, ◌↔◌, refl, Bool, true, false, some, [], ◌∷◌, arith, if◌then◌else◌, ◌==◌, lookup,
  insert, ok, err, eqb, keep, eq_iff,
}
use netweave.Smo.{
  Registry, Plugin, PluginInfo, values, new_registry, register, set_default, unregister,
  choose_default, get_healthy, find_by_capability, capable_among, healthy_among, check_each,
  check_all_plugins_health, close, failures, not_found,
}
use netweave.Smo.Laws.{IsConsistent}
use netweave.Smo.Health.{
  registers, Reached, fresh, after_call, registry-IsConsistent, get_healthy-check_all,
}
use netweave.Smo.Flags.{IsMarked, register-IsMarked}
use netweave.Smo.Checking.{
  Checks, new_checks, claim_start, launch_loop, claim_stop, close_channel, start_health_checks,
  stop_health_checks, finish_stop, end_loop, Run, here, next, starts, launches, stops, closes,
  stopped, ends, checks-IsSingle, restart_panics, closed_twice,
}

abbrev onap : Plugin
onap = record {
  handle = 1;
  name = "ONAP";
  version = "1.0";
  description = "";
  vendor = "";
  capabilities = "workflow" ∷ [];
}

abbrev osm : Plugin
osm = record onap { handle = 2; name = "OSM" }

abbrev start : Registry
start = record { plugins = []; plugin_info = []; default_plugin = "" }

-- The first plugin becomes the default, and its information does not say so.
abbrev one : Registry
one = record {
  plugins = ("onap", onap) ∷ [];
  plugin_info = ("onap", netweave.Smo.new_info 5 true false onap) ∷ [];
  default_plugin = "onap";
}

abbrev two : Registry
two = record {
  plugins = ("onap", onap) ∷ ("osm", osm) ∷ [];
  plugin_info =
      ("onap", netweave.Smo.new_info 5 true false onap)
      ∷ ("osm", netweave.Smo.new_info 6 false true osm)
      ∷ [];
  default_plugin = "osm";
}

first_run : register 5 true new_registry "onap" (some onap) false ≡ ok one
unfolding register new_registry insert lookup
first_run = refl

second_run : register 6 false one "osm" (some osm) true ≡ ok two
unfolding register insert lookup
second_run = refl

reached : Reached two
reached =
    after_call
      (after_call fresh (registers 5 true false "onap" (some onap) new_registry one first_run))
      (registers 6 false true "osm" (some osm) one two second_run)

registry-IsConsistent_example : IsConsistent two
registry-IsConsistent_example = registry-IsConsistent reached

-- Only osm answers that it is healthy.
abbrev answers : Plugin → Bool
answers p = eqb p.handle 2

after_checks : get_healthy (check_all_plugins_health 9 answers two) ≡ osm ∷ []
unfolding get_healthy healthy_among check_all_plugins_health check_each insert lookup
after_checks = refl

two-IsConsistent : IsConsistent two
two-IsConsistent = registry-IsConsistent reached

get_healthy-check_all_example :
    get_healthy (check_all_plugins_health 9 answers two) ≡ keep answers (values two.plugins)
get_healthy-check_all_example = get_healthy-check_all 9 answers two two-IsConsistent

removed : unregister two "none" ≡ err not_found
unfolding unregister lookup
removed = refl

capable : find_by_capability two "workflow" ≡ onap ∷ []
unfolding find_by_capability lookup
capable = refl

not_closed : (close answers two).1 ≡ "osm" ∷ []
unfolding close failures
not_closed = refl

one-IsConsistent : IsConsistent one
one-IsConsistent =
    registry-IsConsistent
      (after_call fresh (registers 5 true false "onap" (some onap) new_registry one first_run))

-- The same registry, with the flag.
abbrev marked : Registry
marked = record one { plugin_info = ("onap", netweave.Smo.new_info 5 true true onap) ∷ [] }

first_marked : register 5 true new_registry "onap" (some onap) true ≡ ok marked
unfolding register new_registry insert lookup
first_marked = refl

marked-IsConsistent : IsConsistent marked
marked-IsConsistent =
    registry-IsConsistent
      (after_call fresh (registers 5 true true "onap" (some onap) new_registry marked first_marked))

marked-IsMarked : IsMarked marked
unfolding lookup
marked-IsMarked k info h = ground (arith, h, eq_iff "onap" k, eq_iff k "onap")

abbrev with_osm : Bool → Registry
with_osm d = record {
  plugins = ("onap", onap) ∷ ("osm", osm) ∷ [];
  plugin_info =
      ("onap", netweave.Smo.new_info 5 true true onap)
      ∷ ("osm", netweave.Smo.new_info 6 false d osm)
      ∷ [];
  default_plugin = if d then "osm" else "onap";
}

later_run : (d : Bool) → register 6 false marked "osm" (some osm) d ≡ ok (with_osm d)
unfolding register insert lookup
later_run true = refl
later_run false = refl

-- With a second default both have the flag.
register-IsMarked_example : IsMarked (with_osm true) ↔ (true ≡ (marked.default_plugin == ""))
register-IsMarked_example =
    register-IsMarked marked marked-IsConsistent 6 false (with_osm true) "osm" (some osm) true
      marked-IsMarked (later_run true)

with_osm-IsMarked : IsMarked (with_osm false)
with_osm-IsMarked =
    (register-IsMarked marked marked-IsConsistent 6 false (with_osm false) "osm" (some osm) false
        marked-IsMarked (later_run false)).1
      refl

abbrev moved : Registry
moved = record {
  plugins = ("onap", onap) ∷ ("osm", osm) ∷ [];
  plugin_info =
      ("onap", netweave.Smo.new_info 5 true false onap)
      ∷ ("osm", netweave.Smo.new_info 6 false true osm)
      ∷ [];
  default_plugin = "osm";
}

set_run : set_default (with_osm false) "osm" ≡ ok moved
unfolding set_default insert lookup
set_run = refl

-- A start, a second start that does nothing, a stop, and the end of the loop and of the wait.
abbrev ticking : Checks
ticking = record {
  running = true;
  starting = 0;
  stopping = 0;
  channel_closed = false;
  loops = 1;
  waiting = 0;
  cancelled = false;
}

abbrev stopping : Checks
stopping = record ticking { channel_closed = true; waiting = 1 }

started : start_health_checks (start_health_checks new_checks) ≡ ticking
unfolding start_health_checks launch_loop claim_start new_checks
started = refl

stop_run : stop_health_checks ticking ≡ ok stopping
unfolding stop_health_checks close_channel claim_stop
stop_run = refl

run : Run stopping (finish_stop (end_loop stopping))
unfolding end_loop
run =
    next (next here (ends stopping (omega arith) refl))
      (stopped (end_loop stopping) (omega arith) refl)

restart_panics_example :
    stop_health_checks (start_health_checks (finish_stop (end_loop stopping))) ≡ err closed_twice
restart_panics_example =
    restart_panics ticking stopping (finish_stop (end_loop stopping)) refl stop_run run

first_start : Run new_checks (launch_loop (claim_start new_checks))
unfolding new_checks claim_start
first_start = next (next here (starts new_checks)) (launches (claim_start new_checks) (omega arith))

still_open : (launch_loop (claim_start new_checks)).channel_closed ≡ false
unfolding new_checks claim_start launch_loop
still_open = refl

checks-IsSingle_example :
    let c = launch_loop (claim_start new_checks) in
    (c.loops + c.starting ≤ 1) × (c.waiting ≡ 0) × (c.running ≡ false → c.loops + c.starting ≡ 0)
checks-IsSingle_example =
    checks-IsSingle (launch_loop (claim_start new_checks)) first_start still_open

-- A stop between the two steps of a start does not wait for its loop, and a second start makes
-- another one. Both end at their first select.
two_loops : (c : Checks) × Run new_checks c × (c.loops ≡ 2) × (c.channel_closed ≡ true)
unfolding new_checks claim_start launch_loop claim_stop close_channel finish_stop
two_loops =
    let one = claim_start new_checks in
    let two = record one { channel_closed = true; waiting = 1 } in
    (
      launch_loop (launch_loop (claim_start (finish_stop two))),
      next
          (next
            (next
              (next
                (next (next (next here (starts new_checks)) (stops one))
                  (closes (claim_stop one) two (omega arith) refl))
                (stopped two (omega arith) refl))
              (starts (finish_stop two)))
            (launches (claim_start (finish_stop two)) (omega arith)))
          (launches (launch_loop (claim_start (finish_stop two))) (omega arith)),
      refl,
      refl,
    )
