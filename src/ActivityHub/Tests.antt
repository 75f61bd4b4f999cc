-- ===== src/ActivityHub/Tests.antt =====
-- Runs of the activity hub, and the theorems at concrete inputs.
use hermes_forge_public.Prelude.{◌≡◌, refl, String, some, List, [], ◌∷◌, take, arith}
use hermes_forge_public.Sql.{select, find}
use hermes_forge_public.ActivityHub
use hermes_forge_public.ActivityHub.{Event, Hub, new, recent, at_address, stamp, is_hidden, collect}
use hermes_forge_public.ActivityHub.Ring.{visible}
use hermes_forge_public.ActivityHub.History.{Op, run, published, recent-run}
use hermes_forge_public.ActivityHub.Fanout.{follow, find-run}

abbrev event : String → String → Event
event key summary = record {
  api_key = key;
  envelope_id = "e1";
  kind = "status";
  summary = summary;
  timestamp = some 5;
}

abbrev traffic : List Op
traffic =
    Op.subscribe "alice"
    ∷ Op.publish 1 (event "alice" "one")
    ∷ Op.publish 2 (event "bob" "two")
    ∷ Op.publish 3 (event "" "three")
    ∷ []

public_and_own : recent "alice" 5 (run traffic new) ≡ event "" "three" ∷ event "alice" "one" ∷ []
unfolding recent collect is_hidden stamp ActivityHub.publish ActivityHub.subscribe
public_and_own = refl

recent-run_example :
    recent "alice" 1 (run traffic new)
    ≡ take 1 (select (visible "alice") (take 1024 (published traffic [])))
recent-run_example = recent-run traffic "alice" 1

abbrev joined : Hub
joined = record {
  ring = λ i. event "" "";
  head = 0;
  len = 0;
  subs = record { address = 0; key = "bob"; channel = [] } ∷ [];
  fresh = 1;
}

find-run_example :
    find (at_address 0) (run traffic joined).subs
    ≡ follow 0 traffic (some (record { address = 0; key = "bob"; channel = [] }))
find-run_example = find-run 0 traffic joined (omega arith)
