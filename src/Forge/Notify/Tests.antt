-- ===== src/Forge/Notify/Tests.antt =====
-- A notification for a live session, and the theorem at a concrete input.
use hermes_forge_public.Prelude.{ℕ, ◌+◌, ◌≡◌, refl, true, false, none, some, [], ◌∷◌, ok}
use hermes_forge_public.Forge.{Call, get_by_envelope, lookup, running}
use hermes_forge_public.Forge.Deliver.{Os, State}
use hermes_forge_public.Forge.Resume.{OpenCode}
use hermes_forge_public.Forge.Notify.{
  NotifyRequest, notified, check_request, notify_session, notify,
}
use hermes_forge_public.Forge.Notify.Directed.{IsDirected, notify-IsDirected}

abbrev working : Call
working = record { fails = λ p. false; now = 5 }

-- Every process lives; OpenCode counts the messages that it takes.
abbrev machine : Os ℕ
machine = record {
  launch = λ executor envelope dir session resume n. (ok 1, n);
  alive = λ n pid. true;
  stop = λ pid n. n;
  new_uuid = λ n. ("uuid", n);
  is_abs = λ dir. true;
  clean = λ dir. dir;
}

abbrev counting : OpenCode ℕ
counting = record { discover = λ envelope dir n. (none, n); inject = λ id text n. (true, n + 1) }

abbrev live : State ℕ
live = record {
  sessions =
      record {
        session_id = "s1";
        envelope_id = "e1";
        executor = "opencode";
        working_dir = "";
        state = "starting";
        started_at = 1;
        last_seen_at = 1;
      }
      ∷ [];
  processes = ("s1", 42) ∷ [];
  deliveries = [];
  background = [];
  os = 0;
}

abbrev steer : NotifyRequest
steer = record { envelope_id = "e1"; executor_session_id = "ses_1"; message = "stop" }

taken : notify machine counting working false (some steer) live ≡ (notified, record live { os = 1 })
unfolding notify notify_session check_request get_by_envelope running lookup
taken = refl

notify-IsDirected_example :
    IsDirected machine counting working steer live
      (notify machine counting working false (some steer) live)
notify-IsDirected_example = notify-IsDirected machine counting working steer live false
