-- ===== src/Tests/Clients.antt =====
-- A client over the ring of the tests, and a pane that it registers.
use kilix_telemetry.Common.{
  pos, max_ℤ, ◌≡◌, refl, inl, inr, true, false, none, some, [], ◌∷◌, arith, ◌-ℤ◌,
}
use kilix_telemetry.Values.Laws.{Ensures}
use kilix_telemetry.Client.{Client, Options, Poll, snapshot as client_snapshot}
use kilix_telemetry.Client.Registration.{PaneBook, Registering, register_pane}
use kilix_telemetry.IntSet.{IsDistinct, contains-cons, contains-nil}
use kilix_telemetry.Client.Polled.{keys}
use kilix_telemetry.Client.Union.{IsPolled, IsSettled, register_pane-IsSettled}
use kilix_telemetry.Client.Reading.{ring_of}
use kilix_telemetry.Client.Panes.{Session, client_pane, client_pane-IsFor}
use kilix_telemetry.Client.Startup.{Attempt, Start, Startup, ensure_running}
use kilix_telemetry.Client.Started.{IsStarted, ensure_running-IsStarted}
use kilix_telemetry.Tests.Lifetimes.{one_number, boot_1, lifetime_codec}
use kilix_telemetry.Tests.Instances.{Float, python, codec, snapshot}
use kilix_telemetry.Tests.Rings.{after_one}
use kilix_telemetry.Tests.Machines.{unicode, arithmetic, collector, idle_machine}

abbrev client : Client Float
client = record {
  max_age_ns = pos 25;
  cache_seconds = some (pos 0);
  fallback = collector;
  cached = none;
  cached_until = some (pos 0);
  reader = none;
  writer_alive = false;
  writer_checked = some (pos 0);
  consumer_pid = none;
}

abbrev options : Options
options = record { start = false; fallback = true; force = true }

abbrev poll : Poll Float
poll = record {
  disabled = false;
  pid = pos 42;
  process_identity = λ pid. none;
  consumers_file = none;
  entry_now = some (pos 1);
  now = some (pos 1);
  ring = some (ring_of 5 1 after_one);
  ring_ns = pos 30;
  writer_active = true;
  started = false;
  started_now = some (pos 1);
  started_ring = none;
  started_ns = pos 30;
  machine = idle_machine;
  after_error = collector;
}

abbrev book : PaneBook Float
book = record {
  pane_roots = (pos 5, some (pos 99)) ∷ (pos 3, some (pos 1)) ∷ [];
  registered_roots = [];
  registered_at = some (pos 0);
}

abbrev registering : Registering Float
registering = record {
  disabled = false;
  pid = pos 42;
  now = some (pos 100);
  now_ns = pos 100;
  stale_ns = pos 15;
}

book-IsDistinct : IsDistinct (keys book.pane_roots)
book-IsDistinct = (
  ground (arith, contains-cons (pos 5) (pos 3) [], contains-nil (pos 5)),
  (contains-nil (pos 3), tt),
)

register_pane-IsSettled_example :
    IsPolled python arithmetic codec registering
      (pos 7)
      book.pane_roots
      (register_pane python codec arithmetic registering book none (pos 7)).0.0.pane_roots
    × IsSettled python arithmetic codec registering book none
        (register_pane python codec arithmetic registering book none (pos 7))
unfolding ◌-ℤ◌
register_pane-IsSettled_example =
    register_pane-IsSettled python arithmetic codec registering book none (pos 7) refl (omega arith)
      book-IsDistinct refl

abbrev session : Session Float
session = record { client = client; book = book; panes_file = none }

client_pane-IsFor_example :
    Ensures
      (λ p. p.root_pid ≡ max_ℤ (pos 0) (pos 7))
      (client_pane python arithmetic codec unicode options poll registering session (pos 7)).1
client_pane-IsFor_example =
    client_pane-IsFor python arithmetic codec unicode options poll registering session (pos 7)

-- A start of a process that becomes a writer: the first turn finds its lock and a new snapshot, and
-- the clock of the second has reached the deadline.
abbrev start : Start Float
start = record {
  disabled = false;
  owner_pid = pos 42;
  process_identity = boot_1;
  consumers_file = none;
  active = false;
  has_command = true;
  spawned = true;
  started_ns = pos 5;
  deadline = some (pos 3);
  last_active = false;
  running = true;
}

abbrev first_turn : Attempt Float
first_turn = record {
  now = some (pos 1);
  ring = some (ring_of 5 1 after_one);
  ring_ns = pos 30;
  active = true;
  exited = false;
  still_active = true;
}

abbrev last_turn : Attempt Float
last_turn = record first_turn { now = some (pos 3) }

ensure_running-IsStarted_example :
    (startup : Startup) × (ensure_running one_number lifetime_codec start
        (first_turn ∷ last_turn ∷ [])
      ≡ some startup)
    × IsStarted one_number lifetime_codec start (first_turn ∷ last_turn ∷ []) startup
ensure_running-IsStarted_example =
    ensure_running-IsStarted one_number lifetime_codec start (first_turn ∷ last_turn ∷ [])
      (inr (inl refl))
