-- ===== src/Tests/Startup.antt =====
-- The service over a platform that answers every call, and its command line.
use straggler.Base.{◌≡◌, refl, List, [], ◌∷◌, String, none, filter_by, string_dec}
use straggler.Base.Dict.{insert, lookup}
use straggler.Base.Float.{whole_floats}
use straggler.Base.Result.{ok, err, failed}
use straggler.Base.Sorting.{insertion_sort}
use straggler.Base.State.{M}
use straggler.Controller.Types.{Client}
use straggler.Controller.Flights.{noop_flight_tracker}
use straggler.Setup.{new_group_classifier}
use straggler.Setup.Options.{Options, new_options}
use straggler.Setup.Startup.{Platform, Cmd, Prepared}
use straggler.Setup.Startup.Register.{new_cmd_with_manager}
use straggler.Setup.Startup.Laws.{IsPrepared, Registered, new_cmd_with_manager-Registered}
use straggler.Cli.Flags.{do_add_command_flags}
use straggler.Cli.Flags.Laws.{leaves, is_named, add_flags, do_add_command_flags-leaves}
use straggler.Cli.Flags.Service.{option_fields, kept_flags}
use straggler.Cli.Service.{returned, run_service}
use straggler.Tests.{first}
use straggler.Tests.Setup.{policy}
use straggler.Tests.Groups.{libraries}

-- The world is the list of what was registered.
abbrev World : Type 0
World = List String

abbrev client : Client World
client = record {
  get = λ _ w. (ok first, w);
  list = λ _ _ w. (ok [], w);
  evict = λ _ w. (ok tt, w);
}

abbrev platform : Platform whole_floats libraries World String String
platform = record {
  read_file = λ path. ok "policies";
  unmarshal = λ text. ok (policy "web" [] ∷ []);
  in_cluster_config = err (failed "outside of a cluster");
  build_config_from_flags = λ url path. ok url;
  new_manager = λ config options. ok "manager";
  add_readyz_check = λ name check mgr. mgr;
  add_healthz_check = λ name mgr. mgr;
  client = λ mgr. client;
  check_requirements = λ keys. ok tt;
  complete_controller = λ mgr name match handler w. (ok tt, name ∷ w);
  complete_webhook = λ mgr kind admission w. (ok tt, kind ∷ w);
  classifies =
      λ c. record { classify = λ _ _ w. (ok none, w); classify_by_group_id = λ _ w. (ok none, w) };
  tracks = λ t. noop_flight_tracker;
}

abbrev options : Options String
options = new_options (λ name. "")

abbrev service : Cmd String String
service = record { options = options; mgr = "manager" }

put_together :
    new_cmd_with_manager platform insertion_sort "manager" options []
    ≡ (ok service, "Job" ∷ "Pod" ∷ "flight-tracker" ∷ "reconciler" ∷ [])
unfolding new_cmd_with_manager new_options new_group_classifier string_dec insert lookup
put_together = refl

new_cmd_with_manager-Registered_example :
    (prepared : Prepared platform) × IsPrepared platform insertion_sort "manager" options prepared
    × Registered platform insertion_sort "manager" options prepared []
        ("Job" ∷ "Pod" ∷ "flight-tracker" ∷ "reconciler" ∷ [])
new_cmd_with_manager-Registered_example =
    new_cmd_with_manager-Registered platform insertion_sort "manager" options []
      ("Job" ∷ "Pod" ∷ "flight-tracker" ∷ "reconciler" ∷ []) service put_together

do_add_command_flags-leaves_example :
    do_add_command_flags kept_flags (option_fields options)
    ≡ add_flags kept_flags (filter_by is_named (leaves (option_fields options)))
do_add_command_flags-leaves_example = do_add_command_flags-leaves kept_flags (option_fields options)

-- The signal is the name that the world gets before the stop.
abbrev ended : World
ended = "stop" ∷ "signal" ∷ "start" ∷ []

abbrev create : M World String
create w = (ok "service", w)

abbrev log_name : String → String → M World (Unit {0})
log_name name _ w = (ok tt, name ∷ w)

ran :
    run_service create (log_name "start") (λ w. "signal" ∷ w) (log_name "stop") []
    ≡ (returned, ended)
unfolding run_service
ran = refl
