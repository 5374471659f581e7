-- ===== src/Tests/Starting.antt =====
-- The theorems on the start of nodes and consumers, on concrete configurations.
use libvegas.Base.{◌≡◌, refl, string_eq, true, false, ◌∷◌, []}
use libvegas.Base.Run.{fatal, ◌>>=◌, Returns}
use libvegas.Config.{PopConfig}
use libvegas.Config.Options.{
  new_pop_config, with_id, with_etcd_peer_urls, with_etcd_client_urls, with_manager_pop_urls,
}
use libvegas.Config.Embedded.{
  cancelled, too_slow, stopped, opened, closed, waited, done, run_server,
}
use libvegas.Pop.{Answers}
use libvegas.Pop.Command.{Flags, default_flags, main, Started, main-Started}
use libvegas.Consumer.{with_checkpoint_interval}
use libvegas.Consumer.Starting.{
  must_new_standalone_consumer, start_consumer, IsServed, must_new_standalone_consumer-IsServed,
}
use libvegas.Tests.Nodes.{plain}

-- The second of two nodes.
abbrev second_node : PopConfig
second_node = new_pop_config "pop" "stream" (
    with_id 2
    ∷ with_manager_pop_urls "http://a:13001,http://b:13001"
    ∷ with_etcd_peer_urls "http://a:12001,http://b:12001"
    ∷ with_etcd_client_urls "http://a:11001,http://b:11001"
    ∷ [])

abbrev all_answer : Answers
all_answer = record {
  has_logger = false;
  has_kinesis_client = false;
  production_logger = true;
  loaded = true;
  connected = true;
}

abbrev given : Flags
given = record default_flags { stream_name = "orders"; id = 1 }

main-Started_example : Started plain all_answer given (main plain all_answer given)
main-Started_example = main-Started plain all_answer given

must_new_standalone_consumer-IsServed_example : Returns (IsServed plain all_answer) (
    must_new_standalone_consumer all_answer "7f" "a" "orders" "arn"
      (with_checkpoint_interval 1000 ∷ [])
    >>= start_consumer plain all_answer)
must_new_standalone_consumer-IsServed_example =
    must_new_standalone_consumer-IsServed plain all_answer "7f" "a" "orders" "arn"
      (with_checkpoint_interval 1000 ∷ []) refl refl

-- A node that stops before its embedded server is ready leaves the server open.
cancelled_boot : run_server cancelled stopped ≡ opened ∷ done ∷ []
unfolding run_server
cancelled_boot = refl

late_boot : run_server too_slow stopped ≡ opened ∷ closed ∷ waited ∷ done ∷ []
unfolding run_server
late_boot = refl

-- Without a stream the command exits.
no_stream : main plain all_answer default_flags ≡ fatal
unfolding main
no_stream = refl
