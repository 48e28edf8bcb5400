-- ===== src/Pipe/Handshake/Tests.antt =====
-- Runs of the handshake of a server, and of the selection of the channels.
use tensorpipe.Pipe.Handshake.{BrochureAnswer}
use tensorpipe.Pipe.Handshake.Client.{
  Client, start_client, on_brochure_answer, take_answer, take_channels, replace_connection,
  open_reply_connection, open_connection, open_connections, open_channels, is_consistent,
  find_transport,
}
use tensorpipe.Pipe.Handshake.Announced.{
  or_client, answer_tokens, HasAnnounced, on_brochure_answer-announces,
}
use tensorpipe.Prelude.{false}
use tensorpipe.Prelude.{◌≡◌, ◌↔◌, refl, true, none, some, List, [], ◌∷◌, arith, length}
use tensorpipe.Pipe.Types.{pos, Device, PipeState}
use tensorpipe.Pipe.Actions.{find_channel}
use tensorpipe.Pipe.Handlers.{new_pipe}
use tensorpipe.Pipe.Selection.{
  TransportContext, ChannelContext, SelectedTransport, select_channels, select_transport,
  try_transport, find_key, select_channels_from, try_channel, try_locals, try_remotes, try_pair,
}
use tensorpipe.Pipe.Selection.First.{first_channel, select_channels-first}
use tensorpipe.Pipe.Selection.Peers.{ArePeers, describe_channels}
use tensorpipe.Pipe.Selection.Agreement.{select_channels-agree}
use tensorpipe.Listener.{new_listener, register_connection_request}
use tensorpipe.Pipe.Handshake.{
  Brochure, Contexts, Server, ConnectionId, Arrival, connection_arrives, channel_connection_arrives,
  on_brochure, answer_brochure, arrive_all, conclude_brochure, register_transports,
  register_transport, register_channels, register_channel, register_connections,
  pending_registrations, find_registration_id, arrive, server_error, on_connection,
  on_channel_connection, erase_registration_id, erase_key, put_key, establish_if_complete,
}
use tensorpipe.Pipe.Handshake.Established.{pending, AllExpected}
use tensorpipe.Pipe.Handshake.Answer.{IsFresh, on_brochure-established}

abbrev cpu : Device
cpu = record { device_type = "cpu"; index = pos 0 }

abbrev basic_channel : ChannelContext
basic_channel = record {
  name = "basic";
  device_descriptors = (cpu, "any") ∷ [];
  can_communicate_with_remote = (λ a b. true);
}

abbrev shm_transport : TransportContext
shm_transport = record {
  name = "shm";
  domain_descriptor = "host";
  can_communicate_with_remote = (λ a. true);
}

abbrev contexts : Contexts
contexts = record {
  ordered_transports = shm_transport ∷ [];
  ordered_channels = basic_channel ∷ [];
  num_connections_needed = (λ name. 1);
  addresses = ("shm", "here") ∷ [];
}

abbrev brochure : Brochure
brochure = record {
  transport_domain_descriptors = ("shm", "host") ∷ [];
  channel_device_descriptors = ("basic", (cpu, "any") ∷ []) ∷ [];
}

abbrev fresh_server : Server
fresh_server = record {
  pipe = new_pipe PipeState.server_waiting_for_brochure;
  listener = new_listener ("shm" ∷ []);
  transport = "uv";
  descriptor_connection = some 1;
  descriptor_reply_connection = none;
  channel_received_connections = [];
  channels = [];
  answer = none;
  handshake_checked = true;
}

abbrev shm_selected : SelectedTransport
shm_selected = record { name = "shm"; address = "here"; domain_descriptor = "host" }

abbrev answered_server : Server
answered_server = answer_brochure contexts brochure shm_selected fresh_server

abbrev three_arrivals : List Arrival
three_arrivals =
    connection_arrives ConnectionId.descriptor_reply "shm" 5
    ∷ channel_connection_arrives "basic" 0 "shm" 6
    ∷ connection_arrives ConnectionId.descriptor "shm" 7
    ∷ []

fresh_server-IsFresh : IsFresh fresh_server
unfolding new_pipe
fresh_server-IsFresh = record {
  waits_for_brochure = refl;
  no_error = refl;
  no_channels = refl;
  none_received = refl;
}

answered_server_selected : on_brochure contexts brochure fresh_server ≡ some answered_server
unfolding on_brochure select_transport try_transport find_key new_pipe
answered_server_selected = refl

pending-answered_server : pending answered_server ≡ 3
unfolding answer_brochure conclude_brochure register_transports register_transport register_channels
    register_channel register_connections register_connection_request pending_registrations
    find_registration_id select_channels select_channels_from try_channel try_locals try_remotes
    try_pair find_key find_channel new_pipe new_listener
pending-answered_server = refl

three_arrivals_expected : AllExpected three_arrivals answered_server
unfolding answer_brochure conclude_brochure register_transports register_transport register_channels
    register_channel register_connections register_connection_request pending_registrations
    find_registration_id select_channels select_channels_from try_channel try_locals try_remotes
    try_pair find_key find_channel new_pipe new_listener arrive server_error on_connection
    on_channel_connection erase_registration_id erase_key put_key establish_if_complete
three_arrivals_expected = (refl, (refl, (refl, tt)))

on_brochure-established_example :
    (length three_arrivals ≡ pending answered_server)
    ↔ ((arrive_all three_arrivals answered_server).pipe.core.state ≡ PipeState.established)
on_brochure-established_example =
    on_brochure-established contexts brochure fresh_server answered_server three_arrivals
      fresh_server-IsFresh (λ name. omega arith) answered_server_selected three_arrivals_expected

select_channels-first_example :
    find_channel cpu cpu
      (select_channels
        (basic_channel ∷ [])
        (brochure.channel_device_descriptors)).channel_for_device_pair
    ≡ first_channel cpu cpu (basic_channel ∷ []) (brochure.channel_device_descriptors)
select_channels-first_example =
    select_channels-first (basic_channel ∷ []) (brochure.channel_device_descriptors) cpu cpu

-- The other end has the same channel.
basic_channel-ArePeers : ArePeers (basic_channel ∷ []) (basic_channel ∷ [])
basic_channel-ArePeers = (record { same_name = refl; symmetric = (λ a b. refl) }, tt)

select_channels-agree_example :
    find_channel cpu cpu
      (select_channels
        (basic_channel ∷ [])
        (select_channels (basic_channel ∷ []) (describe_channels (basic_channel ∷ []))
          ).descriptors_map).channel_for_device_pair
    ≡ find_channel cpu cpu
        (select_channels
          (basic_channel ∷ [])
          (describe_channels (basic_channel ∷ []))).channel_for_device_pair
select_channels-agree_example =
    select_channels-agree (basic_channel ∷ []) (basic_channel ∷ []) cpu cpu basic_channel-ArePeers
      (refl, tt)

-- The client's end, with the answer of such a server.
abbrev an_answer : BrochureAnswer
an_answer = record {
  transport = "shm";
  address = "here";
  transport_registration_ids = (0, 4) ∷ (1, 5) ∷ [];
  transport_domain_descriptor = "host";
  channel_registration_ids = ("basic", 6 ∷ []) ∷ [];
  channel_device_descriptors = ("basic", (cpu, "any") ∷ []) ∷ [];
  channel_for_device_pair = ((cpu, cpu), "basic") ∷ [];
}

abbrev a_client : Client
a_client = start_client false "here" contexts (record {
  pipe = new_pipe PipeState.client_about_to_send_hello_and_brochure;
  transport = "uv";
  descriptor_connection = 0;
  descriptor_reply_connection = none;
  channels = [];
  connections = 1;
  written = [];
  client_checked = true;
})

abbrev connected_client : Client
connected_client = or_client a_client (on_brochure_answer contexts an_answer a_client)

a_client_connects : on_brochure_answer contexts an_answer a_client ≡ some connected_client
unfolding on_brochure_answer take_answer take_channels replace_connection open_reply_connection
    open_connection open_connections open_channels is_consistent find_transport find_registration_id
    select_channels select_channels_from try_channel try_locals try_remotes try_pair find_key
    find_channel start_client
a_client_connects = refl

on_brochure_answer-announces_example :
    (connected_client.pipe.core.state ≡ PipeState.established)
    × HasAnnounced (answer_tokens contexts an_answer a_client) a_client connected_client
on_brochure_answer-announces_example =
    on_brochure_answer-announces contexts an_answer a_client connected_client a_client_connects
