-- ===== src/Net/Connector/Tests.antt =====
-- The theorems on net/Connector.cc at concrete connectors.
use leaf.Shared.{refl, true, false, List, [], ◌∷◌, some}
use leaf.Net.Channel.{new_channel, enable_writing, disable_all, remove, update, is_none_event}
use leaf.Net.Connector.{
  Connector, new_connector, k_connected, Attempt, Event, starts, writable, run, step, start,
  start_in_loop, connect, connecting, is_under_way, is_disconnected, is_connecting, no_channel,
  handle_write, hand_over, remove_and_reset_channel, take_out, queue_in_loop, reset_functor,
}
use leaf.Net.Connector.Sound.{Sound}
use leaf.Net.Connector.Descriptors.{run-new_connector}

-- EINPROGRESS on descriptor 7.
abbrev under_way : Attempt
under_way = record { sockfd = 7; saved_errno = 115 }

-- A connect is under way, and succeeds.
abbrev events : List Event
events = starts true under_way ∷ writable false ∷ []

abbrev done : Connector
done = record (new_connector) {
  connect_flag = true;
  state = k_connected;
  channel =
      some
        (record (disable_all (
          new_channel 7 (record {
            read_callback = false;
            write_callback = true;
            close_callback = false;
            error_callback = true;
          }))) { added = false });
  queued = reset_functor ∷ [];
  opened = 7 ∷ [];
  handed_over = 7 ∷ [];
}

run-new_connector_example : Sound done
unfolding new_connector run step start start_in_loop connect connecting is_under_way is_disconnected
    is_connecting no_channel handle_write hand_over remove_and_reset_channel take_out queue_in_loop
    remove disable_all enable_writing update is_none_event new_channel
run-new_connector_example = run-new_connector events done (tt, λ _ _. (tt, λ _ _. tt)) refl

-- A connector that the user has started.
abbrev wanted : Connector
wanted = record (new_connector) { connect_flag = true }

-- ECONNREFUSED on descriptor 8.
abbrev refused : Attempt
refused = record { sockfd = 8; saved_errno = 111 }
