-- ===== src/Net/TcpServer/Tests.antt =====
-- The theorems on net/TcpServer.cc at a concrete sequence of events.
use leaf.Shared.{◌≡◌, refl, true, false, List, [], ◌∷◌, none, some, arith}
use leaf.Shared.Int.{◌+ℤ◌, ◌-ℤ◌, ◌*ℤ◌, ◌/ℤ◌, rem_ℤ}
use leaf.Shared.Outcome.{ok}
use leaf.Base.LogStream.{convert, convert_loop, zero_at}
use leaf.Base.LogStream.Decimal.{decimal}
use leaf.Net.Channel.{new_channel, is_none_event, tie, update, enable_reading, disable_all, remove}
use leaf.Net.Acceptor
use leaf.Net.Acceptor.{Acceptor}
use leaf.Net.EventLoopThreadPool
use leaf.Net.TcpConnection
use leaf.Net.TcpConnection.{
  Conn, closes, is_open, is_connecting, is_connected, call_user, connect_established,
  leave_connected, connect_destroyed, handle_close,
}
use leaf.Net.TcpServer.{
  TcpServer, new_server, set_thread_num, set_write_complete_callback, start, start_first,
  listen_from, conn_name, same_name, erased, erase, assign_name, put_object, run_bound, queue_in_io,
  run_in_io, new_connection_on, new_connection, remove_object, remove_connection_in_loop,
  remove_connection, close_callbacks, touch_object, touch, run_task, run_base, run_queued,
  run_io_of, Happening, accepts, touches, base_runs, io_runs, step, run,
}
use leaf.Net.TcpServer.Accepting.{Serves}
use leaf.Net.TcpServer.Runs.{AllAdmitted, run-start}

abbrev acceptor : Acceptor
acceptor = record {
  accept_channel = new_channel 3 (record {
    read_callback = true;
    write_callback = false;
    close_callback = false;
    error_callback = false;
  });
  has_callback = false;
  listenning = false;
  idle_fd = some 4;
  opened = 4 ∷ [];
  closed = [];
  handed_over = [];
}

-- A server with one thread.
abbrev server : TcpServer
server = record {
  name = 115 ∷ [];
  hostport = 104 ∷ [];
  started = true;
  acceptor = Acceptor.listen (Acceptor.set_new_connection_callback acceptor);
  pool = record { started = true; num_threads = 1; next = 0; loops = 1 ∷ []; initialised = [] };
  next_conn_id = 1;
  connections = [];
  objects = λ _. none;
  base_queue = [];
  has_write_complete = true;
}

server_starts :
    start
      (set_thread_num
        (set_write_complete_callback (new_server (115 ∷ []) (104 ∷ []) acceptor) true)
        1)
      false
      true
    ≡ ok server
unfolding start start_first set_thread_num set_write_complete_callback new_server listen_from
    EventLoopThreadPool.start EventLoopThreadPool.set_thread_num EventLoopThreadPool.new_pool
    EventLoopThreadPool.start_loops Acceptor.set_new_connection_callback
server_starts = refl

-- A connection comes, closes, is removed and ends.
abbrev life : List Happening
life = accepts 5 ∷ io_runs 1 ∷ touches 1 closes ∷ base_runs ∷ io_runs 1 ∷ []

life-AllAdmitted : AllAdmitted server life
unfolding step new_connection new_connection_on run_in_io queue_in_io put_object conn_name
    assign_name erase run_io_of run_queued run_bound touch touch_object close_callbacks
    remove_connection remove_connection_in_loop remove_object run_base run_task erased same_name
    EventLoopThreadPool.get_next_loop EventLoopThreadPool.advance EventLoopThreadPool.is_empty
    TcpConnection.new_connection TcpConnection.step connect_established connect_destroyed
    leave_connected handle_close call_user is_open is_connecting is_connected new_channel
    is_none_event tie update enable_reading disable_all remove decimal convert convert_loop zero_at
    ◌+ℤ◌ ◌-ℤ◌ ◌*ℤ◌ ◌/ℤ◌ rem_ℤ
life-AllAdmitted = (omega arith, (tt, ((_, _, refl, refl, refl), (tt, (tt, tt)))))

run-start_example : Serves (run server life)
run-start_example =
    run-start (115 ∷ []) (104 ∷ []) acceptor 1 true false true server life (omega arith)
      server_starts life-AllAdmitted
