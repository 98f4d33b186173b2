-- ===== src/Net/TcpConnection/Tests.antt =====
-- The theorems on net/TcpConnection.cc at concrete connections.
use leaf.Shared.{ℕ, ◌≡◌, refl, List, [], ◌∷◌, ◌++◌, arith, replicate, true, false}
use leaf.Shared.Outcome.{assert_failed}
use leaf.Net.Buffer.{Buffer}
use leaf.Net.Buffer.Content.{IsValid}
use leaf.Net.Buffer.Transfer.{new_buffer-IsValid, delivered}
use leaf.Net.Channel.{
  disable_all, new_channel, enable_writing, enable_reading, update, is_writing, tie,
}
use leaf.Net.TcpConnection.{
  connected, disconnected, up, down, closed, Conn, new_connection, wrote, refused, handle_read,
  reads, Event, sends, shuts, forces, establishes, destroys, runs, force_close_task, step, run,
  is_connecting, is_open, connect_established, call_user, handle_close,
}
use leaf.Net.TcpConnection.Bytes.{Inv}
use leaf.Net.TcpConnection.Protocol.{Protocol}
use leaf.Net.TcpConnection.Closing.{Goes, step-Goes}
use leaf.Net.TcpConnection.Life.{connect_destroyed-aborts}

-- "hi" waits after sixteen bytes that were sent, and two bytes are free.
abbrev waiting_buffer : Buffer
waiting_buffer = record {
  buffer = replicate 16 7 ++ (104 ∷ 105 ∷ 0 ∷ 0 ∷ []);
  reader_index = 16;
  writer_index = 18;
}

waiting_buffer-IsValid : IsValid waiting_buffer
waiting_buffer-IsValid = omega arith

abbrev hello : List ℕ
hello = 104 ∷ 101 ∷ 108 ∷ 108 ∷ 111 ∷ []

-- An established connection that waits to write the buffer's bytes.
abbrev waiting : Conn
waiting = record (new_connection 5) {
  state = connected;
  channel = enable_writing (new_channel 5 (new_connection 5).channel.callbacks);
  output_buffer = waiting_buffer;
  calls = up ∷ [];
}

waiting-Inv : Inv waiting
unfolding new_connection enable_writing update is_writing
waiting-Inv = record {
  output_valid = waiting_buffer-IsValid;
  input_valid = new_buffer-IsValid;
  idle = λ _ q. absurd (cc);
  busy = λ _ _ q. absurd (cc);
}

-- What `sendInLoop` leaves there of a message that fits behind the content.
abbrev longer : Conn
longer = record waiting {
  output_buffer = record {
    buffer = replicate 16 7 ++ (104 ∷ 105 ∷ 33 ∷ 0 ∷ []);
    reader_index = 16;
    writer_index = 19;
  };
}

-- What `handleWrite` leaves there when the socket takes one byte.
abbrev shorter : Conn
shorter = record waiting {
  sent = 104 ∷ [];
  output_buffer = record (waiting_buffer) { reader_index = 17 };
}

-- A connection is established, sends, is closed by force, and is destroyed.
abbrev events : List Event
events =
    establishes
    ∷ sends true hello 0 (wrote 5)
    ∷ forces
    ∷ runs force_close_task 0 (refused 11)
    ∷ destroys
    ∷ []

abbrev finished : Conn
finished = record (new_connection 5) {
  state = disconnected;
  channel = record (tie (new_connection 5).channel) { added = false };
  sent = hello;
  queued = force_close_task ∷ [];
  calls = up ∷ down ∷ closed ∷ [];
}

-- A connection that has just been established.
abbrev established : Conn
established = record (new_connection 5) {
  state = connected;
  channel = enable_reading (tie (new_connection 5).channel);
  calls = up ∷ [];
}

connect_destroyed-aborts_example : run established (shuts true ∷ destroys ∷ []) ≡ assert_failed
unfolding new_connection run step connect_established is_connecting call_user is_open
connect_destroyed-aborts_example =
    connect_destroyed-aborts 5 (establishes ∷ []) established true (tt, tt) refl refl

-- The peer ends the stream.
step-Goes_example : Goes waiting (record waiting {
  state = disconnected;
  channel = disable_all waiting.channel;
  calls = up ∷ down ∷ closed ∷ [];
})
unfolding new_connection step handle_read handle_close is_open call_user
step-Goes_example = step-Goes waiting (reads (delivered [])) _ refl refl
