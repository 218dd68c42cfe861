-- ===== src/Examples/ClientRuns.antt =====
-- The connection of DBMiddlewareClient.cpp: failed attempts, heartbeats after a reconnect, a failed write.
use server_application.Common.{◌≡◌, refl, true, false, List, [], ◌∷◌, arith, All, Text, codes}
use server_application.Framing.{Bytes, empty_buffer}
use server_application.Client.{Client, arms_reconnect, on_connect, on_heartbeat, on_written}
use server_application.Client.Acks.{
  on_server_login_ack, IsServing, answered_heartbeats, heartbeats_need_answers,
}
use server_application.Client.Reconnect.{fails, backoff_doubles, rounds, heartbeat_never_recovers}
use server_application.Client.Writes.{
  Event, connect_ends, sends, heartbeat, reconnect_timer, run, IsQuiet, never_writes_again,
}

abbrev plain_text : Text → Bytes
plain_text id = id

abbrev new_client : Client
new_client = record {
  secret = [];
  socket_open = true;
  connected = true;
  stopping = false;
  server_login_sent = true;
  authed = true;
  missed_heartbeat = 3;
  msg_buf = empty_buffer;
  write_queue = (1 ∷ []) ∷ [];
  write_in_progress = true;
  reconnect_sec = 2;
  timeout_count = 0;
  request_timers = [];
  counter = 0;
}

backoff_doubles_example :
    (on_connect plain_text true (fails plain_text new_client 3)).1 ≡ arms_reconnect 30 ∷ []
backoff_doubles_example = backoff_doubles plain_text new_client 3 refl refl

heartbeat_never_recovers_example :
    ((rounds plain_text plain_text new_client 2).connected ≡ false)
    × ((rounds plain_text plain_text new_client 2).missed_heartbeat ≡ 5)
    × ((rounds plain_text plain_text new_client 2).stopping ≡ false)
heartbeat_never_recovers_example =
    heartbeat_never_recovers plain_text plain_text new_client 1 refl (omega arith)

abbrev after_error : List Event
after_error = reconnect_timer ∷ connect_ends false ∷ sends (7 ∷ []) ∷ heartbeat ∷ []

never_writes_again_example :
    All IsQuiet (run false plain_text plain_text (on_written true new_client).0 after_error).1
never_writes_again_example =
    never_writes_again false plain_text plain_text new_client (1 ∷ []) [] after_error refl

abbrev fresh_client : Client
fresh_client = record new_client {
  authed = false;
  missed_heartbeat = 0;
  write_in_progress = false;
  write_queue = [];
}

abbrev acked_client : Client
acked_client = (on_server_login_ack (codes "OK") false fresh_client).0

heartbeats_need_answers_example :
    IsServing (answered_heartbeats plain_text 5 acked_client)
    × IsServing (on_heartbeat plain_text (on_heartbeat plain_text acked_client).0).0
    × ((on_heartbeat plain_text
          (on_heartbeat plain_text (on_heartbeat plain_text acked_client).0).0).0.connected
        ≡ false)
heartbeats_need_answers_example =
    heartbeats_need_answers plain_text 5 false fresh_client refl refl refl
