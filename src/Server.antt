-- ===== src/Server.antt =====
-- app/libwebsockets-master/srl/secure-rfid-login.c: the WebSocket server that a web page asks for the
-- credentials of the card. libwebsockets is a vendored library; what the callbacks call of it stands
-- here as an interface over a state `W` of the world, for the connection `wsi` of the callback.
pub mod Origin
pub mod Credentials
pub mod Mirror
pub mod PollFds
pub mod Http
pub mod Service
pub mod Dump
use secure_rfid_login.Common.{ℕ, Bool, List, ℤ}

-- The reasons of a callback that the program tells apart.
pub data Reason : Type 0 where
  established : Reason
  receive : Reason
  server_writeable : Reason
  protocol_destroy : Reason
  filter_protocol_connection : Reason
  filter_network_connection : Reason
  http : Reason
  http_writeable : Reason
  http_file_completion : Reason
  other : Reason

-- `hdr_total_length` is 0 for an absent header; `hdr_copy token buf size` is what `buf` holds after
-- `lws_hdr_copy`. `write` returns the number of bytes written, or a negative number. `message_box` is
-- Windows' `MessageBox`.
pub record Connection (W : Type 0) : Type 0 where
  pub hdr_total_length : ℕ → W → ℕ
  pub hdr_copy : ℕ → List ℕ → ℕ → W → List ℕ
  pub write : List ℕ → W → ℤ × W
  pub send_pipe_choked : W → Bool
  pub callback_on_writable : W → W
  pub callback_on_writable_all : W → W
  pub rx_flow_control : ℕ → W → W
  pub rx_flow_allow_all : W → W
  pub message_box : W → ℕ × W
