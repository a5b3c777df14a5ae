-- ===== src/Clamav.antt =====
-- app/services/clamav_client.py, scan_stream: a file is streamed to clamd over INSTREAM and the reply
-- becomes a scan result. The socket and the file are what they answer to each call.
pub mod Wire
pub mod Cleared
pub mod Version
pub mod Lines
mod Examples
use Prim.Native.Nat.{◌%◌, ◌/◌}
use mathlib.Core.List.{reverse}
use rfp.Evidence.{starts_with}
use rfp.Extraction.World.{TextOps, is_empty, strip}
use rfp.Prelude.{
  Bool, List, Option, String, Text, [], any_char, if◌then◌else◌, length, ltb, none, same_text,
  slice, some, ℕ, ◌&&◌, ◌++◌, ◌+◌, ◌-◌, ◌==◌, ◌||◌, ◌∷◌,
}
use rfp.Scan.World.{
  ScanOutcome, ScanResult, clean, error, found, protocol_error, size_limit_exceeded, timeout,
  unavailable,
}

pub data Connected : Type 0 where
  connected connect_timeout connect_failed : Connected

-- What one `sendall` does.
pub data SendAnswer : Type 0 where
  sent_all send_timeout send_failed : SendAnswer

-- What one `recv` returns.
pub data Received : Type 0 where
  received_bytes : Text → Received
  receive_timeout receive_failed : Received

-- What one `handle.read` returns; after the last answer the file is at its end.
pub data Read : Type 0 where
  read_bytes : Text → Read
  read_failed : Read

-- `send` answers the calls of `sendall` in order, `receive` those of `recv`. `decode_reply` is the
-- decoding of UTF-8 with replacement, and `name_of` the text of a signature name.
pub record ClamavEnv : Type 0 where
  pub chars : TextOps
  pub limit : ℕ
  pub connection : Connected
  pub opens : Bool
  pub reads : List Read
  pub send : ℕ → SendAnswer
  pub receive : List Received
  pub decode_reply : Text → Text
  pub name_of : Text → String

abbrev pub empty_result : ScanOutcome → ScanResult
empty_result o = record {
  outcome = o;
  signature_name = none;
  engine_version = none;
  signature_version = none;
}

-- b"zINSTREAM\0", and the chunk of length zero
abbrev pub instream_command : Text
instream_command = 0x7a ∷ 0x49 ∷ 0x4e ∷ 0x53 ∷ 0x54 ∷ 0x52 ∷ 0x45 ∷ 0x41 ∷ 0x4d ∷ 0x00 ∷ []

abbrev pub zero_chunk : Text
zero_chunk = 0 ∷ 0 ∷ 0 ∷ 0 ∷ []

-- `struct.pack(">I", n)`, for n below 2^32
unfoldable pub pack_length : ℕ → Text
pack_length n = (n / 16777216 % 256) ∷ (n / 65536 % 256) ∷ (n / 256 % 256) ∷ (n % 256) ∷ []

-- The bytes that have been sent, with how the loop over the file ended: at the end of the file or past
-- the limit, after so many sends, or with the outcome of a failure.
pub data Streamed : Type 0 where
  finished : ℕ → Text → Streamed
  exceeded : ℕ → Text → Streamed
  stopped : ScanOutcome → Text → Streamed

-- A failure of `sendall` ends in the outer `except`.
abbrev pub after_send {ℓ} : {A : Type ℓ} → (ScanOutcome → A) → SendAnswer → A → A
after_send stop sent_all next_step = next_step
after_send stop send_timeout next_step = stop timeout
after_send stop send_failed next_step = stop unavailable

-- The loop over the chunks, after `n` sends and `so_far` bytes of the file.
unfoldable pub stream_chunks : ClamavEnv → ℕ → ℕ → Text → List Read → Streamed
stream_chunks env n so_far wire [] = finished n wire
stream_chunks env n so_far wire (read_failed ∷ rest) = stopped unavailable wire
stream_chunks env n so_far wire (read_bytes [] ∷ rest) = finished n wire
stream_chunks env n so_far wire (read_bytes (b ∷ bs) ∷ rest) =
    let chunk = b ∷ bs in
    let later =
      stream_chunks env (n + 1) (so_far + length chunk)
        (wire ++ (pack_length (length chunk) ++ chunk)) rest in
    if ltb env.limit (so_far + length chunk)
    then exceeded n wire
    else after_send (λ o. stopped o wire) (env.send n) later

abbrev pub max_response_bytes : ℕ
max_response_bytes = 8192

-- The bytes received, or how the connection failed.
pub data Response : Type 0 where
  response_bytes : Text → Response
  response_failed : ScanOutcome → Response

-- `_read_until`: the bytes up to the piece that has the terminator, if one does.
unfoldable pub read_until : ℕ → Text → List Received → Response
read_until stop bytes [] = response_bytes bytes
read_until stop bytes (receive_timeout ∷ rest) = response_failed timeout
read_until stop bytes (receive_failed ∷ rest) = response_failed unavailable
read_until stop bytes (received_bytes [] ∷ rest) = response_bytes bytes
read_until stop bytes (received_bytes (c ∷ cs) ∷ rest) =
    let more = bytes ++ (c ∷ cs) in
    let later = read_until stop more rest in
    if any_char (λ b. b == stop) more || ltb max_response_bytes (length more)
    then response_bytes more
    else later

-- `raw.split(b"\0", 1)[0]`
unfoldable pub before_zero : Text → Text
before_zero [] = []
before_zero (c ∷ cs) = let rest = before_zero cs in if c == 0 then [] else c ∷ rest

-- "stream: OK", "stream: ", " FOUND" and " ERROR"
abbrev pub stream_ok : Text
stream_ok = 0x73 ∷ 0x74 ∷ 0x72 ∷ 0x65 ∷ 0x61 ∷ 0x6d ∷ 0x3a ∷ 0x20 ∷ 0x4f ∷ 0x4b ∷ []

abbrev pub stream_prefix : Text
stream_prefix = 0x73 ∷ 0x74 ∷ 0x72 ∷ 0x65 ∷ 0x61 ∷ 0x6d ∷ 0x3a ∷ 0x20 ∷ []

abbrev pub found_suffix : Text
found_suffix = 0x20 ∷ 0x46 ∷ 0x4f ∷ 0x55 ∷ 0x4e ∷ 0x44 ∷ []

abbrev pub error_suffix : Text
error_suffix = 0x20 ∷ 0x45 ∷ 0x52 ∷ 0x52 ∷ 0x4f ∷ 0x52 ∷ []

unfoldable pub ends_with : Text → Text → Bool
ends_with suffix chars = starts_with (reverse suffix) (reverse chars)

-- The signature name in a reply of a found signature.
unfoldable pub name_in : ClamavEnv → Text → Option String
name_in env reply =
    let name = strip env.chars (slice reply 8 (length reply - 6)) in
    if is_empty name then none else some (env.name_of name)

unfoldable pub reply_result : ClamavEnv → Text → ScanResult
reply_result env reply =
    if same_text reply stream_ok
    then empty_result clean
    else if starts_with stream_prefix reply && ends_with found_suffix reply
    then record (empty_result found) { signature_name = name_in env reply }
    else if starts_with stream_prefix reply && ends_with error_suffix reply
    then empty_result error
    else empty_result protocol_error

with_response : ClamavEnv → Response → ScanResult
with_response env (response_failed o) = empty_result o
with_response env (response_bytes raw) =
    reply_result env (strip env.chars (env.decode_reply (before_zero raw)))

-- After the chunk of length zero.
after_zero : ClamavEnv → Streamed → ScanResult
unfolding with_response
after_zero env (finished n wire) = with_response env (read_until 0 [] env.receive)
after_zero env _ = empty_result size_limit_exceeded

sent_zero : ClamavEnv → Streamed → Text → SendAnswer → ScanResult × Text
unfolding after_zero
sent_zero env s wire sent_all = (after_zero env s, wire ++ zero_chunk)
sent_zero env s wire send_timeout = (empty_result timeout, wire)
sent_zero env s wire send_failed = (empty_result unavailable, wire)

with_streamed : ClamavEnv → Streamed → ScanResult × Text
unfolding sent_zero
with_streamed env (finished n wire) = sent_zero env (finished n wire) wire (env.send n)
with_streamed env (exceeded n wire) = sent_zero env (exceeded n wire) wire (env.send n)
with_streamed env (stopped o wire) = (empty_result o, wire)

with_handle : ClamavEnv → ScanResult × Text
unfolding with_streamed
with_handle env =
    if env.opens
    then with_streamed env (stream_chunks env 1 0 [] env.reads)
    else (empty_result unavailable, [])

with_command : ClamavEnv → SendAnswer → ScanResult × Text
unfolding with_handle
with_command env sent_all = with_handle env
with_command env send_timeout = (empty_result timeout, [])
with_command env send_failed = (empty_result unavailable, [])

on_connection : ClamavEnv → Connected → ScanResult × Text
unfolding with_command
on_connection env connect_timeout = (empty_result timeout, [])
on_connection env connect_failed = (empty_result unavailable, [])
on_connection env connected = with_command env (env.send 0)

-- The result, with the bytes that were sent after the command.
unfoldable pub scan_stream : ClamavEnv → ScanResult × Text
unfolding on_connection
scan_stream env = on_connection env env.connection
