-- ===== src/Clamav/Examples.antt =====
-- Tests of app/services/clamav_client.py, and its theorems at concrete inputs.
use rfp.Clamav.{
  ClamavEnv, before_zero, connected, empty_result, ends_with, found_suffix, name_in, pack_length,
  read_bytes, read_until, received_bytes, reply_result, scan_stream, send_timeout, sent_all,
  stream_chunks, stream_ok, stream_prefix,
}
use rfp.Clamav.Cleared.{ClearedFile, scan_stream-ClearedFile}
use rfp.Clamav.Lines.{IsEngineVersion, IsNamed, parse_version_line-version_line, version_line}
use rfp.Clamav.Version.{
  VersionOps, after_space, check_connectivity, colon, engine_version_of, get_version_info,
  handshake, month_in, one_digit, parse_version_line, parse_version_timestamp, pong_response,
  some_name, some_spaces, spaces_off, three_letters, two_digits, two_digits_at_most, up_to_slash,
  version_parts, version_tail,
}
use rfp.Evidence.{starts_with}
use rfp.Extraction.World.{TextOps, strip}
use rfp.Prelude.{
  Text, [], any_char, arith, false, if◌then◌else◌, leb, none, refl, same_text, slice, some, true,
  ◌&&◌, ◌*◌, ◌++◌, ◌+◌, ◌-◌, ◌==◌, ◌||◌, ◌∷◌, ◌≡◌,
}
use rfp.Scan.World.{VersionInfo, clean, found, protocol_error, size_limit_exceeded, timeout}

abbrev clamav_chars : TextOps
clamav_chars = record {
  is_space = λ c. c == 0x20 || c == 0x0a;
  nfc = λ chars. chars;
  sha256 = λ chars. "h";
  show_id = λ n. n ∷ [];
  show_number = λ n. n ∷ [];
  code_points = λ s. [];
}

-- A file of three bytes in two reads, and a clamd that gives this reply.
abbrev answering : Text → ClamavEnv
answering reply = record {
  chars = clamav_chars;
  limit = 3;
  connection = connected;
  opens = true;
  reads = read_bytes (1 ∷ 2 ∷ []) ∷ read_bytes (0 ∷ []) ∷ [];
  send = λ n. sent_all;
  receive = received_bytes reply ∷ [];
  decode_reply = λ bytes. bytes;
  name_of = λ name. "n";
}

-- "stream: OK" and a zero; "stream: E FOUND" and a zero
abbrev ok_reply : Text
ok_reply = stream_ok ++ (0 ∷ [])

abbrev found_reply : Text
found_reply = stream_prefix ++ (0x45 ∷ (found_suffix ++ (0 ∷ [])))

abbrev three_bytes : Text
three_bytes = 0 ∷ 0 ∷ 0 ∷ 2 ∷ 1 ∷ 2 ∷ 0 ∷ 0 ∷ 0 ∷ 1 ∷ 0 ∷ 0 ∷ 0 ∷ 0 ∷ 0 ∷ []

answers :
    (scan_stream (answering ok_reply) ≡ (empty_result clean, three_bytes))
    × ((scan_stream (answering found_reply)).0
        ≡ record (empty_result found) { signature_name = some "n" })
    × ((scan_stream (answering (0x4f ∷ 0x4b ∷ []))).0 ≡ empty_result protocol_error)
unfolding scan_stream stream_chunks read_until pack_length any_char reply_result same_text strip
    before_zero starts_with ends_with name_in slice
answers = (refl, refl, refl)

-- A file past the limit is not sent further, and the length zero still ends the stream; a timeout of
-- the last send is told apart.
stops :
    (scan_stream (record (answering ok_reply) { limit = 2 })
      ≡ (empty_result size_limit_exceeded, 0 ∷ 0 ∷ 0 ∷ 2 ∷ 1 ∷ 2 ∷ 0 ∷ 0 ∷ 0 ∷ 0 ∷ []))
    × ((scan_stream
          (record (answering ok_reply) { send = λ n. if n == 3 then send_timeout else sent_all })).0
        ≡ empty_result timeout)
unfolding scan_stream stream_chunks pack_length
stops = (refl, refl)

scan_stream-ClearedFile_example :
    ClearedFile (answering ok_reply) (scan_stream (answering ok_reply)).1
unfolding scan_stream stream_chunks read_until any_char reply_result same_text strip before_zero
scan_stream-ClearedFile_example = scan_stream-ClearedFile (answering ok_reply) (omega arith) refl

abbrev version_ops : VersionOps
version_ops = record {
  env = answering ok_reply;
  decode_ascii = λ bytes. bytes;
  decimal = λ c. if leb 0x30 c && leb c 0x39 then some (c - 0x30) else none;
  datetime_of = λ year. λ month. λ day. λ hour. λ minute. λ second.
      if leb day 31
      then some (second + 100 * (minute + 100 * (hour + 100 * (day + 100 * (month + 100 * year)))))
      else none;
}

-- "ClamAV 1.4", "28058" and "Sun Jul 12 06:25:26 2026"
abbrev engine_text : Text
engine_text = 0x43 ∷ 0x6c ∷ 0x61 ∷ 0x6d ∷ 0x41 ∷ 0x56 ∷ 0x20 ∷ 0x31 ∷ 0x2e ∷ 0x34 ∷ []

abbrev signatures_text : Text
signatures_text = 0x32 ∷ 0x38 ∷ 0x30 ∷ 0x35 ∷ 0x38 ∷ []

abbrev time_text : Text
time_text =
    0x53 ∷ 0x75 ∷ 0x6e ∷ 0x20 ∷ 0x4a ∷ 0x75 ∷ 0x6c ∷ 0x20 ∷ 0x31 ∷ 0x32 ∷ 0x20 ∷ 0x30 ∷ 0x36 ∷ 0x3a
    ∷ 0x32 ∷ 0x35 ∷ 0x3a ∷ 0x32 ∷ 0x36 ∷ 0x20 ∷ 0x32 ∷ 0x30 ∷ 0x32 ∷ 0x36 ∷ []

-- Times with one digit for the day, with an unknown month, and with a day that is no day
abbrev early_text : Text
early_text =
    0x54 ∷ 0x68 ∷ 0x75 ∷ 0x20 ∷ 0x4a ∷ 0x75 ∷ 0x6c ∷ 0x20 ∷ 0x32 ∷ 0x20 ∷ 0x30 ∷ 0x36 ∷ 0x3a ∷ 0x32
    ∷ 0x35 ∷ 0x3a ∷ 0x32 ∷ 0x36 ∷ 0x20 ∷ 0x32 ∷ 0x30 ∷ 0x32 ∷ 0x36 ∷ []

abbrev unknown_month : Text
unknown_month =
    0x53 ∷ 0x75 ∷ 0x6e ∷ 0x20 ∷ 0x4a ∷ 0x75 ∷ 0x78 ∷ 0x20 ∷ 0x31 ∷ 0x32 ∷ 0x20 ∷ 0x30 ∷ 0x36 ∷ 0x3a
    ∷ 0x32 ∷ 0x35 ∷ 0x3a ∷ 0x32 ∷ 0x36 ∷ 0x20 ∷ 0x32 ∷ 0x30 ∷ 0x32 ∷ 0x36 ∷ []

abbrev no_day : Text
no_day =
    0x53 ∷ 0x75 ∷ 0x6e ∷ 0x20 ∷ 0x4a ∷ 0x75 ∷ 0x6c ∷ 0x20 ∷ 0x33 ∷ 0x32 ∷ 0x20 ∷ 0x30 ∷ 0x36 ∷ 0x3a
    ∷ 0x32 ∷ 0x35 ∷ 0x3a ∷ 0x32 ∷ 0x36 ∷ 0x20 ∷ 0x32 ∷ 0x30 ∷ 0x32 ∷ 0x36 ∷ []

parses :
    (parse_version_timestamp version_ops time_text ≡ some 20260712062526)
    × (parse_version_timestamp version_ops early_text ≡ some 20260702062526)
    × (parse_version_timestamp version_ops unknown_month ≡ none)
    × (parse_version_timestamp version_ops no_day ≡ none)
    × (check_connectivity version_ops ≡ false)
    × (check_connectivity (record version_ops { env = answering (pong_response ++ (0 ∷ [])) })
        ≡ true)
unfolding parse_version_timestamp three_letters strip some_spaces spaces_off two_digits_at_most
    two_digits one_digit colon month_in same_text check_connectivity handshake read_until any_char
    before_zero
parses = (refl, refl, refl, refl, refl, refl)

-- The line is trimmed first; without a second slash there is no version.
reads_version :
    (get_version_info (record version_ops {
      env = answering (version_line engine_text signatures_text time_text ++ (0x0a ∷ 0x20 ∷ []));
    })
      ≡ get_version_info (record version_ops {
        env = answering (version_line engine_text signatures_text time_text);
      }))
    × (parse_version_line version_ops (engine_text ++ (0x2f ∷ signatures_text)) ≡ none)
unfolding get_version_info handshake parse_version_line read_until engine_version_of some_name
    parse_version_timestamp any_char two_digits_at_most two_digits strip one_digit version_parts
    version_tail up_to_slash after_space
reads_version = (refl, refl)

parse_version_line-version_line_example :
    (info : VersionInfo) × (parse_version_line version_ops
        (version_line engine_text signatures_text time_text)
      ≡ some info)
    × IsEngineVersion version_ops.env (strip clamav_chars engine_text) info.engine_version
    × IsNamed version_ops.env (strip clamav_chars signatures_text) info.signature_version
    × (info.signature_timestamp
        ≡ parse_version_timestamp version_ops (strip clamav_chars time_text))
unfolding any_char
parse_version_line-version_line_example =
    parse_version_line-version_line version_ops engine_text signatures_text time_text refl refl refl
      refl refl refl refl
