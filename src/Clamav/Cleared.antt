-- ===== src/Clamav/Cleared.antt =====
-- What a CLEAN result of scan_stream (app/services/clamav_client.py) means.
use mathlib.Core.List.{append-nil, append_assoc}
use mathlib.Core.Path.{subst}
use rfp.Clamav.{
  ClamavEnv, Connected, Read, Received, Response, SendAnswer, Streamed, after_send, after_zero,
  before_zero, connect_failed, connect_timeout, connected, empty_result, ends_with, error_suffix,
  exceeded, finished, found_suffix, max_response_bytes, on_connection, pack_length, read_bytes,
  read_failed, read_until, receive_failed, receive_timeout, received_bytes, reply_result,
  response_bytes, response_failed, scan_stream, send_failed, send_timeout, sent_all, sent_zero,
  stopped, stream_chunks, stream_ok, stream_prefix, with_command, with_handle, with_response,
  with_streamed, zero_chunk,
}
use rfp.Clamav.Wire.{prepend, unframe, unframe_frame, unframe_zero}
use rfp.Evidence.{starts_with}
use rfp.Extraction.World.{strip}
use rfp.Prelude.{
  List, Option, Text, [], any_char, ap, arith, if_both, length, length-append, ltb, none, refl,
  same_text, same_text_iff, some, suc, sym, true, ℕ, ◌&&◌, ◌++◌, ◌+◌, ◌<◌, ◌==◌, ◌||◌, ◌∙◌, ◌∷◌,
  ◌≡◌, ◌≢◌, ◌≤◌,
}
use rfp.Scan.World.{ScanOutcome, ScanResult, clean, timeout, unavailable}

-- The bytes of a file, if every read up to its end succeeds.
unfoldable pub file_bytes : List Read → Option Text
file_bytes [] = some []
file_bytes (read_failed ∷ rest) = none
file_bytes (read_bytes [] ∷ rest) = some []
file_bytes (read_bytes (b ∷ bs) ∷ rest) = prepend (b ∷ bs) (file_bytes rest)

-- The whole file was framed: what follows `wire` reads back as the file, which is within the limit.
record Framed (env : ClamavEnv) (so_far : ℕ) (reads : List Read) (wire sent : Text) : Type 0 where
  file : Text
  frames : Text
  is_file : file_bytes reads ≡ some file
  is_wire : sent ≡ wire ++ frames
  reads_back : unframe (length reads + 1) (frames ++ zero_chunk) ≡ some file
  within : so_far + length file ≤ env.limit

abbrev IsFramed : ClamavEnv → ℕ → List Read → Text → Streamed → Type 0
IsFramed env so_far reads wire (finished n sent) = Framed env so_far reads wire sent
IsFramed env so_far reads wire _ = Unit

one_more : (n : ℕ) → unframe (n + 1) zero_chunk ≡ some []
one_more n =
    let e : n + 1 ≡ suc n = omega arith in
    ap (λ (fuel : ℕ). unframe fuel zero_chunk) e ∙ unframe_zero n

at_end :
    (env : ClamavEnv) (n so_far : ℕ) (reads : List Read) (wire : Text)
    → so_far ≤ env.limit
    → file_bytes reads ≡ some []
    → IsFramed env so_far reads wire (finished n wire)
at_end env n so_far reads wire h e = record {
  file = [];
  frames = [];
  is_file = e;
  is_wire = sym (append-nil wire);
  reads_back = one_more (length reads);
  within = omega (arith, h);
}

framed_reads_back :
    (b : ℕ) (bs frames file : Text) (n : ℕ)
    → length (b ∷ bs) < 4294967296
    → unframe (n + 1) (frames ++ zero_chunk) ≡ some file
    → unframe (suc n + 1) (((pack_length (length (b ∷ bs)) ++ (b ∷ bs)) ++ frames) ++ zero_chunk)
      ≡ some ((b ∷ bs) ++ file)
framed_reads_back b bs frames file n h e =
    let fuel : suc n + 1 ≡ suc (n + 1) = omega arith in
    let size = pack_length (length (b ∷ bs)) in
    let flat : ((size ++ (b ∷ bs)) ++ frames) ++ zero_chunk
        ≡ size ++ ((b ∷ bs) ++ (frames ++ zero_chunk)) =
      append_assoc (size ++ (b ∷ bs)) frames zero_chunk
      ∙ append_assoc size (b ∷ bs) (frames ++ zero_chunk) in
    ap (λ (f : ℕ). unframe f (((size ++ (b ∷ bs)) ++ frames) ++ zero_chunk)) fuel
    ∙ ap (λ (t : Text). unframe (suc (n + 1)) t) flat
    ∙ unframe_frame (n + 1) b bs (frames ++ zero_chunk) h
    ∙ ap (λ (o : Option Text). prepend (b ∷ bs) o) e

module _ (env : ClamavEnv) (small : env.limit < 4294967296) where
  one_frame :
      (so_far b : ℕ) (bs : Text) (rest : List Read) (wire sent : Text)
      → so_far + length (b ∷ bs) ≤ env.limit
      → Framed env
          (so_far + length (b ∷ bs))
          rest
          (wire ++ (pack_length (length (b ∷ bs)) ++ (b ∷ bs)))
          sent
      → Framed env so_far (read_bytes (b ∷ bs) ∷ rest) wire sent
  unfolding file_bytes
  one_frame so_far b bs rest wire sent fits f = record {
    file = (b ∷ bs) ++ f.file;
    frames = (pack_length (length (b ∷ bs)) ++ (b ∷ bs)) ++ f.frames;
    is_file = ap (λ (o : Option Text). prepend (b ∷ bs) o) f.is_file;
    is_wire = f.is_wire ∙ append_assoc wire (pack_length (length (b ∷ bs)) ++ (b ∷ bs)) f.frames;
    reads_back =
        framed_reads_back b bs f.frames f.file (length rest) (omega (arith, fits, small))
          f.reads_back;
    within = omega (arith, f.within, length-append (b ∷ bs) f.file);
  }

  after_send-IsFramed :
      (so_far b : ℕ) (bs : Text) (rest : List Read) (wire : Text) (a : SendAnswer)
      (later : Streamed)
      → so_far + length (b ∷ bs) ≤ env.limit
      → IsFramed env
          (so_far + length (b ∷ bs))
          rest
          (wire ++ (pack_length (length (b ∷ bs)) ++ (b ∷ bs)))
          later
      → IsFramed env so_far
          (read_bytes (b ∷ bs) ∷ rest)
          wire
          (after_send (λ o. stopped o wire) a later)
  after_send-IsFramed so_far b bs rest wire send_timeout later fits h = tt
  after_send-IsFramed so_far b bs rest wire send_failed later fits h = tt
  after_send-IsFramed so_far b bs rest wire sent_all (finished n sent) fits h =
      one_frame so_far b bs rest wire sent fits h
  after_send-IsFramed so_far b bs rest wire sent_all (exceeded n sent) fits h = tt
  after_send-IsFramed so_far b bs rest wire sent_all (stopped o sent) fits h = tt

  stream-IsFramed :
      (reads : List Read) (n so_far : ℕ) (wire : Text)
      → so_far ≤ env.limit
      → IsFramed env so_far reads wire (stream_chunks env n so_far wire reads)
  unfolding stream_chunks file_bytes
  stream-IsFramed [] n so_far wire h = at_end env n so_far [] wire h refl
  stream-IsFramed (read_failed ∷ rest) n so_far wire h = tt
  stream-IsFramed (read_bytes [] ∷ rest) n so_far wire h =
      at_end env n so_far (read_bytes [] ∷ rest) wire h refl
  stream-IsFramed (read_bytes (b ∷ bs) ∷ rest) n so_far wire h =
      if_both (IsFramed env so_far (read_bytes (b ∷ bs) ∷ rest) wire)
        (ltb env.limit (so_far + length (b ∷ bs))) _ _ (λ _. tt)
        (λ fits.
          after_send-IsFramed so_far b bs rest wire (env.send n) _ (ground (arith, fits))
            (stream-IsFramed rest (n + 1) (so_far + length (b ∷ bs)) _ (ground (arith, fits))))

-- The scanner has seen the whole file and passed it.
pub record ClearedFile (env : ClamavEnv) (wire : Text) : Type 0 where
  pub file : Text
  pub raw : Text
  pub was_connected : env.connection ≡ connected
  pub was_opened : env.opens ≡ true
  pub is_file : file_bytes env.reads ≡ some file
  pub within : length file ≤ env.limit
  pub reads_back : unframe (length env.reads + 1) wire ≡ some file
  pub is_reply : read_until 0 [] env.receive ≡ response_bytes raw
  pub is_ok : strip env.chars (env.decode_reply (before_zero raw)) ≡ stream_ok

timeout_unclean : timeout ≢ clean
timeout_unclean e = ground (arith, e)

unavailable_unclean : unavailable ≢ clean
unavailable_unclean e = ground (arith, e)

-- A failure of the connection is never CLEAN.
abbrev FailsUnclean : Response → Type 0
FailsUnclean (response_failed o) = o ≢ clean
FailsUnclean (response_bytes raw) = Unit

read_until-FailsUnclean :
    (bytes : Text) (answers : List Received) → FailsUnclean (read_until 0 bytes answers)
unfolding read_until
read_until-FailsUnclean bytes [] = tt
read_until-FailsUnclean bytes (receive_timeout ∷ rest) = timeout_unclean
read_until-FailsUnclean bytes (receive_failed ∷ rest) = unavailable_unclean
read_until-FailsUnclean bytes (received_bytes [] ∷ rest) = tt
read_until-FailsUnclean bytes (received_bytes (c ∷ cs) ∷ rest) =
    if_both FailsUnclean
      (any_char (λ b. b == 0) (bytes ++ (c ∷ cs))
        || ltb max_response_bytes (length (bytes ++ (c ∷ cs))))
      _ _ (λ _. tt) (λ _. read_until-FailsUnclean (bytes ++ (c ∷ cs)) rest)

receive_unclean :
    (bytes : Text) (answers : List Received) (o : ScanOutcome)
    → read_until 0 bytes answers ≡ response_failed o
    → o ≢ clean
receive_unclean bytes answers o e = subst FailsUnclean e (read_until-FailsUnclean bytes answers)

abbrev StopsUnclean : Streamed → Type 0
StopsUnclean (stopped o wire) = o ≢ clean
StopsUnclean _ = Unit

sent-StopsUnclean :
    (a : SendAnswer) (wire : Text) (later : Streamed)
    → StopsUnclean later
    → StopsUnclean (after_send (λ o. stopped o wire) a later)
sent-StopsUnclean sent_all wire later h = h
sent-StopsUnclean send_timeout wire later h = timeout_unclean
sent-StopsUnclean send_failed wire later h = unavailable_unclean

stream-StopsUnclean :
    (env : ClamavEnv) (reads : List Read) (n so_far : ℕ) (wire : Text)
    → StopsUnclean (stream_chunks env n so_far wire reads)
unfolding stream_chunks
stream-StopsUnclean env [] n so_far wire = tt
stream-StopsUnclean env (read_failed ∷ rest) n so_far wire = unavailable_unclean
stream-StopsUnclean env (read_bytes [] ∷ rest) n so_far wire = tt
stream-StopsUnclean env (read_bytes (b ∷ bs) ∷ rest) n so_far wire =
    if_both StopsUnclean (ltb env.limit (so_far + length (b ∷ bs))) _ _ (λ _. tt)
      (λ _.
        sent-StopsUnclean (env.send n) wire _
          (stream-StopsUnclean env rest (n + 1) (so_far + length (b ∷ bs)) _))

-- A CLEAN result means that the file was cleared.
abbrev Explains : ClamavEnv → ScanResult × Text → Type 0
Explains env r = r.0.outcome ≡ clean → ClearedFile env r.1

not_clean :
    (env : ClamavEnv) (o : ScanOutcome) (wire : Text)
    → o ≢ clean
    → Explains env (empty_result o, wire)
not_clean env o wire n e = absurd (n e)

reply-clean :
    (env : ClamavEnv) (reply : Text) → (reply_result env reply).outcome ≡ clean → reply ≡ stream_ok
unfolding reply_result
reply-clean env reply =
    if_both (λ (r : ScanResult). r.outcome ≡ clean → reply ≡ stream_ok) (same_text reply stream_ok)
      _ _ (λ e. λ _. (same_text_iff reply stream_ok).0 e)
      (λ _.
        if_both (λ (r : ScanResult). r.outcome ≡ clean → reply ≡ stream_ok)
          (starts_with stream_prefix reply && ends_with found_suffix reply) _ _
          (λ _. λ e. absurd (ground (arith, e)))
          (λ _.
            if_both (λ (r : ScanResult). r.outcome ≡ clean → reply ≡ stream_ok)
              (starts_with stream_prefix reply && ends_with error_suffix reply) _ _
              (λ _. λ e. absurd (ground (arith, e))) (λ _. λ e. absurd (ground (arith, e)))))

module _ (env : ClamavEnv) (small : env.limit < 4294967296)
    (was_connected : env.connection ≡ connected) (was_opened : env.opens ≡ true) where
  with_response-Explains :
      (sent : Text) (r : Response)
      → Framed env 0 env.reads [] sent
      → read_until 0 [] env.receive ≡ r
      → Explains env (with_response env r, sent ++ zero_chunk)
  unfolding with_response
  with_response-Explains sent (response_failed o) f e h =
      absurd (receive_unclean [] env.receive o e h)
  with_response-Explains sent (response_bytes raw) f e h = record {
    file = f.file;
    raw = raw;
    was_connected = was_connected;
    was_opened = was_opened;
    is_file = f.is_file;
    within = omega (arith, f.within);
    reads_back =
        ap (λ (t : Text). unframe (length env.reads + 1) (t ++ zero_chunk)) f.is_wire
        ∙ f.reads_back;
    is_reply = e;
    is_ok = reply-clean env _ h;
  }

  sent_zero-Explains :
      (n : ℕ) (sent : Text) (a : SendAnswer)
      → Framed env 0 env.reads [] sent
      → Explains env (sent_zero env (finished n sent) sent a)
  unfolding sent_zero after_zero
  sent_zero-Explains n sent sent_all f = with_response-Explains sent _ f refl
  sent_zero-Explains n sent send_timeout f = λ e. absurd (ground (arith, e))
  sent_zero-Explains n sent send_failed f = λ e. absurd (ground (arith, e))

  exceeded-Explains :
      (n : ℕ) (sent : Text) (a : SendAnswer) → Explains env (sent_zero env (exceeded n sent) sent a)
  unfolding sent_zero after_zero
  exceeded-Explains n sent sent_all = λ e. absurd (ground (arith, e))
  exceeded-Explains n sent send_timeout = λ e. absurd (ground (arith, e))
  exceeded-Explains n sent send_failed = λ e. absurd (ground (arith, e))

  with_streamed-Explains :
      (s : Streamed)
      → IsFramed env 0 env.reads [] s
      → StopsUnclean s
      → Explains env (with_streamed env s)
  unfolding with_streamed
  with_streamed-Explains (finished n sent) f u = sent_zero-Explains n sent (env.send n) f
  with_streamed-Explains (exceeded n sent) f u = exceeded-Explains n sent (env.send n)
  with_streamed-Explains (stopped o sent) f u = not_clean env o sent u

module _ (env : ClamavEnv) (small : env.limit < 4294967296) where
  with_handle-Explains : env.connection ≡ connected → Explains env (with_handle env)
  unfolding with_handle
  with_handle-Explains c =
      if_both (Explains env) env.opens _ _
        (λ opened.
          with_streamed-Explains env small c opened (stream_chunks env 1 0 [] env.reads)
            (stream-IsFramed env small env.reads 1 0 [] (omega arith))
            (stream-StopsUnclean env env.reads 1 0 []))
        (λ _. not_clean env unavailable [] unavailable_unclean)

  with_command-Explains :
      env.connection ≡ connected → (a : SendAnswer) → Explains env (with_command env a)
  unfolding with_command
  with_command-Explains c sent_all = with_handle-Explains c
  with_command-Explains c send_timeout = not_clean env timeout [] timeout_unclean
  with_command-Explains c send_failed = not_clean env unavailable [] unavailable_unclean

  on_connection-Explains : (c : Connected) → env.connection ≡ c → Explains env (on_connection env c)
  unfolding on_connection
  on_connection-Explains connect_timeout e = not_clean env timeout [] timeout_unclean
  on_connection-Explains connect_failed e = not_clean env unavailable [] unavailable_unclean
  on_connection-Explains connected e = with_command-Explains e (env.send 0)

-- A CLEAN result means that the scanner was reached, that the file could be read to its end and is within
-- the limit, that what was sent to the scanner reads back, by its protocol, as exactly the bytes of
-- the file, and that its reply is "stream: OK". The limit is below 2^32, the size of a length.
pub scan_stream-ClearedFile :
    (env : ClamavEnv)
    → env.limit < 4294967296
    → (scan_stream env).0.outcome ≡ clean
    → ClearedFile env (scan_stream env).1
unfolding scan_stream
scan_stream-ClearedFile env small = on_connection-Explains env small env.connection refl
