-- ===== src/Clamav/Version.antt =====
-- app/services/clamav_client.py: check_connectivity, get_version_info and the parsing of its reply.
-- `datetime_of` is the constructor of datetime, none where it raises ValueError, and `decimal` the
-- value of a decimal digit; `decode_ascii` decodes with replacement.
use rfp.Clamav.{
  ClamavEnv, Connected, Response, SendAnswer, before_zero, connected, read_until, response_bytes,
  response_failed, sent_all,
}
use rfp.Extraction.World.{TextOps, is_empty, strip}
use rfp.Prelude.{
  Bool, List, Option, String, Text, [], any_char, false, if◌then◌else◌, leb, none, not, same_text,
  some, ℕ, ◌&&◌, ◌*◌, ◌++◌, ◌+◌, ◌==◌, ◌||◌, ◌∷◌,
}
use rfp.Scan.World.{VersionInfo}

pub record VersionOps : Type 0 where
  pub env : ClamavEnv
  pub decode_ascii : Text → Text
  pub decimal : ℕ → Option ℕ
  pub datetime_of : ℕ → ℕ → ℕ → ℕ → ℕ → ℕ → Option ℕ

infixl 5 ◌>>=◌
abbrev ◌>>=◌ {ℓ κ} : {A : Type ℓ} {B : Type κ} → Option A → (A → Option B) → Option B
none >>= f = none
some a >>= f = f a

abbrev pub bytes_of : Response → Option Text
bytes_of (response_bytes raw) = some raw
bytes_of (response_failed o) = none

abbrev pub after_sending : ClamavEnv → ℕ → SendAnswer → Option Text
after_sending env stop sent_all = bytes_of (read_until stop [] env.receive)
after_sending env stop _ = none

-- Connect, send the command and read up to the terminator; none for any failure.
unfoldable pub handshake : ClamavEnv → ℕ → Connected → Option Text
handshake env stop connected = after_sending env stop (env.send 0)
handshake env stop _ = none

-- "PONG"
abbrev pub pong_response : Text
pong_response = 0x50 ∷ 0x4f ∷ 0x4e ∷ 0x47 ∷ []

unfoldable pub check_connectivity : VersionOps → Bool
check_connectivity ops = elim (handshake ops.env 0 ops.env.connection) [
  | none ↦ false
  | some raw ↦ same_text (strip ops.env.chars (ops.decode_ascii (before_zero raw))) pong_response
]

-- `[A-Za-z]`
abbrev pub is_letter : ℕ → Bool
is_letter c = (leb 0x41 c && leb c 0x5a) || (leb 0x61 c && leb c 0x7a)

-- Three letters and what follows them.
unfoldable pub three_letters : Text → Option (Text × Text)
three_letters (a ∷ b ∷ c ∷ rest) =
    if is_letter a && (is_letter b && is_letter c) then some (a ∷ b ∷ c ∷ [], rest) else none
three_letters _ = none

-- `\s*` and `\s+`
unfoldable pub spaces_off : TextOps → Text → Text
spaces_off chars [] = []
spaces_off chars (c ∷ cs) =
    let rest = spaces_off chars cs in if chars.is_space c then rest else c ∷ cs

unfoldable pub some_spaces : TextOps → Text → Option Text
some_spaces chars [] = none
some_spaces chars (c ∷ cs) = if chars.is_space c then some (spaces_off chars cs) else none

-- `\d`, with its value.
unfoldable pub one_digit : VersionOps → Text → Option (ℕ × Text)
one_digit ops [] = none
one_digit ops (c ∷ cs) = ops.decimal c >>= λ d. some (d, cs)

-- `\d{2}`
unfoldable pub two_digits : VersionOps → Text → Option (ℕ × Text)
two_digits ops input = do
  (a, after_first) ← one_digit ops input
  (b, rest) ← one_digit ops after_first
  some (a * 10 + b, rest)

-- `\d{1,2}`, two digits where there are two.
unfoldable pub two_digits_at_most : VersionOps → Text → Option (ℕ × Text)
two_digits_at_most ops input = elim (two_digits ops input) [
  | none ↦ one_digit ops input
  | some both ↦ some both
]

unfoldable pub colon : Text → Option Text
colon [] = none
colon (c ∷ cs) = if c == 0x3a then some cs else none

abbrev pub month_abbreviations : List (Text × ℕ)
month_abbreviations =
    (0x4a ∷ 0x61 ∷ 0x6e ∷ [], 1)
    ∷ (0x46 ∷ 0x65 ∷ 0x62 ∷ [], 2)
    ∷ (0x4d ∷ 0x61 ∷ 0x72 ∷ [], 3)
    ∷ (0x41 ∷ 0x70 ∷ 0x72 ∷ [], 4)
    ∷ (0x4d ∷ 0x61 ∷ 0x79 ∷ [], 5)
    ∷ (0x4a ∷ 0x75 ∷ 0x6e ∷ [], 6)
    ∷ (0x4a ∷ 0x75 ∷ 0x6c ∷ [], 7)
    ∷ (0x41 ∷ 0x75 ∷ 0x67 ∷ [], 8)
    ∷ (0x53 ∷ 0x65 ∷ 0x70 ∷ [], 9)
    ∷ (0x4f ∷ 0x63 ∷ 0x74 ∷ [], 10)
    ∷ (0x4e ∷ 0x6f ∷ 0x76 ∷ [], 11)
    ∷ (0x44 ∷ 0x65 ∷ 0x63 ∷ [], 12)
    ∷ []

unfoldable pub month_in : List (Text × ℕ) → Text → Option ℕ
month_in [] name = none
month_in ((known, n) ∷ rest) name =
    let later = month_in rest name in if same_text known name then some n else later

-- No class of characters of `_VERSION_TIMESTAMP_RE` meets the one before it, so the expression is read
-- from left to right, each repetition as long as it can be.
unfoldable pub parse_version_timestamp : VersionOps → Text → Option ℕ
parse_version_timestamp ops input = do
  (weekday, after_weekday) ← three_letters (strip ops.env.chars input)
  at_month ← some_spaces ops.env.chars after_weekday
  (name, after_month) ← three_letters at_month
  at_day ← some_spaces ops.env.chars after_month
  (day, after_day) ← two_digits_at_most ops at_day
  at_hour ← some_spaces ops.env.chars after_day
  (hour, after_hour) ← two_digits_at_most ops at_hour
  at_minute ← colon after_hour
  (minute, after_minute) ← two_digits ops at_minute
  at_second ← colon after_minute
  (second, after_second) ← two_digits ops at_second
  at_year ← some_spaces ops.env.chars after_second
  (century, in_century) ← two_digits ops at_year
  (year, rest) ← two_digits ops in_century
  month ← month_in month_abbreviations name
  let stamp = ops.datetime_of (century * 100 + year) month day hour minute second in
      if is_empty rest then stamp else none

-- The input up to the first slash and what follows it.
unfoldable pub up_to_slash : Text → Option (Text × Text)
up_to_slash [] = none
up_to_slash (c ∷ cs) =
    let later = up_to_slash cs in
    if c == 0x2f then some ([], cs) else later >>= λ r. some (c ∷ r.0, r.1)

-- `(?P<sig>[^/]+)/(?P<timestamp>.+)$`
unfoldable pub version_tail : Text → Option (Text × Text)
version_tail input = do
  (sig, timestamp) ← up_to_slash input
  if is_empty sig || (is_empty timestamp || any_char (λ c. c == 0x0a) timestamp)
      then none
      else some (sig, timestamp)

-- `_VERSION_LINE_RE`: the engine is the shortest piece of a character or more, without a line break, that a slash
-- and the rest follow. `first` is the piece so far.
unfoldable pub version_parts : Text → Text → Option (Text × (Text × Text))
version_parts first [] = none
version_parts first (c ∷ cs) =
    let longer = version_parts (first ++ (c ∷ [])) cs in
    let go_on = if c == 0x0a then none else longer in
    if c == 0x2f && not (is_empty first)
    then elim (version_tail cs) [ none ↦ go_on | some parts ↦ some (first, parts) ]
    else go_on

-- What follows the first space.
unfoldable pub after_space : Text → Option Text
after_space [] = none
after_space (c ∷ cs) = let later = after_space cs in if c == 0x20 then some cs else later

unfoldable pub some_name : ClamavEnv → Text → Option String
some_name env input = if is_empty input then none else some (env.name_of input)

unfoldable pub engine_version_of : ClamavEnv → Text → Option String
engine_version_of env engine_part = elim (after_space engine_part) [
  | none ↦ some_name env engine_part
  | some second ↦ some (env.name_of (strip env.chars second))
]

unfoldable pub parse_version_line : VersionOps → Text → Option VersionInfo
parse_version_line ops raw = do
  (engine, (sig, timestamp)) ← version_parts [] raw
  some (record {
    engine_version = engine_version_of ops.env (strip ops.env.chars engine);
    signature_version = some_name ops.env (strip ops.env.chars sig);
    signature_timestamp = parse_version_timestamp ops (strip ops.env.chars timestamp);
  })

unfoldable pub get_version_info : VersionOps → Option VersionInfo
get_version_info ops = do
  raw ← handshake ops.env 0x0a ops.env.connection
  let line = strip ops.env.chars (ops.env.decode_reply raw) in
      if is_empty line then none else parse_version_line ops line
