-- ===== src/Parsing/Described.antt =====
-- What the tests of app/services/document_parsing.py on the document of an attempt mean, and what its
-- pages are.
-- The document is in the attempt of the snapshot.
use mathlib.Core.Option.{some-injective}
use rfp.Database.{Document, DocumentPage, Status, parsing}
use rfp.Parsing.{owns, pages_of, same_source}
use rfp.Parsing.World.{ParseAttemptSnapshot, ParseEnv, ParserUnit, clean_identifier_of, is_parsing}
use rfp.Prelude.{
  List, Option, String, [], ap, arith, eq_iff, is_some, none, or_else, refl, some, str_eq, true, ℕ,
  ◌&&◌, ◌+◌, ◌∷◌, ◌≡◌,
}

abbrev pub InAttempt : ParseAttemptSnapshot → Document → Type 0
InAttempt snapshot doc =
    (doc.ingestion_status ≡ parsing) × (doc.parse_attempt_id ≡ some snapshot.parse_attempt_id)

-- The file is still the one of the snapshot: its identifier, or its path without one, and its digest.
abbrev pub SameFile : ParseAttemptSnapshot → Document → Type 0
SameFile snapshot doc =
    (clean_identifier_of doc ≡ snapshot.clean_identifier)
    × (doc.sha256_digest ≡ some snapshot.sha256_digest)

-- The pages are the parser's units, in their order.
abbrev pub AreUnits : Document → List DocumentPage → List ParserUnit → Type 0
AreUnits doc [] [] = Unit
AreUnits doc (page ∷ pages) (unit ∷ units) =
    (page.document_id ≡ doc.id)
    × (page.page_number ≡ unit.sequence)
    × (page.content ≡ unit.content)
    × (page.content_sha256 ≡ some unit.content_sha256)
    × AreUnits doc pages units
AreUnits doc _ _ = ⊥

pub pages_of-AreUnits :
    (env : ParseEnv) (doc : Document) (n : ℕ) (units : List ParserUnit)
    → AreUnits doc (pages_of env doc n units) units
unfolding pages_of
pages_of-AreUnits env doc n [] = tt
pages_of-AreUnits env doc n (unit ∷ rest) =
    (refl, refl, refl, refl, pages_of-AreUnits env doc (n + 1) rest)

same_some :
    (o : Option String) (s : String) → (str_eq (or_else o "") s && is_some o) ≡ true → o ≡ some s
same_some none s e = ground (arith, e)
same_some (some t) s e = ap some ((eq_iff t s).0 (ground (arith, e)))

some_same :
    (o : Option String) (s : String) → o ≡ some s → (str_eq (or_else o "") s && is_some o) ≡ true
some_same none s e = ground (arith, e)
some_same (some t) s e =
    let same_text : str_eq t s ≡ true = (eq_iff t s).1 (some-injective _ _ e) in rw same_text refl

is_parsing-parsing : (t : Status) → is_parsing t ≡ true → t ≡ parsing
unfolding is_parsing
is_parsing-parsing t e = ground (arith, e)

parsing-is_parsing : (t : Status) → t ≡ parsing → is_parsing t ≡ true
unfolding is_parsing
parsing-is_parsing t e = ground (arith, e)

pub owns-InAttempt :
    (snapshot : ParseAttemptSnapshot) (doc : Document)
    → owns snapshot doc ≡ true
    → InAttempt snapshot doc
unfolding owns
owns-InAttempt snapshot doc e = (
  is_parsing-parsing doc.ingestion_status (ground (arith, e)),
  same_some doc.parse_attempt_id snapshot.parse_attempt_id (ground (arith, e)),
)

pub InAttempt-owns :
    (snapshot : ParseAttemptSnapshot) (doc : Document)
    → InAttempt snapshot doc
    → owns snapshot doc ≡ true
unfolding owns
InAttempt-owns snapshot doc (p, a) = ground (
  arith,
  parsing-is_parsing doc.ingestion_status p,
  some_same doc.parse_attempt_id snapshot.parse_attempt_id a,
)

pub same_source-SameFile :
    (snapshot : ParseAttemptSnapshot) (doc : Document)
    → same_source snapshot doc ≡ true
    → SameFile snapshot doc
unfolding same_source
same_source-SameFile snapshot doc e = (
  (eq_iff (clean_identifier_of doc) snapshot.clean_identifier).0 (ground (arith, e)),
  same_some doc.sha256_digest snapshot.sha256_digest (ground (arith, e)),
)

pub SameFile-same_source :
    (snapshot : ParseAttemptSnapshot) (doc : Document)
    → SameFile snapshot doc
    → same_source snapshot doc ≡ true
unfolding same_source
SameFile-same_source snapshot doc (c, d) = ground (
  arith,
  (eq_iff (clean_identifier_of doc) snapshot.clean_identifier).1 c,
  some_same doc.sha256_digest snapshot.sha256_digest d,
)
