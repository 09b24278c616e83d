-- ===== src/Operations/Encoding.antt =====
-- A text for each audit payload that reads back as the payload: an instance of what governed_operations
-- relies on `json.dumps` and `json.loads` for.
use palwakf_agentic_ai_syste.Prelude.{String, ◌≡◌, refl, ◌==◌, nat_eq, if◌then◌else◌}
use palwakf_agentic_ai_syste.Operations.Schema.{
  TaskStatus, draft, inbox, under_review, approved, rejected, returned, archived, Decision, approve,
  reject, return, TrustLevel, official, verified, working, unverified, RiskLevel, low, medium, high,
  critical, AuditPayload, operations_bound, draft_created, evidence_recorded, transitioned,
  review_recorded,
}
use Prim.Native.Char.{code}
use Prim.Native.String.{[], ◌∷◌}

-- A field is its characters, each after an x, and a dot.
unfoldable pub write_field : String → String → String
write_field [] rest = "." ∷ rest
write_field (c ∷ s) rest = "x" ∷ c ∷ write_field s rest

unfoldable pub read_field : String → String × String
read_field [] = ([], [])
read_field (a ∷ []) = ([], [])
read_field (a ∷ c ∷ s) =
    let (field, rest) = read_field s in
    if nat_eq (code a) 46 then ([], c ∷ s) else (c ∷ field, rest)

read_field-write_field : (s rest : String) → read_field (write_field s rest) ≡ (s, rest)
unfolding read_field write_field
read_field-write_field [] [] = refl
read_field-write_field [] (c ∷ rest) = refl
read_field-write_field (c ∷ s) rest = rw (read_field-write_field s rest)

abbrev status_name : TaskStatus → String
status_name draft = "a"
status_name inbox = "b"
status_name under_review = "c"
status_name approved = "d"
status_name rejected = "e"
status_name returned = "f"
status_name archived = "g"

abbrev status_of : String → TaskStatus
status_of s =
    if s == "a"
    then draft
    else if s == "b"
    then inbox
    else if s == "c"
    then under_review
    else if s == "d"
    then approved
    else if s == "e"
    then rejected
    else if s == "f"
    then returned
    else archived

status_of-status_name : (s : TaskStatus) → status_of (status_name s) ≡ s
status_of-status_name draft = refl
status_of-status_name inbox = refl
status_of-status_name under_review = refl
status_of-status_name approved = refl
status_of-status_name rejected = refl
status_of-status_name returned = refl
status_of-status_name archived = refl

abbrev risk_name : RiskLevel → String
risk_name low = "a"
risk_name medium = "b"
risk_name high = "c"
risk_name critical = "d"

abbrev risk_of : String → RiskLevel
risk_of s =
    if s == "a" then low else if s == "b" then medium else if s == "c" then high else critical

risk_of-risk_name : (r : RiskLevel) → risk_of (risk_name r) ≡ r
risk_of-risk_name low = refl
risk_of-risk_name medium = refl
risk_of-risk_name high = refl
risk_of-risk_name critical = refl

abbrev trust_name : TrustLevel → String
trust_name official = "a"
trust_name verified = "b"
trust_name working = "c"
trust_name unverified = "d"

abbrev trust_of : String → TrustLevel
trust_of s =
    if s == "a"
    then official
    else if s == "b"
    then verified
    else if s == "c"
    then working
    else unverified

trust_of-trust_name : (t : TrustLevel) → trust_of (trust_name t) ≡ t
trust_of-trust_name official = refl
trust_of-trust_name verified = refl
trust_of-trust_name working = refl
trust_of-trust_name unverified = refl

abbrev decision_name : Decision → String
decision_name approve = "a"
decision_name reject = "b"
decision_name return = "c"

abbrev decision_of : String → Decision
decision_of s = if s == "a" then approve else if s == "b" then reject else return

decision_of-decision_name : (d : Decision) → decision_of (decision_name d) ≡ d
decision_of-decision_name approve = refl
decision_of-decision_name reject = refl
decision_of-decision_name return = refl

abbrev write_four : String → String → String → String → String → String
write_four tag a b c d =
    write_field tag (write_field a (write_field b (write_field c (write_field d []))))

unfoldable pub write_payload : AuditPayload → String
write_payload (operations_bound a b c) = write_four "a" a b c []
write_payload (draft_created a r b c) = write_four "b" a (risk_name r) b c
write_payload (evidence_recorded a b c t) = write_four "c" a b c (trust_name t)
write_payload (transitioned s t a b) = write_four "d" (status_name s) (status_name t) a b
write_payload (review_recorded a d b) = write_four "e" a (decision_name d) b []

abbrev payload_of : String → String → String → String → String → AuditPayload
payload_of tag a b c d =
    if tag == "a"
    then operations_bound a b c
    else if tag == "b"
    then draft_created a (risk_of b) c d
    else if tag == "c"
    then evidence_recorded a b c (trust_of d)
    else if tag == "d"
    then transitioned (status_of a) (status_of b) c d
    else review_recorded a (decision_of b) c

unfoldable pub read_payload : String → AuditPayload
read_payload s =
    let (tag, s1) = read_field s in
    let (a, s2) = read_field s1 in
    let (b, s3) = read_field s2 in
    let (c, s4) = read_field s3 in let (d, s5) = read_field s4 in payload_of tag a b c d

read_four : (tag a b c d : String) → read_payload (write_four tag a b c d) ≡ payload_of tag a b c d
unfolding read_payload
read_four tag a b c d = rw (
  read_field-write_field tag,
  read_field-write_field a,
  read_field-write_field b,
  read_field-write_field c,
  read_field-write_field d,
)

pub read_payload-write_payload : (p : AuditPayload) → read_payload (write_payload p) ≡ p
unfolding write_payload
read_payload-write_payload (operations_bound a b c) = rw read_four refl
read_payload-write_payload (draft_created a r b c) = rw (read_four, risk_of-risk_name) refl
read_payload-write_payload (evidence_recorded a b c t) = rw (read_four, trust_of-trust_name) refl
read_payload-write_payload (transitioned s t a b) =
    rw (read_four, status_of-status_name s, status_of-status_name t) refl
read_payload-write_payload (review_recorded a d b) = rw (read_four, decision_of-decision_name) refl
