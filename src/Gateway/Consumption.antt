-- ===== src/Gateway/Consumption.antt =====
-- game/gateway/src/admission_consumption_store.cpp: the consumption store in memory, the adapter
-- whose behaviour the etcd adapter has to share. The digest of libsodium is a parameter; `none`
-- stands for its failure. A time point is a count of nanoseconds since the epoch, not before it.
pub mod Rules
pub mod SingleUse
pub mod Tests
pub mod Fencing
use realm_mesh.Prelude.{
  ℕ, ◌+◌, ◌*◌, ◌/◌, ◌%◌, List, [], ◌∷◌, ◌++◌, Bool, true, false, ◌&&◌, ◌||◌, not, ltb, leb, ◌==◌,
  if◌then◌else◌, Option, none, some, Result, ok, err, ◌>>=◌, ◌>>◌, throw_if, invalid_argument,
  runtime_error, Text, text_eq, all_of, in_range, TextMap, insert_or_assign, length, add64,
}

abbrev pub second : ℕ
second = 1_000_000_000

pub data StoredState : Type 0 where
  reserved_state consumed_state : StoredState

pub record StoredRecord : Type 0 where
  pub state : StoredState
  pub grant_digest : Text
  pub owner : Text
  pub fencing : ℕ
  pub lease_expires_at : ℕ
  pub consume_until : ℕ

pub record AdmissionReserveRequest : Type 0 where
  pub identity_jti : Text
  pub grant_jti : Text
  pub owner : Text
  pub now : ℕ
  pub consume_until : ℕ

pub record AdmissionReservation : Type 0 where
  pub identity_jti : Text
  pub grant_jti : Text
  pub owner : Text
  pub fencing : ℕ
  pub lease_expires_at : ℕ
  pub consume_until : ℕ

pub data AdmissionReserveStatus : Type 0 where
  reserved in_progress consumed unavailable : AdmissionReserveStatus

pub record AdmissionReserveResult : Type 0 where
  pub status : AdmissionReserveStatus
  pub reservation : Option AdmissionReservation

pub data AdmissionMutationStatus : Type 0 where
  applied lost mutation_unavailable : AdmissionMutationStatus

-- The adapter: `reservation_ttl` is the option of that name, in seconds.
pub record Store : Type 0 where
  pub reservation_ttl : ℕ
  pub records : TextMap StoredRecord
  pub available : Bool

abbrev pub lower_hex : ℕ → Bool
lower_hex c = in_range 48 57 c || in_range 97 102 c

pub valid_jti : Text → Bool
valid_jti value = length value == 32 && all_of lower_hex value

pub valid_owner : Text → Bool
valid_owner value =
    not (length value == 0) && leb (length value) 128 && all_of (in_range 33 126) value

abbrev pub normalized : ℕ → ℕ
normalized t = t / second * second

pub validate_request : AdmissionReserveRequest → Result (Unit {0})
unfolding valid_jti valid_owner
validate_request r =
    throw_if
      (not (valid_jti r.identity_jti)
        || not (valid_jti r.grant_jti)
        || not (valid_owner r.owner)
        || ltb (normalized r.consume_until) (normalized r.now))
      invalid_argument

pub validate_reservation : AdmissionReservation → Result (Unit {0})
unfolding valid_jti valid_owner
validate_reservation r =
    throw_if
      (not (valid_jti r.identity_jti)
        || not (valid_jti r.grant_jti)
        || not (valid_owner r.owner)
        || r.fencing == 0)
      invalid_argument

abbrev pub hex_digit : ℕ → ℕ
hex_digit n = if ltb n 10 then 48 + n else 87 + n

-- The digest in hexadecimal, two digits to a byte.
pub hex : List ℕ → Text
hex [] = []
hex (b ∷ bs) = hex_digit (b / 16) ∷ hex_digit (b % 16) ∷ hex bs

pub reservation_from : AdmissionReserveRequest → StoredRecord → AdmissionReservation
reservation_from request r = record {
  identity_jti = request.identity_jti;
  grant_jti = request.grant_jti;
  owner = request.owner;
  fencing = r.fencing;
  lease_expires_at = r.lease_expires_at;
  consume_until = r.consume_until;
}

pub matches : StoredRecord → AdmissionReservation → Text → Bool
matches r reservation grant =
    r.fencing == reservation.fencing
    && text_eq r.owner reservation.owner
    && text_eq r.grant_digest grant

abbrev pub is_consumed : StoredState → Bool
is_consumed consumed_state = true
is_consumed reserved_state = false

-- The record that a new reservation leaves.
pub lease : ℕ → AdmissionReserveRequest → Text → ℕ → StoredRecord
lease ttl request grant fencing = record {
  state = reserved_state;
  grant_digest = grant;
  owner = request.owner;
  fencing = fencing;
  lease_expires_at = normalized request.now + ttl * second;
  consume_until = normalized request.consume_until;
}

abbrev pub refuse : AdmissionReserveStatus → AdmissionReserveResult
refuse s = record { status = s; reservation = none }

pub grant_lease : Store → AdmissionReserveRequest → Text → Text → ℕ → Store × AdmissionReserveResult
unfolding lease reservation_from
grant_lease s request identity grant fencing =
    let r = lease s.reservation_ttl request grant fencing in
    (
      record s { records = insert_or_assign identity r s.records },
      record { status = reserved; reservation = some (reservation_from request r) },
    )

-- `reserve` on the record that the identity has.
pub reserve_known :
    Store → AdmissionReserveRequest → Text → Text → StoredRecord → Store × AdmissionReserveResult
unfolding grant_lease reservation_from
reserve_known s request identity grant r =
    let now = normalized request.now in
    if is_consumed r.state && leb now r.consume_until
    then (s, refuse consumed)
    else if not (is_consumed r.state) && ltb now r.lease_expires_at
    then (if text_eq r.owner request.owner && text_eq r.grant_digest grant
        then (s, record { status = reserved; reservation = some (reservation_from request r) })
        else (s, refuse in_progress))
    else if r.fencing == 18_446_744_073_709_551_615
    then (record s { available = false }, refuse unavailable)
    else grant_lease s request identity grant (add64 r.fencing 1)

pub reserve_at : Store → AdmissionReserveRequest → Text → Text → Store × AdmissionReserveResult
unfolding reserve_known grant_lease
reserve_at s request identity grant = elim (s.records identity) [
  | none ↦ grant_lease s request identity grant 1
  | some r ↦ reserve_known s request identity grant r
]

pub commit_known :
    Store → AdmissionReservation → ℕ → Text → Text → StoredRecord → Store × AdmissionMutationStatus
unfolding matches
commit_known s reservation now identity grant r =
    if is_consumed r.state
    then (
      s,
      if r.fencing == reservation.fencing && text_eq r.grant_digest grant then applied else lost,
    )
    else if not (matches r reservation grant)
        || leb r.lease_expires_at (normalized now)
        || ltb r.consume_until (normalized now)
    then (s, lost)
    else (
      record s {
        records =
            insert_or_assign identity
              (record r {
                state = consumed_state;
                consume_until = normalized reservation.consume_until;
              })
              s.records;
      },
      applied,
    )

pub release_known :
    Store → AdmissionReservation → ℕ → Text → Text → StoredRecord → Store × AdmissionMutationStatus
unfolding matches
release_known s reservation now identity grant r =
    if is_consumed r.state || not (matches r reservation grant) then (s, lost) else (
      record s {
        records =
            insert_or_assign identity (record r { lease_expires_at = normalized now }) s.records;
      },
      applied,
    )

module _ (digest : Text → Option (List ℕ)) where
  unfoldable pub stable_digest : Text → Result Text
  unfolding hex
  stable_digest value = elim (digest value) [ none ↦ err runtime_error | some d ↦ ok (hex d) ]

  unfoldable pub reserve : Store → AdmissionReserveRequest → Result (Store × AdmissionReserveResult)
  unfolding validate_request stable_digest reserve_at
  reserve s request = do
    validate_request request
    if not s.available then ok (s, refuse unavailable) else do
      identity ← stable_digest request.identity_jti
      grant ← stable_digest request.grant_jti
      ok (reserve_at s request identity grant)

  unfoldable pub commit :
      Store → AdmissionReservation → ℕ → Result (Store × AdmissionMutationStatus)
  unfolding validate_reservation stable_digest commit_known
  commit s reservation now = do
    validate_reservation reservation
    if not s.available then ok (s, mutation_unavailable) else do
      identity ← stable_digest reservation.identity_jti
      grant ← stable_digest reservation.grant_jti
      ok (elim (s.records identity) [
        | none ↦ (s, lost)
        | some r ↦ commit_known s reservation now identity grant r
      ])

  unfoldable pub release :
      Store → AdmissionReservation → ℕ → Result (Store × AdmissionMutationStatus)
  unfolding validate_reservation stable_digest release_known
  release s reservation now = do
    validate_reservation reservation
    if not s.available then ok (s, mutation_unavailable) else do
      identity ← stable_digest reservation.identity_jti
      grant ← stable_digest reservation.grant_jti
      ok (elim (s.records identity) [
        | none ↦ (s, lost)
        | some r ↦ release_known s reservation now identity grant r
      ])

pub set_available : Store → Bool → Store
set_available s value = record s { available = value }
