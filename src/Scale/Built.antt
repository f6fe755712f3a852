-- ===== src/Scale/Built.antt =====
-- What a built audit event is (api/postgres_audit.py, build_audit_event).
use secure_swipe.Prelude.{
  ◌≡◌, refl, sym, ap, ℕ, ◌≤◌, ◌&&◌, not, String, true, false, some, string_eq, arith, ltb,
}
use secure_swipe.Prelude.Int.{ℤ}
use secure_swipe.Prelude.Result.{not-false, ok, >>=-eq-ok, fail_if, fail_if-eq-ok, ok-injective}
use secure_swipe.Prelude.Text.{is_sha256}
use secure_swipe.Scale.Response.{Response, dump, Environment}
use secure_swipe.Scale.Audit.{
  AuditEvent, State, Row, response_hash, build_audit_event, unsigned_event, canonical_event_bytes,
  bad_sequence, bad_digest, bad_event_id,
}
use secure_swipe.Scale.Stored.{is_reserved}

pub is_reserved-eq : (s : State) → is_reserved s ≡ true → s ≡ State.reserved
is_reserved-eq State.reserved h = refl
is_reserved-eq State.completed h = cc
is_reserved-eq State.failed h = cc

module _ {F : Type 0} (env : Environment F) where
  open env use {sha256, is_uuid}

  -- What a built event is.
  pub record IsBuilt (identifier chain : String) (sequence : ℕ) (previous key digest : String)
      (response : Response F) (at : ℤ) (e : AuditEvent F) : Type 0 where
    pub positive : 1 ≤ sequence
    pub digests : (is_sha256 previous && is_sha256 key && is_sha256 digest) ≡ true
    pub identified : is_uuid identifier ≡ true
    pub made :
        e ≡ (record (unsigned_event env identifier chain sequence previous key digest response at) {
          event_hash = sha256 (
              canonical_event_bytes env
                (unsigned_event env identifier chain sequence previous key digest response at));
        })

  pub build_audit_event-eq-ok :
      (identifier chain : String) (sequence : ℕ) (previous key digest : String)
      (response : Response F) (at : ℤ) (e : AuditEvent F)
      → build_audit_event env identifier chain sequence previous key digest response at ≡ ok e
      → IsBuilt identifier chain sequence previous key digest response at e
  unfolding build_audit_event
  build_audit_event-eq-ok identifier chain sequence previous key digest response at e h =
      let (_, e1, h1) = >>=-eq-ok (fail_if (ltb sequence 1) bad_sequence) _ h in
      let (_, e2, h2) =
        >>=-eq-ok
          (fail_if (not (is_sha256 previous && is_sha256 key && is_sha256 digest)) bad_digest) _
          h1 in
      let (_, e3, h3) = >>=-eq-ok (fail_if (not (is_uuid identifier)) bad_event_id) _ h2 in
      record {
        positive = ground (arith, fail_if-eq-ok _ bad_sequence e1);
        digests = not-false _ (fail_if-eq-ok _ bad_digest e2);
        identified = not-false _ (fail_if-eq-ok _ bad_event_id e3);
        made = sym (ok-injective h3);
      }

  pub IsBuilt-build_audit_event :
      (identifier chain : String) (sequence : ℕ) (previous key digest : String)
      (response : Response F) (at : ℤ) (e : AuditEvent F)
      → IsBuilt identifier chain sequence previous key digest response at e
      → build_audit_event env identifier chain sequence previous key digest response at ≡ ok e
  unfolding build_audit_event
  IsBuilt-build_audit_event identifier chain sequence previous key digest response at e b =
      let early : ltb sequence 1 ≡ false = ground (arith, b.positive) in
      rw (early, b.digests, b.identified) (ap ok (sym b.made))

  abbrev pub completed_row : Row F → Response F → String → Row F
  completed_row row response receipt = record row {
    state = State.completed;
    response_document = some (dump response);
    response_sha256 = some (response_hash env response);
    audit_receipt_sha256 = some receipt;
  }
