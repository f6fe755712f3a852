-- ===== src/Scale/Backing.antt =====
-- Completed rows and audit events that name one another: what the last query of
-- `verify_audit_chain` (api/postgres_audit.py) counts the exceptions to.
use secure_swipe.Prelude.{
  ◌≡◌, refl, subst, sym, ap, ◌∙◌, inl, inr, ◌&&◌, ◌||◌, not, String, Bool, true, false, some, List,
  [], ◌∷◌, ◌++◌, All, ◌==◌, string_eq, option_eq, beq_refl, arith, Bool-cases,
}
use secure_swipe.Prelude.Dict
use secure_swipe.Prelude.Dict.{Dict, IsDistinct, get-put_same, get-put_other}
use secure_swipe.Scale.Response.{Environment}
use secure_swipe.Scale.Audit.{
  AuditEvent, State, Row, is_completed, joins, any_joins, joins_any, every_event, every_row, agrees,
  row_consistent, consistent,
}

pub some-injective {ℓ} : {A : Type ℓ} {a b : A} → some a ≡ some b → a ≡ b
some-injective h = cc

or_true : (b : Bool) → (b || true) ≡ true
or_true true = refl
or_true false = refl

module _ {F : Type 0} where
  -- The row of the event's key was completed with this event.
  pub record IsBacked (rows : Dict String (Row F)) (e : AuditEvent F) : Type 0 where
    pub row : Row F
    pub here : Dict.get rows e.key_digest ≡ some row
    pub state : row.state ≡ State.completed
    pub request : row.request_digest ≡ e.request_digest
    pub document : row.response_document ≡ some e.bounded_response
    pub hash : row.response_sha256 ≡ some e.response_sha256
    pub receipt : row.audit_receipt_sha256 ≡ some e.event_hash

  -- Each completed row has its event.
  abbrev pub AllJoined : Dict String (Row F) → List (AuditEvent F) → Type 0
  AllJoined rows events =
      (key : String) (row : Row F)
      → Dict.get rows key ≡ some row
      → row.state ≡ State.completed
      → any_joins key row events ≡ true

  -- Writing `row` at `key` changes no completed row.
  abbrev pub KeepsCompleted : Dict String (Row F) → String → Row F → Type 0
  KeepsCompleted rows key row =
      (old : Row F) → Dict.get rows key ≡ some old → old.state ≡ State.completed → row ≡ old

  pub IsBacked-put :
      (rows : Dict String (Row F)) (key : String) (row : Row F) (e : AuditEvent F)
      → KeepsCompleted rows key row
      → IsBacked rows e
      → IsBacked (Dict.put rows key row) e
  IsBacked-put rows key row e keeps b = elim (Bool-cases (key == e.key_digest)) [
    | inl own ↦
        let at : key ≡ e.key_digest = (string_eq.beq_iff key e.key_digest).0 own in
        record {
          row = b.row;
          here =
              get-put_same rows key e.key_digest row own
              ∙ ap some (keeps b.row (ap (Dict.get rows) at ∙ b.here) b.state);
          state = b.state;
          request = b.request;
          document = b.document;
          hash = b.hash;
          receipt = b.receipt;
        }
    | inr other ↦ record {
      row = b.row;
      here = get-put_other rows key e.key_digest row other ∙ b.here;
      state = b.state;
      request = b.request;
      document = b.document;
      hash = b.hash;
      receipt = b.receipt;
    }
  ]

  pub All-IsBacked-put :
      (rows : Dict String (Row F)) (key : String) (row : Row F) (es : List (AuditEvent F))
      → KeepsCompleted rows key row
      → All (IsBacked rows) es
      → All (IsBacked (Dict.put rows key row)) es
  All-IsBacked-put rows key row [] keeps b = tt
  All-IsBacked-put rows key row (e ∷ es) keeps b =
      (IsBacked-put rows key row e keeps b.0, All-IsBacked-put rows key row es keeps b.1)

  pub any_joins-append :
      (key : String) (row : Row F) (es fs : List (AuditEvent F))
      → any_joins key row es ≡ true
      → any_joins key row (es ++ fs) ≡ true
  unfolding any_joins
  any_joins-append key row [] fs h = cc
  any_joins-append key row (e ∷ es) fs h = ground (arith, any_joins-append key row es fs)

  pub any_joins-last :
      (key : String) (row : Row F) (es : List (AuditEvent F)) (e : AuditEvent F)
      → joins key row e ≡ true
      → any_joins key row (es ++ e ∷ []) ≡ true
  unfolding any_joins
  any_joins-last key row [] e h = rw h refl
  any_joins-last key row (f ∷ es) e h = ground (arith, any_joins-last key row es e h)

  -- A completed row written anew must have its event; the others keep theirs.
  pub AllJoined-put :
      (rows : Dict String (Row F)) (key : String) (row : Row F) (es fs : List (AuditEvent F))
      → (row.state ≡ State.completed → any_joins key row fs ≡ true)
      → ((k : String) (r : Row F) → any_joins k r es ≡ true → any_joins k r fs ≡ true)
      → AllJoined rows es
      → AllJoined (Dict.put rows key row) fs
  AllJoined-put rows key row es fs new grow all j r here done = elim (Bool-cases (key == j)) [
    | inl own ↦
        let at : key ≡ j = (string_eq.beq_iff key j).0 own in
        let same : row ≡ r = some-injective (sym (get-put_same rows key j row own) ∙ here) in
        subst (λ k. any_joins k r fs ≡ true) at
          (subst (λ r. any_joins key r fs ≡ true) same (new (ap (λ r. r.state) same ∙ done)))
    | inr other ↦ grow j r (all j r (sym (get-put_other rows key j row other) ∙ here) done)
  ]

  every_event-All {ℓ} :
      {P : AuditEvent F → Type ℓ} (p : AuditEvent F → Bool) (es : List (AuditEvent F))
      → ((e : AuditEvent F) → P e → p e ≡ true)
      → All P es
      → every_event p es ≡ true
  unfolding every_event
  every_event-All p [] h a = refl
  every_event-All p (e ∷ es) h a = rw (h e a.0) (every_event-All p es h a.1)

  every_row-get :
      (p : String → Row F → Bool) (rows : Dict String (Row F))
      → IsDistinct rows
      → ((key : String) (row : Row F) → Dict.get rows key ≡ some row → p key row ≡ true)
      → every_row p rows ≡ true
  unfolding every_row Dict.get
  every_row-get p [] d h = refl
  every_row-get p ((key, row) ∷ rows) d h =
      rw (h key row (rw (beq_refl key) refl))
        (every_row-get p rows d.1 λ j r here. h j r (ground (arith, string_eq.beq_iff key j)))

  joins_any-get :
      (rows : Dict String (Row F)) (row : Row F) (e : AuditEvent F)
      → Dict.get rows e.key_digest ≡ some row
      → joins e.key_digest row e ≡ true
      → joins_any rows e ≡ true
  unfolding joins_any Dict.get
  joins_any-get [] row e here h = cc
  joins_any-get ((key, r) ∷ rows) row e here h =
      ground (arith, joins_any-get rows row e, string_eq.beq_iff key e.key_digest)

  IsBacked-joins :
      (rows : Dict String (Row F)) (e : AuditEvent F) (b : IsBacked rows e)
      → joins e.key_digest b.row e ≡ true
  IsBacked-joins rows e b =
      rw (beq_refl e.key_digest)
        ((option_eq.beq_iff (some e.event_hash) b.row.audit_receipt_sha256).1 (sym b.receipt))

  module _ (env : Environment F) where
    open env use {jsonb_refl}

    joined_row :
        (s : State) (t : Bool)
        → (s ≡ State.completed → t ≡ true)
        → (not (is_completed s) || t) ≡ true
    joined_row State.completed t h = h refl
    joined_row State.reserved t h = refl
    joined_row State.failed t h = refl

    agrees_own :
        (rows : Dict String (Row F)) (e : AuditEvent F) (b : IsBacked rows e)
        → agrees env b.row e ≡ true
    agrees_own rows e b =
        rw
          (
            b.state,
            b.request,
            b.hash,
            b.document,
            beq_refl e.request_digest,
            beq_refl e.response_sha256,
            jsonb_refl e.bounded_response,
          )
          refl

    IsBacked-agrees :
        (rows : Dict String (Row F)) (e : AuditEvent F) (key : String) (row : Row F)
        → Dict.get rows key ≡ some row
        → IsBacked rows e
        → (not (joins key row e) || agrees env row e) ≡ true
    IsBacked-agrees rows e key row here b = elim (Bool-cases (e.key_digest == key)) [
      | inl own ↦
          let at : e.key_digest ≡ key = (string_eq.beq_iff e.key_digest key).0 own in
          let same : row ≡ b.row =
            some-injective (sym here ∙ ap (Dict.get rows) (sym at) ∙ b.here) in
          ap (λ r. not (joins key row e) || agrees env r e) same
          ∙ ap (λ t. not (joins key row e) || t) (agrees_own rows e b)
          ∙ or_true (not (joins key row e))
      | inr other ↦
          ap (λ t. not (t && some e.event_hash == row.audit_receipt_sha256) || agrees env row e)
            other
    ]

    row_consistent-IsBacked :
        (rows : Dict String (Row F)) (es : List (AuditEvent F)) (key : String) (row : Row F)
        → All (IsBacked rows) es
        → AllJoined rows es
        → Dict.get rows key ≡ some row
        → row_consistent env es key row ≡ true
    row_consistent-IsBacked rows es key row b all here =
        let agreed =
          every_event-All {P = IsBacked rows} (λ e. not (joins key row e) || agrees env row e) es
            (λ e b. IsBacked-agrees rows e key row here b) b in
        let joined = joined_row row.state (any_joins key row es) (all key row here) in
        rw (joined, agreed) refl

    -- No exception is counted.
    pub consistent-IsBacked :
        (rows : Dict String (Row F)) (es : List (AuditEvent F))
        → IsDistinct rows
        → All (IsBacked rows) es
        → AllJoined rows es
        → consistent env rows es ≡ true
    unfolding consistent
    consistent-IsBacked rows es d b all =
        rw
          (
            every_row-get (row_consistent env es) rows d
                (λ key row here. row_consistent-IsBacked rows es key row b all here),
            every_event-All (joins_any rows) es
                (λ e b. joins_any-get rows b.row e b.here (IsBacked-joins rows e b)) b,
          )
          refl
