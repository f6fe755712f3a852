-- ===== src/AuditLog/Append.antt =====
-- Appending to the audit log (api/audit.py) and verifying it again.
use secure_swipe.Prelude.{
  ◌≡◌, subst, sym, ap, ◌∙◌, ℕ, suc, ◌+◌, ◌||◌, not, String, true, false, Option, none, some, List,
  [], ◌∷◌, ◌++◌, map, length, length-append, length-map, Eq, ◌==◌, string_eq, nat_eq, pair_eq,
  beq_refl, nat_beq, nat_beq_iff, contains, arith,
}
use secure_swipe.Prelude.Result.{ok, not-false, >>=-eq-ok, fail_if, fail_if-eq-ok, ok-injective}
use secure_swipe.Prelude.Text.{is_sha256}
use secure_swipe.Registry.{is_request_id}
use secure_swipe.AuditLog.Check.{
  LoggedEvent, Anchor, Files, AuditDecision, Inference, AuditLog, Library, genesis, validate_event,
  check_lines, check_anchor, verify_files, verify_audit_log, is_empty, lines_of, bad_anchor,
  wrong_anchor, changed, no_decisions, bad_api_version, bad_digest, bad_request_id, bad_latency,
  bad_fingerprint,
}
use secure_swipe.AuditLog.{unsigned, signed, build_events, last_hash, written, append_inference}
use secure_swipe.AuditLog.Lines.{
  build_events-check_lines, neither, AllNew, check_lines-append, seen_ids, seen_indexes,
}

module _ {F L : Type 0} ⦃line_eq : Eq L⦄ (lib : Library F L) where
  open lib use {encode, canonical_digest}

  last_hash-is_sha256 :
      (inference : Inference F) (key previous : String) (i : ℕ) (ds : List (AuditDecision F))
      (es : List (LoggedEvent F))
      → build_events lib inference key i previous ds ≡ ok es
      → is_sha256 previous ≡ true
      → is_sha256 (last_hash lib previous es) ≡ true
  unfolding build_events last_hash
  last_hash-is_sha256 inference key previous i [] es h valid =
      subst (λ es. is_sha256 (last_hash lib previous es) ≡ true) (ok-injective h) valid
  last_hash-is_sha256 inference key previous i (d ∷ ds) es h valid =
      let event = signed lib (unsigned lib inference key i previous d) in
      let (_, _, h1) =
        >>=-eq-ok (fail_if (not (is_sha256 d.model_fingerprint_sha256)) bad_fingerprint) _ h in
      let (_, _, h2) = >>=-eq-ok (validate_event lib event) _ h1 in
      let (events, built, h3) =
        >>=-eq-ok (build_events lib inference key (suc i) event.event_hash ds) _ h2 in
      subst (λ es. is_sha256 (last_hash lib previous es) ≡ true) (ok-injective h3)
        (last_hash-is_sha256 inference key event.event_hash (suc i) ds events built
          (canonical_digest event.evidence))

  -- What a verified log is.
  abbrev pub IsVerified : Option (List L) → ℕ → String → Type 0
  IsVerified log n head =
      (check_lines lib genesis [] [] (lines_of log) ≡ ok head)
      × (length (lines_of log) ≡ n)
      × (is_sha256 head ≡ true)

  check_anchor-IsVerified :
      (anchor : Option Anchor) (lines : List L) (last head : String) (n : ℕ)
      → check_lines lib genesis [] [] lines ≡ ok last
      → check_anchor anchor lines last ≡ ok (n, head)
      → IsVerified (some lines) n head
  unfolding check_lines is_sha256
  check_anchor-IsVerified none [] last head n c h = (
    ap ok (ap (λ p. p.1) (ok-injective h)),
    ap (λ p. p.0) (ok-injective h),
    ap (λ p. is_sha256 p.1) (sym (ok-injective h)),
  )
  check_anchor-IsVerified none (x ∷ xs) last head n c h = cc
  check_anchor-IsVerified (some a) lines last head n c h =
      let (_, e1, h1) = >>=-eq-ok (fail_if (not (is_sha256 a.head_event_hash)) bad_anchor) _ h in
      let (_, e2, h2) =
        >>=-eq-ok
          (fail_if (not (nat_beq a.event_count (length lines)) || not (a.head_event_hash == last))
            wrong_anchor)
          _ h1 in
      let tests = neither _ _ (fail_if-eq-ok _ wrong_anchor e2) in
      let same : last ≡ head = ap (λ p. p.1) (ok-injective h2) in
      let anchored : a.head_event_hash ≡ last = (string_eq.beq_iff _ _).0 (not-false _ tests.1) in
      (
        c ∙ ap ok same,
        ap (λ p. p.0) (ok-injective h2),
        ap is_sha256 (sym (anchored ∙ same)) ∙ not-false _ (fail_if-eq-ok _ bad_anchor e1),
      )

  pub verify_files-IsVerified :
      (log : Option (List L)) (anchor : Option Anchor) (n : ℕ) (head : String)
      → verify_files lib log anchor ≡ ok (n, head)
      → IsVerified log n head
  unfolding check_lines is_sha256
  verify_files-IsVerified none none n head h = (
    ap ok (ap (λ p. p.1) (ok-injective h)),
    ap (λ p. p.0) (ok-injective h),
    ap (λ p. is_sha256 p.1) (sym (ok-injective h)),
  )
  verify_files-IsVerified none (some a) n head h = cc
  verify_files-IsVerified (some lines) anchor n head h =
      let (last, c, h1) = >>=-eq-ok (check_lines lib genesis [] [] lines) _ h in
      check_anchor-IsVerified anchor lines last head n c h1

  -- The files that the writer leaves, once its events are built.
  appended :
      (inference : Inference F) (ds : List (AuditDecision F)) (writer writer' : AuditLog)
      (files files' : Files L) (hashes : List String) (events : List (LoggedEvent F))
      → build_events lib inference (lib.sha256 inference.request_id) 0 writer.head_event_hash ds
        ≡ ok events
      → check_lines lib genesis [] [] (lines_of files.log) ≡ ok writer.head_event_hash
      → length (lines_of files.log) ≡ writer.event_count
      → is_sha256 writer.head_event_hash ≡ true
      → AllNew lib (seen_ids lib [] (lines_of files.log)) ds
      → ((j : ℕ)
          → contains (seen_indexes lib [] (lines_of files.log)) (inference.request_id, j) ≡ false)
      → written lib writer files events ≡ (files', writer', hashes)
      → verify_audit_log lib files' ≡ ok (writer'.event_count, writer'.head_event_hash)
  unfolding verify_audit_log
  appended inference ds writer writer' files files' hashes events built checked size valid new
        unused made =
      let lines = lines_of files.log in
      let last = last_hash lib writer.head_event_hash events in
      let key = lib.sha256 inference.request_id in
      let verified : check_lines lib genesis [] [] (lines ++ map encode events) ≡ ok last =
        check_lines-append lib genesis writer.head_event_hash [] [] lines (map encode events)
          checked
        ∙ build_events-check_lines lib inference key writer.head_event_hash 0
            (seen_ids lib [] lines) (seen_indexes lib [] lines) ds events built new
            (λ j le. unused j) in
      let count : writer.event_count + length events ≡ length (lines ++ map encode events) =
        omega (arith, size, length-append lines (map encode events), length-map encode events) in
      let good : is_sha256 last ≡ true =
        last_hash-is_sha256 inference key writer.head_event_hash 0 ds events built valid in
      subst
        (λ (w : Files L × AuditLog × List String).
          verify_audit_log lib w.0 ≡ ok (w.1.event_count, w.1.head_event_hash))
        made
        (rw verified (
          rw good (
            rw ((nat_beq_iff _ _).1 count)
              (rw (beq_refl last) (ap (λ n. ok (n, last)) (sym count))))))

  -- What an append that succeeds found and wrote.
  pub record IsAppended (inference : Inference F) (ds : List (AuditDecision F)) (writer : AuditLog)
      (files : Files L) (after : Files L × AuditLog × List String) : Type 0 where
    pub events : List (LoggedEvent F)
    pub some_decision : is_empty ds ≡ false
    pub built :
        build_events lib inference (lib.sha256 inference.request_id) 0 writer.head_event_hash ds
        ≡ ok events
    pub checked : check_lines lib genesis [] [] (lines_of files.log) ≡ ok writer.head_event_hash
    pub size : length (lines_of files.log) ≡ writer.event_count
    pub valid : is_sha256 writer.head_event_hash ≡ true
    pub made : written lib writer files events ≡ after

  pub append_inference-IsAppended :
      (inference : Inference F) (ds : List (AuditDecision F)) (writer : AuditLog) (files : Files L)
      (after : Files L × AuditLog × List String)
      → append_inference lib inference ds writer files ≡ ok after
      → IsAppended inference ds writer files after
  unfolding append_inference verify_audit_log
  append_inference-IsAppended inference ds writer files after h =
      let (_, e1, h1) = >>=-eq-ok (fail_if (is_empty ds) no_decisions) _ h in
      let (_, _, h2) =
        >>=-eq-ok (fail_if (not (inference.api_schema_version == "1.0")) bad_api_version) _ h1 in
      let (_, _, h3) =
        >>=-eq-ok (fail_if (not (is_sha256 inference.input_digest_sha256)) bad_digest) _ h2 in
      let (_, _, h4) =
        >>=-eq-ok (fail_if (not (is_request_id inference.request_id)) bad_request_id) _ h3 in
      let (_, _, h5) =
        >>=-eq-ok
          (fail_if
            (not (lib.is_finite inference.latency_ms)
              || not (lib.non_negative inference.latency_ms))
            bad_latency)
          _ h4 in
      let ((count, head), e6, h6) = >>=-eq-ok (verify_files lib files.log files.anchor) _ h5 in
      let (_, e7, h7) =
        >>=-eq-ok
          (fail_if (not (nat_beq count writer.event_count) || not (head == writer.head_event_hash))
            changed)
          _ h6 in
      let (events, built, h8) =
        >>=-eq-ok
          (build_events lib inference (lib.sha256 inference.request_id) 0 writer.head_event_hash ds)
          _ h7 in
      let tests = neither _ _ (fail_if-eq-ok _ changed e7) in
      let counted : count ≡ writer.event_count = (nat_beq_iff _ _).0 (not-false _ tests.0) in
      let headed : head ≡ writer.head_event_hash =
        (string_eq.beq_iff _ _).0 (not-false _ tests.1) in
      let (checked, size, valid) = verify_files-IsVerified files.log files.anchor count head e6 in
      record {
        events = events;
        some_decision = fail_if-eq-ok (is_empty ds) no_decisions e1;
        built = built;
        checked = checked ∙ ap ok headed;
        size = size ∙ counted;
        valid = ap is_sha256 (sym headed) ∙ valid;
        made = ok-injective h8;
      }

  -- After a successful `append_inference` whose event ids are new and whose request id is in no
  -- event of the log, the log verifies with the count and the head that the writer remembers.
  pub append_inference-verify :
      (inference : Inference F) (ds : List (AuditDecision F)) (writer writer' : AuditLog)
      (files files' : Files L) (hashes : List String)
      → append_inference lib inference ds writer files ≡ ok (files', writer', hashes)
      → AllNew lib (seen_ids lib [] (lines_of files.log)) ds
      → ((j : ℕ)
          → contains (seen_indexes lib [] (lines_of files.log)) (inference.request_id, j) ≡ false)
      → verify_audit_log lib files' ≡ ok (writer'.event_count, writer'.head_event_hash)
  append_inference-verify inference ds writer writer' files files' hashes h new unused =
      let a = append_inference-IsAppended inference ds writer files (files', writer', hashes) h in
      appended inference ds writer writer' files files' hashes a.events a.built a.checked a.size
        a.valid new unused a.made
