-- ===== src/AuditLog/Reuse.antt =====
-- Appending again for a request id that the audit log has (api/audit.py).
use secure_swipe.Prelude.{
  ◌≡◌, subst, sym, inl, inr, ℕ, ◌||◌, not, String, true, false, List, [], ◌∷◌, ◌++◌, map, Eq, ◌==◌,
  string_eq, nat_eq, pair_eq, beq_refl, contains, Bool-cases,
}
use secure_swipe.Prelude.Result.{Result, ok, err, ◌>>=◌, ◌>>◌, >>=-eq-ok, fail_if, ok-injective}
use secure_swipe.Prelude.Text.{is_sha256}
use secure_swipe.Registry.{is_request_id}
use secure_swipe.AuditLog.Check.{
  LogError, LoggedEvent, Files, AuditDecision, Inference, AuditLog, Library, genesis,
  validate_event, check_line, check_lines, verify_files, verify_audit_log, is_empty, lines_of,
  bad_digest, bad_request_id, bad_api_version, bad_latency, no_decisions, bad_fingerprint,
}
use secure_swipe.AuditLog.{unsigned, signed, build_events, append_inference}
use secure_swipe.AuditLog.Lines.{seen_ids, seen_indexes, check_lines-append}
use secure_swipe.AuditLog.Append.{IsAppended, append_inference-IsAppended}

abbrev pub IsErr {ℓ κ} : {E : Type ℓ} {A : Type κ} → Result E A → Type 0
IsErr (err e) = Unit
IsErr (ok a) = ⊥

>>=-IsErr {ℓ κ ι} :
    {E : Type ℓ} {A : Type κ} {B : Type ι} (m : Result E A) (next : A → Result E B)
    → IsErr m
    → IsErr (m >>= next)
>>=-IsErr (err e) next h = tt
>>=-IsErr (ok a) next h = absurd h

next-IsErr {ℓ κ ι} :
    {E : Type ℓ} {A : Type κ} {B : Type ι} (m : Result E A) (next : A → Result E B)
    → ((a : A) → IsErr (next a))
    → IsErr (m >>= next)
next-IsErr (err e) next h = tt
next-IsErr (ok a) next h = h a

module _ {F L : Type 0} ⦃line_eq : Eq L⦄ (lib : Library F L) where
  open lib use {encode, decode, decode_encode, sha256_canonical, sha256, is_finite, non_negative}

  reused_line :
      (inference : Inference F) (key previous : String) (ids : List String)
      (indexes : List (String × ℕ)) (d : AuditDecision F) {u : Unit {0}}
      → validate_event lib (signed lib (unsigned lib inference key 0 previous d)) ≡ ok u
      → contains indexes (inference.request_id, 0) ≡ true
      → IsErr (
          check_line lib previous ids indexes
            (encode (signed lib (unsigned lib inference key 0 previous d))))
  unfolding check_line
  reused_line inference key previous ids indexes d valid used =
      let e = signed lib (unsigned lib inference key 0 previous d) in
      let last =
        elim (Bool-cases (contains ids d.event_id))
          as (λ s. IsErr (do
            fail_if (contains ids d.event_id) LogError.reused_event_id
            fail_if (contains indexes (inference.request_id, 0)) LogError.reused_index
            fail_if (not (previous == previous)) LogError.broken_chain
            fail_if (not (e.event_hash == sha256_canonical e.evidence)) LogError.wrong_hash
            ok e)) [ inl again ↦ rw again tt | inr other ↦ rw other (rw used tt) ] in
      rw (decode_encode e) (rw valid (rw (beq_refl (encode e)) last))

  -- The events that were built fail the check after a log with the request id.
  reused_lines :
      (inference : Inference F) (key previous : String) (ids : List String)
      (indexes : List (String × ℕ)) (ds : List (AuditDecision F)) (es : List (LoggedEvent F))
      → is_empty ds ≡ false
      → build_events lib inference key 0 previous ds ≡ ok es
      → contains indexes (inference.request_id, 0) ≡ true
      → IsErr (check_lines lib previous ids indexes (map encode es))
  unfolding build_events check_lines
  reused_lines inference key previous ids indexes [] es some_decision built used = cc
  reused_lines inference key previous ids indexes (d ∷ ds) es some_decision built used =
      let event = signed lib (unsigned lib inference key 0 previous d) in
      let (_, _, h1) =
        >>=-eq-ok (fail_if (not (is_sha256 d.model_fingerprint_sha256)) bad_fingerprint) _ built in
      let (_, valid, h2) = >>=-eq-ok (validate_event lib event) _ h1 in
      let (events, _, h3) = >>=-eq-ok (build_events lib inference key 1 event.event_hash ds) _ h2 in
      subst (λ es. IsErr (check_lines lib previous ids indexes (map encode es))) (ok-injective h3)
        (>>=-IsErr (check_line lib previous ids indexes (encode event)) _
          (reused_line inference key previous ids indexes d valid used))

  -- No append succeeds on files that do not verify.
  append_inference-IsErr :
      (inference : Inference F) (ds : List (AuditDecision F)) (writer : AuditLog) (files : Files L)
      → IsErr (verify_audit_log lib files)
      → IsErr (append_inference lib inference ds writer files)
  unfolding append_inference verify_audit_log
  append_inference-IsErr inference ds writer files h =
      next-IsErr (fail_if (is_empty ds) no_decisions) _ λ _.
        next-IsErr (fail_if (not (inference.api_schema_version == "1.0")) bad_api_version) _ λ _.
          next-IsErr (fail_if (not (is_sha256 inference.input_digest_sha256)) bad_digest) _ λ _.
            next-IsErr (fail_if (not (is_request_id inference.request_id)) bad_request_id) _ λ _.
              next-IsErr
                (fail_if
                  (not (is_finite inference.latency_ms) || not (non_negative inference.latency_ms))
                  bad_latency)
                _ λ _. >>=-IsErr (verify_files lib files.log files.anchor) _ h

  reused :
      (inference : Inference F) (ds : List (AuditDecision F)) (writer : AuditLog) (files : Files L)
      (after : Files L × AuditLog × List String)
      → IsAppended lib inference ds writer files after
      → contains (seen_indexes lib [] (lines_of files.log)) (inference.request_id, 0) ≡ true
      → IsErr (verify_audit_log lib after.0)
  unfolding verify_audit_log
  reused inference ds writer files after a used =
      let lines = lines_of files.log in
      subst (λ (w : Files L × AuditLog × List String). IsErr (verify_audit_log lib w.0)) a.made
        (>>=-IsErr (check_lines lib genesis [] [] (lines ++ map encode a.events)) _ (
          subst IsErr
            (sym (
              check_lines-append lib genesis writer.head_event_hash [] [] lines
                (map encode a.events) a.checked))
            (reused_lines inference (sha256 inference.request_id) writer.head_event_hash
              (seen_ids lib [] lines) (seen_indexes lib [] lines) ds a.events a.some_decision
              a.built used)))

  -- `append_inference` does not refuse a request id that the log has: when it succeeds and the log
  -- had an event of that request id with index 0, then the log no longer verifies, and every later
  -- `append_inference`, with any writer and any arguments, fails.
  pub append_inference-reuse :
      (inference : Inference F) (ds : List (AuditDecision F)) (writer : AuditLog) (files : Files L)
      (after : Files L × AuditLog × List String)
      → append_inference lib inference ds writer files ≡ ok after
      → contains (seen_indexes lib [] (lines_of files.log)) (inference.request_id, 0) ≡ true
      → IsErr (verify_audit_log lib after.0)
        × ((next : Inference F) (decisions : List (AuditDecision F)) (other : AuditLog)
            → IsErr (append_inference lib next decisions other after.0))
  append_inference-reuse inference ds writer files after h used =
      let broken =
        reused inference ds writer files after
          (append_inference-IsAppended lib inference ds writer files after h) used in
      (broken, λ next decisions other. append_inference-IsErr next decisions other after.0 broken)
