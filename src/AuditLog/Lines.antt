-- ===== src/AuditLog/Lines.antt =====
-- The check of a log's lines (api/audit.py, verify_audit_log), before and after an append.
use secure_swipe.Prelude.{
  ◌≡◌, refl, subst, ap, ◌∙◌, ℕ, suc, ◌≤◌, ◌||◌, not, String, Bool, true, false, none, some, List,
  [], ◌∷◌, ◌++◌, map, Eq, ◌==◌, string_eq, nat_eq, pair_eq, beq_refl, nat_beq, contains, arith,
}
use secure_swipe.Prelude.Result.{ok, >>=-eq-ok, fail_if, of_option, of_option-eq-ok, ok-injective}
use secure_swipe.Prelude.Text.{is_sha256}
use secure_swipe.AuditLog.Check.{
  LoggedEvent, AuditDecision, Inference, Library, validate_event, check_line, check_lines,
  bad_fingerprint, bad_line, not_canonical, reused_event_id, reused_index, broken_chain, wrong_hash,
}
use secure_swipe.AuditLog.{unsigned, signed, build_events, last_hash}

pub neither : (a b : Bool) → (a || b) ≡ false → (a ≡ false) × (b ≡ false)
neither true b h = cc
neither false b h = (refl, h)

module _ {F L : Type 0} ⦃line_eq : Eq L⦄ (lib : Library F L) where
  open lib use {encode, decode, decode_encode, sha256_canonical, canonical_digest}

  -- The event ids and the request indexes of the lines, latest first, before `seen`.
  unfoldable pub seen_ids : List String → List L → List String
  seen_ids seen [] = seen
  seen_ids seen (line ∷ lines) = elim (decode line) [
    | none ↦ seen_ids seen lines
    | some e ↦ seen_ids (e.evidence.event_id ∷ seen) lines
  ]

  unfoldable pub seen_indexes : List (String × ℕ) → List L → List (String × ℕ)
  seen_indexes seen [] = seen
  seen_indexes seen (line ∷ lines) = elim (decode line) [
    | none ↦ seen_indexes seen lines
    | some e ↦ seen_indexes ((e.evidence.request_id, e.evidence.event_index) ∷ seen) lines
  ]

  check_line-decode :
      (previous : String) (ids : List String) (indexes : List (String × ℕ)) (line : L)
      (e : LoggedEvent F)
      → check_line lib previous ids indexes line ≡ ok e
      → decode line ≡ some e
  unfolding check_line
  check_line-decode previous ids indexes line e h =
      let (f, e1, h1) = >>=-eq-ok (of_option (decode line) bad_line) _ h in
      let (_, _, h2) = >>=-eq-ok (validate_event lib f) _ h1 in
      let (_, _, h3) = >>=-eq-ok (fail_if (not (encode f == line)) not_canonical) _ h2 in
      let (_, _, h4) =
        >>=-eq-ok (fail_if (contains ids f.evidence.event_id) reused_event_id) _ h3 in
      let (_, _, h5) =
        >>=-eq-ok
          (fail_if (contains indexes (f.evidence.request_id, f.evidence.event_index)) reused_index)
          _ h4 in
      let (_, _, h6) =
        >>=-eq-ok (fail_if (not (f.evidence.previous_hash == previous)) broken_chain) _ h5 in
      let (_, _, h7) =
        >>=-eq-ok (fail_if (not (f.event_hash == sha256_canonical f.evidence)) wrong_hash) _ h6 in
      of_option-eq-ok (decode line) bad_line e1 ∙ ap some (ok-injective h7)

  check_lines-step :
      (previous : String) (ids : List String) (indexes : List (String × ℕ)) (x : L) (xs : List L)
      (e : LoggedEvent F)
      → check_line lib previous ids indexes x ≡ ok e
      → check_lines lib previous ids indexes (x ∷ xs)
        ≡ check_lines lib e.event_hash
            (e.evidence.event_id ∷ ids)
            ((e.evidence.request_id, e.evidence.event_index) ∷ indexes)
            xs
  unfolding check_lines
  check_lines-step previous ids indexes x xs e h = rw h refl

  seen_ids-step :
      (ids : List String) (x : L) (xs : List L) (e : LoggedEvent F)
      → decode x ≡ some e
      → seen_ids (e.evidence.event_id ∷ ids) xs ≡ seen_ids ids (x ∷ xs)
  unfolding seen_ids
  seen_ids-step ids x xs e h = rw (h, seen_ids) refl

  seen_indexes-step :
      (indexes : List (String × ℕ)) (x : L) (xs : List L) (e : LoggedEvent F)
      → decode x ≡ some e
      → seen_indexes ((e.evidence.request_id, e.evidence.event_index) ∷ indexes) xs
        ≡ seen_indexes indexes (x ∷ xs)
  unfolding seen_indexes
  seen_indexes-step indexes x xs e h = rw (h, seen_indexes) refl

  -- Verified lines before others.
  pub check_lines-append :
      (previous head : String) (ids : List String) (indexes : List (String × ℕ)) (xs ys : List L)
      → check_lines lib previous ids indexes xs ≡ ok head
      → check_lines lib previous ids indexes (xs ++ ys)
        ≡ check_lines lib head (seen_ids ids xs) (seen_indexes indexes xs) ys
  unfolding check_lines seen_ids seen_indexes
  check_lines-append previous head ids indexes [] ys h =
      ap (λ p. check_lines lib p ids indexes ys) (ok-injective h)
  check_lines-append previous head ids indexes (x ∷ xs) ys h =
      let (e, e1, h1) = >>=-eq-ok (check_line lib previous ids indexes x) _ h in
      let same = check_line-decode previous ids indexes x e e1 in
      check_lines-step previous ids indexes x (xs ++ ys) e e1
      ∙ check_lines-append e.event_hash head (e.evidence.event_id ∷ ids)
          ((e.evidence.request_id, e.evidence.event_index) ∷ indexes) xs ys h1
      ∙ ap
          (λ s.
            check_lines lib head s
              (seen_indexes ((e.evidence.request_id, e.evidence.event_index) ∷ indexes) xs) ys)
          (seen_ids-step ids x xs e same)
      ∙ ap (λ s. check_lines lib head (seen_ids ids (x ∷ xs)) s ys)
          (seen_indexes-step indexes x xs e same)

  -- No id is among those seen or earlier in the list.
  abbrev pub AllNew : List String → List (AuditDecision F) → Type 0
  AllNew ids [] = Unit
  AllNew ids (d ∷ ds) = (contains ids d.event_id ≡ false) × AllNew (d.event_id ∷ ids) ds

  unused_after :
      (rid : String) (i j : ℕ) (indexes : List (String × ℕ))
      → suc i ≤ j
      → contains indexes (rid, j) ≡ false
      → contains ((rid, i) ∷ indexes) (rid, j) ≡ false
  unfolding contains
  unused_after rid i j indexes le h =
      let other : nat_beq i j ≡ false = ground arith in rw (beq_refl rid) (rw other h)

  signed_line :
      (inference : Inference F) (key previous : String) (i : ℕ) (ids : List String)
      (indexes : List (String × ℕ)) (d : AuditDecision F) {u : Unit {0}}
      → validate_event lib (signed lib (unsigned lib inference key i previous d)) ≡ ok u
      → contains ids d.event_id ≡ false
      → contains indexes (inference.request_id, i) ≡ false
      → check_line lib previous ids indexes
          (encode (signed lib (unsigned lib inference key i previous d)))
        ≡ ok (signed lib (unsigned lib inference key i previous d))
  unfolding check_line
  signed_line inference key previous i ids indexes d valid new unused =
      let e = signed lib (unsigned lib inference key i previous d) in
      rw (decode_encode e) (
        rw valid (
          rw (beq_refl (encode e))
            (rw new (rw unused (rw (beq_refl previous) (rw (beq_refl e.event_hash) refl))))))

  -- The lines of built events pass the check after what was seen.
  pub build_events-check_lines :
      (inference : Inference F) (key previous : String) (i : ℕ) (ids : List String)
      (indexes : List (String × ℕ)) (ds : List (AuditDecision F)) (es : List (LoggedEvent F))
      → build_events lib inference key i previous ds ≡ ok es
      → AllNew ids ds
      → ((j : ℕ) → i ≤ j → contains indexes (inference.request_id, j) ≡ false)
      → check_lines lib previous ids indexes (map encode es) ≡ ok (last_hash lib previous es)
  unfolding build_events check_lines last_hash
  build_events-check_lines inference key previous i ids indexes [] es h new unused =
      subst
        (λ es.
          check_lines lib previous ids indexes (map encode es) ≡ ok (last_hash lib previous es))
        (ok-injective h) refl
  build_events-check_lines inference key previous i ids indexes (d ∷ ds) es h new unused =
      let event = signed lib (unsigned lib inference key i previous d) in
      let (_, _, h1) =
        >>=-eq-ok (fail_if (not (is_sha256 d.model_fingerprint_sha256)) bad_fingerprint) _ h in
      let (_, valid, h2) = >>=-eq-ok (validate_event lib event) _ h1 in
      let (events, built, h3) =
        >>=-eq-ok (build_events lib inference key (suc i) event.event_hash ds) _ h2 in
      let rest =
        build_events-check_lines inference key event.event_hash (suc i) (d.event_id ∷ ids)
          ((inference.request_id, i) ∷ indexes) ds events built new.1
          (λ j le. unused_after inference.request_id i j indexes le (unused j (omega arith))) in
      let checked =
        signed_line inference key previous i ids indexes d valid new.0 (unused i (omega arith)) in
      subst
        (λ es.
          check_lines lib previous ids indexes (map encode es) ≡ ok (last_hash lib previous es))
        (ok-injective h3)
        (check_lines-step previous ids indexes (encode event) (map encode events) event checked
          ∙ rest)
