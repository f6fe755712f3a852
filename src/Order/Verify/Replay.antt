-- ===== src/Order/Verify/Replay.antt =====
-- Sequences of confirmations: replays, and that no quote is settled twice.
use secure_swipe.Prelude.{
  ℕ, ◌+◌, ◌≡◌, ◌≢◌, refl, sym, ap, ◌∙◌, Bool, true, false, ◌&&◌, String, Option, none, some, List,
  [], ◌∷◌, arith, eq_iff, Eq, ◌==◌, string_eq, option_beq, if◌then◌else◌, contains, inl, inr,
  Bool-cases, Option-cases,
}
use secure_swipe.Prelude.Dict
use secure_swipe.Prelude.Dict.{Dict, get-put}
use secure_swipe.Prelude.Int.{ℤ}
use secure_swipe.Prelude.Value.{Value}
use secure_swipe.Order.Quote.{Quote}
use secure_swipe.Order.Ledger.{
  Outcome, verified, IntegrityResult, ConfirmationLedger, is_verified, empty_ledger, settle, seen,
  record_event, is_settled,
}
use secure_swipe.Order.Verify.Confirmed.{IsConfirmed-of_verified, judge-IsConfirmed}
use secure_swipe.Order.Verify.{judge, verify_confirmation}

-- One confirmation request: all the arguments but the ledger.
pub record Confirmation (D : Type 0) : Type 0 where
  pub quote : Option (Quote D)
  pub event_id : String
  pub captured : Value
  pub currency : String
  pub catalog : Option (Dict String Value)
  pub sequence : ℤ
  pub active : String

-- The recorded results that make a quote eligible for fulfilment.
abbrev pub eligible : String → IntegrityResult → Bool
eligible q r = is_verified r.outcome && option_beq r.quote_id (some q)

unfoldable pub eligible_events : String → Dict String IntegrityResult → ℕ
eligible_events q [] = 0
eligible_events q ((_, r) ∷ d) = (if eligible q r then 1 else 0) + eligible_events q d

eligible_events-put :
    (q k : String) (r : IntegrityResult) (d : Dict String IntegrityResult)
    → Dict.get d k ≡ none
    → eligible_events q (Dict.put d k r) ≡ (if eligible q r then 1 else 0) + eligible_events q d
unfolding eligible_events Dict.get Dict.put
eligible_events-put q k r [] h = refl
eligible_events-put q k r ((j, s) ∷ d) h = ground (arith, eligible_events-put q k r d)

-- Each quote has at most one eligible event, and it has one exactly if it is settled.
pub record IsConsistent (ledger : ConfirmationLedger) : Type 0 where
  pub at_quote :
      (q : String) → eligible_events q ledger.events ≡ (if is_settled ledger q then 1 else 0)

-- A verified verdict is about a quote that is not settled yet.
abbrev OpensQuote : ConfirmationLedger → IntegrityResult → Type 0
OpensQuote ledger r =
    is_verified r.outcome ≡ true
    → (q : String) × (r.quote_id ≡ some q) × (is_settled ledger q ≡ false)

settle_count :
    (q : String) (outcome : Outcome) (reason : String) (quote_id : Option String) (detail : _)
    (settled : List String) (n : ℕ)
    → (is_verified outcome ≡ true
        → (p : String) × (quote_id ≡ some p) × (contains settled p ≡ false))
    → n ≡ (if contains settled q then 1 else 0)
    → (if eligible q (record {
      outcome = outcome;
      reason_code = reason;
      quote_id = quote_id;
      detail = detail;
    })
          then 1
          else 0)
        + n
      ≡ (if contains (settle outcome quote_id settled) q then 1 else 0)
unfolding contains
settle_count q verified reason none detail settled n h e = omega arith
settle_count q verified reason (some p) detail settled n h e =
    let (x, named, unsettled) = h refl in
    let same : p ≡ x = cc in
    let fresh : contains settled p ≡ false = rw same unsettled in ground (arith, fresh, eq_iff p q)
settle_count q _ reason quote_id detail settled n h e = omega arith

record_event-IsConsistent :
    (ledger : ConfirmationLedger) (event_id : String) (r : IntegrityResult)
    → seen ledger event_id ≡ none
    → OpensQuote ledger r
    → IsConsistent ledger
    → IsConsistent (record_event ledger event_id r).0
unfolding record_event seen is_settled
record_event-IsConsistent ledger event_id r unseen opens h = record {
  at_quote = λ q.
      eligible_events-put q event_id r ledger.events unseen
      ∙ settle_count q r.outcome r.reason_code r.quote_id r.detail ledger.settled_quotes _ opens
          (h.at_quote q);
}

module _ {D : Type 0} ⦃d : Eq D⦄ (digest : List (String × ℤ) → D) where
  abbrev pub submit : ConfirmationLedger → Confirmation D → ConfirmationLedger × IntegrityResult
  submit ledger c =
      verify_confirmation digest ledger c.quote c.event_id c.captured c.currency c.catalog
        c.sequence c.active

  unfoldable pub submit_all : ConfirmationLedger → List (Confirmation D) → ConfirmationLedger
  submit_all ledger [] = ledger
  submit_all ledger (c ∷ more) = submit_all (submit ledger c).0 more

  module _ (ledger : ConfirmationLedger) where
    seen-submit :
        (a : Confirmation D)
        → a.event_id ≢ ""
        → seen (submit ledger a).0 a.event_id ≡ some (submit ledger a).1
    unfolding verify_confirmation record_event seen
    seen-submit a named =
        let fresh =
          judge digest ledger a.quote a.captured a.currency a.catalog a.sequence a.active in
        ground (
          arith,
          eq_iff a.event_id "",
          eq_iff a.event_id a.event_id,
          get-put ledger.events a.event_id a.event_id fresh,
        )

    submit-seen :
        (b : Confirmation D) (r : IntegrityResult)
        → b.event_id ≢ ""
        → seen ledger b.event_id ≡ some r
        → submit ledger b ≡ (ledger, r)
    unfolding verify_confirmation
    submit-seen b r named found = ground (arith, eq_iff b.event_id "", found)

    seen-submit_other :
        (c : Confirmation D) (id : String) (r : IntegrityResult)
        → seen ledger id ≡ some r
        → seen (submit ledger c).0 id ≡ some r
    unfolding verify_confirmation record_event seen
    seen-submit_other c id r found =
        let fresh =
          judge digest ledger c.quote c.captured c.currency c.catalog c.sequence c.active in
        ground (arith, found, eq_iff c.event_id id, get-put ledger.events c.event_id id fresh)

  seen-submit_all :
      (between : List (Confirmation D)) (ledger : ConfirmationLedger) (id : String)
      (r : IntegrityResult)
      → seen ledger id ≡ some r
      → seen (submit_all ledger between) id ≡ some r
  unfolding submit_all
  seen-submit_all [] ledger id r found = found
  seen-submit_all (c ∷ more) ledger id r found =
      seen-submit_all more (submit ledger c).0 id r (seen-submit_other ledger c id r found)

  -- Once an event with a non-empty id is answered, its id brings the same answer again, after any
  -- confirmations in between and whatever else the second request says, and changes nothing.
  pub submit_again :
      (ledger : ConfirmationLedger) (a b : Confirmation D) (between : List (Confirmation D))
      → a.event_id ≢ ""
      → b.event_id ≡ a.event_id
      → submit (submit_all (submit ledger a).0 between) b
        ≡ (submit_all (submit ledger a).0 between, (submit ledger a).1)
  submit_again ledger a b between named same =
      let later = submit_all (submit ledger a).0 between in
      submit-seen later b (submit ledger a).1 (λ e. named (sym same ∙ e))
        (ap (seen later) same
          ∙ seen-submit_all between (submit ledger a).0 a.event_id (submit ledger a).1
              (seen-submit ledger a named))

  judge-OpensQuote :
      (ledger : ConfirmationLedger) (quote : Option (Quote D)) (captured : Value)
      (currency : String) (catalog : Option (Dict String Value)) (sequence : ℤ) (active : String)
      → OpensQuote ledger (judge digest ledger quote captured currency catalog sequence active)
  judge-OpensQuote ledger none captured currency catalog sequence active h = unfold judge in cc
  judge-OpensQuote ledger (some quote) captured currency none sequence active h = unfold judge in cc
  judge-OpensQuote ledger (some quote) captured currency (some catalog) sequence active h =
      let c =
        IsConfirmed-of_verified digest ledger quote captured currency catalog sequence active h in
      (
        quote.quote_id,
        ap (λ r. r.quote_id)
            (judge-IsConfirmed digest ledger quote captured currency catalog sequence active c),
        c.open_quote,
      )

  submit-IsConsistent :
      (ledger : ConfirmationLedger) (c : Confirmation D)
      → IsConsistent ledger
      → IsConsistent (submit ledger c).0
  unfolding verify_confirmation
  submit-IsConsistent ledger c h = elim (Bool-cases (c.event_id == "")) [
    | inl empty ↦ rw empty h
    | inr named ↦ elim (Option-cases (seen ledger c.event_id)) [
      | inl unseen ↦
          rw (named, unseen)
            (record_event-IsConsistent ledger c.event_id _ unseen
              (judge-OpensQuote ledger c.quote c.captured c.currency c.catalog c.sequence c.active)
              h)
      | inr (r, found) ↦ rw (named, found) h
    ]
  ]

  -- If a ledger is consistent, it stays so whatever confirmations are submitted to it, in any
  -- number and order: each quote has exactly one event that makes it eligible for fulfilment if
  -- it is settled, and none if it is not.
  pub submit_all-IsConsistent :
      (ledger : ConfirmationLedger) (requests : List (Confirmation D))
      → IsConsistent ledger
      → IsConsistent (submit_all ledger requests)
  unfolding submit_all
  submit_all-IsConsistent ledger [] h = h
  submit_all-IsConsistent ledger (c ∷ more) h =
      submit_all-IsConsistent (submit ledger c).0 more (submit-IsConsistent ledger c h)

pub empty_ledger-IsConsistent : IsConsistent empty_ledger
unfolding eligible_events is_settled contains
empty_ledger-IsConsistent = record { at_quote = λ q. refl }
