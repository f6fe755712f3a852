-- ===== src/Realtime/Event.antt =====
-- The event contract (src/synthetic_realtime/contracts.py). The model's events are those that
-- pydantic has validated. An amount is only compared for equality here, so a number names it.
use mathlib.Core.Path.{◌≡◌, subst}
use secure_swipe.Prelude.{
  ℕ, ◌↔◌, String, Bool, true, ◌&&◌, Option, List, [], ◌∷◌, arith, Eq, nat_eq, string_eq, bool_eq,
  option_eq, list_eq, list_beq, list_beq_iff, nat_beq, bool_beq, bool_beq_iff, option_beq,
  option_beq_iff,
}
use secure_swipe.Prelude.Int.{ℤ, int_beq, int_beq_iff}

pub data Outcome : Type 0 where
  success declined failed : Outcome

pub data DuplicateStatus : Type 0 where
  new duplicate : DuplicateStatus

pub data OrderingStatus : Type 0 where
  in_order late : OrderingStatus

pub record SyntheticEvent : Type 0 where
  pub event_id : String
  pub event_time : ℤ
  pub account_id : String
  pub device_id : String
  pub payment_method_id : String
  pub merchant_id : String
  pub address_id : String
  pub ip_id : String
  pub amount : ℕ
  pub currency : String
  pub outcome : Outcome
  pub account_country : String
  pub event_country : String
  pub event_region : String
  pub billing_shipping_match : Bool
  pub vpn_or_proxy : Bool
  pub retry_group_id : Option String

pub outcome_code : Outcome → ℕ
outcome_code success = 0
outcome_code declined = 1
outcome_code failed = 2

outcome_code-injective : (a b : Outcome) → outcome_code a ≡ outcome_code b → a ≡ b
unfolding outcome_code
outcome_code-injective a b h = ground arith

unfoldable pub texts : SyntheticEvent → List String
texts e =
    e.event_id ∷ e.account_id ∷ e.device_id ∷ e.payment_method_id ∷ e.merchant_id ∷ e.address_id
    ∷ e.ip_id ∷ e.currency ∷ e.account_country ∷ e.event_country ∷ e.event_region ∷ []

-- Equality of two events, field by field.
unfoldable pub event_beq : SyntheticEvent → SyntheticEvent → Bool
unfolding texts
event_beq a b =
    list_beq (texts a) (texts b)
    && int_beq a.event_time b.event_time
    && nat_beq a.amount b.amount
    && nat_beq (outcome_code a.outcome) (outcome_code b.outcome)
    && bool_beq a.billing_shipping_match b.billing_shipping_match
    && bool_beq a.vpn_or_proxy b.vpn_or_proxy
    && option_beq a.retry_group_id b.retry_group_id

event_beq_refl : (a : SyntheticEvent) → event_beq a a ≡ true
unfolding event_beq
event_beq_refl a = ground (
  arith,
  list_beq_iff (texts a) (texts a),
  int_beq_iff a.event_time a.event_time,
  bool_beq_iff a.billing_shipping_match a.billing_shipping_match,
  bool_beq_iff a.vpn_or_proxy a.vpn_or_proxy,
  option_beq_iff a.retry_group_id a.retry_group_id,
)

event_beq-eq : (a b : SyntheticEvent) → event_beq a b ≡ true → a ≡ b
unfolding event_beq
event_beq-eq a b h =
    let t : texts a ≡ texts b = (list_beq_iff (texts a) (texts b)).0 (ground arith) in
    let time : a.event_time ≡ b.event_time = (int_beq_iff _ _).0 (ground arith) in
    let amount : a.amount ≡ b.amount = ground arith in
    let outcome : a.outcome ≡ b.outcome = outcome_code-injective _ _ (ground arith) in
    let match : a.billing_shipping_match ≡ b.billing_shipping_match =
      (bool_beq_iff _ _).0 (ground arith) in
    let vpn : a.vpn_or_proxy ≡ b.vpn_or_proxy = (bool_beq_iff _ _).0 (ground arith) in
    let retry : a.retry_group_id ≡ b.retry_group_id = (option_beq_iff _ _).0 (ground arith) in
    unfold texts in cc

pub event_beq_iff : (a b : SyntheticEvent) → (event_beq a b ≡ true) ↔ (a ≡ b)
event_beq_iff a b = (event_beq-eq a b, λ p. subst (λ c. event_beq a c ≡ true) p (event_beq_refl a))

instance abbrev pub event_eq : Eq SyntheticEvent
event_eq = record { beq = event_beq; beq_iff = event_beq_iff }
