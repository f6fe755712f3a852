-- ===== src/Realtime/Store/Lookup.antt =====
-- What evictions and recordings do to the records: lookups, keys, lengths and the number of
-- records behind a key.
use secure_swipe.Prelude.{
  ◌≡◌, refl, ◌∙◌, ℕ, suc, ◌≤◌, ◌<◌, String, Bool, false, Option, none, some, List, [], ◌∷◌, length,
  contains, ◌==◌, string_eq, if◌then◌else◌, ltb, arith, eq_iff, Bool-cases, inl, inr,
}
use secure_swipe.Prelude.Int.{ℤ, ltb_ℤ}
use secure_swipe.Prelude.Dict
use secure_swipe.Prelude.Dict.{Dict, get-put, get-remove, IsDistinct}
use secure_swipe.Realtime.Store.{StoredRecord, expired_ids, remove_all, enforce_capacity}

abbrev pub Records : Type 0
Records = Dict String StoredRecord

abbrev pub expired : ℤ → Option StoredRecord → Bool
expired cutoff none = false
expired cutoff (some r) = ltb_ℤ r.event.event_time cutoff

get-remove_all :
    (ids : List String) (d : Records) (k : String)
    → Dict.get (remove_all ids d) k ≡ (if contains ids k then none else Dict.get d k)
unfolding remove_all contains Dict.get
get-remove_all [] d k = refl
get-remove_all (i ∷ ids) d k =
    ground (arith, get-remove_all ids (Dict.remove d i) k, get-remove d i k)

contains-expired_ids :
    (cutoff : ℤ) (d : Records) (k : String)
    → IsDistinct d
    → contains (expired_ids cutoff d) k ≡ expired cutoff (Dict.get d k)
unfolding expired_ids contains Dict.get
contains-expired_ids cutoff [] k h = refl
contains-expired_ids cutoff ((i, r) ∷ d) k h =
    ground (arith, contains-expired_ids cutoff d k, eq_iff i k)

-- An eviction forgets exactly the records older than the cutoff.
pub get-evict :
    (cutoff : ℤ) (d : Records) (k : String)
    → IsDistinct d
    → Dict.get (remove_all (expired_ids cutoff d) d) k
      ≡ (if expired cutoff (Dict.get d k) then none else Dict.get d k)
get-evict cutoff d k h =
    ground (arith, get-remove_all (expired_ids cutoff d) d k, contains-expired_ids cutoff d k)

-- A predicate on the records that a removal keeps, a removal of several keeps.
pub remove_all-keeps {ℓ} :
    (P : Records → Type ℓ)
    → ((d : Records) (k : String) → P d → P (Dict.remove d k))
    → (ids : List String) (d : Records) → P d
    → P (remove_all ids d)
unfolding remove_all
remove_all-keeps P h [] d p = p
remove_all-keeps P h (i ∷ ids) d p = remove_all-keeps P h ids (Dict.remove d i) (h d i p)

-- A predicate that dropping the first record keeps, the capacity limit keeps.
pub enforce_capacity-keeps {ℓ} :
    (P : Records → Type ℓ)
    → ((x : String × StoredRecord) (d : Records) → P (x ∷ d) → P d)
    → (n : ℕ) (d : Records) → P d
    → P (enforce_capacity n d)
unfolding enforce_capacity
enforce_capacity-keeps P h n [] p = p
enforce_capacity-keeps P h n (x ∷ d) p = elim (Bool-cases (ltb n (length (x ∷ d)))) [
  | inl q ↦ rw q (enforce_capacity-keeps P h n d (h x d p))
  | inr q ↦ rw q p
]

pub length-enforce_capacity : (n : ℕ) (d : Records) → length (enforce_capacity n d) ≤ n
unfolding enforce_capacity
length-enforce_capacity n [] = omega arith
length-enforce_capacity n (x ∷ d) = ground (arith, length-enforce_capacity n d)

pub remove-IsDistinct : (d : Records) (k : String) → IsDistinct d → IsDistinct (Dict.remove d k)
unfolding Dict.remove Dict.get
remove-IsDistinct [] k h = tt
remove-IsDistinct ((j, r) ∷ d) k h = ground (arith, remove-IsDistinct d k, get-remove d k j)

pub length-remove-le : (d : Records) (k : String) → length (Dict.remove d k) ≤ length d
unfolding Dict.remove
length-remove-le [] k = omega arith
length-remove-le ((j, r) ∷ d) k = ground (arith, length-remove-le d k)

-- How many records came after that of a key.
pub behind : Records → String → ℕ
behind [] k = 0
behind ((j, r) ∷ d) k = if j == k then length d else behind d k

pub behind-remove :
    (d : Records) (k j : String) → (j == k) ≡ false → behind (Dict.remove d j) k ≤ behind d k
unfolding behind Dict.remove
behind-remove [] k j h = omega arith
behind-remove ((i, r) ∷ d) k j h =
    ground (arith, behind-remove d k j, length-remove-le d j, eq_iff i k, eq_iff i j, eq_iff j k)

behind-remove_all :
    (ids : List String) (d : Records) (k : String)
    → contains ids k ≡ false
    → behind (remove_all ids d) k ≤ behind d k
unfolding remove_all contains
behind-remove_all [] d k h = omega arith
behind-remove_all (i ∷ ids) d k h =
    ground (arith, behind-remove_all ids (Dict.remove d i) k, behind-remove d k i)

pub behind-evict :
    (cutoff : ℤ) (d : Records) (k : String)
    → IsDistinct d
    → expired cutoff (Dict.get d k) ≡ false
    → behind (remove_all (expired_ids cutoff d) d) k ≤ behind d k
behind-evict cutoff d k h p =
    behind-remove_all (expired_ids cutoff d) d k (contains-expired_ids cutoff d k h ∙ p)

pub length-put-le :
    (d : Records) (k : String) (r : StoredRecord) → length (Dict.put d k r) ≤ suc (length d)
unfolding Dict.put
length-put-le [] k r = omega arith
length-put-le ((j, w) ∷ d) k r = ground (arith, length-put-le d k r)

pub behind-put :
    (d : Records) (k j : String) (r : StoredRecord) → behind (Dict.put d j r) k ≤ suc (behind d k)
unfolding behind Dict.put
behind-put [] k j r = ground arith
behind-put ((i, w) ∷ d) k j r =
    ground (arith, behind-put d k j r, length-put-le d j r, eq_iff i k, eq_iff i j, eq_iff j k)

-- A new key goes last.
pub behind-put_new :
    (d : Records) (k : String) (r : StoredRecord)
    → Dict.get d k ≡ none
    → behind (Dict.put d k r) k ≡ 0
unfolding behind Dict.put Dict.get
behind-put_new [] k r h = ground (arith, eq_iff k k)
behind-put_new ((i, w) ∷ d) k r h = ground (arith, behind-put_new d k r)

-- The capacity limit reaches a record only when as many records came after it.
pub enforce_capacity-behind :
    (n : ℕ) (d : Records) (k : String) (r : StoredRecord)
    → Dict.get d k ≡ some r
    → behind d k < n
    → (Dict.get (enforce_capacity n d) k ≡ some r) × (behind (enforce_capacity n d) k ≤ behind d k)
unfolding behind enforce_capacity Dict.get
enforce_capacity-behind n [] k r h p = cc
enforce_capacity-behind n ((i, w) ∷ d) k r h p = ground (arith, enforce_capacity-behind n d k r)
