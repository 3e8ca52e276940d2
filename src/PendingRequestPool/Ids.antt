-- ===== src/PendingRequestPool/Ids.antt =====
-- The IDs of a client's requests, over the loops of PendingRequestPool.cpp.
use vhal_core.Prelude.{
  ℕ, ◌+◌, ◌≡◌, refl, ap, Bool, false, ◌||◌, none, some, List, [], ◌∷◌, ◌++◌, arith, length,
  length-append, if◌then◌else◌,
}
use vhal_core.Prelude.Int.{ℤ, ℤ_discrete}
use vhal_core.Prelude.Sets.{contains, contains-append}
use mathlib.Core.List.{append_assoc}
use vhal_core.PendingRequestPool.{PendingRequest, any_pending, scan, is_pending_in, count_in}

-- All IDs of the requests, in order.
unfoldable pub all_ids : List PendingRequest → List ℤ
all_ids [] = []
all_ids (r ∷ rs) = r.request_ids ++ all_ids rs

-- Some of `ids` is the ID of one of the requests.
unfoldable pub any_duplicate : List ℤ → List PendingRequest → Bool
any_duplicate [] rs = false
any_duplicate (i ∷ ids) rs = is_pending_in i rs || any_duplicate ids rs

pub is_pending_in-all_ids :
    (i : ℤ) (rs : List PendingRequest) → is_pending_in i rs ≡ contains ℤ_discrete i (all_ids rs)
unfolding is_pending_in all_ids contains
is_pending_in-all_ids i [] = refl
is_pending_in-all_ids i (r ∷ rs) = rw (contains-append, is_pending_in-all_ids i rs)

pub is_pending_in-append :
    (i : ℤ) (rs ss : List PendingRequest)
    → is_pending_in i (rs ++ ss) ≡ (is_pending_in i rs || is_pending_in i ss)
unfolding is_pending_in
is_pending_in-append i [] ss = refl
is_pending_in-append i (r ∷ rs) ss = ground (arith, is_pending_in-append i rs ss)

pub all_ids-append : (rs ss : List PendingRequest) → all_ids (rs ++ ss) ≡ all_ids rs ++ all_ids ss
unfolding all_ids
all_ids-append [] ss = refl
all_ids-append (r ∷ rs) ss = simp (all_ids-append rs ss, append_assoc)

pub length-all_ids : (rs : List PendingRequest) → length (all_ids rs) ≡ count_in rs
unfolding all_ids count_in
length-all_ids [] = refl
length-all_ids (r ∷ rs) = omega (arith, length-append r.request_ids (all_ids rs), length-all_ids rs)

pub any_duplicate-nil : (ids : List ℤ) → any_duplicate ids [] ≡ false
unfolding any_duplicate is_pending_in
any_duplicate-nil [] = refl
any_duplicate-nil (i ∷ ids) = any_duplicate-nil ids

any_duplicate-cons :
    (ids : List ℤ) (r : PendingRequest) (rs : List PendingRequest)
    → any_duplicate ids (r ∷ rs) ≡ (any_pending ids r.request_ids || any_duplicate ids rs)
unfolding any_duplicate any_pending is_pending_in
any_duplicate-cons [] r rs = refl
any_duplicate-cons (i ∷ ids) r rs = ground (arith, any_duplicate-cons ids r rs)

-- The loop of `addRequests` finds a duplicate if there is one, and counts the pending IDs if not.
pub scan-any_duplicate :
    (ids : List ℤ) (rs : List PendingRequest) (count : ℕ)
    → scan ids rs count ≡ (if any_duplicate ids rs then none else some (count + count_in rs))
unfolding scan count_in
scan-any_duplicate ids [] count = rw (any_duplicate-nil ids) (ap some (omega arith))
scan-any_duplicate ids (r ∷ rs) count =
    ground
      (arith, any_duplicate-cons ids r rs, scan-any_duplicate ids rs (count + length r.request_ids))
