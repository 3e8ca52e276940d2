-- ===== src/SubscriptionManager/Progress.antt =====
-- How far a loop over properties and areas comes that stops at the first error.
use vhal_core.Prelude.{◌≡◌, refl, List, [], ◌∷◌, ◌++◌}
use vhal_core.HalTypes.{VhalResult, ok, err}
use mathlib.Core.List.{append_assoc, append-nil}
use vhal_core.HalTypes.{PropIdAreaId}
use vhal_core.SubscriptionManager.{Manager, M, ◌>>◌}
use vhal_core.SubscriptionManager.Clients.{bind-cases}

-- A loop that succeeds has nothing left to do.
abbrev pub IsFinished : VhalResult (Unit {0}) → List PropIdAreaId → Type 0
IsFinished (ok a) rest = rest ≡ []
IsFinished (err e) rest = Unit {0}

module _ {F : Type 0} (R : List PropIdAreaId → Manager F → Manager F → Type 0) where
  -- `R` holds of some first keys, which are all of them on success.
  abbrev pub IsProgress : List PropIdAreaId → Manager F → Manager F × VhalResult (Unit {0}) → Type 0
  IsProgress ks s (s', r) =
      (before : List PropIdAreaId) × (after : List PropIdAreaId) × (ks ≡ before ++ after)
      × R before s s'
      × IsFinished r after

  -- One key: all or nothing.
  abbrev pub IsStep : PropIdAreaId → Manager F → Manager F × VhalResult (Unit {0}) → Type 0
  IsStep key s (s', ok a) = R (key ∷ []) s s'
  IsStep key s (s', err e) = R [] s s'

  pub IsProgress-step :
      (key : PropIdAreaId) (s : Manager F) (x : Manager F × VhalResult (Unit {0}))
      → IsStep key s x
      → IsProgress (key ∷ []) s x
  IsProgress-step key s (s', ok a) h = (key ∷ [], [], refl, h, refl)
  IsProgress-step key s (s', err e) h = ([], key ∷ [], refl, h, tt)

  pub IsProgress-bind :
      ((ks ls : List PropIdAreaId) (s s' s'' : Manager F)
        → R ks s s'
        → R ls s' s''
        → R (ks ++ ls) s s'')
      → (ks ls : List PropIdAreaId) (m n : M F (Unit {0})) (s : Manager F) → IsProgress ks s (m s)
      → ((s' : Manager F) → IsProgress ls s' (n s'))
      → IsProgress (ks ++ ls) s ((m >> n) s)
  IsProgress-bind R-append ks ls m n s (before, after, split, done, fin) hn =
      bind-cases (IsProgress (ks ++ ls) s) m (λ a. n) s
        (λ a h.
          let (before', after', split', done', fin') = hn (m s).0 in
          let e : after ≡ [] = rw h at fin in
          (
            before ++ before',
            after',
            rw (split, e, split') (simp (append_assoc, append-nil)),
            R-append before before' s (m s).0 (n (m s).0).0 done done',
            fin',
          ))
        λ e h. (before, after ++ ls, rw split (append_assoc before after ls), done, tt)
