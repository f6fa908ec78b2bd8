-- ===== src/Backend/Rules.antt =====
-- Rules to reason about steps that may fail.
use shfm.Common.{◌≡◌, ◌≢◌, refl}
use shfm.Backend.{Disk, M, Reply, ok, failed, not_supported, if_ok, if_unsupported, ◌>>?◌}

pub not_ok_failed : failed ≢ ok
not_ok_failed e = cc

pub not_ok_unsupported : not_supported ≢ ok
not_ok_unsupported e = cc

module _ (Q : Reply → Disk → Type 0) where
  abbrev pub Ensures : Reply × Disk → Type 0
  Ensures (r, d) = Q r d

  after_if_ok :
      (k : M Reply) (r : Reply) (d : Disk)
      → (r ≡ ok → Ensures (k d))
      → (r ≢ ok → Q r d)
      → Ensures (if_ok r k d)
  after_if_ok k ok d good bad = good refl
  after_if_ok k failed d good bad = bad not_ok_failed
  after_if_ok k not_supported d good bad = bad not_ok_unsupported

  -- What the second step ensures where the first succeeds, and the first where it fails.
  pub Ensures-and_then :
      (m k : M Reply) (d : Disk)
      → ((m d).0 ≡ ok → Ensures (k (m d).1))
      → ((m d).0 ≢ ok → Q (m d).0 (m d).1)
      → Ensures ((m >>? k) d)
  Ensures-and_then m k d good bad = after_if_ok k (m d).0 (m d).1 good bad

  pub Ensures-if_unsupported :
      (k : M Reply) (r : Reply) (d : Disk)
      → (r ≡ not_supported → Ensures (k d))
      → (r ≢ not_supported → Q r d)
      → Ensures (if_unsupported r k d)
  Ensures-if_unsupported k ok d fallback done = done (λ e. cc)
  Ensures-if_unsupported k failed d fallback done = done (λ e. cc)
  Ensures-if_unsupported k not_supported d fallback done = fallback refl
