-- ===== src/Fingerprint/Examples.antt =====
-- fingerprint.h: a delta over the wrapping algebra.
use everett.Base.{ℕ, ◌≡◌, ◌+◌, none, some}
use everett.Fingerprint.{Word, wrap, wrapping_fingerprint_algebra, binding, delta}
use everett.Fingerprint.Laws.{wrapping-IsRing, delta-binding}

abbrev key_hash : ℕ → Word
key_hash n = wrap (n + 3)

delta-binding_example :
    delta wrapping_fingerprint_algebra key_hash wrap 4 (some 9) none
    ≡ wrapping_fingerprint_algebra.subtract
        (binding wrapping_fingerprint_algebra key_hash wrap 4 none)
        (binding wrapping_fingerprint_algebra key_hash wrap 4 (some 9))
delta-binding_example =
    delta-binding wrapping_fingerprint_algebra wrapping-IsRing key_hash wrap 4 (some 9) none
