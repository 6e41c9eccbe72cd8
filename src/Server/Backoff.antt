-- ===== src/Server/Backoff.antt =====
-- The pause of the accept loop.
use ttrpc.Prelude.{ℕ, zero, suc, ◌*◌, ◌^◌, ◌≤◌, ◌<◌, min, ◌≡◌, arith, nat_eq, string_eq}
use native.Mathlib.Nat.{pow-suc}
use ttrpc.Server.{next_backoff, millisecond, second}

-- The backoff after `n` failures in a row, from 0
unfoldable pub backoff_after : ℕ → ℕ
backoff_after zero = 0
backoff_after (suc n) = next_backoff (backoff_after n)

next_backoff-double :
    (n b : ℕ)
    → (b ≡ min second (millisecond * 2 ^ n)) × (0 < b) × (b ≤ second)
    → (next_backoff b ≡ min second (millisecond * 2 ^ suc n))
      × (0 < next_backoff b)
      × (next_backoff b ≤ second)
unfolding next_backoff
next_backoff-double n b h = ground (arith, pow-suc 2 n)

-- After any number of temporary failures in a row the backoff is one millisecond, doubled with each
-- failure behind the first, but never more than a second; so the bound of the random pause is positive,
-- as `rand.Int63n` asks.
pub backoff_after_lem :
    (n : ℕ)
    → (backoff_after (suc n) ≡ min second (millisecond * 2 ^ n))
      × (0 < backoff_after (suc n))
      × (backoff_after (suc n) ≤ second)
unfolding backoff_after next_backoff
backoff_after_lem zero = ground arith
backoff_after_lem (suc n) = next_backoff-double n (backoff_after (suc n)) (backoff_after_lem n)
