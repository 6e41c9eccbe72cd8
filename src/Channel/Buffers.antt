-- ===== src/Channel/Buffers.antt =====
-- `getmbuf`: the buffers for payloads.
use ttrpc.Prelude.{◌≤◌, ◌≡◌, ℕ, Option, none, some, arith}
use ttrpc.Channel.{Buffer, getmbuf}

-- The buffer that `getmbuf` gives has the length that was asked for, and room for it, whatever the pool
-- had.
getmbuf_lem : (o : Option Buffer) (n : ℕ) → ((getmbuf o n).size ≡ n) × (n ≤ (getmbuf o n).capacity)
unfolding getmbuf
getmbuf_lem none n = ground arith
getmbuf_lem (some b) n = ground arith
