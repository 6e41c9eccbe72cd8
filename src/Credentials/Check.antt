-- ===== src/Credentials/Check.antt =====
-- Who passes the credentials check.
use ttrpc.Prelude.{
  ℕ, zero, suc, ◌<◌, ◌≡◌, refl, ◌↔◌, true, false, Option, none, arith, nat_eq, string_eq,
}
use ttrpc.Errors.{Error, ok}
use ttrpc.Credentials.{
  ℤ, pos, negsuc, to_uint32, is_given, Ucred, mismatch, require_uid_gid,
  unix_socket_require_uid_gid, Socket, check_peer, check_control, check_raw, handshake,
}

-- A required identifier of 32 bits is met by that identifier and no other; -1 asks for nothing.
abbrev pub Meets : ℤ → ℕ → Type 0
Meets (pos n) id = n ≡ id
Meets (negsuc zero) id = Unit {0}
Meets (negsuc (suc n)) id = ⊥

-- The requirements that make sense: -1, or an unsigned number of 32 bits.
abbrev IsRequirement : ℤ → Type 0
IsRequirement (pos n) = n < 4294967296
IsRequirement (negsuc zero) = Unit {0}
IsRequirement (negsuc (suc n)) = ⊥

mismatch_iff : (i : ℤ) (id : ℕ) → IsRequirement i → (mismatch i id ≡ false) ↔ Meets i id
unfolding mismatch is_given to_uint32
mismatch_iff (pos n) id h = ground arith
mismatch_iff (negsuc zero) id h = ((λ e. tt), (λ u. refl))
mismatch_iff (negsuc (suc n)) id h = absurd h

handshake-peer :
    (fn : Ucred → Option Error) (s : Socket) (u : Ucred)
    → handshake fn s ≡ ok u
    → (s.is_unix ≡ true)
      × (s.raw_error ≡ none)
      × (s.control_error ≡ none)
      × (s.peer ≡ ok u)
      × (fn u ≡ none)
unfolding handshake check_raw check_control check_peer
handshake-peer fn s u e = ground arith

-- A handshake that requires a user and a group, each -1 or a number of 32 bits, approves a connection
-- only if it is a unix socket whose peer, by the credentials that the kernel gave, meets both
-- requirements; and it hands on these credentials.
pub handshake_sound :
    (uid gid : ℤ) (s : Socket) (u : Ucred)
    → IsRequirement uid
    → IsRequirement gid
    → handshake (unix_socket_require_uid_gid uid gid) s ≡ ok u
    → (s.is_unix ≡ true) × (s.peer ≡ ok u) × Meets uid u.uid × Meets gid u.gid
unfolding unix_socket_require_uid_gid require_uid_gid
handshake_sound uid gid s u hu hg e =
    let (is_unix, no_raw, no_control, peer, passed) = handshake-peer _ s u e in
    (
      is_unix,
      peer,
      (mismatch_iff uid u.uid hu).0 (ground arith),
      (mismatch_iff gid u.gid hg).0 (ground arith),
    )
