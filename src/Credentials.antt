-- ===== src/Credentials.antt =====
-- unixcreds_linux.go: the check of a peer's credentials, and the handshake that makes it. The connection,
-- its system calls and the user's function enter as their results.
pub mod Check
use ttrpc.Prelude.{
  ℕ, zero, ◌-◌, ◌%◌, Bool, true, false, not, ◌&&◌, ◌||◌, Option, none, some, if◌then◌else◌, ◌==◌,
  nat_eq, string_eq,
}
use ttrpc.Errors.{Error, Result, ok, err, plain, text, wrap}

-- Go's `int`: `negsuc n` is -(n + 1).
pub data ℤ : Type 0 where
  pos : ℕ → ℤ
  negsuc : ℕ → ℤ

-- `uint32(i)`
unfoldable pub to_uint32 : ℤ → ℕ
to_uint32 (pos n) = n % 4294967296
to_uint32 (negsuc n) = 4294967295 - n % 4294967296

-- `i != -1`
unfoldable pub is_given : ℤ → Bool
is_given (negsuc zero) = false
is_given _ = true

-- `unix.Ucred`
pub record Ucred : Type 0 where
  pub uid : ℕ
  pub gid : ℕ

abbrev invalid_credentials : Error
invalid_credentials = text (plain "ttrpc: invalid credentials: %v")

unfoldable pub mismatch : ℤ → ℕ → Bool
mismatch i n = is_given i && not (to_uint32 i == n)

-- `requireUidGid`; `none` is nil.
unfoldable pub require_uid_gid : Ucred → ℤ → ℤ → Option Error
require_uid_gid ucred uid gid =
    if mismatch uid ucred.uid || mismatch gid ucred.gid then some invalid_credentials else none

-- `UnixSocketRequireUidGid` and `UnixSocketRequireRoot`
unfoldable pub unix_socket_require_uid_gid : ℤ → ℤ → Ucred → Option Error
unix_socket_require_uid_gid uid gid ucred = require_uid_gid ucred uid gid

unix_socket_require_root : Ucred → Option Error
unix_socket_require_root = unix_socket_require_uid_gid (pos 0) (pos 0)

-- The steps of `Handshake`: whether the connection is a unix socket, and what `SyscallConn`, `Control`
-- and `GetsockoptUcred` return.
pub record Socket : Type 0 where
  pub is_unix : Bool
  pub raw_error : Option Error
  pub control_error : Option Error
  pub peer : Result Ucred

abbrev not_unix : Error
not_unix = text (plain "a unix socket connection is required")

unfoldable pub check_peer : (Ucred → Option Error) → Result Ucred → Result Ucred
check_peer fn (err e) =
    err (wrap "ttrpc.UnixCredentialsFunc: failed to retrieve socket peer credentials: %w" e)
check_peer fn (ok ucred) = elim (fn ucred) [
  | some e ↦ err (wrap "ttrpc.UnixCredentialsFunc: credential check failed: %w" e)
  | none ↦ ok ucred
]

unfoldable pub check_control : (Ucred → Option Error) → Socket → Option Error → Result Ucred
check_control fn s (some e) =
    err (wrap "ttrpc.UnixCredentialsFunc: (*syscall.RawConn).Control failed: %w" e)
check_control fn s none = check_peer fn s.peer

unfoldable pub check_raw : (Ucred → Option Error) → Socket → Option Error → Result Ucred
check_raw fn s (some e) =
    err (wrap "ttrpc.UnixCredentialsFunc: (net.UnixConn).SyscallConn failed: %w" e)
check_raw fn s none = check_control fn s s.control_error

-- `UnixCredentialsFunc.Handshake`, whose second result is the peer's credentials.
unfoldable pub handshake : (Ucred → Option Error) → Socket → Result Ucred
handshake fn s =
    if s.is_unix
    then check_raw fn s s.raw_error
    else err (wrap "ttrpc.UnixCredentialsFunc: require unix socket: %w" not_unix)
