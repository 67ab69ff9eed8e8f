-- ===== src/PagerFork/Header.antt =====
-- The four bytes of a length, written and read.
use fiveman.Common.{ℕ, ◌^◌, ◌<◌, ◌≡◌, arith}
use fiveman.PagerFork.{htonl, ntohl}

-- A length of 32 bits is read back as it was written.
pub ntohl-htonl : (n : ℕ) → n < 2 ^ 32 → ntohl (htonl n) ≡ n
unfolding ntohl htonl
ntohl-htonl n h = omega arith
