-- ===== src/Jbd/Request.antt =====
-- The request that `build_request` sends.
use limonitor.Common.{ℕ, ◌/◌, ◌%◌, ◌^◌, ◌≡◌, [], ◌∷◌, arith, All}
use limonitor.Jbd.{start_byte, end_byte, build_request, checksum, sum32}
use limonitor.Jbd.Sound.{IsByte}

-- A request carries the checksum that the parser's own `checksum` gives for its command and length
-- bytes, high byte first, and consists of bytes.
pub build_request-checksum :
    (cmd : ℕ)
    → IsByte cmd
    → let ck = checksum (cmd ∷ 0 ∷ []) in
      (build_request cmd ≡ start_byte ∷ 0xA5 ∷ cmd ∷ 0 ∷ ck / 2 ^ 8 ∷ ck % 2 ^ 8 ∷ end_byte ∷ [])
      × All IsByte (build_request cmd)
unfolding build_request checksum sum32
build_request-checksum cmd h = ground arith
